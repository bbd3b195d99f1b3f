-- ===== src/Utf8/Sound.antt =====
-- `vsx_utf8_is_valid_string` accepts nothing but the encodings of lists of characters.
use verda_sxtelo.Common.{
  ℕ, zero, suc, ◌+◌, ◌-◌, ◌*◌, ◌<◌, ◌≤◌, ◌≡◌, refl, sym, arith, Bool, true, false, bit_and, List,
  [], ◌∷◌, ◌++◌, ◌==◌, if◌then◌else◌, drop, length, ◌⊎◌, inl, inr, none, some, All, ◌∙◌, ap₂, subst,
  All-append_right, Option-cases, none-ne-some, true-ne-false,
}
use native.Mathlib.Decide.{dec_lt}
use verda_sxtelo.Utf8.Bytes.{high_mask, lead2, lead3, lead4, no_sequence, is_continuation}
use verda_sxtelo.Utf8.Encode.{encode_all, encoding, encode-encoding}
use verda_sxtelo.Utf8.{sequence, following, allowed, valid_step, valid_loop, is_valid_string, at}
use verda_sxtelo.Utf8.Valid.{IsScalar, step-one, step-two, step-three, step-four, loop-step}

-- A byte of a C string.
abbrev pub IsCharByte : ℕ → Type 0
IsCharByte b = (0 < b) × (b < 256)

-- What an accepting round has taken.
record Took (p : List ℕ) (n : ℕ) : Type 0 where
  ch : ℕ
  rest : List ℕ
  scalar : IsScalar ch
  taken : p ≡ encoding ch ++ rest
  left : drop n p ≡ rest

continues : ℕ → Bool
continues b = bit_and b 0xc0 == 0x80

-- A list that starts with a continuation byte.
record Continued (p : List ℕ) : Type 0 where
  bits : ℕ
  tail : List ℕ
  small : bits < 64
  shape : p ≡ (0x80 + bits) ∷ tail
  tail_bytes : All IsCharByte tail

continued : (p : List ℕ) → All IsCharByte p → continues (at p 0) ≡ true → Continued p
unfolding continues
continued [] a h = cc
continued (c ∷ q) a h = record {
  bits = c - 0x80;
  tail = q;
  small = omega (arith, is_continuation c a.0.1 h);
  shape = ground (arith, is_continuation c a.0.1 h);
  tail_bytes = a.1;
}

follow-two :
    (x : ℕ) (p : List ℕ) {n : ℕ}
    → x < 32
    → valid_step ((0xc0 + x) ∷ p) ≡ some n
    → continues (at p 0) ≡ true
unfolding valid_step sequence following continues
follow-two x p h e = ground (arith, lead2 x h)

follow-three :
    (x : ℕ) (p : List ℕ) {n : ℕ}
    → x < 16
    → valid_step ((0xe0 + x) ∷ p) ≡ some n
    → (continues (at p 0) ≡ true) × (continues (at p 1) ≡ true)
unfolding valid_step sequence following continues
follow-three x p h e = ground (arith, lead3 x h)

follow-four :
    (x : ℕ) (p : List ℕ) {n : ℕ}
    → x < 8
    → valid_step ((0xf0 + x) ∷ p) ≡ some n
    → (continues (at p 0) ≡ true) × (continues (at p 1) ≡ true) × (continues (at p 2) ≡ true)
unfolding valid_step sequence following continues
follow-four x p h e = ground (arith, lead4 x h)

allowed-IsScalar :
    (ch minimum : ℕ) → 0 < minimum → allowed ch minimum ≡ true → IsScalar ch × (minimum ≤ ch)
unfolding allowed
allowed-IsScalar ch minimum h e = ground arith

if-some : (b : Bool) {k n : ℕ} → (if b then some k else none) ≡ some n → (b ≡ true) × (k ≡ n)
if-some b e = ground arith

Took-two :
    (x y : ℕ) (q : List ℕ) {n : ℕ}
    → x < 32
    → y < 64
    → valid_step ((0xc0 + x) ∷ (0x80 + y) ∷ q) ≡ some n
    → Took ((0xc0 + x) ∷ (0x80 + y) ∷ q) n
Took-two x y q {n} hx hy e =
    let (a, k) = if-some (allowed (x * 64 + y) 0x80) (sym (step-two x y q hx hy) ∙ e) in
    let (s, m) = allowed-IsScalar (x * 64 + y) 0x80 (omega arith) a in
    record {
      ch = x * 64 + y;
      rest = q;
      scalar = s;
      taken = unfold encoding in ground (arith, m, hx, hy);
      left = subst (λ n. drop n ((0xc0 + x) ∷ (0x80 + y) ∷ q) ≡ q) k refl;
    }

Took-three :
    (x y z : ℕ) (q : List ℕ) {n : ℕ}
    → x < 16
    → y < 64
    → z < 64
    → valid_step ((0xe0 + x) ∷ (0x80 + y) ∷ (0x80 + z) ∷ q) ≡ some n
    → Took ((0xe0 + x) ∷ (0x80 + y) ∷ (0x80 + z) ∷ q) n
Took-three x y z q {n} hx hy hz e =
    let ch = (x * 64 + y) * 64 + z in
    let (a, k) = if-some (allowed ch 0x800) (sym (step-three x y z q hx hy hz) ∙ e) in
    let (s, m) = allowed-IsScalar ch 0x800 (omega arith) a in
    record {
      ch = ch;
      rest = q;
      scalar = s;
      taken = unfold encoding in ground (arith, m, hx, hy, hz);
      left = subst (λ n. drop n ((0xe0 + x) ∷ (0x80 + y) ∷ (0x80 + z) ∷ q) ≡ q) k refl;
    }

Took-four :
    (x y z w : ℕ) (q : List ℕ) {n : ℕ}
    → x < 8
    → y < 64
    → z < 64
    → w < 64
    → valid_step ((0xf0 + x) ∷ (0x80 + y) ∷ (0x80 + z) ∷ (0x80 + w) ∷ q) ≡ some n
    → Took ((0xf0 + x) ∷ (0x80 + y) ∷ (0x80 + z) ∷ (0x80 + w) ∷ q) n
Took-four x y z w q {n} hx hy hz hw e =
    let ch = ((x * 64 + y) * 64 + z) * 64 + w in
    let (a, k) = if-some (allowed ch 0x10000) (sym (step-four x y z w q hx hy hz hw) ∙ e) in
    let (s, m) = allowed-IsScalar ch 0x10000 (omega arith) a in
    record {
      ch = ch;
      rest = q;
      scalar = s;
      taken = unfold encoding in ground (arith, m, hx, hy, hz, hw);
      left = subst (λ n. drop n ((0xf0 + x) ∷ (0x80 + y) ∷ (0x80 + z) ∷ (0x80 + w) ∷ q) ≡ q) k refl;
    }

Took-one :
    (b : ℕ) (p : List ℕ) {n : ℕ} → 0 < b → b < 0x80 → valid_step (b ∷ p) ≡ some n → Took (b ∷ p) n
Took-one b p {n} z h e = record {
  ch = b;
  rest = p;
  scalar = record { nonzero = z; no_pair = inl (omega arith); in_range = omega arith };
  taken = unfold encoding in ground arith;
  left = subst (λ n. drop n (b ∷ p) ≡ p) one refl;
}
  where
    one : 1 ≡ n
    one = ground (arith, step-one b p h)

-- The four forms, from a first byte of their class.
Took-two_at :
    (x : ℕ) (p : List ℕ) {n : ℕ}
    → x < 32
    → All IsCharByte p
    → valid_step ((0xc0 + x) ∷ p) ≡ some n
    → Took ((0xc0 + x) ∷ p) n
Took-two_at x p h a e =
    let c = continued p a (follow-two x p h e) in
    rw c.shape (Took-two x c.bits c.tail h c.small (rw c.shape at e))

Took-three_at :
    (x : ℕ) (p : List ℕ) {n : ℕ}
    → x < 16
    → All IsCharByte p
    → valid_step ((0xe0 + x) ∷ p) ≡ some n
    → Took ((0xe0 + x) ∷ p) n
Took-three_at x p h a e =
    let (f, g) = follow-three x p h e in
    let c = continued p a f in
    let d = continued c.tail c.tail_bytes (rw c.shape at g) in
    rw (c.shape, d.shape)
      (Took-three x c.bits d.bits d.tail h c.small d.small (rw (c.shape, d.shape) at e))

Took-four_at :
    (x : ℕ) (p : List ℕ) {n : ℕ}
    → x < 8
    → All IsCharByte p
    → valid_step ((0xf0 + x) ∷ p) ≡ some n
    → Took ((0xf0 + x) ∷ p) n
Took-four_at x p h a e =
    let (f, g, k) = follow-four x p h e in
    let c = continued p a f in
    let d = continued c.tail c.tail_bytes (rw c.shape at g) in
    let l = continued d.tail d.tail_bytes (rw (c.shape, d.shape) at k) in
    rw (c.shape, d.shape, l.shape)
      (Took-four x c.bits d.bits l.bits l.tail h c.small d.small l.small
        (rw (c.shape, d.shape, l.shape) at e))

refused :
    (b : ℕ) (p : List ℕ) → b < 256 → 0x80 ≤ b → (b < 0xc0) ⊎ (0xf8 ≤ b) → valid_step (b ∷ p) ≡ none
unfolding valid_step sequence
refused b p h l o =
    let e : 0x80 + (b - 0x80) ≡ b = omega arith in
    let m : bit_and b 0x80 ≡ 0x80 = rw e at (high_mask (b - 0x80) (omega arith)) in
    let (x, y, z) = no_sequence b h o in rw (m, x, y, z)

-- The classes of a first byte.
data ByteClass : ℕ → Type 0 where
  ascii : {b : ℕ} → b < 0x80 → ByteClass b
  bad : {b : ℕ} → 0x80 ≤ b → (b < 0xc0) ⊎ (0xf8 ≤ b) → ByteClass b
  two : {b : ℕ} (x : ℕ) → x < 32 → b ≡ 0xc0 + x → ByteClass b
  three : {b : ℕ} (x : ℕ) → x < 16 → b ≡ 0xe0 + x → ByteClass b
  four : {b : ℕ} (x : ℕ) → x < 8 → b ≡ 0xf0 + x → ByteClass b

byte_class : (b : ℕ) → ByteClass b
byte_class b = elim (dec_lt b 0x80) [
  | yes l ↦ ascii l
  | no l ↦ elim (dec_lt b 0xc0) [
    | yes l' ↦ bad (omega arith) (inl l')
    | no l' ↦ elim (dec_lt b 0xe0) [
      | yes m ↦ two (b - 0xc0) (omega arith) (omega arith)
      | no m ↦ elim (dec_lt b 0xf0) [
        | yes k ↦ three (b - 0xe0) (omega arith) (omega arith)
        | no k ↦ elim (dec_lt b 0xf8) [
          | yes j ↦ four (b - 0xf0) (omega arith) (omega arith)
          | no j ↦ bad (omega arith) (inr (omega arith))
        ]
      ]
    ]
  ]
]

took :
    (b : ℕ) (p : List ℕ) (n : ℕ)
    → ByteClass b
    → All IsCharByte (b ∷ p)
    → valid_step (b ∷ p) ≡ some n
    → Took (b ∷ p) n
took b p n (ascii l) a e = Took-one b p a.0.0 l e
took b p n (bad l o) a e = absurd (none-ne-some n (sym (refused b p a.0.1 l o) ∙ e))
took b p n (two x l q) a e = rw q (Took-two_at x p l a.1 (rw q at e))
took b p n (three x l q) a e = rw q (Took-three_at x p l a.1 (rw q at e))
took b p n (four x l q) a e = rw q (Took-four_at x p l a.1 (rw q at e))

loop-refused :
    (fuel b : ℕ) (p : List ℕ) → valid_step (b ∷ p) ≡ none → valid_loop (suc fuel) (b ∷ p) ≡ false
unfolding valid_loop
loop-refused fuel b p e = rw (e, valid_loop)

-- The characters that a string encodes.
pub record Decoded (p : List ℕ) : Type 0 where
  pub chars : List ℕ
  pub encoded : p ≡ encode_all chars
  pub scalars : All IsScalar chars

Decoded-cons : {p : List ℕ} {n : ℕ} (t : Took p n) → Decoded t.rest → Decoded p
unfolding encode_all
Decoded-cons t d = record {
  chars = t.ch ∷ d.chars;
  encoded = t.taken ∙ ap₂ ◌++◌ (sym (encode-encoding t.ch (omega arith))) d.encoded;
  scalars = (t.scalar, d.scalars);
}

loop_sound : (fuel : ℕ) (p : List ℕ) → All IsCharByte p → valid_loop fuel p ≡ true → Decoded p
loop_sound fuel [] a h = record { chars = []; encoded = unfold encode_all in refl; scalars = tt }
loop_sound zero (b ∷ p) a h = absurd (true-ne-false (unfold valid_loop in sym h))
loop_sound (suc fuel) (b ∷ p) a h = elim (Option-cases (valid_step (b ∷ p))) [
  | inl e ↦ absurd (true-ne-false (sym h ∙ loop-refused fuel b p e))
  | inr (n, e) ↦
      let t = took b p n (byte_class b) a e in
      Decoded-cons t (
        loop_sound fuel t.rest
          (All-append_right IsCharByte (encoding t.ch) t.rest (subst (All IsCharByte) t.taken a))
          (rw t.left at (sym (loop-step fuel n (b ∷ p) e (omega arith)) ∙ h)))
]

-- A string of nonzero bytes that is accepted as UTF-8 is the encoding of a list of characters,
-- none of them half of a UTF-16 pair or past 0x10ffff.
pub is_valid_string_sound : (p : List ℕ) → All IsCharByte p → is_valid_string p ≡ true → Decoded p
unfolding is_valid_string
is_valid_string_sound p a h = loop_sound (length p) p a h
