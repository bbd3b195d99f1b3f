-- ===== src/Utf8/Valid.antt =====
-- `vsx_utf8_is_valid_string` accepts the encodings of lists of characters.
use verda_sxtelo.Common.{
  ℕ, zero, suc, ◌+◌, ◌*◌, ◌/◌, ◌%◌, ◌<◌, ◌≤◌, ◌≡◌, refl, arith, true, List, [], ◌∷◌, ◌++◌,
  if◌then◌else◌, drop, length, ◌⊎◌, none, some, All, ◌∙◌, length-append, drop-append,
}
use verda_sxtelo.Utf8.Bytes.{ascii_mask, lead2, lead3, lead4, continuation}
use verda_sxtelo.Utf8.Encode.{
  encode_all, encoding, encode-encoding, get_char-two, get_char-three, get_char-four,
}
use verda_sxtelo.Utf8.{sequence, following, allowed, valid_step, valid_loop, is_valid_string}

-- The characters that a string may hold: no terminator, no half of a UTF-16 pair, nothing beyond
-- the last code point.
pub record IsScalar (ch : ℕ) : Type 0 where
  pub nonzero : 0 < ch
  pub no_pair : (ch < 0xd800) ⊎ (0xe000 ≤ ch)
  pub in_range : ch < 0x110000

pub step-one : (b : ℕ) (p : List ℕ) → b < 0x80 → valid_step (b ∷ p) ≡ some 1
unfolding valid_step
step-one b p h = rw (ascii_mask b h)

pub step-two :
    (x y : ℕ) (p : List ℕ)
    → x < 32
    → y < 64
    → valid_step ((0xc0 + x) ∷ (0x80 + y) ∷ p)
      ≡ (if allowed (x * 64 + y) 0x80 then some 2 else none)
unfolding valid_step sequence following
step-two x y p hx hy =
    let l = lead2 x hx in
    rw (l.not_ascii, l.three, (continuation y hy).top, get_char-two x y p hx hy)

pub step-three :
    (x y z : ℕ) (p : List ℕ)
    → x < 16
    → y < 64
    → z < 64
    → valid_step ((0xe0 + x) ∷ (0x80 + y) ∷ (0x80 + z) ∷ p)
      ≡ (if allowed ((x * 64 + y) * 64 + z) 0x800 then some 3 else none)
unfolding valid_step sequence following
step-three x y z p hx hy hz =
    let l = lead3 x hx in
    rw (
      l.not_ascii,
      l.three,
      l.four,
      (continuation y hy).top,
      (continuation z hz).top,
      get_char-three x y z p hx hy hz,
    )

pub step-four :
    (x y z w : ℕ) (p : List ℕ)
    → x < 8
    → y < 64
    → z < 64
    → w < 64
    → valid_step ((0xf0 + x) ∷ (0x80 + y) ∷ (0x80 + z) ∷ (0x80 + w) ∷ p)
      ≡ (if allowed (((x * 64 + y) * 64 + z) * 64 + w) 0x10000 then some 4 else none)
unfolding valid_step sequence following
step-four x y z w p hx hy hz hw =
    let l = lead4 x hx in
    rw (
      l.not_ascii,
      l.three,
      l.four,
      l.five,
      (continuation y hy).top,
      (continuation z hz).top,
      (continuation w hw).top,
      get_char-four x y z w p hx hy hz hw,
    )

-- One round takes the encoding of a character.
step-encoding :
    (ch : ℕ) (rest : List ℕ)
    → IsScalar ch
    → valid_step (encoding ch ++ rest) ≡ some (length (encoding ch))
unfolding encoding allowed
step-encoding ch rest s = ground (
  arith,
  step-one ch rest,
  step-two (ch / 64) (ch % 64) rest,
  step-three (ch / 64 / 64) (ch / 64 % 64) (ch % 64) rest,
  step-four (ch / 64 / 64 / 64) (ch / 64 / 64 % 64) (ch / 64 % 64) (ch % 64) rest,
)

pub loop-step :
    (fuel n : ℕ) (p : List ℕ)
    → valid_step p ≡ some n
    → 0 < length p
    → valid_loop (suc fuel) p ≡ valid_loop fuel (drop n p)
unfolding valid_loop
loop-step fuel n [] e h = absurd (omega arith)
loop-step fuel n (b ∷ p) e h = rw (e, valid_loop)

length-encoding : (ch : ℕ) → 0 < length (encoding ch)
unfolding encoding
length-encoding ch = ground arith

loop-encoding :
    (ch : ℕ) (rest : List ℕ) (fuel : ℕ)
    → IsScalar ch
    → ((f : ℕ) → length rest ≤ f → valid_loop f rest ≡ true)
    → length (encoding ch ++ rest) ≤ fuel
    → valid_loop fuel (encoding ch ++ rest) ≡ true
loop-encoding ch rest zero s ih h =
    absurd (omega (arith, length-append (encoding ch) rest, length-encoding ch))
loop-encoding ch rest (suc fuel) s ih h =
    loop-step fuel (length (encoding ch)) (encoding ch ++ rest) (step-encoding ch rest s)
      (omega (arith, length-append (encoding ch) rest, length-encoding ch))
    ∙ rw (drop-append (encoding ch) rest)
        (ih fuel (omega (arith, length-append (encoding ch) rest, length-encoding ch)))

loop-encode_all :
    (chs : List ℕ) (fuel : ℕ)
    → All IsScalar chs
    → length (encode_all chs) ≤ fuel
    → valid_loop fuel (encode_all chs) ≡ true
unfolding encode_all
loop-encode_all [] zero a h = unfold valid_loop in refl
loop-encode_all [] (suc fuel) a h = unfold valid_loop in refl
loop-encode_all (ch ∷ chs) fuel (s, a) h =
    let e = encode-encoding ch (omega arith) in
    rw e (loop-encoding ch (encode_all chs) fuel s (λ f l. loop-encode_all chs f a l) (rw e at h))

-- The encoding of any list of characters, none of them zero, half of a UTF-16 pair or past
-- 0x10ffff, is accepted as UTF-8.
pub is_valid_string-encode_all :
    (chs : List ℕ) → All IsScalar chs → is_valid_string (encode_all chs) ≡ true
unfolding is_valid_string
is_valid_string-encode_all chs a = loop-encode_all chs (length (encode_all chs)) a (omega arith)
