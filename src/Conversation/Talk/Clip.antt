-- ===== src/Conversation/Talk/Clip.antt =====
-- Clipping a message keeps it valid UTF-8.
use verda_sxtelo.Common.{
  ℕ, zero, suc, ◌+◌, ◌-◌, ◌/◌, ◌%◌, ◌^◌, ◌≤◌, ◌<◌, ◌≡◌, refl, sym, ◌∙◌, ap, arith, Bool, true, none,
  some, List, [], ◌∷◌, ◌++◌, length, length-append, get_or, take, All, bit_and, ◌==◌, if◌then◌else◌,
  Bool-cases, inl, inr, ◌⊎◌, lt→ltb, lt→ltb-false, none-ne-some,
}
use verda_sxtelo.Utf8.{is_valid_string}
use verda_sxtelo.Utf8.Bytes.{continuation, is_continuation}
use verda_sxtelo.Utf8.Encode.{encode_all, encoding, encode-encoding}
use verda_sxtelo.Utf8.Valid.{IsScalar, is_valid_string-encode_all}
use verda_sxtelo.Utf8.Sound.{IsCharByte, is_valid_string_sound}
use verda_sxtelo.Conversation.Talk.{max_message_length, clip_loop, raw_length}
use native.Mathlib.Decide.{dec_lt}

continues : List ℕ → ℕ → Bool
continues b i = bit_and (get_or b i 0) 0xc0 == 0x80

get_or-append :
    (xs ys : List ℕ) (k i : ℕ) → k ≡ length xs + i → get_or (xs ++ ys) k 0 ≡ get_or ys i 0
get_or-append [] ys k i e = ap (λ k. get_or ys k 0) (e ∙ omega arith)
get_or-append (x ∷ xs) ys zero i e = absurd (omega arith)
get_or-append (x ∷ xs) ys (suc k) i e = get_or-append xs ys k i (omega arith)

clip-suc :
    (b : List ℕ) (k : ℕ)
    → clip_loop b (suc k) ≡ (if continues b (suc k) then clip_loop b k else some (suc k))
unfolding clip_loop continues
clip-suc b k = refl

clip-zero : (b : List ℕ) → clip_loop b 0 ≡ (if continues b 0 then none else some 0)
unfolding clip_loop continues
clip-zero b = refl

-- Clipping behind a part only looks at what follows it.
clip_loop-append :
    (xs ys : List ℕ) (m n k : ℕ)
    → suc k ≡ length xs + m
    → 0 < length xs
    → clip_loop ys m ≡ some n
    → clip_loop (xs ++ ys) (suc k) ≡ some (length xs + n)
unfolding continues
clip_loop-append xs ys zero n k e p h = elim (Bool-cases (continues ys 0)) [
  | inl c ↦ absurd (none-ne-some n (sym (clip-zero ys ∙ rw c) ∙ h))
  | inr c ↦
      let z : some 0 ≡ some n = sym (clip-zero ys ∙ rw c) ∙ h in
      clip-suc (xs ++ ys) k ∙ rw (get_or-append xs ys (suc k) 0 e, c) (ground arith)
]
clip_loop-append xs ys (suc m) n zero e p h = absurd (omega arith)
clip_loop-append xs ys (suc m) n (suc k) e p h = elim (Bool-cases (continues ys (suc m))) [
  | inl c ↦
      clip-suc (xs ++ ys) (suc k)
      ∙ rw (get_or-append xs ys (suc (suc k)) (suc m) e, c)
          (clip_loop-append xs ys m n k (omega arith) p (sym (clip-suc ys m ∙ rw c) ∙ h))
  | inr c ↦
      let z : some (suc m) ≡ some n = sym (clip-suc ys m ∙ rw c) ∙ h in
      clip-suc (xs ++ ys) (suc k)
      ∙ rw (get_or-append xs ys (suc (suc k)) (suc m) e, c) (ground arith)
]

-- Behind its first byte a character has continuation bytes only.
encoding-continues :
    (ch i : ℕ) (rest : List ℕ)
    → suc i < length (encoding ch)
    → continues (encoding ch ++ rest) (suc i) ≡ true
unfolding encoding continues
encoding-continues ch zero rest l =
    ground
      (arith, continuation (ch % 64), continuation (ch / 64 % 64), continuation (ch / 64 / 64 % 64))
encoding-continues ch (suc zero) rest l =
    ground (arith, continuation (ch % 64), continuation (ch / 64 % 64))
encoding-continues ch (suc (suc zero)) rest l = ground (arith, continuation (ch % 64))
encoding-continues ch (suc (suc (suc i))) rest l = absurd (ground arith)

-- Within the first character everything goes.
clip_first :
    (ch m : ℕ) (rest : List ℕ)
    → ch < 2 ^ 21
    → m < length (encoding ch)
    → clip_loop (encoding ch ++ rest) m ≡ some 0
unfolding encoding clip_loop
clip_first ch zero rest h l = ground (
  arith,
  is_continuation ch,
  is_continuation (0xc0 + ch / 64),
  is_continuation (0xe0 + ch / 64 / 64),
  is_continuation (0xf0 + ch / 64 / 64 / 64),
)
clip_first ch (suc m) rest h l =
    clip-suc (encoding ch ++ rest) m
    ∙ rw (encoding-continues ch m rest l) (clip_first ch m rest h (omega arith))

length-encoding : (ch : ℕ) → (1 ≤ length (encoding ch)) × (length (encoding ch) ≤ 4)
unfolding encoding
length-encoding ch = ground arith

take-append_add : (xs ys : List ℕ) (n : ℕ) → take (length xs + n) (xs ++ ys) ≡ xs ++ take n ys
take-append_add [] ys n = ap (λ k. take k ys) (omega arith)
take-append_add (x ∷ xs) ys n = rw (suc-add (length xs) n) (ap (◌∷◌ x) (take-append_add xs ys n))
  where
    suc-add : (m n : ℕ) → suc m + n ≡ suc (m + n)
    suc-add m n = omega arith

-- What clipping at `m` keeps: some of the characters, and all but at most three of the bytes.
pub record Clipped (chs : List ℕ) (m : ℕ) : Type 0 where
  pub size : ℕ
  pub result : clip_loop (encode_all chs) m ≡ some size
  pub kept : List ℕ
  pub scalars : All IsScalar kept
  pub text : take size (encode_all chs) ≡ encode_all kept
  pub fits : size ≤ m
  pub close : m < size + 4

encode_all-cons :
    (ch : ℕ) (chs : List ℕ) → ch < 2 ^ 21 → encode_all (ch ∷ chs) ≡ encoding ch ++ encode_all chs
unfolding encode_all
encode_all-cons ch chs h = rw (encode-encoding ch h)

encode_all-nil : encode_all [] ≡ []
unfolding encode_all
encode_all-nil = refl

-- Clipping inside the first character, and behind it.
clip_in :
    (ch : ℕ) (chs : List ℕ) (m : ℕ) → IsScalar ch → m < length (encoding ch) → Clipped (ch ∷ chs) m
clip_in ch chs m s h = record {
  size = 0;
  result =
      rw (encode_all-cons ch chs (omega arith)) (clip_first ch m (encode_all chs) (omega arith) h);
  kept = [];
  scalars = tt;
  text = sym encode_all-nil;
  fits = omega arith;
  close = omega (arith, length-encoding ch);
}

clip_behind :
    (ch : ℕ) (chs : List ℕ) (m k : ℕ)
    → IsScalar ch
    → suc k ≡ length (encoding ch) + m
    → Clipped chs m
    → Clipped (ch ∷ chs) (suc k)
clip_behind ch chs m k s h r =
    let xs = encoding ch in
    let ys = encode_all chs in
    let e = encode_all-cons ch chs (omega arith) in
    record {
      size = length xs + r.size;
      result =
          rw e (clip_loop-append xs ys m r.size k h (omega (arith, length-encoding ch)) r.result);
      kept = ch ∷ r.kept;
      scalars = (s, r.scalars);
      text =
          rw (e, take-append_add xs ys r.size, r.text)
            (sym (encode_all-cons ch r.kept (omega arith)));
      fits = omega (arith, r.fits);
      close = omega (arith, r.close);
    }

clip-encode_all :
    (chs : List ℕ) (m : ℕ) → All IsScalar chs → m < length (encode_all chs) → Clipped chs m
clip-encode_all [] m a h = absurd (omega (arith, ap length encode_all-nil))
clip-encode_all (ch ∷ chs) zero (s, a) h = clip_in ch chs 0 s (omega (arith, length-encoding ch))
clip-encode_all (ch ∷ chs) (suc k) (s, a) h = elim (dec_lt (suc k) (length (encoding ch))) [
  | yes l ↦ clip_in ch chs (suc k) s l
  | no l ↦ clip_behind ch chs (suc k - length (encoding ch)) k s (omega arith) (
      clip-encode_all chs (suc k - length (encoding ch)) a (
        omega (
          arith,
          length-append (encoding ch) (encode_all chs),
          ap length (encode_all-cons ch chs (omega arith)),
        )))
]

-- What is kept of a message.
pub record Kept (buffer : List ℕ) : Type 0 where
  pub size : ℕ
  pub result : raw_length buffer ≡ some size
  pub valid : is_valid_string (take size buffer) ≡ true
  pub fits : size ≤ max_message_length
  pub close :
      (size ≡ length buffer)
      ⊎ (max_message_length < length buffer) × (max_message_length < size + 4)

take_all {ℓ} : {A : Type ℓ} (xs : List A) → take (length xs) xs ≡ xs
take_all [] = refl
take_all (x ∷ xs) = ap (◌∷◌ x) (take_all xs)

-- Of a message that is valid UTF-8 without a zero byte, clipping returns and keeps valid UTF-8 of
-- at most 1000 bytes: the whole message, or where the message is longer than that, a beginning
-- that lacks at most three of the first 1000 bytes.
pub raw_length-Kept :
    (buffer : List ℕ) → All IsCharByte buffer → is_valid_string buffer ≡ true → Kept buffer
unfolding raw_length
raw_length-Kept buffer a v =
    let d = is_valid_string_sound buffer a v in
    elim (dec_lt max_message_length (length buffer)) [
      | no short ↦ record {
        size = length buffer;
        result = rw (lt→ltb-false _ _ short);
        valid = rw (take_all buffer) v;
        fits = omega arith;
        close = inl refl;
      }
      | yes long ↦
          let c =
            clip-encode_all d.chars max_message_length d.scalars
              (omega (arith, ap length d.encoded)) in
          record {
            size = c.size;
            result =
                rw (lt→ltb _ _ long)
                  (ap (λ b. clip_loop b max_message_length) d.encoded ∙ c.result);
            valid =
                rw (ap (take c.size) d.encoded ∙ c.text)
                  (is_valid_string-encode_all c.kept c.scalars);
            fits = c.fits;
            close = inr (long, c.close);
          }
    ]
