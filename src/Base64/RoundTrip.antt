-- ===== src/Base64/RoundTrip.antt =====
-- What was encoded is decoded again.
use verda_sxtelo.Common.{
  ℕ, ◌+◌, ◌*◌, ◌/◌, ◌%◌, ◌^◌, ◌<◌, ◌≡◌, refl, ◌∙◌, ap, ap₂, arith, some, List, [], ◌∷◌, ◌++◌, All,
  bit_or, ==_iff,
}
use verda_sxtelo.Common.Bits.{or_six, or_eight, or_sixteen, low_six, bit_and_three, bit_and_fifteen}
use verda_sxtelo.Base64.{
  Base64Data, alphabet_value, decode_start, push, prepend, decode_loop, handle_padding, decode,
  done, decode_end, to_alphabet_value, quad, encode_base64,
}
use verda_sxtelo.Base64.Stream.{prepend_nothing}

abbrev pub IsByte : ℕ → Type 0
IsByte b = b < 256

alphabet_value-to_alphabet_value : (v : ℕ) → v < 64 → alphabet_value (to_alphabet_value v) ≡ some v
unfolding alphabet_value to_alphabet_value
alphabet_value-to_alphabet_value v h = ground arith

-- The state without padding.
abbrev plain : ℕ → ℕ → Base64Data
plain n x = record { n_padding = 0; n_chars = n; value = x }

-- The value after six more bits.
abbrev joined : ℕ → ℕ → ℕ
joined x v = x % 2 ^ 26 * 64 + v

abbrev bytes : ℕ → List ℕ
bytes x = x / 2 ^ 16 % 256 ∷ x / 2 ^ 8 % 256 ∷ x % 256 ∷ []

or_joined : (x v : ℕ) → v < 64 → bit_or (x * 2 ^ 6 % 2 ^ 32) v ≡ joined x v
or_joined x v h = rw (moved x) (or_six (x % 2 ^ 26) v h)
  where
    moved : (x : ℕ) → x * 2 ^ 6 % 2 ^ 32 ≡ x % 2 ^ 26 * 64
    moved x = omega arith

push_more : (n x v : ℕ) → n < 3 → v < 64 → push (plain n x) v ≡ (plain (n + 1) (joined x v), [])
unfolding push
push_more n x v l h = rw (or_joined x v h) (ground arith)

push_last : (x v : ℕ) → v < 64 → push (plain 3 x) v ≡ (plain 0 (joined x v), bytes (joined x v))
unfolding push
push_last x v h = rw (or_joined x v h) refl

take_char :
    (d : Base64Data) (v : ℕ) (rest : List ℕ)
    → v < 64
    → decode_loop d (to_alphabet_value v ∷ rest)
      ≡ prepend (push d v).1 (decode_loop (push d v).0 rest)
unfolding decode_loop
take_char d v rest h = rw (alphabet_value-to_alphabet_value v h, decode_loop)

take_more :
    (n x v : ℕ) (rest : List ℕ)
    → n < 3
    → v < 64
    → decode_loop (plain n x) (to_alphabet_value v ∷ rest)
      ≡ decode_loop (plain (n + 1) (joined x v)) rest
take_more n x v rest l h =
    take_char (plain n x) v rest h
    ∙ rw (push_more n x v l h) (prepend_nothing (decode_loop (plain (n + 1) (joined x v)) rest))

take_last :
    (x v : ℕ) (rest : List ℕ)
    → v < 64
    → decode_loop (plain 3 x) (to_alphabet_value v ∷ rest)
      ≡ prepend (bytes (joined x v)) (decode_loop (plain 0 (joined x v)) rest)
take_last x v rest h = take_char (plain 3 x) v rest h ∙ rw (push_last x v h) refl

-- The value of two and of three bytes.
two_bytes : (a b : ℕ) → b < 256 → bit_or (a * 2 ^ 16) (b * 2 ^ 8) ≡ a * 65536 + b * 256
two_bytes a b h = or_sixteen a (b * 256) (omega arith)

three_bytes :
    (a b c : ℕ)
    → b < 256
    → c < 256
    → bit_or (bit_or (a * 2 ^ 16) (b * 2 ^ 8)) c ≡ a * 65536 + b * 256 + c
three_bytes a b c h k =
    rw (two_bytes a b h, factored a b) (or_eight (a * 256 + b) c k ∙ omega arith)
  where
    factored : (a b : ℕ) → a * 65536 + b * 256 ≡ (a * 256 + b) * 256
    factored a b = omega arith

-- How decoding goes on from bytes that were encoded.
record Decoded (x : ℕ) (bs : List ℕ) : Type 0 where
  after : Base64Data
  out : List ℕ
  rest : List ℕ
  result : decode_loop (plain 0 x) (encode_base64 bs) ≡ (after, some out)
  ending : decode_end after ≡ done rest
  whole : out ++ rest ≡ bs

-- The characters that stand for 24 bits.
quad_digits :
    (v : ℕ)
    → quad v
      ≡ to_alphabet_value (v / 2 ^ 18)
        ∷ to_alphabet_value (v / 2 ^ 12 % 64)
        ∷ to_alphabet_value (v / 2 ^ 6 % 64)
        ∷ to_alphabet_value (v % 64)
        ∷ []
unfolding quad
quad_digits v = rw (low_six (v / 2 ^ 12), low_six (v / 2 ^ 6), low_six v) refl

-- The value after three characters and after four.
abbrev three_joined : ℕ → ℕ → ℕ
three_joined x v = joined (joined (joined x (v / 2 ^ 18)) (v / 2 ^ 12 % 64)) (v / 2 ^ 6 % 64)

take_three :
    (x v : ℕ) (rest : List ℕ)
    → v < 2 ^ 24
    → decode_loop (plain 0 x) (
        to_alphabet_value (v / 2 ^ 18)
        ∷ to_alphabet_value (v / 2 ^ 12 % 64)
        ∷ to_alphabet_value (v / 2 ^ 6 % 64)
        ∷ rest)
      ≡ decode_loop (plain 3 (three_joined x v)) rest
take_three x v rest h =
    let x₁ = joined x (v / 2 ^ 18) in
    let x₂ = joined x₁ (v / 2 ^ 12 % 64) in
    take_more 0 x (v / 2 ^ 18) _ (omega arith) (omega arith)
    ∙ take_more 1 x₁ (v / 2 ^ 12 % 64) _ (omega arith) (omega arith)
    ∙ take_more 2 x₂ (v / 2 ^ 6 % 64) rest (omega arith) (omega arith)

joined_low : (x v : ℕ) → v < 2 ^ 24 → joined (three_joined x v) (v % 64) % 2 ^ 24 ≡ v
joined_low x v h = omega arith

joined_bytes :
    (y a b c : ℕ)
    → a < 256
    → b < 256
    → c < 256
    → y % 2 ^ 24 ≡ a * 65536 + b * 256 + c
    → bytes y ≡ a ∷ b ∷ c ∷ []
joined_bytes y a b c ha hb hc e =
    let p : y / 2 ^ 16 % 256 ≡ a = omega arith in
    let q : y / 2 ^ 8 % 256 ≡ b = omega arith in let r : y % 256 ≡ c = omega arith in cc

-- Three bytes are decoded whatever comes after them.
quad_lem :
    (x a b c : ℕ) (rest : List ℕ)
    → a < 256
    → b < 256
    → c < 256
    → (y : ℕ) × (decode_loop (plain 0 x) (quad (bit_or (bit_or (a * 2 ^ 16) (b * 2 ^ 8)) c) ++ rest)
        ≡ prepend (a ∷ b ∷ c ∷ []) (decode_loop (plain 0 y) rest))
quad_lem x a b c rest ha hb hc =
    let v = a * 65536 + b * 256 + c in
    let x₃ = three_joined x v in
    let h : v < 2 ^ 24 = omega arith in
    let last = v % 64 in
    (
      joined x₃ last,
      rw (three_bytes a b c hb hc, quad_digits v)
          (take_three x v (to_alphabet_value last ∷ rest) h
            ∙ take_last x₃ last rest (omega arith)
            ∙ ap (λ out. prepend out (decode_loop (plain 0 (joined x₃ last)) rest))
                (joined_bytes (joined x₃ last) a b c ha hb hc (joined_low x v h))),
    )

-- One byte more, and its two padding characters.
one_byte : (x a : ℕ) → a < 256 → Decoded x (a ∷ [])
unfolding encode_base64 decode_loop handle_padding alphabet_value decode_end
one_byte x a h =
    let v = a * 2 ^ 16 in
    let x₁ = joined x (v / 2 ^ 18) in
    let y = joined x₁ (v / 2 ^ 12 % 64) in
    record {
      after = record { n_padding = 2; n_chars = 2; value = y };
      out = [];
      rest = y / 2 ^ 4 % 256 ∷ [];
      result = rw (low_six (v / 2 ^ 12)) (
          take_more 0 x (v / 2 ^ 18) (to_alphabet_value (v / 2 ^ 12 % 64) ∷ 61 ∷ 61 ∷ [])
            (omega arith) (omega arith)
          ∙ take_more 1 x₁ (v / 2 ^ 12 % 64) (61 ∷ 61 ∷ []) (omega arith) (omega arith));
      ending = rw (bit_and_fifteen y, (==_iff (y % 16) 0).1 (omega arith)) refl;
      whole = ap (λ b. b ∷ []) (omega arith);
    }

-- Two bytes more, and their padding character.
two_more : (x a b : ℕ) → a < 256 → b < 256 → Decoded x (a ∷ b ∷ [])
unfolding encode_base64 decode_loop handle_padding alphabet_value decode_end
two_more x a b ha hb =
    let v = a * 65536 + b * 256 in
    let y = three_joined x v in
    record {
      after = record { n_padding = 1; n_chars = 3; value = y };
      out = [];
      rest = y / 2 ^ 10 % 256 ∷ y / 2 ^ 2 % 256 ∷ [];
      result =
          rw (two_bytes a b hb, low_six (v / 2 ^ 12), low_six (v / 2 ^ 6))
            (take_three x v (61 ∷ []) (omega arith));
      ending = rw (bit_and_three y, (==_iff (y % 4) 0).1 (omega arith)) refl;
      whole =
          ap₂ (λ p q. p ∷ q ∷ []) (high x v (omega arith) ∙ omega arith)
            (low x v (omega arith) ∙ omega arith);
    }
  where
    high : (x v : ℕ) → v < 2 ^ 24 → three_joined x v / 2 ^ 10 % 256 ≡ v / 2 ^ 16
    high x v h = omega arith

    low : (x v : ℕ) → v < 2 ^ 24 → three_joined x v / 2 ^ 2 % 256 ≡ v / 2 ^ 8 % 256
    low x v h = omega arith

decoded : (bs : List ℕ) (x : ℕ) → All IsByte bs → Decoded x bs
unfolding encode_base64 decode_loop decode_end
decoded [] x h = record {
  after = plain 0 x;
  out = [];
  rest = [];
  result = refl;
  ending = refl;
  whole = refl;
}
decoded (a ∷ []) x (ha, h) = one_byte x a ha
decoded (a ∷ b ∷ []) x (ha, (hb, h)) = two_more x a b ha hb
decoded (a ∷ b ∷ c ∷ bs) x (ha, (hb, (hc, h))) =
    let (y, e) = quad_lem x a b c (encode_base64 bs) ha hb hc in
    let r = decoded bs y h in
    record {
      after = r.after;
      out = a ∷ b ∷ c ∷ r.out;
      rest = r.rest;
      result = e ∙ rw r.result refl;
      ending = r.ending;
      whole = rw r.whole refl;
    }

-- What was encoded as base64 from any bytes is decoded without an error, and the bytes written by
-- the decoder and by its end together are the ones that were encoded.
pub decode-encode_base64 :
    (bs : List ℕ)
    → All IsByte bs
    → (after : Base64Data) × (out : List ℕ) × (rest : List ℕ) × (decode decode_start
          (encode_base64 bs)
        ≡ (after, some out))
      × (decode_end after ≡ done rest)
      × (out ++ rest ≡ bs)
unfolding decode decode_start
decode-encode_base64 bs h =
    let r = decoded bs 0 h in (r.after, r.out, r.rest, r.result, r.ending, r.whole)
