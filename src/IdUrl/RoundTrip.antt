-- ===== src/IdUrl/RoundTrip.antt =====
-- A URL decodes to the id that it was made from.
use verda_sxtelo.Common.{
  ℕ, zero, suc, ◌+◌, ◌*◌, ◌/◌, ◌%◌, ◌^◌, ◌<◌, ◌≤◌, ◌≡◌, refl, ◌∙◌, ap, arith, some, bit_or,
  lt→leb-false,
}
use verda_sxtelo.Common.Bits.{or_six, or_four}
use verda_sxtelo.Ascii.{ascii_tolower}
use verda_sxtelo.IdUrl.{
  get_char_value, encode_to_char, decode_loop, decode_last, decode_id_part, decode, encode_loop,
  encode_id_part, encode_url, looking_at_no_case, skip_s, decode_rest,
}

-- The value of a character is the six bits that it was made from.
get_char_value-encode_to_char : (v : ℕ) → v < 64 → get_char_value (encode_to_char v) ≡ some v
unfolding get_char_value encode_to_char
get_char_value-encode_to_char v h = ground arith

-- A number shifted by six bits in each round.
abbrev shifted : ℕ → ℕ → ℕ
shifted zero x = x
shifted (suc k) x = shifted k (x * 64)

shifted_mono : (k x y : ℕ) → x ≤ y → shifted k x ≤ shifted k y
shifted_mono zero x y h = h
shifted_mono (suc k) x y h = shifted_mono k (x * 64) (y * 64) (omega arith)

shifted_le : (k x : ℕ) → x ≤ shifted k x
shifted_le zero x = omega arith
shifted_le (suc k) x = omega (arith, shifted_le k (x * 64))

-- A round moves the six highest bits of the second number to the first.
round_sum :
    (d e : ℕ)
    → e < 2 ^ 64
    → (d * 64 + e / 2 ^ 58) * 2 ^ 64 + e * 2 ^ 6 % 2 ^ 64 ≡ (d * 2 ^ 64 + e) * 64
round_sum d e h = omega arith

round_or :
    (d e : ℕ)
    → e < 2 ^ 64
    → d < 2 ^ 58
    → bit_or (d * 2 ^ 6 % 2 ^ 64) (e / 2 ^ 58) ≡ d * 64 + e / 2 ^ 58
round_or d e h l = rw (small d l) (or_six d (e / 2 ^ 58) (omega arith))
  where
    small : (d : ℕ) → d < 2 ^ 58 → d * 2 ^ 6 % 2 ^ 64 ≡ d * 64
    small d l = omega arith

-- Where the rounds leave the id that was decoded and the bits still to be encoded.
record Looped (k d e : ℕ) : Type 0 where
  high : ℕ
  low : ℕ
  result : decode_loop k (encode_loop k e) d ≡ some (high, encode_loop 0 low)
  sum : high * 2 ^ 64 + low ≡ shifted k (d * 2 ^ 64 + e)
  low_fits : low < 2 ^ 64
  high_fits : high < 2 ^ 60

looped : (k d e : ℕ) → e < 2 ^ 64 → shifted k (d + 1) ≤ 2 ^ 60 → Looped k d e
unfolding decode_loop encode_loop
looped zero d e h l = record {
  high = d;
  low = e;
  result = refl;
  sum = refl;
  low_fits = h;
  high_fits = omega arith;
}
looped (suc k) d e h l =
    let q = e / 2 ^ 58 in
    let bound = shifted_mono k (d * 64 + q + 1) ((d + 1) * 64) (omega arith) in
    let r = looped k (d * 64 + q) (e * 2 ^ 6 % 2 ^ 64) (omega arith) (omega arith) in
    let or = round_or d e h (omega (arith, shifted_le k ((d + 1) * 64))) in
    record {
      high = r.high;
      low = r.low;
      result = rw (get_char_value-encode_to_char q (omega arith), or) r.result;
      sum = r.sum ∙ rw (round_sum d e h) refl;
      low_fits = r.low_fits;
      high_fits = r.high_fits;
    }

last_or : (d v : ℕ) → d < 2 ^ 60 → v < 2 ^ 4 → bit_or (d * 2 ^ 4 % 2 ^ 64) v ≡ d * 16 + v
last_or d v l h = rw (small d l) (or_four d v h)
  where
    small : (d : ℕ) → d < 2 ^ 60 → d * 2 ^ 4 % 2 ^ 64 ≡ d * 16
    small d l = omega arith

decode_last-encode_loop :
    (d e : ℕ)
    → e < 2 ^ 64
    → d < 2 ^ 60
    → decode_last (encode_loop 0 e) d ≡ some (d * 16 + e / 2 ^ 60)
unfolding decode_last encode_loop
decode_last-encode_loop d e h l =
    let v = e / 2 ^ 60 in
    rw
      (
        get_char_value-encode_to_char v (omega arith),
        lt→leb-false v (2 ^ 4) (omega arith),
        last_or d v l (omega arith),
      )
      refl

-- The last part of a URL decodes to the id that it was made from, for every 64-bit id.
pub decode_id_part-encode_id_part :
    (id : ℕ) → id < 2 ^ 64 → decode_id_part (encode_id_part id) ≡ some id
unfolding decode_id_part encode_id_part
decode_id_part-encode_id_part id h =
    let r = looped 10 0 id h (omega arith) in
    rw (r.result, decode_last-encode_loop r.high r.low r.low_fits r.high_fits)
      (ap some (omega (arith, r.sum)))

-- The URL of any 64-bit id decodes to that id.
pub decode-encode_url : (id : ℕ) → id < 2 ^ 64 → decode (encode_url id) ≡ some id
unfolding decode encode_url decode_rest skip_s looking_at_no_case ascii_tolower
decode-encode_url id h = decode_id_part-encode_id_part id h
