-- ===== src/Utf8/Encode.antt =====
-- Encoding a character and decoding it again.
use verda_sxtelo.Common.{
  ℕ, ◌+◌, ◌*◌, ◌/◌, ◌%◌, ◌^◌, ◌<◌, ◌≡◌, arith, bit_and, bit_or, List, [], ◌∷◌, ◌++◌, if◌then◌else◌,
  ltb, length, drop-append,
}
use verda_sxtelo.Common.Bits.{low_six}
use verda_sxtelo.Utf8.Bytes.{
  ascii_mask, lead2, lead3, lead4, tail_value, stored_continuation, stored_two, stored_three,
  stored_four,
}
use verda_sxtelo.Utf8.{lead_loop, lead_value, tail_loop, get_char, next_width, next, encode, at}

-- The encoding of a list of characters.
unfoldable pub encode_all : List ℕ → List ℕ
encode_all [] = []
encode_all (ch ∷ chs) = encode ch ++ encode_all chs

-- The encoding in plain arithmetic.
unfoldable pub encoding : ℕ → List ℕ
encoding ch =
    if ltb ch 0x80
    then ch ∷ []
    else if ltb ch 0x800
    then (0xc0 + ch / 64) ∷ (0x80 + ch % 64) ∷ []
    else if ltb ch 0x10000
    then (0xe0 + ch / 64 / 64) ∷ (0x80 + ch / 64 % 64) ∷ (0x80 + ch % 64) ∷ []
    else (0xf0 + ch / 64 / 64 / 64)
      ∷ (0x80 + ch / 64 / 64 % 64)
      ∷ (0x80 + ch / 64 % 64)
      ∷ (0x80 + ch % 64)
      ∷ []

last_byte : (n : ℕ) → bit_or (bit_and n 0x3f) 0x80 % 256 ≡ 0x80 + n % 64
last_byte n = rw low_six (stored_continuation (n % 64) (omega arith))

pub encode-encoding : (ch : ℕ) → ch < 2 ^ 21 → encode ch ≡ encoding ch
unfolding encode encoding
encode-encoding ch h =
    let a : ch / 2 ^ 12 ≡ ch / 64 / 64 = omega arith in
    let b : ch / 2 ^ 18 ≡ ch / 64 / 64 / 64 = omega arith in
    ground (
      arith,
      a,
      b,
      last_byte ch,
      last_byte (ch / 64),
      last_byte (ch / 64 / 64),
      stored_two (ch / 64),
      stored_three (ch / 64 / 64),
      stored_four (ch / 64 / 64 / 64),
    )

pub get_char-one : (b : ℕ) (rest : List ℕ) → b < 0x80 → get_char (b ∷ rest) ≡ b
unfolding get_char
get_char-one b rest h = rw (ascii_mask b h)

pub get_char-two :
    (x y : ℕ) (rest : List ℕ)
    → x < 32
    → y < 64
    → get_char ((0xc0 + x) ∷ (0x80 + y) ∷ rest) ≡ x * 64 + y
unfolding get_char lead_loop lead_value tail_loop
get_char-two x y rest hx hy =
    let l = lead2 x hx in rw (l.not_ascii, l.stop, l.low) (tail_value x y (omega arith) hy)

pub get_char-three :
    (x y z : ℕ) (rest : List ℕ)
    → x < 16
    → y < 64
    → z < 64
    → get_char ((0xe0 + x) ∷ (0x80 + y) ∷ (0x80 + z) ∷ rest) ≡ (x * 64 + y) * 64 + z
unfolding get_char lead_loop lead_value tail_loop
get_char-three x y z rest hx hy hz =
    let l = lead3 x hx in
    rw (l.not_ascii, l.go, l.stop, l.low, tail_value x y (omega arith) hy)
      (tail_value (x * 64 + y) z (omega arith) hz)

pub get_char-four :
    (x y z w : ℕ) (rest : List ℕ)
    → x < 8
    → y < 64
    → z < 64
    → w < 64
    → get_char ((0xf0 + x) ∷ (0x80 + y) ∷ (0x80 + z) ∷ (0x80 + w) ∷ rest)
      ≡ ((x * 64 + y) * 64 + z) * 64 + w
unfolding get_char lead_loop lead_value tail_loop
get_char-four x y z w rest hx hy hz hw =
    let l = lead4 x hx in
    rw
      (
        l.not_ascii,
        l.go,
        l.go_on,
        l.stop,
        l.low,
        tail_value x y (omega arith) hy,
        tail_value (x * 64 + y) z (omega arith) hz,
      )
      (tail_value ((x * 64 + y) * 64 + z) w (omega arith) hw)

-- Decoding gives back any character below 2 ^ 21 that was encoded, whatever follows it.
pub get_char-encode : (ch : ℕ) (rest : List ℕ) → ch < 2 ^ 21 → get_char (encode ch ++ rest) ≡ ch
unfolding encoding
get_char-encode ch rest h = rw (encode-encoding ch h) (
    ground (
      arith,
      get_char-one ch rest,
      get_char-two (ch / 64) (ch % 64) rest,
      get_char-three (ch / 64 / 64) (ch / 64 % 64) (ch % 64) rest,
      get_char-four (ch / 64 / 64 / 64) (ch / 64 / 64 % 64) (ch / 64 % 64) (ch % 64) rest,
    ))

-- The width read off the first byte is the length of the encoding.
pub next_width-encode :
    (ch : ℕ) (rest : List ℕ)
    → ch < 2 ^ 21
    → next_width (at (encode ch ++ rest) 0) ≡ length (encode ch)
unfolding encoding next_width
next_width-encode ch rest h = rw (encode-encoding ch h) (
    ground (arith, ascii_mask ch, lead2 (ch / 64), lead3 (ch / 64 / 64), lead4 (ch / 64 / 64 / 64)))

-- Moving on from an encoded character leaves what follows it.
pub next-encode : (ch : ℕ) (rest : List ℕ) → ch < 2 ^ 21 → next (encode ch ++ rest) ≡ rest
unfolding next
next-encode ch rest h = rw (next_width-encode ch rest h) (drop-append (encode ch) rest)

pub length-encode_pos : (ch : ℕ) → 0 < length (encode ch)
unfolding encode
length-encode_pos ch = ground arith
