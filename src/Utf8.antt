-- ===== src/Utf8.antt =====
-- common/vsx-utf8.c: decoding, checking and encoding UTF-8.
-- A C string is the list of its bytes without the terminator; a read at its end gives the
-- terminator, 0, and so does one past it, which only `get_char` on a cut sequence would make.
pub mod Bytes
pub mod Encode
pub mod Valid
pub mod Sound
use verda_sxtelo.Common.{
  ℕ, zero, suc, ◌+◌, ◌-◌, ◌*◌, ◌/◌, ◌%◌, ◌^◌, Bool, true, false, not, ◌&&◌, List, [], ◌∷◌, bit_and,
  bit_or, ◌==◌, ltb, leb, if◌then◌else◌, get_or, drop, length, Option, none, some,
}

abbrev pub at : List ℕ → ℕ → ℕ
at s i = get_or s i 0

-- The `do` loop of `vsx_utf8_get_char`, which counts the ones after the first; the test bit starts
-- at 0x20 and is 0 after six rounds, so six are enough. The result is `next_bytes` and `test_bit`.
unfoldable pub lead_loop : ℕ → ℕ → ℕ → ℕ → ℕ × ℕ
lead_loop zero start next_bytes test_bit = (next_bytes, test_bit)
lead_loop (suc fuel) start next_bytes test_bit =
    let more = lead_loop fuel start (next_bytes + 1) (test_bit / 2) in
    if bit_and start test_bit == 0 then (next_bytes, test_bit) else more

-- `start & (test_bit - 1)` as a `uint32_t`. With `test_bit` 0 the mask is -1, which keeps all the
-- bits of the sign-extended `start`.
unfoldable pub lead_value : ℕ → ℕ → ℕ
lead_value start zero = 2 ^ 32 - 256 + start
lead_value start (suc mask) = bit_and start mask

-- `while (next_bytes--) value = (value << 6) | (*(++p) & 0x3f);`
unfoldable pub tail_loop : ℕ → List ℕ → ℕ → ℕ
tail_loop zero p value = value
tail_loop (suc next_bytes) p value =
    tail_loop next_bytes (drop 1 p) (bit_or (value * 64 % 2 ^ 32) (bit_and (at p 1) 0x3f))

unfoldable pub get_char : List ℕ → ℕ
unfolding lead_loop lead_value tail_loop
get_char p =
    let start = at p 0 in
    if bit_and start 0x80 == 0
    then start
    else (let (next_bytes, test_bit) = lead_loop 6 start 1 0x20 in
        tail_loop next_bytes p (lead_value start test_bit))

-- How far `vsx_utf8_next` moves, from the first byte.
unfoldable pub next_width : ℕ → ℕ
next_width start =
    if bit_and start 0x80 == 0
    then 1
    else if bit_and start 0xe0 == 0xc0
    then 2
    else if bit_and start 0xf0 == 0xe0
    then 3
    else 4

unfoldable pub next : List ℕ → List ℕ
unfolding next_width
next p = drop (next_width (at p 0)) p

-- `minimum` and `following_bytes`, for a byte that may start a sequence of several.
unfoldable pub sequence : ℕ → Option (ℕ × ℕ)
sequence start =
    if bit_and start 0xe0 == 0xc0
    then some (0x80, 1)
    else if bit_and start 0xf0 == 0xe0
    then some (0x800, 2)
    else if bit_and start 0xf8 == 0xf0
    then some (0x10000, 3)
    else none

-- The loop over the following bytes, from `p[i + 1]` on.
unfoldable pub following : ℕ → List ℕ → ℕ → Bool
following zero p i = true
following (suc n) p i =
    if not (bit_and (at p (i + 1)) 0xc0 == 0x80) then false else following n p (i + 1)

-- The tests on one decoded character.
unfoldable pub allowed : ℕ → ℕ → Bool
allowed ch minimum =
    if ltb ch minimum
    then false
    else if leb 0xd800 ch && leb ch 0xdfff
    then false
    else not (ltb 0x10ffff ch)

-- One round of `vsx_utf8_is_valid_string` at a first byte that is not the terminator: how many
-- bytes it takes, or nothing if it returns false.
unfoldable pub valid_step : List ℕ → Option ℕ
unfolding sequence following allowed get_char
valid_step p = if bit_and (at p 0) 0x80 == 0 then some 1 else elim (sequence (at p 0)) [
  | none ↦ none
  | some (minimum, n) ↦
      if following n p 0 && allowed (get_char p) minimum then some (1 + n) else none
]

-- Each round takes a byte at least, so the length of the string is enough fuel.
unfoldable pub valid_loop : ℕ → List ℕ → Bool
unfolding valid_step
valid_loop fuel [] = true
valid_loop zero (b ∷ p) = false
valid_loop (suc fuel) (b ∷ p) = elim (valid_step (b ∷ p)) [
  | none ↦ false
  | some n ↦ valid_loop fuel (drop n (b ∷ p))
]

unfoldable pub is_valid_string : List ℕ → Bool
unfolding valid_loop
is_valid_string p = valid_loop (length p) p

-- The bytes that `vsx_utf8_encode` writes; their number is what it returns. A byte is the low
-- eight bits of what is stored.
unfoldable pub encode : ℕ → List ℕ
encode ch =
    if ltb ch 0x80
    then ch ∷ []
    else if ltb ch 0x800
    then bit_or (ch / 2 ^ 6) 0xc0 % 256 ∷ bit_or (bit_and ch 0x3f) 0x80 % 256 ∷ []
    else if ltb ch 0x10000
    then bit_or (ch / 2 ^ 12) 0xe0 % 256
      ∷ bit_or (bit_and (ch / 2 ^ 6) 0x3f) 0x80 % 256
      ∷ bit_or (bit_and ch 0x3f) 0x80 % 256
      ∷ []
    else bit_or (ch / 2 ^ 18) 0xf0 % 256
      ∷ bit_or (bit_and (ch / 2 ^ 12) 0x3f) 0x80 % 256
      ∷ bit_or (bit_and (ch / 2 ^ 6) 0x3f) 0x80 % 256
      ∷ bit_or (bit_and ch 0x3f) 0x80 % 256
      ∷ []
