-- ===== src/Base64.antt =====
-- server/vsx-base64.c: the streaming decoder and the encoder.
-- A value of `none` stands for -1. A call of the decoder returns the bytes that it wrote, or `none`
-- for a padding error, with the state that it leaves in both cases. `value` is an `int`, of which
-- the 32 bits are kept; `>>` is only used for bits that the shifts below bring to a byte.
pub mod RoundTrip
pub mod Stream
use verda_sxtelo.Common.{
  ℕ, zero, suc, ◌+◌, ◌-◌, ◌*◌, ◌/◌, ◌%◌, ◌^◌, Bool, true, false, not, ◌||◌, Option, none, some,
  List, [], ◌∷◌, ◌++◌, bit_and, bit_or, ltb, leb, ◌==◌, if◌then◌else◌,
}
use mathlib.Core.Option

-- `struct vsx_base64_data`
pub record Base64Data : Type 0 where
  pub n_padding : ℕ
  pub n_chars : ℕ
  pub value : ℕ

unfoldable pub alphabet_value : ℕ → Option ℕ
alphabet_value ch =
    if ch == 47
    then some 63
    else if ch == 43
    then some 62
    else if leb ch 57
    then (if ltb ch 48 then none else some (ch - 48 + 26 * 2))
    else if leb ch 90
    then (if ltb ch 65 then none else some (ch - 65))
    else if leb ch 122
    then (if ltb ch 97 then none else some (ch - 97 + 26))
    else none

unfoldable pub decode_start : Base64Data
decode_start = record { n_padding = 0; n_chars = 0; value = 0 }

abbrev pub pad : Base64Data → Base64Data
pad d = record d { n_padding = d.n_padding + 1 }

-- The result is false for a padding error.
unfoldable pub handle_padding : Base64Data → List ℕ → Base64Data × Bool
unfolding alphabet_value
handle_padding d [] = (d, true)
handle_padding d (ch ∷ rest) =
    let padded = handle_padding (pad d) rest in
    let skipped = handle_padding d rest in
    if ch == 61
    then (if ltb 2 (d.n_padding + 1) then (pad d, false) else padded)
    else elim (alphabet_value ch) [ some v ↦ (d, false) | none ↦ skipped ]

-- What a character of the alphabet does to the state, and the bytes that it completes.
unfoldable pub push : Base64Data → ℕ → Base64Data × List ℕ
push d ch_value =
    let value = bit_or (d.value * 2 ^ 6 % 2 ^ 32) ch_value in
    if leb 4 (d.n_chars + 1)
    then (
      record d { value = value; n_chars = 0 },
      value / 2 ^ 16 % 256 ∷ value / 2 ^ 8 % 256 ∷ value % 256 ∷ [],
    )
    else (record d { value = value; n_chars = d.n_chars + 1 }, [])

abbrev pub prepend : List ℕ → Base64Data × Option (List ℕ) → Base64Data × Option (List ℕ)
prepend bytes r = (r.0, Option.map (λ out. bytes ++ out) r.1)

abbrev pub padding_result : Base64Data × Bool → Base64Data × Option (List ℕ)
padding_result r = (r.0, if r.1 then some [] else none)

unfoldable pub decode_loop : Base64Data → List ℕ → Base64Data × Option (List ℕ)
unfolding alphabet_value push handle_padding
decode_loop d [] = (d, some [])
decode_loop d (ch ∷ rest) = elim (alphabet_value ch) [
  | some v ↦ prepend (push d v).1 (decode_loop (push d v).0 rest)
  | none ↦
      let skipped = decode_loop d rest in
      if ch == 61 then padding_result (handle_padding d (ch ∷ rest)) else skipped
]

unfoldable pub decode : Base64Data → List ℕ → Base64Data × Option (List ℕ)
unfolding handle_padding decode_loop
decode d input =
    if ltb 0 d.n_padding then padding_result (handle_padding d input) else decode_loop d input

-- What `vsx_base64_decode_end` comes to.
pub data End : Type 0 where
  done : List ℕ → End
  padding_error assertion_failed : End

unfoldable pub decode_end : Base64Data → End
decode_end d =
    if d.n_padding == 0
    then (if not (d.n_chars == 0) then padding_error else done [])
    else if d.n_padding == 1
    then (if not (d.n_chars == 3) || not (bit_and d.value 3 == 0)
        then padding_error
        else done (d.value / 2 ^ 10 % 256 ∷ d.value / 2 ^ 2 % 256 ∷ []))
    else if d.n_padding == 2
    then (if not (d.n_chars == 2) || not (bit_and d.value 15 == 0)
        then padding_error
        else done (d.value / 2 ^ 4 % 256 ∷ []))
    else assertion_failed

unfoldable pub to_alphabet_value : ℕ → ℕ
to_alphabet_value value =
    if ltb value 26
    then value + 65
    else if ltb value 52
    then value - 26 + 97
    else if ltb value 62
    then value - 52 + 48
    else if value == 62
    then 43
    else 47

-- The four characters of three bytes.
unfoldable pub quad : ℕ → List ℕ
unfolding to_alphabet_value
quad value =
    to_alphabet_value (value / 2 ^ 18)
    ∷ to_alphabet_value (bit_and (value / 2 ^ 12) 63)
    ∷ to_alphabet_value (bit_and (value / 2 ^ 6) 63)
    ∷ to_alphabet_value (bit_and value 63)
    ∷ []

unfoldable pub encode_base64 : List ℕ → List ℕ
unfolding quad to_alphabet_value
encode_base64 [] = []
encode_base64 (a ∷ []) =
    to_alphabet_value (a * 2 ^ 16 / 2 ^ 18)
    ∷ to_alphabet_value (bit_and (a * 2 ^ 16 / 2 ^ 12) 63)
    ∷ 61
    ∷ 61
    ∷ []
encode_base64 (a ∷ b ∷ []) =
    let value = bit_or (a * 2 ^ 16) (b * 2 ^ 8) in
    to_alphabet_value (value / 2 ^ 18)
    ∷ to_alphabet_value (bit_and (value / 2 ^ 12) 63)
    ∷ to_alphabet_value (bit_and (value / 2 ^ 6) 63)
    ∷ 61
    ∷ []
encode_base64 (a ∷ b ∷ c ∷ rest) =
    quad (bit_or (bit_or (a * 2 ^ 16) (b * 2 ^ 8)) c) ++ encode_base64 rest
