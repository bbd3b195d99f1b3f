-- ===== src/IdUrl.antt =====
-- common/vsx-id-url.c: the id of a conversation as a URL.
-- A C string is the list of its bytes without the terminator. A value of `none` stands for -1, and
-- a result of `none` for a return of false, which stores no id. Bytes past 127 have no value,
-- whether `char` is signed or not.
pub mod RoundTrip
use verda_sxtelo.Common.{
  ℕ, zero, suc, ◌+◌, ◌-◌, ◌*◌, ◌/◌, ◌%◌, ◌^◌, Bool, true, false, ◌&&◌, Option, none, some, List, [],
  ◌∷◌, ◌++◌, ◌>>=◌, bit_or, ltb, leb, ◌==◌, if◌then◌else◌, drop, get_or, length,
}
use verda_sxtelo.Common.Chars.{codes}
use verda_sxtelo.Ascii.{ascii_tolower}

abbrev pub rest_url : List ℕ
rest_url = codes "://gemelo.org/j/"

abbrev pub url_prefix : List ℕ
url_prefix = codes "https" ++ rest_url

abbrev pub protocol : List ℕ
protocol = codes "http"

-- `BITS_PER_ID / BITS_PER_CHAR`
abbrev pub whole_chars : ℕ
whole_chars = 10

unfoldable pub get_char_value : ℕ → Option ℕ
get_char_value ch =
    if ch == 45
    then some 62
    else if ltb ch 48
    then none
    else if leb ch 57
    then some (ch - 48 + 52)
    else if ltb ch 65
    then none
    else if leb ch 90
    then some (ch - 65)
    else if ch == 95
    then some 63
    else if ltb ch 97
    then none
    else if leb ch 122
    then some (ch - 97 + 26)
    else none

-- The loop of `vsx_id_url_decode_id_part`, with the id and the string that it leaves. The
-- terminator has no value.
unfoldable pub decode_loop : ℕ → List ℕ → ℕ → Option (ℕ × List ℕ)
unfolding get_char_value
decode_loop zero str id = some (id, str)
decode_loop (suc left) [] id = none
decode_loop (suc left) (ch ∷ str) id = do
  value ← get_char_value ch
  decode_loop left str (bit_or (id * 2 ^ 6 % 2 ^ 64) value)

-- What follows the loop: the character of the last four bits, and the end of the string.
unfoldable pub decode_last : List ℕ → ℕ → Option ℕ
unfolding get_char_value
decode_last [] id = none
decode_last (ch ∷ str) id = do
  value ← get_char_value ch
  if leb (2 ^ 4) value
      then none
      else elim str [ [] ↦ some (bit_or (id * 2 ^ 4 % 2 ^ 64) value) | _ ∷ _ ↦ none ]

unfoldable pub decode_id_part : List ℕ → Option ℕ
unfolding decode_loop decode_last
decode_id_part str = do r ← decode_loop whole_chars str 0; decode_last (r.1) (r.0)

unfoldable pub looking_at_no_case : List ℕ → List ℕ → Bool
unfolding ascii_tolower
looking_at_no_case [] str = true
looking_at_no_case (p ∷ prefix) [] = false
looking_at_no_case (p ∷ prefix) (ch ∷ str) =
    let rest = looking_at_no_case prefix str in
    if ascii_tolower p == ascii_tolower ch then rest else false

-- `if (vsx_ascii_tolower (*url) == 's') url++;`
unfoldable pub skip_s : List ℕ → List ℕ
unfolding ascii_tolower
skip_s url = if ascii_tolower (get_or url 0 0) == 115 then drop 1 url else url

-- What follows the protocol.
unfoldable pub decode_rest : List ℕ → Option ℕ
unfolding looking_at_no_case decode_id_part
decode_rest url =
    if looking_at_no_case rest_url url then decode_id_part (drop (length rest_url) url) else none

unfoldable pub decode : List ℕ → Option ℕ
unfolding looking_at_no_case skip_s decode_rest
decode url =
    if looking_at_no_case protocol url
    then decode_rest (skip_s (drop (length protocol) url))
    else none

unfoldable pub encode_to_char : ℕ → ℕ
encode_to_char value =
    if ltb value 26
    then value + 65
    else if ltb value 52
    then value - 26 + 97
    else if ltb value 62
    then value - 52 + 48
    else if value == 62
    then 45
    else 95

-- The loop of `encode_id_part`, with the character of the last four bits after it.
unfoldable pub encode_loop : ℕ → ℕ → List ℕ
unfolding encode_to_char
encode_loop zero id = encode_to_char (id / 2 ^ 60) ∷ []
encode_loop (suc left) id = encode_to_char (id / 2 ^ 58) ∷ encode_loop left (id * 2 ^ 6 % 2 ^ 64)

unfoldable pub encode_id_part : ℕ → List ℕ
unfolding encode_loop
encode_id_part id = encode_loop whole_chars id

unfoldable pub encode_url : ℕ → List ℕ
unfolding encode_id_part
encode_url id = url_prefix ++ encode_id_part id
