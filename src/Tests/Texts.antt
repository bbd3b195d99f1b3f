-- ===== src/Tests/Texts.antt =====
-- UTF-8, the tables of letters, the bag and the clipping of messages.
use verda_sxtelo.Common.{
  ℕ, ◌*◌, ◌≡◌, refl, arith, true, false, List, [], ◌∷◌, ◌++◌, All, length, replicate, some, map,
  list_eq,
}
use verda_sxtelo.Common.Chars.{codes}
use verda_sxtelo.Tile.{Tile}
use verda_sxtelo.Utf8.{get_char, is_valid_string, encode}
use verda_sxtelo.Utf8.Encode.{encode_all, get_char-encode}
use verda_sxtelo.Utf8.Valid.{IsScalar, is_valid_string-encode_all}
use verda_sxtelo.Utf8.Sound.{IsCharByte, Decoded, is_valid_string_sound}
use verda_sxtelo.TileData.{
  TileData, vsx_tile_data, eo_chars, n_tiles, language_code_from, get_for_language_code,
}
use verda_sxtelo.TileData.Letters.{IsBag, vsx_tile_data-IsBag}
use verda_sxtelo.Bag.{init_tile_data}
use verda_sxtelo.Bag.Fill.{fresh_tile, init_tile_data-perm}
use verda_sxtelo.Conversation.Talk.{raw_length}
use verda_sxtelo.Conversation.Talk.Clip.{Kept, raw_length-Kept}
use mathlib.Core.List.{Perm}

-- The letter C with a circumflex, and the letter A.
abbrev circumflex : ℕ
circumflex = 0x108

encode-circumflex : encode circumflex ≡ 0xc4 ∷ 0x88 ∷ []
unfolding encode
encode-circumflex = refl

get_char-encode_example : get_char (encode circumflex ++ (0x41 ∷ [])) ≡ circumflex
get_char-encode_example = get_char-encode circumflex (0x41 ∷ []) (omega arith)

two_scalars : All IsScalar (circumflex ∷ 0x41 ∷ [])
two_scalars = omega arith

is_valid_string-encode_all_example : is_valid_string (encode_all (circumflex ∷ 0x41 ∷ [])) ≡ true
is_valid_string-encode_all_example = is_valid_string-encode_all (circumflex ∷ 0x41 ∷ []) two_scalars

abbrev two_chars : List ℕ
two_chars = 0xc4 ∷ 0x88 ∷ 0x41 ∷ []

two_chars_valid : is_valid_string two_chars ≡ true
unfolding is_valid_string
two_chars_valid = refl

two_chars_bytes : All IsCharByte two_chars
two_chars_bytes = omega arith

-- An overlong form and half of a UTF-16 pair are refused.
refused :
    (is_valid_string (0xc1 ∷ 0x81 ∷ []) ≡ false)
    × (is_valid_string (0xed ∷ 0xa0 ∷ 0x80 ∷ []) ≡ false)
unfolding is_valid_string
refused = (refl, refl)

is_valid_string_sound_example : Decoded two_chars
is_valid_string_sound_example = is_valid_string_sound two_chars two_chars_bytes two_chars_valid

raw_length-Kept_example : Kept two_chars
raw_length-Kept_example = raw_length-Kept two_chars two_chars_bytes two_chars_valid

-- A clipped message does not end inside a character.
clipped : raw_length (0x41 ∷ encode_all (replicate 501 circumflex)) ≡ some 999
unfolding raw_length encode_all encode
clipped = refl

abbrev eo_data : TileData
eo_data = record { language_code = codes "eo"; letters = encode_all eo_chars }

vsx_tile_data-IsBag_example : IsBag eo_data
unfolding vsx_tile_data
vsx_tile_data-IsBag_example = vsx_tile_data-IsBag 0 refl

french : get_for_language_code (codes "fr") ≡ some 2
unfolding get_for_language_code language_code_from vsx_tile_data list_eq
french = refl

eo_bag : IsBag eo_data
unfolding vsx_tile_data
eo_bag = vsx_tile_data-IsBag 0 refl

init_tile_data-perm_example :
    (tiles : List Tile) × (init_tile_data (λ i. i * 7919) (encode_all eo_bag.chars) ≡ some tiles)
    × Perm tiles (map fresh_tile eo_bag.chars)
    × (length tiles ≡ n_tiles)
init_tile_data-perm_example =
    init_tile_data-perm (λ i. i * 7919) eo_bag.chars eo_bag.all_scalars eo_bag.count
