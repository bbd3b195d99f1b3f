-- ===== src/TileData.antt =====
-- server/vsx-tile-data.c: the letters of each language.
-- A C string is the list of its bytes, which is the UTF-8 encoding of the text of the source.
pub mod Letters
use verda_sxtelo.Common.{
  ℕ, suc, ◌+◌, Option, none, some, List, [], ◌∷◌, ◌++◌, list_eq, if◌then◌else◌,
}
use verda_sxtelo.Common.Chars.{codes}
use verda_sxtelo.Utf8.Encode.{encode_all}

-- `VsxTileData`
pub record TileData : Type 0 where
  pub language_code : List ℕ
  pub letters : List ℕ

-- `VSX_TILE_DATA_N_ROOMS` and `VSX_TILE_DATA_N_TILES`
abbrev pub n_rooms : ℕ
n_rooms = 4

abbrev pub n_tiles : ℕ
n_tiles = 122

unfoldable pub eo_chars : List ℕ
eo_chars =
    codes "AAAAAAAAABBBCCĈĈDDDEEEEEEEEFFFGGĜĜHHĤIIIIIIIIIIJJJJJĴKKKKKKLL"
    ++ codes "LLMMMMMMNNNNNNNNOOOOOOOOOOOPPPPPRRRRRRRSSSSSSSŜŜTTTTTUUUŬŬVVZ"

unfoldable pub en_chars : List ℕ
en_chars =
    codes "AAAAAAAAABBCCDDDDEEEEEEEEEEEEFFGGGHHIIIIIIIIIJKLLLLMMNNNNNNOO"
    ++ codes "OOOOOOPPQRRRRRRSSSSTTTTTTUUUUVVWWXYYZNILRUIATCNUENOIEBYOEVASS"

unfoldable pub fr_chars : List ℕ
fr_chars =
    codes "AAAAAAAAABBCCDDDEEEEEEEEEEEEEEEFFGGHHIIIIIIIIJKLLLLLMMMNNNNNN"
    ++ codes "OOOOOOPPQRRRRRRSSSSSSTTTTTTUUUUUUVVWXYZ"
    ++ codes "IRTEOAUTUTAFNSUFLURCIT"

unfoldable pub en_sv_chars : List ℕ
en_sv_chars =
    codes "𐑠𐑶𐑾𐑽𐑭𐑘𐑺𐑔𐑷𐑸𐑫𐑬𐑡𐑗𐑿𐑵𐑹𐑻𐑜𐑙𐑖𐑴𐑳𐑳𐑣𐑣𐑱𐑱𐑲𐑲𐑓𐑓𐑪𐑪𐑼𐑼𐑚𐑚𐑰𐑰𐑢𐑢𐑢𐑨𐑨𐑨𐑝𐑝𐑝𐑐𐑐𐑐𐑧𐑧𐑧𐑮𐑮𐑮𐑥𐑥𐑥"
    ++ codes "𐑟𐑟𐑟𐑟𐑒𐑒𐑒𐑒𐑞𐑞𐑞𐑞𐑛𐑛𐑛𐑛𐑤𐑤𐑤𐑤𐑤𐑕𐑕𐑕𐑕𐑕𐑕𐑩𐑩𐑩𐑩𐑩𐑩𐑩𐑑𐑑𐑑𐑑𐑑𐑑𐑑𐑑𐑑𐑯𐑯𐑯𐑯𐑯𐑯𐑯𐑯𐑦𐑦𐑦𐑦𐑦𐑦𐑦𐑦𐑦𐑦"

unfoldable pub vsx_tile_data : List TileData
vsx_tile_data =
    record { language_code = codes "eo"; letters = encode_all eo_chars }
    ∷ record { language_code = codes "en"; letters = encode_all en_chars }
    ∷ record { language_code = codes "fr"; letters = encode_all fr_chars }
    ∷ record { language_code = codes "en-sv"; letters = encode_all en_sv_chars }
    ∷ []

unfoldable pub language_code_from : List ℕ → List TileData → ℕ → Option ℕ
language_code_from code [] i = none
language_code_from code (d ∷ ds) i =
    if list_eq d.language_code code then some i else language_code_from code ds (i + 1)

-- The result is the index in `vsx_tile_data` that the returned pointer stands for.
unfoldable pub get_for_language_code : List ℕ → Option ℕ
get_for_language_code code = language_code_from code vsx_tile_data 0
