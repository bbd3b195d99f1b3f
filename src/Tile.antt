-- ===== src/Tile.antt =====
-- server/vsx-tile.h: a letter tile and its size on the board.
use verda_sxtelo.Common.{ℕ, List}
use verda_sxtelo.Common.Int.{ℤ}

-- `VsxTile`. The coordinates and the last player are `int16_t`; the letter is its bytes, without
-- the terminator.
pub record Tile : Type 0 where
  pub x : ℤ
  pub y : ℤ
  pub last_player : ℤ
  pub letter : List ℕ

abbrev pub tile_size : ℕ
tile_size = 20

abbrev pub tile_gap : ℕ
tile_gap = 1

-- `VSX_TILE_MAX_LETTER_BYTES`
abbrev pub max_letter_bytes : ℕ
max_letter_bytes = 6
