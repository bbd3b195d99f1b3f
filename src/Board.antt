-- ===== src/Board.antt =====
-- server/vsx-conversation.c, `try_location` and `find_free_location`: where the next tile is put.
-- The board is the list of the tiles in play. The search is a loop over the rows `y` that has no
-- end of its own, so it takes fuel, one for each row.
pub mod Free
use verda_sxtelo.Common.{
  ℕ, zero, suc, ◌+◌, ◌-◌, ◌*◌, ◌/◌, Bool, true, false, ◌&&◌, Option, none, some, List, [], ◌∷◌,
  if◌then◌else◌,
}
use verda_sxtelo.Common.Int.{ℤ, pos, sub_ℕ, ◌+ℤ◌, ltb_ℤ}
use verda_sxtelo.Tile.{Tile, tile_size, tile_gap}

-- `VSX_CONVERSATION_CENTER_X` and `VSX_CONVERSATION_CENTER_Y`
abbrev pub center_x : ℕ
center_x = 600 / 2 - tile_size / 2

abbrev pub center_y : ℕ
center_y = 360 / 2 - tile_size / 2

abbrev pub Point : Type 0
Point = ℤ × ℤ

unfoldable pub overlaps : ℤ → ℤ → Tile → Bool
overlaps x y tile =
    ltb_ℤ tile.x (x +ℤ pos tile_size)
    && (ltb_ℤ x (tile.x +ℤ pos tile_size)
        && (ltb_ℤ tile.y (y +ℤ pos tile_size) && ltb_ℤ y (tile.y +ℤ pos tile_size)))

unfoldable pub try_location : List Tile → ℤ → ℤ → Bool
unfolding overlaps
try_location [] x y = true
try_location (tile ∷ tiles) x y = if overlaps x y tile then false else try_location tiles x y

-- `n * sign * (VSX_TILE_SIZE + VSX_TILE_GAP) + center`, for the signs -1 (`true`) and 1.
unfoldable pub place : ℕ → Bool → ℕ → ℤ
place n minus center =
    if minus
    then sub_ℕ center (n * (tile_size + tile_gap))
    else pos (n * (tile_size + tile_gap) + center)

-- The two loops over the signs, `sign_x` outside.
unfoldable pub signs : ℕ → ℕ → List Point
unfolding place
signs x y =
    (place x true center_x, place y true center_y)
    ∷ (place x true center_x, place y false center_y)
    ∷ (place x false center_x, place y true center_y)
    ∷ (place x false center_x, place y false center_y)
    ∷ []

unfoldable pub first_free : List Tile → List Point → Option Point
unfolding try_location
first_free tiles [] = none
first_free tiles ((x, y) ∷ rest) =
    if try_location tiles x y then some (x, y) else first_free tiles rest

-- `for (x = 0; x < 9; x++)`, with the columns that are left.
unfoldable pub try_columns : List Tile → ℕ → ℕ → ℕ → Option Point
unfolding first_free signs
try_columns tiles zero x y = none
try_columns tiles (suc left) x y = elim (first_free tiles (signs x y)) [
  | some p ↦ some p
  | none ↦ try_columns tiles left (x + 1) y
]

-- `for (y = 0; ; y++)`
unfoldable pub try_rows : List Tile → ℕ → ℕ → Option Point
unfolding try_columns
try_rows tiles zero y = none
try_rows tiles (suc fuel) y = elim (try_columns tiles 9 0 y) [
  | some p ↦ some p
  | none ↦ try_rows tiles fuel (y + 1)
]

-- 245 rows are enough for 122 tiles.
abbrev pub row_fuel : ℕ
row_fuel = 245

unfoldable pub find_free_location : List Tile → Option Point
unfolding try_rows
find_free_location tiles = try_rows tiles row_fuel 0
