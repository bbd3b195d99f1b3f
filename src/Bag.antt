-- ===== src/Bag.antt =====
-- server/vsx-conversation.c, `init_tile_data` and `shuffle_tiles`: filling the bag of tiles.
-- `rand ()` is a parameter: `rand i` is what it returns in the round that swaps tile `i`.
pub mod Shuffle
pub mod Fill
use verda_sxtelo.Common.{
  ℕ, zero, suc, ◌+◌, ◌%◌, Option, none, some, List, [], ◌∷◌, take, get_elem?, set, if◌then◌else◌,
}
use verda_sxtelo.Common.Int.{pos, negsuc}
use verda_sxtelo.Tile.{Tile}
use verda_sxtelo.TileData.{n_tiles}
use verda_sxtelo.Utf8.{at, next_width, next}
use mathlib.Core.Option

-- `temp = tiles[i]; tiles[i] = tiles[j]; tiles[j] = temp`. Both indices are in range here.
unfoldable pub swap : ℕ → ℕ → List Tile → List Tile
swap i j tiles = elim (get_elem? tiles i) [
  | none ↦ tiles
  | some temp ↦ elim (get_elem? tiles j) [
    | none ↦ tiles
    | some tile ↦ set (set tiles i tile) j temp
  ]
]

module _ (rand : ℕ → ℕ) where
  -- `for (i = ...; i > 0; i--)`
  unfoldable pub shuffle_loop : ℕ → List Tile → List Tile
  unfolding swap
  shuffle_loop zero tiles = tiles
  shuffle_loop (suc i) tiles = shuffle_loop i (swap (rand (suc i) % (suc i + 1)) (suc i) tiles)

  unfoldable pub shuffle_tiles : List Tile → List Tile
  unfolding shuffle_loop
  shuffle_tiles tiles = shuffle_loop 121 tiles

-- The tile made from the letter at `t`.
unfoldable pub letter_tile : List ℕ → Tile
unfolding next_width
letter_tile t = record {
  x = pos 0;
  y = pos 0;
  last_player = negsuc 0;
  letter = take (next_width (at t 0)) t;
}

-- The loop over the tiles that are left; `none` is a failed assertion.
unfoldable pub fill : ℕ → List ℕ → Option (List Tile)
unfolding letter_tile next
fill zero [] = some []
fill zero (b ∷ t) = none
fill (suc left) [] = none
fill (suc left) (b ∷ t) = Option.map (◌∷◌ (letter_tile (b ∷ t))) (fill left (next (b ∷ t)))

-- The argument is the letters of the tile data.
unfoldable pub init_tile_data : (ℕ → ℕ) → List ℕ → Option (List Tile)
unfolding fill shuffle_tiles
init_tile_data rand letters = Option.map (shuffle_tiles rand) (fill n_tiles letters)
