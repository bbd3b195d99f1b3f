-- ===== src/Conversation/Tiles/Flip.antt =====
-- Filling the bag and turning over its next tile.
use verda_sxtelo.Common.{
  ℕ, ◌+◌, ◌<◌, ◌≡◌, refl, arith, some, List, length, length-take, get_elem?, set, take, map,
}
use verda_sxtelo.Common.Count.{get_elem?-some}
use verda_sxtelo.Common.Int.{to_int16, to_int16-IsInt16}
use verda_sxtelo.Tile.{Tile}
use verda_sxtelo.TileData.{TileData, vsx_tile_data}
use verda_sxtelo.TileData.Letters.{IsBag, vsx_tile_data-IsBag, length-vsx_tile_data}
use verda_sxtelo.Bag.Fill.{fresh_tile, init_tile_data-perm}
use verda_sxtelo.Board.{Point}
use verda_sxtelo.Board.Free.{IsFree, find_free_location_total}
use verda_sxtelo.Conversation.{World}
use verda_sxtelo.Conversation.Valid.{IsValid}
use verda_sxtelo.Conversation.Tiles.{fill_bag, flip_tile}
use mathlib.Core.List.{Perm}

-- A bag that was filled from the letters of the chosen language.
pub record Filled (w w' : World) : Type 0 where
  pub data_ : TileData
  pub chosen : get_elem? vsx_tile_data w.conversation.tile_data ≡ some data_
  pub bag : IsBag data_
  pub tiles : List Tile
  pub all_there : Perm tiles (map fresh_tile bag.chars)
  pub count : length tiles ≡ 122
  pub conversation : w'.conversation ≡ record (w.conversation) { tiles = tiles }

pub fill_bag_total :
    (rand : ℕ → ℕ) (w : World)
    → IsValid w.conversation
    → (w' : World) × (fill_bag rand w ≡ some w') × Filled w w'
unfolding fill_bag
fill_bag_total rand w v =
    let (d, e) =
      get_elem?-some vsx_tile_data w.conversation.tile_data (rw length-vsx_tile_data v.language) in
    let b = vsx_tile_data-IsBag w.conversation.tile_data e in
    let (tiles, r, p, l) = init_tile_data-perm rand b.chars b.all_scalars b.count in
    (
      record w { conversation = record (w.conversation) { tiles = tiles } },
      rw (e, b.encoded, r),
      record {
        data_ = d;
        chosen = e;
        bag = b;
        tiles = tiles;
        all_there = p;
        count = l;
        conversation = refl;
      },
    )

-- The next tile was put on a free place of the board; no other tile was touched.
pub record Flipped (w w' : World) : Type 0 where
  pub tile : Tile
  pub place : Point
  pub next : get_elem? w.conversation.tiles w.conversation.n_tiles_in_play ≡ some tile
  pub free : IsFree (take w.conversation.n_tiles_in_play w.conversation.tiles) place
  pub conversation : w'.conversation ≡ record (w.conversation) {
    tiles =
        set w.conversation.tiles w.conversation.n_tiles_in_play
          (record tile { x = place.0; y = place.1 });
    n_tiles_in_play = w.conversation.n_tiles_in_play + 1;
  }

pub flip_tile_total :
    (w : World)
    → w.conversation.n_tiles_in_play < length w.conversation.tiles
    → length w.conversation.tiles ≡ 122
    → (w' : World) × (flip_tile w ≡ some w') × Flipped w w'
unfolding flip_tile
flip_tile_total w h l =
    let n = w.conversation.n_tiles_in_play in
    let tiles = w.conversation.tiles in
    let (t, e) = get_elem?-some tiles n h in
    let (p, f, free) =
      find_free_location_total (take n tiles) (omega (arith, length-take n tiles)) in
    let x = to_int16-IsInt16 p.0 free.x_fits in
    let y = to_int16-IsInt16 p.1 free.y_fits in
    (
      record w {
        conversation = record (w.conversation) {
          tiles = set tiles n (record t { x = to_int16 p.0; y = to_int16 p.1 });
          n_tiles_in_play = n + 1;
        };
      },
      rw (e, f),
      record { tile = t; place = p; next = e; free = free; conversation = rw (x, y) },
    )
