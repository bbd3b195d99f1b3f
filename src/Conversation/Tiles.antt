-- ===== src/Conversation/Tiles.antt =====
-- server/vsx-conversation.c: turning a tile over and moving one.
pub mod Flip
pub mod Give
pub mod Turn
pub mod Shouted
use verda_sxtelo.Common.{
  ℕ, ◌+◌, Bool, true, false, not, ◌&&◌, ◌||◌, Option, none, some, List, ◌>>=◌, get_elem?, set, take,
  ◌==◌, leb, if◌then◌else◌,
}
use verda_sxtelo.Common.Int.{ℤ, pos, to_int16, ◌==ℤ◌}
use verda_sxtelo.TileData.{TileData, vsx_tile_data}
use verda_sxtelo.Bag.{init_tile_data}
use verda_sxtelo.Board.{Point, find_free_location}
use verda_sxtelo.Player.{next_turn, is_connected, has_next_turn}
use verda_sxtelo.Conversation.{World, emit, tile_changed, start, player, set_flag}
use verda_sxtelo.Conversation.Players.{set_next_player}
use verda_sxtelo.Conversation.Talk.{is_shouting}

-- `init_tile_data (conversation)`, just before the first turn.
unfoldable pub fill_bag : (ℕ → ℕ) → World → Option World
fill_bag rand w = do
  d ← get_elem? vsx_tile_data w.conversation.tile_data
  tiles ← init_tile_data rand d.letters
  some (record w { conversation = record (w.conversation) { tiles = tiles } })

-- The next tile of the bag goes to a free place.
unfoldable pub flip_tile : World → Option World
flip_tile w = do
  tile ← get_elem? w.conversation.tiles w.conversation.n_tiles_in_play
  p ← find_free_location (take w.conversation.n_tiles_in_play w.conversation.tiles)
  some (record w {
    conversation = record (w.conversation) {
      tiles =
          set w.conversation.tiles w.conversation.n_tiles_in_play
            (record tile { x = to_int16 p.0; y = to_int16 p.1 });
      n_tiles_in_play = w.conversation.n_tiles_in_play + 1;
    };
  })

-- The last part of `vsx_conversation_turn`: whose turn is next. With one player only, the first
-- turn gives that player the flag, which `set_next_player` would not.
unfoldable pub give_turn : Bool → ℕ → World → Option World
unfolding set_flag set_next_player
give_turn is_first_turn player_num w =
    if is_first_turn && (w.conversation.n_connected_players == 1)
    then set_flag player_num next_turn true w
    else set_next_player player_num w

-- What `vsx_conversation_turn` does behind its guards.
unfoldable pub take_turn : (ℕ → ℕ) → ℕ → World → Option World
unfolding fill_bag flip_tile emit start give_turn
take_turn rand player_num w = do
  w₁ ← (if w.conversation.n_tiles_in_play == 0 then fill_bag rand w else some w)
  w₂ ← flip_tile w₁
  give_turn (w.conversation.n_tiles_in_play == 0) player_num
      (emit tile_changed (some w.conversation.n_tiles_in_play) (start w₂))

unfoldable pub turn : (ℕ → ℕ) → ℕ → ℕ → World → Option World
unfolding player is_shouting take_turn
turn rand clock player_num w = do
  p ← player player_num w
  if not (is_connected p)
      then some w
      else if not (w.conversation.n_tiles_in_play == 0) && not (has_next_turn p)
      then some w
      else if is_shouting clock w.conversation
      then some w
      else if leb w.conversation.total_n_tiles w.conversation.n_tiles_in_play
      then some w
      else take_turn rand player_num w

unfoldable pub move_tile : ℕ → ℕ → ℤ → ℤ → World → Option World
unfolding emit
move_tile player_num tile_num x y w = do
  tile ← get_elem? w.conversation.tiles tile_num
  some (
      if (tile.x ==ℤ x) && (tile.y ==ℤ y)
      then w
      else emit tile_changed (some tile_num) (record w {
        conversation = record (w.conversation) {
          tiles = set w.conversation.tiles tile_num (record tile {
            x = to_int16 x;
            y = to_int16 y;
            last_player = to_int16 (pos player_num);
          });
        };
      }))
