-- ===== src/Conversation/Options.antt =====
-- server/vsx-conversation.c: what can be chosen until the game starts.
use verda_sxtelo.Common.{
  ℕ, Bool, true, false, not, Option, none, some, ◌>>=◌, ◌==◌, min, max, if◌then◌else◌,
}
use verda_sxtelo.Common.Int.{ℤ, pos_part}
use verda_sxtelo.TileData.{n_tiles}
use verda_sxtelo.Player.{is_connected}
use verda_sxtelo.Conversation.{
  State, awaiting_start, in_progress, World, emit, n_tiles_changed, tile_data_changed, player,
}

unfoldable pub has_started : State → Bool
has_started awaiting_start = false
has_started in_progress = true

-- `MIN (VSX_TILE_DATA_N_TILES, MAX (1, n))`
unfoldable pub clamp_n_tiles : ℤ → ℕ
clamp_n_tiles n = min n_tiles (max 1 (pos_part n))

unfoldable pub set_n_tiles : ℕ → ℤ → World → Option World
unfolding player emit has_started clamp_n_tiles
set_n_tiles player_num n w = do
  p ← player player_num w
  some (
      if not (is_connected p)
      then w
      else if has_started w.conversation.state
      then w
      else if clamp_n_tiles n == w.conversation.total_n_tiles
      then w
      else emit n_tiles_changed none
          (record w { conversation = record (w.conversation) { total_n_tiles = clamp_n_tiles n } }))

unfoldable pub set_tile_data : ℕ → ℕ → World → Option World
unfolding player emit has_started
set_tile_data player_num tile_data w = do
  p ← player player_num w
  some (
      if not (is_connected p)
      then w
      else if has_started w.conversation.state
      then w
      else if w.conversation.tile_data == tile_data
      then w
      else emit tile_data_changed none
          (record w { conversation = record (w.conversation) { tile_data = tile_data } }))
