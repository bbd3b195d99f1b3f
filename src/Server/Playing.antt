-- ===== src/Server/Playing.antt =====
-- server/vsx-connection.c: the commands of a connection that has a person.
use verda_sxtelo.Common.{ℕ, true, false, Option, none, some, List, [], ◌∷◌, leb, if◌then◌else◌}
use verda_sxtelo.Common.Int.{pos}
use verda_sxtelo.Proto.{uint8, int16, string, read_payload}
use verda_sxtelo.TileData.{get_for_language_code}
use verda_sxtelo.Conversation.{World}
use verda_sxtelo.Conversation.Talk.{add_message, set_typing, shout}
use verda_sxtelo.Conversation.Options.{set_n_tiles, set_tile_data}
use verda_sxtelo.Conversation.Tiles.{turn, move_tile}
use verda_sxtelo.Frames.{Result, ok, refused, ◌>>=◌}
use verda_sxtelo.Server.{Session, required, at_conversation}
use verda_sxtelo.Server.People.{make_noise_at, leave_conversation}
use verda_sxtelo.Server.Arguments.{number_arg, integer_arg, text_arg}
use verda_sxtelo.Server.Own.{own_person, own_conversation}

-- The person of the connection is noted to be alive.
unfoldable pub activate_person : ℕ → Session → Result Session
unfolding make_noise_at
activate_person clock s = do k ← required s.client.person; make_noise_at clock k s

-- `message_data_length != 1`
unfoldable pub ensure_empty_payload : List ℕ → Session → Result Session
ensure_empty_payload [] s = ok s
ensure_empty_payload (b ∷ payload) s = refused

-- A call of an operation on the conversation of the connection's person, for its player.
unfoldable pub as_player : (ℕ → World → Option World) → Session → Result Session
unfolding own_person at_conversation
as_player f s = do p ← own_person s; at_conversation p.conversation (f p.player_num) s

-- The commands without arguments.
unfoldable pub simple_command : ℕ → (ℕ → World → Option World) → List ℕ → Session → Result Session
unfolding ensure_empty_payload activate_person as_player
simple_command clock f payload s = do
  s₀ ← ensure_empty_payload payload s
  s₁ ← activate_person clock s₀
  as_player f s₁

unfoldable pub handle_keep_alive : ℕ → List ℕ → Session → Result Session
unfolding ensure_empty_payload activate_person
handle_keep_alive clock payload s = do s₀ ← ensure_empty_payload payload s; activate_person clock s₀

unfoldable pub handle_leave : ℕ → List ℕ → Session → Result Session
unfolding ensure_empty_payload activate_person own_person leave_conversation
handle_leave clock payload s = do
  s₀ ← ensure_empty_payload payload s
  s₁ ← activate_person clock s₀
  p ← own_person s₁
  leave_conversation p s₁

unfoldable pub handle_start_typing : ℕ → List ℕ → Session → Result Session
unfolding simple_command set_typing
handle_start_typing clock payload s = simple_command clock (λ i. set_typing i true) payload s

unfoldable pub handle_stop_typing : ℕ → List ℕ → Session → Result Session
unfolding simple_command set_typing
handle_stop_typing clock payload s = simple_command clock (λ i. set_typing i false) payload s

unfoldable pub handle_send_message : ℕ → List ℕ → Session → Result Session
unfolding text_arg activate_person as_player add_message set_typing
handle_send_message clock payload s = do
  items ← required (read_payload (string ∷ []) payload)
  s₁ ← activate_person clock s
  s₂ ← as_player (λ i. add_message i (text_arg 0 items)) s₁
  as_player (λ i. set_typing i false) s₂

unfoldable pub handle_move_tile : ℕ → List ℕ → Session → Result Session
unfolding number_arg integer_arg activate_person own_conversation as_player move_tile
handle_move_tile clock payload s = do
  items ← required (read_payload (uint8 ∷ int16 ∷ int16 ∷ []) payload)
  s₁ ← activate_person clock s
  c ← own_conversation s₁
  if leb c.n_tiles_in_play (number_arg 0 items)
      then refused
      else as_player
          (λ i. move_tile i (number_arg 0 items) (integer_arg 1 items) (integer_arg 2 items)) s₁

unfoldable pub handle_turn : (ℕ → ℕ) → ℕ → List ℕ → Session → Result Session
unfolding simple_command turn
handle_turn rand clock payload s = simple_command clock (turn rand clock) payload s

unfoldable pub handle_shout : ℕ → List ℕ → Session → Result Session
unfolding simple_command shout
handle_shout clock payload s = simple_command clock (shout clock) payload s

unfoldable pub handle_set_n_tiles : ℕ → List ℕ → Session → Result Session
unfolding number_arg activate_person as_player set_n_tiles
handle_set_n_tiles clock payload s = do
  items ← required (read_payload (uint8 ∷ []) payload)
  s₁ ← activate_person clock s
  as_player (λ i. set_n_tiles i (pos (number_arg 0 items))) s₁

unfoldable pub handle_set_language : ℕ → List ℕ → Session → Result Session
unfolding text_arg activate_person get_for_language_code as_player set_tile_data
handle_set_language clock payload s = do
  items ← required (read_payload (string ∷ []) payload)
  s₁ ← activate_person clock s
  elim (get_for_language_code (text_arg 0 items)) [
    | none ↦ ok s₁
    | some tile_data ↦ as_player (λ i. set_tile_data i tile_data) s₁
  ]
