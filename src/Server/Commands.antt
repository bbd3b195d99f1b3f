-- ===== src/Server/Commands.antt =====
-- server/vsx-connection.c: `process_message`, which tells the commands apart.
use verda_sxtelo.Common.{ℕ, List, [], ◌∷◌, ◌==◌, if◌then◌else◌}
use verda_sxtelo.Frames.{Result, refused}
use verda_sxtelo.Server.{Session}
use verda_sxtelo.Server.Own.{with_client}
use verda_sxtelo.Server.Entering.{
  handle_new_private_game, handle_join_game, handle_new_player, handle_reconnect,
}
use verda_sxtelo.Server.Playing.{
  handle_keep_alive, handle_leave, handle_start_typing, handle_stop_typing, handle_send_message,
  handle_move_tile, handle_turn, handle_shout, handle_set_n_tiles, handle_set_language,
}

-- `enum`-like message numbers of vsx-proto.h, as the `switch` tells them apart.
pub data Command : Type 0 where
  new_player reconnect keep_alive leave send_message start_typing stop_typing move_a_tile
        take_a_turn shout_out choose_n_tiles new_private_game join_game choose_language unknown :
      Command

unfoldable pub command_of : ℕ → Command
command_of n =
    if n == 0x80
    then new_player
    else if n == 0x81
    then reconnect
    else if n == 0x83
    then keep_alive
    else if n == 0x84
    then leave
    else if n == 0x85
    then send_message
    else if n == 0x86
    then start_typing
    else if n == 0x87
    then stop_typing
    else if n == 0x88
    then move_a_tile
    else if n == 0x89
    then take_a_turn
    else if n == 0x8A
    then shout_out
    else if n == 0x8B
    then choose_n_tiles
    else if n == 0x8C
    then new_private_game
    else if n == 0x8D
    then join_game
    else if n == 0x8E
    then choose_language
    else unknown

unfoldable pub run_command : Command → (ℕ → ℕ) → ℕ → List ℕ → Session → Result Session
unfolding handle_new_private_game handle_join_game handle_new_player handle_reconnect
    handle_keep_alive handle_leave handle_send_message handle_start_typing handle_stop_typing
    handle_turn handle_move_tile handle_shout handle_set_n_tiles handle_set_language
run_command new_private_game rand clock payload s = handle_new_private_game clock payload s
run_command join_game rand clock payload s = handle_join_game clock payload s
run_command new_player rand clock payload s = handle_new_player clock payload s
run_command reconnect rand clock payload s = handle_reconnect clock payload s
run_command keep_alive rand clock payload s = handle_keep_alive clock payload s
run_command leave rand clock payload s = handle_leave clock payload s
run_command send_message rand clock payload s = handle_send_message clock payload s
run_command start_typing rand clock payload s = handle_start_typing clock payload s
run_command stop_typing rand clock payload s = handle_stop_typing clock payload s
run_command take_a_turn rand clock payload s = handle_turn rand clock payload s
run_command move_a_tile rand clock payload s = handle_move_tile clock payload s
run_command shout_out rand clock payload s = handle_shout clock payload s
run_command choose_n_tiles rand clock payload s = handle_set_n_tiles clock payload s
run_command choose_language rand clock payload s = handle_set_language clock payload s
run_command unknown rand clock payload s = refused

-- `conn->last_message_time = ...`
abbrev pub touch : ℕ → Session → Session
touch clock s = with_client (record (s.client) { last_message_time = clock }) s

-- `rand` and `clock` are what `rand ()` and the monotonic clock return during the call.
unfoldable pub process_message : (ℕ → ℕ) → ℕ → List ℕ → Session → Result Session
unfolding command_of run_command
process_message rand clock [] s = refused
process_message rand clock (b ∷ payload) s =
    run_command (command_of b) rand clock payload (touch clock s)
