-- ===== src/Conversation/Players.antt =====
-- server/vsx-conversation.c: players that join and leave, and whose turn is next.
pub mod NextTurn
pub mod Passing
pub mod Keeps
pub mod Joins
use verda_sxtelo.Common.{
  ℕ, zero, suc, ◌+◌, ◌-◌, ◌%◌, Bool, true, false, not, Option, none, some, List, [], ◌∷◌, ◌++◌,
  ◌>>=◌, length, ◌==◌, ltb, leb, if◌then◌else◌,
}
use verda_sxtelo.Player
use verda_sxtelo.Player.{Player, next_turn, is_connected, has_next_turn}
use verda_sxtelo.Conversation.{
  World, n_players, max_players, emit, player_changed, start, player, set_flags, set_flag,
}

-- The last part of the loop: the turn goes from one player to another.
unfoldable pub transfer : ℕ → ℕ → World → Option World
unfolding set_flag
transfer old_player next_turn_player w = do
  w' ← set_flag old_player next_turn false w
  set_flag next_turn_player next_turn true w'

-- `while (true)`, which comes back to `old_player` after `n_players` rounds at most.
unfoldable pub pass_turn : ℕ → ℕ → ℕ → World → Option World
unfolding transfer
pass_turn zero old_player next_turn_player w = none
pass_turn (suc fuel) old_player next_turn_player w =
    let i = (next_turn_player + 1) % n_players w.conversation in
    let again = pass_turn fuel old_player i w in
    if i == old_player
    then some w
    else (do p ← player i w; if is_connected p then transfer old_player i w else again)

unfoldable pub set_next_player : ℕ → World → Option World
unfolding pass_turn set_flag
set_next_player old_player w =
    if leb w.conversation.total_n_tiles w.conversation.n_tiles_in_play
    then set_flag old_player next_turn false w
    else pass_turn (n_players w.conversation) old_player old_player w

-- `conversation->n_connected_players--`
unfoldable pub disconnect : World → World
disconnect w = record w {
  conversation = record (w.conversation) {
    n_connected_players = w.conversation.n_connected_players - 1;
  };
}

unfoldable pub player_left : ℕ → World → Option World
unfolding player set_flags set_next_player disconnect
player_left player_num w = do
  p ← player player_num w
  if not (is_connected p) then some w else (do
    w' ← set_flags player_num 0 w
    w'' ← (if has_next_turn p then set_next_player player_num w' else some w')
    some (disconnect w''))

-- The result is the number of the new player and the state.
unfoldable pub add_player : List ℕ → World → Option (ℕ × World)
unfolding emit start
add_player player_name w =
    if ltb n max_players
    then some (n, if leb max_players (n_players joined.conversation) then start joined else joined)
    else none
  where
    n : ℕ
    n = n_players w.conversation

    joined : World
    joined = emit player_changed (some n) (record w {
      conversation = record (w.conversation) {
        players = w.conversation.players ++ (Player.new player_name n ∷ []);
        n_connected_players = w.conversation.n_connected_players + 1;
      };
    })
