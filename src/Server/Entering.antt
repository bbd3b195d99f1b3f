-- ===== src/Server/Entering.antt =====
-- server/vsx-connection.c: the commands that give a connection its person. A payload is
-- `message_data` behind its first byte. A false result with its error is `refused`, which keeps no
-- state, though the C code goes on with the times that a message has set before it is refused, and
-- writes what earlier messages have queued. What is logged is left out.
use verda_sxtelo.Common.{
  ℕ, ◌+◌, ◌-◌, Option, none, some, List, [], ◌∷◌, length, get_elem?, ltb, leb, if◌then◌else◌,
}
use verda_sxtelo.Proto.{uint16, uint64, string, read_payload}
use verda_sxtelo.NormalizeName.{normalize_name}
use verda_sxtelo.Conversation.{max_players}
use verda_sxtelo.Frames.{Result, ok, refused, ◌>>=◌}
use verda_sxtelo.Server.{Server, Session, present, required}
use verda_sxtelo.Server.Rooms.{get_conversation, generate_conversation, get_pending_conversation}
use verda_sxtelo.Server.People.{get_person, generate_person, make_noise_at}
use verda_sxtelo.Server.Arguments.{number_arg, text_arg}
use verda_sxtelo.Server.Own.{
  bad_player_id, bad_conversation_id, conversation_full, ensure_no_person, set_person,
  set_message_num, set_pending_error, own_person, start_following_person,
}

-- A new person in a conversation becomes the person of the connection.
unfoldable pub become_player : ℕ → List ℕ → ℕ → Session → Result Session
unfolding generate_person
become_player clock player_name i s = do
  n ← generate_person clock player_name i s
  ok (set_person n.0 n.1)

abbrev pub with_server : Server → Session → Session
with_server server s = record s { server = server }

unfoldable pub handle_new_private_game : ℕ → List ℕ → Session → Result Session
unfolding text_arg ensure_no_person normalize_name generate_conversation become_player
    start_following_person
handle_new_private_game clock payload s = do
  items ← required (read_payload (string ∷ string ∷ []) payload)
  s₀ ← ensure_no_person s
  name ← required (normalize_name (text_arg 1 items))
  r ← generate_conversation (text_arg 0 items) s₀.server
  s₁ ← become_player clock (text_arg 1 items) r.0 (with_server r.1 s₀)
  start_following_person s₁

-- The conversation of the number that the client gave, if there is one.
unfoldable pub join_conversation : ℕ → List ℕ → Option ℕ → Session → Result Session
unfolding set_pending_error become_player start_following_person
join_conversation clock player_name none s = ok (set_pending_error bad_conversation_id s)
join_conversation clock player_name (some i) s = do
  c ← present (get_elem? s.server.conversations i)
  if leb max_players (length c.players)
      then ok (set_pending_error conversation_full s)
      else (do s₁ ← become_player clock player_name i s; start_following_person s₁)

unfoldable pub handle_join_game : ℕ → List ℕ → Session → Result Session
unfolding number_arg text_arg ensure_no_person normalize_name get_conversation join_conversation
handle_join_game clock payload s = do
  items ← required (read_payload (uint64 ∷ string ∷ []) payload)
  s₀ ← ensure_no_person s
  name ← required (normalize_name (text_arg 1 items))
  join_conversation clock (text_arg 1 items) (get_conversation (number_arg 0 items) s₀.server) s₀

unfoldable pub handle_new_player : ℕ → List ℕ → Session → Result Session
unfolding text_arg ensure_no_person normalize_name get_pending_conversation become_player own_person
    start_following_person
handle_new_player clock payload s = do
  items ← required (read_payload (string ∷ string ∷ []) payload)
  s₀ ← ensure_no_person s
  room ← required (normalize_name (text_arg 0 items))
  name ← required (normalize_name (text_arg 1 items))
  r ← get_pending_conversation (text_arg 0 items) s₀.server
  s₁ ← become_player clock (text_arg 1 items) r.0 (with_server r.1 s₀)
  p ← own_person s₁
  start_following_person (set_message_num p.message_offset s₁)

-- The rest of `handle_reconnect` for the person that was found. The numbers of messages are not
-- negative and the offset of a person never exceeds them.
unfoldable pub reconnect_person : ℕ → ℕ → ℕ → Session → Result Session
unfolding make_noise_at start_following_person
reconnect_person clock n_messages_received k s = do
  p ← present (get_elem? s.server.persons k)
  c ← present (get_elem? s.server.conversations p.conversation)
  if ltb (length c.messages - p.message_offset) n_messages_received then refused else (do
    s₁ ← make_noise_at clock k s
    start_following_person
        (set_message_num (n_messages_received + p.message_offset) (set_person k s₁)))

unfoldable pub handle_reconnect : ℕ → List ℕ → Session → Result Session
unfolding number_arg ensure_no_person get_person set_pending_error reconnect_person
handle_reconnect clock payload s = do
  items ← required (read_payload (uint64 ∷ uint16 ∷ []) payload)
  s₀ ← ensure_no_person s
  elim (get_person (number_arg 0 items) s₀.server) [
    | none ↦ ok (set_pending_error bad_player_id s₀)
    | some k ↦ reconnect_person clock (number_arg 1 items) k s₀
  ]
