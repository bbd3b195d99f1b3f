-- ===== src/Server/Own.antt =====
-- server/vsx-connection.c: what a command finds and sets in the fields of its own connection.
use verda_sxtelo.Common.{Bool, false, ℕ, true, none, some, length, get_elem?}
use verda_sxtelo.Conversation.{Conversation}
use verda_sxtelo.Bitmask.{set_range}
use verda_sxtelo.Person.{Person}
use verda_sxtelo.Frames.{Result, ok, refused, ◌>>=◌}
use verda_sxtelo.Server.{Client, Session, present}

-- The error messages that a client gets.
abbrev pub bad_player_id : ℕ
bad_player_id = 0x09

abbrev pub bad_conversation_id : ℕ
bad_conversation_id = 0x0b

abbrev pub conversation_full : ℕ
conversation_full = 0x0d

-- `if (conn->person)` with its error.
unfoldable pub ensure_no_person : Session → Result Session
ensure_no_person s = elim s.client.person [ none ↦ ok s | some k ↦ refused ]

abbrev pub with_client : Client → Session → Session
with_client c s = record s { client = c }

-- `conn->person = ...`
abbrev pub set_person : ℕ → Session → Session
set_person k s = with_client (record (s.client) { person = some k }) s

abbrev pub set_message_num : ℕ → Session → Session
set_message_num n s = with_client (record (s.client) { message_num = n }) s

unfoldable pub set_pending_error : ℕ → Session → Session
set_pending_error error s =
    with_client
      (record (s.client) {
        pending_error = error;
        dirty_flags = record (s.client.dirty_flags) { error_dirty = true };
      })
      s

-- `conn->person != NULL`
unfoldable pub has_person : Client → Bool
has_person c = elim c.person [ none ↦ false | some k ↦ true ]

-- The person of the connection, for `conn->person->...`.
unfoldable pub own_person : Session → Result Person
own_person s = do k ← present s.client.person; present (get_elem? s.server.persons k)

unfoldable pub own_conversation : Session → Result Conversation
unfolding own_person
own_conversation s = do p ← own_person s; present (get_elem? s.server.conversations p.conversation)

unfoldable pub start_following_person : Session → Result Session
unfolding own_conversation set_range
start_following_person s = do
  c ← own_conversation s
  ok (
      with_client
        (record (s.client) {
          dirty_flags = record (s.client.dirty_flags) {
            player_id_dirty = true;
            conversation_id_dirty = true;
            n_tiles_dirty = true;
            language_dirty = true;
            sync_dirty = true;
          };
          dirty_tiles = set_range s.client.dirty_tiles c.n_tiles_in_play;
          dirty_players = set_range s.client.dirty_players (length c.players);
        })
        s)
