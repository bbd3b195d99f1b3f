-- ===== src/Server/People.antt =====
-- server/vsx-person-set.c, with the operations of vsx-person.c on the conversation of a person.
use verda_sxtelo.Common.{
  ℕ, Option, none, some, List, [], ◌∷◌, ◌++◌, length, get_elem?, set, ◌==◌, if◌then◌else◌,
}
use verda_sxtelo.Conversation.Players.{add_player, player_left}
use verda_sxtelo.Person.{Person, is_silent, make_noise}
use verda_sxtelo.Frames.{Result, ok, ◌>>=◌}
use verda_sxtelo.Server.{Server, Session, present, settle, at_conversation, remove_number}
use verda_sxtelo.Server.Rooms.{unused_id, is_used}

-- `vsx_hash_table_get` among the people of the set.
unfoldable pub find_person : List Person → ℕ → List ℕ → Option ℕ
find_person persons id [] = none
find_person persons id (k ∷ ks) =
    let rest = find_person persons id ks in
    elim (get_elem? persons k) [ none ↦ rest | some p ↦ if p.id == id then some k else rest ]

unfoldable pub get_person : ℕ → Server → Option ℕ
unfolding find_person
get_person id server = find_person server.persons id server.people

abbrev pub with_persons : List Person → Session → Session
with_persons persons s = record s { server = record (s.server) { persons = persons } }

-- `vsx_person_new`. The result is the index of the new person.
unfoldable pub new_person : ℕ → ℕ → List ℕ → ℕ → Session → Result (ℕ × Session)
unfolding settle add_player
new_person clock id player_name i s = do
  c ← present (get_elem? s.server.conversations i)
  r ← present (add_player player_name (record { conversation = c; signals = [] }))
  let s' = settle i r.1 s
  ok (
    length s'.server.persons,
    with_persons
        (s'.server.persons
          ++ (record {
            id = id;
            conversation = i;
            player_num = r.0;
            last_noise_time = clock;
            message_offset = length c.messages;
          }
              ∷ []))
        s',
  )

unfoldable pub generate_person : ℕ → List ℕ → ℕ → Session → Result (ℕ × Session)
unfolding unused_id get_person new_person
generate_person clock player_name i s = do
  r ← unused_id (λ id. is_used (get_person id s.server)) s.server.ids
  n ← new_person clock r.0 player_name i (record s { server = record (s.server) { ids = r.1 } })
  ok (n.0, record (n.1) { server = record (n.1.server) { people = n.0 ∷ n.1.server.people } })

-- `vsx_person_make_noise` for the person of an index.
unfoldable pub make_noise_at : ℕ → ℕ → Session → Result Session
unfolding make_noise
make_noise_at clock k s = do
  p ← present (get_elem? s.server.persons k)
  ok (with_persons (set s.server.persons k (make_noise clock p)) s)

unfoldable pub leave_conversation : Person → Session → Result Session
unfolding at_conversation player_left
leave_conversation p s = at_conversation p.conversation (player_left p.player_num) s

unfoldable pub remove_person : ℕ → Person → Session → Result Session
unfolding leave_conversation remove_number
remove_person k p s = do
  s' ← leave_conversation p s
  ok (record s' { server = record (s'.server) { people = remove_number k s'.server.people } })

-- `vsx_list_for_each_safe` over the people that the list held at first.
unfoldable pub remove_silent : ℕ → List ℕ → Session → Result Session
unfolding remove_person is_silent
remove_silent clock [] s = ok s
remove_silent clock (k ∷ ks) s = do
  p ← present (get_elem? s.server.persons k)
  s' ← (if is_silent clock p then remove_person k p s else ok s)
  remove_silent clock ks s'

-- `remove_silent_people_timer_cb`, but for the timer, which ends with an empty list.
unfoldable pub remove_silent_people : ℕ → Session → Result Session
unfolding remove_silent
remove_silent_people clock s = remove_silent clock s.server.people s
