-- ===== src/Server/Serves.antt =====
-- Whatever message a client sends, the server keeps its invariant and follows no null pointer.
use verda_sxtelo.Common.{
  ℕ, ◌+◌, ◌-◌, ◌<◌, ◌≡◌, refl, sym, subst, arith, Bool, true, false, Option, Option-cases, none,
  some, none-ne-some, length-set, ◌==◌, List, [], ◌∷◌, length, get_elem?, Bool-cases, inl, inr, All,
  leb, leb-false→lt, ltb, if◌then◌else◌,
}
use verda_sxtelo.Common.Count.{All-get_elem?, get_elem?-some}
use verda_sxtelo.Proto.{Item, Kind, uint16, uint64, string, read_payload}
use verda_sxtelo.NormalizeName.{normalize_name}
use verda_sxtelo.Conversation.{max_players}
use verda_sxtelo.Person.{Person, make_noise}
use verda_sxtelo.Conversation.Grows.{some-same}
use verda_sxtelo.Frames.{Result, ok, ◌>>=◌}
use verda_sxtelo.Server.{Session, present, required}
use verda_sxtelo.Server.Arguments.{number_arg, text_arg}
use verda_sxtelo.Server.Rooms.{get_conversation, generate_conversation, get_pending_conversation}
use verda_sxtelo.Server.People.{find_person, get_person, make_noise_at}
use verda_sxtelo.Server.Own.{
  bad_player_id, ensure_no_person, set_pending_error, set_person, set_message_num, own_person,
  start_following_person,
}
use verda_sxtelo.Server.Entering.{
  become_player, handle_new_private_game, join_conversation, handle_join_game, handle_new_player,
  reconnect_person, handle_reconnect,
}
use verda_sxtelo.Server.Commands.{
  Command, new_player, reconnect, keep_alive, leave, send_message, start_typing, stop_typing,
  move_a_tile, take_a_turn, shout_out, choose_n_tiles, new_private_game, join_game, choose_language,
  unknown, command_of, run_command, touch, process_message,
}
use verda_sxtelo.Server.Invariant.{At, IsSession, IsPlaying, HasPlayer, Holds, bind-Holds, unique}
use verda_sxtelo.Server.Effects.{HasCompany}
use verda_sxtelo.Server.Plays.{make_noise-IsSession, own_lem}
use verda_sxtelo.Server.Acts.{
  keep_alive-Holds, leave-Holds, start_typing-Holds, stop_typing-Holds, turn-Holds, shout-Holds,
  set_n_tiles-Holds, move_tile-Holds, set_language-Holds, send_message-Holds,
}
use verda_sxtelo.Server.Enters.{become_player-Holds, start_following-Holds}
use verda_sxtelo.Server.Finds.{
  with_server, Joinable, get_conversation-HasCompany, generate_conversation-Holds,
  get_pending_conversation-Holds,
}

required-Holds {ℓ} : {A : Type ℓ} (o : Option A) → Holds (λ a. Unit {0}) (required o)
required-Holds none = tt
required-Holds (some a) = tt

present-Holds :
    {A : Type 0} (o : Option A) (a : A) → o ≡ some a → Holds (λ b. o ≡ some b) (present o)
present-Holds none a e = absurd (none-ne-some a e)
present-Holds (some b) a e = refl

if-Holds :
    (b : Bool) (x y : Result Session)
    → (b ≡ true → Holds IsSession x)
    → (b ≡ false → Holds IsSession y)
    → Holds IsSession (if b then x else y)
if-Holds true x y h k = h refl
if-Holds false x y h k = k refl

-- Without a person nothing else changes.
no_person-Holds : (s : Session) → IsSession s → Holds (λ t. IsSession t) (ensure_no_person s)
unfolding ensure_no_person
no_person-Holds s v = elim (Option-cases s.client.person) [
  | inl e ↦ simp (ensure_no_person, e) v
  | inr (k, e) ↦ simp (ensure_no_person, e) tt
]

-- The arguments of a command, for a connection that has no person yet.
entering-Holds :
    (kinds : List Kind) (payload : List ℕ) (s : Session) (f : List Item → Session → Result Session)
    → IsSession s
    → ((items : List Item) (t : Session) → IsSession t → Holds IsSession (f items t))
    → Holds IsSession
        (required (read_payload kinds payload) >>= λ items. ensure_no_person s >>= f items)
entering-Holds kinds payload s f v k =
    bind-Holds (λ a. Unit {0}) IsSession (required (read_payload kinds payload)) _
      (required-Holds (read_payload kinds payload))
      (λ items u.
        bind-Holds IsSession IsSession (ensure_no_person s) (f items) (no_person-Holds s v)
          (k items))

-- A name that is checked.
named-Holds :
    (text : List ℕ) (r : Result Session)
    → Holds IsSession r
    → Holds IsSession (required (normalize_name text) >>= λ name. r)
named-Holds text r h =
    bind-Holds (λ a. Unit {0}) IsSession (required (normalize_name text)) (λ name. r)
      (required-Holds (normalize_name text)) (λ name u. h)

set_pending_error-IsSession :
    (error : ℕ) (s : Session) → IsSession s → IsSession (set_pending_error error s)
unfolding set_pending_error
set_pending_error-IsSession error s v = record {
  games = v.games;
  pending = v.pending;
  others = v.others;
  persons = v.persons;
  people = v.people;
  own = v.own;
  clients = v.clients;
}

module _ (clock : ℕ) (payload : List ℕ) (s : Session) (v : IsSession s) where
  private_game-Holds : Holds IsSession (handle_new_private_game clock payload s)
  unfolding handle_new_private_game
  private_game-Holds = entering-Holds (string ∷ string ∷ []) payload s _ v (λ items t x.
      named-Holds (text_arg 1 items) _ (
        bind-Holds (Joinable t) IsSession (generate_conversation (text_arg 0 items) t.server) _
          (generate_conversation-Holds (text_arg 0 items) t x)
          (λ (i, server) (y, j).
            bind-Holds IsPlaying IsSession
              (become_player clock (text_arg 1 items) i (with_server server t))
              start_following_person
              (become_player-Holds clock (text_arg 1 items) i (with_server server t) y j)
              start_following-Holds)))

  -- The conversation that was found.
  found-Holds :
      (name : List ℕ) (i : ℕ) (t : Session)
      → IsSession t
      → At t.server.conversations HasCompany i
      → Holds IsSession (join_conversation clock name (some i) t)
  unfolding join_conversation
  found-Holds name i t x (c, f, h) =
      bind-Holds (λ d. get_elem? t.server.conversations i ≡ some d) IsSession
        (present (get_elem? t.server.conversations i)) _
        (present-Holds (get_elem? t.server.conversations i) c f)
        (λ d g.
          if-Holds (leb max_players (length d.players)) _ _ (λ b. set_pending_error-IsSession _ t x)
            (λ b.
              bind-Holds IsPlaying IsSession (become_player clock name i t) start_following_person
                (become_player-Holds clock name i t x (
                  d,
                  g,
                  (leb-false→lt max_players (length d.players) b, subst HasCompany (unique f g) h),
                ))
                start_following-Holds))

  join-Holds :
      (name : List ℕ) (id : ℕ) (t : Session)
      → IsSession t
      → Holds IsSession (join_conversation clock name (get_conversation id t.server) t)
  unfolding join_conversation
  join-Holds name id t x = with_found (get_conversation id t.server) refl
    where
      with_found :
          (o : Option ℕ)
          → get_conversation id t.server ≡ o
          → Holds IsSession (join_conversation clock name o t)
      with_found none e = set_pending_error-IsSession _ t x
      with_found (some i) e = found-Holds name i t x (get_conversation-HasCompany id i t x e)

  join_game-Holds : Holds IsSession (handle_join_game clock payload s)
  unfolding handle_join_game
  join_game-Holds = entering-Holds (uint64 ∷ string ∷ []) payload s _ v (λ items t x.
      named-Holds (text_arg 1 items) _ (join-Holds (text_arg 1 items) (number_arg 0 items) t x))

  -- The number of messages is set and the person is followed.
  followed-Holds :
      (n : ℕ) (t : Session)
      → IsPlaying t
      → Holds IsSession (start_following_person (set_message_num n t))
  followed-Holds n t (x, (k, e)) = start_following-Holds (set_message_num n t) (
    record {
      games = x.games;
      pending = x.pending;
      others = x.others;
      persons = x.persons;
      people = x.people;
      own = x.own;
      clients = x.clients;
    },
    (k, e),
  )

  new_player-Holds : Holds IsSession (handle_new_player clock payload s)
  unfolding handle_new_player
  new_player-Holds = entering-Holds (string ∷ string ∷ []) payload s _ v (λ items t x.
      named-Holds (text_arg 0 items) _ (
        named-Holds (text_arg 1 items) _ (
          bind-Holds (Joinable t) IsSession (get_pending_conversation (text_arg 0 items) t.server) _
            (get_pending_conversation-Holds (text_arg 0 items) t x)
            (λ (i, server) (y, j).
              bind-Holds IsPlaying IsSession
                (become_player clock (text_arg 1 items) i (with_server server t)) _
                (become_player-Holds clock (text_arg 1 items) i (with_server server t) y j)
                (λ u p.
                  let o = own_lem u p in
                  bind-Holds (λ q. Unit {0}) IsSession (own_person u) _
                    (subst (Holds (λ q. Unit {0})) (sym o.is_person) tt)
                    (λ q z. followed-Holds q.message_offset u p))))))

  -- The person that was noted to be alive is still there.
  noisy :
      (k : ℕ) (t : Session)
      → IsSession t
      → k < length t.server.persons
      → Holds (λ u. IsSession u × (k < length u.server.persons)) (make_noise_at clock k t)
  unfolding make_noise_at
  noisy k t x l =
      let (p, e) = get_elem?-some t.server.persons k l in
      simp (make_noise_at, e)
        (
          make_noise-IsSession clock k p t e x,
          omega (arith, length-set t.server.persons k (make_noise clock p)),
        )

  find_person-bound :
      (persons : List Person) (id k : ℕ) (ks : List ℕ)
      → All (λ k. k < length persons) ks
      → find_person persons id ks ≡ some k
      → k < length persons
  unfolding find_person
  find_person-bound persons id k [] a e = absurd (none-ne-some k e)
  find_person-bound persons id k (j ∷ ks) (h, a) e =
      let (p, f) = get_elem?-some persons j h in
      elim (Bool-cases (p.id == id)) [
        | inl t ↦
            let q : j ≡ k = some-same (rw (find_person, f, t) at e) in
            subst (λ k. k < length persons) q h
        | inr t ↦ find_person-bound persons id k ks a (rw (find_person, f, t) at e)
      ]

  reconnect_person-Holds :
      (n k : ℕ) (t : Session)
      → IsSession t
      → k < length t.server.persons
      → Holds IsSession (reconnect_person clock n k t)
  unfolding reconnect_person
  reconnect_person-Holds n k t x l =
      let (p, e) = get_elem?-some t.server.persons k l in
      bind-Holds (λ q. get_elem? t.server.persons k ≡ some q) IsSession
        (present (get_elem? t.server.persons k)) _
        (present-Holds (get_elem? t.server.persons k) p e)
        (λ q f.
          let (c, g, h) =
            All-get_elem? (HasPlayer t.server.conversations) t.server.persons k q x.persons f in
          bind-Holds (λ d. get_elem? t.server.conversations q.conversation ≡ some d) IsSession
            (present (get_elem? t.server.conversations q.conversation)) _
            (present-Holds (get_elem? t.server.conversations q.conversation) c g)
            (λ d r.
              if-Holds (ltb (length d.messages - q.message_offset) n) _ _ (λ b. tt)
                (λ b.
                  bind-Holds (λ u. IsSession u × (k < length u.server.persons)) IsSession
                    (make_noise_at clock k t) _ (noisy k t x l)
                    (λ u (y, m). followed-Holds (n + q.message_offset) (set_person k u) (
                      record {
                        games = y.games;
                        pending = y.pending;
                        others = y.others;
                        persons = y.persons;
                        people = y.people;
                        own = m;
                        clients = y.clients;
                      },
                      (k, refl),
                    )))))

  reconnect-Holds : Holds IsSession (handle_reconnect clock payload s)
  unfolding handle_reconnect get_person
  reconnect-Holds =
      entering-Holds (uint64 ∷ uint16 ∷ []) payload s _ v
        (λ items t x. with_person items t x (get_person (number_arg 0 items) t.server) refl)
    where
      with_person :
          (items : List Item) (t : Session)
          → IsSession t
          → (o : Option ℕ) → get_person (number_arg 0 items) t.server ≡ o
          → Holds IsSession (elim o [
            | none ↦ ok (set_pending_error bad_player_id t)
            | some k ↦ reconnect_person clock (number_arg 1 items) k t
          ])
      with_person items t x none e = set_pending_error-IsSession bad_player_id t x
      with_person items t x (some k) e =
          reconnect_person-Holds (number_arg 1 items) k t x
            (find_person-bound t.server.persons (number_arg 0 items) k t.server.people x.people e)

touch-IsSession : (clock : ℕ) (s : Session) → IsSession s → IsSession (touch clock s)
touch-IsSession clock s v = record {
  games = v.games;
  pending = v.pending;
  others = v.others;
  persons = v.persons;
  people = v.people;
  own = v.own;
  clients = v.clients;
}

run_command-Holds :
    (command : Command) (rand : ℕ → ℕ) (clock : ℕ) (payload : List ℕ) (s : Session)
    → IsSession s
    → All (λ b. b < 256) payload
    → Holds IsSession (run_command command rand clock payload s)
unfolding run_command
run_command-Holds new_private_game rand clock payload s v a = private_game-Holds clock payload s v
run_command-Holds join_game rand clock payload s v a = join_game-Holds clock payload s v
run_command-Holds new_player rand clock payload s v a = new_player-Holds clock payload s v
run_command-Holds reconnect rand clock payload s v a = reconnect-Holds clock payload s v
run_command-Holds keep_alive rand clock payload s v a = keep_alive-Holds clock payload s v
run_command-Holds leave rand clock payload s v a = leave-Holds clock payload s v
run_command-Holds send_message rand clock payload s v a = send_message-Holds clock payload s v a
run_command-Holds start_typing rand clock payload s v a = start_typing-Holds clock payload s v
run_command-Holds stop_typing rand clock payload s v a = stop_typing-Holds clock payload s v
run_command-Holds take_a_turn rand clock payload s v a = turn-Holds clock payload s v rand
run_command-Holds move_a_tile rand clock payload s v a = move_tile-Holds clock payload s v
run_command-Holds shout_out rand clock payload s v a = shout-Holds clock payload s v
run_command-Holds choose_n_tiles rand clock payload s v a = set_n_tiles-Holds clock payload s v
run_command-Holds choose_language rand clock payload s v a = set_language-Holds clock payload s v
run_command-Holds unknown rand clock payload s v a = tt

-- Handling any message of bytes, at any time, keeps the invariant of the server and follows no
-- null pointer, or is refused, or waits for ever for a number that is not in use. The invariant
-- says that every conversation keeps its own, has room until it starts, and can be joined by the
-- name of a room only until then; that the conversations that can be found by their number are
-- not empty after their first tile; that every person is a player of its conversation; and that
-- connections refer to persons that exist.
pub process_message-Holds :
    (rand : ℕ → ℕ) (clock : ℕ) (message : List ℕ) (s : Session)
    → IsSession s
    → All (λ b. b < 256) message
    → Holds IsSession (process_message rand clock message s)
unfolding process_message
process_message-Holds rand clock [] s v a = tt
process_message-Holds rand clock (b ∷ payload) s v (h, a) =
    run_command-Holds (command_of b) rand clock payload (touch clock s) (touch-IsSession clock s v)
      a
