-- ===== src/Server/Enters.antt =====
-- The commands that give a connection its person keep the invariant of the server, and follow no
-- null pointer.
use verda_sxtelo.Common.{
  All-map, ℕ, zero, suc, ◌+◌, ◌<◌, ◌≡◌, refl, ◌∙◌, ap, arith, Bool, Option, none, some,
  none-ne-some, List, [], ◌∷◌, ◌++◌, length, length-append, get_elem?, get_elem?-set_self,
  Bool-cases, inl, inr,
}
use verda_sxtelo.Common.Count.{All-append, All-get_elem?, get_elem?_lt}
use verda_sxtelo.Conversation.{n_players, max_players}
use verda_sxtelo.Person.{Person}
use verda_sxtelo.Server.{Client, Session, settle}
use verda_sxtelo.Server.Rooms.{is_used, unused_id}
use verda_sxtelo.Server.People.{get_person, with_persons, new_person, generate_person}
use verda_sxtelo.Server.Own.{start_following_person}
use verda_sxtelo.Server.Entering.{become_player}
use verda_sxtelo.Server.Effects.{HasCompany}
use verda_sxtelo.Server.Invariant.{
  At, IsSession, IsPlaying, HasPlayer, OwnOk, IsGame, Holds, bind-Holds, settle-IsSession,
  settle-Hears,
}
use verda_sxtelo.Server.Joining.{add_player-Affects}
use verda_sxtelo.Server.Plays.{own_lem}

pub get_elem?-append_left {ℓ} :
    {A : Type ℓ} (xs ys : List A) (i : ℕ) (a : A)
    → get_elem? xs i ≡ some a
    → get_elem? (xs ++ ys) i ≡ some a
get_elem?-append_left [] ys i a e = absurd (none-ne-some a e)
get_elem?-append_left (x ∷ xs) ys zero a e = e
get_elem?-append_left (x ∷ xs) ys (suc i) a e = get_elem?-append_left xs ys i a e

pub get_elem?-last {ℓ} :
    {A : Type ℓ} (xs : List A) (a : A) → get_elem? (xs ++ (a ∷ [])) (length xs) ≡ some a
get_elem?-last [] a = refl
get_elem?-last (x ∷ xs) a = get_elem?-last xs a

-- A conversation that a player can be put into.
abbrev pub CanJoin : Session → ℕ → Type 0
CanJoin s i = At s.server.conversations (λ c. (n_players c < max_players) × HasCompany c) i

-- A new person.
module _ (s : Session) (v : IsSession s) (p : Person) (h : HasPlayer s.server.conversations p) where
  abbrev grown : Session
  grown = with_persons (s.server.persons ++ (p ∷ [])) s

  longer : length (s.server.persons ++ (p ∷ [])) ≡ length s.server.persons + 1
  longer = length-append s.server.persons (p ∷ [])

  owned :
      (o : Option ℕ)
      → OwnOk (length s.server.persons) o
      → OwnOk (length (s.server.persons ++ (p ∷ []))) o
  owned none l = tt
  owned (some k) l = omega (arith, longer)

  person-IsSession : IsSession grown
  person-IsSession = record {
    games = v.games;
    pending = v.pending;
    others = v.others;
    persons =
        All-append (HasPlayer s.server.conversations) s.server.persons (p ∷ []) v.persons (h, tt);
    people =
        All-map (λ k. k < length s.server.persons) _ s.server.people (λ k l. omega (arith, longer))
          v.people;
    own = owned s.client.person v.own;
    clients =
        All-map (λ (c : Client). OwnOk (length s.server.persons) c.person) _ s.server.clients
          (λ c l. owned c.person l) v.clients;
  }

-- What putting a person into the server leaves.
abbrev pub Enrolled : ℕ × Session → Type 0
Enrolled (k, s) = IsSession s × (k < length s.server.persons)

new_person-Holds :
    (clock id : ℕ) (name : List ℕ) (i : ℕ) (s : Session)
    → IsSession s
    → CanJoin s i
    → Holds Enrolled (new_person clock id name i s)
unfolding new_person
new_person-Holds clock id name i s v (c, e, (room, company)) =
    let (w, q, f, n) =
      add_player-Affects name c room company
        ((All-get_elem? IsGame s.server.conversations i c v.games e).0) in
    let t = settle i w s in
    let h = settle-Hears i c w s e f v in
    let there : get_elem? t.server.conversations i ≡ some w.conversation =
      ap (λ x. get_elem? x i) h.conversations
      ∙ get_elem?-set_self s.server.conversations i w.conversation
          (get_elem?_lt s.server.conversations i c e) in
    let p : Person = record {
      id = id;
      conversation = i;
      player_num = n_players c;
      last_noise_time = clock;
      message_offset = length c.messages;
    } in
    simp (new_person, e, q)
      (
        person-IsSession t (settle-IsSession i c w s e f v) p
            (w.conversation, there, omega (arith, n)),
        omega (arith, length-append t.server.persons (p ∷ [])),
      )

pub unused_id-Holds : (used : ℕ → Bool) (ids : List ℕ) → Holds (λ r. Unit {0}) (unused_id used ids)
unfolding unused_id
unused_id-Holds used [] = tt
unused_id-Holds used (id ∷ ids) = elim (Bool-cases (used id)) [
  | inl t ↦ rw t (unused_id-Holds used ids)
  | inr t ↦ rw t tt
]

-- The numbers that are left do not matter.
abbrev with_ids : List ℕ → Session → Session
with_ids ids s = record s { server = record (s.server) { ids = ids } }

ids-IsSession : (ids : List ℕ) (s : Session) → IsSession s → IsSession (with_ids ids s)
ids-IsSession ids s v = record {
  games = v.games;
  pending = v.pending;
  others = v.others;
  persons = v.persons;
  people = v.people;
  own = v.own;
  clients = v.clients;
}

generate_person-Holds :
    (clock : ℕ) (name : List ℕ) (i : ℕ) (s : Session)
    → IsSession s
    → CanJoin s i
    → Holds Enrolled (generate_person clock name i s)
unfolding generate_person
generate_person-Holds clock name i s v j =
    bind-Holds (λ r. Unit {0}) Enrolled
      (unused_id (λ id. is_used (get_person id s.server)) s.server.ids) _
      (unused_id-Holds (λ id. is_used (get_person id s.server)) s.server.ids)
      (λ r u.
        bind-Holds Enrolled Enrolled (new_person clock (r.0) name i (with_ids (r.1) s)) _
          (new_person-Holds clock (r.0) name i (with_ids (r.1) s) (ids-IsSession (r.1) s v) j)
          (λ (k, t) (x, l). (
            record {
              games = x.games;
              pending = x.pending;
              others = x.others;
              persons = x.persons;
              people = (l, x.people);
              own = x.own;
              clients = x.clients;
            },
            l,
          )))

pub become_player-Holds :
    (clock : ℕ) (name : List ℕ) (i : ℕ) (s : Session)
    → IsSession s
    → CanJoin s i
    → Holds IsPlaying (become_player clock name i s)
unfolding become_player
become_player-Holds clock name i s v j =
    bind-Holds Enrolled IsPlaying (generate_person clock name i s) _
      (generate_person-Holds clock name i s v j)
      (λ (k, t) (x, l). (
        record {
          games = x.games;
          pending = x.pending;
          others = x.others;
          persons = x.persons;
          people = x.people;
          own = l;
          clients = x.clients;
        },
        (k, refl),
      ))

pub start_following-Holds : (s : Session) → IsPlaying s → Holds IsSession (start_following_person s)
unfolding start_following_person
start_following-Holds s p =
    let o = own_lem s p in
    let v = p.0 in
    rw o.is_conversation (record {
      games = v.games;
      pending = v.pending;
      others = v.others;
      persons = v.persons;
      people = v.people;
      own = v.own;
      clients = v.clients;
    })
