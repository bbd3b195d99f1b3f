-- ===== src/Server/Plays.antt =====
-- The commands of a connection that has a person keep the invariant of the server, and follow no
-- null pointer.
use verda_sxtelo.Common.{
  ℕ, ◌<◌, ◌≡◌, refl, sym, ◌∙◌, ap, subst, Option, none, some, length, length-set, get_elem?, set,
  All,
}
use verda_sxtelo.Common.Count.{All-set, All-get_elem?, get_elem?-some}
use verda_sxtelo.Conversation.{Conversation, World, n_players}
use verda_sxtelo.Conversation.Valid.{IsSound}
use verda_sxtelo.Person.{Person, make_noise}
use verda_sxtelo.Frames.{Result, ok, refused, overrun, endless, ◌>>=◌}
use verda_sxtelo.Server.{Client, Session, at_conversation, present, required}
use verda_sxtelo.Server.People.{make_noise_at, with_persons}
use verda_sxtelo.Server.Own.{own_person, own_conversation}
use verda_sxtelo.Server.Playing.{activate_person, as_player}
use verda_sxtelo.Server.Effects.{Affects, calm}
use verda_sxtelo.Server.Invariant.{
  IsSession, IsPlaying, HasPlayer, OwnOk, IsGame, Holds, settle-IsSession, settle-Hears,
}

-- A person that changes neither its conversation nor its player.
pub make_noise-IsSession :
    (clock k : ℕ) (p : Person) (s : Session)
    → get_elem? s.server.persons k ≡ some p
    → IsSession s
    → IsSession (with_persons (set s.server.persons k (make_noise clock p)) s)
unfolding make_noise
make_noise-IsSession clock k p s e v =
    let q = make_noise clock p in
    let l = length-set s.server.persons k q in
    record {
      games = v.games;
      pending = v.pending;
      others = v.others;
      persons =
          All-set (HasPlayer s.server.conversations) s.server.persons k q v.persons
            (All-get_elem? (HasPlayer s.server.conversations) s.server.persons k p v.persons e);
      people = subst (λ n. All (λ j. j < n) s.server.people) (sym l) v.people;
      own = subst (λ n. OwnOk n s.client.person) (sym l) v.own;
      clients =
          subst (λ n. All (λ (c : Client). OwnOk n c.person) s.server.clients) (sym l) v.clients;
    }

-- What a command does to the session, and that the person is the one that it had.
abbrev pub Stays : Session → Session → Type 0
Stays s t = IsSession t × (t.client.person ≡ s.client.person)

pub make_noise_at-Holds :
    (clock k : ℕ) (s : Session)
    → IsSession s
    → k < length s.server.persons
    → Holds (Stays s) (make_noise_at clock k s)
unfolding make_noise_at
make_noise_at-Holds clock k s v l =
    let (p, e) = get_elem?-some s.server.persons k l in
    simp (make_noise_at, e) (make_noise-IsSession clock k p s e v, refl)

pub activate_person-Holds :
    (clock : ℕ) (s : Session) → IsSession s → Holds IsPlaying (activate_person clock s)
unfolding activate_person
activate_person-Holds clock s v = with_own s.client.person refl
  where
    with_own :
        (o : Option ℕ)
        → s.client.person ≡ o
        → Holds IsPlaying (required o >>= λ k. make_noise_at clock k s)
    with_own none e = tt
    with_own (some k) e =
        weaken (make_noise_at clock k s) k e
          (make_noise_at-Holds clock k s v (subst (OwnOk (length s.server.persons)) e v.own))
      where
        weaken :
            (r : Result Session) (k : ℕ)
            → s.client.person ≡ some k
            → Holds (Stays s) r
            → Holds IsPlaying r
        weaken (ok t) k e (v, q) = (v, (k, q ∙ e))
        weaken refused k e h = tt
        weaken overrun k e h = h
        weaken endless k e h = tt

-- The person of a connection that has one, with its conversation.
pub record Own (s : Session) : Type 0 where
  pub person : Person
  pub conversation : Conversation
  pub is_person : own_person s ≡ ok person
  pub is_there : get_elem? s.server.conversations person.conversation ≡ some conversation
  pub is_conversation : own_conversation s ≡ ok conversation
  pub is_player : person.player_num < n_players conversation

pub own_lem : (s : Session) → IsPlaying s → Own s
unfolding own_person own_conversation
own_lem s (v, (k, e)) =
    let (p, f) =
      get_elem?-some s.server.persons k (subst (OwnOk (length s.server.persons)) e v.own) in
    let (c, g, h) =
      All-get_elem? (HasPlayer s.server.conversations) s.server.persons k p v.persons f in
    record {
      person = p;
      conversation = c;
      is_person = person_lem p f;
      is_there = g;
      is_conversation =
          ap (λ r. r >>= λ q. present (get_elem? s.server.conversations q.conversation))
            (person_lem p f)
          ∙ ap present g;
      is_player = h;
    }
  where
    person_lem : (p : Person) → get_elem? s.server.persons k ≡ some p → own_person s ≡ ok p
    person_lem p f =
        ap (λ o. present o >>= λ k. present (get_elem? s.server.persons k)) e ∙ ap present f

pub at_conversation-Holds :
    (i : ℕ) (f : World → Option World) (c : Conversation) (s : Session)
    → get_elem? s.server.conversations i ≡ some c
    → Affects c (f (calm c))
    → IsSession s
    → Holds (Stays s) (at_conversation i f s)
unfolding at_conversation
at_conversation-Holds i f c s e (w, q, a) v =
    simp (at_conversation, e, q)
      (settle-IsSession i c w s e a v, (settle-Hears i c w s e a v).person)

-- Of the conversation of the connection's person.
pub as_player-Holds :
    (f : ℕ → World → Option World) (s : Session)
    → ((i : ℕ) (c : Conversation)
        → own_conversation s ≡ ok c
        → i < n_players c
        → IsSound c
        → Affects c (f i (calm c)))
    → IsPlaying s
    → Holds IsPlaying (as_player f s)
unfolding as_player
as_player-Holds f s k (v, (n, e)) =
    let o = own_lem s (v, (n, e)) in
    let sound =
      (All-get_elem? IsGame s.server.conversations _ o.conversation v.games o.is_there).0 in
    let h =
      at_conversation-Holds o.person.conversation (f o.person.player_num) o.conversation s
        o.is_there (k o.person.player_num o.conversation o.is_conversation o.is_player sound) v in
    subst (Holds IsPlaying)
      (ap (λ r. r >>= λ p. at_conversation p.conversation (f p.player_num) s) (sym o.is_person))
      (weaken (at_conversation o.person.conversation (f o.person.player_num) s) h)
  where
    weaken : (r : Result Session) → Holds (Stays s) r → Holds IsPlaying r
    weaken (ok t) (v, q) = (v, (n, q ∙ e))
    weaken refused h = tt
    weaken overrun h = h
    weaken endless h = tt

pub forget : (r : Result Session) → Holds IsPlaying r → Holds IsSession r
forget (ok t) (v, p) = v
forget refused h = tt
forget overrun h = h
forget endless h = tt
