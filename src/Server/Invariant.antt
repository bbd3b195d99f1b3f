-- ===== src/Server/Invariant.antt =====
-- What holds of the server between commands, and that an operation on a conversation keeps it.
use verda_sxtelo.Common.{
  All-map, ℕ, ◌<◌, ◌≡◌, refl, sym, ◌∙◌, subst, arith, Option, none, some, List, [], ◌∷◌, map,
  length, get_elem?, get_elem?-set_self, get_elem?-set_ne, set, Bool-cases, inl, inr, ◌⊎◌, All,
}
use verda_sxtelo.Common.Count.{All-set, All-get_elem?, get_elem?_lt}
use native.Mathlib.Decide.{ℕ_discrete}
use verda_sxtelo.Conversation.{
  awaiting_start, Conversation, World, Signal, ChangedType, n_players, state_changed,
  n_tiles_changed, tile_data_changed, message_added, player_changed, tile_changed, shouted,
}
use verda_sxtelo.Conversation.Valid.{IsSound}
use verda_sxtelo.Person.{Person}
use verda_sxtelo.Frames.{Result, ok, refused, overrun, endless, ◌>>=◌}
use verda_sxtelo.Server.{
  Room, Client, Session, is_following, client_changed, notify_client, notify, notify_all, settle,
  signal_num,
}
use verda_sxtelo.Server.Effects.{HasRoom, HasCompany, Effect, Has, IsStart, IsEnd}
use verda_sxtelo.Server.Listeners.{Listed, set_changed-Listed}

-- An index of a conversation with a property.
abbrev pub At : List Conversation → (Conversation → Type 0) → ℕ → Type 0
At cs P j = (c : Conversation) × (get_elem? cs j ≡ some c) × P c

abbrev pub IsWaiting : Conversation → Type 0
IsWaiting c = c.state ≡ awaiting_start

abbrev pub OwnOk : ℕ → Option ℕ → Type 0
OwnOk n none = Unit {0}
OwnOk n (some k) = k < n

abbrev pub IsGame : Conversation → Type 0
IsGame c = IsSound c × HasRoom c

abbrev pub HasPlayer : List Conversation → Person → Type 0
HasPlayer cs p = At cs (λ c. p.player_num < n_players c) p.conversation

-- Every conversation keeps its invariant, and has room until it starts. The conversations that can
-- be joined by the name of a room have not started; the others that can be found are not empty.
-- Every person is a player of its conversation, and connections refer to persons that exist.
pub record IsSession (s : Session) : Type 0 where
  pub games : All IsGame s.server.conversations
  pub pending :
      All
        (λ (r : Room). At s.server.conversations IsWaiting r.conversation)
        s.server.conversation_set.pending
  pub others : All (At s.server.conversations HasCompany) s.server.conversation_set.others
  pub persons : All (HasPlayer s.server.conversations) s.server.persons
  pub people : All (λ k. k < length s.server.persons) s.server.people
  pub own : OwnOk (length s.server.persons) s.client.person
  pub clients : All (λ (c : Client). OwnOk (length s.server.persons) c.person) s.server.clients

pub unique {ℓ} : {A : Type ℓ} {a b : A} {o : Option A} → o ≡ some a → o ≡ some b → a ≡ b
unique h k = cc

-- Where a conversation was replaced, an index keeps its properties that the new one takes over.
pub At-set :
    (P Q : Conversation → Type 0) (cs : List Conversation) (i j : ℕ) (c d : Conversation)
    → get_elem? cs i ≡ some c
    → (P c → Q d)
    → ((e : Conversation) → P e → Q e)
    → At cs P j
    → At (set cs i d) Q j
At-set P Q cs i j c d e here there (x, f, p) = elim (ℕ_discrete i j) [
  | yes q ↦
      let same : x ≡ c = unique (rw (sym q) at f) e in
      (d, rw (sym q) (get_elem?-set_self cs i d (get_elem?_lt cs i c e)), here (subst P same p))
  | no n ↦ (x, get_elem?-set_ne cs d n ∙ f, there x p)
]

client_changed-person :
    (kind : ChangedType) (num : ℕ) (c : Client) → (client_changed kind num c).person ≡ c.person
unfolding client_changed
client_changed-person state_changed num c = refl
client_changed-person n_tiles_changed num c = refl
client_changed-person tile_data_changed num c = refl
client_changed-person message_added num c = refl
client_changed-person player_changed num c = refl
client_changed-person tile_changed num c = refl
client_changed-person shouted num c = refl

notify_client-person :
    (persons : List Person) (i : ℕ) (s : Signal) (c : Client)
    → (notify_client persons i s c).person ≡ c.person
unfolding notify_client
notify_client-person persons i s c = elim (Bool-cases (is_following persons i c)) [
  | inl t ↦ simp (notify_client, t) (client_changed-person s.kind (signal_num s) c)
  | inr t ↦ simp (notify_client, t) refl
]

clients_kept :
    (n : ℕ) (persons : List Person) (i : ℕ) (s : Signal) (clients : List Client)
    → All (λ (c : Client). OwnOk n c.person) clients
    → All (λ (c : Client). OwnOk n c.person) (map (notify_client persons i s) clients)
clients_kept n persons i s [] a = tt
clients_kept n persons i s (c ∷ clients) (h, a) = (
  subst (OwnOk n) (sym (notify_client-person persons i s c)) h,
  clients_kept n persons i s clients a,
)

-- What hearing signals leaves alone.
pub record Hears (s t : Session) : Type 0 where
  pub conversations : t.server.conversations ≡ s.server.conversations
  pub persons : t.server.persons ≡ s.server.persons
  pub people : t.server.people ≡ s.server.people
  pub ids : t.server.ids ≡ s.server.ids
  pub person : t.client.person ≡ s.client.person
  pub clients :
      (n : ℕ)
      → All (λ (c : Client). OwnOk n c.person) s.server.clients
      → All (λ (c : Client). OwnOk n c.person) t.server.clients

notify_all-Hears : (i : ℕ) (signals : List Signal) (s : Session) → Hears s (notify_all i signals s)
unfolding notify_all notify
notify_all-Hears i [] s = record {
  conversations = refl;
  persons = refl;
  people = refl;
  ids = refl;
  person = refl;
  clients = λ n a. a;
}
notify_all-Hears i (x ∷ signals) s =
    let h = notify_all-Hears i signals (notify i x s) in
    record {
      conversations = h.conversations;
      persons = h.persons;
      people = h.people;
      ids = h.ids;
      person = h.person ∙ notify_client-person s.server.persons i x s.client;
      clients = λ n a. h.clients n (clients_kept n s.server.persons i x s.server.clients a);
    }

notify_all-Listed :
    (i : ℕ) (A B : ℕ → Type 0) (signals : List Signal) (s : Session)
    → Listed i A B signals signals s.server.conversation_set
    → Listed i A B [] [] (notify_all i signals s).server.conversation_set
unfolding notify_all notify
notify_all-Listed i A B [] s l = l
notify_all-Listed i A B (x ∷ signals) s l =
    notify_all-Listed i A B signals (notify i x s)
      (set_changed-Listed i A B x signals s.server.conversation_set l)

abbrev stored : ℕ → Conversation → Session → Session
stored i d s = record s {
  server = record (s.server) { conversations = set s.server.conversations i d };
}

now : {X Y : Type 0} → X ⊎ Y × ⊥ → X
now (inl a) = a
now (inr (q, h)) = absurd h

module _ (i : ℕ) (c : Conversation) (w : World) (s : Session)
    (e : get_elem? s.server.conversations i ≡ some c) (f : Effect c w) (v : IsSession s) where
  abbrev cs : List Conversation
  cs = s.server.conversations

  abbrev after : List Conversation
  after = set s.server.conversations i w.conversation

  company_of : (j : ℕ) → At cs HasCompany j → At after HasCompany j ⊎ (j ≡ i) × Has IsEnd w.signals
  company_of j (x, g, p) = elim (ℕ_discrete i j) [
    | no n ↦ inl (x, get_elem?-set_ne cs w.conversation n ∙ g, p)
    | yes q ↦
        let same : x ≡ c = unique (rw (sym q) at g) e in
        elim (f.company (subst HasCompany same p)) [
          | inl k ↦ inl (
            w.conversation,
            rw (sym q) (get_elem?-set_self cs i w.conversation (get_elem?_lt cs i c e)),
            k,
          )
          | inr k ↦ inr (sym q, k)
        ]
  ]

  waiting_of : (j : ℕ) → At cs IsWaiting j → At after IsWaiting j ⊎ (j ≡ i) × Has IsStart w.signals
  waiting_of j (x, g, p) = elim (ℕ_discrete i j) [
    | no n ↦ inl (x, get_elem?-set_ne cs w.conversation n ∙ g, p)
    | yes q ↦
        let same : x ≡ c = unique (rw (sym q) at g) e in
        elim f.announced [
          | inr k ↦ inr (sym q, k)
          | inl k ↦ inl (
            w.conversation,
            rw (sym q) (get_elem?-set_self cs i w.conversation (get_elem?_lt cs i c e)),
            k ∙ subst IsWaiting same p,
          )
        ]
  ]

  -- A conversation that has not started has no tile on the board.
  company_waiting : (j : ℕ) → At cs IsWaiting j → At cs HasCompany j
  company_waiting j (x, g, p) =
      (x, g, inr ((All-get_elem? IsGame cs j x v.games g).0.valid.unstarted p))

  listed :
      Listed i
        (At after IsWaiting)
        (At after HasCompany)
        w.signals
        w.signals
        s.server.conversation_set
  listed = record {
    pending =
        All-map (λ (r : Room). At cs IsWaiting r.conversation) _ s.server.conversation_set.pending
          (λ r a. (
            waiting_of r.conversation a,
            company_of r.conversation (company_waiting r.conversation a),
          ))
          v.pending;
    others = All-map (At cs HasCompany) _ s.server.conversation_set.others company_of v.others;
  }

  settled_games : All IsGame after
  settled_games =
      All-set IsGame cs i w.conversation v.games
        (f.sound, f.room (All-get_elem? IsGame cs i c v.games e).1)

  settled_persons : All (HasPlayer after) s.server.persons
  settled_persons =
      All-map (HasPlayer cs) (HasPlayer after) s.server.persons
        (λ p a.
          At-set (λ d. p.player_num < n_players d) (λ d. p.player_num < n_players d) cs i
            p.conversation c w.conversation e (λ h. omega (arith, f.more)) (λ d h. h) a)
        v.persons

  -- An operation on a conversation keeps the invariant of the server.
  pub settle-IsSession : IsSession (settle i w s)
  unfolding settle
  settle-IsSession =
      let h = notify_all-Hears i w.signals (stored i w.conversation s) in
      let l =
        notify_all-Listed i (At after IsWaiting) (At after HasCompany) w.signals
          (stored i w.conversation s) listed in
      let t = notify_all i w.signals (stored i w.conversation s) in
      record {
        games = subst (All IsGame) (sym h.conversations) settled_games;
        pending =
            subst
              (λ x.
                All (λ (r : Room). At x IsWaiting r.conversation) t.server.conversation_set.pending)
              (sym h.conversations)
              (All-map _ (λ (r : Room). At after IsWaiting r.conversation)
                t.server.conversation_set.pending (λ r (a, b). now a) l.pending);
        others =
            subst (λ x. All (At x HasCompany) t.server.conversation_set.others)
              (sym h.conversations)
              (All-map _ (At after HasCompany) t.server.conversation_set.others (λ j a. now a)
                l.others);
        persons =
            subst (λ x. All (HasPlayer x) t.server.persons) (sym h.conversations)
              (subst (All (HasPlayer after)) (sym h.persons) settled_persons);
        people =
            subst (λ (x : List Person). All (λ k. k < length x) t.server.people) (sym h.persons)
              (subst (All (λ k. k < length s.server.persons)) (sym h.people) v.people);
        own =
            subst (λ (x : List Person). OwnOk (length x) t.client.person) (sym h.persons)
              (subst (OwnOk (length s.server.persons)) (sym h.person) v.own);
        clients =
            subst
              (λ (x : List Person).
                All (λ (c : Client). OwnOk (length x) c.person) t.server.clients)
              (sym h.persons) (h.clients (length s.server.persons) v.clients);
      }

  pub settle-Hears : Hears (stored i w.conversation s) (settle i w s)
  unfolding settle
  settle-Hears = notify_all-Hears i w.signals (stored i w.conversation s)

-- What a result must satisfy where there is one; there is no access through a null pointer.
abbrev pub Holds {ℓ} : {A : Type ℓ} → (A → Type 0) → Result A → Type 0
Holds P (ok a) = P a
Holds P refused = Unit {0}
Holds P overrun = ⊥
Holds P endless = Unit {0}

pub bind-Holds {ℓ κ} :
    {A : Type ℓ} {B : Type κ} (P : A → Type 0) (Q : B → Type 0) (r : Result A) (f : A → Result B)
    → Holds P r
    → ((a : A) → P a → Holds Q (f a))
    → Holds Q (r >>= f)
bind-Holds P Q (ok a) f h k = k a h
bind-Holds P Q refused f h k = tt
bind-Holds P Q overrun f h k = h
bind-Holds P Q endless f h k = tt

abbrev pub IsPlaying : Session → Type 0
IsPlaying s = IsSession s × ((k : ℕ) × (s.client.person ≡ some k))
