-- ===== src/Server/Finds.antt =====
-- The conversations that the set finds or makes can be joined.
use verda_sxtelo.Common.{
  All-map, ℕ, ◌<◌, ◌≡◌, refl, subst, arith, Option-cases, some, none-ne-some, List, [], ◌∷◌, map,
  Bool-cases, inl, inr, All, list_eq, ◌==◌, take,
}
use verda_sxtelo.Common.Count.{All-append, All-get_elem?}
use verda_sxtelo.Memory.{memchr}
use verda_sxtelo.TileData.{n_rooms, get_for_language_code}
use verda_sxtelo.Conversation
use verda_sxtelo.Conversation.{Conversation, World, awaiting_start, n_players, max_players}
use verda_sxtelo.Conversation.Keeps.{new-IsSound}
use verda_sxtelo.Conversation.Grows.{some-same}
use verda_sxtelo.Server.{Room, Server, Session}
use verda_sxtelo.Server.Rooms.{
  listed, find_conversation, get_conversation, is_used, unused_id, get_tile_data_for_room_name,
  get_tile_data_for_language_code, generate, generate_conversation, find_room,
  get_pending_conversation,
}
use verda_sxtelo.Server.Effects.{HasCompany}
use verda_sxtelo.Server.Invariant.{
  At, IsSession, IsWaiting, HasPlayer, IsGame, Holds, bind-Holds, unique,
}
use verda_sxtelo.Server.Readings.{language-bound}
use verda_sxtelo.Server.Enters.{get_elem?-append_left, get_elem?-last, CanJoin, unused_id-Holds}

-- Looking for a conversation finds one of the set, which exists.
find_conversation-At :
    (P : Conversation → Type 0) (cs : List Conversation) (id i : ℕ) (is : List ℕ)
    → All (At cs P) is
    → find_conversation cs id is ≡ some i
    → At cs P i
unfolding find_conversation
find_conversation-At P cs id i [] a e = absurd (none-ne-some i e)
find_conversation-At P cs id i (j ∷ is) ((c, f, p), a) e = elim (Bool-cases (c.id == id)) [
  | inl t ↦ subst (At cs P) (some-same (rw (find_conversation, f, t) at e)) (c, f, p)
  | inr t ↦ find_conversation-At P cs id i is a (rw (find_conversation, f, t) at e)
]

waiting-HasCompany :
    (s : Session) (j : ℕ)
    → IsSession s
    → At s.server.conversations IsWaiting j
    → At s.server.conversations HasCompany j
waiting-HasCompany s j v (c, e, w) =
    (c, e, inr ((All-get_elem? IsGame s.server.conversations j c v.games e).0.valid.unstarted w))

listed-HasCompany :
    (s : Session)
    → IsSession s
    → All (At s.server.conversations HasCompany) (listed s.server.conversation_set)
listed-HasCompany s v =
    All-append (At s.server.conversations HasCompany)
      (map (λ (r : Room). r.conversation) s.server.conversation_set.pending)
      s.server.conversation_set.others (mapped s.server.conversation_set.pending v.pending) v.others
  where
    mapped :
        (rooms : List Room)
        → All (λ (r : Room). At s.server.conversations IsWaiting r.conversation) rooms
        → All (At s.server.conversations HasCompany) (map (λ (r : Room). r.conversation) rooms)
    mapped [] a = tt
    mapped (r ∷ rooms) (h, a) = (waiting-HasCompany s r.conversation v h, mapped rooms a)

pub get_conversation-HasCompany :
    (id i : ℕ) (s : Session)
    → IsSession s
    → get_conversation id s.server ≡ some i
    → At s.server.conversations HasCompany i
unfolding get_conversation
get_conversation-HasCompany id i s v e =
    find_conversation-At HasCompany s.server.conversations id i (listed s.server.conversation_set)
      (listed-HasCompany s v) e

-- A new conversation, which is in no list yet.
abbrev pub with_server : Server → Session → Session
with_server server s = record s { server = server }

abbrev Made : Session → ℕ × Server → Type 0
Made s (i, server) =
    IsSession (with_server server s)
    × At server.conversations
        (λ c. (c.state ≡ awaiting_start) × (c.n_tiles_in_play ≡ 0) × (n_players c ≡ 0)) i

new-made :
    (id tile_data log_id : ℕ)
    → ((Conversation.new id tile_data log_id).0.state ≡ awaiting_start)
      × ((Conversation.new id tile_data log_id).0.n_tiles_in_play ≡ 0)
      × (n_players (Conversation.new id tile_data log_id).0 ≡ 0)
unfolding Conversation.new
new-made id tile_data log_id = (refl, refl, refl)

generate-Holds :
    (tile_data : ℕ) (s : Session)
    → IsSession s
    → tile_data < n_rooms
    → Holds (Made s) (generate tile_data s.server)
unfolding generate
generate-Holds tile_data s v l =
    bind-Holds (λ r. Unit {0}) (Made s)
      (unused_id (λ id. is_used (get_conversation id s.server)) s.server.ids) _
      (unused_id-Holds (λ id. is_used (get_conversation id s.server)) s.server.ids)
      (λ r u.
        let c = Conversation.new (r.0) tile_data s.server.next_log_id in
        let m = new-made (r.0) tile_data s.server.next_log_id in
        let cs = s.server.conversations in
        (
          record {
            games =
                All-append IsGame cs (c.0 ∷ []) v.games (
                  (new-IsSound (r.0) tile_data s.server.next_log_id l, λ e. omega (arith, m.2)),
                  tt,
                );
            pending =
                All-map (λ (r : Room). At cs IsWaiting r.conversation) _
                  s.server.conversation_set.pending
                  (λ r (d, e, p). (d, get_elem?-append_left cs (c.0 ∷ []) r.conversation d e, p))
                  v.pending;
            others =
                All-map (At cs HasCompany) _ s.server.conversation_set.others
                  (λ j (d, e, p). (d, get_elem?-append_left cs (c.0 ∷ []) j d e, p)) v.others;
            persons =
                All-map (HasPlayer cs) _ s.server.persons
                  (λ p (d, e, h). (d, get_elem?-append_left cs (c.0 ∷ []) p.conversation d e, h))
                  v.persons;
            people = v.people;
            own = v.own;
            clients = v.clients;
          },
          (c.0, get_elem?-last cs (c.0), m),
        ))

-- A server with a conversation that can be joined.
abbrev pub Joinable : Session → ℕ × Server → Type 0
Joinable s (i, server) = IsSession (with_server server s) × CanJoin (with_server server s) i

language_code-bound : (code : List ℕ) → get_tile_data_for_language_code code < n_rooms
unfolding get_tile_data_for_language_code
language_code-bound code = elim (Option-cases (get_for_language_code code)) [
  | inl e ↦ simp (get_tile_data_for_language_code, e) (omega arith)
  | inr (d, e) ↦ simp (get_tile_data_for_language_code, e) (language-bound code d e)
]

room_name-bound : (name : List ℕ) → get_tile_data_for_room_name name < n_rooms
unfolding get_tile_data_for_room_name
room_name-bound name = elim (Option-cases (memchr name 58)) [
  | inl m ↦ simp (get_tile_data_for_room_name, m) (omega arith)
  | inr (colon, m) ↦ elim (Option-cases (get_for_language_code (take colon name))) [
    | inl e ↦ simp (get_tile_data_for_room_name, m, e) (omega arith)
    | inr (d, e) ↦ simp (get_tile_data_for_room_name, m, e) (language-bound (take colon name) d e)
  ]
]

pub generate_conversation-Holds :
    (language_code : List ℕ) (s : Session)
    → IsSession s
    → Holds (Joinable s) (generate_conversation language_code s.server)
unfolding generate_conversation
generate_conversation-Holds language_code s v =
    bind-Holds (Made s) (Joinable s)
      (generate (get_tile_data_for_language_code language_code) s.server) _
      (generate-Holds (get_tile_data_for_language_code language_code) s v
        (language_code-bound language_code))
      (λ (i, server) (x, (c, e, (w, z, n))). (
        record {
          games = x.games;
          pending = x.pending;
          others = ((c, e, inr z), x.others);
          persons = x.persons;
          people = x.people;
          own = x.own;
          clients = x.clients;
        },
        (c, e, (omega (arith, n), inr z)),
      ))

find_room-At :
    (P : ℕ → Type 0) (name : List ℕ) (i : ℕ) (rooms : List Room)
    → All (λ (r : Room). P r.conversation) rooms
    → find_room name rooms ≡ some i
    → P i
unfolding find_room
find_room-At P name i [] a e = absurd (none-ne-some i e)
find_room-At P name i (r ∷ rooms) (h, a) e = elim (Bool-cases (list_eq r.room_name name)) [
  | inl t ↦ subst P (some-same (rw t at e)) h
  | inr t ↦ find_room-At P name i rooms a (rw t at e)
]

pub get_pending_conversation-Holds :
    (room_name : List ℕ) (s : Session)
    → IsSession s
    → Holds (Joinable s) (get_pending_conversation room_name s.server)
unfolding get_pending_conversation
get_pending_conversation-Holds room_name s v =
    elim (Option-cases (find_room room_name s.server.conversation_set.pending)) [
      | inr (i, e) ↦
          let (c, f, w) =
            find_room-At (At s.server.conversations IsWaiting) room_name i
              s.server.conversation_set.pending v.pending e in
          let (d, g, k) = waiting-HasCompany s i v (c, f, w) in
          let same : d ≡ c = unique g f in
          simp (get_pending_conversation, e)
            (
              v,
              (
                c,
                f,
                (
                  (All-get_elem? IsGame s.server.conversations i c v.games f).1 w,
                  subst HasCompany same k,
                ),
              ),
            )
      | inl e ↦
          simp (get_pending_conversation, e)
            (bind-Holds (Made s) (Joinable s)
              (generate (get_tile_data_for_room_name room_name) s.server) _
              (generate-Holds (get_tile_data_for_room_name room_name) s v
                (room_name-bound room_name))
              (λ (i, server) (x, (c, f, (w, z, n))). (
                record {
                  games = x.games;
                  pending = ((c, f, w), x.pending);
                  others = x.others;
                  persons = x.persons;
                  people = x.people;
                  own = x.own;
                  clients = x.clients;
                },
                (c, f, (omega (arith, n), inr z)),
              )))
    ]
