-- ===== src/Server/Rooms.antt =====
-- server/vsx-conversation-set.c: the conversations that can be found by their number or by the
-- name of a room.
use verda_sxtelo.Common.{
  ℕ, Bool, true, false, Option, none, some, List, [], ◌∷◌, ◌++◌, map, length, take, get_elem?,
  list_eq, ◌==◌, if◌then◌else◌,
}
use verda_sxtelo.Memory.{memchr}
use verda_sxtelo.TileData.{get_for_language_code}
use verda_sxtelo.Conversation
use verda_sxtelo.Conversation.{Conversation}
use verda_sxtelo.Frames.{Result, ok, endless, ◌>>=◌}
use verda_sxtelo.Server.{Room, ConversationSet, Server}

-- The conversations that the set listens to.
abbrev pub listed : ConversationSet → List ℕ
listed cs = map (λ (r : Room). r.conversation) cs.pending ++ cs.others

-- `vsx_hash_table_get` among the conversations of the set.
unfoldable pub find_conversation : List Conversation → ℕ → List ℕ → Option ℕ
find_conversation conversations id [] = none
find_conversation conversations id (i ∷ is) =
    let rest = find_conversation conversations id is in
    elim (get_elem? conversations i) [ none ↦ rest | some c ↦ if c.id == id then some i else rest ]

unfoldable pub get_conversation : ℕ → Server → Option ℕ
unfolding find_conversation
get_conversation id server =
    find_conversation server.conversations id (listed server.conversation_set)

abbrev pub is_used {ℓ} : {A : Type ℓ} → Option A → Bool
is_used none = false
is_used (some a) = true

-- The loop that generates numbers until one is not used, with the numbers that are left.
unfoldable pub unused_id : (ℕ → Bool) → List ℕ → Result (ℕ × List ℕ)
unused_id used [] = endless
unused_id used (id ∷ ids) =
    let again = unused_id used ids in if used id then again else ok (id, ids)

unfoldable pub get_tile_data_for_room_name : List ℕ → ℕ
unfolding memchr get_for_language_code
get_tile_data_for_room_name room_name = elim (memchr room_name 58) [
  | none ↦ 0
  | some colon ↦ elim (get_for_language_code (take colon room_name)) [ none ↦ 0 | some d ↦ d ]
]

unfoldable pub get_tile_data_for_language_code : List ℕ → ℕ
unfolding get_for_language_code
get_tile_data_for_language_code language_code = elim (get_for_language_code language_code) [
  | none ↦ 0
  | some d ↦ d
]

-- The result is the index of the new conversation, which is in neither list yet.
unfoldable pub generate : ℕ → Server → Result (ℕ × Server)
unfolding unused_id get_conversation Conversation.new
generate tile_data server = do
  r ← unused_id (λ id. is_used (get_conversation id server)) server.ids
  let new = Conversation.new r.0 tile_data server.next_log_id
  ok (
    length server.conversations,
    record server {
      conversations = server.conversations ++ (new.0 ∷ []);
      next_log_id = new.1;
      ids = r.1;
    },
  )

unfoldable pub generate_conversation : List ℕ → Server → Result (ℕ × Server)
unfolding generate get_tile_data_for_language_code
generate_conversation language_code server = do
  r ← generate (get_tile_data_for_language_code language_code) server
  ok (
    r.0,
    record (r.1) {
      conversation_set = record (r.1.conversation_set) {
        others = r.0 ∷ r.1.conversation_set.others;
      };
    },
  )

unfoldable pub find_room : List ℕ → List Room → Option ℕ
unfolding list_eq
find_room room_name [] = none
find_room room_name (r ∷ rooms) =
    if list_eq r.room_name room_name then some r.conversation else find_room room_name rooms

unfoldable pub get_pending_conversation : List ℕ → Server → Result (ℕ × Server)
unfolding find_room generate get_tile_data_for_room_name
get_pending_conversation room_name server =
    elim (find_room room_name server.conversation_set.pending) [
      | some i ↦ ok (i, server)
      | none ↦ do
        r ← generate (get_tile_data_for_room_name room_name) server
        ok (
          r.0,
          record (r.1) {
            conversation_set = record (r.1.conversation_set) {
              pending =
                  record { room_name = room_name; conversation = r.0 }
                  ∷ r.1.conversation_set.pending;
            };
          },
        )
    ]
