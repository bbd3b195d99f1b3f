-- ===== src/Server.antt =====
-- The server behind the connections: the state that server/vsx-conversation-set.c,
-- vsx-person-set.c and the commands of vsx-connection.c share, and the signals of a conversation.
-- A conversation, or a person, is its index in the list of all that were ever created, which
-- stands for the pointer; none is ever freed. A session is one connection that is being served,
-- with the rest of the server. `Frames.overrun` stands for a null pointer, a failed assertion and
-- a loop of the conversation that does not end, too.
pub mod Rooms
pub mod People
pub mod Arguments
pub mod Own
pub mod Entering
pub mod Playing
pub mod Commands
pub mod Pending
pub mod Writers
pub mod Output
pub mod Followed
pub mod Fits
pub mod Space
pub mod Refusing
pub mod Told
pub mod Drained
pub mod Effects
pub mod Leaving
pub mod Joining
pub mod Turning
pub mod Listeners
pub mod Invariant
pub mod Plays
pub mod Readings
pub mod Acts
pub mod Enters
pub mod Finds
pub mod Serves
use verda_sxtelo.Common.{
  ℕ, zero, suc, ◌+◌, Bool, true, false, not, ◌&&◌, ◌||◌, Option, none, some, List, [], ◌∷◌, ◌++◌,
  get_elem?, set, ◌==◌, if◌then◌else◌, map, length,
}
use verda_sxtelo.Player.{Player, is_connected}
use verda_sxtelo.TileData
use verda_sxtelo.Conversation.{
  Conversation, World, Signal, ChangedType, state_changed, n_tiles_changed, tile_data_changed,
  message_added, player_changed, tile_changed, shouted, max_players,
}
use verda_sxtelo.Conversation.Options.{has_started}
use verda_sxtelo.Bitmask.{empty, set_bit}
use verda_sxtelo.Person.{Person}
use verda_sxtelo.Frames.{Result, ok, refused, overrun, endless, ◌>>=◌}

-- A listener of the set of conversations that has a room name.
pub record Room : Type 0 where
  pub room_name : List ℕ
  pub conversation : ℕ

-- `_VsxConversationSet`: `pending_listeners` and `other_listeners`. The hash table holds the
-- conversations of both lists.
pub record ConversationSet : Type 0 where
  pub pending : List Room
  pub others : List ℕ

-- `VsxConnectionDirtyFlag`, but for the two flags that the frames set.
pub record DirtyFlags : Type 0 where
  pub player_id_dirty : Bool
  pub conversation_id_dirty : Bool
  pub n_tiles_dirty : Bool
  pub language_dirty : Bool
  pub shout_dirty : Bool
  pub sync_dirty : Bool
  pub error_dirty : Bool

-- The fields of `_VsxConnection` that the commands change. A connection that has a person also
-- listens to the conversation of that person.
pub record Client : Type 0 where
  pub last_message_time : ℕ
  pub person : Option ℕ
  pub message_num : ℕ
  pub named_players : ℕ
  pub dirty_flags : DirtyFlags
  pub dirty_players : List Bool
  pub dirty_tiles : List Bool
  pub pending_shout : ℕ
  pub pending_error : ℕ

-- `clients` are the other connections, `people` the list of `_VsxPersonSet`, `next_log_id` the
-- counter of vsx-conversation.c, and `ids` what `vsx_generate_id` will return.
pub record Server : Type 0 where
  pub conversations : List Conversation
  pub next_log_id : ℕ
  pub conversation_set : ConversationSet
  pub persons : List Person
  pub people : List ℕ
  pub clients : List Client
  pub ids : List ℕ

pub record Session : Type 0 where
  pub client : Client
  pub server : Server

unfoldable pub no_flags : DirtyFlags
no_flags = record {
  player_id_dirty = false;
  conversation_id_dirty = false;
  n_tiles_dirty = false;
  language_dirty = false;
  shout_dirty = false;
  sync_dirty = false;
  error_dirty = false;
}

-- `vsx_connection_new`, for the fields above.
unfoldable pub new_client : ℕ → Client
unfolding no_flags empty
new_client clock = record {
  last_message_time = clock;
  person = none;
  message_num = 0;
  named_players = 0;
  dirty_flags = no_flags;
  dirty_players = empty max_players;
  dirty_tiles = empty TileData.n_tiles;
  pending_shout = 0;
  pending_error = 0;
}

-- A pointer that is followed.
abbrev pub present {ℓ} : {A : Type ℓ} → Option A → Result A
present none = overrun
present (some a) = ok a

-- What is a protocol error where it is missing.
abbrev pub required {ℓ} : {A : Type ℓ} → Option A → Result A
required none = refused
required (some a) = ok a

unfoldable pub conversation_is_empty : List Player → Bool
conversation_is_empty [] = true
conversation_is_empty (p ∷ players) = not (is_connected p) && conversation_is_empty players

unfoldable pub is_room_of : ℕ → List Room → Bool
is_room_of i [] = false
is_room_of i (r ∷ rooms) = (r.conversation == i) || is_room_of i rooms

-- `vsx_list_remove` of the listener of a conversation.
unfoldable pub remove_room : ℕ → List Room → List Room
remove_room i [] = []
remove_room i (r ∷ rooms) =
    let rest = remove_room i rooms in if r.conversation == i then rest else r ∷ rest

unfoldable pub remove_number : ℕ → List ℕ → List ℕ
remove_number i [] = []
remove_number i (n ∷ ns) = let rest = remove_number i ns in if n == i then rest else n ∷ rest

unfoldable pub is_player_changed : ChangedType → Bool
is_player_changed player_changed = true
is_player_changed state_changed = false
is_player_changed n_tiles_changed = false
is_player_changed tile_data_changed = false
is_player_changed message_added = false
is_player_changed tile_changed = false
is_player_changed shouted = false

-- The first part of the callback of the set: a conversation that has started is not pending.
unfoldable pub close_room : ℕ → Signal → ConversationSet → ConversationSet
unfolding is_room_of remove_room has_started
close_room i signal cs =
    if is_room_of i cs.pending && has_started signal.seen.state
    then record { pending = remove_room i cs.pending; others = i ∷ cs.others }
    else cs

-- The second part: a conversation that everybody has left is dropped.
unfoldable pub drop_empty : ℕ → Signal → ConversationSet → ConversationSet
unfolding is_player_changed conversation_is_empty remove_room remove_number
drop_empty i signal cs =
    if is_player_changed signal.kind && conversation_is_empty signal.seen.players
    then record { pending = remove_room i cs.pending; others = remove_number i cs.others }
    else cs

unfoldable pub set_changed : ℕ → Signal → ConversationSet → ConversationSet
unfolding close_room drop_empty
set_changed i signal cs = drop_empty i signal (close_room i signal cs)

-- `data->num`, which the signals that do not set it leave unused.
abbrev pub signal_num : Signal → ℕ
signal_num signal = elim signal.num [ none ↦ 0 | some n ↦ n ]

-- `conversation_changed_cb` of vsx-connection.c, for the kind and the number of the signal.
unfoldable pub client_changed : ChangedType → ℕ → Client → Client
unfolding set_bit
client_changed n_tiles_changed num c = record c {
  dirty_flags = record (c.dirty_flags) { n_tiles_dirty = true };
}
client_changed tile_data_changed num c = record c {
  dirty_flags = record (c.dirty_flags) { language_dirty = true };
}
client_changed player_changed num c = record c { dirty_players = set_bit c.dirty_players num true }
client_changed tile_changed num c = record c { dirty_tiles = set_bit c.dirty_tiles num true }
client_changed state_changed num c = c
client_changed message_added num c = c
client_changed shouted num c = record c {
  pending_shout = num;
  dirty_flags = record (c.dirty_flags) { shout_dirty = true };
}

-- Whether the connection listens to a conversation.
unfoldable pub is_following : List Person → ℕ → Client → Bool
is_following persons i c = elim c.person [
  | none ↦ false
  | some k ↦ elim (get_elem? persons k) [ none ↦ false | some p ↦ p.conversation == i ]
]

unfoldable pub notify_client : List Person → ℕ → Signal → Client → Client
unfolding is_following client_changed
notify_client persons i signal c =
    if is_following persons i c then client_changed signal.kind (signal_num signal) c else c

-- `vsx_signal_emit` of the changed signal of a conversation. No listener reads what another one
-- changes.
unfoldable pub notify : ℕ → Signal → Session → Session
unfolding notify_client set_changed
notify i signal s = record {
  client = notify_client s.server.persons i signal s.client;
  server = record (s.server) {
    conversation_set = set_changed i signal s.server.conversation_set;
    clients = map (notify_client s.server.persons i signal) s.server.clients;
  };
}

-- The signals of one operation, in the order in which it emitted them.
unfoldable pub notify_all : ℕ → List Signal → Session → Session
unfolding notify
notify_all i [] s = s
notify_all i (signal ∷ signals) s = notify_all i signals (notify i signal s)

-- What an operation left of the conversation is stored, and its signals are heard.
unfoldable pub settle : ℕ → World → Session → Session
unfolding notify_all
settle i w s = notify_all i w.signals (record s {
  server = record (s.server) { conversations = set s.server.conversations i w.conversation };
})

-- A call of an operation on a conversation.
unfoldable pub at_conversation : ℕ → (World → Option World) → Session → Result Session
unfolding settle
at_conversation i f s = do
  c ← present (get_elem? s.server.conversations i)
  w ← present (f (record { conversation = c; signals = [] }))
  ok (settle i w s)
