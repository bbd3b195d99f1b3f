-- ===== src/Conversation.antt =====
-- server/vsx-conversation.h and the shared part of vsx-conversation.c: the state of one game, the
-- signals that it emits, its creation, its start and the flags of its players.
-- An operation returns no state where the C code would follow a null pointer, fail an assertion
-- or not end.
pub mod Valid
pub mod Players
pub mod Talk
pub mod Options
pub mod Tiles
pub mod Keeps
pub mod Reach
pub mod Grows
use verda_sxtelo.Common.{
  ℕ, ◌+◌, ◌*◌, ◌%◌, ◌^◌, Bool, Option, none, some, List, [], ◌∷◌, ◌++◌, ◌>>=◌, length, get_elem?,
  set, ◌==◌, replicate, if◌then◌else◌,
}
use verda_sxtelo.Common.Int.{ℤ, pos}
use verda_sxtelo.Player.{Player, change_flag}
use verda_sxtelo.Tile.{Tile}
use verda_sxtelo.TileData.{n_tiles}

pub data State : Type 0 where
  awaiting_start in_progress : State

-- `VsxConversationMessage`
pub record Message : Type 0 where
  pub player_num : ℕ
  pub text : List ℕ

-- `VsxConversation`. The first `n_players` pointers of `players` are the list of the players, and
-- `tile_data` is the index in `vsx_tile_data` that the pointer stands for. Times are microseconds.
pub record Conversation : Type 0 where
  pub id : ℕ
  pub state : State
  pub messages : List Message
  pub n_connected_players : ℕ
  pub players : List Player
  pub n_tiles_in_play : ℕ
  pub total_n_tiles : ℕ
  pub tiles : List Tile
  pub tile_data : ℕ
  pub last_shout_time : ℕ
  pub log_id : ℕ

-- `VsxConversationChangedType`
pub data ChangedType : Type 0 where
  state_changed n_tiles_changed tile_data_changed message_added player_changed tile_changed
        shouted :
      ChangedType

-- `VsxConversationChangedData`, with what the listeners can read through its pointer. Only some of
-- the kinds set `num`.
pub record Signal : Type 0 where
  pub kind : ChangedType
  pub num : Option ℕ
  pub seen : Conversation

-- A conversation with the signals that it has emitted, oldest first.
pub record World : Type 0 where
  pub conversation : Conversation
  pub signals : List Signal

abbrev pub max_players : ℕ
max_players = 6

abbrev pub shout_time : ℕ
shout_time = 10 * 1000 * 1000

abbrev pub default_n_tiles : ℕ
default_n_tiles = 50

abbrev pub n_players : Conversation → ℕ
n_players c = length c.players

unfoldable pub emit : ChangedType → Option ℕ → World → World
emit kind num w = record w {
  signals = w.signals ++ (record { kind = kind; num = num; seen = w.conversation } ∷ []);
}

-- Memory from `vsx_calloc`.
abbrev pub blank_tile : Tile
blank_tile = record { x = pos 0; y = pos 0; last_player = pos 0; letter = [] }

-- `next_log_id` is the `uint16_t` counter of the file; the new value is returned too.
unfoldable pub new : ℕ → ℕ → ℕ → Conversation × ℕ
new id tile_data next_log_id = (conversation, (next_log_id + 1) % 2 ^ 16)
  where
    conversation : Conversation
    conversation = record {
      id = id;
      state = awaiting_start;
      messages = [];
      n_connected_players = 0;
      players = [];
      n_tiles_in_play = 0;
      total_n_tiles = default_n_tiles;
      tiles = replicate n_tiles blank_tile;
      tile_data = tile_data;
      last_shout_time = 0;
      log_id = next_log_id;
    }

unfoldable pub start : World → World
unfolding emit
start w = elim w.conversation.state [
  | awaiting_start ↦
      emit state_changed none
        (record w { conversation = record (w.conversation) { state = in_progress } })
  | in_progress ↦ w
]

-- `conversation->players[i]`
unfoldable pub player : ℕ → World → Option Player
player i w = get_elem? w.conversation.players i

-- The player of index `i`, as it was read, gets new flags.
unfoldable pub store_flags : ℕ → Player → ℕ → World → World
unfolding emit
store_flags i p flags w =
    if p.flags == flags
    then w
    else emit player_changed (some p.num) (record w {
      conversation = record (w.conversation) {
        players = set w.conversation.players i (record p { flags = flags });
      };
    })

unfoldable pub set_flags : ℕ → ℕ → World → Option World
unfolding player store_flags
set_flags i flags w = do p ← player i w; some (store_flags i p flags w)

unfoldable pub set_flag : ℕ → ℕ → Bool → World → Option World
unfolding player store_flags
set_flag i flag value w = do
  p ← player i w
  some (store_flags i p (change_flag p.flags flag value) w)
