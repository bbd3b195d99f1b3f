-- ===== src/Server/Pending.antt =====
-- server/vsx-connection.c: the dirty flags of a connection, and `has_pending_data`.
use verda_sxtelo.Common.{Bool, true, false, ◌||◌, length, ltb, if◌then◌else◌}
use verda_sxtelo.Conversation.{Conversation}
use verda_sxtelo.Bitmask.{any_set}
use verda_sxtelo.Frames.{Result, ok, ◌>>=◌}
use verda_sxtelo.Connection.{Connection}
use verda_sxtelo.Server.{Client, DirtyFlags, Session}
use verda_sxtelo.Server.Own.{has_person, with_client, own_conversation}

-- `VsxConnectionDirtyFlag`
pub data Flag : Type 0 where
  ws_header_flag pong_flag player_id_flag conversation_id_flag n_tiles_flag language_flag shout_flag
        sync_flag error_flag :
      Flag

-- The tests of `has_pending_data` that look at the conversation.
unfoldable pub has_news : Client → Conversation → Bool
has_news c conversation =
    ltb c.named_players (length conversation.players)
    || ltb c.message_num (length conversation.messages)

module _ {C : Type 0} where
  abbrev pub session : Connection C Session → Session
  session conn = conn.reader.link.others

  abbrev pub client : Connection C Session → Client
  client conn = conn.reader.link.others.client

  abbrev pub with_session : Session → Connection C Session → Connection C Session
  with_session s conn = record conn {
    reader = record (conn.reader) { link = record (conn.reader.link) { others = s } };
  }

  abbrev pub set_client : Client → Connection C Session → Connection C Session
  set_client c conn = with_session (with_client c conn.reader.link.others) conn

  -- `conn->dirty_flags & flag`
  unfoldable pub is_flag_set : Flag → Connection C Session → Bool
  is_flag_set ws_header_flag conn = conn.ws_header
  is_flag_set pong_flag conn = conn.reader.link.pong
  is_flag_set player_id_flag conn = (client conn).dirty_flags.player_id_dirty
  is_flag_set conversation_id_flag conn = (client conn).dirty_flags.conversation_id_dirty
  is_flag_set n_tiles_flag conn = (client conn).dirty_flags.n_tiles_dirty
  is_flag_set language_flag conn = (client conn).dirty_flags.language_dirty
  is_flag_set shout_flag conn = (client conn).dirty_flags.shout_dirty
  is_flag_set sync_flag conn = (client conn).dirty_flags.sync_dirty
  is_flag_set error_flag conn = (client conn).dirty_flags.error_dirty

  abbrev pub with_flags : DirtyFlags → Connection C Session → Connection C Session
  with_flags flags conn = set_client (record (client conn) { dirty_flags = flags }) conn

  -- `conn->dirty_flags &= ~flag`
  unfoldable pub clear_flag : Flag → Connection C Session → Connection C Session
  clear_flag ws_header_flag conn = record conn { ws_header = false }
  clear_flag pong_flag conn = record conn {
    reader = record (conn.reader) { link = record (conn.reader.link) { pong = false } };
  }
  clear_flag player_id_flag conn =
      with_flags (record ((client conn).dirty_flags) { player_id_dirty = false }) conn
  clear_flag conversation_id_flag conn =
      with_flags (record ((client conn).dirty_flags) { conversation_id_dirty = false }) conn
  clear_flag n_tiles_flag conn =
      with_flags (record ((client conn).dirty_flags) { n_tiles_dirty = false }) conn
  clear_flag language_flag conn =
      with_flags (record ((client conn).dirty_flags) { language_dirty = false }) conn
  clear_flag shout_flag conn =
      with_flags (record ((client conn).dirty_flags) { shout_dirty = false }) conn
  clear_flag sync_flag conn =
      with_flags (record ((client conn).dirty_flags) { sync_dirty = false }) conn
  clear_flag error_flag conn =
      with_flags (record ((client conn).dirty_flags) { error_dirty = false }) conn

  -- `dirty_flags != 0`
  unfoldable pub any_flag : Connection C Session → Bool
  unfolding is_flag_set
  any_flag conn =
      is_flag_set ws_header_flag conn
      || is_flag_set pong_flag conn
      || is_flag_set player_id_flag conn
      || is_flag_set conversation_id_flag conn
      || is_flag_set n_tiles_flag conn
      || is_flag_set language_flag conn
      || is_flag_set shout_flag conn
      || is_flag_set sync_flag conn
      || is_flag_set error_flag conn

  unfoldable pub has_pending_data : Connection C Session → Result Bool
  unfolding any_flag any_set has_news has_person own_conversation
  has_pending_data conn =
      if any_flag conn || any_set (client conn).dirty_players || any_set (client conn).dirty_tiles
      then ok true
      else if has_person (client conn)
      then (do c ← own_conversation (session conn); ok (has_news (client conn) c))
      else ok false
