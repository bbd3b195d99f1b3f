-- ===== src/Connection.antt =====
-- `vsx_connection_parse_data` of server/vsx-connection.c: the request that opens the WebSocket, and
-- the frames behind it.
pub mod Opened
use verda_sxtelo.Common.{ℕ, Bool, true, false, Option, none, some, List, []}
use verda_sxtelo.WsParser
use verda_sxtelo.WsParser.{Digest, Parser, Outcome, need_more_data, finished, error}
use verda_sxtelo.Frames.{Result, ok, refused, endless, ◌>>=◌, Reader, parse_frames}

-- `VsxConnectionState`
pub data ConnectionState : Type 0 where
  reading_ws_headers writing_data done : ConnectionState

-- `_VsxConnection`, where `ws_header` is `VSX_CONNECTION_DIRTY_FLAG_WS_HEADER`, and `reader` has the
-- buffers and the other fields.
pub record Connection (C S : Type 0) : Type 0 where
  pub state : ConnectionState
  pub ws_parser : Parser C
  pub ws_header : Bool
  pub reader : Reader S

module _ {C S : Type 0} where
  -- `vsx_connection_new`, for what the other fields start with.
  unfoldable pub new : S → Connection C S
  unfolding WsParser.new
  new s = record {
    state = reading_ws_headers;
    ws_parser = WsParser.new;
    ws_header = false;
    reader = record {
      read_buf = [];
      link = record { message_data = []; pong_data = []; pong = false; others = s };
    };
  }

  abbrev pub opened : Parser C → Connection C S → Connection C S
  opened p conn = record conn { state = writing_data; ws_parser = p; ws_header = true }

module _ {C S : Type 0} (digest : Digest C) (process_message : List ℕ → S → Result S) where
  -- `while (buffer_length > 0)`
  unfoldable pub handle_frames : List ℕ → Connection C S → Result (Connection C S)
  unfolding parse_frames
  handle_frames buffer conn = do
    r ← parse_frames process_message buffer conn.reader
    ok (record conn { reader = r })

  -- What the parser of the request returned; `none` is a loop that does not end.
  unfoldable pub handle_outcome : Option (Outcome C) → Connection C S → Result (Connection C S)
  unfolding handle_frames
  handle_outcome none conn = endless
  handle_outcome (some (need_more_data p)) conn = ok (record conn { ws_parser = p })
  handle_outcome (some (finished p rest)) conn = handle_frames rest (opened p conn)
  handle_outcome (some (error e)) conn = refused

  unfoldable pub parse_in : ConnectionState → List ℕ → Connection C S → Result (Connection C S)
  unfolding handle_outcome handle_frames WsParser.parse_data
  parse_in reading_ws_headers buffer conn =
      handle_outcome (WsParser.parse_data digest buffer conn.ws_parser) conn
  parse_in writing_data buffer conn = handle_frames buffer conn
  parse_in done buffer conn = handle_frames buffer conn

  unfoldable pub parse_data : List ℕ → Connection C S → Result (Connection C S)
  unfolding parse_in
  parse_data buffer conn = parse_in conn.state buffer conn
