-- ===== src/Server/Writers.antt =====
-- server/vsx-connection.c: the functions that write one message of a connection each. A writer gets
-- the space that is left in the buffer. It returns nothing for -1, and else the bytes that it wrote,
-- of which there are none for 0, with the connection after it; `overrun` is a null pointer.
use verda_sxtelo.Common.{
  ℕ, ◌+◌, ◌*◌, ◌/◌, false, Option, none, some, List, [], ◌∷◌, ◌++◌, length, get_elem?, ltb,
  if◌then◌else◌,
}
use verda_sxtelo.Common.Chars.{codes}
use verda_sxtelo.Proto.{uint8_item, uint64_item, int16_item, string_item, write_command, to_bits}
use verda_sxtelo.Base64.{encode_base64}
use verda_sxtelo.Player.{Player, is_connected}
use verda_sxtelo.TileData.{vsx_tile_data}
use verda_sxtelo.Bitmask.{first_set, set_bit}
use verda_sxtelo.Frames.{Result, ok, ◌>>=◌}
use verda_sxtelo.Connection.{Connection, done}
use verda_sxtelo.Server.{Session, present}
use verda_sxtelo.Server.Own.{has_person, own_person, own_conversation}
use verda_sxtelo.Server.Pending.{session, client, set_client}

abbrev pub ws_header_prefix : List ℕ
ws_header_prefix =
    codes "HTTP/1.1 101 Switching Protocols\r\nUpgrade: websocket\r\nConnection: Upgrade\r\n"
    ++ codes "Sec-WebSocket-Accept: "

abbrev pub ws_header_postfix : List ℕ
ws_header_postfix = codes "\r\n\r\n"

-- `VSX_BASE64_ENCODED_SIZE`
abbrev pub encoded_size : ℕ → ℕ
encoded_size n = (n + 2) / 3 * 4

-- The numbers of the messages to the client, but for those of errors.
abbrev pub player_id_command : ℕ
player_id_command = 0x00

abbrev pub message_command : ℕ
message_command = 0x01

abbrev pub n_tiles_command : ℕ
n_tiles_command = 0x02

abbrev pub tile_command : ℕ
tile_command = 0x03

abbrev pub player_name_command : ℕ
player_name_command = 0x04

abbrev pub player_command : ℕ
player_command = 0x05

abbrev pub player_shouted_command : ℕ
player_shouted_command = 0x06

abbrev pub sync_command : ℕ
sync_command = 0x07

abbrev pub end_command : ℕ
end_command = 0x08

abbrev pub conversation_id_command : ℕ
conversation_id_command = 0x0a

abbrev pub language_command : ℕ
language_command = 0x0c

-- The player of the connection's person.
unfoldable pub own_player : Session → Result Player
unfolding own_person own_conversation
own_player s = do
  p ← own_person s
  c ← own_conversation s
  present (get_elem? c.players p.player_num)

module _ {C : Type 0} where
  -- A message that was written, after which the connection changes.
  abbrev pub wrote :
      Option (List ℕ) → Connection C Session → Result (Option (List ℕ × Connection C Session))
  wrote none conn = ok none
  wrote (some bytes) conn = ok (some (bytes, conn))

  abbrev pub nothing_to_write :
      Connection C Session → Result (Option (List ℕ × Connection C Session))
  nothing_to_write conn = ok (some ([], conn))

  unfoldable pub write_player_name :
      ℕ → Connection C Session → Result (Option (List ℕ × Connection C Session))
  unfolding has_person own_conversation write_command
  write_player_name size conn =
      if has_person (client conn)
      then (do
        c ← own_conversation (session conn)
        let n = (client conn).named_players
        elim (get_elem? c.players n) [
          | none ↦ nothing_to_write conn
          | some p ↦
              wrote
                (write_command size player_name_command (uint8_item n ∷ string_item p.name ∷ []))
                (set_client (record (client conn) { named_players = n + 1 }) conn)
        ])
      else nothing_to_write conn

  unfoldable pub write_player :
      ℕ → Connection C Session → Result (Option (List ℕ × Connection C Session))
  unfolding first_set set_bit own_conversation write_command
  write_player size conn = elim (first_set (client conn).dirty_players) [
    | none ↦ nothing_to_write conn
    | some n ↦ do
      c ← own_conversation (session conn)
      p ← present (get_elem? c.players n)
      wrote (write_command size player_command (uint8_item n ∷ uint8_item p.flags ∷ [])) (
          set_client
            (record (client conn) { dirty_players = set_bit (client conn).dirty_players n false })
            conn)
  ]

  unfoldable pub write_tile :
      ℕ → Connection C Session → Result (Option (List ℕ × Connection C Session))
  unfolding first_set set_bit own_conversation write_command to_bits
  write_tile size conn = elim (first_set (client conn).dirty_tiles) [
    | none ↦ nothing_to_write conn
    | some n ↦ do
      c ← own_conversation (session conn)
      t ← present (get_elem? c.tiles n)
      wrote
          (write_command size tile_command (
            uint8_item n
            ∷ int16_item t.x
            ∷ int16_item t.y
            ∷ string_item t.letter
            ∷ uint8_item (to_bits t.last_player)
            ∷ []))
          (set_client
            (record (client conn) { dirty_tiles = set_bit (client conn).dirty_tiles n false }) conn)
  ]

  unfoldable pub write_message :
      ℕ → Connection C Session → Result (Option (List ℕ × Connection C Session))
  unfolding has_person own_conversation write_command
  write_message size conn =
      if has_person (client conn)
      then (do
        c ← own_conversation (session conn)
        let n = (client conn).message_num
        elim (get_elem? c.messages n) [
          | none ↦ nothing_to_write conn
          | some m ↦
              wrote
                (write_command size message_command
                  (uint8_item m.player_num ∷ string_item m.text ∷ []))
                (set_client (record (client conn) { message_num = n + 1 }) conn)
        ])
      else nothing_to_write conn

  unfoldable pub write_ws_response :
      ℕ → Connection C Session → Result (Option (List ℕ × Connection C Session))
  unfolding encode_base64
  write_ws_response size conn =
      let hash = conn.ws_parser.key_hash in
      if ltb size (encoded_size (length hash) + length ws_header_prefix + length ws_header_postfix)
      then ok none
      else ok (some (ws_header_prefix ++ encode_base64 hash ++ ws_header_postfix, conn))

  unfoldable pub write_pong :
      ℕ → Connection C Session → Result (Option (List ℕ × Connection C Session))
  write_pong size conn =
      let data' = conn.reader.link.pong_data in
      if ltb size (length data' + 2) then ok none else ok (some (0x8a ∷ length data' ∷ data', conn))

  unfoldable pub write_player_id :
      ℕ → Connection C Session → Result (Option (List ℕ × Connection C Session))
  unfolding own_person write_command
  write_player_id size conn = do
    p ← own_person (session conn)
    wrote (write_command size player_id_command (uint64_item p.id ∷ uint8_item p.player_num ∷ []))
        conn

  unfoldable pub write_conversation_id :
      ℕ → Connection C Session → Result (Option (List ℕ × Connection C Session))
  unfolding own_conversation write_command
  write_conversation_id size conn = do
    c ← own_conversation (session conn)
    wrote (write_command size conversation_id_command (uint64_item c.id ∷ [])) conn

  unfoldable pub write_n_tiles :
      ℕ → Connection C Session → Result (Option (List ℕ × Connection C Session))
  unfolding own_conversation write_command
  write_n_tiles size conn = do
    c ← own_conversation (session conn)
    wrote (write_command size n_tiles_command (uint8_item c.total_n_tiles ∷ [])) conn

  unfoldable pub write_language :
      ℕ → Connection C Session → Result (Option (List ℕ × Connection C Session))
  unfolding own_conversation write_command
  write_language size conn = do
    c ← own_conversation (session conn)
    d ← present (get_elem? vsx_tile_data c.tile_data)
    wrote (write_command size language_command (string_item d.language_code ∷ [])) conn

  unfoldable pub write_pending_shout :
      ℕ → Connection C Session → Result (Option (List ℕ × Connection C Session))
  unfolding write_command
  write_pending_shout size conn =
      wrote
        (write_command size player_shouted_command (uint8_item (client conn).pending_shout ∷ []))
        conn

  unfoldable pub write_end :
      ℕ → Connection C Session → Result (Option (List ℕ × Connection C Session))
  unfolding has_person own_player write_command
  write_end size conn =
      if has_person (client conn)
      then (do
        p ← own_player (session conn)
        if is_connected p
            then nothing_to_write conn
            else wrote (write_command size end_command []) (record conn { state = done }))
      else nothing_to_write conn

  unfoldable pub write_sync :
      ℕ → Connection C Session → Result (Option (List ℕ × Connection C Session))
  unfolding write_command
  write_sync size conn = wrote (write_command size sync_command []) conn

  unfoldable pub write_pending_error :
      ℕ → Connection C Session → Result (Option (List ℕ × Connection C Session))
  unfolding write_command
  write_pending_error size conn =
      wrote (write_command size (client conn).pending_error []) (record conn { state = done })
