-- ===== src/Server/Output.antt =====
-- server/vsx-connection.c: `vsx_connection_fill_output_buffer`, and what is asked of a connection
-- at its end.
use verda_sxtelo.Common.{
  ℕ, zero, suc, ◌+◌, ◌-◌, Bool, true, false, ◌||◌, Option, none, some, List, [], ◌∷◌, ◌++◌, length,
  ltb, if◌then◌else◌,
}
use verda_sxtelo.Player.{is_connected}
use verda_sxtelo.Frames.{Result, ok, refused, endless, ◌>>=◌}
use verda_sxtelo.Connection.{Connection, reading_ws_headers, writing_data, done}
use verda_sxtelo.Server.{Session}
use verda_sxtelo.Server.Own.{has_person}
use verda_sxtelo.Server.Pending.{
  Flag, ws_header_flag, pong_flag, player_id_flag, conversation_id_flag, n_tiles_flag,
  language_flag, shout_flag, sync_flag, error_flag, session, client, is_flag_set, clear_flag,
  has_pending_data,
}
use verda_sxtelo.Server.Writers.{
  own_player, write_ws_response, write_pong, write_player_id, write_conversation_id, write_n_tiles,
  write_language, write_player_name, write_player, write_pending_shout, write_tile, write_message,
  write_end, write_sync, write_pending_error,
}

-- `VsxConnectionWriteStateFunc`, by name.
pub data Writer : Type 0 where
  ws_response_writer pong_writer player_id_writer conversation_id_writer n_tiles_writer
        language_writer player_name_writer player_writer pending_shout_writer tile_writer
        message_writer end_writer sync_writer pending_error_writer :
      Writer

-- An element of `write_funcs`, with no flag for 0.
pub record WriteFunc : Type 0 where
  pub flag : Option Flag
  pub func : Writer

unfoldable pub write_funcs : List WriteFunc
write_funcs =
    record { flag = some ws_header_flag; func = ws_response_writer }
    ∷ record { flag = some pong_flag; func = pong_writer }
    ∷ record { flag = some player_id_flag; func = player_id_writer }
    ∷ record { flag = some conversation_id_flag; func = conversation_id_writer }
    ∷ record { flag = some n_tiles_flag; func = n_tiles_writer }
    ∷ record { flag = some language_flag; func = language_writer }
    ∷ record { flag = none; func = player_name_writer }
    ∷ record { flag = none; func = player_writer }
    ∷ record { flag = some shout_flag; func = pending_shout_writer }
    ∷ record { flag = none; func = tile_writer }
    ∷ record { flag = none; func = message_writer }
    ∷ record { flag = none; func = end_writer }
    ∷ record { flag = some sync_flag; func = sync_writer }
    ∷ record { flag = some error_flag; func = pending_error_writer }
    ∷ []

-- What a round of the loop comes to: nothing to write, no space, or `goto found`.
pub data Round (C : Type 0) : Type 0 where
  drained full : Round C
  found : List ℕ → Connection C Session → Round C

module _ {C : Type 0} where
  unfoldable pub write_with :
      Writer → ℕ → Connection C Session → Result (Option (List ℕ × Connection C Session))
  unfolding write_ws_response write_pong write_player_id write_conversation_id write_n_tiles
      write_language write_player_name write_player write_pending_shout write_tile write_message
      write_end write_sync write_pending_error
  write_with ws_response_writer size conn = write_ws_response size conn
  write_with pong_writer size conn = write_pong size conn
  write_with player_id_writer size conn = write_player_id size conn
  write_with conversation_id_writer size conn = write_conversation_id size conn
  write_with n_tiles_writer size conn = write_n_tiles size conn
  write_with language_writer size conn = write_language size conn
  write_with player_name_writer size conn = write_player_name size conn
  write_with player_writer size conn = write_player size conn
  write_with pending_shout_writer size conn = write_pending_shout size conn
  write_with tile_writer size conn = write_tile size conn
  write_with message_writer size conn = write_message size conn
  write_with end_writer size conn = write_end size conn
  write_with sync_writer size conn = write_sync size conn
  write_with pending_error_writer size conn = write_pending_error size conn

  -- What a writer without a flag returned, and how the loop goes on after it.
  unfoldable pub after_unflagged :
      Option (List ℕ × Connection C Session) → Result (Round C) → Result (Round C)
  after_unflagged none next = ok full
  after_unflagged (some ([], conn)) next = next
  after_unflagged (some (b ∷ bytes, conn)) next = ok (found (b ∷ bytes) conn)

  -- What a writer with a flag returned. The flag is then cleared.
  unfoldable pub after_flagged : Flag → Option (List ℕ × Connection C Session) → Round C
  unfolding clear_flag
  after_flagged flag none = full
  after_flagged flag (some (bytes, conn)) = found bytes (clear_flag flag conn)

  -- `for (int i = 0; i < VSX_N_ELEMENTS (write_funcs); i++)`
  unfoldable pub try_funcs : List WriteFunc → ℕ → Connection C Session → Result (Round C)
  unfolding write_with after_unflagged after_flagged is_flag_set
  try_funcs [] size conn = ok drained
  try_funcs (f ∷ funcs) size conn =
      let rest = try_funcs funcs size conn in
      elim f.flag [
        | none ↦ do r ← write_with f.func size conn; after_unflagged r rest
        | some flag ↦
            if is_flag_set flag conn
            then (do r ← write_with f.func size conn; ok (after_flagged flag r))
            else rest
      ]

  abbrev pub prepend : List ℕ → List ℕ × Connection C Session → List ℕ × Connection C Session
  prepend bytes r = (bytes ++ r.0, r.1)

  -- What the round came to decides whether there is another one.
  unfoldable pub after_round :
      ℕ
      → (ℕ → Connection C Session → Result (List ℕ × Connection C Session))
      → Connection C Session
      → Round C
      → Result (List ℕ × Connection C Session)
  after_round size again conn drained = ok ([], conn)
  after_round size again conn full = ok ([], conn)
  after_round size again conn (found bytes conn') = do
    r ← again (size - length bytes) conn'
    ok (prepend bytes r)

  -- `VSX_CONNECTION_STATE_WRITING_DATA`, among the cases of the `switch`.
  unfoldable pub is_writing : Connection C Session → Bool
  is_writing conn = elim conn.state [
    | reading_ws_headers ↦ false
    | writing_data ↦ true
    | done ↦ false
  ]

  -- `while (true)`. A round that goes on writes a byte at least.
  unfoldable pub fill_loop : ℕ → ℕ → Connection C Session → Result (List ℕ × Connection C Session)
  unfolding try_funcs write_funcs after_round is_writing
  fill_loop zero size conn = endless
  fill_loop (suc fuel) size conn =
      if is_writing conn
      then (do
        round ← try_funcs write_funcs size conn
        after_round size (fill_loop fuel) conn round)
      else ok ([], conn)

  -- The bytes that were put into the buffer.
  unfoldable pub fill_output_buffer :
      ℕ → Connection C Session → Result (List ℕ × Connection C Session)
  unfolding fill_loop
  fill_output_buffer buffer_size conn = fill_loop (buffer_size + 1) buffer_size conn

  unfoldable pub is_finished : Connection C Session → Bool
  is_finished conn = elim conn.state [
    | reading_ws_headers ↦ false
    | writing_data ↦ false
    | done ↦ true
  ]

  unfoldable pub has_data : Connection C Session → Result Bool
  unfolding has_pending_data is_writing
  has_data conn = if is_writing conn then has_pending_data conn else ok false

  -- A person that has not left, or no person, where the connection ends.
  unfoldable pub is_unfinished : Connection C Session → Result Bool
  unfolding has_person own_player
  is_unfinished conn =
      if has_person (client conn)
      then (do p ← own_player (session conn); ok (is_connected p))
      else ok true

  unfoldable pub parse_eof : Connection C Session → Result (Connection C Session)
  unfolding is_finished is_unfinished
  parse_eof conn = elim conn.state [
    | reading_ws_headers ↦ refused
    | done ↦
        if ltb 0 (length conn.reader.read_buf) || ltb 0 (length conn.reader.link.message_data)
        then refused
        else ok conn
    | writing_data ↦
        if ltb 0 (length conn.reader.read_buf) || ltb 0 (length conn.reader.link.message_data)
        then refused
        else (do b ← is_unfinished conn; if b then refused else ok conn)
  ]
