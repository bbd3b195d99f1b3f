-- ===== src/Server/Refusing.antt =====
-- A function that refuses to write a message has one that is longer than the space it was given.
use verda_sxtelo.Common.{
  ℕ, ◌+◌, ◌<◌, ◌≡◌, refl, arith, Option, none, some, Option-cases, List, [], ◌∷◌, ◌++◌, length,
  length-append, get_elem?, Bool-cases, inl, inr, ltb, ltb→lt, lt→ltb-false,
}
use verda_sxtelo.Proto.{
  Item, uint8_item, uint64_item, int16_item, string_item, to_bits, write_command,
}
use verda_sxtelo.Proto.Command.{frame_length, write_command-none}
use verda_sxtelo.Base64.{encode_base64}
use verda_sxtelo.Conversation.{Conversation}
use verda_sxtelo.Player.{is_connected}
use verda_sxtelo.TileData.{vsx_tile_data}
use verda_sxtelo.Bitmask.{first_set}
use verda_sxtelo.Frames.{Result, ok, refused, overrun, endless, ◌>>=◌}
use verda_sxtelo.Connection.{Connection, done}
use verda_sxtelo.Server.{Session, present}
use verda_sxtelo.Server.Own.{has_person, own_person, own_conversation}
use verda_sxtelo.Server.Pending.{session, client}
use verda_sxtelo.Server.Writers.{
  wrote, own_player, write_player_name, write_player, write_tile, write_message, write_ws_response,
  write_pong, write_player_id, write_conversation_id, write_n_tiles, write_language,
  write_pending_shout, write_end, write_sync, write_pending_error, encoded_size, ws_header_prefix,
  player_id_command, message_command, n_tiles_command, tile_command, player_name_command,
  player_command, player_shouted_command, sync_command, end_command, conversation_id_command,
  language_command, ws_header_postfix,
}
use verda_sxtelo.Server.Output.{
  Writer, ws_response_writer, pong_writer, player_id_writer, conversation_id_writer, n_tiles_writer,
  language_writer, player_name_writer, player_writer, pending_shout_writer, tile_writer,
  message_writer, end_writer, sync_writer, pending_error_writer, write_with,
}
use verda_sxtelo.Server.Fits.{length-encode_base64}

module _ {C : Type 0} where
  -- What a writer would write if it had the space is longer than `size`.
  pub record TooLong (size : ℕ) (write : ℕ → Result (Option (List ℕ × Connection C Session)))
      : Type 0 where
    pub space : ℕ
    pub bytes : List ℕ
    pub after : Connection C Session
    pub written : write space ≡ ok (some (bytes, after))
    pub longer : size < length bytes

  -- A writer that refuses `size` does so because its message is longer.
  abbrev pub Refuses : ℕ → (ℕ → Result (Option (List ℕ × Connection C Session))) → Type 0
  Refuses size write = write size ≡ ok none → TooLong size write

  nothing-Refuses :
      (size : ℕ) (conn : Connection C Session) → Refuses size (λ k. ok (some ([], conn)))
  nothing-Refuses size conn e = cc

  bind-Refuses {κ} :
      {A : Type κ} (size : ℕ) (r : Result A)
      (f : ℕ → A → Result (Option (List ℕ × Connection C Session)))
      → ((a : A) → Refuses size (λ k. f k a))
      → Refuses size (λ k. r >>= f k)
  bind-Refuses size (ok a) f h e = h a e
  bind-Refuses size overrun f h e = cc
  bind-Refuses size refused f h e = cc
  bind-Refuses size endless f h e = cc

  written-ne-none :
      (bytes : List ℕ) (conn : Connection C Session)
      → ¬ (
          ◌≡◌ {A = Result (Option (List ℕ × Connection C Session))}
            (ok (some (bytes, conn)))
            (ok none))
  written-ne-none bytes conn e = cc

  wrote-Refuses :
      (size command : ℕ) (items : List Item) (conn : Connection C Session)
      → Refuses size (λ k. wrote (write_command k command items) conn)
  wrote-Refuses size command items conn e = elim (Option-cases (write_command size command items)) [
    | inl n ↦
        let (bytes, w, l) = write_command-none size command items n in
        record {
          space = frame_length items;
          bytes = bytes;
          after = conn;
          written = rw w refl;
          longer = l;
        }
    | inr (bytes, s) ↦ absurd (written-ne-none bytes conn (rw s at e))
  ]

module _ {C : Type 0} (size : ℕ) (conn : Connection C Session) where
  ws_response-Refuses : Refuses size (λ k. write_ws_response k conn)
  unfolding write_ws_response
  ws_response-Refuses e =
      let hash = conn.ws_parser.key_hash in
      let needed =
        encoded_size (length hash) + length ws_header_prefix + length ws_header_postfix in
      let sum = length-append ws_header_prefix (encode_base64 hash ++ ws_header_postfix) in
      let rest = length-append (encode_base64 hash) ws_header_postfix in
      elim (Bool-cases (ltb size needed)) [
        | inl t ↦ record {
          space = needed;
          bytes = ws_header_prefix ++ encode_base64 hash ++ ws_header_postfix;
          after = conn;
          written = rw (lt→ltb-false needed needed (omega arith)) refl;
          longer = omega (arith, sum, rest, length-encode_base64 hash, ltb→lt size needed t);
        }
        | inr t ↦ let e' = rw t at e in cc
      ]

  pong-Refuses : Refuses size (λ k. write_pong k conn)
  unfolding write_pong
  pong-Refuses e =
      let data' = conn.reader.link.pong_data in
      let needed = length data' + 2 in
      elim (Bool-cases (ltb size needed)) [
        | inl t ↦ record {
          space = needed;
          bytes = 0x8a ∷ length data' ∷ data';
          after = conn;
          written = rw (lt→ltb-false needed needed (omega arith)) refl;
          longer = omega (arith, ltb→lt size needed t);
        }
        | inr t ↦ let e' = rw t at e in cc
      ]

  player_name-Refuses : Refuses size (λ k. write_player_name k conn)
  unfolding write_player_name
  player_name-Refuses = elim (Bool-cases (has_person (client conn))) [
    | inr e ↦ rw e (nothing-Refuses size conn)
    | inl e ↦ rw e (
        bind-Refuses size (own_conversation (session conn)) _ (λ c.
          elim (Option-cases (get_elem? c.players (client conn).named_players)) [
            | inl g ↦ rw g (nothing-Refuses size conn)
            | inr (p, g) ↦ rw g (
                wrote-Refuses size player_name_command
                  (uint8_item (client conn).named_players ∷ string_item p.name ∷ []) _)
          ]))
  ]

  message-Refuses : Refuses size (λ k. write_message k conn)
  unfolding write_message
  message-Refuses = elim (Bool-cases (has_person (client conn))) [
    | inr e ↦ rw e (nothing-Refuses size conn)
    | inl e ↦ rw e (
        bind-Refuses size (own_conversation (session conn)) _ (λ c.
          elim (Option-cases (get_elem? c.messages (client conn).message_num)) [
            | inl g ↦ rw g (nothing-Refuses size conn)
            | inr (m, g) ↦ rw g (
                wrote-Refuses size message_command
                  (uint8_item m.player_num ∷ string_item m.text ∷ []) _)
          ]))
  ]

  player-Refuses : Refuses size (λ k. write_player k conn)
  unfolding write_player
  player-Refuses = elim (Option-cases (first_set (client conn).dirty_players)) [
    | inl e ↦ rw (write_player, e) (nothing-Refuses size conn)
    | inr (n, e) ↦
        rw (write_player, e)
          (bind-Refuses size (own_conversation (session conn)) _ (λ c.
            bind-Refuses size (present (get_elem? c.players n)) _
              (λ p. wrote-Refuses size player_command (uint8_item n ∷ uint8_item p.flags ∷ []) _)))
  ]

  tile-Refuses : Refuses size (λ k. write_tile k conn)
  unfolding write_tile
  tile-Refuses = elim (Option-cases (first_set (client conn).dirty_tiles)) [
    | inl e ↦ rw (write_tile, e) (nothing-Refuses size conn)
    | inr (n, e) ↦
        rw (write_tile, e)
          (bind-Refuses size (own_conversation (session conn)) _ (λ c.
            bind-Refuses size (present (get_elem? c.tiles n)) _ (λ t.
              wrote-Refuses size tile_command
                (uint8_item n
                  ∷ int16_item t.x
                  ∷ int16_item t.y
                  ∷ string_item t.letter
                  ∷ uint8_item (to_bits t.last_player)
                  ∷ [])
                _)))
  ]

  end-Refuses : Refuses size (λ k. write_end k conn)
  unfolding write_end
  end-Refuses = elim (Bool-cases (has_person (client conn))) [
    | inr e ↦ rw e (nothing-Refuses size conn)
    | inl e ↦ rw e (
        bind-Refuses size (own_player (session conn)) _ (λ p. elim (Bool-cases (is_connected p)) [
          | inl on ↦ rw on (nothing-Refuses size conn)
          | inr off ↦ rw off (wrote-Refuses size end_command [] (record conn { state = done }))
        ]))
  ]

  -- A writer that reads the conversation, and nothing else.
  reads-Refuses :
      (command : ℕ) (items : Conversation → List Item)
      → Refuses size (λ k.
        own_conversation (session conn) >>= λ c. wrote (write_command k command (items c)) conn)
  reads-Refuses command items =
      bind-Refuses size (own_conversation (session conn)) _
        (λ c. wrote-Refuses size command (items c) conn)

  pub write_with-Refuses : (w : Writer) → Refuses size (λ k. write_with w k conn)
  unfolding write_with write_player_id write_conversation_id write_n_tiles write_language
      write_pending_shout write_sync write_pending_error
  write_with-Refuses ws_response_writer = ws_response-Refuses
  write_with-Refuses pong_writer = pong-Refuses
  write_with-Refuses player_id_writer = bind-Refuses size (own_person (session conn)) _ (λ p.
      wrote-Refuses size player_id_command (uint64_item p.id ∷ uint8_item p.player_num ∷ []) conn)
  write_with-Refuses conversation_id_writer =
      reads-Refuses conversation_id_command (λ c. uint64_item c.id ∷ [])
  write_with-Refuses n_tiles_writer =
      reads-Refuses n_tiles_command (λ c. uint8_item c.total_n_tiles ∷ [])
  write_with-Refuses language_writer = bind-Refuses size (own_conversation (session conn)) _ (λ c.
      bind-Refuses size (present (get_elem? vsx_tile_data c.tile_data)) _
        (λ d. wrote-Refuses size language_command (string_item d.language_code ∷ []) conn))
  write_with-Refuses player_name_writer = player_name-Refuses
  write_with-Refuses player_writer = player-Refuses
  write_with-Refuses pending_shout_writer =
      wrote-Refuses size player_shouted_command (uint8_item (client conn).pending_shout ∷ []) conn
  write_with-Refuses tile_writer = tile-Refuses
  write_with-Refuses message_writer = message-Refuses
  write_with-Refuses end_writer = end-Refuses
  write_with-Refuses sync_writer = wrote-Refuses size sync_command [] conn
  write_with-Refuses pending_error_writer =
      wrote-Refuses size (client conn).pending_error [] (record conn { state = done })
