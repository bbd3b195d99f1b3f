-- ===== src/Server/Fits.antt =====
-- What each function that writes a message puts into the buffer.
use verda_sxtelo.Common.{
  ℕ, ◌+◌, ◌≡◌, refl, arith, none-ne-some, All, Option, none, some, Option-cases, List, [], ◌∷◌,
  ◌++◌, length, length-append, get_elem?, Bool-cases, inl, inr, ltb, ltb-false→le,
}
use verda_sxtelo.Conversation.{Conversation}
use verda_sxtelo.Proto.{
  Item, uint8_item, uint64_item, int16_item, string_item, to_bits, write_command,
}
use verda_sxtelo.Base64.{quad, encode_base64}
use verda_sxtelo.Player.{is_connected}
use verda_sxtelo.TileData.{vsx_tile_data}
use verda_sxtelo.Bitmask.{first_set}
use verda_sxtelo.Frames.{Result, ◌>>=◌}
use verda_sxtelo.Connection.{Connection, done}
use verda_sxtelo.Server.{Session, present}
use verda_sxtelo.Server.Own.{has_person, own_person, own_conversation}
use verda_sxtelo.Server.Pending.{session, client, set_client, Flag}
use verda_sxtelo.Server.Writers.{
  wrote, own_player, write_player_name, write_player, write_tile, write_message, write_ws_response,
  write_pong, write_player_id, write_conversation_id, write_n_tiles, write_language,
  write_pending_shout, write_end, write_sync, write_pending_error, encoded_size, ws_header_prefix,
  player_id_command, message_command, n_tiles_command, tile_command, player_name_command,
  player_command, player_shouted_command, sync_command, end_command, conversation_id_command,
  language_command, ws_header_postfix,
}
use verda_sxtelo.Server.Output.{
  Writer, ws_response_writer, pong_writer, player_id_writer, conversation_id_writer, n_tiles_writer,
  language_writer, player_name_writer, player_writer, pending_shout_writer, tile_writer,
  message_writer, end_writer, sync_writer, pending_error_writer, WriteFunc, write_with, write_funcs,
}
use verda_sxtelo.Server.Followed.{
  present-Followed, own_person-Followed, own_conversation-Followed, own_player-Followed, Fits,
  Fits-weaken, bind-Fits, wrote-Fits,
}

pub length-encode_base64 :
    (bytes : List ℕ) → length (encode_base64 bytes) ≡ encoded_size (length bytes)
unfolding encode_base64 quad
length-encode_base64 [] = refl
length-encode_base64 (a ∷ []) = refl
length-encode_base64 (a ∷ b ∷ []) = refl
length-encode_base64 (a ∷ b ∷ c ∷ rest) = omega (arith, length-encode_base64 rest)

module _ {C : Type 0} (size : ℕ) (conn : Connection C Session) where
  ws_response-Fits : Fits 1 size (write_ws_response size conn)
  unfolding write_ws_response
  ws_response-Fits =
      let hash = conn.ws_parser.key_hash in
      let needed =
        encoded_size (length hash) + length ws_header_prefix + length ws_header_postfix in
      let sum = length-append ws_header_prefix (encode_base64 hash ++ ws_header_postfix) in
      let rest = length-append (encode_base64 hash) ws_header_postfix in
      elim (Bool-cases (ltb size needed)) [
        | inl t ↦ rw t tt
        | inr t ↦ rw t (
          omega (arith, sum, rest, length-encode_base64 hash),
          omega (arith, sum, rest, length-encode_base64 hash, ltb-false→le size needed t),
        )
      ]

  pong-Fits : Fits 1 size (write_pong size conn)
  unfolding write_pong
  pong-Fits = elim (Bool-cases (ltb size (length conn.reader.link.pong_data + 2))) [
    | inl t ↦ rw t tt
    | inr t ↦ rw t (omega arith, omega (arith, ltb-false→le size _ t))
  ]

  player_id-Fits : Fits 1 size (write_player_id size conn)
  unfolding write_player_id
  player_id-Fits =
      bind-Fits 1 size (own_person (session conn)) _ (own_person-Followed (session conn)) (λ p.
        wrote-Fits size player_id_command (uint64_item p.id ∷ uint8_item p.player_num ∷ []) conn)

  -- A writer that reads the conversation.
  reads-Fits :
      (k : ℕ) (f : Conversation → Result (Option (List ℕ × Connection C Session)))
      → ((c : Conversation) → Fits k size (f c))
      → Fits k size (own_conversation (session conn) >>= f)
  reads-Fits k f h =
      bind-Fits k size (own_conversation (session conn)) f
        (own_conversation-Followed (session conn)) h

  conversation_id-Fits : Fits 1 size (write_conversation_id size conn)
  unfolding write_conversation_id
  conversation_id-Fits =
      reads-Fits 1 _ (λ c. wrote-Fits size conversation_id_command (uint64_item c.id ∷ []) conn)

  n_tiles-Fits : Fits 1 size (write_n_tiles size conn)
  unfolding write_n_tiles
  n_tiles-Fits =
      reads-Fits 1 _ (λ c. wrote-Fits size n_tiles_command (uint8_item c.total_n_tiles ∷ []) conn)

  language-Fits : Fits 1 size (write_language size conn)
  unfolding write_language
  language-Fits = reads-Fits 1 _ (λ c.
      bind-Fits 1 size (present (get_elem? vsx_tile_data c.tile_data)) _
        (present-Followed (get_elem? vsx_tile_data c.tile_data))
        (λ d. wrote-Fits size language_command (string_item d.language_code ∷ []) conn))

  weakly :
      (command : ℕ) (items : List Item) (conn' : Connection C Session)
      → Fits 0 size (wrote (write_command size command items) conn')
  weakly command items conn' =
      Fits-weaken size (wrote (write_command size command items) conn')
        (wrote-Fits size command items conn')

  player_name-Fits : Fits 0 size (write_player_name size conn)
  unfolding write_player_name
  player_name-Fits = elim (Bool-cases (has_person (client conn))) [
    | inr e ↦ rw e (omega arith, omega arith)
    | inl e ↦ rw e (
        reads-Fits 0 _ (λ c. elim (Option-cases (get_elem? c.players (client conn).named_players)) [
          | inl g ↦ rw g (omega arith, omega arith)
          | inr (p, g) ↦ rw g (
              weakly player_name_command
                (uint8_item (client conn).named_players ∷ string_item p.name ∷ [])
                (set_client
                  (record (client conn) { named_players = (client conn).named_players + 1 }) conn))
        ]))
  ]

  message-Fits : Fits 0 size (write_message size conn)
  unfolding write_message
  message-Fits = elim (Bool-cases (has_person (client conn))) [
    | inr e ↦ rw e (omega arith, omega arith)
    | inl e ↦ rw e (
        reads-Fits 0 _ (λ c. elim (Option-cases (get_elem? c.messages (client conn).message_num)) [
          | inl g ↦ rw g (omega arith, omega arith)
          | inr (m, g) ↦ rw g (
              weakly message_command (uint8_item m.player_num ∷ string_item m.text ∷ []) (
                set_client (record (client conn) { message_num = (client conn).message_num + 1 })
                  conn))
        ]))
  ]

  -- Where a player is dirty, something is written.
  pub player_some-Fits :
      (n : ℕ)
      → first_set (client conn).dirty_players ≡ some n
      → Fits 1 size (write_player size conn)
  unfolding write_player
  player_some-Fits n e =
      rw (write_player, e)
        (reads-Fits 1 _ (λ c.
          bind-Fits 1 size (present (get_elem? c.players n)) _
            (present-Followed (get_elem? c.players n))
            (λ p. wrote-Fits size player_command (uint8_item n ∷ uint8_item p.flags ∷ []) _)))

  player-Fits : Fits 0 size (write_player size conn)
  unfolding write_player
  player-Fits = elim (Option-cases (first_set (client conn).dirty_players)) [
    | inl e ↦ rw (write_player, e) (omega arith, omega arith)
    | inr (n, e) ↦ Fits-weaken size (write_player size conn) (player_some-Fits n e)
  ]

  pub tile_some-Fits :
      (n : ℕ) → first_set (client conn).dirty_tiles ≡ some n → Fits 1 size (write_tile size conn)
  unfolding write_tile
  tile_some-Fits n e =
      rw (write_tile, e)
        (reads-Fits 1 _ (λ c.
          bind-Fits 1 size (present (get_elem? c.tiles n)) _
            (present-Followed (get_elem? c.tiles n))
            (λ t.
              wrote-Fits size tile_command
                (uint8_item n
                  ∷ int16_item t.x
                  ∷ int16_item t.y
                  ∷ string_item t.letter
                  ∷ uint8_item (to_bits t.last_player)
                  ∷ [])
                _)))

  tile-Fits : Fits 0 size (write_tile size conn)
  unfolding write_tile
  tile-Fits = elim (Option-cases (first_set (client conn).dirty_tiles)) [
    | inl e ↦ rw (write_tile, e) (omega arith, omega arith)
    | inr (n, e) ↦ Fits-weaken size (write_tile size conn) (tile_some-Fits n e)
  ]

  end-Fits : Fits 0 size (write_end size conn)
  unfolding write_end
  end-Fits = elim (Bool-cases (has_person (client conn))) [
    | inr e ↦ rw e (omega arith, omega arith)
    | inl e ↦ rw e (
        bind-Fits 0 size (own_player (session conn)) _ (own_player-Followed (session conn)) (λ p.
          elim (Bool-cases (is_connected p)) [
            | inl on ↦ rw on (omega arith, omega arith)
            | inr off ↦ rw off (weakly end_command [] (record conn { state = done }))
          ]))
  ]

  pub write_with-Fits : (w : Writer) → Fits 0 size (write_with w size conn)
  unfolding write_with
  write_with-Fits ws_response_writer =
      Fits-weaken size (write_ws_response size conn) ws_response-Fits
  write_with-Fits pong_writer = Fits-weaken size (write_pong size conn) pong-Fits
  write_with-Fits player_id_writer = Fits-weaken size (write_player_id size conn) player_id-Fits
  write_with-Fits conversation_id_writer =
      Fits-weaken size (write_conversation_id size conn) conversation_id-Fits
  write_with-Fits n_tiles_writer = Fits-weaken size (write_n_tiles size conn) n_tiles-Fits
  write_with-Fits language_writer = Fits-weaken size (write_language size conn) language-Fits
  write_with-Fits player_name_writer = player_name-Fits
  write_with-Fits player_writer = player-Fits
  write_with-Fits pending_shout_writer =
      weakly player_shouted_command (uint8_item (client conn).pending_shout ∷ []) conn
  write_with-Fits tile_writer = tile-Fits
  write_with-Fits message_writer = message-Fits
  write_with-Fits end_writer = end-Fits
  write_with-Fits sync_writer = weakly sync_command [] conn
  write_with-Fits pending_error_writer =
      weakly (client conn).pending_error [] (record conn { state = done })

  -- A writer that has a flag writes something.
  abbrev pub Writes : WriteFunc → Type 0
  Writes f = (flag : Flag) → f.flag ≡ some flag → Fits 1 size (write_with f.func size conn)

  abbrev writes_none : (w : Writer) → Writes (record { flag = none; func = w })
  writes_none w = λ flag e. absurd (none-ne-some flag e)

  pub write_funcs-Writes : All Writes write_funcs
  unfolding write_funcs write_with write_pending_shout write_sync write_pending_error
  write_funcs-Writes = (
    (λ flag e. ws_response-Fits),
    (
      (λ flag e. pong-Fits),
      (
        (λ flag e. player_id-Fits),
        (
          (λ flag e. conversation_id-Fits),
          (
            (λ flag e. n_tiles-Fits),
            (
              (λ flag e. language-Fits),
              (
                writes_none player_name_writer,
                (
                  writes_none player_writer,
                  (
                    (λ flag e.
                        wrote-Fits size player_shouted_command
                          (uint8_item (client conn).pending_shout ∷ []) conn),
                    (
                      writes_none tile_writer,
                      (
                        writes_none message_writer,
                        (
                          writes_none end_writer,
                          (
                            (λ flag e. wrote-Fits size sync_command [] conn),
                            ((
                              λ flag e.
                                  (wrote-Fits size (client conn).pending_error []
                                    (record conn { state = done })),
                              tt,
                            )),
                          ),
                        ),
                      ),
                    ),
                  ),
                ),
              ),
            ),
          ),
        ),
      ),
    ),
  )
