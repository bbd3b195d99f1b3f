-- ===== src/Server/Drained.antt =====
-- When the loop that fills the buffer stops, everything was sent or the next message does not fit.
use verda_sxtelo.Common.{
  ℕ, zero, suc, ◌+◌, ◌-◌, ◌≡◌, ◌≢◌, refl, subst, arith, true, false, Option, some, Option-cases,
  List, [], ◌∷◌, ◌++◌, length, length-append, get_elem?, All, Bool-cases, inl, inr, ◌⊎◌, ltb,
  lt→ltb-false,
}
use verda_sxtelo.Proto.{uint8_item, string_item, write_command}
use verda_sxtelo.Conversation.{Conversation}
use verda_sxtelo.Bitmask.{first_set, any_set}
use verda_sxtelo.Frames.{Result, ok, refused, overrun, endless, ◌>>=◌}
use verda_sxtelo.Frames.Bytes.{bind_ok}
use verda_sxtelo.Connection.{Connection}
use verda_sxtelo.Server.{Session}
use verda_sxtelo.Server.Own.{has_person, own_conversation}
use verda_sxtelo.Server.Pending.{
  ws_header_flag, pong_flag, player_id_flag, conversation_id_flag, n_tiles_flag, language_flag,
  shout_flag, sync_flag, error_flag, session, client, set_client, any_flag, has_news,
  has_pending_data,
}
use verda_sxtelo.Server.Writers.{
  wrote, write_player_name, write_player, write_tile, write_message, player_name_command,
  message_command,
}
use verda_sxtelo.Server.Output.{
  Writer, player_name_writer, player_writer, tile_writer, message_writer, Round, drained, full,
  found, after_round, is_writing, prepend, write_with, try_funcs, write_funcs, fill_loop,
  fill_output_buffer, has_data,
}
use verda_sxtelo.Server.Fits.{player_some-Fits, tile_some-Fits}
use verda_sxtelo.Server.Followed.{Fits, wrote-Fits}
use verda_sxtelo.Server.Told.{first_set-none, get_elem?-none, Blocked, Idle, Told, try_funcs-Told}

-- A message that was written is not empty.
module _ {C : Type 0} (size : ℕ) (conn conn' : Connection C Session) where
  not_empty :
      (r : Result (Option (List ℕ × Connection C Session)))
      → Fits 1 size r
      → r ≢ ok (some ([], conn'))
  not_empty r h e = absurd (omega (arith, (subst (Fits 1 size) e h).0))

  idle_player :
      write_player size conn ≡ ok (some ([], conn')) → any_set (client conn).dirty_players ≡ false
  idle_player h = elim (Option-cases (first_set (client conn).dirty_players)) [
    | inl e ↦ first_set-none (client conn).dirty_players e
    | inr (n, e) ↦ absurd (not_empty (write_player size conn) (player_some-Fits size conn n e) h)
  ]

  idle_tile :
      write_tile size conn ≡ ok (some ([], conn')) → any_set (client conn).dirty_tiles ≡ false
  idle_tile h = elim (Option-cases (first_set (client conn).dirty_tiles)) [
    | inl e ↦ first_set-none (client conn).dirty_tiles e
    | inr (n, e) ↦ absurd (not_empty (write_tile size conn) (tile_some-Fits size conn n e) h)
  ]

  idle_name :
      (c : Conversation)
      → has_person (client conn) ≡ true
      → own_conversation (session conn) ≡ ok c
      → write_player_name size conn ≡ ok (some ([], conn'))
      → ltb (client conn).named_players (length c.players) ≡ false
  unfolding write_player_name
  idle_name c p o h = elim (Option-cases (get_elem? c.players (client conn).named_players)) [
    | inl e ↦
        lt→ltb-false (client conn).named_players (length c.players)
          (omega (arith, get_elem?-none c.players (client conn).named_players e))
    | inr (q, e) ↦
        let next =
          set_client (record (client conn) { named_players = (client conn).named_players + 1 })
            conn in
        let items = uint8_item (client conn).named_players ∷ string_item q.name ∷ [] in
        absurd (
          not_empty (wrote (write_command size player_name_command items) next)
            (wrote-Fits size player_name_command items next) (rw (p, o, ◌>>=◌, e) at h))
  ]

  idle_message :
      (c : Conversation)
      → has_person (client conn) ≡ true
      → own_conversation (session conn) ≡ ok c
      → write_message size conn ≡ ok (some ([], conn'))
      → ltb (client conn).message_num (length c.messages) ≡ false
  unfolding write_message
  idle_message c p o h = elim (Option-cases (get_elem? c.messages (client conn).message_num)) [
    | inl e ↦
        lt→ltb-false (client conn).message_num (length c.messages)
          (omega (arith, get_elem?-none c.messages (client conn).message_num e))
    | inr (m, e) ↦
        let next =
          set_client (record (client conn) { message_num = (client conn).message_num + 1 }) conn in
        let items = uint8_item m.player_num ∷ string_item m.text ∷ [] in
        absurd (
          not_empty (wrote (write_command size message_command items) next)
            (wrote-Fits size message_command items next) (rw (p, o, ◌>>=◌, e) at h))
  ]

-- Nothing is left to write where all the writers have nothing to do.
module _ {C : Type 0} (size : ℕ) (conn : Connection C Session) where
  abbrev Quiet : Writer → Type 0
  Quiet w = (conn' : Connection C Session) × (write_with w size conn ≡ ok (some ([], conn')))

  no_news :
      Quiet player_name_writer
      → Quiet message_writer
      → has_person (client conn) ≡ true
      → (own_conversation (session conn) >>= λ c. ok (has_news (client conn) c)) ≡ ok false
  unfolding write_with write_player_name has_news
  no_news (n, name) (m, message) p =
      let (c, o, r) = bind_ok (own_conversation (session conn)) _ _ (rw p at name) in
      rw (o, idle_name size conn n c p o name, idle_message size conn m c p o message) refl

  quiet_lem :
      any_flag conn ≡ false
      → Quiet player_name_writer
      → Quiet player_writer
      → Quiet tile_writer
      → Quiet message_writer
      → has_pending_data conn ≡ ok false
  unfolding has_pending_data write_with
  quiet_lem f name (a, player) (b, tile) message = elim (Bool-cases (has_person (client conn))) [
    | inr e ↦ rw (f, idle_player size conn a player, idle_tile size conn b tile, e) refl
    | inl e ↦
        rw (f, idle_player size conn a player, idle_tile size conn b tile, e)
          (no_news name message e)
  ]

  All-Quiet : All (Idle size conn) write_funcs → has_pending_data conn ≡ ok false
  unfolding write_funcs any_flag
  All-Quiet
        (i, (j, (k, (l, (m, (n, (name, (player, (s, (tile, (message, (e, (y, (r, u)))))))))))))) =
      quiet_lem
        (rw
          (
            i.0 ws_header_flag refl,
            j.0 pong_flag refl,
            k.0 player_id_flag refl,
            l.0 conversation_id_flag refl,
            m.0 n_tiles_flag refl,
            n.0 language_flag refl,
            s.0 shout_flag refl,
            y.0 sync_flag refl,
            r.0 error_flag refl,
          )
          refl)
        (name.1 refl) (player.1 refl) (tile.1 refl) (message.1 refl)

module _ {C : Type 0} where
  -- The connection that is left, with the space that is left: it has no data, or the next
  -- message is longer than the space.
  abbrev pub Settled : ℕ → Connection C Session → Type 0
  Settled size conn = (has_data conn ≡ ok false) ⊎ Blocked write_funcs size conn

  abbrev SettledWith : ℕ → Result (List ℕ × Connection C Session) → Type 0
  SettledWith size (ok (bytes, conn)) = Settled (size - length bytes) conn
  SettledWith size refused = Unit {0}
  SettledWith size overrun = Unit {0}
  SettledWith size endless = Unit {0}

  prepend-SettledWith :
      (size : ℕ) (bytes : List ℕ) (r : Result (List ℕ × Connection C Session))
      → SettledWith (size - length bytes) r
      → SettledWith size (r >>= λ r. ok (prepend bytes r))
  prepend-SettledWith size bytes (ok (more, conn)) h =
      let e : size - length bytes - length more ≡ size - length (bytes ++ more) =
        omega (arith, length-append bytes more) in
      subst (λ k. Settled k conn) e h
  prepend-SettledWith size bytes refused h = tt
  prepend-SettledWith size bytes overrun h = tt
  prepend-SettledWith size bytes endless h = tt

  after_round-SettledWith :
      (size : ℕ) (again : ℕ → Connection C Session → Result (List ℕ × Connection C Session))
      (conn : Connection C Session) (r : Result (Round C))
      → is_writing conn ≡ true
      → Told write_funcs size conn r
      → ((k : ℕ) (conn' : Connection C Session) → SettledWith k (again k conn'))
      → SettledWith size (r >>= after_round size again conn)
  unfolding after_round has_data
  after_round-SettledWith size again conn (ok drained) w t k =
      inl (rw (has_data, w) (All-Quiet size conn t))
  after_round-SettledWith size again conn (ok full) w t k =
      let e : size ≡ size - 0 = omega arith in inr (subst (λ k. Blocked write_funcs k conn) e t)
  after_round-SettledWith size again conn (ok (found bytes conn')) w t k =
      prepend-SettledWith size bytes (again (size - length bytes) conn')
        (k (size - length bytes) conn')
  after_round-SettledWith size again conn refused w t k = tt
  after_round-SettledWith size again conn overrun w t k = tt
  after_round-SettledWith size again conn endless w t k = tt

  fill_loop-SettledWith :
      (fuel size : ℕ) (conn : Connection C Session) → SettledWith size (fill_loop fuel size conn)
  unfolding fill_loop has_data
  fill_loop-SettledWith zero size conn = tt
  fill_loop-SettledWith (suc fuel) size conn = elim (Bool-cases (is_writing conn)) [
    | inr e ↦ rw (fill_loop, e) (inl (rw e refl))
    | inl e ↦
        rw (fill_loop, e)
          (after_round-SettledWith size (fill_loop fuel) conn (try_funcs write_funcs size conn) e
            (try_funcs-Told write_funcs size conn) (fill_loop-SettledWith fuel))
  ]

  -- When filling the output buffer returns, the connection that it leaves has no data to send any
  -- more, by the test that the main loop makes, or it is blocked: the functions that write
  -- messages have nothing to do up to the first one that is due, one whose flag is set or that
  -- has no flag, and the message that this one writes, if it is given the space, is longer than
  -- the space that is left of the buffer.
  pub fill_output_buffer-Settled :
      (buffer_size : ℕ) (bytes : List ℕ) (conn conn' : Connection C Session)
      → fill_output_buffer buffer_size conn ≡ ok (bytes, conn')
      → Settled (buffer_size - length bytes) conn'
  unfolding fill_output_buffer
  fill_output_buffer-Settled buffer_size bytes conn conn' e =
      subst (SettledWith buffer_size) e (fill_loop-SettledWith (buffer_size + 1) buffer_size conn)
