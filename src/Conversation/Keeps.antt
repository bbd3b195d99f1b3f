-- ===== src/Conversation/Keeps.antt =====
-- The invariant of a conversation through its creation, messages, typing, shouts, options and
-- moved tiles. For turns, joining and leaving see `Tiles.Turn` and `Players`.
use verda_sxtelo.Common.{
  ℕ, ◌≤◌, ◌<◌, ◌≡◌, refl, ◌∙◌, ap, arith, Bool, true, ◌&&◌, none, some, List, [], ◌∷◌, ◌++◌, take,
  set, length, length-set, length-replicate, ◌⊎◌, inl, inr, ◌==◌, Bool-cases,
}
use verda_sxtelo.Common.Count.{bit, count, count-set, get_elem?-some, All-get_elem?}
use verda_sxtelo.Common.Int.{ℤ, pos, to_int16, ◌==ℤ◌}
use verda_sxtelo.Tile.{Tile}
use verda_sxtelo.TileData.{n_rooms, n_tiles}
use verda_sxtelo.Player.{Player, typing, is_connected, has_next_turn, change_flag}
use verda_sxtelo.Player.Flags.{change_typing}
use verda_sxtelo.Conversation.{
  Conversation, World, Message, new, emit, shouted, message_added, n_tiles_changed,
  tile_data_changed, tile_changed, blank_tile, player, n_players, store_flags,
}
use verda_sxtelo.Conversation.Valid.{
  IsSound, HasFlags, set-Reflagged, with_players, Returns, players-IsValid, store_flags_lem,
  State-cases, typing-IsFlags,
}
use verda_sxtelo.Conversation.Players.NextTurn.{player-some}
use verda_sxtelo.Conversation.Talk.{raw_length, add_message, set_typing, is_shouting, shout}
use verda_sxtelo.Conversation.Options.{has_started, clamp_n_tiles, set_n_tiles, set_tile_data}
use verda_sxtelo.Conversation.Tiles.{move_tile}

-- What stays out of the invariant can change; the number of tiles only before the first turn.
frame-IsSound :
    (c : Conversation) (ms : List Message) (ts : List Tile) (time lang total : ℕ)
    → IsSound c
    → length ts ≡ 122
    → lang < n_rooms
    → (total ≡ c.total_n_tiles) ⊎ (c.n_tiles_in_play ≡ 0) × (1 ≤ total) × (total ≤ 122)
    → IsSound (record c {
      messages = ms;
      tiles = ts;
      last_shout_time = time;
      tile_data = lang;
      total_n_tiles = total;
    })
frame-IsSound c ms ts time lang total s l h k = record {
  valid = record {
    few = s.valid.few;
    numbered = s.valid.numbered;
    flags = s.valid.flags;
    connected = s.valid.connected;
    bag = l;
    language = h;
    played = omega (arith, s.valid.played);
    some_tiles = omega (arith, s.valid.some_tiles);
    all_tiles = omega (arith, s.valid.all_tiles);
    unstarted = s.valid.unstarted;
    one_turn = s.valid.one_turn;
    no_turn = s.valid.no_turn;
  };
  turn = record { held = held k };
}
  where
    held :
        (total ≡ c.total_n_tiles) ⊎ (c.n_tiles_in_play ≡ 0) × (1 ≤ total) × (total ≤ 122)
        → 0 < c.n_tiles_in_play
        → c.n_tiles_in_play < total
        → 0 < c.n_connected_players
        → 1 ≤ count has_next_turn c.players
    held (inl e) z lt on = s.turn.held z (omega arith) on
    held (inr e) z lt on = absurd (omega arith)

-- A new conversation satisfies the invariant.
pub new-IsSound :
    (id tile_data next_log_id : ℕ) → tile_data < n_rooms → IsSound (new id tile_data next_log_id).0
unfolding new
new-IsSound id tile_data next_log_id h = record {
  valid = record {
    few = omega arith;
    numbered = tt;
    flags = tt;
    connected = refl;
    bag = length-replicate 122 blank_tile;
    language = h;
    played = omega arith;
    some_tiles = omega arith;
    all_tiles = omega arith;
    unstarted = λ e. refl;
    one_turn = omega arith;
    no_turn = λ e. refl;
  };
  turn = record { held = λ z lt on. absurd (omega arith) };
}

module _ (i : ℕ) (w : World) (h : i < n_players w.conversation) (s : IsSound w.conversation) where
  abbrev to : Conversation → World
  to c = record w { conversation = c }

  -- Any player can shout at any time.
  pub shout-IsSound : (clock : ℕ) → Returns (shout clock i w) IsSound
  unfolding shout emit
  shout-IsSound clock =
      let (p, e) = player-some i w h in
      let c = w.conversation in
      elim (Bool-cases (is_connected p)) [
        | inr off ↦ record { after = w; result = rw (e, off); holds = s }
        | inl on ↦ elim (Bool-cases (is_shouting clock c)) [
          | inl loud ↦ record { after = w; result = rw (e, on, loud); holds = s }
          | inr quiet ↦ record {
            after = emit shouted (some i) (to (record c { last_shout_time = clock }));
            result = rw (e, on, quiet);
            holds =
                frame-IsSound c c.messages c.tiles clock c.tile_data c.total_n_tiles s s.valid.bag
                  s.valid.language (inl refl);
          }
        ]
      ]

  -- Any player can add any message of which a part can be kept.
  pub add_message-IsSound :
      (buffer : List ℕ) (n : ℕ)
      → raw_length buffer ≡ some n
      → Returns (add_message i buffer w) IsSound
  unfolding add_message emit
  add_message-IsSound buffer n k =
      let (p, e) = player-some i w h in
      let c = w.conversation in
      elim (Bool-cases (is_connected p)) [
        | inr off ↦ record { after = w; result = rw (e, off); holds = s }
        | inl on ↦ record {
          after = emit message_added none (
              to (record c {
                messages = c.messages ++ (record { player_num = i; text = take n buffer } ∷ []);
              }));
          result = rw (e, on, k);
          holds =
              frame-IsSound c (c.messages ++ (record { player_num = i; text = take n buffer } ∷ []))
                c.tiles c.last_shout_time c.tile_data c.total_n_tiles s s.valid.bag s.valid.language
                (inl refl);
        }
      ]

  -- Any player can choose any number of tiles; it takes effect only before the start.
  pub set_n_tiles-IsSound : (n : ℤ) → Returns (set_n_tiles i n w) IsSound
  unfolding set_n_tiles emit has_started clamp_n_tiles
  set_n_tiles-IsSound n =
      let (p, e) = player-some i w h in
      let c = w.conversation in
      elim (Bool-cases (is_connected p)) [
        | inr off ↦ record { after = w; result = rw (e, off); holds = s }
        | inl on ↦ elim (State-cases c.state) [
          | inr started ↦ record { after = w; result = rw (e, on, started); holds = s }
          | inl waiting ↦ elim (Bool-cases (clamp_n_tiles n == c.total_n_tiles)) [
            | inl same ↦ record { after = w; result = rw (e, on, waiting, same); holds = s }
            | inr other ↦ record {
              after = emit n_tiles_changed none (to (record c { total_n_tiles = clamp_n_tiles n }));
              result = rw (e, on, waiting, other);
              holds =
                  frame-IsSound c c.messages c.tiles c.last_shout_time c.tile_data (clamp_n_tiles n)
                    s s.valid.bag s.valid.language
                    (inr (s.valid.unstarted waiting, omega arith, omega arith));
            }
          ]
        ]
      ]

  -- Any player can choose a language of the table; it takes effect only before the start.
  pub set_tile_data-IsSound : (lang : ℕ) → lang < n_rooms → Returns (set_tile_data i lang w) IsSound
  unfolding set_tile_data emit has_started
  set_tile_data-IsSound lang l =
      let (p, e) = player-some i w h in
      let c = w.conversation in
      elim (Bool-cases (is_connected p)) [
        | inr off ↦ record { after = w; result = rw (e, off); holds = s }
        | inl on ↦ elim (State-cases c.state) [
          | inr started ↦ record { after = w; result = rw (e, on, started); holds = s }
          | inl waiting ↦ elim (Bool-cases (c.tile_data == lang)) [
            | inl same ↦ record { after = w; result = rw (e, on, waiting, same); holds = s }
            | inr other ↦ record {
              after = emit tile_data_changed none (to (record c { tile_data = lang }));
              result = rw (e, on, waiting, other);
              holds =
                  frame-IsSound c c.messages c.tiles c.last_shout_time lang c.total_n_tiles s
                    s.valid.bag l (inl refl);
            }
          ]
        ]
      ]

  -- Any tile of the bag can be moved anywhere.
  pub move_tile-IsSound :
      (tile_num : ℕ) (x y : ℤ) → tile_num < n_tiles → Returns (move_tile i tile_num x y w) IsSound
  unfolding move_tile emit
  move_tile-IsSound tile_num x y l =
      let c = w.conversation in
      let (t, e) = get_elem?-some c.tiles tile_num (omega (arith, s.valid.bag)) in
      let t' : Tile = record t { x = to_int16 x; y = to_int16 y; last_player = to_int16 (pos i) } in
      elim (Bool-cases ((t.x ==ℤ x) && (t.y ==ℤ y))) [
        | inl same ↦ record { after = w; result = rw (e, same); holds = s }
        | inr other ↦ record {
          after =
              emit tile_changed (some tile_num) (to (record c { tiles = set c.tiles tile_num t' }));
          result = rw (e, other);
          holds =
              frame-IsSound c c.messages (set c.tiles tile_num t') c.last_shout_time c.tile_data
                c.total_n_tiles s (length-set c.tiles tile_num t' ∙ s.valid.bag) s.valid.language
                (inl refl);
        }
      ]

  -- Any player can start and stop typing.
  pub set_typing-IsSound : (value : Bool) → Returns (set_typing i value w) IsSound
  unfolding set_typing player
  set_typing-IsSound value =
      let (p, e) = player-some i w h in
      elim (Bool-cases (is_connected p)) [
        | inr off ↦ record { after = w; result = rw (e, off); holds = s }
        | inl on ↦
            let f = change_flag p.flags typing value in
            record {
              after = store_flags i p f w;
              result = rw (e, on);
              holds = rw (store_flags_lem i f p w e) (typed value p e on);
            }
      ]
    where
      typed :
          (value : Bool) (p : Player)
          → player i w ≡ some p
          → is_connected p ≡ true
          → IsSound (
              with_players w.conversation (
                set w.conversation.players i
                  (record p { flags = change_flag p.flags typing value })))
      typed value p e on =
          let c = w.conversation in
          let k = All-get_elem? HasFlags c.players i p s.valid.flags e in
          let g = change_typing p.flags value k.small in
          let p' : Player = record p { flags = change_flag p.flags typing value } in
          let r =
            set-Reflagged c.players i (change_flag p.flags typing value) p e s.valid.flags
              (typing-IsFlags p.flags value k on) g.same_connected in
          let turns = count-set has_next_turn c.players i p p' e in
          let same : count has_next_turn (set c.players i p') ≡ count has_next_turn c.players =
            omega (arith, turns, ap bit g.next_turn_is) in
          record {
            valid =
                players-IsValid c (set c.players i p') c.n_connected_players s.valid
                  (omega (arith, r.same_length, s.valid.few)) (r.numbered s.valid.numbered) r.flags
                  (omega (arith, r.same_connected, s.valid.connected))
                  (omega (arith, same, s.valid.one_turn))
                  (λ z. omega (arith, same, s.valid.no_turn z));
            turn = record { held = λ z lt on. omega (arith, same, s.turn.held z lt on) };
          }
