-- ===== src/Conversation/Players/Keeps.antt =====
-- Players that join and leave keep the invariant.
use verda_sxtelo.Common.{
  ℕ, ◌+◌, ◌-◌, ◌≤◌, ◌<◌, ◌≡◌, refl, ◌∙◌, ap, arith, true, false, some, List, length, length-set,
  get_elem?, get_elem?-set_self, set, All, Bool-cases, inl, inr,
}
use verda_sxtelo.Common.Count.{bit, count, count-set, bit-le-count, All-set, get_elem?_lt}
use verda_sxtelo.Player.{Player, is_connected, has_next_turn}
use verda_sxtelo.Player.Flags.{IsFlags, no_flags}
use verda_sxtelo.Conversation.{Conversation, World, player, n_players, max_players, store_flags}
use verda_sxtelo.Conversation.Valid.{
  IsValid, IsSound, HasFlags, Numbered, with_players, Numbered-set, store_flags_lem, Returns,
  players-IsValid,
}
use verda_sxtelo.Conversation.Players.{set_next_player, disconnect, player_left}
use verda_sxtelo.Conversation.Players.NextTurn.{player-some}
use verda_sxtelo.Conversation.Players.Passing.{set_next_player-Settled}

zero-IsFlags : IsFlags 0
zero-IsFlags = record { small = omega arith; left = λ h. refl }

-- The flags of a player that leaves are cleared.
record Left (ps : List Player) (i : ℕ) (p : Player) : Type 0 where
  same_length : length (set ps i (record p { flags = 0 })) ≡ length ps
  flags : All HasFlags (set ps i (record p { flags = 0 }))
  one_less :
      count is_connected (set ps i (record p { flags = 0 })) + bit (is_connected p)
      ≡ count is_connected ps
  turns :
      count has_next_turn (set ps i (record p { flags = 0 })) + bit (has_next_turn p)
      ≡ count has_next_turn ps
  gone : get_elem? (set ps i (record p { flags = 0 })) i ≡ some (record p { flags = 0 })

left_lem :
    (ps : List Player) (i : ℕ) (p : Player)
    → get_elem? ps i ≡ some p
    → All HasFlags ps
    → Left ps i p
left_lem ps i p e a = record {
  same_length = length-set ps i _;
  flags = All-set HasFlags ps i _ a zero-IsFlags;
  one_less =
      omega (arith, count-set is_connected ps i p (record p { flags = 0 }) e, ap bit (no_flags.0));
  turns =
      omega (arith, count-set has_next_turn ps i p (record p { flags = 0 }) e, ap bit (no_flags.1));
  gone = get_elem?-set_self ps i _ (get_elem?_lt ps i p e);
}

-- The state between clearing the flags and counting the player out.
record Clearing (i : ℕ) (p : Player) (w : World) (c : Conversation) : Type 0 where
  players : List Player
  conversation : c ≡ with_players w.conversation players
  few : length players ≤ max_players
  numbered : Numbered 0 players
  flags : All HasFlags players
  one_less : count is_connected players + 1 ≡ count is_connected w.conversation.players
  one_turn : count has_next_turn players ≤ 1
  no_turn : w.conversation.n_tiles_in_play ≡ 0 → count has_next_turn players ≡ 0
  held :
      0 < w.conversation.n_tiles_in_play
      → w.conversation.n_tiles_in_play < w.conversation.total_n_tiles
      → 0 < count is_connected players
      → 1 ≤ count has_next_turn players

module _ (i : ℕ) (p : Player) (w : World) (here : player i w ≡ some p) (s : IsSound w.conversation)
    (on : is_connected p ≡ true) where
  -- Without the turn, clearing the flags is all.
  cleared : has_next_turn p ≡ false → Clearing i p w (store_flags i p 0 w).conversation
  unfolding player
  cleared off =
      let v = s.valid in
      let l = left_lem w.conversation.players i p here v.flags in
      record {
        players = set w.conversation.players i (record p { flags = 0 });
        conversation = store_flags_lem i 0 p w here;
        few = omega (arith, l.same_length, v.few);
        numbered = Numbered-set 0 w.conversation.players i 0 p here v.numbered;
        flags = l.flags;
        one_less = omega (arith, l.one_less, ap bit on);
        one_turn = omega (arith, l.turns, v.one_turn);
        no_turn = λ z. omega (arith, l.turns, v.no_turn z);
        held = λ z lt k.
            omega (
              arith,
              l.turns,
              ap bit off,
              s.turn.held z lt (omega (arith, v.connected, l.one_less)),
            );
      }

  -- With the turn, it is passed on as well.
  passed_on :
      has_next_turn p ≡ true
      → (w' : World) × (set_next_player i (store_flags i p 0 w) ≡ some w')
        × Clearing i p w w'.conversation
  unfolding player
  passed_on turn =
      let v = s.valid in
      let ps = w.conversation.players in
      let l = left_lem ps i p here v.flags in
      let e = store_flags_lem i 0 p w here in
      let was_one = bit-le-count has_next_turn ps i p here in
      let (w', r, t) =
        set_next_player-Settled i (record p { flags = 0 }) (store_flags i p 0 w) (rw e l.gone)
          (rw e l.flags) (rw e (omega (arith, l.turns, v.one_turn, ap bit turn))) in
      let in_play = ap (λ (c : Conversation). c.n_tiles_in_play) e in
      let total = ap (λ (c : Conversation). c.total_n_tiles) e in
      let conn = ap (λ (c : Conversation). count is_connected c.players) e in
      let len = ap (λ (c : Conversation). length c.players) e in
      (
        w',
        r,
        record {
          players = t.players;
          conversation = t.conversation ∙ ap (λ c. with_players c t.players) e;
          few = omega (arith, t.reflagged.same_length, len, l.same_length, v.few);
          numbered = t.reflagged.numbered (rw e (Numbered-set 0 ps i 0 p here v.numbered));
          flags = t.reflagged.flags;
          one_less = omega (arith, t.reflagged.same_connected, conn, l.one_less, ap bit on);
          one_turn = t.one_turn;
          no_turn = λ z. absurd (omega (arith, v.no_turn z, was_one, ap bit turn));
          held = λ z lt k. omega (
            arith,
            t.goes_on (omega (arith, in_play, total))
                (omega (arith, ap bit (no_flags.0), t.reflagged.same_connected)),
          );
        },
      )

-- Counting the player out.
disconnect-IsSound :
    (i : ℕ) (p : Player) (w w' : World)
    → IsValid w.conversation
    → Clearing i p w w'.conversation
    → IsSound (disconnect w').conversation
unfolding disconnect
disconnect-IsSound i p w w' v c = rw c.conversation (record {
  valid =
      players-IsValid w.conversation c.players (w.conversation.n_connected_players - 1) v c.few
        c.numbered c.flags (omega (arith, c.one_less, v.connected)) c.one_turn c.no_turn;
  turn = record { held = λ z lt k. c.held z lt (omega (arith, c.one_less, v.connected)) };
})

module _ (i : ℕ) (w : World) where
  pub left_off :
      (p : Player) → player i w ≡ some p → is_connected p ≡ false → player_left i w ≡ some w
  unfolding player_left
  left_off p e off = rw (e, off)

  left_plain :
      (p : Player)
      → player i w ≡ some p
      → is_connected p ≡ true
      → has_next_turn p ≡ false
      → player_left i w ≡ some (disconnect (store_flags i p 0 w))
  unfolding player_left
  left_plain p e on off = rw (e, on, off)

  left_turn :
      (p : Player) (w' : World)
      → player i w ≡ some p
      → is_connected p ≡ true
      → has_next_turn p ≡ true
      → set_next_player i (store_flags i p 0 w) ≡ some w'
      → player_left i w ≡ some (disconnect w')
  unfolding player_left
  left_turn p w' e on turn r = rw (e, on, turn, r)

  -- Any player of a conversation that keeps the invariant can leave at any time: the call
  -- returns, and keeps the invariant. In particular, once the first tile is on the board,
  -- somebody has the turn while there are tiles to turn and somebody is still connected.
  pub player_left-IsSound :
      i < n_players w.conversation → IsSound w.conversation → Returns (player_left i w) IsSound
  player_left-IsSound h s =
      let (p, e) = player-some i w h in
      elim (Bool-cases (is_connected p)) [
        | inr off ↦ record { after = w; result = left_off p e off; holds = s }
        | inl on ↦ elim (Bool-cases (has_next_turn p)) [
          | inr off ↦ record {
            after = disconnect (store_flags i p 0 w);
            result = left_plain p e on off;
            holds =
                disconnect-IsSound i p w (store_flags i p 0 w) s.valid (cleared i p w e s on off);
          }
          | inl turn ↦
              let (w', r, c) = passed_on i p w e s on turn in
              record {
                after = disconnect w';
                result = left_turn p w' e on turn r;
                holds = disconnect-IsSound i p w w' s.valid c;
              }
        ]
      ]
