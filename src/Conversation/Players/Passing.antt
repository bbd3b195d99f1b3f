-- ===== src/Conversation/Players/Passing.antt =====
-- What `set_next_player` leaves: how many players have the turn.
use verda_sxtelo.Common.{
  ℕ, ◌+◌, ◌≤◌, ◌<◌, ◌≡◌, ◌≢◌, refl, sym, ◌∙◌, ap, subst, arith, true-ne-false, Bool, true, false,
  some, List, get_elem?, get_elem?-set_ne, set, leb, All, Bool-cases, tests, inl, inr,
}
use verda_sxtelo.Common.Count.{
  bit, count, count-set, count_only, bit-le-count, two_bits-le-count, get_elem?_lt, All-get_elem?,
}
use verda_sxtelo.Player.{Player, next_turn, is_connected, has_next_turn, change_flag}
use verda_sxtelo.Player.Flags.{change_next_turn}
use verda_sxtelo.Conversation.{World, player}
use verda_sxtelo.Conversation.Valid.{
  HasFlags, with_players, Reflagged, Reflagged-refl, Reflagged-trans, set-Reflagged,
  next_turn-IsFlags, set_flag_lem,
}
use verda_sxtelo.Conversation.Players.{set_next_player}
use verda_sxtelo.Conversation.Players.NextTurn.{Outcome, alone, passed, pass_turn_total}

-- One player's turn flag changes.
pub record Flagged (ps : List Player) (i : ℕ) (v : Bool) (p : Player) : Type 0 where
  pub reflagged : Reflagged ps (set ps i (record p { flags = change_flag p.flags next_turn v }))
  pub turns :
      count has_next_turn (set ps i (record p { flags = change_flag p.flags next_turn v }))
        + bit (has_next_turn p)
      ≡ count has_next_turn ps + bit v

pub flagged :
    (ps : List Player) (i : ℕ) (v : Bool) (p : Player)
    → get_elem? ps i ≡ some p
    → All HasFlags ps
    → (v ≡ true → is_connected p ≡ true)
    → Flagged ps i v p
flagged ps i v p e a k =
    let h = All-get_elem? HasFlags ps i p a e in
    let c = change_next_turn p.flags v h.small in
    record {
      reflagged =
          set-Reflagged ps i (change_flag p.flags next_turn v) p e a
            (next_turn-IsFlags p.flags v h k) c.same_connected;
      turns =
          count-set has_next_turn ps i p (record p { flags = change_flag p.flags next_turn v }) e
          ∙ ap (λ b. count has_next_turn ps + bit b) c.next_turn_is;
    }

-- The turn goes from one player to another: afterwards exactly one has it.
record Moved (ps qs : List Player) : Type 0 where
  reflagged : Reflagged ps qs
  turns : count has_next_turn qs ≡ 1

moved :
    (ps : List Player) (old j : ℕ) (p q : Player)
    → get_elem? ps old ≡ some p
    → get_elem? ps j ≡ some q
    → old ≢ j
    → is_connected q ≡ true
    → All HasFlags ps
    → count has_next_turn ps ≤ bit (has_next_turn p)
    → Moved ps (
        set
          (set ps old (record p { flags = change_flag p.flags next_turn false }))
          j
          (record q { flags = change_flag q.flags next_turn true }))
moved ps old j p q e f ne c a only =
    let qs = set ps old (record p { flags = change_flag p.flags next_turn false }) in
    let x = flagged ps old false p e a (λ h. absurd (true-ne-false (sym h))) in
    let g : get_elem? qs j ≡ some q = get_elem?-set_ne ps _ ne ∙ f in
    let y = flagged qs j true q g x.reflagged.flags (λ h. c) in
    record {
      reflagged = Reflagged-trans x.reflagged y.reflagged;
      turns = omega (arith, x.turns, y.turns, bit-le-count has_next_turn qs j q g);
    }

-- What is left behind where nobody but `old` could have the turn.
pub record Settled (old : ℕ) (p : Player) (w w' : World) : Type 0 where
  pub players : List Player
  pub conversation : w'.conversation ≡ with_players w.conversation players
  pub reflagged : Reflagged w.conversation.players players
  pub one_turn : count has_next_turn players ≤ 1
  pub goes_on :
      w.conversation.n_tiles_in_play < w.conversation.total_n_tiles
      → bit (is_connected p) < count is_connected w.conversation.players
      → count has_next_turn players ≡ 1
  pub stays :
      w.conversation.n_tiles_in_play < w.conversation.total_n_tiles
      → count is_connected w.conversation.players ≤ bit (is_connected p)
      → count has_next_turn players ≡ count has_next_turn w.conversation.players
  pub ends :
      w.conversation.total_n_tiles ≤ w.conversation.n_tiles_in_play
      → count has_next_turn players ≡ 0

bit-le-one : (b : Bool) → bit b ≤ 1
bit-le-one b = ground arith

module _ (old : ℕ) (p : Player) (w : World) (here : player old w ≡ some p)
    (a : All HasFlags w.conversation.players)
    (only : count has_next_turn w.conversation.players ≤ bit (has_next_turn p)) where
  Outcome-Settled :
      {w' : World}
      → w.conversation.n_tiles_in_play < w.conversation.total_n_tiles
      → Outcome old w w'
      → Settled old p w w'
  unfolding player
  Outcome-Settled lt (alone nobody) = record {
    players = w.conversation.players;
    conversation = refl;
    reflagged = Reflagged-refl a;
    one_turn = omega (arith, bit-le-one (has_next_turn p));
    goes_on = λ l m.
        absurd (omega (arith, count_only is_connected w.conversation.players old p here nobody));
    stays = λ l m. refl;
    ends = λ l. absurd (omega arith);
  }
  Outcome-Settled lt (passed j p' q e f c ne near t) =
      let same : p ≡ p' = cc in
      let m =
        moved w.conversation.players old j p' q e f (λ h. ne (sym h)) c a
          (subst (λ p. count has_next_turn w.conversation.players ≤ bit (has_next_turn p)) same
            only) in
      let both =
        two_bits-le-count is_connected w.conversation.players old j p q here f (λ h. ne (sym h)) in
      record {
        players = t.players;
        conversation = t.conversation;
        reflagged = rw t.set_both m.reflagged;
        one_turn = rw t.set_both (omega (arith, m.turns));
        goes_on = λ l k. rw t.set_both m.turns;
        stays = λ l k. absurd (omega (arith, both, ap bit c));
        ends = λ l. absurd (omega arith);
      }

  -- `set_next_player` always returns.
  pub set_next_player-Settled :
      (w' : World) × (set_next_player old w ≡ some w') × Settled old p w w'
  unfolding set_next_player player
  set_next_player-Settled =
      elim (Bool-cases (leb w.conversation.total_n_tiles w.conversation.n_tiles_in_play)) [
        | inl h ↦
            let s = set_flag_lem old next_turn false p w here in
            let x =
              flagged w.conversation.players old false p here a
                (λ h. absurd (true-ne-false (sym h))) in
            (
              s.after,
              rw h s.result,
              record {
                players = _;
                conversation = s.conversation;
                reflagged = x.reflagged;
                one_turn = omega (arith, x.turns);
                goes_on = λ l m. absurd (omega tests);
                stays = λ l m. absurd (omega tests);
                ends = λ l. omega (arith, x.turns);
              },
            )
        | inr h ↦
            let (w', r, o) =
              pass_turn_total old w (get_elem?_lt w.conversation.players old p here) in
            (w', rw h r, Outcome-Settled (ground arith) o)
      ]
