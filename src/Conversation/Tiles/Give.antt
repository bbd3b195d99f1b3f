-- ===== src/Conversation/Tiles/Give.antt =====
-- The last part of a turn: whose turn is next.
use verda_sxtelo.Common.{
  ℕ, ◌+◌, ◌≤◌, ◌<◌, ◌≡◌, ◌≢◌, refl, ◌∙◌, ap, subst, arith, Bool, true, false, ◌&&◌, some, List,
  length, get_elem?, set, ◌⊎◌, inl, inr, ◌==◌, Bool-cases, ==-false,
}
use verda_sxtelo.Common.Count.{bit, count, bit-le-count}
use native.Mathlib.Decide.{dec_lt}
use verda_sxtelo.Tile.{Tile}
use verda_sxtelo.Player.{Player, next_turn, is_connected, has_next_turn, change_flag}
use verda_sxtelo.Conversation.{Conversation, World, player, in_progress, awaiting_start}
use verda_sxtelo.Conversation.Valid.{IsValid, IsSound, Reflagged, with_players, set_flag_lem}
use verda_sxtelo.Conversation.Players.Passing.{Settled, set_next_player-Settled, flagged}
use verda_sxtelo.Conversation.Tiles.{give_turn}

started_ne : in_progress ≢ awaiting_start
started_ne h = cc

-- The conversation after a turn, but for whose turn is next.
abbrev pub turned : Conversation → List Tile → Conversation
turned c tiles = record c {
  state = in_progress;
  tiles = tiles;
  n_tiles_in_play = c.n_tiles_in_play + 1;
}

-- Who has the turn after `give_turn`.
pub record Given (c : Conversation) (ps : List Player) : Type 0 where
  pub reflagged : Reflagged c.players ps
  pub one_turn : count has_next_turn ps ≤ 1
  pub held :
      c.n_tiles_in_play + 1 < c.total_n_tiles
      → 0 < c.n_connected_players
      → 1 ≤ count has_next_turn ps

pub turned-IsSound :
    (c : Conversation) (tiles : List Tile) (ps : List Player)
    → IsValid c
    → c.n_tiles_in_play < c.total_n_tiles
    → length tiles ≡ 122
    → Given c ps
    → IsSound (with_players (turned c tiles) ps)
turned-IsSound c tiles ps v lt l g = record {
  valid = record {
    few = omega (arith, g.reflagged.same_length, v.few);
    numbered = g.reflagged.numbered v.numbered;
    flags = g.reflagged.flags;
    connected = omega (arith, v.connected, g.reflagged.same_connected);
    bag = l;
    language = v.language;
    played = omega arith;
    some_tiles = v.some_tiles;
    all_tiles = v.all_tiles;
    unstarted = λ h. absurd (started_ne h);
    one_turn = g.one_turn;
    no_turn = λ h. absurd (omega arith);
  };
  turn = record { held = λ z k on. g.held k on };
}

module _ (i : ℕ) (p : Player) (c : Conversation) (tiles : List Tile) (w : World)
    (e : w.conversation ≡ turned c tiles) (v : IsValid c) (here : get_elem? c.players i ≡ some p)
    (on : is_connected p ≡ true) where
  abbrev pub Done : Bool → Type 0
  Done first =
      (w' : World) × (ps : List Player) × (give_turn first i w ≡ some w')
      × (w'.conversation ≡ with_players (turned c tiles) ps)
      × Given c ps

  player_there : player i w ≡ some p
  unfolding player
  player_there = rw e here

  -- The first turn of a single player.
  given_alone : c.n_tiles_in_play ≡ 0 → (w.conversation.n_connected_players == 1) ≡ true → Done true
  unfolding give_turn
  given_alone z one =
      let s = set_flag_lem i next_turn true p w player_there in
      let f = flagged c.players i true p here v.flags (λ h. on) in
      (
        s.after,
        set c.players i (record p { flags = change_flag p.flags next_turn true }),
        rw one s.result,
        s.conversation ∙ rw e,
        record {
          reflagged = f.reflagged;
          one_turn = omega (arith, f.turns, v.no_turn z);
          held = λ k l.
              omega (arith, f.turns, v.no_turn z, bit-le-count has_next_turn c.players i p here);
        },
      )

  -- Any other turn.
  given_next :
      (first : Bool)
      → (first && (w.conversation.n_connected_players == 1)) ≡ false
      → count has_next_turn c.players ≤ bit (has_next_turn p)
      → (2 ≤ count is_connected c.players) ⊎ (1 ≤ count has_next_turn c.players)
      → Done first
  unfolding give_turn
  given_next first more only ready =
      let (w', r, t) = set_next_player-Settled i p w player_there (rw e v.flags) (rw e only) in
      (
        w',
        t.players,
        rw more r,
        t.conversation ∙ ap (λ c. with_players c t.players) e,
        record {
          reflagged = subst (λ (c : Conversation). Reflagged c.players t.players) e t.reflagged;
          one_turn = t.one_turn;
          held = λ k l. held t ready k;
        },
      )
    where
      held :
          {w' : World} (t : Settled i p w w')
          → (2 ≤ count is_connected c.players) ⊎ (1 ≤ count has_next_turn c.players)
          → c.n_tiles_in_play + 1 < c.total_n_tiles
          → 1 ≤ count has_next_turn t.players
      held t ready k =
          let in_play = ap (λ (c : Conversation). c.n_tiles_in_play) e in
          let total = ap (λ (c : Conversation). c.total_n_tiles) e in
          let conn = ap (λ (c : Conversation). count is_connected c.players) e in
          let turns = ap (λ (c : Conversation). count has_next_turn c.players) e in
          let lt : w.conversation.n_tiles_in_play < w.conversation.total_n_tiles = omega arith in
          elim (dec_lt 1 (count is_connected c.players)) [
            | yes m ↦ omega (arith, t.goes_on lt (omega (arith, ap bit on)))
            | no m ↦ elim ready [
              | inl two ↦ absurd (m two)
              | inr one ↦ omega (arith, t.stays lt (omega (arith, ap bit on)))
            ]
          ]

  -- The guards of a turn, in numbers.
  pub given :
      (first : Bool)
      → (first ≡ true) × (c.n_tiles_in_play ≡ 0) ⊎ (first ≡ false) × (has_next_turn p ≡ true)
      → Done first
  given first (inr (f, h)) = rw f (
      given_next false refl (omega (arith, v.one_turn, ap bit h))
        (inr (omega (arith, ap bit h, bit-le-count has_next_turn c.players i p here))))
  given first (inl (f, z)) = rw f (elim (Bool-cases (w.conversation.n_connected_players == 1)) [
    | inl one ↦ given_alone z one
    | inr more ↦ given_next true more (omega (arith, v.no_turn z)) (
        inl (
          omega (
            arith,
            v.connected,
            ap (λ (c : Conversation). c.n_connected_players) e,
            ==-false _ _ more,
            bit-le-count is_connected c.players i p here,
            ap bit on,
          )))
  ])
