-- ===== src/Conversation/Tiles/Shouted.antt =====
-- A shout stops the turns of all players for ten seconds, and not longer.
use verda_sxtelo.Common.{
  ℕ, ◌+◌, ◌<◌, ◌≤◌, ◌≡◌, ◌≢◌, Option, sym, ◌∙◌, subst, arith, true, some, ◌⊎◌, inl, inr, lt→ltb,
  lt→ltb-false,
}
use verda_sxtelo.Common.Count.{get_elem?_lt}
use native.Mathlib.Decide.{dec_lt}
use verda_sxtelo.Player.{Player, is_connected, has_next_turn}
use verda_sxtelo.Conversation.{World, player, n_players, emit, shouted}
use verda_sxtelo.Conversation.Valid.{IsSound}
use verda_sxtelo.Conversation.Talk.{is_shouting, shout}
use verda_sxtelo.Conversation.Tiles.{turn}
use verda_sxtelo.Conversation.Tiles.Turn.{MayTurn, turn_refused, turn_taken}
use verda_sxtelo.Conversation.Grows.{some-same}
use verda_sxtelo.Conversation.Keeps.{shout-IsSound}

-- A conversation after a shout at the time `t`.
abbrev after_shout : ℕ → ℕ → World → World
after_shout t i w =
    emit shouted (some i)
      (record w { conversation = record (w.conversation) { last_shout_time = t } })

module _ (t i : ℕ) (p : Player) (w : World) (here : player i w ≡ some p)
    (on : is_connected p ≡ true) (calm : w.conversation.last_shout_time + 10000000 ≤ t) where
  -- A shout of a connected player is heard, where the last one was ten seconds ago.
  pub shout_heard : shout t i w ≡ some (after_shout t i w)
  unfolding shout is_shouting
  shout_heard =
      rw
        (here, on, lt→ltb-false t (w.conversation.last_shout_time + 10000000) (omega (arith, calm)))

  after_shout-IsSound :
      IsSound w.conversation
      → i < n_players w.conversation
      → IsSound (after_shout t i w).conversation
  after_shout-IsSound s l =
      let r = shout-IsSound i w l s t in
      subst (λ (x : World). IsSound x.conversation) (some-same (sym r.result ∙ shout_heard)) r.holds

-- What a turn at the time `clock` comes to after a shout at the time `t`: it is ignored in the
-- first ten seconds, and puts a tile on the board from then on.
abbrev pub HeldUp : ℕ → ℕ → World → Option World → Type 0
HeldUp t clock w r =
    (clock < t + 10000000) × (r ≡ some w)
    ⊎ (t + 10000000 ≤ clock)
      × ((w' : World) × (r ≡ some w')
          × (w'.conversation.n_tiles_in_play ≡ w.conversation.n_tiles_in_play + 1))

module _ (rand : ℕ → ℕ) (t clock i j : ℕ) (p q : Player) (w : World) where
  shouted-HeldUp :
      IsSound (after_shout t i w).conversation
      → player j w ≡ some q
      → is_connected q ≡ true
      → (w.conversation.n_tiles_in_play ≡ 0)
        ⊎ (w.conversation.n_tiles_in_play ≢ 0) × (has_next_turn q ≡ true)
      → w.conversation.n_tiles_in_play < w.conversation.total_n_tiles
      → HeldUp t clock (after_shout t i w) (turn rand clock j (after_shout t i w))
  unfolding emit is_shouting player
  shouted-HeldUp s there on ready left = elim (dec_lt clock (t + 10000000)) [
    | yes l ↦
        inl (
          l,
          turn_refused rand clock j q (after_shout t i w) there (inr (inr (inl (lt→ltb _ _ l)))),
        )
    | no late ↦
        let m : MayTurn clock q (after_shout t i w).conversation = record {
          on = on;
          ready = ready;
          quiet = lt→ltb-false _ _ late;
          left = left;
        } in
        let (bag, b, r) = turn_taken rand clock j q (after_shout t i w) there s m in
        inr (omega (arith, late), (r.after, r.result, r.taken.one_more))
  ]

  -- In a conversation that keeps the invariant, where the last shout was ten seconds ago or more,
  -- the shout of a connected player is heard. After it, a turn of the connected player whose turn
  -- it is, or of any connected player before the first tile, with tiles left, changes nothing
  -- until ten seconds, in microseconds, have passed since the shout, and from then on it returns
  -- and puts one more tile on the board.
  pub turn-shout :
      IsSound w.conversation
      → player i w ≡ some p
      → is_connected p ≡ true
      → w.conversation.last_shout_time + 10000000 ≤ t
      → player j w ≡ some q
      → is_connected q ≡ true
      → (w.conversation.n_tiles_in_play ≡ 0)
        ⊎ (w.conversation.n_tiles_in_play ≢ 0) × (has_next_turn q ≡ true)
      → w.conversation.n_tiles_in_play < w.conversation.total_n_tiles
      → (w' : World) × (shout t i w ≡ some w') × HeldUp t clock w' (turn rand clock j w')
  unfolding player
  turn-shout s here on calm there on' ready left =
      let l : i < n_players w.conversation = get_elem?_lt w.conversation.players i p here in
      (
        after_shout t i w,
        shout_heard t i p w here on calm,
        shouted-HeldUp (after_shout-IsSound t i p w here on calm s l) there on' ready left,
      )
