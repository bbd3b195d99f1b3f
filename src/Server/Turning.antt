-- ===== src/Server/Turning.antt =====
-- A turn, for the sets: the start of the game is announced.
use verda_sxtelo.Common.{
  ℕ, ◌<◌, ◌≡◌, refl, sym, ◌∙◌, ap, subst, arith, Bool, true, false, Option, some, length, get_elem?,
  ◌==◌, inl, inr, if◌then◌else◌,
}
use verda_sxtelo.Common.Count.{bit, bit-le-count}
use verda_sxtelo.Player.{is_connected}
use verda_sxtelo.Conversation.{
  in_progress, Conversation, World, emit, start, player, n_players, tile_changed,
}
use verda_sxtelo.Conversation.Valid.{start_lem, IsSound}
use verda_sxtelo.Conversation.Tiles.{turn, take_turn, fill_bag, flip_tile}
use verda_sxtelo.Conversation.Tiles.Turn.{turn_goes, turn_refused, may_turn, turn-IsSound}
use verda_sxtelo.Conversation.Players.NextTurn.{player-some}
use verda_sxtelo.Conversation.Grows.{Grows, Grows-refl, bind_some, some-same, give_turn-Grows}
use verda_sxtelo.Common.{take}
use verda_sxtelo.TileData.{vsx_tile_data}
use verda_sxtelo.Bag.{init_tile_data}
use verda_sxtelo.Board.{find_free_location}
use verda_sxtelo.Server.Effects.{
  Has, Has-right, Has-Grows, IsStart, calm, Affects, Returns-Affects, started_ne,
}

-- What `take_turn` passes through, but for its signals.
record Through (c d : Conversation) : Type 0 where
  n_players : length d.players ≡ length c.players
  n_connected : d.n_connected_players ≡ c.n_connected_players

fill_bag-Through :
    (rand : ℕ → ℕ) (w w' : World)
    → fill_bag rand w ≡ some w'
    → Through w.conversation w'.conversation
unfolding fill_bag
fill_bag-Through rand w w' h =
    let (d, e, r) = bind_some (get_elem? vsx_tile_data w.conversation.tile_data) _ w' h in
    let (ts, f, q) = bind_some (init_tile_data rand d.letters) _ w' r in
    subst (λ (v : World). Through w.conversation v.conversation) (some-same q)
      (record { n_players = refl; n_connected = refl })

flip_tile-Through : (w w' : World) → flip_tile w ≡ some w' → Through w.conversation w'.conversation
unfolding flip_tile
flip_tile-Through w w' h =
    let n = w.conversation.n_tiles_in_play in
    let (t, e, r) = bind_some (get_elem? w.conversation.tiles n) _ w' h in
    let (p, f, q) = bind_some (find_free_location (take n w.conversation.tiles)) _ w' r in
    subst (λ (v : World). Through w.conversation v.conversation) (some-same q)
      (record { n_players = refl; n_connected = refl })

first-Through :
    (b : Bool) (rand : ℕ → ℕ) (w w' : World)
    → (if b then fill_bag rand w else some w) ≡ some w'
    → Through w.conversation w'.conversation
first-Through true rand w w' h = fill_bag-Through rand w w' h
first-Through false rand w w' h =
    subst (λ (v : World). Through w.conversation v.conversation) (some-same h)
      (record { n_players = refl; n_connected = refl })

-- The start of the game and the tile are announced.
record Shown (c : Conversation) (w : World) : Type 0 where
  through : Through c w.conversation
  state : w.conversation.state ≡ in_progress
  announced : Has IsStart w.signals

emit-Shown : (k : Option ℕ) (w : World) → Shown w.conversation (emit tile_changed k (start w))
unfolding emit
emit-Shown k w =
    let e = start_lem w in
    let running : (start w).conversation.state ≡ in_progress =
      ap (λ (c : Conversation). c.state) e in
    record {
      through = record {
        n_players = ap (λ (c : Conversation). length c.players) e;
        n_connected = ap (λ (c : Conversation). c.n_connected_players) e;
      };
      state = running;
      announced = Has-right IsStart (start w).signals _ (inl running);
    }

turn_through :
    (rand : ℕ → ℕ) (i : ℕ) (c : Conversation) (w : World)
    → take_turn rand i (calm c) ≡ some w
    → Shown c w
unfolding take_turn
turn_through rand i c w h =
    let first = c.n_tiles_in_play == 0 in
    let (w₁, q, r) = bind_some (if first then fill_bag rand (calm c) else some (calm c)) _ w h in
    let (w₂, q₂, r₂) = bind_some (flip_tile w₁) _ w r in
    let a = first-Through first rand (calm c) w₁ q in
    let b = flip_tile-Through w₁ w₂ q₂ in
    let shown = emit-Shown (some c.n_tiles_in_play) w₂ in
    let g = give_turn-Grows first i (emit tile_changed (some c.n_tiles_in_play) (start w₂)) w r₂ in
    record {
      through = record {
        n_players = g.alike.n_players ∙ shown.through.n_players ∙ b.n_players ∙ a.n_players;
        n_connected =
            g.alike.n_connected ∙ shown.through.n_connected ∙ b.n_connected ∙ a.n_connected;
      };
      state = g.alike.state ∙ shown.state;
      announced = Has-Grows IsStart g shown.announced;
    }

-- A player takes a turn, or not.
pub turn-Affects :
    (rand : ℕ → ℕ) (clock i : ℕ) (c : Conversation)
    → i < n_players c
    → IsSound c
    → Affects c (turn rand clock i (calm c))
unfolding player
turn-Affects rand clock i c l s =
    let x = turn-IsSound rand clock i (calm c) l s in
    let (p, e) = player-some i (calm c) l in
    elim (may_turn clock p c) [
      | inr n ↦ Returns-Affects c (turn rand clock i (calm c)) x (λ w h.
          subst (Grows (calm c)) (some-same (sym (turn_refused rand clock i p (calm c) e n) ∙ h))
            (Grows-refl (calm c)))
      | inl m ↦
          let t =
            turn_through rand i c x.after
              (sym (turn_goes rand clock i p (calm c) e m) ∙ x.result) in
          (
            x.after,
            x.result,
            record {
              sound = x.holds;
              more = omega (arith, t.through.n_players);
              room = λ h q. absurd (started_ne (sym t.state ∙ q));
              announced = inr t.announced;
              company = λ h. inl (
                  inl (
                    omega (
                      arith,
                      t.through.n_connected,
                      s.valid.connected,
                      bit-le-count is_connected c.players i p e,
                      ap bit m.on,
                    )));
            },
          )
    ]
