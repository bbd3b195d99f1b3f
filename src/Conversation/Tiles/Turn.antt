-- ===== src/Conversation/Tiles/Turn.antt =====
-- Taking a turn returns, puts a tile on a free place and keeps the invariant.
use verda_sxtelo.Common.{
  ℕ, ◌+◌, ◌≤◌, ◌<◌, ◌≡◌, ◌≢◌, refl, ◌∙◌, ap, arith, true, false, Option, some, List, length,
  length-set, get_elem?, set, take, ◌⊎◌, inl, inr, ◌==◌, ==_iff, ≢→==-false, lt→leb-false, map,
  Bool-cases, if◌then◌else◌,
}
use verda_sxtelo.Tile.{Tile}
use verda_sxtelo.TileData.{TileData, vsx_tile_data}
use verda_sxtelo.TileData.Letters.{IsBag}
use verda_sxtelo.Bag.Fill.{fresh_tile}
use verda_sxtelo.Board.{Point}
use mathlib.Core.List.{Perm}
use native.Mathlib.Decide.{dec_lt, ℕ_discrete}
use verda_sxtelo.Board.Free.{IsFree}
use verda_sxtelo.Player.{Player, is_connected, has_next_turn}
use verda_sxtelo.Conversation.{
  Conversation, World, emit, start, player, n_players, in_progress, tile_changed,
}
use verda_sxtelo.Conversation.Valid.{IsValid, IsSound, Returns, start_lem}
use verda_sxtelo.Conversation.Players.NextTurn.{player-some}
use verda_sxtelo.Conversation.Talk.{is_shouting}
use verda_sxtelo.Conversation.Tiles.{fill_bag, flip_tile, give_turn, take_turn, turn}
use verda_sxtelo.Conversation.Tiles.Flip.{fill_bag_total, Flipped, flip_tile_total}
use verda_sxtelo.Conversation.Tiles.Give.{turned, turned-IsSound, given}

-- What a turn does: the next tile of the bag is put on the board, on a place where it overlaps
-- none of the tiles in play; the other tiles stay; the game is under way.
pub record TurnTaken (c : Conversation) (bag : List Tile) (c' : Conversation) : Type 0 where
  pub tile : Tile
  pub place : Point
  pub next : get_elem? bag c.n_tiles_in_play ≡ some tile
  pub free : IsFree (take c.n_tiles_in_play bag) place
  pub tiles : c'.tiles ≡ set bag c.n_tiles_in_play (record tile { x = place.0; y = place.1 })
  pub one_more : c'.n_tiles_in_play ≡ c.n_tiles_in_play + 1
  pub under_way : c'.state ≡ in_progress
  pub sound : IsSound c'

-- A turn that returns, with the bag that its tile came from.
pub record Turned (r : Option World) (c : Conversation) (bag : List Tile) : Type 0 where
  pub after : World
  pub result : r ≡ some after
  pub taken : TurnTaken c bag after.conversation

module _ (rand : ℕ → ℕ) (i : ℕ) (p : Player) (w w₁ : World) (bag : List Tile)
    (filled : (if w.conversation.n_tiles_in_play == 0 then fill_bag rand w else some w) ≡ some w₁)
    (e₁ : w₁.conversation ≡ record (w.conversation) { tiles = bag }) (l : length bag ≡ 122)
    (v : IsValid w.conversation) (here : player i w ≡ some p) (on : is_connected p ≡ true)
    (left : w.conversation.n_tiles_in_play < w.conversation.total_n_tiles)
    (ready : (w.conversation.n_tiles_in_play ≡ 0)
      ⊎ (w.conversation.n_tiles_in_play ≢ 0) × (has_next_turn p ≡ true)) where
  step :
      (w₂ w₃ : World)
      → flip_tile w₁ ≡ some w₂
      → give_turn
          (w.conversation.n_tiles_in_play == 0)
          i
          (emit tile_changed (some w.conversation.n_tiles_in_play) (start w₂))
        ≡ some w₃
      → take_turn rand i w ≡ some w₃
  unfolding take_turn
  step w₂ w₃ f g = rw (filled, f, g)

  flipped : (w₂ : World) × (flip_tile w₁ ≡ some w₂) × Flipped w₁ w₂
  flipped = flip_tile_total w₁ (rw e₁ (omega (arith, v.all_tiles))) (rw e₁ l)

  guard :
      ((w.conversation.n_tiles_in_play == 0) ≡ true) × (w.conversation.n_tiles_in_play ≡ 0)
      ⊎ ((w.conversation.n_tiles_in_play == 0) ≡ false) × (has_next_turn p ≡ true)
  guard = elim ready [
    | inl z ↦ inl ((==_iff _ 0).1 z, z)
    | inr (nz, h) ↦ inr (≢→==-false _ 0 nz, h)
  ]

  emit_same : (k : Option ℕ) (w : World) → (emit tile_changed k w).conversation ≡ w.conversation
  unfolding emit
  emit_same k w = refl

  -- The board after the tile was put down.
  board : {w₂ : World} → Flipped w₁ w₂ → List Tile
  board f =
      set bag w.conversation.n_tiles_in_play (record (f.tile) { x = f.place.0; y = f.place.1 })

  shown :
      {w₂ : World} (f : Flipped w₁ w₂)
      → (emit tile_changed (some w.conversation.n_tiles_in_play) (start w₂)).conversation
        ≡ turned w.conversation (board f)
  unfolding board
  shown {w₂} f =
      emit_same (some w.conversation.n_tiles_in_play) (start w₂)
      ∙ start_lem w₂
      ∙ ap (λ (c : Conversation). record c { state = in_progress })
          (f.conversation
            ∙ ap
                (λ (c : Conversation). record c {
                  tiles =
                      set c.tiles c.n_tiles_in_play
                        (record (f.tile) { x = f.place.0; y = f.place.1 });
                  n_tiles_in_play = c.n_tiles_in_play + 1;
                })
                e₁)

  pub take_turn_from : Turned (take_turn rand i w) w.conversation bag
  unfolding player board
  take_turn_from =
      let (w₂, r, f) = flipped in
      let (w₃, ps, g, e, k) =
        given i p w.conversation (board f)
          (emit tile_changed (some w.conversation.n_tiles_in_play) (start w₂)) (shown f) v here on
          (w.conversation.n_tiles_in_play == 0) guard in
      record {
        after = w₃;
        result = step w₂ w₃ r g;
        taken = record {
          tile = f.tile;
          place = f.place;
          next = rw e₁ at f.next;
          free = rw e₁ at f.free;
          tiles = ap (λ (c : Conversation). c.tiles) e;
          one_more = ap (λ (c : Conversation). c.n_tiles_in_play) e;
          under_way = ap (λ (c : Conversation). c.state) e;
          sound =
              rw e (turned-IsSound w.conversation (board f) ps v left (length-set bag _ _ ∙ l) k);
        };
      }

-- Where the tile of a turn comes from. Before the first turn the bag is filled: it then holds the
-- letters of the chosen language, each as often as its table has it.
pub data BagFor (c : Conversation) (bag : List Tile) : Type 0 where
  refilled :
      c.n_tiles_in_play ≡ 0
      → (d : TileData) → get_elem? vsx_tile_data c.tile_data ≡ some d
      → (b : IsBag d) → Perm bag (map fresh_tile b.chars)
      → BagFor c bag
  kept : c.n_tiles_in_play ≢ 0 → bag ≡ c.tiles → BagFor c bag

-- When a player may take a turn.
pub record MayTurn (clock : ℕ) (p : Player) (c : Conversation) : Type 0 where
  pub on : is_connected p ≡ true
  pub ready : (c.n_tiles_in_play ≡ 0) ⊎ (c.n_tiles_in_play ≢ 0) × (has_next_turn p ≡ true)
  pub quiet : is_shouting clock c ≡ false
  pub left : c.n_tiles_in_play < c.total_n_tiles

-- When a turn is ignored.
abbrev pub IsRefused : ℕ → Player → Conversation → Type 0
IsRefused clock p c =
    (is_connected p ≡ false)
    ⊎ (c.n_tiles_in_play ≢ 0) × (has_next_turn p ≡ false)
    ⊎ (is_shouting clock c ≡ true)
    ⊎ (c.total_n_tiles ≤ c.n_tiles_in_play)

pub may_turn : (clock : ℕ) (p : Player) (c : Conversation) → MayTurn clock p c ⊎ IsRefused clock p c
may_turn clock p c = elim (Bool-cases (is_connected p)) [
  | inr off ↦ inr (inl off)
  | inl on ↦ elim (dec_lt c.n_tiles_in_play c.total_n_tiles) [
    | no full ↦ inr (inr (inr (inr (omega arith))))
    | yes left ↦ elim (Bool-cases (is_shouting clock c)) [
      | inl loud ↦ inr (inr (inr (inl loud)))
      | inr quiet ↦ elim (ℕ_discrete c.n_tiles_in_play 0) [
        | yes z ↦ inl (record { on = on; ready = inl z; quiet = quiet; left = left })
        | no nz ↦ elim (Bool-cases (has_next_turn p)) [
          | inl h ↦ inl (record { on = on; ready = inr (nz, h); quiet = quiet; left = left })
          | inr h ↦ inr (inr (inl (nz, h)))
        ]
      ]
    ]
  ]
]

module _ (rand : ℕ → ℕ) (clock i : ℕ) (p : Player) (w : World) (here : player i w ≡ some p) where
  pub turn_goes : MayTurn clock p w.conversation → turn rand clock i w ≡ take_turn rand i w
  unfolding turn
  turn_goes m = elim m.ready [
    | inl z ↦ rw (here, m.on, (==_iff _ 0).1 z, m.quiet, lt→leb-false _ _ m.left)
    | inr (nz, h) ↦ rw (here, m.on, ≢→==-false _ 0 nz, h, m.quiet, lt→leb-false _ _ m.left)
  ]

  -- A request for a turn changes nothing and emits nothing where the player has left, does not
  -- have the turn after the first tile, somebody shouted within the last ten seconds, or all the
  -- tiles are on the board.
  pub turn_refused : IsRefused clock p w.conversation → turn rand clock i w ≡ some w
  unfolding turn
  turn_refused (inl off) = rw (here, off)
  turn_refused (inr (inl (nz, h))) = rw here (ground (arith, h, nz))
  turn_refused (inr (inr (inl loud))) = rw here (ground (arith, loud))
  turn_refused (inr (inr (inr full))) = rw here (ground (arith, full))

  -- In a conversation that keeps the invariant, the turn of a connected player who has the turn
  -- or takes the first one returns, where nobody shouted within the last ten seconds and tiles
  -- are left. It puts the next tile of the bag, on the first turn of a bag that was just filled
  -- and shuffled, on a place where it overlaps none of the tiles in play, leaves the other tiles
  -- as they are, counts it, has the game under way and keeps the invariant.
  pub turn_taken :
      IsSound w.conversation
      → MayTurn clock p w.conversation
      → (bag : List Tile) × BagFor w.conversation bag
        × Turned (turn rand clock i w) w.conversation bag
  turn_taken s m = rw (turn_goes m) (elim (ℕ_discrete w.conversation.n_tiles_in_play 0) [
    | yes z ↦
        let (w₁, r, f) = fill_bag_total rand w s.valid in
        (
          f.tiles,
          refilled z f.data_ f.chosen f.bag f.all_there,
          take_turn_from rand i p w w₁ f.tiles (rw ((==_iff _ 0).1 z) r) f.conversation f.count
              s.valid here m.on m.left m.ready,
        )
    | no nz ↦ (
      w.conversation.tiles,
      kept nz refl,
      take_turn_from rand i p w w w.conversation.tiles (rw (≢→==-false _ 0 nz)) refl s.valid.bag
          s.valid here m.on m.left m.ready,
    )
  ])

-- Any player of a conversation that keeps the invariant can ask for a turn at any time: the call
-- returns, and keeps the invariant.
pub turn-IsSound :
    (rand : ℕ → ℕ) (clock i : ℕ) (w : World)
    → i < n_players w.conversation
    → IsSound w.conversation
    → Returns (turn rand clock i w) IsSound
turn-IsSound rand clock i w h s =
    let (p, here) = player-some i w h in
    elim (may_turn clock p w.conversation) [
      | inl m ↦
          let (bag, b, t) = turn_taken rand clock i p w here s m in
          record { after = t.after; result = t.result; holds = t.taken.sound }
      | inr n ↦ record { after = w; result = turn_refused rand clock i p w here n; holds = s }
    ]
