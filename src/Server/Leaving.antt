-- ===== src/Server/Leaving.antt =====
-- A player who leaves, for the sets: the last one to leave is announced.
use verda_sxtelo.Common.{
  ℕ, ◌<◌, ◌≡◌, refl, sym, ◌∙◌, ap, subst, arith, true-ne-false, Bool, true, false, some, List, [],
  ◌∷◌, length, length-set, set, ◌==◌, Bool-cases, inl, inr, ≢→==-false, if◌then◌else◌,
}
use verda_sxtelo.Common.Count.{bit, count, count-set}
use native.Mathlib.Decide.{dec_lt}
use verda_sxtelo.Player.{Player, flags_connected, is_connected, has_next_turn}
use verda_sxtelo.Player.Flags.{no_flags}
use verda_sxtelo.Conversation.{Conversation, World, emit, player, store_flags, set_flags, n_players}
use verda_sxtelo.Conversation.Valid.{IsSound, store_flags_lem}
use verda_sxtelo.Conversation.Players.{player_left, disconnect, set_next_player}
use verda_sxtelo.Conversation.Players.Keeps.{player_left-IsSound, left_off}
use verda_sxtelo.Conversation.Players.NextTurn.{player-some}
use verda_sxtelo.Conversation.Grows.{Grows, Grows-refl, bind_some, some-same, set_next_player-Grows}
use verda_sxtelo.Server.{conversation_is_empty, is_player_changed}
use verda_sxtelo.Server.Effects.{
  Has, Has-right, Has-Grows, IsEnd, Effect, calm, Affects, Returns-Affects,
}

is_empty-count : (ps : List Player) → count is_connected ps ≡ 0 → conversation_is_empty ps ≡ true
unfolding conversation_is_empty
is_empty-count [] h = refl
is_empty-count (p ∷ ps) h = elim (Bool-cases (is_connected p)) [
  | inl on ↦ absurd (omega (arith, ap bit on))
  | inr off ↦ rw off (is_empty-count ps (omega arith))
]

connected_flags : (f : ℕ) → flags_connected f ≡ true → (f == 0) ≡ false
connected_flags f h =
    ≢→==-false f 0 (λ e. true-ne-false (sym h ∙ ap flags_connected e ∙ no_flags.0))

-- Clearing the flags of a connected player is announced.
store_flags-IsEnd :
    (i : ℕ) (p : Player) (w : World)
    → is_connected p ≡ true
    → conversation_is_empty (set w.conversation.players i (record p { flags = 0 })) ≡ true
    → Has IsEnd (store_flags i p 0 w).signals
unfolding store_flags emit is_player_changed
store_flags-IsEnd i p w on e =
    rw (store_flags, connected_flags p.flags on) (Has-right IsEnd w.signals _ (inl (refl, e)))

-- The states in between when a connected player leaves.
left_through :
    (i : ℕ) (p : Player) (c : Conversation) (w : World)
    → player i (calm c) ≡ some p
    → is_connected p ≡ true
    → player_left i (calm c) ≡ some w
    → (w₂ : World) × Grows (store_flags i p 0 (calm c)) w₂ × (disconnect w₂ ≡ w)
unfolding player_left set_flags
left_through i p c w e on h =
    let w₁ = store_flags i p 0 (calm c) in
    let (w₂, q, r) =
      bind_some (if has_next_turn p then set_next_player i w₁ else some w₁) _ w (rw (e, on) at h) in
    (w₂, passed (has_next_turn p) w₁ w₂ q, some-same r)
  where
    passed :
        (b : Bool) (v v' : World)
        → (if b then set_next_player i v else some v) ≡ some v'
        → Grows v v'
    passed true v v' h = set_next_player-Grows i v v' h
    passed false v v' h = subst (Grows v) (some-same h) (Grows-refl v)

module _ (i : ℕ) (p : Player) (c : Conversation) (s : IsSound c) (e : player i (calm c) ≡ some p)
    (on : is_connected p ≡ true) (w : World) (g : Grows (store_flags i p 0 (calm c)) w) where
  left-Effect : IsSound (disconnect w).conversation → Effect c (disconnect w)
  unfolding disconnect player
  left-Effect k =
      let f = store_flags_lem i 0 p (calm c) e in
      let gone = record p { flags = 0 } in
      let state : w.conversation.state ≡ c.state =
        g.alike.state ∙ ap (λ (d : Conversation). d.state) f in
      let len : length w.conversation.players ≡ length c.players =
        g.alike.n_players
        ∙ ap (λ (d : Conversation). length d.players) f
        ∙ length-set c.players i gone in
      let conn : w.conversation.n_connected_players ≡ c.n_connected_players =
        g.alike.n_connected ∙ ap (λ (d : Conversation). d.n_connected_players) f in
      record {
        sound = k;
        more = omega (arith, len);
        room = λ h q. omega (arith, len, h (sym state ∙ q));
        announced = inl state;
        company = λ h. elim (dec_lt 1 c.n_connected_players) [
          | yes two ↦ inl (inl (omega (arith, conn)))
          | no one ↦ inr (
              Has-Grows IsEnd g (
                store_flags-IsEnd i p (calm c) on (
                  is_empty-count (set c.players i gone) (
                    omega (
                      arith,
                      s.valid.connected,
                      count-set is_connected c.players i p gone e,
                      ap bit on,
                      ap bit (no_flags.0),
                    )))))
        ];
      }

-- A player leaves.
pub player_left-Affects :
    (i : ℕ) (c : Conversation) → i < n_players c → IsSound c → Affects c (player_left i (calm c))
player_left-Affects i c l s =
    let x = player_left-IsSound i (calm c) l s in
    let (p, e) = player-some i (calm c) l in
    elim (Bool-cases (is_connected p)) [
      | inr off ↦ Returns-Affects c (player_left i (calm c)) x (λ w h.
          subst (Grows (calm c)) (some-same (sym (left_off i (calm c) p e off) ∙ h))
            (Grows-refl (calm c)))
      | inl on ↦
          let (w₂, g, q) = left_through i p c x.after e on x.result in
          (
            x.after,
            x.result,
            subst (Effect c) q (
                left-Effect i p c s e on w₂ g
                  (subst (λ (w : World). IsSound w.conversation) (sym q) x.holds)),
          )
    ]
