-- ===== src/Conversation/Players/Joins.antt =====
-- A player joins.
use verda_sxtelo.Common.{
  ℕ, suc, ◌+◌, ◌≤◌, ◌<◌, ◌≡◌, sym, ◌∙◌, ap, arith, some, List, [], ◌∷◌, ◌++◌, length, length-append,
  ◌⊎◌, Bool-cases, inl, inr, leb, lt→ltb, true-ne-false,
}
use verda_sxtelo.Common.Count.{bit, count, count-append, All-append}
use verda_sxtelo.Player
use verda_sxtelo.Player.{Player, connected, is_connected, has_next_turn}
use verda_sxtelo.Player.Flags.{IsFlags, new_flags}
use verda_sxtelo.Conversation.{
  Conversation, World, emit, start, n_players, max_players, player_changed,
}
use verda_sxtelo.Conversation.Valid.{IsSound, HasFlags, Numbered, players-IsValid, start-IsSound}
use verda_sxtelo.Conversation.Players.{add_player}

Numbered-append :
    (k : ℕ) (ps : List Player) (p : Player)
    → Numbered k ps
    → p.num ≡ k + length ps
    → Numbered k (ps ++ (p ∷ []))
Numbered-append k [] p n h = (omega arith, tt)
Numbered-append k (q ∷ ps) p (e, n) h = (e, Numbered-append (suc k) ps p n (omega arith))

new-IsFlags : IsFlags connected
new-IsFlags = record {
  small = omega arith;
  left = λ h. absurd (true-ne-false (sym (new_flags.0) ∙ h));
}

-- The state right after the new player was put in.
pub joined : List ℕ → Conversation → Conversation
joined name c = record c {
  players = c.players ++ (Player.new name (n_players c) ∷ []);
  n_connected_players = c.n_connected_players + 1;
}

joined-IsSound :
    (name : List ℕ) (c : Conversation)
    → n_players c < max_players
    → (0 < c.n_connected_players) ⊎ (c.n_tiles_in_play ≡ 0)
    → IsSound c
    → IsSound (joined name c)
unfolding joined Player.new
joined-IsSound name c room company s =
    let v = s.valid in
    let p = Player.new name (n_players c) in
    let turns = count-append has_next_turn c.players (p ∷ []) in
    let same : count has_next_turn (c.players ++ (p ∷ [])) ≡ count has_next_turn c.players =
      omega (arith, turns, ap bit (new_flags.1)) in
    record {
      valid =
          players-IsValid c (c.players ++ (p ∷ [])) (c.n_connected_players + 1) v
            (omega (arith, length-append c.players (p ∷ [])))
            (Numbered-append 0 c.players p v.numbered (omega arith))
            (All-append HasFlags c.players (p ∷ []) v.flags (new-IsFlags, tt))
            (omega (
              arith,
              v.connected,
              count-append is_connected c.players (p ∷ []),
              ap bit (new_flags.0),
            ))
            (omega (arith, same, v.one_turn)) (λ z. omega (arith, same, v.no_turn z));
      turn = record { held = λ z lt k. held same company z lt };
    }
  where
    held :
        {m : ℕ}
        → m ≡ count has_next_turn c.players
        → (0 < c.n_connected_players) ⊎ (c.n_tiles_in_play ≡ 0)
        → 0 < c.n_tiles_in_play
        → c.n_tiles_in_play < c.total_n_tiles
        → 1 ≤ m
    held e (inl k) z lt = omega (arith, s.turn.held z lt k)
    held e (inr k) z lt = absurd (omega arith)

-- While there is room a player can join a conversation that keeps the invariant and has somebody
-- in it or has not had a turn yet: the call returns the next number, and keeps the invariant.
pub add_player-IsSound :
    (name : List ℕ) (w : World)
    → n_players w.conversation < max_players
    → (0 < w.conversation.n_connected_players) ⊎ (w.conversation.n_tiles_in_play ≡ 0)
    → IsSound w.conversation
    → (w' : World) × (add_player name w ≡ some (n_players w.conversation, w'))
      × IsSound w'.conversation
unfolding add_player joined emit
add_player-IsSound name w room company s =
    let k = joined-IsSound name w.conversation room company s in
    let e = lt→ltb (n_players w.conversation) max_players room in
    let j : World =
      emit player_changed (some (n_players w.conversation))
        (record w { conversation = joined name w.conversation }) in
    elim (Bool-cases (leb max_players (n_players j.conversation))) [
      | inl h ↦ (start j, rw (e, h), start-IsSound j k)
      | inr h ↦ (j, rw (e, h), k)
    ]
