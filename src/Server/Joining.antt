-- ===== src/Server/Joining.antt =====
-- A player who joins, for the sets: the game starts with the last place taken.
use verda_sxtelo.Common.{
  ℕ, ◌+◌, ◌<◌, ◌≡◌, none-ne-some, leb-false→lt, refl, sym, ◌∙◌, ap, subst, arith, some, List, [],
  ◌∷◌, ◌++◌, length, length-append, leb, ltb, Bool-cases, inl, inr, ◌⊎◌,
}
use verda_sxtelo.Player
use verda_sxtelo.Player.{Player, flags_connected, is_connected, has_next_turn}
use verda_sxtelo.Conversation.{
  Conversation, World, emit, start, n_players, max_players, player_changed,
}
use verda_sxtelo.Conversation.Valid.{IsSound, State-cases}
use verda_sxtelo.Conversation.Players.{add_player}
use verda_sxtelo.Conversation.Players.Joins.{add_player-IsSound}
use verda_sxtelo.Conversation.Grows.{some-same}
use verda_sxtelo.Server.Effects.{
  Has, Has-right, IsStart, HasRoom, HasCompany, Effect, calm, started_ne,
}

record Joined (c : Conversation) (w : World) : Type 0 where
  n_players : length w.conversation.players ≡ length c.players + 1
  n_connected : w.conversation.n_connected_players ≡ c.n_connected_players + 1
  room : HasRoom w.conversation
  announced : (w.conversation.state ≡ c.state) ⊎ Has IsStart w.signals

start-Joined :
    (c : Conversation) (w : World)
    → length w.conversation.players ≡ length c.players + 1
    → w.conversation.n_connected_players ≡ c.n_connected_players + 1
    → w.conversation.state ≡ c.state
    → Joined c (start w)
unfolding start emit
start-Joined c w n m e = elim (State-cases w.conversation.state) [
  | inl q ↦
      simp (start, q)
        (record {
          n_players = n;
          n_connected = m;
          room = λ h. absurd (started_ne h);
          announced = inr (Has-right IsStart w.signals _ (inl refl));
        })
  | inr q ↦
      simp (start, q)
        (record {
          n_players = n;
          n_connected = m;
          room = λ h. absurd (started_ne (sym q ∙ h));
          announced = inl e;
        })
]

add_player-Joined :
    (name : List ℕ) (c : Conversation) (w : World)
    → add_player name (calm c) ≡ some (n_players c, w)
    → Joined c w
unfolding add_player emit
add_player-Joined name c w h =
    let p = Player.new name (n_players c) in
    let d = record c {
      players = c.players ++ (p ∷ []);
      n_connected_players = c.n_connected_players + 1;
    } in
    let j = emit player_changed (some (n_players c)) (calm d) in
    let l : length d.players ≡ length c.players + 1 = length-append c.players (p ∷ []) in
    elim (Bool-cases (ltb (n_players c) max_players)) [
      | inr f ↦ absurd (none-ne-some (n_players c, w) (rw f at h))
      | inl f ↦ elim (Bool-cases (leb max_players (n_players d))) [
        | inl full ↦
            subst (Joined c) (ap (λ (r : ℕ × World). r.1) (some-same (rw (f, full) at h)))
              (start-Joined c j l refl refl)
        | inr few ↦
            subst (Joined c) (ap (λ (r : ℕ × World). r.1) (some-same (rw (f, few) at h))) (record {
              n_players = l;
              n_connected = refl;
              room = λ q. leb-false→lt max_players (n_players d) few;
              announced = inl refl;
            })
      ]
    ]

-- A player joins.
pub add_player-Affects :
    (name : List ℕ) (c : Conversation)
    → n_players c < max_players
    → HasCompany c
    → IsSound c
    → (w : World) × (add_player name (calm c) ≡ some (n_players c, w))
      × Effect c w
      × (n_players w.conversation ≡ n_players c + 1)
add_player-Affects name c l k s =
    let (w, q, sound) = add_player-IsSound name (calm c) l k s in
    let j = add_player-Joined name c w q in
    (
      w,
      q,
      record {
        sound = sound;
        more = omega (arith, j.n_players);
        room = λ h. j.room;
        announced = j.announced;
        company = λ h. inl (inl (omega (arith, j.n_connected)));
      },
      j.n_players,
    )
