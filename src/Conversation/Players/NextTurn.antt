-- ===== src/Conversation/Players/NextTurn.antt =====
-- `set_next_player`: its loop ends, and the turn goes to the next connected player, round the
-- table in the order in which the players joined.
use verda_sxtelo.Common.{
  ℕ, zero, suc, ◌+◌, ◌-◌, ◌%◌, ◌≤◌, ◌<◌, ◌≡◌, ◌≢◌, refl, sym, ◌∙◌, subst, arith, true, false, some,
  List, get_elem?-set_ne, set, ◌==◌, leb, Bool-cases, ==_iff, inl, inr, if◌then◌else◌,
  true-ne-false,
}
use verda_sxtelo.Common.Count.{get_elem?-some, get_elem?_lt}
use verda_sxtelo.Player.{Player, next_turn, is_connected, change_flag}
use verda_sxtelo.Conversation.{World, player, n_players}
use verda_sxtelo.Conversation.Valid.{with_players, FlagSet, set_flag_lem}
use verda_sxtelo.Conversation.Players.{transfer, pass_turn}
use native.Mathlib.Decide.{ℕ_discrete}
use native.Mathlib.Nat.{mod-eq_of_lt}

-- How many seats `i` is ahead of `old`, going round a table of `n`; `old` itself is `n` ahead.
pub ahead : ℕ → ℕ → ℕ → ℕ
ahead n old i = if leb i old then i + n - old else i - old

ahead_self : (n old : ℕ) → ahead n old old ≡ n
unfolding ahead
ahead_self n old = ground arith

ahead_le : (n old i : ℕ) → i < n → ahead n old i ≤ n
unfolding ahead
ahead_le n old i h = ground arith

ahead_lt : (n old i : ℕ) → i < n → i ≢ old → ahead n old i < n
unfolding ahead
ahead_lt n old i h k = ground arith

ahead_pos : (n old i : ℕ) → old < n → i ≢ old → 1 ≤ ahead n old i
unfolding ahead
ahead_pos n old i h k = ground arith

ahead_injective : (n old i j : ℕ) → old < n → i < n → j < n → ahead n old i ≡ ahead n old j → i ≡ j
unfolding ahead
ahead_injective n old i j l h k e = ground arith

mod_next : (n i : ℕ) → i < n → (i + 1) % n ≡ (if leb n (i + 1) then 0 else i + 1)
mod_next n i h = grind (arith, mod-eq_of_lt)

ahead_next :
    (n old i : ℕ) → old < n → i < n → i ≢ old → ahead n old ((i + 1) % n) ≡ ahead n old i + 1
unfolding ahead
ahead_next n old i h l k = rw (mod_next n i l) (ground arith)

ahead_first : (n old : ℕ) → old < n → ahead n old ((old + 1) % n) ≡ 1
unfolding ahead
ahead_first n old h = rw (mod_next n old h) (ground arith)

-- Both flags are changed, one after the other.
pub record Transferred (old j : ℕ) (p q : Player) (w w' : World) : Type 0 where
  pub players : List Player
  pub conversation : w'.conversation ≡ with_players w.conversation players
  pub set_both :
      players
      ≡ set
          (set w.conversation.players old
            (record p { flags = change_flag p.flags next_turn false }))
          j
          (record q { flags = change_flag q.flags next_turn true })

pub transfer_lem :
    (old j : ℕ) (p q : Player) (w : World)
    → old ≢ j
    → player old w ≡ some p
    → player j w ≡ some q
    → (w' : World) × (transfer old j w ≡ some w') × Transferred old j p q w w'
unfolding transfer player
transfer_lem old j p q w ne e f =
    let s = set_flag_lem old next_turn false p w e in
    let t = set_flag_lem j next_turn true q s.after (there s) in
    (
      t.after,
      rw s.result t.result,
      record { players = _; conversation = t.conversation ∙ rw s.conversation; set_both = refl },
    )
  where
    there : (s : FlagSet old next_turn false p w) → player j s.after ≡ some q
    there s = rw s.conversation (get_elem?-set_ne w.conversation.players _ ne ∙ f)

-- Every connected player but `old` is at least `k` seats ahead.
pub NoneBefore : ℕ → ℕ → World → Type 0
NoneBefore old k w =
    (i : ℕ) (p : Player)
    → player i w ≡ some p
    → is_connected p ≡ true
    → i ≢ old
    → k ≤ ahead (n_players w.conversation) old i

-- What the loop comes to: nobody else is connected, or the nearest connected player ahead is given
-- the turn.
pub data Outcome (old : ℕ) (w : World) : World → Type 0 where
  alone :
      ((i : ℕ) (p : Player) → player i w ≡ some p → is_connected p ≡ true → i ≡ old)
      → Outcome old w w
  passed :
      {w' : World} (j : ℕ) (p q : Player)
      → player old w ≡ some p
      → player j w ≡ some q
      → is_connected q ≡ true
      → j ≢ old
      → NoneBefore old (ahead (n_players w.conversation) old j) w
      → Transferred old j p q w w'
      → Outcome old w w'

record Ends (fuel old next : ℕ) (w : World) : Type 0 where
  after : World
  result : pass_turn fuel old next w ≡ some after
  outcome : Outcome old w after

module _ (fuel old next : ℕ) (w : World) where
  abbrev seat : ℕ
  seat = (next + 1) % n_players w.conversation

  back : seat ≡ old → pass_turn (suc fuel) old next w ≡ some w
  unfolding pass_turn
  back e = rw ((==_iff seat old).1 e)

  skip :
      (p : Player)
      → seat ≢ old
      → player seat w ≡ some p
      → is_connected p ≡ false
      → pass_turn (suc fuel) old next w ≡ pass_turn fuel old seat w
  unfolding pass_turn
  skip p ne e c = elim (Bool-cases (seat == old)) [
    | inl h ↦ absurd (ne ((==_iff seat old).0 h))
    | inr h ↦ rw (h, e, c)
  ]

  found :
      (p : Player)
      → seat ≢ old
      → player seat w ≡ some p
      → is_connected p ≡ true
      → pass_turn (suc fuel) old next w ≡ transfer old seat w
  unfolding pass_turn
  found p ne e c = elim (Bool-cases (seat == old)) [
    | inl h ↦ absurd (ne ((==_iff seat old).0 h))
    | inr h ↦ rw (h, e, c)
  ]

pub player-some :
    (i : ℕ) (w : World) → i < n_players w.conversation → (p : Player) × (player i w ≡ some p)
unfolding player
player-some i w h = get_elem?-some w.conversation.players i h

player-injective :
    (i j : ℕ) (w : World) {p q : Player}
    → player i w ≡ some p
    → player j w ≡ some q
    → i ≡ j
    → is_connected p ≡ is_connected q
player-injective i j w {p} {q} e f h = let d : p ≡ q = cc in rw d

player_lt : (i : ℕ) (w : World) (p : Player) → player i w ≡ some p → i < n_players w.conversation
unfolding player
player_lt i w p e = get_elem?_lt w.conversation.players i p e

-- Back at the start, nobody else was connected.
nobody_else :
    (old k : ℕ) (w : World)
    → n_players w.conversation ≡ suc k
    → NoneBefore old (suc k) w
    → (i : ℕ) (p : Player) → player i w ≡ some p
    → is_connected p ≡ true
    → i ≡ old
unfolding NoneBefore
nobody_else old k w hn none_before i p e c = elim (ℕ_discrete i old) [
  | yes q ↦ q
  | no q ↦ absurd (
      omega (
        arith,
        none_before i p e c q,
        ahead_lt (n_players w.conversation) old i (player_lt i w p e) q,
      ))
]

-- A player that is not connected is passed over.
NoneBefore-next :
    (old k s : ℕ) (p : Player) (w : World)
    → old < n_players w.conversation
    → s < n_players w.conversation
    → ahead (n_players w.conversation) old s ≡ k
    → player s w ≡ some p
    → is_connected p ≡ false
    → NoneBefore old k w
    → NoneBefore old (suc k) w
unfolding NoneBefore
NoneBefore-next old k s p w ho hs ha e off none_before i q f c ne =
    elim (ℕ_discrete (ahead (n_players w.conversation) old i) k) [
      | no d ↦ omega (arith, none_before i q f c ne)
      | yes d ↦
          let same =
            ahead_injective (n_players w.conversation) old i s ho (player_lt i w q f) hs
              (d ∙ sym ha) in
          absurd (true-ne-false (sym c ∙ player-injective i s w f e same ∙ off))
    ]

pass_turn-Ends :
    (fuel old next k : ℕ) (w : World)
    → old < n_players w.conversation
    → ahead (n_players w.conversation) old (seat fuel old next w) ≡ suc k
    → seat fuel old next w < n_players w.conversation
    → n_players w.conversation ≤ fuel + k
    → NoneBefore old (suc k) w
    → Ends fuel old next w
pass_turn-Ends zero old next k w ho ha hn hf none_before =
    absurd (omega (arith, ahead_le (n_players w.conversation) old _ hn))
pass_turn-Ends (suc fuel) old next k w ho ha hn hf none_before =
    elim (ℕ_discrete (seat fuel old next w) old) [
      | yes e ↦ record {
        after = w;
        result = back fuel old next w e;
        outcome = alone (
            nobody_else old k w (sym (ahead_self n old) ∙ subst (λ s. ahead n old s ≡ suc k) e ha)
              none_before);
      }
      | no ne ↦
          let (p, e) = player-some (seat fuel old next w) w hn in
          elim (Bool-cases (is_connected p)) [
            | inl c ↦
                let (o, f) = player-some old w ho in
                let (w', r, t) =
                  transfer_lem old (seat fuel old next w) o p w (λ q. ne (sym q)) f e in
                record {
                  after = w';
                  result = found fuel old next w p ne e c ∙ r;
                  outcome =
                      passed (seat fuel old next w) o p f e c ne
                        (subst (λ m. NoneBefore old m w) (sym ha) none_before) t;
                }
            | inr c ↦
                let r =
                  pass_turn-Ends fuel old (seat fuel old next w) (suc k) w ho
                    (ahead_next n old (seat fuel old next w) ho hn ne ∙ omega arith) (omega arith)
                    (omega arith)
                    (NoneBefore-next old (suc k) (seat fuel old next w) p w ho hn ha e c
                      none_before) in
                record {
                  after = r.after;
                  result = skip fuel old next w p ne e c ∙ r.result;
                  outcome = r.outcome;
                }
          ]
    ]
  where
    n : ℕ
    n = n_players w.conversation

-- The loop that passes the turn on ends for every player of the conversation within one round for
-- each player. It changes nothing where nobody else is connected, and otherwise takes the turn
-- from the player and gives it to the nearest connected player after it.
pub pass_turn_total :
    (old : ℕ) (w : World)
    → old < n_players w.conversation
    → (w' : World) × (pass_turn (n_players w.conversation) old old w ≡ some w') × Outcome old w w'
unfolding NoneBefore
pass_turn_total old w ho =
    let r =
      pass_turn-Ends (n_players w.conversation) old old 0 w ho
        (ahead_first (n_players w.conversation) old ho) (omega arith) (omega arith)
        (λ i p e c ne. ahead_pos (n_players w.conversation) old i ho ne) in
    (r.after, r.result, r.outcome)
