-- ===== src/Player/Flags.antt =====
-- The three flag bits of a player are independent: changing one keeps the others.
use verda_sxtelo.Common.{ℕ, ◌<◌, ◌≡◌, refl, arith, Bool, true, false, not, ◌&&◌, ltb}
use verda_sxtelo.Common.Bits.{table, read_table}
use verda_sxtelo.Player.{
  connected, typing, next_turn, flags_connected, flags_typing, flags_next_turn, change_flag,
}

-- Only the three flags are used, and a player that has left has none of them.
pub record IsFlags (f : ℕ) : Type 0 where
  pub small : f < 8
  pub left : flags_connected f ≡ false → f ≡ 0

agree : Bool → Bool → Bool
agree true b = b
agree false b = not b

agree→eq : (a b : Bool) → agree a b ≡ true → a ≡ b
unfolding agree
agree→eq true b h = ground arith
agree→eq false b h = ground arith

-- What `change_flag` does with each flag, at one value.
next_turn_test : Bool → ℕ → Bool
next_turn_test v f =
    let g = change_flag f next_turn v in
    ltb g 8
    && (agree (flags_connected g) (flags_connected f)
        && (agree (flags_typing g) (flags_typing f) && agree (flags_next_turn g) v))

typing_test : Bool → ℕ → Bool
typing_test v f =
    let g = change_flag f typing v in
    ltb g 8
    && (agree (flags_connected g) (flags_connected f)
        && (agree (flags_typing g) v && agree (flags_next_turn g) (flags_next_turn f)))

pub record Changed (f g : ℕ) (typing' next_turn' : Bool) : Type 0 where
  pub small : g < 8
  pub same_connected : flags_connected g ≡ flags_connected f
  pub typing_is : flags_typing g ≡ typing'
  pub next_turn_is : flags_next_turn g ≡ next_turn'

four :
    (a b c d : Bool)
    → (a && (b && (c && d))) ≡ true
    → (a ≡ true) × (b ≡ true) × (c ≡ true) × (d ≡ true)
four a b c d h = ground arith

ltb_eight : (g : ℕ) → ltb g 8 ≡ true → g < 8
ltb_eight g h = ground arith

next_turn_table : (v : Bool) → table (next_turn_test v) 8 ≡ true
unfolding table next_turn_test change_flag flags_connected flags_typing flags_next_turn agree
next_turn_table true = refl
next_turn_table false = refl

typing_table : (v : Bool) → table (typing_test v) 8 ≡ true
unfolding table typing_test change_flag flags_connected flags_typing flags_next_turn agree
typing_table true = refl
typing_table false = refl

-- Giving or taking the turn keeps the other two flags.
pub change_next_turn :
    (f : ℕ) (v : Bool) → f < 8 → Changed f (change_flag f next_turn v) (flags_typing f) v
unfolding next_turn_test
change_next_turn f v h =
    let g = change_flag f next_turn v in
    let (a, b, c, d) = four _ _ _ _ (read_table (next_turn_test v) f 8 h (next_turn_table v)) in
    record {
      small = ltb_eight _ a;
      same_connected = agree→eq _ _ b;
      typing_is = agree→eq _ _ c;
      next_turn_is = agree→eq _ _ d;
    }

-- Setting or clearing the typing flag keeps the other two.
pub change_typing :
    (f : ℕ) (v : Bool) → f < 8 → Changed f (change_flag f typing v) v (flags_next_turn f)
unfolding typing_test
change_typing f v h =
    let (a, b, c, d) = four _ _ _ _ (read_table (typing_test v) f 8 h (typing_table v)) in
    record {
      small = ltb_eight _ a;
      same_connected = agree→eq _ _ b;
      typing_is = agree→eq _ _ c;
      next_turn_is = agree→eq _ _ d;
    }

-- With no flags a player is not connected and does not have the turn.
pub no_flags : (flags_connected 0 ≡ false) × (flags_next_turn 0 ≡ false)
unfolding flags_connected flags_next_turn
no_flags = (refl, refl)

-- A new player is connected and does not have the turn.
pub new_flags : (flags_connected connected ≡ true) × (flags_next_turn connected ≡ false)
unfolding flags_connected flags_next_turn
new_flags = (refl, refl)
