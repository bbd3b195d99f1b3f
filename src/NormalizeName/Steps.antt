-- ===== src/NormalizeName/Steps.antt =====
-- The loop of `vsx_normalize_name` one character at a time.
use verda_sxtelo.Common.{
  ℕ, ◌≡◌, refl, arith, Bool, true, false, none, List, [], ◌∷◌, leb, Bool-cases, inl, inr,
}
use verda_sxtelo.NormalizeName.{is_space, skip_space, combine}
use mathlib.Core.Option

module _ (ch : ℕ) (src : List ℕ) where
  pub combine_first_space :
      is_space ch ≡ true
      → combine false (ch ∷ src) ≡ Option.map (λ r. (32 ∷ r.0, r.1)) (combine true src)
  unfolding combine
  combine_first_space e = rw (e, combine) refl

  pub combine_next_space : is_space ch ≡ true → combine true (ch ∷ src) ≡ combine true src
  unfolding combine
  combine_next_space e = rw (e, combine) refl

  pub combine_control :
      (b : Bool) → is_space ch ≡ false → leb ch 32 ≡ true → combine b (ch ∷ src) ≡ none
  unfolding combine
  combine_control b e c = rw (e, c, combine) refl

  pub combine_letter :
      (b : Bool)
      → is_space ch ≡ false
      → leb ch 32 ≡ false
      → combine b (ch ∷ src) ≡ Option.map (λ r. (ch ∷ r.0, true)) (combine false src)
  unfolding combine
  combine_letter b e c = rw (e, c, combine) refl

combine_nothing : combine false [] ≡ combine true []
unfolding combine
combine_nothing = refl

combine_same :
    (ch : ℕ) (src : List ℕ)
    → is_space ch ≡ false
    → combine false (ch ∷ src) ≡ combine true (ch ∷ src)
unfolding combine
combine_same ch src e = rw (e, combine) refl

-- Without leading white space the loop starts as after a space.
pub combine-skip_space :
    (name : List ℕ) → combine false (skip_space name) ≡ combine true (skip_space name)
unfolding skip_space
combine-skip_space [] = combine_nothing
combine-skip_space (ch ∷ name) =
    let rest = combine-skip_space name in
    elim (Bool-cases (is_space ch)) [ inl e ↦ rw e rest | inr e ↦ rw e (combine_same ch name e) ]

pub letter_no_space : (ch : ℕ) → leb ch 32 ≡ false → is_space ch ≡ false
unfolding is_space
letter_no_space ch e = ground arith

pub blank_is_space : (ch : ℕ) → ch ≡ 32 → is_space ch ≡ true
unfolding is_space
blank_is_space ch e = ground arith
