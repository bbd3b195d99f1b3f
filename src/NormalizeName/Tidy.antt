-- ===== src/NormalizeName/Tidy.antt =====
-- A name that is accepted is tidy, and a tidy name is accepted as it is.
use verda_sxtelo.Common.{
  ℕ, ◌≤◌, ◌≡◌, ◌≢◌, refl, sym, ◌∙◌, ap, arith, Bool, true, false, not, ◌&&◌, some, List, [], ◌∷◌,
  length, ◌==◌, leb, if◌then◌else◌, Bool-cases, inl, inr, lt→ltb-false, ≢→==-false, true-ne-false,
  ==_iff,
}
use verda_sxtelo.NormalizeName.{max_name_length, skip_space, combine, strip_space, normalize_name}
use verda_sxtelo.NormalizeName.Steps.{
  combine_first_space, combine_letter, combine-skip_space, letter_no_space, blank_is_space,
}
use mathlib.Core.Option

-- Bytes above a space and single spaces, after a space or not.
unfoldable pub spaced : Bool → List ℕ → Bool
spaced in_space [] = true
spaced in_space (ch ∷ rest) =
    if ch == 32 then not in_space && spaced true rest else not (leb ch 32) && spaced false rest

-- The name is not empty and does not end in a space.
unfoldable pub ends_letter : List ℕ → Bool
ends_letter [] = false
ends_letter (ch ∷ []) = not (ch == 32)
ends_letter (ch ∷ next ∷ rest) = ends_letter (next ∷ rest)

pub record IsTidy (name : List ℕ) : Type 0 where
  pub spaces : spaced true name ≡ true
  pub ending : ends_letter name ≡ true
  pub fits : length name ≤ max_name_length

-- A space is followed by a letter, and stands behind one.
data Char (b : Bool) (ch : ℕ) (rest : List ℕ) : Type 0 where
  blank : ch ≡ 32 → b ≡ false → spaced true rest ≡ true → Char b ch rest
  letter : leb ch 32 ≡ false → spaced false rest ≡ true → Char b ch rest

pub spaced_blank :
    (b : Bool) (ch : ℕ) (rest : List ℕ)
    → (ch == 32) ≡ true
    → spaced b (ch ∷ rest) ≡ (not b && spaced true rest)
unfolding spaced
spaced_blank b ch rest k = rw (k, spaced) refl

pub spaced_letter :
    (b : Bool) (ch : ℕ) (rest : List ℕ)
    → (ch == 32) ≡ false
    → spaced b (ch ∷ rest) ≡ (not (leb ch 32) && spaced false rest)
unfolding spaced
spaced_letter b ch rest k = rw (k, spaced) refl

pub both : (b c : Bool) → (not b && c) ≡ true → (b ≡ false) × (c ≡ true)
both false c h = (refl, h)
both true c h = absurd (true-ne-false (sym h))

spaced-Char : (b : Bool) (ch : ℕ) (rest : List ℕ) → spaced b (ch ∷ rest) ≡ true → Char b ch rest
spaced-Char b ch rest s = elim (Bool-cases (ch == 32)) [
  | inl k ↦
      let (f, t) = both b (spaced true rest) (sym (spaced_blank b ch rest k) ∙ s) in
      blank ((==_iff ch 32).0 k) f t
  | inr k ↦
      let (f, t) = both (leb ch 32) (spaced false rest) (sym (spaced_letter b ch rest k) ∙ s) in
      letter f t
]

combine_end : combine false [] ≡ some ([], false)
unfolding combine
combine_end = refl

single_letter : (ch : ℕ) → ends_letter (ch ∷ []) ≡ true → ch ≢ 32
unfolding ends_letter
single_letter ch e k = true-ne-false (sym e ∙ ap (λ c. not (c == 32)) k)

-- A tidy name passes the loop as it is, which has found a letter.
combine-spaced :
    (b : Bool) (name : List ℕ)
    → spaced b name ≡ true
    → ends_letter name ≡ true
    → combine b name ≡ some (name, true)
unfolding ends_letter
combine-spaced b [] s e = absurd (true-ne-false (sym e))
combine-spaced b (ch ∷ []) s e = elim (spaced-Char b ch [] s) [
  | blank k f t ↦ absurd (single_letter ch e k)
  | letter k t ↦
      combine_letter ch [] b (letter_no_space ch k) k
      ∙ ap (Option.map (λ r. (ch ∷ r.0, true))) combine_end
]
combine-spaced b (ch ∷ next ∷ rest) s e = elim (spaced-Char b ch (next ∷ rest) s) [
  | blank k f t ↦
      ap (λ c. combine c (ch ∷ next ∷ rest)) f
      ∙ combine_first_space ch (next ∷ rest) (blank_is_space ch k)
      ∙ ap (Option.map (λ r. (32 ∷ r.0, r.1))) (combine-spaced true (next ∷ rest) t e)
      ∙ ap (λ c. some (c ∷ next ∷ rest, true)) (sym k)
  | letter k t ↦
      combine_letter ch (next ∷ rest) b (letter_no_space ch k) k
      ∙ ap (Option.map (λ r. (ch ∷ r.0, true))) (combine-spaced false (next ∷ rest) t e)
]

strip_space-ends_letter : (name : List ℕ) → ends_letter name ≡ true → strip_space name ≡ name
unfolding strip_space ends_letter
strip_space-ends_letter [] e = refl
strip_space-ends_letter (ch ∷ []) e =
    let k : (ch == 32) ≡ false = ≢→==-false ch 32 (single_letter ch e) in rw k refl
strip_space-ends_letter (ch ∷ next ∷ rest) e = ap (◌∷◌ ch) (strip_space-ends_letter (next ∷ rest) e)

skip_space-spaced : (name : List ℕ) → spaced true name ≡ true → skip_space name ≡ name
unfolding skip_space
skip_space-spaced [] s = refl
skip_space-spaced (ch ∷ name) s = elim (spaced-Char true ch name s) [
  | blank k f t ↦ absurd (true-ne-false f)
  | letter k t ↦ rw (letter_no_space ch k) refl
]

-- A name of at most 256 bytes without a byte below a space, with single spaces only and none at
-- its ends, which is not empty, is accepted as it is.
pub normalize_name-tidy : (name : List ℕ) → IsTidy name → normalize_name name ≡ some name
unfolding normalize_name
normalize_name-tidy name t =
    rw
      (
        combine-skip_space name,
        skip_space-spaced name t.spaces,
        combine-spaced true name t.spaces t.ending,
        strip_space-ends_letter name t.ending,
        lt→ltb-false max_name_length (length name) (omega (arith, t.fits)),
      )
      refl
