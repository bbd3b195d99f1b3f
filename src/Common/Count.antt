-- ===== src/Common/Count.antt =====
-- Counting the elements of a list that pass a test, and what one write changes.
use Prim.Native.Nat.{ℕ, zero, suc, ◌+◌, ◌<◌, ◌≤◌}
use mathlib.Core.Path.{◌≡◌, refl, ap}
use mathlib.Core.Logic.{◌≢◌, inl, inr}
use mathlib.Core.Bool.{Bool, true, false}
use mathlib.Core.Option.{some}
use mathlib.Core.List.{List, [], ◌∷◌, ◌++◌}
use native.Mathlib.Omega.{arith}
use verda_sxtelo.Common.Tests.{if◌then◌else◌, none-ne-some, Bool-cases}
use verda_sxtelo.Common.Lists.{length, get_elem?, set, All}

abbrev pub bit : Bool → ℕ
bit b = if b then 1 else 0

module _ {ℓ} {A : Type ℓ} where
  abbrev pub count : (A → Bool) → List A → ℕ
  count f [] = 0
  count f (x ∷ xs) = bit (f x) + count f xs

module _ {ℓ} {A : Type ℓ} where
  pub count-append : (f : A → Bool) (xs ys : List A) → count f (xs ++ ys) ≡ count f xs + count f ys
  count-append f [] ys = omega arith
  count-append f (x ∷ xs) ys = omega (arith, count-append f xs ys)

  -- One write exchanges one element.
  pub count-set :
      (f : A → Bool) (xs : List A) (i : ℕ) (a b : A)
      → get_elem? xs i ≡ some a
      → count f (set xs i b) + bit (f a) ≡ count f xs + bit (f b)
  count-set f [] i a b h = absurd (none-ne-some a h)
  count-set f (x ∷ xs) zero a b h = let e : x ≡ a = cc in rw e (omega arith)
  count-set f (x ∷ xs) (suc i) a b h = omega (arith, count-set f xs i a b h)

  pub bit-le-count :
      (f : A → Bool) (xs : List A) (i : ℕ) (a : A)
      → get_elem? xs i ≡ some a
      → bit (f a) ≤ count f xs
  bit-le-count f [] i a h = absurd (none-ne-some a h)
  bit-le-count f (x ∷ xs) zero a h = let e : x ≡ a = cc in ground arith
  bit-le-count f (x ∷ xs) (suc i) a h = omega (arith, bit-le-count f xs i a h)

  pub count_none :
      (f : A → Bool) (xs : List A)
      → ((i : ℕ) (a : A) → get_elem? xs i ≡ some a → f a ≡ false)
      → count f xs ≡ 0
  count_none f [] h = refl
  count_none f (x ∷ xs) h = ground (arith, h 0 x refl, count_none f xs (λ i a e. h (suc i) a e))

  pub set_same : (xs : List A) (i : ℕ) (a : A) → get_elem? xs i ≡ some a → set xs i a ≡ xs
  set_same [] i a h = refl
  set_same (x ∷ xs) zero a h = let e : x ≡ a = cc in cc
  set_same (x ∷ xs) (suc i) a h = ap (◌∷◌ x) (set_same xs i a h)

  pub All-set {κ} :
      (P : A → Type κ) (xs : List A) (i : ℕ) (b : A) → All P xs → P b → All P (set xs i b)
  All-set P [] i b h k = h
  All-set P (x ∷ xs) zero b (h, hs) k = (k, hs)
  All-set P (x ∷ xs) (suc i) b (h, hs) k = (h, All-set P xs i b hs k)

  pub All-get_elem? {κ} :
      (P : A → Type κ) (xs : List A) (i : ℕ) (a : A) → All P xs → get_elem? xs i ≡ some a → P a
  All-get_elem? P [] i a h e = absurd (none-ne-some a e)
  All-get_elem? P (x ∷ xs) zero a (h, hs) e = let q : x ≡ a = cc in rw q at h
  All-get_elem? P (x ∷ xs) (suc i) a (h, hs) e = All-get_elem? P xs i a hs e

  pub All-append {κ} : (P : A → Type κ) (xs ys : List A) → All P xs → All P ys → All P (xs ++ ys)
  All-append P [] ys h k = k
  All-append P (x ∷ xs) ys (h, hs) k = (h, All-append P xs ys hs k)

  pub get_elem?-some : (xs : List A) (i : ℕ) → i < length xs → (a : A) × (get_elem? xs i ≡ some a)
  get_elem?-some [] i h = absurd (omega arith)
  get_elem?-some (x ∷ xs) zero h = (x, refl)
  get_elem?-some (x ∷ xs) (suc i) h = get_elem?-some xs i (omega arith)

  pub get_elem?_lt : (xs : List A) (i : ℕ) (a : A) → get_elem? xs i ≡ some a → i < length xs
  get_elem?_lt [] i a h = absurd (none-ne-some a h)
  get_elem?_lt (x ∷ xs) zero a h = omega arith
  get_elem?_lt (x ∷ xs) (suc i) a h = omega (arith, get_elem?_lt xs i a h)

  -- If the test passes nowhere but at one place, that place is the whole count.
  pub count_only :
      (f : A → Bool) (xs : List A) (i : ℕ) (a : A)
      → get_elem? xs i ≡ some a
      → ((j : ℕ) (c : A) → get_elem? xs j ≡ some c → f c ≡ true → j ≡ i)
      → count f xs ≡ bit (f a)
  count_only f [] i a h only = absurd (none-ne-some a h)
  count_only f (x ∷ xs) zero a h only =
      let e : x ≡ a = cc in
      rw e (
        omega (
          arith,
          count_none f xs (λ j c g. elim (Bool-cases (f c)) [
            | inl t ↦ absurd (omega (arith, only (suc j) c g t))
            | inr n ↦ n
          ]),
        ))
  count_only f (x ∷ xs) (suc i) a h only = elim (Bool-cases (f x)) [
    | inl t ↦ absurd (omega (arith, only 0 x refl t))
    | inr n ↦
        rw n (omega (arith, count_only f xs i a h (λ j c g t. omega (arith, only (suc j) c g t))))
  ]

  -- Two places are counted apart.
  pub two_bits-le-count :
      (f : A → Bool) (xs : List A) (i j : ℕ) (a b : A)
      → get_elem? xs i ≡ some a
      → get_elem? xs j ≡ some b
      → i ≢ j
      → bit (f a) + bit (f b) ≤ count f xs
  two_bits-le-count f [] i j a b h k ne = absurd (none-ne-some a h)
  two_bits-le-count f (x ∷ xs) zero zero a b h k ne = absurd (ne refl)
  two_bits-le-count f (x ∷ xs) zero (suc j) a b h k ne =
      let e : x ≡ a = cc in rw (← e) (omega (arith, bit-le-count f xs j b k))
  two_bits-le-count f (x ∷ xs) (suc i) zero a b h k ne =
      let e : x ≡ b = cc in rw (← e) (omega (arith, bit-le-count f xs i a h))
  two_bits-le-count f (x ∷ xs) (suc i) (suc j) a b h k ne =
      omega (arith, two_bits-le-count f xs i j a b h k (λ e. ne (ap suc e)))
