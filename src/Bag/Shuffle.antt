-- ===== src/Bag/Shuffle.antt =====
-- Shuffling permutes the tiles, whatever `rand ()` returns.
use verda_sxtelo.Common.{
  ℕ, zero, suc, ◌+◌, ◌%◌, ◌≡◌, refl, ◌∙◌, length, length-set, subst, some, List, [], ◌∷◌, get_elem?,
  set, Option-cases, inl, inr, none-ne-some,
}
use verda_sxtelo.Tile.{Tile}
use verda_sxtelo.Bag.{swap, shuffle_loop, shuffle_tiles}
use mathlib.Core.List.{Perm}
use mathlib.Core.List.Perm

module _ {ℓ} {A : Type ℓ} where
  -- Writing `b` at a place takes the element there out and puts `b` in.
  set-perm :
      (xs : List A) (i : ℕ) (a b : A) → get_elem? xs i ≡ some a → Perm (b ∷ xs) (a ∷ set xs i b)
  set-perm [] i a b h = absurd (none-ne-some a h)
  set-perm (x ∷ xs) zero a b h =
      let e : x ≡ a = cc in subst (λ c. Perm (b ∷ x ∷ xs) (c ∷ b ∷ xs)) e (Perm.swap x b xs)
  set-perm (x ∷ xs) (suc i) a b h =
      Perm.trans (Perm.swap x b xs)
        (Perm.trans (Perm.cons x (set-perm xs i a b h)) (Perm.swap a x (set xs i b)))

  -- An element that another place holds too is still there after it was copied over.
  get_elem?-set_copy :
      (xs : List A) (i j : ℕ) (a b : A)
      → get_elem? xs i ≡ some a
      → get_elem? xs j ≡ some b
      → get_elem? (set xs i b) j ≡ some b
  get_elem?-set_copy [] i j a b h k = k
  get_elem?-set_copy (x ∷ xs) zero zero a b h k = refl
  get_elem?-set_copy (x ∷ xs) zero (suc j) a b h k = k
  get_elem?-set_copy (x ∷ xs) (suc i) zero a b h k = k
  get_elem?-set_copy (x ∷ xs) (suc i) (suc j) a b h k = get_elem?-set_copy xs i j a b h k

swap-perm : (i j : ℕ) (tiles : List Tile) → Perm (swap i j tiles) tiles
unfolding swap
swap-perm i j tiles = elim (Option-cases (get_elem? tiles i)) [
  | inl e ↦ rw (e, swap) (Perm.refl tiles)
  | inr (a, e) ↦ elim (Option-cases (get_elem? tiles j)) [
    | inl d ↦ rw (e, swap, d) (Perm.refl tiles)
    | inr (b, d) ↦
        rw (e, swap, d)
          (Perm.symm (
            Perm.cons_inv {a = b} (
              Perm.trans (set-perm tiles i a b e)
                (set-perm (set tiles i b) j b a (get_elem?-set_copy tiles i j a b e d)))))
  ]
]

length-swap : (i j : ℕ) (tiles : List Tile) → length (swap i j tiles) ≡ length tiles
unfolding swap
length-swap i j tiles = elim (Option-cases (get_elem? tiles i)) [
  | inl e ↦ rw (e, swap)
  | inr (a, e) ↦ elim (Option-cases (get_elem? tiles j)) [
    | inl d ↦ rw (e, swap, d)
    | inr (b, d) ↦ rw (e, swap, d) (length-set (set tiles i b) j a ∙ length-set tiles i b)
  ]
]

module _ (rand : ℕ → ℕ) where
  shuffle_loop-perm : (i : ℕ) (tiles : List Tile) → Perm (shuffle_loop rand i tiles) tiles
  unfolding shuffle_loop
  shuffle_loop-perm zero tiles = Perm.refl tiles
  shuffle_loop-perm (suc i) tiles =
      Perm.trans (shuffle_loop-perm i (swap (rand (suc i) % (suc i + 1)) (suc i) tiles))
        (swap-perm (rand (suc i) % (suc i + 1)) (suc i) tiles)

  -- Shuffling keeps every tile of the bag, as often as it was there.
  pub shuffle_tiles-perm : (tiles : List Tile) → Perm (shuffle_tiles rand tiles) tiles
  unfolding shuffle_tiles
  shuffle_tiles-perm tiles = shuffle_loop-perm 121 tiles

  length-shuffle_loop :
      (i : ℕ) (tiles : List Tile) → length (shuffle_loop rand i tiles) ≡ length tiles
  unfolding shuffle_loop
  length-shuffle_loop zero tiles = refl
  length-shuffle_loop (suc i) tiles =
      length-shuffle_loop i (swap (rand (suc i) % (suc i + 1)) (suc i) tiles)
      ∙ length-swap (rand (suc i) % (suc i + 1)) (suc i) tiles

  pub length-shuffle_tiles : (tiles : List Tile) → length (shuffle_tiles rand tiles) ≡ length tiles
  unfolding shuffle_tiles
  length-shuffle_tiles tiles = length-shuffle_loop 121 tiles
