-- ===== src/Board/Free.antt =====
-- The search for a free place ends, and its answer is free and fits `int16_t`.
use verda_sxtelo.Common.{
  ℕ, zero, suc, ◌+◌, ◌*◌, ◌≤◌, ◌<◌, ◌≡◌, refl, sym, arith, Bool, true, false, not, none, some, List,
  [], ◌∷◌, if◌then◌else◌, length, Bool-cases, Option-cases, none-ne-some, inl, inr, ◌||◌, ◌⊎◌, All,
  true-ne-false,
}
use native.Mathlib.Decide.{dec_lt}
use verda_sxtelo.Common.Int.{ℤ, pos, IsInt16, ◌+ℤ◌, ◌≤ℤ◌}
use verda_sxtelo.Tile.{Tile, tile_size}
use verda_sxtelo.Board.{
  Point, overlaps, try_location, place, signs, first_free, try_columns, try_rows,
  find_free_location,
}

count : (ℕ → Bool) → ℕ → ℕ
count p zero = 0
count p (suc n) = (if p n then 1 else 0) + count p n

count-zero : (p : ℕ → Bool) (n : ℕ) → ((i : ℕ) → i < n → p i ≡ false) → count p n ≡ 0
unfolding count
count-zero p zero h = refl
count-zero p (suc n) h =
    ground (arith, h n (omega arith), count-zero p n (λ i l. h i (omega arith)))

-- What holds at two neighbours at most is counted twice at most.
count-neighbours :
    (p : ℕ → Bool) (n : ℕ)
    → ((i j : ℕ) → p i ≡ true → p j ≡ true → i < j → j ≤ i + 1)
    → count p n ≤ 2
unfolding count
count-neighbours p zero h = omega arith
count-neighbours p (suc zero) h = ground arith
count-neighbours p (suc (suc n)) h = elim (Bool-cases (p (suc n))) [
  | inl e ↦ ground (arith, count-zero p n (below e))
  | inr e ↦ ground (arith, count-neighbours p (suc n) h)
]
  where
    below : p (suc n) ≡ true → (i : ℕ) → i < n → p i ≡ false
    below e i l = elim (Bool-cases (p i)) [
      | inl t ↦ absurd (omega (arith, h i (suc n) t e (omega arith)))
      | inr f ↦ f
    ]

count-or :
    (p q r : ℕ → Bool) (n : ℕ)
    → ((i : ℕ) → r i ≡ true → (p i || q i) ≡ true)
    → count r n ≤ count p n + count q n
unfolding count
count-or p q r zero h = omega arith
count-or p q r (suc n) h = ground (arith, h n, count-or p q r n h)

count-all : (p : ℕ → Bool) (n : ℕ) → ((i : ℕ) → i < n → p i ≡ true) → count p n ≡ n
unfolding count
count-all p zero h = refl
count-all p (suc n) h = ground (arith, h n (omega arith), count-all p n (λ i l. h i (omega arith)))

-- The place of row `k` that is tried in the middle column, below the centre.
abbrev row_y : ℕ → ℤ
row_y k = pos (k * 21 + 170)

abbrev covers : Tile → ℕ → Bool
covers t k = overlaps (pos 290) (row_y k) t

abbrev blocked : List Tile → ℕ → Bool
blocked tiles k = not (try_location tiles (pos 290) (row_y k))

-- A tile covers at most two of those places, since it is lower than a row is high.
covers_neighbours : (t : Tile) (i j : ℕ) → covers t i ≡ true → covers t j ≡ true → i < j → j ≤ i + 1
unfolding overlaps ◌+ℤ◌
covers_neighbours t i j p q l = ground arith

count-blocked : (tiles : List Tile) (n : ℕ) → count (blocked tiles) n ≤ 2 * length tiles
unfolding try_location
count-blocked [] n = omega (arith, count-zero (blocked []) n (λ i l. refl))
count-blocked (t ∷ ts) n = omega (
  arith,
  count-or (covers t) (blocked ts) (blocked (t ∷ ts)) n (λ i e. ground arith),
  count-neighbours (covers t) n (covers_neighbours t),
  count-blocked ts n,
)

columns-none : (tiles : List Tile) (k : ℕ) → try_columns tiles 9 0 k ≡ none → blocked tiles k ≡ true
unfolding try_columns first_free signs place
columns-none tiles k h = elim (Bool-cases (try_location tiles (pos 290) (row_y k))) [
  | inl e ↦ ground (arith, e)
  | inr e ↦ rw e
]

rows-none :
    (tiles : List Tile) (fuel y : ℕ)
    → try_rows tiles fuel y ≡ none
    → (i : ℕ) → y ≤ i
    → i < y + fuel
    → blocked tiles i ≡ true
unfolding try_rows
rows-none tiles zero y h i lo hi = absurd (omega arith)
rows-none tiles (suc fuel) y h i lo hi = elim (Option-cases (try_columns tiles 9 0 y)) [
  | inl e ↦ elim (dec_lt y i) [
    | yes l ↦ rows-none tiles fuel (y + 1) (rw (e, try_rows) at h) i (omega arith) (omega arith)
    | no l ↦ let same : i ≡ y = omega arith in rw same (columns-none tiles y e)
  ]
  | inr (p, e) ↦ absurd (none-ne-some p (sym (rw (e, try_rows) at h)))
]

-- A tile at the place is beside the other one, or above or below it.
abbrev pub Apart : Point → Tile → Type 0
Apart p t =
    (p.0 +ℤ pos tile_size ≤ℤ t.x)
    ⊎ (t.x +ℤ pos tile_size ≤ℤ p.0)
    ⊎ (p.1 +ℤ pos tile_size ≤ℤ t.y)
    ⊎ (t.y +ℤ pos tile_size ≤ℤ p.1)

overlaps-Apart : (t : Tile) (x y : ℤ) → overlaps x y t ≡ false → Apart (x, y) t
unfolding overlaps
overlaps-Apart t x y h = ground arith

try_location-Apart :
    (tiles : List Tile) (x y : ℤ) → try_location tiles x y ≡ true → All (Apart (x, y)) tiles
unfolding try_location
try_location-Apart [] x y h = tt
try_location-Apart (t ∷ ts) x y h = elim (Bool-cases (overlaps x y t)) [
  | inl e ↦ absurd (true-ne-false (sym (rw e at h)))
  | inr e ↦ (overlaps-Apart t x y e, try_location-Apart ts x y (rw e at h))
]

-- What a place that the search returns satisfies.
pub record IsFree (tiles : List Tile) (p : Point) : Type 0 where
  pub free : All (Apart p) tiles
  pub x_fits : IsInt16 p.0
  pub y_fits : IsInt16 p.1

-- What the search has tested of the place.
record Accepted (tiles : List Tile) (p : Point) : Type 0 where
  free : try_location tiles p.0 p.1 ≡ true
  x_fits : IsInt16 p.0
  y_fits : IsInt16 p.1

Accepted-IsFree : (tiles : List Tile) (p : Point) → Accepted tiles p → IsFree tiles p
Accepted-IsFree tiles p a = record {
  free = try_location-Apart tiles p.0 p.1 a.free;
  x_fits = a.x_fits;
  y_fits = a.y_fits;
}

place_fits : (k center : ℕ) (minus : Bool) → k < 245 → center ≤ 290 → IsInt16 (place k minus center)
unfolding place
place_fits k center true h c = ground arith
place_fits k center false h c = ground arith

signs-Accepted :
    (tiles : List Tile) (x y : ℕ) {p : Point}
    → x < 245
    → y < 245
    → first_free tiles (signs x y) ≡ some p
    → Accepted tiles p
unfolding first_free signs
signs-Accepted tiles x y hx hy e = ground (
  arith,
  place_fits x 290 true,
  place_fits x 290 false,
  place_fits y 170 true,
  place_fits y 170 false,
)

columns-Accepted :
    (tiles : List Tile) (left x y : ℕ) {p : Point}
    → x + left < 245
    → y < 245
    → try_columns tiles left x y ≡ some p
    → Accepted tiles p
unfolding try_columns
columns-Accepted tiles zero x y hx hy e = cc
columns-Accepted tiles (suc left) x y hx hy e = elim (Option-cases (first_free tiles (signs x y))) [
  | inl n ↦ columns-Accepted tiles left (x + 1) y (omega arith) hy (rw (n, try_columns) at e)
  | inr (p, f) ↦ ground (arith, signs-Accepted tiles x y {p = p} (omega arith) hy f)
]

rows-Accepted :
    (tiles : List Tile) (fuel y : ℕ) {p : Point}
    → y + fuel < 246
    → try_rows tiles fuel y ≡ some p
    → Accepted tiles p
unfolding try_rows
rows-Accepted tiles zero y h e = cc
rows-Accepted tiles (suc fuel) y h e = elim (Option-cases (try_columns tiles 9 0 y)) [
  | inl n ↦ rows-Accepted tiles fuel (y + 1) (omega arith) (rw (n, try_rows) at e)
  | inr (p, f) ↦ ground (arith, columns-Accepted tiles 9 0 y {p = p} (omega arith) (omega arith) f)
]

-- With at most 122 tiles on the board, the search for a place ends within its fuel. A tile on the
-- place found overlaps none of the tiles, and both coordinates fit int16_t.
pub find_free_location_total :
    (tiles : List Tile)
    → length tiles ≤ 122
    → (p : Point) × (find_free_location tiles ≡ some p) × IsFree tiles p
unfolding find_free_location
find_free_location_total tiles h = elim (Option-cases (find_free_location tiles)) [
  | inl e ↦ absurd (
      omega (
        arith,
        count-all (blocked tiles) 245
            (λ i l. rows-none tiles 245 0 e i (omega arith) (omega arith)),
        count-blocked tiles 245,
      ))
  | inr (p, e) ↦ (p, e, Accepted-IsFree tiles p (rows-Accepted tiles 245 0 (omega arith) e))
]
