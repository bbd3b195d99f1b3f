-- ===== src/Common/Bits.antt =====
-- Facts about the native bit operations, which the tactics take for unknowns: over small ranges
-- by checking every value, and for the shifts and masks of the codecs by the law for one digit.
use Prim.Native.Nat.{
  ℕ, zero, suc, ◌+◌, ◌*◌, ◌/◌, ◌%◌, ◌≤◌, ◌<◌, min, max, bit_and, bit_or, bit_xor, bit_xor-bitwise,
  differ, digits, bit_and-bitwise, bit_or-bitwise,
}
use mathlib.Core.Path.{◌≡◌, refl, sym, ap, ◌∙◌}
use mathlib.Core.Bool.{Bool, true, ◌&&◌}
use native.Mathlib.Omega.{arith}
use verda_sxtelo.Common.Tests.{◌==◌, ==_iff}

-- A test that passes at every number of a table.
unfoldable pub table : (ℕ → Bool) → ℕ → Bool
table test zero = true
table test (suc size) = table test size && test size

pub read_table : (test : ℕ → Bool) (i size : ℕ) → i < size → table test size ≡ true → test i ≡ true
unfolding table
read_table test i zero l t = absurd (omega arith)
read_table test i (suc size) l t = ground (arith, read_table test i size)

-- Two functions that agree at every value of a table are equal there.
unfoldable pub agree_below : ℕ → (ℕ → ℕ) → (ℕ → ℕ) → Bool
unfolding table
agree_below n f g = table (λ x. f x == g x) n

pub agree_below_sound : (n : ℕ) (f g : ℕ → ℕ) (x : ℕ) → agree_below n f g ≡ true → x < n → f x ≡ g x
unfolding agree_below
agree_below_sound n f g x h lt = (==_iff _ _).0 (read_table (λ x. f x == g x) x n lt h)

-- An operation by digits, with the result `z` where the first number has run out.
module _ (z : ℕ → ℕ) (f : ℕ → ℕ → ℕ) where
  ran_out : (k b : ℕ) → digits z f k 0 b ≡ z b
  ran_out zero b = refl
  ran_out (suc k) b = refl

  -- More rounds than the first number has digits make no difference.
  enough : (a b k l : ℕ) → a ≤ k → a ≤ l → digits z f k a b ≡ digits z f l a b
  enough zero b k l h j = ran_out k b ∙ sym (ran_out l b)
  enough (suc a) b zero l h j = absurd (omega arith)
  enough (suc a) b (suc k) zero h j = absurd (omega arith)
  enough (suc a) b (suc k) (suc l) h j =
      ap (λ d. d * 2 + f (suc a % 2) (b % 2))
        (enough (suc a / 2) (b / 2) k l (omega arith) (omega arith))

  split_lowest :
      ((b : ℕ) → z b ≡ z (b / 2) * 2 + f 0 (b % 2))
      → (a b : ℕ) → digits z f a a b ≡ digits z f (a / 2) (a / 2) (b / 2) * 2 + f (a % 2) (b % 2)
  split_lowest edge zero b = edge b
  split_lowest edge (suc a) b =
      ap (λ d. d * 2 + f (suc a % 2) (b % 2))
        (enough (suc a / 2) (b / 2) a (suc a / 2) (omega arith) (omega arith))

pub lowest_and : (x y : ℕ) → bit_and x y ≡ min (x % 2) (y % 2) + bit_and (x / 2) (y / 2) * 2
lowest_and x y = omega (
  arith,
  split_lowest (λ b. 0) min (λ b. omega arith) x y,
  bit_and-bitwise x y,
  bit_and-bitwise (x / 2) (y / 2),
)

pub lowest_or : (x y : ℕ) → bit_or x y ≡ max (x % 2) (y % 2) + bit_or (x / 2) (y / 2) * 2
lowest_or x y = omega (
  arith,
  split_lowest (λ b. b) max (λ b. omega arith) x y,
  bit_or-bitwise x y,
  bit_or-bitwise (x / 2) (y / 2),
)

-- A mask without a one.
empty : (k x : ℕ) → x ≤ k → (bit_and x 0 ≡ 0) × (bit_or x 0 ≡ x)
empty k zero l = (refl, refl)
empty zero (suc x) l = absurd (omega arith)
empty (suc k) (suc x) l =
    let r = empty k (suc x / 2) (omega arith) in
    (omega (arith, lowest_and (suc x) 0, r.0), omega (arith, lowest_or (suc x) 0, r.1))

pub bit_and_one : (a : ℕ) → bit_and a 1 ≡ a % 2
bit_and_one a = omega (arith, lowest_and a 1, (empty (a / 2) (a / 2) (omega arith)).0)

pub bit_and_three : (a : ℕ) → bit_and a 3 ≡ a % 4
bit_and_three a = omega (arith, lowest_and a 3, bit_and_one (a / 2))

pub bit_and_fifteen : (a : ℕ) → bit_and a 15 ≡ a % 16
bit_and_fifteen a = omega (arith, lowest_and a 15, lowest_and (a / 2) 7, bit_and_three (a / 2 / 2))

-- `a & 0x3f`
pub low_six : (a : ℕ) → bit_and a 63 ≡ a % 64
low_six a = omega (arith, lowest_and a 63, lowest_and (a / 2) 31, bit_and_fifteen (a / 2 / 2))

bit_or-zero : (a : ℕ) → bit_or a 0 ≡ a
bit_or-zero a = (empty a a (omega arith)).1

-- `v << 1 | w`, one digit of the shift.
or_digit : (v w : ℕ) → bit_or (v * 2) w ≡ bit_or v (w / 2) * 2 + w % 2
or_digit v w = lowest_or (v * 2) w ∙ rw (halves v) (omega arith)
  where
    halves : (v : ℕ) → v * 2 / 2 ≡ v
    halves v = omega arith

-- `v << k`
abbrev pub shifted : ℕ → ℕ → ℕ
shifted zero v = v
shifted (suc k) v = shifted k v * 2

-- `v << k | w` appends `k` bits.
pub or_low : (k v w : ℕ) → w < shifted k 1 → bit_or (shifted k v) w ≡ shifted k v + w
or_low zero v w h = let z : w ≡ 0 = omega arith in rw z (bit_or-zero v ∙ omega arith)
or_low (suc k) v w h = omega (arith, or_digit (shifted k v) w, or_low k v (w / 2) (omega arith))

pub or_four : (v w : ℕ) → w < 16 → bit_or (v * 16) w ≡ v * 16 + w
or_four v w h = let e : v * 16 ≡ shifted 4 v = omega arith in rw e (or_low 4 v w h)

pub or_six : (v w : ℕ) → w < 64 → bit_or (v * 64) w ≡ v * 64 + w
or_six v w h = let e : v * 64 ≡ shifted 6 v = omega arith in rw e (or_low 6 v w h)

pub or_eight : (v w : ℕ) → w < 256 → bit_or (v * 256) w ≡ v * 256 + w
or_eight v w h = let e : v * 256 ≡ shifted 8 v = omega arith in rw e (or_low 8 v w h)

pub or_sixteen : (v w : ℕ) → w < 65536 → bit_or (v * 65536) w ≡ v * 65536 + w
or_sixteen v w h = let e : v * 65536 ≡ shifted 16 v = omega arith in rw e (or_low 16 v w h)

pub lowest_xor : (x y : ℕ) → bit_xor x y ≡ differ (x % 2) (y % 2) + bit_xor (x / 2) (y / 2) * 2
lowest_xor x y = omega (
  arith,
  split_lowest (λ b. b) differ (λ b. omega arith) x y,
  bit_xor-bitwise x y,
  bit_xor-bitwise (x / 2) (y / 2),
)

differ_small : (p q : ℕ) → p < 2 → q < 2 → (differ p q < 2) × (differ (differ p q) q ≡ p)
differ_small zero zero h l = (omega arith, refl)
differ_small zero (suc zero) h l = (omega arith, refl)
differ_small (suc zero) zero h l = (omega arith, refl)
differ_small (suc zero) (suc zero) h l = (omega arith, refl)
differ_small (suc (suc p)) q h l = absurd (omega arith)
differ_small p (suc (suc q)) h l = absurd (omega arith)

digit_small : (a b : ℕ) → differ (a % 2) (b % 2) < 2
digit_small a b = (differ_small (a % 2) (b % 2) (omega arith) (omega arith)).0

xor_digit : (a b : ℕ) → bit_xor a b % 2 ≡ differ (a % 2) (b % 2)
xor_digit a b = omega (arith, lowest_xor a b, digit_small a b)

xor_half : (a b : ℕ) → bit_xor a b / 2 ≡ bit_xor (a / 2) (b / 2)
xor_half a b = omega (arith, lowest_xor a b, digit_small a b)

nothing : (a : ℕ) → a < 1 → a ≡ 0
nothing a h = omega arith

low_digit : (c z : ℕ) → (c + z * 2) % 2 ≡ c % 2
low_digit c z = omega arith

high_digits : (c z : ℕ) → (c + z * 2) / 2 ≡ c / 2 + z
high_digits c z = omega arith

zero_plus : (z : ℕ) → 0 + z ≡ z
zero_plus z = omega arith

-- The digits below and above a place are independent.
pub xor_split :
    (k a b x y : ℕ)
    → a < shifted k 1
    → b < shifted k 1
    → bit_xor (a + shifted k x) (b + shifted k y) ≡ bit_xor a b + shifted k (bit_xor x y)
xor_split zero a b x y h l =
    rw (nothing a h, nothing b l, zero_plus x, zero_plus y) (sym (zero_plus (bit_xor x y)))
xor_split (suc k) a b x y h l =
    lowest_xor (a + shifted k x * 2) (b + shifted k y * 2)
    ∙ rw
        (
          low_digit a (shifted k x),
          low_digit b (shifted k y),
          high_digits a (shifted k x),
          high_digits b (shifted k y),
          xor_split k (a / 2) (b / 2) x y (omega arith) (omega arith),
          lowest_xor a b,
        )
        (omega arith)

pub xor_bound : (k a b : ℕ) → a < shifted k 1 → b < shifted k 1 → bit_xor a b < shifted k 1
xor_bound zero a b h l = rw (nothing a h, nothing b l) (omega arith)
xor_bound (suc k) a b h l = omega (
  arith,
  lowest_xor a b,
  digit_small a b,
  xor_bound k (a / 2) (b / 2) (omega arith) (omega arith),
)

pub xor_twice : (k a b : ℕ) → a < shifted k 1 → b < shifted k 1 → bit_xor (bit_xor a b) b ≡ a
xor_twice zero a b h l = rw (nothing a h, nothing b l) refl
xor_twice (suc k) a b h l =
    lowest_xor (bit_xor a b) b
    ∙ rw
        (
          xor_digit a b,
          xor_half a b,
          xor_twice k (a / 2) (b / 2) (omega arith) (omega arith),
          (differ_small (a % 2) (b % 2) (omega arith) (omega arith)).1,
        )
        (omega arith)
