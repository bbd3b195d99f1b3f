-- ===== src/Proto/Numbers.antt =====
-- Numbers of a fixed size: what was written is read again, and the bytes of a number can be swapped.
use verda_sxtelo.Common.{
  ℕ, zero, suc, ◌+◌, ◌*◌, ◌/◌, ◌%◌, ◌<◌, ◌≡◌, refl, sym, ap, ap₂, ◌∙◌, arith, false, some, List, [],
  ◌∷◌, ◌++◌, All, length, length-append, take, drop, take-append, drop-append, lt→ltb-false, ltb,
}
use verda_sxtelo.Common.Int.{ℤ, pos, negsuc, IsInt16}
use verda_sxtelo.Proto.{write_le, read_le, to_bits, of_bits, read_number}

-- How many numbers there are of `k` bytes.
abbrev pub range : ℕ → ℕ
range zero = 1
range (suc k) = 256 * range k

abbrev pub IsByte : ℕ → Type 0
IsByte b = b < 256

pub length-write_le : (k n : ℕ) → length (write_le k n) ≡ k
unfolding write_le
length-write_le zero n = refl
length-write_le (suc k) n = ap suc (length-write_le k (n / 256))

pub write_le-IsByte : (k n : ℕ) → All IsByte (write_le k n)
unfolding write_le
write_le-IsByte zero n = tt
write_le-IsByte (suc k) n = (omega arith, write_le-IsByte k (n / 256))

pub read_le-write_le : (k n : ℕ) → n < range k → read_le (write_le k n) ≡ n
unfolding read_le write_le
read_le-write_le zero n h = omega arith
read_le-write_le (suc k) n h = omega (arith, read_le-write_le k (n / 256) (omega arith))

pub write_le-read_le :
    (bytes : List ℕ) → All IsByte bytes → write_le (length bytes) (read_le bytes) ≡ bytes
unfolding read_le write_le
write_le-read_le [] a = refl
write_le-read_le (b ∷ bytes) (h, a) =
    let low : (b + 256 * read_le bytes) % 256 ≡ b = omega arith in
    let high : (b + 256 * read_le bytes) / 256 ≡ read_le bytes = omega arith in
    ap₂ (λ (x : ℕ) (y : List ℕ). x ∷ y) low (rw high (write_le-read_le bytes a))

pub read_number-write_le :
    (k n : ℕ) (rest : List ℕ) → n < range k → read_number k (write_le k n ++ rest) ≡ some (n, rest)
unfolding read_number
read_number-write_le k n rest h =
    let l = length-write_le k n in
    let room : ltb (length (write_le k n ++ rest)) k ≡ false =
      lt→ltb-false _ _ (omega (arith, length-append (write_le k n) rest)) in
    let front : take k (write_le k n ++ rest) ≡ write_le k n =
      ap (λ j. take j (write_le k n ++ rest)) (sym l) ∙ take-append (write_le k n) rest in
    let behind : drop k (write_le k n ++ rest) ≡ rest =
      ap (λ j. drop j (write_le k n ++ rest)) (sym l) ∙ drop-append (write_le k n) rest in
    rw (room, front, behind, read_le-write_le k n h) refl

pub of_bits-to_bits : (z : ℤ) → IsInt16 z → of_bits (to_bits z) ≡ z
unfolding of_bits to_bits
of_bits-to_bits (pos n) h = ground arith
of_bits-to_bits (negsuc n) h = ground arith

pub to_bits_bound : (z : ℤ) → to_bits z < range 2
unfolding to_bits
to_bits_bound (pos n) = omega arith
to_bits_bound (negsuc n) = omega arith
