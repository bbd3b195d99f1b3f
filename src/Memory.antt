-- ===== src/Memory.antt =====
-- Functions of the C library on memory that several files call, as the C standard describes them.
use verda_sxtelo.Common.{
  ℕ, ◌+◌, ◌≡◌, true, false, Option, none, some, List, [], ◌∷◌, ◌==◌, if◌then◌else◌,
}

-- `memchr`, as an index.
unfoldable pub memchr : List ℕ → ℕ → Option ℕ
memchr [] ch = none
memchr (b ∷ data') ch =
    if b == ch then some 0 else elim (memchr data' ch) [ some i ↦ some (i + 1) | none ↦ none ]

pub memchr_here :
    (b : ℕ) (bytes : List ℕ) (ch : ℕ) → (b == ch) ≡ true → memchr (b ∷ bytes) ch ≡ some 0
unfolding memchr
memchr_here b bytes ch e = rw e

pub memchr-none :
    (b : ℕ) (bytes : List ℕ) (ch : ℕ)
    → (b == ch) ≡ false
    → memchr bytes ch ≡ none
    → memchr (b ∷ bytes) ch ≡ none
unfolding memchr
memchr-none b bytes ch e n = rw (e, n)

pub memchr_next :
    (b : ℕ) (bytes : List ℕ) (ch i : ℕ)
    → (b == ch) ≡ false
    → memchr bytes ch ≡ some i
    → memchr (b ∷ bytes) ch ≡ some (i + 1)
unfolding memchr
memchr_next b bytes ch i e k = rw (e, k)
