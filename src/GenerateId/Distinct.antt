-- ===== src/GenerateId/Distinct.antt =====
-- The address of the client takes nothing from the randomness of a number.
use verda_sxtelo.Common.{
  ℕ, zero, suc, ◌+◌, ◌-◌, ◌*◌, ◌/◌, ◌%◌, ◌≤◌, ◌≡◌, refl, sym, ap, ap₂, ◌∙◌, arith, List, [], ◌∷◌,
  ◌++◌, length, length-append, length-take, take, get_or, if◌then◌else◌, All, Bool-cases, inl, inr,
}
use verda_sxtelo.Common.Bits.{xor_bound, xor_twice}
use verda_sxtelo.Proto.{write_le, read_le}
use verda_sxtelo.Proto.Numbers.{IsByte, write_le-read_le, write_le-IsByte, length-write_le}
use verda_sxtelo.GenerateId.{
  Address, xor_from, xor_bytes, fill_from_rand, random_bytes, mix, generate_id,
}

pub record IsAddress (a : Address) : Type 0 where
  pub port_bytes : All IsByte a.port
  pub ipv4_bytes : All IsByte a.ipv4
  pub ipv6_bytes : All IsByte a.ipv6

get_or-IsByte : (bytes : List ℕ) (i : ℕ) → All IsByte bytes → IsByte (get_or bytes i 0)
get_or-IsByte [] i a = omega arith
get_or-IsByte (b ∷ bytes) zero (h, a) = h
get_or-IsByte (b ∷ bytes) (suc i) (h, a) = get_or-IsByte bytes i a

xor_from_twice :
    (bytes : List ℕ) (pos : ℕ) (id_bytes : List ℕ)
    → All IsByte bytes
    → All IsByte id_bytes
    → xor_from bytes pos (xor_from bytes pos id_bytes) ≡ id_bytes
unfolding xor_from
xor_from_twice bytes pos [] a h = refl
xor_from_twice bytes pos (b ∷ id_bytes) a (k, h) =
    ap₂ ◌∷◌ (xor_twice 8 b (get_or bytes pos 0) k (get_or-IsByte bytes pos a))
      (xor_from_twice bytes ((pos + 1) % length bytes) id_bytes a h)

xor_from-IsByte :
    (bytes : List ℕ) (pos : ℕ) (id_bytes : List ℕ)
    → All IsByte bytes
    → All IsByte id_bytes
    → All IsByte (xor_from bytes pos id_bytes)
unfolding xor_from
xor_from-IsByte bytes pos [] a h = tt
xor_from-IsByte bytes pos (b ∷ id_bytes) a (k, h) = (
  xor_bound 8 b (get_or bytes pos 0) k (get_or-IsByte bytes pos a),
  xor_from-IsByte bytes ((pos + 1) % length bytes) id_bytes a h,
)

length-xor_from :
    (bytes : List ℕ) (pos : ℕ) (id_bytes : List ℕ)
    → length (xor_from bytes pos id_bytes) ≡ length id_bytes
unfolding xor_from
length-xor_from bytes pos [] = refl
length-xor_from bytes pos (b ∷ id_bytes) =
    ap suc (length-xor_from bytes ((pos + 1) % length bytes) id_bytes)

family_bytes : (a : Address) → IsAddress a → All IsByte (if a.is_ipv6 then a.ipv6 else a.ipv4)
family_bytes a i = elim (Bool-cases a.is_ipv6) [
  | inl e ↦ rw e i.ipv6_bytes
  | inr e ↦ rw e i.ipv4_bytes
]

-- What undoes the mixing of an address.
unmix : Address → List ℕ → List ℕ
unmix a id_bytes = xor_bytes (xor_bytes id_bytes (if a.is_ipv6 then a.ipv6 else a.ipv4)) a.port

unmix-mix :
    (a : Address) (id_bytes : List ℕ)
    → IsAddress a
    → All IsByte id_bytes
    → unmix a (mix a id_bytes) ≡ id_bytes
unfolding mix unmix xor_bytes
unmix-mix a id_bytes i h =
    ap (xor_from a.port 0) (
      xor_from_twice (if a.is_ipv6 then a.ipv6 else a.ipv4) 0 (xor_from a.port 0 id_bytes)
        (family_bytes a i) (xor_from-IsByte a.port 0 id_bytes i.port_bytes h))
    ∙ xor_from_twice a.port 0 id_bytes i.port_bytes h

mix-IsByte :
    (a : Address) (id_bytes : List ℕ)
    → IsAddress a
    → All IsByte id_bytes
    → All IsByte (mix a id_bytes)
unfolding mix xor_bytes
mix-IsByte a id_bytes i h =
    xor_from-IsByte (if a.is_ipv6 then a.ipv6 else a.ipv4) 0 (xor_from a.port 0 id_bytes)
      (family_bytes a i) (xor_from-IsByte a.port 0 id_bytes i.port_bytes h)

length-mix : (a : Address) (id_bytes : List ℕ) → length (mix a id_bytes) ≡ length id_bytes
unfolding mix xor_bytes
length-mix a id_bytes =
    length-xor_from (if a.is_ipv6 then a.ipv6 else a.ipv4) 0 (xor_from a.port 0 id_bytes)
    ∙ length-xor_from a.port 0 id_bytes

mixed_back :
    (a : Address) (id_bytes : List ℕ)
    → IsAddress a
    → All IsByte id_bytes
    → length id_bytes ≡ 8
    → unmix a (write_le 8 (read_le (mix a id_bytes))) ≡ id_bytes
mixed_back a id_bytes i h l =
    ap (λ k. unmix a (write_le k (read_le (mix a id_bytes)))) (sym (length-mix a id_bytes ∙ l))
    ∙ ap (unmix a) (write_le-read_le (mix a id_bytes) (mix-IsByte a id_bytes i h))
    ∙ unmix-mix a id_bytes i h

All-append : (xs ys : List ℕ) → All IsByte xs → All IsByte ys → All IsByte (xs ++ ys)
All-append [] ys a b = b
All-append (x ∷ xs) ys (h, a) b = (h, All-append xs ys a b)

All-take : (n : ℕ) (xs : List ℕ) → All IsByte xs → All IsByte (take n xs)
All-take zero xs a = tt
All-take (suc n) [] a = tt
All-take (suc n) (x ∷ xs) (h, a) = (h, All-take n xs a)

fill_from_rand-IsByte : (rand : ℕ → ℕ) (i n : ℕ) → All IsByte (fill_from_rand rand i n)
unfolding fill_from_rand
fill_from_rand-IsByte rand i zero = tt
fill_from_rand-IsByte rand i (suc n) =
    All-append (write_le 2 (rand i)) (fill_from_rand rand (i + 1) n) (write_le-IsByte 2 (rand i))
      (fill_from_rand-IsByte rand (i + 1) n)

length-fill_from_rand : (rand : ℕ → ℕ) (i n : ℕ) → length (fill_from_rand rand i n) ≡ 2 * n
unfolding fill_from_rand
length-fill_from_rand rand i zero = refl
length-fill_from_rand rand i (suc n) = omega (
  arith,
  length-append (write_le 2 (rand i)) (fill_from_rand rand (i + 1) n),
  length-write_le 2 (rand i),
  length-fill_from_rand rand (i + 1) n,
)

random_bytes-IsByte :
    (got : List ℕ) (rand : ℕ → ℕ) → All IsByte got → All IsByte (random_bytes got rand)
unfolding random_bytes
random_bytes-IsByte got rand h =
    All-append (take (length got / 2 * 2) got)
      (fill_from_rand rand (length got / 2) (4 - length got / 2))
      (All-take (length got / 2 * 2) got h)
      (fill_from_rand-IsByte rand (length got / 2) (4 - length got / 2))

length-random_bytes :
    (got : List ℕ) (rand : ℕ → ℕ) → length got ≤ 8 → length (random_bytes got rand) ≡ 8
unfolding random_bytes
length-random_bytes got rand l = omega (
  arith,
  l,
  length-append (take (length got / 2 * 2) got)
      (fill_from_rand rand (length got / 2) (4 - length got / 2)),
  length-take (length got / 2 * 2) got,
  length-fill_from_rand rand (length got / 2) (4 - length got / 2),
)

-- For one and the same address of bytes, numbers are equal only where the random bytes are,
-- whether these come from /dev/urandom, which gave up to eight bytes, or from rand (): mixing in
-- the address makes no two numbers the same.
pub generate_id-injective :
    (got got' : List ℕ) (rand rand' : ℕ → ℕ) (a : Address)
    → IsAddress a
    → All IsByte got
    → All IsByte got'
    → length got ≤ 8
    → length got' ≤ 8
    → generate_id got rand a ≡ generate_id got' rand' a
    → random_bytes got rand ≡ random_bytes got' rand'
unfolding generate_id
generate_id-injective got got' rand rand' a i h h' l l' e =
    sym (
      mixed_back a (random_bytes got rand) i (random_bytes-IsByte got rand h)
        (length-random_bytes got rand l))
    ∙ ap (λ n. unmix a (write_le 8 n)) e
    ∙ mixed_back a (random_bytes got' rand') i (random_bytes-IsByte got' rand' h')
        (length-random_bytes got' rand' l')
