-- ===== src/Frames/Step.antt =====
-- More bytes behind a frame that is there do not change what is done with it.
use verda_sxtelo.Common.{
  true-ne-false, none-ne-some, leb, subst, ℕ, zero, suc, ◌+◌, ◌≤◌, ◌≡◌, refl, sym, ap, ◌∙◌, arith,
  true, false, some, none, List, [], ◌∷◌, ◌++◌, length, length-append, take, drop, ltb, ◌==◌,
  Bool-cases, inl, inr, ltb-false→le, lt→ltb-false, ◌%◌,
}
use mathlib.Core.Option.{some-injective}
use verda_sxtelo.Frames.{Header, header, from_be, extended, read_header}

module _ {ℓ} {A : Type ℓ} where
  pub take-append_long : (n : ℕ) (xs ys : List A) → n ≤ length xs → take n (xs ++ ys) ≡ take n xs
  take-append_long zero xs ys h = refl
  take-append_long (suc n) [] ys h = absurd (omega arith)
  take-append_long (suc n) (x ∷ xs) ys h = ap (◌∷◌ x) (take-append_long n xs ys (omega arith))

  pub drop-append_long :
      (n : ℕ) (xs ys : List A) → n ≤ length xs → drop n (xs ++ ys) ≡ drop n xs ++ ys
  drop-append_long zero xs ys h = refl
  drop-append_long (suc n) [] ys h = absurd (omega arith)
  drop-append_long (suc n) (x ∷ xs) ys h = drop-append_long n xs ys (omega arith)

-- What a header says of its own size.
pub record IsHeader (h : Header) : Type 0 where
  pub least : 2 ≤ h.header_size
  pub most : h.header_size ≤ 14
  pub mask_size : h.has_mask ≡ true → 4 ≤ h.header_size

header-IsHeader :
    (first second n size : ℕ) → 2 ≤ size → size ≤ 10 → IsHeader (header first second n size)
header-IsHeader first second n size h l = elim (Bool-cases (leb 128 second)) [
  | inl e ↦ record {
    least = rw e (omega (arith, h));
    most = rw e (omega (arith, l));
    mask_size = λ t. rw e (omega arith);
  }
  | inr e ↦ record {
    least = rw e h;
    most = rw e (omega (arith, l));
    mask_size = λ t. absurd (true-ne-false (sym t ∙ e));
  }
]

from_be-append : (k : ℕ) (xs ys : List ℕ) → k ≤ length xs → from_be k (xs ++ ys) ≡ from_be k xs
unfolding from_be
from_be-append k xs ys h = rw (take-append_long k xs ys h) refl

module _ (first second : ℕ) (xs : List ℕ) where
  extended_short : (k : ℕ) → ltb (length xs) k ≡ true → extended k first second xs ≡ none
  unfolding extended
  extended_short k e = rw e refl

  pub extended_long :
      (k : ℕ)
      → ltb (length xs) k ≡ false
      → extended k first second xs ≡ some (header first second (from_be k xs) (2 + k))
  unfolding extended
  extended_long k e = rw e refl

  extended-IsHeader :
      (k : ℕ) (h : Header) → k ≤ 8 → extended k first second xs ≡ some h → IsHeader h
  extended-IsHeader k h l e = elim (Bool-cases (ltb (length xs) k)) [
    | inl t ↦ absurd (none-ne-some h (sym (extended_short k t) ∙ e))
    | inr t ↦
        let s : header first second (from_be k xs) (2 + k) ≡ h =
          some-injective _ _ (sym (extended_long k t) ∙ e) in
        subst IsHeader s
          (header-IsHeader first second (from_be k xs) (2 + k) (omega arith) (omega (arith, l)))
  ]

  pub read_two :
      ((second % 128) == 126) ≡ true
      → read_header (first ∷ second ∷ xs) ≡ extended 2 first second xs
  unfolding read_header
  read_two e = rw e refl

  read_eight :
      ((second % 128) == 126) ≡ false
      → ((second % 128) == 127) ≡ true
      → read_header (first ∷ second ∷ xs) ≡ extended 8 first second xs
  unfolding read_header
  read_eight e e' = rw (e, e') refl

  pub read_short :
      ((second % 128) == 126) ≡ false
      → ((second % 128) == 127) ≡ false
      → read_header (first ∷ second ∷ xs) ≡ some (header first second (second % 128) 2)
  unfolding read_header
  read_short e e' = rw (e, e') refl

extended-append :
    (first second : ℕ) (xs ys : List ℕ) (k : ℕ) (h : Header)
    → extended k first second xs ≡ some h
    → extended k first second (xs ++ ys) ≡ some h
extended-append first second xs ys k h e = elim (Bool-cases (ltb (length xs) k)) [
  | inl t ↦ absurd (none-ne-some h (sym (extended_short first second xs k t) ∙ e))
  | inr t ↦
      let l = ltb-false→le (length xs) k t in
      extended_long first second (xs ++ ys) k
        (lt→ltb-false _ k (omega (arith, l, length-append xs ys)))
      ∙ ap (λ n. some (header first second n (2 + k))) (from_be-append k xs ys l)
      ∙ sym (extended_long first second xs k t)
      ∙ e
]

pub read_header-IsHeader : (xs : List ℕ) (h : Header) → read_header xs ≡ some h → IsHeader h
unfolding read_header
read_header-IsHeader [] h e = absurd (none-ne-some h e)
read_header-IsHeader (a ∷ []) h e = absurd (none-ne-some h e)
read_header-IsHeader (a ∷ b ∷ xs) h e = elim (Bool-cases ((b % 128) == 126)) [
  | inl t ↦ extended-IsHeader a b xs 2 h (omega arith) (sym (read_two a b xs t) ∙ e)
  | inr t ↦ elim (Bool-cases ((b % 128) == 127)) [
    | inl u ↦ extended-IsHeader a b xs 8 h (omega arith) (sym (read_eight a b xs t u) ∙ e)
    | inr u ↦
        subst IsHeader (some-injective _ _ (sym (read_short a b xs t u) ∙ e))
          (header-IsHeader a b (b % 128) 2 (omega arith) (omega arith))
  ]
]

pub read_header-append :
    (xs ys : List ℕ) (h : Header) → read_header xs ≡ some h → read_header (xs ++ ys) ≡ some h
unfolding read_header
read_header-append [] ys h e = absurd (none-ne-some h e)
read_header-append (a ∷ []) ys h e = absurd (none-ne-some h e)
read_header-append (a ∷ b ∷ xs) ys h e = elim (Bool-cases ((b % 128) == 126)) [
  | inl t ↦ read_two a b (xs ++ ys) t ∙ extended-append a b xs ys 2 h (sym (read_two a b xs t) ∙ e)
  | inr t ↦ elim (Bool-cases ((b % 128) == 127)) [
    | inl u ↦
        read_eight a b (xs ++ ys) t u
        ∙ extended-append a b xs ys 8 h (sym (read_eight a b xs t u) ∙ e)
    | inr u ↦ read_short a b (xs ++ ys) t u ∙ sym (read_short a b xs t u) ∙ e
  ]
]
