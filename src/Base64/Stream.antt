-- ===== src/Base64/Stream.antt =====
-- Decoding in pieces is decoding the whole.
use verda_sxtelo.Common.{
  ℕ, ◌+◌, ◌<◌, ◌≤◌, ◌≡◌, refl, sym, ◌∙◌, ap, arith, Bool, true, false, Option, some, none, List, [],
  ◌∷◌, ◌++◌, ◌==◌, ltb, leb, ltb→lt, lt→ltb, Bool-cases, Option-cases, inl, inr, if◌then◌else◌,
}
use verda_sxtelo.Base64.{
  Base64Data, alphabet_value, push, pad, prepend, padding_result, decode_loop, handle_padding,
  decode,
}
use mathlib.Core.List.{append_assoc}

pub prepend_nothing : (r : Base64Data × Option (List ℕ)) → prepend [] r ≡ r
prepend_nothing (d, none) = refl
prepend_nothing (d, some out) = refl

-- Handling padding goes on unless it failed.
abbrev then_padding : Base64Data × Bool → List ℕ → Base64Data × Bool
then_padding r ys = if r.1 then handle_padding r.0 ys else r

-- A call of the decoder, and then another unless the first one failed.
abbrev pub then_decode : Base64Data × Option (List ℕ) → List ℕ → Base64Data × Option (List ℕ)
then_decode (d, none) ys = (d, none)
then_decode (d, some out) ys = prepend out (decode d ys)

handle_padding-append :
    (d : Base64Data) (xs ys : List ℕ)
    → handle_padding d (xs ++ ys) ≡ then_padding (handle_padding d xs) ys
unfolding handle_padding
handle_padding-append d [] ys = refl
handle_padding-append d (ch ∷ xs) ys =
    let skip = handle_padding-append d xs ys in
    let padded = handle_padding-append (pad d) xs ys in
    elim (Bool-cases (ch == 61)) [
      | inl e ↦ elim (Bool-cases (ltb 2 (d.n_padding + 1))) [
        | inl many ↦ rw (e, many) refl
        | inr few ↦ rw (e, few) padded
      ]
      | inr e ↦ elim (Option-cases (alphabet_value ch)) [
        | inl n ↦ rw (e, n) skip
        | inr (v, k) ↦ rw (e, k) refl
      ]
    ]

-- The count of padding never falls.
handle_padding_grows :
    (d : Base64Data) (xs : List ℕ) → d.n_padding ≤ (handle_padding d xs).0.n_padding
unfolding handle_padding
handle_padding_grows d [] = omega arith
handle_padding_grows d (ch ∷ xs) =
    let skip = handle_padding_grows d xs in
    let padded = handle_padding_grows (pad d) xs in
    elim (Bool-cases (ch == 61)) [
      | inl e ↦ elim (Bool-cases (ltb 2 (d.n_padding + 1))) [
        | inl many ↦ rw (e, many) (omega arith)
        | inr few ↦ rw (e, few) (omega arith)
      ]
      | inr e ↦ elim (Option-cases (alphabet_value ch)) [
        | inl n ↦ rw (e, n) skip
        | inr (v, k) ↦ rw (e, k) (omega arith)
      ]
    ]

-- A padding character is counted.
handle_padding_counts :
    (d : Base64Data) (ch : ℕ) (xs : List ℕ)
    → (ch == 61) ≡ true
    → 0 < (handle_padding d (ch ∷ xs)).0.n_padding
unfolding handle_padding
handle_padding_counts d ch xs e = elim (Bool-cases (ltb 2 (d.n_padding + 1))) [
  | inl many ↦ rw (e, many) (omega arith)
  | inr few ↦ rw (e, few) (omega (arith, handle_padding_grows (pad d) xs))
]

padding_result-append :
    (r : Base64Data × Bool) (ys : List ℕ)
    → 0 < r.0.n_padding
    → padding_result (then_padding r ys) ≡ then_decode (padding_result r) ys
unfolding decode
padding_result-append (d, false) ys h = refl
padding_result-append (d, true) ys h =
    rw (lt→ltb 0 d.n_padding h) (sym (prepend_nothing (padding_result (handle_padding d ys))))

then_decode-prepend :
    (bytes : List ℕ) (r : Base64Data × Option (List ℕ)) (ys : List ℕ)
    → prepend bytes (then_decode r ys) ≡ then_decode (prepend bytes r) ys
then_decode-prepend bytes (d, none) ys = refl
then_decode-prepend bytes (d, some out) ys = joined (decode d ys)
  where
    joined :
        (r : Base64Data × Option (List ℕ))
        → prepend bytes (prepend out r) ≡ prepend (bytes ++ out) r
    joined (d, none) = refl
    joined (d, some rest) = ap (λ out. (d, some out)) (sym (append_assoc bytes out rest))

push_padding : (d : Base64Data) (v : ℕ) → (push d v).0.n_padding ≡ d.n_padding
unfolding push
push_padding d v = elim (Bool-cases (leb 4 (d.n_chars + 1))) [ inl e ↦ rw e | inr e ↦ rw e ]

unpadded : (d : Base64Data) (ys : List ℕ) → d.n_padding ≡ 0 → decode_loop d ys ≡ decode d ys
unfolding decode
unpadded d ys h = rw h

-- The three things that the loop does with a character.
module _ (d : Base64Data) (ch : ℕ) (rest : List ℕ) where
  loop_value :
      (v : ℕ)
      → alphabet_value ch ≡ some v
      → decode_loop d (ch ∷ rest) ≡ prepend (push d v).1 (decode_loop (push d v).0 rest)
  unfolding decode_loop
  loop_value v k = rw (k, decode_loop)

  loop_padding :
      alphabet_value ch ≡ none
      → (ch == 61) ≡ true
      → decode_loop d (ch ∷ rest) ≡ padding_result (handle_padding d (ch ∷ rest))
  unfolding decode_loop handle_padding
  loop_padding n e = rw (n, e, decode_loop)

  loop_skip :
      alphabet_value ch ≡ none → (ch == 61) ≡ false → decode_loop d (ch ∷ rest) ≡ decode_loop d rest
  unfolding decode_loop
  loop_skip n e = rw (n, e, decode_loop)

decode_loop-append :
    (d : Base64Data) (xs ys : List ℕ)
    → d.n_padding ≡ 0
    → decode_loop d (xs ++ ys) ≡ then_decode (decode_loop d xs) ys
decode_loop-append d [] ys h =
    unfold decode_loop in (unpadded d ys h ∙ sym (prepend_nothing (decode d ys)))
decode_loop-append d (ch ∷ xs) ys h =
    let skip = decode_loop-append d xs ys h in
    let pushed = λ (v : ℕ). decode_loop-append (push d v).0 xs ys (push_padding d v ∙ h) in
    elim (Option-cases (alphabet_value ch)) [
      | inr (v, k) ↦
          loop_value d ch (xs ++ ys) v k
          ∙ ap (prepend (push d v).1) (pushed v)
          ∙ then_decode-prepend (push d v).1 (decode_loop (push d v).0 xs) ys
          ∙ ap (λ r. then_decode r ys) (sym (loop_value d ch xs v k))
      | inl n ↦ elim (Bool-cases (ch == 61)) [
        | inr e ↦
            loop_skip d ch (xs ++ ys) n e
            ∙ skip
            ∙ ap (λ r. then_decode r ys) (sym (loop_skip d ch xs n e))
        | inl e ↦
            loop_padding d ch (xs ++ ys) n e
            ∙ ap padding_result (handle_padding-append d (ch ∷ xs) ys)
            ∙ padding_result-append (handle_padding d (ch ∷ xs)) ys
                (handle_padding_counts d ch xs e)
            ∙ ap (λ r. then_decode r ys) (sym (loop_padding d ch xs n e))
      ]
    ]

-- Decoding base64 in pieces is decoding the whole: from any state, a call on two pieces put
-- together leaves the state and writes the bytes of a call on the first and then one on the
-- second, and fails where one of them does.
pub decode-append :
    (d : Base64Data) (xs ys : List ℕ) → decode d (xs ++ ys) ≡ then_decode (decode d xs) ys
unfolding decode
decode-append d xs ys = elim (Bool-cases (ltb 0 d.n_padding)) [
  | inl e ↦ rw e (
      ap padding_result (handle_padding-append d xs ys)
      ∙ padding_result-append (handle_padding d xs) ys
          (omega (arith, ltb→lt 0 d.n_padding e, handle_padding_grows d xs)))
  | inr e ↦ rw e (decode_loop-append d xs ys (ground (arith, e)))
]
