-- ===== src/Frames/Append.antt =====
-- A round and the loop of `process_frames` on data that arrives in two pieces.
use verda_sxtelo.Common.{
  ℕ, ◌+◌, ◌-◌, ◌<◌, ◌≤◌, ◌≡◌, refl, sym, ap, ◌∙◌, arith, true, false, Option, some, none, List,
  ◌++◌, length, length-append, length-drop, take, drop, ltb, Bool-cases, Option-cases, inl, inr,
  ◌⊎◌, ltb→lt, ltb-false→le, lt→ltb-false, lt→ltb, ◌%◌, ◌^◌,
}
use verda_sxtelo.Frames.{
  Result, ok, refused, overrun, endless, ◌>>=◌, Link, Header, read_buf_size, read_header,
  check_header, take_frame, receive, unmasked, step,
}
use verda_sxtelo.Frames.Step.{
  take-append_long, drop-append_long, IsHeader, read_header-IsHeader, read_header-append,
}

module _ {ℓ κ μ} {A : Type ℓ} {B : Type κ} {C : Type μ} where
  -- What follows two steps follows the second of them.
  pub bind_assoc :
      (first : Result A) (second : A → Result B) (third : B → Result C)
      → (first >>= second >>= third) ≡ (first >>= λ x. second x >>= third)
  bind_assoc (ok x) second third = refl
  bind_assoc refused second third = refl
  bind_assoc overrun second third = refl
  bind_assoc endless second third = refl

-- A sum that wrapped around was of a length that no buffer has.
wrapped :
    (m n p k : ℕ) → (p + k) % 2 ^ 64 ≤ m → m < p + k → k ≤ 14 → m + n ≤ read_buf_size → m + n < p
wrapped m n p k h l s b = omega (arith, h, l, s, b)

module _ {S : Type 0} (process_message : List ℕ → S → Result S) where
  -- The bytes behind those that a round took.
  abbrev pub extend : List ℕ → Option (Link S × List ℕ) → Option (Link S × List ℕ)
  extend ys none = none
  extend ys (some (link, rest)) = some (link, rest ++ ys)

  abbrev pub behind : List ℕ → Link S × List ℕ → Link S × List ℕ
  behind ys (link, rest) = (link, rest ++ ys)

  -- The parts of a round.
  pub step_incomplete :
      (xs : List ℕ) (link : Link S) → read_header xs ≡ none → step process_message xs link ≡ ok none
  unfolding step
  step_incomplete xs link e = rw (e, step) refl

  pub step_unchecked :
      (xs : List ℕ) (link : Link S) (h : Header)
      → read_header xs ≡ some h
      → check_header (length link.message_data) h ≡ false
      → step process_message xs link ≡ refused
  unfolding step
  step_unchecked xs link h e c = rw (e, c, step) refl

  pub step_short :
      (xs : List ℕ) (link : Link S) (h : Header)
      → read_header xs ≡ some h
      → check_header (length link.message_data) h ≡ true
      → ltb (length xs) ((h.payload_length + h.header_size) % 2 ^ 64) ≡ true
      → step process_message xs link ≡ ok none
  unfolding step
  step_short xs link h e c l = rw (e, c, l, step) refl

  pub step_whole :
      (xs : List ℕ) (link : Link S) (h : Header)
      → read_header xs ≡ some h
      → check_header (length link.message_data) h ≡ true
      → ltb (length xs) ((h.payload_length + h.header_size) % 2 ^ 64) ≡ false
      → step process_message xs link ≡ (take_frame process_message h xs link >>= λ r. ok (some r))
  unfolding step
  step_whole xs link h e c l = rw (e, c, l, step) refl

  pub take_frame_overrun :
      (h : Header) (xs : List ℕ) (link : Link S)
      → length xs - h.header_size < h.payload_length
      → take_frame process_message h xs link ≡ overrun
  unfolding take_frame
  take_frame_overrun h xs link l =
      rw
        (lt→ltb (length (drop h.header_size xs)) h.payload_length
          (omega (arith, l, length-drop h.header_size xs)))
        refl

  pub take_frame_fits :
      (h : Header) (xs : List ℕ) (link : Link S)
      → h.payload_length ≤ length xs - h.header_size
      → take_frame process_message h xs link ≡ (
          receive process_message h
            (unmasked h
              (take 4 (drop (h.header_size - 4) xs))
              (take h.payload_length (drop h.header_size xs)))
            link
          >>= λ link'. ok (link', drop h.payload_length (drop h.header_size xs)))
  unfolding take_frame
  take_frame_fits h xs link l =
      rw
        (lt→ltb-false (length (drop h.header_size xs)) h.payload_length
          (omega (arith, l, length-drop h.header_size xs)))
        refl

  unmasked-append :
      (h : Header) (xs ys payload : List ℕ)
      → IsHeader h
      → h.header_size ≤ length xs
      → unmasked h (take 4 (drop (h.header_size - 4) (xs ++ ys))) payload
        ≡ unmasked h (take 4 (drop (h.header_size - 4) xs)) payload
  unfolding unmasked
  unmasked-append h xs ys payload i l = elim (Bool-cases h.has_mask) [
    | inl t ↦
        let k = i.mask_size t in
        rw
          (
            drop-append_long (h.header_size - 4) xs ys (omega (arith, l)),
            take-append_long 4 (drop (h.header_size - 4) xs) ys
                (omega (arith, k, l, length-drop (h.header_size - 4) xs)),
          )
          refl
    | inr t ↦ rw t refl
  ]

  take_frame-append :
      (h : Header) (xs ys : List ℕ) (link : Link S)
      → IsHeader h
      → h.payload_length + h.header_size ≤ length xs
      → take_frame process_message h (xs ++ ys) link
        ≡ (take_frame process_message h xs link >>= λ r. ok (behind ys r))
  take_frame-append h xs ys link i l =
      let k = h.header_size in
      let p = h.payload_length in
      let n : length (drop k xs) ≡ length xs - k = length-drop k xs in
      take_frame_fits h (xs ++ ys) link (omega (arith, l, length-append xs ys))
      ∙ rw
          (
            drop-append_long k xs ys (omega (arith, l)),
            take-append_long p (drop k xs) ys (omega (arith, l, n)),
            drop-append_long p (drop k xs) ys (omega (arith, l, n)),
          )
          (ap
            (λ q.
              receive process_message h q link >>= λ link'. ok (link', drop p (drop k xs) ++ ys))
            (unmasked-append h xs ys (take p (drop k xs)) i (omega (arith, l))))
      ∙ sym (
          bind_assoc
            (receive process_message h (unmasked h (take 4 (drop (k - 4) xs)) (take p (drop k xs)))
              link)
            (λ link'. ok (link', drop p (drop k xs))) (λ r. ok (behind ys r)))
      ∙ sym (ap (λ t. t >>= λ r. ok (behind ys r)) (take_frame_fits h xs link (omega (arith, l))))

  whole-append :
      (xs ys : List ℕ) (link : Link S) (h : Header)
      → length xs + length ys ≤ read_buf_size
      → read_header xs ≡ some h
      → check_header (length link.message_data) h ≡ true
      → ltb (length xs) ((h.payload_length + h.header_size) % 2 ^ 64) ≡ false
      → step process_message (xs ++ ys) link
        ≡ (step process_message xs link >>= λ r. ok (extend ys r))
  whole-append xs ys link h l e c t =
      let i = read_header-IsHeader xs h e in
      let small = ltb-false→le (length xs) ((h.payload_length + h.header_size) % 2 ^ 64) t in
      let t' =
        lt→ltb-false (length (xs ++ ys)) ((h.payload_length + h.header_size) % 2 ^ 64)
          (omega (arith, small, length-append xs ys)) in
      step_whole (xs ++ ys) link h (read_header-append xs ys h e) c t'
      ∙ elim (Bool-cases (ltb (length xs) (h.payload_length + h.header_size))) [
        | inl o ↦
            let far =
              wrapped (length xs) (length ys) h.payload_length h.header_size small
                (ltb→lt (length xs) (h.payload_length + h.header_size) o) i.most l in
            rw
              (
                take_frame_overrun h (xs ++ ys) link (omega (arith, far, length-append xs ys)),
                step_whole xs link h e c t,
                take_frame_overrun h xs link (omega (arith, far)),
              )
              refl
        | inr o ↦
            ap (λ r. r >>= λ q. ok (some q))
              (take_frame-append h xs ys link i
                (ltb-false→le (length xs) (h.payload_length + h.header_size) o))
            ∙ bind_assoc (take_frame process_message h xs link) (λ r. ok (behind ys r))
                (λ q. ok (some q))
            ∙ sym (
                bind_assoc (take_frame process_message h xs link) (λ q. ok (some q))
                  (λ r. ok (extend ys r)))
            ∙ sym (ap (λ r. r >>= λ q. ok (extend ys q)) (step_whole xs link h e c t))
      ]

  pub step-append :
      (xs ys : List ℕ) (link : Link S)
      → length xs + length ys ≤ read_buf_size
      → (step process_message xs link ≡ ok none)
        ⊎ (step process_message (xs ++ ys) link
            ≡ (step process_message xs link >>= λ r. ok (extend ys r)))
  step-append xs ys link l = elim (Option-cases (read_header xs)) [
    | inl e ↦ inl (step_incomplete xs link e)
    | inr (h, e) ↦
        let e' = read_header-append xs ys h e in
        elim (Bool-cases (check_header (length link.message_data) h)) [
          | inr c ↦ inr (
              step_unchecked (xs ++ ys) link h e' c
              ∙ sym (ap (λ r. r >>= λ o. ok (extend ys o)) (step_unchecked xs link h e c)))
          | inl c ↦
              elim (Bool-cases (ltb (length xs) ((h.payload_length + h.header_size) % 2 ^ 64))) [
                | inl t ↦ inl (step_short xs link h e c t)
                | inr t ↦ inr (whole-append xs ys link h l e c t)
              ]
        ]
  ]
