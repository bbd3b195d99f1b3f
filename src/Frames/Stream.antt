-- ===== src/Frames/Stream.antt =====
-- The frames in data that arrives in pieces are those in the data as a whole.
use verda_sxtelo.Common.{
  subst, none-ne-some, ℕ, zero, suc, ◌+◌, ◌-◌, ◌<◌, ◌≤◌, ◌≡◌, refl, sym, ap, ◌∙◌, arith, Option,
  some, none, List, [], ◌∷◌, ◌++◌, length, length-append, length-drop, take, drop, ltb, Bool-cases,
  Option-cases, inl, inr, ltb→lt, ltb-false→le, ◌%◌, ◌^◌,
}
use verda_sxtelo.Frames.{
  Result, ok, refused, overrun, endless, ◌>>=◌, Link, Reader, Header, read_buf_size, read_header,
  check_header, take_frame, receive, unmasked, step, frames_loop, process_frames,
}
use verda_sxtelo.Frames.Step.{IsHeader, read_header-IsHeader}
use verda_sxtelo.Frames.Append.{
  extend, step_incomplete, step_unchecked, step_short, step_whole, take_frame_fits,
  take_frame_overrun, step-append,
}

module _ {S : Type 0} where
  -- A round that took a frame left fewer than `n` bytes.
  abbrev Shrinks : ℕ → Result (Option (Link S × List ℕ)) → Type 0
  Shrinks n (ok (some (link, rest))) = length rest < n
  Shrinks n (ok none) = Unit {0}
  Shrinks n refused = Unit {0}
  Shrinks n overrun = Unit {0}
  Shrinks n endless = Unit {0}

  left-Shrinks :
      (n : ℕ) (r : Result (Link S)) (rest : List ℕ)
      → length rest < n
      → Shrinks n (r >>= (λ link. ok (link, rest)) >>= λ q. ok (some q))
  left-Shrinks n (ok link) rest h = h
  left-Shrinks n refused rest h = tt
  left-Shrinks n overrun rest h = tt
  left-Shrinks n endless rest h = tt

some_bytes : (xs : List ℕ) (h : Header) → read_header xs ≡ some h → 0 < length xs
unfolding read_header
some_bytes [] h e = absurd (none-ne-some h e)
some_bytes (x ∷ xs) h e = omega arith

module _ {S : Type 0} (process_message : List ℕ → S → Result S) where
  abbrev pub next : ℕ → List ℕ → Link S → Option (Link S × List ℕ) → Result (Reader S)
  next fuel bytes link none = ok (record { read_buf = bytes; link = link })
  next fuel bytes link (some (link', rest)) = frames_loop process_message fuel rest link'

  pub loop_next :
      (fuel : ℕ) (bytes : List ℕ) (link : Link S)
      → frames_loop process_message (suc fuel) bytes link
        ≡ (step process_message bytes link >>= next fuel bytes link)
  unfolding frames_loop
  loop_next fuel bytes link = refl

  take_frame-Shrinks :
      (h : Header) (xs : List ℕ) (link : Link S)
      → IsHeader h
      → 0 < length xs
      → Shrinks (length xs) (take_frame process_message h xs link >>= λ q. ok (some q))
  take_frame-Shrinks h xs link i b =
      elim (Bool-cases (ltb (length xs - h.header_size) h.payload_length)) [
        | inl o ↦
            rw
              (take_frame_overrun process_message h xs link
                (ltb→lt (length xs - h.header_size) h.payload_length o))
              tt
        | inr o ↦
            rw
              (take_frame_fits process_message h xs link
                (ltb-false→le (length xs - h.header_size) h.payload_length o))
              (left-Shrinks (length xs)
                (receive process_message h
                  (unmasked h (take 4 (drop (h.header_size - 4) xs))
                    (take h.payload_length (drop h.header_size xs)))
                  link)
                (drop h.payload_length (drop h.header_size xs))
                (omega (
                  arith,
                  b,
                  i.least,
                  length-drop h.payload_length (drop h.header_size xs),
                  length-drop h.header_size xs,
                )))
      ]

  step-Shrinks : (xs : List ℕ) (link : Link S) → Shrinks (length xs) (step process_message xs link)
  step-Shrinks xs link = elim (Option-cases (read_header xs)) [
    | inl e ↦ rw (step_incomplete process_message xs link e) tt
    | inr (h, e) ↦ elim (Bool-cases (check_header (length link.message_data) h)) [
      | inr c ↦ rw (step_unchecked process_message xs link h e c) tt
      | inl c ↦ elim (Bool-cases (ltb (length xs) ((h.payload_length + h.header_size) % 2 ^ 64))) [
        | inl t ↦ rw (step_short process_message xs link h e c t) tt
        | inr t ↦
            rw (step_whole process_message xs link h e c t)
              (take_frame-Shrinks h xs link (read_header-IsHeader xs h e) (some_bytes xs h e))
      ]
    ]
  ]

  next_same :
      (n m : ℕ) (bytes : List ℕ) (link : Link S) (r : Result (Option (Link S × List ℕ)))
      → ((rest : List ℕ) (l : Link S)
          → length rest < length bytes
          → frames_loop process_message n rest l ≡ frames_loop process_message m rest l)
      → Shrinks (length bytes) r
      → (r >>= next n bytes link) ≡ (r >>= next m bytes link)
  next_same n m bytes link (ok none) ih h = refl
  next_same n m bytes link (ok (some (l, rest))) ih h = ih rest l h
  next_same n m bytes link refused ih h = refl
  next_same n m bytes link overrun ih h = refl
  next_same n m bytes link endless ih h = refl

  -- Any fuel above the number of bytes gives the same result.
  loop_fuel :
      (n m : ℕ) (bytes : List ℕ) (link : Link S)
      → length bytes < n
      → length bytes < m
      → frames_loop process_message n bytes link ≡ frames_loop process_message m bytes link
  loop_fuel zero m bytes link h k = absurd (omega arith)
  loop_fuel (suc n) zero bytes link h k = absurd (omega arith)
  loop_fuel (suc n) (suc m) bytes link h k =
      loop_next n bytes link
      ∙ next_same n m bytes link (step process_message bytes link)
          (λ rest l s. loop_fuel n m rest l (omega (arith, h, s)) (omega (arith, k, s)))
          (step-Shrinks bytes link)
      ∙ sym (loop_next m bytes link)

  -- The loop on `ys` behind what it left of earlier bytes.
  abbrev pub go_on : List ℕ → Reader S → Result (Reader S)
  go_on ys conn = process_frames process_message (record conn { read_buf = conn.read_buf ++ ys })

  append_next :
      (n m : ℕ) (xs ys : List ℕ) (link : Link S) (r : Result (Option (Link S × List ℕ)))
      → ((rest : List ℕ) (l : Link S)
          → length rest < length xs
          → frames_loop process_message m (rest ++ ys) l
            ≡ (frames_loop process_message n rest l >>= go_on ys))
      → Shrinks (length xs) r
      → (r ≡ ok none
          → ok (record { read_buf = xs ++ ys; link = link })
            ≡ go_on ys (record { read_buf = xs; link = link }))
      → (r >>= (λ o. ok (extend process_message ys o)) >>= next m (xs ++ ys) link)
        ≡ (r >>= next n xs link >>= go_on ys)
  append_next n m xs ys link (ok none) ih h w = w refl
  append_next n m xs ys link (ok (some (l, rest))) ih h w = ih rest l h
  append_next n m xs ys link refused ih h w = refl
  append_next n m xs ys link overrun ih h w = refl
  append_next n m xs ys link endless ih h w = refl

  pub process_frames_lem :
      (m : ℕ) (bytes : List ℕ) (link : Link S)
      → length bytes < m
      → process_frames process_message (record { read_buf = bytes; link = link })
        ≡ frames_loop process_message m bytes link
  unfolding process_frames
  process_frames_lem m bytes link h = loop_fuel (length bytes + 1) m bytes link (omega arith) h

  pub loop-append :
      (n m : ℕ) (xs ys : List ℕ) (link : Link S)
      → length xs < n
      → length xs + length ys < m
      → length xs + length ys ≤ read_buf_size
      → frames_loop process_message m (xs ++ ys) link
        ≡ (frames_loop process_message n xs link >>= go_on ys)
  loop-append zero m xs ys link h k l = absurd (omega arith)
  loop-append (suc n) zero xs ys link h k l = absurd (omega arith)
  loop-append (suc n) (suc m) xs ys link h k l =
      let waits =
        process_frames_lem (suc m) (xs ++ ys) link (omega (arith, k, length-append xs ys)) in
      let ih = loop-append n m in
      elim (step-append process_message xs ys link l) [
        | inl e ↦
            sym waits
            ∙ sym (ap (λ r. r >>= next n xs link >>= go_on ys) e)
            ∙ sym (ap (λ r. r >>= go_on ys) (loop_next n xs link))
        | inr e ↦
            loop_next m (xs ++ ys) link
            ∙ ap (λ r. r >>= next m (xs ++ ys) link) e
            ∙ append_next n m xs ys link (step process_message xs link)
                (λ rest q s.
                  ih rest ys q (omega (arith, h, s)) (omega (arith, k, s)) (omega (arith, l, s)))
                (step-Shrinks xs link)
                (λ q. sym (
                  waits
                  ∙ loop_next m (xs ++ ys) link
                  ∙ ap (λ r. r >>= next m (xs ++ ys) link)
                      (e ∙ ap (λ r. r >>= λ o. ok (extend process_message ys o)) q)))
            ∙ sym (ap (λ r. r >>= go_on ys) (loop_next n xs link))
      ]

  -- A buffer that is processed in two pieces.
  pub process_frames-append :
      (xs ys : List ℕ) (link : Link S)
      → length xs + length ys ≤ read_buf_size
      → process_frames process_message (record { read_buf = xs ++ ys; link = link })
        ≡ (process_frames process_message (record { read_buf = xs; link = link }) >>= go_on ys)
  process_frames-append xs ys link l =
      process_frames_lem (suc (length (xs ++ ys))) (xs ++ ys) link (omega arith)
      ∙ loop-append (suc (length xs)) (suc (length (xs ++ ys))) xs ys link (omega arith)
          (omega (arith, length-append xs ys)) l
      ∙ sym (ap (λ r. r >>= go_on ys) (process_frames_lem (suc (length xs)) xs link (omega arith)))

  -- The loop keeps no more bytes than it was given.
  abbrev Fits : ℕ → Result (Reader S) → Type 0
  Fits n (ok conn) = length conn.read_buf ≤ n
  Fits n refused = Unit {0}
  Fits n overrun = Unit {0}
  Fits n endless = Unit {0}

  next-Fits :
      (n k : ℕ) (xs : List ℕ) (link : Link S) (r : Result (Option (Link S × List ℕ)))
      → length xs ≤ k
      → ((rest : List ℕ) (l : Link S)
          → length rest ≤ k
          → Fits k (frames_loop process_message n rest l))
      → Shrinks (length xs) r
      → Fits k (r >>= next n xs link)
  next-Fits n k xs link (ok none) h ih s = h
  next-Fits n k xs link (ok (some (l, rest))) h ih s = ih rest l (omega (arith, h, s))
  next-Fits n k xs link refused h ih s = tt
  next-Fits n k xs link overrun h ih s = tt
  next-Fits n k xs link endless h ih s = tt

  loop-Fits :
      (n k : ℕ) (xs : List ℕ) (link : Link S)
      → length xs ≤ k
      → Fits k (frames_loop process_message n xs link)
  unfolding frames_loop
  loop-Fits zero k xs link h = tt
  loop-Fits (suc n) k xs link h =
      next-Fits n k xs link (step process_message xs link) h (λ rest l s. loop-Fits n k rest l s)
        (step-Shrinks xs link)

  pub process_frames-Fits :
      (conn conn' : Reader S)
      → process_frames process_message conn ≡ ok conn'
      → length conn'.read_buf ≤ length conn.read_buf
  unfolding process_frames
  process_frames-Fits conn conn' e = subst (Fits (length conn.read_buf)) e (
      loop-Fits (length conn.read_buf + 1) (length conn.read_buf) conn.read_buf conn.link
        (omega arith))
