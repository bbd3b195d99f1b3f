-- ===== src/WsParser/Progress.antt =====
-- Every round of the parser's loop takes a byte or puts off no more, and the line stays within the
-- buffer.
use verda_sxtelo.Common.{
  ℕ, suc, ◌+◌, ◌*◌, ◌≤◌, ◌<◌, ◌≡◌, refl, arith, false, List, [], ◌∷◌, ◌==◌, length, take,
  length-drop, length-append, Bool-cases, Option-cases, inl, inr,
}
use verda_sxtelo.Memory.{memchr}
use verda_sxtelo.WsParser.{
  Digest, Result, ok, err, ◌>>=◌, State, reading_request_line, terminating_request_line,
  reading_header, terminating_header, checking_header_continuation, parsed, Parser,
  add_bytes_to_buffer, handle_reading, put_back, process_header, end_request_line, end_header,
  finish_key_hash, process_request_line, handle, is_parsed,
}
use verda_sxtelo.WsParser.Reading.{
  IsBounded, Result-cases, handle_reading-none, handle_reading-some,
}

-- The states that put off a byte.
abbrev pub weight : State → ℕ
weight reading_request_line = 0
weight terminating_request_line = 1
weight reading_header = 0
weight terminating_header = 1
weight checking_header_continuation = 1
weight parsed = 0

module _ {C : Type 0} where
  abbrev pub Progress : ℕ → Result (Parser C × List ℕ) → Type 0
  Progress n (ok (p, rest)) = IsBounded p × (weight p.state + 2 * length rest < n)
  Progress n (err e) = Unit {0}

  -- A step that does not read on, with the state that it may go to.
  abbrev Kept : Result (Parser C) → Type 0
  Kept (ok p) = IsBounded p × (weight p.state ≤ 1)
  Kept (err e) = Unit {0}

  add_bytes_to_buffer-Kept :
      (bytes : List ℕ) (p q : Parser C)
      → add_bytes_to_buffer bytes p ≡ ok q
      → IsBounded q × (q.state ≡ p.state)
  unfolding add_bytes_to_buffer
  add_bytes_to_buffer-Kept bytes p q e = ground (arith, e, length-append p.buf bytes)

  handle_reading-Progress :
      (terminating : State) (b : ℕ) (bytes : List ℕ) (p : Parser C)
      → weight terminating ≤ 1
      → weight p.state ≡ 0
      → Progress (0 + 2 * suc (length bytes)) (handle_reading terminating (b ∷ bytes) p)
  handle_reading-Progress terminating b bytes p t w = elim (Option-cases (memchr (b ∷ bytes) 13)) [
    | inl n ↦
        rw (handle_reading-none terminating (b ∷ bytes) p n)
          (elim (Result-cases (add_bytes_to_buffer (b ∷ bytes) p)) [
            | inl (q, k) ↦
                let (h, s) = add_bytes_to_buffer-Kept (b ∷ bytes) p q k in
                rw k (h, rw s (omega arith))
            | inr (x, k) ↦ rw k tt
          ])
    | inr (i, n) ↦
        rw (handle_reading-some terminating (b ∷ bytes) p i n)
          (elim (Result-cases (add_bytes_to_buffer (take i (b ∷ bytes)) p)) [
            | inl (q, k) ↦
                let (h, s) = add_bytes_to_buffer-Kept (take i (b ∷ bytes)) p q k in
                rw k (h, omega (arith, length-drop (i + 1) (b ∷ bytes)))
            | inr (x, k) ↦ rw k tt
          ])
  ]

  put_back-Progress :
      (reading : State) (b : ℕ) (bytes : List ℕ) (p : Parser C)
      → weight reading ≡ 0
      → Progress (1 + 2 * suc (length bytes)) (put_back reading (b ∷ bytes) p)
  unfolding put_back
  put_back-Progress reading b bytes p w = elim (Result-cases (add_bytes_to_buffer (13 ∷ []) p)) [
    | inl (q, k) ↦ let (h, s) = add_bytes_to_buffer-Kept (13 ∷ []) p q k in rw k (h, omega arith)
    | inr (x, k) ↦ rw k tt
  ]

  end-Progress :
      (bytes : List ℕ) (r : Result (Parser C))
      → Kept r
      → Progress (1 + 2 * suc (length bytes)) (r >>= λ p'. ok (p', bytes))
  end-Progress bytes (ok p) (h, w) = (h, omega arith)
  end-Progress bytes (err e) k = tt

  end_request_line-Kept : (p : Parser C) → IsBounded p → Kept (end_request_line p)
  unfolding end_request_line
  end_request_line-Kept p h = elim (Bool-cases (length p.buf == 0)) [
    | inl z ↦ rw z (h, omega arith)
    | inr nz ↦ rw nz (elim (Result-cases (process_request_line p.buf)) [
      | inl (u, k) ↦ rw k (omega arith, omega arith)
      | inr (x, k) ↦ rw k tt
    ])
  ]

module _ {C : Type 0} (digest : Digest C) where
  end_header-Kept : (p : Parser C) → IsBounded p → Kept (end_header digest p)
  unfolding end_header finish_key_hash
  end_header-Kept p h = elim (Bool-cases (length p.buf == 0)) [
    | inl z ↦ rw z (elim (Option-cases p.key_hash_ctx) [
      | inl n ↦ rw n tt
      | inr (ctx, k) ↦ rw k (h, omega arith)
    ])
    | inr nz ↦ rw nz (h, omega arith)
  ]

  pub handle-Progress :
      (s : State) (b : ℕ) (bytes : List ℕ) (p : Parser C)
      → p.state ≡ s
      → IsBounded p
      → is_parsed s ≡ false
      → Progress (weight s + 2 * suc (length bytes)) (handle digest s b bytes p)
  unfolding handle
  handle-Progress reading_request_line b bytes p e h n =
      handle_reading-Progress terminating_request_line b bytes p (omega arith) (rw e refl)
  handle-Progress terminating_request_line b bytes p e h n = elim (Bool-cases (b == 10)) [
    | inl k ↦ rw k (end-Progress bytes (end_request_line p) (end_request_line-Kept p h))
    | inr k ↦ rw k (put_back-Progress reading_request_line b bytes p refl)
  ]
  handle-Progress reading_header b bytes p e h n =
      handle_reading-Progress terminating_header b bytes p (omega arith) (rw e refl)
  handle-Progress terminating_header b bytes p e h n = elim (Bool-cases (b == 10)) [
    | inl k ↦ rw k (end-Progress bytes (end_header digest p) (end_header-Kept p h))
    | inr k ↦ rw k (put_back-Progress reading_header b bytes p refl)
  ]
  handle-Progress checking_header_continuation b bytes p e h n = elim (Bool-cases (b == 32)) [
    | inl k ↦ rw k (h, omega arith)
    | inr k ↦ rw k (elim (Result-cases (process_header digest p)) [
      | inl (q, f) ↦ rw f (omega arith, omega arith)
      | inr (x, f) ↦ rw f tt
    ])
  ]
  handle-Progress parsed b bytes p e h n = cc
