-- ===== src/WsParser/Loop.antt =====
-- A round of the parser's loop does what the machine does that takes one byte after the other.
use verda_sxtelo.Common.{
  ℕ, ◌+◌, ◌≤◌, ◌≡◌, refl, sym, ap, ◌∙◌, arith, false, List, [], ◌∷◌, ◌++◌, ◌==◌, ltb, length,
  length-append, Bool-cases, inl, inr,
}
use verda_sxtelo.Memory.{memchr}
use verda_sxtelo.WsParser.{
  Digest, Result, ok, err, ◌>>=◌, State, reading_request_line, terminating_request_line,
  reading_header, terminating_header, checking_header_continuation, parsed, Parser, with_state,
  cleared, add_bytes_to_buffer, handle_reading, put_back, process_header, end_request_line,
  end_header, handle, Outcome, error, is_parsed,
}
use verda_sxtelo.WsParser.Machine.{add, add_both, feed, run}
use verda_sxtelo.WsParser.Reading.{
  IsBounded, Result-cases, handle_reading-end, handle_reading-cons, handle_reading-none,
  add_bytes_to_buffer-nil,
}

module _ {C : Type 0} (digest : Digest C) where
  -- What the loop does with the result of a handler, by the machine.
  abbrev pub then_run : Result (Parser C × List ℕ) → Outcome C
  then_run (ok (p, rest)) = run digest rest p
  then_run (err e) = error e

  abbrev pub then_rest : List ℕ → Result (Parser C) → Outcome C
  then_rest rest (ok p) = run digest rest p
  then_rest rest (err e) = error e

  pub run-feed :
      (b : ℕ) (bytes : List ℕ) (p : Parser C)
      → is_parsed p.state ≡ false
      → run digest (b ∷ bytes) p ≡ then_rest bytes (feed digest p.state b p)
  unfolding run
  run-feed b bytes p n = elim (Result-cases (feed digest p.state b p)) [
    | inl (q, k) ↦ rw (n, k, run) refl
    | inr (x, k) ↦ rw (n, k, run) refl
  ]

  run-state :
      (s : State) (b : ℕ) (bytes : List ℕ) (p : Parser C)
      → p.state ≡ s
      → is_parsed s ≡ false
      → run digest (b ∷ bytes) p ≡ then_rest bytes (feed digest s b p)
  run-state s b bytes p e n =
      run-feed b bytes p (ap is_parsed e ∙ n) ∙ ap (λ t. then_rest bytes (feed digest t b p)) e

  module _ (reading terminating : State) (going : is_parsed reading ≡ false)
      (feeds : (b : ℕ) (p : Parser C) → feed digest reading b p ≡ add terminating b p) where
    run-add :
        (b : ℕ) (bytes : List ℕ) (p : Parser C)
        → p.state ≡ reading
        → run digest (b ∷ bytes) p ≡ then_rest bytes (add terminating b p)
    run-add b bytes p e = run-state reading b bytes p e going ∙ ap (then_rest bytes) (feeds b p)

    bound :
        (b : ℕ) (p : Parser C)
        → ltb 512 (length p.buf + 1) ≡ false
        → length (p.buf ++ (b ∷ [])) ≤ 512
    bound b p short = ground (arith, short, length-append p.buf (b ∷ []))

    reading_run :
        (bytes : List ℕ) (p : Parser C)
        → p.state ≡ reading
        → IsBounded p
        → then_run (handle_reading terminating bytes p) ≡ run digest bytes p
    unfolding add add_bytes_to_buffer memchr
    reading_run [] p e h =
        ap then_run (handle_reading-none terminating [] p refl)
        ∙ rw (add_bytes_to_buffer-nil p h) refl
    reading_run (b ∷ bytes) p e h =
        let ih = reading_run bytes in
        elim (Bool-cases (b == 13)) [
          | inl r ↦ rw (handle_reading-end terminating b bytes p r h, run-add b bytes p e, r) refl
          | inr r ↦
              rw (handle_reading-cons terminating b bytes p r, run-add b bytes p e, r)
                (elim (Bool-cases (ltb 512 (length p.buf + 1))) [
                  | inl long ↦ rw long refl
                  | inr short ↦
                      rw short (ih (record p { buf = p.buf ++ (b ∷ []) }) e (bound b p short))
                ])
        ]

  terminating_run :
      (reading terminating : State) (b : ℕ) (bytes : List ℕ) (p : Parser C)
      → ((q : Parser C)
          → q.state ≡ reading
          → run digest (b ∷ bytes) q ≡ then_rest bytes (add terminating b q))
      → then_run (put_back reading (b ∷ bytes) p)
        ≡ then_rest bytes (add_both reading terminating b p)
  unfolding put_back add_both
  terminating_run reading terminating b bytes p h =
      elim (Result-cases (add_bytes_to_buffer (13 ∷ []) p)) [
        | inl (q, k) ↦ rw k (h (with_state reading q) refl)
        | inr (x, k) ↦ rw k refl
      ]

  end_run :
      (bytes : List ℕ) (r : Result (Parser C))
      → then_run (r >>= λ p'. ok (p', bytes)) ≡ then_rest bytes r
  end_run bytes (ok p) = refl
  end_run bytes (err e) = refl

  -- A round of the loop, state by state.
  pub handle-run :
      (s : State) (b : ℕ) (bytes : List ℕ) (p : Parser C)
      → p.state ≡ s
      → IsBounded p
      → is_parsed s ≡ false
      → then_run (handle digest s b bytes p) ≡ run digest (b ∷ bytes) p
  unfolding handle feed
  handle-run reading_request_line b bytes p e h n =
      reading_run reading_request_line terminating_request_line refl (λ b p. refl) (b ∷ bytes) p e h
  handle-run terminating_request_line b bytes p e h n =
      elim (Bool-cases (b == 10)) [
        | inl k ↦ rw k (end_run bytes (end_request_line p))
        | inr k ↦ rw k (
            terminating_run reading_request_line terminating_request_line b bytes p
              (run-add reading_request_line terminating_request_line refl (λ b p. refl) b bytes))
      ]
      ∙ sym (run-state terminating_request_line b bytes p e n)
  handle-run reading_header b bytes p e h n =
      reading_run reading_header terminating_header refl (λ b p. refl) (b ∷ bytes) p e h
  handle-run terminating_header b bytes p e h n =
      elim (Bool-cases (b == 10)) [
        | inl k ↦ rw k (end_run bytes (end_header digest p))
        | inr k ↦ rw k (
            terminating_run reading_header terminating_header b bytes p
              (run-add reading_header terminating_header refl (λ b p. refl) b bytes))
      ]
      ∙ sym (run-state terminating_header b bytes p e n)
  handle-run checking_header_continuation b bytes p e h n =
      elim (Bool-cases (b == 32)) [
        | inl k ↦ rw k (
            run-add reading_header terminating_header refl (λ b p. refl) b bytes
              (with_state reading_header p) refl)
        | inr k ↦ rw k (elim (Result-cases (process_header digest p)) [
          | inl (q, f) ↦ rw f (
              run-add reading_header terminating_header refl (λ b p. refl) b bytes
                (cleared reading_header q) refl)
          | inr (x, f) ↦ rw f refl
        ])
      ]
      ∙ sym (run-state checking_header_continuation b bytes p e n)
  handle-run parsed b bytes p e h n = cc
