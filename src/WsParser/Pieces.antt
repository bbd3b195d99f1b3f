-- ===== src/WsParser/Pieces.antt =====
-- The parser's loop ends within its fuel, as the machine does, and the request may come in pieces.
use verda_sxtelo.Common.{
  ℕ, zero, suc, ◌+◌, ◌*◌, ◌≤◌, ◌≡◌, refl, sym, ap, ◌∙◌, subst, arith, true, false, Option, some,
  List, [], ◌∷◌, ◌++◌, length, Bool-cases, inl, inr, ◌>>=◌,
}
use verda_sxtelo.WsParser.{
  Digest, Error, ok, err, Parser, handle, Outcome, need_more_data, finished, error, is_parsed,
  parse_loop, parse_data, new, State, reading_request_line, terminating_request_line,
  reading_header, terminating_header, checking_header_continuation, parsed,
}
use verda_sxtelo.WsParser.Machine.{run, feed}
use verda_sxtelo.WsParser.Reading.{IsBounded, Result-cases}
use verda_sxtelo.WsParser.Loop.{handle-run, then_run}
use verda_sxtelo.WsParser.Progress.{weight, handle-Progress}

module _ {C : Type 0} where
  -- The line that an outcome goes on with fits the buffer.
  abbrev pub Fits : Outcome C → Type 0
  Fits (need_more_data p) = IsBounded p
  Fits (finished p rest) = IsBounded p
  Fits (error e) = Unit {0}

pub new-IsBounded : (C : Type 0) → IsBounded (new {C = C})
unfolding new
new-IsBounded C = omega arith

module _ {C : Type 0} (digest : Digest C) where
  run_parsed :
      (b : ℕ) (bytes : List ℕ) (p : Parser C)
      → is_parsed p.state ≡ true
      → run digest (b ∷ bytes) p ≡ finished p (b ∷ bytes)
  unfolding run
  run_parsed b bytes p e = rw (e, run) refl

  loop_parsed :
      (fuel b : ℕ) (bytes : List ℕ) (p : Parser C)
      → is_parsed p.state ≡ true
      → parse_loop digest (suc fuel) (b ∷ bytes) p ≡ some (finished p (b ∷ bytes))
  unfolding parse_loop
  loop_parsed fuel b bytes p e = rw (e, parse_loop) refl

  loop_handled :
      (fuel b : ℕ) (bytes rest : List ℕ) (p q : Parser C)
      → is_parsed p.state ≡ false
      → handle digest p.state b bytes p ≡ ok (q, rest)
      → parse_loop digest (suc fuel) (b ∷ bytes) p ≡ parse_loop digest fuel rest q
  unfolding parse_loop
  loop_handled fuel b bytes rest p q n e = rw (n, e, parse_loop) refl

  loop_failed :
      (fuel b : ℕ) (bytes : List ℕ) (p : Parser C) (x : Error)
      → is_parsed p.state ≡ false
      → handle digest p.state b bytes p ≡ err x
      → parse_loop digest (suc fuel) (b ∷ bytes) p ≡ some (error x)
  unfolding parse_loop
  loop_failed fuel b bytes p x n e = rw (n, e, parse_loop) refl

  record Ends (fuel : ℕ) (bytes : List ℕ) (p : Parser C) : Type 0 where
    result : parse_loop digest fuel bytes p ≡ some (run digest bytes p)
    fits : Fits (run digest bytes p)

  loop_nil : (fuel : ℕ) (p : Parser C) → parse_loop digest fuel [] p ≡ some (run digest [] p)
  unfolding parse_loop run
  loop_nil zero p = refl
  loop_nil (suc fuel) p = refl

  Ends-nil : (fuel : ℕ) (p : Parser C) → IsBounded p → Ends fuel [] p
  unfolding run
  Ends-nil fuel p h = record {
    result = loop_nil fuel p;
    fits = elim (Bool-cases (is_parsed p.state)) [ inl e ↦ rw e h | inr e ↦ rw e h ];
  }

  loop-Ends :
      (fuel : ℕ) (bytes : List ℕ) (p : Parser C)
      → IsBounded p
      → weight p.state + 2 * length bytes ≤ fuel
      → Ends fuel bytes p
  loop-Ends fuel [] p h w = Ends-nil fuel p h
  loop-Ends zero (b ∷ bytes) p h w = absurd (omega arith)
  loop-Ends (suc fuel) (b ∷ bytes) p h w = elim (Bool-cases (is_parsed p.state)) [
    | inl e ↦ record {
      result = loop_parsed fuel b bytes p e ∙ rw (run_parsed b bytes p e) refl;
      fits = rw (run_parsed b bytes p e) h;
    }
    | inr n ↦
        let ran = handle-run digest p.state b bytes p refl h n in
        let went = handle-Progress digest p.state b bytes p refl h n in
        elim (Result-cases (handle digest p.state b bytes p)) [
          | inl ((q, rest), e) ↦
              let (h', w') = rw e at went in
              let r = loop-Ends fuel rest q h' (omega arith) in
              record {
                result =
                    loop_handled fuel b bytes rest p q n e
                    ∙ r.result
                    ∙ ap some (sym (ap (then_run digest) e) ∙ ran);
                fits = rw (sym (sym (ap (then_run digest) e) ∙ ran)) r.fits;
              }
          | inr (x, e) ↦ record {
            result =
                loop_failed fuel b bytes p x n e ∙ ap some (sym (ap (then_run digest) e) ∙ ran);
            fits = rw (sym (sym (ap (then_run digest) e) ∙ ran)) tt;
          }
        ]
  ]

  weight_le : (p : Parser C) → weight p.state ≤ 1
  weight_le p = bound p.state
    where
      bound : (s : State) → weight s ≤ 1
      bound reading_request_line = omega arith
      bound terminating_request_line = omega arith
      bound reading_header = omega arith
      bound terminating_header = omega arith
      bound checking_header_continuation = omega arith
      bound parsed = omega arith

  data-Ends : (bytes : List ℕ) (p : Parser C) → IsBounded p → Ends (2 * length bytes + 1) bytes p
  data-Ends bytes p h = loop-Ends (2 * length bytes + 1) bytes p h (omega (arith, weight_le p))

  -- From any parser whose buffer keeps to 512 bytes, the loop over the pieces of the data ends
  -- within two rounds for each byte and one more, and is the machine that takes the request byte
  -- by byte.
  pub parse_data-run :
      (bytes : List ℕ) (p : Parser C)
      → IsBounded p
      → parse_data digest bytes p ≡ some (run digest bytes p)
  unfolding parse_data
  parse_data-run bytes p h = (data-Ends bytes p h).result

  same : {a b : Outcome C} → some a ≡ some b → a ≡ b
  same e = cc

  -- Whatever the data, a parser whose buffer keeps to 512 bytes keeps to them afterwards.
  pub parse_data-Fits :
      (bytes : List ℕ) (p : Parser C) {o : Outcome C}
      → IsBounded p
      → parse_data digest bytes p ≡ some o
      → Fits o
  unfolding parse_data
  parse_data-Fits bytes p h e =
      subst Fits (same (sym (data-Ends bytes p h).result ∙ e)) (data-Ends bytes p h).fits

  -- What the next piece of the data does to an outcome.
  abbrev pub then_parse : List ℕ → Outcome C → Option (Outcome C)
  then_parse bytes (need_more_data p) = parse_data digest bytes p
  then_parse bytes (finished p rest) = some (finished p (rest ++ bytes))
  then_parse bytes (error e) = some (error e)

  abbrev then_go : List ℕ → Outcome C → Outcome C
  then_go bytes (need_more_data p) = run digest bytes p
  then_go bytes (finished p rest) = finished p (rest ++ bytes)
  then_go bytes (error e) = error e

  pub run_done :
      (bytes : List ℕ) (p : Parser C)
      → is_parsed p.state ≡ true
      → run digest bytes p ≡ finished p bytes
  unfolding run
  run_done [] p e = rw e
  run_done (b ∷ bytes) p e = run_parsed b bytes p e

  pub run_waiting : (p : Parser C) → is_parsed p.state ≡ false → run digest [] p ≡ need_more_data p
  unfolding run
  run_waiting p e = rw e

  pub run_fed :
      (b : ℕ) (bytes : List ℕ) (p q : Parser C)
      → is_parsed p.state ≡ false
      → feed digest p.state b p ≡ ok q
      → run digest (b ∷ bytes) p ≡ run digest bytes q
  unfolding run
  run_fed b bytes p q n e = rw (n, e, run) refl

  run_failed :
      (b : ℕ) (bytes : List ℕ) (p : Parser C) (x : Error)
      → is_parsed p.state ≡ false
      → feed digest p.state b p ≡ err x
      → run digest (b ∷ bytes) p ≡ error x
  unfolding run
  run_failed b bytes p x n e = rw (n, e, run) refl

  run-append :
      (xs ys : List ℕ) (p : Parser C) → run digest (xs ++ ys) p ≡ then_go ys (run digest xs p)
  run-append [] ys p = elim (Bool-cases (is_parsed p.state)) [
    | inl e ↦ run_done ys p e ∙ sym (ap (then_go ys) (run_done [] p e))
    | inr e ↦ sym (ap (then_go ys) (run_waiting p e))
  ]
  run-append (b ∷ xs) ys p =
      let ih = run-append xs ys in
      elim (Bool-cases (is_parsed p.state)) [
        | inl e ↦ run_done (b ∷ (xs ++ ys)) p e ∙ sym (ap (then_go ys) (run_done (b ∷ xs) p e))
        | inr e ↦ elim (Result-cases (feed digest p.state b p)) [
          | inl (q, k) ↦
              run_fed b (xs ++ ys) p q e k ∙ ih q ∙ sym (ap (then_go ys) (run_fed b xs p q e k))
          | inr (x, k) ↦
              run_failed b (xs ++ ys) p x e k ∙ sym (ap (then_go ys) (run_failed b xs p x e k))
        ]
      ]

  go_parse : (bytes : List ℕ) (o : Outcome C) → Fits o → some (then_go bytes o) ≡ then_parse bytes o
  go_parse bytes (need_more_data p) h = sym (parse_data-run bytes p h)
  go_parse bytes (finished p rest) h = refl
  go_parse bytes (error e) h = refl

  -- A request parsed in two pieces is the request parsed at once: with the parser that the first
  -- piece leaves when it asks for more data, and with what is left of both pieces when it has
  -- finished in the first one. The buffer keeps to 512 bytes at the start.
  pub parse_data-append :
      (xs ys : List ℕ) (p : Parser C)
      → IsBounded p
      → parse_data digest (xs ++ ys) p ≡ (parse_data digest xs p >>= then_parse ys)
  parse_data-append xs ys p h =
      parse_data-run (xs ++ ys) p h
      ∙ ap some (run-append xs ys p)
      ∙ go_parse ys (run digest xs p) (data-Ends xs p h).fits
      ∙ sym (ap (λ r. r >>= then_parse ys) (parse_data-run xs p h))
