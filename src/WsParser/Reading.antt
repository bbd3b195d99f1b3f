-- ===== src/WsParser/Reading.antt =====
-- Reading a line: a search for the carriage return is a round for each byte before it.
use verda_sxtelo.Common.{
  ℕ, ◌+◌, ◌≤◌, ◌≡◌, refl, sym, ◌∙◌, arith, true, false, some, none, List, [], ◌∷◌, ◌==◌, ltb,
  length, take, drop, length-append, Bool-cases, Option-cases, inl, inr, ◌⊎◌,
}
use native.Mathlib.Numerals.{add-one}
use mathlib.Core.List.{append-nil, append_assoc}
use verda_sxtelo.Memory.{memchr, memchr_here, memchr-none, memchr_next}
use verda_sxtelo.WsParser.{
  Error, Result, ok, err, ◌>>=◌, State, Parser, with_state, add_bytes_to_buffer, max_line_length,
  handle_reading,
}

pub Result-cases :
    {A : Type 0} (r : Result A) → ((a : A) × (r ≡ ok a)) ⊎ ((e : Error) × (r ≡ err e))
Result-cases (ok a) = inl (a, refl)
Result-cases (err e) = inr (e, refl)

suc_take : (i b : ℕ) (bytes : List ℕ) → take (i + 1) (b ∷ bytes) ≡ b ∷ take i bytes
suc_take i b bytes = rw add-one

suc_drop : (i b : ℕ) (bytes : List ℕ) → drop (i + 1 + 1) (b ∷ bytes) ≡ drop (i + 1) bytes
suc_drop i b bytes = rw add-one

bind_both :
    {A B : Type 0} (r : Result A) (f : A → Result A) (g h : A → Result B)
    → ((a : A) → (f a >>= g) ≡ h a)
    → ((r >>= f) >>= g) ≡ (r >>= h)
bind_both (ok a) f g h e = e a
bind_both (err x) f g h e = refl

module _ {C : Type 0} where
  abbrev pub IsBounded : Parser C → Type 0
  IsBounded p = length p.buf ≤ max_line_length

  -- Bytes can be added one by one.
  add_bytes_to_buffer-cons :
      (b : ℕ) (bytes : List ℕ) (p : Parser C)
      → add_bytes_to_buffer (b ∷ bytes) p
        ≡ (add_bytes_to_buffer (b ∷ []) p >>= add_bytes_to_buffer bytes)
  unfolding add_bytes_to_buffer
  add_bytes_to_buffer-cons b bytes p = elim (Bool-cases (ltb 512 (length p.buf + 1))) [
    | inl long ↦ ground (arith, long)
    | inr short ↦
        ground (arith, short, length-append p.buf (b ∷ []), append_assoc p.buf (b ∷ []) bytes)
  ]

  pub add_bytes_to_buffer-nil : (p : Parser C) → IsBounded p → add_bytes_to_buffer [] p ≡ ok p
  unfolding add_bytes_to_buffer
  add_bytes_to_buffer-nil p h = ground (arith, append-nil p.buf)

  pub handle_reading-none :
      (terminating : State) (bytes : List ℕ) (p : Parser C)
      → memchr bytes 13 ≡ none
      → handle_reading terminating bytes p ≡ (add_bytes_to_buffer bytes p >>= λ p'. ok (p', []))
  unfolding handle_reading
  handle_reading-none terminating bytes p n = rw (n, handle_reading)

  pub handle_reading-some :
      (terminating : State) (bytes : List ℕ) (p : Parser C) (i : ℕ)
      → memchr bytes 13 ≡ some i
      → handle_reading terminating bytes p ≡ (
          add_bytes_to_buffer (take i bytes) p >>= λ p'.
          ok (with_state terminating p', drop (i + 1) bytes))
  unfolding handle_reading
  handle_reading-some terminating bytes p i n = rw (n, handle_reading)

  pub handle_reading-end :
      (terminating : State) (b : ℕ) (bytes : List ℕ) (p : Parser C)
      → (b == 13) ≡ true
      → IsBounded p
      → handle_reading terminating (b ∷ bytes) p ≡ ok (with_state terminating p, bytes)
  handle_reading-end terminating b bytes p e h =
      handle_reading-some terminating (b ∷ bytes) p 0 (memchr_here b bytes 13 e)
      ∙ rw (add_bytes_to_buffer-nil p h) refl

  pub handle_reading-cons :
      (terminating : State) (b : ℕ) (bytes : List ℕ) (p : Parser C)
      → (b == 13) ≡ false
      → handle_reading terminating (b ∷ bytes) p
        ≡ (add_bytes_to_buffer (b ∷ []) p >>= handle_reading terminating bytes)
  handle_reading-cons terminating b bytes p e = elim (Option-cases (memchr bytes 13)) [
    | inl n ↦
        handle_reading-none terminating (b ∷ bytes) p (memchr-none b bytes 13 e n)
        ∙ rw (add_bytes_to_buffer-cons b bytes p) (
            bind_both (add_bytes_to_buffer (b ∷ []) p) (add_bytes_to_buffer bytes)
              (λ p'. ok (p', [])) (handle_reading terminating bytes)
              (λ q. sym (handle_reading-none terminating bytes q n)))
    | inr (i, k) ↦
        handle_reading-some terminating (b ∷ bytes) p (i + 1) (memchr_next b bytes 13 i e k)
        ∙ rw (suc_take i b bytes, suc_drop i b bytes, add_bytes_to_buffer-cons b (take i bytes) p)
            (bind_both (add_bytes_to_buffer (b ∷ []) p) (add_bytes_to_buffer (take i bytes))
              (λ p'. ok (with_state terminating p', drop (i + 1) bytes))
              (handle_reading terminating bytes)
              (λ q. sym (handle_reading-some terminating bytes q i k)))
  ]
