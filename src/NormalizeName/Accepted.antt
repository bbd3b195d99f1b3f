-- ===== src/NormalizeName/Accepted.antt =====
-- What `vsx_normalize_name` makes of a name that it accepts.
use verda_sxtelo.Common.{
  ℕ, ◌≡◌, ◌≢◌, refl, sym, ◌∙◌, ap, arith, Bool, true, false, not, Option, none, some, List, [], ◌∷◌,
  length, ◌==◌, ltb, leb, if◌then◌else◌, Bool-cases, Option-cases, inl, inr, ltb-false→le,
  none-ne-some, true-ne-false, subst,
}
use verda_sxtelo.NormalizeName.{
  max_name_length, is_space, skip_space, combine, strip_space, normalize_name,
}
use verda_sxtelo.NormalizeName.Steps.{
  combine_first_space, combine_next_space, combine_control, combine_letter, combine-skip_space,
}
use verda_sxtelo.NormalizeName.Tidy.{
  both, spaced, ends_letter, IsTidy, spaced_blank, spaced_letter, normalize_name-tidy,
}
use mathlib.Core.Option
use mathlib.Core.Option.{some-injective}

-- The loop has written single spaces, and has found a letter unless it has written a space or
-- nothing.
data Written (out : List ℕ) : Bool → Type 0 where
  with_letter : ends_letter (strip_space out) ≡ true → Written out true
  nothing : out ≡ [] → Written out false
  space : out ≡ 32 ∷ [] → Written out false

abbrev IsSpaced : Bool → Option (List ℕ × Bool) → Type 0
IsSpaced b none = Unit {0}
IsSpaced b (some (out, got)) = (spaced b out ≡ true) × Written out got

ends_cons : (ch : ℕ) (out : List ℕ) → ends_letter out ≡ true → ends_letter (ch ∷ out) ≡ true
unfolding ends_letter
ends_cons ch [] e = absurd (true-ne-false (sym e))
ends_cons ch (next ∷ rest) e = e

-- Of what is stripped there is no last space.
no_end : ends_letter [] ≢ true
unfolding ends_letter
no_end e = true-ne-false (sym e)

strip_cons :
    (ch : ℕ) (out : List ℕ)
    → ends_letter (strip_space out) ≡ true
    → ends_letter (strip_space (ch ∷ out)) ≡ true
unfolding strip_space
strip_cons ch [] e = absurd (no_end e)
strip_cons ch (next ∷ rest) e = ends_cons ch (strip_space (next ∷ rest)) e

alone : (ch : ℕ) → (ch == 32) ≡ false → ends_letter (strip_space (ch ∷ [])) ≡ true
unfolding strip_space ends_letter
alone ch k = rw (k, ends_letter, k) refl

before_space : (ch : ℕ) → (ch == 32) ≡ false → ends_letter (strip_space (ch ∷ 32 ∷ [])) ≡ true
unfolding strip_space ends_letter
before_space ch k = rw k refl

letter_Written :
    (ch : ℕ) (out : List ℕ) (got : Bool)
    → (ch == 32) ≡ false
    → Written out got
    → Written (ch ∷ out) true
letter_Written ch out true k (with_letter h) = with_letter (strip_cons ch out h)
letter_Written ch out false k (nothing e) = with_letter (rw e (alone ch k))
letter_Written ch out false k (space e) = with_letter (rw e (before_space ch k))

space_Written :
    (out : List ℕ) (got : Bool) → spaced true out ≡ true → Written out got → Written (32 ∷ out) got
space_Written out true s (with_letter h) = with_letter (strip_cons 32 out h)
space_Written out false s (nothing e) = space (ap (◌∷◌ 32) e)
space_Written out false s (space e) =
    absurd (true-ne-false (sym s ∙ ap (spaced true) e ∙ spaced_blank true 32 [] refl))

no_blank : (ch : ℕ) → leb ch 32 ≡ false → (ch == 32) ≡ false
no_blank ch k = ground arith

letter_IsSpaced :
    (b : Bool) (ch : ℕ) (o : Option (List ℕ × Bool))
    → leb ch 32 ≡ false
    → IsSpaced false o
    → IsSpaced b (Option.map (λ r. (ch ∷ r.0, true)) o)
letter_IsSpaced b ch none k i = tt
letter_IsSpaced b ch (some (out, got)) k (s, w) =
    let c = no_blank ch k in
    (spaced_letter b ch out c ∙ rw (k, s) refl, letter_Written ch out got c w)

space_IsSpaced :
    (o : Option (List ℕ × Bool))
    → IsSpaced true o
    → IsSpaced false (Option.map (λ r. (32 ∷ r.0, r.1)) o)
space_IsSpaced none i = tt
space_IsSpaced (some (out, got)) (s, w) =
    (spaced_blank false 32 out refl ∙ s, space_Written out got s w)

blank_IsSpaced :
    (b : Bool) (ch : ℕ) (src : List ℕ)
    → is_space ch ≡ true
    → IsSpaced true (combine true src)
    → IsSpaced b (combine b (ch ∷ src))
blank_IsSpaced true ch src e i = subst (IsSpaced true) (sym (combine_next_space ch src e)) i
blank_IsSpaced false ch src e i =
    subst (IsSpaced false) (sym (combine_first_space ch src e))
      (space_IsSpaced (combine true src) i)

spaced_nil : (b : Bool) → spaced b [] ≡ true
unfolding spaced
spaced_nil b = refl

combine-IsSpaced : (b : Bool) (src : List ℕ) → IsSpaced b (combine b src)
unfolding combine spaced
combine-IsSpaced b [] = (refl, nothing refl)
combine-IsSpaced b (ch ∷ src) = elim (Bool-cases (is_space ch)) [
  | inl e ↦ blank_IsSpaced b ch src e (combine-IsSpaced true src)
  | inr e ↦ elim (Bool-cases (leb ch 32)) [
    | inl c ↦ subst (IsSpaced b) (sym (combine_control ch src b e c)) tt
    | inr c ↦
        subst (IsSpaced b) (sym (combine_letter ch src b e c))
          (letter_IsSpaced b ch (combine false src) c (combine-IsSpaced false src))
  ]
]

strip_space-spaced :
    (b : Bool) (out : List ℕ) → spaced b out ≡ true → spaced b (strip_space out) ≡ true
unfolding strip_space
strip_space-spaced b [] s = s
strip_space-spaced b (ch ∷ []) s = elim (Bool-cases (ch == 32)) [
  | inl k ↦ rw k (spaced_nil b)
  | inr k ↦ rw k s
]
strip_space-spaced b (ch ∷ next ∷ rest) s = elim (Bool-cases (ch == 32)) [
  | inl k ↦
      let (f, t) =
        both b (spaced true (next ∷ rest)) (sym (spaced_blank b ch (next ∷ rest) k) ∙ s) in
      spaced_blank b ch (strip_space (next ∷ rest)) k
      ∙ rw (f, strip_space-spaced true (next ∷ rest) t) refl
  | inr k ↦
      let (f, t) =
        both (leb ch 32) (spaced false (next ∷ rest))
          (sym (spaced_letter b ch (next ∷ rest) k) ∙ s) in
      spaced_letter b ch (strip_space (next ∷ rest)) k
      ∙ rw (f, strip_space-spaced false (next ∷ rest) t) refl
]

-- What is returned for what the loop has written.
abbrev judged : List ℕ → Bool → Option (List ℕ)
judged out got =
    if not got
    then none
    else if ltb max_name_length (length (strip_space out))
    then none
    else some (strip_space out)

judged-IsTidy :
    (out result : List ℕ) (got : Bool)
    → spaced true out ≡ true
    → Written out got
    → judged out got ≡ some result
    → IsTidy result
judged-IsTidy out result false s w e = absurd (none-ne-some result e)
judged-IsTidy out result true s (with_letter h) e =
    elim (Bool-cases (ltb max_name_length (length (strip_space out)))) [
      | inl l ↦ absurd (
          none-ne-some result
            (sym (ap (λ (b : Bool). if b then none else some (strip_space out)) l) ∙ e))
      | inr l ↦
          subst IsTidy
            (some-injective _ _
              (sym (ap (λ (b : Bool). if b then none else some (strip_space out)) l) ∙ e))
            (record {
              spaces = strip_space-spaced true out s;
              ending = h;
              fits = ltb-false→le max_name_length (length (strip_space out)) l;
            })
    ]

normalize_name-judged :
    (name out : List ℕ) (got : Bool)
    → combine false (skip_space name) ≡ some (out, got)
    → normalize_name name ≡ judged out got
unfolding normalize_name
normalize_name-judged name out got e = rw e refl

normalize_name_refused :
    (name : List ℕ) → combine false (skip_space name) ≡ none → normalize_name name ≡ none
unfolding normalize_name
normalize_name_refused name e = rw e refl

pub normalize_name-IsTidy :
    (name result : List ℕ) → normalize_name name ≡ some result → IsTidy result
normalize_name-IsTidy name result e = elim (Option-cases (combine false (skip_space name))) [
  | inl n ↦ absurd (none-ne-some result (sym (normalize_name_refused name n) ∙ e))
  | inr ((out, got), n) ↦
      let i =
        subst (IsSpaced true) (sym (combine-skip_space name) ∙ n)
          (combine-IsSpaced true (skip_space name)) in
      judged-IsTidy out result got i.0 i.1 (sym (normalize_name-judged name out got n) ∙ e)
]

-- What is made of any name that is accepted is tidy and is accepted again as it is: it has at
-- most 256 bytes, no byte below a space, single spaces only, is not empty, and neither begins nor
-- ends with a space.
pub normalize_name-twice :
    (name result : List ℕ)
    → normalize_name name ≡ some result
    → IsTidy result × (normalize_name result ≡ some result)
normalize_name-twice name result e =
    let t = normalize_name-IsTidy name result e in (t, normalize_name-tidy result t)
