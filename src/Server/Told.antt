-- ===== src/Server/Told.antt =====
-- What a round that did not write anything says of the writers.
use verda_sxtelo.Common.{
  ap, ◌++◌, ℕ, suc, ◌≤◌, ◌≡◌, refl, sym, ◌∙◌, subst, arith, Bool, true, false, Option, none, some,
  Option-cases, none-ne-some, List, [], ◌∷◌, length, get_elem?, All, Bool-cases, inl, inr,
}
use verda_sxtelo.Common.Count.{get_elem?-some}
use native.Mathlib.Decide.{dec_lt}
use verda_sxtelo.Bitmask.{first_set, any_set}
use verda_sxtelo.Frames.{Result, ok, refused, overrun, endless, ◌>>=◌}
use verda_sxtelo.Connection.{Connection}
use verda_sxtelo.Server.{Session}
use verda_sxtelo.Server.Pending.{Flag, is_flag_set}
use verda_sxtelo.Server.Refusing.{TooLong, write_with-Refuses}
use verda_sxtelo.Server.Output.{
  WriteFunc, Round, drained, full, found, write_with, after_unflagged, after_flagged, try_funcs,
}

pub first_set-none : (mask : List Bool) → first_set mask ≡ none → any_set mask ≡ false
unfolding first_set any_set
first_set-none [] h = refl
first_set-none (true ∷ mask) h = absurd (none-ne-some 0 (sym h))
first_set-none (false ∷ mask) h = elim (Option-cases (first_set mask)) [
  | inl e ↦ first_set-none mask e
  | inr (n, e) ↦ absurd (none-ne-some (suc n) (sym (rw e at h)))
]

pub get_elem?-none {ℓ} : {A : Type ℓ} (xs : List A) (i : ℕ) → get_elem? xs i ≡ none → length xs ≤ i
get_elem?-none xs i h = elim (dec_lt i (length xs)) [
  | no l ↦ omega arith
  | yes l ↦ let (a, e) = get_elem?-some xs i l in absurd (none-ne-some a (sym h ∙ e))
]

module _ {C : Type 0} where
  -- A writer that has nothing to do.
  abbrev pub Idle : ℕ → Connection C Session → WriteFunc → Type 0
  Idle size conn f =
      ((flag : Flag) → f.flag ≡ some flag → is_flag_set flag conn ≡ false)
      × (f.flag ≡ none
          → (conn' : Connection C Session) × (write_with f.func size conn ≡ ok (some ([], conn'))))

  -- A writer that has no flag, or the flag of which is set.
  abbrev pub IsDue : Connection C Session → Option Flag → Type 0
  IsDue conn none = Unit {0}
  IsDue conn (some flag) = is_flag_set flag conn ≡ true

  -- The first of the writers that has something to do would write more than the space that is
  -- left. Those before it have nothing to do.
  pub record Blocked (funcs : List WriteFunc) (size : ℕ) (conn : Connection C Session)
      : Type 0 where
    pub before : List WriteFunc
    pub first : WriteFunc
    pub behind : List WriteFunc
    pub order : funcs ≡ before ++ (first ∷ behind)
    pub idle : All (Idle size conn) before
    pub due : IsDue conn first.flag
    pub too_long : TooLong size (λ k. write_with first.func k conn)

  -- What a round that did not write anything says.
  abbrev pub Told : List WriteFunc → ℕ → Connection C Session → Result (Round C) → Type 0
  Told funcs size conn (ok drained) = All (Idle size conn) funcs
  Told funcs size conn (ok full) = Blocked funcs size conn
  Told funcs size conn (ok (found bytes conn')) = Unit {0}
  Told funcs size conn refused = Unit {0}
  Told funcs size conn overrun = Unit {0}
  Told funcs size conn endless = Unit {0}

module _ {C : Type 0} (f : WriteFunc) (funcs : List WriteFunc) (size : ℕ)
    (conn : Connection C Session) where
  -- One more writer that has nothing to do.
  more :
      (next : Result (Round C))
      → Idle size conn f
      → Told funcs size conn next
      → Told (f ∷ funcs) size conn next
  more (ok drained) i t = (i, t)
  more (ok full) i t = record {
    before = f ∷ t.before;
    first = t.first;
    behind = t.behind;
    order = ap (◌∷◌ f) t.order;
    idle = (i, t.idle);
    due = t.due;
    too_long = t.too_long;
  }
  more (ok (found bytes conn')) i t = tt
  more refused i t = tt
  more overrun i t = tt
  more endless i t = tt

  -- The first of the writers refuses.
  blocked :
      IsDue conn f.flag → write_with f.func size conn ≡ ok none → Blocked (f ∷ funcs) size conn
  blocked d w = record {
    before = [];
    first = f;
    behind = funcs;
    order = refl;
    idle = tt;
    due = d;
    too_long = write_with-Refuses size conn f.func w;
  }

  unflagged-Told :
      (r : Result (Option (List ℕ × Connection C Session))) (next : Result (Round C))
      → f.flag ≡ none
      → write_with f.func size conn ≡ r
      → Told funcs size conn next
      → Told (f ∷ funcs) size conn (r >>= λ o. after_unflagged o next)
  unfolding after_unflagged
  unflagged-Told (ok none) next e w t = blocked (rw e tt) w
  unflagged-Told (ok (some ([], conn'))) next e w t =
      more next ((λ flag g. absurd (none-ne-some flag (sym e ∙ g))), λ g. (conn', w)) t
  unflagged-Told (ok (some (b ∷ bytes, conn'))) next e w t = tt
  unflagged-Told refused next e w t = tt
  unflagged-Told overrun next e w t = tt
  unflagged-Told endless next e w t = tt

  flagged-Told :
      (flag : Flag) (r : Result (Option (List ℕ × Connection C Session)))
      → f.flag ≡ some flag
      → is_flag_set flag conn ≡ true
      → write_with f.func size conn ≡ r
      → Told (f ∷ funcs) size conn (r >>= λ o. ok (after_flagged flag o))
  unfolding after_flagged
  flagged-Told flag (ok none) e t w = blocked (rw e t) w
  flagged-Told flag (ok (some (bytes, conn'))) e t w = tt
  flagged-Told flag refused e t w = tt
  flagged-Told flag overrun e t w = tt
  flagged-Told flag endless e t w = tt

some-flag : {f g : Flag} → some f ≡ some g → f ≡ g
some-flag h = cc

module _ {C : Type 0} where
  pub try_funcs-Told :
      (funcs : List WriteFunc) (size : ℕ) (conn : Connection C Session)
      → Told funcs size conn (try_funcs funcs size conn)
  unfolding try_funcs
  try_funcs-Told [] size conn = tt
  try_funcs-Told (f ∷ funcs) size conn = elim (Option-cases f.flag) [
    | inl e ↦
        simp (try_funcs, e)
          (unflagged-Told f funcs size conn (write_with f.func size conn)
            (try_funcs funcs size conn) e refl (try_funcs-Told funcs size conn))
    | inr (flag, e) ↦ elim (Bool-cases (is_flag_set flag conn)) [
      | inl t ↦
          simp (try_funcs, e, t)
            (flagged-Told f funcs size conn flag (write_with f.func size conn) e t refl)
      | inr t ↦
          simp (try_funcs, e, t)
            (more f funcs size conn (try_funcs funcs size conn)
              (
                (λ other g. subst (λ x. is_flag_set x conn ≡ false) (some-flag (sym e ∙ g)) t),
                λ g. absurd (none-ne-some flag (sym g ∙ e)),
              )
              (try_funcs-Told funcs size conn))
    ]
  ]
