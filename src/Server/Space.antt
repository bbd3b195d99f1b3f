-- ===== src/Server/Space.antt =====
-- What a connection writes fits the buffer, and the loop that fills it ends.
use verda_sxtelo.Common.{
  ℕ, zero, suc, ◌+◌, ◌-◌, ◌≤◌, ◌<◌, arith, All, Option, none, some, Option-cases, List, [], ◌∷◌,
  length, length-append, Bool-cases, inl, inr,
}
use verda_sxtelo.Frames.{Result, ok, refused, overrun, endless, ◌>>=◌}
use verda_sxtelo.Connection.{Connection}
use verda_sxtelo.Server.{Session}
use verda_sxtelo.Server.Pending.{is_flag_set, Flag}
use verda_sxtelo.Server.Output.{
  WriteFunc, Round, drained, full, found, after_round, is_writing, prepend, write_with,
  after_unflagged, after_flagged, try_funcs, write_funcs, fill_loop, fill_output_buffer,
}
use verda_sxtelo.Server.Fits.{write_with-Fits, Writes, write_funcs-Writes}
use verda_sxtelo.Server.Followed.{Fits}

-- What a round leaves of the space.
module _ {C : Type 0} where
  abbrev pub RoundFits : ℕ → Result (Round C) → Type 0
  RoundFits size (ok drained) = Unit {0}
  RoundFits size (ok full) = Unit {0}
  RoundFits size (ok (found bytes conn)) = (1 ≤ length bytes) × (length bytes ≤ size)
  RoundFits size overrun = Unit {0}
  RoundFits size refused = ⊥
  RoundFits size endless = ⊥

  unflagged-RoundFits :
      (size : ℕ) (r : Result (Option (List ℕ × Connection C Session))) (next : Result (Round C))
      → Fits 0 size r
      → RoundFits size next
      → RoundFits size (r >>= λ o. after_unflagged o next)
  unfolding after_unflagged
  unflagged-RoundFits size (ok none) next h k = tt
  unflagged-RoundFits size (ok (some ([], conn))) next h k = k
  unflagged-RoundFits size (ok (some (b ∷ bytes, conn))) next (h, l) k = (omega arith, l)
  unflagged-RoundFits size overrun next h k = tt
  unflagged-RoundFits size refused next h k = h
  unflagged-RoundFits size endless next h k = h

  flagged-RoundFits :
      (size : ℕ) (flag : Flag) (r : Result (Option (List ℕ × Connection C Session)))
      → Fits 1 size r
      → RoundFits size (r >>= λ o. ok (after_flagged flag o))
  unfolding after_flagged
  flagged-RoundFits size flag (ok none) h = tt
  flagged-RoundFits size flag (ok (some (bytes, conn))) h = h
  flagged-RoundFits size flag overrun h = tt
  flagged-RoundFits size flag refused h = h
  flagged-RoundFits size flag endless h = h

  pub try_funcs-RoundFits :
      (funcs : List WriteFunc) (size : ℕ) (conn : Connection C Session)
      → All (Writes size conn) funcs
      → RoundFits size (try_funcs funcs size conn)
  unfolding try_funcs
  try_funcs-RoundFits [] size conn a = tt
  try_funcs-RoundFits (f ∷ funcs) size conn (h, hs) = elim (Option-cases f.flag) [
    | inl e ↦
        rw (try_funcs, e)
          (unflagged-RoundFits size (write_with f.func size conn) (try_funcs funcs size conn)
            (write_with-Fits size conn f.func) (try_funcs-RoundFits funcs size conn hs))
    | inr (flag, e) ↦ elim (Bool-cases (is_flag_set flag conn)) [
      | inl t ↦
          rw (try_funcs, e, t)
            (flagged-RoundFits size flag (write_with f.func size conn) (h flag e))
      | inr t ↦ rw (try_funcs, e, t) (try_funcs-RoundFits funcs size conn hs)
    ]
  ]

  -- What the loop returns.
  abbrev pub Filled : ℕ → Result (List ℕ × Connection C Session) → Type 0
  Filled size (ok (bytes, conn)) = length bytes ≤ size
  Filled size overrun = Unit {0}
  Filled size refused = ⊥
  Filled size endless = ⊥

  prepend-Filled :
      (size : ℕ) (bytes : List ℕ) (r : Result (List ℕ × Connection C Session))
      → length bytes ≤ size
      → Filled (size - length bytes) r
      → Filled size (r >>= λ r. ok (prepend bytes r))
  prepend-Filled size bytes (ok (more, conn)) l h = omega (arith, length-append bytes more)
  prepend-Filled size bytes overrun l h = tt
  prepend-Filled size bytes refused l h = h
  prepend-Filled size bytes endless l h = h

  after_round-Filled :
      (size : ℕ) (again : ℕ → Connection C Session → Result (List ℕ × Connection C Session))
      (conn : Connection C Session) (r : Result (Round C))
      → RoundFits size r
      → ((k : ℕ) (conn' : Connection C Session) → k < size → Filled k (again k conn'))
      → Filled size (r >>= after_round size again conn)
  unfolding after_round
  after_round-Filled size again conn (ok drained) h k = omega arith
  after_round-Filled size again conn (ok full) h k = omega arith
  after_round-Filled size again conn (ok (found bytes conn')) (a, b) k =
      prepend-Filled size bytes (again (size - length bytes) conn') b
        (k (size - length bytes) conn' (omega arith))
  after_round-Filled size again conn overrun h k = tt
  after_round-Filled size again conn refused h k = h
  after_round-Filled size again conn endless h k = h

  fill_loop-Filled :
      (fuel size : ℕ) (conn : Connection C Session)
      → size < fuel
      → Filled size (fill_loop fuel size conn)
  unfolding fill_loop
  fill_loop-Filled zero size conn h = absurd (omega arith)
  fill_loop-Filled (suc fuel) size conn h = elim (Bool-cases (is_writing conn)) [
    | inr e ↦ rw e (omega arith)
    | inl e ↦ rw e (
        after_round-Filled size (fill_loop fuel) conn (try_funcs write_funcs size conn)
          (try_funcs-RoundFits write_funcs size conn (write_funcs-Writes size conn))
          (λ k conn' l. fill_loop-Filled fuel k conn' (omega arith)))
  ]

  -- Filling the output buffer of any connection ends, or follows a null pointer, and puts at most
  -- as many bytes into the buffer as it has room for.
  pub fill_output_buffer-Filled :
      (buffer_size : ℕ) (conn : Connection C Session)
      → Filled buffer_size (fill_output_buffer buffer_size conn)
  unfolding fill_output_buffer
  fill_output_buffer-Filled buffer_size conn =
      fill_loop-Filled (buffer_size + 1) buffer_size conn (omega arith)
