-- ===== src/Frames/Bytes.antt =====
-- The loop that copies data into the buffer, and a machine that takes it byte by byte.
use verda_sxtelo.Common.{
  ◌≢◌, subst, leb-false→lt, ℕ, zero, suc, ◌+◌, ◌-◌, ◌<◌, ◌≤◌, ◌≡◌, refl, sym, ap, ◌∙◌, arith, List,
  [], ◌∷◌, ◌++◌, length, length-append, length-drop, length-take, take, drop, leb, Bool-cases,
  if◌then◌else◌, inl, inr, min, take-append-drop, leb→le, lt→leb-false,
}
use verda_sxtelo.Frames.{
  Result, ok, refused, overrun, endless, ◌>>=◌, Reader, read_buf_size, process_frames, copy_loop,
  parse_frames,
}
use verda_sxtelo.Frames.Append.{bind_assoc}
use verda_sxtelo.Frames.Stream.{go_on, process_frames-append, process_frames-Fits}
use mathlib.Core.List.{append_assoc, append-nil}

module _ {ℓ κ} {A : Type ℓ} {B : Type κ} where
  -- The steps behind `r` only matter for what it returns.
  pub bind_same :
      (r : Result A) (f g : A → Result B) → ((a : A) → r ≡ ok a → f a ≡ g a) → (r >>= f) ≡ (r >>= g)
  bind_same (ok a) f g h = h a refl
  bind_same refused f g h = refl
  bind_same overrun f g h = refl
  bind_same endless f g h = refl

  pub bind_ok :
      (r : Result A) (f : A → Result B) (b : B)
      → (r >>= f) ≡ ok b
      → (a : A) × (r ≡ ok a) × (f a ≡ ok b)
  bind_ok (ok a) f b e = (a, refl, e)
  bind_ok refused f b e = cc
  bind_ok overrun f b e = cc
  bind_ok endless f b e = cc

ok_injective {ℓ} : {A : Type ℓ} (a b : A) → ok a ≡ ok b → a ≡ b
ok_injective a b e = cc

endless-ne-ok {ℓ} : {A : Type ℓ} (a : A) → endless ≢ ok a
endless-ne-ok a e = cc

module _ {S : Type 0} (process_message : List ℕ → S → Result S) where
  -- A buffer that fits its array and has no whole frame.
  pub record IsSettled (conn : Reader S) : Type 0 where
    pub fits : length conn.read_buf ≤ read_buf_size
    pub waits : process_frames process_message conn ≡ ok conn

  -- A byte for which there is no room is never taken.
  unfoldable pub take_byte : ℕ → Reader S → Result (Reader S)
  take_byte b conn =
      if leb read_buf_size (length conn.read_buf)
      then endless
      else process_frames process_message (record conn { read_buf = conn.read_buf ++ (b ∷ []) })

  unfoldable pub run : List ℕ → Reader S → Result (Reader S)
  run [] conn = ok conn
  run (b ∷ bytes) conn = take_byte b conn >>= run bytes

  pub run-append :
      (xs ys : List ℕ) (conn : Reader S) → run (xs ++ ys) conn ≡ (run xs conn >>= run ys)
  unfolding run
  run-append [] ys conn = refl
  run-append (b ∷ xs) ys conn =
      bind_same (take_byte b conn) (run (xs ++ ys)) (λ c. run xs c >>= run ys)
        (λ c e. run-append xs ys c)
      ∙ sym (bind_assoc (take_byte b conn) (run xs) (run ys))

  no_bytes :
      (conn : Reader S)
      → process_frames process_message (record conn { read_buf = conn.read_buf ++ [] })
        ≡ process_frames process_message conn
  no_bytes conn =
      ap (λ buf. process_frames process_message (record conn { read_buf = buf }))
        (append-nil conn.read_buf)

  process_frames-IsSettled :
      (conn conn' : Reader S)
      → length conn.read_buf ≤ read_buf_size
      → process_frames process_message conn ≡ ok conn'
      → IsSettled conn'
  process_frames-IsSettled conn conn' l e = record {
    fits = omega (arith, l, process_frames-Fits process_message conn conn' e);
    waits =
        sym (no_bytes conn')
        ∙ sym (ap (λ r. r >>= go_on process_message []) e)
        ∙ sym (process_frames-append process_message conn.read_buf [] conn.link (omega (arith, l)))
        ∙ no_bytes conn
        ∙ e;
  }

  -- From a full buffer that has no whole frame, the loop over the data ends for no number of
  -- rounds, however many bytes are left.
  pub copy_loop_full :
      (fuel b : ℕ) (bytes : List ℕ) (conn : Reader S)
      → IsSettled conn
      → length conn.read_buf ≡ read_buf_size
      → copy_loop process_message fuel (b ∷ bytes) conn ≡ endless
  unfolding copy_loop
  copy_loop_full zero b bytes conn s e = refl
  copy_loop_full (suc fuel) b bytes conn s e =
      let none_fit : min (length (b ∷ bytes)) (read_buf_size - length conn.read_buf) ≡ 0 =
        omega (arith, e) in
      rw (none_fit, no_bytes conn, s.waits) (copy_loop_full fuel b bytes conn s e)

  take_byte_full :
      (b : ℕ) (conn : Reader S) → length conn.read_buf ≡ read_buf_size → take_byte b conn ≡ endless
  unfolding take_byte
  take_byte_full b conn e = rw e refl

  take_byte_room :
      (b : ℕ) (conn : Reader S)
      → length conn.read_buf < read_buf_size
      → take_byte b conn
        ≡ process_frames process_message (record conn { read_buf = conn.read_buf ++ (b ∷ []) })
  unfolding take_byte
  take_byte_room b conn h = rw (lt→leb-false (length conn.read_buf) read_buf_size h) refl

  pub chunk_run :
      (chunk : List ℕ) (conn : Reader S)
      → IsSettled conn
      → length conn.read_buf + length chunk ≤ read_buf_size
      → process_frames process_message (record conn { read_buf = conn.read_buf ++ chunk })
        ≡ run chunk conn
  unfolding run
  chunk_run [] conn s h = no_bytes conn ∙ s.waits
  chunk_run (c ∷ chunk) conn s h =
      ap (λ buf. process_frames process_message (record conn { read_buf = buf }))
        (sym (append_assoc conn.read_buf (c ∷ []) chunk))
      ∙ process_frames-append process_message (conn.read_buf ++ (c ∷ [])) chunk conn.link
          (omega (arith, h, length-append conn.read_buf (c ∷ [])))
      ∙ bind_same
          (process_frames process_message (record conn { read_buf = conn.read_buf ++ (c ∷ []) }))
          (go_on process_message chunk) (run chunk)
          (λ d e.
            let m = length-append conn.read_buf (c ∷ []) in
            let one = record conn { read_buf = conn.read_buf ++ (c ∷ []) } in
            chunk_run chunk d (process_frames-IsSettled one d (omega (arith, h, m)) e)
              (omega (arith, h, m, process_frames-Fits process_message one d e)))
      ∙ sym (ap (λ r. r >>= run chunk) (take_byte_room c conn (omega (arith, h))))

  copy_loop-run :
      (fuel : ℕ) (bytes : List ℕ) (conn : Reader S)
      → IsSettled conn
      → length bytes ≤ fuel
      → copy_loop process_message fuel bytes conn ≡ run bytes conn
  unfolding copy_loop run
  copy_loop-run fuel [] conn s h = refl
  copy_loop-run zero (b ∷ bytes) conn s h = absurd (omega arith)
  copy_loop-run (suc fuel) (b ∷ bytes) conn s h =
      elim (Bool-cases (leb read_buf_size (length conn.read_buf))) [
        | inl t ↦
            let full : length conn.read_buf ≡ read_buf_size =
              omega (arith, leb→le read_buf_size (length conn.read_buf) t, s.fits) in
            copy_loop_full (suc fuel) b bytes conn s full
            ∙ sym (ap (λ r. r >>= run bytes) (take_byte_full b conn full))
        | inr t ↦
            let room = leb-false→lt read_buf_size (length conn.read_buf) t in
            let k = min (length (b ∷ bytes)) (read_buf_size - length conn.read_buf) in
            let taken = length-take k (b ∷ bytes) in
            let left = length-drop k (b ∷ bytes) in
            let more = length-append conn.read_buf (take k (b ∷ bytes)) in
            let chunk = chunk_run (take k (b ∷ bytes)) conn s (omega (arith, s.fits, taken)) in
            ap (λ r. r >>= copy_loop process_message fuel (drop k (b ∷ bytes))) chunk
            ∙ bind_same (run (take k (b ∷ bytes)) conn)
                (copy_loop process_message fuel (drop k (b ∷ bytes))) (run (drop k (b ∷ bytes)))
                (λ c e.
                  copy_loop-run fuel (drop k (b ∷ bytes)) c
                    (process_frames-IsSettled
                      (record conn { read_buf = conn.read_buf ++ take k (b ∷ bytes) }) c
                      (omega (arith, more, taken, s.fits)) (chunk ∙ e))
                    (omega (arith, left, room, h)))
            ∙ sym (run-append (take k (b ∷ bytes)) (drop k (b ∷ bytes)) conn)
            ∙ ap (λ l. run l conn) (take-append-drop k (b ∷ bytes))
      ]

  -- Copying as much data as fits and then handling all the frames is the machine that takes byte
  -- by byte, from a buffer that fits its array and has no whole frame.
  pub parse_frames-run :
      (bytes : List ℕ) (conn : Reader S)
      → IsSettled conn
      → parse_frames process_message bytes conn ≡ run bytes conn
  unfolding parse_frames
  parse_frames-run bytes conn s = copy_loop-run (length bytes) bytes conn s (omega arith)

  take_byte-IsSettled :
      (b : ℕ) (conn conn' : Reader S)
      → IsSettled conn
      → take_byte b conn ≡ ok conn'
      → IsSettled conn'
  take_byte-IsSettled b conn conn' s e =
      elim (Bool-cases (leb read_buf_size (length conn.read_buf))) [
        | inl t ↦ absurd (
            endless-ne-ok conn' (
              sym (
                take_byte_full b conn
                  (omega (arith, leb→le read_buf_size (length conn.read_buf) t, s.fits)))
              ∙ e))
        | inr t ↦
            let room = leb-false→lt read_buf_size (length conn.read_buf) t in
            process_frames-IsSettled (record conn { read_buf = conn.read_buf ++ (b ∷ []) }) conn'
              (omega (arith, room, length-append conn.read_buf (b ∷ [])))
              (sym (take_byte_room b conn room) ∙ e)
      ]

  pub run-IsSettled :
      (bytes : List ℕ) (conn conn' : Reader S)
      → IsSettled conn
      → run bytes conn ≡ ok conn'
      → IsSettled conn'
  unfolding run
  run-IsSettled [] conn conn' s e = subst IsSettled (ok_injective conn conn' e) s
  run-IsSettled (b ∷ bytes) conn conn' s e =
      let (c, first, next) = bind_ok (take_byte b conn) (run bytes) conn' e in
      run-IsSettled bytes c conn' (take_byte-IsSettled b conn c s first) next

  -- Frames that arrive in two pieces are handled as if they arrived at once, errors included,
  -- from a buffer that fits its array and has no whole frame.
  pub parse_frames-append :
      (xs ys : List ℕ) (conn : Reader S)
      → IsSettled conn
      → parse_frames process_message (xs ++ ys) conn
        ≡ (parse_frames process_message xs conn >>= parse_frames process_message ys)
  parse_frames-append xs ys conn s =
      parse_frames-run (xs ++ ys) conn s
      ∙ run-append xs ys conn
      ∙ bind_same (run xs conn) (run ys) (parse_frames process_message ys)
          (λ c e. sym (parse_frames-run ys c (run-IsSettled xs conn c s e)))
      ∙ sym (ap (λ r. r >>= parse_frames process_message ys) (parse_frames-run xs conn s))
