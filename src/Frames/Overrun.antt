-- ===== src/Frames/Overrun.antt =====
-- Where the frames keep to their arrays, and where not.
use verda_sxtelo.Common.{
  ℕ, ◌+◌, ◌-◌, ◌<◌, ◌≤◌, ◌≡◌, refl, ap, ◌∙◌, arith, Bool, true, false, some, List, [], ◌∷◌, ◌++◌,
  length, length-take, take, drop, ltb, ◌==◌, if◌then◌else◌, inl, inr, Bool-cases, ltb-false→le,
  lt→ltb-false, ≢→==-false, ◌%◌, ◌^◌,
}
use verda_sxtelo.Frames.{
  Result, ok, refused, overrun, endless, ◌>>=◌, Link, Header, is_control, read_header, check_header,
  receive, process_control_frame, end_fragment, unmask_rest, unmask_data, unmasked, step,
  max_payload_size, max_control_frame_payload, read_buf_size,
}
use verda_sxtelo.Frames.Step.{read_header-IsHeader}
use verda_sxtelo.Frames.Append.{
  step_unchecked, step_short, step_whole, take_frame_fits, take_frame_overrun,
}

-- A result that is no access outside an array.
abbrev pub IsSafe {ℓ} : {A : Type ℓ} → Result A → Type 0
IsSafe (ok a) = Unit {0}
IsSafe refused = Unit {0}
IsSafe overrun = ⊥
IsSafe endless = Unit {0}

bind-IsSafe {ℓ κ} :
    {A : Type ℓ} {B : Type κ} (r : Result A) (f : A → Result B)
    → IsSafe r
    → ((a : A) → IsSafe (f a))
    → IsSafe (r >>= f)
bind-IsSafe (ok a) f s h = h a
bind-IsSafe refused f s h = tt
bind-IsSafe overrun f s h = s
bind-IsSafe endless f s h = tt

length-unmask_rest : (mask bytes : List ℕ) → length (unmask_rest mask bytes) ≤ length bytes
unfolding unmask_rest
length-unmask_rest mask [] = omega arith
length-unmask_rest [] (b ∷ bytes) = omega arith
length-unmask_rest (m ∷ mask) (b ∷ bytes) = omega (arith, length-unmask_rest mask bytes)

length-unmask_data : (mask bytes : List ℕ) → length (unmask_data mask bytes) ≤ length bytes
unfolding unmask_data
length-unmask_data mask [] = length-unmask_rest mask []
length-unmask_data mask (a ∷ []) = length-unmask_rest mask (a ∷ [])
length-unmask_data mask (a ∷ b ∷ []) = length-unmask_rest mask (a ∷ b ∷ [])
length-unmask_data mask (a ∷ b ∷ c ∷ []) = length-unmask_rest mask (a ∷ b ∷ c ∷ [])
length-unmask_data mask (a ∷ b ∷ c ∷ d ∷ rest) = omega (arith, length-unmask_data mask rest)

length-unmasked :
    (h : Header) (mask payload : List ℕ) → length (unmasked h mask payload) ≤ length payload
unfolding unmasked
length-unmasked h mask payload = elim (Bool-cases h.has_mask) [
  | inl t ↦ rw t (length-unmask_data mask payload)
  | inr t ↦ rw t (omega arith)
]

control_bound :
    (n : ℕ) (h : Header)
    → check_header n h ≡ true
    → is_control h ≡ true
    → h.payload_length ≤ max_control_frame_payload
unfolding check_header
control_bound n h c k = ground (arith, c, k)

message_bound :
    (n : ℕ) (h : Header)
    → check_header n h ≡ true
    → is_control h ≡ false
    → (h.payload_length + n) % 2 ^ 64 ≤ max_payload_size
unfolding check_header
message_bound n h c k = ground (arith, c, k)

-- The length check of a message that is under way.
wrapped_check :
    (n : ℕ) (h : Header)
    → h.opcode ≡ 0
    → h.has_reserved ≡ false
    → 0 < n
    → (h.payload_length + n) % 2 ^ 64 ≤ max_payload_size
    → 0 < h.payload_length
    → check_header n h ≡ true
unfolding check_header
wrapped_check n h o r m w k =
    rw
      (
        r,
        o,
        lt→ltb-false max_payload_size ((h.payload_length + n) % 2 ^ 64) (omega (arith, w)),
        ≢→==-false n 0 (omega (arith, m)),
        ≢→==-false h.payload_length 0 (omega (arith, k)),
      )
      refl

module _ {S : Type 0} (process_message : List ℕ → S → Result S) where
  control-IsSafe :
      (opcode : ℕ) (payload : List ℕ) (link : Link S)
      → length payload ≤ max_control_frame_payload
      → IsSafe (process_control_frame opcode payload link)
  unfolding process_control_frame
  control-IsSafe opcode payload link l =
      rw (lt→ltb-false max_control_frame_payload (length payload) (omega (arith, l)))
        (any_opcode (opcode == 8) (opcode == 9) (opcode == 10))
    where
      any_opcode :
          (a b c : Bool)
          → IsSafe (
              if a
              then ok link
              else if b
              then ok (record link { pong_data = payload; pong = true })
              else if c
              then ok link
              else refused)
      any_opcode true b c = tt
      any_opcode false true c = tt
      any_opcode false false true = tt
      any_opcode false false false = tt

  end_fragment-IsSafe :
      (fin : Bool) (link : Link S)
      → ((message : List ℕ) (s : S) → IsSafe (process_message message s))
      → IsSafe (end_fragment process_message fin link)
  unfolding end_fragment
  end_fragment-IsSafe false link p = tt
  end_fragment-IsSafe true link p =
      bind-IsSafe (process_message link.message_data link.others)
        (λ s. ok (record link { message_data = []; others = s })) (p link.message_data link.others)
        (λ s. tt)

  receive-IsSafe :
      (h : Header) (payload : List ℕ) (link : Link S)
      → ((message : List ℕ) (s : S) → IsSafe (process_message message s))
      → check_header (length link.message_data) h ≡ true
      → length payload ≤ h.payload_length
      → h.payload_length + length link.message_data < 2 ^ 64
      → IsSafe (receive process_message h payload link)
  unfolding receive
  receive-IsSafe h payload link p c l w = elim (Bool-cases (is_control h)) [
    | inl k ↦ rw k (
        control-IsSafe h.opcode payload link
          (omega (arith, l, control_bound (length link.message_data) h c k)))
    | inr k ↦
        let b = message_bound (length link.message_data) h c k in
        rw
          (
            k,
            lt→ltb-false max_payload_size (length link.message_data + length payload)
                (omega (arith, l, b, w)),
          )
          (end_fragment-IsSafe h.is_fin
            (record link { message_data = link.message_data ++ payload }) p)
  ]

  -- A frame of a length below 2 ^ 63 leaves no array, where the message so far has at most 1024
  -- bytes and the handler of messages leaves none.
  pub step-IsSafe :
      (bytes : List ℕ) (link : Link S) (h : Header)
      → ((message : List ℕ) (s : S) → IsSafe (process_message message s))
      → length link.message_data ≤ max_payload_size
      → read_header bytes ≡ some h
      → h.payload_length < 2 ^ 63
      → IsSafe (step process_message bytes link)
  step-IsSafe bytes link h p m e w = elim (Bool-cases (check_header (length link.message_data) h)) [
    | inr c ↦ rw (step_unchecked process_message bytes link h e c) tt
    | inl c ↦ elim (Bool-cases (ltb (length bytes) ((h.payload_length + h.header_size) % 2 ^ 64))) [
      | inl t ↦ rw (step_short process_message bytes link h e c t) tt
      | inr t ↦
          let size = (read_header-IsHeader bytes h e).most in
          let whole = ltb-false→le (length bytes) ((h.payload_length + h.header_size) % 2 ^ 64) t in
          let payload = take h.payload_length (drop h.header_size bytes) in
          let mask = take 4 (drop (h.header_size - 4) bytes) in
          rw
            (
              step_whole process_message bytes link h e c t,
              take_frame_fits process_message h bytes link (omega (arith, size, whole, w)),
            )
            (bind-IsSafe
              (receive process_message h (unmasked h mask payload) link >>= λ l.
                ok (l, drop h.payload_length (drop h.header_size bytes)))
              (λ r. ok (some r))
              (bind-IsSafe (receive process_message h (unmasked h mask payload) link)
                (λ l. ok (l, drop h.payload_length (drop h.header_size bytes)))
                (receive-IsSafe h (unmasked h mask payload) link p c
                  (omega (
                    arith,
                    length-unmasked h mask payload,
                    length-take h.payload_length (drop h.header_size bytes),
                  ))
                  (omega (arith, w, m)))
                (λ l. tt))
              (λ r. tt))
    ]
  ]

  -- A frame that goes on with a message, with reserved bits zero and a length below 2 ^ 64, for
  -- which the 64-bit sums of the length with the length of the message and with the size of the
  -- header both wrap around, passes the checks and overruns the arrays. The message has at most
  -- 1024 bytes and is not empty, and the header is in the buffer.
  pub step_overruns :
      (bytes : List ℕ) (link : Link S) (h : Header)
      → read_header bytes ≡ some h
      → h.opcode ≡ 0
      → h.has_reserved ≡ false
      → length bytes ≤ read_buf_size
      → h.header_size ≤ length bytes
      → 0 < length link.message_data
      → length link.message_data ≤ max_payload_size
      → h.payload_length < 2 ^ 64
      → 2 ^ 64 ≤ h.payload_length + length link.message_data
      → 2 ^ 64 ≤ h.payload_length + h.header_size
      → step process_message bytes link ≡ overrun
  step_overruns bytes link h e o r b k m n p w v =
      let wraps : (h.payload_length + length link.message_data) % 2 ^ 64 ≤ max_payload_size =
        omega (arith, n, p, w) in
      let there : (h.payload_length + h.header_size) % 2 ^ 64 ≤ length bytes =
        omega (arith, k, b, p, v) in
      step_whole process_message bytes link h e
        (wrapped_check (length link.message_data) h o r m wraps (omega (arith, w, n)))
        (lt→ltb-false (length bytes) ((h.payload_length + h.header_size) % 2 ^ 64)
          (omega (arith, there)))
      ∙ ap (λ r. r >>= λ q. ok (some q))
          (take_frame_overrun process_message h bytes link (omega (arith, b, w, n)))
