-- ===== src/Frames/Fragments.antt =====
-- A message of a client, in any number of frames.
use verda_sxtelo.Common.{
  leb, ℕ, ◌+◌, ◌<◌, ◌≤◌, ◌≡◌, refl, ap, ◌∙◌, arith, Bool, true, false, List, [], ◌∷◌, ◌++◌, length,
  length-append, All, ◌⊎◌, inl, inr, lt→ltb-false, ≢→==-false, ◌%◌, ◌^◌,
}
use verda_sxtelo.Frames.{
  Result, ok, ◌>>=◌, Link, check_header, receive, end_fragment, parse_frames, max_payload_size,
}
use verda_sxtelo.Proto.Numbers.{IsByte}
use verda_sxtelo.Frames.Append.{bind_assoc}
use verda_sxtelo.Frames.Sent.{Mask, Frame, IsFrame, header_of}
use verda_sxtelo.Frames.Deliver.{encode_all, deliver, deliver_all, parse_frames-encode_all}
use mathlib.Core.List.{append_assoc}

-- A piece of a message, with the mask of its frame.
pub record Piece : Type 0 where
  pub mask : Mask
  pub some_bytes : List ℕ

pub record IsPiece (q : Piece) : Type 0 where
  pub bytes : All IsByte q.some_bytes
  pub least : 0 < length q.some_bytes
  pub most : length q.some_bytes ≤ 1016

abbrev frame : Bool → ℕ → Piece → Frame
frame fin opcode q = record { is_fin = fin; opcode = opcode; mask = q.mask; payload = q.some_bytes }

-- The frames of the message of a piece and those behind it: the last one ends it.
abbrev pub frames : ℕ → Piece → List Piece → List Frame
frames opcode q [] = frame true opcode q ∷ []
frames opcode q (r ∷ rs) = frame false opcode q ∷ frames 0 r rs

abbrev pub joined : Piece → List Piece → List ℕ
joined q [] = q.some_bytes
joined q (r ∷ rs) = q.some_bytes ++ joined r rs

frames-IsFrame :
    (opcode : ℕ) (q : Piece) (rs : List Piece)
    → opcode < 16
    → IsPiece q
    → All IsPiece rs
    → All IsFrame (frames opcode q rs)
frames-IsFrame opcode q [] o h a = (record { is_opcode = o; bytes = h.bytes; fits = h.most }, tt)
frames-IsFrame opcode q (r ∷ rs) o h (k, a) = (
  record { is_opcode = o; bytes = h.bytes; fits = h.most },
  frames-IsFrame 0 r rs (omega arith) k a,
)

-- The first frame of a message, or one that goes on with it.
abbrev Continues : ℕ → ℕ → Type 0
Continues opcode n = (opcode ≡ 2) ⊎ ((opcode ≡ 0) × (0 < n))

check_header-frame :
    (fin : Bool) (opcode n : ℕ) (q : Piece)
    → Continues opcode n
    → IsPiece q
    → length q.some_bytes + n ≤ max_payload_size
    → check_header n (header_of (frame fin opcode q)) ≡ true
unfolding check_header
check_header-frame fin opcode n q (inl e) h l =
    rw
      (
        e,
        lt→ltb-false max_payload_size ((length q.some_bytes + n) % 2 ^ 64) (omega (arith, l)),
        ≢→==-false (length q.some_bytes) 0 (omega (arith, h.least)),
      )
      refl
check_header-frame fin opcode n q (inr (e, k)) h l =
    rw
      (
        e,
        lt→ltb-false max_payload_size ((length q.some_bytes + n) % 2 ^ 64) (omega (arith, l)),
        ≢→==-false (length q.some_bytes) 0 (omega (arith, h.least)),
        ≢→==-false n 0 (omega (arith, k)),
      )
      refl

no_control : (opcode n : ℕ) → Continues opcode n → leb 8 opcode ≡ false
no_control opcode n (inl e) = rw e refl
no_control opcode n (inr (e, k)) = rw e refl

module _ {S : Type 0} (process_message : List ℕ → S → Result S) where
  deliver-frame :
      (fin : Bool) (opcode : ℕ) (q : Piece) (link : Link S)
      → Continues opcode (length link.message_data)
      → IsPiece q
      → length q.some_bytes + length link.message_data ≤ max_payload_size
      → deliver process_message (frame fin opcode q) link
        ≡ end_fragment process_message fin
            (record link { message_data = link.message_data ++ q.some_bytes })
  unfolding receive
  deliver-frame fin opcode q link c h l =
      rw
        (
          check_header-frame fin opcode (length link.message_data) q c h l,
          no_control opcode (length link.message_data) c,
          lt→ltb-false max_payload_size (length link.message_data + length q.some_bytes)
              (omega (arith, l)),
        )
        refl

  deliver_all-frames :
      (opcode : ℕ) (q : Piece) (rs : List Piece) (link : Link S)
      → Continues opcode (length link.message_data)
      → IsPiece q
      → All IsPiece rs
      → length (joined q rs) + length link.message_data ≤ max_payload_size
      → deliver_all process_message (frames opcode q rs) link ≡ (
          process_message (link.message_data ++ joined q rs) link.others >>= λ s.
          ok (record link { message_data = []; others = s }))
  unfolding end_fragment
  deliver_all-frames opcode q [] link c h a l =
      ap (λ r. r >>= deliver_all process_message []) (deliver-frame true opcode q link c h l)
      ∙ bind_assoc (process_message (link.message_data ++ q.some_bytes) link.others)
          (λ s. ok (record link { message_data = []; others = s })) (deliver_all process_message [])
  deliver_all-frames opcode q (r ∷ rs) link c h (k, a) l =
      let link' = record link { message_data = link.message_data ++ q.some_bytes } in
      let m = length-append link.message_data q.some_bytes in
      let n = length-append q.some_bytes (joined r rs) in
      ap (λ x. x >>= deliver_all process_message (frames 0 r rs))
        (deliver-frame false opcode q link c h (omega (arith, l, n)))
      ∙ deliver_all-frames 0 r rs link' (inr (refl, omega (arith, m, h.least))) k a
          (omega (arith, l, m, n))
      ∙ ap
          (λ bytes. process_message bytes link.others >>= λ s.
            ok (record link { message_data = []; others = s }))
          (append_assoc link.message_data q.some_bytes (joined r rs))

  -- A message that a client sends in any number of masked frames reaches the handler of messages
  -- as its pieces joined, once, whatever the masks. The buffer and the message are empty at the
  -- start, and are so again afterwards; each piece has from 1 to 1016 bytes, and all of them
  -- together at most 1024.
  pub parse_frames-message :
      (q : Piece) (rs : List Piece) (link : Link S)
      → IsPiece q
      → All IsPiece rs
      → length (joined q rs) ≤ max_payload_size
      → parse_frames process_message
          (encode_all (frames 2 q rs))
          (record { read_buf = []; link = record link { message_data = [] } })
        ≡ (process_message (joined q rs) link.others >>= λ s.
            ok (record { read_buf = []; link = record link { message_data = []; others = s } }))
  parse_frames-message q rs link h a l =
      let link' = record link { message_data = [] } in
      parse_frames-encode_all process_message (frames 2 q rs) link'
        (frames-IsFrame 2 q rs (omega arith) h a)
      ∙ ap (λ r. r >>= λ k. ok (record { read_buf = []; link = k }))
          (deliver_all-frames 2 q rs link' (inl refl) h a (omega (arith, l)))
      ∙ bind_assoc (process_message (joined q rs) link.others)
          (λ s. ok (record link { message_data = []; others = s }))
          (λ k. ok (record { read_buf = []; link = k }))
