-- ===== src/Frames/Deliver.antt =====
-- What the server does with the frames of a client.
use verda_sxtelo.Common.{
  ℕ, suc, ◌+◌, ◌<◌, ◌≡◌, refl, sym, ap, ◌∙◌, arith, Bool, List, [], ◌∷◌, ◌++◌, some, length, take,
  drop, take-append, drop-append, All, Bool-cases, if◌then◌else◌, inl, inr, lt→ltb-false, ◌%◌, ◌^◌,
}
use verda_sxtelo.Frames.{
  Result, ok, refused, ◌>>=◌, Link, check_header, take_frame, receive, unmasked, step,
  process_frames, frames_loop, read_header, parse_frames,
}
use verda_sxtelo.Frames.Mask.{length-masked, unmask_data_lem}
use verda_sxtelo.Frames.Append.{
  step_whole, step_unchecked, step_incomplete, take_frame_fits, bind_assoc,
}
use verda_sxtelo.Frames.Stream.{next, loop_next, process_frames_lem}
use verda_sxtelo.Frames.Bytes.{IsSettled, run, run-append, chunk_run, parse_frames-run, bind_same}
use verda_sxtelo.Frames.Sent.{
  Frame, IsFrame, encode, header_of, masked_payload, mask_there, payload_there, length-encode,
  read_header-encode, encode-fits,
}
use mathlib.Core.List.{append-nil}

no_wrap : (p k n m : ℕ) → n ≡ k + p + m → ¬ (n < (p + k) % 2 ^ 64)
no_wrap p k n m e = λ h. omega (arith, e, h)

abbrev pub encode_all : List Frame → List ℕ
encode_all [] = []
encode_all (f ∷ fs) = encode f ++ encode_all fs

module _ {S : Type 0} (process_message : List ℕ → S → Result S) where
  -- A frame is checked, and its payload is received.
  abbrev pub deliver : Frame → Link S → Result (Link S)
  deliver f link =
      if check_header (length link.message_data) (header_of f)
      then receive process_message (header_of f) f.payload link
      else refused

  take_frame-encode :
      (f : Frame) (rest : List ℕ) (link : Link S)
      → IsFrame f
      → take_frame process_message (header_of f) (encode f ++ rest) link
        ≡ (receive process_message (header_of f) f.payload link >>= λ l. ok (l, rest))
  unfolding unmasked
  take_frame-encode f rest link i =
      let k = f.mask in
      let n = length-masked k.m k.n k.o k.p f.payload in
      let front_part : take (length f.payload) (masked_payload f ++ rest) ≡ masked_payload f =
        ap (λ j. take j (masked_payload f ++ rest)) (sym n) ∙ take-append (masked_payload f) rest in
      let back_part : drop (length f.payload) (masked_payload f ++ rest) ≡ rest =
        ap (λ j. drop j (masked_payload f ++ rest)) (sym n) ∙ drop-append (masked_payload f) rest in
      take_frame_fits process_message (header_of f) (encode f ++ rest) link
        (omega (arith, length-encode f rest))
      ∙ rw
          (
            mask_there f rest,
            payload_there f rest,
            front_part,
            back_part,
            unmask_data_lem k.m k.n k.o k.p f.payload k.bytes i.bytes,
          )
          refl

  pub step-encode :
      (f : Frame) (rest : List ℕ) (link : Link S)
      → IsFrame f
      → step process_message (encode f ++ rest) link ≡ (deliver f link >>= λ l. ok (some (l, rest)))
  step-encode f rest link i =
      let whole =
        lt→ltb-false (length (encode f ++ rest))
          ((length f.payload + (header_of f).header_size) % 2 ^ 64)
          (no_wrap (length f.payload) (header_of f).header_size (length (encode f ++ rest))
            (length rest) (length-encode f rest)) in
      elim (Bool-cases (check_header (length link.message_data) (header_of f))) [
        | inl c ↦
            step_whole process_message (encode f ++ rest) link (header_of f)
              (read_header-encode f rest i) c whole
            ∙ ap (λ r. r >>= λ q. ok (some q)) (take_frame-encode f rest link i)
            ∙ bind_assoc (receive process_message (header_of f) f.payload link) (λ l. ok (l, rest))
                (λ q. ok (some q))
            ∙ sym (
                ap
                  (λ (b : Bool).
                    (if b then receive process_message (header_of f) f.payload link else refused)
                    >>= λ l. ok (some (l, rest)))
                  c)
        | inr c ↦
            step_unchecked process_message (encode f ++ rest) link (header_of f)
              (read_header-encode f rest i) c
            ∙ sym (
                ap
                  (λ (b : Bool).
                    (if b then receive process_message (header_of f) f.payload link else refused)
                    >>= λ l. ok (some (l, rest)))
                  c)
      ]

  idle :
      (m : ℕ) (link : Link S)
      → frames_loop process_message (suc m) [] link ≡ ok (record { read_buf = []; link = link })
  unfolding read_header
  idle m link =
      loop_next process_message m [] link
      ∙ ap (λ r. r >>= next process_message m [] link)
          (step_incomplete process_message [] link refl)

  process_frames-encode :
      (f : Frame) (link : Link S)
      → IsFrame f
      → process_frames process_message (record { read_buf = encode f; link = link })
        ≡ (deliver f link >>= λ l. ok (record { read_buf = []; link = l }))
  process_frames-encode f link i =
      let m = suc (length (encode f)) in
      process_frames_lem process_message (suc m) (encode f) link (omega arith)
      ∙ loop_next process_message m (encode f) link
      ∙ ap (λ r. r >>= next process_message m (encode f) link)
          (ap (λ bytes. step process_message bytes link) (sym (append-nil (encode f)))
            ∙ step-encode f [] link i)
      ∙ bind_assoc (deliver f link) (λ l. ok (some (l, [])))
          (next process_message m (encode f) link)
      ∙ bind_same (deliver f link) (λ l. frames_loop process_message m [] l)
          (λ l. ok (record { read_buf = []; link = l })) (λ l e. idle (length (encode f)) l)

  pub empty-IsSettled :
      (link : Link S) → IsSettled process_message (record { read_buf = []; link = link })
  empty-IsSettled link = record {
    fits = omega arith;
    waits = process_frames_lem process_message 1 [] link (omega arith) ∙ idle 0 link;
  }

  abbrev pub deliver_all : List Frame → Link S → Result (Link S)
  deliver_all [] link = ok link
  deliver_all (f ∷ fs) link = deliver f link >>= deliver_all fs

  run-encode :
      (f : Frame) (link : Link S)
      → IsFrame f
      → run process_message (encode f) (record { read_buf = []; link = link })
        ≡ (deliver f link >>= λ l. ok (record { read_buf = []; link = l }))
  run-encode f link i =
      sym (
        chunk_run process_message (encode f) (record { read_buf = []; link = link })
          (empty-IsSettled link) (omega (arith, encode-fits f i)))
      ∙ process_frames-encode f link i

  run-encode_all :
      (fs : List Frame) (link : Link S)
      → All IsFrame fs
      → run process_message (encode_all fs) (record { read_buf = []; link = link })
        ≡ (deliver_all fs link >>= λ l. ok (record { read_buf = []; link = l }))
  unfolding run
  run-encode_all [] link a = refl
  run-encode_all (f ∷ fs) link (i, a) =
      run-append process_message (encode f) (encode_all fs) (record { read_buf = []; link = link })
      ∙ ap (λ r. r >>= run process_message (encode_all fs)) (run-encode f link i)
      ∙ bind_assoc (deliver f link) (λ l. ok (record { read_buf = []; link = l }))
          (run process_message (encode_all fs))
      ∙ bind_same (deliver f link)
          (λ l. run process_message (encode_all fs) (record { read_buf = []; link = l }))
          (λ l. deliver_all fs l >>= λ k. ok (record { read_buf = []; link = k }))
          (λ l e. run-encode_all fs l a)
      ∙ sym (
          bind_assoc (deliver f link) (deliver_all fs)
            (λ k. ok (record { read_buf = []; link = k })))

  -- Masked frames of up to 1016 bytes, as the protocol has a client write them, are each checked
  -- and received with the payload that was masked, in their order, and leave an empty buffer,
  -- when the buffer is empty at the start.
  pub parse_frames-encode_all :
      (fs : List Frame) (link : Link S)
      → All IsFrame fs
      → parse_frames process_message (encode_all fs) (record { read_buf = []; link = link })
        ≡ (deliver_all fs link >>= λ l. ok (record { read_buf = []; link = l }))
  parse_frames-encode_all fs link a =
      parse_frames-run process_message (encode_all fs) (record { read_buf = []; link = link })
        (empty-IsSettled link)
      ∙ run-encode_all fs link a
