-- ===== src/Tests/Streams.antt =====
-- Frames of a client, for a server that keeps the messages it was sent.
use verda_sxtelo.Common.{ℕ, ◌≡◌, refl, arith, true, false, some, List, replicate, [], ◌∷◌, ◌++◌}
use verda_sxtelo.Frames
use verda_sxtelo.Frames.{
  Result, ok, overrun, endless, ◌>>=◌, Link, Reader, parse_frames, copy_loop, step,
}
use verda_sxtelo.Frames.Mask.{unmask_data-masked, masked}
use verda_sxtelo.Frames.Bytes.{
  IsSettled, run, parse_frames-run, parse_frames-append, copy_loop_full,
}
use verda_sxtelo.Frames.Sent.{Mask, Frame, IsFrame, encode}
use verda_sxtelo.Frames.Deliver.{encode_all, deliver_all, empty-IsSettled, parse_frames-encode_all}
use verda_sxtelo.Frames.Fragments.{Piece, IsPiece, frames, parse_frames-message}
use verda_sxtelo.Frames.Overrun.{IsSafe, step-IsSafe, step_overruns}

abbrev pub keep : List ℕ → List (List ℕ) → Result (List (List ℕ))
keep message messages = ok (message ∷ messages)

abbrev fresh : Link (List (List ℕ))
fresh = record { message_data = []; pong_data = []; pong = false; others = [] }

abbrev reader : Reader (List (List ℕ))
reader = record { read_buf = []; link = fresh }

abbrev key : Mask
key = record {
  m = 17;
  n = 0;
  o = 255;
  p = 96;
  bytes = (omega arith, (omega arith, (omega arith, (omega arith, tt))));
}

abbrev pub turn_piece : Piece
turn_piece = record { mask = key; some_bytes = 0x89 ∷ [] }

abbrev long_piece : Piece
long_piece = record { mask = key; some_bytes = 1 ∷ 2 ∷ 3 ∷ 4 ∷ 5 ∷ [] }

abbrev pub ping : Frame
ping = record { is_fin = true; opcode = 9; mask = key; payload = 7 ∷ [] }

ping-IsFrame : IsFrame ping
ping-IsFrame = record { is_opcode = omega arith; bytes = (omega arith, tt); fits = omega arith }

pub turn-IsPiece : IsPiece turn_piece
turn-IsPiece = record { bytes = (omega arith, tt); least = omega arith; most = omega arith }

long-IsPiece : IsPiece long_piece
long-IsPiece = record {
  bytes = (omega arith, (omega arith, (omega arith, (omega arith, (omega arith, tt)))));
  least = omega arith;
  most = omega arith;
}

parse_frames-message_example :
    parse_frames keep (encode_all (frames 2 turn_piece (long_piece ∷ []))) reader
    ≡ ok (record {
      read_buf = [];
      link = record fresh { others = (0x89 ∷ 1 ∷ 2 ∷ 3 ∷ 4 ∷ 5 ∷ []) ∷ [] };
    })
parse_frames-message_example =
    parse_frames-message keep turn_piece (long_piece ∷ []) fresh turn-IsPiece (long-IsPiece, tt)
      (omega arith)

parse_frames-encode_all_example :
    parse_frames keep (encode_all (ping ∷ [])) reader
    ≡ (deliver_all keep (ping ∷ []) fresh >>= λ l. ok (record { read_buf = []; link = l }))
parse_frames-encode_all_example = parse_frames-encode_all keep (ping ∷ []) fresh (ping-IsFrame, tt)

parse_frames-run_example : parse_frames keep (encode ping) reader ≡ run keep (encode ping) reader
parse_frames-run_example = parse_frames-run keep (encode ping) reader (empty-IsSettled keep fresh)

parse_frames-append_example :
    parse_frames keep (encode ping ++ (0x82 ∷ [])) reader
    ≡ (parse_frames keep (encode ping) reader >>= parse_frames keep (0x82 ∷ []))
parse_frames-append_example =
    parse_frames-append keep (encode ping) (0x82 ∷ []) reader (empty-IsSettled keep fresh)

unmask_data-masked_example :
    Frames.unmask_data (17 ∷ 0 ∷ 255 ∷ 96 ∷ []) (1 ∷ 2 ∷ 3 ∷ 4 ∷ 5 ∷ [])
    ≡ masked 17 0 255 96 (1 ∷ 2 ∷ 3 ∷ 4 ∷ 5 ∷ [])
unmask_data-masked_example =
    unmask_data-masked 17 0 255 96 (1 ∷ 2 ∷ 3 ∷ 4 ∷ 5 ∷ []) key.bytes long-IsPiece.bytes

-- A ping without a mask.
abbrev ping_bytes : List ℕ
ping_bytes = 0x89 ∷ 1 ∷ 65 ∷ []

ping_header : Frames.read_header ping_bytes ≡ some (Frames.header 0x89 1 1 2)
unfolding Frames.read_header
ping_header = refl

step-IsSafe_example : IsSafe (step keep ping_bytes fresh)
step-IsSafe_example =
    step-IsSafe keep ping_bytes fresh (Frames.header 0x89 1 1 2) (λ message s. tt) (omega arith)
      ping_header (omega arith)

-- The end of a message, which claims 2 ^ 64 - 1 bytes.
abbrev claim_bytes : List ℕ
claim_bytes = 0x80 ∷ 127 ∷ 255 ∷ 255 ∷ 255 ∷ 255 ∷ 255 ∷ 255 ∷ 255 ∷ 255 ∷ []

claim_header : Frames.read_header claim_bytes ≡ some (Frames.header 0x80 127 0xffffffffffffffff 10)
unfolding Frames.read_header Frames.extended Frames.from_be
claim_header = refl

abbrev under_way : Link (List (List ℕ))
under_way = record fresh { message_data = 1 ∷ [] }

step_overruns_example : step keep claim_bytes under_way ≡ overrun
step_overruns_example =
    step_overruns keep claim_bytes under_way (Frames.header 0x80 127 0xffffffffffffffff 10)
      claim_header refl refl (omega arith) (omega arith) (omega arith) (omega arith) (omega arith)
      (omega arith) (omega arith)

-- A frame of 1024 bytes with its header does not fit the buffer.
abbrev full : Reader (List (List ℕ))
full = record reader { read_buf = 0x82 ∷ 254 ∷ 4 ∷ 0 ∷ replicate 1020 0 }

full-IsSettled : IsSettled keep full
unfolding Frames.process_frames
full-IsSettled = record { fits = omega arith; waits = refl }

copy_loop_full_example : copy_loop keep 5000 (0 ∷ []) full ≡ endless
copy_loop_full_example = copy_loop_full keep 5000 0 [] full full-IsSettled refl
