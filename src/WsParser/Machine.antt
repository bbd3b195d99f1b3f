-- ===== src/WsParser/Machine.antt =====
-- The parser as a machine that takes one byte after the other: an independent description, without
-- searches, rests or pieces.
use verda_sxtelo.Common.{ℕ, true, false, List, [], ◌∷◌, ◌==◌, if◌then◌else◌}
use verda_sxtelo.WsParser.{
  Digest, Result, ok, err, ◌>>=◌, State, reading_request_line, terminating_request_line,
  reading_header, terminating_header, checking_header_continuation, parsed, Parser, with_state,
  cleared, add_bytes_to_buffer, process_header, end_request_line, end_header, Outcome,
  need_more_data, finished, error, is_parsed,
}

module _ {C : Type 0} where
  -- A byte of a line.
  unfoldable pub add : State → ℕ → Parser C → Result (Parser C)
  unfolding add_bytes_to_buffer
  add terminating b p =
      if b == 13 then ok (with_state terminating p) else add_bytes_to_buffer (b ∷ []) p

  -- A byte after a carriage return that did not end the line.
  unfoldable pub add_both : State → State → ℕ → Parser C → Result (Parser C)
  unfolding add add_bytes_to_buffer
  add_both reading terminating b p = do
    p' ← add_bytes_to_buffer (13 ∷ []) p
    add terminating b (with_state reading p')

module _ {C : Type 0} (digest : Digest C) where
  unfoldable pub feed : State → ℕ → Parser C → Result (Parser C)
  unfolding add add_both end_request_line end_header process_header
  feed reading_request_line b p = add terminating_request_line b p
  feed terminating_request_line b p =
      if b == 10
      then end_request_line p
      else add_both reading_request_line terminating_request_line b p
  feed reading_header b p = add terminating_header b p
  feed terminating_header b p =
      if b == 10 then end_header digest p else add_both reading_header terminating_header b p
  feed checking_header_continuation b p =
      if b == 32
      then add terminating_header b (with_state reading_header p)
      else (do p' ← process_header digest p; add terminating_header b (cleared reading_header p'))
  feed parsed b p = ok p

  unfoldable pub run : List ℕ → Parser C → Outcome C
  unfolding feed
  run [] p = if is_parsed p.state then finished p [] else need_more_data p
  run (b ∷ bytes) p = elim (is_parsed p.state) [
    | true ↦ finished p (b ∷ bytes)
    | false ↦ elim (feed p.state b p) [ err e ↦ error e | ok p' ↦ run bytes p' ]
  ]
