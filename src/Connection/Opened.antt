-- ===== src/Connection/Opened.antt =====
-- The request and the frames behind it, in pieces of any size.
use verda_sxtelo.Common.{
  ℕ, ◌≡◌, ◌≤◌, refl, sym, ap, ◌∙◌, Option, none, some, List, [], ◌∷◌, ◌++◌, All, length, true,
}
use verda_sxtelo.Common
use verda_sxtelo.WsParser
use verda_sxtelo.WsParser.{
  Digest, Parser, Outcome, need_more_data, finished, error, process_request_line, is_key_header,
}
use verda_sxtelo.WsParser.Reading.{IsBounded}
use verda_sxtelo.WsParser.Pieces.{then_parse}
use verda_sxtelo.WsParser.Pieces
use verda_sxtelo.WsParser.Request.{IsLine, IsHeader, IsOther, lines}
use verda_sxtelo.WsParser.Handshake.{answered, keyed, parse_data-lines}
use verda_sxtelo.Frames.{Result, ok, ◌>>=◌, max_payload_size, parse_frames}
use verda_sxtelo.Frames.Append.{bind_assoc}
use verda_sxtelo.Frames.Bytes.{IsSettled, bind_same, parse_frames-append}
use verda_sxtelo.Frames.Deliver.{encode_all}
use verda_sxtelo.Frames.Fragments.{Piece, IsPiece, frames, joined, parse_frames-message}
use verda_sxtelo.Connection.{
  ConnectionState, reading_ws_headers, writing_data, done, Connection, new, opened, handle_frames,
  handle_outcome, parse_in, parse_data,
}

module _ {C S : Type 0} (digest : Digest C) (process_message : List ℕ → S → Result S) where
  handle_frames-append :
      (xs ys : List ℕ) (conn : Connection C S)
      → IsSettled process_message conn.reader
      → handle_frames digest process_message (xs ++ ys) conn
        ≡ (handle_frames digest process_message xs conn >>= handle_frames digest process_message ys)
  unfolding handle_frames
  handle_frames-append xs ys conn s =
      ap (λ r. r >>= λ q. ok (record conn { reader = q }))
        (parse_frames-append process_message xs ys conn.reader s)
      ∙ bind_assoc (parse_frames process_message xs conn.reader) (parse_frames process_message ys)
          (λ q. ok (record conn { reader = q }))
      ∙ sym (
          bind_assoc (parse_frames process_message xs conn.reader)
            (λ q. ok (record conn { reader = q })) (handle_frames digest process_message ys))

  -- A connection whose request is over stays so.
  frames_then :
      (xs ys : List ℕ) (conn : Connection C S) (state : ConnectionState)
      → IsSettled process_message conn.reader
      → ((c : Connection C S)
          → parse_in digest process_message state ys c ≡ handle_frames digest process_message ys c)
      → handle_frames digest process_message (xs ++ ys) (record conn { state = state }) ≡ (
          handle_frames digest process_message xs (record conn { state = state })
          >>= parse_data digest process_message ys)
  unfolding handle_frames parse_data
  frames_then xs ys conn state s h =
      let here = record conn { state = state } in
      let parsed = parse_frames process_message xs conn.reader in
      handle_frames-append xs ys here s
      ∙ bind_assoc parsed (λ q. ok (record here { reader = q }))
          (handle_frames digest process_message ys)
      ∙ bind_same parsed (λ q. handle_frames digest process_message ys (record here { reader = q }))
          (λ q. parse_data digest process_message ys (record here { reader = q }))
          (λ q e. sym (h (record here { reader = q })))
      ∙ sym (
          bind_assoc parsed (λ q. ok (record here { reader = q }))
            (parse_data digest process_message ys))

  -- What the parser returned has the parser that it left.
  outcome_parser :
      (o : Option (Outcome C)) (conn : Connection C S) (p : Parser C)
      → handle_outcome digest process_message o conn
        ≡ handle_outcome digest process_message o (record conn { ws_parser = p })
  unfolding handle_outcome
  outcome_parser none conn p = refl
  outcome_parser (some (need_more_data q)) conn p = refl
  outcome_parser (some (finished q rest)) conn p = refl
  outcome_parser (some (error e)) conn p = refl

  outcome_then :
      (o : Option (Outcome C)) (ys : List ℕ) (conn : Connection C S)
      → IsSettled process_message conn.reader
      → handle_outcome digest process_message
          (Common.◌>>=◌ o (then_parse digest ys))
          (record conn { state = reading_ws_headers })
        ≡ (handle_outcome digest process_message o (record conn { state = reading_ws_headers })
            >>= parse_data digest process_message ys)
  unfolding handle_outcome parse_data parse_in
  outcome_then none ys conn s = refl
  outcome_then (some (need_more_data p)) ys conn s =
      outcome_parser (WsParser.parse_data digest ys p) (record conn { state = reading_ws_headers })
        p
  outcome_then (some (finished p rest)) ys conn s =
      frames_then rest ys (opened p conn) writing_data s (λ c. refl)
  outcome_then (some (error e)) ys conn s = refl

  parse_in-append :
      (state : ConnectionState) (xs ys : List ℕ) (conn : Connection C S)
      → IsBounded conn.ws_parser
      → IsSettled process_message conn.reader
      → parse_in digest process_message state (xs ++ ys) (record conn { state = state }) ≡ (
          parse_in digest process_message state xs (record conn { state = state })
          >>= parse_data digest process_message ys)
  unfolding parse_in
  parse_in-append reading_ws_headers xs ys conn b s =
      ap (λ o. handle_outcome digest process_message o (record conn { state = reading_ws_headers }))
        (Pieces.parse_data-append digest xs ys conn.ws_parser b)
      ∙ outcome_then (WsParser.parse_data digest xs conn.ws_parser) ys conn s
  parse_in-append writing_data xs ys conn b s = frames_then xs ys conn writing_data s (λ c. refl)
  parse_in-append done xs ys conn b s = frames_then xs ys conn done s (λ c. refl)

  -- Data that reaches a connection in two pieces is handled as if it arrived at once, in each of
  -- its states and wherever the request ends, errors included. The parser's buffer keeps to 512
  -- bytes, and the buffer for frames fits its array and has no whole frame.
  pub parse_data-pieces :
      (xs ys : List ℕ) (conn : Connection C S)
      → IsBounded conn.ws_parser
      → IsSettled process_message conn.reader
      → parse_data digest process_message (xs ++ ys) conn
        ≡ (parse_data digest process_message xs conn >>= parse_data digest process_message ys)
  unfolding parse_data
  parse_data-pieces xs ys conn b s = parse_in-append conn.state xs ys conn b s

  -- On a new connection, a request that opens a WebSocket with the frames of a message behind it
  -- leaves the connection writing data, with the response to the request flagged and its hash
  -- ready, and has the message handled. The request is as in WsParser.Handshake.parse_data-lines,
  -- and the message as in Frames.Fragments.parse_frames-message.
  pub parse_data-request :
      (line : List ℕ) (before after : List (List ℕ)) (key : List ℕ) (h : IsHeader key) (q : Piece)
      (rs : List Piece) (s : S)
      → IsLine line
      → process_request_line line ≡ WsParser.ok tt
      → All IsOther before
      → is_key_header key ≡ true
      → All IsOther after
      → IsPiece q
      → All IsPiece rs
      → length (joined q rs) ≤ max_payload_size
      → parse_data digest process_message
          (line
            ++ (13
                ∷ 10
                ∷ lines before
                    (key ++ (13 ∷ 10 ∷ lines after (13 ∷ 10 ∷ encode_all (frames 2 q rs))))))
          (new s)
        ≡ (process_message (joined q rs) s >>= λ t.
            ok (opened (answered digest (keyed digest key h)) (new t)))
  unfolding parse_data parse_in new handle_outcome handle_frames
  parse_data-request line before after key h q rs s l e b k a i j n =
      let first : Connection C S = new s in
      let parser = answered digest (keyed digest key h) in
      ap (λ o. handle_outcome digest process_message o first)
        (parse_data-lines digest line before after key (encode_all (frames 2 q rs)) h l e b k a)
      ∙ ap (λ r. r >>= λ p. ok (record (opened parser first) { reader = p }))
          (parse_frames-message process_message q rs first.reader.link i j n)
      ∙ bind_assoc (process_message (joined q rs) s)
          (λ t. ok (record {
            read_buf = [];
            link = record (first.reader.link) { message_data = []; others = t };
          }))
          (λ p. ok (record (opened parser first) { reader = p }))
