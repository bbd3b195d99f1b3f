-- ===== src/WsParser/Handshake.antt =====
-- A request with one key header is accepted, and its answer is the hash of the key.
use verda_sxtelo.Common.{
  ℕ, ◌+◌, ◌≤◌, ◌<◌, ◌≡◌, ◌≢◌, refl, sym, ap, ◌∙◌, arith, true, false, Option, some, none, List, [],
  ◌∷◌, ◌++◌, All, ≢→==-false, lt→ltb-false, length, length-append, drop,
}
use mathlib.Core.List.{append-nil, append_assoc}
use verda_sxtelo.WsParser.{
  Digest, ok, State, reading_request_line, terminating_request_line, reading_header,
  terminating_header, checking_header_continuation, parsed, Parser, with_state, add_bytes_to_buffer,
  process_request_line, is_key_header, skip_spaces, process_header, end_request_line, end_header,
  finish_key_hash, ws_sec_key_guid, finished, is_parsed, parse_data, new,
}
use verda_sxtelo.WsParser.Machine.{add, feed, run}
use verda_sxtelo.WsParser.Loop.{run-feed, then_rest}
use verda_sxtelo.WsParser.Request.{IsLine, IsHeader, IsOther, lines, Starts, lines-Starts}
use verda_sxtelo.WsParser.Pieces.{new-IsBounded, run_fed, run_done, parse_data-run}

module _ {C : Type 0} (digest : Digest C) where
  module _ (reading terminating : State) (going : is_parsed reading ≡ false)
      (feeds : (b : ℕ) (p : Parser C) → feed digest reading b p ≡ add terminating b p) where
    line_run :
        (bytes rest : List ℕ) (p : Parser C)
        → p.state ≡ reading
        → All (λ b. b ≢ 13) bytes
        → length p.buf + length bytes ≤ 512
        → run digest (bytes ++ (13 ∷ rest)) p
          ≡ run digest rest (record p { buf = p.buf ++ bytes; state = terminating })
    unfolding add add_bytes_to_buffer
    line_run [] rest p e a h =
        run_fed digest 13 rest p (with_state terminating p) (ap is_parsed e ∙ going)
          (ap (λ s. feed digest s 13 p) e ∙ feeds 13 p)
        ∙ rw (append-nil p.buf) refl
    line_run (b ∷ bytes) rest p e (n, a) h =
        let q = record p { buf = p.buf ++ (b ∷ []) } in
        let ih = line_run bytes rest q e a (omega (arith, length-append p.buf (b ∷ []))) in
        run_fed digest b (bytes ++ (13 ∷ rest)) p q (ap is_parsed e ∙ going)
          (ap (λ s. feed digest s b p) e ∙ feeds b p ∙ added b p n (omega arith))
        ∙ ih
        ∙ rw (append_assoc p.buf (b ∷ []) bytes) refl
      where
        added :
            (b : ℕ) (p : Parser C)
            → b ≢ 13
            → length p.buf + 1 ≤ 512
            → add terminating b p ≡ ok (record p { buf = p.buf ++ (b ∷ []) })
        added b p n h = rw (≢→==-false b 13 n, lt→ltb-false 512 (length p.buf + 1) (omega arith))

  -- Between two headers, with the key that was read.
  abbrev ready : Option C → Parser C
  ready ctx = record { buf = []; state = reading_header; key_hash = []; key_hash_ctx = ctx }

  -- Behind the line end of a header.
  abbrev checking : List ℕ → Option C → Parser C
  checking header ctx = record {
    buf = header;
    state = checking_header_continuation;
    key_hash = [];
    key_hash_ctx = ctx;
  }

  header_ends :
      (header : List ℕ) (ctx : Option C)
      → 0 < length header
      → feed digest terminating_header 10
          (record { buf = header; state = terminating_header; key_hash = []; key_hash_ctx = ctx })
        ≡ ok (checking header ctx)
  unfolding feed end_header
  header_ends header ctx h = rw (≢→==-false (length header) 0 (omega arith)) refl

  header_run :
      (header rest : List ℕ) (ctx : Option C)
      → IsLine header
      → run digest (header ++ (13 ∷ 10 ∷ rest)) (ready ctx) ≡ run digest rest (checking header ctx)
  header_run header rest ctx l =
      line_run reading_header terminating_header refl (λ b p. unfold feed in refl) header
        (10 ∷ rest) (ready ctx) refl l.no_return (omega (arith, l.fits))
      ∙ run_fed digest 10 rest (record (ready ctx) { buf = header; state = terminating_header })
          (checking header ctx) refl (header_ends header ctx l.some_bytes)

  next_fed :
      (b : ℕ) (header : List ℕ) (ctx ctx' : Option C)
      → b ≢ 32
      → process_header digest (checking header ctx) ≡ ok (checking header ctx')
      → feed digest checking_header_continuation b (checking header ctx)
        ≡ feed digest reading_header b (ready ctx')
  unfolding feed
  next_fed b header ctx ctx' n e = rw (≢→==-false b 32 n, e) refl

  -- The next line makes the header count.
  next_run :
      (b : ℕ) (rest header : List ℕ) (ctx ctx' : Option C)
      → b ≢ 32
      → process_header digest (checking header ctx) ≡ ok (checking header ctx')
      → run digest (b ∷ rest) (checking header ctx) ≡ run digest (b ∷ rest) (ready ctx')
  next_run b rest header ctx ctx' n e =
      run-feed digest b rest (checking header ctx) refl
      ∙ ap (then_rest digest rest) (next_fed b header ctx ctx' n e)
      ∙ sym (run-feed digest b rest (ready ctx') refl)

  other_processed :
      (header : List ℕ) (ctx : Option C)
      → IsOther header
      → process_header digest (checking header ctx) ≡ ok (checking header ctx)
  unfolding process_header
  other_processed header ctx o = rw (o.header.has_colon, o.no_key, process_header) refl

  key_processed :
      (header : List ℕ) (h : IsHeader header)
      → is_key_header header ≡ true
      → process_header digest (checking header none)
        ≡ ok (
            checking header
              (some (digest.update digest.init (skip_spaces (drop (h.colon + 1) header)))))
  unfolding process_header
  key_processed header h k = rw (h.has_colon, k, process_header) refl

  Starts-run :
      (rest header : List ℕ) (ctx ctx' : Option C)
      → Starts rest
      → process_header digest (checking header ctx) ≡ ok (checking header ctx')
      → run digest rest (checking header ctx) ≡ run digest rest (ready ctx')
  Starts-run rest header ctx ctx' s e =
      rw s.starts (next_run s.byte s.others header ctx ctx' s.no_space e)

  -- Behind headers that are ignored the parser is where it was.
  headers_run :
      (headers : List (List ℕ)) (rest : List ℕ) (ctx : Option C)
      → All IsOther headers
      → Starts rest
      → run digest (lines headers rest) (ready ctx) ≡ run digest rest (ready ctx)
  unfolding lines
  headers_run [] rest ctx a s = refl
  headers_run (header ∷ headers) rest ctx (o, a) s =
      header_run header (lines headers rest) ctx o.header.line
      ∙ Starts-run (lines headers rest) header ctx ctx (lines-Starts headers rest a s)
          (other_processed header ctx o)
      ∙ headers_run headers rest ctx a s

  -- The context that a key header leads to.
  abbrev pub keyed : (header : List ℕ) → IsHeader header → C
  keyed header h = digest.update digest.init (skip_spaces (drop (h.colon + 1) header))

  -- The parser behind the last header.
  abbrev pub answered : C → Parser C
  answered ctx = record {
    buf = [];
    state = parsed;
    key_hash = digest.final (digest.update ctx ws_sec_key_guid);
    key_hash_ctx = some (digest.update ctx ws_sec_key_guid);
  }

  last_ends :
      (ctx : C)
      → feed digest terminating_header 10
          (record { buf = []; state = terminating_header; key_hash = []; key_hash_ctx = some ctx })
        ≡ ok (answered ctx)
  unfolding feed end_header finish_key_hash
  last_ends ctx = refl

  last_run :
      (rest : List ℕ) (ctx : C)
      → run digest (13 ∷ 10 ∷ rest) (ready (some ctx)) ≡ finished (answered ctx) rest
  last_run rest ctx =
      line_run reading_header terminating_header refl (λ b p. unfold feed in refl) [] (10 ∷ rest)
        (ready (some ctx)) refl tt (omega arith)
      ∙ run_fed digest 10 rest
          (record { buf = []; state = terminating_header; key_hash = []; key_hash_ctx = some ctx })
          (answered ctx) refl (last_ends ctx)
      ∙ run_done digest rest (answered ctx) refl

  request_ends :
      (line : List ℕ)
      → 0 < length line
      → process_request_line line ≡ ok tt
      → feed digest terminating_request_line 10
          (record (new {C = C}) { buf = line; state = terminating_request_line })
        ≡ ok (ready none)
  unfolding feed end_request_line new
  request_ends line h e = rw (≢→==-false (length line) 0 (omega arith), e) refl

  request_run :
      (line rest : List ℕ)
      → IsLine line
      → process_request_line line ≡ ok tt
      → run digest (line ++ (13 ∷ 10 ∷ rest)) new ≡ run digest rest (ready none)
  unfolding new
  request_run line rest l e =
      line_run reading_request_line terminating_request_line refl (λ b p. unfold feed in refl) line
        (10 ∷ rest) new refl l.no_return (omega (arith, l.fits))
      ∙ run_fed digest 10 rest
          (record (new {C = C}) { buf = line; state = terminating_request_line }) (ready none) refl
          (request_ends line l.some_bytes e)

  return-Starts : (rest : List ℕ) → Starts (13 ∷ rest)
  return-Starts rest = record { byte = 13; others = rest; starts = refl; no_space = omega arith }

  -- A request line that is accepted and headers, one of which is the key header, are parsed to
  -- the end: the hash is that of the key without leading spaces and then the GUID, and the bytes
  -- behind the request are left. No line has a carriage return, is empty or has more than 512
  -- bytes, each header has a colon and does not start with a space, and no other header is a key
  -- header.
  pub parse_data-lines :
      (line : List ℕ) (before after : List (List ℕ)) (key rest : List ℕ) (h : IsHeader key)
      → IsLine line
      → process_request_line line ≡ ok tt
      → All IsOther before
      → is_key_header key ≡ true
      → All IsOther after
      → parse_data digest
          (line ++ (13 ∷ 10 ∷ lines before (key ++ (13 ∷ 10 ∷ lines after (13 ∷ 10 ∷ rest)))))
          new
        ≡ some (finished (answered (keyed key h)) rest)
  parse_data-lines line before after key rest h l e b k a =
      let behind = lines after (13 ∷ 10 ∷ rest) in
      let ends : Starts (13 ∷ 10 ∷ rest) = return-Starts (10 ∷ rest) in
      parse_data-run digest _ new (new-IsBounded C)
      ∙ ap some (
          request_run line (lines before (key ++ (13 ∷ 10 ∷ behind))) l e
          ∙ headers_run before (key ++ (13 ∷ 10 ∷ behind)) none b (record {
            byte = h.first;
            others = h.others ++ (13 ∷ 10 ∷ behind);
            starts = ap (λ t. t ++ (13 ∷ 10 ∷ behind)) h.starts;
            no_space = h.no_space;
          })
          ∙ header_run key behind none h.line
          ∙ Starts-run behind key none (some (keyed key h))
              (lines-Starts after (13 ∷ 10 ∷ rest) a ends) (key_processed key h k)
          ∙ headers_run after (13 ∷ 10 ∷ rest) (some (keyed key h)) a ends
          ∙ last_run rest (keyed key h))
