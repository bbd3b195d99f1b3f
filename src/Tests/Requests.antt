-- ===== src/Tests/Requests.antt =====
-- The WebSocket request, with a hash that only remembers what it was fed.
use verda_sxtelo.Common.{ℕ, ◌≡◌, refl, arith, true, some, List, [], ◌∷◌, ◌++◌, ◌>>=◌}
use verda_sxtelo.Common.Chars.{codes}
use verda_sxtelo.Memory
use verda_sxtelo.WsParser
use verda_sxtelo.WsParser.{
  Digest, ok, Parser, parse_data, finished, need_more_data, process_request_line, is_key_header,
  new, ws_sec_key_guid, Outcome,
}
use verda_sxtelo.WsParser.Machine.{run}
use verda_sxtelo.WsParser.Request.{IsLine, IsHeader, IsOther, lines}
use verda_sxtelo.WsParser.Pieces.{
  new-IsBounded, Fits, then_parse, parse_data-run, parse_data-Fits, parse_data-append,
}
use verda_sxtelo.WsParser.Handshake.{answered, keyed, parse_data-lines}

abbrev pub plain : Digest (List ℕ)
plain = record { init = []; update = λ c bytes. c ++ bytes; final = λ c. c }

abbrev pub request_line : List ℕ
request_line = codes "GET /chat HTTP/1.1"

abbrev pub host : List ℕ
host = codes "Host: gemelo.org"

abbrev pub key_line : List ℕ
key_line = codes "Sec-WebSocket-KEY:  dGhl"

abbrev request : List ℕ
request =
    request_line
    ++ (13 ∷ 10 ∷ lines (host ∷ []) (key_line ++ (13 ∷ 10 ∷ lines [] (13 ∷ 10 ∷ 7 ∷ []))))

pub request_line-IsLine : IsLine request_line
request_line-IsLine = record {
  no_return = omega arith;
  some_bytes = omega arith;
  fits = omega arith;
}

host-IsHeader : IsHeader host
unfolding Memory.memchr
host-IsHeader = record {
  line = record { no_return = omega arith; some_bytes = omega arith; fits = omega arith };
  first = 72;
  others = codes "ost: gemelo.org";
  starts = refl;
  no_space = omega arith;
  colon = 4;
  has_colon = refl;
}

pub host-IsOther : IsOther host
unfolding is_key_header
host-IsOther = record { header = host-IsHeader; no_key = refl }

pub key-IsHeader : IsHeader key_line
unfolding Memory.memchr
key-IsHeader = record {
  line = record { no_return = omega arith; some_bytes = omega arith; fits = omega arith };
  first = 83;
  others = codes "ec-WebSocket-KEY:  dGhl";
  starts = refl;
  no_space = omega arith;
  colon = 17;
  has_colon = refl;
}

pub request_line_accepted : process_request_line request_line ≡ ok tt
unfolding process_request_line
request_line_accepted = refl

pub key_accepted : is_key_header key_line ≡ true
unfolding is_key_header
key_accepted = refl

parse_data-lines_example :
    parse_data plain request new
    ≡ some (finished (answered plain (keyed plain key_line key-IsHeader)) (7 ∷ []))
parse_data-lines_example =
    parse_data-lines plain request_line (host ∷ []) [] key_line (7 ∷ []) key-IsHeader
      request_line-IsLine request_line_accepted (host-IsOther, tt) key_accepted tt

-- The spaces in front of the key are left out, and the GUID follows it.
answer :
    (answered plain (keyed plain key_line key-IsHeader)).key_hash ≡ codes "dGhl" ++ ws_sec_key_guid
unfolding key-IsHeader WsParser.skip_spaces
answer = refl

parse_data-append_example :
    parse_data plain (request_line ++ request) new
    ≡ (parse_data plain request_line new >>= then_parse plain request)
parse_data-append_example =
    parse_data-append plain request_line request new (new-IsBounded (List ℕ))

parse_data-run_example : parse_data plain request new ≡ some (run plain request new)
parse_data-run_example = parse_data-run plain request new (new-IsBounded (List ℕ))

parse_data-Fits_example :
    Fits (finished (answered plain (keyed plain key_line key-IsHeader)) (7 ∷ []))
parse_data-Fits_example =
    parse_data-Fits plain request new (new-IsBounded (List ℕ)) parse_data-lines_example
