-- ===== src/Tests/Openings.antt =====
-- A client that opens a connection and sends a message.
use verda_sxtelo.Common.{ℕ, ◌≡◌, arith, List, [], ◌∷◌, ◌++◌}
use verda_sxtelo.WsParser.Request.{lines}
use verda_sxtelo.WsParser.Pieces.{new-IsBounded}
use verda_sxtelo.WsParser.Handshake.{answered, keyed}
use verda_sxtelo.Frames.{ok, ◌>>=◌}
use verda_sxtelo.Frames.Deliver.{encode_all, empty-IsSettled}
use verda_sxtelo.Frames.Fragments.{frames}
use verda_sxtelo.Connection.{Connection, new, opened, parse_data}
use verda_sxtelo.Connection.Opened.{parse_data-pieces, parse_data-request}
use verda_sxtelo.Tests.Requests.{
  plain, request_line, host, key_line, request_line-IsLine, host-IsOther, key-IsHeader,
  request_line_accepted, key_accepted,
}
use verda_sxtelo.Tests.Streams.{keep, turn_piece, turn-IsPiece}

abbrev first : Connection (List ℕ) (List (List ℕ))
first = new []

abbrev request : List ℕ
request =
    request_line
    ++ (13
        ∷ 10
        ∷ lines (host ∷ [])
            (key_line ++ (13 ∷ 10 ∷ lines [] (13 ∷ 10 ∷ encode_all (frames 2 turn_piece [])))))

parse_data-request_example :
    parse_data plain keep request first
    ≡ ok (opened (answered plain (keyed plain key_line key-IsHeader)) (new ((0x89 ∷ []) ∷ [])))
parse_data-request_example =
    parse_data-request plain keep request_line (host ∷ []) [] key_line key-IsHeader turn_piece [] []
      request_line-IsLine request_line_accepted (host-IsOther, tt) key_accepted tt turn-IsPiece tt
      (omega arith)

parse_data-pieces_example :
    parse_data plain keep (request_line ++ request) first
    ≡ (parse_data plain keep request_line first >>= parse_data plain keep request)
unfolding new
parse_data-pieces_example =
    parse_data-pieces plain keep request_line request first (new-IsBounded (List ℕ))
      (empty-IsSettled keep first.reader.link)
