-- ===== src/WsParser.antt =====
-- server/vsx-ws-parser.c: the request that opens a WebSocket, read in pieces of any size.
-- The hash is that of the OpenSSL library: a `Digest` is a parameter of the parser, and nothing is
-- assumed of it. After an error the server parses no more data, so an error keeps no parser.
pub mod Machine
pub mod Reading
pub mod Loop
pub mod Progress
pub mod Pieces
pub mod Request
pub mod Handshake
use verda_sxtelo.Common.{
  ℕ, zero, suc, ◌+◌, ◌-◌, ◌*◌, Bool, true, false, ◌&&◌, Option, none, some, List, [], ◌∷◌, ◌++◌,
  ltb, ◌==◌, if◌then◌else◌, take, drop, get_or, length, list_eq,
}
use verda_sxtelo.Common.Chars.{codes}
use verda_sxtelo.Memory.{memchr}
use verda_sxtelo.Ascii.{ascii_tolower, ascii_isdigit}

-- The hash of a message that is handed over in pieces: `EVP_DigestInit_ex`, `EVP_DigestUpdate` and
-- `EVP_DigestFinal` for SHA-1.
pub record Digest (C : Type 0) : Type 0 where
  pub init : C
  pub update : C → List ℕ → C
  pub final : C → List ℕ

-- `VsxWsParserError`
pub data Error : Type 0 where
  invalid unsupported : Error

pub data Result {ℓ} (A : Type ℓ) : Type ℓ where
  ok : A → Result A
  err : Error → Result A

infixl 5 ◌>>=◌
abbrev pub ◌>>=◌ {ℓ κ} : {A : Type ℓ} {B : Type κ} → Result A → (A → Result B) → Result B
ok a >>= f = f a
err e >>= f = err e

abbrev pub guard : Bool → Error → Result (Unit {0})
guard true e = ok tt
guard false e = err e

-- The `enum` of `_VsxWsParser`
pub data State : Type 0 where
  reading_request_line terminating_request_line reading_header terminating_header
        checking_header_continuation parsed :
      State

-- `_VsxWsParser`, where `buf` is the first `buf_len` bytes of the buffer.
pub record Parser (C : Type 0) : Type 0 where
  pub buf : List ℕ
  pub state : State
  pub key_hash : List ℕ
  pub key_hash_ctx : Option C

abbrev pub max_line_length : ℕ
max_line_length = 512

abbrev pub ws_sec_key_guid : List ℕ
ws_sec_key_guid = codes "258EAFA5-E914-47DA-95CA-C5AB0DC85B11"

abbrev pub http_prefix : List ℕ
http_prefix = codes "HTTP/1."

abbrev pub key_header : List ℕ
key_header = codes "sec-websocket-key:"

-- `while (length > 0)`, from the last character on.
unfoldable pub all_digits : ℕ → List ℕ → Bool
unfolding ascii_isdigit
all_digits zero bytes = true
all_digits (suc n) bytes = ascii_isdigit (get_or bytes n 0) && all_digits n bytes

unfoldable pub check_http_version : List ℕ → Bool
unfolding all_digits list_eq
check_http_version bytes =
    if ltb (length bytes) 8
    then false
    else if list_eq (take 7 bytes) http_prefix
    then all_digits (length bytes - 7) (drop 7 bytes)
    else false

-- `process_request_line`, of which only the error matters.
unfoldable pub process_request_line : List ℕ → Result (Unit {0})
unfolding memchr check_http_version
process_request_line line = elim (memchr line 32) [
  | none ↦ err invalid
  | some method_end ↦
      let rest = drop (method_end + 1) line in
      elim (memchr rest 32) [
        | none ↦ err invalid
        | some uri_end ↦ guard (check_http_version (drop (uri_end + 1) rest)) unsupported
      ]
]

-- The caller has found a colon in the header, and the comparison ends there at the latest.
unfoldable pub starts_no_case : List ℕ → List ℕ → Bool
unfolding ascii_tolower
starts_no_case [] header = true
starts_no_case (a ∷ as') [] = false
starts_no_case (a ∷ as') (b ∷ header) =
    let rest = starts_no_case as' header in
    if ascii_tolower a == ascii_tolower b then rest else false

unfoldable pub is_key_header : List ℕ → Bool
unfolding starts_no_case
is_key_header header = starts_no_case key_header header

unfoldable pub skip_spaces : List ℕ → List ℕ
skip_spaces [] = []
skip_spaces (b ∷ bytes) = let rest = skip_spaces bytes in if b == 32 then rest else b ∷ bytes

module _ {C : Type 0} where
  abbrev pub with_state : State → Parser C → Parser C
  with_state s p = record p { state = s }

  -- `parser->buf_len = 0`, with the next state.
  abbrev pub cleared : State → Parser C → Parser C
  cleared s p = record p { buf = []; state = s }

  -- `vsx_ws_parser_new`
  unfoldable pub new : Parser C
  new = record { buf = []; state = reading_request_line; key_hash = []; key_hash_ctx = none }

  -- The sum of the unsigned lengths cannot wrap around: the server reads 1024 bytes at a time.
  unfoldable pub add_bytes_to_buffer : List ℕ → Parser C → Result (Parser C)
  add_bytes_to_buffer bytes p =
      if ltb max_line_length (length p.buf + length bytes)
      then err unsupported
      else ok (record p { buf = p.buf ++ bytes })

  -- What `handle_reading_request_line` and `handle_reading_header` do, which is the same but for
  -- the state that they go to at a carriage return.
  unfoldable pub handle_reading : State → List ℕ → Parser C → Result (Parser C × List ℕ)
  unfolding memchr add_bytes_to_buffer
  handle_reading terminating bytes p = elim (memchr bytes 13) [
    | some i ↦ do
      p' ← add_bytes_to_buffer (take i bytes) p
      ok (with_state terminating p', drop (i + 1) bytes)
    | none ↦ do p' ← add_bytes_to_buffer bytes p; ok (p', [])
  ]

  -- The `else` of both `handle_terminating_...`: the carriage return belonged to the line, and no
  -- byte is taken.
  unfoldable pub put_back : State → List ℕ → Parser C → Result (Parser C × List ℕ)
  unfolding add_bytes_to_buffer
  put_back reading bytes p = do
    p' ← add_bytes_to_buffer (13 ∷ []) p
    ok (with_state reading p', bytes)

  unfoldable pub end_request_line : Parser C → Result (Parser C)
  unfolding process_request_line
  end_request_line p =
      if length p.buf == 0
      then ok (with_state reading_request_line p)
      else (do tt' ← process_request_line p.buf; ok (cleared reading_header p))

module _ {C : Type 0} (digest : Digest C) where
  unfoldable pub process_header : Parser C → Result (Parser C)
  unfolding memchr is_key_header skip_spaces
  process_header p = elim (memchr p.buf 58) [
    | none ↦ err invalid
    | some field_name_end ↦
        if is_key_header p.buf
        then elim p.key_hash_ctx [
          | some ctx ↦ err invalid
          | none ↦ ok (record p {
            key_hash_ctx =
                some (digest.update digest.init (skip_spaces (drop (field_name_end + 1) p.buf)));
          })
        ]
        else ok p
  ]

  unfoldable pub finish_key_hash : Parser C → Result (Parser C)
  finish_key_hash p = elim p.key_hash_ctx [
    | none ↦ err invalid
    | some ctx ↦
        let ctx' = digest.update ctx ws_sec_key_guid in
        ok (record p { key_hash = digest.final ctx'; key_hash_ctx = some ctx' })
  ]

  unfoldable pub end_header : Parser C → Result (Parser C)
  unfolding finish_key_hash
  end_header p =
      if length p.buf == 0
      then (do p' ← finish_key_hash p; ok (with_state parsed p'))
      else ok (with_state checking_header_continuation p)

  -- One round of `vsx_ws_parser_parse_data` in a state that is not `parsed`, on the bytes
  -- `b ∷ bytes`: the handler of the state.
  unfoldable pub handle : State → ℕ → List ℕ → Parser C → Result (Parser C × List ℕ)
  unfolding handle_reading put_back end_request_line end_header process_header
  handle reading_request_line b bytes p = handle_reading terminating_request_line (b ∷ bytes) p
  handle terminating_request_line b bytes p =
      if b == 10
      then (do p' ← end_request_line p; ok (p', bytes))
      else put_back reading_request_line (b ∷ bytes) p
  handle reading_header b bytes p = handle_reading terminating_header (b ∷ bytes) p
  handle terminating_header b bytes p =
      if b == 10
      then (do p' ← end_header p; ok (p', bytes))
      else put_back reading_header (b ∷ bytes) p
  handle checking_header_continuation b bytes p =
      if b == 32
      then ok (with_state reading_header p, b ∷ bytes)
      else (do p' ← process_header p; ok (cleared reading_header p', b ∷ bytes))
  handle parsed b bytes p = ok (p, b ∷ bytes)

-- `VsxWsParserResult`, with the parser and what is left of the data.
pub data Outcome (C : Type 0) : Type 0 where
  need_more_data : Parser C → Outcome C
  finished : Parser C → List ℕ → Outcome C
  error : Error → Outcome C

abbrev pub is_parsed : State → Bool
is_parsed parsed = true
is_parsed reading_request_line = false
is_parsed terminating_request_line = false
is_parsed reading_header = false
is_parsed terminating_header = false
is_parsed checking_header_continuation = false

module _ {C : Type 0} (digest : Digest C) where
  -- `while (closure.length > 0)`, where `none` stands for fuel that ran out.
  unfoldable pub parse_loop : ℕ → List ℕ → Parser C → Option (Outcome C)
  unfolding handle
  parse_loop fuel [] p = some (if is_parsed p.state then finished p [] else need_more_data p)
  parse_loop zero (b ∷ bytes) p = none
  parse_loop (suc fuel) (b ∷ bytes) p = elim (is_parsed p.state) [
    | true ↦ some (finished p (b ∷ bytes))
    | false ↦ elim (handle digest p.state b bytes p) [
      | err e ↦ some (error e)
      | ok (p', rest) ↦ parse_loop fuel rest p'
    ]
  ]

  -- A byte takes two rounds at most.
  unfoldable pub parse_data : List ℕ → Parser C → Option (Outcome C)
  unfolding parse_loop
  parse_data bytes p = parse_loop (2 * length bytes + 1) bytes p
