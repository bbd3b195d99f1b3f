-- ===== src/WsParser/Request.antt =====
-- The lines of a request.
use verda_sxtelo.Common.{ℕ, ◌≤◌, ◌<◌, ◌≡◌, ◌≢◌, ap, false, some, List, [], ◌∷◌, ◌++◌, All, length}
use verda_sxtelo.Memory.{memchr}
use verda_sxtelo.WsParser.{is_key_header}

-- A line that the parser has room for.
pub record IsLine (bytes : List ℕ) : Type 0 where
  pub no_return : All (λ b. b ≢ 13) bytes
  pub some_bytes : 0 < length bytes
  pub fits : length bytes ≤ 512

-- A header that is not the continuation of another one.
pub record IsHeader (header : List ℕ) : Type 0 where
  pub line : IsLine header
  pub first : ℕ
  pub others : List ℕ
  pub starts : header ≡ first ∷ others
  pub no_space : first ≢ 32
  pub colon : ℕ
  pub has_colon : memchr header 58 ≡ some colon

-- A header that the parser ignores.
pub record IsOther (text : List ℕ) : Type 0 where
  pub header : IsHeader text
  pub no_key : is_key_header text ≡ false

-- Headers in front of the rest of the data.
unfoldable pub lines : List (List ℕ) → List ℕ → List ℕ
lines [] rest = rest
lines (header ∷ headers) rest = header ++ (13 ∷ 10 ∷ lines headers rest)

-- What a new line starts with.
pub record Starts (bytes : List ℕ) : Type 0 where
  pub byte : ℕ
  pub others : List ℕ
  pub starts : bytes ≡ byte ∷ others
  pub no_space : byte ≢ 32

pub lines-Starts :
    (headers : List (List ℕ)) (rest : List ℕ)
    → All IsOther headers
    → Starts rest
    → Starts (lines headers rest)
unfolding lines
lines-Starts [] rest a s = s
lines-Starts (header ∷ headers) rest (o, a) s = record {
  byte = o.header.first;
  others = o.header.others ++ (13 ∷ 10 ∷ lines headers rest);
  starts = ap (λ h. h ++ (13 ∷ 10 ∷ lines headers rest)) o.header.starts;
  no_space = o.header.no_space;
}
