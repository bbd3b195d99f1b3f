-- ===== src/Frames.antt =====
-- The frames of server/vsx-connection.c: `process_frames` and what it calls, with the loop of
-- `vsx_connection_parse_data` over the data of an open WebSocket. `process_message` is a parameter,
-- which changes the other fields of the connection or sets an error. The machine is little-endian.

pub mod Mask
pub mod Step
pub mod Append
pub mod Stream
pub mod Bytes
pub mod Sent
pub mod Deliver
pub mod Fragments
pub mod Overrun
use verda_sxtelo.Common.{
  ℕ, zero, suc, ◌+◌, ◌-◌, ◌/◌, ◌%◌, ◌^◌, Bool, true, false, not, ◌&&◌, ◌||◌, Option, none, some,
  List, [], ◌∷◌, ◌++◌, ltb, leb, ◌==◌, if◌then◌else◌, take, drop, length, min, bit_xor,
}
use verda_sxtelo.Proto.{write_le, read_le, swap_bytes}

abbrev pub max_payload_size : ℕ
max_payload_size = 1024

abbrev pub max_control_frame_payload : ℕ
max_control_frame_payload = 125

abbrev pub read_buf_size : ℕ
read_buf_size = 1024

-- A false result is `refused`, which keeps no state: after it the server parses no more data of the
-- connection, though it still writes what earlier messages have queued. `overrun` is a `memcpy` or an unmasking that leaves its array, and
-- `endless` stands for fuel that ran out.
pub data Result {ℓ} (A : Type ℓ) : Type ℓ where
  ok : A → Result A
  refused overrun endless : Result A

infixl 5 ◌>>=◌
abbrev pub ◌>>=◌ {ℓ κ} : {A : Type ℓ} {B : Type κ} → Result A → (A → Result B) → Result B
ok a >>= f = f a
refused >>= f = refused
overrun >>= f = overrun
endless >>= f = endless

-- The fields of `_VsxConnection` that the frames change; `others` are the rest of them. The buffers
-- are as long as `message_data_length` and `pong_data_length`, and `pong` is
-- `VSX_CONNECTION_DIRTY_FLAG_PONG`.
pub record Link (S : Type 0) : Type 0 where
  pub message_data : List ℕ
  pub pong_data : List ℕ
  pub pong : Bool
  pub others : S

-- The first `read_buf_pos` bytes of `read_buf`, with the other fields.
pub record Reader (S : Type 0) : Type 0 where
  pub read_buf : List ℕ
  pub link : Link S

-- The bytes at the end, which are no whole word.
unfoldable pub unmask_rest : List ℕ → List ℕ → List ℕ
unmask_rest mask [] = []
unmask_rest [] (b ∷ bytes) = []
unmask_rest (m ∷ mask) (b ∷ bytes) = bit_xor b m ∷ unmask_rest mask bytes

-- `mask` is the four bytes of the number.
unfoldable pub unmask_data : List ℕ → List ℕ → List ℕ
unfolding unmask_rest write_le read_le
unmask_data mask (a ∷ b ∷ c ∷ d ∷ rest) =
    write_le 4 (bit_xor (read_le (a ∷ b ∷ c ∷ d ∷ [])) (read_le mask)) ++ unmask_data mask rest
unmask_data mask bytes = unmask_rest mask bytes

-- What the loop of `process_frames` reads first.
pub record Header : Type 0 where
  pub is_fin : Bool
  pub has_reserved : Bool
  pub opcode : ℕ
  pub has_mask : Bool
  pub payload_length : ℕ
  pub header_size : ℕ

-- `VSX_UINT16_FROM_BE` and `VSX_UINT64_FROM_BE` of `k` bytes that were copied.
unfoldable pub from_be : ℕ → List ℕ → ℕ
unfolding swap_bytes read_le
from_be k bytes = swap_bytes k (read_le (take k bytes))

abbrev pub header : ℕ → ℕ → ℕ → ℕ → Header
header first second length size =
    let has_mask = leb 128 second in
    record {
      is_fin = leb 128 first;
      has_reserved = not ((first / 16) % 8 == 0);
      opcode = first % 16;
      has_mask = has_mask;
      payload_length = length;
      header_size = if has_mask then size + 4 else size;
    }

-- A length of `k` bytes behind the first two; `none` is a `break` to wait for more of them.
unfoldable pub extended : ℕ → ℕ → ℕ → List ℕ → Option Header
unfolding from_be
extended k first second rest =
    if ltb (length rest) k then none else some (header first second (from_be k rest) (2 + k))

unfoldable pub read_header : List ℕ → Option Header
unfolding extended
read_header (first ∷ second ∷ rest) =
    if (second % 128) == 126
    then extended 2 first second rest
    else if (second % 128) == 127
    then extended 8 first second rest
    else some (header first second (second % 128) 2)
read_header bytes = none

abbrev pub is_control : Header → Bool
is_control h = leb 8 h.opcode

-- The tests that follow, with the length of the message so far. The sum of the lengths is a
-- `uint64_t`.
unfoldable pub check_header : ℕ → Header → Bool
check_header message_length h =
    if h.has_reserved
    then false
    else if is_control h
    then (if ltb max_control_frame_payload h.payload_length then false else h.is_fin)
    else if (h.opcode == 2) || (h.opcode == 0)
    then (if ltb max_payload_size ((h.payload_length + message_length) % 2 ^ 64)
        then false
        else if (h.opcode == 0) && (message_length == 0)
        then false
        else not ((h.payload_length == 0) && not h.is_fin))
    else false

unfoldable pub unmasked : Header → List ℕ → List ℕ → List ℕ
unfolding unmask_data
unmasked h mask payload = if h.has_mask then unmask_data mask payload else payload

module _ {S : Type 0} where
  unfoldable pub process_control_frame : ℕ → List ℕ → Link S → Result (Link S)
  process_control_frame opcode bytes link =
      if opcode == 8
      then ok link
      else if opcode == 9
      then (if ltb max_control_frame_payload (length bytes)
          then overrun
          else ok (record link { pong_data = bytes; pong = true }))
      else if opcode == 10
      then ok link
      else refused

module _ {S : Type 0} (process_message : List ℕ → S → Result S) where
  -- `if (is_fin)`
  unfoldable pub end_fragment : Bool → Link S → Result (Link S)
  end_fragment false link = ok link
  end_fragment true link = do
    s ← process_message link.message_data link.others
    ok (record link { message_data = []; others = s })

  -- What is done with the payload of a frame.
  unfoldable pub receive : Header → List ℕ → Link S → Result (Link S)
  unfolding process_control_frame end_fragment
  receive h payload link =
      if is_control h
      then process_control_frame h.opcode payload link
      else if ltb max_payload_size (length link.message_data + length payload)
      then overrun
      else end_fragment h.is_fin (record link { message_data = link.message_data ++ payload })

  -- The frame behind its checked header, once all of it is there.
  unfoldable pub take_frame : Header → List ℕ → Link S → Result (Link S × List ℕ)
  unfolding unmasked receive
  take_frame h bytes link =
      let rest = drop h.header_size bytes in
      let mask = take 4 (drop (h.header_size - 4) bytes) in
      if ltb (length rest) h.payload_length then overrun else (do
        link' ← receive h (unmasked h mask (take h.payload_length rest)) link
        ok (link', drop h.payload_length rest))

  -- A round of the loop; `none` is a `break`. The sum is a `uint64_t`.
  unfoldable pub step : List ℕ → Link S → Result (Option (Link S × List ℕ))
  unfolding read_header check_header take_frame
  step bytes link = elim (read_header bytes) [
    | none ↦ ok none
    | some h ↦
        if check_header (length link.message_data) h
        then (if ltb (length bytes) ((h.payload_length + h.header_size) % 2 ^ 64)
            then ok none
            else (do r ← take_frame h bytes link; ok (some r)))
        else refused
  ]

  -- `while (true)`. Every frame has at least two bytes.
  unfoldable pub frames_loop : ℕ → List ℕ → Link S → Result (Reader S)
  unfolding step
  frames_loop zero bytes link = endless
  frames_loop (suc fuel) bytes link = do
    r ← step bytes link
    elim r [
      | none ↦ ok (record { read_buf = bytes; link = link })
      | some (link', rest) ↦ frames_loop fuel rest link'
    ]

  unfoldable pub process_frames : Reader S → Result (Reader S)
  unfolding frames_loop
  process_frames conn = frames_loop (length conn.read_buf + 1) conn.read_buf conn.link

  -- `while (buffer_length > 0)`
  unfoldable pub copy_loop : ℕ → List ℕ → Reader S → Result (Reader S)
  unfolding process_frames
  copy_loop fuel [] conn = ok conn
  copy_loop zero (b ∷ buffer) conn = endless
  copy_loop (suc fuel) (b ∷ buffer) conn = do
    let to_copy = min (length (b ∷ buffer)) (read_buf_size - length conn.read_buf)
    conn' ← process_frames (record conn { read_buf = conn.read_buf ++ take to_copy (b ∷ buffer) })
    copy_loop fuel (drop to_copy (b ∷ buffer)) conn'

  -- The data of an open WebSocket. A round that can copy takes a byte at least.
  unfoldable pub parse_frames : List ℕ → Reader S → Result (Reader S)
  unfolding copy_loop
  parse_frames buffer conn = copy_loop (length buffer) buffer conn
