-- ===== src/Proto.antt =====
-- common/vsx-proto.c and vsx-proto.h: the payloads of the messages and the headers of their frames.
-- The variable arguments are a list: of values to write, or of types to read. A buffer to write to
-- is its size, and the result is the bytes that were written, or `none` for -1.
pub mod Numbers
pub mod RoundTrip
pub mod Command
use verda_sxtelo.Common.{
  ℕ, zero, suc, ◌+◌, ◌-◌, ◌*◌, ◌/◌, ◌%◌, ◌^◌, Bool, true, false, Option, none, some, List, [], ◌∷◌,
  ◌++◌, ◌>>=◌, ltb, leb, ◌==◌, if◌then◌else◌, take, drop, length,
}
use verda_sxtelo.Common.Int.{ℤ, pos, negsuc, sub_ℕ}
use verda_sxtelo.Memory.{memchr}
use verda_sxtelo.Utf8.{is_valid_string}
use mathlib.Core.List.{reverse}

-- `enum vsx_proto_type`, but for the one that ends the arguments.
pub data Kind : Type 0 where
  uint8 uint16 uint32 uint64 int16 blob string : Kind

-- A type with its value. A blob is its bytes; a string is its bytes without the terminator.
pub data Item : Type 0 where
  uint8_item uint16_item uint32_item uint64_item : ℕ → Item
  int16_item : ℤ → Item
  blob_item string_item : List ℕ → Item

abbrev pub kind_of : Item → Kind
kind_of (uint8_item n) = uint8
kind_of (uint16_item n) = uint16
kind_of (uint32_item n) = uint32
kind_of (uint64_item n) = uint64
kind_of (int16_item n) = int16
kind_of (blob_item b) = blob
kind_of (string_item s) = string

-- `memcpy` of a number of `k` bytes that is little-endian, whatever the machine is: the lowest byte
-- comes first. What does not fit the type is cut off.
unfoldable pub write_le : ℕ → ℕ → List ℕ
write_le zero n = []
write_le (suc k) n = n % 256 ∷ write_le k (n / 256)

unfoldable pub read_le : List ℕ → ℕ
read_le [] = 0
read_le (b ∷ bytes) = b + 256 * read_le bytes

-- The bits of an `int16_t` as a `uint16_t`, and back.
unfoldable pub to_bits : ℤ → ℕ
to_bits (pos n) = n % 2 ^ 16
to_bits (negsuc n) = 2 ^ 16 - 1 - n % 2 ^ 16

unfoldable pub of_bits : ℕ → ℤ
of_bits n = if ltb n (2 ^ 15) then pos n else negsuc (2 ^ 16 - 1 - n)

unfoldable pub item_length : Item → ℕ
item_length (uint8_item n) = 1
item_length (uint16_item n) = 2
item_length (uint32_item n) = 4
item_length (uint64_item n) = 8
item_length (int16_item n) = 2
item_length (blob_item b) = length b
item_length (string_item s) = length s + 1

-- The loop of `get_payload_length`, which starts with the message ID.
unfoldable pub items_length : ℕ → List Item → ℕ
unfolding item_length
items_length payload_length [] = payload_length
items_length payload_length (item ∷ items) = items_length (payload_length + item_length item) items

unfoldable pub get_payload_length : List Item → ℕ
unfolding items_length
get_payload_length items = items_length 1 items

unfoldable pub get_frame_header_length : ℕ → ℕ
get_frame_header_length payload_length =
    if ltb 0xffff payload_length then 2 + 8 else if leb 126 payload_length then 2 + 2 else 2

-- `VSX_SWAP_UINT...`: the bytes of a number of `k` bytes the other way round.
unfoldable pub swap_bytes : ℕ → ℕ → ℕ
unfolding read_le write_le
swap_bytes k n = read_le (reverse (write_le k n))

unfoldable pub write_frame_header : ℕ → List ℕ
unfolding write_le swap_bytes
write_frame_header payload_length =
    if ltb 0xffff payload_length
    then 0x82 ∷ 127 ∷ write_le 8 (swap_bytes 8 payload_length)
    else if leb 126 payload_length
    then 0x82 ∷ 126 ∷ write_le 2 (swap_bytes 2 payload_length)
    else 0x82 ∷ payload_length ∷ []

unfoldable pub write_item : Item → List ℕ
unfolding write_le to_bits
write_item (uint8_item n) = write_le 1 n
write_item (uint16_item n) = write_le 2 n
write_item (uint32_item n) = write_le 4 n
write_item (uint64_item n) = write_le 8 n
write_item (int16_item n) = write_le 2 (to_bits n)
write_item (blob_item b) = b
write_item (string_item s) = s ++ (0 ∷ [])

-- The loop of `vsx_proto_write_command_v`.
unfoldable pub write_items : List Item → List ℕ
unfolding write_item
write_items [] = []
write_items (item ∷ items) = write_item item ++ write_items items

unfoldable pub write_command : ℕ → ℕ → List Item → Option (List ℕ)
unfolding get_payload_length get_frame_header_length write_frame_header write_items
write_command buffer_length command items =
    let payload_length = get_payload_length items in
    if ltb buffer_length (get_frame_header_length payload_length + payload_length)
    then none
    else some (write_frame_header payload_length ++ (command % 256 ∷ write_items items))

-- A number of `k` bytes at the start of the rest of the payload.
unfoldable pub read_number : ℕ → List ℕ → Option (ℕ × List ℕ)
unfolding read_le
read_number k rest = if ltb (length rest) k then none else some (read_le (take k rest), drop k rest)

-- One argument of `vsx_proto_read_payload`, with what it leaves of the payload.
unfoldable pub read_item : Kind → List ℕ → Option (Item × List ℕ)
unfolding read_number of_bits memchr is_valid_string
read_item uint8 rest = do r ← read_number 1 rest; some (uint8_item (r.0), r.1)
read_item uint16 rest = do r ← read_number 2 rest; some (uint16_item (r.0), r.1)
read_item uint32 rest = do r ← read_number 4 rest; some (uint32_item (r.0), r.1)
read_item uint64 rest = do r ← read_number 8 rest; some (uint64_item (r.0), r.1)
read_item int16 rest = do r ← read_number 2 rest; some (int16_item (of_bits (r.0)), r.1)
read_item blob rest = some (blob_item rest, [])
read_item string rest = do
  end ← memchr rest 0
  if is_valid_string (take end rest)
      then some (string_item (take end rest), drop (end + 1) rest)
      else none

unfoldable pub read_payload : List Kind → List ℕ → Option (List Item)
unfolding read_item
read_payload [] rest = if length rest == 0 then some [] else none
read_payload (kind ∷ kinds) rest = do
  r ← read_item kind rest
  items ← read_payload kinds (r.1)
  some (r.0 ∷ items)
