-- ===== src/Proto/Command.antt =====
-- A command fills exactly the bytes that it counted, and its payload can be read again.
use verda_sxtelo.Common.{
  ltb-false→le, lt→ltb, lt→ltb-false, ltb→lt, ◌%◌, ◌>>=◌, ℕ, suc, ◌+◌, ◌<◌, ◌≤◌, ◌≡◌, refl, sym,
  arith, Option, some, none, none-ne-some, ◌∙◌, List, [], ◌∷◌, ◌++◌, map, length, length-append,
  drop, ltb, Bool-cases, inl, inr,
}
use verda_sxtelo.Proto.{
  Item, uint8_item, uint16_item, uint32_item, uint64_item, int16_item, blob_item, string_item,
  kind_of, to_bits, item_length, items_length, get_payload_length, get_frame_header_length,
  write_frame_header, write_item, write_items, write_command, swap_bytes, read_payload,
}
use verda_sxtelo.Proto.Numbers.{length-write_le}
use verda_sxtelo.Proto.RoundTrip.{AreItems, drop_next, read_payload-write_items}

length-write_item : (item : Item) → length (write_item item) ≡ item_length item
unfolding write_item item_length
length-write_item (uint8_item n) = length-write_le 1 n
length-write_item (uint16_item n) = length-write_le 2 n
length-write_item (uint32_item n) = length-write_le 4 n
length-write_item (uint64_item n) = length-write_le 8 n
length-write_item (int16_item n) = length-write_le 2 (to_bits n)
length-write_item (blob_item b) = refl
length-write_item (string_item s) = length-append s (0 ∷ [])

length-write_items :
    (k : ℕ) (items : List Item) → items_length k items ≡ k + length (write_items items)
unfolding items_length write_items
length-write_items k [] = omega arith
length-write_items k (item ∷ items) = omega (
  length-write_items (k + item_length item) items,
  length-append (write_item item) (write_items items),
  length-write_item item,
  arith,
)

-- The frame that the values need.
abbrev pub frame_length : List Item → ℕ
frame_length items = get_frame_header_length (get_payload_length items) + get_payload_length items

payload_length_lem :
    (items : List Item) → get_payload_length items ≡ suc (length (write_items items))
unfolding get_payload_length
payload_length_lem items = omega (length-write_items 1 items, arith)

pub length-write_frame_header : (n : ℕ) → length (write_frame_header n) ≡ get_frame_header_length n
unfolding write_frame_header get_frame_header_length
length-write_frame_header n =
    ground (arith, length-write_le 8 (swap_bytes 8 n), length-write_le 2 (swap_bytes 2 n))

-- What a call returns: the buffer is too small for the frame, or the frame is written, which fits.
abbrev pub Written : ℕ → List Item → Option (List ℕ) → Type 0
Written size items none = size < frame_length items
Written size items (some bytes) = (length bytes ≡ frame_length items) × (length bytes ≤ size)

abbrev frame : ℕ → List Item → List ℕ
frame command items =
    write_frame_header (get_payload_length items) ++ (command % 256 ∷ write_items items)

length-frame : (command : ℕ) (items : List Item) → length (frame command items) ≡ frame_length items
length-frame command items = omega (
  length-append (write_frame_header (get_payload_length items)) (command % 256 ∷ write_items items),
  length-write_frame_header (get_payload_length items),
  payload_length_lem items,
  arith,
)

write_command-small :
    (size command : ℕ) (items : List Item)
    → size < frame_length items
    → write_command size command items ≡ none
unfolding write_command
write_command-small size command items h = rw (lt→ltb size (frame_length items) h) refl

write_command-fits :
    (size command : ℕ) (items : List Item)
    → frame_length items ≤ size
    → write_command size command items ≡ some (frame command items)
unfolding write_command
write_command-fits size command items h =
    rw (lt→ltb-false size (frame_length items) (omega (arith, h))) refl

-- A command that is refused would be written to a larger buffer, and is longer than this one.
pub write_command-none :
    (size command : ℕ) (items : List Item)
    → write_command size command items ≡ none
    → (bytes : List ℕ) × (write_command (frame_length items) command items ≡ some bytes)
      × (size < length bytes)
write_command-none size command items e = elim (Bool-cases (ltb size (frame_length items))) [
  | inl t ↦ (
    frame command items,
    write_command-fits (frame_length items) command items (omega arith),
    omega (arith, length-frame command items, ltb→lt size (frame_length items) t),
  )
  | inr t ↦ absurd (
      none-ne-some (frame command items)
        (sym e ∙ write_command-fits size command items (ltb-false→le size (frame_length items) t)))
]

-- A command is refused where the buffer is smaller than its frame, and else as many bytes are
-- written as were counted for the header and the payload, which is what the code asserts, and no
-- more than the buffer has.
pub write_command-Written :
    (size command : ℕ) (items : List Item) → Written size items (write_command size command items)
write_command-Written size command items = elim (Bool-cases (ltb size (frame_length items))) [
  | inl e ↦
      let h = ltb→lt size (frame_length items) e in rw (write_command-small size command items h) h
  | inr e ↦
      let h = ltb-false→le size (frame_length items) e in
      rw (write_command-fits size command items h)
        (length-frame command items, omega (length-frame command items, h, arith))
]

-- The bytes of a frame behind its header and the message ID.
abbrev pub arguments : List Item → List ℕ → List ℕ
arguments items bytes = drop (get_frame_header_length (get_payload_length items) + 1) bytes

arguments-frame :
    (command : ℕ) (items : List Item) → arguments items (frame command items) ≡ write_items items
arguments-frame command items =
    let n = get_payload_length items in
    rw (sym (length-write_frame_header n))
      (drop_next (write_frame_header n) (command % 256) (write_items items))

-- Where the frame fits the buffer, the values of a command that was written are read again from
-- behind the frame's header and the message ID. Each value fits its type, a string is valid UTF-8
-- without a zero byte, and nothing is written behind a blob.
pub read_payload-write_command :
    (size command : ℕ) (items : List Item)
    → AreItems items
    → frame_length items ≤ size
    → (write_command size command items >>= λ bytes.
        read_payload (map kind_of items) (arguments items bytes))
      ≡ some items
read_payload-write_command size command items a fits =
    rw (write_command-fits size command items fits, arguments-frame command items)
      (read_payload-write_items items a)
