-- ===== src/Server/Arguments.antt =====
-- The variables of server/vsx-connection.c that `vsx_proto_read_payload` fills.
use verda_sxtelo.Common.{ℕ, none, some, List, [], get_elem?}
use verda_sxtelo.Common.Int.{ℤ, pos}
use verda_sxtelo.Proto.{
  Item, uint8_item, uint16_item, uint32_item, uint64_item, int16_item, blob_item, string_item,
}

-- The variables that `vsx_proto_read_payload` fills, by their place among the arguments. An item
-- of another type does not come from the types that the call asks for.
unfoldable pub number_of : Item → ℕ
number_of (uint8_item n) = n
number_of (uint16_item n) = n
number_of (uint32_item n) = n
number_of (uint64_item n) = n
number_of (int16_item z) = 0
number_of (blob_item b) = 0
number_of (string_item s) = 0

unfoldable pub integer_of : Item → ℤ
integer_of (int16_item z) = z
integer_of (uint8_item n) = pos n
integer_of (uint16_item n) = pos n
integer_of (uint32_item n) = pos n
integer_of (uint64_item n) = pos n
integer_of (blob_item b) = pos 0
integer_of (string_item s) = pos 0

unfoldable pub text_of : Item → List ℕ
text_of (string_item s) = s
text_of (blob_item b) = b
text_of (uint8_item n) = []
text_of (uint16_item n) = []
text_of (uint32_item n) = []
text_of (uint64_item n) = []
text_of (int16_item z) = []

unfoldable pub number_arg : ℕ → List Item → ℕ
unfolding number_of
number_arg k items = elim (get_elem? items k) [ none ↦ 0 | some item ↦ number_of item ]

unfoldable pub integer_arg : ℕ → List Item → ℤ
unfolding integer_of
integer_arg k items = elim (get_elem? items k) [ none ↦ pos 0 | some item ↦ integer_of item ]

unfoldable pub text_arg : ℕ → List Item → List ℕ
unfolding text_of
text_arg k items = elim (get_elem? items k) [ none ↦ [] | some item ↦ text_of item ]
