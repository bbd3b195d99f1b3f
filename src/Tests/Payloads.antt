-- ===== src/Tests/Payloads.antt =====
-- A message of the protocol with a value of most types.
use verda_sxtelo.Common.{◌≡◌, refl, arith, some, List, [], ◌∷◌, ◌>>=◌, map}
use verda_sxtelo.Common.Chars.{codes}
use verda_sxtelo.Common.Int.{negsuc}
use verda_sxtelo.Utf8.{is_valid_string}
use verda_sxtelo.Proto
use verda_sxtelo.Proto.{
  Item, uint8_item, uint32_item, int16_item, blob_item, string_item, kind_of, write_command,
  read_payload,
}
use verda_sxtelo.Proto.RoundTrip.{AreItems}
use verda_sxtelo.Proto.Command.{
  Written, arguments, write_command-Written, read_payload-write_command,
}

abbrev values : List Item
values =
    string_item (codes "Zamenhof")
    ∷ uint32_item 70000
    ∷ int16_item (negsuc 4)
    ∷ uint8_item 255
    ∷ blob_item (1 ∷ 2 ∷ 3 ∷ [])
    ∷ []

values-AreItems : AreItems values
unfolding is_valid_string Proto.write_items
values-AreItems = (
  (omega arith, refl),
  tt,
  (omega arith, tt, (omega arith, tt, (omega arith, tt, (tt, refl, tt)))),
)

read_payload-write_command_example :
    (write_command 100 1 values >>= λ bytes.
    read_payload (map kind_of values) (arguments values bytes))
    ≡ some values
unfolding Proto.get_frame_header_length Proto.get_payload_length
read_payload-write_command_example =
    read_payload-write_command 100 1 values values-AreItems (omega arith)

write_command-Written_example : Written 3 values (write_command 3 1 values)
write_command-Written_example = write_command-Written 3 1 values
