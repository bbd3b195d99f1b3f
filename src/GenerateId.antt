-- ===== src/GenerateId.antt =====
-- server/vsx-generate-id.c: the number of a player or of a conversation, which others should not
-- guess. What reading /dev/urandom gives and `rand ()` are parameters. The machine is little-endian.
pub mod Distinct
use verda_sxtelo.Common.{
  ℕ, zero, suc, ◌+◌, ◌-◌, ◌*◌, ◌/◌, ◌%◌, Bool, List, [], ◌∷◌, ◌++◌, length, take, get_or, bit_xor,
  if◌then◌else◌,
}
use verda_sxtelo.Proto.{write_le, read_le}

-- `struct vsx_netaddress`, with the bytes of its fields.
pub record Address : Type 0 where
  pub is_ipv6 : Bool
  pub port : List ℕ
  pub ipv4 : List ℕ
  pub ipv6 : List ℕ

-- The loop of `xor_bytes`.
unfoldable pub xor_from : List ℕ → ℕ → List ℕ → List ℕ
xor_from bytes data_pos [] = []
xor_from bytes data_pos (b ∷ id_bytes) =
    bit_xor b (get_or bytes data_pos 0) ∷ xor_from bytes ((data_pos + 1) % length bytes) id_bytes

unfoldable pub xor_bytes : List ℕ → List ℕ → List ℕ
unfolding xor_from
xor_bytes id_bytes bytes = xor_from bytes 0 id_bytes

-- `rand ()` from the number `i` on, two bytes of each.
unfoldable pub fill_from_rand : (ℕ → ℕ) → ℕ → ℕ → List ℕ
unfolding write_le
fill_from_rand rand i zero = []
fill_from_rand rand i (suc n) = write_le 2 (rand i) ++ fill_from_rand rand (i + 1) n

-- The bytes of the number, of which `got` is what was read: eight bytes, fewer or none.
unfoldable pub random_bytes : List ℕ → (ℕ → ℕ) → List ℕ
unfolding fill_from_rand
random_bytes got rand =
    take (length got / 2 * 2) got ++ fill_from_rand rand (length got / 2) (4 - length got / 2)

-- The bytes of the client's address, mixed into the number.
unfoldable pub mix : Address → List ℕ → List ℕ
unfolding xor_bytes
mix address id_bytes =
    xor_bytes (xor_bytes id_bytes address.port)
      (if address.is_ipv6 then address.ipv6 else address.ipv4)

unfoldable pub generate_id : List ℕ → (ℕ → ℕ) → Address → ℕ
unfolding random_bytes mix read_le
generate_id got rand address = read_le (mix address (random_bytes got rand))
