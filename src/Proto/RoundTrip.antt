-- ===== src/Proto/RoundTrip.antt =====
-- A payload that was written is read again, and a command fills the bytes that it claims.
use verda_sxtelo.Common.{
  ℕ, suc, ◌+◌, ◌^◌, ◌<◌, ◌≡◌, ◌≢◌, refl, ap, ◌∙◌, arith, true, some, List, [], ◌∷◌, ◌++◌, map, All,
  length, drop, take-append, ≢→==-false,
}
use verda_sxtelo.Common.Int.{IsInt16}
use verda_sxtelo.Memory.{memchr, memchr_here, memchr_next}
use verda_sxtelo.Utf8.{is_valid_string}
use verda_sxtelo.Proto.{
  Item, uint8_item, uint16_item, uint32_item, uint64_item, int16_item, blob_item, string_item,
  kind_of, to_bits, write_item, write_items, read_item, read_payload,
}
use verda_sxtelo.Proto.Numbers.{read_number-write_le, of_bits-to_bits, to_bits_bound}
use mathlib.Core.List.{append_assoc, append-nil}

-- A value that fits its type. The bytes of a string are valid UTF-8 without a zero.
abbrev pub IsItem : Item → Type 0
IsItem (uint8_item n) = n < 2 ^ 8
IsItem (uint16_item n) = n < 2 ^ 16
IsItem (uint32_item n) = n < 2 ^ 32
IsItem (uint64_item n) = n < 2 ^ 64
IsItem (int16_item n) = IsInt16 n
IsItem (blob_item b) = Unit {0}
IsItem (string_item s) = All (λ b. b ≢ 0) s × (is_valid_string s ≡ true)

-- Only the last value can be a blob, since it takes the whole rest.
abbrev IsLast : Item → List ℕ → Type 0
IsLast (blob_item b) rest = rest ≡ []
IsLast _ rest = Unit {0}

abbrev pub AreItems : List Item → Type 0
AreItems [] = Unit {0}
AreItems (item ∷ items) = IsItem item × IsLast item (write_items items) × AreItems items

memchr-append :
    (s rest : List ℕ) → All (λ b. b ≢ 0) s → memchr (s ++ (0 ∷ rest)) 0 ≡ some (length s)
memchr-append [] rest a = memchr_here 0 rest 0 refl
memchr-append (b ∷ s) rest (h, a) =
    memchr_next b (s ++ (0 ∷ rest)) 0 (length s) (≢→==-false b 0 h) (memchr-append s rest a)
    ∙ ap some (omega arith)

pub drop_next : (s : List ℕ) (b : ℕ) (rest : List ℕ) → drop (length s + 1) (s ++ (b ∷ rest)) ≡ rest
drop_next [] b rest = refl
drop_next (c ∷ s) b rest =
    let e : suc (length s) + 1 ≡ suc (length s + 1) = omega arith in rw e (drop_next s b rest)

read_item-write_item :
    (item : Item) (rest : List ℕ)
    → IsItem item
    → IsLast item rest
    → read_item (kind_of item) (write_item item ++ rest) ≡ some (item, rest)
unfolding read_item write_item
read_item-write_item (uint8_item n) rest h l = rw (read_number-write_le 1 n rest h) refl
read_item-write_item (uint16_item n) rest h l = rw (read_number-write_le 2 n rest h) refl
read_item-write_item (uint32_item n) rest h l = rw (read_number-write_le 4 n rest h) refl
read_item-write_item (uint64_item n) rest h l = rw (read_number-write_le 8 n rest h) refl
read_item-write_item (int16_item n) rest h l =
    rw (read_number-write_le 2 (to_bits n) rest (to_bits_bound n), of_bits-to_bits n h) refl
read_item-write_item (blob_item b) rest h l = rw (l, append-nil b) refl
read_item-write_item (string_item s) rest (z, v) l =
    rw
      (
        append_assoc s (0 ∷ []) rest,
        memchr-append s rest z,
        take-append s (0 ∷ rest),
        v,
        drop_next s 0 rest,
      )
      refl

pub read_payload-write_items :
    (items : List Item)
    → AreItems items
    → read_payload (map kind_of items) (write_items items) ≡ some items
unfolding read_payload write_items
read_payload-write_items [] a = refl
read_payload-write_items (item ∷ items) (h, l, a) =
    rw (read_item-write_item item (write_items items) h l, read_payload-write_items items a) refl
