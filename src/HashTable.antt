-- ===== src/HashTable.antt =====
-- common/vsx-hash-table.c and vsx-hash-table.h: the table that finds persons and conversations by
-- their numbers. The chain of a position is the list of its entries, and an entry is its number
-- with the object that it stands in, which tells apart the pointers to entries. The size is far
-- from the bounds of an `int`.
pub mod Chains
pub mod Adding
pub mod Refines
use verda_sxtelo.Common.{
  ℕ, zero, suc, ◌+◌, ◌-◌, ◌*◌, ◌/◌, ◌%◌, Bool, ◌&&◌, Option, none, some, List, [], ◌∷◌, ◌++◌, ◌>>=◌,
  length, get_or, set, replicate, ltb, ◌==◌, if◌then◌else◌,
}

-- `struct vsx_hash_table_entry`
pub record Entry : Type 0 where
  pub id : ℕ
  pub object : ℕ

-- `struct vsx_hash_table`, where `table_size` is the length of `entries`.
pub record HashTable : Type 0 where
  pub n_entries : ℕ
  pub entries : List (List Entry)

abbrev pub get_hash_pos : List (List Entry) → ℕ → ℕ
get_hash_pos entries id = id % length entries

unfoldable pub init : HashTable
init = record { n_entries = 0; entries = replicate 8 [] }

unfoldable pub add_entry_to_hash : List (List Entry) → Entry → List (List Entry)
add_entry_to_hash entries entry =
    let pos = get_hash_pos entries entry.id in set entries pos (entry ∷ get_or entries pos [])

-- The first loop of `grow_hash_table`: all the entries in one list.
unfoldable pub gather : List (List Entry) → List Entry
gather [] = []
gather (chain ∷ chains) = chain ++ gather chains

-- The second loop.
unfoldable pub add_all : List Entry → List (List Entry) → List (List Entry)
unfolding add_entry_to_hash
add_all [] entries = entries
add_all (entry ∷ list) entries = add_all list (add_entry_to_hash entries entry)

unfoldable pub grow_hash_table : HashTable → HashTable
unfolding gather add_all
grow_hash_table t = record t {
  entries = add_all (gather t.entries) (replicate (length t.entries * 2) []);
}

-- The loop of `vsx_hash_table_get`.
unfoldable pub find_in_chain : List Entry → ℕ → Option ℕ
find_in_chain [] key = none
find_in_chain (entry ∷ chain) key =
    if entry.id == key then some entry.object else find_in_chain chain key

unfoldable pub get_entry : HashTable → ℕ → Option ℕ
unfolding find_in_chain
get_entry t key = find_in_chain (get_or t.entries (get_hash_pos t.entries key) []) key

unfoldable pub add_entry : HashTable → Entry → HashTable
unfolding grow_hash_table add_entry_to_hash
add_entry t entry =
    let t' = if ltb (length t.entries * 3 / 4) (t.n_entries + 1) then grow_hash_table t else t in
    record { n_entries = t'.n_entries + 1; entries = add_entry_to_hash t'.entries entry }

-- `*prev == entry`: the same object, which has one number.
unfoldable pub is_same_entry : Entry → Entry → Bool
is_same_entry a b = (a.id == b.id) && (a.object == b.object)

-- The loop of `vsx_hash_table_remove`, whose assertion fails where the entry is not in the chain.
unfoldable pub unlink : List Entry → Entry → Option (List Entry)
unfolding is_same_entry
unlink [] entry = none
unlink (e ∷ chain) entry =
    let rest = unlink chain entry in
    if is_same_entry e entry then some chain else (do c ← rest; some (e ∷ c))

unfoldable pub remove_entry : HashTable → Entry → Option HashTable
unfolding unlink
remove_entry t entry = do
  let pos = get_hash_pos t.entries entry.id
  chain ← unlink (get_or t.entries pos []) entry
  some (record { n_entries = t.n_entries - 1; entries = set t.entries pos chain })
