-- ===== src/HashTable/Adding.antt =====
-- A table holds a map, and adding an entry puts its number in.
use verda_sxtelo.Common.{
  ℕ, ◌+◌, ◌*◌, ◌/◌, ◌≤◌, ◌<◌, ◌≡◌, refl, sym, ◌∙◌, ap, subst, arith, true, Option, none, some,
  none-ne-some, List, [], ◌∷◌, length, length-replicate, get_or, replicate, ltb, ◌==◌, ==_iff,
  Bool-cases, inl, inr, ◌⊎◌, if◌then◌else◌,
}
use verda_sxtelo.HashTable.{
  Entry, HashTable, get_hash_pos, add_entry_to_hash, gather, add_all, grow_hash_table, get_entry,
  add_entry,
}
use verda_sxtelo.HashTable.Chains.{
  select, first, find_in_chain-select, at, at-add, length-add, length-add_all, add_all_others,
  add_all_one, at-replicate, select-gather, Placed, Placed-set, Placed-get_or, Placed-replicate,
}

pub record IsTable (entries : List (List Entry)) : Type 0 where
  pub room : 0 < length entries
  pub placed : Placed (length entries) 0 entries
  pub once : (key : ℕ) → length (at key entries) ≤ 1

-- The map that a table holds.
pub record Represents (t : HashTable) (f : ℕ → Option ℕ) : Type 0 where
  pub table : IsTable t.entries
  pub found : (key : ℕ) → first (at key t.entries) ≡ f key

pub get_entry-first : (t : HashTable) (key : ℕ) → get_entry t key ≡ first (at key t.entries)
unfolding get_entry at
get_entry-first t key = find_in_chain-select key (get_or t.entries (get_hash_pos t.entries key) [])

first-none : (es : List Entry) → first es ≡ none → es ≡ []
unfolding first
first-none [] h = refl
first-none (e ∷ es) h = absurd (none-ne-some e.object (sym h))

Placed-add :
    (entries : List (List Entry)) (e : Entry)
    → Placed (length entries) 0 entries
    → Placed (length (add_entry_to_hash entries e)) 0 (add_entry_to_hash entries e)
unfolding add_entry_to_hash
Placed-add entries e p =
    subst (λ n. Placed n 0 (add_entry_to_hash entries e)) (sym (length-add entries e)) (put p)
  where
    put :
        Placed (length entries) 0 entries → Placed (length entries) 0 (add_entry_to_hash entries e)
    put p =
        Placed-set (length entries) 0 (get_hash_pos entries e.id) entries
          (e ∷ get_or entries (get_hash_pos entries e.id) []) p
          (omega arith, Placed-get_or (length entries) 0 (get_hash_pos entries e.id) entries p)

Placed-add_all :
    (list : List Entry) (entries : List (List Entry))
    → Placed (length entries) 0 entries
    → Placed (length (add_all list entries)) 0 (add_all list entries)
unfolding add_all
Placed-add_all [] entries p = p
Placed-add_all (e ∷ list) entries p =
    Placed-add_all list (add_entry_to_hash entries e) (Placed-add entries e p)

-- The chains after growing.
abbrev grown : List (List Entry) → List (List Entry)
grown entries = add_all (gather entries) (replicate (length entries * 2) [])

one_at_most : (es : List Entry) → length es ≤ 1 → (es ≡ []) ⊎ ((e : Entry) × (es ≡ e ∷ []))
one_at_most [] h = inl refl
one_at_most (e ∷ []) h = inr (e, refl)
one_at_most (e ∷ d ∷ es) h = absurd (omega arith)

gathered :
    (entries : List (List Entry)) (key : ℕ)
    → IsTable entries
    → select key (gather entries) ≡ at key entries
unfolding at
gathered entries key i =
    select-gather (length entries) 0 key (get_hash_pos entries key) entries i.placed (omega arith)

-- Growing keeps every entry.
at-grown :
    (entries : List (List Entry)) (key : ℕ)
    → IsTable entries
    → at key (grown entries) ≡ at key entries
at-grown entries key i =
    let fresh = replicate (length entries * 2) [] in
    let room : 0 < length fresh =
      omega (arith, i.room, length-replicate {A = List Entry} (length entries * 2) []) in
    elim (one_at_most (at key entries) (i.once key)) [
      | inl e ↦
          add_all_others key (gather entries) fresh room (gathered entries key i ∙ e)
          ∙ at-replicate key (length entries * 2)
          ∙ sym e
      | inr (x, e) ↦
          add_all_one key (gather entries) fresh x room (at-replicate key (length entries * 2))
            (gathered entries key i ∙ e)
          ∙ sym e
    ]

grown-IsTable : (entries : List (List Entry)) → IsTable entries → IsTable (grown entries)
grown-IsTable entries i = record {
  room = omega (
    arith,
    i.room,
    length-add_all (gather entries) (replicate (length entries * 2) []),
    length-replicate {A = List Entry} (length entries * 2) [],
  );
  placed =
      Placed-add_all (gather entries) (replicate (length entries * 2) [])
        (Placed-replicate _ 0 (length entries * 2));
  once = λ key. rw (at-grown entries key i) (i.once key);
}

unfoldable pub put_in : ℕ → ℕ → (ℕ → Option ℕ) → ℕ → Option ℕ
put_in id object f key = if id == key then some object else f key

unfoldable pub take_out : ℕ → (ℕ → Option ℕ) → ℕ → Option ℕ
take_out id f key = if id == key then none else f key

-- An entry of a new number in chains that are large enough.
put-Represents :
    (n m : ℕ) (entries : List (List Entry)) (e : Entry) (f : ℕ → Option ℕ)
    → Represents (record { n_entries = n; entries = entries }) f
    → f e.id ≡ none
    → Represents
        (record { n_entries = m; entries = add_entry_to_hash entries e })
        (put_in e.id e.object f)
unfolding put_in first
put-Represents n m entries e f r free = record {
  table = record {
    room = omega (arith, r.table.room, length-add entries e);
    placed = Placed-add entries e r.table.placed;
    once = once;
  };
  found = found;
}
  where
    empty : (key : ℕ) → (e.id == key) ≡ true → at key entries ≡ []
    empty key t =
        let q : e.id ≡ key = (==_iff e.id key).0 t in
        first-none (at key entries) (r.found key ∙ sym (ap f q) ∙ free)

    once : (key : ℕ) → length (at key (add_entry_to_hash entries e)) ≤ 1
    once key = elim (Bool-cases (e.id == key)) [
      | inl t ↦ rw (at-add key entries e r.table.room, t, empty key t) (omega arith)
      | inr t ↦ rw (at-add key entries e r.table.room, t) (r.table.once key)
    ]

    found :
        (key : ℕ)
        → first (at key (add_entry_to_hash entries e))
          ≡ (if e.id == key then some e.object else f key)
    found key = elim (Bool-cases (e.id == key)) [
      | inl t ↦ rw (at-add key entries e r.table.room, t) refl
      | inr t ↦ rw (at-add key entries e r.table.room, t) (r.found key)
    ]

pub add_entry-Represents :
    (t : HashTable) (e : Entry) (f : ℕ → Option ℕ)
    → Represents t f
    → f e.id ≡ none
    → Represents (add_entry t e) (put_in e.id e.object f)
unfolding add_entry grow_hash_table
add_entry-Represents t e f r free =
    elim (Bool-cases (ltb (length t.entries * 3 / 4) (t.n_entries + 1))) [
      | inl b ↦ rw b (
          put-Represents t.n_entries (t.n_entries + 1) (grown t.entries) e f
            (record {
              table = grown-IsTable t.entries r.table;
              found = λ key. rw (at-grown t.entries key r.table) (r.found key);
            })
            free)
      | inr b ↦ rw b (
          put-Represents t.n_entries (t.n_entries + 1) t.entries e f
            (record { table = r.table; found = r.found }) free)
    ]
