-- ===== src/HashTable/Refines.antt =====
-- The table is a map from numbers to objects, through any run of operations.
use verda_sxtelo.Common.{
  ℕ, ◌+◌, ◌-◌, ◌≤◌, ◌≡◌, ◌≢◌, refl, sym, ◌∙◌, ap, subst, arith, true, false, Option, none, some,
  none-ne-some, List, [], ◌∷◌, ◌>>=◌, length, length-set, get_or, set, ◌==◌, ==_iff, ≢→==-false,
  Bool-cases, inl, inr, All, if◌then◌else◌,
}
use verda_sxtelo.HashTable.{
  Entry, HashTable, get_hash_pos, init, get_entry, add_entry, is_same_entry, unlink, remove_entry,
}
use verda_sxtelo.HashTable.Chains.{
  select, select_here, select_skip, first, at, at-set, at-replicate, InChain, Placed, Placed-set,
  Placed-get_or, Placed-replicate,
}
use verda_sxtelo.HashTable.Adding.{
  Represents, get_entry-first, put_in, take_out, add_entry-Represents,
}

some-same : {A : Type 0} {a b : A} → some a ≡ some b → a ≡ b
some-same h = cc

short : (es : List Entry) → length es ≤ 0 → es ≡ []
short [] h = refl
short (e ∷ es) h = absurd (omega arith)

other_entry : (a b : Entry) → (a.id == b.id) ≡ false → is_same_entry a b ≡ false
unfolding is_same_entry
other_entry a b e = rw e refl

skip_both :
    (key : ℕ) (x : Entry) (chain rest : List Entry)
    → select key rest ≡ select key chain
    → select key (x ∷ rest) ≡ select key (x ∷ chain)
unfolding select
skip_both key x chain rest h = rw h refl

-- What unlinking an entry leaves of its chain.
record Unlinked (chain : List Entry) (e : Entry) : Type 1 where
  rest : List Entry
  result : unlink chain e ≡ some rest
  others : (key : ℕ) → e.id ≢ key → select key rest ≡ select key chain
  gone : select e.id rest ≡ []
  kept : (P : Entry → Type 0) → All P chain → All P rest

same_entry : (a b : Entry) → a.id ≡ b.id → a.object ≡ b.object → is_same_entry a b ≡ true
unfolding is_same_entry
same_entry a b e f = rw ((==_iff a.id b.id).1 e, (==_iff a.object b.object).1 f) refl

unlink-Unlinked :
    (chain : List Entry) (e : Entry)
    → length (select e.id chain) ≤ 1
    → first (select e.id chain) ≡ some e.object
    → Unlinked chain e
unfolding unlink first select
unlink-Unlinked [] e l h = absurd (none-ne-some e.object h)
unlink-Unlinked (x ∷ chain) e l h = elim (Bool-cases (x.id == e.id)) [
  | inl t ↦
      let q : x.id ≡ e.id = (==_iff x.id e.id).0 t in
      let s = select_here e.id x chain t in
      let o : x.object ≡ e.object = some-same (sym (ap first s) ∙ h) in
      record {
        rest = chain;
        result = rw (same_entry x e q o) refl;
        others = λ key n. sym (select_skip key x chain (≢→==-false x.id key (λ p. n (sym q ∙ p))));
        gone = short (select e.id chain) (omega (arith, l, ap length s));
        kept = λ P (p, a). a;
      }
  | inr t ↦
      let s = select_skip e.id x chain t in
      let u = unlink-Unlinked chain e (omega (arith, l, ap length s)) (sym (ap first s) ∙ h) in
      record {
        rest = x ∷ u.rest;
        result = rw (other_entry x e t, u.result) refl;
        others = λ key n. skip_both key x chain u.rest (u.others key n);
        gone = select_skip e.id x u.rest t ∙ u.gone;
        kept = λ P (p, a). (p, u.kept P a);
      }
]

remove_entry-Represents :
    (t : HashTable) (e : Entry) (f : ℕ → Option ℕ)
    → Represents t f
    → f e.id ≡ some e.object
    → (t' : HashTable) × (remove_entry t e ≡ some t') × Represents t' (take_out e.id f)
unfolding remove_entry at take_out first
remove_entry-Represents t e f r here =
    let pos = get_hash_pos t.entries e.id in
    let chain = get_or t.entries pos [] in
    let u = unlink-Unlinked chain e (r.table.once e.id) (r.found e.id ∙ here) in
    (
      record { n_entries = t.n_entries - 1; entries = set t.entries pos u.rest },
      rw (u.result) refl,
      record {
        table = record {
          room = omega (arith, r.table.room, length-set t.entries pos u.rest);
          placed =
              subst (λ n. Placed n 0 (set t.entries pos u.rest))
                (sym (length-set t.entries pos u.rest))
                (Placed-set (length t.entries) 0 pos t.entries u.rest r.table.placed (
                  u.kept (InChain (length t.entries) (0 + pos))
                    (Placed-get_or (length t.entries) 0 pos t.entries r.table.placed)));
          once = λ key. elim (Bool-cases (e.id == key)) [
            | inl q ↦ rw (left u key, q) (omega arith)
            | inr q ↦ rw (left u key, q) (r.table.once key)
          ];
        };
        found = λ key. elim (Bool-cases (e.id == key)) [
          | inl q ↦ rw (left u key, q) refl
          | inr q ↦ rw (left u key, q) (r.found key)
        ];
      },
    )
  where
    left :
        (u : Unlinked (get_or t.entries (get_hash_pos t.entries e.id) []) e) (key : ℕ)
        → at key (set t.entries (get_hash_pos t.entries e.id) u.rest)
          ≡ (if e.id == key then [] else at key t.entries)
    left u key =
        at-set key e.id t.entries u.rest r.table.room (u.others key)
        ∙ (elim (Bool-cases (e.id == key)) [
          | inl q ↦ rw q (subst (λ k. select k u.rest ≡ []) ((==_iff e.id key).0 q) u.gone)
          | inr q ↦ rw q refl
        ])

-- The uses of the table.
pub data Use : Type 0 where
  insert delete : Entry → Use

unfoldable pub run : List Use → HashTable → Option HashTable
unfolding add_entry remove_entry
run [] t = some t
run (insert e ∷ uses) t = run uses (add_entry t e)
run (delete e ∷ uses) t = do t' ← remove_entry t e; run uses t'

-- What they make of a map.
unfoldable pub map_after : List Use → (ℕ → Option ℕ) → ℕ → Option ℕ
unfolding put_in take_out
map_after [] f = f
map_after (insert e ∷ uses) f = map_after uses (put_in e.id e.object f)
map_after (delete e ∷ uses) f = map_after uses (take_out e.id f)

-- Numbers that are inserted are not in use, and entries that are deleted are there.
abbrev pub IsProper : List Use → (ℕ → Option ℕ) → Type 0
IsProper [] f = Unit {0}
IsProper (insert e ∷ uses) f = (f e.id ≡ none) × IsProper uses (put_in e.id e.object f)
IsProper (delete e ∷ uses) f = (f e.id ≡ some e.object) × IsProper uses (take_out e.id f)

no_entries : ℕ → Option ℕ
no_entries key = none

run-Represents :
    (uses : List Use) (t : HashTable) (f : ℕ → Option ℕ)
    → Represents t f
    → IsProper uses f
    → (t' : HashTable) × (run uses t ≡ some t') × Represents t' (map_after uses f)
unfolding run map_after
run-Represents [] t f r p = (t, refl, r)
run-Represents (insert e ∷ uses) t f r (h, p) =
    run-Represents uses (add_entry t e) (put_in e.id e.object f) (add_entry-Represents t e f r h) p
run-Represents (delete e ∷ uses) t f r (h, p) =
    let (t', q, r') = remove_entry-Represents t e f r h in
    let (t'', q', r'') = run-Represents uses t' (take_out e.id f) r' p in (t'', rw q q', r'')

init-Represents : Represents init no_entries
unfolding init no_entries first at select
init-Represents = record {
  table = record {
    room = omega arith;
    placed = Placed-replicate 8 0 8;
    once = λ key. rw (at-replicate key 8) (omega arith);
  };
  found = λ key. ap first (at-replicate key 8);
}

-- Any run of insertions and deletions on an empty table returns, and looking up a number finds
-- what a map finds after the same insertions and deletions, however often the table has grown. A
-- number that is inserted is not in the table, and an entry that is deleted is.
pub run_refines :
    (uses : List Use)
    → IsProper uses (λ key. none)
    → (t : HashTable) × (run uses init ≡ some t)
      × ((key : ℕ) → get_entry t key ≡ map_after uses (λ key. none) key)
unfolding no_entries
run_refines uses p =
    let (t, q, r) = run-Represents uses init no_entries init-Represents p in
    (t, q, λ key. get_entry-first t key ∙ r.found key)
