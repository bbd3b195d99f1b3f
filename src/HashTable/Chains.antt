-- ===== src/HashTable/Chains.antt =====
-- The entries of one number in the chains of the table, and what adding and growing does to them.
use verda_sxtelo.Common.{
  append-nil, ℕ, zero, suc, ◌+◌, ◌%◌, ◌<◌, ◌≡◌, ◌≢◌, refl, sym, ◌∙◌, ap, subst, arith, true, false,
  Option, none, some, List, [], ◌∷◌, ◌++◌, length, length-set, get_or, set, replicate, ◌==◌, ==_iff,
  ==-false, ≢→==-false, Bool-cases, inl, inr, All, if◌then◌else◌,
}
use native.Mathlib.Decide.{ℕ_discrete}
use native.Mathlib.Nat.{mod-lt}
use verda_sxtelo.HashTable.{Entry, get_hash_pos, add_entry_to_hash, gather, add_all, find_in_chain}

-- The entries of a number.
unfoldable pub select : ℕ → List Entry → List Entry
select key [] = []
select key (e ∷ es) = if e.id == key then e ∷ select key es else select key es

pub select-append :
    (key : ℕ) (xs ys : List Entry) → select key (xs ++ ys) ≡ select key xs ++ select key ys
unfolding select
select-append key [] ys = refl
select-append key (x ∷ xs) ys = elim (Bool-cases (x.id == key)) [
  | inl e ↦ rw e (ap (◌∷◌ x) (select-append key xs ys))
  | inr e ↦ rw e (select-append key xs ys)
]

pub select_here :
    (key : ℕ) (e : Entry) (es : List Entry)
    → (e.id == key) ≡ true
    → select key (e ∷ es) ≡ e ∷ select key es
unfolding select
select_here key e es t = rw t refl

pub select_skip :
    (key : ℕ) (e : Entry) (es : List Entry)
    → (e.id == key) ≡ false
    → select key (e ∷ es) ≡ select key es
unfolding select
select_skip key e es t = rw t refl

pub cons-ne-nil {ℓ} : {A : Type ℓ} (x : A) (xs : List A) → x ∷ xs ≢ []
cons-ne-nil x xs h = cc

cons_same {ℓ} : {A : Type ℓ} {x y : A} {xs ys : List A} → x ∷ xs ≡ y ∷ ys → (x ≡ y) × (xs ≡ ys)
cons_same h = (cc, cc)

unfoldable pub first : List Entry → Option ℕ
first [] = none
first (e ∷ es) = some e.object

pub find_in_chain-select :
    (key : ℕ) (es : List Entry) → find_in_chain es key ≡ first (select key es)
unfolding find_in_chain first select
find_in_chain-select key [] = refl
find_in_chain-select key (e ∷ es) = elim (Bool-cases (e.id == key)) [
  | inl t ↦ rw t refl
  | inr t ↦ rw t (find_in_chain-select key es)
]

-- The entries of a number in its chain.
unfoldable pub at : ℕ → List (List Entry) → List Entry
at key entries = select key (get_or entries (get_hash_pos entries key) [])

get_or-set {ℓ} :
    {A : Type ℓ} (xs : List A) (i : ℕ) (a d : A) → i < length xs → get_or (set xs i a) i d ≡ a
get_or-set [] i a d h = absurd (omega arith)
get_or-set (x ∷ xs) zero a d h = refl
get_or-set (x ∷ xs) (suc i) a d h = get_or-set xs i a d (omega arith)

get_or-set_ne {ℓ} :
    {A : Type ℓ} (xs : List A) (i j : ℕ) (a d : A) → i ≢ j → get_or (set xs i a) j d ≡ get_or xs j d
get_or-set_ne [] i j a d h = refl
get_or-set_ne (x ∷ xs) zero zero a d h = absurd (h refl)
get_or-set_ne (x ∷ xs) zero (suc j) a d h = refl
get_or-set_ne (x ∷ xs) (suc i) zero a d h = refl
get_or-set_ne (x ∷ xs) (suc i) (suc j) a d h = get_or-set_ne xs i j a d (λ e. h (ap suc e))

-- What a change of one chain does to the entries of a number.
pub at-set :
    (key id : ℕ) (entries : List (List Entry)) (chain : List Entry)
    → 0 < length entries
    → (id ≢ key → select key chain ≡ select key (get_or entries (get_hash_pos entries id) []))
    → at key (set entries (get_hash_pos entries id) chain)
      ≡ (if id == key then select key chain else at key entries)
unfolding at
at-set key id entries chain h same =
    let pos = get_hash_pos entries id in
    let lt = mod-lt id h in
    elim (Bool-cases (id == key)) [
      | inl e ↦
          let q : id ≡ key = (==_iff id key).0 e in
          rw (e, length-set entries pos chain, ← q)
            (ap (select id) (get_or-set entries pos chain [] lt))
      | inr e ↦ elim (ℕ_discrete pos (get_hash_pos entries key)) [
        | yes p ↦
            rw (e, length-set entries pos chain, ← p)
              (ap (select key) (get_or-set entries pos chain [] lt)
                ∙ same (==-false id key e)
                ∙ rw p refl)
        | no n ↦
            rw (e, length-set entries pos chain)
              (ap (select key) (get_or-set_ne entries pos (get_hash_pos entries key) chain [] n))
      ]
    ]

pub at-add :
    (key : ℕ) (entries : List (List Entry)) (e : Entry)
    → 0 < length entries
    → at key (add_entry_to_hash entries e)
      ≡ (if e.id == key then e ∷ at key entries else at key entries)
unfolding add_entry_to_hash select at
at-add key entries e h =
    let chain = e ∷ get_or entries (get_hash_pos entries e.id) [] in
    at-set key e.id entries chain h (λ n. rw (select, ≢→==-false e.id key n) refl) ∙ chosen
  where
    chosen :
        (if e.id == key
          then select key (e ∷ get_or entries (get_hash_pos entries e.id) [])
          else at key entries)
        ≡ (if e.id == key then e ∷ at key entries else at key entries)
    chosen = elim (Bool-cases (e.id == key)) [
      | inl t ↦ let q : e.id ≡ key = (==_iff e.id key).0 t in rw (t, select, ← q) refl
      | inr t ↦ rw t refl
    ]

pub length-add :
    (entries : List (List Entry)) (e : Entry)
    → length (add_entry_to_hash entries e) ≡ length entries
unfolding add_entry_to_hash
length-add entries e = length-set entries _ _

pub length-add_all :
    (list : List Entry) (entries : List (List Entry))
    → length (add_all list entries) ≡ length entries
unfolding add_all
length-add_all [] entries = refl
length-add_all (e ∷ list) entries =
    length-add_all list (add_entry_to_hash entries e) ∙ length-add entries e

-- Entries of other numbers change nothing.
pub add_all_others :
    (key : ℕ) (list : List Entry) (entries : List (List Entry))
    → 0 < length entries
    → select key list ≡ []
    → at key (add_all list entries) ≡ at key entries
unfolding add_all select
add_all_others key [] entries h s = refl
add_all_others key (e ∷ list) entries h s = elim (Bool-cases (e.id == key)) [
  | inl t ↦ absurd (cons-ne-nil e (select key list) (sym (select_here key e list t) ∙ s))
  | inr t ↦
      add_all_others key list (add_entry_to_hash entries e) (omega (arith, length-add entries e))
        (sym (select_skip key e list t) ∙ s)
      ∙ at-add key entries e h
      ∙ rw t refl
]

-- The only entry of a number is found again.
pub add_all_one :
    (key : ℕ) (list : List Entry) (entries : List (List Entry)) (e : Entry)
    → 0 < length entries
    → at key entries ≡ []
    → select key list ≡ e ∷ []
    → at key (add_all list entries) ≡ e ∷ []
unfolding add_all select
add_all_one key [] entries e h a s = absurd (cons-ne-nil e [] (sym s))
add_all_one key (x ∷ list) entries e h a s =
    let l : 0 < length (add_entry_to_hash entries x) = omega (arith, length-add entries x) in
    elim (Bool-cases (x.id == key)) [
      | inl t ↦
          let (same, rest) = cons_same (sym (select_here key x list t) ∙ s) in
          add_all_others key list (add_entry_to_hash entries x) l rest
          ∙ at-add key entries x h
          ∙ rw (t, a) (ap (λ y. y ∷ []) same)
      | inr t ↦
          add_all_one key list (add_entry_to_hash entries x) e l (at-add key entries x h ∙ rw t a)
            (sym (select_skip key x list t) ∙ s)
    ]

pub at-replicate : (key n : ℕ) → at key (replicate n []) ≡ []
unfolding at select
at-replicate key n = ap (select key) (none_there n (get_hash_pos (replicate n []) key))
  where
    none_there : (n i : ℕ) → get_or {A = List Entry} (replicate n []) i [] ≡ []
    none_there zero i = refl
    none_there (suc n) zero = refl
    none_there (suc n) (suc i) = none_there n i

-- Every entry is in the chain of its number.
abbrev pub InChain : ℕ → ℕ → Entry → Type 0
InChain n i e = e.id % n ≡ i

abbrev pub Placed : ℕ → ℕ → List (List Entry) → Type 0
Placed n i [] = Unit {0}
Placed n i (chain ∷ chains) = All (InChain n i) chain × Placed n (suc i) chains

select_elsewhere :
    (n i key : ℕ) (es : List Entry) → All (InChain n i) es → key % n ≢ i → select key es ≡ []
unfolding select
select_elsewhere n i key [] a ne = refl
select_elsewhere n i key (e ∷ es) (h, a) ne = elim (Bool-cases (e.id == key)) [
  | inl t ↦ let q : e.id ≡ key = (==_iff e.id key).0 t in absurd (ne (sym (ap (λ k. k % n) q) ∙ h))
  | inr t ↦ select_skip key e es t ∙ select_elsewhere n i key es a ne
]

gather_elsewhere :
    (n i key : ℕ) (chains : List (List Entry))
    → Placed n i chains
    → key % n < i
    → select key (gather chains) ≡ []
unfolding gather select
gather_elsewhere n i key [] p h = refl
gather_elsewhere n i key (chain ∷ chains) (a, p) h =
    select-append key chain (gather chains)
    ∙ rw
        (
          select_elsewhere n i key chain a (λ e. absurd (omega arith)),
          gather_elsewhere n (suc i) key chains p (omega arith),
        )
        refl

-- Gathering keeps the entries of a number.
pub select-gather :
    (n i key j : ℕ) (chains : List (List Entry))
    → Placed n i chains
    → key % n ≡ i + j
    → select key (gather chains) ≡ select key (get_or chains j [])
unfolding gather select
select-gather n i key j [] p e = refl
select-gather n i key zero (chain ∷ chains) (a, p) e =
    select-append key chain (gather chains)
    ∙ ap (λ s. select key chain ++ s) (gather_elsewhere n (suc i) key chains p (omega arith))
    ∙ append-nil (select key chain)
select-gather n i key (suc j) (chain ∷ chains) (a, p) e =
    select-append key chain (gather chains)
    ∙ rw (select_elsewhere n i key chain a (λ q. absurd (omega arith)))
        (select-gather n (suc i) key j chains p (omega arith))

pub Placed-set :
    (n i j : ℕ) (chains : List (List Entry)) (chain : List Entry)
    → Placed n i chains
    → All (InChain n (i + j)) chain
    → Placed n i (set chains j chain)
Placed-set n i j [] chain p a = tt
Placed-set n i zero (c ∷ chains) chain (h, p) a =
    (subst (λ k. All (InChain n k) chain) (omega arith) a, p)
Placed-set n i (suc j) (c ∷ chains) chain (h, p) a =
    let e : i + suc j ≡ suc i + j = omega arith in
    (h, Placed-set n (suc i) j chains chain p (subst (λ k. All (InChain n k) chain) e a))

pub Placed-get_or :
    (n i j : ℕ) (chains : List (List Entry))
    → Placed n i chains
    → All (InChain n (i + j)) (get_or chains j [])
Placed-get_or n i j [] p = tt
Placed-get_or n i zero (c ∷ chains) (h, p) = subst (λ k. All (InChain n k) c) (omega arith) h
Placed-get_or n i (suc j) (c ∷ chains) (h, p) =
    let e : suc i + j ≡ i + suc j = omega arith in
    subst (λ k. All (InChain n k) (get_or chains j [])) e (Placed-get_or n (suc i) j chains p)

pub Placed-replicate : (n i k : ℕ) → Placed n i (replicate k [])
Placed-replicate n i zero = tt
Placed-replicate n i (suc k) = (tt, Placed-replicate n (suc i) k)
