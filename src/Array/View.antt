-- ===== src/Array/View.antt =====
-- What the table of kvs_array.c means: the value that a key finds, how often it occurs, and the
-- shape that the table keeps. `n` is `total`: the slots from `n` on are free.
use kv_study.Prelude.{
  ℕ, zero, suc, ◌+◌, ◌≤◌, ◌≡◌, refl, ◌⊎◌, Option, none, some, List, [], ◌∷◌, if◌then◌else◌,
  get_elem?, set, Ptr, Str, str_eq, str_eq_iff, arith,
}
use kv_study.Array.{Item}

abbrev pub value_of : Ptr → Option Str
value_of (Ptr.text v) = some v
value_of Ptr.null = none
value_of Ptr.wild = none

-- `some v` where the slot holds the key
abbrev pub hit : Str → Ptr → ℕ
hit q (Ptr.text k) = if str_eq k q then 1 else 0
hit q Ptr.null = 0
hit q Ptr.wild = 0

abbrev pub pick : Str → Ptr → Ptr → Option Str → Option Str
pick q (Ptr.text k) v rest = if str_eq k q then value_of v else rest
pick q Ptr.null v rest = rest
pick q Ptr.wild v rest = rest

unfoldable pub find : Str → List Item → Option Str
find q [] = none
find q (item ∷ items) = pick q item.key item.value (find q items)

unfoldable pub count : Str → List Item → ℕ
count q [] = 0
count q (item ∷ items) = hit q item.key + count q items

-- A slot is free, or holds a key with a value.
abbrev pub IsSlot : Ptr → Ptr → Type 0
IsSlot Ptr.null v = Unit
IsSlot (Ptr.text k) (Ptr.text v) = Unit
IsSlot (Ptr.text k) Ptr.null = ⊥
IsSlot (Ptr.text k) Ptr.wild = ⊥
IsSlot Ptr.wild v = ⊥

abbrev pub Slots : ℕ → List Item → Type 0
Slots n [] = n ≡ 0
Slots zero (item ∷ items) = (item.key ≡ Ptr.null) × Slots zero items
Slots (suc n) (item ∷ items) = IsSlot item.key item.value × Slots n items

-- A slot that an operation on the key `k` may read or write.
abbrev pub Concerns : Str → Ptr → Type 0
Concerns k p = (p ≡ Ptr.null) ⊎ (p ≡ Ptr.text k)

pub find-eq-none : (q : Str) (items : List Item) → count q items ≡ 0 → find q items ≡ none
unfolding find count
find-eq-none q [] h = refl
find-eq-none q (item ∷ items) h = ground (arith, find-eq-none q items)

pub count-ge-hit :
    (q : Str) (items : List Item) (j : ℕ) (old : Item)
    → get_elem? items j ≡ some old
    → hit q old.key ≤ count q items
unfolding count
count-ge-hit q [] j old h = ground arith
count-ge-hit q (item ∷ items) zero old h = ground arith
count-ge-hit q (item ∷ items) (suc j) old h = ground (arith, count-ge-hit q items j old)

pub count-set :
    (q : Str) (items : List Item) (j : ℕ) (old new : Item)
    → get_elem? items j ≡ some old
    → count q (set items j new) + hit q old.key ≡ count q items + hit q new.key
unfolding count
count-set q [] j old new h = ground arith
count-set q (item ∷ items) zero old new h = ground arith
count-set q (item ∷ items) (suc j) old new h = ground (arith, count-set q items j old new)

-- What a lookup finds after a write to the only slot that can hold the key `k`.
pub find-set :
    (k q : Str) (items : List Item) (j : ℕ) (old new : Item)
    → get_elem? items j ≡ some old
    → Concerns k old.key
    → Concerns k new.key
    → count k items ≤ hit k old.key
    → find q (set items j new)
      ≡ (if str_eq k q then pick k new.key new.value none else find q items)
unfolding find count
find-set k q [] j old new h c d few = ground arith
find-set k q (item ∷ items) zero old new h c d few =
    ground (arith, str_eq_iff k q, str_eq_iff k k, find-eq-none q items)
find-set k q (item ∷ items) (suc j) old new h c d few = ground (
  arith,
  str_eq_iff k q,
  str_eq_iff k k,
  find-set k q items j old new,
  count-ge-hit k items j old,
)
