-- ===== src/Array/Scan.antt =====
-- The three scanning loops of kvs_array.c over a table of the expected shape, and writes to it.
use kv_study.Prelude.{
  ℕ, zero, suc, ◌+◌, ◌≤◌, ◌<◌, ◌≡◌, refl, ◌⊎◌, inl, inr, ap, ◌∙◌, Bool-cases, Option, none, some,
  List, [], ◌∷◌, get_elem?, length, Ptr, Str, str_eq, str_eq_iff, Run, ok, fault, arith,
}
use kv_study.Array.{Item, find_slot, find_slot_unguarded, find_hole}
use kv_study.Array.View.{find, count, hit, Slots, IsSlot}

-- The scan found the key `k`, whose value is `v`, at the slot `j`; `run` is its result.
pub record Found (items : List Item) (k : Str) (j : ℕ) (v : Str) : Type 0 where
  pub slot : get_elem? items j ≡ some (record { key = Ptr.text k; value = Ptr.text v })
  pub inside : j < length items
  pub reads : find k items ≡ some v
  pub counted : 0 < count k items

-- No key among the first `n` slots is NULL.
abbrev pub IsDense : ℕ → List Item → Type 0
IsDense zero items = Unit
IsDense (suc n) [] = Unit
IsDense (suc n) (item ∷ items) = ((q : Str) × (item.key ≡ Ptr.text q)) × IsDense n items

-- A slot is free or holds a key and a value.
pub Slot-cases :
    (item : Item)
    → IsSlot item.key item.value
    → (item.key ≡ Ptr.null)
      ⊎ ((k : Str) × (v : Str) × (item ≡ record { key = Ptr.text k; value = Ptr.text v }))
Slot-cases item s = cases item.key item.value s refl refl
  where
    cases :
        (p v : Ptr)
        → IsSlot p v
        → item.key ≡ p
        → item.value ≡ v
        → (item.key ≡ Ptr.null)
          ⊎ ((k : Str) × (v : Str) × (item ≡ record { key = Ptr.text k; value = Ptr.text v }))
    cases Ptr.null v s e f = inl e
    cases (Ptr.text k) (Ptr.text v) s e f = inr (k, v, ground arith)
    cases (Ptr.text k) Ptr.null s e f = absurd s
    cases (Ptr.text k) Ptr.wild s e f = absurd s
    cases Ptr.wild v s e f = absurd s

-- What a scan for `k` from the index `i` may come back with.
abbrev pub Scanned : Str → List Item → ℕ → ℕ → Run (Option ℕ) → Type 0
Scanned k items n i run =
    ((run ≡ ok none) × (count k items ≡ 0))
    ⊎ ((j : ℕ) × (v : Str) × (run ≡ ok (some (i + j))) × (j < n) × Found items k j v)

pub count-zero-Slots : (k : Str) (items : List Item) → Slots 0 items → count k items ≡ 0
unfolding count
count-zero-Slots k [] s = refl
count-zero-Slots k (item ∷ items) s = ground (arith, count-zero-Slots k items)

-- A slot with another key, or none, is passed over.
Scanned-later :
    (k : Str) (item : Item) (items : List Item) (n i : ℕ) (run run' : Run (Option ℕ))
    → run' ≡ run
    → hit k item.key ≡ 0
    → find k (item ∷ items) ≡ find k items
    → Scanned k items n (i + 1) run
    → Scanned k (item ∷ items) (suc n) i run'
unfolding count
Scanned-later k item items n i run run' e miss same (inl (r, c)) = inl (e ∙ r, ground arith)
Scanned-later k item items n i run run' e miss same (inr (j, v, r, lt, f)) = inr (
  suc j,
  v,
  e ∙ r ∙ ap (λ m. ok (some m)) (omega arith),
  omega arith,
  record {
    slot = f.slot;
    inside = omega arith;
    reads = ground (arith, f.reads);
    counted = ground (arith, f.counted);
  },
)

-- The guarded scan never faults: it finds the key, or the table does not have it.
pub find_slot_lem :
    (k : Str) (items : List Item) (n i : ℕ)
    → Slots n items
    → Scanned k items n i (find_slot items n i k)
unfolding find_slot find count
find_slot_lem k items zero i s = inl (refl, count-zero-Slots k items s)
find_slot_lem k [] (suc n) i s = absurd (omega arith)
find_slot_lem k (item ∷ items) (suc n) i s =
    let later = Scanned-later k item items n i (find_slot items n (i + 1) k) _ in
    let rest = find_slot_lem k items n (i + 1) s.1 in
    elim (Slot-cases item s.0) [
      | inl free ↦ later (ground arith) (ground arith) (ground arith) rest
      | inr (q, v, e) ↦ elim (Bool-cases (str_eq q k)) [
        | inl same ↦ inr (
          0,
          v,
          ground arith,
          omega arith,
          record {
            slot = ground (arith, str_eq_iff q k);
            inside = omega arith;
            reads = ground arith;
            counted = ground arith;
          },
        )
        | inr other ↦ later (ground arith) (ground arith) (ground arith) rest
      ]
    ]

-- Where no key before the match is NULL, the unguarded scan of `kvs_array_del` does the same.
pub find_slot_unguarded_lem :
    (k : Str) (items : List Item) (n i : ℕ)
    → Slots n items
    → IsDense n items
    → find_slot_unguarded items n i k ≡ find_slot items n i k
unfolding find_slot find_slot_unguarded
find_slot_unguarded_lem k items zero i s d = refl
find_slot_unguarded_lem k [] (suc n) i s d = refl
find_slot_unguarded_lem k (item ∷ items) (suc n) i s ((q, e), d) =
    ground (arith, find_slot_unguarded_lem k items n (i + 1) s.1 d)

-- A NULL key at the slot `j`, with no match before it, makes `kvs_array_del` read through NULL.
pub find_slot_unguarded-fault :
    (k : Str) (items : List Item) (n i j : ℕ) (hole : Item)
    → j < n
    → get_elem? items j ≡ some hole
    → hole.key ≡ Ptr.null
    → count k items ≡ 0
    → find_slot_unguarded items n i k ≡ fault
unfolding find_slot_unguarded count
find_slot_unguarded-fault k items zero i j hole lt h e c = absurd (omega arith)
find_slot_unguarded-fault k [] (suc n) i j hole lt h e c = refl
find_slot_unguarded-fault k (item ∷ items) (suc n) i zero hole lt h e c = ground arith
find_slot_unguarded-fault k (item ∷ items) (suc n) i (suc j) hole lt h e c =
    ground (arith, find_slot_unguarded-fault k items n (i + 1) j hole)

-- The first free slot, where the table has room behind `total`.
pub find_hole_lem :
    (items : List Item) (n i : ℕ)
    → Slots n items
    → n < length items
    → (j : ℕ) × (hole : Item) × (find_hole items n i ≡ ok (i + j))
      × (j ≤ n)
      × (get_elem? items j ≡ some hole)
      × (hole.key ≡ Ptr.null)
unfolding find_hole
find_hole_lem [] n i s room = absurd (omega arith)
find_hole_lem (item ∷ items) zero i s room = (0, item, ground arith, omega arith, refl, s.0)
find_hole_lem (item ∷ items) (suc n) i s room = elim (Slot-cases item s.0) [
  | inl free ↦ (0, item, ground arith, omega arith, refl, free)
  | inr (q, v, e) ↦
      let (j, hole, r, le, at, null) = find_hole_lem items n (i + 1) s.1 (omega arith) in
      (suc j, hole, rw (e, find_hole) (r ∙ ap ok (omega arith)), omega arith, at, null)
]
