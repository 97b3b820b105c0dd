-- ===== src/Array.antt =====
-- kvs_array.c: a table of 1024 slots scanned linearly, under one mutex. `kvs_array_t` is the record
-- `KvsArray`; its `idx`, which nothing reads, is left out. Every caller passes the address of
-- `global_array`, so `inst` is a value and the tests `inst == NULL` have no counterpart. A NULL
-- `table` is the empty list. A string argument that may be NULL is an `Option`. Whether a call of
-- `kvs_malloc` succeeds is an argument of the operation that makes it.
pub mod View
pub mod Scan
mod Slots
pub mod Methods
pub mod Delete
pub mod Calls
use mathlib.Core.List.{map}
use kv_study.Prelude.{
  ℕ, zero, suc, ◌+◌, ◌-◌, Bool, true, false, Option, none, some, List, [], ◌∷◌, ◌==◌, ltb, ◌||◌,
  not, if◌then◌else◌, get_elem?, set, length, ℤ, pos, negsuc, Ptr, Str, str_eq, Run, ok, fault,
  deadlock, ◌>>=◌,
}

abbrev pub array_size : ℕ
array_size = 1024

pub record Item : Type 0 where
  pub key : Ptr
  pub value : Ptr

pub record KvsArray : Type 0 where
  pub table : List Item
  pub total : ℕ
  pub locked : Bool

-- `pthread_mutex_lock`, of a mutex that is not recursive
unfoldable pub lock : KvsArray → Run KvsArray
lock a = if a.locked then deadlock else ok (record a { locked = true })

abbrev pub unlock : KvsArray → KvsArray
unlock a = record a { locked = false }

-- `memory` is what the allocated table holds, `none` where the allocation failed.
unfoldable pub kvs_array_create : Option (List Item) → KvsArray → KvsArray × ℤ
kvs_array_create memory a = elim a.table [
  | item ∷ rest ↦ (a, negsuc 0)
  | [] ↦ elim memory [
    | none ↦ (a, negsuc 0)
    | some items ↦ (record { table = items; total = 0; locked = false }, pos 0)
  ]
]

abbrev wild_item : Item
wild_item = record { key = Ptr.wild; value = Ptr.wild }

-- The table is freed and the pointer to it is kept.
unfoldable pub kvs_array_destory : KvsArray → KvsArray
kvs_array_destory a = record a { table = map (λ _. wild_item) a.table }

-- `for (i = 0; i < total; i++) if (table[i].key && strcmp (table[i].key, key) == 0)`:
-- the index of the match, counted from `i`.
unfoldable pub find_slot : List Item → ℕ → ℕ → Str → Run (Option ℕ)
find_slot items zero i key = ok none
find_slot [] (suc n) i key = fault
find_slot (item ∷ items) (suc n) i key = elim item.key [
  | Ptr.null ↦ find_slot items n (i + 1) key
  | Ptr.wild ↦ fault
  | Ptr.text k ↦ if str_eq k key then ok (some i) else find_slot items n (i + 1) key
]

-- The loop of `kvs_array_del` compares without the test for a NULL key.
unfoldable pub find_slot_unguarded : List Item → ℕ → ℕ → Str → Run (Option ℕ)
find_slot_unguarded items zero i key = ok none
find_slot_unguarded [] (suc n) i key = fault
find_slot_unguarded (item ∷ items) (suc n) i key = elim item.key [
  | Ptr.null ↦ fault
  | Ptr.wild ↦ fault
  | Ptr.text k ↦ if str_eq k key then ok (some i) else find_slot_unguarded items n (i + 1) key
]

-- `for (i = 0; i < total; i++) if (table[i].key == NULL)`: the first such index, or `total`.
unfoldable pub find_hole : List Item → ℕ → ℕ → Run ℕ
find_hole items zero i = ok i
find_hole [] (suc n) i = fault
find_hole (item ∷ items) (suc n) i = elim item.key [
  | Ptr.null ↦ ok i
  | _ ↦ find_hole items n (i + 1)
]

-- A write out of bounds is undefined.
unfoldable pub write_item : List Item → ℕ → Item → Run (List Item)
write_item items i item = elim (get_elem? items i) [
  | none ↦ fault
  | some old ↦ ok (set items i item)
]

unfoldable pub read_item : List Item → ℕ → Run Item
read_item items i = elim (get_elem? items i) [ none ↦ fault | some item ↦ ok item ]

-- The body of `kvs_array_set` after the key was not found and both copies were made.
unfoldable pub insert_copy : KvsArray → Str → Str → Run (KvsArray × ℤ)
unfolding find_hole write_item
insert_copy a key value = do
  i ← find_hole a.table a.total 0
  if not (ltb i a.total || ltb i array_size) then ok (unlock a, pos 0) else do
    items ← write_item a.table i (record { key = Ptr.text key; value = Ptr.text value })
    ok (unlock (record a { table = items; total = a.total + 1 }), pos 0)

-- `kcopy` and `kvalue` say whether the two allocations succeed.
unfoldable pub set_present : Bool → Bool → KvsArray → Str → Str → Run (KvsArray × ℤ)
unfolding find_slot insert_copy
set_present kcopy kvalue a key value = if a.total == array_size then ok (unlock a, negsuc 0) else do
  found ← find_slot a.table a.total 0 key
  elim found [
    | some i ↦ ok (unlock a, pos 1)
    | none ↦
        if kcopy
        then (if kvalue then insert_copy a key value else ok (unlock a, negsuc 1))
        else ok (unlock a, negsuc 1)
  ]

unfoldable pub kvs_array_set : Bool → Bool → KvsArray → Option Str → Option Str → Run (KvsArray × ℤ)
unfolding lock set_present
kvs_array_set kcopy kvalue a key value = do
  held ← lock a
  elim key [
    | none ↦ ok (unlock held, negsuc 0)
    | some k ↦ elim value [
      | none ↦ ok (unlock held, negsuc 0)
      | some v ↦ set_present kcopy kvalue held k v
    ]
  ]

-- The result is a pointer into the table. With a NULL key the mutex stays locked.
unfoldable pub kvs_array_get : KvsArray → Option Str → Run (KvsArray × Ptr)
unfolding lock find_slot read_item
kvs_array_get a key = do
  held ← lock a
  elim key [
    | none ↦ ok (held, Ptr.null)
    | some k ↦ do
      found ← find_slot held.table held.total 0 k
      elim found [
        | none ↦ ok (unlock held, Ptr.null)
        | some i ↦ do item ← read_item held.table i; ok (unlock held, item.value)
      ]
  ]

-- `if (total - 1 == i) total--`
unfoldable pub drop_last : ℕ → ℕ → ℕ
drop_last total i = if total - 1 == i then total - 1 else total

unfoldable pub kvs_array_del : KvsArray → Option Str → Run (KvsArray × ℤ)
unfolding lock find_slot_unguarded write_item drop_last
kvs_array_del a key = do
  held ← lock a
  elim key [
    | none ↦ ok (held, negsuc 0)
    | some k ↦ do
      found ← find_slot_unguarded held.table held.total 0 k
      elim found [
        | none ↦ ok (unlock held, pos held.total)
        | some i ↦ do
          items ← write_item held.table i (record { key = Ptr.null; value = Ptr.null })
          ok (unlock (record held { table = items; total = drop_last held.total i }), pos 0)
      ]
  ]

-- `kvalue` says whether the allocation of the new copy succeeds. The old value is freed before,
-- and a failure leaves the slot with a pointer to it.
unfoldable pub kvs_array_mod : Bool → KvsArray → Option Str → Option Str → Run (KvsArray × ℤ)
unfolding lock find_slot write_item read_item
kvs_array_mod kvalue a key value = do
  held ← lock a
  elim key [
    | none ↦ ok (held, negsuc 0)
    | some k ↦ elim value [
      | none ↦ ok (held, negsuc 0)
      | some v ↦ if held.total == 0 then ok (unlock held, pos array_size) else do
        found ← find_slot held.table held.total 0 k
        elim found [
          | none ↦ ok (unlock held, pos held.total)
          | some i ↦ do
            old ← read_item held.table i
            let new = if kvalue then Ptr.text v else Ptr.wild
            items ← write_item held.table i (record old { value = new })
            ok (unlock (record held { table = items }), if kvalue then pos 0 else negsuc 1)
        ]
    ]
  ]

-- 0: present, 1: absent
unfoldable pub kvs_array_exist : KvsArray → Option Str → Run (KvsArray × ℤ)
unfolding lock find_slot
kvs_array_exist a key = do
  held ← lock a
  elim key [
    | none ↦ ok (unlock held, negsuc 0)
    | some k ↦ do
      found ← find_slot held.table held.total 0 k
      elim found [ none ↦ ok (unlock held, pos 1) | some i ↦ ok (unlock held, pos 0) ]
  ]
