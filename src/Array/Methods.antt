-- ===== src/Array/Methods.antt =====
-- The operations of kvs_array.c as operations on a map from keys to values.
use kv_study.Prelude.{
  ℕ, ◌+◌, ◌≤◌, ◌<◌, ◌≡◌, refl, ◌∙◌, inl, inr, Bool, true, false, ◌&&◌, Bool-cases, Option, none,
  some, ◌==◌, if◌then◌else◌, get_elem?, set, length, length-set, ℤ, pos, negsuc, Ptr, Str, str_eq,
  str_eq_iff, ok, Returns, arith,
}
use kv_study.Array.{
  Item, KvsArray, array_size, find_slot, insert_copy, kvs_array_set, kvs_array_get, kvs_array_mod,
  kvs_array_exist,
}
use native.Mathlib.Numerals.{add-one}
use kv_study.Array.View.{find, count, hit, pick, Concerns, Slots, find-eq-none, count-set, find-set}
use kv_study.Array.Scan.{find_slot_lem, find_hole_lem}
use kv_study.Array.Slots.{Slots-le, Slots-set, Slots-fill}

-- The mutex is free, the table has its 1024 slots, those from `total` on are free, each slot below
-- is free or holds a key with its value, and no key occurs twice.
pub record IsValid (a : KvsArray) : Type 0 where
  pub unlocked : a.locked ≡ false
  pub width : length a.table ≡ array_size
  pub slots : Slots a.total a.table
  pub once : (q : Str) → count q a.table ≤ 1

-- The map that the table stands for.
abbrev pub view : KvsArray → Str → Option Str
view a q = find q a.table

-- An operation that returned `code` and left the map `f`.
pub record Answer (code : ℤ) (f : Str → Option Str) (r : KvsArray × ℤ) : Type 0 where
  pub returns : r.1 ≡ code
  pub valid : IsValid r.0
  pub reads : (q : Str) → view r.0 q ≡ f q

abbrev pub set_code : Bool → KvsArray → Str → ℤ
set_code copied a k =
    if a.total == array_size
    then negsuc 0
    else elim (view a k) [ some old ↦ pos 1 | none ↦ if copied then pos 0 else negsuc 1 ]

abbrev pub set_view : Bool → KvsArray → Str → Str → Str → Option Str
set_view copied a k v q = if a.total == array_size then view a q else elim (view a k) [
  | some old ↦ view a q
  | none ↦ if copied && str_eq k q then some v else view a q
]

-- A write to the only slot that can hold `k` keeps the table valid and updates the map at `k`.
pub write_lem :
    {a : KvsArray} (valid : IsValid a) (k : Str) (j n : ℕ) (old new : Item)
    → get_elem? a.table j ≡ some old
    → Concerns k old.key
    → Concerns k new.key
    → count k a.table ≤ hit k old.key
    → Slots n (set a.table j new)
    → (f : Str → Option Str)
    → ((q : Str) → (if str_eq k q then pick k new.key new.value none else view a q) ≡ f q)
    → (code : ℤ)
    → Answer code f (record { table = set a.table j new; total = n; locked = false }, code)
write_lem {a} valid k j n old new at c d few slots f same code = record {
  returns = refl;
  valid = record {
    unlocked = refl;
    width = length-set a.table j new ∙ valid.width;
    slots = slots;
    once = λ q.
        ground (arith, count-set q a.table j old new, valid.once q, str_eq_iff k q, str_eq_iff k k);
  };
  reads = λ q. find-set k q a.table j old new at c d few ∙ same q;
}

-- An operation that changed nothing.
pub same_lem :
    {a : KvsArray}
    → IsValid a
    → (f : Str → Option Str) → ((q : Str) → view a q ≡ f q)
    → (code wanted : ℤ) → code ≡ wanted
    → Answer wanted f (record a { locked = false }, code)
same_lem valid f same code wanted e = record {
  returns = e;
  valid = record { unlocked = refl; width = valid.width; slots = valid.slots; once = valid.once };
  reads = same;
}

module _ {a : KvsArray} (valid : IsValid a) (k : Str) where
  insert_copy_lem :
      (v : Str)
      → a.total < array_size
      → count k a.table ≡ 0
      → Returns (insert_copy a k v) (Answer (pos 0) λ q. if str_eq k q then some v else view a q)
  unfolding insert_copy
  insert_copy_lem v room absent =
      let (j, hole, r, le, at, free) =
        find_hole_lem a.table a.total 0 valid.slots (omega (arith, valid.width)) in
      let new : Item = record { key = Ptr.text k; value = Ptr.text v } in
      (
        (record { table = set a.table j new; total = a.total + 1; locked = false }, pos 0),
        ground arith,
        write_lem valid k j (a.total + 1) hole new at (inl free) (inr refl) (omega arith)
            (simp add-one
              (Slots-fill a.table a.total j new valid.slots le (omega (arith, valid.width)) tt))
            _ (λ q. ground (arith, str_eq_iff k k)) (pos 0),
      )

  set_absent :
      (v : Str) (kcopy kvalue : Bool)
      → a.total == array_size ≡ false
      → find_slot a.table a.total 0 k ≡ ok none
      → count k a.table ≡ 0
      → Returns
          (kvs_array_set kcopy kvalue a (some k) (some v))
          (Answer (set_code (kcopy && kvalue) a k) (set_view (kcopy && kvalue) a k v))
  unfolding kvs_array_set
  set_absent v true true room r c =
      let none_there = find-eq-none k a.table c in
      let le = Slots-le a.total a.table valid.slots in
      let (x, run, s) = insert_copy_lem v (ground (arith, valid.width)) c in
      (
        x,
        rw (valid.unlocked, room, r) run,
        record {
          returns = rw (room, none_there) s.returns;
          valid = s.valid;
          reads = λ q. rw (room, none_there) (s.reads q);
        },
      )
  set_absent v true false room r c =
      let none_there = find-eq-none k a.table c in
      (
        (record a { locked = false }, negsuc 1),
        rw (valid.unlocked, room, r),
        same_lem valid _ (λ q. rw (room, none_there)) (negsuc 1) _ (rw (room, none_there)),
      )
  set_absent v false kvalue room r c =
      let none_there = find-eq-none k a.table c in
      (
        (record a { locked = false }, negsuc 1),
        rw (valid.unlocked, room, r),
        same_lem valid _ (λ q. rw (room, none_there)) (negsuc 1) _ (rw (room, none_there)),
      )

  -- `kvs_array_set` after both copies, one of them or none could be made: -1 for a full table, 1 for
  -- a key that is there, -2 without memory; otherwise 0, and the key maps to the value.
  pub kvs_array_set-Answer :
      (v : Str) (kcopy kvalue : Bool)
      → Returns
          (kvs_array_set kcopy kvalue a (some k) (some v))
          (Answer (set_code (kcopy && kvalue) a k) (set_view (kcopy && kvalue) a k v))
  unfolding kvs_array_set
  kvs_array_set-Answer v kcopy kvalue = elim (Bool-cases (a.total == array_size)) [
    | inl full ↦ (
      (record a { locked = false }, negsuc 0),
      rw (valid.unlocked, full),
      same_lem valid _ (λ q. rw full) (negsuc 0) _ (rw full),
    )
    | inr room ↦ elim (find_slot_lem k a.table a.total 0 valid.slots) [
      | inr (j, old, r, lt, f) ↦ (
        (record a { locked = false }, pos 1),
        rw (valid.unlocked, room, r),
        same_lem valid _ (λ q. rw (room, f.reads)) (pos 1) _ (rw (room, f.reads)),
      )
      | inl (r, c) ↦ set_absent v kcopy kvalue room r c
    ]
  ]

  -- `kvs_array_get` returns the value's pointer, NULL where there is none, and changes nothing.
  pub kvs_array_get-Answer : Returns (kvs_array_get a (some k)) λ r.
      (r.1 ≡ elim (view a k) [ some v ↦ Ptr.text v | none ↦ Ptr.null ])
      × Answer (pos 0) (view a) (r.0, pos 0)
  unfolding kvs_array_get
  kvs_array_get-Answer = elim (find_slot_lem k a.table a.total 0 valid.slots) [
    | inr (j, v, r, lt, f) ↦ (
      (record a { locked = false }, Ptr.text v),
      ground (arith, valid.unlocked, f.slot, r),
      (rw f.reads, same_lem valid _ (λ q. refl) (pos 0) _ refl),
    )
    | inl (r, c) ↦ (
      (record a { locked = false }, Ptr.null),
      ground (arith, valid.unlocked, r),
      (rw (find-eq-none k a.table c), same_lem valid _ (λ q. refl) (pos 0) _ refl),
    )
  ]

  -- `kvs_array_exist` returns 0 for a key that is there and 1 for one that is not.
  pub kvs_array_exist-Answer :
      Returns
        (kvs_array_exist a (some k))
        (Answer (elim (view a k) [ some v ↦ pos 0 | none ↦ pos 1 ]) (view a))
  unfolding kvs_array_exist
  kvs_array_exist-Answer = elim (find_slot_lem k a.table a.total 0 valid.slots) [
    | inr (j, v, r, lt, f) ↦ (
      (record a { locked = false }, pos 0),
      ground (arith, valid.unlocked, r),
      same_lem valid _ (λ q. refl) (pos 0) _ (rw f.reads),
    )
    | inl (r, c) ↦ (
      (record a { locked = false }, pos 1),
      ground (arith, valid.unlocked, r),
      same_lem valid _ (λ q. refl) (pos 1) _ (rw (find-eq-none k a.table c)),
    )
  ]

  -- `kvs_array_mod`: 0 and the new value for a key that is there, a positive count for one that is
  -- not.
  pub kvs_array_mod-Answer :
      (v : Str)
      → Returns (kvs_array_mod true a (some k) (some v)) (
          Answer
            (elim (view a k) [
              | some old ↦ pos 0
              | none ↦ pos (if a.total == 0 then array_size else a.total)
            ])
            (λ q. elim (view a k) [
              | some old ↦ if str_eq k q then some v else view a q
              | none ↦ view a q
            ]))
  unfolding kvs_array_mod
  kvs_array_mod-Answer v = elim (find_slot_lem k a.table a.total 0 valid.slots) [
    | inr (j, old, r, lt, f) ↦
        let new : Item = record { key = Ptr.text k; value = Ptr.text v } in
        (
          (record a { table = set a.table j new; locked = false }, pos 0),
          ground (arith, valid.unlocked, f.slot, r),
          rw f.reads (
              write_lem valid k j a.total _ new f.slot (inr refl) (inr refl)
                (ground (arith, str_eq_iff k k, valid.once k))
                (Slots-set a.table a.total j new valid.slots lt tt) _
                (λ q. ground (arith, str_eq_iff k k)) (pos 0)),
        )
    | inl (r, c) ↦
        let none_there = find-eq-none k a.table c in
        let answer = pos (if a.total == 0 then array_size else a.total) in
        (
          (record a { locked = false }, answer),
          ground (arith, valid.unlocked, r),
          same_lem valid _ (λ q. rw none_there) answer _ (rw none_there),
        )
  ]
