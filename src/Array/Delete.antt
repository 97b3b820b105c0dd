-- ===== src/Array/Delete.antt =====
-- `kvs_array_del` of kvs_array.c, and what the hole that it leaves does to a later call.
use kv_study.Prelude.{
  ℕ, ◌<◌, ◌≡◌, refl, ◌∙◌, inl, inr, none, some, if◌then◌else◌, get_elem?, set, pos, Ptr, Str,
  str_eq, str_eq_iff, fault, Returns, arith, false,
}
use kv_study.Array.{Item, KvsArray, drop_last, kvs_array_del}
use kv_study.Array.View.{count, find-eq-none}
use kv_study.Array.Scan.{IsDense, find_slot_lem, find_slot_unguarded_lem, find_slot_unguarded-fault}
use kv_study.Array.Slots.{Slots-drop_last}
use kv_study.Array.Methods.{IsValid, view, Answer, write_lem, same_lem}

module _ {a : KvsArray} (valid : IsValid a) (k : Str) where
  -- `kvs_array_del` on a valid table with no hole below `total`: the key is gone and the code is 0 if
  -- it was there; if it was not, the map is as it was and the code is `total`, the number of slots in
  -- use, which for an empty table is 0 as well, the code of success. The table stays valid.
  pub kvs_array_del-Answer :
      IsDense a.total a.table
      → Returns (kvs_array_del a (some k)) (
          Answer
            (elim (view a k) [ some old ↦ pos 0 | none ↦ pos a.total ])
            (λ q. if str_eq k q then none else view a q))
  unfolding kvs_array_del
  kvs_array_del-Answer dense =
      let same = find_slot_unguarded_lem k a.table a.total 0 valid.slots dense in
      elim (find_slot_lem k a.table a.total 0 valid.slots) [
        | inr (j, old, r, lt, f) ↦
            let new : Item = record { key = Ptr.null; value = Ptr.null } in
            (
              (
                record { table = set a.table j new; total = drop_last a.total j; locked = false },
                pos 0,
              ),
              ground (arith, valid.unlocked, f.slot, same ∙ r),
              rw f.reads (
                  write_lem valid k j (drop_last a.total j) _ new f.slot (inr refl) (inl refl)
                    (ground (arith, str_eq_iff k k, valid.once k))
                    (Slots-drop_last a.table a.total j new valid.slots lt refl) _
                    (λ q. ground (arith, str_eq_iff k k)) (pos 0)),
            )
        | inl (r, c) ↦
            let none_there = find-eq-none k a.table c in
            (
              (record a { locked = false }, pos a.total),
              ground (arith, valid.unlocked, same ∙ r),
              same_lem valid _ (λ q. ground (arith, str_eq_iff k q, none_there)) (pos a.total) _
                  (rw none_there),
            )
      ]

  -- A key that the map does not have occurs nowhere in the table.
  absent-count : view a k ≡ none → count k a.table ≡ 0
  absent-count h = elim (find_slot_lem k a.table a.total 0 valid.slots) [
    | inl (r, c) ↦ c
    | inr (j, v, r, lt, f) ↦ cc (h, f.reads)
  ]

  -- Once a slot below `total` is free, deleting any key that is not there reads through NULL.
  pub del-hole-fault :
      (j : ℕ) (hole : Item)
      → j < a.total
      → get_elem? a.table j ≡ some hole
      → hole.key ≡ Ptr.null
      → view a k ≡ none
      → kvs_array_del a (some k) ≡ fault
  unfolding kvs_array_del
  del-hole-fault j hole lt at free absent =
      let stuck =
        find_slot_unguarded-fault k a.table a.total 0 j hole lt at free (absent-count absent) in
      rw (valid.unlocked, stuck)
