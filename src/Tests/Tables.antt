-- ===== src/Tests/Tables.antt =====
-- Runs of kvs_array.c on a table that holds one key.
use kv_study.Prelude.{
  ℕ, zero, suc, ◌+◌, ◌≡◌, refl, true, false, none, some, List, [], ◌∷◌, replicate, length-replicate,
  pos, Ptr, Str, codes, str_eq, str_eq_iff, if◌then◌else◌, fault, deadlock, Returns, arith, ap,
}
use kv_study.Array.{Item, KvsArray, kvs_array_set, kvs_array_del}
use kv_study.Array.View.{count, Slots, find-eq-none}
use kv_study.Array.Methods.{IsValid, view, Answer, set_code, set_view, kvs_array_set-Answer}
use kv_study.Array.Delete.{kvs_array_del-Answer, del-hole-fault}
use kv_study.Array.Calls.{Call, calls, null_call-deadlock, calls-IsValid}

abbrev pub free_item : Item
free_item = record { key = Ptr.null; value = Ptr.null }

Slots-replicate : (n : ℕ) → Slots 0 (replicate n free_item)
Slots-replicate zero = refl
Slots-replicate (suc n) = (refl, Slots-replicate n)

pub count-replicate : (q : Str) (n : ℕ) → count q (replicate n free_item) ≡ 0
unfolding count
count-replicate q zero = refl
count-replicate q (suc n) = omega (arith, count-replicate q n)

abbrev pub tail_slots : List Item
tail_slots = replicate 1023 free_item

-- "a" maps to "1"
abbrev pub one_key : KvsArray
one_key = record {
  table = record { key = Ptr.text (codes "a"); value = Ptr.text (codes "1") } ∷ tail_slots;
  total = 1;
  locked = false;
}

pub one_key-IsValid : IsValid one_key
unfolding count
one_key-IsValid = record {
  unlocked = refl;
  width = ap suc (length-replicate 1023 free_item);
  slots = (tt, Slots-replicate 1023);
  once = λ q. ground (arith, count-replicate q 1023);
}

-- The first of two slots in use is free.
abbrev with_hole : KvsArray
with_hole = record {
  table =
      free_item
      ∷ record { key = Ptr.text (codes "a"); value = Ptr.text (codes "1") }
      ∷ replicate 1022 free_item;
  total = 2;
  locked = false;
}

with_hole-IsValid : IsValid with_hole
unfolding count
with_hole-IsValid = record {
  unlocked = refl;
  width = ap (λ n. 2 + n) (length-replicate 1022 free_item);
  slots = (tt, (tt, Slots-replicate 1022));
  once = λ q. ground (arith, count-replicate q 1022);
}

kvs_array_set-Answer_example :
    Returns
      (kvs_array_set true false one_key (some (codes "b")) (some (codes "2")))
      (Answer (set_code false one_key (codes "b")) (set_view false one_key (codes "b") (codes "2")))
kvs_array_set-Answer_example =
    kvs_array_set-Answer one_key-IsValid (codes "b") (codes "2") true false

kvs_array_del-Answer_example : Returns (kvs_array_del one_key (some (codes "a"))) (
    Answer
      (elim (view one_key (codes "a")) [ some old ↦ pos 0 | none ↦ pos 1 ])
      (λ q. if str_eq (codes "a") q then none else view one_key q))
kvs_array_del-Answer_example =
    kvs_array_del-Answer one_key-IsValid (codes "a") ((codes "a", refl), tt)

with_hole_lacks_b : view with_hole (codes "b") ≡ none
unfolding count
with_hole_lacks_b =
    find-eq-none (codes "b") with_hole.table
      (ground (arith, str_eq_iff (codes "a") (codes "b"), count-replicate (codes "b") 1022))

del-hole-fault_example : kvs_array_del with_hole (some (codes "b")) ≡ fault
del-hole-fault_example =
    del-hole-fault with_hole-IsValid (codes "b") 0 free_item (omega arith) refl refl
      with_hole_lacks_b

null_call-deadlock_example :
    calls (Call.get none ∷ Call.exist (some (codes "a")) ∷ []) one_key ≡ deadlock
null_call-deadlock_example =
    null_call-deadlock one_key (Call.get none) (Call.exist (some (codes "a"))) [] refl tt

abbrev some_calls : List Call
some_calls =
    Call.set true true (some (codes "b")) (some (codes "2"))
    ∷ Call.modify true (some (codes "a")) (some (codes "3"))
    ∷ Call.get (some (codes "b"))
    ∷ []

calls-IsValid_example : Returns (calls some_calls one_key) IsValid
calls-IsValid_example = calls-IsValid some_calls one_key-IsValid (tt, (tt, (tt, tt)))
