-- ===== src/Array/Slots.antt =====
-- Writes to the table of kvs_array.c keep its shape.
use kv_study.Prelude.{
  ℕ, zero, suc, ◌≤◌, ◌<◌, ◌≡◌, List, [], ◌∷◌, set, length, Ptr, arith, ◌==◌, Bool-cases, inl, inr,
  ◌-◌, ==_iff,
}
use kv_study.Array.{Item, drop_last}
use kv_study.Array.View.{Slots, IsSlot}

pub Slots-le : (n : ℕ) (items : List Item) → Slots n items → n ≤ length items
Slots-le n [] s = omega arith
Slots-le zero (item ∷ items) s = omega arith
Slots-le (suc n) (item ∷ items) s = omega (arith, Slots-le n items s.1)

free-IsSlot : (p v : Ptr) → p ≡ Ptr.null → IsSlot p v
free-IsSlot Ptr.null v e = tt
free-IsSlot (Ptr.text k) v e = cc
free-IsSlot Ptr.wild v e = cc

Slots-suc : (n : ℕ) (items : List Item) → Slots n items → n < length items → Slots (suc n) items
Slots-suc n [] s room = absurd (omega arith)
Slots-suc zero (item ∷ items) s room = (free-IsSlot item.key item.value s.0, s.1)
Slots-suc (suc n) (item ∷ items) s room = (s.0, Slots-suc n items s.1 (omega arith))

-- A slot below `n` is replaced by another slot.
pub Slots-set :
    (items : List Item) (n j : ℕ) (new : Item)
    → Slots n items
    → j < n
    → IsSlot new.key new.value
    → Slots n (set items j new)
Slots-set [] n j new s lt t = s
Slots-set (item ∷ items) zero j new s lt t = absurd (omega arith)
Slots-set (item ∷ items) (suc n) zero new s lt t = (t, s.1)
Slots-set (item ∷ items) (suc n) (suc j) new s lt t =
    (s.0, Slots-set items n j new s.1 (omega arith) t)

-- One more slot is in use, with a slot at or below `n` replaced.
pub Slots-fill :
    (items : List Item) (n j : ℕ) (new : Item)
    → Slots n items
    → j ≤ n
    → n < length items
    → IsSlot new.key new.value
    → Slots (suc n) (set items j new)
Slots-fill [] n j new s le room t = absurd (omega arith)
Slots-fill (item ∷ items) zero zero new s le room t = (t, s.1)
Slots-fill (item ∷ items) zero (suc j) new s le room t = absurd (omega arith)
Slots-fill (item ∷ items) (suc n) zero new s le room t = (t, Slots-suc n items s.1 (omega arith))
Slots-fill (item ∷ items) (suc n) (suc j) new s le room t =
    (s.0, Slots-fill items n j new s.1 (omega arith) (omega arith) t)

-- The last slot in use is freed.
pub Slots-drop :
    (items : List Item) (j : ℕ) (new : Item)
    → Slots (suc j) items
    → new.key ≡ Ptr.null
    → Slots j (set items j new)
Slots-drop [] j new s e = absurd (omega arith)
Slots-drop (item ∷ items) zero new s e = (e, s.1)
Slots-drop (item ∷ items) (suc j) new s e = (s.0, Slots-drop items j new s.1 e)

-- `kvs_array_del` frees a slot, and gives it back where it is the last one in use.
pub Slots-drop_last :
    (items : List Item) (n j : ℕ) (new : Item)
    → Slots n items
    → j < n
    → new.key ≡ Ptr.null
    → Slots (drop_last n j) (set items j new)
unfolding drop_last
Slots-drop_last items zero j new s lt e = absurd (omega arith)
Slots-drop_last items (suc n) j new s lt e = elim (Bool-cases (suc n - 1 == j)) [
  | inl last ↦
      let is_n : suc n - 1 ≡ j = (==_iff _ _).0 last in
      let is_j : n ≡ j = omega arith in rw (last, is_n) (Slots-drop items j new (rw is_j at s) e)
  | inr inner ↦ rw inner (Slots-set items (suc n) j new s lt (free-IsSlot new.key new.value e))
]
