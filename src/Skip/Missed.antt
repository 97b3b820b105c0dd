-- ===== src/Skip/Missed.antt =====
-- What kvs_skiptable_zrem misses where the keys are not in order.
use Prim.Native.Nat.{Ordering}
use kv_study.Prelude.{
  ℕ, zero, suc, ◌≤◌, ◌<◌, ◌≡◌, refl, ap, ◌∙◌, inl, inr, Bool-cases, true, false, ◌==◌, ltb, leb,
  if◌then◌else◌, List, [], ◌∷◌, minus, Str, str_lt, str_eq, strcmp, strcmp_flip, ok, ◌>>=◌, arith,
  Returns,
}
use kv_study.Skip.{
  SkipMemory, SkipList, skip_max_level, lock_list, unlock_list, forward_at, walk, descend_levels,
  search,
}
use kv_study.Skip.Towers.{
  Tower, next, All, Stands, Towers, Stands-skip_node_at, Stands-forward_at, tall,
}
use kv_study.Skip.State.{Represents}
use kv_study.Skip.Lists.{tall-heights}
use kv_study.Skip.Revalue.{Towers-middle}
use kv_study.Skip.Order.{entries}
use kv_study.Skip.Calls.{key_before, kvs_skiptable_zrem}
use kv_study.Skip.Zrem.{Leaves, same_list, key_before-answer, key_same-answer}

key_above : (a b : Str) → strcmp a b ≡ Ordering.lt → str_lt b a ≡ false
unfolding str_lt
key_above a b less = ground (arith, strcmp_flip a b)

key_unlike : (a b : Str) → strcmp a b ≡ Ordering.lt → str_eq b a ≡ false
unfolding str_eq
key_unlike a b less = ground (arith, strcmp_flip a b)

module _ {Score : Type 0} where
  next-none : (i : ℕ) (ts : List (Tower Score)) → tall i ts ≡ false → next i ts ≡ 0
  next-none i [] e = refl
  next-none i (t ∷ ts) e = ground (arith, next-none i ts)

  -- The walk stays at the header where the first tower has a greater key and none is higher.
  walk-stays :
      (fuel : ℕ) (m : SkipMemory Score) (header : ℕ) (key : Str) (t : Tower Score)
      (ts : List (Tower Score)) (i : ℕ)
      → Stands m header skip_max_level (t ∷ ts)
      → Towers m (t ∷ ts)
      → strcmp key t.key ≡ Ordering.lt
      → i ≤ skip_max_level
      → All (λ s. s.height ≤ t.height) ts
      → walk (suc fuel) m (key_before key) i header ≡ ok header
  unfolding walk
  walk-stays fuel m header key t ts i s towers less bound tallest =
      elim (Bool-cases (leb i t.height)) [
        | inl reaches ↦
            let here : forward_at m header i ≡ ok t.address =
              Stands-forward_at s i bound ∙ rw reaches refl in
            rw
              (
                here,
                ◌>>=◌,
                towers.0.not_null,
                Stands-skip_node_at towers.0,
                key_before-answer m key t towers.1,
                key_above key t.key less,
              )
              refl
        | inr high ↦
            let here : forward_at m header i ≡ ok 0 =
              Stands-forward_at s i bound
              ∙ rw high (
                  ap (λ a. ok a)
                    (next-none i ts (tall-heights t.height i ts tallest (ground arith)))) in
            rw (here, ◌>>=◌) refl
      ]

  descend_levels-header :
      (fuel : ℕ) (m : SkipMemory Score) (header : ℕ) (key : Str) (t : Tower Score)
      (ts : List (Tower Score)) (levels : ℕ) (update : ℕ → ℕ)
      → Stands m header skip_max_level (t ∷ ts)
      → Towers m (t ∷ ts)
      → strcmp key t.key ≡ Ordering.lt
      → levels ≤ suc skip_max_level
      → All (λ s. s.height ≤ t.height) ts
      → Returns
          (descend_levels (suc fuel) m (key_before key) levels header update)
          (λ u. ((j : ℕ) → j < levels → u j ≡ header) × ((j : ℕ) → levels ≤ j → u j ≡ update j))
  unfolding descend_levels
  descend_levels-header fuel m header key t ts zero update s towers less bound tallest =
      (update, refl, ((λ j below. absurd (omega arith)), λ j above. refl))
  descend_levels-header fuel m header key t ts (suc i) update s towers less bound tallest =
      let stays : walk (suc fuel) m (key_before key) i header ≡ ok header =
        walk-stays fuel m header key t ts i s towers less (omega arith) tallest in
      let (u, run, (low, high)) =
        descend_levels-header fuel m header key t ts i (λ j. if j == i then header else update j) s
          towers less (omega arith) tallest in
      (
        u,
        rw (stays, ◌>>=◌) run,
        (
          (λ j below. elim (Bool-cases (ltb j i)) [
            | inl e ↦ low j (ground arith)
            | inr e ↦ high j (ground arith) ∙ ground arith
          ]),
          λ j above. high j (omega arith) ∙ ground arith,
        ),
      )

  -- Where the first entry of the list has a greater key than the one asked for, and no later node is higher
  -- than its node, kvs_skiptable_zrem returns -1 and leaves the entries, also when a later entry has the key.
  pub kvs_skiptable_zrem-misses :
      (fuel : ℕ) (update : ℕ → ℕ) (list : SkipList Score) (key : Str) (t : Tower Score)
      (ts : List (Tower Score))
      → Represents list (t ∷ ts)
      → strcmp key t.key ≡ Ordering.lt
      → All (λ s. s.height ≤ t.height) ts
      → Leaves (suc fuel) update list key (entries (t ∷ ts)) (minus 1)
  unfolding kvs_skiptable_zrem lock_list search
  kvs_skiptable_zrem-misses fuel update list key t ts r less tallest =
      let (u, run, (low, high)) =
        descend_levels-header fuel list.memory list.header key t ts (suc list.level) update
          r.header_stands r.towers less (omega (arith, r.level_bound)) tallest in
      let inside : ltb skip_max_level list.level ≡ false = ground (arith, r.level_bound) in
      let first : forward_at list.memory list.header 0 ≡ ok t.address =
        Stands-forward_at r.header_stands 0 (omega arith) ∙ ground arith in
      let here : forward_at list.memory (u 0) 0 ≡ ok t.address = rw (low 0 (omega arith)) first in
      let (stands, shows) = Towers-middle list.memory [] t ts r.towers in
      (
        (unlock_list (record list { locked = true }), minus 1),
        rw
            (
              r.unlocked,
              inside,
              run,
              ◌>>=◌,
              here,
              stands.not_null,
              Stands-skip_node_at stands,
              key_same-answer list.memory key t shows,
              key_unlike key t.key less,
            )
            refl,
        (t ∷ ts, same_list r, refl, refl),
      )
