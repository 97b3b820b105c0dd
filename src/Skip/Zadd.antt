-- ===== src/Skip/Zadd.antt =====
-- kvs_skiptable_zadd on a sorted list is sorted insertion.
use mathlib.Core.Path.{subst}
use kv_study.Prelude.{
  ℕ, ◌<◌, ◌≡◌, refl, ◌∙◌, inl, inr, Bool-cases, Bool, true, false, if◌then◌else◌, List, [], ◌∷◌,
  ◌++◌, length, ℤ, pos, Str, ok, ◌>>=◌, arith, Returns,
}
use kv_study.Skip.{
  Double, ZrangeEntry, random_level, SkipMemory, SkipList, Allocation, lock_list, key_below,
  key_same, forward_at,
}
use kv_study.Skip.Towers.{Tower, All, Shows, Stands-skip_node_at}
use kv_study.Skip.State.{Represents}
use kv_study.Skip.Add.{Succeeds, tower_of, add_node-Represents}
use kv_study.Skip.Revalue.{revalued, update_value-Represents, Towers-middle}
use kv_study.Skip.Order.{
  IsOrdered, entry_of, entries, Every, comes_before, is_entry, Sorted, insort, contains,
  comes_before_trans, contains-cut, contains-first, Sorted-right, insort-new, insort-there,
}
use kv_study.Skip.Cut.{front, back, Falls, front-back, front-All, back-All, search-prev}
use kv_study.Skip.Calls.{entry_before, entry_same, kvs_skiptable_zadd}

module _ {Score : Type 0} ⦃double : Double Score⦄ where
  entry_before-answer :
      (m : SkipMemory Score) (score : Score) (key : Str) (t : Tower Score)
      → Shows m t
      → entry_before score key (m.nodes t.address) ≡ ok (comes_before score key (entry_of t))
  unfolding entry_before key_below
  entry_before-answer m score key t s = rw (s.has_score, s.has_key) (ground arith)

  entry_same-answer :
      (m : SkipMemory Score) (score : Score) (key : Str) (t : Tower Score)
      → Shows m t
      → entry_same score key (m.nodes t.address) ≡ ok (is_entry score key (entry_of t))
  unfolding entry_same key_same
  entry_same-answer m score key t s = rw (s.has_score, s.has_key) (ground arith)

  -- In a sorted list no entry after one that is not before the target is before it.
  pub Sorted-Falls :
      IsOrdered Score
      → (score : Score) (key : Str) (ts : List (Tower Score)) → Sorted (entries ts)
      → Falls (λ t. comes_before score key (entry_of t)) ts
  Sorted-Falls o score key [] s = tt
  Sorted-Falls o score key (t ∷ ts) s =
      ((λ late. rest t late ts s.0), Sorted-Falls o score key ts s.1)
    where
      rest :
          (t : Tower Score)
          → comes_before score key (entry_of t) ≡ false
          → (ts : List (Tower Score))
          → Every (λ f. comes_before f.score f.key (entry_of t)) (entries ts)
          → All (λ y. comes_before score key (entry_of y) ≡ false) ts
      rest t late [] h = tt
      rest t late (y ∷ ys) h = (
        ground (arith, comes_before_trans o (entry_of t) (entry_of y) score key h.0),
        rest t late ys h.1,
      )

  module _ (fuel : ℕ) (update : ℕ → ℕ) (rand : ℕ → ℕ) (alloc : Allocation) (list : SkipList Score)
      (key value : Str) (score : Score) where
    -- What the call leaves: towers whose entries are `expected`, and the code it returns.
    abbrev Leaves : List (ZrangeEntry Score) → ℤ → Type 0
    Leaves expected code =
        Returns (kvs_skiptable_zadd fuel update rand alloc list key value score) λ result.
          (ts : List (Tower Score)) × Represents result.0 ts
          × (entries ts ≡ expected)
          × (result.1 ≡ code)

    abbrev p : Tower Score → Bool
    p t = comes_before score key (entry_of t)

    zadd-cut :
        IsOrdered Score
        → (xs ys : List (Tower Score)) → Represents list (xs ++ ys)
        → Succeeds list.memory alloc
        → Sorted (entries (xs ++ ys))
        → All (λ t. p t ≡ true) xs
        → All (λ t. p t ≡ false) ys
        → length (xs ++ ys) < fuel
        → length (xs ++ ys) < 2147483647
        → Leaves
            (insort score key value (entries (xs ++ ys)))
            (if contains score key (entries (xs ++ ys)) then pos 1 else pos 0)
    unfolding kvs_skiptable_zadd lock_list
    zadd-cut o xs [] r s sorted early late enough few =
        let (u, run, (found, at)) =
          search-prev fuel list (entry_before score key) p xs [] update
            (entry_before-answer list.memory score key) r early late enough in
        let (result, added, (r', code)) =
          add_node-Represents list xs [] r alloc s u found few rand key value score in
        (
          result,
          rw (r.unlocked, run, ◌>>=◌, at) added,
          (
            xs ++ (tower_of alloc (random_level rand) key value score ∷ []),
            r',
            insort-new xs [] (tower_of alloc (random_level rand) key value score) early late refl,
            code ∙ rw (contains-cut o xs [] score key early) refl,
          ),
        )
    zadd-cut o xs (y ∷ ys) r s sorted early late enough few =
        let (u, run, (found, at)) =
          search-prev fuel list (entry_before score key) p xs (y ∷ ys) update
            (entry_before-answer list.memory score key) r early late enough in
        let (stands, shows) = Towers-middle list.memory xs y ys r.towers in
        let here : forward_at list.memory (u 0) 0 ≡ ok y.address = at ∙ ground arith in
        let same = entry_same-answer list.memory score key y shows in
        let listed =
          contains-cut o xs (y ∷ ys) score key early
          ∙ contains-first o y ys score key late.0 (Sorted-right xs (y ∷ ys) sorted) in
        elim (Bool-cases (is_entry score key (entry_of y))) [
          | inl there ↦
              let (result, replaced, (r', code)) = update_value-Represents list xs y ys r value in
              (
                result,
                rw
                    (
                      r.unlocked,
                      run,
                      ◌>>=◌,
                      here,
                      stands.not_null,
                      Stands-skip_node_at stands,
                      same,
                      there,
                      s.value_duplicated,
                    )
                    replaced,
                (
                  xs ++ (revalued y value ∷ ys),
                  r',
                  insort-there xs y ys score key value early late.0 there,
                  code ∙ rw (listed, there) refl,
                ),
              )
          | inr absent ↦
              let (result, added, (r', code)) =
                add_node-Represents list xs (y ∷ ys) r alloc s u found few rand key value score in
              (
                result,
                rw
                    (
                      r.unlocked,
                      run,
                      ◌>>=◌,
                      here,
                      stands.not_null,
                      Stands-skip_node_at stands,
                      same,
                      absent,
                    )
                    added,
                (
                  xs ++ (tower_of alloc (random_level rand) key value score ∷ (y ∷ ys)),
                  r',
                  insort-new xs (y ∷ ys) (tower_of alloc (random_level rand) key value score) early
                      late
                      (contains-first o y ys score key late.0 (Sorted-right xs (y ∷ ys) sorted)
                        ∙ absent),
                  code ∙ rw (listed, absent) refl,
                ),
              )
        ]

    -- On a list of entries in order, with room for one more and enough fuel, where all allocations of
    -- the call succeed, and for comparisons of doubles that are an order: kvs_skiptable_zadd returns, and
    -- leaves the entries that sorted insertion makes of them, the value replaced where an entry of this
    -- score and key is there. It returns 1 in that case and 0 in the other.
    pub kvs_skiptable_zadd-insort :
        IsOrdered Score
        → (ts : List (Tower Score)) → Represents list ts
        → Succeeds list.memory alloc
        → Sorted (entries ts)
        → length ts < fuel
        → length ts < 2147483647
        → Leaves
            (insort score key value (entries ts))
            (if contains score key (entries ts) then pos 1 else pos 0)
    kvs_skiptable_zadd-insort o ts r s sorted enough few =
        subst
          (λ us.
            Leaves (insort score key value (entries us))
              (if contains score key (entries us) then pos 1 else pos 0))
          (front-back p ts)
          (zadd-cut o (front p ts) (back p ts) (rw (front-back p ts) r) s
            (rw (front-back p ts) sorted) (front-All p ts)
            (back-All p ts (Sorted-Falls o score key ts sorted)) (rw (front-back p ts) enough)
            (rw (front-back p ts) few))
