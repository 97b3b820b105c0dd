-- ===== src/Skip/Zrem.antt =====
-- kvs_skiptable_zrem on a list with its keys in order: what it removes.
use mathlib.Core.Path.{subst}
use kv_study.Prelude.{
  ℕ, ◌<◌, ◌≡◌, refl, ◌∙◌, inl, inr, Bool-cases, Bool, true, false, if◌then◌else◌, List, [], ◌∷◌,
  ◌++◌, length, ℤ, pos, minus, Str, str_lt, str_eq, ok, ◌>>=◌, arith, Returns,
}
use kv_study.Skip.{
  SkipMemory, SkipList, ZrangeEntry, lock_list, unlock_list, key_below, key_same, forward_at,
}
use kv_study.Skip.Towers.{Tower, All, Shows, Stands-skip_node_at}
use kv_study.Skip.State.{Represents}
use kv_study.Skip.Revalue.{Towers-middle}
use kv_study.Skip.Order.{entries}
use kv_study.Skip.Keys.{
  KeysSorted, remove_key, has_key, KeysSorted-Falls, late-has_key, KeysSorted-right, has_key-cut,
  remove_key-there, remove_key-absent, remove_node-Represents,
}
use kv_study.Skip.Cut.{front, back, front-back, front-All, back-All, search-prev}
use kv_study.Skip.Calls.{key_before, kvs_skiptable_zrem}

module _ {Score : Type 0} where
  -- The list after a call that changed nothing.
  pub same_list :
      {list : SkipList Score} {ts : List (Tower Score)}
      → Represents list ts
      → Represents (unlock_list (record list { locked = true })) ts
  same_list r = record {
    header_stands = r.header_stands;
    towers = r.towers;
    header_apart = r.header_apart;
    distinct = r.distinct;
    heights = r.heights;
    level_bound = r.level_bound;
    counted = r.counted;
    unlocked = refl;
  }

  pub key_before-answer :
      (m : SkipMemory Score) (key : Str) (t : Tower Score)
      → Shows m t
      → key_before key (m.nodes t.address) ≡ ok (str_lt t.key key)
  unfolding key_below
  key_before-answer m key t s = rw s.has_key refl

  pub key_same-answer :
      (m : SkipMemory Score) (key : Str) (t : Tower Score)
      → Shows m t
      → key_same (m.nodes t.address).key key ≡ ok (str_eq t.key key)
  unfolding key_same
  key_same-answer m key t s = rw s.has_key refl

  module _ (fuel : ℕ) (update : ℕ → ℕ) (list : SkipList Score) (key : Str) where
    -- What the call leaves: towers whose entries are `expected`, and the code it returns.
    abbrev pub Leaves : List (ZrangeEntry Score) → ℤ → Type 0
    Leaves expected code = Returns (kvs_skiptable_zrem fuel update list key) λ result.
        (ts : List (Tower Score)) × Represents result.0 ts
        × (entries ts ≡ expected)
        × (result.1 ≡ code)

    abbrev p : Tower Score → Bool
    p t = str_lt t.key key

    zrem-cut :
        (xs ys : List (Tower Score))
        → Represents list (xs ++ ys)
        → KeysSorted (entries (xs ++ ys))
        → All (λ t. p t ≡ true) xs
        → All (λ t. p t ≡ false) ys
        → length (xs ++ ys) < fuel
        → Leaves
            (remove_key key (entries (xs ++ ys)))
            (if has_key key (entries (xs ++ ys)) then pos 0 else minus 1)
    unfolding kvs_skiptable_zrem lock_list
    zrem-cut xs [] r sorted early late enough =
        let (u, run, (found, at)) =
          search-prev fuel list (key_before key) p xs [] update (key_before-answer list.memory key)
            r early late enough in
        let absent = has_key-cut key xs [] early in
        (
          (unlock_list (record list { locked = true }), minus 1),
          rw (r.unlocked, run, ◌>>=◌, at) refl,
          (
            xs ++ [],
            same_list r,
            remove_key-absent key (entries (xs ++ [])) absent,
            rw absent refl,
          ),
        )
    zrem-cut xs (y ∷ ys) r sorted early late enough =
        let (u, run, (found, at)) =
          search-prev fuel list (key_before key) p xs (y ∷ ys) update
            (key_before-answer list.memory key) r early late enough in
        let (stands, shows) = Towers-middle list.memory xs y ys r.towers in
        let here : forward_at list.memory (u 0) 0 ≡ ok y.address = at ∙ ground arith in
        let same = key_same-answer list.memory key y shows in
        let listed = has_key-cut key xs (y ∷ ys) early in
        let order = (KeysSorted-right xs (y ∷ ys) sorted).0 in
        elim (Bool-cases (str_eq y.key key)) [
          | inl there ↦
              let (result, removed, (r', code)) = remove_node-Represents list xs y ys r u found in
              (
                result,
                rw
                    (
                      r.unlocked,
                      run,
                      ◌>>=◌,
                      here,
                      stands.not_null,
                      Stands-skip_node_at stands,
                      same,
                      there,
                    )
                    removed,
                (
                  xs ++ ys,
                  r',
                  remove_key-there key xs y ys early there,
                  code ∙ rw (listed, there) refl,
                ),
              )
          | inr differs ↦
              let absent : has_key key (entries (xs ++ (y ∷ ys))) ≡ false =
                listed ∙ ground (arith, differs, late-has_key key y late.0 differs ys order) in
              (
                (unlock_list (record list { locked = true }), minus 1),
                rw
                    (
                      r.unlocked,
                      run,
                      ◌>>=◌,
                      here,
                      stands.not_null,
                      Stands-skip_node_at stands,
                      same,
                      differs,
                    )
                    refl,
                (
                  xs ++ (y ∷ ys),
                  same_list r,
                  remove_key-absent key (entries (xs ++ (y ∷ ys))) absent,
                  rw absent refl,
                ),
              )
        ]

    -- On a list in which no key is below an earlier one, with enough fuel: kvs_skiptable_zrem returns, and
    -- leaves the entries without the first that has the key. It returns 0 where there is one, and
    -- otherwise -1 and the same entries.
    pub kvs_skiptable_zrem-remove_key :
        (ts : List (Tower Score))
        → Represents list ts
        → KeysSorted (entries ts)
        → length ts < fuel
        → Leaves (remove_key key (entries ts)) (if has_key key (entries ts) then pos 0 else minus 1)
    kvs_skiptable_zrem-remove_key ts r sorted enough =
        subst
          (λ us.
            Leaves (remove_key key (entries us))
              (if has_key key (entries us) then pos 0 else minus 1))
          (front-back p ts)
          (zrem-cut (front p ts) (back p ts) (rw (front-back p ts) r) (rw (front-back p ts) sorted)
            (front-All p ts) (back-All p ts (KeysSorted-Falls key ts sorted))
            (rw (front-back p ts) enough))
