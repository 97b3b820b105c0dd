-- ===== src/Skip/Keys.antt =====
-- The order of the keys that kvs_skiptable_zrem relies on, and the lists that it leaves.
use kv_study.Prelude.{
  ℕ, zero, suc, ◌≤◌, ◌≡◌, refl, inl, inr, Bool-cases, Bool, true, false, not, ◌||◌, ◌==◌,
  if◌then◌else◌, List, [], ◌∷◌, ◌++◌, length, pos, Str, str_lt, str_eq, strcmp_flip, strcmp_eq,
  strcmp_trans, ok, ◌>>=◌, arith, Returns, str_eq_iff,
}
use kv_study.Skip.{
  SkipMemory, SkipList, ZrangeEntry, skip_max_level, skip_node_at, free_node, free_text, decrement,
  unlock_list,
}
use kv_study.Skip.Towers.{Tower, next, prev, All, Stands, Towers, Stands-forward_at, tall}
use kv_study.Skip.State.{Represents}
use kv_study.Skip.Add.{length-insert}
use kv_study.Skip.Revalue.{Towers-middle}
use kv_study.Skip.Order.{entries, lt-str_eq}
use kv_study.Skip.Remove.{All-drop, Distinct-drop, unlinked, freed, freed-header, freed-Towers}
use kv_study.Skip.Cut.{Falls}
use kv_study.Skip.Calls.{lower, remove_node}

key_not_below : (a b c : Str) → str_lt b a ≡ false → str_lt a c ≡ false → str_lt b c ≡ false
unfolding str_lt
key_not_below a b c ba ac =
    ground (arith, strcmp_trans b c a, strcmp_flip a c, strcmp_flip c a, strcmp_eq a c)

later_key_differs :
    (a b c : Str)
    → str_lt b a ≡ false
    → str_lt a c ≡ false
    → str_eq a c ≡ false
    → str_eq b c ≡ false
unfolding str_lt str_eq
later_key_differs a b c ba ac differ = elim (Bool-cases (str_eq b c)) [
  | inr differs ↦ differs
  | inl same ↦
      let path : b ≡ c = (str_eq_iff b c).0 same in
      absurd (ground (arith, path, strcmp_flip a c, strcmp_flip c a))
]

module _ {Score : Type 0} where
  abbrev pub Keys : (Str → Bool) → List (ZrangeEntry Score) → Type 0
  Keys q [] = Unit
  Keys q (e ∷ es) = (q e.key ≡ true) × Keys q es

  -- No key is below an earlier one.
  abbrev pub KeysSorted : List (ZrangeEntry Score) → Type 0
  KeysSorted [] = Unit
  KeysSorted (e ∷ es) = Keys (λ k. not (str_lt k e.key)) es × KeysSorted es

  -- Without the first entry that has the key.
  abbrev pub remove_key : Str → List (ZrangeEntry Score) → List (ZrangeEntry Score)
  remove_key key [] = []
  remove_key key (e ∷ es) =
      let rest = remove_key key es in if str_eq e.key key then es else e ∷ rest

  abbrev pub has_key : Str → List (ZrangeEntry Score) → Bool
  has_key key [] = false
  has_key key (e ∷ es) = str_eq e.key key || has_key key es

  pub KeysSorted-Falls :
      (key : Str) (ts : List (Tower Score))
      → KeysSorted (entries ts)
      → Falls (λ t. str_lt t.key key) ts
  KeysSorted-Falls key [] s = tt
  KeysSorted-Falls key (t ∷ ts) s = ((λ late. rest t late ts s.0), KeysSorted-Falls key ts s.1)
    where
      rest :
          (t : Tower Score)
          → str_lt t.key key ≡ false
          → (ts : List (Tower Score)) → Keys (λ k. not (str_lt k t.key)) (entries ts)
          → All (λ y. str_lt y.key key ≡ false) ts
      rest t late [] h = tt
      rest t late (y ∷ ys) h =
          (key_not_below t.key y.key key (ground (arith, h.0)) late, rest t late ys h.1)

  pub late-has_key :
      (key : Str) (t : Tower Score)
      → str_lt t.key key ≡ false
      → str_eq t.key key ≡ false
      → (ts : List (Tower Score)) → Keys (λ k. not (str_lt k t.key)) (entries ts)
      → has_key key (entries ts) ≡ false
  late-has_key key t late differ [] h = refl
  late-has_key key t late differ (y ∷ ys) h =
      ground (arith, later_key_differs t.key y.key key, h.0, late-has_key key t late differ ys h.1)

  pub KeysSorted-right :
      (xs ys : List (Tower Score)) → KeysSorted (entries (xs ++ ys)) → KeysSorted (entries ys)
  KeysSorted-right [] ys s = s
  KeysSorted-right (x ∷ xs) ys s = KeysSorted-right xs ys s.1

  pub has_key-cut :
      (key : Str) (xs ys : List (Tower Score))
      → All (λ t. str_lt t.key key ≡ true) xs
      → has_key key (entries (xs ++ ys)) ≡ has_key key (entries ys)
  has_key-cut key [] ys early = refl
  has_key-cut key (x ∷ xs) ys early =
      ground (arith, lt-str_eq x.key key early.0, has_key-cut key xs ys early.1)

  pub remove_key-there :
      (key : Str) (xs : List (Tower Score)) (y : Tower Score) (ys : List (Tower Score))
      → All (λ t. str_lt t.key key ≡ true) xs
      → str_eq y.key key ≡ true
      → entries (xs ++ ys) ≡ remove_key key (entries (xs ++ (y ∷ ys)))
  remove_key-there key [] y ys early there = rw there refl
  remove_key-there key (x ∷ xs) y ys early there =
      ground (arith, lt-str_eq x.key key early.0, remove_key-there key xs y ys early.1 there)

  pub remove_key-absent :
      (key : Str) (es : List (ZrangeEntry Score)) → has_key key es ≡ false → es ≡ remove_key key es
  remove_key-absent key [] h = refl
  remove_key-absent key (e ∷ es) h = ground (arith, remove_key-absent key es)

  next-tall_none :
      (m : SkipMemory Score) (i : ℕ) (ts : List (Tower Score))
      → Towers m ts
      → (next i ts == 0) ≡ true
      → tall i ts ≡ false
  next-tall_none m i [] h e = refl
  next-tall_none m i (t ∷ ts) h e = ground (arith, h.0.not_null, next-tall_none m i ts h.2)

  heights-lower :
      (i : ℕ) (ts : List (Tower Score))
      → All (λ t. t.height ≤ suc i) ts
      → tall (suc i) ts ≡ false
      → All (λ t. t.height ≤ i) ts
  heights-lower i [] h e = tt
  heights-lower i (t ∷ ts) h e = (ground (arith, h.0), heights-lower i ts h.1 (ground arith))

  -- The level is lowered to the height of a tower, or 0.
  lower-heights :
      (m : SkipMemory Score) (header level : ℕ) (ts : List (Tower Score))
      → Stands m header skip_max_level ts
      → Towers m ts
      → level ≤ skip_max_level
      → All (λ t. t.height ≤ level) ts
      → Returns (lower m header level) λ l. (l ≤ level) × All (λ t. t.height ≤ l) ts
  unfolding lower
  lower-heights m header zero ts s towers bound h = (0, refl, (omega arith, h))
  lower-heights m header (suc level) ts s towers bound h =
      elim (Bool-cases (next (suc level) ts == 0)) [
        | inl none_there ↦
            let (l, run, (le, low)) =
              lower-heights m header level ts s towers (omega arith)
                (heights-lower level ts h (next-tall_none m (suc level) ts towers none_there)) in
            (
              l,
              rw (Stands-forward_at s (suc level) bound, ◌>>=◌, none_there) run,
              (omega arith, low),
            )
        | inr there ↦ (
          suc level,
          rw (Stands-forward_at s (suc level) bound, ◌>>=◌, there) refl,
          (omega arith, h),
        )
      ]

  pub remove_node-Represents :
      (list : SkipList Score) (xs : List (Tower Score)) (y : Tower Score) (ys : List (Tower Score))
      → Represents list (xs ++ (y ∷ ys))
      → (u : ℕ → ℕ) → ((j : ℕ) → j ≤ list.level → u j ≡ prev j list.header xs)
      → Returns
          (remove_node (record list { locked = true }) u y.address)
          λ result. Represents result.0 (xs ++ ys) × (result.1 ≡ pos 0)
  unfolding remove_node free_node skip_node_at free_text decrement
  remove_node-Represents list xs y ys r u found =
      let (stands, shows) = Towers-middle list.memory xs y ys r.towers in
      let (m', run, un) = unlinked list xs y ys r u found in
      let m'' = freed list xs y ys r u found m' un in
      let header = freed-header list xs y ys r u found m' un in
      let towers = freed-Towers list xs y ys r u found m' un in
      let (level, lowered, (le, heights)) =
        lower-heights m'' list.header list.level (xs ++ ys) header towers r.level_bound
          (All-drop (λ t. t.height ≤ list.level) xs y ys r.heights) in
      let fewer : decrement list.length ≡ ok (pos (length (xs ++ ys))) =
        rw (r.counted, length-insert y xs ys) refl in
      (
        (
          unlock_list
              (record list { memory = m''; level = level; length = pos (length (xs ++ ys)) }),
          pos 0,
        ),
        rw
            (
              run,
              ◌>>=◌,
              stands.not_null,
              un.kept.live_kept y.address,
              stands.alive,
              un.kept.key_kept y.address,
              un.kept.value_kept y.address,
              shows.has_key,
              shows.has_value,
              lowered,
              fewer,
            )
            refl,
        (
          record {
            header_stands = header;
            towers = towers;
            header_apart =
                All-drop (λ t. (list.header == t.address) ≡ false) xs y ys r.header_apart;
            distinct = Distinct-drop xs y ys r.distinct;
            heights = heights;
            level_bound = omega (arith, le, r.level_bound);
            counted = refl;
            unlocked = refl;
          },
          refl,
        ),
      )
