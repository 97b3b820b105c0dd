-- ===== src/Skip/Add.antt =====
-- A new node of kvs_skiptable_zadd, allocated and spliced in after the towers `xs`.
use kv_study.Prelude.{
  ℕ, zero, suc, ◌+◌, ◌≤◌, ◌<◌, ◌≡◌, refl, sym, ap, ◌∙◌, inl, inr, Bool-cases, true, false, ◌==◌,
  ltb, leb, leb→le, ltb→lt, if◌then◌else◌, List, [], ◌∷◌, ◌++◌, length, ℤ, pos, Str, ok, ◌>>=◌,
  arith, Returns,
}
use kv_study.Skip.{
  SkipMemory, SkipList, Allocation, skip_max_level, with_node, random_level, climb_level,
  create_skip_node, increment, unlock_list,
}
use kv_study.Skip.Towers.{Tower, next, prev, Stands, Shows, Towers, prev-short, after}
use kv_study.Skip.Search.{Stands-after, tall-after}
use kv_study.Skip.Splice.{Spliced, splice-Spliced}
use kv_study.Skip.State.{
  Apart, Represents, Frame, Stands-frame, Towers-frame, next-short, prev-Apart, splice-Stands,
  splice-Towers,
}
use kv_study.Skip.Lists.{
  flip_eq, All-insert, All-left, All-right, All-map, All-zip, Distinct-insert, Distinct-left,
  Distinct-across, fresh-differs, fresh-Apart, Stands-Cell, tall-heights,
}
use kv_study.Skip.Calls.{splice, raise, add_node}

climb_level-bound :
    (left : ℕ) (rand : ℕ → ℕ) (level : ℕ) → climb_level left rand level ≤ left + level
unfolding climb_level
climb_level-bound zero rand level = omega arith
climb_level-bound (suc left) rand level = ground (arith, climb_level-bound left rand (suc level))

pub random_level-bound : (rand : ℕ → ℕ) → random_level rand ≤ skip_max_level
unfolding random_level
random_level-bound rand = climb_level-bound 6 rand 0

module _ {Score : Type 0} where
  -- All allocations of a `createSkipNode` succeed, at an address that is not in use.
  pub record Succeeds (m : SkipMemory Score) (alloc : Allocation) : Type 0 where
    pub not_null : (alloc.address == 0) ≡ false
    pub unused : m.live alloc.address ≡ false
    pub key_duplicated : alloc.key_copied ≡ true
    pub value_duplicated : alloc.value_copied ≡ true
    pub array : alloc.forward_allocated ≡ true

  abbrev pub tower_of : Allocation → (height : ℕ) → Str → Str → Score → Tower Score
  tower_of alloc height key value score = record {
    address = alloc.address;
    key = key;
    value = value;
    score = score;
    height = height;
  }

  pub Towers-right :
      (m : SkipMemory Score) (xs ys : List (Tower Score)) → Towers m (xs ++ ys) → Towers m ys
  Towers-right m [] ys h = h
  Towers-right m (x ∷ xs) ys h = Towers-right m xs ys h.2

  pub length-insert :
      (t : Tower Score) (xs ys : List (Tower Score))
      → length (xs ++ (t ∷ ys)) ≡ suc (length (xs ++ ys))
  length-insert t [] ys = refl
  length-insert t (x ∷ xs) ys = ap suc (length-insert t xs ys)

module _ {Score : Type 0} (list : SkipList Score) (xs ys : List (Tower Score))
    (r : Represents list (xs ++ ys)) (alloc : Allocation) (s : Succeeds list.memory alloc)
    (u : ℕ → ℕ) (found : (j : ℕ) → j ≤ list.level → u j ≡ prev j list.header xs) (level : ℕ)
    (bound : level ≤ skip_max_level) (key value : Str) (score : Score) where
  abbrev made : SkipMemory Score
  made = with_node list.memory alloc level key value score

  abbrev new : Tower Score
  new = tower_of alloc level key value score

  made-Frame : (a : ℕ) → (alloc.address == a) ≡ false → Frame list.memory made a
  made-Frame a e = record {
    same_live = ground (arith, flip_eq alloc.address a e);
    same_key = ground (arith, flip_eq alloc.address a e);
    same_value = ground (arith, flip_eq alloc.address a e);
    same_score = ground (arith, flip_eq alloc.address a e);
    same_slots = ground (arith, flip_eq alloc.address a e);
    same_forward = λ j. ground (arith, flip_eq alloc.address a e);
  }

  header-new : (alloc.address == list.header) ≡ false
  header-new = fresh-differs list.memory alloc.address list.header s.unused r.header_stands.alive

  all-new : Apart alloc.address (xs ++ ys)
  all-new = fresh-Apart list.memory alloc.address (xs ++ ys) s.unused r.towers

  made-Towers : Towers made (xs ++ ys)
  made-Towers =
      Towers-frame list.memory made (xs ++ ys)
        (All-map (λ t. (alloc.address == t.address) ≡ false) (λ t. Frame list.memory made t.address)
          (xs ++ ys) (λ t e. made-Frame t.address e) all-new)
        r.towers

  made-header : Stands made list.header skip_max_level (xs ++ ys)
  made-header =
      Stands-frame list.memory made list.header skip_max_level (xs ++ ys)
        (made-Frame list.header header-new) r.header_stands

  -- The cells of `update` after those above the old level were set to the header.
  raised : (j : ℕ) → j ≤ level → raise list level u j ≡ prev j list.header xs
  raised j le = elim (Bool-cases (ltb list.level j)) [
    | inl above ↦ ground (
      arith,
      above,
      prev-short j list.header xs (
          tall-heights list.level j xs (All-left (λ t. t.height ≤ list.level) xs ys r.heights)
            (ltb→lt list.level j above)),
    )
    | inr below ↦ ground (arith, below, found j (ground arith))
  ]

  prev-Stands :
      (j : ℕ) → j ≤ skip_max_level → Stands made (prev j list.header xs) j (after j xs ++ ys)
  prev-Stands j le = Stands-after made j list.header skip_max_level xs ys le made-header made-Towers

  prev-new : (j : ℕ) → (prev j list.header xs == alloc.address) ≡ false
  prev-new j = flip_eq alloc.address (prev j list.header xs) (
      prev-Apart j alloc.address list.header xs header-new
        (All-left (λ t. (alloc.address == t.address) ≡ false) xs ys all-new))

  spliced :
      Returns
        (splice made alloc.address (raise list level u) 0 (suc level))
        (λ m'. Spliced made m' alloc.address (raise list level u) 0 (suc level))
  spliced =
      splice-Spliced alloc.address (raise list level u) (suc level) 0 made
        (λ j low below. rw (raised j (omega arith)) (Stands-Cell (prev-Stands j (omega arith))))
        (λ j low below. rw (raised j (omega arith)) (prev-new j))
        (λ j below. record { not_null = s.not_null; alive = ground arith; room = ground arith })

  module _ (m' : SkipMemory Score)
      (sp : Spliced made m' alloc.address (raise list level u) 0 (suc level)) where
    new-links : (j : ℕ) → j ≤ level → (m'.nodes alloc.address).forward j ≡ next j ys
    new-links j le =
        let stands = prev-Stands j (omega arith) in
        sp.inserted j
        ∙ ground (
          arith,
          raised j le,
          stands.links j (omega arith),
          next-short j (after j xs) ys (tall-after j xs),
        )

    new-Stands : Stands m' alloc.address level ys
    new-Stands = record {
      not_null = s.not_null;
      alive = sp.kept.live_kept alloc.address ∙ ground arith;
      room = ground (arith, sp.kept.slots_kept alloc.address);
      links = new-links;
    }

    new-Shows : Shows m' new
    new-Shows = record {
      has_key = sp.kept.key_kept alloc.address ∙ ground (arith, s.key_duplicated);
      has_value = sp.kept.value_kept alloc.address ∙ ground (arith, s.value_duplicated);
      has_score = sp.kept.score_kept alloc.address ∙ ground arith;
    }

    -- A tower after the new one keeps its pointers.
    later-Frame :
        (y : Tower Score)
        → (((alloc.address == y.address) ≡ false) × ((list.header == y.address) ≡ false))
          × Apart y.address xs
        → Frame made m' y.address
    later-Frame y h = record {
      same_live = sp.kept.live_kept y.address;
      same_key = sp.kept.key_kept y.address;
      same_value = sp.kept.value_kept y.address;
      same_score = sp.kept.score_kept y.address;
      same_slots = sp.kept.slots_kept y.address;
      same_forward = λ j.
          sp.others y.address j (flip_eq alloc.address y.address h.0.0)
          ∙ elim (Bool-cases (leb j level)) [
            | inl inside ↦ ground (
              arith,
              inside,
              raised j (leb→le j level inside),
              prev-Apart j y.address list.header xs (flip_eq list.header y.address h.0.1) h.1,
            )
            | inr outside ↦ ground (arith, outside)
          ];
    }

    later-Towers : Towers m' ys
    later-Towers =
        Towers-frame made m' ys
          (All-map
            (λ y.
              (((alloc.address == y.address) ≡ false) × ((list.header == y.address) ≡ false))
              × Apart y.address xs)
            (λ y. Frame made m' y.address) ys later-Frame
            (All-zip
              (λ y. ((alloc.address == y.address) ≡ false) × ((list.header == y.address) ≡ false))
              (λ y. Apart y.address xs) ys
              (All-zip (λ y. (alloc.address == y.address) ≡ false)
                (λ y. (list.header == y.address) ≡ false) ys
                (All-right (λ y. (alloc.address == y.address) ≡ false) xs ys all-new)
                (All-right (λ y. (list.header == y.address) ≡ false) xs ys r.header_apart))
              (Distinct-across xs ys r.distinct)))
          (Towers-right made xs ys made-Towers)

    abbrev grown : ℤ → SkipList Score
    grown length = unlock_list (record list {
      memory = m';
      level = if ltb list.level level then level else list.level;
      length = length;
    })

    grown-Represents : Represents (grown (pos (suc (length (xs ++ ys))))) (xs ++ (new ∷ ys))
    grown-Represents = record {
      header_stands =
          splice-Stands made m' new (raise list level u) sp list.header skip_max_level xs ys
            (flip_eq alloc.address list.header header-new)
            (All-left (λ t. (list.header == t.address) ≡ false) xs ys r.header_apart)
            (λ j low le. raised j le) made-header;
      towers =
          splice-Towers made m' new (raise list level u) sp (λ j. list.header) xs ys
            (All-left (λ t. (alloc.address == t.address) ≡ false) xs ys all-new)
            (Distinct-left xs ys r.distinct) raised made-Towers
            (new-Stands, new-Shows, later-Towers);
      header_apart =
          All-insert (λ t. (list.header == t.address) ≡ false) new xs ys
            (flip_eq alloc.address list.header header-new) r.header_apart;
      distinct = Distinct-insert new xs ys all-new r.distinct;
      heights =
          All-insert (λ t. t.height ≤ (if ltb list.level level then level else list.level)) new xs
            ys (ground arith)
            (All-map (λ t. t.height ≤ list.level)
              (λ t. t.height ≤ (if ltb list.level level then level else list.level)) (xs ++ ys)
              (λ t h. ground (arith, h)) r.heights);
      level_bound = ground (arith, r.level_bound);
      counted = ap pos (sym (length-insert new xs ys));
      unlocked = refl;
    }

    grows :
        increment list.length ≡ ok (pos (suc (length (xs ++ ys))))
        → (rand : ℕ → ℕ) → random_level rand ≡ level
        → splice made alloc.address (raise list level u) 0 (suc level) ≡ ok m'
        → add_node rand alloc (record list { locked = true }) u key value score
          ≡ ok (grown (pos (suc (length (xs ++ ys)))), pos 0)
    unfolding add_node create_skip_node
    grows counted rand e run = rw (e, s.not_null, s.array, ◌>>=◌, run, counted) refl

module _ {Score : Type 0} where
  -- The node is added between the towers before the target and the others.
  pub add_node-Represents :
      (list : SkipList Score) (xs ys : List (Tower Score))
      → Represents list (xs ++ ys)
      → (alloc : Allocation) → Succeeds list.memory alloc
      → (u : ℕ → ℕ) → ((j : ℕ) → j ≤ list.level → u j ≡ prev j list.header xs)
      → length (xs ++ ys) < 2147483647
      → (rand : ℕ → ℕ) (key value : Str) (score : Score)
      → Returns (add_node rand alloc (record list { locked = true }) u key value score) λ result.
        Represents result.0 (xs ++ (tower_of alloc (random_level rand) key value score ∷ ys))
        × (result.1 ≡ pos 0)
  unfolding increment
  add_node-Represents list xs ys r alloc s u found few rand key value score =
      let level = random_level rand in
      let bound = random_level-bound rand in
      let (m', run, sp) = spliced list xs ys r alloc s u found level bound key value score in
      let counted : increment list.length ≡ ok (pos (suc (length (xs ++ ys)))) =
        rw r.counted (ground (arith, few)) in
      (
        (
          grown list xs ys r alloc s u found level bound key value score m' sp
              (pos (suc (length (xs ++ ys)))),
          pos 0,
        ),
        grows list xs ys r alloc s u found level bound key value score m' sp counted rand refl run,
        (grown-Represents list xs ys r alloc s u found level bound key value score m' sp, refl),
      )
