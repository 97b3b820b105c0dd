-- ===== src/Skip/Remove.antt =====
-- The node that kvs_skiptable_zrem takes out of the list, the first after the towers `xs`.
use kv_study.Prelude.{
  ℕ, suc, ◌≤◌, ◌≡◌, ◌∙◌, inl, inr, Bool-cases, false, not, ◌&&◌, ◌==◌, leb, leb→le, if◌then◌else◌,
  List, [], ◌∷◌, ◌++◌, arith, Returns,
}
use kv_study.Skip.{SkipMemory, SkipList, skip_max_level}
use kv_study.Skip.Towers.{
  Tower, next, prev, All, Stands, Shows, Towers, Stands-lower, tall, prev-short, after,
}
use kv_study.Skip.Search.{Stands-after, tall-after}
use kv_study.Skip.State.{
  Apart, Distinct, Represents, Frame, Towers-frame, next-short, next-tall, prev-Apart,
  prev-tall-Apart,
}
use kv_study.Skip.Lists.{
  flip_eq, All-left, All-right, All-map, All-zip, Distinct-left, Distinct-across, Stands-Cell,
}
use kv_study.Skip.Add.{Towers-right}
use kv_study.Skip.Revalue.{Towers-middle}
use kv_study.Skip.Unlink.{Unlinked, unlink_node-Unlinked}
use kv_study.Skip.Calls.{unlink_node}

module _ {Score : Type 0} where
  pub All-drop :
      (P : Tower Score → Type 0) (xs : List (Tower Score)) (y : Tower Score)
      (ys : List (Tower Score))
      → All P (xs ++ (y ∷ ys))
      → All P (xs ++ ys)
  All-drop P [] y ys h = h.1
  All-drop P (x ∷ xs) y ys h = (h.0, All-drop P xs y ys h.1)

  pub Distinct-drop :
      (xs : List (Tower Score)) (y : Tower Score) (ys : List (Tower Score))
      → Distinct (xs ++ (y ∷ ys))
      → Distinct (xs ++ ys)
  Distinct-drop [] y ys d = d.1
  Distinct-drop (x ∷ xs) y ys d =
      (All-drop (λ t. (x.address == t.address) ≡ false) xs y ys d.0, Distinct-drop xs y ys d.1)

  -- A tower in the middle has another address than all others.
  Apart-middle :
      (xs : List (Tower Score)) (y : Tower Score) (ys : List (Tower Score))
      → Distinct (xs ++ (y ∷ ys))
      → Apart y.address (xs ++ ys)
  Apart-middle [] y ys d = d.0
  Apart-middle (x ∷ xs) y ys d = (
    flip_eq x.address y.address
        (All-right (λ t. (x.address == t.address) ≡ false) xs (y ∷ ys) d.0).0,
    Apart-middle xs y ys d.1,
  )

  next-Apart :
      (i a : ℕ) (ts : List (Tower Score)) → (a == 0) ≡ false → Apart a ts → (next i ts == a) ≡ false
  next-Apart i a [] e apart = flip_eq a 0 e
  next-Apart i a (t ∷ ts) e apart = elim (Bool-cases (leb i t.height)) [
    | inl high ↦ rw high (flip_eq a t.address apart.0)
    | inr low ↦ rw low (next-Apart i a ts e apart.1)
  ]

  -- `list` without the tower `y`; `u` is what the search leaves in `update`.
  module _ (list : SkipList Score) (xs : List (Tower Score)) (y : Tower Score)
      (ys : List (Tower Score)) (r : Represents list (xs ++ (y ∷ ys))) (u : ℕ → ℕ)
      (found : (j : ℕ) → j ≤ list.level → u j ≡ prev j list.header xs) where
    abbrev pub m : SkipMemory Score
    m = list.memory

    middle : Stands m y.address y.height ys × Shows m y
    middle = Towers-middle m xs y ys r.towers

    y-Apart : Apart y.address (xs ++ ys)
    y-Apart = Apart-middle xs y ys r.distinct

    y-header : (y.address == list.header) ≡ false
    y-header =
        flip_eq list.header y.address
          (All-right (λ t. (list.header == t.address) ≡ false) xs (y ∷ ys) r.header_apart).0

    y-height : y.height ≤ list.level
    y-height = (All-right (λ t. t.height ≤ list.level) xs (y ∷ ys) r.heights).0

    before-Stands :
        (j : ℕ) → j ≤ skip_max_level → Stands m (prev j list.header xs) j (after j xs ++ (y ∷ ys))
    before-Stands j le =
        Stands-after m j list.header skip_max_level xs (y ∷ ys) le r.header_stands r.towers

    before-apart : (j : ℕ) → (y.address == prev j list.header xs) ≡ false
    before-apart j =
        prev-Apart j y.address list.header xs y-header
          (All-left (λ t. (y.address == t.address) ≡ false) xs ys y-Apart)

    leads_to : (j : ℕ) → j ≤ list.level → ((m.nodes (u j)).forward j == y.address) ≡ leb j y.height
    leads_to j le =
        let link =
          (before-Stands j (omega (arith, r.level_bound))).links j (omega arith)
          ∙ next-short j (after j xs) (y ∷ ys) (tall-after j xs) in
        rw (found j le, link)
          (elim (Bool-cases (leb j y.height)) [
            | inl high ↦ rw high (ground arith)
            | inr low ↦ rw low (
                next-Apart j y.address ys middle.0.not_null
                  (All-right (λ t. (y.address == t.address) ≡ false) xs ys y-Apart))
          ])

    pub unlinked :
        Returns
          (unlink_node m y.address u 0 (suc list.level))
          (λ m'. Unlinked m m' y.address y.height u 0 (suc list.level))
    unlinked =
        unlink_node-Unlinked y.address y.height u (suc list.level) 0 m
          (λ j low below.
            rw (found j (omega arith))
              (Stands-Cell (before-Stands j (omega (arith, r.level_bound)))))
          (λ j le. Stands-Cell (Stands-lower middle.0 le))
          (λ j low below. rw (found j (omega arith)) (before-apart j))
          (λ j low below. leads_to j (omega arith))

    module _ (m' : SkipMemory Score)
        (un : Unlinked m m' y.address y.height u 0 (suc list.level)) where
      -- The memory when the node is freed.
      abbrev pub freed : SkipMemory Score
      freed = record m' { live = λ b. not (b == y.address) && m'.live b }

      drop-Stands :
          (a h : ℕ) (ps : List (Tower Score))
          → (y.address == a) ≡ false
          → Apart a ps
          → ((j : ℕ) → j ≤ h → j ≤ y.height → u j ≡ prev j a ps)
          → Stands m a h (ps ++ (y ∷ ys))
          → Stands freed a h (ps ++ ys)
      drop-Stands a h ps e apart reach s = record {
        not_null = s.not_null;
        alive = ground (arith, flip_eq y.address a e, un.kept.live_kept a, s.alive);
        room = rw (un.kept.slots_kept a) s.room;
        links = λ j le. elim (Bool-cases (leb j y.height)) [
          | inl inside ↦ elim (Bool-cases (tall j ps)) [
            | inl high ↦ ground (
              arith,
              un.pointers a j,
              inside,
              prev-tall-Apart j a a ps high apart,
              reach j le (leb→le j y.height inside),
              next-tall j ps ys (y ∷ ys) high,
              s.links j le,
            )
            | inr low ↦ ground (
              arith,
              un.pointers a j,
              inside,
              prev-short j a ps low,
              y-height,
              reach j le (leb→le j y.height inside),
              next-short j ps ys low,
              middle.0.links j (leb→le j y.height inside),
            )
          ]
          | inr outside ↦ elim (Bool-cases (tall j ps)) [
            | inl high ↦
                ground
                  (arith, un.pointers a j, outside, next-tall j ps ys (y ∷ ys) high, s.links j le)
            | inr low ↦ ground (
              arith,
              un.pointers a j,
              outside,
              next-short j ps ys low,
              next-short j ps (y ∷ ys) low,
              s.links j le,
            )
          ]
        ];
      }

      drop-Shows : (b : Tower Score) → Shows m b → Shows freed b
      drop-Shows b s = record {
        has_key = un.kept.key_kept b.address ∙ s.has_key;
        has_value = un.kept.value_kept b.address ∙ s.has_value;
        has_score = un.kept.score_kept b.address ∙ s.has_score;
      }

      drop-Towers :
          (start : ℕ → ℕ) (ps : List (Tower Score))
          → Apart y.address ps
          → Distinct ps
          → ((j : ℕ) → j ≤ y.height → u j ≡ prev j (start j) ps)
          → Towers m (ps ++ (y ∷ ys))
          → Towers freed ys
          → Towers freed (ps ++ ys)
      drop-Towers start [] apart distinct reach towers bottom = bottom
      drop-Towers start (x ∷ ps) apart distinct reach towers bottom = (
        drop-Stands x.address x.height ps apart.0 distinct.0
            (λ j le le'. reach j le' ∙ ground arith) towers.0,
        drop-Shows x towers.1,
        drop-Towers (λ j. if leb j x.height then x.address else start j) ps apart.1 distinct.1 reach
            towers.2 bottom,
      )

      -- A tower after the one that is taken out keeps its node.
      later-Frame :
          (t : Tower Score)
          → (((y.address == t.address) ≡ false) × ((list.header == t.address) ≡ false))
            × Apart t.address xs
          → Frame m freed t.address
      later-Frame t h = record {
        same_live = ground (arith, flip_eq y.address t.address h.0.0, un.kept.live_kept t.address);
        same_key = un.kept.key_kept t.address;
        same_value = un.kept.value_kept t.address;
        same_score = un.kept.score_kept t.address;
        same_slots = un.kept.slots_kept t.address;
        same_forward = λ j. un.pointers t.address j ∙ elim (Bool-cases (leb j y.height)) [
          | inl inside ↦ ground (
            arith,
            inside,
            y-height,
            found j (omega (arith, leb→le j y.height inside, y-height)),
            prev-Apart j t.address list.header xs (flip_eq list.header t.address h.0.1) h.1,
          )
          | inr outside ↦ ground (arith, outside)
        ];
      }

      later-Towers : Towers freed ys
      later-Towers =
          Towers-frame m freed ys
            (All-map
              (λ t.
                (((y.address == t.address) ≡ false) × ((list.header == t.address) ≡ false))
                × Apart t.address xs)
              (λ t. Frame m freed t.address) ys later-Frame
              (All-zip
                (λ t. ((y.address == t.address) ≡ false) × ((list.header == t.address) ≡ false))
                (λ t. Apart t.address xs) ys
                (All-zip (λ t. (y.address == t.address) ≡ false)
                  (λ t. (list.header == t.address) ≡ false) ys
                  (All-right (λ t. (y.address == t.address) ≡ false) xs ys y-Apart)
                  (All-right (λ t. (list.header == t.address) ≡ false) xs ys
                    (All-drop (λ t. (list.header == t.address) ≡ false) xs y ys r.header_apart)))
                (Distinct-across xs ys (Distinct-drop xs y ys r.distinct))))
            (Towers-right m (y ∷ []) ys (Towers-right m xs (y ∷ ys) r.towers))

      reached : (j : ℕ) → j ≤ y.height → u j ≡ prev j list.header xs
      reached j le = found j (omega (arith, y-height))

      pub freed-header : Stands freed list.header skip_max_level (xs ++ ys)
      freed-header =
          drop-Stands list.header skip_max_level xs y-header
            (All-left (λ t. (list.header == t.address) ≡ false) xs ys
              (All-drop (λ t. (list.header == t.address) ≡ false) xs y ys r.header_apart))
            (λ j le le'. reached j le') r.header_stands

      pub freed-Towers : Towers freed (xs ++ ys)
      freed-Towers =
          drop-Towers (λ j. list.header) xs
            (All-left (λ t. (y.address == t.address) ≡ false) xs ys y-Apart)
            (Distinct-left xs ys (Distinct-drop xs y ys r.distinct)) reached r.towers later-Towers
