-- ===== src/Skip/Cut.antt =====
-- The search of a list whose towers before the target stand first.
use kv_study.Prelude.{
  ℕ, suc, ◌≤◌, ◌<◌, ◌≡◌, refl, ap, ◌∙◌, inl, inr, Bool-cases, Bool, true, false, ltb, if◌then◌else◌,
  List, [], ◌∷◌, ◌++◌, length, Run, ok, arith, Returns,
}
use kv_study.Skip.{SkipNode, SkipMemory, SkipList, skip_max_level, forward_at, search}
use kv_study.Skip.Towers.{Tower, next, prev, All, Shows, Towers, Stands-forward_at, after}
use kv_study.Skip.Search.{Stands-after, tall-after, descend_levels-prev}
use kv_study.Skip.State.{Represents, next-short}

module _ {Score : Type 0} where
  abbrev pub front : (Tower Score → Bool) → List (Tower Score) → List (Tower Score)
  front p [] = []
  front p (t ∷ ts) = if p t then t ∷ front p ts else []

  abbrev pub back : (Tower Score → Bool) → List (Tower Score) → List (Tower Score)
  back p [] = []
  back p (t ∷ ts) = if p t then back p ts else t ∷ ts

  -- After a tower that does not satisfy `p` none does.
  abbrev pub Falls : (Tower Score → Bool) → List (Tower Score) → Type 0
  Falls p [] = Unit
  Falls p (t ∷ ts) = (p t ≡ false → All (λ s. p s ≡ false) ts) × Falls p ts

  pub front-back : (p : Tower Score → Bool) (ts : List (Tower Score)) → front p ts ++ back p ts ≡ ts
  front-back p [] = refl
  front-back p (t ∷ ts) = ground (arith, front-back p ts)

  pub front-All :
      (p : Tower Score → Bool) (ts : List (Tower Score)) → All (λ t. p t ≡ true) (front p ts)
  front-All p [] = tt
  front-All p (t ∷ ts) = elim (Bool-cases (p t)) [
    | inl e ↦ rw e (e, front-All p ts)
    | inr e ↦ rw e tt
  ]

  pub back-All :
      (p : Tower Score → Bool) (ts : List (Tower Score))
      → Falls p ts
      → All (λ t. p t ≡ false) (back p ts)
  back-All p [] falls = tt
  back-All p (t ∷ ts) falls = elim (Bool-cases (p t)) [
    | inl e ↦ rw e (back-All p ts falls.1)
    | inr e ↦ rw e (e, falls.0 e)
  ]

  -- The test of the code answers `p` at each tower.
  Answers-All :
      (m : SkipMemory Score) (before : SkipNode Score → Run Bool) (p : Tower Score → Bool)
      (b : Bool)
      → ((t : Tower Score) → Shows m t → before (m.nodes t.address) ≡ ok (p t))
      → (ts : List (Tower Score)) → All (λ t. Shows m t) ts
      → All (λ t. p t ≡ b) ts
      → All (λ t. before (m.nodes t.address) ≡ ok b) ts
  Answers-All m before p b answers [] shows h = tt
  Answers-All m before p b answers (t ∷ ts) shows h =
      (answers t shows.0 ∙ ap (λ c. ok c) h.0, Answers-All m before p b answers ts shows.1 h.1)

  Shows-left :
      (m : SkipMemory Score) (xs ys : List (Tower Score))
      → Towers m (xs ++ ys)
      → All (λ t. Shows m t) xs
  Shows-left m [] ys h = tt
  Shows-left m (x ∷ xs) ys h = (h.1, Shows-left m xs ys h.2)

  Shows-right :
      (m : SkipMemory Score) (xs ys : List (Tower Score))
      → Towers m (xs ++ ys)
      → All (λ t. Shows m t) ys
  Shows-right m [] [] h = tt
  Shows-right m [] (y ∷ ys) h = (h.1, Shows-right m [] ys h.2)
  Shows-right m (x ∷ xs) ys h = Shows-right m xs ys h.2

  length-left : (xs ys : List (Tower Score)) → length xs ≤ length (xs ++ ys)
  length-left [] ys = omega arith
  length-left (x ∷ xs) ys = omega (arith, length-left xs ys)

  pub search-prev :
      (fuel : ℕ) (list : SkipList Score) (before : SkipNode Score → Run Bool)
      (p : Tower Score → Bool) (xs ys : List (Tower Score)) (update : ℕ → ℕ)
      → ((t : Tower Score) → Shows list.memory t → before (list.memory.nodes t.address) ≡ ok (p t))
      → Represents list (xs ++ ys)
      → All (λ t. p t ≡ true) xs
      → All (λ t. p t ≡ false) ys
      → length (xs ++ ys) < fuel
      → Returns (search fuel (record list { locked = true }) before update) λ u.
        ((j : ℕ) → j ≤ list.level → u j ≡ prev j list.header xs)
        × (forward_at list.memory (u 0) 0 ≡ ok (next 0 ys))
  unfolding search
  search-prev fuel list before p xs ys update answers r early late enough =
      let m = list.memory in
      let (u, run, (low, high)) =
        descend_levels-prev m before fuel (suc list.level) list.header skip_max_level xs ys update
          (omega (arith, r.level_bound)) (omega (arith, length-left xs ys)) r.header_stands r.towers
          (Answers-All m before p true answers xs (Shows-left m xs ys r.towers) early)
          (Answers-All m before p false answers ys (Shows-right m xs ys r.towers) late) in
      let inside : ltb skip_max_level list.level ≡ false = ground (arith, r.level_bound) in
      (
        u,
        rw inside run,
        (
          (λ j le. low j (omega arith)),
          rw (low 0 (omega arith)) (
              Stands-forward_at
                (Stands-after m 0 list.header skip_max_level xs ys (omega arith) r.header_stands
                  r.towers)
                0 (omega arith)
              ∙ ap (λ a. ok a) (next-short 0 (after 0 xs) ys (tall-after 0 xs))),
        ),
      )
