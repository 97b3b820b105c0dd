-- ===== src/Skip/Search.antt =====
-- The search of kvs_skiptable_zadd and kvs_skiptable_zrem: where the towers before the target come
-- first in the list, `update[i]` is the last of the header and those towers that has a pointer at
-- level `i`.
use kv_study.Prelude.{
  ℕ, zero, suc, ◌≤◌, ◌<◌, ◌≡◌, refl, ap, ◌∙◌, inl, inr, Bool-cases, Bool, true, false, ◌==◌, ltb,
  leb, leb→le, ltb→lt, Returns, if◌then◌else◌, List, [], ◌∷◌, ◌++◌, length, Run, ok, ◌>>=◌, arith,
}
use kv_study.Skip.{SkipNode, SkipMemory, forward_at, walk, descend_levels}
use kv_study.Skip.Towers.{
  Tower, next, prev, All, Stands, Towers, Stands-skip_node_at, Stands-forward_at, Stands-lower,
  tall, after, prev-short, prev-tall,
}

module _ {Score : Type 0} where
  pub after-short : (i : ℕ) (ts : List (Tower Score)) → tall i ts ≡ false → after i ts ≡ ts
  after-short i [] e = refl
  after-short i (t ∷ ts) e = ground arith

  -- What holds of every tower holds of those after the last tall one.
  pub All-after :
      (P : Tower Score → Type 0) (i : ℕ) (ts : List (Tower Score)) → All P ts → All P (after i ts)
  All-after P i [] h = h
  All-after P i (t ∷ ts) h = elim (Bool-cases (tall i ts)) [
    | inl e ↦ rw e (All-after P i ts h.1)
    | inr e ↦ elim (Bool-cases (leb i t.height)) [ inl le ↦ rw (e, le) h.1 | inr gt ↦ rw (e, gt) h ]
  ]

  pub Towers-after :
      (m : SkipMemory Score) (i : ℕ) (ts ys : List (Tower Score))
      → Towers m (ts ++ ys)
      → Towers m (after i ts ++ ys)
  Towers-after m i [] ys h = h
  Towers-after m i (t ∷ ts) ys h = elim (Bool-cases (tall i ts)) [
    | inl e ↦ rw e (Towers-after m i ts ys h.2)
    | inr e ↦ elim (Bool-cases (leb i t.height)) [ inl le ↦ rw (e, le) h.2 | inr gt ↦ rw (e, gt) h ]
  ]

  pub tall-after : (i : ℕ) (ts : List (Tower Score)) → tall i (after i ts) ≡ false
  tall-after i [] = refl
  tall-after i (t ∷ ts) = ground (arith, tall-after i ts)

  length-after : (i : ℕ) (ts : List (Tower Score)) → length (after i ts) ≤ length ts
  length-after i [] = omega arith
  length-after i (t ∷ ts) = ground (arith, length-after i ts)

  pub prev-after :
      (i j a : ℕ) (ts : List (Tower Score))
      → j ≤ i
      → prev j (prev i a ts) (after i ts) ≡ prev j a ts
  prev-after i j a [] le = refl
  prev-after i j a (t ∷ ts) le = elim (Bool-cases (tall i ts)) [
    | inl e ↦ rw e (
        ap (λ b. prev j b (after i ts))
          (prev-tall i (if leb i t.height then t.address else a)
            (if leb j t.height then t.address else a) ts e)
        ∙ prev-after i j (if leb j t.height then t.address else a) ts le)
    | inr e ↦ elim (Bool-cases (leb i t.height)) [
      | inl high ↦ ground (arith, prev-short i t.address ts, e, high)
      | inr low ↦ ground (arith, prev-short i a ts, e, low)
    ]
  ]

  Stands-tall :
      (m : SkipMemory Score) (i a : ℕ) (ts ys : List (Tower Score))
      → Towers m (ts ++ ys)
      → tall i ts ≡ true
      → Stands m (prev i a ts) i (after i ts ++ ys)
  Stands-tall m i a [] ys h e = absurd (ground (arith, e))
  Stands-tall m i a (t ∷ ts) ys h e = elim (Bool-cases (tall i ts)) [
    | inl e' ↦ rw e' (Stands-tall m i (if leb i t.height then t.address else a) ts ys h.2 e')
    | inr e' ↦
        let high : leb i t.height ≡ true = ground arith in
        rw (e', high, prev-short i t.address ts e') (Stands-lower h.0 (ground arith))
  ]

  pub Stands-after :
      (m : SkipMemory Score) (i a h : ℕ) (ts ys : List (Tower Score))
      → i ≤ h
      → Stands m a h (ts ++ ys)
      → Towers m (ts ++ ys)
      → Stands m (prev i a ts) i (after i ts ++ ys)
  Stands-after m i a h ts ys le s towers = elim (Bool-cases (tall i ts)) [
    | inl e ↦ Stands-tall m i a ts ys towers e
    | inr e ↦ rw (prev-short i a ts e, after-short i ts e) (Stands-lower s le)
  ]

  module _ (m : SkipMemory Score) (before : SkipNode Score → Run Bool) where
    abbrev Answers : Bool → Tower Score → Type 0
    Answers b t = before (m.nodes t.address) ≡ ok b

    walk-stop :
        (fuel i c : ℕ) (ys : List (Tower Score))
        → forward_at m c i ≡ ok (next i ys)
        → Towers m ys
        → All (Answers false) ys
        → walk (suc fuel) m before i c ≡ ok c
    unfolding walk
    walk-stop fuel i c [] f towers late = rw (f, ◌>>=◌) refl
    walk-stop fuel i c (y ∷ ys) f towers late = elim (Bool-cases (leb i y.height)) [
      | inl e ↦ ground (arith, f, e, towers.0.not_null, Stands-skip_node_at towers.0, late.0)
      | inr e ↦ walk-stop fuel i c ys (rw e at f) towers.2 late.1
    ]

    walk-prev :
        (fuel i c : ℕ) (q ys : List (Tower Score))
        → length q < fuel
        → forward_at m c i ≡ ok (next i (q ++ ys))
        → Towers m (q ++ ys)
        → All (Answers true) q
        → All (Answers false) ys
        → walk fuel m before i c ≡ ok (prev i c q)
    unfolding walk
    walk-prev zero i c q ys less f towers early late = absurd (omega arith)
    walk-prev (suc fuel) i c [] ys less f towers early late = walk-stop fuel i c ys f towers late
    walk-prev (suc fuel) i c (t ∷ q) ys less f towers early late =
        elim (Bool-cases (leb i t.height)) [
          | inl e ↦ ground (
            arith,
            f,
            e,
            towers.0.not_null,
            Stands-skip_node_at towers.0,
            early.0,
            walk-prev fuel i t.address q ys (omega arith)
                (Stands-forward_at towers.0 i (leb→le i t.height e)) towers.2 early.1 late,
          )
          | inr e ↦
              rw e (walk-prev (suc fuel) i c q ys (omega arith) (rw e at f) towers.2 early.1 late)
        ]

    pub descend_levels-prev :
        (fuel levels c h : ℕ) (q ys : List (Tower Score)) (update : ℕ → ℕ)
        → levels ≤ suc h
        → length q < fuel
        → Stands m c h (q ++ ys)
        → Towers m (q ++ ys)
        → All (Answers true) q
        → All (Answers false) ys
        → Returns
            (descend_levels fuel m before levels c update)
            λ u. ((j : ℕ) → j < levels → u j ≡ prev j c q) × ((j : ℕ) → levels ≤ j → u j ≡ update j)
    unfolding descend_levels
    descend_levels-prev fuel zero c h q ys update le less s towers early late =
        (update, refl, ((λ j below. absurd (omega arith)), λ j above. refl))
    descend_levels-prev fuel (suc i) c h q ys update le less s towers early late =
        let c' = prev i c q in
        let update' : ℕ → ℕ = λ j. if j == i then c' else update j in
        let walked =
          walk-prev fuel i c q ys less (Stands-forward_at s i (omega arith)) towers early late in
        let (u, run, (low, high)) =
          descend_levels-prev fuel i c' i (after i q) ys update' (omega arith)
            (omega (arith, length-after i q)) (Stands-after m i c h q ys (omega arith) s towers)
            (Towers-after m i q ys towers) (All-after (Answers true) i q early) late in
        (
          u,
          rw (walked, ◌>>=◌) run,
          (
            (λ j below. elim (Bool-cases (ltb j i)) [
              | inl e ↦ low j (ltb→lt j i e) ∙ prev-after i j c q (omega (arith, ltb→lt j i e))
              | inr e ↦
                  let same : j ≡ i = ground arith in rw same (high i (omega arith) ∙ ground arith)
            ]),
            λ j above. high j (omega arith) ∙ ground arith,
          ),
        )
