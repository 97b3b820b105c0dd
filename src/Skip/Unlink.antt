-- ===== src/Skip/Unlink.antt =====
-- The loop of kvs_skiptable_zrem that takes a node out of the list: which pointers it leaves.
use kv_study.Prelude.{
  ℕ, zero, suc, ◌+◌, ◌≤◌, ◌<◌, ◌≡◌, refl, ap, ◌∙◌, inl, inr, Bool-cases, false, ◌&&◌, ◌==◌, ltb,
  leb, leb→le, if◌then◌else◌, Returns, ◌>>=◌, arith,
}
use kv_study.Skip.{SkipMemory, write_node, with_forward}
use kv_study.Skip.Calls.{unlink_node}
use kv_study.Skip.Splice.{
  Cell, Cell-forward_at, Cell-set_forward, Kept, Kept-write, Kept-trans, Kept-Cell,
}

module _ {Score : Type 0} where
  -- The cells of `u` at the levels of the node at `c`, up to `height`, lead to what it led to.
  pub record Unlinked (m m' : SkipMemory Score) (c height : ℕ) (u : ℕ → ℕ) (i n : ℕ) : Type 0 where
    pub kept : Kept m m'
    pub pointers :
        (b j : ℕ)
        → (m'.nodes b).forward j ≡ (
            if (leb i j && ltb j (i + n)) && (leb j height && b == u j)
            then (m.nodes c).forward j
            else (m.nodes b).forward j)

  -- One round of the loop.
  abbrev bypass : SkipMemory Score → ℕ → ℕ → ℕ → SkipMemory Score
  bypass m c u i = write_node m u (with_forward (m.nodes u) i ((m.nodes c).forward i))

  bypass-other :
      (m : SkipMemory Score) (c u i b j : ℕ)
      → ((bypass m c u i).nodes b).forward j
        ≡ (if j == i && b == u then (m.nodes c).forward i else (m.nodes b).forward j)
  bypass-other m c u i b j = elim (Bool-cases (b == u)) [
    | inl e ↦ let path : b ≡ u = ground arith in rw path (ground arith)
    | inr e ↦ rw e (ground arith)
  ]

  bypass-later :
      (m : SkipMemory Score) (c u i b j : ℕ)
      → suc i ≤ j
      → ((bypass m c u i).nodes b).forward j ≡ (m.nodes b).forward j
  bypass-later m c u i b j low = bypass-other m c u i b j ∙ ground arith

  pointers_step :
      (m : SkipMemory Score) (c height : ℕ) (u : ℕ → ℕ) (i n b j : ℕ)
      → (c == u i) ≡ false
      → i ≤ height
      → (if (leb (suc i) j && ltb j (suc i + n)) && (leb j height && b == u j)
          then ((bypass m c (u i) i).nodes c).forward j
          else ((bypass m c (u i) i).nodes b).forward j)
        ≡ (if (leb i j && ltb j (i + suc n)) && (leb j height && b == u j)
            then (m.nodes c).forward j
            else (m.nodes b).forward j)
  pointers_step m c height u i n b j e le = elim (Bool-cases (j == i)) [
    | inl same ↦
        let path : j ≡ i = ground arith in
        rw (bypass-other m c (u i) i b j, bypass-other m c (u i) i c j, path) (ground (arith, le))
    | inr differ ↦
        rw (bypass-other m c (u i) i b j, bypass-other m c (u i) i c j, differ) (ground arith)
  ]

  stopped :
      (m : SkipMemory Score) (c height : ℕ) (u : ℕ → ℕ) (i n : ℕ)
      → ((j : ℕ) → ((leb i j && ltb j (i + n)) && leb j height) ≡ false)
      → Unlinked m m c height u i n
  stopped m c height u i n none_left = record {
    kept = record {
      live_kept = λ x. refl;
      key_kept = λ x. refl;
      value_kept = λ x. refl;
      score_kept = λ x. refl;
      slots_kept = λ x. refl;
    };
    pointers = λ b j. ground (arith, none_left j);
  }

  pub unlink_node-Unlinked :
      (c height : ℕ) (u : ℕ → ℕ) (n i : ℕ) (m : SkipMemory Score)
      → ((j : ℕ) → i ≤ j → j < i + n → Cell m (u j) j)
      → ((j : ℕ) → j ≤ height → Cell m c j)
      → ((j : ℕ) → i ≤ j → j < i + n → (c == u j) ≡ false)
      → ((j : ℕ) → i ≤ j → j < i + n → ((m.nodes (u j)).forward j == c) ≡ leb j height)
      → Returns (unlink_node m c u i n) (λ m'. Unlinked m m' c height u i n)
  unfolding unlink_node
  unlink_node-Unlinked c height u zero i m cells own apart leads =
      (m, refl, stopped m c height u i zero (λ j. ground arith))
  unlink_node-Unlinked c height u (suc n) i m cells own apart leads =
      elim (Bool-cases (leb i height)) [
        | inr above ↦ (
          m,
          rw
              (
                Cell-forward_at (cells i (omega arith) (omega arith)),
                ◌>>=◌,
                leads i (omega arith) (omega arith),
                above,
              )
              refl,
          stopped m c height u i (suc n) (λ j. ground (arith, above)),
        )
        | inl inside ↦
            let cell = cells i (omega arith) (omega arith) in
            let kept = Kept-write m (u i) i ((m.nodes c).forward i) in
            let (m', run, s) =
              unlink_node-Unlinked c height u n (suc i) (bypass m c (u i) i)
                (λ j low below. Kept-Cell kept (cells j (omega arith) (omega arith)))
                (λ j le. Kept-Cell kept (own j le))
                (λ j low below. apart j (omega arith) (omega arith))
                (λ j low below.
                  ap (λ v. v == c) (bypass-later m c (u i) i (u j) j low)
                  ∙ leads j (omega arith) (omega arith)) in
            (
              m',
              rw
                  (
                    Cell-forward_at cell,
                    ◌>>=◌,
                    leads i (omega arith) (omega arith),
                    inside,
                    Cell-forward_at (own i (leb→le i height inside)),
                    Cell-set_forward cell ((m.nodes c).forward i),
                  )
                  run,
              record {
                kept = Kept-trans kept s.kept;
                pointers = λ b j.
                    s.pointers b j
                    ∙ pointers_step m c height u i n b j (apart i (omega arith) (omega arith))
                        (ground arith);
              },
            )
      ]
