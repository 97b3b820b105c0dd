-- ===== src/Skip/Splice.antt =====
-- The loop of kvs_skiptable_zadd that puts a node into the list: which pointers it leaves.
use kv_study.Prelude.{
  ℕ, zero, suc, ◌+◌, ◌≤◌, ◌<◌, ◌≡◌, refl, ◌∙◌, inl, inr, Bool-cases, true, false, ◌&&◌, ◌==◌, ltb,
  leb, if◌then◌else◌, Returns, ok, ◌>>=◌, arith,
}
use kv_study.Skip.{SkipMemory, skip_node_at, write_node, with_forward, forward_at, set_forward}
use kv_study.Skip.Calls.{splice}

module _ {Score : Type 0} where
  pub record Cell (m : SkipMemory Score) (a i : ℕ) : Type 0 where
    pub not_null : (a == 0) ≡ false
    pub alive : m.live a ≡ true
    pub room : ltb i (m.nodes a).slots ≡ true

  pub Cell-forward_at :
      {m : SkipMemory Score} {a i : ℕ} → Cell m a i → forward_at m a i ≡ ok ((m.nodes a).forward i)
  unfolding forward_at skip_node_at
  Cell-forward_at c = rw (c.not_null, c.alive, ◌>>=◌, c.room) refl

  pub Cell-set_forward :
      {m : SkipMemory Score} {a i : ℕ}
      → Cell m a i
      → (v : ℕ) → set_forward m a i v ≡ ok (write_node m a (with_forward (m.nodes a) i v))
  unfolding set_forward skip_node_at
  Cell-set_forward c v = rw (c.not_null, c.alive, ◌>>=◌, c.room) refl

  -- `m'` is `m` but for the pointers.
  pub record Kept (m m' : SkipMemory Score) : Type 0 where
    pub live_kept : (b : ℕ) → m'.live b ≡ m.live b
    pub key_kept : (b : ℕ) → (m'.nodes b).key ≡ (m.nodes b).key
    pub value_kept : (b : ℕ) → (m'.nodes b).value ≡ (m.nodes b).value
    pub score_kept : (b : ℕ) → (m'.nodes b).score ≡ (m.nodes b).score
    pub slots_kept : (b : ℕ) → (m'.nodes b).slots ≡ (m.nodes b).slots

  pub Kept-trans : {a b c : SkipMemory Score} → Kept a b → Kept b c → Kept a c
  Kept-trans p q = record {
    live_kept = λ x. q.live_kept x ∙ p.live_kept x;
    key_kept = λ x. q.key_kept x ∙ p.key_kept x;
    value_kept = λ x. q.value_kept x ∙ p.value_kept x;
    score_kept = λ x. q.score_kept x ∙ p.score_kept x;
    slots_kept = λ x. q.slots_kept x ∙ p.slots_kept x;
  }

  pub Kept-write :
      (m : SkipMemory Score) (a i v : ℕ) → Kept m (write_node m a (with_forward (m.nodes a) i v))
  Kept-write m a i v = record {
    live_kept = λ x. refl;
    key_kept = λ x. ground arith;
    value_kept = λ x. ground arith;
    score_kept = λ x. ground arith;
    slots_kept = λ x. ground arith;
  }

  pub Kept-Cell : {m m' : SkipMemory Score} {a i : ℕ} → Kept m m' → Cell m a i → Cell m' a i
  Kept-Cell {m} {m'} {a} k c = record {
    not_null = c.not_null;
    alive = k.live_kept a ∙ c.alive;
    room = rw (k.slots_kept a) c.room;
  }

  -- One round of the loop.
  abbrev hook : SkipMemory Score → ℕ → ℕ → ℕ → SkipMemory Score
  hook m new u i =
      let m' = write_node m new (with_forward (m.nodes new) i ((m.nodes u).forward i)) in
      write_node m' u (with_forward (m'.nodes u) i new)

  Kept-hook : (m : SkipMemory Score) (new u i : ℕ) → Kept m (hook m new u i)
  Kept-hook m new u i =
      Kept-trans (Kept-write m new i ((m.nodes u).forward i)) (Kept-write _ u i new)

  pub record Spliced (m m' : SkipMemory Score) (new : ℕ) (u : ℕ → ℕ) (i n : ℕ) : Type 0 where
    pub kept : Kept m m'
    pub inserted :
        (j : ℕ)
        → (m'.nodes new).forward j ≡ (
            if leb i j && ltb j (i + n) then (m.nodes (u j)).forward j else (m.nodes new).forward j)
    pub others :
        (b j : ℕ)
        → (b == new) ≡ false
        → (m'.nodes b).forward j
          ≡ (if (leb i j && ltb j (i + n)) && b == u j then new else (m.nodes b).forward j)

  hook-new :
      (m : SkipMemory Score) (new u i j : ℕ)
      → (u == new) ≡ false
      → ((hook m new u i).nodes new).forward j
        ≡ (if j == i then (m.nodes u).forward i else (m.nodes new).forward j)
  hook-new m new u i j e = ground arith

  hook-other :
      (m : SkipMemory Score) (new u i b j : ℕ)
      → (u == new) ≡ false
      → (b == new) ≡ false
      → ((hook m new u i).nodes b).forward j
        ≡ (if j == i && b == u then new else (m.nodes b).forward j)
  hook-other m new u i b j e e' = ground arith

  inserted_step :
      (m : SkipMemory Score) (new : ℕ) (u : ℕ → ℕ) (i n j : ℕ)
      → (u i == new) ≡ false
      → (suc i ≤ j → j < suc i + n → (u j == new) ≡ false)
      → (if leb (suc i) j && ltb j (suc i + n)
          then ((hook m new (u i) i).nodes (u j)).forward j
          else ((hook m new (u i) i).nodes new).forward j)
        ≡ (if leb i j && ltb j (i + suc n)
            then (m.nodes (u j)).forward j
            else (m.nodes new).forward j)
  inserted_step m new u i n j e apart = elim (Bool-cases (leb (suc i) j && ltb j (suc i + n))) [
    | inl inside ↦
        let e' = apart (ground arith) (ground arith) in
        ground (arith, inside, hook-other m new (u i) i (u j) j e e')
    | inr outside ↦ elim (Bool-cases (j == i)) [
      | inl same ↦
          let path : j ≡ i = ground arith in
          rw (outside, hook-new m new (u i) i j e, path) (ground arith)
      | inr differ ↦ rw (outside, hook-new m new (u i) i j e, differ) (ground arith)
    ]
  ]

  others_step :
      (m : SkipMemory Score) (new : ℕ) (u : ℕ → ℕ) (i n b j : ℕ)
      → (u i == new) ≡ false
      → (b == new) ≡ false
      → (if (leb (suc i) j && ltb j (suc i + n)) && b == u j
          then new
          else ((hook m new (u i) i).nodes b).forward j)
        ≡ (if (leb i j && ltb j (i + suc n)) && b == u j then new else (m.nodes b).forward j)
  others_step m new u i n b j e e' = elim (Bool-cases (j == i)) [
    | inl same ↦
        let path : j ≡ i = ground arith in
        rw (hook-other m new (u i) i b j e e', path) (ground arith)
    | inr differ ↦ rw (hook-other m new (u i) i b j e e', differ) (ground arith)
  ]

  pub splice-Spliced :
      (new : ℕ) (u : ℕ → ℕ) (n i : ℕ) (m : SkipMemory Score)
      → ((j : ℕ) → i ≤ j → j < i + n → Cell m (u j) j)
      → ((j : ℕ) → i ≤ j → j < i + n → (u j == new) ≡ false)
      → ((j : ℕ) → j < i + n → Cell m new j)
      → Returns (splice m new u i n) (λ m'. Spliced m m' new u i n)
  unfolding splice
  splice-Spliced new u zero i m cells apart own = (
    m,
    refl,
    record {
      kept = record {
        live_kept = λ x. refl;
        key_kept = λ x. refl;
        value_kept = λ x. refl;
        score_kept = λ x. refl;
        slots_kept = λ x. refl;
      };
      inserted = λ j. ground arith;
      others = λ b j e. ground arith;
    },
  )
  splice-Spliced new u (suc n) i m cells apart own =
      let kept = Kept-hook m new (u i) i in
      let cell = cells i (omega arith) (omega arith) in
      let cell' = Kept-Cell (Kept-write m new i ((m.nodes (u i)).forward i)) cell in
      let (m', run, s) =
        splice-Spliced new u n (suc i) (hook m new (u i) i)
          (λ j le lt. Kept-Cell kept (cells j (omega arith) (omega arith)))
          (λ j le lt. apart j (omega arith) (omega arith))
          (λ j lt. Kept-Cell kept (own j (omega arith))) in
      (
        m',
        rw
            (
              Cell-forward_at cell,
              Cell-set_forward (own i (omega arith)) ((m.nodes (u i)).forward i),
              Cell-set_forward cell' new,
              ◌>>=◌,
            )
            run,
        record {
          kept = Kept-trans kept s.kept;
          inserted = λ j.
              s.inserted j
              ∙ inserted_step m new u i n j (apart i (omega arith) (omega arith))
                  λ le lt. apart j (omega arith) (omega arith);
          others = λ b j e.
              s.others b j e ∙ others_step m new u i n b j (apart i (omega arith) (omega arith)) e;
        },
      )
