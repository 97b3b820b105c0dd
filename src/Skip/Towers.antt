-- ===== src/Skip/Towers.antt =====
-- The skip list as the list of its nodes in order: a tower has a node's address and fields and its
-- height, and each of its forward pointers leads to the next tower that is high enough.
use kv_study.Prelude.{
  ℕ, ◌≤◌, ◌<◌, ◌≡◌, refl, Bool, true, false, ◌||◌, ◌==◌, leb, if◌then◌else◌, List, [], ◌∷◌, ◌++◌,
  Ptr, Str, ok, arith,
}
use kv_study.Skip.{SkipMemory, skip_node_at, forward_at}

pub record Tower (Score : Type 0) : Type 0 where
  pub address : ℕ
  pub key : Str
  pub value : Str
  pub score : Score
  pub height : ℕ

module _ {Score : Type 0} where
  -- The first tower that has a pointer at level `i`, or NULL.
  abbrev pub next : ℕ → List (Tower Score) → ℕ
  next i [] = 0
  next i (t ∷ ts) = if leb i t.height then t.address else next i ts

  -- The last of `a` and the towers that have a pointer at level `i`, where `a` has one.
  abbrev pub prev : ℕ → ℕ → List (Tower Score) → ℕ
  prev i a [] = a
  prev i a (t ∷ ts) = prev i (if leb i t.height then t.address else a) ts

  abbrev pub All : (Tower Score → Type 0) → List (Tower Score) → Type 0
  All P [] = Unit
  All P (t ∷ ts) = P t × All P ts

  -- The node at `a` can be read, has more than `height` pointers, and each leads where it should.
  pub record Stands (m : SkipMemory Score) (a height : ℕ) (ts : List (Tower Score)) : Type 0 where
    pub not_null : (a == 0) ≡ false
    pub alive : m.live a ≡ true
    pub room : height < (m.nodes a).slots
    pub links : (i : ℕ) → i ≤ height → (m.nodes a).forward i ≡ next i ts

  -- The node at the tower's address has the tower's fields.
  pub record Shows (m : SkipMemory Score) (t : Tower Score) : Type 0 where
    pub has_key : (m.nodes t.address).key ≡ Ptr.text t.key
    pub has_value : (m.nodes t.address).value ≡ Ptr.text t.value
    pub has_score : (m.nodes t.address).score ≡ t.score

  abbrev pub Towers : SkipMemory Score → List (Tower Score) → Type 0
  Towers m [] = Unit
  Towers m (t ∷ ts) = Stands m t.address t.height ts × Shows m t × Towers m ts

  pub Stands-skip_node_at :
      {m : SkipMemory Score} {a height : ℕ} {ts : List (Tower Score)}
      → Stands m a height ts
      → skip_node_at m a ≡ ok (m.nodes a)
  unfolding skip_node_at
  Stands-skip_node_at {m} {a} s = rw (s.not_null, s.alive) refl

  pub Stands-forward_at :
      {m : SkipMemory Score} {a height : ℕ} {ts : List (Tower Score)}
      → Stands m a height ts
      → (i : ℕ) → i ≤ height
      → forward_at m a i ≡ ok (next i ts)
  unfolding forward_at
  Stands-forward_at {m} {a} {height} {ts} s i le =
      ground (arith, Stands-skip_node_at s, s.links i le, s.room)

  pub Stands-lower :
      {m : SkipMemory Score} {a h k : ℕ} {ts : List (Tower Score)}
      → Stands m a h ts
      → k ≤ h
      → Stands m a k ts
  Stands-lower s le = record {
    not_null = s.not_null;
    alive = s.alive;
    room = ground (arith, s.room);
    links = λ i below. s.links i (omega arith);
  }

  pub next-append_none :
      (i : ℕ) (xs ys : List (Tower Score))
      → next i xs ≡ 0
      → All (λ t. (t.address == 0) ≡ false) xs
      → next i (xs ++ ys) ≡ next i ys
  next-append_none i [] ys e nz = refl
  next-append_none i (x ∷ xs) ys e nz = ground (arith, nz.0, next-append_none i xs ys)

  -- The towers after the last one in `ts` that has a pointer at level `i`, or all of them.
  abbrev pub tall : ℕ → List (Tower Score) → Bool
  tall i [] = false
  tall i (t ∷ ts) = leb i t.height || tall i ts

  abbrev pub after : ℕ → List (Tower Score) → List (Tower Score)
  after i [] = []
  after i (t ∷ ts) = if tall i ts then after i ts else if leb i t.height then ts else t ∷ ts

  pub prev-short : (i a : ℕ) (ts : List (Tower Score)) → tall i ts ≡ false → prev i a ts ≡ a
  prev-short i a [] e = refl
  prev-short i a (t ∷ ts) e = ground (arith, prev-short i a ts)

  pub prev-tall :
      (i a b : ℕ) (ts : List (Tower Score)) → tall i ts ≡ true → prev i a ts ≡ prev i b ts
  prev-tall i a b [] e = absurd (ground (arith, e))
  prev-tall i a b (t ∷ ts) e = ground (arith, prev-tall i a b ts)
