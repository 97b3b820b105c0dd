-- ===== src/Skip/State.antt =====
-- When a list of the program holds given towers, and how a new node changes them.
use kv_study.Prelude.{
  ℕ, suc, ◌≤◌, ◌≡◌, refl, ◌∙◌, inl, inr, Bool-cases, true, false, ◌==◌, leb, leb→le, if◌then◌else◌,
  List, [], ◌∷◌, ◌++◌, length, pos, arith,
}
use kv_study.Skip.{SkipMemory, SkipList, skip_max_level}
use kv_study.Skip.Towers.{Tower, next, prev, All, Stands, Shows, Towers, tall, prev-short}
use kv_study.Skip.Splice.{Spliced}

module _ {Score : Type 0} where
  abbrev pub Apart : ℕ → List (Tower Score) → Type 0
  Apart a ts = All (λ t. (a == t.address) ≡ false) ts

  abbrev pub Distinct : List (Tower Score) → Type 0
  Distinct [] = Unit
  Distinct (t ∷ ts) = Apart t.address ts × Distinct ts

  pub record Represents (list : SkipList Score) (ts : List (Tower Score)) : Type 0 where
    pub header_stands : Stands list.memory list.header skip_max_level ts
    pub towers : Towers list.memory ts
    pub header_apart : Apart list.header ts
    pub distinct : Distinct ts
    pub heights : All (λ t. t.height ≤ list.level) ts
    pub level_bound : list.level ≤ skip_max_level
    pub counted : list.length ≡ pos (length ts)
    pub unlocked : list.locked ≡ false

  -- The node at `a` is the same in both memories.
  pub record Frame (m m' : SkipMemory Score) (a : ℕ) : Type 0 where
    pub same_live : m'.live a ≡ m.live a
    pub same_key : (m'.nodes a).key ≡ (m.nodes a).key
    pub same_value : (m'.nodes a).value ≡ (m.nodes a).value
    pub same_score : (m'.nodes a).score ≡ (m.nodes a).score
    pub same_slots : (m'.nodes a).slots ≡ (m.nodes a).slots
    pub same_forward : (j : ℕ) → (m'.nodes a).forward j ≡ (m.nodes a).forward j

  pub Stands-frame :
      (m m' : SkipMemory Score) (a h : ℕ) (ts : List (Tower Score))
      → Frame m m' a
      → Stands m a h ts
      → Stands m' a h ts
  Stands-frame m m' a h ts f s = record {
    not_null = s.not_null;
    alive = f.same_live ∙ s.alive;
    room = rw f.same_slots s.room;
    links = λ i le. f.same_forward i ∙ s.links i le;
  }

  pub Shows-frame :
      (m m' : SkipMemory Score) (t : Tower Score) → Frame m m' t.address → Shows m t → Shows m' t
  Shows-frame m m' t f s = record {
    has_key = f.same_key ∙ s.has_key;
    has_value = f.same_value ∙ s.has_value;
    has_score = f.same_score ∙ s.has_score;
  }

  pub Towers-frame :
      (m m' : SkipMemory Score) (ts : List (Tower Score))
      → All (λ t. Frame m m' t.address) ts
      → Towers m ts
      → Towers m' ts
  Towers-frame m m' [] f h = tt
  Towers-frame m m' (t ∷ ts) f h = (
    Stands-frame m m' t.address t.height ts f.0 h.0,
    Shows-frame m m' t f.0 h.1,
    Towers-frame m m' ts f.1 h.2,
  )

  pub next-short :
      (i : ℕ) (xs ys : List (Tower Score)) → tall i xs ≡ false → next i (xs ++ ys) ≡ next i ys
  next-short i [] ys e = refl
  next-short i (x ∷ xs) ys e = ground (arith, next-short i xs ys)

  pub next-tall :
      (i : ℕ) (xs ys zs : List (Tower Score))
      → tall i xs ≡ true
      → next i (xs ++ ys) ≡ next i (xs ++ zs)
  next-tall i [] ys zs e = absurd (ground (arith, e))
  next-tall i (x ∷ xs) ys zs e = ground (arith, next-tall i xs ys zs)

  -- An address that is not among those searched is not found.
  pub prev-Apart :
      (i a b : ℕ) (ts : List (Tower Score))
      → (a == b) ≡ false
      → Apart a ts
      → (a == prev i b ts) ≡ false
  prev-Apart i a b [] e apart = e
  prev-Apart i a b (t ∷ ts) e apart = elim (Bool-cases (leb i t.height)) [
    | inl high ↦ rw high (prev-Apart i a t.address ts apart.0 apart.1)
    | inr low ↦ rw low (prev-Apart i a b ts e apart.1)
  ]

  pub prev-tall-Apart :
      (i a b : ℕ) (ts : List (Tower Score))
      → tall i ts ≡ true
      → Apart a ts
      → (a == prev i b ts) ≡ false
  prev-tall-Apart i a b [] e apart = absurd (ground (arith, e))
  prev-tall-Apart i a b (t ∷ ts) e apart = elim (Bool-cases (leb i t.height)) [
    | inl high ↦ rw high (prev-Apart i a t.address ts apart.0 apart.1)
    | inr low ↦ rw low (prev-tall-Apart i a b ts (ground arith) apart.1)
  ]

  -- `m'` is `m` with the pointers of the new tower `t` spliced in.
  module _ (m m' : SkipMemory Score) (t : Tower Score) (u : ℕ → ℕ)
      (spliced : Spliced m m' t.address u 0 (suc t.height)) where
    pub splice-Stands :
        (a h : ℕ) (xs ys : List (Tower Score))
        → (a == t.address) ≡ false
        → Apart a xs
        → ((j : ℕ) → j ≤ h → j ≤ t.height → u j ≡ prev j a xs)
        → Stands m a h (xs ++ ys)
        → Stands m' a h (xs ++ (t ∷ ys))
    splice-Stands a h xs ys e apart found s = record {
      not_null = s.not_null;
      alive = spliced.kept.live_kept a ∙ s.alive;
      room = rw (spliced.kept.slots_kept a) s.room;
      links = λ j le. elim (Bool-cases (leb j t.height)) [
        | inl inside ↦ elim (Bool-cases (tall j xs)) [
          | inl high ↦ ground (
            arith,
            spliced.others a j e,
            inside,
            prev-tall-Apart j a a xs high apart,
            found j le (leb→le j t.height inside),
            next-tall j xs ys (t ∷ ys) high,
            s.links j le,
          )
          | inr low ↦ ground (
            arith,
            spliced.others a j e,
            inside,
            prev-short j a xs low,
            found j le (leb→le j t.height inside),
            next-short j xs (t ∷ ys) low,
          )
        ]
        | inr outside ↦ elim (Bool-cases (tall j xs)) [
          | inl high ↦
              ground (
                arith,
                spliced.others a j e,
                outside,
                next-tall j xs ys (t ∷ ys) high,
                s.links j le,
              )
          | inr low ↦ ground (
            arith,
            spliced.others a j e,
            outside,
            next-short j xs (t ∷ ys) low,
            next-short j xs ys low,
            s.links j le,
          )
        ]
      ];
    }

    splice-Shows : (b : Tower Score) → Shows m b → Shows m' b
    splice-Shows b s = record {
      has_key = spliced.kept.key_kept b.address ∙ s.has_key;
      has_value = spliced.kept.value_kept b.address ∙ s.has_value;
      has_score = spliced.kept.score_kept b.address ∙ s.has_score;
    }

    pub splice-Towers :
        (start : ℕ → ℕ) (xs ys : List (Tower Score))
        → Apart t.address xs
        → Distinct xs
        → ((j : ℕ) → j ≤ t.height → u j ≡ prev j (start j) xs)
        → Towers m (xs ++ ys)
        → Towers m' (t ∷ ys)
        → Towers m' (xs ++ (t ∷ ys))
    splice-Towers start [] ys apart distinct found towers bottom = bottom
    splice-Towers start (x ∷ xs) ys apart distinct found towers bottom = (
      splice-Stands x.address x.height xs ys (ground (arith, apart.0)) distinct.0
          (λ j le le'. found j le' ∙ ground arith) towers.0,
      splice-Shows x towers.1,
      splice-Towers (λ j. if leb j x.height then x.address else start j) xs ys apart.1 distinct.1
          found towers.2 bottom,
    )
