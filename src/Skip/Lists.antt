-- ===== src/Skip/Lists.antt =====
-- Lemmas on lists of towers: predicates on all of them, and addresses that are all different.
use kv_study.Prelude.{
  ℕ, ◌≤◌, ◌<◌, ◌≡◌, refl, inl, inr, Bool-cases, true, false, ◌==◌, List, [], ◌∷◌, ◌++◌, arith,
}
use kv_study.Skip.{SkipMemory}
use kv_study.Skip.Towers.{Tower, All, Stands, Towers, tall}
use kv_study.Skip.Splice.{Cell}
use kv_study.Skip.State.{Apart, Distinct}

pub flip_eq : (a b : ℕ) → (a == b) ≡ false → (b == a) ≡ false
flip_eq a b e = ground arith

module _ {Score : Type 0} where
  pub All-insert :
      (P : Tower Score → Type 0) (t : Tower Score) (xs ys : List (Tower Score))
      → P t
      → All P (xs ++ ys)
      → All P (xs ++ (t ∷ ys))
  All-insert P t [] ys p h = (p, h)
  All-insert P t (x ∷ xs) ys p h = (h.0, All-insert P t xs ys p h.1)

  pub All-left :
      (P : Tower Score → Type 0) (xs ys : List (Tower Score)) → All P (xs ++ ys) → All P xs
  All-left P [] ys h = tt
  All-left P (x ∷ xs) ys h = (h.0, All-left P xs ys h.1)

  pub All-right :
      (P : Tower Score → Type 0) (xs ys : List (Tower Score)) → All P (xs ++ ys) → All P ys
  All-right P [] ys h = h
  All-right P (x ∷ xs) ys h = All-right P xs ys h.1

  pub All-map :
      (P Q : Tower Score → Type 0) (ts : List (Tower Score))
      → ((t : Tower Score) → P t → Q t)
      → All P ts
      → All Q ts
  All-map P Q [] f h = tt
  All-map P Q (t ∷ ts) f h = (f t h.0, All-map P Q ts f h.1)

  pub All-zip :
      (P Q : Tower Score → Type 0) (ts : List (Tower Score))
      → All P ts
      → All Q ts
      → All (λ t. P t × Q t) ts
  All-zip P Q [] h k = tt
  All-zip P Q (t ∷ ts) h k = ((h.0, k.0), All-zip P Q ts h.1 k.1)

  pub Distinct-insert :
      (t : Tower Score) (xs ys : List (Tower Score))
      → Apart t.address (xs ++ ys)
      → Distinct (xs ++ ys)
      → Distinct (xs ++ (t ∷ ys))
  Distinct-insert t [] ys a d = (a, d)
  Distinct-insert t (x ∷ xs) ys a d = (
    All-insert (λ s. (x.address == s.address) ≡ false) t xs ys (flip_eq t.address x.address a.0)
        d.0,
    Distinct-insert t xs ys a.1 d.1,
  )

  pub Distinct-left : (xs ys : List (Tower Score)) → Distinct (xs ++ ys) → Distinct xs
  Distinct-left [] ys d = tt
  Distinct-left (x ∷ xs) ys d =
      (All-left (λ s. (x.address == s.address) ≡ false) xs ys d.0, Distinct-left xs ys d.1)

  pub Distinct-across :
      (xs ys : List (Tower Score)) → Distinct (xs ++ ys) → All (λ y. Apart y.address xs) ys
  Distinct-across [] ys d = All-map (λ y. Unit) (λ y. Unit) ys (λ t u. u) (units ys)
    where
      units : (ys : List (Tower Score)) → All (λ y. Unit) ys
      units [] = tt
      units (y ∷ ys) = (tt, units ys)
  Distinct-across (x ∷ xs) ys d =
      All-map (λ y. ((x.address == y.address) ≡ false) × Apart y.address xs)
        (λ y. Apart y.address (x ∷ xs)) ys (λ y p. (flip_eq x.address y.address p.0, p.1))
        (All-zip (λ y. (x.address == y.address) ≡ false) (λ y. Apart y.address xs) ys
          (All-right (λ y. (x.address == y.address) ≡ false) xs ys d.0) (Distinct-across xs ys d.1))

  pub fresh-differs :
      (m : SkipMemory Score) (a b : ℕ) → m.live a ≡ false → m.live b ≡ true → (a == b) ≡ false
  fresh-differs m a b dead alive = elim (Bool-cases (a == b)) [
    | inl e ↦ let path : a ≡ b = ground arith in absurd (ground (arith, path, dead, alive))
    | inr e ↦ e
  ]

  pub fresh-Apart :
      (m : SkipMemory Score) (a : ℕ) (ts : List (Tower Score))
      → m.live a ≡ false
      → Towers m ts
      → Apart a ts
  fresh-Apart m a [] dead towers = tt
  fresh-Apart m a (t ∷ ts) dead towers =
      (fresh-differs m a t.address dead towers.0.alive, fresh-Apart m a ts dead towers.2)

  pub Stands-Cell :
      {m : SkipMemory Score} {a h : ℕ} {ts : List (Tower Score)} → Stands m a h ts → Cell m a h
  Stands-Cell s = record { not_null = s.not_null; alive = s.alive; room = ground (arith, s.room) }

  pub tall-heights :
      (L j : ℕ) (ts : List (Tower Score)) → All (λ t. t.height ≤ L) ts → L < j → tall j ts ≡ false
  tall-heights L j [] h lt = refl
  tall-heights L j (t ∷ ts) h lt = ground (arith, tall-heights L j ts h.1 lt, h.0)
