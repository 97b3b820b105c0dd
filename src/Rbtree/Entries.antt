-- ===== src/Rbtree/Entries.antt =====
-- The entries of the tree of kvs_rbtree.c, in the order of their keys: a finite map whose insertion
-- keeps what is there.
use Prim.Native.Nat.{Ordering}
use kv_study.Prelude.{
  ◌≡◌, refl, sym, ◌∙◌, ap, inl, inr, Bool, true, false, Bool-cases, if◌then◌else◌, Option, none,
  some, List, [], ◌∷◌, ◌++◌, Ptr, Str, strcmp, str_eq, strcmp_flip, strcmp_trans, strcmp_eq,
  str_eq_lt, str_eq_gt, str_eq_same, str_eq_iff, str_eq_refl, order-cases, arith,
}
use mathlib.Core.Path.{subst}
use kv_study.Rbtree.Shape.{Tree, leaf, node}

abbrev pub Entries : Type 0
Entries = List (Str × Ptr)

abbrev pub entries : Tree → Entries
entries leaf = []
entries (node c l r) = entries l ++ ((c.key, c.value) ∷ entries r)

-- The value of a key.
unfoldable pub find : Str → Entries → Option Ptr
find k [] = none
find k ((k', v) ∷ es) = let rest = find k es in if str_eq k k' then some v else rest

-- A new entry at its place in the order; that of a key that is there stays.
unfoldable pub insort : Str → Ptr → Entries → Entries
insort k v [] = (k, v) ∷ []
insort k v ((k', v') ∷ es) =
    let rest = insort k v es in
    elim (strcmp k k') [
      | Ordering.lt ↦ (k, v) ∷ (k', v') ∷ es
      | Ordering.eq ↦ (k', v') ∷ es
      | Ordering.gt ↦ (k', v') ∷ rest
    ]

-- The key is below all of these.
abbrev pub Before : Str → Entries → Type 0
Before k [] = Unit
Before k ((k', v) ∷ es) = (strcmp k k' ≡ Ordering.lt) × Before k es

abbrev pub Sorted : Entries → Type 0
Sorted [] = Unit
Sorted ((k, v) ∷ es) = Before k es × Sorted es

-- The key is above all of these.
abbrev pub After : Str → Entries → Type 0
After k [] = Unit
After k ((k', v) ∷ es) = (strcmp k' k ≡ Ordering.lt) × After k es

Before-append :
    (k k' : Str) (v : Ptr) (xs ys : Entries)
    → Before k (xs ++ ((k', v) ∷ ys))
    → Before k xs × (strcmp k k' ≡ Ordering.lt)
Before-append k k' v [] ys b = (tt, b.0)
Before-append k k' v (x ∷ xs) ys b = let (bx, e) = Before-append k k' v xs ys b.1 in ((b.0, bx), e)

-- An entry in the middle of a sorted list.
pub Sorted-split :
    (k : Str) (v : Ptr) (xs ys : Entries)
    → Sorted (xs ++ ((k, v) ∷ ys))
    → Sorted xs × After k xs × Before k ys × Sorted ys
Sorted-split k v [] ys s = (tt, tt, s.0, s.1)
Sorted-split k v ((k', v') ∷ xs) ys s =
    let (sx, ax, by, sy) = Sorted-split k v xs ys s.1 in
    let (bx, e) = Before-append k' k v xs ys s.0 in ((bx, sx), (e, ax), by, sy)

pub After-trans : (k k' : Str) (xs : Entries) → After k xs → strcmp k k' ≡ Ordering.lt → After k' xs
After-trans k k' [] a e = tt
After-trans k k' ((x, v) ∷ xs) a e = (strcmp_trans x k k' a.0 e, After-trans k k' xs a.1 e)

module _ (k : Str) (v : Ptr) (k' : Str) (v' : Ptr) (es : Entries) where
  pub insort-lt : strcmp k k' ≡ Ordering.lt → insort k v ((k', v') ∷ es) ≡ (k, v) ∷ (k', v') ∷ es
  unfolding insort
  insort-lt e = rw (e, insort) refl

  pub insort-eq : strcmp k k' ≡ Ordering.eq → insort k v ((k', v') ∷ es) ≡ (k', v') ∷ es
  unfolding insort
  insort-eq e = rw (e, insort) refl

  pub insort-gt : strcmp k k' ≡ Ordering.gt → insort k v ((k', v') ∷ es) ≡ (k', v') ∷ insort k v es
  unfolding insort
  insort-gt e = rw (e, insort) refl

-- Below an entry, the insertion is in the part before it.
insort-append_lt :
    (k : Str) (v : Ptr) (k' : Str) (v' : Ptr) (xs ys : Entries)
    → strcmp k k' ≡ Ordering.lt
    → insort k v (xs ++ ((k', v') ∷ ys)) ≡ insort k v xs ++ ((k', v') ∷ ys)
unfolding insort
insort-append_lt k v k' v' [] ys e = insort-lt k v k' v' ys e
insort-append_lt k v k' v' ((x, w) ∷ xs) ys e = elim (order-cases (strcmp k x)) [
  | inl h ↦ insort-lt k v x w _ h ∙ sym (ap (λ l. l ++ ((k', v') ∷ ys)) (insort-lt k v x w xs h))
  | inr (inl h) ↦
      insort-eq k v x w _ h ∙ sym (ap (λ l. l ++ ((k', v') ∷ ys)) (insort-eq k v x w xs h))
  | inr (inr h) ↦
      insort-gt k v x w _ h
      ∙ ap (λ l. (x, w) ∷ l) (insort-append_lt k v k' v' xs ys e)
      ∙ sym (ap (λ l. l ++ ((k', v') ∷ ys)) (insort-gt k v x w xs h))
]

-- Above a part of the entries, the insertion is after it.
insort-append_gt :
    (k : Str) (v : Ptr) (xs ys : Entries) → After k xs → insort k v (xs ++ ys) ≡ xs ++ insort k v ys
insort-append_gt k v [] ys a = refl
insort-append_gt k v ((x, w) ∷ xs) ys a =
    insort-gt k v x w _ ((strcmp_flip x k).0 a.0)
    ∙ ap (λ l. (x, w) ∷ l) (insort-append_gt k v xs ys a.1)

-- The insertion into a sorted list around an entry.
pub insort-around :
    (k : Str) (v : Ptr) (k' : Str) (v' : Ptr) (xs ys : Entries)
    → Sorted (xs ++ ((k', v') ∷ ys))
    → insort k v (xs ++ ((k', v') ∷ ys)) ≡ elim (strcmp k k') [
      | Ordering.lt ↦ insort k v xs ++ ((k', v') ∷ ys)
      | Ordering.eq ↦ xs ++ ((k', v') ∷ ys)
      | Ordering.gt ↦ xs ++ ((k', v') ∷ insort k v ys)
    ]
insort-around k v k' v' xs ys s =
    let (sx, ax, by, sy) = Sorted-split k' v' xs ys s in
    elim (order-cases (strcmp k k')) [
      | inl e ↦ rw e (insort-append_lt k v k' v' xs ys e)
      | inr (inl e) ↦ rw e (
          insort-append_gt k v xs _ (subst (λ z. After z xs) (sym (strcmp_eq k k' e)) ax)
          ∙ ap (λ l. xs ++ l) (insort-eq k v k' v' ys e))
      | inr (inr e) ↦ rw e (
          insort-append_gt k v xs _ (After-trans k' k xs ax ((strcmp_flip k' k).1 e))
          ∙ ap (λ l. xs ++ l) (insort-gt k v k' v' ys e))
    ]

insort-Before :
    (a k : Str) (v : Ptr) (es : Entries)
    → strcmp a k ≡ Ordering.lt
    → Before a es
    → Before a (insort k v es)
unfolding insort
insort-Before a k v [] e b = (e, tt)
insort-Before a k v ((x, w) ∷ es) e b = elim (order-cases (strcmp k x)) [
  | inl h ↦ subst (Before a) (sym (insort-lt k v x w es h)) (e, b)
  | inr (inl h) ↦ subst (Before a) (sym (insort-eq k v x w es h)) b
  | inr (inr h) ↦
      subst (Before a) (sym (insort-gt k v x w es h)) (b.0, insort-Before a k v es e b.1)
]

pub Before-trans : (a b : Str) (es : Entries) → strcmp a b ≡ Ordering.lt → Before b es → Before a es
Before-trans a b [] e h = tt
Before-trans a b ((x, w) ∷ es) e h = (strcmp_trans a b x e h.0, Before-trans a b es e h.1)

pub insort-Sorted : (k : Str) (v : Ptr) (es : Entries) → Sorted es → Sorted (insort k v es)
unfolding insort
insort-Sorted k v [] s = (tt, tt)
insort-Sorted k v ((x, w) ∷ es) s = elim (order-cases (strcmp k x)) [
  | inl h ↦ subst Sorted (sym (insort-lt k v x w es h)) ((h, Before-trans k x es h s.0), s)
  | inr (inl h) ↦ subst Sorted (sym (insort-eq k v x w es h)) s
  | inr (inr h) ↦
      subst Sorted (sym (insort-gt k v x w es h))
        (insort-Before x k v es ((strcmp_flip x k).1 h) s.0, insort-Sorted k v es s.1)
]

-- Any key of a list of entries that is below another is not it.
pub find-Before : (k : Str) (es : Entries) → Before k es → find k es ≡ none
unfolding find
find-Before k [] b = refl
find-Before k ((x, w) ∷ es) b = rw (str_eq_lt k x b.0) (find-Before k es b.1)

pub find-After : (k : Str) (es : Entries) → After k es → find k es ≡ none
unfolding find
find-After k [] b = refl
find-After k ((x, w) ∷ es) b = rw (str_eq_gt k x ((strcmp_flip x k).0 b.0)) (find-After k es b.1)

find-append_none : (k : Str) (xs ys : Entries) → find k xs ≡ none → find k (xs ++ ys) ≡ find k ys
unfolding find
find-append_none k [] ys e = refl
find-append_none k ((x, w) ∷ xs) ys e = elim (Bool-cases (str_eq k x)) [
  | inl h ↦ absurd (ground (arith, e, h))
  | inr h ↦ rw h (find-append_none k xs ys (ground (arith, e, h)))
]

find-append_above : (k : Str) (xs ys : Entries) → find k ys ≡ none → find k (xs ++ ys) ≡ find k xs
unfolding find
find-append_above k [] ys e = e
find-append_above k ((x, w) ∷ xs) ys e =
    ap (λ r. if str_eq k x then some w else r) (find-append_above k xs ys e)

-- A search around an entry of a sorted list.
pub find-around :
    (k k' : Str) (v' : Ptr) (xs ys : Entries)
    → Sorted (xs ++ ((k', v') ∷ ys))
    → find k (xs ++ ((k', v') ∷ ys)) ≡ elim (strcmp k k') [
      | Ordering.lt ↦ find k xs
      | Ordering.eq ↦ some v'
      | Ordering.gt ↦ find k ys
    ]
unfolding find
find-around k k' v' xs ys s =
    let (sx, ax, by, sy) = Sorted-split k' v' xs ys s in
    elim (order-cases (strcmp k k')) [
      | inl e ↦ rw e (
          find-append_above k xs _
            (rw (str_eq_lt k k' e) (find-Before k ys (Before-trans k k' ys e by))))
      | inr (inl e) ↦ rw e (
          find-append_none k xs _
            (find-After k xs (subst (λ z. After z xs) (sym (strcmp_eq k k' e)) ax))
          ∙ rw (str_eq_same k k' e) refl)
      | inr (inr e) ↦ rw e (
          find-append_none k xs _
            (find-After k xs (After-trans k' k xs ax ((strcmp_flip k' k).1 e)))
          ∙ rw (str_eq_gt k k' e) refl)
    ]

-- The value that is there, or else the new one.
abbrev pub old_or : Ptr → Option Ptr → Ptr
old_or v none = v
old_or v (some w) = w

same_twice {ℓ} :
    {A : Type ℓ} (b : Bool) (x y : A) → (if b then x else y) ≡ (if b then x else if b then x else y)
same_twice true x y = refl
same_twice false x y = refl

swap_tests {ℓ} :
    {A : Type ℓ} (b c : Bool) (x y z : A)
    → (b ≡ true → c ≡ false)
    → (if b then x else if c then y else z) ≡ (if c then y else if b then x else z)
swap_tests true c x y z h = rw (h refl) refl
swap_tests false c x y z h = refl

not_both : (k k' x : Str) → strcmp k x ≡ Ordering.gt → str_eq k' x ≡ true → str_eq k' k ≡ false
not_both k k' x e h = elim (Bool-cases (str_eq k' k)) [
  | inl g ↦
      absurd (
        ground
          (arith, str_eq_gt k x e, (str_eq_iff k' x).0 h, (str_eq_iff k' k).0 g, str_eq_refl k))
  | inr g ↦ g
]

-- After an insertion, the key has its old value, or else the new one, and the others what they had.
pub find-insort :
    (k k' : Str) (v : Ptr) (es : Entries)
    → Sorted es
    → find k' (insort k v es) ≡ (if str_eq k' k then some (old_or v (find k es)) else find k' es)
unfolding find insort
find-insort k k' v [] s = refl
find-insort k k' v ((x, w) ∷ es) s = elim (order-cases (strcmp k x)) [
  | inl e ↦
      ap (find k') (insort-lt k v x w es e)
      ∙ sym (
          ap (λ o. if str_eq k' k then some (old_or v o) else find k' ((x, w) ∷ es))
            (find-Before k ((x, w) ∷ es) (e, Before-trans k x es e s.0)))
  | inr (inl e) ↦
      ap (find k') (insort-eq k v x w es e)
      ∙ same_twice (str_eq k' x) (some w) (find k' es)
      ∙ ap (λ a. if str_eq k' a then some w else find k' ((x, w) ∷ es)) (sym (strcmp_eq k x e))
      ∙ ap
          (λ b.
            if str_eq k' k
            then some (old_or v (if b then some w else find k es))
            else find k' ((x, w) ∷ es))
          (sym (str_eq_same k x e))
  | inr (inr e) ↦
      ap (find k') (insort-gt k v x w es e)
      ∙ ap (λ r. if str_eq k' x then some w else r) (find-insort k k' v es s.1)
      ∙ swap_tests (str_eq k' x) (str_eq k' k) (some w) _ (find k' es) (not_both k k' x e)
      ∙ ap
          (λ b.
            if str_eq k' k
            then some (old_or v (if b then some w else find k es))
            else find k' ((x, w) ∷ es))
          (sym (str_eq_gt k x e))
]
