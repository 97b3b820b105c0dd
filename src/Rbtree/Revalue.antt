-- ===== src/Rbtree/Revalue.antt =====
-- A new value for a key of the tree of kvs_rbtree.c, in its entries and in the tree.
use Prim.Native.Nat.{Ordering}
use kv_study.Prelude.{
  ℕ, ◌+◌, ◌≡◌, refl, sym, ◌∙◌, ap, inl, inr, Bool-cases, if◌then◌else◌, ◌==◌, none, [], ◌∷◌, ◌++◌,
  Ptr, Str, strcmp, strcmp_flip, strcmp_eq, str_eq, str_eq_lt, str_eq_gt, str_eq_same, order-cases,
  arith,
}
use mathlib.Core.Path.{subst}
use kv_study.Rbtree.Shape.{Cell, Tree, leaf, node, plug, occurs}
use kv_study.Rbtree.Seek.{seek, seek-induction}
use kv_study.Rbtree.Insert.Balance.{red_root}
use kv_study.Rbtree.Balanced.{Balanced}
use kv_study.Rbtree.Entries.{
  Entries, entries, find, Before, After, Sorted, Sorted-split, After-trans, Before-trans,
  find-Before, find-After,
}

unfoldable pub replace : Str → Ptr → Entries → Entries
replace k p [] = []
replace k p ((k', v) ∷ es) =
    let rest = replace k p es in if str_eq k k' then (k', p) ∷ es else (k', v) ∷ rest

pub replace-absent : (k : Str) (p : Ptr) (es : Entries) → find k es ≡ none → replace k p es ≡ es
unfolding replace find
replace-absent k p [] e = refl
replace-absent k p ((x, w) ∷ es) e = elim (Bool-cases (str_eq k x)) [
  | inl h ↦ absurd (ground (arith, e, h))
  | inr h ↦ rw h (ap (λ l. (x, w) ∷ l) (replace-absent k p es (ground (arith, e, h))))
]

replace-append_none :
    (k : Str) (p : Ptr) (xs ys : Entries)
    → find k xs ≡ none
    → replace k p (xs ++ ys) ≡ xs ++ replace k p ys
unfolding replace find
replace-append_none k p [] ys e = refl
replace-append_none k p ((x, w) ∷ xs) ys e = elim (Bool-cases (str_eq k x)) [
  | inl h ↦ absurd (ground (arith, e, h))
  | inr h ↦ rw h (ap (λ l. (x, w) ∷ l) (replace-append_none k p xs ys (ground (arith, e, h))))
]

replace-append_above :
    (k : Str) (p : Ptr) (xs ys : Entries)
    → find k ys ≡ none
    → replace k p (xs ++ ys) ≡ replace k p xs ++ ys
unfolding replace
replace-append_above k p [] ys e = replace-absent k p ys e
replace-append_above k p ((x, w) ∷ xs) ys e = elim (Bool-cases (str_eq k x)) [
  | inl h ↦ rw h refl
  | inr h ↦ rw h (ap (λ l. (x, w) ∷ l) (replace-append_above k p xs ys e))
]

-- A replacement around an entry of a sorted list.
replace-around :
    (k : Str) (p : Ptr) (k' : Str) (v' : Ptr) (xs ys : Entries)
    → Sorted (xs ++ ((k', v') ∷ ys))
    → replace k p (xs ++ ((k', v') ∷ ys)) ≡ elim (strcmp k k') [
      | Ordering.lt ↦ replace k p xs ++ ((k', v') ∷ ys)
      | Ordering.eq ↦ xs ++ ((k', p) ∷ ys)
      | Ordering.gt ↦ xs ++ ((k', v') ∷ replace k p ys)
    ]
unfolding replace find
replace-around k p k' v' xs ys s =
    let (sx, ax, by, sy) = Sorted-split k' v' xs ys s in
    elim (order-cases (strcmp k k')) [
      | inl e ↦ rw e (
          replace-append_above k p xs _
            (rw (str_eq_lt k k' e) (find-Before k ys (Before-trans k k' ys e by))))
      | inr (inl e) ↦ rw e (
          replace-append_none k p xs _
            (find-After k xs (subst (λ z. After z xs) (sym (strcmp_eq k k' e)) ax))
          ∙ rw (str_eq_same k k' e) refl)
      | inr (inr e) ↦ rw e (
          replace-append_none k p xs _
            (find-After k xs (After-trans k' k xs ax ((strcmp_flip k' k).1 e)))
          ∙ rw (str_eq_gt k k' e) refl)
    ]

replace-Before : (a k : Str) (p : Ptr) (es : Entries) → Before a es → Before a (replace k p es)
unfolding replace
replace-Before a k p [] b = b
replace-Before a k p ((x, w) ∷ es) b = elim (Bool-cases (str_eq k x)) [
  | inl h ↦ rw h b
  | inr h ↦ rw h (b.0, replace-Before a k p es b.1)
]

pub replace-Sorted : (k : Str) (p : Ptr) (es : Entries) → Sorted es → Sorted (replace k p es)
unfolding replace
replace-Sorted k p [] s = s
replace-Sorted k p ((x, w) ∷ es) s = elim (Bool-cases (str_eq k x)) [
  | inl h ↦ rw h s
  | inr h ↦ rw h (replace-Before x k p es s.0, replace-Sorted k p es s.1)
]

abbrev pub valued : Ptr → Cell → Cell
valued p c = record c { value = p }

unfoldable pub revalue : Str → Ptr → Tree → Tree
revalue k p leaf = leaf
revalue k p (node c l r) =
    let to_left = node c (revalue k p l) r in
    let to_right = node c l (revalue k p r) in
    elim (strcmp k c.key) [
      | Ordering.lt ↦ to_left
      | Ordering.eq ↦ node (valued p c) l r
      | Ordering.gt ↦ to_right
    ]

module _ (k : Str) (p : Ptr) (c : Cell) (l r : Tree) where
  revalue-lt : strcmp k c.key ≡ Ordering.lt → revalue k p (node c l r) ≡ node c (revalue k p l) r
  unfolding revalue
  revalue-lt e = rw (e, revalue) refl

  pub revalue-eq : strcmp k c.key ≡ Ordering.eq → revalue k p (node c l r) ≡ node (valued p c) l r
  unfolding revalue
  revalue-eq e = rw (e, revalue) refl

  revalue-gt : strcmp k c.key ≡ Ordering.gt → revalue k p (node c l r) ≡ node c l (revalue k p r)
  unfolding revalue
  revalue-gt e = rw (e, revalue) refl

pub revalue-entries :
    (k : Str) (p : Ptr) (u : Tree)
    → Sorted (entries u)
    → entries (revalue k p u) ≡ replace k p (entries u)
unfolding revalue replace
revalue-entries k p leaf s = refl
revalue-entries k p (node d l r) s =
    let (sl, al, br, sr) = Sorted-split d.key d.value (entries l) (entries r) s in
    let around = replace-around k p d.key d.value (entries l) (entries r) s in
    elim (order-cases (strcmp k d.key)) [
      | inl e ↦
          ap entries (revalue-lt k p d l r e)
          ∙ ap (λ es. es ++ ((d.key, d.value) ∷ entries r)) (revalue-entries k p l sl)
          ∙ sym (around ∙ rw e refl)
      | inr (inl e) ↦ ap entries (revalue-eq k p d l r e) ∙ sym (around ∙ rw e refl)
      | inr (inr e) ↦
          ap entries (revalue-gt k p d l r e)
          ∙ ap (λ es. entries l ++ ((d.key, d.value) ∷ es)) (revalue-entries k p r sr)
          ∙ sym (around ∙ rw e refl)
    ]

-- What does not depend on the values stays.
revalue-induction {ℓ} :
    (k : Str) (p : Ptr) (P : Tree → Tree → Type ℓ)
    → P leaf leaf
    → ((c : Cell) (l l' r : Tree) → P l l' → P (node c l r) (node c l' r))
    → ((c : Cell) (l r r' : Tree) → P r r' → P (node c l r) (node c l r'))
    → ((c : Cell) (l r : Tree) → P (node c l r) (node (valued p c) l r))
    → (u : Tree) → P u (revalue k p u)
unfolding revalue
revalue-induction k p P at_leaf at_left at_right here leaf = at_leaf
revalue-induction k p P at_leaf at_left at_right here (node c l r) =
    elim (order-cases (strcmp k c.key)) [
      | inl e ↦
          subst (P (node c l r)) (sym (revalue-lt k p c l r e))
            (at_left c l _ r (revalue-induction k p P at_leaf at_left at_right here l))
      | inr (inl e) ↦ subst (P (node c l r)) (sym (revalue-eq k p c l r e)) (here c l r)
      | inr (inr e) ↦
          subst (P (node c l r)) (sym (revalue-gt k p c l r e))
            (at_right c l r _ (revalue-induction k p P at_leaf at_left at_right here r))
    ]

pub revalue-red_root : (k : Str) (p : Ptr) (u : Tree) → red_root (revalue k p u) ≡ red_root u
revalue-red_root k p u =
    revalue-induction k p (λ v w. red_root w ≡ red_root v) refl (λ c l l' r e. refl)
      (λ c l r r' e. refl) (λ c l r. refl) u

pub revalue-occurs : (a : ℕ) (k : Str) (p : Ptr) (u : Tree) → occurs a (revalue k p u) ≡ occurs a u
unfolding occurs
revalue-occurs a k p u =
    revalue-induction k p (λ v w. occurs a w ≡ occurs a v) refl
      (λ c l l' r e. ap (λ n. (if c.addr == a then 1 else 0) + (n + occurs a r)) e)
      (λ c l r r' e. ap (λ n. (if c.addr == a then 1 else 0) + (occurs a l + n)) e) (λ c l r. refl)
      u

pub revalue-Balanced :
    (k : Str) (p : Ptr) (u : Tree) (n : ℕ) → Balanced n u → Balanced n (revalue k p u)
revalue-Balanced k p u n b =
    (revalue-induction k p
        (λ v w. (red_root w ≡ red_root v) × ((n : ℕ) → Balanced n v → Balanced n w))
        (refl, λ n b. b)
        (λ c l l' r h.
          (refl, λ n b. (b.0, b.1, h.1 b.0 b.2, b.3, λ q. (h.0 ∙ (b.4 q).0, (b.4 q).1))))
        (λ c l r r' h.
          (refl, λ n b. (b.0, b.1, b.2, h.1 b.0 b.3, λ q. ((b.4 q).0, h.0 ∙ (b.4 q).1))))
        (λ c l r. (refl, λ n b. b)) u).1
      n b

pub seek-revalue :
    (k : Str) (p : Ptr) (u : Tree)
    → plug (seek k u []).0 (revalue k p (seek k u []).1) ≡ revalue k p u
seek-revalue k p u =
    seek-induction k (λ path w. plug path (revalue k p w) ≡ revalue k p u)
      (λ d l r path e same. ap (plug path) (sym (revalue-lt k p d l r e)) ∙ same)
      (λ d l r path e same. ap (plug path) (sym (revalue-gt k p d l r e)) ∙ same) u [] refl
