-- ===== src/Rbtree/Order.antt =====
-- Insertion into the tree of kvs_rbtree.c as insertion into its entries: recoloring and rotating keep
-- their order.
use Prim.Native.Nat.{Ordering}
use kv_study.Prelude.{
  ◌≡◌, refl, sym, ◌∙◌, ap, inl, inr, Bool-cases, if◌then◌else◌, Option, none, some, [], ◌∷◌, ◌++◌,
  Ptr, Str, strcmp, order-cases,
}
use mathlib.Core.Path.{subst}
use mathlib.Core.List.{append_assoc}
use kv_study.Rbtree.{Side, left, right, is_red, Color}
use kv_study.Rbtree.Shape.{Cell, Tree, leaf, node, branch, Step, Trail, plug}
use kv_study.Rbtree.Focus.{painted}
use kv_study.Rbtree.Insert.Balance.{
  blacken, red_root, same_side, outer, inner, lifted, recolored, balance,
}
use kv_study.Rbtree.Seek.{seek, seek-lt, seek-eq, seek-gt, seek-induction, seek-plug}
use kv_study.Rbtree.Entries.{
  entries, find, insort, Sorted, Sorted-split, insort-around, find-around,
}

branch-entries :
    (d : Side) (c c' : Cell) (u u' v v' : Tree)
    → c.key ≡ c'.key
    → c.value ≡ c'.value
    → entries u ≡ entries u'
    → entries v ≡ entries v'
    → entries (branch d c u v) ≡ entries (branch d c' u' v')
branch-entries left c c' u u' v v' ek ev eu e = λ i. eu i ++ ((ek i, ev i) ∷ e i)
branch-entries right c c' u u' v v' ek ev eu e = λ i. e i ++ ((ek i, ev i) ∷ eu i)

plug-entries :
    (path : Trail) (u u' : Tree)
    → entries u ≡ entries u'
    → entries (plug path u) ≡ entries (plug path u')
plug-entries [] u u' e = e
plug-entries (s ∷ path) u u' e =
    plug-entries path _ _
      (branch-entries s.side s.cell s.cell u u' s.sibling s.sibling refl refl e refl)

blacken-entries : (u : Tree) → entries (blacken u) ≡ entries u
blacken-entries leaf = refl
blacken-entries (node c l r) = refl

recolored-entries :
    (s q : Step) (u : Tree)
    → entries (recolored s q u)
      ≡ entries (branch q.side q.cell (branch s.side s.cell u s.sibling) q.sibling)
recolored-entries s q u =
    branch-entries q.side (painted Color.red q.cell) q.cell _ _ _ _ refl refl
      (branch-entries s.side (painted Color.black s.cell) s.cell _ _ _ _ refl refl refl refl)
      (blacken-entries q.sibling)

-- The two rotations of the fix-up keep the order.
lifted-entries :
    (s q : Step) (u : Tree)
    → entries (lifted s q u)
      ≡ entries (branch q.side q.cell (branch s.side s.cell u s.sibling) q.sibling)
lifted-entries s q u = cases s.side q.side s.cell q.cell u s.sibling q.sibling
  where
    cases :
        (e d : Side) (c g : Cell) (u sib unc : Tree)
        → entries (if same_side e d then outer d c g u sib unc else inner d c g u sib unc)
          ≡ entries (branch d g (branch e c u sib) unc)
    cases left left c g u sib unc = sym (append_assoc (entries u) _ _)
    cases right right c g u sib unc = append_assoc (entries unc) _ _
    cases left right c g leaf sib unc = refl
    cases left right c g (node cz l r) sib unc =
        append_assoc (entries unc) _ _
        ∙ sym (ap (λ es. entries unc ++ ((g.key, g.value) ∷ es)) (append_assoc (entries l) _ _))
    cases right left c g leaf sib unc = refl
    cases right left c g (node cz l r) sib unc =
        append_assoc (entries sib) _ _
        ∙ sym (
            append_assoc (entries sib) _ _
            ∙ ap (λ es. entries sib ++ ((c.key, c.value) ∷ es)) (append_assoc (entries l) _ _))

-- Balancing keeps the entries.
pub balance-entries : (path : Trail) (u : Tree) → entries (balance path u) ≡ entries (plug path u)
unfolding balance
balance-entries [] u = blacken-entries u
balance-entries (s ∷ []) u = blacken-entries (plug (s ∷ []) u)
balance-entries (s ∷ q ∷ path) u = elim (Bool-cases (is_red s.cell.color)) [
  | inl red ↦ elim (Bool-cases (red_root q.sibling)) [
    | inl uncle ↦
        rw (red, uncle)
          (balance-entries path (recolored s q u) ∙ plug-entries path _ _ (recolored-entries s q u))
    | inr uncle ↦
        rw (red, uncle)
          (blacken-entries (plug path (lifted s q u))
            ∙ plug-entries path _ _ (lifted-entries s q u))
  ]
  | inr black ↦ rw black (blacken-entries (plug (s ∷ q ∷ path) u))
]

-- Insertion without balance.
unfoldable grow : Cell → Tree → Tree
grow c leaf = node c leaf leaf
grow c (node d l r) =
    let to_left = node d (grow c l) r in
    let to_right = node d l (grow c r) in
    elim (strcmp c.key d.key) [
      | Ordering.lt ↦ to_left
      | Ordering.eq ↦ node d l r
      | Ordering.gt ↦ to_right
    ]

module _ (c d : Cell) (l r : Tree) where
  grow-lt : strcmp c.key d.key ≡ Ordering.lt → grow c (node d l r) ≡ node d (grow c l) r
  unfolding grow
  grow-lt e = rw (e, grow) refl

  grow-eq : strcmp c.key d.key ≡ Ordering.eq → grow c (node d l r) ≡ node d l r
  unfolding grow
  grow-eq e = rw (e, grow) refl

  grow-gt : strcmp c.key d.key ≡ Ordering.gt → grow c (node d l r) ≡ node d l (grow c r)
  unfolding grow
  grow-gt e = rw (e, grow) refl

grow-entries :
    (c : Cell) (u : Tree)
    → Sorted (entries u)
    → entries (grow c u) ≡ insort c.key c.value (entries u)
unfolding grow insort
grow-entries c leaf s = refl
grow-entries c (node d l r) s =
    let (sl, al, br, sr) = Sorted-split d.key d.value (entries l) (entries r) s in
    let around = insort-around c.key c.value d.key d.value (entries l) (entries r) s in
    elim (order-cases (strcmp c.key d.key)) [
      | inl e ↦
          ap entries (grow-lt c d l r e)
          ∙ ap (λ es. es ++ ((d.key, d.value) ∷ entries r)) (grow-entries c l sl)
          ∙ sym (around ∙ rw e refl)
      | inr (inl e) ↦ ap entries (grow-eq c d l r e) ∙ sym (around ∙ rw e refl)
      | inr (inr e) ↦
          ap entries (grow-gt c d l r e)
          ∙ ap (λ es. entries l ++ ((d.key, d.value) ∷ es)) (grow-entries c r sr)
          ∙ sym (around ∙ rw e refl)
    ]

-- The node that a search ends at has the key.
abbrev pub Ends : Str → Tree → Type 0
Ends k leaf = Unit
Ends k (node d l r) = strcmp k d.key ≡ Ordering.eq

pub seek-Ends : (k : Str) (u : Tree) (path : Trail) → Ends k (seek k u path).1
unfolding seek
seek-Ends k leaf path = tt
seek-Ends k (node c l r) path = elim (order-cases (strcmp k c.key)) [
  | inl e ↦ subst (λ w. Ends k w.1) (sym (seek-lt k c l r path e)) (seek-Ends k l _)
  | inr (inl e) ↦ subst (λ w. Ends k w.1) (sym (seek-eq k c l r path e)) e
  | inr (inr e) ↦ subst (λ w. Ends k w.1) (sym (seek-gt k c l r path e)) (seek-Ends k r _)
]

seek-grow : (c : Cell) (u : Tree) → plug (seek c.key u []).0 (grow c (seek c.key u []).1) ≡ grow c u
seek-grow c u =
    seek-induction c.key (λ path w. plug path (grow c w) ≡ grow c u)
      (λ d l r path e same. ap (plug path) (sym (grow-lt c d l r e)) ∙ same)
      (λ d l r path e same. ap (plug path) (sym (grow-gt c d l r e)) ∙ same) u [] refl

-- The tree after `rbtree_insert`.
abbrev pub hooked : Cell → Tree → Trail × Tree → Tree
hooked c u (path, leaf) = balance path (node c leaf leaf)
hooked c u (path, node d l r) = u

unfoldable pub insert_tree : Cell → Tree → Tree
insert_tree c u = hooked c u (seek c.key u [])

hooked-entries :
    (c : Cell) (u : Tree) (w : Trail × Tree)
    → Ends c.key w.1
    → plug w.0 (grow c w.1) ≡ grow c u
    → plug w.0 w.1 ≡ u
    → entries (hooked c u w) ≡ entries (grow c u)
unfolding grow
hooked-entries c u (path, leaf) ends same back =
    balance-entries path (node c leaf leaf) ∙ ap entries same
hooked-entries c u (path, node d l r) ends same back =
    ap entries (sym back ∙ ap (plug path) (sym (grow-eq c d l r ends)) ∙ same)

-- Insertion into the tree is insertion into its sorted entries.
pub insert_tree-entries :
    (c : Cell) (u : Tree)
    → Sorted (entries u)
    → entries (insert_tree c u) ≡ insort c.key c.value (entries u)
unfolding insert_tree
insert_tree-entries c u s =
    hooked-entries c u (seek c.key u []) (seek-Ends c.key u []) (seek-grow c u)
      (seek-plug c.key u [])
    ∙ grow-entries c u s

abbrev pub value_at : Tree → Option Ptr
value_at leaf = none
value_at (node c l r) = some c.value

-- The search finds the value of the key.
pub seek-find :
    (k : Str) (u : Tree) (path : Trail)
    → Sorted (entries u)
    → value_at (seek k u path).1 ≡ find k (entries u)
unfolding seek find
seek-find k leaf path s = refl
seek-find k (node c l r) path s =
    let (sl, al, br, sr) = Sorted-split c.key c.value (entries l) (entries r) s in
    let around = find-around k c.key c.value (entries l) (entries r) s in
    elim (order-cases (strcmp k c.key)) [
      | inl e ↦
          ap (λ w. value_at w.1) (seek-lt k c l r path e)
          ∙ seek-find k l _ sl
          ∙ sym (around ∙ rw e refl)
      | inr (inl e) ↦ ap (λ w. value_at w.1) (seek-eq k c l r path e) ∙ sym (around ∙ rw e refl)
      | inr (inr e) ↦
          ap (λ w. value_at w.1) (seek-gt k c l r path e)
          ∙ seek-find k r _ sr
          ∙ sym (around ∙ rw e refl)
    ]
