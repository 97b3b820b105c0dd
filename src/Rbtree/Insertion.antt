-- ===== src/Rbtree/Insertion.antt =====
-- `rbtree_insert` of kvs_rbtree.c is `insert_tree` on the tree that the nodes stand for.
use kv_study.Prelude.{
  ℕ, ◌+◌, ◌≤◌, ◌<◌, ◌≡◌, refl, sym, ◌∙◌, ap, ap₂, inl, inr, true, false, Bool-cases, ◌==◌,
  if◌then◌else◌, [], ◌∷◌, length, Ptr, Str, ok, ◌>>=◌, Returns, arith,
}
use kv_study.Rbtree.{Side, left, right, Color, is_red, Rbtree}
use kv_study.Rbtree.Shape.{
  Cell, Tree, leaf, node, branch, Step, Trail, plug, occurs, occurs_path, occurs-branch, Place,
}
use kv_study.Rbtree.Insert.{descend, clear_links, insert_at, rbtree_insert}
use kv_study.Rbtree.Insert.Balance.{
  blacken, red_root, same_side, outer, inner, lifted, recolored, balance,
}
use kv_study.Rbtree.Focus.{painted}
use kv_study.Rbtree.Insert.Hang.{Free, new_cell, hang_up-Place}
use kv_study.Rbtree.Insert.Loop.{Rooted, rbtree_insert_fixup-balance}
use kv_study.Rbtree.Seek.{
  seek, height, Follows, hook, seek-induction, seek-Place, seek-Follows, seek-plug, descend-seek,
}
use kv_study.Rbtree.Balanced.{Balanced, BalancedAt, seek-BalancedAt, balance-Balanced, Rooted-plug}
use kv_study.Rbtree.Order.{insert_tree, hooked}

pub occurs-plug :
    (a : ℕ) (path : Trail) (u : Tree) → occurs a (plug path u) ≡ occurs a u + occurs_path a path
unfolding occurs_path
occurs-plug a [] u = ground arith
occurs-plug a (s ∷ path) u =
    occurs-plug a path (branch s.side s.cell u s.sibling)
    ∙ ap (λ n. n + occurs_path a path) (occurs-branch s.side a s.cell u s.sibling)
    ∙ omega arith

seek-length : (k : Str) (u : Tree) → length (seek k u []).0 ≤ height u
seek-length k u =
    let bound =
      seek-induction k (λ path w. length path + height w ≤ height u)
        (λ c l r path e b. ground (arith, b)) (λ c l r path e b. ground (arith, b)) u []
        (ground arith) in
    ground (arith, bound)

-- The two ends of the search: the key is there, or the node is hung up and the tree is balanced.
finish-hooked :
    (fuel : ℕ) (t : Rbtree) (z : ℕ) (k : Str) (u : Tree) (w : Trail × Tree)
    → descend fuel t z t.nil t.root ≡ ok (hook t.nil w)
    → Place t w.0 w.1
    → Place t [] u
    → Follows k w.0
    → Rooted w.0
    → length w.0 < fuel
    → Free t z k w.0
    → Returns (rbtree_insert fuel t z) (λ t'. Place t' [] (hooked (new_cell t z k) u w))
unfolding rbtree_insert insert_at
finish-hooked fuel t z k u (path, leaf) run p whole follows rooted enough f =
    let (t₁, hung, q) = hang_up-Place t z k path p follows f in
    let (t₂, fixed, r) =
      rbtree_insert_fixup-balance fuel (clear_links t₁ z) path (node (new_cell t z k) leaf leaf)
        enough refl rooted q in
    (t₂, rw (run, ◌>>=◌, hung) fixed, r)
finish-hooked fuel t z k u (path, node d l r) run p whole follows rooted enough f =
    (t, rw (run, ◌>>=◌) refl, whole)

-- With fuel for the height of the tree, the insertion ends.
pub rbtree_insert-insert_tree :
    (fuel : ℕ) (t : Rbtree) (z : ℕ) (k : Str) (u : Tree)
    → height u < fuel
    → Place t [] u
    → red_root u ≡ false
    → occurs z u ≡ 0
    → (z == t.nil) ≡ false
    → (t.heap z).key ≡ Ptr.text k
    → Returns (rbtree_insert fuel t z) (λ t'. Place t' [] (insert_tree (new_cell t z k) u))
unfolding insert_tree
rbtree_insert-insert_tree fuel t z k u enough p black absent away key =
    let back = seek-plug k u [] in
    finish-hooked fuel t z k u (seek k u [])
      (ap (descend fuel t z t.nil) p.above ∙ descend-seek fuel t z k [] u enough key p)
      (seek-Place t k u [] p) p (seek-Follows k u [] tt)
      (Rooted-plug (seek k u []).0 (seek k u []).1 (ap red_root back ∙ black))
      (ground (arith, enough, seek-length k u))
      (record {
        absent = ground (
          arith,
          sym (occurs-plug z (seek k u []).0 (seek k u []).1) ∙ ap (occurs z) back ∙ absent,
        );
        away = away;
        key = key;
      })

occurs-blacken : (a : ℕ) (u : Tree) → occurs a (blacken u) ≡ occurs a u
unfolding occurs
occurs-blacken a leaf = refl
occurs-blacken a (node c l r) = refl

plug-occurs :
    (a : ℕ) (path : Trail) (u u' : Tree)
    → occurs a u ≡ occurs a u'
    → occurs a (plug path u) ≡ occurs a (plug path u')
plug-occurs a path u u' e =
    occurs-plug a path u ∙ ap (λ n. n + occurs_path a path) e ∙ sym (occurs-plug a path u')

recolored-occurs :
    (a : ℕ) (s q : Step) (u : Tree)
    → occurs a (recolored s q u)
      ≡ occurs a (branch q.side q.cell (branch s.side s.cell u s.sibling) q.sibling)
recolored-occurs a s q u =
    occurs-branch q.side a (painted Color.red q.cell) _ (blacken q.sibling)
    ∙ ap₂ (λ m n. (if q.cell.addr == a then 1 else 0) + (m + n))
        (occurs-branch s.side a (painted Color.black s.cell) u s.sibling
          ∙ sym (occurs-branch s.side a s.cell u s.sibling))
        (occurs-blacken a q.sibling)
    ∙ sym (occurs-branch q.side a q.cell _ q.sibling)

lifted-occurs :
    (a : ℕ) (s q : Step) (u : Tree)
    → occurs a (lifted s q u)
      ≡ occurs a (branch q.side q.cell (branch s.side s.cell u s.sibling) q.sibling)
unfolding occurs
lifted-occurs a s q u = cases s.side q.side s.cell q.cell u s.sibling q.sibling
  where
    cases :
        (e d : Side) (c g : Cell) (u sib unc : Tree)
        → occurs a (if same_side e d then outer d c g u sib unc else inner d c g u sib unc)
          ≡ occurs a (branch d g (branch e c u sib) unc)
    cases left left c g u sib unc = omega arith
    cases right right c g u sib unc = omega arith
    cases left right c g leaf sib unc = refl
    cases left right c g (node cz l r) sib unc = omega arith
    cases right left c g leaf sib unc = refl
    cases right left c g (node cz l r) sib unc = omega arith

-- Balancing moves nodes and makes none.
balance-occurs :
    (a : ℕ) (path : Trail) (u : Tree) → occurs a (balance path u) ≡ occurs a (plug path u)
unfolding balance
balance-occurs a [] u = occurs-blacken a u
balance-occurs a (s ∷ []) u = occurs-blacken a (plug (s ∷ []) u)
balance-occurs a (s ∷ q ∷ path) u = elim (Bool-cases (is_red s.cell.color)) [
  | inl red ↦ elim (Bool-cases (red_root q.sibling)) [
    | inl uncle ↦
        rw (red, uncle)
          (balance-occurs a path (recolored s q u)
            ∙ plug-occurs a path _ _ (recolored-occurs a s q u))
    | inr uncle ↦
        rw (red, uncle)
          (occurs-blacken a (plug path (lifted s q u))
            ∙ plug-occurs a path _ _ (lifted-occurs a s q u))
  ]
  | inr black ↦ rw black (occurs-blacken a (plug (s ∷ q ∷ path) u))
]

hooked-occurs :
    (a : ℕ) (c : Cell) (u : Tree) (w : Trail × Tree)
    → plug w.0 w.1 ≡ u
    → occurs a (hooked c u w) ≤ occurs a u + (if c.addr == a then 1 else 0)
unfolding occurs
hooked-occurs a c u (path, leaf) back =
    let count = occurs-plug a path (node c leaf leaf) in
    let whole = sym (occurs-plug a path leaf) ∙ ap (occurs a) back in
    ground (arith, balance-occurs a path (node c leaf leaf), count, whole)
hooked-occurs a c u (path, node d l r) back = ground arith

pub insert_tree-occurs :
    (a : ℕ) (c : Cell) (u : Tree)
    → occurs a u ≡ 0
    → (c.addr == a) ≡ false
    → occurs a (insert_tree c u) ≡ 0
unfolding insert_tree
insert_tree-occurs a c u none_there apart =
    ground (arith, hooked-occurs a c u (seek c.key u []) (seek-plug c.key u []))

hooked-Balanced :
    (c : Cell) (u : Tree) (w : Trail × Tree)
    → is_red c.color ≡ true
    → BalancedAt w.0 w.1
    → Rooted w.0
    → (m : ℕ) × Balanced m u
    → red_root u ≡ false
    → ((m : ℕ) × Balanced m (hooked c u w)) × (red_root (hooked c u w) ≡ false)
hooked-Balanced c u (path, leaf) red (n, b, bp, below) rooted whole black =
    balance-Balanced path n (node c leaf leaf) bp
      (0, ground (arith, b), refl, refl, λ h. (refl, refl)) red rooted
hooked-Balanced c u (path, node d l r) red at rooted whole black = (whole, black)

pub insert_tree-Balanced :
    (c : Cell) (u : Tree)
    → is_red c.color ≡ true
    → (m : ℕ) × Balanced m u
    → red_root u ≡ false
    → ((m : ℕ) × Balanced m (insert_tree c u)) × (red_root (insert_tree c u) ≡ false)
unfolding insert_tree
insert_tree-Balanced c u red (m, b) black =
    let back = seek-plug c.key u [] in
    hooked-Balanced c u (seek c.key u []) red (seek-BalancedAt c.key u [] (m, b, tt, λ h. black))
      (Rooted-plug (seek c.key u []).0 (seek c.key u []).1 (ap red_root back ∙ black)) (m, b) black
