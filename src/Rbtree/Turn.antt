-- ===== src/Rbtree/Turn.antt =====
-- The rotations of kvs_rbtree.c keep the nodes a tree at its place.
use kv_study.Prelude.{
  ℕ, ◌+◌, ◌≤◌, ◌≡◌, ◌≢◌, refl, sym, ◌∙◌, ap, ◌⊎◌, inl, inr, true, false, ◌==◌, Bool-cases,
  if◌then◌else◌, [], ◌∷◌, arith,
}
use mathlib.Core.Path.{subst}
use kv_study.Rbtree.{Side, left, right, other, child, rotate, Rbtree}
use kv_study.Rbtree.Shape.{
  Cell, Tree, leaf, node, branch, Trail, address, node_at, occurs, occurs_path, Below, Above,
  parent_of, Place, Below-frame, Above-frame, Below-branch, branch-Below, address-branch,
  occurs-branch, address-differs, parent_of-differs, Below-reparent, child_far, child_near,
  parent-node_at,
}
use kv_study.Rbtree.Rotate.{with_child, with_parent, Rotated, rotate-Rotated}

occurs-address :
    (nil : ℕ) (u : Tree) → (address nil u == nil) ≡ false → 1 ≤ occurs (address nil u) u
unfolding occurs
occurs-address nil leaf away = absurd (ground arith)
occurs-address nil (node c l r) away = ground arith

occurs_path-parent_of :
    (nil : ℕ) (path : Trail)
    → (parent_of nil path == nil) ≡ false
    → 1 ≤ occurs_path (parent_of nil path) path
unfolding occurs_path
occurs_path-parent_of nil [] away = absurd (ground arith)
occurs_path-parent_of nil (s ∷ path) away = ground arith

module _ (s : Side) (t : Rbtree) (path : Trail) (cx cy : Cell) (inner : Tree) where
  -- A node is as before, or one of those that a rotation writes.
  abbrev Kept : Rbtree → ℕ → Type 0
  Kept t' a =
      (t'.heap a ≡ t.heap a)
      ⊎ ((a ≡ cx.addr)
          ⊎ ((a ≡ cy.addr)
              ⊎ (((a ≡ address t.nil inner) × (1 ≤ occurs a inner))
                  ⊎ ((a ≡ parent_of t.nil path) × (1 ≤ occurs_path a path)))))

  Rotated-Kept :
      (t' : Rbtree)
      → Rotated s t t' cx.addr cy.addr (address t.nil inner) (parent_of t.nil path)
      → (a : ℕ) → Kept t' a
  Rotated-Kept t' m a = elim (Bool-cases (a == cx.addr)) [
    | inl e ↦ inr (inl (ground arith))
    | inr nx ↦ elim (Bool-cases (a == cy.addr)) [
      | inl e ↦ inr (inr (inl (ground arith)))
      | inr ny ↦ elim (at_inner a) [
        | inl ei ↦ inr (inr (inr (inl ei)))
        | inr ni ↦ elim (at_parent a) [
          | inl ep ↦ inr (inr (inr (inr ep)))
          | inr np ↦ inl (m.rest a nx ny ni np)
        ]
      ]
    ]
  ]
    where
      at_inner :
          (a : ℕ)
          → ((a ≡ address t.nil inner) × (1 ≤ occurs a inner))
            ⊎ (((address t.nil inner == t.nil) ≡ true) ⊎ ((a == address t.nil inner) ≡ false))
      at_inner a = ground (arith, occurs-address t.nil inner)

      at_parent :
          (a : ℕ)
          → ((a ≡ parent_of t.nil path) × (1 ≤ occurs_path a path))
            ⊎ (((parent_of t.nil path == t.nil) ≡ true) ⊎ ((a == parent_of t.nil path) ≡ false))
      at_parent a = ground (arith, occurs_path-parent_of t.nil path)

counts :
    (s : Side) (cx cy : Cell) (outer inner far : Tree) (a : ℕ)
    → occurs a (branch s cx outer (branch s cy inner far))
      ≡ (if cx.addr == a then 1 else 0)
        + (occurs a outer + ((if cy.addr == a then 1 else 0) + (occurs a inner + occurs a far)))
counts s cx cy outer inner far a =
    occurs-branch s a cx outer (branch s cy inner far)
    ∙ ap (λ n. (if cx.addr == a then 1 else 0) + (occurs a outer + n))
        (occurs-branch s a cy inner far)

recounts :
    (s : Side) (cx cy : Cell) (outer inner far : Tree) (a : ℕ)
    → occurs a (branch s cy (branch s cx outer inner) far)
      ≡ (if cy.addr == a then 1 else 0)
        + (((if cx.addr == a then 1 else 0) + (occurs a outer + occurs a inner)) + occurs a far)
recounts s cx cy outer inner far a =
    occurs-branch s a cy (branch s cx outer inner) far
    ∙ ap (λ n. (if cy.addr == a then 1 else 0) + (n + occurs a far))
        (occurs-branch s a cx outer inner)

sink :
    (s : Side) (c : Cell) (p q near far b : ℕ)
    → with_parent q (with_child (other s) b (node_at s c p near far)) ≡ node_at s c q near b
sink left c p q near far b = refl
sink right c p q near far b = refl

rise :
    (s : Side) (c : Cell) (p q near x far : ℕ)
    → with_child s x (with_parent q (node_at s c p near far)) ≡ node_at s c q x far
rise left c p q near x far = refl
rise right c p q near x far = refl

-- The parent gets the other child at the side where the first was.
hang :
    (s side : Side) (c : Cell) (p x sib y : ℕ)
    → (x == sib) ≡ false
    → with_child
        (if x == child s (node_at side c p x sib) then s else other s)
        y
        (node_at side c p x sib)
      ≡ node_at side c p y sib
hang left left c p x sib y apart = ground arith
hang left right c p x sib y apart = ground arith
hang right left c p x sib y apart = ground arith
hang right right c p x sib y apart = ground arith

split_x :
    (s : Side) (t : Rbtree) (path : Trail) (cx cy : Cell) (outer inner far : Tree)
    → Place t path (branch s cx outer (branch s cy inner far))
    → (t.heap cx.addr ≡ node_at s cx (parent_of t.nil path) (address t.nil outer) cy.addr)
      × Below t cx.addr outer
      × Below t cx.addr (branch s cy inner far)
split_x s t path cx cy outer inner far p =
    let (e, bo, bb) =
      Below-branch s t (parent_of t.nil path) cx outer (branch s cy inner far) p.below in
    (
      e
          ∙ ap (node_at s cx (parent_of t.nil path) (address t.nil outer))
              (address-branch s t.nil cy inner far),
      bo,
      bb,
    )

-- A rotation at a node moves its child at the far side up, and the tree between them goes over.
module _ (s : Side) (t t' : Rbtree) (path : Trail) (cx cy : Cell) (outer inner far : Tree)
    (p : Place t path (branch s cx outer (branch s cy inner far)))
    (m : Rotated s t t' cx.addr cy.addr (address t.nil inner) (parent_of t.nil path)) where
  kept : (a : ℕ) → Kept s t path cx cy inner t' a
  kept = Rotated-Kept s t path cx cy inner t' m

  turned-Below : Below t' (parent_of t'.nil path) (branch s cy (branch s cx outer inner) far)
  turned-Below =
      let (ex, bo, bb) = split_x s t path cx cy outer inner far p in
      let (ey, bi, bf) = Below-branch s t cx.addr cy inner far bb in
      branch-Below s t' (parent_of t'.nil path) cy (branch s cx outer inner) far
        (m.at_y
          ∙ ap (λ n. with_child s cx.addr (with_parent (parent_of t.nil path) n)) ey
          ∙ rise s cy cx.addr (parent_of t.nil path) (address t.nil inner) cx.addr
              (address t.nil far)
          ∙ sym (
              ap
                (λ n.
                  node_at s cy (parent_of n path) (address n (branch s cx outer inner))
                    (address n far))
                m.nil
              ∙ ap (λ n. node_at s cy (parent_of t.nil path) n (address t.nil far))
                  (address-branch s t.nil cx outer inner)))
        (branch-Below s t' cy.addr cx outer inner
          (m.at_x
            ∙ ap (λ n. with_parent cy.addr (with_child (other s) (address t.nil inner) n)) ex
            ∙ sink s cx (parent_of t.nil path) cy.addr (address t.nil outer) cy.addr
                (address t.nil inner)
            ∙ sym (ap (λ n. node_at s cx cy.addr (address n outer) (address n inner)) m.nil))
          (Below-frame t t' cx.addr outer m.nil
            (λ a. ground (arith, kept a, counts s cx cy outer inner far a, p.once a)) bo)
          (Below-reparent t t' cy.addr cx.addr inner m.nil m.at_b
            (ground (arith, counts s cx cy outer inner far t.nil, p.no_nil))
            (λ a. ground (arith, counts s cx cy outer inner far a, p.once a))
            (λ a. ground (arith, kept a, counts s cx cy outer inner far a, p.once a)) bi))
        (Below-frame t t' cy.addr far m.nil
          (λ a. ground (arith, kept a, counts s cx cy outer inner far a, p.once a)) bf)

turned-Above :
    (s : Side) (t t' : Rbtree) (path : Trail) (cx cy : Cell) (outer inner far : Tree)
    (p : Place t path (branch s cx outer (branch s cy inner far)))
    (m : Rotated s t t' cx.addr cy.addr (address t.nil inner) (parent_of t.nil path))
    → Above t path cx.addr
    → Above t' path cy.addr
unfolding occurs_path
turned-Above s t t' [] cx cy outer inner far p m above = ground (arith, m.root)
turned-Above s t t' (q ∷ path) cx cy outer inner far p m above =
    let (e, bs, rest) = above in
    let same : (a : ℕ) → Kept s t (q ∷ path) cx cy inner t' a =
      kept s t t' (q ∷ path) cx cy outer inner far p m in
    let count = counts s cx cy outer inner far in
    (
      m.at_p (ground (arith, p.no_nil))
          ∙ ap (λ n. with_child (if cx.addr == child s n then s else other s) cy.addr n) e
          ∙ hang s q.side q.cell (parent_of t.nil path) cx.addr (address t.nil q.sibling) cy.addr (
              ground (
                arith,
                count cx.addr,
                p.once cx.addr,
                p.no_nil,
                count t.nil,
                address-differs t.nil cx.addr q.sibling,
              ))
          ∙ sym (
              ap (λ n. node_at q.side q.cell (parent_of n path) cy.addr (address n q.sibling))
                m.nil),
      Below-frame t t' q.cell.addr q.sibling m.nil (λ a. ground (arith, same a, count a, p.once a))
          bs,
      Above-frame t t' path q.cell.addr m.nil (ground (arith, m.root, p.no_nil))
          (λ a. ground (arith, same a, count a, p.once a)) rest,
    )

turned-Place :
    (s : Side) (t t' : Rbtree) (path : Trail) (cx cy : Cell) (outer inner far : Tree)
    (p : Place t path (branch s cx outer (branch s cy inner far)))
    (m : Rotated s t t' cx.addr cy.addr (address t.nil inner) (parent_of t.nil path))
    → Place t' path (branch s cy (branch s cx outer inner) far)
turned-Place s t t' path cx cy outer inner far p m =
    let count = counts s cx cy outer inner far in
    let recount = recounts s cx cy outer inner far in
    record {
      above =
          subst (Above t' path) (sym (address-branch s t'.nil cy (branch s cx outer inner) far)) (
            turned-Above s t t' path cx cy outer inner far p m (
              subst (Above t path) (address-branch s t.nil cx outer (branch s cy inner far))
                p.above));
      below = turned-Below s t t' path cx cy outer inner far p m;
      once = λ a. ground (arith, count a, recount a, p.once a);
      no_nil = rw m.nil (ground (arith, count t.nil, recount t.nil, p.no_nil));
      nil_black =
          ap (λ n. n.color)
            (ap t'.heap m.nil
              ∙ m.rest t.nil (ground (arith, count t.nil, p.no_nil))
                  (ground (arith, count t.nil, p.no_nil)) (ground arith) (ground arith))
          ∙ p.nil_black;
    }

parent-differs :
    (nil : ℕ) (path : Trail) (u : Tree)
    → occurs (address nil u) u + occurs_path (address nil u) path ≤ 1
    → occurs_path nil path ≡ 0
    → ((address nil u == nil) ≡ true) ⊎ ((parent_of nil path == address nil u) ≡ false)
unfolding occurs_path
parent-differs nil [] u once away = ground arith
parent-differs nil (s ∷ path) u once away = ground (arith, occurs-address nil u)

-- At any place in the tree the rotation at a node whose far child is a node gives the nodes of the
-- rotated tree at that place.
pub rotate-Place :
    (s : Side) (t : Rbtree) (path : Trail) (cx cy : Cell) (outer inner far : Tree)
    → Place t path (branch s cx outer (branch s cy inner far))
    → Place (rotate s t cx.addr) path (branch s cy (branch s cx outer inner) far)
rotate-Place s t path cx cy outer inner far p =
    let (ex, bo, bb) = split_x s t path cx cy outer inner far p in
    let (ey, bi, bf) = Below-branch s t cx.addr cy inner far bb in
    let count = counts s cx cy outer inner far in
    let away_x : cx.addr ≢ t.nil = λ e. ground (arith, count t.nil, p.no_nil) in
    let away_y : cy.addr ≢ t.nil = λ e. ground (arith, count t.nil, p.no_nil) in
    let xb : (address t.nil inner == cx.addr) ≡ false =
      address-differs t.nil cx.addr inner (ground (arith, count cx.addr, p.once cx.addr)) away_x in
    let yb : (address t.nil inner == cy.addr) ≡ false =
      address-differs t.nil cy.addr inner (ground (arith, count cy.addr, p.once cy.addr)) away_y in
    let xp : (parent_of t.nil path == cx.addr) ≡ false =
      parent_of-differs t.nil cx.addr path (ground (arith, count cx.addr, p.once cx.addr)) away_x in
    let yp : (parent_of t.nil path == cy.addr) ≡ false =
      parent_of-differs t.nil cy.addr path (ground (arith, count cy.addr, p.once cy.addr)) away_y in
    let xy : (cx.addr == cy.addr) ≡ false = ground (arith, count cx.addr, p.once cx.addr) in
    turned-Place s t (rotate s t cx.addr) path cx cy outer inner far p (
      rotate-Rotated s t cx.addr cy.addr (address t.nil inner) (parent_of t.nil path)
        (ap (child (other s)) ex
          ∙ child_far s cx (parent_of t.nil path) (address t.nil outer) cy.addr)
        (ap (child s) ey ∙ child_near s cy cx.addr (address t.nil inner) (address t.nil far))
        (ap (λ n. n.parent) ex
          ∙ parent-node_at s cx (parent_of t.nil path) (address t.nil outer) cy.addr)
        xy (ground (arith, xy)) (ground (arith, xb)) xb yb (ground (arith, yb)) xp yp
        (ground (arith, xp)) (ground (arith, yp))
        (parent-differs t.nil path inner
          (ground (arith, count (address t.nil inner), p.once (address t.nil inner)))
          (ground (arith, count t.nil, p.no_nil))))
