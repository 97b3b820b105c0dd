-- ===== src/Rbtree/Insert/Steps.antt =====
-- The cases of the loop of `rbtree_insert_fixup` in kvs_rbtree.c, on trees.
use kv_study.Prelude.{◌≡◌, refl, sym, ◌∙◌, ap, false, ◌==◌, if◌then◌else◌, ◌∷◌, arith}
use mathlib.Core.Path.{subst}
use kv_study.Rbtree.{Side, left, right, other, child, rotate, is_red, Color, Rbtree, set_color}
use kv_study.Rbtree.Shape.{
  Cell, Tree, leaf, node, branch, Trail, address, node_at, occurs, occurs_path, parent_of, Place,
  address-differs, address-branch, child_far, child_near, parent-node_at, same_address,
}
use kv_study.Rbtree.Turn.{rotate-Place}
use kv_study.Rbtree.Focus.{
  Place-up, Place-down, Place-turn, Place-unturn, painted, recolor-Place, recolor-branch,
  Place-branch, parent-child,
}
use kv_study.Rbtree.Insert.{
  grandparent, blacken_parent, redden_grandparent, recolor, straighten, lift, side_of_parent,
}
use kv_study.Rbtree.Insert.Balance.{red_root, outer}

-- The node whose fix-up is due, with its parent and its grandparent.
module _ (t : Rbtree) (d e : Side) (g c cz : Cell) (l r sib unc : Tree) (path : Trail) where
  abbrev pub Family : Tree
  Family = branch d g (branch e c (node cz l r) sib) unc

  pub family-parent : Place t path Family → (t.heap cz.addr).parent ≡ c.addr
  family-parent p =
      parent-child t e c cz l r sib _ (Place-down t d g unc path (branch e c (node cz l r) sib) p)

  pub family-grandparent : Place t path Family → grandparent t cz.addr ≡ g.addr
  family-grandparent p =
      ap (λ a. (t.heap a).parent) (family-parent p)
      ∙ ap (λ n. n.parent) (Place-branch t e c (node cz l r) sib _ (Place-down t d g unc path _ p))
      ∙ parent-node_at e c g.addr cz.addr (address t.nil sib)

  blacken_parent-Place :
      Place t path Family
      → Place
          (blacken_parent t cz.addr)
          path
          (branch d g (branch e (painted Color.black c) (node cz l r) sib) unc)
  blacken_parent-Place p =
      subst
        (λ a.
          Place (set_color a Color.black t) path
            (branch d g (branch e (painted Color.black c) (node cz l r) sib) unc))
        (sym (family-parent p))
        (Place-up (set_color c.addr Color.black t) _ path _ (
          recolor-branch t Color.black e c (node cz l r) sib _
            (Place-down t d g unc path (branch e c (node cz l r) sib) p)))

  redden_grandparent-Place :
      Place t path Family
      → Place
          (redden_grandparent t cz.addr)
          path
          (branch d (painted Color.red g) (branch e c (node cz l r) sib) unc)
  redden_grandparent-Place p =
      subst
        (λ a.
          Place (set_color a Color.red t) path
            (branch d (painted Color.red g) (branch e c (node cz l r) sib) unc))
        (sym (family-grandparent p)) (recolor-branch t Color.red d g _ unc path p)

  -- `z->parent->parent->right`, or `left` on the other side.
  pub family-uncle :
      Place t path Family → child (other d) (t.heap (grandparent t cz.addr)) ≡ address t.nil unc
  family-uncle p =
      ap (λ a. child (other d) (t.heap a)) (family-grandparent p)
      ∙ ap (child (other d)) (Place-branch t d g (branch e c (node cz l r) sib) unc path p)
      ∙ child_far d g (parent_of t.nil path) (address t.nil (branch e c (node cz l r) sib))
          (address t.nil unc)

  family-child : Place t path Family → child d (t.heap g.addr) ≡ c.addr
  family-child p =
      ap (child d) (Place-branch t d g (branch e c (node cz l r) sib) unc path p)
      ∙ child_near d g (parent_of t.nil path) (address t.nil (branch e c (node cz l r) sib))
          (address t.nil unc)
      ∙ address-branch e t.nil c (node cz l r) sib

pub recolor-family :
    (t : Rbtree) (d e : Side) (g c cz cu : Cell) (l r sib ul ur : Tree) (path : Trail)
    → Place t path (Family t d e g c cz l r sib (node cu ul ur) path)
    → Place (recolor t cz.addr cu.addr) path (
        branch d
          (painted Color.red g)
          (branch e (painted Color.black c) (node cz l r) sib)
          (node (painted Color.black cu) ul ur))
unfolding recolor
recolor-family t d e g c cz cu l r sib ul ur path p =
    let u = branch e (painted Color.black c) (node cz l r) sib in
    let t₁ = blacken_parent t cz.addr in
    let t₂ = set_color cu.addr Color.black t₁ in
    redden_grandparent-Place t₂ d e g (painted Color.black c) cz l r sib
      (node (painted Color.black cu) ul ur) path
      (Place-unturn t₂ d g u (node (painted Color.black cu) ul ur) path (
        Place-up t₂ _ path (node (painted Color.black cu) ul ur) (
          recolor-Place t₁ Color.black cu ul ur _ (
            Place-down t₁ (other d) g u path (node cu ul ur) (
              Place-turn t₁ d g u (node cu ul ur) path
                (blacken_parent-Place t d e g c cz l r sib (node cu ul ur) path p))))))

family-node :
    (t : Rbtree) (d e : Side) (g c cz : Cell) (l r sib unc : Tree) (path : Trail)
    → Place t path (Family t d e g c cz l r sib unc path)
    → t.heap g.addr ≡ node_at d g (parent_of t.nil path) c.addr (address t.nil unc)
family-node t d e g c cz l r sib unc path p =
    Place-branch t d g (branch e c (node cz l r) sib) unc path p
    ∙ ap (λ a. node_at d g (parent_of t.nil path) a (address t.nil unc))
        (address-branch e t.nil c (node cz l r) sib)

-- The places of the node and of its parent.
node-Place :
    (t : Rbtree) (d e : Side) (g c cz : Cell) (l r sib unc : Tree) (path : Trail)
    → Place t path (Family t d e g c cz l r sib unc path)
    → Place t
        (record { side = e; cell = c; sibling = sib }
          ∷ record { side = d; cell = g; sibling = unc }
          ∷ path)
        (node cz l r)
node-Place t d e g c cz l r sib unc path p =
    Place-down t e c sib _ (node cz l r)
      (Place-down t d g unc path (branch e c (node cz l r) sib) p)

sibling-differs :
    (t : Rbtree) (e : Side) (c cz : Cell) (l r sib : Tree) (path : Trail)
    → Place t (record { side = e; cell = c; sibling = sib } ∷ path) (node cz l r)
    → (cz.addr == address t.nil sib) ≡ false
unfolding occurs occurs_path
sibling-differs t e c cz l r sib path p = ground (
  arith,
  address-differs t.nil cz.addr sib (ground (arith, p.once cz.addr)) (ground (arith, p.no_nil)),
)

parent-apart :
    (t : Rbtree) (d e : Side) (g c cz : Cell) (l r sib unc : Tree) (path : Trail)
    → Place t path (Family t d e g c cz l r sib unc path)
    → (c.addr == address t.nil unc) ≡ false
unfolding occurs_path
parent-apart t d e g c cz l r sib unc path p =
    let q = node-Place t d e g c cz l r sib unc path p in
    ground (
      arith,
      address-differs t.nil c.addr unc (ground (arith, q.once c.addr)) (ground (arith, q.no_nil)),
    )

-- The child of the parent at its other side.
family-sibling :
    (t : Rbtree) (d e : Side) (g c cz : Cell) (l r sib unc : Tree) (path : Trail)
    → Place t path (Family t d e g c cz l r sib unc path)
    → child (other e) (t.heap (t.heap cz.addr).parent) ≡ address t.nil sib
family-sibling t d e g c cz l r sib unc path p =
    ap (λ a. child (other e) (t.heap a)) (family-parent t d e g c cz l r sib unc path p)
    ∙ ap (child (other e)) (node-Place t d e g c cz l r sib unc path p).above.0
    ∙ child_far e c g.addr cz.addr (address t.nil sib)

family-itself :
    (t : Rbtree) (d e : Side) (g c cz : Cell) (l r sib unc : Tree) (path : Trail)
    → Place t path (Family t d e g c cz l r sib unc path)
    → child e (t.heap (t.heap cz.addr).parent) ≡ cz.addr
family-itself t d e g c cz l r sib unc path p =
    ap (λ a. child e (t.heap a)) (family-parent t d e g c cz l r sib unc path p)
    ∙ ap (child e) (node-Place t d e g c cz l r sib unc path p).above.0
    ∙ child_near e c g.addr cz.addr (address t.nil sib)

-- The node is the outer child: nothing to straighten.
pub straighten-outer :
    (t : Rbtree) (d : Side) (g c cz : Cell) (l r sib unc : Tree) (path : Trail)
    → Place t path (Family t d d g c cz l r sib unc path)
    → straighten d t cz.addr ≡ (t, cz.addr)
unfolding straighten
straighten-outer t d g c cz l r sib unc path p =
    ap
      (λ b.
        if b then (rotate d t (t.heap cz.addr).parent, (t.heap cz.addr).parent) else (t, cz.addr))
      (ap (λ a. cz.addr == a) (family-sibling t d d g c cz l r sib unc path p)
        ∙ sibling-differs t d c cz l r sib _ (node-Place t d d g c cz l r sib unc path p))

pub straighten-inner :
    (t : Rbtree) (d : Side) (g c cz : Cell) (l r sib unc : Tree) (path : Trail)
    → Place t path (Family t d (other d) g c cz l r sib unc path)
    → straighten d t cz.addr ≡ (rotate d t c.addr, c.addr)
unfolding straighten
straighten-inner t d g c cz l r sib unc path p =
    ap
      (λ b.
        if b then (rotate d t (t.heap cz.addr).parent, (t.heap cz.addr).parent) else (t, cz.addr))
      (ap (λ a. cz.addr == a) (family-itself t d (other d) g c cz l r sib unc path p)
        ∙ same_address cz.addr)
    ∙ ap (λ a. (rotate d t a, a)) (family-parent t d (other d) g c cz l r sib unc path p)

turn-outer :
    (d : Side) (c g : Cell) (u sib unc : Tree)
    → branch (other d) g unc (branch (other d) c sib u) ≡ branch d g (branch d c u sib) unc
turn-outer left c g u sib unc = refl
turn-outer right c g u sib unc = refl

turn-lifted :
    (d : Side) (c g : Cell) (u sib unc : Tree)
    → branch (other d) c (branch (other d) g unc sib) u ≡ branch d c u (branch d g sib unc)
turn-lifted left c g u sib unc = refl
turn-lifted right c g u sib unc = refl

pub lift-Place :
    (t : Rbtree) (d : Side) (g c cz : Cell) (l r sib unc : Tree) (path : Trail)
    → Place t path (Family t d d g c cz l r sib unc path)
    → Place (lift d t cz.addr) path (outer d c g (node cz l r) sib unc)
unfolding lift
lift-Place t d g c cz l r sib unc path p =
    let t' = redden_grandparent (blacken_parent t cz.addr) cz.addr in
    let c' = painted Color.black c in
    let g' = painted Color.red g in
    let u = node cz l r in
    let p' : Place t' path (branch d g' (branch d c' u sib) unc) =
      redden_grandparent-Place (blacken_parent t cz.addr) d d g c' cz l r sib unc path
        (blacken_parent-Place t d d g c cz l r sib unc path p) in
    subst (λ a. Place (rotate (other d) t' a) path (outer d c g u sib unc))
      (sym (family-grandparent t' d d g' c' cz l r sib unc path p'))
      (subst (Place (rotate (other d) t' g.addr) path) (turn-lifted d c' g' u sib unc) (
        rotate-Place (other d) t' path g' c' unc sib u
          (subst (Place t' path) (sym (turn-outer d c' g' u sib unc)) p')))

-- The test on the uncle; the sentinel is black.
pub uncle-red :
    (t : Rbtree) (d e : Side) (g c cz : Cell) (l r sib unc : Tree) (path : Trail)
    → Place t path (Family t d e g c cz l r sib unc path)
    → is_red (t.heap (child (other d) (t.heap (grandparent t cz.addr)))).color ≡ red_root unc
uncle-red t d e g c cz l r sib unc path p =
    ap (λ a. is_red (t.heap a).color) (family-uncle t d e g c cz l r sib unc path p)
    ∙ root_color t unc _ (
        Place-down t (other d) g (branch e c (node cz l r) sib) path unc
          (Place-turn t d g (branch e c (node cz l r) sib) unc path p))
  where
    root_color :
        (t : Rbtree) (u : Tree) (path : Trail)
        → Place t path u
        → is_red (t.heap (address t.nil u)).color ≡ red_root u
    root_color t leaf path p = ap is_red p.nil_black
    root_color t (node c l r) path p = ap (λ n. is_red n.color) p.below.0

-- Which branch of the loop runs.
pub side_of_parent-family :
    (t : Rbtree) (d e : Side) (g c cz : Cell) (l r sib unc : Tree) (path : Trail)
    → Place t path (Family t d e g c cz l r sib unc path)
    → side_of_parent t cz.addr ≡ d
side_of_parent-family t d e g c cz l r sib unc path p =
    ap (λ a. if a == (t.heap (grandparent t cz.addr)).left then left else right)
      (family-parent t d e g c cz l r sib unc path p)
    ∙ ap (λ a. if c.addr == (t.heap a).left then left else right)
        (family-grandparent t d e g c cz l r sib unc path p)
    ∙ test d unc (family-node t d e g c cz l r sib unc path p)
        (parent-apart t d e g c cz l r sib unc path p)
  where
    test :
        (d : Side) (unc : Tree)
        → t.heap g.addr ≡ node_at d g (parent_of t.nil path) c.addr (address t.nil unc)
        → (c.addr == address t.nil unc) ≡ false
        → (if c.addr == (t.heap g.addr).left then left else right) ≡ d
    test left unc e apart =
        ap (λ n. if c.addr == n.left then left else right) e
        ∙ ap (λ b. if b then left else right) (same_address c.addr)
    test right unc e apart =
        ap (λ n. if c.addr == n.left then left else right) e
        ∙ ap (λ b. if b then left else right) apart
