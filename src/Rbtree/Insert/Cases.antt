-- ===== src/Rbtree/Insert/Cases.antt =====
-- The body and the exit of the loop of `rbtree_insert_fixup` in kvs_rbtree.c, on trees.
use kv_study.Prelude.{ℕ, suc, ◌≡◌, refl, sym, ◌∙◌, ap, Bool, true, false, [], ◌∷◌, ok, arith}
use mathlib.Core.Path.{subst}
use kv_study.Rbtree.{Side, left, right, other, child, rotate, is_red, Color, Rbtree, set_color}
use kv_study.Rbtree.Shape.{
  Cell, Tree, leaf, node, branch, Trail, plug, address, parent_of, Place, color-node_at,
}
use kv_study.Rbtree.Turn.{rotate-Place}
use kv_study.Rbtree.Focus.{branch-other, Place-up, Place-down, painted, recolor-Place}
use kv_study.Rbtree.Insert.{
  grandparent, recolor, straighten, lift, fixup_step, side_of_parent, rbtree_insert_fixup,
}
use kv_study.Rbtree.Insert.Balance.{blacken, red_root, near, outer, inner}
use kv_study.Rbtree.Insert.Steps.{
  Family, family-grandparent, family-uncle, recolor-family, straighten-outer, straighten-inner,
  lift-Place, uncle-red,
}

blacken_nil-Place : (t : Rbtree) → Place t [] leaf → Place (set_color t.root Color.black t) [] leaf
unfolding set_color
blacken_nil-Place t p = record {
  above = p.above;
  below = tt;
  once = p.once;
  no_nil = p.no_nil;
  nil_black = ground (arith, p.nil_black);
}

-- `T->root->color = BLACK`
pub blacken_root-Place :
    (t : Rbtree) (path : Trail) (u : Tree)
    → Place t path u
    → Place (set_color t.root Color.black t) [] (blacken (plug path u))
blacken_root-Place t [] leaf p = blacken_nil-Place t p
blacken_root-Place t [] (node c l r) p =
    subst (λ a. Place (set_color a Color.black t) [] (blacken (node c l r))) (sym p.above)
      (recolor-Place t Color.black c l r [] p)
blacken_root-Place t (s ∷ path) u p = blacken_root-Place t path _ (Place-up t s path u p)

-- The color of the parent.
abbrev pub parent_red : Trail → Bool
parent_red [] = false
parent_red (s ∷ path) = is_red s.cell.color

parent-color :
    (t : Rbtree) (path : Trail) (c : Cell) (l r : Tree)
    → Place t path (node c l r)
    → is_red (t.heap (t.heap c.addr).parent).color ≡ parent_red path
parent-color t [] c l r p =
    ap (λ n. is_red (t.heap n.parent).color) p.below.0 ∙ ap is_red p.nil_black
parent-color t (s ∷ path) c l r p =
    ap (λ n. is_red (t.heap n.parent).color) p.below.0
    ∙ ap (λ n. is_red n.color) p.above.0
    ∙ ap is_red
        (color-node_at s.side s.cell (parent_of t.nil path) c.addr (address t.nil s.sibling))

-- Below a black parent the loop ends.
pub loop_ends :
    (fuel : ℕ) (t : Rbtree) (path : Trail) (c : Cell) (l r : Tree)
    → Place t path (node c l r)
    → parent_red path ≡ false
    → rbtree_insert_fixup (suc fuel) t c.addr ≡ ok (set_color t.root Color.black t)
unfolding rbtree_insert_fixup
loop_ends fuel t path c l r p black = rw (parent-color t path c l r p, black) refl

pub loop_goes_on :
    (fuel : ℕ) (t : Rbtree) (path : Trail) (c : Cell) (l r : Tree) (d : Side)
    → Place t path (node c l r)
    → parent_red path ≡ true
    → side_of_parent t c.addr ≡ d
    → rbtree_insert_fixup (suc fuel) t c.addr
      ≡ rbtree_insert_fixup fuel (fixup_step d t c.addr).0 (fixup_step d t c.addr).1
unfolding rbtree_insert_fixup
loop_goes_on fuel t path c l r d p red side = rw (parent-color t path c l r p, red, side) refl

step-recolors_eq :
    (d : Side) (t : Rbtree) (z : ℕ)
    → is_red (t.heap (child (other d) (t.heap (grandparent t z)))).color ≡ true
    → fixup_step d t z ≡ (
      recolor t z (child (other d) (t.heap (grandparent t z))),
      grandparent (recolor t z (child (other d) (t.heap (grandparent t z)))) z,
    )
unfolding fixup_step
step-recolors_eq d t z e = rw e refl

-- The uncle is red: new colors, and on with the grandparent.
pub step-recolors :
    (t : Rbtree) (d e : Side) (g c cz : Cell) (l r sib unc : Tree) (path : Trail)
    → Place t path (Family t d e g c cz l r sib unc path)
    → red_root unc ≡ true
    → Place (fixup_step d t cz.addr).0 path (
        branch d
          (painted Color.red g)
          (branch e (painted Color.black c) (node cz l r) sib)
          (blacken unc))
      × ((fixup_step d t cz.addr).1 ≡ g.addr)
step-recolors t d e g c cz l r sib leaf path p red = absurd (ground (arith, red))
step-recolors t d e g c cz l r sib (node cu ul ur) path p red =
    let p' = recolor-family t d e g c cz cu l r sib ul ur path p in
    let here =
      step-recolors_eq d t cz.addr (uncle-red t d e g c cz l r sib (node cu ul ur) path p ∙ red)
      ∙ ap (λ a. (recolor t cz.addr a, grandparent (recolor t cz.addr a) cz.addr))
          (family-uncle t d e g c cz l r sib (node cu ul ur) path p) in
    (
      subst
          (λ w. Place w.0 path (
            branch d (painted Color.red g) (branch e (painted Color.black c) (node cz l r) sib)
              (node (painted Color.black cu) ul ur)))
          (sym here) p',
      ap (λ w. w.1) here
          ∙ family-grandparent (recolor t cz.addr cu.addr) d e (painted Color.red g)
              (painted Color.black c) cz l r sib (node (painted Color.black cu) ul ur) path p',
    )

step-lifts :
    (d : Side) (t : Rbtree) (z : ℕ)
    → is_red (t.heap (child (other d) (t.heap (grandparent t z)))).color ≡ false
    → fixup_step d t z ≡ (lift d (straighten d t z).0 (straighten d t z).1, (straighten d t z).1)
unfolding fixup_step
step-lifts d t z e = rw e refl

pub step-outer :
    (t : Rbtree) (d : Side) (g c cz : Cell) (l r sib unc : Tree) (path : Trail)
    → Place t path (Family t d d g c cz l r sib unc path)
    → red_root unc ≡ false
    → Place (fixup_step d t cz.addr).0 path (outer d c g (node cz l r) sib unc)
      × ((fixup_step d t cz.addr).1 ≡ cz.addr)
step-outer t d g c cz l r sib unc path p black =
    let here =
      step-lifts d t cz.addr (uncle-red t d d g c cz l r sib unc path p ∙ black)
      ∙ ap (λ w. (lift d w.0 w.1, w.1)) (straighten-outer t d g c cz l r sib unc path p) in
    (
      subst (λ w. Place w.0 path (outer d c g (node cz l r) sib unc)) (sym here)
          (lift-Place t d g c cz l r sib unc path p),
      ap (λ w. w.1) here,
    )

pub branch-node :
    (d : Side) (c : Cell) (u v : Tree) → branch d c u v ≡ node c (near d u v) (near (other d) u v)
branch-node left c u v = refl
branch-node right c u v = refl

node-branch :
    (d : Side) (c : Cell) (l r : Tree) → node c l r ≡ branch d c (near d l r) (near (other d) l r)
node-branch left c l r = refl
node-branch right c l r = refl

straightened-Place :
    (t : Rbtree) (d : Side) (g c cz : Cell) (l r sib unc : Tree) (path : Trail)
    → Place t path (Family t d (other d) g c cz l r sib unc path)
    → Place
        (rotate d t c.addr)
        path
        (branch d g (branch d cz (branch d c sib (near d l r)) (near (other d) l r)) unc)
straightened-Place t d g c cz l r sib unc path p =
    let q = Place-down t d g unc path (branch (other d) c (node cz l r) sib) p in
    Place-up (rotate d t c.addr) _ path _ (
      rotate-Place d t _ c cz sib (near d l r) (near (other d) l r) (
        subst (Place t _)
          (branch-other d c sib (node cz l r) ∙ ap (branch d c sib) (node-branch d cz l r)) q))

pub step-inner :
    (t : Rbtree) (d : Side) (g c cz : Cell) (l r sib unc : Tree) (path : Trail)
    → Place t path (Family t d (other d) g c cz l r sib unc path)
    → red_root unc ≡ false
    → Place (fixup_step d t cz.addr).0 path (inner d c g (node cz l r) sib unc)
      × ((fixup_step d t cz.addr).1 ≡ c.addr)
step-inner t d g c cz l r sib unc path p black =
    let here =
      step-lifts d t cz.addr (uncle-red t d (other d) g c cz l r sib unc path p ∙ black)
      ∙ ap (λ w. (lift d w.0 w.1, w.1)) (straighten-inner t d g c cz l r sib unc path p) in
    let q : Place (rotate d t c.addr) path (
        branch d g
          (branch d cz (node c (near d sib (near d l r)) (near (other d) sib (near d l r)))
            (near (other d) l r))
          unc) =
      subst
        (λ u. Place (rotate d t c.addr) path (branch d g (branch d cz u (near (other d) l r)) unc))
        (branch-node d c sib (near d l r)) (straightened-Place t d g c cz l r sib unc path p) in
    (
      subst (λ w. Place w.0 path (inner d c g (node cz l r) sib unc)) (sym here)
          (subst
            (λ u.
              Place (lift d (rotate d t c.addr) c.addr) path
                (outer d cz g u (near (other d) l r) unc))
            (sym (branch-node d c sib (near d l r)))
            (lift-Place (rotate d t c.addr) d g cz c _ _ (near (other d) l r) unc path q)),
      ap (λ w. w.1) here,
    )
