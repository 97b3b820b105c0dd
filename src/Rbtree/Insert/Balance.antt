-- ===== src/Rbtree/Insert/Balance.antt =====
-- What `rbtree_insert_fixup` of kvs_rbtree.c does to a tree: the path of the red node that was hung up,
-- taken two steps at a time.
use kv_study.Prelude.{Bool, true, false, if◌then◌else◌, [], ◌∷◌}
use kv_study.Rbtree.{Side, left, right, other, is_red, Color}
use kv_study.Rbtree.Shape.{Cell, Tree, leaf, node, branch, Step, Trail, plug}
use kv_study.Rbtree.Focus.{painted}

abbrev pub blacken : Tree → Tree
blacken leaf = leaf
blacken (node c l r) = node (painted Color.black c) l r

abbrev pub red_root : Tree → Bool
red_root leaf = false
red_root (node c l r) = is_red c.color

abbrev pub near : Side → Tree → Tree → Tree
near left l r = l
near right l r = r

abbrev pub same_side : Side → Side → Bool
same_side left left = true
same_side left right = false
same_side right left = false
same_side right right = true

-- The parent above the node and the grandparent.
abbrev pub outer : Side → (c g : Cell) → (u sib unc : Tree) → Tree
outer d c g u sib unc = branch d (painted Color.black c) u (branch d (painted Color.red g) sib unc)

-- The node above its parent and its grandparent.
abbrev pub inner : Side → (c g : Cell) → (u sib unc : Tree) → Tree
inner d c g leaf sib unc = branch d g (branch (other d) c leaf sib) unc
inner d c g (node cz l r) sib unc =
    outer d cz g (branch d c sib (near d l r)) (near (other d) l r) unc

abbrev pub lifted : (s q : Step) → Tree → Tree
lifted s q u =
    if same_side s.side q.side
    then outer q.side s.cell q.cell u s.sibling q.sibling
    else inner q.side s.cell q.cell u s.sibling q.sibling

abbrev pub recolored : (s q : Step) → Tree → Tree
recolored s q u =
    branch q.side (painted Color.red q.cell)
      (branch s.side (painted Color.black s.cell) u s.sibling) (blacken q.sibling)

unfoldable pub balance : Trail → Tree → Tree
balance [] u = blacken u
balance (s ∷ []) u = blacken (plug (s ∷ []) u)
balance (s ∷ q ∷ path) u =
    let above = balance path (recolored s q u) in
    if is_red s.cell.color
    then if red_root q.sibling then above else blacken (plug path (lifted s q u))
    else blacken (plug (s ∷ q ∷ path) u)
