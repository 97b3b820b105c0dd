-- ===== src/Rbtree/Focus.antt =====
-- Steps from a place to another, and new colors: how the loops of kvs_rbtree.c move.
use kv_study.Prelude.{◌≡◌, refl, sym, ap, ◌∷◌, arith}
use mathlib.Core.Path.{subst}
use kv_study.Rbtree.{Side, left, right, other, Color, Rbtree, set_color}
use kv_study.Rbtree.Shape.{
  Cell, Tree, node, branch, Step, Trail, address, node_at, occurs, occurs_path, Above, parent_of,
  Place, Below-frame, Above-frame, Below-branch, branch-Below, address-branch, occurs-branch,
}

pub Place-up :
    (t : Rbtree) (s : Step) (path : Trail) (u : Tree)
    → Place t (s ∷ path) u
    → Place t path (branch s.side s.cell u s.sibling)
unfolding occurs_path
Place-up t s path u p =
    let (e, bs, rest) = p.above in
    record {
      above = subst (Above t path) (sym (address-branch s.side t.nil s.cell u s.sibling)) rest;
      below = branch-Below s.side t (parent_of t.nil path) s.cell u s.sibling e p.below bs;
      once = λ a. ground (arith, occurs-branch s.side a s.cell u s.sibling, p.once a);
      no_nil = ground (arith, occurs-branch s.side t.nil s.cell u s.sibling, p.no_nil);
      nil_black = p.nil_black;
    }

pub Place-down :
    (t : Rbtree) (s : Side) (c : Cell) (v : Tree) (path : Trail) (u : Tree)
    → Place t path (branch s c u v)
    → Place t (record { side = s; cell = c; sibling = v } ∷ path) u
unfolding occurs_path
Place-down t s c v path u p =
    let (e, bu, bv) = Below-branch s t (parent_of t.nil path) c u v p.below in
    record {
      above = (e, bv, subst (Above t path) (address-branch s t.nil c u v) p.above);
      below = bu;
      once = λ a. ground (arith, occurs-branch s a c u v, p.once a);
      no_nil = ground (arith, occurs-branch s t.nil c u v, p.no_nil);
      nil_black = p.nil_black;
    }

abbrev pub painted : Color → Cell → Cell
painted k c = record c { color = k }

pub recolor-Place :
    (t : Rbtree) (k : Color) (c : Cell) (l r : Tree) (path : Trail)
    → Place t path (node c l r)
    → Place (set_color c.addr k t) path (node (painted k c) l r)
unfolding set_color occurs
recolor-Place t k c l r path p =
    let (e, bl, br) = p.below in
    record {
      above =
          Above-frame t (set_color c.addr k t) path c.addr refl refl (λ a. ground (arith, p.once a))
            p.above;
      below = (
        ground (arith, e),
        Below-frame t (set_color c.addr k t) c.addr l refl (λ a. ground (arith, p.once a)) bl,
        Below-frame t (set_color c.addr k t) c.addr r refl (λ a. ground (arith, p.once a)) br,
      );
      once = λ a. ground (arith, p.once a);
      no_nil = ground (arith, p.no_nil);
      nil_black = ground (arith, p.no_nil, p.nil_black);
    }

-- The other child of a node as the near one.
pub branch-other : (s : Side) (c : Cell) (u v : Tree) → branch (other s) c v u ≡ branch s c u v
branch-other left c u v = refl
branch-other right c u v = refl

pub Place-turn :
    (t : Rbtree) (s : Side) (c : Cell) (u v : Tree) (path : Trail)
    → Place t path (branch s c u v)
    → Place t path (branch (other s) c v u)
Place-turn t s c u v path p = subst (Place t path) (sym (branch-other s c u v)) p

pub Place-unturn :
    (t : Rbtree) (s : Side) (c : Cell) (u v : Tree) (path : Trail)
    → Place t path (branch (other s) c v u)
    → Place t path (branch s c u v)
Place-unturn t s c u v path p = subst (Place t path) (branch-other s c u v) p

pub recolor-branch :
    (t : Rbtree) (k : Color) (s : Side) (c : Cell) (u v : Tree) (path : Trail)
    → Place t path (branch s c u v)
    → Place (set_color c.addr k t) path (branch s (painted k c) u v)
recolor-branch t k left c u v path p = recolor-Place t k c u v path p
recolor-branch t k right c u v path p = recolor-Place t k c v u path p

-- What the code reads in a node that has a place.
pub Place-branch :
    (t : Rbtree) (s : Side) (c : Cell) (u v : Tree) (path : Trail)
    → Place t path (branch s c u v)
    → t.heap c.addr ≡ node_at s c (parent_of t.nil path) (address t.nil u) (address t.nil v)
Place-branch t s c u v path p = (Below-branch s t (parent_of t.nil path) c u v p.below).0

pub parent-child :
    (t : Rbtree) (s : Side) (c cz : Cell) (l r v : Tree) (path : Trail)
    → Place t path (branch s c (node cz l r) v)
    → (t.heap cz.addr).parent ≡ c.addr
parent-child t s c cz l r v path p =
    ap (λ n. n.parent) (Place-down t s c v path (node cz l r) p).below.0
