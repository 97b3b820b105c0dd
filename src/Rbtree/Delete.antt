-- ===== src/Rbtree/Delete.antt =====
-- `rbtree_delete` of kvs_rbtree.c. As for the insertion, the two mirror images in the loop of
-- `rbtree_delete_fixup` are one definition for the side of its parent at which `x` is.
use kv_study.Prelude.{ℕ, zero, suc, not, ◌&&◌, ◌||◌, ◌==◌, if◌then◌else◌, Run, ok, fault, ◌>>=◌}
use kv_study.Rbtree.{
  Side, left, right, other, child, rotate, is_black, is_red, Color, Rbtree, store, set_left,
  set_right, set_parent, set_color, rbtree_successor,
}

abbrev pub parent : Rbtree → ℕ → ℕ
parent t x = (t.heap x).parent

-- `w`, the other child of the parent of `x`.
abbrev pub sibling : Side → Rbtree → ℕ → ℕ
sibling d t x = child (other d) (t.heap (parent t x))

-- `w` is RED: the parent goes down to the side of `x`.
unfoldable pub lower_parent : Side → Rbtree → ℕ → Rbtree
lower_parent d t x =
    let w = sibling d t x in
    let t' = set_color (parent t x) Color.red (set_color w Color.black t) in
    if is_red (t.heap w).color then rotate d t' (parent t' x) else t

-- The far child of `w` is BLACK: `w` goes down to the other side.
unfoldable pub lower_sibling : Side → Rbtree → ℕ → Rbtree
lower_sibling d t x =
    let w = sibling d t x in
    let t' = set_color w Color.red (set_color (child d (t.heap w)) Color.black t) in
    if is_black (t.heap (child (other d) (t.heap w))).color then rotate (other d) t' w else t

-- The far child of `w` is RED: the last rotation.
unfoldable pub lift_sibling : Side → Rbtree → ℕ → Rbtree
lift_sibling d t x =
    let w = sibling d t x in
    let t₁ = set_color w (t.heap (parent t x)).color t in
    let t₂ = set_color (parent t₁ x) Color.black t₁ in
    let t₃ = set_color (child (other d) (t₂.heap w)) Color.black t₂ in rotate d t₃ (parent t₃ x)

-- The body of the loop.
unfoldable pub delete_step : Side → Rbtree → ℕ → Rbtree × ℕ
delete_step d t x =
    let t' = lower_parent d t x in
    let w = t'.heap (sibling d t' x) in
    if is_black (t'.heap w.left).color && is_black (t'.heap w.right).color
    then (set_color (sibling d t' x) Color.red t', parent t' x)
    else let t₁ = lift_sibling d (lower_sibling d t' x) x in (t₁, t₁.root)

-- `x == x->parent->left`
abbrev pub side_of : Rbtree → ℕ → Side
side_of t x = if x == (t.heap (parent t x)).left then left else right

unfoldable pub rbtree_delete_fixup : ℕ → Rbtree → ℕ → Run Rbtree
rbtree_delete_fixup zero t x = fault
rbtree_delete_fixup (suc fuel) t x =
    let (t', x') = delete_step (side_of t x) t x in
    let rest = rbtree_delete_fixup fuel t' x' in
    if not (x == t.root) && is_black (t.heap x).color then rest else ok (set_color x Color.black t)

-- The node that is taken out: `z`, or its successor where it has two children.
unfoldable pub victim : ℕ → Rbtree → ℕ → Run ℕ
victim fuel t z =
    if ((t.heap z).left == t.nil) || ((t.heap z).right == t.nil)
    then ok z
    else rbtree_successor fuel t z

-- The child of `y` that is not the sentinel, if there is one.
unfoldable pub only_child : Rbtree → ℕ → ℕ
only_child t y =
    if not ((t.heap y).left == t.nil)
    then (t.heap y).left
    else if not ((t.heap y).right == t.nil)
    then (t.heap y).right
    else t.nil

-- `x` in the place of `y`.
unfoldable pub splice_out : Rbtree → (y x : ℕ) → Rbtree
splice_out t y x =
    let t' = set_parent x (t.heap y).parent t in
    let p = (t'.heap y).parent in
    if p == t'.nil
    then record t' { root = x }
    else if y == (t'.heap p).left
    then set_left p x t'
    else set_right p x t'

-- `y` and `z` exchange their keys and values.
unfoldable pub swap_entries : Rbtree → (y z : ℕ) → Rbtree
swap_entries t y z =
    let t' = store z (record (t.heap z) { key = (t.heap y).key; value = (t.heap y).value }) t in
    store y (record (t'.heap y) { key = (t.heap z).key; value = (t.heap z).value }) t'

-- The tree, and the node that the caller frees.
unfoldable pub rbtree_delete : ℕ → Rbtree → ℕ → Run (Rbtree × ℕ)
rbtree_delete fuel t z = victim fuel t z >>= λ y. take_out y
  where
    take_out : ℕ → Run (Rbtree × ℕ)
    take_out y =
        let x = only_child t y in
        let t₁ = splice_out t y x in
        let t₂ = if y == z then t₁ else swap_entries t₁ y z in
        if is_black (t₂.heap y).color
        then (rbtree_delete_fixup fuel t₂ x >>= λ t₃. ok (t₃, y))
        else ok (t₂, y)
