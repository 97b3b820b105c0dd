-- ===== src/Rbtree/Insert.antt =====
-- `rbtree_insert` of kvs_rbtree.c. The two branches of the loop of `rbtree_insert_fixup`, which are
-- mirror images, are one definition for the side of the grandparent at which `z->parent` is.
pub mod Balance
pub mod Steps
pub mod Cases
pub mod Loop
pub mod Hang
use Prim.Native.Nat.{Ordering}
use kv_study.Prelude.{
  ℕ, zero, suc, Bool, true, false, ◌==◌, if◌then◌else◌, Option, none, some, Run, ok, fault, ◌>>=◌,
}
use kv_study.Rbtree.{
  Side, left, right, other, child, rotate, is_red, Color, Node, Rbtree, set_left, set_right,
  set_parent, set_color, compare_keys,
}

abbrev pub grandparent : Rbtree → ℕ → ℕ
grandparent t z = (t.heap (t.heap z).parent).parent

-- `z->parent->color = BLACK`
abbrev pub blacken_parent : Rbtree → ℕ → Rbtree
blacken_parent t z = set_color (t.heap z).parent Color.black t

-- `z->parent->parent->color = RED`
abbrev pub redden_grandparent : Rbtree → ℕ → Rbtree
redden_grandparent t z = set_color (grandparent t z) Color.red t

-- `y` is RED: it, the parent and the grandparent change their colors.
unfoldable pub recolor : Rbtree → (z y : ℕ) → Rbtree
recolor t z y = redden_grandparent (set_color y Color.black (blacken_parent t z)) z

-- `if (z == z->parent->right) { z = z->parent; rbtree_left_rotate (T, z); }`
unfoldable pub straighten : Side → Rbtree → ℕ → Rbtree × ℕ
straighten side t z =
    let p = (t.heap z).parent in
    if z == child (other side) (t.heap p) then (rotate side t p, p) else (t, z)

-- `rbtree_right_rotate (T, z->parent->parent)` after the new colors.
unfoldable pub lift : Side → Rbtree → ℕ → Rbtree
lift side t z =
    let t' = redden_grandparent (blacken_parent t z) z in rotate (other side) t' (grandparent t' z)

-- The body of the loop.
unfoldable pub fixup_step : Side → Rbtree → ℕ → Rbtree × ℕ
unfolding straighten
fixup_step side t z =
    let y = child (other side) (t.heap (grandparent t z)) in
    if is_red (t.heap y).color
    then (recolor t z y, grandparent (recolor t z y) z)
    else let (t', z') = straighten side t z in (lift side t' z', z')

-- `z->parent == z->parent->parent->left`
abbrev pub side_of_parent : Rbtree → ℕ → Side
side_of_parent t z = if (t.heap z).parent == (t.heap (grandparent t z)).left then left else right

unfoldable pub rbtree_insert_fixup : ℕ → Rbtree → ℕ → Run Rbtree
rbtree_insert_fixup zero t z = fault
rbtree_insert_fixup (suc fuel) t z =
    let (t', z') = fixup_step (side_of_parent t z) t z in
    let rest = rbtree_insert_fixup fuel t' z' in
    if is_red (t.heap (t.heap z).parent).color then rest else ok (set_color t.root Color.black t)

-- The loop that looks for the parent; none where it meets the key.
unfoldable pub descend : ℕ → Rbtree → (z y x : ℕ) → Run (Option ℕ)
unfolding compare_keys
descend zero t z y x = fault
descend (suc fuel) t z y x =
    let to_left = descend fuel t z x (t.heap x).left in
    let to_right = descend fuel t z x (t.heap x).right in
    if x == t.nil
    then ok (some y)
    else compare_keys (t.heap z).key (t.heap x).key >>= λ order. elim order [
      | Ordering.lt ↦ to_left
      | Ordering.gt ↦ to_right
      | Ordering.eq ↦ ok none
    ]

-- `z` becomes the root, or a child of `y`.
unfoldable pub hang_up : Rbtree → (z y : ℕ) → Run Rbtree
unfolding compare_keys
hang_up t z y =
    let t' = set_parent z y t in
    if y == t'.nil
    then ok (record t' { root = z })
    else compare_keys (t'.heap z).key (t'.heap y).key >>= λ order. elim order [
      | Ordering.lt ↦ ok (set_left y z t')
      | _ ↦ ok (set_right y z t')
    ]

-- `z->left = T->nil; z->right = T->nil; z->color = RED;`
unfoldable pub clear_links : Rbtree → ℕ → Rbtree
clear_links t z = set_color z Color.red (set_right z t.nil (set_left z t.nil t))

-- What follows the loop.
unfoldable pub insert_at : ℕ → Rbtree → ℕ → Option ℕ → Run Rbtree
insert_at fuel t z none = ok t
insert_at fuel t z (some y) = hang_up t z y >>= λ t'. rbtree_insert_fixup fuel (clear_links t' z) z

unfoldable pub rbtree_insert : ℕ → Rbtree → ℕ → Run Rbtree
rbtree_insert fuel t z = descend fuel t z t.nil t.root >>= λ place. insert_at fuel t z place
