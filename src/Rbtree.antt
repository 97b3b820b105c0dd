-- ===== src/Rbtree.antt =====
-- kvs_rbtree.c: a red-black tree of nodes with parent pointers. Addresses are numbers; the heap has a
-- node at each, and a node that was never written holds anything. `nil` is the address of the sentinel,
-- whose fields are read and written like those of another node. A loop runs on fuel, and running
-- out of it counts as a fault.
pub mod Shape
pub mod Rotate
pub mod Turn
pub mod Insert
pub mod Focus
pub mod Delete
pub mod Calls
pub mod Seek
pub mod Entries
pub mod Balanced
pub mod Levels
pub mod Order
pub mod Insertion
pub mod State
pub mod Answers
pub mod Revalue
pub mod Modify
pub mod Sentinel
pub mod Session
use Prim.Native.Nat.{Ordering}
use kv_study.Prelude.{
  ℕ, zero, suc, Bool, true, false, not, ◌&&◌, ◌==◌, if◌then◌else◌, Ptr, Str, strcmp, Run, ok, fault,
  ◌>>=◌,
}

pub data Color : Type 0 where
  red black : Color

abbrev pub is_red : Color → Bool
is_red red = true
is_red black = false

abbrev pub is_black : Color → Bool
is_black red = false
is_black black = true

pub record Node : Type 0 where
  pub color : Color
  pub right : ℕ
  pub left : ℕ
  pub parent : ℕ
  pub key : Ptr
  pub value : Ptr

pub record Rbtree : Type 0 where
  pub heap : ℕ → Node
  pub root : ℕ
  pub nil : ℕ

-- The two children of a node; where the code has a branch for each, the model has one for a side.
pub data Side : Type 0 where
  left right : Side

abbrev pub other : Side → Side
other left = right
other right = left

abbrev pub child : Side → Node → ℕ
child left n = n.left
child right n = n.right

-- `*a = n`
abbrev pub store : ℕ → Node → Rbtree → Rbtree
store a n t = record t { heap = λ b. if b == a then n else t.heap b }

unfoldable pub set_left : ℕ → ℕ → Rbtree → Rbtree
set_left a v t = store a (record (t.heap a) { left = v }) t

unfoldable pub set_right : ℕ → ℕ → Rbtree → Rbtree
set_right a v t = store a (record (t.heap a) { right = v }) t

unfoldable pub set_parent : ℕ → ℕ → Rbtree → Rbtree
set_parent a v t = store a (record (t.heap a) { parent = v }) t

unfoldable pub set_color : ℕ → Color → Rbtree → Rbtree
set_color a v t = store a (record (t.heap a) { color = v }) t

-- `strcmp` of two keys read through pointers.
unfoldable pub compare_keys : Ptr → Ptr → Run Ordering
compare_keys (Ptr.text a) (Ptr.text b) = ok (strcmp a b)
compare_keys _ _ = fault

-- `while (x->left != T->nil) x = x->left`
unfoldable pub rbtree_mini : ℕ → Rbtree → ℕ → Run ℕ
rbtree_mini zero t x = fault
rbtree_mini (suc fuel) t x =
    let next = (t.heap x).left in
    let rest = rbtree_mini fuel t next in if next == t.nil then ok x else rest

unfoldable pub rbtree_maxi : ℕ → Rbtree → ℕ → Run ℕ
rbtree_maxi zero t x = fault
rbtree_maxi (suc fuel) t x =
    let next = (t.heap x).right in
    let rest = rbtree_maxi fuel t next in if next == t.nil then ok x else rest

-- `while ((y != T->nil) && (x == y->right)) { x = y; y = y->parent; }`
unfoldable pub climb : ℕ → Rbtree → ℕ → ℕ → Run ℕ
climb zero t x y = fault
climb (suc fuel) t x y =
    let rest = climb fuel t y (t.heap y).parent in
    if not (y == t.nil) && (x == (t.heap y).right) then rest else ok y

unfoldable pub rbtree_successor : ℕ → Rbtree → ℕ → Run ℕ
unfolding rbtree_mini climb
rbtree_successor fuel t x =
    if not ((t.heap x).right == t.nil)
    then rbtree_mini fuel t (t.heap x).right
    else climb fuel t x (t.heap x).parent

-- `x->right = y->left; if (y->left != T->nil) y->left->parent = x;`
unfoldable pub take_left : Rbtree → (x y : ℕ) → Rbtree
unfolding set_right set_parent
take_left t x y =
    let t' = set_right x (t.heap y).left t in
    let inner = (t'.heap y).left in if inner == t'.nil then t' else set_parent inner x t'

-- `y->left = x->right; if (x->right != T->nil) x->right->parent = y;`
unfoldable pub take_right : Rbtree → (y x : ℕ) → Rbtree
unfolding set_left set_parent
take_right t y x =
    let t' = set_left y (t.heap x).right t in
    let inner = (t'.heap x).right in if inner == t'.nil then t' else set_parent inner y t'

-- `y->parent = x->parent`, and `y` in the place of `x` below that parent, or as the root; the test is
-- whether `x` is the left child.
unfoldable pub promote_left : Rbtree → (x y : ℕ) → Rbtree
unfolding set_left set_right set_parent
promote_left t x y =
    let t' = set_parent y (t.heap x).parent t in
    let p = (t'.heap x).parent in
    if p == t'.nil
    then record t' { root = y }
    else if x == (t'.heap p).left
    then set_left p y t'
    else set_right p y t'

-- The same with the test whether it is the right child.
unfoldable pub promote_right : Rbtree → (y x : ℕ) → Rbtree
unfolding set_left set_right set_parent
promote_right t y x =
    let t' = set_parent x (t.heap y).parent t in
    let p = (t'.heap y).parent in
    if p == t'.nil
    then record t' { root = x }
    else if y == (t'.heap p).right
    then set_right p x t'
    else set_left p x t'

unfoldable pub rbtree_left_rotate : Rbtree → ℕ → Rbtree
rbtree_left_rotate t x =
    let y = (t.heap x).right in set_parent x y (set_left y x (promote_left (take_left t x y) x y))

unfoldable pub rbtree_right_rotate : Rbtree → ℕ → Rbtree
rbtree_right_rotate t y =
    let x = (t.heap y).left in set_parent y x (set_right x y (promote_right (take_right t y x) y x))

-- The rotation that moves a node down to the side.
abbrev pub rotate : Side → Rbtree → ℕ → Rbtree
rotate left t x = rbtree_left_rotate t x
rotate right t x = rbtree_right_rotate t x
