-- ===== src/Rbtree/Calls.antt =====
-- The functions of kvs_rbtree.c that the engine calls, and `rbtree_search`. The instance is a global, so
-- it is never NULL. The key and value pointers
-- of the arguments are none where NULL; the address of a node that is allocated is an argument, 0 where
-- `kvs_malloc` returns NULL, which the code then writes through.
use Prim.Native.Nat.{Ordering}
use kv_study.Prelude.{
  ℕ, zero, suc, Bool, true, false, ◌==◌, if◌then◌else◌, Option, none, some, ℤ, pos, minus, Ptr, Str,
  Run, ok, fault, ◌>>=◌,
}
use kv_study.Rbtree.{Color, Node, Rbtree, store, compare_keys}
use kv_study.Rbtree.Insert.{rbtree_insert}
use kv_study.Rbtree.Delete.{rbtree_delete}

unfoldable pub search_from : ℕ → Rbtree → Str → ℕ → Run ℕ
unfolding compare_keys
search_from zero t key x = fault
search_from (suc fuel) t key x =
    let to_left = search_from fuel t key (t.heap x).left in
    let to_right = search_from fuel t key (t.heap x).right in
    if x == t.nil
    then ok t.nil
    else compare_keys (Ptr.text key) (t.heap x).key >>= λ order. elim order [
      | Ordering.lt ↦ to_left
      | Ordering.gt ↦ to_right
      | Ordering.eq ↦ ok x
    ]

unfoldable pub rbtree_search : ℕ → Rbtree → Str → Run ℕ
rbtree_search fuel t key = search_from fuel t key t.root

-- The sentinel at the address that `kvs_malloc` returned: its other fields are as they were.
unfoldable pub kvs_rbtree_create : (ℕ → Node) → ℕ → Run (Rbtree × ℤ)
kvs_rbtree_create heap zero = fault
kvs_rbtree_create heap (suc a) =
    let nil = suc a in
    let t : Rbtree = record { heap = heap; root = nil; nil = nil } in
    ok (store nil (record (heap nil) { color = Color.black }) t, pos 0)

-- The new node with the copies of its key and its value; what is not copied is NULL or as it was.
abbrev pub fresh_node : Rbtree → ℕ → Str → Str → Rbtree
fresh_node t a key value =
    store a (record (t.heap a) { key = Ptr.text key; value = Ptr.text value }) t

-- `key_copied` and `value_copied` say whether the copies could be allocated.
unfoldable pub kvs_rbtree_set :
    (fuel : ℕ)
    → Rbtree
    → (address : ℕ) → (key_copied value_copied : Bool) → Option Str
    → Option Str
    → Run (Rbtree × ℤ)
kvs_rbtree_set fuel t zero key_copied value_copied (some key) (some value) = fault
kvs_rbtree_set fuel t (suc a) false value_copied (some key) (some value) =
    ok (store (suc a) (record (t.heap (suc a)) { key = Ptr.null }) t, minus 2)
kvs_rbtree_set fuel t (suc a) true false (some key) (some value) =
    ok (store (suc a) (record (t.heap (suc a)) { key = Ptr.text key; value = Ptr.null }) t, minus 2)
kvs_rbtree_set fuel t (suc a) true true (some key) (some value) =
    rbtree_insert fuel (fresh_node t (suc a) key value) (suc a) >>= λ t'. ok (t', pos 0)
kvs_rbtree_set fuel t a key_copied value_copied _ _ = ok (t, minus 1)

unfoldable pub kvs_rbtree_get : (fuel : ℕ) → Rbtree → Option Str → Run Ptr
kvs_rbtree_get fuel t none = ok Ptr.null
kvs_rbtree_get fuel t (some key) = rbtree_search fuel t key >>= λ x.
    if x == 0 then ok Ptr.null else if x == t.nil then ok Ptr.null else ok (t.heap x).value

-- The value is replaced by a copy of the new one, or by NULL where that could not be allocated.
unfoldable pub kvs_rbtree_mod :
    (fuel : ℕ) → Rbtree → (copied : Bool) → Option Str → Option Str → Run (Rbtree × ℤ)
kvs_rbtree_mod fuel t copied (some key) (some value) = rbtree_search fuel t key >>= λ x.
    if x == 0
    then ok (t, pos 1)
    else if x == t.nil
    then ok (t, pos 1)
    else if copied
    then ok (store x (record (t.heap x) { value = Ptr.text value }) t, pos 0)
    else ok (store x (record (t.heap x) { value = Ptr.null }) t, minus 2)
kvs_rbtree_mod fuel t copied _ _ = ok (t, minus 1)

unfoldable pub kvs_rbtree_exist : (fuel : ℕ) → Rbtree → Option Str → Run ℤ
kvs_rbtree_exist fuel t none = ok (minus 1)
kvs_rbtree_exist fuel t (some key) = rbtree_search fuel t key >>= λ x.
    if x == 0 then ok (pos 1) else if x == t.nil then ok (pos 1) else ok (pos 0)

-- The tree, the address that is passed to `free`, if one is, and the result. The node that the search
-- ends at is never NULL: for a key that is not there it is the sentinel.
unfoldable pub kvs_rbtree_del : (fuel : ℕ) → Rbtree → Option Str → Run (Rbtree × Option ℕ × ℤ)
kvs_rbtree_del fuel t none = ok (t, none, minus 1)
kvs_rbtree_del fuel t (some key) = rbtree_search fuel t key >>= λ x.
    if x == 0
    then ok (t, none, pos 1)
    else rbtree_delete fuel t x >>= λ (t', cur). ok (t', some cur, pos 0)

-- The loop is entered only where `root` is NULL, which it never is: the nodes are not freed. The
-- result is the address that is passed to `kvs_free`.
unfoldable pub kvs_rbtree_destory : (fuel : ℕ) → Rbtree → Run ℕ
kvs_rbtree_destory fuel t = if t.root == 0 then fault else ok t.nil
