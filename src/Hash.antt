-- ===== src/Hash.antt =====
-- kvs_hash.c: 1024 chains of nodes, a key's chain chosen by the sum of its bytes. A chain is the
-- list of its nodes from the head; a slot of the table that was never written is `junk`, and reading
-- it is undefined. A node's key is always a string of its own; its value is wild after a
-- modification that ran out of memory. `hash` is the address of `global_hash` in every call, so the
-- tests for a NULL table have no counterpart. Booleans are the outcomes of the allocations.
pub mod Index
pub mod Chain
pub mod Buckets
pub mod Methods
pub mod Delete
pub mod Calls
pub mod Foreign
use kv_study.Prelude.{
  ℕ, ◌+◌, ◌-◌, ◌≡◌, Bool, true, false, ◌&&◌, Option, none, some, List, [], ◌∷◌, if◌then◌else◌,
  get_elem?, set, ℤ, pos, negsuc, Ptr, Str, str_eq, Run, ok, fault, ◌>>=◌,
}
use mathlib.Core.List.{map}
use mathlib.Core.Option
use Index.{hash_index, max_table_size}

pub record Node : Type 0 where
  pub key : Str
  pub value : Ptr

pub data Bucket : Type 0 where
  chain : List Node → Bucket
  junk : Bucket

pub record KvsHash : Type 0 where
  pub nodes : List Bucket
  pub max_slots : ℕ
  pub count : ℕ

-- `memory` is the block that `kvs_malloc` returns for the table; nothing clears it.
unfoldable pub kvs_hash_create : Option (List Bucket) → KvsHash → KvsHash × ℤ
kvs_hash_create none h = (h, negsuc 0)
kvs_hash_create (some memory) h =
    (record { nodes = memory; max_slots = max_table_size; count = 0 }, pos 0)

-- Every node and the table are freed; the pointer to the table is kept.
unfoldable pub kvs_hash_destory : KvsHash → KvsHash
kvs_hash_destory h = record h { nodes = map (λ _. junk) h.nodes }

-- `hash->nodes[_hash (key, MAX_TABLE_SIZE)]`: the index with the chain that it heads.
unfoldable pub locate : KvsHash → Str → Run (ℕ × List Node)
locate h key = elim (hash_index key) [
  | negsuc n ↦ fault
  | pos i ↦ elim (get_elem? h.nodes i) [
    | none ↦ fault
    | some bucket ↦ elim bucket [ junk ↦ fault | chain c ↦ ok (i, c) ]
  ]
]

-- `while (node != NULL) { if (strcmp (node->key, key) == 0) ...; node = node->next; }`
unfoldable pub find_node : Str → List Node → Option Node
find_node key [] = none
find_node key (node ∷ rest) = if str_eq node.key key then some node else find_node key rest

unfoldable pub create_node : Bool → Bool → Bool → Str → Str → Option Node
create_node node kcopy kvalue key value =
    if node && (kcopy && kvalue) then some (record { key = key; value = Ptr.text value }) else none

-- `_create_node` may return NULL, and its result is written through without a test.
unfoldable pub prepend : KvsHash → ℕ → List Node → Option Node → Run (KvsHash × ℤ)
prepend h i c none = fault
prepend h i c (some node) =
    ok (record h { nodes = set h.nodes i (chain (node ∷ c)); count = h.count + 1 }, pos 0)

unfoldable pub kvs_hash_set :
    Bool → Bool → Bool → KvsHash → Option Str → Option Str → Run (KvsHash × ℤ)
unfolding locate find_node create_node prepend
kvs_hash_set node kcopy kvalue h none v = ok (h, negsuc 0)
kvs_hash_set node kcopy kvalue h (some k) none = ok (h, negsuc 0)
kvs_hash_set node kcopy kvalue h (some k) (some v) = do
  (i, c) ← locate h k
  elim (find_node k c) [
    | some old ↦ ok (h, pos 1)
    | none ↦ prepend h i c (create_node node kcopy kvalue k v)
  ]

unfoldable pub kvs_hash_get : KvsHash → Option Str → Run Ptr
unfolding locate find_node
kvs_hash_get h none = ok Ptr.null
kvs_hash_get h (some k) = do
  (i, c) ← locate h k
  elim (find_node k c) [ none ↦ ok Ptr.null | some node ↦ ok node.value ]

-- `node->value = p` for the first node with the key
unfoldable pub assign : Str → Ptr → List Node → List Node
assign key p [] = []
assign key p (node ∷ rest) =
    if str_eq node.key key then record node { value = p } ∷ rest else node ∷ assign key p rest

-- A NULL value is not tested for: `strlen (value)` is undefined.
unfoldable pub replace_value : Bool → KvsHash → ℕ → List Node → Str → Option Str → Run (KvsHash × ℤ)
unfolding assign
replace_value kvalue h i c k none = fault
replace_value true h i c k (some v) =
    ok (record h { nodes = set h.nodes i (chain (assign k (Ptr.text v) c)) }, pos 0)
replace_value false h i c k (some v) =
    ok (record h { nodes = set h.nodes i (chain (assign k Ptr.wild c)) }, negsuc 1)

-- `kvs_free (node->value)`: a value that was freed before is freed a second time.
unfoldable pub free_value : Ptr → Run (Unit {0})
free_value Ptr.null = ok tt
free_value (Ptr.text s) = ok tt
free_value Ptr.wild = fault

unfoldable pub kvs_hash_mod : Bool → KvsHash → Option Str → Option Str → Run (KvsHash × ℤ)
unfolding locate find_node free_value replace_value
kvs_hash_mod kvalue h none v = ok (h, negsuc 0)
kvs_hash_mod kvalue h (some k) v = do
  (i, c) ← locate h k
  elim (find_node k c) [
    | none ↦ ok (h, pos 1)
    | some node ↦ (free_value node.value >>= λ _. replace_value kvalue h i c k v)
  ]

-- `while (cur->next != NULL) { if (strcmp (cur->next->key, key) == 0) break; cur = cur->next; }`
-- and the unlinking of `cur->next`: the nodes behind `cur`, `none` where the loop ends without one.
unfoldable pub unlink_after : Str → List Node → Option (List Node)
unlink_after key [] = none
unlink_after key (node ∷ rest) =
    if str_eq node.key key then some rest else Option.map (λ l. node ∷ l) (unlink_after key rest)

-- The empty chain, the head node, and the nodes behind it.
unfoldable pub unlink : Str → List Node → Option (List Node)
unfolding unlink_after
unlink key [] = none
unlink key (head ∷ rest) =
    if str_eq head.key key then some rest else Option.map (λ l. head ∷ l) (unlink_after key rest)

-- `kvs_free (tmp->value)` for the unlinked node behind the head; the value of the head is kept.
unfoldable pub freed_value : Str → List Node → Ptr
unfolding find_node
freed_value key [] = Ptr.null
freed_value key (head ∷ rest) =
    if str_eq head.key key
    then Ptr.null
    else elim (find_node key rest) [ none ↦ Ptr.null | some node ↦ node.value ]

unfoldable pub kvs_hash_del : KvsHash → Option Str → Run (KvsHash × ℤ)
unfolding locate unlink free_value freed_value
kvs_hash_del h none = ok (h, negsuc 1)
kvs_hash_del h (some k) = do
  (i, c) ← locate h k
  elim (unlink k c) [
    | none ↦ ok (h, negsuc 0)
    | some rest ↦ do
      _ ← free_value (freed_value k c)
      ok (record h { nodes = set h.nodes i (chain rest); count = h.count - 1 }, pos 0)
  ]

-- 0: present, 1: absent
unfoldable pub kvs_hash_exist : KvsHash → Option Str → Run ℤ
unfolding kvs_hash_get
kvs_hash_exist h key = do
  value ← kvs_hash_get h key
  elim value [ Ptr.null ↦ ok (pos 1) | _ ↦ ok (pos 0) ]

unfoldable pub kvs_hash_count : KvsHash → ℕ
kvs_hash_count h = h.count
