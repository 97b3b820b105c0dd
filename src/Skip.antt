-- ===== src/Skip.antt =====
-- kvs_skiptable.c: the sorted set, a skip list of nodes with up to seven forward pointers. Addresses are
-- numbers and 0 is NULL; a node is read and written only while it is allocated, its array of forward
-- pointers only inside its bounds. Everything else is a fault, and so is running out of fuel.
pub mod Calls
pub mod Towers
pub mod Search
pub mod Splice
pub mod State
pub mod Lists
pub mod Add
pub mod Revalue
pub mod Order
pub mod Cut
pub mod Zadd
pub mod Unlink
pub mod Remove
pub mod Keys
pub mod Zrem
pub mod Missed
pub mod Zrange
pub mod Life
pub mod Sorted
use Prim.Native.Nat.{Ordering}
use kv_study.Prelude.{
  ℕ, zero, suc, ◌+◌, ◌-◌, ◌*◌, ◌%◌, ◌^◌, Bool, true, false, not, ◌&&◌, ◌||◌, ◌==◌, ltb, leb,
  if◌then◌else◌, Option, none, some, List, [], ◌∷◌, ℤ, pos, negsuc, minus, Ptr, Str, str_eq, str_lt,
  take, Run, ok, fault, deadlock, ◌>>=◌,
}

-- A `double`: the comparisons `<`, `==` and `<=`, and 0.0.
pub record Double (Score : Type 0) : Type 0 where
  pub zero_score : Score
  pub lt : Score → Score → Bool
  pub same : Score → Score → Bool
  pub le : Score → Score → Bool

abbrev pub skip_max_level : ℕ
skip_max_level = 6

abbrev pub max_key_len : ℕ
max_key_len = 128

abbrev pub max_value_len : ℕ
max_value_len = 128

-- `slots` is the number of forward pointers that the node has room for.
pub record SkipNode (Score : Type 0) : Type 0 where
  pub key : Ptr
  pub value : Ptr
  pub score : Score
  pub slots : ℕ
  pub forward : ℕ → ℕ

-- The nodes, and which addresses are allocated.
pub record SkipMemory (Score : Type 0) : Type 0 where
  pub nodes : ℕ → SkipNode Score
  pub live : ℕ → Bool

pub record SkipList (Score : Type 0) : Type 0 where
  pub memory : SkipMemory Score
  pub level : ℕ
  pub header : ℕ
  pub length : ℤ
  pub locked : Bool

-- What the C library's allocator answers to one `createSkipNode`: an address, 0 where it is NULL, and
-- whether the two copies and the array could be allocated.
pub record Allocation : Type 0 where
  pub address : ℕ
  pub key_copied : Bool
  pub value_copied : Bool
  pub forward_allocated : Bool

pub record ZrangeEntry (Score : Type 0) : Type 0 where
  pub key : Str
  pub value : Str
  pub score : Score

-- `while ((rand() & 0xFFFF) < 0.5 * 0xFFFF && level < skip_max_level) level++`, where `rand n` is the
-- n-th number drawn; `left` is skip_max_level less the level.
unfoldable pub climb_level : (left : ℕ) → (ℕ → ℕ) → ℕ → ℕ
climb_level zero rand level = level
climb_level (suc left) rand level =
    let rest = climb_level left rand (suc level) in
    if leb (rand level % 65536) 32767 then rest else level

unfoldable pub random_level : (ℕ → ℕ) → ℕ
random_level rand = climb_level skip_max_level rand 0

-- `strdup`
abbrev pub duplicate : Bool → Str → Ptr
duplicate true s = Ptr.text s
duplicate false s = Ptr.null

-- `free` of a string
unfoldable pub free_text : Ptr → Run (Unit {0})
free_text Ptr.null = ok tt
free_text (Ptr.text s) = ok tt
free_text Ptr.wild = fault

-- `str_lt` and `str_eq` on a key that is read through a pointer.
unfoldable pub key_below : Ptr → Str → Run Bool
key_below (Ptr.text k) key = ok (str_lt k key)
key_below _ key = fault

unfoldable pub key_same : Ptr → Str → Run Bool
key_same (Ptr.text k) key = ok (str_eq k key)
key_same _ key = fault

-- `length++` and `length--` of an `int`.
unfoldable pub increment : ℤ → Run ℤ
increment (pos n) = if n == 2147483647 then fault else ok (pos (suc n))
increment (negsuc zero) = ok (pos 0)
increment (negsuc (suc n)) = ok (negsuc n)

unfoldable pub decrement : ℤ → Run ℤ
decrement (pos zero) = ok (negsuc 0)
decrement (pos (suc n)) = ok (pos n)
decrement (negsuc n) = if n == 2147483647 then fault else ok (negsuc (suc n))

module _ {Score : Type 0} where
  -- `*a`
  unfoldable pub skip_node_at : SkipMemory Score → ℕ → Run (SkipNode Score)
  skip_node_at m a = if not (a == 0) && m.live a then ok (m.nodes a) else fault

  abbrev pub write_node : SkipMemory Score → ℕ → SkipNode Score → SkipMemory Score
  write_node m a n = record m { nodes = λ b. if b == a then n else m.nodes b }

  abbrev pub with_forward : SkipNode Score → ℕ → ℕ → SkipNode Score
  with_forward n i v = record n { forward = λ j. if j == i then v else n.forward j }

  -- `a->forward[i]`
  unfoldable pub forward_at : SkipMemory Score → ℕ → ℕ → Run ℕ
  forward_at m a i = skip_node_at m a >>= λ n. if ltb i n.slots then ok (n.forward i) else fault

  -- `a->forward[i] = v`
  unfoldable pub set_forward : SkipMemory Score → ℕ → ℕ → ℕ → Run (SkipMemory Score)
  set_forward m a i v = skip_node_at m a >>= λ n.
      if ltb i n.slots then ok (write_node m a (with_forward n i v)) else fault

  -- The new node, with every pointer NULL.
  abbrev pub with_node : SkipMemory Score → Allocation → ℕ → Str → Str → Score → SkipMemory Score
  with_node m alloc level key value score = record {
    nodes = λ b.
        if b == alloc.address
        then record {
          key = duplicate alloc.key_copied key;
          value = duplicate alloc.value_copied value;
          score = score;
          slots = suc level;
          forward = λ i. 0;
        }
        else m.nodes b;
    live = λ b. b == alloc.address || m.live b;
  }

  unfoldable pub create_skip_node :
      SkipMemory Score → Allocation → ℕ → Str → Str → Score → Run (SkipMemory Score)
  create_skip_node m alloc level key value score =
      if alloc.address == 0
      then fault
      else if alloc.forward_allocated
      then ok (with_node m alloc level key value score)
      else fault

  -- `free` of the key, of the value, of the forward pointers and of the node.
  unfoldable pub free_node : SkipMemory Score → ℕ → Run (SkipMemory Score)
  free_node m a = skip_node_at m a >>= λ n. free_text n.key >>= λ freed_key.
      free_text n.value >>= λ freed_value. ok (record m { live = λ b. not (b == a) && m.live b })

  -- `pthread_rwlock_wrlock` and `pthread_rwlock_rdlock` by the only thread.
  unfoldable pub lock_list : SkipList Score → Run (SkipList Score)
  lock_list list = if list.locked then deadlock else ok (record list { locked = true })

  abbrev pub unlock_list : SkipList Score → SkipList Score
  unlock_list list = record list { locked = false }

  -- `while (current->forward[i] && before (current->forward[i])) current = current->forward[i]`
  unfoldable pub walk : (fuel : ℕ) → SkipMemory Score → (SkipNode Score → Run Bool) → ℕ → ℕ → Run ℕ
  walk zero m before i current = fault
  walk (suc fuel) m before i current = forward_at m current i >>= λ next.
      if next == 0
      then ok current
      else skip_node_at m next >>= λ n. before n >>= λ earlier. elim earlier [
        | true ↦ walk fuel m before i next
        | false ↦ ok current
      ]

  -- The loop over the levels: `update[i]` for every `i` below `levels`, and above it what was there.
  unfoldable pub descend_levels :
      (fuel : ℕ)
      → SkipMemory Score
      → (SkipNode Score → Run Bool)
      → (levels : ℕ) → ℕ
      → (ℕ → ℕ)
      → Run (ℕ → ℕ)
  descend_levels fuel m before zero current update = ok update
  descend_levels fuel m before (suc i) current update = walk fuel m before i current >>= λ current'.
      descend_levels fuel m before i current' λ j. if j == i then current' else update j

  -- `update` has skip_max_level + 1 cells, not initialised.
  unfoldable pub search :
      (fuel : ℕ) → SkipList Score → (SkipNode Score → Run Bool) → (ℕ → ℕ) → Run (ℕ → ℕ)
  search fuel list before update =
      if ltb skip_max_level list.level
      then fault
      else descend_levels fuel list.memory before (suc list.level) list.header update
