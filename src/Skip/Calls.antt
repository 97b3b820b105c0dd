-- ===== src/Skip/Calls.antt =====
-- The functions of kvs_skiptable.c that other files call. The list is a global, so it is never NULL
-- but for `kvs_skiptable_create` and `kvs_skiptable_destory`, which test it.
use kv_study.Prelude.{
  ℕ, zero, suc, ◌+◌, ◌-◌, ◌*◌, ◌%◌, Bool, true, false, ◌&&◌, ◌==◌, ltb, leb, if◌then◌else◌, Option,
  none, some, List, [], ◌∷◌, ℤ, pos, minus, Ptr, Str, take, str_eq, Run, ok, fault, ◌>>=◌,
}
use kv_study.Skip.{
  Double, SkipNode, SkipMemory, SkipList, Allocation, ZrangeEntry, skip_max_level, max_key_len,
  max_value_len, random_level, duplicate, free_text, key_below, key_same, increment, decrement,
  skip_node_at, write_node, forward_at, set_forward, create_skip_node, free_node, lock_list,
  unlock_list, search,
}

-- `strncpy` of at most `limit - 1` bytes and the NUL after them.
unfoldable pub copy_text : ℕ → Ptr → Run Str
copy_text limit (Ptr.text s) = ok (take (limit - 1) s)
copy_text limit _ = fault

module _ {Score : Type 0} where
  -- `newNode->forward[i] = update[i]->forward[i]; update[i]->forward[i] = newNode` for `n` levels from `i`.
  unfoldable pub splice : SkipMemory Score → ℕ → (ℕ → ℕ) → (i n : ℕ) → Run (SkipMemory Score)
  splice m new update i zero = ok m
  splice m new update i (suc n) = forward_at m (update i) i >>= λ next.
      set_forward m new i next >>= λ m'.
      set_forward m' (update i) i new >>= λ m''. splice m'' new update (suc i) n

  -- `if (update[i]->forward[i] != current) break; update[i]->forward[i] = current->forward[i]`
  unfoldable pub unlink_node : SkipMemory Score → ℕ → (ℕ → ℕ) → (i n : ℕ) → Run (SkipMemory Score)
  unlink_node m current update i zero = ok m
  unlink_node m current update i (suc n) = forward_at m (update i) i >>= λ next.
      elim (next == current) [
        | true ↦ forward_at m current i >>= λ after.
            set_forward m (update i) i after >>= λ m'. unlink_node m' current update (suc i) n
        | false ↦ ok m
      ]

  -- `while (list->level > 0 && list->header->forward[list->level] == NULL) list->level--`
  unfoldable pub lower : SkipMemory Score → ℕ → ℕ → Run ℕ
  lower m header zero = ok 0
  lower m header (suc level) = forward_at m header (suc level) >>= λ next. elim (next == 0) [
    | true ↦ lower m header level
    | false ↦ ok (suc level)
  ]

  -- The cells of `update` between the old level and the new one are the header.
  abbrev pub raise : SkipList Score → ℕ → (ℕ → ℕ) → ℕ → ℕ
  raise list level update i = if ltb list.level i && leb i level then list.header else update i

  -- The node was not found: a new one of a random level.
  unfoldable pub add_node :
      (rand : ℕ → ℕ)
      → Allocation
      → SkipList Score
      → (ℕ → ℕ)
      → Str
      → Str
      → Score
      → Run (SkipList Score × ℤ)
  add_node rand alloc list update key value score =
      let level = random_level rand in
      create_skip_node list.memory alloc level key value score >>= λ m.
      splice m alloc.address (raise list level update) 0 (suc level) >>= λ m'.
      increment list.length >>= λ length. ok (
        unlock_list (record list {
          memory = m';
          level = if ltb list.level level then level else list.level;
          length = length;
        }),
        pos 0,
      )

  -- The node was found: `free(current->value); current->value = strdup(value)`.
  unfoldable pub update_value :
      (copied : Bool) → SkipList Score → ℕ → Str → Run (SkipList Score × ℤ)
  update_value copied list current value = skip_node_at list.memory current >>= λ n.
      free_text n.value >>= λ freed. ok (
        unlock_list (record list {
          memory = write_node list.memory current (record n { value = duplicate copied value });
        }),
        pos 1,
      )

  -- The node was found: out of the list, freed, and the level lowered.
  unfoldable pub remove_node : SkipList Score → (ℕ → ℕ) → ℕ → Run (SkipList Score × ℤ)
  remove_node list update current =
      unlink_node list.memory current update 0 (suc list.level) >>= λ m.
      free_node m current >>= λ m'. lower m' list.header list.level >>= λ level.
      decrement list.length >>= λ length.
      ok (unlock_list (record list { memory = m'; level = level; length = length }), pos 0)

  abbrev pub key_before : Str → SkipNode Score → Run Bool
  key_before key n = key_below n.key key

  unfoldable pub kvs_skiptable_zrem :
      (fuel : ℕ) → (update : ℕ → ℕ) → SkipList Score → Str → Run (SkipList Score × ℤ)
  kvs_skiptable_zrem fuel update list key = lock_list list >>= λ held.
      search fuel held (key_before key) update >>= λ update'.
      forward_at held.memory (update' 0) 0 >>= λ current.
      if current == 0
      then ok (unlock_list held, minus 1)
      else skip_node_at held.memory current >>= λ n. key_same n.key key >>= λ found.
          if found then remove_node held update' current else ok (unlock_list held, minus 1)

module _ {Score : Type 0} ⦃double : Double Score⦄ where
  -- `n->score < score || (n->score == score && strcmp(n->key, key) < 0)`
  unfoldable pub entry_before : Score → Str → SkipNode Score → Run Bool
  entry_before score key n =
      if double.lt n.score score
      then ok true
      else if double.same n.score score
      then key_below n.key key
      else ok false

  -- `n->score == score && strcmp(n->key, key) == 0`
  unfoldable pub entry_same : Score → Str → SkipNode Score → Run Bool
  entry_same score key n = if double.same n.score score then key_same n.key key else ok false

  unfoldable pub kvs_skiptable_zadd :
      (fuel : ℕ)
      → (update : ℕ → ℕ) → (rand : ℕ → ℕ) → Allocation
      → SkipList Score
      → Str
      → Str
      → Score
      → Run (SkipList Score × ℤ)
  kvs_skiptable_zadd fuel update rand alloc list key value score = lock_list list >>= λ held.
      search fuel held (entry_before score key) update >>= λ update'.
      forward_at held.memory (update' 0) 0 >>= λ current.
      if current == 0
      then add_node rand alloc held update' key value score
      else skip_node_at held.memory current >>= λ n. entry_same score key n >>= λ found.
          if found
          then update_value alloc.value_copied held current value
          else add_node rand alloc held update' key value score

  -- `while (current && current->score < min) current = current->forward[0]`
  unfoldable pub skip_below : (fuel : ℕ) → SkipMemory Score → Score → ℕ → Run ℕ
  skip_below zero m min current = fault
  skip_below (suc fuel) m min current =
      if current == 0
      then ok 0
      else skip_node_at m current >>= λ n. elim (double.lt n.score min) [
        | true ↦ forward_at m current 0 >>= λ next. skip_below fuel m min next
        | false ↦ ok current
      ]

  -- The second loop, with room for `room` more results.
  unfoldable pub collect :
      SkipMemory Score → Score → (room : ℕ) → ℕ → Run (List (ZrangeEntry Score))
  collect m max zero current = if current == 0 then ok [] else skip_node_at m current >>= λ n. ok []
  collect m max (suc room) current =
      if current == 0
      then ok []
      else skip_node_at m current >>= λ n. elim (double.le n.score max) [
        | true ↦ copy_text max_key_len n.key >>= λ key. copy_text max_value_len n.value >>= λ value.
            forward_at m current 0 >>= λ next. collect m max room next >>= λ rest.
            ok (record { key = key; value = value; score = n.score } ∷ rest)
        | false ↦ ok []
      ]

  -- The list, unlocked again, with the entries written; the code returns their number.
  unfoldable pub kvs_skiptable_zrange_entries :
      (fuel : ℕ)
      → SkipList Score
      → (min max : Score) → (max_results : ℕ) → Run (SkipList Score × List (ZrangeEntry Score))
  kvs_skiptable_zrange_entries fuel list min max max_results = lock_list list >>= λ held.
      forward_at held.memory held.header 0 >>= λ first.
      skip_below fuel held.memory min first >>= λ current.
      collect held.memory max max_results current >>= λ results. ok (unlock_list held, results)

  unfoldable pub kvs_skiptable_create :
      SkipMemory Score → Allocation → (inst : Bool) → Run (Option (SkipList Score) × ℤ)
  kvs_skiptable_create m alloc false = ok (none, minus 1)
  kvs_skiptable_create m alloc true =
      create_skip_node m alloc skip_max_level [] [] double.zero_score >>= λ m'. ok (
        some (record {
          memory = m';
          level = 0;
          header = alloc.address;
          length = pos 0;
          locked = false;
        }),
        pos 0,
      )

  -- `while (cur) { nxt = cur->forward[0]; ... free (cur); cur = nxt; }`
  unfoldable pub free_nodes : (fuel : ℕ) → SkipMemory Score → ℕ → Run (SkipMemory Score)
  free_nodes zero m cur = fault
  free_nodes (suc fuel) m cur =
      if cur == 0
      then ok m
      else forward_at m cur 0 >>= λ nxt. free_node m cur >>= λ m'. free_nodes fuel m' nxt

  unfoldable pub kvs_skiptable_destory :
      (fuel : ℕ) → Option (SkipList Score) → Run (Option (SkipList Score))
  kvs_skiptable_destory fuel none = ok none
  kvs_skiptable_destory fuel (some inst) = free_nodes fuel inst.memory inst.header >>= λ m.
      ok (some (record inst { memory = m; header = 0; level = 0; length = pos 0 }))

-- The table of named sets: chains of entries, each with the address of its list.
abbrev pub zset_table_size : ℕ
zset_table_size = 1024

pub record ZsetEntry : Type 0 where
  pub zset_name : Str
  pub zset : ℕ

-- `hash = ((hash << 5) + hash) + c` on 32 bits, where `c` is the byte as a signed `char`.
unfoldable pub zset_hash_from : ℕ → Str → ℕ
zset_hash_from hash [] = hash % zset_table_size
zset_hash_from hash (c ∷ str) =
    let signed = if ltb c 128 then c else c + 4294967040 in
    zset_hash_from (((hash * 32) % 4294967296 + hash + signed) % 4294967296) str

unfoldable pub zset_hash : Str → ℕ
zset_hash str = zset_hash_from 5381 str

-- `while (entry) { if (strcmp(entry->zset_name, zset_name) == 0) return entry->zset; ... }`
unfoldable pub find_entry : List ZsetEntry → Str → ℕ
find_entry [] zset_name = 0
find_entry (entry ∷ chain) zset_name =
    if str_eq entry.zset_name zset_name then entry.zset else find_entry chain zset_name

unfoldable pub find_zset : (ℕ → List ZsetEntry) → Str → ℕ
find_zset zset_table zset_name = find_entry (zset_table (zset_hash zset_name)) zset_name
