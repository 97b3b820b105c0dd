-- ===== src/Engine.antt =====
-- The engine's globals, `global_array`, `global_hash`, `global_rbtree` and `global_skiptable`, as one
-- state, with the interfaces through which the other components use the red-black tree of
-- kvs_rbtree.c and the skip list of kvs_skiptable.c. A client takes these interfaces as parameters.
use kv_study.Prelude.{ℕ, Option, List, ℤ, Ptr, Str, Run}
use kv_study.Array.{KvsArray}
use kv_study.Hash.{KvsHash}

-- kvs_rbtree.c: `kvs_rbtree_set`, `kvs_rbtree_get`, and the node at `root` unless that is `nil`.
pub record TreeOps : Type 1 where
  pub Tree : Type 0
  pub kvs_rbtree_set : Tree → Option Str → Option Str → Run (Tree × ℤ)
  pub kvs_rbtree_get : Tree → Option Str → Run Ptr
  pub root : Tree → Option (Str × Ptr)

-- kvs_skiptable.c and the C library's `double`: `atof`, `sscanf (s, "%lf %lf", ...)` and the format
-- "%.2f".
pub record ZsetOps : Type 1 where
  pub Zset : Type 0
  pub Score : Type 0
  pub atof : Str → Score
  pub scan_two : Str → Option (Score × Score)
  pub print_score : Score → Str
  pub kvs_skiptable_zadd : Zset → Str → Str → Score → Run (Zset × ℤ)
  pub kvs_skiptable_zrem : Zset → Str → Run (Zset × ℤ)
  pub kvs_skiptable_zrange_entries : Zset → Score → Score → ℕ → Run (List (Str × Str × Score))

pub record Engine (Tree Zset : Type 0) : Type 0 where
  pub array : KvsArray
  pub hash : KvsHash
  pub tree : Tree
  pub zset : Zset
