-- ===== src/Tests/Memory.antt =====
-- Runs of the two pools on small memories.
use kv_study.Prelude.{
  ok, ℕ, ◌≤◌, ◌≡◌, ◌⊎◌, inr, refl, true, false, some, [], ◌∷◌, if◌then◌else◌, ◌==◌, arith,
}
use kv_study.Pool.{Memory, Pool, align_up, kvs_mempool_create, kvs_malloc, kvs_free}
use kv_study.Pool.FreeList.{HasFree}
use kv_study.Pool.Create.{chunks, create-HasFree}
use kv_study.Pool.Malloc.{IsRoomy, Granted, malloc-Granted, free-IsRoomy, malloc-free-malloc}
use kv_study.Slab.{BitmapPool, bitmap_pool_alloc, bitmap_pool_free}
use kv_study.Slab.Laws.{IsValid, Allocated, taken, bitmap_pool_alloc_lem, bitmap_pool_free-outside}

abbrev blank : Memory
blank a = 0

-- The chunks at 64 and 128 are free.
abbrev two_free : Memory
two_free a = if a == 64 then 128 else 0

abbrev pool : ℕ → Pool
pool first = record {
  free_list = first;
  data_area = 64;
  chunk_size = 64;
  chunk_count = 2;
  initialized = true;
}

pool-HasFree : HasFree (pool 64) two_free (64 ∷ 128 ∷ [])
pool-HasFree = record { ready = refl; links = (refl, omega arith, (refl, omega arith, refl)) }

empty-HasFree : HasFree (pool 0) blank []
empty-HasFree = record { ready = refl; links = refl }

create-HasFree_example :
    (p : Pool) × (w' : Memory) × (kvs_mempool_create 16 64 blank 60 2 ≡ ok (some p, w'))
    × (60 ≤ p.chunk_size)
    × HasFree p w' (chunks 2 0 64 p.chunk_size)
unfolding align_up
create-HasFree_example =
    create-HasFree 16 64 blank 60 1 (omega arith) (omega arith) (omega arith) (omega arith)
      (omega arith)

abbrev all_large : ℕ → ℕ
all_large a = 100

pool-IsRoomy : IsRoomy all_large (pool 64) two_free (64 ∷ 128 ∷ [])
pool-IsRoomy = record { free = pool-HasFree; roomy = (omega arith, (omega arith, tt)) }

malloc-Granted_example :
    Granted all_large two_free 32 (kvs_malloc (some (pool 64)) two_free 1000 32)
malloc-Granted_example =
    malloc-Granted all_large (pool 64) two_free (64 ∷ 128 ∷ []) 1000 32 pool-IsRoomy
      λ some_block. omega arith

free-IsRoomy_example :
    (q : Pool) × (w' : Memory) × (kvs_free (some (pool 64)) two_free 192 ≡ (some q, w'))
    × IsRoomy all_large q w' (192 ∷ 64 ∷ 128 ∷ [])
free-IsRoomy_example =
    free-IsRoomy all_large (pool 64) two_free (64 ∷ 128 ∷ []) 192 pool-IsRoomy (omega arith)
      (omega arith, (omega arith, tt)) (omega arith)

-- A block of 8 bytes is handed out for 64.
malloc-free-malloc_example :
    let (pool₁, block) = kvs_malloc (some (pool 0)) blank 5000 8 in
    let (pool₂, w₂) = kvs_free pool₁ blank block in
    let (pool₃, again) = kvs_malloc pool₂ w₂ 0 64 in (block ≡ 5000) × (again ≡ 5000)
malloc-free-malloc_example =
    malloc-free-malloc (pool 0) blank [] 5000 8 0 64 empty-HasFree (inr refl) (omega arith)
      (omega arith)

abbrev slab : BitmapPool
slab = record {
  bitmap = true ∷ false ∷ false ∷ false ∷ false ∷ false ∷ false ∷ false ∷ [];
  data_area = 4096;
  chunk_size = 16;
  chunk_count = 3;
}

slab-IsValid : IsValid slab
slab-IsValid = record {
  bits = omega arith;
  placed = omega arith;
  step = omega arith;
  fits = omega arith;
}

bitmap_pool_alloc_lem_example :
    ((taken slab.bitmap slab.chunk_count ≡ slab.chunk_count) × (bitmap_pool_alloc slab ≡ (slab, 0)))
    ⊎ Allocated slab (bitmap_pool_alloc slab)
bitmap_pool_alloc_lem_example = bitmap_pool_alloc_lem slab slab-IsValid

bitmap_pool_free-outside_example : bitmap_pool_free slab 8000 ≡ slab
bitmap_pool_free-outside_example =
    bitmap_pool_free-outside slab 8000 slab-IsValid (omega arith) (inr (omega arith))
