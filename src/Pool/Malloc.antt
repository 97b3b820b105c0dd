-- ===== src/Pool/Malloc.antt =====
-- `kvs_malloc` and `kvs_free` of kvstore.c: which blocks are large enough. A block's capacity is
-- the number of bytes that were obtained for it from the pool or from libc.
use kv_study.Prelude.{
  ℕ, ◌<◌, ◌⊎◌, ◌≤◌, ◌≡◌, ◌≢◌, inl, inr, refl, false, Bool-cases, leb, Option, some, List, [], ◌∷◌,
  ◌==◌, if◌then◌else◌, arith,
}
use native.Mathlib.Nat.{le_trans}
use kv_study.Pool.{
  Memory, Pool, pool_chunk_size, kvs_malloc, kvs_free, kvs_mempool_alloc, kvs_mempool_free,
}
use kv_study.Pool.FreeList.{NotIn, HasFree, alloc-HasFree, free-HasFree}

-- Every free block holds a chunk.
abbrev pub AllRoomy : (ℕ → ℕ) → List ℕ → Type 0
AllRoomy capacity [] = Unit
AllRoomy capacity (a ∷ l) = (pool_chunk_size ≤ capacity a) × AllRoomy capacity l

-- The pool that an operation leaves: its free blocks are `l`, and they all hold a chunk.
pub record IsRoomy (capacity : ℕ → ℕ) (p : Pool) (w : Memory) (l : List ℕ) : Type 0 where
  pub free : HasFree p w l
  pub roomy : AllRoomy capacity l

-- What `kvs_malloc` comes back with.
pub record Granted (capacity : ℕ → ℕ) (w : Memory) (size : ℕ) (r : Option Pool × ℕ) : Type 0 where
  pub q : Pool
  pub rest : List ℕ
  pub pool : r.0 ≡ some q
  pub enough : r.1 ≢ 0 → size ≤ capacity r.1
  pub kept : IsRoomy capacity q w rest

-- `kvs_malloc` gives NULL or a block as large as asked for, and keeps the pool's blocks large.
pub malloc-Granted :
    (capacity : ℕ → ℕ) (p : Pool) (w : Memory) (l : List ℕ) (fallback size : ℕ)
    → IsRoomy capacity p w l
    → (fallback ≢ 0 → size ≤ capacity fallback)
    → Granted capacity w size (kvs_malloc (some p) w fallback size)
unfolding kvs_malloc
malloc-Granted capacity p w l fallback size h enough =
    elim (Bool-cases (leb size pool_chunk_size)) [
      | inr large ↦ rw large (record { q = p; rest = l; pool = refl; enough = enough; kept = h })
      | inl small ↦ rw small (from_pool (ground arith) l h)
    ]
  where
    from_pool :
        size ≤ pool_chunk_size
        → (l : List ℕ) → IsRoomy capacity p w l
        → Granted capacity w size (
            if (kvs_mempool_alloc (some p) w).1 == 0
            then ((kvs_mempool_alloc (some p) w).0, fallback)
            else ((kvs_mempool_alloc (some p) w).0, (kvs_mempool_alloc (some p) w).1))
    from_pool le [] h =
        rw (alloc-HasFree p w [] h.free)
          (record { q = p; rest = []; pool = refl; enough = enough; kept = h })
    from_pool le (a ∷ rest) h =
        let (q, run, ne, free) = alloc-HasFree p w (a ∷ rest) h.free in
        let nonzero : a == 0 ≡ false = ground arith in
        rw (run, nonzero)
          (record {
            q = q;
            rest = rest;
            pool = refl;
            enough = λ _. le_trans le h.roomy.0;
            kept = record { free = free; roomy = h.roomy.1 };
          })

-- A block that holds a chunk, once freed, is the first of the free list, which stays fit for use.
pub free-IsRoomy :
    (capacity : ℕ → ℕ) (p : Pool) (w : Memory) (l : List ℕ) (a : ℕ)
    → IsRoomy capacity p w l
    → a ≢ 0
    → NotIn a l
    → pool_chunk_size ≤ capacity a
    → (q : Pool) × (w' : Memory) × (kvs_free (some p) w a ≡ (some q, w'))
      × IsRoomy capacity q w' (a ∷ l)
unfolding kvs_free
free-IsRoomy capacity p w l a h ne out fits =
    let (q, w', run, free) = free-HasFree p w l a h.free ne out in
    let nonzero : a == 0 ≡ false = ground arith in
    (q, w', rw nonzero run, record { free = free; roomy = (fits, h.roomy) })

-- A block that libc gave, either for a request of more than 64 bytes or for any request while the
-- pool had nothing free, is, once freed, what the next request of at most 64 bytes gets, whatever
-- libc would give for that one. So a block obtained for fewer than 64 bytes is handed out for 64.
pub malloc-free-malloc :
    (p : Pool) (w : Memory) (l : List ℕ) (fallback size other size' : ℕ)
    → HasFree p w l
    → (pool_chunk_size < size) ⊎ (l ≡ [])
    → fallback ≢ 0
    → size' ≤ pool_chunk_size
    → let (pool₁, block) = kvs_malloc (some p) w fallback size in
      let (pool₂, w₂) = kvs_free pool₁ w block in
      let (pool₃, again) = kvs_malloc pool₂ w₂ other size' in
      (block ≡ fallback) × (again ≡ fallback)
unfolding kvs_malloc kvs_free kvs_mempool_alloc kvs_mempool_free
malloc-free-malloc p w l fallback size other size' free (inl large) ne small' =
    ground (arith, free.ready)
malloc-free-malloc p w l fallback size other size' free (inr empty) ne small' =
    let links = rw empty at free.links in ground (arith, free.ready, links)
