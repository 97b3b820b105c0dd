-- ===== src/Pool/Create.antt =====
-- `kvs_mempool_create` of kv_mempool.c links every chunk of the block.
use kv_study.Prelude.{
  ℕ, zero, suc, ◌+◌, ◌-◌, ◌*◌, ◌%◌, ◌≤◌, ◌<◌, ◌≡◌, ◌≢◌, ◌⊎◌, refl, ◌∙◌, ap, none, some, List, [],
  ◌∷◌, arith, true, false, leb, ◌^◌, ok,
}
use native.Mathlib.Nat.{add-zero}
use kv_study.Pool.{Memory, write, Pool, align_up, link_chunks, kvs_mempool_create}
use kv_study.Pool.FreeList.{Links, HasFree}

-- The addresses of `n` chunks, from the `i`-th on.
pub chunks : ℕ → ℕ → ℕ → ℕ → List ℕ
chunks zero i block size = []
chunks (suc n) i block size = (block + i * size) ∷ chunks n (i + 1) block size

link_chunks-below :
    (rounds i block size : ℕ) (w : Memory) (a : ℕ)
    → a < block + i * size
    → link_chunks rounds i block size w a ≡ w a
unfolding link_chunks
link_chunks-below zero i block size w a lt = refl
link_chunks-below (suc rounds) i block size w a lt =
    let w' = write w (block + i * size) (block + (i + 1) * size) in
    link_chunks-below rounds (i + 1) block size w' a (omega arith) ∙ ground arith

linked-Links :
    (rounds i block size last : ℕ) (w : Memory)
    → 0 < block
    → 0 < size
    → last ≡ block + (i + rounds) * size
    → Links
        (write (link_chunks rounds i block size w) last 0)
        (block + i * size)
        (chunks (suc rounds) i block size)
unfolding link_chunks chunks
linked-Links zero i block size last w pos step e =
    (refl, omega arith, ground (arith, ap (λ (n : ℕ). n * size) (add-zero i)))
linked-Links (suc rounds) i block size last w pos step e =
    let w' = write w (block + i * size) (block + (i + 1) * size) in
    let below = link_chunks-below rounds (i + 1) block size w' (block + i * size) (omega arith) in
    let far : block + i * size < last = grind arith in
    let next : write (link_chunks (suc rounds) i block size w) last 0 (block + i * size)
        ≡ block + (i + 1) * size =
      ground (arith, below) in
    (
      refl,
      omega arith,
      rw next (linked-Links rounds (i + 1) block size last w' pos step (grind arith)),
    )

-- Rounding up to words of eight bytes reaches the least multiple of eight that is no smaller, for a
-- size that does not wrap.
pub align_up_eight :
    (size : ℕ)
    → size + 7 < 2 ^ 64
    → (align_up size 8 % 8 ≡ 0) × (size ≤ align_up size 8) × (align_up size 8 < size + 8)
unfolding align_up
align_up_eight size room = omega arith

-- For a size other than 0 that does not wrap when it is rounded up to words, and at least one chunk,
-- where the chunks of the rounded size are below 2 ^ 64 bytes together, and with both allocations
-- granted, the new pool has all its chunks free, in the order of their addresses, each at least as
-- large as asked for.
pub create-HasFree :
    (header block : ℕ) (w : Memory) (size count : ℕ)
    → header ≢ 0
    → block ≢ 0
    → size ≢ 0
    → size + 7 < 2 ^ 64
    → align_up size 8 * suc count < 2 ^ 64
    → (p : Pool) × (w' : Memory) × (kvs_mempool_create header block w size (suc count)
        ≡ ok (some p, w'))
      × (size ≤ p.chunk_size)
      × HasFree p w' (chunks (suc count) 0 block p.chunk_size)
unfolding kvs_mempool_create
create-HasFree header block w size count h b s room fits =
    let step = align_up size 8 in
    let (whole, large, small) = align_up_eight size room in
    let in_range : leb (2 ^ 64) (align_up size 8 * suc count) ≡ false = ground (arith, fits) in
    let last = block + (suc count - 1) * step in
    let start : block + 0 * step ≡ block = omega arith in
    let rounds : suc count - 1 ≡ count = omega arith in
    (
      record {
        free_list = block;
        data_area = block;
        chunk_size = step;
        chunk_count = suc count;
        initialized = true;
      },
      write (link_chunks count 0 block step w) last 0,
      rw rounds (ground (arith, h, b, s, in_range)),
      large,
      record {
        ready = refl;
        links = rw start at (
            linked-Links count 0 block step last w (omega arith) (omega arith)
              (ap (λ (n : ℕ). block + n * step) (omega arith)));
      },
    )

-- Without memory, or for chunks of no bytes or no chunks, there is no pool.
pub create-none :
    (header block : ℕ) (w : Memory) (size count : ℕ)
    → (header ≡ 0) ⊎ ((block ≡ 0) ⊎ ((size ≡ 0) ⊎ (count ≡ 0)))
    → kvs_mempool_create header block w size count ≡ ok (none, w)
unfolding kvs_mempool_create
create-none header block w size count h = ground arith
