-- ===== src/Pool.antt =====
-- kv_mempool.c: a pool of equal chunks whose free ones are linked through their first word, and
-- `kvs_malloc` and `kvs_free` of kvstore.c on top of it. Addresses are numbers, 0 is NULL; the
-- memory is the word that stands at each address. A `Pool` that may be NULL is an `Option`. What
-- libc's `malloc` returns is an argument; `free` leaves the memory alone. `size_t` has 64 bits.
pub mod FreeList
pub mod Create
pub mod Malloc
use kv_study.Prelude.{
  ℕ, zero, suc, ◌+◌, ◌-◌, ◌*◌, ◌%◌, ◌<◌, Bool, true, false, Option, none, some, List, [], ◌∷◌, ◌==◌,
  leb, if◌then◌else◌, ◌||◌, ◌&&◌, not, ◌^◌, Run, ok, fault,
}

abbrev pub Memory : Type 0
Memory = ℕ → ℕ

-- `*(void **)p = v`
abbrev pub write : Memory → ℕ → ℕ → Memory
write w p v q = if p == q then v else w q

pub record Pool : Type 0 where
  pub free_list : ℕ
  pub data_area : ℕ
  pub chunk_size : ℕ
  pub chunk_count : ℕ
  pub initialized : Bool

-- `(size + align - 1) & ~(align - 1)` for an `align` that is a power of two
unfoldable pub align_up : ℕ → ℕ → ℕ
align_up size align = let top = (size + align - 1) % 2 ^ 64 in top - top % align

-- `for (i = 0; i < chunk_count - 1; i++)`: each chunk points to the next one.
unfoldable pub link_chunks : ℕ → ℕ → ℕ → ℕ → Memory → Memory
link_chunks zero i data_area size w = w
link_chunks (suc rounds) i data_area size w =
    link_chunks rounds (i + 1) data_area size
      (write w (data_area + i * size) (data_area + (i + 1) * size))

-- `header` and `block` are what the two calls of `malloc` return. Where the rounded size or the
-- product wraps to a smaller number, the block is too small for the last link.
unfoldable pub kvs_mempool_create : ℕ → ℕ → Memory → ℕ → ℕ → Run (Option Pool × Memory)
unfolding align_up link_chunks
kvs_mempool_create header block w chunk_size chunk_count =
    let size = align_up chunk_size 8 in
    let linked = link_chunks (chunk_count - 1) 0 block size w in
    if chunk_size == 0 || chunk_count == 0
    then ok (none, w)
    else if header == 0 || block == 0
    then ok (none, w)
    else if size == 0 || leb (2 ^ 64) (size * chunk_count)
    then fault
    else ok (
      some (record {
        free_list = block;
        data_area = block;
        chunk_size = size;
        chunk_count = chunk_count;
        initialized = true;
      }),
      write linked (block + (chunk_count - 1) * size) 0,
    )

-- The chunk, 0 where there is none, and the pool with the rest of the list.
unfoldable pub kvs_mempool_alloc : Option Pool → Memory → Option Pool × ℕ
kvs_mempool_alloc none w = (none, 0)
kvs_mempool_alloc (some p) w =
    if not p.initialized || p.free_list == 0
    then (some p, 0)
    else (some (record p { free_list = w p.free_list }), p.free_list)

unfoldable pub kvs_mempool_free : Option Pool → Memory → ℕ → Option Pool × Memory
kvs_mempool_free none w ptr = (none, w)
kvs_mempool_free (some p) w ptr =
    if ptr == 0 then (some p, w) else (some (record p { free_list = ptr }), write w ptr p.free_list)

abbrev pub pool_chunk_size : ℕ
pool_chunk_size = 64

-- `fallback` is what `malloc (size)` would return.
unfoldable pub kvs_malloc : Option Pool → Memory → ℕ → ℕ → Option Pool × ℕ
kvs_malloc pool w fallback size =
    let (pool', p) = kvs_mempool_alloc pool w in
    if leb size pool_chunk_size
    then if p == 0 then (pool', fallback) else (pool', p)
    else (pool, fallback)

-- Whatever its origin, the block goes to the pool where there is one.
unfoldable pub kvs_free : Option Pool → Memory → ℕ → Option Pool × Memory
kvs_free none w ptr = (none, w)
kvs_free (some p) w ptr = if ptr == 0 then (some p, w) else kvs_mempool_free (some p) w ptr
