-- ===== src/Slab.antt =====
-- kv_mempool_slab.c: a pool whose free chunks are the zero bits of a bitmap. A byte of the bitmap
-- is the list of its eight bits from the lowest, so `1 << bit` selects an element; the bytes behind
-- each other are one list of bits. A pointer is an address, 0 is NULL.
pub mod Laws
use kv_study.Prelude.{
  ℕ, zero, suc, ◌+◌, ◌-◌, ◌*◌, ◌/◌, ◌%◌, ◌^◌, Bool, true, false, Option, none, some, List, [], ◌∷◌,
  ◌==◌, leb, ltb, if◌then◌else◌, ◌||◌, get_or, set, replicate, Run, ok, fault,
}
use kv_study.Pool.{align_up}

pub record BitmapPool : Type 0 where
  pub bitmap : List Bool
  pub data_area : ℕ
  pub chunk_size : ℕ
  pub chunk_count : ℕ

-- The arguments say whether `malloc` and `calloc` succeed, and where the data lies. The bitmap has
-- `(chunk_count + 7) / 8` bytes in `size_t`, all zero.
unfoldable pub bitmap_pool_create : Bool → Bool → ℕ → ℕ → ℕ → Option BitmapPool
unfolding align_up
bitmap_pool_create false bits data_area chunk_size chunk_count = none
bitmap_pool_create true false data_area chunk_size chunk_count = none
bitmap_pool_create true true data_area chunk_size chunk_count =
    if data_area == 0
    then none
    else some (record {
      bitmap = replicate ((chunk_count + 7) % 2 ^ 64 / 8 * 8) false;
      data_area = data_area;
      chunk_size = align_up chunk_size 8;
      chunk_count = chunk_count;
    })

-- `for (i = 0; i < n; i++)`: the first zero bit among the `n` bits from `i` on.
unfoldable pub first_zero : List Bool → ℕ → ℕ → Option ℕ
first_zero bits zero i = none
first_zero [] (suc n) i = none
first_zero (true ∷ bits) (suc n) i = first_zero bits n (i + 1)
first_zero (false ∷ bits) (suc n) i = some i

-- The chunk's address, 0 where all are taken.
unfoldable pub bitmap_pool_alloc : BitmapPool → BitmapPool × ℕ
unfolding first_zero
bitmap_pool_alloc p = elim (first_zero p.bitmap p.chunk_count 0) [
  | none ↦ (p, 0)
  | some i ↦ (record p { bitmap = set p.bitmap i true }, p.data_area + i * p.chunk_size)
]

-- `ptr - pool->data` is a signed difference converted to `size_t`: below the data area it wraps to
-- a number past every index that the chunks can have.
unfoldable pub bitmap_pool_free : BitmapPool → ℕ → BitmapPool
bitmap_pool_free p ptr =
    let offset = (ptr + 2 ^ 64 - p.data_area) % 2 ^ 64 in
    let idx = offset / p.chunk_size in
    if ptr == 0
    then p
    else if leb p.chunk_count idx
    then p
    else record p { bitmap = set p.bitmap idx false }
