-- ===== src/Slab/Laws.antt =====
-- Allocation and release in kv_mempool_slab.c.
use kv_study.Prelude.{
  ℕ, zero, suc, ◌+◌, ◌-◌, ◌*◌, ◌/◌, ◌%◌, ◌^◌, ◌≤◌, ◌<◌, ◌≡◌, refl, sym, ap, ◌⊎◌, inl, inr, Bool,
  true, false, Option-cases, none, some, List, [], ◌∷◌, ◌==◌, leb, get_or, set, length, arith,
}
use native.Mathlib.Nat.{mul-div_cancel, le-div_iff_mul-le}
use kv_study.Slab.{BitmapPool, first_zero, bitmap_pool_alloc, bitmap_pool_free}

-- The number of taken chunks among the first `n`.
pub taken : List Bool → ℕ → ℕ
taken bits zero = 0
taken [] (suc n) = 0
taken (true ∷ bits) (suc n) = suc (taken bits n)
taken (false ∷ bits) (suc n) = taken bits n

first_zero-some :
    (bits : List Bool) (n i m : ℕ)
    → n ≤ length bits
    → first_zero bits n i ≡ some m
    → (j : ℕ) × (m ≡ i + j)
      × (j < n)
      × (get_or bits j true ≡ false)
      × (taken (set bits j true) n ≡ taken bits n + 1)
unfolding first_zero taken
first_zero-some bits zero i m le h = cc
first_zero-some [] (suc n) i m le h = cc
first_zero-some (true ∷ bits) (suc n) i m le h =
    let (j, e, lt, free, more) = first_zero-some bits n (i + 1) m (omega arith) h in
    (suc j, omega arith, omega arith, free, omega arith)
first_zero-some (false ∷ bits) (suc n) i m le h = (0, ground arith, omega arith, refl, ground arith)

first_zero-none :
    (bits : List Bool) (n i : ℕ) → n ≤ length bits → first_zero bits n i ≡ none → taken bits n ≡ n
unfolding first_zero taken
first_zero-none bits zero i le h = refl
first_zero-none [] (suc n) i le h = absurd (omega arith)
first_zero-none (true ∷ bits) (suc n) i le h =
    ap suc (first_zero-none bits n (i + 1) (omega arith) h)
first_zero-none (false ∷ bits) (suc n) i le h = cc

-- The bitmap has a bit for every chunk, and the chunks lie within the address space.
pub record IsValid (p : BitmapPool) : Type 0 where
  pub bits : p.chunk_count ≤ length p.bitmap
  pub placed : 0 < p.data_area
  pub step : 0 < p.chunk_size
  pub fits : p.data_area + p.chunk_count * p.chunk_size < 2 ^ 64

-- An allocation that found a chunk: it was free, it is taken now, and the others are as they were.
pub record Allocated (p : BitmapPool) (r : BitmapPool × ℕ) : Type 0 where
  pub j : ℕ
  pub inside : j < p.chunk_count
  pub was_free : get_or p.bitmap j true ≡ false
  pub result : r ≡ (record p { bitmap = set p.bitmap j true }, p.data_area + j * p.chunk_size)
  pub one_more : taken r.0.bitmap p.chunk_count ≡ taken p.bitmap p.chunk_count + 1

-- An allocation fails exactly where every chunk is taken, and changes nothing then.
pub bitmap_pool_alloc_lem :
    (p : BitmapPool)
    → IsValid p
    → ((taken p.bitmap p.chunk_count ≡ p.chunk_count) × (bitmap_pool_alloc p ≡ (p, 0)))
      ⊎ Allocated p (bitmap_pool_alloc p)
unfolding bitmap_pool_alloc
bitmap_pool_alloc_lem p valid = elim (Option-cases (first_zero p.bitmap p.chunk_count 0)) [
  | inl e ↦ inl (first_zero-none p.bitmap p.chunk_count 0 valid.bits e, ground (arith, e))
  | inr (i, e) ↦
      let (j, same, lt, free, more) = first_zero-some p.bitmap p.chunk_count 0 i valid.bits e in
      let is_j : i ≡ j = omega arith in
      inr (
        rw (e, bitmap_pool_alloc, is_j)
          (record { j = j; inside = lt; was_free = free; result = refl; one_more = more }))
]

set-set_back :
    (bits : List Bool) (j : ℕ) → get_or bits j true ≡ false → set (set bits j true) j false ≡ bits
set-set_back [] j h = refl
set-set_back (b ∷ bits) zero h = ap (λ c. c ∷ bits) (sym h)
set-set_back (b ∷ bits) (suc j) h = ap (λ l. b ∷ l) (set-set_back bits j h)

index_back : (j size : ℕ) → 0 < size → j * size / size ≡ j
index_back j size pos = mul-div_cancel j pos

release_lem :
    (p : BitmapPool) (j : ℕ)
    → IsValid p
    → j < p.chunk_count
    → get_or p.bitmap j true ≡ false
    → bitmap_pool_free (record p { bitmap = set p.bitmap j true }) (p.data_area + j * p.chunk_size)
      ≡ p
unfolding bitmap_pool_free
release_lem p j valid lt free =
    let below : j * p.chunk_size < p.chunk_count * p.chunk_size = grind (arith, valid.step) in
    let offset : (p.data_area + j * p.chunk_size + 2 ^ 64 - p.data_area) % 2 ^ 64
        ≡ j * p.chunk_size =
      omega (arith, below, valid.fits) in
    let nonzero : p.data_area + j * p.chunk_size == 0 ≡ false = ground (arith, valid.placed) in
    let inside : leb p.chunk_count j ≡ false = ground (arith, lt) in
    rw (nonzero, offset, index_back j p.chunk_size valid.step, inside, set-set_back p.bitmap j free)

-- Releasing the chunk that an allocation gave restores the pool.
pub bitmap_pool_free-alloc :
    (p : BitmapPool)
    → IsValid p
    → Allocated p (bitmap_pool_alloc p)
    → bitmap_pool_free (bitmap_pool_alloc p).0 (bitmap_pool_alloc p).1 ≡ p
bitmap_pool_free-alloc p valid a = rw a.result (release_lem p a.j valid a.inside a.was_free)

-- A pointer outside the chunks changes nothing.
pub bitmap_pool_free-outside :
    (p : BitmapPool) (ptr : ℕ)
    → IsValid p
    → ptr < 2 ^ 64
    → (ptr < p.data_area) ⊎ (p.data_area + p.chunk_count * p.chunk_size ≤ ptr)
    → bitmap_pool_free p ptr ≡ p
unfolding bitmap_pool_free
bitmap_pool_free-outside p ptr valid lt out =
    let offset = (ptr + 2 ^ 64 - p.data_area) % 2 ^ 64 in
    let past : p.chunk_count * p.chunk_size ≤ offset = omega (arith, valid.fits) in
    let outside : p.chunk_count ≤ offset / p.chunk_size =
      (le-div_iff_mul-le {k = p.chunk_size} {x = p.chunk_count} {y = offset} valid.step).1 past in
    ground (arith, outside)
