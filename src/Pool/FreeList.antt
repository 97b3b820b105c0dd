-- ===== src/Pool/FreeList.antt =====
-- The free list of kv_mempool.c, as the list of the addresses on it.
use kv_study.Prelude.{ℕ, ◌≡◌, ◌≢◌, refl, true, some, List, [], ◌∷◌, arith}
use kv_study.Pool.{Memory, write, Pool, kvs_mempool_alloc, kvs_mempool_free}

-- From the word `p` the links lead through the addresses of the list, and end in NULL.
abbrev pub Links : Memory → ℕ → List ℕ → Type 0
Links w p [] = p ≡ 0
Links w p (a ∷ l) = (p ≡ a) × (a ≢ 0) × Links w (w a) l

abbrev pub NotIn : ℕ → List ℕ → Type 0
NotIn a [] = Unit
NotIn a (b ∷ l) = (a ≢ b) × NotIn a l

-- A pool that was set up, and its free list.
pub record HasFree (p : Pool) (w : Memory) (l : List ℕ) : Type 0 where
  pub ready : p.initialized ≡ true
  pub links : Links w p.free_list l

pub Links-write :
    (w : Memory) (p a v : ℕ) (l : List ℕ) → NotIn a l → Links w p l → Links (write w a v) p l
Links-write w p a v [] out links = links
Links-write w p a v (b ∷ l) out links =
    let same : write w a v b ≡ w b = ground (arith, out.0) in
    (links.0, links.1, rw same (Links-write w (w b) a v l out.1 links.2))

-- What an allocation comes to: NULL and the pool as it is where nothing is free, and the first chunk
-- and a pool with the others elsewhere.
abbrev pub TakesFirst : Pool → Memory → List ℕ → Type 0
TakesFirst p w [] = kvs_mempool_alloc (some p) w ≡ (some p, 0)
TakesFirst p w (a ∷ rest) =
    (q : Pool) × (kvs_mempool_alloc (some p) w ≡ (some q, a)) × (a ≢ 0) × HasFree q w rest

-- With nothing free the pool gives NULL and stays as it is; otherwise it gives the first chunk, which
-- is not NULL, and keeps the others.
pub alloc-HasFree : (p : Pool) (w : Memory) (l : List ℕ) → HasFree p w l → TakesFirst p w l
unfolding kvs_mempool_alloc
alloc-HasFree p w [] free = ground (arith, free.ready, free.links)
alloc-HasFree p w (a ∷ rest) free = (
  record p { free_list = w p.free_list },
  ground (arith, free.ready, free.links.0, free.links.1),
  free.links.1,
  record { ready = free.ready; links = rw free.links.0 free.links.2 },
)

-- A chunk that is given back, and is not free already, becomes the first one.
pub free-HasFree :
    (p : Pool) (w : Memory) (l : List ℕ) (a : ℕ)
    → HasFree p w l
    → a ≢ 0
    → NotIn a l
    → (q : Pool) × (w' : Memory) × (kvs_mempool_free (some p) w a ≡ (some q, w'))
      × HasFree q w' (a ∷ l)
unfolding kvs_mempool_free
free-HasFree p w l a free ne out =
    let at : write w a p.free_list a ≡ p.free_list = ground arith in
    (
      record p { free_list = a },
      write w a p.free_list,
      ground (arith, ne),
      record {
        ready = free.ready;
        links = (refl, ne, rw at (Links-write w p.free_list a p.free_list l out free.links));
      },
    )

-- A chunk that is given back twice is handed out twice in a row.
pub double_free-alias :
    (p : Pool) (w : Memory) (a : ℕ)
    → p.initialized ≡ true
    → a ≢ 0
    → let (once, w₁) = kvs_mempool_free (some p) w a in
      let (twice, w₂) = kvs_mempool_free once w₁ a in
      let (q, first) = kvs_mempool_alloc twice w₂ in
      let (r, second) = kvs_mempool_alloc q w₂ in (first ≡ a) × (second ≡ a)
unfolding kvs_mempool_free kvs_mempool_alloc
double_free-alias p w a ready ne = ground (arith, ready, ne)
