-- ===== src/Hash/Buckets.antt =====
-- Where the nodes of kvs_hash.c stand, and writes to one chain of the table.
use kv_study.Prelude.{
  ℕ, zero, suc, ◌+◌, ◌≤◌, ◌<◌, ◌≡◌, ◌≢◌, refl, ◌∙◌, inl, inr, ℤ-cases, false, Option, none, some,
  List, [], ◌∷◌, if◌then◌else◌, get_elem?, set, length, length-set, ℤ, pos, negsuc, Ptr, Str,
  str_eq, str_eq_iff, ok, arith, ◌==◌, ==_iff,
}
use kv_study.Hash.{Node, Bucket, chain, junk, KvsHash, locate}
use kv_study.Hash.Index.{hash_index, max_table_size}
use kv_study.Hash.Chain.{find, count}

abbrev pub nodes_of : Bucket → List Node
nodes_of (chain c) = c
nodes_of junk = []

-- The chain of the slot `i`, empty outside the table.
unfoldable pub chain_at : List Bucket → ℕ → List Node
chain_at [] i = []
chain_at (b ∷ bs) zero = nodes_of b
chain_at (b ∷ bs) (suc i) = chain_at bs i

unfoldable pub total_nodes : List Bucket → ℕ
total_nodes [] = 0
total_nodes (b ∷ bs) = length (nodes_of b) + total_nodes bs

abbrev pub AllChains : List Bucket → Type 0
AllChains [] = Unit
AllChains (chain c ∷ bs) = AllChains bs
AllChains (junk ∷ bs) = ⊥

pub get_elem?-chain_at :
    (bs : List Bucket) (i : ℕ)
    → AllChains bs
    → i < length bs
    → get_elem? bs i ≡ some (chain (chain_at bs i))
unfolding chain_at
get_elem?-chain_at [] i a lt = absurd (omega arith)
get_elem?-chain_at (chain c ∷ bs) zero a lt = refl
get_elem?-chain_at (junk ∷ bs) zero a lt = absurd a
get_elem?-chain_at (chain c ∷ bs) (suc i) a lt = get_elem?-chain_at bs i a (omega arith)
get_elem?-chain_at (junk ∷ bs) (suc i) a lt = absurd a

pub set-AllChains :
    (bs : List Bucket) (i : ℕ) (c : List Node) → AllChains bs → AllChains (set bs i (chain c))
set-AllChains [] i c a = tt
set-AllChains (chain d ∷ bs) zero c a = a
set-AllChains (chain d ∷ bs) (suc i) c a = set-AllChains bs i c a
set-AllChains (junk ∷ bs) zero c a = absurd a
set-AllChains (junk ∷ bs) (suc i) c a = absurd a

pub chain_at-set :
    (bs : List Bucket) (i j : ℕ) (c : List Node)
    → i < length bs
    → chain_at (set bs i (chain c)) j ≡ (if i == j then c else chain_at bs j)
unfolding chain_at
chain_at-set [] i j c lt = absurd (omega arith)
chain_at-set (b ∷ bs) zero zero c lt = refl
chain_at-set (b ∷ bs) zero (suc j) c lt = ground arith
chain_at-set (b ∷ bs) (suc i) zero c lt = ground arith
chain_at-set (b ∷ bs) (suc i) (suc j) c lt = ground (arith, chain_at-set bs i j c)

pub total_nodes-set :
    (bs : List Bucket) (i : ℕ) (c : List Node)
    → i < length bs
    → total_nodes (set bs i (chain c)) + length (chain_at bs i) ≡ total_nodes bs + length c
unfolding chain_at total_nodes
total_nodes-set [] i c lt = absurd (omega arith)
total_nodes-set (b ∷ bs) zero c lt = omega arith
total_nodes-set (b ∷ bs) (suc i) c lt = omega (arith, total_nodes-set bs i c)

-- A key occurs at most once, and only in the chain of its index.
abbrev pub IsPlaced : List Bucket → Type 0
IsPlaced bs =
    (q : Str) (i : ℕ)
    → (count q (chain_at bs i) ≤ 1) × (hash_index q ≢ pos i → count q (chain_at bs i) ≡ 0)

-- The table has its 1024 slots, each a chain; `count` is the number of nodes.
pub record IsValid (h : KvsHash) : Type 0 where
  pub width : length h.nodes ≡ max_table_size
  pub chains : AllChains h.nodes
  pub placed : IsPlaced h.nodes
  pub counted : total_nodes h.nodes ≡ h.count

-- The map that the table stands for: a key with a negative index has no place in it.
abbrev pub view_at : List Bucket → Str → ℤ → Option Ptr
view_at bs q (pos i) = find q (chain_at bs i)
view_at bs q (negsuc n) = none

abbrev pub view : KvsHash → Str → Option Ptr
view h q = view_at h.nodes q (hash_index q)

pub locate_lem :
    (h : KvsHash) (k : Str) (i : ℕ)
    → IsValid h
    → hash_index k ≡ pos i
    → i < max_table_size
    → locate h k ≡ ok (i, chain_at h.nodes i)
unfolding locate
locate_lem h k i valid e lt =
    ground (arith, e, get_elem?-chain_at h.nodes i valid.chains (omega (arith, valid.width)))

-- The chain of `k` is replaced by `c`, which differs at `k` alone.
module _ {h : KvsHash} (valid : IsValid h) (k : Str) (i : ℕ) (home : hash_index k ≡ pos i)
    (lt : i < max_table_size) (c : List Node) where
  pub set-view :
      (v : Option Ptr)
      → ((q : Str) → find q c ≡ (if str_eq k q then v else find q (chain_at h.nodes i)))
      → (n : ℕ) (q : Str)
      → view (record h { nodes = set h.nodes i (chain c); count = n }) q
        ≡ (if str_eq k q then v else view h q)
  set-view v reads n q = elim (ℤ-cases (hash_index q)) [
    | inl (j, e) ↦
        let at_j = chain_at-set h.nodes i j c (omega (arith, valid.width)) in
        rw (e, at_j) (ground (arith, ==_iff i j, reads q, str_eq_iff k q, home, e))
    | inr (m, e) ↦ rw e (ground (arith, str_eq_iff k q, home, e))
  ]

  pub set-IsValid :
      (n : ℕ)
      → n + length (chain_at h.nodes i) ≡ h.count + length c
      → ((q : Str) → count q c ≤ 1)
      → ((q : Str) → str_eq k q ≡ false → count q c ≤ count q (chain_at h.nodes i))
      → IsValid (record h { nodes = set h.nodes i (chain c); count = n })
  set-IsValid n size once few = record {
    width = length-set h.nodes i (chain c) ∙ valid.width;
    chains = set-AllChains h.nodes i c valid.chains;
    placed = λ q j. rw (chain_at-set h.nodes i j c (omega (arith, valid.width))) (
        ground (
          arith,
          ==_iff i j,
          str_eq_iff k q,
          home,
          once q,
          few q,
          valid.placed q j,
          valid.placed q i,
        ));
    counted = omega (arith, total_nodes-set h.nodes i c, valid.width, valid.counted);
  }
