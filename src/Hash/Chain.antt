-- ===== src/Hash/Chain.antt =====
-- One chain of kvs_hash.c: what a key finds, how often it occurs, and the writes to it.
use kv_study.Prelude.{
  ℕ, ◌+◌, ◌≤◌, ◌<◌, ◌≡◌, ◌≢◌, refl, ok, inl, inr, Bool-cases, Option-cases, Option, none, some,
  List, [], ◌∷◌, if◌then◌else◌, length, Ptr, Str, str_eq, str_eq_iff, arith,
}
use kv_study.Hash.{Node, find_node, free_value, freed_value, assign, unlink, unlink_after}

unfoldable pub find : Str → List Node → Option Ptr
find q [] = none
find q (node ∷ c) = if str_eq node.key q then some node.value else find q c

unfoldable pub count : Str → List Node → ℕ
count q [] = 0
count q (node ∷ c) = (if str_eq node.key q then 1 else 0) + count q c

pub find-eq-none : (q : Str) (c : List Node) → count q c ≡ 0 → find q c ≡ none
unfolding find count
find-eq-none q [] h = refl
find-eq-none q (node ∷ c) h = ground (arith, find-eq-none q c)

pub find_node-none :
    (k : Str) (c : List Node) → find_node k c ≡ none → (find k c ≡ none) × (count k c ≡ 0)
unfolding find_node find count
find_node-none k [] h = (refl, refl)
find_node-none k (node ∷ c) h = ground (arith, find_node-none k c)

pub find_node-some :
    (k : Str) (c : List Node) (node : Node)
    → find_node k c ≡ some node
    → (find k c ≡ some node.value) × (0 < count k c)
unfolding find_node find count
find_node-some k [] node h = ground arith
find_node-some k (head ∷ c) node h = ground (arith, find_node-some k c node)

-- A value that was not freed before can be freed.
pub value_sound : (p : Ptr) → p ≢ Ptr.wild → free_value p ≡ ok tt
unfolding free_value
value_sound Ptr.null h = refl
value_sound (Ptr.text s) h = refl
value_sound Ptr.wild h = absurd (h refl)

pub find-assign :
    (k q : Str) (p : Ptr) (c : List Node)
    → 0 < count k c
    → find q (assign k p c) ≡ (if str_eq k q then some p else find q c)
unfolding find assign count
find-assign k q p [] h = ground arith
find-assign k q p (node ∷ c) h =
    ground
      (arith, str_eq_iff k q, str_eq_iff node.key k, str_eq_iff node.key q, find-assign k q p c)

pub count-assign : (k q : Str) (p : Ptr) (c : List Node) → count q (assign k p c) ≡ count q c
unfolding count assign
count-assign k q p [] = refl
count-assign k q p (node ∷ c) = ground (arith, count-assign k q p c)

pub length-assign : (k : Str) (p : Ptr) (c : List Node) → length (assign k p c) ≡ length c
unfolding assign
length-assign k p [] = refl
length-assign k p (node ∷ c) = ground (arith, length-assign k p c)

-- What deletion frees is the value that the key finds, or nothing.
pub freed_value_sound :
    (k : Str) (c : List Node) → find k c ≢ some Ptr.wild → free_value (freed_value k c) ≡ ok tt
unfolding freed_value free_value find
freed_value_sound k [] h = refl
freed_value_sound k (head ∷ c) h = elim (Bool-cases (str_eq head.key k)) [
  | inl same ↦ rw same
  | inr other ↦ rw other (elim (Option-cases (find_node k c)) [
    | inl e ↦ rw e
    | inr (node, e) ↦
        rw e (value_sound node.value λ wild. h (ground (arith, other, find_node-some k c node e)))
  ])
]

-- The loop behind the head node is the whole search, head included.
pub unlink-unlink_after : (k : Str) (c : List Node) → unlink k c ≡ unlink_after k c
unfolding unlink
unlink-unlink_after k [] = refl
unlink-unlink_after k (head ∷ c) = refl

pub unlink_after-none :
    (k : Str) (c : List Node) → unlink_after k c ≡ none → (find k c ≡ none) × (count k c ≡ 0)
unfolding unlink_after find count
unlink_after-none k [] h = (refl, refl)
unlink_after-none k (node ∷ c) h = ground (arith, unlink_after-none k c)

-- Removing the first node with the key.
pub record Unlinked (k : Str) (c rest : List Node) : Type 0 where
  pub finds : (q : Str) → find q rest ≡ (if str_eq k q then none else find q c)
  pub counts : (q : Str) → count q rest + (if str_eq k q then 1 else 0) ≡ count q c
  pub shorter : length rest + 1 ≡ length c
  pub present : (p : Ptr) × (find k c ≡ some p)

pub unlink_after-some :
    (k : Str) (c rest : List Node)
    → unlink_after k c ≡ some rest
    → count k c ≤ 1
    → Unlinked k c rest
unfolding unlink_after find count
unlink_after-some k [] rest h once = ground arith
unlink_after-some k (node ∷ c) rest h once = elim (Bool-cases (str_eq node.key k)) [
  | inl same ↦
      let is_c : c ≡ rest = ground arith in
      rw (← is_c) (record {
        finds = λ q.
            ground (
              arith,
              str_eq_iff node.key k,
              str_eq_iff node.key q,
              str_eq_iff k q,
              find-eq-none k c,
            );
        counts = λ q. ground (arith, str_eq_iff node.key k, str_eq_iff node.key q, str_eq_iff k q);
        shorter = omega arith;
        present = (node.value, rw same);
      })
  | inr other ↦ elim (Option-cases (unlink_after k c)) [
    | inl nothing ↦ absurd (ground arith)
    | inr (tail, e) ↦
        let u = unlink_after-some k c tail e (ground arith) in
        let is_rest : node ∷ tail ≡ rest = ground arith in
        rw (← is_rest) (record {
          finds = λ q.
              ground
                (arith, u.finds q, str_eq_iff node.key k, str_eq_iff node.key q, str_eq_iff k q);
          counts = λ q. ground (arith, u.counts q);
          shorter = omega (arith, u.shorter);
          present = (u.present.0, rw other u.present.1);
        })
  ]
]
