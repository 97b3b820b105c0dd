-- ===== src/Hash/Methods.antt =====
-- The operations of kvs_hash.c as operations on a map from keys to values.
use kv_study.Prelude.{
  ℕ, ◌+◌, ◌<◌, ◌≡◌, ◌≢◌, refl, ap, false, ◌&&◌, Run, fault, Bool-cases, ◌∙◌, inl, inr, Bool, true,
  Option-cases, Option, none, some, ◌∷◌, if◌then◌else◌, set, ℤ, pos, negsuc, Ptr, Str, str_eq,
  str_eq_iff, ok, Returns, ◌>>=◌, arith,
}
use kv_study.Hash.{
  create_node, Node, chain, KvsHash, find_node, prepend, assign, kvs_hash_set, kvs_hash_get,
  kvs_hash_mod,
}
use kv_study.Hash.Index.{hash_index, max_table_size}
use kv_study.Hash.Chain.{
  value_sound, find, count, find_node-none, find_node-some, find-assign, count-assign,
  length-assign,
}
use kv_study.Hash.Buckets.{chain_at, IsValid, view, locate_lem, set-view, set-IsValid}

-- An operation that returned `code` and left the map `f`.
pub record Answer (code : ℤ) (f : Str → Option Ptr) (r : KvsHash × ℤ) : Type 0 where
  pub returns : r.1 ≡ code
  pub valid : IsValid r.0
  pub reads : (q : Str) → view r.0 q ≡ f q

-- What `kvs_hash_set` comes to, by whether all its allocations are granted and what the key has.
abbrev pub SetAnswer : KvsHash → Str → Str → Bool → Option Ptr → Run (KvsHash × ℤ) → Type 0
SetAnswer h k v granted (some old) run = run ≡ ok (h, pos 1)
SetAnswer h k v true none run =
    Returns run (Answer (pos 0) λ q. if str_eq k q then some (Ptr.text v) else view h q)
SetAnswer h k v false none run = run ≡ fault

module _ {h : KvsHash} (valid : IsValid h) (k : Str) (i : ℕ) (home : hash_index k ≡ pos i)
    (lt : i < max_table_size) where
  pub view_home : view h k ≡ find k (chain_at h.nodes i)
  view_home = rw home

  pub unchanged :
      (code wanted : ℤ) (f : Str → Option Ptr)
      → code ≡ wanted
      → ((q : Str) → view h q ≡ f q)
      → Answer wanted f (h, code)
  unchanged code wanted f e same = record { returns = e; valid = valid; reads = same }

  -- A new node at the head of the chain of its key.
  prepend-Answer :
      (v : Str)
      → count k (chain_at h.nodes i) ≡ 0
      → Returns
          (prepend h i (chain_at h.nodes i) (some (record { key = k; value = Ptr.text v })))
          (Answer (pos 0) λ q. if str_eq k q then some (Ptr.text v) else view h q)
  unfolding prepend find count
  prepend-Answer v absent =
      let node : Node = record { key = k; value = Ptr.text v } in
      let c = node ∷ chain_at h.nodes i in
      (
        (record h { nodes = set h.nodes i (chain c); count = h.count + 1 }, pos 0),
        refl,
        record {
          returns = refl;
          valid =
              set-IsValid valid k i home lt c (h.count + 1) (omega arith)
                (λ q. ground (arith, str_eq_iff k q, valid.placed q i)) (λ q ne. ground arith);
          reads = set-view valid k i home lt c (some (Ptr.text v)) (λ q. refl) (h.count + 1);
        },
      )

  -- With every allocation granted: 1 for a key that is there, otherwise 0 and the key maps to the value.
  pub kvs_hash_set-granted :
      (v : Str)
      → Returns (kvs_hash_set true true true h (some k) (some v)) (
          Answer
            (elim (view h k) [ some old ↦ pos 1 | none ↦ pos 0 ])
            (λ q. elim (view h k) [
              | some old ↦ view h q
              | none ↦ if str_eq k q then some (Ptr.text v) else view h q
            ]))
  unfolding kvs_hash_set
  kvs_hash_set-granted v = elim (Option-cases (find_node k (chain_at h.nodes i))) [
    | inr (node, e) ↦
        let there = view_home ∙ (find_node-some k _ node e).0 in
        (
          (h, pos 1),
          rw (locate_lem h k i valid home lt, ◌>>=◌, e),
          unchanged _ _ _ (rw there) (λ q. rw there),
        )
    | inl e ↦
        let (gone, absent) = find_node-none k (chain_at h.nodes i) e in
        let there = view_home ∙ gone in
        let (r, run, a) = prepend-Answer v absent in
        (
          r,
          rw (locate_lem h k i valid home lt, ◌>>=◌, e) run,
          record {
            returns = rw there a.returns;
            valid = a.valid;
            reads = λ q. rw there (a.reads q);
          },
        )
  ]

  -- `kvs_hash_set` on a valid table, of a key whose index is in the table: 1 and the table as it is
  -- for a key that is there, whatever the allocations come to; otherwise 0 and the key maps to the
  -- value where the node and both copies are granted, and a fault where one of them is not, since
  -- the NULL from `_create_node` is written through.
  pub kvs_hash_set-Answer :
      (node kcopy kvalue : Bool) (v : Str)
      → SetAnswer h k v
          (node && (kcopy && kvalue))
          (view h k)
          (kvs_hash_set node kcopy kvalue h (some k) (some v))
  unfolding kvs_hash_set create_node prepend
  kvs_hash_set-Answer node kcopy kvalue v = elim (Option-cases (find_node k (chain_at h.nodes i))) [
    | inr (old, e) ↦
        let there = view_home ∙ (find_node-some k _ old e).0 in
        rw (there, locate_lem h k i valid home lt, ◌>>=◌, e) refl
    | inl e ↦
        let there = view_home ∙ (find_node-none k (chain_at h.nodes i) e).0 in
        elim (Bool-cases (node && (kcopy && kvalue))) [
          | inl all ↦
              rw (there, all, locate_lem h k i valid home lt, ◌>>=◌, e, all)
                (prepend-Answer v (find_node-none k (chain_at h.nodes i) e).1)
          | inr failed ↦ rw (there, failed, locate_lem h k i valid home lt, ◌>>=◌, e, failed) refl
        ]
  ]

  -- `kvs_hash_get` returns the pointer that the map has for the key, NULL where it has none.
  pub kvs_hash_get-view :
      kvs_hash_get h (some k) ≡ ok (elim (view h k) [ none ↦ Ptr.null | some p ↦ p ])
  unfolding kvs_hash_get
  kvs_hash_get-view = elim (Option-cases (find_node k (chain_at h.nodes i))) [
    | inr (node, e) ↦
        rw (locate_lem h k i valid home lt, ◌>>=◌, e, view_home, (find_node-some k _ node e).0)
    | inl e ↦ rw (locate_lem h k i valid home lt, ◌>>=◌, e, view_home, (find_node-none k _ e).0)
  ]

  -- A write of the pointer `p` to the node that has the key.
  assign-Answer :
      (p : Ptr) (code : ℤ)
      → 0 < count k (chain_at h.nodes i)
      → Answer code
          (λ q. if str_eq k q then some p else view h q)
          (record h { nodes = set h.nodes i (chain (assign k p (chain_at h.nodes i))) }, code)
  assign-Answer p code there =
      let c = assign k p (chain_at h.nodes i) in
      record {
        returns = refl;
        valid =
            set-IsValid valid k i home lt c h.count
              (omega (arith, length-assign k p (chain_at h.nodes i)))
              (λ q. omega (arith, count-assign k q p (chain_at h.nodes i), (valid.placed q i).0))
              (λ q ne. omega (arith, count-assign k q p (chain_at h.nodes i)));
        reads =
            set-view valid k i home lt c (some p)
              (λ q. find-assign k q p (chain_at h.nodes i) there) h.count;
      }

  -- `kvs_hash_mod` of a key whose value was not freed before: 0 and the new value, or -2 and a freed pointer where
  -- the copy cannot be allocated; 1 for a key that is not there.
  pub kvs_hash_mod-Answer :
      (v : Str) (kvalue : Bool)
      → view h k ≢ some Ptr.wild
      → Returns (kvs_hash_mod kvalue h (some k) (some v)) (
          Answer
            (elim (view h k) [ some old ↦ if kvalue then pos 0 else negsuc 1 | none ↦ pos 1 ])
            (λ q. elim (view h k) [
              | some old ↦
                  if str_eq k q then some (if kvalue then Ptr.text v else Ptr.wild) else view h q
              | none ↦ view h q
            ]))
  unfolding kvs_hash_mod
  kvs_hash_mod-Answer v kvalue sound = elim (Option-cases (find_node k (chain_at h.nodes i))) [
    | inl e ↦
        let there = view_home ∙ (find_node-none k (chain_at h.nodes i) e).0 in
        (
          (h, pos 1),
          rw (locate_lem h k i valid home lt, ◌>>=◌, e),
          unchanged _ _ _ (rw there) (λ q. rw there),
        )
    | inr (node, e) ↦
        let (reads, counted) = find_node-some k (chain_at h.nodes i) node e in
        let there = view_home ∙ reads in
        let freed = value_sound node.value (λ wild. sound (there ∙ ap some wild)) in
        let p = if kvalue then Ptr.text v else Ptr.wild in
        let code = if kvalue then pos 0 else negsuc 1 in
        (
          (record h { nodes = set h.nodes i (chain (assign k p (chain_at h.nodes i))) }, code),
          rw (locate_lem h k i valid home lt, ◌>>=◌, e, freed) (ground arith),
          rw there (assign-Answer p code counted),
        )
  ]
