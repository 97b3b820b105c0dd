-- ===== src/Hash/Delete.antt =====
-- `kvs_hash_del` and `kvs_hash_exist` of kvs_hash.c, and keys that have no slot.
use kv_study.Prelude.{
  ℕ, ◌-◌, ◌<◌, ◌≡◌, ◌≢◌, sym, ◌∙◌, inl, inr, Option-cases, none, some, [], if◌then◌else◌, set, pos,
  negsuc, Ptr, Str, str_eq, str_eq_iff, ok, Returns, ◌>>=◌, arith,
}
use kv_study.Hash.{chain, KvsHash, unlink, kvs_hash_del, kvs_hash_exist}
use kv_study.Hash.Index.{hash_index, max_table_size}
use kv_study.Hash.Chain.{
  freed_value_sound, unlink-unlink_after, unlink_after-none, unlink_after-some,
}
use kv_study.Hash.Buckets.{
  chain_at, total_nodes-set, IsValid, view, locate_lem, set-view, set-IsValid,
}
use kv_study.Hash.Methods.{Answer, view_home, unchanged, kvs_hash_get-view}

module _ {h : KvsHash} (valid : IsValid h) (k : Str) (i : ℕ) (home : hash_index k ≡ pos i)
    (lt : i < max_table_size) where
  -- `kvs_hash_del` on a valid table, of a key whose index is in the table and whose value was not
  -- freed before: 0 and the key is gone, or -1 for a key that is not there; the table stays valid.
  pub kvs_hash_del-Answer :
      view h k ≢ some Ptr.wild
      → Returns (kvs_hash_del h (some k)) (
          Answer
            (elim (view h k) [ some old ↦ pos 0 | none ↦ negsuc 0 ])
            (λ q. if str_eq k q then none else view h q))
  unfolding kvs_hash_del
  kvs_hash_del-Answer sound =
      let c = chain_at h.nodes i in
      let same = unlink-unlink_after k c in
      elim (Option-cases (unlink k c)) [
        | inl e ↦
            let there = view_home valid k i home lt ∙ (unlink_after-none k c (sym same ∙ e)).0 in
            (
              (h, negsuc 0),
              rw (locate_lem h k i valid home lt, ◌>>=◌, e),
              unchanged valid k i home lt _ _ _ (rw there)
                  (λ q. ground (arith, there, str_eq_iff k q)),
            )
        | inr (rest, e) ↦
            let u = unlink_after-some k c rest (sym same ∙ e) (valid.placed k i).0 in
            let there = view_home valid k i home lt ∙ u.present.1 in
            let freed =
              freed_value_sound k c (λ wild. sound (view_home valid k i home lt ∙ wild)) in
            (
              (record h { nodes = set h.nodes i (chain rest); count = h.count - 1 }, pos 0),
              rw (locate_lem h k i valid home lt, ◌>>=◌, e, freed),
              record {
                returns = rw there;
                valid =
                    set-IsValid valid k i home lt rest (h.count - 1)
                      (omega (
                        arith,
                        u.shorter,
                        total_nodes-set h.nodes i [] (omega (arith, valid.width)),
                        valid.counted,
                      ))
                      (λ q. ground (arith, u.counts q, valid.placed q i))
                      (λ q ne. ground (arith, u.counts q));
                reads = set-view valid k i home lt rest none u.finds (h.count - 1);
              },
            )
      ]

  -- `kvs_hash_exist` returns 0 where the map has a pointer that is not NULL, and 1 elsewhere.
  pub kvs_hash_exist-view :
      ((q : Str) → view h q ≢ some Ptr.null)
      → kvs_hash_exist h (some k) ≡ ok (elim (view h k) [ none ↦ pos 1 | some p ↦ pos 0 ])
  unfolding kvs_hash_exist
  kvs_hash_exist-view solid = elim (Option-cases (view h k)) [
    | inl e ↦ rw (kvs_hash_get-view valid k i home lt, e)
    | inr (Ptr.null, e) ↦ absurd (solid k e)
    | inr (Ptr.text v, e) ↦ rw (kvs_hash_get-view valid k i home lt, e)
    | inr (Ptr.wild, e) ↦ rw (kvs_hash_get-view valid k i home lt, e)
  ]
