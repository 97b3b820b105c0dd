-- ===== src/Protocol/Trees.antt =====
-- `kvs_tcp_protocol` of kvstore.c on the tree of kvs_rbtree.c. The addresses that the allocations of
-- nodes give, one after another, are a parameter.
use kv_study.Prelude.{
  ℕ, zero, suc, ◌≤◌, ◌<◌, ◌≡◌, refl, sym, ◌∙◌, ap, true, false, none, some, ◌∷◌, ◌++◌, ltb, length,
  ℤ, pos, Ptr, Str, codes, str_eq_refl, ◌==◌, if◌then◌else◌, Run, ok, Returns, ◌>>=◌, arith,
}
use kv_study.Engine.{TreeOps, ZsetOps}
use kv_study.Rbtree.{Rbtree}
use kv_study.Rbtree.Shape.{Tree, occurs}
use kv_study.Rbtree.Calls.{kvs_rbtree_set, kvs_rbtree_get}
use kv_study.Rbtree.Entries.{entries, find, insort, find-insort}
use kv_study.Rbtree.State.{Represents, inserted-Returns}
use kv_study.Rbtree.Answers.{kvs_rbtree_get-find}
use kv_study.Rbtree.Session.{height-entries, length-insort}
use kv_study.Protocol.{State, kvs_tcp_protocol, answer, copy_pointer, to_result, three_way}
use kv_study.Protocol.Request.{key_of, value_of}
use kv_study.Protocol.Payload.{Lacks, key_of-pair, value_of-pair, key_of-word}
use kv_study.Protocol.Replies.{Request, request_bytes, reply, protocol-request}

-- The tree, and how many nodes were allocated.
pub record Grown : Type 0 where
  pub tree : Rbtree
  pub count : ℕ

abbrev pub allocated : ℕ → Rbtree × ℤ → Grown × ℤ
allocated n w = (record { tree = w.0; count = suc n }, w.1)

module _ (node_address : ℕ → ℕ) where
  -- Calls with every allocation granted, with fuel for the nodes allocated.
  abbrev pub tree_ops : TreeOps
  tree_ops = record {
    Tree = Grown;
    kvs_rbtree_set = λ g key value.
        kvs_rbtree_set (suc g.count) g.tree (node_address g.count) true true key value >>= λ w.
        ok (allocated g.count w);
    kvs_rbtree_get = λ g key. kvs_rbtree_get (suc g.count) g.tree key;
    root = λ g.
        let n = g.tree.heap g.tree.root in
        if g.tree.root == g.tree.nil
        then none
        else elim n.key [ Ptr.text key ↦ some (key, n.value) | _ ↦ none ];
  }

  -- The tree with its entries; the addresses to come are those of no node.
  pub record Holds (g : Grown) (u : Tree) : Type 0 where
    pub nodes : Represents g.tree u
    pub counted : length (entries u) ≤ g.count
    pub unused : (i : ℕ) → g.count ≤ i → occurs (node_address i) u ≡ 0
    pub apart : (i : ℕ) → g.count ≤ i → (node_address i == g.tree.nil) ≡ false

  module _ (some_memory : (i : ℕ) → (node_address i == 0) ≡ false)
      (distinct : (i j : ℕ) → i < j → (node_address i == node_address j) ≡ false) where
    set-Holds :
        (g : Grown) (u : Tree) (a : ℕ) (key value : Str)
        → node_address g.count ≡ suc a
        → Holds g u
        → Returns
            (kvs_rbtree_set (suc g.count) g.tree (suc a) true true (some key) (some value) >>= λ w.
              ok (allocated g.count w))
            (λ w.
              (w.1 ≡ pos 0)
              × ((u' : Tree) × Holds w.0 u'
                  × (entries u' ≡ insort key (Ptr.text value) (entries u))))
    unfolding kvs_rbtree_set
    set-Holds g u a key value here h =
        let (t', run, (u', rep, inserted, same, others)) =
          inserted-Returns (suc g.count) g.tree u a key value h.nodes
            (ground (arith, height-entries u, h.counted))
            (ap (λ b. occurs b u) (sym here) ∙ h.unused g.count (ground arith))
            (ap (λ b. b == g.tree.nil) (sym here) ∙ h.apart g.count (ground arith)) in
        (
          (record { tree = t'; count = suc g.count }, pos 0),
          rw (run, ◌>>=◌) refl,
          (
            refl,
            (
              u',
              record {
                nodes = rep;
                counted = ground (
                  arith,
                  ap length inserted,
                  length-insort key (Ptr.text value) (entries u),
                  h.counted,
                );
                unused = λ i later. others (node_address i) (h.unused i (ground (arith, later))) (
                    ap (λ b. b == node_address i) (sym here)
                    ∙ distinct g.count i (ground (arith, later)));
                apart = λ i later. rw same (h.apart i (ground (arith, later)));
              },
              inserted,
            ),
          ),
        )

    set_at :
        (g : Grown) (u : Tree) (a : ℕ) (key value : Str)
        → node_address g.count ≡ a
        → Holds g u
        → Returns
            (kvs_rbtree_set (suc g.count) g.tree a true true (some key) (some value) >>= λ w.
              ok (allocated g.count w))
            (λ w.
              (w.1 ≡ pos 0)
              × ((u' : Tree) × Holds w.0 u'
                  × (entries u' ≡ insort key (Ptr.text value) (entries u))))
    set_at g u zero key value here h = absurd (ground (arith, some_memory g.count, here))
    set_at g u (suc a) key value here h = set-Holds g u a key value here h

    -- A request that sets a key in the tree, and one that reads a key of it.
    module _ (zsets : ZsetOps) (save : State tree_ops zsets → Run (State tree_ops zsets × ℤ)) where
      rset_lem :
          (r : Request) (e : State tree_ops zsets) (u : Tree) (key value : Str)
          → Holds e.tree u
          → r.header.cmd_type ≡ 11
          → key_of r.payload ≡ some key
          → value_of r.payload ≡ some value
          → Returns
              (kvs_tcp_protocol tree_ops zsets save (request_bytes r) e)
              λ (e', response, code).
                (response ≡ (reply r.header (codes "OK")).0)
                × ((u' : Tree) × Holds e'.tree u'
                    × (entries u' ≡ insort key (Ptr.text value) (entries u)))
      unfolding answer three_way
      rset_lem r e u key value h cmd k v =
          let (w, run, (zero_code, (u', h', inserted))) =
            set_at e.tree u (node_address e.tree.count) key value refl h in
          (
            (
              record e { tree = w.0 },
              (reply r.header (codes "OK")).0,
              (reply r.header (codes "OK")).1,
            ),
            protocol-request tree_ops zsets save r e ∙ rw (k, v, cmd, run, zero_code) refl,
            (refl, (u', h', inserted)),
          )

      rget_lem :
          (r : Request) (e : State tree_ops zsets) (u : Tree) (key value : Str)
          → Holds e.tree u
          → r.header.cmd_type ≡ 12
          → key_of r.payload ≡ some key
          → find key (entries u) ≡ some (Ptr.text value)
          → length value < 1024
          → kvs_tcp_protocol tree_ops zsets save (request_bytes r) e
            ≡ ok (e, (reply r.header value).0, (reply r.header value).1)
      unfolding answer copy_pointer to_result
      rget_lem r e u key value h cmd k found short =
          let run =
            kvs_rbtree_get-find (suc e.tree.count) e.tree.tree u key h.nodes
              (ground (arith, height-entries u, h.counted)) in
          let fits : ltb (length value) 1024 ≡ true = ground arith in
          protocol-request tree_ops zsets save r e ∙ rw (k, cmd, run, found, fits) refl

      -- With a fresh node from the allocation, RSET of a key that is not in the tree is answered OK, RGET
      -- then answers its value, and the entries have the new one at its place in the order. The key has
      -- no NUL and no blank, the value no NUL and less than 1024 bytes.
      pub rset-rget :
          (r next : Request) (e : State tree_ops zsets) (u : Tree) (b : ℕ) (key value : Str)
          → Holds e.tree u
          → r.header.cmd_type ≡ 11
          → r.payload ≡ (b ∷ key) ++ b' ' ∷ value
          → next.header.cmd_type ≡ 12
          → next.payload ≡ b ∷ key
          → Lacks 0 (b ∷ key)
          → Lacks b' ' (b ∷ key)
          → Lacks 0 value
          → length value < 1024
          → find (b ∷ key) (entries u) ≡ none
          → Returns
              (do
                (e', response, code) ← kvs_tcp_protocol tree_ops zsets save (request_bytes r) e
                (e'', response', code') ←
                    kvs_tcp_protocol tree_ops zsets save (request_bytes next) e'
                ok (e'', response, response'))
              λ (e'', response, response').
                (response ≡ (reply r.header (codes "OK")).0)
                × (response' ≡ (reply next.header value).0)
                × ((u' : Tree) × Holds e''.tree u'
                    × (entries u' ≡ insort (b ∷ key) (Ptr.text value) (entries u)))
      rset-rget r next e u b key value h rset sent rget asked clean word clean_value short fresh =
          let k = ap key_of sent ∙ key_of-pair (b ∷ key) value clean word clean_value in
          let v = ap value_of sent ∙ value_of-pair (b ∷ key) value clean word clean_value in
          let k' = ap key_of asked ∙ key_of-word b key clean word in
          let (s', run, (answered, (u', h', inserted))) =
            rset_lem r e u (b ∷ key) value h rset k v in
          let found : find (b ∷ key) (entries u') ≡ some (Ptr.text value) =
            ap (find (b ∷ key)) inserted
            ∙ find-insort (b ∷ key) (b ∷ key) (Ptr.text value) (entries u) h.nodes.sorted
            ∙ rw (str_eq_refl (b ∷ key), fresh) refl in
          let run' = rget_lem next s'.0 u' (b ∷ key) value h' rget k' found short in
          (
            (s'.0, s'.1, (reply next.header value).0),
            rw (run, run') refl,
            (answered, refl, (u', h', inserted)),
          )
