-- ===== src/Tests/Trees.antt =====
-- Runs of kvs_rbtree.c on small trees.
use kv_study.Prelude.{
  ℕ, ◌+◌, ◌≡◌, refl, true, ◌==◌, if◌then◌else◌, some, List, [], ◌∷◌, pos, Ptr, Str, strcmp, str_eq,
  ℤ, codes, ok, Returns, arith, Run, false, ◌<◌, ◌>>=◌,
}
use kv_study.Rbtree.{left, right, Color, Node, Rbtree, rotate}
use kv_study.Rbtree.Shape.{Cell, Tree, leaf, node, occurs, occurs_path, Place}
use kv_study.Rbtree.Turn.{rotate-Place}
use kv_study.Rbtree.Focus.{Place-down}
use kv_study.Rbtree.Insert.{rbtree_insert_fixup}
use kv_study.Rbtree.Insert.Balance.{balance}
use kv_study.Rbtree.Insert.Loop.{rbtree_insert_fixup-balance}
use kv_study.Rbtree.Calls.{kvs_rbtree_set, kvs_rbtree_mod}
use kv_study.Rbtree.Entries.{entries, insort, find}
use kv_study.Rbtree.Modify.{Replaced, kvs_rbtree_mod-replace}
use kv_study.Rbtree.Session.{Call, set, get, change, run_calls, spec_calls, run_calls-entries}
use kv_study.Protocol.{State, kvs_tcp_protocol}
use kv_study.Protocol.Replies.{Request, request_bytes, reply}
use kv_study.Protocol.Trees.{Grown, tree_ops, Holds, rset-rget}
use kv_study.Tests.Frames.{request, no_zsets}
use kv_study.Tests.Tables.{one_key}
use kv_study.Tests.Chains.{empty_hash}
use kv_study.Rbtree.State.{Represents, kvs_rbtree_set-insort}

abbrev cell_at : ℕ → Color → Str → Cell
cell_at a color key = record { addr = a; color = color; key = key; value = Ptr.text key }

abbrev cell_a : Cell
cell_a = cell_at 4 Color.red (codes "a")

abbrev cell_b : Cell
cell_b = cell_at 3 Color.red (codes "b")

abbrev cell_c : Cell
cell_c = cell_at 2 Color.black (codes "c")

-- The sentinel is at 1. The node at 4 is no part of the first tree and the lowest of the second.
abbrev small_heap : (below_b : ℕ) → ℕ → Node
small_heap below_b a =
    if a == 2
    then record {
      color = Color.black;
      right = 1;
      left = 3;
      parent = 1;
      key = Ptr.text (codes "c");
      value = Ptr.text (codes "c");
    }
    else if a == 3
    then record {
      color = Color.red;
      right = 1;
      left = below_b;
      parent = 2;
      key = Ptr.text (codes "b");
      value = Ptr.text (codes "b");
    }
    else if a == 4
    then record {
      color = Color.red;
      right = 1;
      left = 1;
      parent = 3;
      key = Ptr.text (codes "a");
      value = Ptr.text (codes "a");
    }
    else record {
      color = Color.black;
      right = 0;
      left = 0;
      parent = 0;
      key = Ptr.wild;
      value = Ptr.wild;
    }

abbrev two_nodes : Rbtree
two_nodes = record { heap = small_heap 1; root = 2; nil = 1 }

abbrev three_nodes : Rbtree
three_nodes = record { heap = small_heap 4; root = 2; nil = 1 }

abbrev two_tree : Tree
two_tree = node cell_c (node cell_b leaf leaf) leaf

abbrev three_tree : Tree
three_tree = node cell_c (node cell_b (node cell_a leaf leaf) leaf) leaf

two_nodes-Place : Place two_nodes [] two_tree
unfolding occurs occurs_path
two_nodes-Place = record {
  above = refl;
  below = (refl, (refl, tt, tt), tt);
  once = λ a. ground arith;
  no_nil = refl;
  nil_black = refl;
}

three_nodes-Place : Place three_nodes [] three_tree
unfolding occurs occurs_path
three_nodes-Place = record {
  above = refl;
  below = (refl, (refl, (refl, tt, tt), tt), tt);
  once = λ a. ground arith;
  no_nil = refl;
  nil_black = refl;
}

two_nodes-Represents : Represents two_nodes two_tree
unfolding occurs strcmp
two_nodes-Represents = record {
  place = two_nodes-Place;
  balanced = (
    1,
    (0, refl, (0, refl, refl, refl, λ h. (refl, refl)), refl, λ h. absurd (ground (arith, h))),
  );
  black = refl;
  sorted = ((refl, tt), (tt, tt));
  no_null = refl;
}

three_nodes-deep :
    Place three_nodes
      (record { side = left; cell = cell_b; sibling = leaf }
        ∷ record { side = left; cell = cell_c; sibling = leaf }
        ∷ [])
      (node cell_a leaf leaf)
three_nodes-deep = Place-down three_nodes left cell_b leaf _ (node cell_a leaf leaf) (
    Place-down three_nodes left cell_c leaf [] (node cell_b (node cell_a leaf leaf) leaf)
      three_nodes-Place)

kvs_rbtree_set-insort_example :
    Returns (kvs_rbtree_set 3 two_nodes 4 true true (some (codes "a")) (some (codes "new"))) (λ w.
      (w.1 ≡ pos 0)
      × ((u' : Tree) × Represents w.0 u'
          × (entries u' ≡ insort (codes "a") (Ptr.text (codes "new")) (entries two_tree))))
unfolding occurs
kvs_rbtree_set-insort_example =
    kvs_rbtree_set-insort 3 two_nodes two_tree 3 true true (codes "a") (codes "new")
      two_nodes-Represents (ground arith) refl refl

rbtree_insert_fixup-balance_example : Returns (rbtree_insert_fixup 3 three_nodes 4) (λ t'.
    Place t' [] (
      balance
        (record { side = left; cell = cell_b; sibling = leaf }
          ∷ record { side = left; cell = cell_c; sibling = leaf }
          ∷ [])
        (node cell_a leaf leaf)))
rbtree_insert_fixup-balance_example =
    rbtree_insert_fixup-balance 3 three_nodes _ (node cell_a leaf leaf) (ground arith) refl refl
      three_nodes-deep

rotate-Place_example :
    Place
      (rotate right three_nodes 2)
      []
      (node cell_b (node cell_a leaf leaf) (node cell_c leaf leaf))
rotate-Place_example =
    rotate-Place right three_nodes [] cell_c cell_b leaf leaf (node cell_a leaf leaf)
      three_nodes-Place

kvs_rbtree_mod-replace_example :
    Returns
      (kvs_rbtree_mod 3 two_nodes true (some (codes "b")) (some (codes "new")))
      (Replaced 1 two_tree (codes "b") (Ptr.text (codes "new")) (pos 0))
kvs_rbtree_mod-replace_example =
    kvs_rbtree_mod-replace 3 two_nodes two_tree true (codes "b") (codes "new") two_nodes-Represents
      (ground arith)

abbrev some_calls : List Call
some_calls =
    set 4 true true (codes "a") (codes "1")
    ∷ set 5 true true (codes "a") (codes "2")
    ∷ set 6 true false (codes "d") (codes "4")
    ∷ change true (codes "c") (codes "3")
    ∷ change false (codes "b") (codes "5")
    ∷ get (codes "a")
    ∷ []

run_calls-entries_example : Returns (run_calls 9 two_nodes some_calls) (λ w.
    (w.1 ≡ (spec_calls (entries two_tree) some_calls).1)
    × ((u' : Tree) × Represents w.0 u'
        × (entries u' ≡ (spec_calls (entries two_tree) some_calls).0)))
unfolding occurs
run_calls-entries_example =
    run_calls-entries 9 two_nodes two_tree some_calls two_nodes-Represents (ground arith) (
      refl,
      refl,
      refl,
      (refl, (refl, tt)),
      (refl, refl, refl, (refl, tt), (refl, refl, refl, tt, tt)),
    )

-- The nodes are allocated one after another, two of them so far.
abbrev next_address : ℕ → ℕ
next_address i = i + 2

abbrev grown : Grown
grown = record { tree = two_nodes; count = 2 }

grown-Holds : Holds next_address grown two_tree
unfolding occurs
grown-Holds = record {
  nodes = two_nodes-Represents;
  counted = ground arith;
  unused = λ i later. ground arith;
  apart = λ i later. ground arith;
}

abbrev tree_engine : State (tree_ops next_address) no_zsets
tree_engine = record { array = one_key; hash = empty_hash; tree = grown; zset = tt }

abbrev keep_files :
    State (tree_ops next_address) no_zsets → Run (State (tree_ops next_address) no_zsets × ℤ)
keep_files e = ok (e, pos 0)

abbrev rset_a : Request
rset_a = request 11 (omega arith) (codes "a v") (omega arith)

abbrev rget_a : Request
rget_a = request 12 (omega arith) (codes "a") (omega arith)

some_memory : (i : ℕ) → (next_address i == 0) ≡ false
some_memory i = ground arith

distinct : (i j : ℕ) → i < j → (next_address i == next_address j) ≡ false
distinct i j lt = ground arith

rset-rget_example :
    Returns
      (do
        (e', response, code) ←
            kvs_tcp_protocol
              (tree_ops next_address)
              no_zsets
              keep_files
              (request_bytes rset_a)
              tree_engine
        (e'', response', code') ←
            kvs_tcp_protocol (tree_ops next_address) no_zsets keep_files (request_bytes rget_a) e'
        ok (e'', response, response'))
      λ (e'', response, response').
        (response ≡ (reply rset_a.header (codes "OK")).0)
        × (response' ≡ (reply rget_a.header (codes "v")).0)
        × ((u' : Tree) × Holds next_address e''.tree u'
            × (entries u' ≡ insort (codes "a") (Ptr.text (codes "v")) (entries two_tree)))
unfolding find str_eq strcmp
rset-rget_example =
    rset-rget next_address some_memory distinct no_zsets keep_files rset_a rget_a tree_engine
      two_tree b'a' [] (codes "v") grown-Holds refl refl refl refl (omega arith, tt)
      (omega arith, tt) (omega arith, tt) (omega arith) refl
