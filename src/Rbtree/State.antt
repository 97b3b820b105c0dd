-- ===== src/Rbtree/State.antt =====
-- What the functions of kvs_rbtree.c keep and answer: the nodes are a sorted red-black tree, and the
-- calls are those of a map from keys to values.
use kv_study.Prelude.{
  ℕ, zero, suc, ◌+◌, ◌^◌, ◌≤◌, ◌<◌, ◌≡◌, refl, sym, ◌∙◌, ap, ◌⊎◌, inl, inr, Bool, true, false, ◌&&◌,
  Bool-cases, ==_iff, ◌==◌, if◌then◌else◌, some, [], pos, minus, Ptr, Str, ◌>>=◌, Returns, arith,
}
use mathlib.Core.Path.{subst}
use kv_study.Rbtree.{Node, Rbtree, store}
use kv_study.Rbtree.Shape.{Tree, leaf, occurs, occurs_path, Place, Below-frame, same_address}
use kv_study.Rbtree.Seek.{height}
use kv_study.Rbtree.Insert.{rbtree_insert}
use kv_study.Rbtree.Insert.Balance.{red_root}
use kv_study.Rbtree.Insert.Hang.{new_cell}
use kv_study.Rbtree.Calls.{fresh_node, kvs_rbtree_create, kvs_rbtree_set}
use kv_study.Rbtree.Entries.{entries, insort, Sorted, insort-Sorted}
use kv_study.Rbtree.Order.{insert_tree, insert_tree-entries}
use kv_study.Rbtree.Balanced.{Balanced}
use kv_study.Rbtree.Levels.{size, height-Balanced, size-Balanced}
use kv_study.Rbtree.Sentinel.{rbtree_insert-nil}
use kv_study.Rbtree.Insertion.{rbtree_insert-insert_tree, insert_tree-occurs, insert_tree-Balanced}

-- The nodes are the tree, which is sorted, red-black and without a NULL pointer.
pub record Represents (t : Rbtree) (u : Tree) : Type 0 where
  pub place : Place t [] u
  pub balanced : (m : ℕ) × Balanced m u
  pub black : red_root u ≡ false
  pub sorted : Sorted (entries u)
  pub no_null : occurs 0 u ≡ 0

-- A node of the tree is not written when another address is.
write-Place :
    (t : Rbtree) (a : ℕ) (n : Node) (u : Tree)
    → Place t [] u
    → occurs a u ≡ 0
    → (a == t.nil) ≡ false
    → Place (store a n t) [] u
write-Place t a n u p absent away = record {
  above = p.above;
  below = Below-frame t (store a n t) t.nil u refl (λ b. elsewhere b (Bool-cases (b == a))) p.below;
  once = p.once;
  no_nil = p.no_nil;
  nil_black = ground (arith, p.nil_black, away);
}
  where
    elsewhere :
        (b : ℕ)
        → ((b == a) ≡ true) ⊎ ((b == a) ≡ false)
        → ((if b == a then n else t.heap b) ≡ t.heap b) ⊎ (occurs b u ≡ 0)
    elsewhere b (inl e) = inr (ap (λ c. occurs c u) ((==_iff b a).0 e) ∙ absent)
    elsewhere b (inr e) = inl (ap (λ c. if c then n else t.heap b) e)

-- A new tree is empty.
pub kvs_rbtree_create-Represents :
    (heap : ℕ → Node) (a : ℕ)
    → (a == 0) ≡ false
    → Returns (kvs_rbtree_create heap a) (λ w. (w.1 ≡ pos 0) × Represents w.0 leaf)
unfolding kvs_rbtree_create occurs occurs_path
kvs_rbtree_create-Represents heap zero some_memory = absurd (ground arith)
kvs_rbtree_create-Represents heap (suc a) some_memory = (
  _,
  refl,
  (
    refl,
    record {
      place = record {
        above = refl;
        below = tt;
        once = λ b. ground arith;
        no_nil = refl;
        nil_black = ground arith;
      };
      balanced = (0, refl);
      black = refl;
      sorted = tt;
      no_null = refl;
    },
  ),
)

-- A node outside the tree is written.
pub write-Represents :
    (t : Rbtree) (a : ℕ) (n : Node) (u : Tree)
    → Represents t u
    → occurs a u ≡ 0
    → (a == t.nil) ≡ false
    → Represents (store a n t) u
write-Represents t a n u rep absent away = record {
  place = write-Place t a n u rep.place absent away;
  balanced = rep.balanced;
  black = rep.black;
  sorted = rep.sorted;
  no_null = rep.no_null;
}

-- The insertion adds no other node and keeps the sentinel.
pub inserted-Returns :
    (fuel : ℕ) (t : Rbtree) (u : Tree) (a : ℕ) (key value : Str)
    → Represents t u
    → height u < fuel
    → occurs (suc a) u ≡ 0
    → (suc a == t.nil) ≡ false
    → Returns (rbtree_insert fuel (fresh_node t (suc a) key value) (suc a)) (λ t'.
      (u' : Tree) × Represents t' u'
      × (entries u' ≡ insort key (Ptr.text value) (entries u))
      × (t'.nil ≡ t.nil)
      × ((b : ℕ) → occurs b u ≡ 0 → (suc a == b) ≡ false → occurs b u' ≡ 0))
inserted-Returns fuel t u a key value rep enough absent away =
    let t₁ = fresh_node t (suc a) key value in
    let c = new_cell t₁ (suc a) key in
    let stored : (t₁.heap (suc a))
        ≡ record (t.heap (suc a)) { key = Ptr.text key; value = Ptr.text value } =
      ap
        (λ b.
          if b
          then record (t.heap (suc a)) { key = Ptr.text key; value = Ptr.text value }
          else t.heap (suc a))
        (same_address (suc a)) in
    let (t₂, run, place) =
      rbtree_insert-insert_tree fuel t₁ (suc a) key u enough
        (write-Place t (suc a) _ u rep.place absent away) rep.black absent away
        (ap (λ n. n.key) stored) in
    let (balanced, black) = insert_tree-Balanced c u refl rep.balanced rep.black in
    let inserted : entries (insert_tree c u) ≡ insort key (Ptr.text value) (entries u) =
      insert_tree-entries c u rep.sorted
      ∙ ap (λ v. insort key v (entries u)) (ap (λ n. n.value) stored) in
    (
      t₂,
      run,
      (
        insert_tree c u,
        record {
          place = place;
          balanced = balanced;
          black = black;
          sorted =
              subst Sorted (sym inserted)
                (insort-Sorted key (Ptr.text value) (entries u) rep.sorted);
          no_null = insert_tree-occurs 0 c u rep.no_null (ground arith);
        },
        inserted,
        rbtree_insert-nil fuel t₁ (suc a) t₂ run,
        λ b none_there apart. insert_tree-occurs b c u none_there apart,
      ),
    )

-- On the nodes of a sorted red-black tree, with fuel for its height and a fresh node, a call ends and
-- leaves the nodes of a sorted red-black tree. It inserts the entry in the order of the keys and returns
-- 0, and with a key that is there leaves its value; where a copy cannot be allocated, it returns -2 and
-- the entries stay.
pub kvs_rbtree_set-insort :
    (fuel : ℕ) (t : Rbtree) (u : Tree) (a : ℕ) (key_copied value_copied : Bool) (key value : Str)
    → Represents t u
    → height u < fuel
    → occurs (suc a) u ≡ 0
    → (suc a == t.nil) ≡ false
    → Returns (kvs_rbtree_set fuel t (suc a) key_copied value_copied (some key) (some value)) (λ w.
      (w.1 ≡ (if key_copied && value_copied then pos 0 else minus 2))
      × ((u' : Tree) × Represents w.0 u'
          × (entries u' ≡ (
              if key_copied && value_copied
              then insort key (Ptr.text value) (entries u)
              else entries u))))
unfolding kvs_rbtree_set
kvs_rbtree_set-insort fuel t u a false value_copied key value rep enough absent away =
    (_, refl, (refl, (u, write-Represents t (suc a) _ u rep absent away, refl)))
kvs_rbtree_set-insort fuel t u a true false key value rep enough absent away =
    (_, refl, (refl, (u, write-Represents t (suc a) _ u rep absent away, refl)))
kvs_rbtree_set-insort fuel t u a true true key value rep enough absent away =
    let (t', run, (u', rep', inserted, same, others)) =
      inserted-Returns fuel t u a key value rep enough absent away in
    ((t', pos 0), rw (run, ◌>>=◌) refl, (refl, (u', rep', inserted)))

-- The height of a sorted red-black tree that nodes stand for, and so the rounds of a search, is at most
-- twice the black levels, and its nodes are at least as many as that many levels can hold.
pub Represents-height :
    (t : Rbtree) (u : Tree) → Represents t u → (m : ℕ) × (height u ≤ m + m) × (2 ^ m ≤ suc (size u))
Represents-height t u rep =
    let (m, b) = rep.balanced in
    (m, ground (arith, height-Balanced m u b, rep.black), size-Balanced m u b)
