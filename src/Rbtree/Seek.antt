-- ===== src/Rbtree/Seek.antt =====
-- The way down from the root of kvs_rbtree.c's tree to a key, or to where it would be.
use Prim.Native.Nat.{max, Ordering}
use kv_study.Prelude.{
  ℕ, zero, suc, ◌<◌, ◌≡◌, refl, sym, ◌∙◌, ap, inl, inr, false, ◌==◌, Option, none, some, [], ◌∷◌,
  Ptr, Str, strcmp, order-cases, ok, arith,
}
use mathlib.Core.Path.{subst}
use kv_study.Rbtree.{Side, left, right, Rbtree, compare_keys}
use kv_study.Rbtree.Shape.{Cell, Tree, leaf, node, Trail, plug, address, occurs, parent_of, Place}
use kv_study.Rbtree.Focus.{Place-down}
use kv_study.Rbtree.Insert.{descend}
use kv_study.Rbtree.Calls.{search_from}

unfoldable pub seek : Str → Tree → Trail → Trail × Tree
seek k leaf path = (path, leaf)
seek k (node c l r) path =
    let to_left = seek k l (record { side = left; cell = c; sibling = r } ∷ path) in
    let to_right = seek k r (record { side = right; cell = c; sibling = l } ∷ path) in
    elim (strcmp k c.key) [
      | Ordering.lt ↦ to_left
      | Ordering.gt ↦ to_right
      | Ordering.eq ↦ (path, node c l r)
    ]

abbrev pub height : Tree → ℕ
height leaf = 0
height (node c l r) = suc (max (height l) (height r))

abbrev pub direction : Side → Ordering
direction left = Ordering.lt
direction right = Ordering.gt

-- The key leads along the path.
abbrev pub Follows : Str → Trail → Type 0
Follows k [] = Unit
Follows k (s ∷ path) = (strcmp k s.cell.key ≡ direction s.side) × Follows k path

module _ (k : Str) (c : Cell) (l r : Tree) (path : Trail) where
  pub seek-lt :
      strcmp k c.key ≡ Ordering.lt
      → seek k (node c l r) path ≡ seek k l (record { side = left; cell = c; sibling = r } ∷ path)
  unfolding seek
  seek-lt e = rw (e, seek) refl

  pub seek-eq : strcmp k c.key ≡ Ordering.eq → seek k (node c l r) path ≡ (path, node c l r)
  unfolding seek
  seek-eq e = rw (e, seek) refl

  pub seek-gt :
      strcmp k c.key ≡ Ordering.gt
      → seek k (node c l r) path ≡ seek k r (record { side = right; cell = c; sibling = l } ∷ path)
  unfolding seek
  seek-gt e = rw (e, seek) refl

-- What a step down keeps and the place found needs, by induction on the tree.
pub seek-induction {ℓ} :
    (k : Str) (P : Trail → Tree → Type ℓ)
    → ((c : Cell) (l r : Tree) (path : Trail)
        → strcmp k c.key ≡ Ordering.lt
        → P path (node c l r)
        → P (record { side = left; cell = c; sibling = r } ∷ path) l)
    → ((c : Cell) (l r : Tree) (path : Trail)
        → strcmp k c.key ≡ Ordering.gt
        → P path (node c l r)
        → P (record { side = right; cell = c; sibling = l } ∷ path) r)
    → (u : Tree) (path : Trail) → P path u
    → P (seek k u path).0 (seek k u path).1
unfolding seek
seek-induction k P go_left go_right leaf path p = p
seek-induction k P go_left go_right (node c l r) path p = elim (order-cases (strcmp k c.key)) [
  | inl e ↦
      subst (λ w. P w.0 w.1) (sym (seek-lt k c l r path e))
        (seek-induction k P go_left go_right l _ (go_left c l r path e p))
  | inr (inl e) ↦ subst (λ w. P w.0 w.1) (sym (seek-eq k c l r path e)) p
  | inr (inr e) ↦
      subst (λ w. P w.0 w.1) (sym (seek-gt k c l r path e))
        (seek-induction k P go_left go_right r _ (go_right c l r path e p))
]

pub seek-Place :
    (t : Rbtree) (k : Str) (u : Tree) (path : Trail)
    → Place t path u
    → Place t (seek k u path).0 (seek k u path).1
seek-Place t k u path p =
    seek-induction k (Place t) (λ c l r path e. Place-down t left c r path l)
      (λ c l r path e. Place-down t right c l path r) u path p

pub seek-Follows :
    (k : Str) (u : Tree) (path : Trail) → Follows k path → Follows k (seek k u path).0
seek-Follows k u path f =
    seek-induction k (λ path u. Follows k path) (λ c l r path e f. (e, f))
      (λ c l r path e f. (e, f)) u path f

pub seek-plug :
    (k : Str) (u : Tree) (path : Trail) → plug (seek k u path).0 (seek k u path).1 ≡ plug path u
seek-plug k u path =
    seek-induction k (λ path' u'. plug path' u' ≡ plug path u) (λ c l r path' e same. same)
      (λ c l r path' e same. same) u path refl

-- Where the loop of `rbtree_insert` ends.
abbrev pub hook : ℕ → Trail × Tree → Option ℕ
hook nil (path, leaf) = some (parent_of nil path)
hook nil (path, node c l r) = none

-- What a step down reads: the key and the children, and the node is not the sentinel.
record Reads (t : Rbtree) (c : Cell) (l r : Tree) : Type 0 where
  key : (t.heap c.addr).key ≡ Ptr.text c.key
  left_child : (t.heap c.addr).left ≡ address t.nil l
  right_child : (t.heap c.addr).right ≡ address t.nil r
  away : (c.addr == t.nil) ≡ false

Place-Reads :
    (t : Rbtree) (path : Trail) (c : Cell) (l r : Tree) → Place t path (node c l r) → Reads t c l r
unfolding occurs
Place-Reads t path c l r p = record {
  key = ap (λ n. n.key) p.below.0;
  left_child = ap (λ n. n.left) p.below.0;
  right_child = ap (λ n. n.right) p.below.0;
  away = ground (arith, p.no_nil);
}

descend-step :
    (fuel : ℕ) (t : Rbtree) (z y : ℕ) (k : Str) (c : Cell) (l r : Tree)
    → (t.heap z).key ≡ Ptr.text k
    → Reads t c l r
    → (strcmp k c.key ≡ Ordering.lt
        → descend (suc fuel) t z y c.addr ≡ descend fuel t z c.addr (address t.nil l))
      × (strcmp k c.key ≡ Ordering.gt
          → descend (suc fuel) t z y c.addr ≡ descend fuel t z c.addr (address t.nil r))
      × (strcmp k c.key ≡ Ordering.eq → descend (suc fuel) t z y c.addr ≡ ok none)
unfolding descend compare_keys
descend-step fuel t z y k c l r key m = (
  λ e. rw (m.away, key, m.key, e) (ap (descend fuel t z c.addr) m.left_child),
  λ e. rw (m.away, key, m.key, e) (ap (descend fuel t z c.addr) m.right_child),
  λ e. rw (m.away, key, m.key, e) refl,
)

search-step :
    (fuel : ℕ) (t : Rbtree) (k : Str) (c : Cell) (l r : Tree)
    → Reads t c l r
    → (strcmp k c.key ≡ Ordering.lt
        → search_from (suc fuel) t k c.addr ≡ search_from fuel t k (address t.nil l))
      × (strcmp k c.key ≡ Ordering.gt
          → search_from (suc fuel) t k c.addr ≡ search_from fuel t k (address t.nil r))
      × (strcmp k c.key ≡ Ordering.eq → search_from (suc fuel) t k c.addr ≡ ok c.addr)
unfolding search_from compare_keys
search-step fuel t k c l r m = (
  λ e. rw (m.away, m.key, e) (ap (search_from fuel t k) m.left_child),
  λ e. rw (m.away, m.key, e) (ap (search_from fuel t k) m.right_child),
  λ e. rw (m.away, m.key, e) refl,
)

pub descend-seek :
    (fuel : ℕ) (t : Rbtree) (z : ℕ) (k : Str) (path : Trail) (u : Tree)
    → height u < fuel
    → (t.heap z).key ≡ Ptr.text k
    → Place t path u
    → descend fuel t z (parent_of t.nil path) (address t.nil u) ≡ ok (hook t.nil (seek k u path))
unfolding descend seek
descend-seek zero t z k path u enough key p = absurd (ground arith)
descend-seek (suc fuel) t z k path leaf enough key p = ground arith
descend-seek (suc fuel) t z k path (node c l r) enough key p =
    let (below, above, same) =
      descend-step fuel t z (parent_of t.nil path) k c l r key (Place-Reads t path c l r p) in
    elim (order-cases (strcmp k c.key)) [
      | inl e ↦
          below e
          ∙ descend-seek fuel t z k _ l (ground (arith, enough)) key
              (Place-down t left c r path l p)
          ∙ ap (λ w. ok (hook t.nil w)) (sym (seek-lt k c l r path e))
      | inr (inl e) ↦ same e ∙ ap (λ w. ok (hook t.nil w)) (sym (seek-eq k c l r path e))
      | inr (inr e) ↦
          above e
          ∙ descend-seek fuel t z k _ r (ground (arith, enough)) key
              (Place-down t right c l path r p)
          ∙ ap (λ w. ok (hook t.nil w)) (sym (seek-gt k c l r path e))
    ]

-- `rbtree_search` from a node that has a place.
pub search-seek :
    (fuel : ℕ) (t : Rbtree) (k : Str) (path : Trail) (u : Tree)
    → height u < fuel
    → Place t path u
    → search_from fuel t k (address t.nil u) ≡ ok (address t.nil (seek k u path).1)
unfolding search_from seek
search-seek zero t k path u enough p = absurd (ground arith)
search-seek (suc fuel) t k path leaf enough p = ground arith
search-seek (suc fuel) t k path (node c l r) enough p =
    let (below, above, same) = search-step fuel t k c l r (Place-Reads t path c l r p) in
    elim (order-cases (strcmp k c.key)) [
      | inl e ↦
          below e
          ∙ search-seek fuel t k _ l (ground (arith, enough)) (Place-down t left c r path l p)
          ∙ ap (λ w. ok (address t.nil w.1)) (sym (seek-lt k c l r path e))
      | inr (inl e) ↦ same e ∙ ap (λ w. ok (address t.nil w.1)) (sym (seek-eq k c l r path e))
      | inr (inr e) ↦
          above e
          ∙ search-seek fuel t k _ r (ground (arith, enough)) (Place-down t right c l path r p)
          ∙ ap (λ w. ok (address t.nil w.1)) (sym (seek-gt k c l r path e))
    ]
