-- ===== src/Rbtree/Shape.antt =====
-- What the nodes of kvs_rbtree.c stand for: a binary tree, or a tree with a place in it. A place is the
-- tree below it and the path to the root, since the parent pointers lead along that path.
use kv_study.Prelude.{
  ℕ, ◌+◌, ◌≤◌, ◌≡◌, ◌≢◌, refl, ◌∙◌, ◌⊎◌, inl, inr, true, false, ◌==◌, if◌then◌else◌, List, [], ◌∷◌,
  Ptr, Str, arith,
}
use kv_study.Rbtree.{Side, left, right, other, child, Color, Node, Rbtree}

-- A node without its links.
pub record Cell : Type 0 where
  pub addr : ℕ
  pub color : Color
  pub key : Str
  pub value : Ptr

pub data Tree : Type 0 where
  leaf : Tree
  node : Cell → Tree → Tree → Tree

-- The node whose child at the side is `near`.
abbrev pub branch : Side → Cell → Tree → Tree → Tree
branch left c near far = node c near far
branch right c near far = node c far near

-- A step down to the side of a cell, with the tree at its other side.
pub record Step : Type 0 where
  pub side : Side
  pub cell : Cell
  pub sibling : Tree

abbrev pub Trail : Type 0
Trail = List Step

-- The whole tree.
abbrev pub plug : Trail → Tree → Tree
plug [] u = u
plug (s ∷ path) u = plug path (branch s.side s.cell u s.sibling)

abbrev pub address : ℕ → Tree → ℕ
address nil leaf = nil
address nil (node c l r) = c.addr

-- The node of a cell, from its parent and the children at a side and at the other.
abbrev pub node_at : Side → Cell → (parent near far : ℕ) → Node
node_at left c p near far = record {
  color = c.color;
  right = far;
  left = near;
  parent = p;
  key = Ptr.text c.key;
  value = c.value;
}
node_at right c p near far = record {
  color = c.color;
  right = near;
  left = far;
  parent = p;
  key = Ptr.text c.key;
  value = c.value;
}

-- How often an address occurs.
unfoldable pub occurs : ℕ → Tree → ℕ
occurs a leaf = 0
occurs a (node c l r) = (if c.addr == a then 1 else 0) + (occurs a l + occurs a r)

unfoldable pub occurs_path : ℕ → Trail → ℕ
occurs_path a [] = 0
occurs_path a (s ∷ path) =
    (if s.cell.addr == a then 1 else 0) + (occurs a s.sibling + occurs_path a path)

-- The nodes below a place with the parent `p` are the tree.
abbrev pub Below : Rbtree → ℕ → Tree → Type 0
Below t p leaf = Unit
Below t p (node c l r) =
    (t.heap c.addr ≡ node_at left c p (address t.nil l) (address t.nil r))
    × Below t c.addr l
    × Below t c.addr r

abbrev pub parent_of : ℕ → Trail → ℕ
parent_of nil [] = nil
parent_of nil (s ∷ path) = s.cell.addr

-- The nodes above the place at `a` are the path.
abbrev pub Above : Rbtree → Trail → ℕ → Type 0
Above t [] a = t.root ≡ a
Above t (s ∷ path) a =
    (t.heap s.cell.addr ≡ node_at s.side s.cell (parent_of t.nil path) a (address t.nil s.sibling))
    × Below t s.cell.addr s.sibling
    × Above t path s.cell.addr

-- No two nodes have one address, and none has that of the sentinel, which is black.
pub record Place (t : Rbtree) (path : Trail) (u : Tree) : Type 0 where
  pub above : Above t path (address t.nil u)
  pub below : Below t (parent_of t.nil path) u
  pub once : (a : ℕ) → occurs a u + occurs_path a path ≤ 1
  pub no_nil : occurs t.nil u + occurs_path t.nil path ≡ 0
  pub nil_black : (t.heap t.nil).color ≡ Color.black

-- A tree whose nodes are not written stays as it is.
pub Below-frame :
    (t t' : Rbtree) (p : ℕ) (u : Tree)
    → t'.nil ≡ t.nil
    → ((a : ℕ) → (t'.heap a ≡ t.heap a) ⊎ (occurs a u ≡ 0))
    → Below t p u
    → Below t' p u
unfolding occurs
Below-frame t t' p leaf n same b = tt
Below-frame t t' p (node c l r) n same b = (
  here (same c.addr),
  Below-frame t t' c.addr l n (λ a. ground (arith, same a)) b.1,
  Below-frame t t' c.addr r n (λ a. ground (arith, same a)) b.2,
)
  where
    here :
        (t'.heap c.addr ≡ t.heap c.addr) ⊎ (occurs c.addr (node c l r) ≡ 0)
        → t'.heap c.addr ≡ node_at left c p (address t'.nil l) (address t'.nil r)
    here (inl e) = rw n (rw e b.0)
    here (inr o) = absurd (ground arith)

pub Above-frame :
    (t t' : Rbtree) (path : Trail) (a : ℕ)
    → t'.nil ≡ t.nil
    → t'.root ≡ t.root
    → ((b : ℕ) → (t'.heap b ≡ t.heap b) ⊎ (occurs_path b path ≡ 0))
    → Above t path a
    → Above t' path a
unfolding occurs occurs_path
Above-frame t t' [] a n r same b = rw r b
Above-frame t t' (s ∷ path) a n r same b = (
  here (same s.cell.addr),
  Below-frame t t' s.cell.addr s.sibling n (λ x. ground (arith, same x)) b.1,
  Above-frame t t' path s.cell.addr n r (λ x. ground (arith, same x)) b.2,
)
  where
    here :
        (t'.heap s.cell.addr ≡ t.heap s.cell.addr) ⊎ (occurs_path s.cell.addr (s ∷ path) ≡ 0)
        → t'.heap s.cell.addr
          ≡ node_at s.side s.cell (parent_of t'.nil path) a (address t'.nil s.sibling)
    here (inl e) = rw n (rw e b.0)
    here (inr o) = absurd (ground arith)

pub Below-branch :
    (s : Side) (t : Rbtree) (p : ℕ) (c : Cell) (u v : Tree)
    → Below t p (branch s c u v)
    → (t.heap c.addr ≡ node_at s c p (address t.nil u) (address t.nil v))
      × Below t c.addr u
      × Below t c.addr v
Below-branch left t p c u v b = b
Below-branch right t p c u v b = (b.0, b.2, b.1)

pub branch-Below :
    (s : Side) (t : Rbtree) (p : ℕ) (c : Cell) (u v : Tree)
    → t.heap c.addr ≡ node_at s c p (address t.nil u) (address t.nil v)
    → Below t c.addr u
    → Below t c.addr v
    → Below t p (branch s c u v)
branch-Below left t p c u v e bu bv = (e, bu, bv)
branch-Below right t p c u v e bu bv = (e, bv, bu)

pub address-branch :
    (s : Side) (nil : ℕ) (c : Cell) (u v : Tree) → address nil (branch s c u v) ≡ c.addr
address-branch left nil c u v = refl
address-branch right nil c u v = refl

pub occurs-branch :
    (s : Side) (a : ℕ) (c : Cell) (u v : Tree)
    → occurs a (branch s c u v) ≡ (if c.addr == a then 1 else 0) + (occurs a u + occurs a v)
unfolding occurs
occurs-branch left a c u v = refl
occurs-branch right a c u v = omega arith

-- An address that is neither that of a node nor the sentinel's.
pub address-differs :
    (nil a : ℕ) (u : Tree) → occurs a u ≡ 0 → a ≢ nil → (address nil u == a) ≡ false
unfolding occurs
address-differs nil a leaf none_there away = ground arith
address-differs nil a (node c l r) none_there away = ground arith

pub parent_of-differs :
    (nil a : ℕ) (path : Trail)
    → occurs_path a path ≡ 0
    → a ≢ nil
    → (parent_of nil path == a) ≡ false
unfolding occurs_path
parent_of-differs nil a [] none_there away = ground arith
parent_of-differs nil a (s ∷ path) none_there away = ground arith

-- A tree that is hung up below another parent.
pub Below-reparent :
    (t t' : Rbtree) (p q : ℕ) (u : Tree)
    → t'.nil ≡ t.nil
    → ((address t.nil u == t.nil) ≡ false
        → t'.heap (address t.nil u) ≡ record (t.heap (address t.nil u)) { parent = q })
    → occurs t.nil u ≡ 0
    → ((a : ℕ) → occurs a u ≤ 1)
    → ((a : ℕ) → (t'.heap a ≡ t.heap a) ⊎ ((occurs a u ≡ 0) ⊎ (a ≡ address t.nil u)))
    → Below t p u
    → Below t' q u
unfolding occurs
Below-reparent t t' p q leaf n moved no_nil once same b = tt
Below-reparent t t' p q (node c l r) n moved no_nil once same b =
    let here : (c.addr == t.nil) ≡ false = ground arith in
    (
      moved here ∙ rw (n, b.0) refl,
      Below-frame t t' c.addr l n (λ a. ground (arith, same a, once a)) b.1,
      Below-frame t t' c.addr r n (λ a. ground (arith, same a, once a)) b.2,
    )

pub child_far :
    (s : Side) (c : Cell) (p near far : ℕ) → child (other s) (node_at s c p near far) ≡ far
child_far left c p near far = refl
child_far right c p near far = refl

pub child_near : (s : Side) (c : Cell) (p near far : ℕ) → child s (node_at s c p near far) ≡ near
child_near left c p near far = refl
child_near right c p near far = refl

pub parent-node_at : (s : Side) (c : Cell) (p near far : ℕ) → (node_at s c p near far).parent ≡ p
parent-node_at left c p near far = refl
parent-node_at right c p near far = refl

pub color-node_at :
    (s : Side) (c : Cell) (p near far : ℕ) → (node_at s c p near far).color ≡ c.color
color-node_at left c p near far = refl
color-node_at right c p near far = refl

pub key-node_at :
    (s : Side) (c : Cell) (p near far : ℕ) → (node_at s c p near far).key ≡ Ptr.text c.key
key-node_at left c p near far = refl
key-node_at right c p near far = refl

pub same_address : (a : ℕ) → (a == a) ≡ true
same_address a = ground arith
