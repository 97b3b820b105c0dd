-- ===== src/Rbtree/Rotate.antt =====
-- `rbtree_left_rotate` and `rbtree_right_rotate` of kvs_rbtree.c on the trees that the nodes stand for.
use kv_study.Prelude.{
  ℕ, ◌≡◌, refl, sym, ◌∙◌, ap, ◌⊎◌, inl, inr, true, false, ◌==◌, if◌then◌else◌, arith,
}
use mathlib.Core.Path.{subst}
use kv_study.Rbtree.{
  Side, left, right, other, child, rotate, set_left, set_right, set_parent, Node, Rbtree, take_left,
  take_right, promote_left, promote_right, rbtree_left_rotate, rbtree_right_rotate,
}

abbrev pub with_child : Side → ℕ → Node → Node
with_child left v n = record n { left = v }
with_child right v n = record n { right = v }

abbrev pub with_parent : ℕ → Node → Node
with_parent p n = record n { parent = p }

abbrev take : Side → Rbtree → (x y : ℕ) → Rbtree
take left t x y = take_left t x y
take right t x y = take_right t x y

abbrev promote : Side → Rbtree → (x y : ℕ) → Rbtree
promote left t x y = promote_left t x y
promote right t x y = promote_right t x y

-- The tree `b` below `y` goes to `x`.
record Taken (s : Side) (t t' : Rbtree) (x b : ℕ) : Type 0 where
  at_x : t'.heap x ≡ with_child (other s) b (t.heap x)
  at_b : (b == t.nil) ≡ false → t'.heap b ≡ with_parent x (t.heap b)
  root : t'.root ≡ t.root
  nil : t'.nil ≡ t.nil
  rest : (a : ℕ) → (a == x) ≡ false → (a == b) ≡ false → t'.heap a ≡ t.heap a
  rest_nil : (a : ℕ) → (a == x) ≡ false → (b == t.nil) ≡ true → t'.heap a ≡ t.heap a

take-Taken :
    (s : Side) (t : Rbtree) (x y b : ℕ)
    → child s (t.heap y) ≡ b
    → (y == x) ≡ false
    → (x == b) ≡ false
    → (b == x) ≡ false
    → Taken s t (take s t x y) x b
unfolding take_left take_right
take-Taken left t x y b eb yx xb bx = record {
  at_x = ground arith;
  at_b = ground arith;
  root = ground arith;
  nil = ground arith;
  rest = ground arith;
  rest_nil = ground arith;
}
take-Taken right t x y b eb yx xb bx = record {
  at_x = ground arith;
  at_b = ground arith;
  root = ground arith;
  nil = ground arith;
  rest = ground arith;
  rest_nil = ground arith;
}

-- `y` is below the parent `p` of `x`, where `x` was.
record Promoted (s : Side) (t t' : Rbtree) (x y p : ℕ) : Type 0 where
  at_y : t'.heap y ≡ with_parent p (t.heap y)
  at_p :
      (p == t.nil) ≡ false
      → t'.heap p ≡ with_child (if x == child s (t.heap p) then s else other s) y (t.heap p)
  root : t'.root ≡ (if p == t.nil then y else t.root)
  nil : t'.nil ≡ t.nil
  rest : (a : ℕ) → (a == y) ≡ false → (a == p) ≡ false → t'.heap a ≡ t.heap a
  rest_nil : (a : ℕ) → (a == y) ≡ false → (p == t.nil) ≡ true → t'.heap a ≡ t.heap a

promote-Promoted :
    (s : Side) (t : Rbtree) (x y p : ℕ)
    → (t.heap x).parent ≡ p
    → (x == y) ≡ false
    → (y == p) ≡ false
    → (p == y) ≡ false
    → Promoted s t (promote s t x y) x y p
unfolding promote_left promote_right
promote-Promoted left t x y p ep xy yp py = record {
  at_y = ground arith;
  at_p = ground arith;
  root = ground arith;
  nil = ground arith;
  rest = ground arith;
  rest_nil = ground arith;
}
promote-Promoted right t x y p ep xy yp py = record {
  at_y = ground arith;
  at_p = ground arith;
  root = ground arith;
  nil = ground arith;
  rest = ground arith;
  rest_nil = ground arith;
}

-- The nodes after a rotation at `x`: `y` is the child that rises, `b` the tree between them, `p` the
-- parent.
pub record Rotated (s : Side) (t t' : Rbtree) (x y b p : ℕ) : Type 0 where
  pub at_x : t'.heap x ≡ with_parent y (with_child (other s) b (t.heap x))
  pub at_y : t'.heap y ≡ with_child s x (with_parent p (t.heap y))
  pub at_b : (b == t.nil) ≡ false → t'.heap b ≡ with_parent x (t.heap b)
  pub at_p :
      (p == t.nil) ≡ false
      → t'.heap p ≡ with_child (if x == child s (t.heap p) then s else other s) y (t.heap p)
  pub root : t'.root ≡ (if p == t.nil then y else t.root)
  pub nil : t'.nil ≡ t.nil
  pub rest :
      (a : ℕ)
      → (a == x) ≡ false
      → (a == y) ≡ false
      → ((b == t.nil) ≡ true) ⊎ ((a == b) ≡ false)
      → ((p == t.nil) ≡ true) ⊎ ((a == p) ≡ false)
      → t'.heap a ≡ t.heap a

-- `y->left = x; x->parent = y;`
abbrev link : Side → ℕ → ℕ → Rbtree → Rbtree
link left x y t = set_parent x y (set_left y x t)
link right x y t = set_parent x y (set_right y x t)

link-reads :
    (s : Side) (t : Rbtree) (x y : ℕ)
    → (x == y) ≡ false
    → (y == x) ≡ false
    → ((link s x y t).heap x ≡ with_parent y (t.heap x))
      × ((link s x y t).heap y ≡ with_child s x (t.heap y))
      × ((link s x y t).root ≡ t.root)
      × ((link s x y t).nil ≡ t.nil)
      × ((a : ℕ) → (a == x) ≡ false → (a == y) ≡ false → (link s x y t).heap a ≡ t.heap a)
unfolding set_left set_right set_parent
link-reads left t x y xy yx = (ground arith, ground arith, refl, refl, ground arith)
link-reads right t x y xy yx = (ground arith, ground arith, refl, refl, ground arith)

linked-Rotated :
    (s : Side) (t t₁ t₂ : Rbtree) (x y b p : ℕ)
    → (x == y) ≡ false
    → (y == x) ≡ false
    → (x == b) ≡ false
    → (b == x) ≡ false
    → (b == y) ≡ false
    → (y == b) ≡ false
    → (p == x) ≡ false
    → (p == y) ≡ false
    → (x == p) ≡ false
    → ((b == t.nil) ≡ true) ⊎ ((p == b) ≡ false)
    → Taken s t t₁ x b
    → Promoted s t₁ t₂ x y p
    → Rotated s t (link s x y t₂) x y b p
linked-Rotated s t t₁ t₂ x y b p xy yx xb bx by yb px py xp pb k m =
    let (lx, ly, lr, ln, la) = link-reads s t₂ x y xy yx in
    record {
      at_x = lx ∙ ap (with_parent y) (m.rest x xy xp ∙ k.at_x);
      at_y = ly ∙ ap (with_child s x) (m.at_y ∙ ap (with_parent p) (k.rest y yx yb));
      at_b = λ h. la b bx by ∙ m.rest b by (ground (arith, pb)) ∙ k.at_b h;
      at_p = λ h.
          la p px py
          ∙ m.at_p (rw k.nil h)
          ∙ ap (λ n. with_child (if x == child s n then s else other s) y n)
              (before_promotion p px pb);
      root = lr ∙ m.root ∙ λ i. if p == k.nil i then y else k.root i;
      nil = ln ∙ m.nil ∙ k.nil;
      rest = λ a ax ay ab ap'. la a ax ay ∙ promotion a ay ap' ∙ before_promotion a ax ab;
    }
  where
    before_promotion :
        (a : ℕ)
        → (a == x) ≡ false
        → ((b == t.nil) ≡ true) ⊎ ((a == b) ≡ false)
        → t₁.heap a ≡ t.heap a
    before_promotion a ax (inl bn) = k.rest_nil a ax bn
    before_promotion a ax (inr ab) = k.rest a ax ab

    promotion :
        (a : ℕ)
        → (a == y) ≡ false
        → ((p == t.nil) ≡ true) ⊎ ((a == p) ≡ false)
        → t₂.heap a ≡ t₁.heap a
    promotion a ay (inl pn) = m.rest_nil a ay (rw k.nil pn)
    promotion a ay (inr ap') = m.rest a ay ap'

child-reparent : (s : Side) (b : ℕ) (n : Node) → (with_child s b n).parent ≡ n.parent
child-reparent left b n = refl
child-reparent right b n = refl

rotate-staged :
    (s : Side) (t : Rbtree) (x y : ℕ)
    → child (other s) (t.heap x) ≡ y
    → link s x y (promote s (take s t x y) x y) ≡ rotate s t x
unfolding rbtree_left_rotate rbtree_right_rotate
rotate-staged left t x y e = sym (ap (λ z. link left x z (promote left (take left t x z) x z)) e)
rotate-staged right t x y e =
    sym (ap (λ z. link right x z (promote right (take right t x z) x z)) e)

pub rotate-Rotated :
    (s : Side) (t : Rbtree) (x y b p : ℕ)
    → child (other s) (t.heap x) ≡ y
    → child s (t.heap y) ≡ b
    → (t.heap x).parent ≡ p
    → (x == y) ≡ false
    → (y == x) ≡ false
    → (x == b) ≡ false
    → (b == x) ≡ false
    → (b == y) ≡ false
    → (y == b) ≡ false
    → (p == x) ≡ false
    → (p == y) ≡ false
    → (x == p) ≡ false
    → (y == p) ≡ false
    → ((b == t.nil) ≡ true) ⊎ ((p == b) ≡ false)
    → Rotated s t (rotate s t x) x y b p
rotate-Rotated s t x y b p ey eb ep xy yx xb bx by yb px py xp yp pb =
    subst (λ z. Rotated s t z x y b p) (rotate-staged s t x y ey)
      (linked-Rotated s t (take s t x y) (promote s (take s t x y) x y) x y b p xy yx xb bx by yb px
        py xp pb taken
        (promote-Promoted s (take s t x y) x y p
          (ap (λ n. n.parent) taken.at_x ∙ child-reparent (other s) b (t.heap x) ∙ ep) xy yp py))
  where
    taken : Taken s t (take s t x y) x b
    taken = take-Taken s t x y b eb yx xb bx
