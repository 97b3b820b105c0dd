-- ===== src/Rbtree/Balanced.antt =====
-- The colors of the tree of kvs_rbtree.c: no red node below a red one, and as many black nodes on every
-- way down, which insertion keeps.
use kv_study.Prelude.{
  ℕ, ◌+◌, ◌≡◌, refl, sym, ◌∙◌, ap, inl, inr, Bool, true, false, Bool-cases, [], ◌∷◌, Str, arith,
}
use mathlib.Core.Path.{subst}
use kv_study.Rbtree.{Side, left, right, other, is_red, Color}
use kv_study.Rbtree.Shape.{Cell, Tree, leaf, node, branch, Step, Trail, plug}
use kv_study.Rbtree.Focus.{painted}
use kv_study.Rbtree.Seek.{seek, seek-induction}
use kv_study.Rbtree.Insert.Balance.{
  blacken, red_root, near, same_side, outer, inner, lifted, recolored, balance,
}
use kv_study.Rbtree.Insert.Cases.{parent_red}
use kv_study.Rbtree.Insert.Loop.{Rooted, Rooted-drop}

abbrev pub weight : Color → ℕ
weight Color.red = 0
weight Color.black = 1

-- As many black nodes on every way down, `n`, and no red child of a red node.
abbrev pub Balanced : ℕ → Tree → Type 0
Balanced n leaf = n ≡ 0
Balanced n (node c l r) =
    (m : ℕ) × (n ≡ m + weight c.color)
    × Balanced m l
    × Balanced m r
    × (is_red c.color ≡ true → (red_root l ≡ false) × (red_root r ≡ false))

-- A path around a tree of `n` black levels.
abbrev pub BalancedPath : ℕ → Trail → Type 0
BalancedPath n [] = Unit
BalancedPath n (s ∷ path) =
    Balanced n s.sibling
    × (is_red s.cell.color ≡ true → (red_root s.sibling ≡ false) × (parent_red path ≡ false))
    × BalancedPath (n + weight s.cell.color) path

branch-Balanced :
    (d : Side) (n m : ℕ) (c : Cell) (u v : Tree)
    → n ≡ m + weight c.color
    → Balanced m u
    → Balanced m v
    → (is_red c.color ≡ true → (red_root u ≡ false) × (red_root v ≡ false))
    → Balanced n (branch d c u v)
branch-Balanced left n m c u v e bu bv red = (m, e, bu, bv, red)
branch-Balanced right n m c u v e bu bv red = (m, e, bv, bu, λ h. ((red h).1, (red h).0))

red_root-branch : (d : Side) (c : Cell) (u v : Tree) → red_root (branch d c u v) ≡ is_red c.color
red_root-branch left c u v = refl
red_root-branch right c u v = refl

apart : (a b : Bool) → (a ≡ true → b ≡ false) → b ≡ true → a ≡ false
apart a b f e = ground arith

plug-Balanced :
    (path : Trail) (n : ℕ) (u : Tree)
    → BalancedPath n path
    → Balanced n u
    → (parent_red path ≡ true → red_root u ≡ false)
    → (m : ℕ) × Balanced m (plug path u)
plug-Balanced [] n u bp bu red = (n, bu)
plug-Balanced (s ∷ path) n u (bs, near_red, bp) bu red =
    plug-Balanced path (n + weight s.cell.color) (branch s.side s.cell u s.sibling) bp
      (branch-Balanced s.side _ n s.cell u s.sibling refl bu bs (λ h. (red h, (near_red h).0)))
      (λ h.
        red_root-branch s.side s.cell u s.sibling
        ∙ apart (is_red s.cell.color) (parent_red path) (λ e. (near_red e).1) h)

blacken-Balanced : (n : ℕ) (u : Tree) → Balanced n u → (m : ℕ) × Balanced m (blacken u)
blacken-Balanced n leaf b = (n, b)
blacken-Balanced n (node c l r) (m, e, bl, br, red) =
    (m + 1, (m, refl, bl, br, λ h. absurd (ground (arith, h))))

red_root-blacken : (u : Tree) → red_root (blacken u) ≡ false
red_root-blacken leaf = refl
red_root-blacken (node c l r) = refl

-- A red node whose subtrees stand at a side and at the other.
red-Balanced :
    (d : Side) (n : ℕ) (c : Cell) (u v : Tree)
    → Balanced n u
    → Balanced n v
    → red_root u ≡ false
    → red_root v ≡ false
    → Balanced n (branch d (painted Color.red c) u v)
red-Balanced d n c u v bu bv ru rv = branch-Balanced d n n _ u v (omega arith) bu bv (λ h. (ru, rv))

black-Balanced :
    (d : Side) (n : ℕ) (c : Cell) (u v : Tree)
    → Balanced n u
    → Balanced n v
    → Balanced (n + 1) (branch d (painted Color.black c) u v)
black-Balanced d n c u v bu bv =
    branch-Balanced d _ n _ u v refl bu bv (λ h. absurd (ground (arith, h)))

red_weight : (k : Color) (m : ℕ) → is_red k ≡ true → m + weight k ≡ m
red_weight Color.red m e = omega arith
red_weight Color.black m e = absurd (ground (arith, e))

blacken_red-Balanced :
    (n : ℕ) (u : Tree) → Balanced n u → red_root u ≡ true → Balanced (n + 1) (blacken u)
blacken_red-Balanced n leaf b red = absurd (ground (arith, red))
blacken_red-Balanced n (node c l r) (m, e, bl, br, h) red =
    (m, ap (λ k. k + 1) (e ∙ red_weight c.color m red), bl, br, λ h. absurd (ground (arith, h)))

outer-Balanced :
    (d : Side) (n : ℕ) (c g : Cell) (u sib unc : Tree)
    → Balanced n u
    → Balanced n sib
    → Balanced n unc
    → red_root sib ≡ false
    → red_root unc ≡ false
    → Balanced (n + 1) (outer d c g u sib unc)
outer-Balanced d n c g u sib unc bu bs bn rs rn =
    black-Balanced d n c u _ bu (red-Balanced d n g sib unc bs bn rs rn)

red_children-Balanced :
    (n : ℕ) (c : Cell) (l r : Tree)
    → Balanced n (node c l r)
    → is_red c.color ≡ true
    → Balanced n l × Balanced n r × (red_root l ≡ false) × (red_root r ≡ false)
red_children-Balanced n c l r (m, e, bl, br, h) red =
    let same : m ≡ n = sym (e ∙ red_weight c.color m red) in
    (subst (λ k. Balanced k l) same bl, subst (λ k. Balanced k r) same br, (h red).0, (h red).1)

near-Balanced :
    (d : Side) (n : ℕ) (c : Cell) (l r : Tree)
    → Balanced n (node c l r)
    → is_red c.color ≡ true
    → Balanced n (near d l r) × (red_root (near d l r) ≡ false)
near-Balanced left n c l r b red =
    let (bl, br, rl, rr) = red_children-Balanced n c l r b red in (bl, rl)
near-Balanced right n c l r b red =
    let (bl, br, rl, rr) = red_children-Balanced n c l r b red in (br, rr)

inner-Balanced :
    (d : Side) (n : ℕ) (c g : Cell) (u sib unc : Tree)
    → Balanced n u
    → red_root u ≡ true
    → is_red c.color ≡ true
    → Balanced n sib
    → Balanced n unc
    → red_root sib ≡ false
    → red_root unc ≡ false
    → Balanced (n + 1) (inner d c g u sib unc) × (red_root (inner d c g u sib unc) ≡ false)
inner-Balanced d n c g leaf sib unc bu ru rc bs bn rs rn = absurd (ground (arith, ru))
inner-Balanced d n c g (node cz l r) sib unc bu ru rc bs bn rs rn =
    let (b_near, r_near) = near-Balanced d n cz l r bu ru in
    let (b_far, r_far) = near-Balanced (other d) n cz l r bu ru in
    (
      outer-Balanced d n cz g (branch d c sib (near d l r)) (near (other d) l r) unc
          (branch-Balanced d n n c sib (near d l r) (sym (red_weight c.color n rc)) bs b_near
            (λ h. (rs, r_near)))
          b_far bn r_far rn,
      red_root-branch d (painted Color.black cz) _ _,
    )

lifted-Balanced :
    (n : ℕ) (s q : Step) (u : Tree)
    → Balanced n u
    → red_root u ≡ true
    → is_red s.cell.color ≡ true
    → Balanced n s.sibling
    → Balanced n q.sibling
    → red_root s.sibling ≡ false
    → red_root q.sibling ≡ false
    → Balanced (n + 1) (lifted s q u) × (red_root (lifted s q u) ≡ false)
lifted-Balanced n s q u bu ru rc bs bn rs rn = elim (Bool-cases (same_side s.side q.side)) [
  | inl e ↦ rw e (
    outer-Balanced q.side n s.cell q.cell u s.sibling q.sibling bu bs bn rs rn,
    red_root-branch q.side (painted Color.black s.cell) _ _,
  )
  | inr e ↦ rw e (inner-Balanced q.side n s.cell q.cell u s.sibling q.sibling bu ru rc bs bn rs rn)
]

recolored-Balanced :
    (n : ℕ) (s q : Step) (u : Tree)
    → Balanced n u
    → Balanced n s.sibling
    → Balanced n q.sibling
    → red_root q.sibling ≡ true
    → Balanced (n + 1) (recolored s q u)
recolored-Balanced n s q u bu bs bn rn =
    red-Balanced q.side (n + 1) q.cell _ (blacken q.sibling)
      (black-Balanced s.side n s.cell u s.sibling bu bs) (blacken_red-Balanced n q.sibling bn rn)
      (red_root-branch s.side (painted Color.black s.cell) u s.sibling) (red_root-blacken q.sibling)

black_weight : (k : Color) (m : ℕ) → is_red k ≡ false → m + weight k ≡ m + 1
black_weight Color.red m e = absurd (ground (arith, e))
black_weight Color.black m e = refl

plug_black-Balanced :
    (path : Trail) (n : ℕ) (u : Tree)
    → BalancedPath n path
    → Balanced n u
    → (parent_red path ≡ true → red_root u ≡ false)
    → ((m : ℕ) × Balanced m (blacken (plug path u))) × (red_root (blacken (plug path u)) ≡ false)
plug_black-Balanced path n u bp bu red =
    let (m, b) = plug-Balanced path n u bp bu red in
    (blacken-Balanced m (plug path u) b, red_root-blacken (plug path u))

-- Balancing at a red node, whose parent may be red, gives a tree without a red root, in which no node
-- is red below a red one and every way down has as many black nodes.
pub balance-Balanced :
    (path : Trail) (n : ℕ) (u : Tree)
    → BalancedPath n path
    → Balanced n u
    → red_root u ≡ true
    → Rooted path
    → ((m : ℕ) × Balanced m (balance path u)) × (red_root (balance path u) ≡ false)
unfolding balance
balance-Balanced [] n u bp bu ru rooted =
    plug_black-Balanced [] n u bp bu (λ h. absurd (ground (arith, h)))
balance-Balanced (s ∷ []) n u bp bu ru rooted =
    plug_black-Balanced (s ∷ []) n u bp bu (λ h. absurd (ground (arith, h, ap is_red rooted)))
balance-Balanced (s ∷ q ∷ path) n u (bs, near_red, (bq, parent, bp)) bu ru rooted =
    let at_uncle : is_red s.cell.color ≡ true → Balanced n q.sibling =
      λ red. subst (λ k. Balanced k q.sibling) (red_weight s.cell.color n red) bq in
    let above : is_red s.cell.color ≡ true → BalancedPath (n + 1) path = λ red.
      subst (λ k. BalancedPath k path)
        (ap (λ k. k + weight q.cell.color) (red_weight s.cell.color n red)
          ∙ black_weight q.cell.color n (near_red red).1)
        bp in
    elim (Bool-cases (is_red s.cell.color)) [
      | inl red ↦ elim (Bool-cases (red_root q.sibling)) [
        | inl uncle ↦
            rw (red, uncle)
              (balance-Balanced path (n + 1) (recolored s q u) (above red)
                (recolored-Balanced n s q u bu bs (at_uncle red) uncle)
                (red_root-branch q.side (painted Color.red q.cell) _ (blacken q.sibling))
                (Rooted-drop q path (Rooted-drop s (q ∷ path) rooted)))
        | inr uncle ↦
            rw (red, uncle)
              (let (b, black) =
                  lifted-Balanced n s q u bu ru red bs (at_uncle red) (near_red red).0 uncle in
                plug_black-Balanced path (n + 1) (lifted s q u) (above red) b (λ h. black))
      ]
      | inr black ↦ rw black (
          plug_black-Balanced (s ∷ q ∷ path) n u (bs, near_red, (bq, parent, bp)) bu
            (λ h. absurd (ground (arith, h, black))))
    ]

pub Rooted-plug : (path : Trail) (u : Tree) → red_root (plug path u) ≡ false → Rooted path
Rooted-plug [] u black = tt
Rooted-plug (s ∷ []) u black =
    black_color s.cell.color (sym (red_root-branch s.side s.cell u s.sibling) ∙ black)
  where
    black_color : (k : Color) → is_red k ≡ false → k ≡ Color.black
    black_color Color.red e = absurd (ground (arith, e))
    black_color Color.black e = refl
Rooted-plug (s ∷ q ∷ path) u black = Rooted-plug (q ∷ path) (branch s.side s.cell u s.sibling) black

-- A place in a balanced tree.
abbrev pub BalancedAt : Trail → Tree → Type 0
BalancedAt path u =
    (n : ℕ) × Balanced n u × BalancedPath n path × (parent_red path ≡ true → red_root u ≡ false)

step-BalancedAt :
    (d : Side) (c : Cell) (u v : Tree) (path : Trail)
    → BalancedAt path (branch d c u v)
    → BalancedAt (record { side = d; cell = c; sibling = v } ∷ path) u
step-BalancedAt left c u v path (n, (m, e, bu, bv, h), bp, red) = (
  m,
  bu,
  (
    bv,
    λ k. ((h k).1, apart (parent_red path) (is_red c.color) red k),
    subst (λ k. BalancedPath k path) e bp,
  ),
  λ k. (h k).0,
)
step-BalancedAt right c u v path (n, (m, e, bv, bu, h), bp, red) = (
  m,
  bu,
  (
    bv,
    λ k. ((h k).0, apart (parent_red path) (is_red c.color) red k),
    subst (λ k. BalancedPath k path) e bp,
  ),
  λ k. (h k).1,
)

pub seek-BalancedAt :
    (k : Str) (u : Tree) (path : Trail)
    → BalancedAt path u
    → BalancedAt (seek k u path).0 (seek k u path).1
seek-BalancedAt k u path b =
    seek-induction k BalancedAt (λ c l r path e. step-BalancedAt left c l r path)
      (λ c l r path e. step-BalancedAt right c r l path) u path b
