-- ===== src/Rbtree/Insert/Loop.antt =====
-- The loop of `rbtree_insert_fixup` in kvs_rbtree.c does what `balance` does to the tree.
use kv_study.Prelude.{
  ℕ, zero, suc, ◌≤◌, ◌<◌, ◌≡◌, refl, sym, ◌∙◌, ap, inl, inr, Bool, true, false, Bool-cases,
  if◌then◌else◌, [], ◌∷◌, length, ok, Returns, arith,
}
use mathlib.Core.Path.{subst}
use kv_study.Rbtree.{Side, left, right, other, is_red, Color, Rbtree, set_color}
use kv_study.Rbtree.Shape.{
  Cell, Tree, leaf, node, branch, Step, Trail, plug, address, Place, address-branch,
}
use kv_study.Rbtree.Focus.{Place-up, Place-down, painted}
use kv_study.Rbtree.Insert.{fixup_step, rbtree_insert_fixup}
use kv_study.Rbtree.Insert.Balance.{
  blacken, red_root, near, same_side, outer, inner, lifted, recolored, balance,
}
use kv_study.Rbtree.Insert.Steps.{Family, side_of_parent-family}
use kv_study.Rbtree.Insert.Cases.{
  blacken_root-Place, loop_ends, loop_goes_on, step-recolors, step-outer, step-inner, branch-node,
}

-- After the rotations the loop ends, at a node below the one that was lifted.
Lifts : (fuel : ℕ) (t' : Rbtree) (z' : ℕ) (path : Trail) (u : Tree) → Type 0
Lifts fuel t' z' path u =
    (rbtree_insert_fixup (suc fuel) t' z' ≡ ok (set_color t'.root Color.black t')) × Place t' path u

Lifts-below :
    (fuel : ℕ) (t' : Rbtree) (z' : ℕ) (path : Trail) (d : Side) (c cz : Cell) (l r v : Tree)
    → c.color ≡ Color.black
    → z' ≡ cz.addr
    → Place t' path (branch d c (node cz l r) v)
    → Lifts fuel t' z' path (branch d c (node cz l r) v)
unfolding Lifts
Lifts-below fuel t' z' path d c cz l r v black e p = (
  ap (rbtree_insert_fixup (suc fuel) t') e
      ∙ loop_ends fuel t' _ cz l r (Place-down t' d c v path (node cz l r) p) (ap is_red black),
  p,
)

Lifts-outer :
    (fuel : ℕ) (t : Rbtree) (d : Side) (g c cz : Cell) (l r sib unc : Tree) (path : Trail)
    → Place t path (Family t d d g c cz l r sib unc path)
    → red_root unc ≡ false
    → Lifts fuel
        (fixup_step d t cz.addr).0
        (fixup_step d t cz.addr).1
        path
        (outer d c g (node cz l r) sib unc)
Lifts-outer fuel t d g c cz l r sib unc path p black =
    let (q, e) = step-outer t d g c cz l r sib unc path p black in
    Lifts-below fuel _ _ path d (painted Color.black c) cz l r _ refl e q

Lifts-inner :
    (fuel : ℕ) (t : Rbtree) (d : Side) (g c cz : Cell) (l r sib unc : Tree) (path : Trail)
    → Place t path (Family t d (other d) g c cz l r sib unc path)
    → red_root unc ≡ false
    → Lifts fuel
        (fixup_step d t cz.addr).0
        (fixup_step d t cz.addr).1
        path
        (inner d c g (node cz l r) sib unc)
Lifts-inner fuel t d g c cz l r sib unc path p black =
    let (q, e) = step-inner t d g c cz l r sib unc path p black in
    let same = branch-node d c sib (near d l r) in
    subst
      (λ u.
        Lifts fuel (fixup_step d t cz.addr).0 (fixup_step d t cz.addr).1 path
          (outer d cz g u (near (other d) l r) unc))
      (sym same)
      (Lifts-below fuel _ _ path d (painted Color.black cz) c _ _ _ refl e (
        subst (λ u. Place (fixup_step d t cz.addr).0 path (outer d cz g u (near (other d) l r) unc))
          same q))

lifts :
    (fuel : ℕ) (t : Rbtree) (e d : Side) (g c cz : Cell) (l r sib unc : Tree) (path : Trail)
    → Place t path (Family t d e g c cz l r sib unc path)
    → red_root unc ≡ false
    → Lifts fuel (fixup_step d t cz.addr).0 (fixup_step d t cz.addr).1 path (
        if same_side e d
        then outer d c g (node cz l r) sib unc
        else inner d c g (node cz l r) sib unc)
lifts fuel t left left = Lifts-outer fuel t left
lifts fuel t left right = Lifts-inner fuel t right
lifts fuel t right left = Lifts-inner fuel t left
lifts fuel t right right = Lifts-outer fuel t right

abbrev pub is_node : Tree → Bool
is_node leaf = false
is_node (node c l r) = true

is_node-branch : (d : Side) (c : Cell) (u v : Tree) → is_node (branch d c u v) ≡ true
is_node-branch left c u v = refl
is_node-branch right c u v = refl

-- The root at the end of the path is black.
abbrev pub Rooted : Trail → Type 0
Rooted [] = Unit
Rooted (s ∷ []) = s.cell.color ≡ Color.black
Rooted (s ∷ q ∷ path) = Rooted (q ∷ path)

pub Rooted-drop : (s : Step) (path : Trail) → Rooted (s ∷ path) → Rooted path
Rooted-drop s [] rooted = tt
Rooted-drop s (q ∷ path) rooted = rooted

lifted-Returns :
    (fuel : ℕ) (t' : Rbtree) (z' : ℕ) (path : Trail) (u : Tree)
    → 1 ≤ fuel
    → ((n : ℕ) → Lifts n t' z' path u)
    → Returns (rbtree_insert_fixup fuel t' z') (λ t''. Place t'' [] (blacken (plug path u)))
unfolding Lifts
lifted-Returns zero t' z' path u some lift = absurd (ground arith)
lifted-Returns (suc n) t' z' path u some lift =
    let (run, p) = lift n in (_, run, blacken_root-Place t' path u p)

-- At the place of a node in a tree with a black root, with fuel for the path, the loop ends, and the
-- nodes are the balanced tree.
pub rbtree_insert_fixup-balance :
    (fuel : ℕ) (t : Rbtree) (path : Trail) (u : Tree)
    → length path < fuel
    → is_node u ≡ true
    → Rooted path
    → Place t path u
    → Returns (rbtree_insert_fixup fuel t (address t.nil u)) (λ t'. Place t' [] (balance path u))
unfolding balance Lifts
rbtree_insert_fixup-balance zero t path u enough some rooted p = absurd (ground arith)
rbtree_insert_fixup-balance (suc fuel) t path leaf enough some rooted p =
    absurd (ground (arith, some))
rbtree_insert_fixup-balance (suc fuel) t [] (node c l r) enough some rooted p =
    (_, loop_ends fuel t [] c l r p refl, blacken_root-Place t [] (node c l r) p)
rbtree_insert_fixup-balance (suc fuel) t (s ∷ []) (node c l r) enough some rooted p = (
  _,
  loop_ends fuel t (s ∷ []) c l r p (ap is_red rooted),
  blacken_root-Place t (s ∷ []) (node c l r) p,
)
rbtree_insert_fixup-balance (suc fuel) t (s ∷ q ∷ path) (node c l r) enough some rooted p =
    let family = Place-up t q path _ (Place-up t s (q ∷ path) (node c l r) p) in
    let side =
      side_of_parent-family t q.side s.side q.cell s.cell c l r s.sibling q.sibling path family in
    elim (Bool-cases (is_red s.cell.color)) [
      | inl red ↦ elim (Bool-cases (red_root q.sibling)) [
        | inl uncle_red ↦
            let (p', e) =
              step-recolors t q.side s.side q.cell s.cell c l r s.sibling q.sibling path family
                uncle_red in
            let (t', run, above) =
              rbtree_insert_fixup-balance fuel (fixup_step q.side t c.addr).0 path
                (recolored s q (node c l r)) (ground (arith, enough))
                (is_node-branch q.side (painted Color.red q.cell) _ (blacken q.sibling))
                (Rooted-drop q path (Rooted-drop s (q ∷ path) rooted)) p' in
            (
              t',
              loop_goes_on fuel t (s ∷ q ∷ path) c l r q.side p red side
                  ∙ ap (rbtree_insert_fixup fuel (fixup_step q.side t c.addr).0) (
                      e
                      ∙ sym (
                          address-branch q.side _ (painted Color.red q.cell) _ (blacken q.sibling)))
                  ∙ run,
              rw (red, uncle_red) above,
            )
        | inr uncle_black ↦
            let (t', run, below) =
              lifted-Returns fuel (fixup_step q.side t c.addr).0 (fixup_step q.side t c.addr).1 path
                (lifted s q (node c l r)) (ground (arith, enough))
                (λ n.
                  lifts n t s.side q.side q.cell s.cell c l r s.sibling q.sibling path family
                    uncle_black) in
            (
              t',
              loop_goes_on fuel t (s ∷ q ∷ path) c l r q.side p red side ∙ run,
              rw (red, uncle_black) below,
            )
      ]
      | inr black ↦ (
        _,
        loop_ends fuel t (s ∷ q ∷ path) c l r p black,
        rw black (blacken_root-Place t (s ∷ q ∷ path) (node c l r) p),
      )
    ]
