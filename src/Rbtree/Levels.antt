-- ===== src/Rbtree/Levels.antt =====
-- How high the tree of kvs_rbtree.c is.
use Prim.Native.Nat.{max}
use kv_study.Prelude.{
  ℕ, suc, ◌+◌, ◌^◌, ◌≤◌, ◌≡◌, refl, ◌∙◌, Bool, true, false, if◌then◌else◌, arith,
}
use native.Mathlib.Nat.{two-pow-succ}
use kv_study.Rbtree.{is_red, Color}
use kv_study.Rbtree.Shape.{Tree, leaf, node}
use kv_study.Rbtree.Seek.{height}
use kv_study.Rbtree.Insert.Balance.{red_root}
use kv_study.Rbtree.Balanced.{weight, Balanced}

abbrev pub size : Tree → ℕ
size leaf = 0
size (node c l r) = suc (size l + size r)

height_step :
    (k : Color) (m n hl hr : ℕ) (rl rr : Bool)
    → n ≡ m + weight k
    → hl ≤ m + m + (if rl then 1 else 0)
    → hr ≤ m + m + (if rr then 1 else 0)
    → (is_red k ≡ true → (rl ≡ false) × (rr ≡ false))
    → suc (max hl hr) ≤ n + n + (if is_red k then 1 else 0)
height_step Color.red m n hl hr rl rr e bl br h = ground (arith, h refl)
height_step Color.black m n hl hr rl rr e bl br h = ground arith

add_zero : (m : ℕ) → m + 0 ≡ m
add_zero m = omega arith

size_step :
    (k : Color) (m n sl sr : ℕ)
    → n ≡ m + weight k
    → 2 ^ m ≤ suc sl
    → 2 ^ m ≤ suc sr
    → 2 ^ n ≤ suc (suc (sl + sr))
size_step Color.red m n sl sr e bl br = rw (e, add_zero m) (omega arith)
size_step Color.black m n sl sr e bl br =
    let e' : n ≡ suc m = e ∙ omega arith in rw (e', two-pow-succ m) (omega arith)

-- No way down is longer than two steps for a black level, and one more below a red root.
pub height-Balanced :
    (n : ℕ) (u : Tree) → Balanced n u → height u ≤ n + n + (if red_root u then 1 else 0)
height-Balanced n leaf b = ground arith
height-Balanced n (node c l r) (m, e, bl, br, h) =
    height_step c.color m n (height l) (height r) (red_root l) (red_root r) e
      (height-Balanced m l bl) (height-Balanced m r br) h

-- The nodes are at least as many as the black levels can hold.
pub size-Balanced : (n : ℕ) (u : Tree) → Balanced n u → 2 ^ n ≤ suc (size u)
size-Balanced n leaf b = rw b (ground arith)
size-Balanced n (node c l r) (m, e, bl, br, h) =
    size_step c.color m n (size l) (size r) e (size-Balanced m l bl) (size-Balanced m r br)
