-- ===== src/Rbtree/Sentinel.antt =====
-- The insertion of kvs_rbtree.c keeps the address of the sentinel.
use Prim.Native.Nat.{Ordering}
use kv_study.Prelude.{
  ℕ, zero, suc, ◌≡◌, refl, sym, ◌∙◌, ap, inl, inr, Bool-cases, ◌==◌, Option, none, some, Run, ok,
  fault, deadlock, ◌>>=◌, arith,
}
use kv_study.Rbtree.{
  Side, left, right, other, child, rotate, is_red, Color, Rbtree, set_left, set_right, set_parent,
  set_color, take_left, take_right, promote_left, promote_right, rbtree_left_rotate,
  rbtree_right_rotate,
}
use kv_study.Rbtree.Insert.{
  recolor, straighten, lift, fixup_step, side_of_parent, rbtree_insert_fixup, descend, hang_up,
  clear_links, insert_at, rbtree_insert,
}

take_left-nil : (t : Rbtree) (x y : ℕ) → (take_left t x y).nil ≡ t.nil
unfolding take_left set_right set_parent
take_left-nil t x y = ground arith

take_right-nil : (t : Rbtree) (x y : ℕ) → (take_right t x y).nil ≡ t.nil
unfolding take_right set_left set_parent
take_right-nil t x y = ground arith

promote_left-nil : (t : Rbtree) (x y : ℕ) → (promote_left t x y).nil ≡ t.nil
unfolding promote_left set_left set_right set_parent
promote_left-nil t x y = ground arith

promote_right-nil : (t : Rbtree) (x y : ℕ) → (promote_right t x y).nil ≡ t.nil
unfolding promote_right set_left set_right set_parent
promote_right-nil t x y = ground arith

rotate-nil : (s : Side) (t : Rbtree) (x : ℕ) → (rotate s t x).nil ≡ t.nil
unfolding rbtree_left_rotate rbtree_right_rotate set_left set_right set_parent
rotate-nil left t x =
    promote_left-nil (take_left t x (t.heap x).right) x (t.heap x).right
    ∙ take_left-nil t x (t.heap x).right
rotate-nil right t x =
    promote_right-nil (take_right t x (t.heap x).left) x (t.heap x).left
    ∙ take_right-nil t x (t.heap x).left

straighten-nil : (d : Side) (t : Rbtree) (z : ℕ) → (straighten d t z).0.nil ≡ t.nil
unfolding straighten
straighten-nil d t z = elim (Bool-cases (z == child (other d) (t.heap (t.heap z).parent))) [
  | inl e ↦ rw e (rotate-nil d t (t.heap z).parent)
  | inr e ↦ rw e refl
]

lift-nil : (d : Side) (t : Rbtree) (z : ℕ) → (lift d t z).nil ≡ t.nil
unfolding lift set_color
lift-nil d t z = rotate-nil (other d) _ _

recolor-nil : (t : Rbtree) (z y : ℕ) → (recolor t z y).nil ≡ t.nil
unfolding recolor set_color
recolor-nil t z y = refl

fixup_step-nil : (d : Side) (t : Rbtree) (z : ℕ) → (fixup_step d t z).0.nil ≡ t.nil
unfolding fixup_step
fixup_step-nil d t z =
    let y = child (other d) (t.heap (t.heap (t.heap z).parent).parent) in
    elim (Bool-cases (is_red (t.heap y).color)) [
      | inl e ↦ rw e (recolor-nil t z y)
      | inr e ↦ rw e (lift-nil d (straighten d t z).0 (straighten d t z).1 ∙ straighten-nil d t z)
    ]

-- The result of a run that ends normally.
abbrev EndsWith : Run Rbtree → ℕ → Type 0
EndsWith r n = (t' : Rbtree) → r ≡ ok t' → t'.nil ≡ n

ok-nil : (t t' : Rbtree) → ok t ≡ ok t' → t'.nil ≡ t.nil
ok-nil t t' e = ap (λ r. elim r [ ok u ↦ u.nil | _ ↦ t.nil ]) (sym e)

rbtree_insert_fixup-nil :
    (fuel : ℕ) (t : Rbtree) (z : ℕ) → EndsWith (rbtree_insert_fixup fuel t z) t.nil
unfolding rbtree_insert_fixup set_color
rbtree_insert_fixup-nil zero t z t' e = absurd (ground (arith, e))
rbtree_insert_fixup-nil (suc fuel) t z t' e =
    elim (Bool-cases (is_red (t.heap (t.heap z).parent).color)) [
      | inl red ↦
          rbtree_insert_fixup-nil fuel (fixup_step (side_of_parent t z) t z).0
            (fixup_step (side_of_parent t z) t z).1 t' (sym (rw red refl) ∙ e)
          ∙ fixup_step-nil (side_of_parent t z) t z
      | inr black ↦ ok-nil (set_color t.root Color.black t) t' (sym (rw black refl) ∙ e)
    ]

bind-nil {ℓ} :
    {A : Type ℓ} (r : Run A) (f : A → Run Rbtree) (n : ℕ)
    → ((a : A) → EndsWith (f a) n)
    → EndsWith (r >>= f) n
bind-nil (ok a) f n h = h a
bind-nil fault f n h = λ t' e. absurd (ground (arith, e))
bind-nil deadlock f n h = λ t' e. absurd (ground (arith, e))

hang_up-nil : (t : Rbtree) (z y : ℕ) → EndsWith (hang_up t z y) t.nil
unfolding hang_up set_parent set_left set_right
hang_up-nil t z y = elim (Bool-cases (y == t.nil)) [
  | inl e ↦ rw e (λ t' h. ok-nil _ t' h)
  | inr e ↦ rw e (bind-nil _ _ t.nil at_order)
]
  where
    at_order :
        (o : Ordering)
        → EndsWith
            (elim o [
              | Ordering.lt ↦ ok (set_left y z (set_parent z y t))
              | _ ↦ ok (set_right y z (set_parent z y t))
            ])
            t.nil
    at_order Ordering.lt = λ t' h. ok-nil _ t' h
    at_order Ordering.eq = λ t' h. ok-nil _ t' h
    at_order Ordering.gt = λ t' h. ok-nil _ t' h

then-nil :
    (r : Run Rbtree) (f : Rbtree → Run Rbtree) (n : ℕ)
    → EndsWith r n
    → ((t : Rbtree) → t.nil ≡ n → EndsWith (f t) n)
    → EndsWith (r >>= f) n
then-nil (ok t) f n h g = g t (h t refl)
then-nil fault f n h g = λ t' e. absurd (ground (arith, e))
then-nil deadlock f n h g = λ t' e. absurd (ground (arith, e))

insert_at-nil :
    (fuel : ℕ) (t : Rbtree) (z : ℕ) (o : Option ℕ) → EndsWith (insert_at fuel t z o) t.nil
unfolding insert_at clear_links set_left set_right set_color
insert_at-nil fuel t z none = λ t' h. ok-nil t t' h
insert_at-nil fuel t z (some y) =
    then-nil (hang_up t z y) _ t.nil (hang_up-nil t z y)
      (λ t₁ same t' h. rbtree_insert_fixup-nil fuel (clear_links t₁ z) z t' h ∙ same)

pub rbtree_insert-nil :
    (fuel : ℕ) (t : Rbtree) (z : ℕ) (t' : Rbtree) → rbtree_insert fuel t z ≡ ok t' → t'.nil ≡ t.nil
unfolding rbtree_insert
rbtree_insert-nil fuel t z =
    bind-nil (descend fuel t z t.nil t.root) (insert_at fuel t z) t.nil (insert_at-nil fuel t z)
