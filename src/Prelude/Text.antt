-- ===== src/Prelude/Text.antt =====
-- C strings: the bytes before the terminating NUL, and the libc functions on them that the
-- program calls. A pointer to a string is NULL, a string, or wild (freed, or never written).
use Prim.Native.Nat.{ℕ, compare, Ordering}
use mathlib.Core.Path.{◌≡◌, refl}
use mathlib.Core.Logic.{◌↔◌, ◌⊎◌, inl, inr}
use mathlib.Core.Bool.{Bool, true, false}
use mathlib.Core.List.{List, [], ◌∷◌}
use native.Mathlib.Omega.{arith}
use Prim.Native.Char.{code}
use Prim.Native.String.{String}

abbrev pub Str : Type 0
Str = List ℕ

abbrev pub codes : String → Str
codes String.[] = []
codes (String.◌∷◌ c s) = code c ∷ codes s

pub data Ptr : Type 0 where
  null : Ptr
  text : Str → Ptr
  wild : Ptr

-- `strcmp`: the first byte that differs decides, and a proper prefix is smaller.
unfoldable pub strcmp : Str → Str → Ordering
strcmp [] [] = Ordering.eq
strcmp [] (y ∷ ys) = Ordering.lt
strcmp (x ∷ xs) [] = Ordering.gt
strcmp (x ∷ xs) (y ∷ ys) =
    let rest = strcmp xs ys in
    elim (compare x y) [
      | Ordering.lt ↦ Ordering.lt
      | Ordering.eq ↦ rest
      | Ordering.gt ↦ Ordering.gt
    ]

-- `strcmp (a, b) == 0`
unfoldable pub str_eq : Str → Str → Bool
unfolding strcmp
str_eq a b = elim (strcmp a b) [ Ordering.eq ↦ true | _ ↦ false ]

-- `strcmp (a, b) < 0`
unfoldable pub str_lt : Str → Str → Bool
unfolding strcmp
str_lt a b = elim (strcmp a b) [ Ordering.lt ↦ true | _ ↦ false ]

pub str_eq_iff : (a b : Str) → (str_eq a b ≡ true) ↔ (a ≡ b)
unfolding str_eq
str_eq_iff [] [] = ground arith
str_eq_iff [] (y ∷ ys) = ground arith
str_eq_iff (x ∷ xs) [] = ground arith
str_eq_iff (x ∷ xs) (y ∷ ys) = ground (arith, str_eq_iff xs ys)

pub str_eq_refl : (a : Str) → str_eq a a ≡ true
str_eq_refl a = (str_eq_iff a a).1 refl

pub order-cases : (o : Ordering) → (o ≡ Ordering.lt) ⊎ ((o ≡ Ordering.eq) ⊎ (o ≡ Ordering.gt))
order-cases Ordering.lt = inl refl
order-cases Ordering.eq = inr (inl refl)
order-cases Ordering.gt = inr (inr refl)

pub strcmp_eq : (a b : Str) → strcmp a b ≡ Ordering.eq → a ≡ b
unfolding strcmp
strcmp_eq [] [] e = refl
strcmp_eq [] (y ∷ ys) e = ground (arith, e)
strcmp_eq (x ∷ xs) [] e = ground (arith, e)
strcmp_eq (x ∷ xs) (y ∷ ys) e = ground (arith, strcmp_eq xs ys)

pub strcmp_refl : (a : Str) → strcmp a a ≡ Ordering.eq
unfolding strcmp
strcmp_refl [] = refl
strcmp_refl (x ∷ xs) = ground (arith, strcmp_refl xs)

pub strcmp_flip : (a b : Str) → (strcmp a b ≡ Ordering.lt) ↔ (strcmp b a ≡ Ordering.gt)
unfolding strcmp
strcmp_flip [] [] = ground arith
strcmp_flip [] (y ∷ ys) = ground arith
strcmp_flip (x ∷ xs) [] = ground arith
strcmp_flip (x ∷ xs) (y ∷ ys) = ground (arith, strcmp_flip xs ys)

pub strcmp_trans :
    (a b c : Str) → strcmp a b ≡ Ordering.lt → strcmp b c ≡ Ordering.lt → strcmp a c ≡ Ordering.lt
unfolding strcmp
strcmp_trans [] [] [] ab bc = absurd (ground (arith, ab))
strcmp_trans [] (y ∷ ys) [] ab bc = absurd (ground (arith, bc))
strcmp_trans [] b (z ∷ zs) ab bc = refl
strcmp_trans (x ∷ xs) [] c ab bc = absurd (ground (arith, ab))
strcmp_trans (x ∷ xs) (y ∷ ys) [] ab bc = absurd (ground (arith, bc))
strcmp_trans (x ∷ xs) (y ∷ ys) (z ∷ zs) ab bc = ground (arith, strcmp_trans xs ys zs)

pub str_eq_lt : (a b : Str) → strcmp a b ≡ Ordering.lt → str_eq a b ≡ false
unfolding str_eq
str_eq_lt a b e = rw (str_eq, e) refl

pub str_eq_gt : (a b : Str) → strcmp a b ≡ Ordering.gt → str_eq a b ≡ false
unfolding str_eq
str_eq_gt a b e = rw (str_eq, e) refl

pub str_eq_same : (a b : Str) → strcmp a b ≡ Ordering.eq → str_eq a b ≡ true
unfolding str_eq
str_eq_same a b e = rw (str_eq, e) refl
