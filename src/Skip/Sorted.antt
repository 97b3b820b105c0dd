-- ===== src/Skip/Sorted.antt =====
-- The order of the entries is kept by kvs_skiptable_zadd, for scores that are numbers; so a query of a range
-- after it sees the new entry in its place.
use kv_study.Prelude.{
  ℕ, suc, ◌≤◌, ◌<◌, ◌≡◌, refl, ap, inl, inr, Bool-cases, Bool, true, false, List, [], ◌∷◌, length,
  Str, str_lt, str_eq, strcmp_flip, arith,
}
use kv_study.Skip.{Double, ZrangeEntry}
use kv_study.Skip.Towers.{Tower}
use kv_study.Skip.Order.{
  IsOrdered, Every, entries, comes_before, is_entry, Sorted, insort, comes_before_trans,
}

str_between : (a b : Str) → str_lt a b ≡ false → str_eq a b ≡ false → str_lt b a ≡ true
unfolding str_lt str_eq
str_between a b low differ = ground (arith, strcmp_flip b a)

module _ {Score : Type 0} ⦃double : Double Score⦄ where
  -- The score is not NaN.
  abbrev pub IsNumber : Score → Type 0
  IsNumber s = double.same s s ≡ true

  abbrev pub Numbers : List (ZrangeEntry Score) → Type 0
  Numbers es = Every (λ e. double.same e.score e.score) es

  Every-insort :
      (q : Score → Str → Bool) (score : Score) (key value : Str) (es : List (ZrangeEntry Score))
      → q score key ≡ true
      → Every (λ e. q e.score e.key) es
      → Every (λ e. q e.score e.key) (insort score key value es)
  Every-insort q score key value [] new h = (new, tt)
  Every-insort q score key value (e ∷ es) new h = elim (Bool-cases (comes_before score key e)) [
    | inl early ↦ rw early (h.0, Every-insort q score key value es new h.1)
    | inr late ↦ elim (Bool-cases (is_entry score key e)) [
      | inl same ↦ rw (late, same) (h.0, h.1)
      | inr differs ↦ rw (late, differs) (new, h)
    ]
  ]

  length-insort :
      (score : Score) (key value : Str) (es : List (ZrangeEntry Score))
      → length (insort score key value es) ≤ suc (length es)
  length-insort score key value [] = omega arith
  length-insort score key value (e ∷ es) = ground (arith, length-insort score key value es)

  length-entries : (ts : List (Tower Score)) → length (entries ts) ≡ length ts
  length-entries [] = refl
  length-entries (t ∷ ts) = ap suc (length-entries ts)

  pub few_enough :
      (us ts : List (Tower Score)) (score : Score) (key value : Str) (fuel : ℕ)
      → entries us ≡ insort score key value (entries ts)
      → suc (length ts) < fuel
      → length us < fuel
  few_enough us ts score key value fuel same enough = omega (
    arith,
    length-entries us,
    length-entries ts,
    ap (λ es. length es) same,
    length-insort score key value (entries ts),
  )

  module _ (o : IsOrdered Score) where
    stands_between :
        (e : ZrangeEntry Score) (score : Score) (key value : Str)
        → IsNumber score
        → IsNumber e.score
        → comes_before score key e ≡ false
        → is_entry score key e ≡ false
        → comes_before e.score e.key (record { key = key; value = value; score = score }) ≡ true
    stands_between e score key value number number' late differs =
        elim (o.total score e.score number number') [
          | inl less ↦ rw less refl
          | inr (inl same) ↦
              ground
                (arith, same, o.same_sym score e.score same, str_between e.key key, late, differs)
          | inr (inr above) ↦ absurd (ground (arith, above, late))
        ]

    all_after :
        (e n : ZrangeEntry Score) (es : List (ZrangeEntry Score))
        → comes_before e.score e.key n ≡ true
        → Every (λ f. comes_before f.score f.key e) es
        → Every (λ f. comes_before f.score f.key n) es
    all_after e n [] order h = tt
    all_after e n (f ∷ es) order h =
        (comes_before_trans o n e f.score f.key order h.0, all_after e n es order h.1)

    pub insort-Sorted :
        (score : Score) (key value : Str) (es : List (ZrangeEntry Score))
        → IsNumber score
        → Numbers es
        → Sorted es
        → Sorted (insort score key value es)
    insort-Sorted score key value [] number numbers sorted = (tt, tt)
    insort-Sorted score key value (e ∷ es) number numbers sorted =
        elim (Bool-cases (comes_before score key e)) [
          | inl early ↦ rw early (
            Every-insort (λ s k. comes_before s k e) score key value es early sorted.0,
            insort-Sorted score key value es number numbers.1 sorted.1,
          )
          | inr late ↦ elim (Bool-cases (is_entry score key e)) [
            | inl same ↦ rw (late, same) (sorted.0, sorted.1)
            | inr differs ↦
                let first = stands_between e score key value number numbers.0 late differs in
                rw (late, differs)
                  (
                    (
                      first,
                      all_after e (record { key = key; value = value; score = score }) es first
                          sorted.0,
                    ),
                    sorted,
                  )
          ]
        ]
