-- ===== src/Skip/Order.antt =====
-- What the sorted set promises: entries in order of their scores, and of their keys where the scores are
-- the same.
use kv_study.Prelude.{
  ◌≡◌, ◌⊎◌, refl, inl, inr, Bool-cases, Bool, true, false, ◌&&◌, ◌||◌, if◌then◌else◌, List, [], ◌∷◌,
  ◌++◌, Str, str_lt, str_eq, str_eq_iff, strcmp_trans, arith,
}
use kv_study.Skip.{Double, ZrangeEntry}
use kv_study.Skip.Towers.{Tower, All}

-- The comparisons of numbers; NaN is the `double` that is not the same as itself.
pub record IsOrdered (Score : Type 0) ⦃double : Double Score⦄ : Type 0 where
  pub lt_trans :
      (a b c : Score) → double.lt a b ≡ true → double.lt b c ≡ true → double.lt a c ≡ true
  pub lt_same :
      (a b c : Score) → double.lt a b ≡ true → double.same b c ≡ true → double.lt a c ≡ true
  pub same_lt :
      (a b c : Score) → double.same a b ≡ true → double.lt b c ≡ true → double.lt a c ≡ true
  pub same_trans :
      (a b c : Score) → double.same a b ≡ true → double.same b c ≡ true → double.same a c ≡ true
  pub total :
      (a b : Score)
      → double.same a a ≡ true
      → double.same b b ≡ true
      → (double.lt a b ≡ true) ⊎ ((double.same a b ≡ true) ⊎ (double.lt b a ≡ true))
  pub lt_differs : (a b : Score) → double.lt a b ≡ true → double.same a b ≡ false
  pub same_sym : (a b : Score) → double.same a b ≡ true → double.same b a ≡ true
  pub le_iff : (a b : Score) → double.le a b ≡ (double.lt a b || double.same a b)

pub str_lt_trans : (a b c : Str) → str_lt a b ≡ true → str_lt b c ≡ true → str_lt a c ≡ true
unfolding str_lt
str_lt_trans a b c ab bc = ground (arith, strcmp_trans a b c)

pub lt-str_eq : (a b : Str) → str_lt a b ≡ true → str_eq a b ≡ false
unfolding str_lt str_eq
lt-str_eq a b h = ground arith

module _ {Score : Type 0} where
  abbrev pub entry_of : Tower Score → ZrangeEntry Score
  entry_of t = record { key = t.key; value = t.value; score = t.score }

  abbrev pub entries : List (Tower Score) → List (ZrangeEntry Score)
  entries [] = []
  entries (t ∷ ts) = entry_of t ∷ entries ts

  abbrev pub Every : (ZrangeEntry Score → Bool) → List (ZrangeEntry Score) → Type 0
  Every p [] = Unit
  Every p (e ∷ es) = (p e ≡ true) × Every p es

module _ {Score : Type 0} ⦃double : Double Score⦄ where
  -- The entry stands before one of this score and key.
  abbrev pub comes_before : Score → Str → ZrangeEntry Score → Bool
  comes_before score key e =
      double.lt e.score score || (double.same e.score score && str_lt e.key key)

  abbrev pub is_entry : Score → Str → ZrangeEntry Score → Bool
  is_entry score key e = double.same e.score score && str_eq e.key key

  abbrev pub Sorted : List (ZrangeEntry Score) → Type 0
  Sorted [] = Unit
  Sorted (e ∷ es) = Every (λ f. comes_before f.score f.key e) es × Sorted es

  -- The entry with its new value where it is there, and in its place where it is not.
  abbrev pub insort : Score → Str → Str → List (ZrangeEntry Score) → List (ZrangeEntry Score)
  insort score key value [] = record { key = key; value = value; score = score } ∷ []
  insort score key value (e ∷ es) =
      let rest = insort score key value es in
      if comes_before score key e
      then e ∷ rest
      else if is_entry score key e
      then record e { value = value } ∷ es
      else record { key = key; value = value; score = score } ∷ (e ∷ es)

  abbrev pub contains : Score → Str → List (ZrangeEntry Score) → Bool
  contains score key [] = false
  contains score key (e ∷ es) = is_entry score key e || contains score key es

  module _ (o : IsOrdered Score) where
    pub comes_before_trans :
        (e f : ZrangeEntry Score) (score : Score) (key : Str)
        → comes_before f.score f.key e ≡ true
        → comes_before score key f ≡ true
        → comes_before score key e ≡ true
    comes_before_trans e f score key ef ft = ground (
      arith,
      o.lt_trans e.score f.score score,
      o.lt_same e.score f.score score,
      o.same_lt e.score f.score score,
      o.same_trans e.score f.score score,
      str_lt_trans e.key f.key key,
    )

    -- An entry after one that is neither before the target nor the target is not the target.
    late-is_entry :
        (e f : ZrangeEntry Score) (score : Score) (key : Str)
        → comes_before score key e ≡ false
        → comes_before f.score f.key e ≡ true
        → is_entry score key f ≡ false
    late-is_entry e f score key late ef = elim (Bool-cases (is_entry score key f)) [
      | inr differs ↦ differs
      | inl found ↦
          let same_key : f.key ≡ key = (str_eq_iff f.key key).0 (ground arith) in
          absurd (
            ground (
              arith,
              o.lt_same e.score f.score score,
              o.same_trans e.score f.score score,
              same_key,
            ))
    ]

    late-contains :
        (e : ZrangeEntry Score) (score : Score) (key : Str) (es : List (ZrangeEntry Score))
        → comes_before score key e ≡ false
        → Every (λ f. comes_before f.score f.key e) es
        → contains score key es ≡ false
    late-contains e score key [] late after = refl
    late-contains e score key (f ∷ es) late after =
        ground (
          arith,
          late-is_entry e f score key late after.0,
          late-contains e score key es late after.1,
        )

    early-is_entry :
        (e : ZrangeEntry Score) (score : Score) (key : Str)
        → comes_before score key e ≡ true
        → is_entry score key e ≡ false
    early-is_entry e score key early =
        ground (arith, o.lt_differs e.score score, lt-str_eq e.key key)

    -- Whether the entry is there shows at the first that is not before it.
    pub contains-cut :
        (xs ys : List (Tower Score)) (score : Score) (key : Str)
        → All (λ t. comes_before score key (entry_of t) ≡ true) xs
        → contains score key (entries (xs ++ ys)) ≡ contains score key (entries ys)
    contains-cut [] ys score key early = refl
    contains-cut (x ∷ xs) ys score key early =
        ground (
          arith,
          early-is_entry (entry_of x) score key early.0,
          contains-cut xs ys score key early.1,
        )

    pub contains-first :
        (y : Tower Score) (ys : List (Tower Score)) (score : Score) (key : Str)
        → comes_before score key (entry_of y) ≡ false
        → Sorted (entries (y ∷ ys))
        → contains score key (entries (y ∷ ys)) ≡ is_entry score key (entry_of y)
    contains-first y ys score key late sorted =
        ground (arith, late-contains (entry_of y) score key (entries ys) late sorted.0)

  pub Sorted-right :
      (xs ys : List (Tower Score)) → Sorted (entries (xs ++ ys)) → Sorted (entries ys)
  Sorted-right [] ys s = s
  Sorted-right (x ∷ xs) ys s = Sorted-right xs ys s.1

  pub insort-new :
      (xs ys : List (Tower Score)) (t : Tower Score)
      → All (λ x. comes_before t.score t.key (entry_of x) ≡ true) xs
      → All (λ y. comes_before t.score t.key (entry_of y) ≡ false) ys
      → contains t.score t.key (entries ys) ≡ false
      → entries (xs ++ (t ∷ ys)) ≡ insort t.score t.key t.value (entries (xs ++ ys))
  insort-new [] [] t early late absent = refl
  insort-new [] (y ∷ ys) t early late absent = ground (arith, late.0)
  insort-new (x ∷ xs) ys t early late absent =
      ground (arith, early.0, insort-new xs ys t early.1 late absent)

  pub insort-there :
      (xs : List (Tower Score)) (y : Tower Score) (ys : List (Tower Score)) (score : Score)
      (key value : Str)
      → All (λ x. comes_before score key (entry_of x) ≡ true) xs
      → comes_before score key (entry_of y) ≡ false
      → is_entry score key (entry_of y) ≡ true
      → entries (xs ++ (record y { value = value } ∷ ys))
        ≡ insort score key value (entries (xs ++ (y ∷ ys)))
  insort-there [] y ys score key value early late there = rw (late, there) refl
  insort-there (x ∷ xs) y ys score key value early late there =
      ground (arith, early.0, insort-there xs y ys score key value early.1 late there)
