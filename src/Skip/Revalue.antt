-- ===== src/Skip/Revalue.antt =====
-- kvs_skiptable_zadd of an entry that is there: its value is replaced by a copy of the new one.
use kv_study.Prelude.{
  ℕ, suc, ◌≤◌, ◌≡◌, refl, sym, ap, ◌∙◌, inl, inr, Bool-cases, true, false, ◌==◌, List, [], ◌∷◌,
  ◌++◌, length, pos, Ptr, Str, ◌>>=◌, arith, Returns,
}
use kv_study.Skip.{SkipMemory, SkipList, skip_max_level, write_node, unlock_list, free_text}
use kv_study.Skip.Towers.{Tower, next, All, Stands, Shows, Towers, Stands-skip_node_at}
use kv_study.Skip.State.{Apart, Distinct, Represents}
use kv_study.Skip.Lists.{flip_eq, All-right}
use kv_study.Skip.Calls.{update_value}

module _ {Score : Type 0} where
  abbrev pub revalued : Tower Score → Str → Tower Score
  revalued t v = record t { value = v }

  abbrev with_value : SkipMemory Score → ℕ → Str → SkipMemory Score
  with_value m a v = write_node m a (record (m.nodes a) { value = Ptr.text v })

  next-revalued :
      (i : ℕ) (xs : List (Tower Score)) (y : Tower Score) (ys : List (Tower Score)) (v : Str)
      → next i (xs ++ (revalued y v ∷ ys)) ≡ next i (xs ++ (y ∷ ys))
  next-revalued i [] y ys v = refl
  next-revalued i (x ∷ xs) y ys v = ground (arith, next-revalued i xs y ys v)

  All-revalued :
      (P : Tower Score → Type 0) (xs : List (Tower Score)) (y : Tower Score)
      (ys : List (Tower Score)) (v : Str)
      → (P y → P (revalued y v))
      → All P (xs ++ (y ∷ ys))
      → All P (xs ++ (revalued y v ∷ ys))
  All-revalued P [] y ys v keep h = (keep h.0, h.1)
  All-revalued P (x ∷ xs) y ys v keep h = (h.0, All-revalued P xs y ys v keep h.1)

  Distinct-revalued :
      (xs : List (Tower Score)) (y : Tower Score) (ys : List (Tower Score)) (v : Str)
      → Distinct (xs ++ (y ∷ ys))
      → Distinct (xs ++ (revalued y v ∷ ys))
  Distinct-revalued [] y ys v d = d
  Distinct-revalued (x ∷ xs) y ys v d = (
    All-revalued (λ t. (x.address == t.address) ≡ false) xs y ys v (λ e. e) d.0,
    Distinct-revalued xs y ys v d.1,
  )

  length-revalued :
      (xs : List (Tower Score)) (y : Tower Score) (ys : List (Tower Score)) (v : Str)
      → length (xs ++ (revalued y v ∷ ys)) ≡ length (xs ++ (y ∷ ys))
  length-revalued [] y ys v = refl
  length-revalued (x ∷ xs) y ys v = ap suc (length-revalued xs y ys v)

  module _ (m : SkipMemory Score) (y : Tower Score) (ys : List (Tower Score)) (v : Str) where
    abbrev m' : SkipMemory Score
    m' = with_value m y.address v

    -- Another value changes no pointer.
    Stands-same : (a h : ℕ) (ts : List (Tower Score)) → Stands m a h ts → Stands m' a h ts
    Stands-same a h ts s = record {
      not_null = s.not_null;
      alive = s.alive;
      room = elim (Bool-cases (a == y.address)) [
        | inl e ↦ let path : a ≡ y.address = ground arith in ground (arith, path, s.room)
        | inr e ↦ ground (arith, e, s.room)
      ];
      links = λ i le. elim (Bool-cases (a == y.address)) [
        | inl e ↦ let path : a ≡ y.address = ground arith in ground (arith, path, s.links i le)
        | inr e ↦ ground (arith, e, s.links i le)
      ];
    }

    Stands-revalued :
        (a h : ℕ) (xs : List (Tower Score))
        → Stands m a h (xs ++ (y ∷ ys))
        → Stands m' a h (xs ++ (revalued y v ∷ ys))
    Stands-revalued a h xs s =
        let s' = Stands-same a h (xs ++ (y ∷ ys)) s in
        record {
          not_null = s'.not_null;
          alive = s'.alive;
          room = s'.room;
          links = λ i le. s'.links i le ∙ sym (next-revalued i xs y ys v);
        }

    Shows-apart : (t : Tower Score) → (t.address == y.address) ≡ false → Shows m t → Shows m' t
    Shows-apart t e s = record {
      has_key = ground (arith, e, s.has_key);
      has_value = ground (arith, e, s.has_value);
      has_score = ground (arith, e, s.has_score);
    }

    Towers-Apart : (ts : List (Tower Score)) → Apart y.address ts → Towers m ts → Towers m' ts
    Towers-Apart [] apart h = tt
    Towers-Apart (t ∷ ts) apart h = (
      Stands-same t.address t.height ts h.0,
      Shows-apart t (flip_eq y.address t.address apart.0) h.1,
      Towers-Apart ts apart.1 h.2,
    )

    Towers-revalued :
        (xs : List (Tower Score))
        → Distinct (xs ++ (y ∷ ys))
        → Towers m (xs ++ (y ∷ ys))
        → Towers m' (xs ++ (revalued y v ∷ ys))
    Towers-revalued [] d h = (
      Stands-same y.address y.height ys h.0,
      record {
        has_key = ground (arith, h.1.has_key);
        has_value = ground arith;
        has_score = ground (arith, h.1.has_score);
      },
      Towers-Apart ys d.0 h.2,
    )
    Towers-revalued (x ∷ xs) d h = (
      Stands-revalued x.address x.height xs h.0,
      Shows-apart x (All-right (λ t. (x.address == t.address) ≡ false) xs (y ∷ ys) d.0).0 h.1,
      Towers-revalued xs d.1 h.2,
    )

  pub Towers-middle :
      (m : SkipMemory Score) (xs : List (Tower Score)) (y : Tower Score) (ys : List (Tower Score))
      → Towers m (xs ++ (y ∷ ys))
      → Stands m y.address y.height ys × Shows m y
  Towers-middle m [] y ys h = (h.0, h.1)
  Towers-middle m (x ∷ xs) y ys h = Towers-middle m xs y ys h.2

  pub update_value-Represents :
      (list : SkipList Score) (xs : List (Tower Score)) (y : Tower Score) (ys : List (Tower Score))
      → Represents list (xs ++ (y ∷ ys))
      → (v : Str)
      → Returns
          (update_value true (record list { locked = true }) y.address v)
          λ result. Represents result.0 (xs ++ (revalued y v ∷ ys)) × (result.1 ≡ pos 1)
  unfolding update_value free_text
  update_value-Represents list xs y ys r v =
      let (stands, shows) = Towers-middle list.memory xs y ys r.towers in
      (
        (unlock_list (record list { memory = with_value list.memory y.address v }), pos 1),
        rw (Stands-skip_node_at stands, ◌>>=◌, shows.has_value) refl,
        (
          record {
            header_stands =
                Stands-revalued list.memory y ys v list.header skip_max_level xs r.header_stands;
            towers = Towers-revalued list.memory y ys v xs r.distinct r.towers;
            header_apart =
                All-revalued (λ t. (list.header == t.address) ≡ false) xs y ys v (λ e. e)
                  r.header_apart;
            distinct = Distinct-revalued xs y ys v r.distinct;
            heights = All-revalued (λ t. t.height ≤ list.level) xs y ys v (λ e. e) r.heights;
            level_bound = r.level_bound;
            counted = r.counted ∙ ap pos (sym (length-revalued xs y ys v));
            unlocked = refl;
          },
          refl,
        ),
      )
