-- ===== src/Skip/Zrange.antt =====
-- kvs_skiptable_zrange_entries: the entries with a score in the interval, in the order of the list.
use kv_study.Prelude.{
  ℕ, zero, suc, ◌<◌, ◌≡◌, refl, sym, ap, ◌∙◌, inl, inr, Bool-cases, true, false, not, ◌&&◌,
  if◌then◌else◌, List, [], ◌∷◌, length, take, ok, ◌>>=◌, arith, Returns,
}
use kv_study.Skip.{Double, SkipMemory, SkipList, ZrangeEntry, lock_list, unlock_list}
use kv_study.Skip.Towers.{Tower, next, Towers, Stands-skip_node_at, Stands-forward_at}
use kv_study.Skip.State.{Represents}
use kv_study.Skip.Zrem.{same_list}
use kv_study.Skip.Order.{IsOrdered, Every, comes_before, entries, entry_of, Sorted}
use kv_study.Skip.Calls.{copy_text, skip_below, collect, kvs_skiptable_zrange_entries}

module _ {Score : Type 0} ⦃double : Double Score⦄ where
  -- The entry as it is written to the results: 127 bytes of its key and of its value.
  abbrev pub shortened : ZrangeEntry Score → ZrangeEntry Score
  shortened e = record { key = take 127 e.key; value = take 127 e.value; score = e.score }

  abbrev pub drop_below : Score → List (Tower Score) → List (Tower Score)
  drop_below min [] = []
  drop_below min (t ∷ ts) = if double.lt t.score min then drop_below min ts else t ∷ ts

  -- The first entries up to one that is above the interval, `room` of them at most.
  abbrev pub up_to : Score → ℕ → List (Tower Score) → List (ZrangeEntry Score)
  up_to max zero ts = []
  up_to max (suc room) [] = []
  up_to max (suc room) (t ∷ ts) =
      let rest = up_to max room ts in
      if double.le t.score max then shortened (entry_of t) ∷ rest else []

  next-first : (t : Tower Score) (ts : List (Tower Score)) → next 0 (t ∷ ts) ≡ t.address
  next-first t ts = ground arith

  skip_below-drop :
      (fuel : ℕ) (m : SkipMemory Score) (min : Score) (ts : List (Tower Score)) (current : ℕ)
      → current ≡ next 0 ts
      → Towers m ts
      → length ts < fuel
      → skip_below fuel m min current ≡ ok (next 0 (drop_below min ts))
  unfolding skip_below
  skip_below-drop zero m min ts current here towers enough = absurd (omega arith)
  skip_below-drop (suc fuel) m min [] current here towers enough = rw here refl
  skip_below-drop (suc fuel) m min (t ∷ ts) current here towers enough =
      let first = here ∙ next-first t ts in
      let rest = skip_below-drop fuel m min ts (next 0 ts) refl towers.2 (omega arith) in
      elim (Bool-cases (double.lt t.score min)) [
        | inl below ↦ ground (
          arith,
          first,
          towers.0.not_null,
          Stands-skip_node_at towers.0,
          towers.1.has_score,
          below,
          Stands-forward_at towers.0 0 (omega arith),
          rest,
        )
        | inr above ↦
            rw
              (
                first,
                towers.0.not_null,
                ◌>>=◌,
                Stands-skip_node_at towers.0,
                towers.1.has_score,
                above,
              )
              (ap (λ a. ok a) (first ∙ sym (next-first t ts)))
      ]

  Towers-drop :
      (m : SkipMemory Score) (min : Score) (ts : List (Tower Score))
      → Towers m ts
      → Towers m (drop_below min ts)
  Towers-drop m min [] h = h
  Towers-drop m min (t ∷ ts) h = elim (Bool-cases (double.lt t.score min)) [
    | inl below ↦ rw below (Towers-drop m min ts h.2)
    | inr above ↦ rw above h
  ]

  collect-up_to :
      (m : SkipMemory Score) (max : Score) (room : ℕ) (ts : List (Tower Score)) (current : ℕ)
      → current ≡ next 0 ts
      → Towers m ts
      → collect m max room current ≡ ok (up_to max room ts)
  unfolding collect copy_text
  collect-up_to m max zero [] current here h = rw here refl
  collect-up_to m max (suc room) [] current here h = rw here refl
  collect-up_to m max zero (t ∷ ts) current here h =
      rw (here ∙ next-first t ts, h.0.not_null, ◌>>=◌, Stands-skip_node_at h.0) refl
  collect-up_to m max (suc room) (t ∷ ts) current here h =
      let first = here ∙ next-first t ts in
      let rest = collect-up_to m max room ts (next 0 ts) refl h.2 in
      elim (Bool-cases (double.le t.score max)) [
        | inl inside ↦ ground (
          arith,
          first,
          h.0.not_null,
          Stands-skip_node_at h.0,
          h.1.has_score,
          inside,
          h.1.has_key,
          h.1.has_value,
          Stands-forward_at h.0 0 (omega arith),
          rest,
        )
        | inr above ↦
            rw (first, h.0.not_null, ◌>>=◌, Stands-skip_node_at h.0, h.1.has_score, above) refl
      ]

  -- The entries with a score from `min` to `max`.
  abbrev pub in_range : Score → Score → List (ZrangeEntry Score) → List (ZrangeEntry Score)
  in_range min max [] = []
  in_range min max (e ∷ es) =
      let rest = in_range min max es in
      if not (double.lt e.score min) && double.le e.score max then shortened e ∷ rest else rest

  module _ (o : IsOrdered Score) (min max : Score) where
    -- An entry after one that is above the interval is above it.
    stays_above :
        (t u : ZrangeEntry Score)
        → comes_before u.score u.key t ≡ true
        → double.le t.score max ≡ false
        → double.le u.score max ≡ false
    stays_above t u order above = ground (
      arith,
      o.le_iff t.score max,
      o.le_iff u.score max,
      o.lt_trans t.score u.score max,
      o.lt_same t.score u.score max,
      o.same_lt t.score u.score max,
      o.same_trans t.score u.score max,
    )

    -- An entry after one that is not below the interval is not below it.
    stays_at_least :
        (t u : ZrangeEntry Score)
        → comes_before u.score u.key t ≡ true
        → double.lt t.score min ≡ false
        → double.lt u.score min ≡ false
    stays_at_least t u order low =
        ground (arith, o.lt_trans t.score u.score min, o.same_lt t.score u.score min)

    above-in_range :
        (t : ZrangeEntry Score) (es : List (ZrangeEntry Score))
        → double.le t.score max ≡ false
        → Every (λ f. comes_before f.score f.key t) es
        → in_range min max es ≡ []
    above-in_range t [] above after = refl
    above-in_range t (u ∷ es) above after =
        ground (arith, stays_above t u after.0 above, above-in_range t es above after.1)

    at_least :
        (room : ℕ) (t : ZrangeEntry Score) (ts : List (Tower Score))
        → double.lt t.score min ≡ false
        → Every (λ f. comes_before f.score f.key t) (entries ts)
        → Sorted (entries ts)
        → up_to max room ts ≡ take room (in_range min max (entries ts))
    at_least zero t ts low after sorted = refl
    at_least (suc room) t [] low after sorted = refl
    at_least (suc room) t (u ∷ ts) low after sorted =
        let low' = stays_at_least t (entry_of u) after.0 low in
        elim (Bool-cases (double.le u.score max)) [
          | inl inside ↦
              ground (arith, inside, low', at_least room (entry_of u) ts low' sorted.0 sorted.1)
          | inr above ↦
              ground (arith, above, above-in_range (entry_of u) (entries ts) above sorted.0)
        ]

    both_loops :
        (room : ℕ) (ts : List (Tower Score))
        → Sorted (entries ts)
        → up_to max room (drop_below min ts) ≡ take room (in_range min max (entries ts))
    both_loops zero ts sorted = refl
    both_loops (suc room) [] sorted = refl
    both_loops (suc room) (t ∷ ts) sorted = elim (Bool-cases (double.lt t.score min)) [
      | inl below ↦ rw below (both_loops (suc room) ts sorted.1)
      | inr low ↦ elim (Bool-cases (double.le t.score max)) [
        | inl inside ↦
            rw (low, inside)
              (ap (λ es. shortened (entry_of t) ∷ es)
                (at_least room (entry_of t) ts low sorted.0 sorted.1))
        | inr above ↦
            rw (low, above)
              (ap (take (suc room)) (sym (above-in_range (entry_of t) (entries ts) above sorted.0)))
      ]
    ]

    -- On a list of entries in order, with enough fuel, and for comparisons of doubles that are an order:
    -- kvs_skiptable_zrange_entries returns the first `max_results` of the entries with a score from
    -- `min` to `max`, in the order of the list, with at most 127 bytes of each key and of each value, and
    -- leaves the list with its towers.
    pub kvs_skiptable_zrange_entries-in_range :
        (fuel : ℕ) (list : SkipList Score) (max_results : ℕ) (ts : List (Tower Score))
        → Represents list ts
        → Sorted (entries ts)
        → length ts < fuel
        → Returns (kvs_skiptable_zrange_entries fuel list min max max_results) λ result.
          Represents result.0 ts × (result.1 ≡ take max_results (in_range min max (entries ts)))
    unfolding kvs_skiptable_zrange_entries lock_list
    kvs_skiptable_zrange_entries-in_range fuel list max_results ts r sorted enough =
        let skipped = skip_below-drop fuel list.memory min ts (next 0 ts) refl r.towers enough in
        let collected =
          collect-up_to list.memory max max_results (drop_below min ts) (next 0 (drop_below min ts))
            refl (Towers-drop list.memory min ts r.towers) in
        (
          (unlock_list (record list { locked = true }), up_to max max_results (drop_below min ts)),
          rw
              (
                r.unlocked,
                Stands-forward_at r.header_stands 0 (omega arith),
                ◌>>=◌,
                skipped,
                collected,
              )
              refl,
          (same_list r, both_loops max_results ts sorted),
        )
