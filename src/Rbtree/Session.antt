-- ===== src/Rbtree/Session.antt =====
-- Sequences of calls of kvs_rbtree.c without deletions. The Booleans of a call say which of its copies
-- are granted.
use kv_study.Prelude.{
  ℕ, zero, suc, ◌+◌, ◌≤◌, ◌<◌, ◌≡◌, refl, sym, ◌∙◌, ap, ap₂, true, false, inl, inr, ◌==◌, none,
  some, List, [], ◌∷◌, length, length-append, ℤ, pos, minus, Bool, ◌&&◌, if◌then◌else◌, Ptr, Str,
  strcmp, order-cases, Run, ok, ◌>>=◌, Returns, arith,
}
use mathlib.Core.Path.{subst}
use kv_study.Rbtree.{Rbtree}
use kv_study.Rbtree.Shape.{Tree, leaf, node, occurs}
use kv_study.Rbtree.Seek.{height}
use kv_study.Rbtree.Calls.{kvs_rbtree_set, kvs_rbtree_get, kvs_rbtree_mod, kvs_rbtree_exist}
use kv_study.Rbtree.Entries.{Entries, entries, find, insort, insort-lt, insort-eq, insort-gt}
use kv_study.Rbtree.Revalue.{replace}
use kv_study.Rbtree.State.{Represents, write-Represents, inserted-Returns}
use kv_study.Rbtree.Answers.{pointer, presence, kvs_rbtree_get-find, kvs_rbtree_exist-find}
use kv_study.Rbtree.Modify.{kvs_rbtree_mod-replace}

-- A call; `set` has the address that the allocation of the node gives.
pub data Call : Type 0 where
  set : ℕ → (key_copied value_copied : Bool) → Str → Str → Call
  change : (copied : Bool) → Str → Str → Call
  get : Str → Call
  exist : Str → Call

pub data Reply : Type 0 where
  status : ℤ → Reply
  value : Ptr → Reply

abbrev pub run_call : ℕ → Rbtree → Call → Run (Rbtree × Reply)
run_call fuel t (set a key_copied value_copied k v) =
    kvs_rbtree_set fuel t a key_copied value_copied (some k) (some v) >>= λ w. ok (w.0, status w.1)
run_call fuel t (change copied k v) =
    kvs_rbtree_mod fuel t copied (some k) (some v) >>= λ w. ok (w.0, status w.1)
run_call fuel t (get k) = kvs_rbtree_get fuel t (some k) >>= λ p. ok (t, value p)
run_call fuel t (exist k) = kvs_rbtree_exist fuel t (some k) >>= λ z. ok (t, status z)

abbrev pub run_calls : ℕ → Rbtree → List Call → Run (Rbtree × List Reply)
run_calls fuel t [] = ok (t, [])
run_calls fuel t (c ∷ cs) =
    run_call fuel t c >>= λ w. run_calls fuel w.0 cs >>= λ v. ok (v.0, w.1 ∷ v.1)

-- The same calls on a sorted list of entries.
abbrev pub spec_call : Entries → Call → Entries × Reply
spec_call es (set a key_copied value_copied k v) =
    if key_copied && value_copied
    then (insort k (Ptr.text v) es, status (pos 0))
    else (es, status (minus 2))
spec_call es (change copied k v) = (
  replace k (if copied then Ptr.text v else Ptr.null) es,
  status (elim (find k es) [ none ↦ pos 1 | some old ↦ if copied then pos 0 else minus 2 ]),
)
spec_call es (get k) = (es, value (pointer (find k es)))
spec_call es (exist k) = (es, status (presence (find k es)))

abbrev pub spec_calls : Entries → List Call → Entries × List Reply
spec_calls es [] = (es, [])
spec_calls es (c ∷ cs) =
    let (es', r) = spec_call es c in let (es'', rs) = spec_calls es' cs in (es'', r ∷ rs)

-- The allocation of a node gives an address that is not NULL, nor that of another node.
abbrev pub Unused : ℕ → List Call → Type 0
Unused a [] = Unit
Unused a (set b kc vc k v ∷ cs) = ((a == b) ≡ false) × Unused a cs
Unused a (_ ∷ cs) = Unused a cs

abbrev pub Fresh : ℕ → Tree → List Call → Type 0
Fresh nil u [] = Unit
Fresh nil u (set a kc vc k v ∷ cs) =
    ((a == 0) ≡ false) × ((a == nil) ≡ false) × (occurs a u ≡ 0) × Unused a cs × Fresh nil u cs
Fresh nil u (_ ∷ cs) = Fresh nil u cs

Fresh-insert :
    (nil a : ℕ) (u u' : Tree) (cs : List Call)
    → ((b : ℕ) → occurs b u ≡ 0 → (a == b) ≡ false → occurs b u' ≡ 0)
    → Unused a cs
    → Fresh nil u cs
    → Fresh nil u' cs
Fresh-insert nil a u u' [] others unused fresh = tt
Fresh-insert nil a u u' (set b kc vc k v ∷ cs) others (ab, unused) (b0, bn, absent, later, fresh) =
    (b0, bn, others b absent ab, later, Fresh-insert nil a u u' cs others unused fresh)
Fresh-insert nil a u u' (change c k v ∷ cs) others unused fresh =
    Fresh-insert nil a u u' cs others unused fresh
Fresh-insert nil a u u' (get k ∷ cs) others unused fresh =
    Fresh-insert nil a u u' cs others unused fresh
Fresh-insert nil a u u' (exist k ∷ cs) others unused fresh =
    Fresh-insert nil a u u' cs others unused fresh

Fresh-same :
    (nil : ℕ) (u u' : Tree) (cs : List Call)
    → ((b : ℕ) → occurs b u' ≡ occurs b u)
    → Fresh nil u cs
    → Fresh nil u' cs
Fresh-same nil u u' [] same fresh = tt
Fresh-same nil u u' (set b kc vc k v ∷ cs) same (b0, bn, absent, later, fresh) =
    (b0, bn, same b ∙ absent, later, Fresh-same nil u u' cs same fresh)
Fresh-same nil u u' (change c k v ∷ cs) same fresh = Fresh-same nil u u' cs same fresh
Fresh-same nil u u' (get k ∷ cs) same fresh = Fresh-same nil u u' cs same fresh
Fresh-same nil u u' (exist k ∷ cs) same fresh = Fresh-same nil u u' cs same fresh

pub height-entries : (u : Tree) → height u ≤ length (entries u)
height-entries leaf = ground arith
height-entries (node c l r) = ground (
  arith,
  height-entries l,
  height-entries r,
  length-append (entries l) ((c.key, c.value) ∷ entries r),
)

pub length-insort : (k : Str) (p : Ptr) (es : Entries) → length (insort k p es) ≤ suc (length es)
unfolding insort
length-insort k p [] = ground arith
length-insort k p ((x, w) ∷ es) = elim (order-cases (strcmp k x)) [
  | inl e ↦ ground (arith, ap length (insort-lt k p x w es e))
  | inr (inl e) ↦ ground (arith, ap length (insort-eq k p x w es e))
  | inr (inr e) ↦ ground (arith, ap length (insort-gt k p x w es e), length-insort k p es)
]

length-replace : (k : Str) (p : Ptr) (es : Entries) → length (replace k p es) ≡ length es
unfolding replace
length-replace k p [] = refl
length-replace k p ((x, w) ∷ es) = ground (arith, length-replace k p es)

-- What one call leaves for the next.
Leaves : (t : Rbtree) (u : Tree) (c : Call) (cs : List Call) → Rbtree × Reply → Type 0
Leaves t u c cs (t', r) =
    (r ≡ (spec_call (entries u) c).1)
    × ((u' : Tree) × Represents t' u'
        × (entries u' ≡ (spec_call (entries u) c).0)
        × Fresh t'.nil u' cs)

call-Leaves :
    (fuel : ℕ) (t : Rbtree) (u : Tree) (c : Call) (cs : List Call)
    → Represents t u
    → length (entries u) < fuel
    → Fresh t.nil u (c ∷ cs)
    → Returns (run_call fuel t c) (Leaves t u c cs)
unfolding Leaves kvs_rbtree_set
call-Leaves fuel t u (set zero kc vc k v) cs rep enough fresh = absurd (ground (arith, fresh.0))
call-Leaves fuel t u (set (suc a) false vc k v) cs rep enough
      (some_memory, away, absent, unused, fresh) =
    (_, refl, (refl, (u, write-Represents t (suc a) _ u rep absent away, refl, fresh)))
call-Leaves fuel t u (set (suc a) true false k v) cs rep enough
      (some_memory, away, absent, unused, fresh) =
    (_, refl, (refl, (u, write-Represents t (suc a) _ u rep absent away, refl, fresh)))
call-Leaves fuel t u (set (suc a) true true k v) cs rep enough
      (some_memory, away, absent, unused, fresh) =
    let (t', run, (u', rep', inserted, same, others)) =
      inserted-Returns fuel t u a k v rep (ground (arith, height-entries u, enough)) absent away in
    (
      (t', status (pos 0)),
      rw (run, ◌>>=◌) refl,
      (
        refl,
        (
          u',
          rep',
          inserted,
          subst (λ n. Fresh n u' cs) (sym same)
              (Fresh-insert t.nil (suc a) u u' cs others unused fresh),
        ),
      ),
    )
call-Leaves fuel t u (change copied k v) cs rep enough fresh =
    let (w, run, (result, (u', rep', replaced, same, occ))) =
      kvs_rbtree_mod-replace fuel t u copied k v rep (ground (arith, height-entries u, enough)) in
    (
      (w.0, status w.1),
      rw (run, ◌>>=◌) refl,
      (
        ap status result,
        (
          u',
          rep',
          replaced,
          subst (λ n. Fresh n u' cs) (sym same) (Fresh-same t.nil u u' cs occ fresh),
        ),
      ),
    )
call-Leaves fuel t u (get k) cs rep enough fresh = (
  (t, value (pointer (find k (entries u)))),
  rw (kvs_rbtree_get-find fuel t u k rep (ground (arith, height-entries u, enough)), ◌>>=◌) refl,
  (refl, (u, rep, refl, fresh)),
)
call-Leaves fuel t u (exist k) cs rep enough fresh = (
  (t, status (presence (find k (entries u)))),
  rw (kvs_rbtree_exist-find fuel t u k rep (ground (arith, height-entries u, enough)), ◌>>=◌) refl,
  (refl, (u, rep, refl, fresh)),
)

length-spec_call : (es : Entries) (c : Call) → length (spec_call es c).0 ≤ suc (length es)
length-spec_call es (set a kc vc k v) = ground (arith, length-insort k (Ptr.text v) es)
length-spec_call es (change copied k v) =
    ground (arith, length-replace k (if copied then Ptr.text v else Ptr.null) es)
length-spec_call es (get k) = ground arith
length-spec_call es (exist k) = ground arith

-- On the nodes of a sorted red-black tree, any sequence of set, mod, get and exist calls, with or
-- without their copies granted, ends, where the allocation of each node gives a fresh address, with
-- fuel for the entries. Its replies are those of the sorted entries, and it leaves the nodes of a
-- sorted red-black tree with the entries that are left. Deletions are not among the calls.
pub run_calls-entries :
    (fuel : ℕ) (t : Rbtree) (u : Tree) (cs : List Call)
    → Represents t u
    → length (entries u) + length cs < fuel
    → Fresh t.nil u cs
    → Returns (run_calls fuel t cs) (λ w.
      (w.1 ≡ (spec_calls (entries u) cs).1)
      × ((u' : Tree) × Represents w.0 u' × (entries u' ≡ (spec_calls (entries u) cs).0)))
unfolding Leaves
run_calls-entries fuel t u [] rep enough fresh = ((t, []), refl, (refl, (u, rep, refl)))
run_calls-entries fuel t u (c ∷ cs) rep enough fresh =
    let (w, run, (reply, (u', rep', left_over, fresh'))) =
      call-Leaves fuel t u c cs rep (ground (arith, enough)) fresh in
    let (v, rest, (replies, (u'', rep'', end))) =
      run_calls-entries fuel w.0 u' cs rep'
        (ground (arith, enough, ap length left_over, length-spec_call (entries u) c)) fresh' in
    (
      (v.0, w.1 ∷ v.1),
      rw (run, ◌>>=◌, rest) refl,
      (
        ap₂ (λ r rs. r ∷ rs) reply (replies ∙ ap (λ es. (spec_calls es cs).1) left_over),
        (u'', rep'', end ∙ ap (λ es. (spec_calls es cs).0) left_over),
      ),
    )
