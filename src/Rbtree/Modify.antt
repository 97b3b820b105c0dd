-- ===== src/Rbtree/Modify.antt =====
-- `kvs_rbtree_mod` of kvs_rbtree.c on the entries of the tree.
use kv_study.Prelude.{
  ℕ, ◌<◌, ◌≡◌, refl, sym, ◌∙◌, ap, Bool, true, false, ◌==◌, if◌then◌else◌, none, some, [], ◌∷◌, ℤ,
  pos, minus, Ptr, Str, ok, ◌>>=◌, Returns, arith,
}
use mathlib.Core.Path.{subst}
use kv_study.Rbtree.{Rbtree, store}
use kv_study.Rbtree.Shape.{
  Cell, Tree, leaf, node, Trail, plug, occurs, Place, Below-frame, Above-frame,
}
use kv_study.Rbtree.Focus.{Place-up}
use kv_study.Rbtree.Seek.{seek, seek-Place, height}
use kv_study.Rbtree.Calls.{rbtree_search, kvs_rbtree_mod}
use kv_study.Rbtree.Entries.{entries, find, Sorted}
use kv_study.Rbtree.Order.{Ends, seek-Ends, value_at, seek-find}
use kv_study.Rbtree.Revalue.{
  replace, replace-absent, replace-Sorted, valued, revalue, revalue-eq, revalue-entries,
  revalue-red_root, revalue-occurs, revalue-Balanced, seek-revalue,
}
use kv_study.Rbtree.State.{Represents}
use kv_study.Rbtree.Answers.{call_answer}

-- `node->value = p`
abbrev write_value : ℕ → Ptr → Rbtree → Rbtree
write_value a p t = store a (record (t.heap a) { value = p }) t

value-Place :
    (t : Rbtree) (p : Ptr) (c : Cell) (l r : Tree) (path : Trail)
    → Place t path (node c l r)
    → Place (write_value c.addr p t) path (node (valued p c) l r)
unfolding occurs
value-Place t p c l r path q =
    let (e, bl, br) = q.below in
    record {
      above =
          Above-frame t (write_value c.addr p t) path c.addr refl refl
            (λ a. ground (arith, q.once a)) q.above;
      below = (
        ground (arith, e),
        Below-frame t (write_value c.addr p t) c.addr l refl (λ a. ground (arith, q.once a)) bl,
        Below-frame t (write_value c.addr p t) c.addr r refl (λ a. ground (arith, q.once a)) br,
      );
      once = λ a. ground (arith, q.once a);
      no_nil = ground (arith, q.no_nil);
      nil_black = ground (arith, q.no_nil, q.nil_black);
    }

plug-Place : (t : Rbtree) (path : Trail) (u : Tree) → Place t path u → Place t [] (plug path u)
plug-Place t [] u p = p
plug-Place t (s ∷ path) u p = plug-Place t path _ (Place-up t s path u p)

revalued-Represents :
    (t t' : Rbtree) (k : Str) (p : Ptr) (u : Tree)
    → Represents t u
    → Place t' [] (revalue k p u)
    → Represents t' (revalue k p u)
revalued-Represents t t' k p u rep place = record {
  place = place;
  balanced = (rep.balanced.0, revalue-Balanced k p u rep.balanced.0 rep.balanced.1);
  black = revalue-red_root k p u ∙ rep.black;
  sorted =
      subst Sorted (sym (revalue-entries k p u rep.sorted))
        (replace-Sorted k p (entries u) rep.sorted);
  no_null = revalue-occurs 0 k p u ∙ rep.no_null;
}

-- What a call leaves and returns: the entries with the new value for the key, if it is there, in the
-- same nodes.
abbrev pub Replaced : (nil : ℕ) (u : Tree) (key : Str) (p : Ptr) (code : ℤ) → Rbtree × ℤ → Type 0
Replaced nil u key p code (t', result) =
    (result ≡ elim (find key (entries u)) [ none ↦ pos 1 | some old ↦ code ])
    × ((u' : Tree) × Represents t' u'
        × (entries u' ≡ replace key p (entries u))
        × (t'.nil ≡ nil)
        × ((b : ℕ) → occurs b u' ≡ occurs b u))

-- The two ends of the search.
mod_at :
    (t : Rbtree) (u : Tree) (key : Str) (p : Ptr) (code : ℤ) (path : Trail) (w : Tree)
    → Represents t u
    → Place t path w
    → Ends key w
    → plug path (revalue key p w) ≡ revalue key p u
    → value_at w ≡ find key (entries u)
    → Returns
        (elim w [ leaf ↦ ok (t, pos 1) | node c l r ↦ ok (write_value c.addr p t, code) ])
        (Replaced t.nil u key p code)
mod_at t u key p code path leaf rep place ends same found = (
  _,
  refl,
  (
    rw (sym found) refl,
    (u, rep, sym (replace-absent key p (entries u) (sym found)), refl, λ b. refl),
  ),
)
mod_at t u key p code path (node c l r) rep place ends same found =
    let moved : Place (write_value c.addr p t) [] (revalue key p u) =
      subst (Place (write_value c.addr p t) [])
        (ap (plug path) (sym (revalue-eq key p c l r ends)) ∙ same)
        (plug-Place (write_value c.addr p t) path _ (value-Place t p c l r path place)) in
    (
      _,
      refl,
      (
        rw (sym found) refl,
        (
          revalue key p u,
          revalued-Represents t (write_value c.addr p t) key p u rep moved,
          revalue-entries key p u rep.sorted,
          refl,
          λ b. revalue-occurs b key p u,
        ),
      ),
    )

mod_Returns :
    (fuel : ℕ) (t : Rbtree) (u : Tree) (key : Str) (p : Ptr) (code : ℤ)
    → Represents t u
    → height u < fuel
    → Returns
        (rbtree_search fuel t key >>= λ x.
          if x == 0
          then ok (t, pos 1)
          else if x == t.nil
          then ok (t, pos 1)
          else ok (write_value x p t, code))
        (Replaced t.nil u key p code)
mod_Returns fuel t u key p code rep enough =
    let (w, run, done) =
      mod_at t u key p code (seek key u []).0 (seek key u []).1 rep
        (seek-Place t key u [] rep.place) (seek-Ends key u []) (seek-revalue key p u)
        (seek-find key u [] rep.sorted) in
    (
      w,
      call_answer fuel t u key (ok (t, pos 1)) (λ x. ok (write_value x p t, code)) rep enough ∙ run,
      done,
    )

-- On the nodes of a sorted red-black tree, with fuel for its height, a call ends with 1 for a key that
-- is not there, and otherwise with 0 and the new value for the key, or with -2 and NULL for it where the
-- copy cannot be allocated. The nodes are the same.
pub kvs_rbtree_mod-replace :
    (fuel : ℕ) (t : Rbtree) (u : Tree) (copied : Bool) (key value : Str)
    → Represents t u
    → height u < fuel
    → Returns (kvs_rbtree_mod fuel t copied (some key) (some value)) (
        Replaced t.nil u key
          (if copied then Ptr.text value else Ptr.null)
          (if copied then pos 0 else minus 2))
unfolding kvs_rbtree_mod
kvs_rbtree_mod-replace fuel t u true key value rep enough =
    mod_Returns fuel t u key (Ptr.text value) (pos 0) rep enough
kvs_rbtree_mod-replace fuel t u false key value rep enough =
    mod_Returns fuel t u key Ptr.null (minus 2) rep enough
