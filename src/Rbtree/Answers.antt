-- ===== src/Rbtree/Answers.antt =====
-- What the calls of kvs_rbtree.c that search the tree answer.
use kv_study.Prelude.{
  ℕ, ◌<◌, ◌≡◌, refl, sym, ◌∙◌, ap, ◌==◌, if◌then◌else◌, Option, none, some, [], ℤ, pos, Ptr, Str,
  Run, ok, ◌>>=◌, arith,
}
use kv_study.Rbtree.{Rbtree}
use kv_study.Rbtree.Shape.{Tree, leaf, node, Trail, address, occurs, Place}
use kv_study.Rbtree.Seek.{seek, height, seek-Place, search-seek, seek-plug}
use kv_study.Rbtree.Calls.{rbtree_search, search_from, kvs_rbtree_get, kvs_rbtree_exist}
use kv_study.Rbtree.Entries.{entries, find}
use kv_study.Rbtree.Order.{value_at, seek-find}
use kv_study.Rbtree.Insertion.{occurs-plug}
use kv_study.Rbtree.State.{Represents}

-- The answer to a search.
abbrev pub pointer : Option Ptr → Ptr
pointer none = Ptr.null
pointer (some p) = p

-- The node that the search finds.
search_result :
    (fuel : ℕ) (t : Rbtree) (u : Tree) (key : Str)
    → Represents t u
    → height u < fuel
    → rbtree_search fuel t key ≡ ok (address t.nil (seek key u []).1)
unfolding rbtree_search
search_result fuel t u key rep enough =
    ap (search_from fuel t key) rep.place.above ∙ search-seek fuel t key [] u enough rep.place

-- The answers that depend on whether the search ends at a node.
answer {ℓ} :
    {A : Type ℓ} (t : Rbtree) (path : Trail) (u : Tree) (missing : A) (there : ℕ → A)
    → Place t path u
    → occurs 0 u ≡ 0
    → (let x = address t.nil u in
        if x == 0 then missing else if x == t.nil then missing else there x)
      ≡ elim u [ leaf ↦ missing | node c l r ↦ there c.addr ]
unfolding occurs
answer t path leaf missing there p no_null = ground arith
answer t path (node c l r) missing there p no_null = ground (arith, p.no_nil)

-- A call whose answer depends on whether the search ends at a node.
pub call_answer {ℓ} :
    {A : Type ℓ} (fuel : ℕ) (t : Rbtree) (u : Tree) (key : Str) (missing : Run A)
    (there : ℕ → Run A)
    → Represents t u
    → height u < fuel
    → (rbtree_search fuel t key >>= λ x.
        if x == 0 then missing else if x == t.nil then missing else there x)
      ≡ elim (seek key u []).1 [ leaf ↦ missing | node c l r ↦ there c.addr ]
call_answer fuel t u key missing there rep enough =
    let path = (seek key u []).0 in
    let found = (seek key u []).1 in
    let none_there : occurs 0 found ≡ 0 =
      ground (
        arith,
        sym (occurs-plug 0 path found) ∙ ap (occurs 0) (seek-plug key u []) ∙ rep.no_null,
      ) in
    ap (λ r. r >>= λ x. if x == 0 then missing else if x == t.nil then missing else there x)
      (search_result fuel t u key rep enough)
    ∙ answer t path found missing there (seek-Place t key u [] rep.place) none_there

read_value :
    (t : Rbtree) (path : Trail) (u : Tree)
    → Place t path u
    → elim u [ leaf ↦ ok Ptr.null | node c l r ↦ ok (t.heap c.addr).value ]
      ≡ ok (pointer (value_at u))
read_value t path leaf p = refl
read_value t path (node c l r) p = ap (λ n. ok n.value) p.below.0

-- With fuel for the height, a call ends with the value of the key, or NULL where it has none.
pub kvs_rbtree_get-find :
    (fuel : ℕ) (t : Rbtree) (u : Tree) (key : Str)
    → Represents t u
    → height u < fuel
    → kvs_rbtree_get fuel t (some key) ≡ ok (pointer (find key (entries u)))
unfolding kvs_rbtree_get
kvs_rbtree_get-find fuel t u key rep enough =
    call_answer fuel t u key (ok Ptr.null) (λ x. ok (t.heap x).value) rep enough
    ∙ read_value t (seek key u []).0 (seek key u []).1 (seek-Place t key u [] rep.place)
    ∙ ap (λ o. ok (pointer o)) (seek-find key u [] rep.sorted)

-- 0 for a key that is there, 1 for another.
abbrev pub presence : Option Ptr → ℤ
presence none = pos 1
presence (some p) = pos 0

answer_presence :
    (u : Tree) → elim u [ leaf ↦ ok (pos 1) | node c l r ↦ ok (pos 0) ] ≡ ok (presence (value_at u))
answer_presence leaf = refl
answer_presence (node c l r) = refl

-- With fuel for the height, a call ends with 0 for a key that is there and 1 for another.
pub kvs_rbtree_exist-find :
    (fuel : ℕ) (t : Rbtree) (u : Tree) (key : Str)
    → Represents t u
    → height u < fuel
    → kvs_rbtree_exist fuel t (some key) ≡ ok (presence (find key (entries u)))
unfolding kvs_rbtree_exist
kvs_rbtree_exist-find fuel t u key rep enough =
    call_answer fuel t u key (ok (pos 1)) (λ x. ok (pos 0)) rep enough
    ∙ answer_presence (seek key u []).1
    ∙ ap (λ o. ok (presence o)) (seek-find key u [] rep.sorted)
