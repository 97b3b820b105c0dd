-- ===== src/Rbtree/Insert/Hang.antt =====
-- `rbtree_insert` of kvs_rbtree.c hangs the new node up where the search for its key ended.
use Prim.Native.Nat.{Ordering}
use kv_study.Prelude.{
  ℕ, ◌+◌, ◌≤◌, ◌≡◌, refl, sym, ◌∙◌, ap, ◌⊎◌, inl, inr, false, Bool-cases, ==_iff, ◌==◌,
  if◌then◌else◌, [], ◌∷◌, Ptr, Str, strcmp, ok, Returns, arith,
}
use kv_study.Rbtree.{
  Side, left, right, Color, Rbtree, set_left, set_right, set_parent, set_color, compare_keys,
}
use kv_study.Rbtree.Shape.{
  Cell, leaf, node, Step, Trail, address, node_at, occurs, occurs_path, parent_of, Place,
  Below-frame, Above-frame, key-node_at, same_address,
}
use kv_study.Rbtree.Rotate.{with_child}
use kv_study.Rbtree.Seek.{direction, Follows}
use kv_study.Rbtree.Insert.{hang_up, clear_links}

-- A node that is not in the tree, with the key that leads along the path.
pub record Free (t : Rbtree) (z : ℕ) (k : Str) (path : Trail) : Type 0 where
  pub absent : occurs_path z path ≡ 0
  pub away : (z == t.nil) ≡ false
  pub key : (t.heap z).key ≡ Ptr.text k

abbrev pub new_cell : Rbtree → ℕ → Str → Cell
new_cell t z k = record { addr = z; color = Color.red; key = k; value = (t.heap z).value }

-- The nodes after `hang_up`: the new one below `p`, which has it at the side.
record Hung (t t' : Rbtree) (z p : ℕ) (s : Side) : Type 0 where
  at_z : t'.heap z ≡ record (t.heap z) { parent = p }
  at_p : t'.heap p ≡ with_child s z (t.heap p)
  root : t'.root ≡ t.root
  nil : t'.nil ≡ t.nil
  rest : (a : ℕ) → (a == z) ≡ false → (a == p) ≡ false → t'.heap a ≡ t.heap a

-- The keys that `hang_up` compares are those of before it wrote the parent.
hang_up_side :
    (t : Rbtree) (z p : ℕ) (k k' : Str) (o : Ordering)
    → (p == t.nil) ≡ false
    → (p == z) ≡ false
    → (t.heap z).key ≡ Ptr.text k
    → (t.heap p).key ≡ Ptr.text k'
    → strcmp k k' ≡ o
    → hang_up t z p ≡ elim o [
      | Ordering.lt ↦ ok (set_left p z (set_parent z p t))
      | _ ↦ ok (set_right p z (set_parent z p t))
    ]
unfolding hang_up set_parent compare_keys
hang_up_side t z p k k' o away pz kz kp e =
    let own : ((set_parent z p t).heap z).key ≡ Ptr.text k = ground arith in
    let theirs : ((set_parent z p t).heap p).key ≡ Ptr.text k' = ground arith in
    rw (away, own, theirs, e) refl

hang_up-Hung :
    (t : Rbtree) (z p : ℕ) (k k' : Str) (s : Side)
    → (p == t.nil) ≡ false
    → (p == z) ≡ false
    → (z == p) ≡ false
    → (t.heap z).key ≡ Ptr.text k
    → (t.heap p).key ≡ Ptr.text k'
    → strcmp k k' ≡ direction s
    → Returns (hang_up t z p) (λ t'. Hung t t' z p s)
unfolding hang_up set_left set_right set_parent compare_keys
hang_up-Hung t z p k k' left away pz zp kz kp e = (
  set_left p z (set_parent z p t),
  hang_up_side t z p k k' Ordering.lt away pz kz kp e,
  record { at_z = ground arith; at_p = ground arith; root = refl; nil = refl; rest = ground arith },
)
hang_up-Hung t z p k k' right away pz zp kz kp e = (
  set_right p z (set_parent z p t),
  hang_up_side t z p k k' Ordering.gt away pz kz kp e,
  record { at_z = ground arith; at_p = ground arith; root = refl; nil = refl; rest = ground arith },
)

clear_links-heap :
    (t : Rbtree) (z a : ℕ)
    → (clear_links t z).heap a ≡ (
        if a == z
        then record (t.heap z) { color = Color.red; right = t.nil; left = t.nil }
        else t.heap a)
unfolding clear_links set_left set_right set_color
clear_links-heap t z a = ground arith

clear_links-root :
    (t : Rbtree) (z : ℕ) → ((clear_links t z).root ≡ t.root) × ((clear_links t z).nil ≡ t.nil)
unfolding clear_links set_left set_right set_color
clear_links-root t z = (refl, refl)

with_near :
    (s : Side) (c : Cell) (q near far z : ℕ)
    → with_child s z (node_at s c q near far) ≡ node_at s c q z far
with_near left c q near far z = refl
with_near right c q near far z = refl

-- What is neither of two nodes, or one that is counted, is away from the rest.
apart :
    (t t' : Rbtree) (z a x : ℕ) (u : ℕ → ℕ)
    → ((a == z) ≡ false → (a == x) ≡ false → t'.heap a ≡ t.heap a)
    → u z ≡ 0
    → (a ≡ x → u a ≡ 0)
    → (t'.heap a ≡ t.heap a) ⊎ (u a ≡ 0)
apart t t' z a x u others absent there = elim (Bool-cases (a == z)) [
  | inl e ↦ inr (ap u ((==_iff a z).0 e) ∙ absent)
  | inr az ↦ elim (Bool-cases (a == x)) [
    | inl e ↦ inr (there ((==_iff a x).0 e))
    | inr ax ↦ inl (others az ax)
  ]
]

counted_there :
    (a x n m : ℕ) → a ≡ x → 0 + ((if x == a then 1 else 0) + (n + m)) ≤ 1 → (n ≡ 0) × (m ≡ 0)
counted_there a x n m e once = (ground arith, ground arith)

-- A tree that has one more leaf, and nothing else has changed.
grown-Place :
    (t t' : Rbtree) (c : Cell) (s : Step) (path : Trail)
    → Place t (s ∷ path) leaf
    → occurs_path c.addr (s ∷ path) ≡ 0
    → (c.addr == t.nil) ≡ false
    → t'.nil ≡ t.nil
    → t'.root ≡ t.root
    → t'.heap c.addr ≡ node_at left c s.cell.addr t.nil t.nil
    → t'.heap s.cell.addr
      ≡ node_at s.side s.cell (parent_of t.nil path) c.addr (address t.nil s.sibling)
    → ((a : ℕ) → (a == c.addr) ≡ false → (a == s.cell.addr) ≡ false → t'.heap a ≡ t.heap a)
    → Place t' (s ∷ path) (node c leaf leaf)
unfolding occurs occurs_path
grown-Place t t' c s path p absent away n root at_c at_s others =
    let (e, bs, above) = p.above in
    record {
      above = (
        at_s
            ∙ sym
                (ap (λ m. node_at s.side s.cell (parent_of m path) c.addr (address m s.sibling)) n),
        Below-frame t t' s.cell.addr s.sibling n
            (λ a.
              apart t t' c.addr a s.cell.addr (λ b. occurs b s.sibling) (others a)
                (ground (arith, absent))
                (λ e.
                  (counted_there a s.cell.addr (occurs a s.sibling) (occurs_path a path) e
                    (p.once a)).0))
            bs,
        Above-frame t t' path s.cell.addr n root
            (λ a.
              apart t t' c.addr a s.cell.addr (λ b. occurs_path b path) (others a)
                (ground (arith, absent))
                (λ e.
                  (counted_there a s.cell.addr (occurs a s.sibling) (occurs_path a path) e
                    (p.once a)).1))
            above,
      );
      below = (at_c ∙ sym (ap (λ m. node_at left c s.cell.addr m m) n), tt, tt);
      once = λ a. counted a;
      no_nil = rw n (ground (arith, p.no_nil));
      nil_black =
          ap (λ m. (t'.heap m).color) n
          ∙ ap (λ m. m.color) (others t.nil (ground arith) (ground (arith, p.no_nil)))
          ∙ p.nil_black;
    }
  where
    counted : (a : ℕ) → (if c.addr == a then 1 else 0) + 0 + occurs_path a (s ∷ path) ≤ 1
    counted a = elim (Bool-cases (c.addr == a)) [
      | inl e ↦ rw e (
          ground (arith, ap (λ b. occurs_path b (s ∷ path)) (sym ((==_iff c.addr a).0 e)) ∙ absent))
      | inr e ↦ rw e (p.once a)
    ]

cleared_z :
    (t t' : Rbtree) (z p : ℕ) (k : Str) (s : Side)
    → (t.heap z).key ≡ Ptr.text k
    → Hung t t' z p s
    → (clear_links t' z).heap z ≡ node_at left (new_cell t z k) p t.nil t.nil
cleared_z t t' z p k s key h =
    clear_links-heap t' z z
    ∙ ap
        (λ b.
          if b
          then record (t'.heap z) { color = Color.red; right = t'.nil; left = t'.nil }
          else t'.heap z)
        (same_address z)
    ∙ rw (h.at_z, h.nil, key) refl

cleared_other :
    (t t' : Rbtree) (z a : ℕ)
    → (a == z) ≡ false
    → t'.heap a ≡ t.heap a
    → (clear_links t' z).heap a ≡ t.heap a
cleared_other t t' z a az e =
    clear_links-heap t' z a
    ∙ ap
        (λ b.
          if b
          then record (t'.heap z) { color = Color.red; right = t'.nil; left = t'.nil }
          else t'.heap a)
        az
    ∙ e

Hung-Place :
    (t t' : Rbtree) (z : ℕ) (k : Str) (s : Step) (path : Trail)
    → Place t (s ∷ path) leaf
    → Free t z k (s ∷ path)
    → (s.cell.addr == z) ≡ false
    → Hung t t' z s.cell.addr s.side
    → Place (clear_links t' z) (s ∷ path) (node (new_cell t z k) leaf leaf)
Hung-Place t t' z k s path p f sz h =
    let (same_root, same_nil) = clear_links-root t' z in
    grown-Place t (clear_links t' z) (new_cell t z k) s path p f.absent f.away (same_nil ∙ h.nil)
      (same_root ∙ h.root) (cleared_z t t' z s.cell.addr k s.side f.key h)
      (clear_links-heap t' z s.cell.addr
        ∙ ap
            (λ b.
              if b
              then record (t'.heap z) { color = Color.red; right = t'.nil; left = t'.nil }
              else t'.heap s.cell.addr)
            sz
        ∙ h.at_p
        ∙ ap (with_child s.side z) p.above.0
        ∙ with_near s.side s.cell (parent_of t.nil path) t.nil (address t.nil s.sibling) z)
      (λ a az ax. cleared_other t t' z a az (h.rest a az ax))

-- Below a parent.
hang_below :
    (t : Rbtree) (z : ℕ) (k : Str) (s : Step) (path : Trail)
    → Place t (s ∷ path) leaf
    → Follows k (s ∷ path)
    → Free t z k (s ∷ path)
    → Returns
        (hang_up t z s.cell.addr)
        (λ t'. Place (clear_links t' z) (s ∷ path) (node (new_cell t z k) leaf leaf))
unfolding occurs_path
hang_below t z k s path p follows f =
    let sz : (s.cell.addr == z) ≡ false = ground (arith, f.absent) in
    let zs : (z == s.cell.addr) ≡ false = ground (arith, f.absent) in
    let (t', run, h) =
      hang_up-Hung t z s.cell.addr k s.cell.key s.side (ground (arith, p.no_nil)) sz zs f.key
        (ap (λ n. n.key) p.above.0
          ∙ key-node_at s.side s.cell (parent_of t.nil path) t.nil (address t.nil s.sibling))
        follows.0 in
    (t', run, Hung-Place t t' z k s path p f sz h)

-- As the root of an empty tree.
hang_root :
    (t : Rbtree) (z : ℕ) (k : Str)
    → Place t [] leaf
    → Free t z k []
    → Returns
        (hang_up t z t.nil)
        (λ t'. Place (clear_links t' z) [] (node (new_cell t z k) leaf leaf))
unfolding hang_up clear_links set_left set_right set_color set_parent occurs occurs_path
hang_root t z k p f =
    let away = f.away in
    (
      record (set_parent z t.nil t) { root = z },
      ground arith,
      record {
        above = refl;
        below = (ground (arith, f.key), tt, tt);
        once = λ a. ground arith;
        no_nil = ground (arith, away);
        nil_black = ground (arith, away, p.nil_black);
      },
    )

-- The end of a search that did not find the key.
pub hang_up-Place :
    (t : Rbtree) (z : ℕ) (k : Str) (path : Trail)
    → Place t path leaf
    → Follows k path
    → Free t z k path
    → Returns
        (hang_up t z (parent_of t.nil path))
        (λ t'. Place (clear_links t' z) path (node (new_cell t z k) leaf leaf))
hang_up-Place t z k [] p follows f = hang_root t z k p f
hang_up-Place t z k (s ∷ path) p follows f = hang_below t z k s path p follows f
