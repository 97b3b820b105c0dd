-- ===== src/Skip/Life.antt =====
-- kvs_skiptable_create gives the empty list, and kvs_skiptable_destory frees every node once.
use kv_study.Prelude.{
  ℕ, zero, suc, ◌<◌, ◌≡◌, refl, ◌∙◌, Bool, true, false, not, ◌&&◌, ◌||◌, ◌==◌, some, List, [], ◌∷◌,
  length, pos, Ptr, Str, ok, ◌>>=◌, arith, Returns,
}
use kv_study.Skip.{
  Double, SkipMemory, SkipList, Allocation, skip_max_level, skip_node_at, free_node, free_text,
  create_skip_node, with_node,
}
use kv_study.Skip.Towers.{Tower, next, Towers, Stands-skip_node_at, Stands-forward_at}
use kv_study.Skip.State.{Apart, Distinct, Represents, Frame, Towers-frame}
use kv_study.Skip.Lists.{flip_eq, All-map}
use kv_study.Skip.Add.{Succeeds}
use kv_study.Skip.Calls.{kvs_skiptable_create, free_nodes, kvs_skiptable_destory}

module _ {Score : Type 0} ⦃double : Double Score⦄ where
  -- Where the allocations of the header succeed, kvs_skiptable_create returns 0 and a list that has no
  -- entries and is not locked.
  pub kvs_skiptable_create-Represents :
      (m : SkipMemory Score) (alloc : Allocation)
      → Succeeds m alloc
      → Returns (kvs_skiptable_create m alloc true) λ result.
        (list : SkipList Score) × (result.0 ≡ some list) × (result.1 ≡ pos 0) × Represents list []
  unfolding kvs_skiptable_create create_skip_node
  kvs_skiptable_create-Represents m alloc s =
      let list : SkipList Score = record {
        memory = with_node m alloc skip_max_level [] [] double.zero_score;
        level = 0;
        header = alloc.address;
        length = pos 0;
        locked = false;
      } in
      (
        (some list, pos 0),
        rw (s.not_null, s.array, ◌>>=◌) refl,
        (
          list,
          refl,
          refl,
          record {
            header_stands = record {
              not_null = s.not_null;
              alive = ground arith;
              room = ground arith;
              links = λ i le. ground arith;
            };
            towers = tt;
            header_apart = tt;
            distinct = tt;
            heights = tt;
            level_bound = omega arith;
            counted = refl;
            unlocked = refl;
          },
        ),
      )

  -- Whether a tower stands at the address.
  abbrev pub is_tower : ℕ → List (Tower Score) → Bool
  is_tower a [] = false
  is_tower a (t ∷ ts) = a == t.address || is_tower a ts

  abbrev dead : SkipMemory Score → ℕ → SkipMemory Score
  dead m a = record m { live = λ b. not (b == a) && m.live b }

  free_node-dead :
      (m : SkipMemory Score) (a : ℕ) (key value : Str)
      → skip_node_at m a ≡ ok (m.nodes a)
      → (m.nodes a).key ≡ Ptr.text key
      → (m.nodes a).value ≡ Ptr.text value
      → free_node m a ≡ ok (dead m a)
  unfolding free_node free_text
  free_node-dead m a key value node k v = rw (node, ◌>>=◌, k, v) refl

  Towers-dead :
      (m : SkipMemory Score) (a : ℕ) (ts : List (Tower Score))
      → Apart a ts
      → Towers m ts
      → Towers (dead m a) ts
  Towers-dead m a ts apart towers =
      Towers-frame m (dead m a) ts
        (All-map (λ t. (a == t.address) ≡ false) (λ t. Frame m (dead m a) t.address) ts
          (λ t e. record {
            same_live = ground (arith, flip_eq a t.address e);
            same_key = refl;
            same_value = refl;
            same_score = refl;
            same_slots = refl;
            same_forward = λ j. refl;
          })
          apart)
        towers

  free_nodes-frees :
      (fuel : ℕ) (m : SkipMemory Score) (ts : List (Tower Score)) (current : ℕ)
      → current ≡ next 0 ts
      → Towers m ts
      → Distinct ts
      → length ts < fuel
      → Returns
          (free_nodes fuel m current)
          λ m'. (b : ℕ) → m'.live b ≡ (not (is_tower b ts) && m.live b)
  unfolding free_nodes
  free_nodes-frees zero m ts current here towers distinct enough = absurd (omega arith)
  free_nodes-frees (suc fuel) m [] current here towers distinct enough =
      (m, rw here refl, λ b. refl)
  free_nodes-frees (suc fuel) m (t ∷ ts) current here towers distinct enough =
      let first : current ≡ t.address = here ∙ ground arith in
      let (m', run, all_dead) =
        free_nodes-frees fuel (dead m t.address) ts (next 0 ts) refl
          (Towers-dead m t.address ts distinct.0 towers.2) distinct.1 (omega arith) in
      (
        m',
        ground (
          arith,
          first,
          towers.0.not_null,
          Stands-forward_at towers.0 0 (omega arith),
          free_node-dead m t.address t.key t.value (Stands-skip_node_at towers.0) towers.1.has_key
              towers.1.has_value,
          run,
        ),
        λ b. all_dead b ∙ ground arith,
      )

  -- On a list whose header has a key and a value, with enough fuel: kvs_skiptable_destory returns, the
  -- header and every node are freed and no other address is, and the list has no header, the level 0 and
  -- the length 0.
  pub kvs_skiptable_destory-frees :
      (fuel : ℕ) (list : SkipList Score) (ts : List (Tower Score)) (key value : Str)
      → Represents list ts
      → (list.memory.nodes list.header).key ≡ Ptr.text key
      → (list.memory.nodes list.header).value ≡ Ptr.text value
      → suc (length ts) < fuel
      → Returns (kvs_skiptable_destory fuel (some list)) λ result.
        (after : SkipList Score) × (result ≡ some after)
        × ((b : ℕ)
            → after.memory.live b ≡ (not (b == list.header || is_tower b ts) && list.memory.live b))
        × (after.header ≡ 0)
        × (after.level ≡ 0)
        × (after.length ≡ pos 0)
  unfolding kvs_skiptable_destory free_nodes
  kvs_skiptable_destory-frees zero list ts key value r k v enough = absurd (omega arith)
  kvs_skiptable_destory-frees (suc fuel) list ts key value r k v enough =
      let m = list.memory in
      let (m', run, all_dead) =
        free_nodes-frees fuel (dead m list.header) ts (next 0 ts) refl
          (Towers-dead m list.header ts r.header_apart r.towers) r.distinct (omega arith) in
      let after : SkipList Score = record list {
        memory = m';
        header = 0;
        level = 0;
        length = pos 0;
      } in
      (
        some after,
        rw
            (
              r.header_stands.not_null,
              Stands-forward_at r.header_stands 0 (omega arith),
              ◌>>=◌,
              free_node-dead m list.header key value (Stands-skip_node_at r.header_stands) k v,
              run,
            )
            refl,
        (after, refl, (λ b. all_dead b ∙ ground arith), refl, refl, refl),
      )
