-- ===== src/Tests/Levels.antt =====
-- Runs of kvs_skiptable.c on small lists. A score is a whole number, or `none` for NaN.
use kv_study.Prelude.{
  ℕ, ◌≡◌, refl, Bool, true, false, not, ◌&&◌, ◌||◌, ◌==◌, ltb, leb, if◌then◌else◌, Option, none,
  some, List, [], ◌∷◌, take, pos, minus, Ptr, Str, codes, strcmp, str_lt, arith, Returns,
}
use kv_study.Skip.{Double, SkipNode, SkipList, Allocation, random_level, climb_level}
use kv_study.Skip.Towers.{Tower}
use kv_study.Skip.State.{Represents}
use kv_study.Skip.Add.{Succeeds}
use kv_study.Skip.Order.{IsOrdered, entries, Sorted, insort, contains}
use kv_study.Skip.Keys.{KeysSorted, remove_key, has_key}
use kv_study.Skip.Zadd.{kvs_skiptable_zadd-insort}
use kv_study.Skip.Zrem.{kvs_skiptable_zrem-remove_key}
use kv_study.Skip.Missed.{kvs_skiptable_zrem-misses}
use kv_study.Skip.Zrange.{in_range, kvs_skiptable_zrange_entries-in_range}
use kv_study.Skip.Life.{is_tower, kvs_skiptable_destory-frees}
use kv_study.Skip.Calls.{
  kvs_skiptable_zadd, kvs_skiptable_zrem, kvs_skiptable_zrange_entries, kvs_skiptable_destory,
  find_zset, find_entry, zset_hash, zset_hash_from,
}

abbrev pub Whole : Type 0
Whole = Option ℕ

abbrev pub both : (ℕ → ℕ → Bool) → Whole → Whole → Bool
both test (some a) (some b) = test a b
both test none b = false
both test (some a) none = false

instance abbrev pub whole_double : Double Whole
whole_double = record {
  zero_score = some 0;
  lt = both ltb;
  same = both λ a b. a == b;
  le = both leb;
}

pub Whole-IsOrdered : IsOrdered Whole
Whole-IsOrdered = ground arith

abbrev header_node : (forward : ℕ → ℕ) → SkipNode Whole
header_node forward = record {
  key = Ptr.text [];
  value = Ptr.text [];
  score = some 0;
  slots = 7;
  forward = forward;
}

-- The header is at 1. The first entry is at 2 with a pointer at level 1, the second at 3 with one pointer.
abbrev pub two_list : (first second : Str) → SkipList Whole
two_list first second = record {
  memory = record {
    nodes = λ b.
        if b == 2
        then record {
          key = Ptr.text first;
          value = Ptr.text first;
          score = some 1;
          slots = 2;
          forward = λ i. if i == 0 then 3 else 0;
        }
        else if b == 3
        then record {
          key = Ptr.text second;
          value = Ptr.text second;
          score = some 2;
          slots = 1;
          forward = λ i. 0;
        }
        else header_node λ i. if leb i 1 then 2 else 0;
    live = λ b. b == 1 || (b == 2 || b == 3);
  };
  level = 1;
  header = 1;
  length = pos 2;
  locked = false;
}

abbrev pub tower : (address : ℕ) → Str → (score height : ℕ) → Tower Whole
tower address key score height = record {
  address = address;
  key = key;
  value = key;
  score = some score;
  height = height;
}

abbrev pub two_towers : (first second : Str) → List (Tower Whole)
two_towers first second = tower 2 first 1 1 ∷ (tower 3 second 2 0 ∷ [])

pub two_list-Represents :
    (first second : Str) → Represents (two_list first second) (two_towers first second)
two_list-Represents first second = record {
  header_stands = record {
    not_null = refl;
    alive = refl;
    room = omega arith;
    links = λ i le. ground arith;
  };
  towers = (
    record { not_null = refl; alive = refl; room = omega arith; links = λ i le. ground arith },
    record { has_key = refl; has_value = refl; has_score = refl },
    (
      record { not_null = refl; alive = refl; room = omega arith; links = λ i le. ground arith },
      record { has_key = refl; has_value = refl; has_score = refl },
      tt,
    ),
  );
  header_apart = (refl, (refl, tt));
  distinct = ((refl, tt), (tt, tt));
  heights = (omega arith, (omega arith, tt));
  level_bound = omega arith;
  counted = refl;
  unlocked = refl;
}

-- The next node is at 4.
abbrev granted : Allocation
granted = record { address = 4; key_copied = true; value_copied = true; forward_allocated = true }

granted-Succeeds : (first second : Str) → Succeeds (two_list first second).memory granted
granted-Succeeds first second = record {
  not_null = refl;
  unused = refl;
  key_duplicated = refl;
  value_duplicated = refl;
  array = refl;
}

-- Two low numbers, then high ones: the level is 2.
abbrev pub draws : ℕ → ℕ
draws n = if ltb n 2 then 65536 else 32768

random_level-draws : random_level draws ≡ 2
unfolding random_level climb_level
random_level-draws = refl

abbrev pub key_a : Str
key_a = codes "a"

abbrev pub key_b : Str
key_b = codes "b"

pub two_Sorted : Sorted (entries (two_towers key_a key_b))
two_Sorted = ((refl, tt), (tt, tt))

two_KeysSorted : KeysSorted (entries (two_towers key_a key_b))
unfolding str_lt
two_KeysSorted = ((refl, tt), (tt, tt))

abbrev Zadded : (key value : Str) (score : Whole) → Type 0
Zadded key value score =
    Returns (kvs_skiptable_zadd 4 (λ i. 0) draws granted (two_list key_a key_b) key value score)
      λ result.
        (ts : List (Tower Whole)) × Represents result.0 ts
        × (entries ts ≡ insort score key value (entries (two_towers key_a key_b)))
        × (result.1
            ≡ (if contains score key (entries (two_towers key_a key_b)) then pos 1 else pos 0))

kvs_skiptable_zadd-insort_example : Zadded key_b key_a (some 1)
kvs_skiptable_zadd-insort_example =
    kvs_skiptable_zadd-insort 4 (λ i. 0) draws granted (two_list key_a key_b) key_b key_a (some 1)
      Whole-IsOrdered (two_towers key_a key_b) (two_list-Represents key_a key_b)
      (granted-Succeeds key_a key_b) two_Sorted (omega arith) (omega arith)

kvs_skiptable_zrem-remove_key_example :
    Returns (kvs_skiptable_zrem 3 (λ i. 0) (two_list key_a key_b) key_b) λ result.
      (ts : List (Tower Whole)) × Represents result.0 ts
      × (entries ts ≡ remove_key key_b (entries (two_towers key_a key_b)))
      × (result.1 ≡ (if has_key key_b (entries (two_towers key_a key_b)) then pos 0 else minus 1))
kvs_skiptable_zrem-remove_key_example =
    kvs_skiptable_zrem-remove_key 3 (λ i. 0) (two_list key_a key_b) key_b (two_towers key_a key_b)
      (two_list-Represents key_a key_b) two_KeysSorted (omega arith)

-- The second entry has the key.
kvs_skiptable_zrem-misses_example :
    Returns (kvs_skiptable_zrem 3 (λ i. 0) (two_list key_b key_a) key_a) λ result.
      (ts : List (Tower Whole)) × Represents result.0 ts
      × (entries ts ≡ entries (two_towers key_b key_a))
      × (result.1 ≡ minus 1)
unfolding strcmp
kvs_skiptable_zrem-misses_example =
    kvs_skiptable_zrem-misses 2 (λ i. 0) (two_list key_b key_a) key_a (tower 2 key_b 1 1)
      (tower 3 key_a 2 0 ∷ []) (two_list-Represents key_b key_a) refl (omega arith, tt)

kvs_skiptable_zrange_entries-in_range_example :
    Returns (kvs_skiptable_zrange_entries 3 (two_list key_a key_b) (some 2) (some 5) 10) λ result.
      Represents result.0 (two_towers key_a key_b)
      × (result.1 ≡ take 10 (in_range (some 2) (some 5) (entries (two_towers key_a key_b))))
kvs_skiptable_zrange_entries-in_range_example =
    kvs_skiptable_zrange_entries-in_range Whole-IsOrdered (some 2) (some 5) 3 (two_list key_a key_b)
      10 (two_towers key_a key_b) (two_list-Represents key_a key_b) two_Sorted (omega arith)

kvs_skiptable_destory-frees_example :
    Returns (kvs_skiptable_destory 4 (some (two_list key_a key_b))) λ result.
      (after : SkipList Whole) × (result ≡ some after)
      × ((b : ℕ)
          → after.memory.live b ≡ (
              not (b == 1 || is_tower b (two_towers key_a key_b))
              && (two_list key_a key_b).memory.live b))
      × (after.header ≡ 0)
      × (after.level ≡ 0)
      × (after.length ≡ pos 0)
kvs_skiptable_destory-frees_example =
    kvs_skiptable_destory-frees 4 (two_list key_a key_b) (two_towers key_a key_b) [] []
      (two_list-Represents key_a key_b) refl refl (omega arith)

-- No set is ever entered into the table.
find_zset_empty : find_zset (λ i. []) key_a ≡ 0
unfolding find_zset find_entry
find_zset_empty = refl

zset_hash_a : zset_hash key_a ≡ 518
unfolding zset_hash zset_hash_from
zset_hash_a = refl
