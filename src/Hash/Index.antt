-- ===== src/Hash/Index.antt =====
-- `_hash` of kvs_hash.c. `char` is signed on the program's target, so a byte from 128 on counts as
-- the byte less 256, and `sum % size` has the sign of `sum`. The sum of a key of less than 2 ^ 24
-- bytes fits an `int`; the protocol and the RDB loader pass at most 1024.
use kv_study.Prelude.{
  ℕ, ◌+◌, ◌-◌, ◌%◌, zero, suc, ◌<◌, ◌≡◌, ◌≢◌, refl, [], ◌∷◌, ltb, leb, if◌then◌else◌, ℤ, pos,
  negsuc, minus, Str, arith,
}

abbrev pub max_table_size : ℕ
max_table_size = 1024

-- The sum of the bytes below 128, and minus the sum of the others as signed numbers.
unfoldable pub sum_pos : Str → ℕ
sum_pos [] = 0
sum_pos (c ∷ s) = (if ltb c 128 then c else 0) + sum_pos s

unfoldable pub sum_neg : Str → ℕ
sum_neg [] = 0
sum_neg (c ∷ s) = (if ltb c 128 then 0 else 256 - c) + sum_neg s

unfoldable pub hash_index : Str → ℤ
unfolding sum_pos sum_neg
hash_index key =
    let p = sum_pos key in
    let n = sum_neg key in
    if leb n p then pos ((p - n) % max_table_size) else minus ((n - p) % max_table_size)

-- Every byte of the key is ASCII.
abbrev pub IsAscii : Str → Type 0
IsAscii [] = Unit
IsAscii (c ∷ s) = (c < 128) × IsAscii s

ascii-sum_neg : (key : Str) → IsAscii key → sum_neg key ≡ 0
unfolding sum_neg
ascii-sum_neg [] h = omega arith
ascii-sum_neg (c ∷ s) h = ground (arith, ascii-sum_neg s h.1)

-- An ASCII key is always put into one of the 1024 slots.
pub hash_index_ascii :
    (key : Str) → IsAscii key → (i : ℕ) × (hash_index key ≡ pos i) × (i < max_table_size)
unfolding hash_index
hash_index_ascii key h =
    (sum_pos key % max_table_size, ground (arith, ascii-sum_neg key h), omega arith)

minus-negsuc : (k : ℕ) → k ≢ 0 → (n : ℕ) × (minus k ≡ negsuc n)
minus-negsuc zero h = absurd (h refl)
minus-negsuc (suc k) h = (k, refl)

-- A key whose signed bytes sum to a negative number, no multiple of 1024, has a negative index.
pub hash_index_negative :
    (key : Str)
    → sum_pos key < sum_neg key
    → (sum_neg key - sum_pos key) % max_table_size ≢ 0
    → (n : ℕ) × (hash_index key ≡ negsuc n)
unfolding hash_index
hash_index_negative key lt ne =
    let (n, e) = minus-negsuc ((sum_neg key - sum_pos key) % max_table_size) ne in
    (n, ground (arith, e))
