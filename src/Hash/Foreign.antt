-- ===== src/Hash/Foreign.antt =====
-- Keys of kvs_hash.c whose bytes are no ASCII: `_hash` gives them an index before the table.
use kv_study.Prelude.{
  ℕ, ◌*◌, ◌≤◌, ◌<◌, ◌≡◌, refl, [], ◌∷◌, length, negsuc, Str, fault, ◌>>=◌, arith,
}
use kv_study.Hash.{
  KvsHash, locate, kvs_hash_set, kvs_hash_get, kvs_hash_mod, kvs_hash_del, kvs_hash_exist,
}
use kv_study.Hash.Index.{hash_index, sum_pos, sum_neg, hash_index_negative}
use kv_study.Hash.Calls.{Call, set, modify, get, del, exist, call, key_of}

-- Every byte of the key is from 128 to 255, as in UTF-8 text outside ASCII.
abbrev pub IsForeign : Str → Type 0
IsForeign [] = Unit
IsForeign (c ∷ s) = (128 ≤ c) × (c < 256) × IsForeign s

-- As signed numbers the bytes are from -128 to -1.
foreign_sums :
    (s : Str)
    → IsForeign s
    → (sum_pos s ≡ 0) × (length s ≤ sum_neg s) × (sum_neg s ≤ 128 * length s)
unfolding sum_pos sum_neg
foreign_sums [] h = (refl, omega arith, omega arith)
foreign_sums (c ∷ s) h = ground (arith, foreign_sums s h.2)

foreign_index :
    (k : Str) → IsForeign k → 0 < length k → length k < 8 → (n : ℕ) × (hash_index k ≡ negsuc n)
foreign_index k h some_bytes few =
    let (zeros, low, high) = foreign_sums k h in hash_index_negative k (omega arith) (omega arith)

locate-fault : (h : KvsHash) (k : Str) (n : ℕ) → hash_index k ≡ negsuc n → locate h k ≡ fault
unfolding locate
locate-fault h k n e = ground (arith, e)

abbrev Faults : Call → Type 0
Faults c = (h : KvsHash) (n : ℕ) → hash_index (key_of c) ≡ negsuc n → call c h ≡ fault

call-Faults : (c : Call) → Faults c
unfolding call kvs_hash_set kvs_hash_get kvs_hash_mod kvs_hash_del kvs_hash_exist
call-Faults (set node kcopy kvalue k v) h n e = rw (locate-fault h k n e, ◌>>=◌)
call-Faults (modify kvalue k v) h n e = rw (locate-fault h k n e, ◌>>=◌)
call-Faults (get k) h n e = rw (locate-fault h k n e, ◌>>=◌)
call-Faults (del k) h n e = rw (locate-fault h k n e, ◌>>=◌)
call-Faults (exist k) h n e = rw (locate-fault h k n e, ◌>>=◌)

-- Every call, whatever its allocations come to, on a key of one to seven bytes that are all from
-- 128 to 255, reads outside the table, in any state of the table.
pub foreign_key-fault :
    (c : Call) (h : KvsHash)
    → IsForeign (key_of c)
    → 0 < length (key_of c)
    → length (key_of c) < 8
    → call c h ≡ fault
foreign_key-fault c h foreign some_bytes few =
    let (n, e) = foreign_index (key_of c) foreign some_bytes few in call-Faults c h n e
