-- ===== src/Rdb/Roundtrip.antt =====
-- A file that `kvs_rdb_save` writes without a checksum, loaded by `kvs_rdb_load`.
use kv_study.Prelude.{
  ℕ, zero, suc, ◌+◌, ◌-◌, ◌≤◌, ◌<◌, ◌≡◌, refl, ◌∙◌, ap, some, List, [], ◌∷◌, ◌++◌, length, drop,
  length-append, drop-append, Str, Run, ok, fault, deadlock, ◌>>=◌, arith,
}
use mathlib.Core.List.{append_assoc}
use native.Mathlib.Numerals.{add-one}
use kv_study.Engine.{Engine, TreeOps}
use kv_study.Rdb.Format.{encode_record}
use kv_study.Rdb.Load.{Entry, read_record, store_entry, load_records}
use kv_study.Rdb.Records.{Loads, read_record-encode_record, length-encode_record}

-- The type of a record, its key and its value.
abbrev pub Record : Type 0
Record = ℕ × Str × Str

abbrev pub encode_all : List Record → List ℕ
encode_all [] = []
encode_all ((kind, key, value) ∷ rs) = encode_record kind key value ++ encode_all rs

abbrev pub AllLoad : List Record → Type 0
AllLoad [] = Unit
AllLoad ((kind, key, value) ∷ rs) = (kind < 256) × Loads key value × AllLoad rs

abbrev pub entry_of : Record → Entry
entry_of (kind, key, value) = record {
  kind = kind;
  key = key;
  value = value;
  consumed = 5 + length key + length value;
}

module _ (trees : TreeOps) {Zset : Type 0} where
  open trees use {Tree}

  -- The records stored one after the other.
  abbrev pub stored : List Record → Engine Tree Zset → Run (Engine Tree Zset)
  stored [] e = ok e
  stored (r ∷ rs) e = store_entry trees (entry_of r) e >>= stored rs

  load_step :
      (fuel left : ℕ) (bytes : List ℕ) (entry : Entry) (e : Engine Tree Zset)
      → 1 ≤ left
      → read_record bytes ≡ some entry
      → load_records trees (suc fuel) left bytes e ≡ (do
        e' ← store_entry trees entry e
        (last, n) ← load_records trees fuel (left - entry.consumed) (drop entry.consumed bytes) e'
        ok (last, n + 1))
  unfolding load_records
  load_step fuel zero bytes entry e low read = absurd (omega arith)
  load_step fuel (suc left) bytes entry e low read = rw (load_records, read)

  abbrev one_more : Engine Tree Zset × ℕ → Run (Engine Tree Zset × ℕ)
  one_more (last, m) = ok (last, m + 1)

  abbrev with_count : ℕ → Engine Tree Zset → Run (Engine Tree Zset × ℕ)
  with_count n last = ok (last, n)

  -- What follows the first record, whatever storing it did.
  after_store :
      (n : ℕ) (r : Run (Engine Tree Zset)) (load : Engine Tree Zset → Run (Engine Tree Zset × ℕ))
      (store : Engine Tree Zset → Run (Engine Tree Zset))
      → ((e : Engine Tree Zset) → load e ≡ (store e >>= with_count n))
      → (r >>= λ e'. load e' >>= one_more) ≡ (r >>= store >>= with_count (suc n))
  after_store n fault load store ih = refl
  after_store n deadlock load store ih = refl
  after_store n (ok e) load store ih = rw (ih e) (counted (store e))
    where
      counted :
          (s : Run (Engine Tree Zset))
          → (s >>= with_count n >>= one_more) ≡ (s >>= with_count (suc n))
      counted fault = refl
      counted deadlock = refl
      counted (ok last) = ap (λ m. ok (last, m)) (add-one n)

  first_record :
      (fuel : ℕ) (kind : ℕ) (key value : Str) (rs : List Record) (rest : List ℕ)
      (e : Engine Tree Zset)
      → kind < 256
      → Loads key value
      → ((e' : Engine Tree Zset)
          → load_records trees fuel (length (encode_all rs)) (encode_all rs ++ rest) e'
            ≡ (stored rs e' >>= λ last. ok (last, length rs)))
      → load_records trees
          (suc fuel)
          (length (encode_all ((kind, key, value) ∷ rs)))
          (encode_all ((kind, key, value) ∷ rs) ++ rest)
          e
        ≡ (stored ((kind, key, value) ∷ rs) e >>= λ last. ok (last, suc (length rs)))
  first_record fuel kind key value rs rest e byte l ih =
      let front = encode_record kind key value in
      let entry = entry_of (kind, key, value) in
      let size = length-encode_record kind key value byte l in
      let behind = encode_all rs ++ rest in
      let all = length-append front (encode_all rs) in
      let left : length (front ++ encode_all rs) - entry.consumed ≡ length (encode_all rs) =
        omega (arith, size, all) in
      let read = read_record-encode_record kind key value behind byte l in
      let next = drop-append front behind entry.consumed size in
      let step =
        load_step fuel (length (front ++ encode_all rs)) (front ++ behind) entry e
          (omega (arith, size, all)) read in
      rw (append_assoc front (encode_all rs) rest) (
        step
        ∙ rw (left, next)
            (after_store (length rs) (store_entry trees entry e)
              (load_records trees fuel (length (encode_all rs)) behind) (stored rs) ih))

  -- The loop loads exactly the records that were written, in their order, and stops at the end of
  -- the data, whatever follows.
  pub load_records-encode_all :
      (rs : List Record) (rest : List ℕ) (fuel : ℕ) (e : Engine Tree Zset)
      → AllLoad rs
      → length (encode_all rs ++ rest) ≤ fuel
      → load_records trees fuel (length (encode_all rs)) (encode_all rs ++ rest) e
        ≡ (stored rs e >>= λ last. ok (last, length rs))
  unfolding load_records
  load_records-encode_all [] rest zero e all le = refl
  load_records-encode_all [] rest (suc fuel) e all le = refl
  load_records-encode_all ((kind, key, value) ∷ rs) rest zero e (byte, l, all) le =
      let size = length-encode_record kind key value byte l in
      let behind = encode_all rs ++ rest in
      let split = append_assoc (encode_record kind key value) (encode_all rs) rest in
      let whole = ap length split ∙ length-append (encode_record kind key value) behind in
      absurd (omega (arith, size, whole))
  load_records-encode_all ((kind, key, value) ∷ rs) rest (suc fuel) e (byte, l, all) le =
      let size = length-encode_record kind key value byte l in
      let behind = encode_all rs ++ rest in
      let split = append_assoc (encode_record kind key value) (encode_all rs) rest in
      let whole = ap length split ∙ length-append (encode_record kind key value) behind in
      first_record fuel kind key value rs rest e byte l
        λ e'. load_records-encode_all rs rest fuel e' all (omega (arith, size, whole))
