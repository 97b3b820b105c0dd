-- ===== src/Rdb/Load.antt =====
-- `rdb_verify_file_integrity` and `kvs_rdb_load` of kv_RDB.c. A file is the list of its bytes, `none`
-- where it cannot be opened. Loading is modelled while memory lasts.
use kv_study.Prelude.{
  ℕ, zero, suc, ◌+◌, ◌-◌, ◌*◌, ◌^◌, Bool, true, not, ◌||◌, Option, none, some, List, [], ◌∷◌, ◌==◌,
  ltb, if◌then◌else◌, length, take, drop, ℤ, pos, negsuc, is_neg, Str, str_eq, Run, ok, ◌>>=◌,
}
use kv_study.Array.{kvs_array_set}
use kv_study.Hash.{kvs_hash_set}
use kv_study.Engine.{Engine, TreeOps}
use kv_study.Rdb.Config.{RdbConfig}
use kv_study.Rdb.Crc.{rdb_calculate_crc64}
use kv_study.Rdb.Format.{
  RdbHeader, rdb_magic, rdb_version, header_size, footer_size, get_le32, get_le64, read_header,
  eof_marker,
}

-- The checks of the footer and of the checksum, for a file of which the header is `h`.
unfoldable pub verify_footer : Bool → RdbHeader → List ℕ → ℤ
unfolding get_le32 get_le64
verify_footer granted h bytes =
    let size = length bytes in
    let footer = drop (size - footer_size) bytes in
    let buffer = take h.data_size (drop header_size bytes) in
    if ltb size (header_size + h.data_size + footer_size)
    then negsuc 0
    else if not (str_eq (take 4 footer) eof_marker)
    then negsuc 0
    else if not (get_le32 (drop 12 footer) == footer_size)
    then negsuc 0
    else if not granted
    then negsuc 0
    else if not (length buffer == h.data_size)
    then negsuc 0
    else if rdb_calculate_crc64 buffer == get_le64 (drop 4 footer)
    then pos 0
    else negsuc 0

unfoldable pub rdb_verify_file_integrity : RdbConfig → Bool → Option (List ℕ) → ℤ
unfolding verify_footer
rdb_verify_file_integrity c granted none = negsuc 0
rdb_verify_file_integrity c granted (some bytes) =
    let h = read_header bytes in
    if ltb (length bytes) header_size
    then negsuc 0
    else if not (h.magic == rdb_magic)
    then negsuc 0
    else if not (h.version == rdb_version)
    then negsuc 0
    else if c.rdb_crc64
    then verify_footer granted h bytes
    else pos 0

pub record Entry : Type 0 where
  pub kind : ℕ
  pub key : Str
  pub value : Str
  pub consumed : ℕ

-- A `char *` that was filled with bytes and closed with a NUL: the string ends at the first NUL.
unfoldable pub c_string : List ℕ → Str
c_string [] = []
c_string (b ∷ bs) = if b == 0 then [] else b ∷ c_string bs

unfoldable pub get_u16 : List ℕ → Option ℕ
get_u16 (a ∷ b ∷ rest) = some (a + b * 2 ^ 8)
get_u16 _ = none

-- The value of a record whose type and key are read; `at` is where it begins.
unfoldable pub read_value : ℕ → Str → ℕ → List ℕ → Option Entry
unfolding get_u16 c_string
read_value kind key at rest = elim (get_u16 rest) [
  | none ↦ none
  | some val_len ↦
      let value = take val_len (drop 2 rest) in
      if length value == val_len
      then some
          (record { kind = kind; key = key; value = c_string value; consumed = at + 2 + val_len })
      else none
]

-- One round of the loop up to the calls that store the record; `none` where it leaves the loop.
unfoldable pub read_record : List ℕ → Option Entry
unfolding get_u16 c_string read_value
read_record [] = none
read_record (kind ∷ rest) = elim (get_u16 rest) [
  | none ↦ none
  | some key_len ↦
      let key = take key_len (drop 2 rest) in
      if key_len == 0 || ltb 1024 key_len
      then none
      else if length key == key_len
      then read_value kind (c_string key) (3 + key_len) (drop (2 + key_len) rest)
      else none
]

module _ (trees : TreeOps) {Zset : Type 0} where
  open trees use {Tree, kvs_rbtree_set}

  -- `switch (type)`: 0 the array, 1 the tree, 2 the hash table; another type is passed over.
  unfoldable pub store_entry : Entry → Engine Tree Zset → Run (Engine Tree Zset)
  store_entry entry e =
      if entry.kind == 0
      then (do
        r ← kvs_array_set true true e.array (some entry.key) (some entry.value)
        ok (record e { array = r.0 }))
      else if entry.kind == 1
      then (do
        r ← kvs_rbtree_set e.tree (some entry.key) (some entry.value)
        ok (record e { tree = r.0 }))
      else if entry.kind == 2
      then (do
        r ← kvs_hash_set true true true e.hash (some entry.key) (some entry.value)
        ok (record e { hash = r.0 }))
      else ok e

  -- `while (ftell (fp) < data_end && !feof (fp))`, on the bytes from the position on, of which `left`
  -- belong to the data; the number of records loaded comes back. Every round takes a byte at least, so
  -- the length of `rest` is fuel enough.
  unfoldable pub load_records : ℕ → ℕ → List ℕ → Engine Tree Zset → Run (Engine Tree Zset × ℕ)
  unfolding read_record store_entry
  load_records zero left rest e = ok (e, 0)
  load_records (suc fuel) zero rest e = ok (e, 0)
  load_records (suc fuel) (suc left) rest e = elim (read_record rest) [
    | none ↦ ok (e, 0)
    | some entry ↦ do
      e' ← store_entry entry e
      (last, n) ← load_records fuel (suc left - entry.consumed) (drop entry.consumed rest) e'
      ok (last, n + 1)
  ]

  unfoldable pub kvs_rdb_load :
      RdbConfig → Bool → Option (List ℕ) → Engine Tree Zset → Run (Engine Tree Zset × ℤ)
  unfolding rdb_verify_file_integrity load_records
  kvs_rdb_load c granted none e = if not c.rdb_enabled then ok (e, pos 0) else ok (e, negsuc 0)
  kvs_rdb_load c granted (some bytes) e =
      let rest = drop header_size bytes in
      let loaded = load_records (length rest) (read_header bytes).data_size rest e in
      if not c.rdb_enabled
      then ok (e, pos 0)
      else if is_neg (rdb_verify_file_integrity c granted (some bytes))
      then ok (e, negsuc 0)
      else (do r ← loaded; ok (r.0, pos 0))
