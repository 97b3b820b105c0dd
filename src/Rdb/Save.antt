-- ===== src/Rdb/Save.antt =====
-- `kvs_rdb_save` of kv_RDB.c with its traversals. The result is what the file holds afterwards,
-- `none` where it was not opened, with the code that is returned. `writable` says whether `fopen`
-- succeeds, `granted` whether the buffer can be allocated, and `now` is `time (NULL)`. The copy of an
-- older file that is made first, into another file, is left out, and so is `last_save_time`.
use kv_study.Prelude.{
  ℕ, zero, suc, ◌+◌, ◌-◌, ◌%◌, ◌^◌, Bool, not, Option, none, some, List, [], ◌∷◌, ◌++◌, ◌==◌,
  if◌then◌else◌, length, replicate, ℤ, pos, negsuc, Ptr, Str, Run, ok, fault, ◌>>=◌,
}
use kv_study.Array.{Item, KvsArray}
use kv_study.Hash.{Node, Bucket, chain, junk, KvsHash}
use kv_study.Rdb.Config.{RdbConfig}
use kv_study.Rdb.Crc.{rdb_calculate_crc64}
use kv_study.Rdb.Format.{
  RdbHeader, rdb_magic, rdb_version, header_bytes, footer_bytes, encode_record,
}
use kv_study.Rdb.Stream.{Stream, open_write, fwrite, fseek, fread}

-- A key and a value that are read through pointers.
unfoldable pub save_pair : ℕ → Ptr → Ptr → Run (List ℕ)
unfolding encode_record
save_pair kind (Ptr.text k) (Ptr.text v) = ok (encode_record kind k v)
save_pair kind _ _ = fault

-- `for (i = 0; i < global_array.total; i++)`: the bytes, and how many records they are.
unfoldable pub save_array : List Item → ℕ → Run (List ℕ × ℕ)
unfolding save_pair
save_array items zero = ok ([], 0)
save_array [] (suc n) = fault
save_array (item ∷ items) (suc n) = elim item.key [
  | Ptr.null ↦ save_array items n
  | other ↦ do
    one ← save_pair 0 other item.value
    (bytes, records) ← save_array items n
    ok (one ++ bytes, records + 1)
]

-- `rbtree_save_callback` on the node that `kvs_rbtree_traverse` visits: the root alone.
unfoldable pub save_root : Option (Str × Ptr) → Run (List ℕ)
unfolding save_pair
save_root none = ok []
save_root (some (k, v)) = save_pair 1 (Ptr.text k) v

-- `hash_save_callback`
unfoldable pub save_chain : List Node → Run (List ℕ)
unfolding save_pair
save_chain [] = ok []
save_chain (node ∷ rest) = do
  one ← save_pair 2 (Ptr.text node.key) node.value
  bytes ← save_chain rest
  ok (one ++ bytes)

-- `kvs_hash_traverse`
unfoldable pub save_buckets : List Bucket → ℕ → Run (List ℕ)
unfolding save_chain
save_buckets buckets zero = ok []
save_buckets [] (suc n) = fault
save_buckets (junk ∷ buckets) (suc n) = fault
save_buckets (chain c ∷ buckets) (suc n) = do
  one ← save_chain c
  bytes ← save_buckets buckets n
  ok (one ++ bytes)

-- The data part, and the records that are counted: those of the array.
unfoldable pub save_data : KvsArray → Option (Str × Ptr) → KvsHash → Run (List ℕ × ℕ)
unfolding save_array save_root save_buckets
save_data a root h = do
  (array_bytes, records) ← save_array a.table a.total
  root_bytes ← save_root root
  hash_bytes ← save_buckets h.nodes h.max_slots
  ok (array_bytes ++ (root_bytes ++ hash_bytes), records)

-- `flags`
unfoldable pub flags_of : RdbConfig → ℕ
flags_of c = (if c.rdb_compression then 1 else 0) + (if c.rdb_crc64 then 2 else 0)

-- `fseek (fp, 0, SEEK_SET); fwrite (&header, ...); fclose (fp)`
unfoldable pub finish : RdbHeader → Stream → Option (List ℕ) × ℤ
unfolding fwrite
finish header s = (some (fwrite (header_bytes header) (fseek 0 s)).bytes, pos 0)

-- `RDB_ALIGN_SIZE`: a multiple of eight, reached by clearing the lowest three bits.
unfoldable pub rdb_align_size : ℕ → ℕ
rdb_align_size size = let top = size + 7 in top - top % 8

-- The checksum is of what `fread` gives back from the stream that was opened for writing.
unfoldable pub add_footer : Bool → RdbHeader → ℕ → Stream → Option (List ℕ) × ℤ
unfolding fwrite fread rdb_align_size finish
add_footer granted header data_start s =
    let (buffer, read) = fread header.data_size (fseek data_start s) in
    let padding = rdb_align_size read.place - read.place in
    let padded = fwrite (replicate padding 0) read in
    if not granted
    then (some s.bytes, negsuc 0)
    else if not (length buffer == header.data_size)
    then (some s.bytes, negsuc 0)
    else finish header (fwrite (footer_bytes (rdb_calculate_crc64 buffer)) padded)

-- The header as it is first written, before the sizes are known, and with them.
abbrev pub header_of : RdbConfig → ℕ → ℕ → ℕ → RdbHeader
header_of c now size records = record {
  magic = rdb_magic;
  version = rdb_version;
  flags = flags_of c;
  data_size = size;
  record_count = records;
  save_time = now;
}

-- After the data: the sizes, the checksum if it is configured, and the header once more.
unfoldable pub close_file : RdbConfig → Bool → ℕ → ℕ → ℕ → Stream → Option (List ℕ) × ℤ
unfolding add_footer finish
close_file c granted now records data_start written =
    let size = (written.place - data_start) % 2 ^ 32 in
    let header = header_of c now size (records % 2 ^ 32) in
    if c.rdb_crc64 then add_footer granted header data_start written else finish header written

unfoldable pub write_file : RdbConfig → Bool → ℕ → List ℕ → ℕ → Option (List ℕ) × ℤ
unfolding fwrite close_file
write_file c granted now payload records =
    let started = fwrite (header_bytes (header_of c now 0 0)) open_write in
    close_file c granted now records started.place (fwrite payload started)

unfoldable pub kvs_rdb_save :
    RdbConfig
    → Bool
    → Bool
    → ℕ
    → KvsArray
    → Option (Str × Ptr)
    → KvsHash
    → Run (Option (List ℕ) × ℤ)
unfolding save_data write_file
kvs_rdb_save c writable granted now a root h =
    if not c.rdb_enabled
    then ok (none, pos 0)
    else if not writable
    then ok (none, negsuc 0)
    else do (payload, records) ← save_data a root h; ok (write_file c granted now payload records)
