-- ===== src/Rdb/Files.antt =====
-- Whole RDB files: what `kvs_rdb_save` leaves, and what `kvs_rdb_load` makes of it.
use kv_study.Prelude.{
  ℕ, zero, suc, ◌+◌, ◌-◌, ◌%◌, ◌^◌, ◌≤◌, ◌<◌, ◌≡◌, refl, ◌∙◌, ap, Bool, true, false, not, Option,
  some, List, [], ◌∷◌, ◌++◌, ◌==◌, ltb, if◌then◌else◌, length, drop, length-append, drop-append, ℤ,
  pos, negsuc, Ptr, Str, Run, ok, fault, deadlock, Returns, ◌>>=◌, arith,
}
use kv_study.Array.{KvsArray}
use kv_study.Hash.{KvsHash}
use kv_study.Engine.{Engine, TreeOps}
use kv_study.Rdb.Config.{RdbConfig}
use kv_study.Rdb.Format.{RdbHeader, rdb_magic, rdb_version, header_bytes}
use kv_study.Rdb.Stream.{fwrite, fread, open_write}
use kv_study.Rdb.Save.{
  save_data, header_of, close_file, write_file, finish, add_footer, flags_of, kvs_rdb_save,
}
use kv_study.Rdb.Load.{load_records, rdb_verify_file_integrity, kvs_rdb_load}
use kv_study.Rdb.Records.{HeaderFits, read_header-header_bytes}
use kv_study.Rdb.Roundtrip.{Record, encode_all, AllLoad, stored, load_records-encode_all}

pub append_nil {ℓ} : {A : Type ℓ} (xs : List A) → xs ++ [] ≡ xs
append_nil [] = refl
append_nil (x ∷ xs) = ap (λ l. x ∷ l) (append_nil xs)

pub drop_beyond {ℓ} : {A : Type ℓ} (n : ℕ) (xs : List A) → length xs ≤ n → drop n xs ≡ []
drop_beyond zero [] le = refl
drop_beyond zero (x ∷ xs) le = absurd (omega arith)
drop_beyond (suc n) [] le = refl
drop_beyond (suc n) (x ∷ xs) le = drop_beyond n xs (omega arith)

-- The stream after the header and the data.
written_lem :
    (h : RdbHeader) (payload : List ℕ)
    → fwrite payload (fwrite (header_bytes h) open_write)
      ≡ record { bytes = header_bytes h ++ payload; place = 32 + length payload; readable = false }
unfolding fwrite header_bytes
written_lem h payload =
    rw (drop_beyond (32 + length payload) (header_bytes h) (omega arith), append_nil payload)

finish_lem :
    (h g : RdbHeader) (payload : List ℕ)
    → finish h (record {
      bytes = header_bytes g ++ payload;
      place = 32 + length payload;
      readable = false;
    })
      ≡ (some (header_bytes h ++ payload), pos 0)
unfolding finish fwrite header_bytes
finish_lem h g payload = refl

choose_then {ℓ} : {A : Type ℓ} (b : Bool) → b ≡ true → (x y : A) → (if b then x else y) ≡ x
choose_then b e x y = rw e

choose_else {ℓ} : {A : Type ℓ} (b : Bool) → b ≡ false → (x y : A) → (if b then x else y) ≡ y
choose_else b e x y = rw e

write_file_lem :
    (c : RdbConfig) (granted : Bool) (now records : ℕ) (payload : List ℕ)
    → write_file c granted now payload records
      ≡ close_file c granted now records 32
          (fwrite payload (fwrite (header_bytes (header_of c now 0 0)) open_write))
unfolding write_file fwrite header_bytes
write_file_lem c granted now records payload = refl

write_plain :
    (c : RdbConfig) (granted : Bool) (now records : ℕ) (payload : List ℕ)
    → c.rdb_crc64 ≡ false
    → length payload < 2 ^ 32
    → records < 2 ^ 32
    → write_file c granted now payload records
      ≡ (some (header_bytes (header_of c now (length payload) records) ++ payload), pos 0)
unfolding close_file
write_plain c granted now records payload off low few =
    let blank = header_of c now 0 0 in
    let size : (32 + length payload - 32) % 2 ^ 32 ≡ length payload = omega arith in
    let count : records % 2 ^ 32 ≡ records = omega arith in
    let header = header_of c now (length payload) records in
    write_file_lem c granted now records payload
    ∙ ap (close_file c granted now records 32) (written_lem blank payload)
    ∙ choose_else c.rdb_crc64 off _ _
    ∙ rw (size, count) (finish_lem header blank payload)

-- Nothing can be read back from a stream that was opened for writing.
add_footer_lem :
    (granted : Bool) (h : RdbHeader) (data_start place : ℕ) (bytes : List ℕ)
    → 1 ≤ h.data_size
    → add_footer granted h data_start (record { bytes = bytes; place = place; readable = false })
      ≡ (some bytes, negsuc 0)
unfolding add_footer fread
add_footer_lem false h data_start place bytes low = refl
add_footer_lem true h data_start place bytes low =
    let differ : (0 == h.data_size) ≡ false = ground arith in choose_then _ (ap not differ) _ _

write_crc :
    (c : RdbConfig) (granted : Bool) (now records : ℕ) (payload : List ℕ)
    → c.rdb_crc64 ≡ true
    → 1 ≤ length payload
    → length payload < 2 ^ 32
    → write_file c granted now payload records
      ≡ (some (header_bytes (header_of c now 0 0) ++ payload), negsuc 0)
unfolding close_file
write_crc c granted now records payload on some_data low =
    let blank = header_of c now 0 0 in
    let size : 1 ≤ (32 + length payload - 32) % 2 ^ 32 = omega arith in
    write_file_lem c granted now records payload
    ∙ ap (close_file c granted now records 32) (written_lem blank payload)
    ∙ choose_then c.rdb_crc64 on _ _
    ∙ add_footer_lem granted _ 32 (32 + length payload) (header_bytes blank ++ payload) size

-- With the checksum configured, as it is by default, saving an engine that has any data fails: the
-- call returns -1, and the file is left with all the data behind a header that says it has none.
pub save_crc-fails :
    (c : RdbConfig) (granted : Bool) (now : ℕ) (a : KvsArray) (root : Option (Str × Ptr))
    (h : KvsHash) (payload : List ℕ) (records : ℕ)
    → c.rdb_enabled ≡ true
    → c.rdb_crc64 ≡ true
    → save_data a root h ≡ ok (payload, records)
    → 1 ≤ length payload
    → length payload < 2 ^ 32
    → kvs_rdb_save c true granted now a root h
      ≡ ok (some (header_bytes (header_of c now 0 0) ++ payload), negsuc 0)
unfolding kvs_rdb_save
save_crc-fails c granted now a root h payload records enabled on saved some_data low =
    choose_else (not c.rdb_enabled) (ap not enabled) _ _
    ∙ rw (saved, ◌>>=◌) (ap ok (write_crc c granted now records payload on some_data low))

save_plain :
    (c : RdbConfig) (granted : Bool) (now : ℕ) (a : KvsArray) (root : Option (Str × Ptr))
    (h : KvsHash) (payload : List ℕ) (records : ℕ)
    → c.rdb_enabled ≡ true
    → c.rdb_crc64 ≡ false
    → save_data a root h ≡ ok (payload, records)
    → length payload < 2 ^ 32
    → records < 2 ^ 32
    → kvs_rdb_save c true granted now a root h
      ≡ ok (some (header_bytes (header_of c now (length payload) records) ++ payload), pos 0)
unfolding kvs_rdb_save
save_plain c granted now a root h payload records enabled off saved low few =
    choose_else (not c.rdb_enabled) (ap not enabled) _ _
    ∙ rw (saved, ◌>>=◌) (ap ok (write_plain c granted now records payload off low few))

length-header_bytes : (h : RdbHeader) → length (header_bytes h) ≡ 32
unfolding header_bytes
length-header_bytes h = refl

module _ (trees : TreeOps) {Zset : Type 0} where
  open trees use {Tree}

  -- What `kvs_rdb_load` makes of a header that fits and of the data behind it.
  load_lem :
      (c : RdbConfig) (granted : Bool) (h : RdbHeader) (payload : List ℕ) (e : Engine Tree Zset)
      → c.rdb_enabled ≡ true
      → c.rdb_crc64 ≡ false
      → h.magic ≡ rdb_magic
      → h.version ≡ rdb_version
      → HeaderFits h
      → kvs_rdb_load trees c granted (some (header_bytes h ++ payload)) e
        ≡ (do r ← load_records trees (length payload) h.data_size payload e; ok (r.0, pos 0))
  unfolding kvs_rdb_load rdb_verify_file_integrity
  load_lem c granted h payload e enabled off magic version fits =
      let size = length-append (header_bytes h) payload in
      let head = length-header_bytes h in
      let long : ltb (length (header_bytes h ++ payload)) 32 ≡ false = ground (arith, size, head) in
      choose_else (not c.rdb_enabled) (ap not enabled) _ _
      ∙ rw (
        drop-append (header_bytes h) payload 32 head,
        long,
        read_header-header_bytes h payload fits,
        magic,
        version,
        off,
      )

  abbrev pub loaded : Engine Tree Zset → Run (Engine Tree Zset × ℤ)
  loaded e = ok (e, pos 0)

  answer_loaded : Engine Tree Zset × ℕ → Run (Engine Tree Zset × ℤ)
  answer_loaded (e, n) = ok (e, pos 0)

  uncounted :
      (n : ℕ) (s : Run (Engine Tree Zset))
      → (s >>= (λ last. ok (last, n)) >>= answer_loaded) ≡ (s >>= loaded)
  unfolding answer_loaded
  uncounted n fault = refl
  uncounted n deadlock = refl
  uncounted n (ok e) = refl

  -- Without the checksum a snapshot comes back: if the data to be saved is the encoding of records
  -- that the loader takes (keys of 1 to 1024 bytes, no NUL), the save succeeds, and loading the file
  -- stores exactly those records, in their order, and succeeds if storing them does.
  pub save-load :
      (c : RdbConfig) (granted granted' : Bool) (now : ℕ) (a : KvsArray) (root : Option (Str × Ptr))
      (h : KvsHash) (rs : List Record) (records : ℕ) (e : Engine Tree Zset)
      → c.rdb_enabled ≡ true
      → c.rdb_crc64 ≡ false
      → save_data a root h ≡ ok (encode_all rs, records)
      → AllLoad rs
      → length (encode_all rs) < 2 ^ 32
      → records < 2 ^ 32
      → now < 2 ^ 64
      → Returns (kvs_rdb_save c true granted now a root h) λ (file, code).
        (code ≡ pos 0) × (kvs_rdb_load trees c granted' file e ≡ (stored trees rs e >>= loaded))
  unfolding flags_of answer_loaded
  save-load c granted granted' now a root h rs records e enabled off saved all low few time =
      let header = header_of c now (length (encode_all rs)) records in
      let fits : HeaderFits header = record {
        magic = omega arith;
        version = omega arith;
        flags = ground arith;
        data_size = low;
        record_count = few;
        save_time = time;
      } in
      let whole = append_nil (encode_all rs) in
      let run =
        load_records-encode_all trees rs [] (length (encode_all rs)) e all
          (omega (arith, ap length whole)) in
      (
        (some (header_bytes header ++ encode_all rs), pos 0),
        save_plain c granted now a root h (encode_all rs) records enabled off saved low few,
        (
          refl,
          load_lem c granted' header (encode_all rs) e enabled off refl refl fits
              ∙ ap (λ r. r >>= answer_loaded) (rw whole at run)
              ∙ uncounted (length rs) (stored trees rs e),
        ),
      )
