-- ===== src/Tests/Snapshots.antt =====
-- A snapshot of a table with one key, with and without its checksum.
use kv_study.Prelude.{
  ◌^◌, ◌≤◌, ◌<◌, ◌≡◌, refl, true, false, none, some, List, [], ◌∷◌, ◌++◌, length, ℤ, pos, negsuc,
  Str, codes, ◌||◌, not, is_neg, str_eq, if◌then◌else◌, Option, ℕ, ok, ◌>>=◌, Returns, arith,
}
use kv_study.Engine.{Engine}
use kv_study.Rdb.Config.{RdbConfig, default_config}
use kv_study.Rdb.Config.File.{skip_spaces, trim_end, rdb_config_load}
use kv_study.Rdb.Config.Lines.{Plain}
use kv_study.Rdb.Config.Write.{rdb_config_save}
use kv_study.Rdb.Config.Reload.{Writable, rdb_config_save-load}
use kv_study.Rdb.Backup.{rdb_restore_from_backup, rdb_restore_from_backup_lem}
use kv_study.Rdb.Crc.{rdb_calculate_crc64, crc64-first_byte}
use kv_study.Rdb.Format.{header_bytes, encode_record}
use kv_study.Rdb.Save.{save_data, header_of, kvs_rdb_save}
use kv_study.Rdb.Load.{c_string, kvs_rdb_load, rdb_verify_file_integrity}
use kv_study.Rdb.Records.{Loads}
use kv_study.Rdb.Roundtrip.{Record, encode_all, stored}
use kv_study.Rdb.Init.{kvs_rdb_init, save-kvs_rdb_init}
use kv_study.Rdb.Files.{loaded, save_crc-fails, save-load}
use kv_study.Tests.Tables.{one_key}
use kv_study.Tests.Chains.{empty_hash}
use kv_study.Tests.Frames.{no_trees}

abbrev no_crc : RdbConfig
no_crc = record default_config { rdb_crc64 = false }

abbrev one_record : List Record
one_record = (0, codes "a", codes "1") ∷ []

a_Loads : Loads (codes "a") (codes "1")
unfolding c_string
a_Loads = record {
  key_clean = refl;
  value_clean = refl;
  key_low = omega arith;
  key_high = omega arith;
  value_high = omega arith;
}

one_record_low : 1 ≤ length (encode_all one_record)
unfolding encode_record
one_record_low = omega arith

one_record_high : length (encode_all one_record) < 2 ^ 32
unfolding encode_record
one_record_high = omega arith

saved_lem : save_data one_key none empty_hash ≡ ok (encode_all one_record, 1)
unfolding save_data
saved_lem = refl

save_crc-fails_example :
    kvs_rdb_save default_config true true 0 one_key none empty_hash
    ≡ ok (some (header_bytes (header_of default_config 0 0 0) ++ encode_all one_record), negsuc 0)
save_crc-fails_example =
    save_crc-fails default_config true 0 one_key none empty_hash (encode_all one_record) 1 refl refl
      saved_lem one_record_low one_record_high

abbrev no_engine : Engine Unit Unit
no_engine = record { array = one_key; hash = empty_hash; tree = tt; zset = tt }

save-load_example :
    Returns (kvs_rdb_save no_crc true true 0 one_key none empty_hash) λ (file, code).
      (code ≡ pos 0)
      × (kvs_rdb_load no_trees no_crc true file no_engine
          ≡ (stored no_trees one_record no_engine >>= loaded no_trees))
save-load_example =
    save-load no_trees no_crc true true 0 one_key none empty_hash one_record 1 no_engine refl refl
      saved_lem (omega arith, a_Loads, tt) one_record_high (omega arith) (omega arith)

crc64-first_byte_example :
    rdb_calculate_crc64 (0 ∷ codes "rest") ≡ rdb_calculate_crc64 (2 ∷ codes "rest")
crc64-first_byte_example = crc64-first_byte 0 2 (codes "rest") (omega arith) (omega arith)

-- Of numbers only 300 is read and written.
abbrev read_300 : Str → ℤ
read_300 s = pos 300

abbrev print_300 : ℤ → Str
print_300 z = codes "300"

words-Plain : Plain (codes "300") × Plain (codes "kvs.rdb") × Plain (codes "./backup")
unfolding skip_spaces trim_end
words-Plain = (
  record {
    no_nul = ground arith;
    no_newline = ground arith;
    no_return = ground arith;
    trimmed = refl;
  },
  record {
    no_nul = ground arith;
    no_newline = ground arith;
    no_return = ground arith;
    trimmed = refl;
  },
  record {
    no_nul = ground arith;
    no_newline = ground arith;
    no_return = ground arith;
    trimmed = refl;
  },
)

default_config-Writable : Writable print_300 default_config
default_config-Writable = record {
  interval = words-Plain.0;
  interval_short = omega arith;
  file = words-Plain.1;
  file_short = omega arith;
  dir = words-Plain.2;
  dir_short = omega arith;
}

rdb_config_save-load_example :
    rdb_config_load read_300 (rdb_config_save print_300 true default_config).0 no_crc
    ≡ (default_config, pos 0)
rdb_config_save-load_example =
    rdb_config_save-load read_300 print_300 default_config no_crc refl default_config-Writable

no_crc-Writable : Writable print_300 no_crc
no_crc-Writable = record {
  interval = words-Plain.0;
  interval_short = omega arith;
  file = words-Plain.1;
  file_short = omega arith;
  dir = words-Plain.2;
  dir_short = omega arith;
}

save-kvs_rdb_init_example :
    Returns (kvs_rdb_save no_crc true true 0 one_key none empty_hash) λ (file, code).
      (code ≡ pos 0)
      × (kvs_rdb_init read_300 print_300 no_trees true true default_config
            (rdb_config_save print_300 true no_crc).0
            (λ path. str_eq path no_crc.rdb_file)
            (λ path. if str_eq path no_crc.rdb_file then file else none)
            no_engine
          ≡ (stored no_trees one_record no_engine >>= λ e. ok (no_crc, e, pos 0)))
save-kvs_rdb_init_example =
    save-kvs_rdb_init read_300 print_300 no_trees true true true no_crc default_config 0 one_key
      none empty_hash one_record 1 no_engine refl no_crc-Writable refl refl saved_lem
      (omega arith, a_Loads, tt) one_record_high (omega arith) (omega arith)

abbrev backup_bytes : List ℕ
backup_bytes = header_bytes (header_of no_crc 0 0 0) ++ (1 ∷ 2 ∷ 3 ∷ [])

abbrev nothing_saved : Option (List ℕ)
nothing_saved = none

rdb_restore_from_backup_lem_example :
    rdb_restore_from_backup no_crc true true (some backup_bytes) nothing_saved ≡ (
      if is_neg (rdb_verify_file_integrity no_crc true (some backup_bytes)) || not true
      then (nothing_saved, negsuc 0)
      else (some backup_bytes, pos 0))
rdb_restore_from_backup_lem_example =
    rdb_restore_from_backup_lem no_crc true true backup_bytes nothing_saved
