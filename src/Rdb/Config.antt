-- ===== src/Rdb/Config.antt =====
-- The configuration of kv_RDB.c: its record, its setters and the file `kvs.conf`. An `int` flag that
-- every writer sets to 0 or 1 is a `Bool`. A path is at most 511 bytes: `strncpy` cuts it.
pub mod File
pub mod Lines
pub mod Write
pub mod Reload
use kv_study.Prelude.{
  ℕ, zero, suc, Bool, true, false, Option, none, some, take, ℤ, pos, negsuc, Str, codes,
  if◌then◌else◌,
}

abbrev pub max_path_len : ℕ
max_path_len = 512

pub record RdbConfig : Type 0 where
  pub save_interval : ℤ
  pub rdb_file : Str
  pub rdb_enabled : Bool
  pub rdb_compression : Bool
  pub rdb_crc64 : Bool
  pub rdb_backup : Bool
  pub backup_dir : Str

-- `g_rdb_config` before anything is loaded
abbrev pub default_config : RdbConfig
default_config = record {
  save_interval = pos 300;
  rdb_file = codes "kvs.rdb";
  rdb_enabled = true;
  rdb_compression = false;
  rdb_crc64 = true;
  rdb_backup = true;
  backup_dir = codes "./backup";
}

-- `strncpy (path, s, MAX_PATH_LEN - 1); path[MAX_PATH_LEN - 1] = 0`
abbrev pub cut_path : Str → Str
cut_path s = take 511 s

-- `interval <= 0`
abbrev not_positive : ℤ → Bool
not_positive (pos n) = elim n [ zero ↦ true | suc k ↦ false ]
not_positive (negsuc n) = true

unfoldable pub rdb_config_set_save_interval : RdbConfig → ℤ → RdbConfig × ℤ
rdb_config_set_save_interval c interval =
    if not_positive interval then (c, negsuc 0) else (record c { save_interval = interval }, pos 0)

unfoldable pub rdb_config_set_rdb_file : RdbConfig → Option Str → RdbConfig × ℤ
rdb_config_set_rdb_file c none = (c, negsuc 0)
rdb_config_set_rdb_file c (some file) = (record c { rdb_file = cut_path file }, pos 0)

unfoldable pub rdb_config_set_enabled : RdbConfig → Bool → RdbConfig × ℤ
rdb_config_set_enabled c enabled = (record c { rdb_enabled = enabled }, pos 0)

unfoldable pub rdb_config_set_compression : RdbConfig → Bool → RdbConfig × ℤ
rdb_config_set_compression c enabled = (record c { rdb_compression = enabled }, pos 0)

unfoldable pub rdb_config_set_crc64 : RdbConfig → Bool → RdbConfig × ℤ
rdb_config_set_crc64 c enabled = (record c { rdb_crc64 = enabled }, pos 0)

unfoldable pub rdb_config_set_backup : RdbConfig → Bool → Option Str → RdbConfig × ℤ
rdb_config_set_backup c enabled none = (record c { rdb_backup = enabled }, pos 0)
rdb_config_set_backup c enabled (some dir) =
    (record c { rdb_backup = enabled; backup_dir = cut_path dir }, pos 0)

-- The older names for the setters.
unfoldable pub kvs_rdb_set_path : RdbConfig → Option Str → RdbConfig × ℤ
unfolding rdb_config_set_rdb_file
kvs_rdb_set_path c path = rdb_config_set_rdb_file c path

unfoldable pub kvs_rdb_set_directory : RdbConfig → Option Str → RdbConfig × ℤ
unfolding rdb_config_set_backup
kvs_rdb_set_directory c dir = rdb_config_set_backup c true dir

unfoldable pub kvs_rdb_set_filename : RdbConfig → Option Str → RdbConfig × ℤ
unfolding rdb_config_set_rdb_file
kvs_rdb_set_filename c filename = rdb_config_set_rdb_file c filename

-- An interval that is not positive is left out, and 0 is returned all the same.
unfoldable pub kvs_rdb_set_auto_save : RdbConfig → Bool → ℤ → RdbConfig × ℤ
unfolding rdb_config_set_enabled rdb_config_set_save_interval
kvs_rdb_set_auto_save c enabled interval =
    let (c', r) = rdb_config_set_enabled c enabled in
    if not_positive interval
    then (c', pos 0)
    else ((rdb_config_set_save_interval c' interval).0, pos 0)

-- What is written to the caller's buffer of `max_len` bytes; `none` for a NULL buffer or no room.
unfoldable pub kvs_rdb_get_full_path : RdbConfig → Bool → ℕ → Option Str
kvs_rdb_get_full_path c false max_len = none
kvs_rdb_get_full_path c true max_len = elim max_len [
  | zero ↦ none
  | suc n ↦ some (take n c.rdb_file)
]
