-- ===== src/Rdb/Config/Write.antt =====
-- `rdb_config_save` of kv_RDB.c: the text of kvs.conf. Each `fprintf` writes whole lines, the comments in
-- UTF-8. `print_int` is the format "%d".
use Prim.Native.Char.{code}
use Prim.Native.String.{String}
use kv_study.Prelude.{
  ℕ, ◌+◌, ◌/◌, ◌%◌, Bool, true, false, Option, none, some, List, [], ◌∷◌, ◌++◌, ltb, if◌then◌else◌,
  ℤ, pos, negsuc, Str, codes,
}
use kv_study.Rdb.Config.{RdbConfig}

-- The bytes of a character below 65536.
abbrev pub utf8_char : ℕ → List ℕ
utf8_char c =
    if ltb c 128
    then c ∷ []
    else if ltb c 2048
    then (192 + c / 64) ∷ (128 + c % 64) ∷ []
    else (224 + c / 4096) ∷ (128 + c / 64 % 64) ∷ (128 + c % 64) ∷ []

abbrev pub utf8 : String → List ℕ
utf8 String.[] = []
utf8 (String.◌∷◌ c s) = utf8_char (code c) ++ utf8 s

-- `value ? "yes" : "no"`
abbrev pub yes_no : Bool → Str
yes_no true = codes "yes"
yes_no false = codes "no"

-- "key = value"
abbrev pub assignment : Str → Str → Str
assignment key value = (key ++ b' ' ∷ []) ++ b'=' ∷ b' ' ∷ value

abbrev pub unlines : List Str → List ℕ
unlines [] = []
unlines (line ∷ lines) = line ++ b'\n' ∷ unlines lines

module _ (print_int : ℤ → Str) where
  abbrev pub config_lines : RdbConfig → List Str
  config_lines c =
      utf8 "# KVS RDB 配置文件"
      ∷ utf8 "# 格式: key = value"
      ∷ utf8 "# 注释以 # 开头"
      ∷ []
      ∷ utf8 "# 自动保存间隔（秒）"
      ∷ assignment (codes "save_interval") (print_int c.save_interval)
      ∷ []
      ∷ utf8 "# RDB 文件路径"
      ∷ assignment (codes "rdb_file") c.rdb_file
      ∷ []
      ∷ utf8 "# 是否启用 RDB"
      ∷ assignment (codes "rdb_enabled") (yes_no c.rdb_enabled)
      ∷ []
      ∷ utf8 "# 是否启用压缩（可选）"
      ∷ assignment (codes "rdb_compression") (yes_no c.rdb_compression)
      ∷ []
      ∷ utf8 "# 是否启用CRC64校验"
      ∷ assignment (codes "rdb_crc64") (yes_no c.rdb_crc64)
      ∷ []
      ∷ utf8 "# 是否启用备份"
      ∷ assignment (codes "rdb_backup") (yes_no c.rdb_backup)
      ∷ []
      ∷ utf8 "# 备份目录"
      ∷ assignment (codes "backup_dir") c.backup_dir
      ∷ []

  -- The file's bytes afterwards, none where it could not be opened and is as it was.
  unfoldable pub rdb_config_save : (opened : Bool) → RdbConfig → Option (List ℕ) × ℤ
  rdb_config_save false c = (none, negsuc 0)
  rdb_config_save true c = (some (unlines (config_lines c)), pos 0)
