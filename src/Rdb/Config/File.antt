-- ===== src/Rdb/Config/File.antt =====
-- `rdb_config_load` of kv_RDB.c: the file kvs.conf. A file is the list of its
-- bytes, `none` where it cannot be opened. `atoi` is libc's.
use kv_study.Prelude.{
  ◌-◌, ℕ, Bool, false, ◌||◌, Option, none, some, List, [], ◌∷◌, ◌==◌, if◌then◌else◌, ℤ, pos, negsuc,
  Str, codes, str_eq,
}
use kv_study.Rdb.Config.{RdbConfig, cut_path}
use kv_study.Protocol.Request.{c_string, cut_at}

-- The string up to the first `c`: `p = strchr (s, c); if (p) *p = 0`.
unfoldable pub cut_line : ℕ → Str → Str
cut_line c [] = []
cut_line c (b ∷ s) = if b == c then [] else b ∷ cut_line c s

-- `while (*s == ' ') s++`
unfoldable pub skip_spaces : Str → Str
skip_spaces [] = []
skip_spaces (b ∷ s) = if b == b' ' then skip_spaces s else b ∷ s

-- The spaces at the end, behind other characters.
unfoldable pub trim_end : Str → Str
trim_end [] = []
trim_end (b ∷ s) = elim (trim_end s) [ [] ↦ if b == b' ' then [] else b ∷ [] | c ∷ t ↦ b ∷ c ∷ t ]

-- "yes" or "1"
unfoldable pub is_yes : Str → Bool
is_yes value = str_eq value (codes "yes") || str_eq value (codes "1")

-- A byte in front of the lines that follow it, and the line that it ends.
unfoldable pub push_byte : ℕ → List Str → List Str
push_byte b [] = (b ∷ []) ∷ []
push_byte b (line ∷ lines) = (b ∷ line) ∷ lines

-- `fgets (line, 256, fp)` until the end: a line ends behind its newline, or after 255 bytes. `room` is
-- what the line still holds.
unfoldable pub split_lines : ℕ → List ℕ → List Str
unfolding push_byte
split_lines room [] = []
split_lines room (b ∷ bytes) =
    let fresh = split_lines 255 bytes in
    let more = split_lines (room - 1) bytes in
    if b == b'\n' || room == 1 then (b ∷ []) ∷ fresh else push_byte b more

-- The spaces around a key or a value.
abbrev pub trim : Str → Str
trim s = trim_end (skip_spaces s)

-- `line[0]` is '#', a newline or a carriage return.
abbrev pub skips_line : Str → Bool
skips_line [] = false
skips_line (b ∷ s) = b == b'#' || (b == b'\n' || b == b'\r')

module _ (atoi : Str → ℤ) where
  -- The chain of `strcmp (key, ...)`; an unknown key changes nothing.
  unfoldable pub assign_setting : Str → Str → RdbConfig → RdbConfig
  unfolding is_yes
  assign_setting key value c =
      if str_eq key (codes "save_interval")
      then record c { save_interval = atoi value }
      else if str_eq key (codes "rdb_file")
      then record c { rdb_file = cut_path value }
      else if str_eq key (codes "rdb_enabled")
      then record c { rdb_enabled = is_yes value }
      else if str_eq key (codes "rdb_compression")
      then record c { rdb_compression = is_yes value }
      else if str_eq key (codes "rdb_backup")
      then record c { rdb_backup = is_yes value }
      else if str_eq key (codes "backup_dir")
      then record c { backup_dir = cut_path value }
      else if str_eq key (codes "rdb_crc64")
      then record c { rdb_crc64 = is_yes value }
      else c

  -- What is done with the two sides of the '='.
  unfoldable pub apply_setting : Option (Str × Str) → RdbConfig → RdbConfig
  unfolding skip_spaces trim_end assign_setting
  apply_setting none c = c
  apply_setting (some (key, value)) c = assign_setting (trim key) (trim value) c

  -- One round of the loop.
  unfoldable pub load_line : Str → RdbConfig → RdbConfig
  unfolding c_string cut_line cut_at apply_setting
  load_line line c =
      let s = c_string line in
      if skips_line s then c else apply_setting (cut_at b'=' (cut_line b'\r' (cut_line b'\n' s))) c

  unfoldable pub load_lines : List Str → RdbConfig → RdbConfig
  unfolding load_line
  load_lines [] c = c
  load_lines (line ∷ lines) c = load_lines lines (load_line line c)

  unfoldable pub rdb_config_load : Option (List ℕ) → RdbConfig → RdbConfig × ℤ
  unfolding split_lines load_lines
  rdb_config_load none c = (c, negsuc 0)
  rdb_config_load (some bytes) c = (load_lines (split_lines 255 bytes) c, pos 0)
