-- ===== src/Rdb/Config/Reload.antt =====
-- What `rdb_config_save` of kv_RDB.c writes, `rdb_config_load` reads back.
use kv_study.Prelude.{
  ℕ, ◌-◌, ◌<◌, ◌≡◌, ◌≢◌, refl, ◌∙◌, ap, Bool, true, false, not, ◌&&◌, ◌||◌, List, [], ◌∷◌, ◌++◌,
  ◌==◌, ltb, length, length-append, take-length_le, ℤ, pos, Str, codes, str_eq, strcmp, arith,
}
use kv_study.Protocol.Request.{c_string}
use kv_study.Protocol.Payload.{Lacks}
use kv_study.Rdb.Config.{RdbConfig, cut_path}
use kv_study.Rdb.Config.File.{
  skip_spaces, trim_end, trim, split_lines, load_line, load_lines, assign_setting, is_yes,
  rdb_config_load,
}
use kv_study.Rdb.Config.Lines.{Plain, load_line-setting_line, Lacks-append}
use kv_study.Rdb.Config.Write.{utf8, yes_no, assignment, config_lines, unlines, rdb_config_save}

-- A line that `fgets` gives back whole: no newline inside, less than 255 bytes.
abbrev FitsLines : List Str → Type 0
FitsLines [] = Unit
FitsLines (line ∷ lines) = (Lacks b'\n' line × (length line < 255)) × FitsLines lines

abbrev ended : List Str → List Str
ended [] = []
ended (line ∷ lines) = (line ++ b'\n' ∷ []) ∷ ended lines

split-line :
    (room : ℕ) (line rest : Str)
    → Lacks b'\n' line
    → length line < room
    → split_lines room (line ++ b'\n' ∷ rest) ≡ (line ++ b'\n' ∷ []) ∷ split_lines 255 rest
unfolding split_lines
split-line room [] rest clean fits = ground arith
split-line room (b ∷ line) rest clean fits =
    let stays : (b == b'\n' || room == 1) ≡ false = ground (arith, clean.0) in
    rw (stays, split-line (room - 1) line rest clean.1 (omega arith)) refl

split-unlines : (lines : List Str) → FitsLines lines → split_lines 255 (unlines lines) ≡ ended lines
unfolding split_lines
split-unlines [] fits = refl
split-unlines (line ∷ lines) fits =
    split-line 255 line (unlines lines) fits.0.0 fits.0.1
    ∙ ap (λ rest. (line ++ b'\n' ∷ []) ∷ rest) (split-unlines lines fits.1)

-- No byte of a word is a NUL, a line's end, a blank or '='.
abbrev is_word : Str → Bool
is_word [] = true
is_word (b ∷ s) =
    not (b == 0 || (b == b'\n' || (b == b'\r' || (b == b' ' || b == b'=')))) && is_word s

word-Lacks :
    (s : Str)
    → is_word s ≡ true
    → Lacks 0 s × Lacks b'\n' s × Lacks b'\r' s × Lacks b' ' s × Lacks b'=' s
word-Lacks [] w = (tt, tt, tt, tt, tt)
word-Lacks (b ∷ s) w =
    let (n, l, r, sp, e) = word-Lacks s (ground (arith, w)) in
    (
      (ground (arith, w), n),
      (ground (arith, w), l),
      (ground (arith, w), r),
      (ground (arith, w), sp),
      (ground (arith, w), e),
    )

trim_end-Lacks : (s : Str) → Lacks b' ' s → trim_end s ≡ s
unfolding trim_end
trim_end-Lacks [] l = refl
trim_end-Lacks (b ∷ []) l = ground (arith, l.0)
trim_end-Lacks (b ∷ (c ∷ s)) l = rw (trim_end-Lacks (c ∷ s) l.1) refl

trim-Lacks : (s : Str) → Lacks b' ' s → trim s ≡ s
unfolding skip_spaces
trim-Lacks [] l = trim_end-Lacks [] l
trim-Lacks (b ∷ s) l =
    let other : (b == b' ') ≡ false = ground (arith, l.0) in rw other (trim_end-Lacks (b ∷ s) l)

word-Plain : (s : Str) → is_word s ≡ true → Plain s
word-Plain s w =
    let (n, l, r, sp, e) = word-Lacks s w in
    record { no_nul = n; no_newline = l; no_return = r; trimmed = trim-Lacks s sp }

yes_no-is_word : (b : Bool) → is_word (yes_no b) ≡ true
yes_no-is_word true = refl
yes_no-is_word false = refl

is_yes-yes_no : (b : Bool) → is_yes (yes_no b) ≡ b
unfolding is_yes str_eq strcmp
is_yes-yes_no true = refl
is_yes-yes_no false = refl

cut_path-short : (s : Str) → length s < 230 → cut_path s ≡ s
cut_path-short s short = take-length_le 511 s (omega arith)

module _ (atoi : Str → ℤ) where
  assignment_line :
      (b : ℕ) (key value : Str) (c : RdbConfig)
      → b ≢ b'#'
      → is_word (b ∷ key) ≡ true
      → Plain value
      → load_line atoi (assignment (b ∷ key) value ++ b'\n' ∷ []) c
        ≡ assign_setting atoi (b ∷ key) value c
  assignment_line b key value c mark word plain =
      let (n, l, r, sp, e) = word-Lacks (b ∷ key) word in
      load_line-setting_line atoi b key value c mark sp.0 (word-Plain (b ∷ key) word) e plain

  -- A comment, a setting and an empty line.
  three_lines :
      (comment : Str) (b : ℕ) (key value : Str) (rest : List Str) (c : RdbConfig)
      → b ≢ b'#'
      → is_word (b ∷ key) ≡ true
      → Plain value
      → load_lines atoi
          ((b'#' ∷ comment) ∷ ((assignment (b ∷ key) value ++ b'\n' ∷ []) ∷ ((b'\n' ∷ []) ∷ rest)))
          c
        ≡ load_lines atoi rest (assign_setting atoi (b ∷ key) value c)
  unfolding load_lines load_line c_string
  three_lines comment b key value rest c mark word plain =
      ap (λ d. load_lines atoi rest d) (assignment_line b key value c mark word plain)

  two_lines :
      (comment : Str) (b : ℕ) (key value : Str) (c : RdbConfig)
      → b ≢ b'#'
      → is_word (b ∷ key) ≡ true
      → Plain value
      → load_lines atoi ((b'#' ∷ comment) ∷ ((assignment (b ∷ key) value ++ b'\n' ∷ []) ∷ [])) c
        ≡ assign_setting atoi (b ∷ key) value c
  unfolding load_lines load_line c_string
  two_lines comment b key value c mark word plain = assignment_line b key value c mark word plain

  header_lines :
      (first second third : Str) (rest : List Str) (c : RdbConfig)
      → load_lines atoi
          ((b'#' ∷ first) ∷ ((b'#' ∷ second) ∷ ((b'#' ∷ third) ∷ ((b'\n' ∷ []) ∷ rest))))
          c
        ≡ load_lines atoi rest c
  unfolding load_lines load_line c_string
  header_lines first second third rest c = refl

  -- The settings in the order in which they are read.
  abbrev assigned : (print_int : ℤ → Str) → RdbConfig → RdbConfig
  assigned print_int c = record {
    save_interval = atoi (print_int c.save_interval);
    rdb_file = cut_path c.rdb_file;
    rdb_enabled = is_yes (yes_no c.rdb_enabled);
    rdb_compression = is_yes (yes_no c.rdb_compression);
    rdb_crc64 = is_yes (yes_no c.rdb_crc64);
    rdb_backup = is_yes (yes_no c.rdb_backup);
    backup_dir = cut_path c.backup_dir;
  }

  load-config_lines :
      (print_int : ℤ → Str) (c old : RdbConfig)
      → Plain (print_int c.save_interval)
      → Plain c.rdb_file
      → Plain c.backup_dir
      → load_lines atoi (ended (config_lines print_int c)) old ≡ assigned print_int c
  unfolding assign_setting str_eq strcmp
  load-config_lines print_int c old interval file dir =
      let flag = λ (b : Bool). word-Plain (yes_no b) (yes_no-is_word b) in
      header_lines _ _ _ _ old
      ∙ three_lines _ b's' (codes "ave_interval") (print_int c.save_interval) _ _ (omega arith) refl
          interval
      ∙ three_lines _ b'r' (codes "db_file") c.rdb_file _ _ (omega arith) refl file
      ∙ three_lines _ b'r' (codes "db_enabled") (yes_no c.rdb_enabled) _ _ (omega arith) refl
          (flag c.rdb_enabled)
      ∙ three_lines _ b'r' (codes "db_compression") (yes_no c.rdb_compression) _ _ (omega arith)
          refl (flag c.rdb_compression)
      ∙ three_lines _ b'r' (codes "db_crc64") (yes_no c.rdb_crc64) _ _ (omega arith) refl
          (flag c.rdb_crc64)
      ∙ three_lines _ b'r' (codes "db_backup") (yes_no c.rdb_backup) _ _ (omega arith) refl
          (flag c.rdb_backup)
      ∙ two_lines _ b'b' (codes "ackup_dir") c.backup_dir _ (omega arith) refl dir

  assigned-same :
      (print_int : ℤ → Str) (c : RdbConfig)
      → atoi (print_int c.save_interval) ≡ c.save_interval
      → length c.rdb_file < 230
      → length c.backup_dir < 230
      → assigned print_int c ≡ c
  assigned-same print_int c read short short' = λ i. record {
    save_interval = read i;
    rdb_file = cut_path-short c.rdb_file short i;
    rdb_enabled = is_yes-yes_no c.rdb_enabled i;
    rdb_compression = is_yes-yes_no c.rdb_compression i;
    rdb_crc64 = is_yes-yes_no c.rdb_crc64 i;
    rdb_backup = is_yes-yes_no c.rdb_backup i;
    backup_dir = cut_path-short c.backup_dir short' i;
  }

-- A check by evaluation that a text has no newline.
abbrev one_line : Str → Bool
one_line [] = true
one_line (b ∷ s) = not (b == b'\n') && one_line s

one_line-Lacks : (s : Str) → one_line s ≡ true → Lacks b'\n' s
one_line-Lacks [] e = tt
one_line-Lacks (b ∷ s) e = (ground (arith, e), one_line-Lacks s (ground (arith, e)))

assignment-fits :
    (key value : Str)
    → is_word key ≡ true
    → length key < 16
    → Plain value
    → length value < 230
    → Lacks b'\n' (assignment key value) × (length (assignment key value) < 255)
assignment-fits key value word short plain short' =
    let (n, l, r, sp, e) = word-Lacks key word in
    (
      Lacks-append b'\n' (key ++ b' ' ∷ []) (b'=' ∷ b' ' ∷ value)
          (Lacks-append b'\n' key (b' ' ∷ []) l (omega arith, tt))
          (omega arith, (omega arith, plain.no_newline)),
      omega (
        arith,
        length-append (key ++ b' ' ∷ []) (b'=' ∷ b' ' ∷ value),
        length-append key (b' ' ∷ []),
      ),
    )

yes_no-length : (b : Bool) → length (yes_no b) < 230
yes_no-length true = omega arith
yes_no-length false = omega arith

comment-fits :
    (s : Str) → (one_line s && ltb (length s) 255) ≡ true → Lacks b'\n' s × (length s < 255)
comment-fits s e = (one_line-Lacks s (ground (arith, e)), ground (arith, e))

flag-fits :
    (key : Str) (b : Bool)
    → is_word key ≡ true
    → length key < 16
    → Lacks b'\n' (assignment key (yes_no b)) × (length (assignment key (yes_no b)) < 255)
flag-fits key b word short =
    assignment-fits key (yes_no b) word short (word-Plain (yes_no b) (yes_no-is_word b))
      (yes_no-length b)

-- What a configuration needs for its lines to come back: an interval and paths without line ends and without
-- spaces around them, of less than 230 bytes.
pub record Writable (print_int : ℤ → Str) (c : RdbConfig) : Type 0 where
  pub interval : Plain (print_int c.save_interval)
  pub interval_short : length (print_int c.save_interval) < 230
  pub file : Plain c.rdb_file
  pub file_short : length c.rdb_file < 230
  pub dir : Plain c.backup_dir
  pub dir_short : length c.backup_dir < 230

config_lines-FitsLines :
    (print_int : ℤ → Str) (c : RdbConfig)
    → Writable print_int c
    → FitsLines (config_lines print_int c)
config_lines-FitsLines print_int c w = (
  comment-fits (utf8 "# KVS RDB 配置文件") refl,
  (
    comment-fits (utf8 "# 格式: key = value") refl,
    (
      comment-fits (utf8 "# 注释以 # 开头") refl,
      (
        (tt, omega arith),
        (
          comment-fits (utf8 "# 自动保存间隔（秒）") refl,
          (
            assignment-fits (codes "save_interval") _ refl (omega arith) w.interval
                w.interval_short,
            (
              (tt, omega arith),
              (
                comment-fits (utf8 "# RDB 文件路径") refl,
                (
                  assignment-fits (codes "rdb_file") _ refl (omega arith) w.file w.file_short,
                  (
                    (tt, omega arith),
                    (
                      comment-fits (utf8 "# 是否启用 RDB") refl,
                      (
                        flag-fits (codes "rdb_enabled") c.rdb_enabled refl (omega arith),
                        (
                          (tt, omega arith),
                          (
                            comment-fits (utf8 "# 是否启用压缩（可选）") refl,
                            (
                              flag-fits (codes "rdb_compression") c.rdb_compression refl
                                  (omega arith),
                              (
                                (tt, omega arith),
                                (
                                  comment-fits (utf8 "# 是否启用CRC64校验") refl,
                                  (
                                    flag-fits (codes "rdb_crc64") c.rdb_crc64 refl (omega arith),
                                    (
                                      (tt, omega arith),
                                      (
                                        comment-fits (utf8 "# 是否启用备份") refl,
                                        (
                                          flag-fits (codes "rdb_backup") c.rdb_backup refl
                                              (omega arith),
                                          (
                                            (tt, omega arith),
                                            (
                                              comment-fits (utf8 "# 备份目录") refl,
                                              (
                                                assignment-fits (codes "backup_dir") _ refl
                                                    (omega arith) w.dir w.dir_short,
                                                tt,
                                              ),
                                            ),
                                          ),
                                        ),
                                      ),
                                    ),
                                  ),
                                ),
                              ),
                            ),
                          ),
                        ),
                      ),
                    ),
                  ),
                ),
              ),
            ),
          ),
        ),
      ),
    ),
  ),
)

-- Where `atoi` reads back the interval as `print_int` writes it, and the paths have no NUL, no line end
-- and no spaces around them and less than 230 bytes: the configuration that rdb_config_save writes is read
-- back by rdb_config_load, whatever the configuration was before, and the load returns 0.
pub rdb_config_save-load :
    (atoi : Str → ℤ) (print_int : ℤ → Str) (c old : RdbConfig)
    → atoi (print_int c.save_interval) ≡ c.save_interval
    → Writable print_int c
    → rdb_config_load atoi (rdb_config_save print_int true c).0 old ≡ (c, pos 0)
unfolding rdb_config_load rdb_config_save
rdb_config_save-load atoi print_int c old read w =
    ap (λ lines. (load_lines atoi lines old, pos 0))
      (split-unlines (config_lines print_int c) (config_lines-FitsLines print_int c w))
    ∙ ap (λ d. (d, pos 0))
        (load-config_lines atoi print_int c old w.interval w.file w.dir
          ∙ assigned-same atoi print_int c read w.file_short w.dir_short)
