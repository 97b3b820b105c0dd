-- ===== src/Rdb/Config/Lines.antt =====
-- A line "key = value" of kvs.conf, as `rdb_config_load` of kv_RDB.c reads it.
use kv_study.Prelude.{
  ℕ, ◌≡◌, ◌≢◌, refl, sym, ◌∙◌, ap, true, false, [], ◌∷◌, ◌++◌, ◌==◌, if◌then◌else◌, ℤ, Str, arith,
}
use kv_study.Protocol.Request.{cut_at}
use kv_study.Protocol.Payload.{Lacks, c_string-Lacks, cut_at-pair}
use kv_study.Rdb.Config.{RdbConfig}
use kv_study.Rdb.Config.File.{
  cut_line, skip_spaces, trim_end, trim, skips_line, assign_setting, apply_setting, load_line,
}

pub Lacks-append : (c : ℕ) (s t : Str) → Lacks c s → Lacks c t → Lacks c (s ++ t)
Lacks-append c [] t ls lt = lt
Lacks-append c (b ∷ s) t ls lt = (ls.0, Lacks-append c s t ls.1 lt)

cut_line-end : (c : ℕ) (s t : Str) → Lacks c s → cut_line c (s ++ c ∷ t) ≡ s
unfolding cut_line
cut_line-end c [] t ls = let same : (c == c) ≡ true = ground arith in rw same
cut_line-end c (b ∷ s) t ls =
    let other : (b == c) ≡ false = ground arith in rw (other, cut_line-end c s t ls.1)

cut_line-Lacks : (c : ℕ) (s : Str) → Lacks c s → cut_line c s ≡ s
unfolding cut_line
cut_line-Lacks c [] ls = refl
cut_line-Lacks c (b ∷ s) ls =
    let other : (b == c) ≡ false = ground arith in rw (other, cut_line-Lacks c s ls.1)

trim_end-space : (s : Str) → trim_end (s ++ b' ' ∷ []) ≡ trim_end s
unfolding trim_end
trim_end-space [] = refl
trim_end-space (b ∷ s) = rw (trim_end-space s)

skip_spaces-word : (b : ℕ) (s : Str) → b ≢ b' ' → skip_spaces (b ∷ s) ≡ b ∷ s
unfolding skip_spaces
skip_spaces-word b s space = let other : (b == b' ') ≡ false = ground arith in rw other

-- A key or a value: no NUL, newline or carriage return, and no spaces around it.
pub record Plain (s : Str) : Type 0 where
  pub no_nul : Lacks 0 s
  pub no_newline : Lacks b'\n' s
  pub no_return : Lacks b'\r' s
  pub trimmed : trim s ≡ s

skips_line-word : (b : ℕ) (s : Str) → b ≢ b'#' → b ≢ b'\n' → b ≢ b'\r' → skips_line (b ∷ s) ≡ false
skips_line-word b s mark newline back = ground arith

-- The line "key = value" with its newline.
abbrev pub setting_line : Str → Str → Str
setting_line key value = ((key ++ b' ' ∷ []) ++ b'=' ∷ b' ' ∷ value) ++ b'\n' ∷ []

module _ (atoi : Str → ℤ) where
  -- A line "key = value" makes the setting, whatever the configuration was, if the key is plain, does
  -- not begin with a space or '#' and has no '=', and the value is plain.
  pub load_line-setting_line :
      (b : ℕ) (key value : Str) (c : RdbConfig)
      → b ≢ b'#'
      → b ≢ b' '
      → Plain (b ∷ key)
      → Lacks b'=' (b ∷ key)
      → Plain value
      → load_line atoi (setting_line (b ∷ key) value) c ≡ assign_setting atoi (b ∷ key) value c
  unfolding load_line apply_setting skip_spaces
  load_line-setting_line b key value c mark space plain no_equals plain_value =
      let front = (b ∷ key) ++ b' ' ∷ [] in
      let body = front ++ b'=' ∷ b' ' ∷ value in
      let clean =
        λ (ch : ℕ) (k : Lacks ch (b ∷ key)) (v : Lacks ch value) (ns : b' ' ≢ ch) (ne : b'=' ≢ ch).
          Lacks-append ch front (b'=' ∷ b' ' ∷ value)
            (Lacks-append ch (b ∷ key) (b' ' ∷ []) k (ns, tt)) (ne, (ns, v)) in
      let line = setting_line (b ∷ key) value in
      let whole =
        Lacks-append 0 body (b'\n' ∷ [])
          (clean 0 plain.no_nul plain_value.no_nul (omega arith) (omega arith)) (omega arith, tt) in
      let kept : skips_line line ≡ false =
        skips_line-word b [] mark plain.no_newline.0 plain.no_return.0 in
      let rest =
        λ (s : Str). apply_setting atoi (cut_at b'=' (cut_line b'\r' (cut_line b'\n' s))) c in
      let word = ap trim_end (skip_spaces-word b key space) in
      let key_trimmed : trim front ≡ b ∷ key =
        ap trim_end (skip_spaces-word b (key ++ b' ' ∷ []) space)
        ∙ trim_end-space (b ∷ key)
        ∙ sym word
        ∙ plain.trimmed in
      ap (λ s. if skips_line s then c else rest s) (c_string-Lacks line whole)
      ∙ ap (λ skipped. if skipped then c else rest line) kept
      ∙ ap (λ s. apply_setting atoi (cut_at b'=' (cut_line b'\r' s)) c)
          (cut_line-end b'\n' body []
            (clean b'\n' plain.no_newline plain_value.no_newline (omega arith) (omega arith)))
      ∙ ap (λ s. apply_setting atoi (cut_at b'=' s) c)
          (cut_line-Lacks b'\r' body
            (clean b'\r' plain.no_return plain_value.no_return (omega arith) (omega arith)))
      ∙ ap (λ r. apply_setting atoi r c)
          (cut_at-pair b'=' front (b' ' ∷ value)
            (Lacks-append b'=' (b ∷ key) (b' ' ∷ []) no_equals (omega arith, tt)))
      ∙ λ i. assign_setting atoi (key_trimmed i) (plain_value.trimmed i) c
