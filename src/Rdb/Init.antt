-- ===== src/Rdb/Init.antt =====
-- `rdb_config_init` and `kvs_rdb_init` of kv_RDB.c: the start of the snapshots. `conf` is the file kvs.conf and
-- `files` has the file at a path, none where it cannot be opened; `accessible` is what `access` says.
use kv_study.Prelude.{
  ℕ, ◌<◌, ◌^◌, ◌≡◌, refl, ◌∙◌, ap, Bool, true, false, not, Option, none, some, List, length,
  if◌then◌else◌, ℤ, pos, negsuc, is_neg, Ptr, Str, str_eq, str_eq_refl, Run, ok, fault, deadlock,
  Returns, ◌>>=◌,
}
use kv_study.Array.{KvsArray}
use kv_study.Hash.{KvsHash}
use kv_study.Engine.{Engine, TreeOps}
use kv_study.Rdb.Config.{RdbConfig}
use kv_study.Rdb.Config.File.{rdb_config_load}
use kv_study.Rdb.Config.Write.{rdb_config_save}
use kv_study.Rdb.Config.Reload.{Writable, rdb_config_save-load}
use kv_study.Rdb.Save.{save_data, kvs_rdb_save}
use kv_study.Rdb.Load.{kvs_rdb_load}
use kv_study.Rdb.Roundtrip.{Record, encode_all, stored, AllLoad}
use kv_study.Rdb.Files.{loaded, save-load}

module _ (atoi : Str → ℤ) (print_int : ℤ → Str) where
  -- The configuration, the file kvs.conf afterwards, and 0.
  unfoldable pub rdb_config_init :
      (writable : Bool) → RdbConfig → Option (List ℕ) → RdbConfig × Option (List ℕ) × ℤ
  rdb_config_init writable c conf =
      let (c', ret) = rdb_config_load atoi conf c in
      let written = (rdb_config_save print_int writable c').0 in
      (
        c',
        (if is_neg ret then elim written [ none ↦ conf | some text ↦ some text ] else conf),
        pos 0,
      )

  init-conf :
      (writable : Bool) (c old : RdbConfig) (conf : Option (List ℕ))
      → rdb_config_load atoi conf old ≡ (c, pos 0)
      → rdb_config_init writable old conf ≡ (c, conf, pos 0)
  unfolding rdb_config_init
  init-conf writable c old conf run = rw run refl

  module _ (trees : TreeOps) {Zset : Type 0} where
    open trees use {Tree}

    -- Whether the snapshot could be loaded or not, the call returns 0.
    unfoldable pub kvs_rdb_init :
        (writable granted : Bool)
        → RdbConfig
        → Option (List ℕ)
        → (accessible : Str → Bool) → (files : Str → Option (List ℕ)) → Engine Tree Zset
        → Run (RdbConfig × Engine Tree Zset × ℤ)
    kvs_rdb_init writable granted c conf accessible files e =
        let (c', conf', ret) = rdb_config_init writable c conf in
        if is_neg ret
        then ok (c', e, negsuc 0)
        else if not c'.rdb_enabled
        then ok (c', e, pos 0)
        else if accessible c'.rdb_file
        then (kvs_rdb_load trees c' granted (files c'.rdb_file) e >>= λ r. ok (c', r.0, pos 0))
        else ok (c', e, pos 0)

    abbrev started : RdbConfig → Engine Tree Zset → Run (RdbConfig × Engine Tree Zset × ℤ)
    started c e = ok (c, e, pos 0)

    started-loaded :
        (c : RdbConfig) (m : Run (Engine Tree Zset))
        → ((m >>= loaded trees) >>= λ r. ok (c, r.0, pos 0)) ≡ (m >>= started c)
    started-loaded c (ok e) = refl
    started-loaded c fault = refl
    started-loaded c deadlock = refl

    -- Whether the call loads the file.
    opens :
        (enabled accessible : Bool)
        → (x y : Run (RdbConfig × Engine Tree Zset × ℤ)) → enabled ≡ true
        → accessible ≡ true
        → (if not enabled then x else if accessible then y else x) ≡ y
    opens enabled accessible x y on there = rw (on, there) refl

    init-loads :
        (writable granted : Bool) (c old : RdbConfig) (conf : Option (List ℕ))
        (accessible : Str → Bool) (files : Str → Option (List ℕ)) (e : Engine Tree Zset)
        → rdb_config_init writable old conf ≡ (c, conf, pos 0)
        → c.rdb_enabled ≡ true
        → accessible c.rdb_file ≡ true
        → kvs_rdb_init writable granted old conf accessible files e
          ≡ (kvs_rdb_load trees c granted (files c.rdb_file) e >>= λ r. ok (c, r.0, pos 0))
    unfolding kvs_rdb_init
    init-loads writable granted c old conf accessible files e run on there = rw run (
        opens c.rdb_enabled (accessible c.rdb_file) (ok (c, e, pos 0))
          (kvs_rdb_load trees c granted (files c.rdb_file) e >>= λ r. ok (c, r.0, pos 0)) on there)

    -- A snapshot that kvs_rdb_save made without the checksum, beside a kvs.conf that rdb_config_save wrote:
    -- if the data to be saved is the encoding of records that the loader takes, and the configuration is
    -- one that its lines bring back, the save succeeds, and kvs_rdb_init at the next start takes this
    -- configuration whatever it was before, stores exactly those records, in their order, and returns 0 if
    -- storing them ends.
    pub save-kvs_rdb_init :
        (writable granted granted' : Bool) (c old : RdbConfig) (now : ℕ) (a : KvsArray)
        (root : Option (Str × Ptr)) (h : KvsHash) (rs : List Record) (records : ℕ)
        (e : Engine Tree Zset)
        → atoi (print_int c.save_interval) ≡ c.save_interval
        → Writable print_int c
        → c.rdb_enabled ≡ true
        → c.rdb_crc64 ≡ false
        → save_data a root h ≡ ok (encode_all rs, records)
        → AllLoad rs
        → length (encode_all rs) < 2 ^ 32
        → records < 2 ^ 32
        → now < 2 ^ 64
        → Returns (kvs_rdb_save c true granted now a root h) λ (file, code).
          (code ≡ pos 0)
          × (kvs_rdb_init writable granted' old
                (rdb_config_save print_int true c).0
                (λ path. str_eq path c.rdb_file)
                (λ path. if str_eq path c.rdb_file then file else none)
                e
              ≡ (stored trees rs e >>= started c))
    save-kvs_rdb_init writable granted granted' c old now a root h rs records e read writes enabled
          off saved all low few time =
        let ((file, code), run, (zero_code, comes_back)) =
          save-load trees c granted granted' now a root h rs records e enabled off saved all low few
            time in
        let conf =
          init-conf writable c old (rdb_config_save print_int true c).0
            (rdb_config_save-load atoi print_int c old read writes) in
        (
          (file, code),
          run,
          (
            zero_code,
            init-loads writable granted' c old (rdb_config_save print_int true c).0
                  (λ path. str_eq path c.rdb_file)
                  (λ path. if str_eq path c.rdb_file then file else none) e conf enabled
                  (str_eq_refl c.rdb_file)
                ∙ ap
                    (λ (here : Bool).
                      kvs_rdb_load trees c granted' (if here then file else none) e >>= λ r.
                      ok (c, r.0, pos 0))
                    (str_eq_refl c.rdb_file)
                ∙ ap (λ (m : Run (Engine Tree Zset × ℤ)). m >>= λ r. ok (c, r.0, pos 0)) comes_back
                ∙ started-loaded c (stored trees rs e),
          ),
        )
