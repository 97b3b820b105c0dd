-- ===== src/Protocol.antt =====
-- `kvs_tcp_protocol` of kvstore.c: one framed request against the engine, and the response. The
-- buffer is the list of its bytes up to `buffer_len`. The tree, the skip list and `double` come
-- through the interfaces of Engine; `save` is the call of `kvs_rdb_save` with the configured file.
-- The copies that the engine makes are granted their memory here. The NUL that is put behind the
-- payload falls outside these bytes: Reader has it.
pub mod Request
pub mod Payload
pub mod Replies
pub mod Bounds
pub mod Refused
pub mod Trees
pub mod Zsets
use kv_study.Prelude.{
  ℕ, zero, suc, ◌+◌, ◌-◌, Bool, true, false, Option, none, some, List, [], ◌∷◌, ◌++◌, ◌==◌, ltb,
  leb, if◌then◌else◌, length, take, drop, ℤ, pos, negsuc, is_neg, Ptr, Str, codes, Run, ok, fault,
  ◌>>=◌,
}
use kv_study.Array.{
  KvsArray, kvs_array_set, kvs_array_get, kvs_array_del, kvs_array_mod, kvs_array_exist,
}
use kv_study.Hash.{kvs_hash_set, kvs_hash_get}
use kv_study.Engine.{Engine, TreeOps, ZsetOps}
use kv_study.Wire.{TcpHeader, tcp_header_size, parse_tcp_header, build_tcp_response}
use Request.{key_of, value_of, cut_at, Cmd, cmd_of}

-- `char result[1024]`: a longer text overruns it.
unfoldable pub to_result : Str → Run Str
to_result s = if ltb (length s) 1024 then ok s else fault

-- `strcpy (result, p)`
unfoldable pub copy_pointer : Ptr → Run Str
unfolding to_result
copy_pointer Ptr.null = ok (codes "NO EXIST")
copy_pointer (Ptr.text s) = to_result s
copy_pointer Ptr.wild = fault

-- `ret < 0`, `ret == 0`, and the rest
unfoldable pub three_way : Str → ℤ → Str
three_way positive (negsuc n) = codes "ERROR"
three_way positive (pos zero) = codes "OK"
three_way positive (pos (suc n)) = positive

-- `ret == 0`, and the rest
unfoldable pub two_way : Str → Str → ℤ → Str
two_way yes_text no_text (pos zero) = yes_text
two_way yes_text no_text _ = no_text

module _ (trees : TreeOps) (zsets : ZsetOps) where
  open trees use {Tree, kvs_rbtree_set, kvs_rbtree_get}
  open zsets use {
    Zset, Score, atof, scan_two, print_score, kvs_skiptable_zadd, kvs_skiptable_zrem,
    kvs_skiptable_zrange_entries,
  }

  abbrev pub State : Type 0
  State = Engine Tree Zset

  -- "%s %s %.2f\n"
  unfoldable pub print_entry : Str × Str × Score → Str
  print_entry (key, value, score) =
      key ++ (b' ' ∷ (value ++ (b' ' ∷ (print_score score ++ b'\n' ∷ []))))

  -- The loop over the entries stops at the first that does not fit with its NUL, after `snprintf` has
  -- written as much of it as fits.
  unfoldable pub print_entries : ℕ → List (Str × Str × Score) → Str
  unfolding print_entry
  print_entries len [] = []
  print_entries len (entry ∷ entries) =
      let line = print_entry entry in
      let more = print_entries (len + length line) entries in
      if leb (1024 - len) (length line) then take (1023 - len) line else line ++ more

  -- CMD_ZADD
  unfoldable pub run_zadd : Option Str → Option Str → State → Run (State × Str)
  run_zadd none value e = ok (e, codes "ERROR")
  run_zadd (some key) none e = ok (e, codes "ERROR")
  run_zadd (some key) (some value) e = elim (cut_at b' ' value) [
    | none ↦ ok (e, codes "ERROR")
    | some (member, score) ↦ do
      r ← kvs_skiptable_zadd e.zset key member (atof score)
      ok (record e { zset = r.0 }, three_way (codes "EXIST") r.1)
  ]

  -- CMD_ZREM
  unfoldable pub run_zrem : Option Str → State → Run (State × Str)
  unfolding two_way
  run_zrem none e = ok (e, codes "ERROR")
  run_zrem (some key) e = do
    r ← kvs_skiptable_zrem e.zset key
    ok (record e { zset = r.0 }, two_way (codes "OK") (codes "NO EXIST") r.1)

  -- CMD_ZRANGE
  unfoldable pub run_zrange : Option Str → Option Str → State → Run (State × Str)
  unfolding print_entries
  run_zrange none value e = ok (e, codes "ERROR")
  run_zrange (some key) none e = ok (e, codes "ERROR")
  run_zrange (some key) (some value) e = elim (scan_two value) [
    | none ↦ ok (e, codes "ERROR")
    | some (low, high) ↦ do
      entries ← kvs_skiptable_zrange_entries e.zset low high 100
      ok (e, print_entries 0 entries)
  ]

  module _ (save : State → Run (State × ℤ)) where
    -- The `switch`: the state and the text of `result`.
    unfoldable pub run_cmd : Cmd → Option Str → Option Str → State → Run (State × Str)
    unfolding copy_pointer three_way two_way run_zadd run_zrem run_zrange
    run_cmd Cmd.set key value e = do
      r ← kvs_array_set true true e.array key value
      ok (record e { array = r.0 }, three_way (codes "EXIST") r.1)
    run_cmd Cmd.get key value e = do
      r ← kvs_array_get e.array key
      s ← copy_pointer r.1
      ok (record e { array = r.0 }, s)
    run_cmd Cmd.del key value e = do
      r ← kvs_array_del e.array key
      ok (record e { array = r.0 }, three_way (codes "NO EXIST") r.1)
    run_cmd Cmd.modify key value e = do
      r ← kvs_array_mod true e.array key value
      ok (record e { array = r.0 }, three_way (codes "NO EXIST") r.1)
    run_cmd Cmd.exist key value e = do
      r ← kvs_array_exist e.array key
      ok (record e { array = r.0 }, two_way (codes "EXIST") (codes "NO EXIST") r.1)
    run_cmd Cmd.rset key value e = do
      r ← kvs_rbtree_set e.tree key value
      ok (record e { tree = r.0 }, three_way (codes "EXIST") r.1)
    run_cmd Cmd.rget key value e = do p ← kvs_rbtree_get e.tree key; s ← copy_pointer p; ok (e, s)
    run_cmd Cmd.hset key value e = do
      r ← kvs_hash_set true true true e.hash key value
      ok (record e { hash = r.0 }, three_way (codes "EXIST") r.1)
    run_cmd Cmd.hget key value e = do p ← kvs_hash_get e.hash key; s ← copy_pointer p; ok (e, s)
    run_cmd Cmd.zadd key value e = run_zadd key value e
    run_cmd Cmd.zrem key value e = run_zrem key e
    run_cmd Cmd.zrange key value e = run_zrange key value e
    run_cmd Cmd.save key value e = do
      r ← save e
      ok (r.0, if is_neg r.1 then codes "SAVE ERROR" else codes "SAVED")
    run_cmd Cmd.unknown key value e = ok (e, codes "UNKNOWN COMMAND")

    -- A request whose header was accepted and whose payload is complete.
    unfoldable pub answer : TcpHeader → List ℕ → State → Run (State × List ℕ × ℤ)
    unfolding key_of value_of cmd_of run_cmd
    answer header payload e = do
      r ← run_cmd (cmd_of header.cmd_type) (key_of payload) (value_of payload) e
      let built = build_tcp_response header.cmd_type header.seq_id r.1
      ok (r.0, built.0, pos built.1)

    -- After the header: its refusal, a payload that is not all there, or the answer.
    unfoldable pub dispatch : List ℕ → TcpHeader × ℤ → State → Run (State × List ℕ × ℤ)
    unfolding answer
    dispatch buffer (header, ret) e =
        if is_neg ret
        then ok (e, [], ret)
        else if ltb (length buffer) (tcp_header_size + header.data_len)
        then ok (e, [], negsuc 4)
        else answer header (take header.data_len (drop tcp_header_size buffer)) e

    -- The response is empty where the call returns an error, with the code.
    unfoldable pub kvs_tcp_protocol : List ℕ → State → Run (State × List ℕ × ℤ)
    unfolding dispatch
    kvs_tcp_protocol buffer e =
        if ltb (length buffer) tcp_header_size
        then ok (e, [], negsuc 0)
        else do parsed ← parse_tcp_header buffer; dispatch buffer parsed e
