-- ===== src/Protocol/Bounds.antt =====
-- What `kvs_tcp_protocol` sends fits its buffers and answers the request it was sent for.
use kv_study.Prelude.{
  ℕ, zero, suc, ◌+◌, ◌-◌, ◌≤◌, ◌<◌, ◌≡◌, refl, sym, ap, inl, inr, Option, none, some, Option-cases,
  List, [], ◌∷◌, ltb, leb, Bool-cases, ltb→lt, length, length-append, length-take, ℤ, pos, negsuc,
  Ptr, Str, codes, Run, ok, fault, deadlock, ◌>>=◌, arith,
}
use mathlib.Core.Path.{subst}
use kv_study.Wire.{TcpHeader, tcp_header_size, parse_tcp_header, build_tcp_response}
use kv_study.Wire.Codec.{parse-build}
use kv_study.Engine.{TreeOps, ZsetOps}
use kv_study.Array.{kvs_array_get}
use kv_study.Hash.{kvs_hash_get}
use kv_study.Protocol.{
  State, kvs_tcp_protocol, answer, run_cmd, run_zadd, run_zrem, run_zrange, print_entry,
  print_entries, copy_pointer, to_result, three_way, two_way,
}
use kv_study.Protocol.Request.{Cmd, cmd_of, key_of, value_of, cut_at}
use kv_study.Protocol.Replies.{Request, request_bytes, protocol-request}

-- Every result of the run satisfies `P`.
abbrev pub Ensures {ℓ κ} : {A : Type ℓ} → (A → Type κ) → Run A → Type κ
Ensures P (ok a) = P a
Ensures P fault = Unit
Ensures P deadlock = Unit

bind_lem {ℓ κ μ} :
    {A : Type ℓ} {B : Type κ} (P : B → Type μ) (r : Run A) (f : A → Run B)
    → ((a : A) → Ensures P (f a))
    → Ensures P (r >>= f)
bind_lem P (ok a) f h = h a
bind_lem P fault f h = tt
bind_lem P deadlock f h = tt

-- A bind of which the first part is known to ensure something.
chain_lem {ℓ κ μ ν} :
    {A : Type ℓ} {B : Type κ} (Q : A → Type ν) (P : B → Type μ) (r : Run A) (f : A → Run B)
    → Ensures Q r
    → ((a : A) → Q a → Ensures P (f a))
    → Ensures P (r >>= f)
chain_lem Q P (ok a) f q h = h a q
chain_lem Q P fault f q h = tt
chain_lem Q P deadlock f q h = tt

abbrev Short : Str → Type 0
Short s = length s < 1024

to_result-Short : (s : Str) → Ensures Short (to_result s)
unfolding to_result
to_result-Short s = elim (Bool-cases (ltb (length s) 1024)) [
  | inl e ↦ rw e (let lt = ltb→lt _ _ e in lt)
  | inr e ↦ rw e tt
]

copy_pointer-Short : (p : Ptr) → Ensures Short (copy_pointer p)
unfolding copy_pointer
copy_pointer-Short Ptr.null = omega arith
copy_pointer-Short (Ptr.text s) = to_result-Short s
copy_pointer-Short Ptr.wild = tt

three_way-Short : (s : Str) (code : ℤ) → Short s → Short (three_way s code)
unfolding three_way
three_way-Short s (negsuc n) h = omega arith
three_way-Short s (pos zero) h = omega arith
three_way-Short s (pos (suc n)) h = h

two_way-Short : (s t : Str) (code : ℤ) → Short s → Short t → Short (two_way s t code)
unfolding two_way
two_way-Short s t (negsuc n) h k = k
two_way-Short s t (pos zero) h k = h
two_way-Short s t (pos (suc n)) h k = k

module _ (trees : TreeOps) (zsets : ZsetOps) where
  open zsets use {Score}

  -- The entries printed never fill the buffer.
  print_entries-Short :
      (len : ℕ) (entries : List (Str × Str × Score))
      → len < 1024
      → len + length (print_entries trees zsets len entries) < 1024
  unfolding print_entries
  print_entries-Short len [] lt = omega arith
  print_entries-Short len (entry ∷ entries) lt =
      let line = print_entry trees zsets entry in
      elim (Bool-cases (leb (1024 - len) (length line))) [
        | inl e ↦ rw e (omega (arith, length-take (1023 - len) line))
        | inr e ↦
            let left : len + length line < 1024 = ground (arith, e) in
            let later = print_entries-Short (len + length line) entries left in
            rw e (
              omega (
                arith,
                length-append line (print_entries trees zsets (len + length line) entries),
                later,
              ))
      ]

  abbrev ShortReply : State trees zsets × Str → Type 0
  ShortReply (e, s) = length s < 1024

  run_zadd-ShortReply :
      (key value : Option Str) (e : State trees zsets)
      → Ensures ShortReply (run_zadd trees zsets key value e)
  unfolding run_zadd
  run_zadd-ShortReply none value e = omega arith
  run_zadd-ShortReply (some key) none e = omega arith
  run_zadd-ShortReply (some key) (some value) e = elim (Option-cases (cut_at b' ' value)) [
    | inl cut ↦ rw (Ensures, cut) (omega arith)
    | inr (m, cut) ↦
        rw (Ensures, cut)
          (bind_lem ShortReply (zsets.kvs_skiptable_zadd e.zset key m.0 (zsets.atof m.1))
            (λ r. ok (record e { zset = r.0 }, three_way (codes "EXIST") r.1))
            λ r. three_way-Short (codes "EXIST") r.1 (omega arith))
  ]

  run_zrem-ShortReply :
      (key : Option Str) (e : State trees zsets) → Ensures ShortReply (run_zrem trees zsets key e)
  unfolding run_zrem
  run_zrem-ShortReply none e = omega arith
  run_zrem-ShortReply (some key) e =
      bind_lem ShortReply (zsets.kvs_skiptable_zrem e.zset key) _
        λ r. two_way-Short (codes "OK") (codes "NO EXIST") r.1 (omega arith) (omega arith)

  run_zrange-ShortReply :
      (key value : Option Str) (e : State trees zsets)
      → Ensures ShortReply (run_zrange trees zsets key value e)
  unfolding run_zrange
  run_zrange-ShortReply none value e = omega arith
  run_zrange-ShortReply (some key) none e = omega arith
  run_zrange-ShortReply (some key) (some value) e = elim (Option-cases (zsets.scan_two value)) [
    | inl scan ↦ rw (Ensures, scan) (omega arith)
    | inr (m, scan) ↦
        rw (Ensures, scan)
          (bind_lem ShortReply (zsets.kvs_skiptable_zrange_entries e.zset m.0 m.1 100)
            (λ entries. ok (e, print_entries trees zsets 0 entries))
            λ entries. omega (arith, print_entries-Short 0 entries (omega arith)))
  ]

  module _ (save : State trees zsets → Run (State trees zsets × ℤ)) where
    coded :
        {A : Type 0} (r : Run A) (f : A → State trees zsets) (g : A → Str)
        → ((a : A) → length (g a) < 1024)
        → Ensures ShortReply (r >>= λ a. ok (f a, g a))
    coded r f g h = bind_lem ShortReply r _ h

    copied :
        {A : Type 0} (r : Run A) (p : A → Ptr) (f : A → State trees zsets)
        → Ensures ShortReply (r >>= λ a. copy_pointer (p a) >>= λ s. ok (f a, s))
    copied r p f = bind_lem ShortReply r _ λ a.
        chain_lem Short ShortReply (copy_pointer (p a)) (λ s. ok (f a, s))
          (copy_pointer-Short (p a)) λ s h. h

    -- The text of every answer ends within the buffer of 1024 bytes.
    pub run_cmd-ShortReply :
        (cmd : Cmd) (key value : Option Str) (e : State trees zsets)
        → Ensures ShortReply (run_cmd trees zsets save cmd key value e)
    unfolding run_cmd
    run_cmd-ShortReply Cmd.set key value e =
        coded _ _ _ λ r. three_way-Short (codes "EXIST") r.1 (omega arith)
    run_cmd-ShortReply Cmd.get key value e =
        copied (kvs_array_get e.array key) (λ r. r.1) (λ r. record e { array = r.0 })
    run_cmd-ShortReply Cmd.del key value e =
        coded _ _ _ λ r. three_way-Short (codes "NO EXIST") r.1 (omega arith)
    run_cmd-ShortReply Cmd.modify key value e =
        coded _ _ _ λ r. three_way-Short (codes "NO EXIST") r.1 (omega arith)
    run_cmd-ShortReply Cmd.exist key value e =
        coded _ _ _
          λ r. two_way-Short (codes "EXIST") (codes "NO EXIST") r.1 (omega arith) (omega arith)
    run_cmd-ShortReply Cmd.rset key value e =
        coded _ _ _ λ r. three_way-Short (codes "EXIST") r.1 (omega arith)
    run_cmd-ShortReply Cmd.rget key value e =
        copied (trees.kvs_rbtree_get e.tree key) (λ p. p) (λ p. e)
    run_cmd-ShortReply Cmd.hset key value e =
        coded _ _ _ λ r. three_way-Short (codes "EXIST") r.1 (omega arith)
    run_cmd-ShortReply Cmd.hget key value e = copied (kvs_hash_get e.hash key) (λ p. p) (λ p. e)
    run_cmd-ShortReply Cmd.zadd key value e = run_zadd-ShortReply key value e
    run_cmd-ShortReply Cmd.zrem key value e = run_zrem-ShortReply key e
    run_cmd-ShortReply Cmd.zrange key value e = run_zrange-ShortReply key value e
    run_cmd-ShortReply Cmd.save key value e = bind_lem ShortReply (save e) _ λ r. ground arith
    run_cmd-ShortReply Cmd.unknown key value e = omega arith

    -- A response to `h`: its header passes the check and carries the command and the sequence number
    -- of the request, and its data length is that of the bytes behind it.
    abbrev pub IsResponse : TcpHeader → List ℕ → Type 0
    IsResponse h bytes =
        (g : TcpHeader) × (parse_tcp_header bytes ≡ ok (g, pos 0))
        × (g.cmd_type ≡ h.cmd_type)
        × (g.seq_id ≡ h.seq_id)
        × (length bytes ≡ tcp_header_size + g.data_len)
        × (length bytes ≤ 1047)

    -- Whatever a complete request asks, if it is answered at all then the response decodes: the header
    -- passes the check, has the command and the sequence number of the request and the length of
    -- the data behind it; its 1047 bytes at most, and the code that is returned is its size.
    pub kvs_tcp_protocol-IsResponse :
        (r : Request) (e : State trees zsets)
        → Ensures
            (λ (e', response, code). IsResponse r.header response × (code ≡ pos (length response)))
            (kvs_tcp_protocol trees zsets save (request_bytes r) e)
    unfolding answer build_tcp_response
    kvs_tcp_protocol-IsResponse r e =
        subst
          (Ensures
            λ (e', response, code). IsResponse r.header response × (code ≡ pos (length response)))
          (sym (protocol-request trees zsets save r e))
          (chain_lem ShortReply _ _ _
            (run_cmd-ShortReply (cmd_of r.header.cmd_type) (key_of r.payload) (value_of r.payload)
              e)
            λ (e', s) short.
              let (size, decoded, behind) =
                parse-build r.header.cmd_type r.header.seq_id s r.fits.cmd_type r.fits.seq_id
                  (omega arith) in
              ((_, decoded, refl, refl, size, omega (arith, size, short)), ap pos (sym size)))
