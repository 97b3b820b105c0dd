-- ===== src/Protocol/Refused.antt =====
-- Which framed requests `kvs_tcp_protocol` of kvstore.c refuses, and with which code.
use kv_study.Prelude.{
  ℕ, ◌+◌, ◌≤◌, ◌<◌, ◌≡◌, ◌≢◌, ◌⊎◌, inl, inr, ◌==◌, false, Bool-cases, List, [], ◌++◌, ltb, length,
  length-append, take, drop-append, ℤ, pos, negsuc, Run, ok, ◌>>=◌, arith,
}
use kv_study.Wire.{TcpHeader, tcp_magic, tcp_version, check_header}
use kv_study.Wire.Codec.{Fits, encode, length-encode, parse_tcp_header-encode}
use kv_study.Engine.{TreeOps, ZsetOps}
use kv_study.Protocol.{State, kvs_tcp_protocol, dispatch, answer}

-- What is wrong with a header in front of `n` bytes, and the code for it: -2 for the magic number,
-- -3 for the version, -4 for a length above 1024, and -5 for fewer bytes than that length.
pub data Refusal (h : TcpHeader) (n : ℕ) : Type 0 where
  wrong_magic : h.magic ≢ tcp_magic → Refusal h n
  wrong_version : h.magic ≡ tcp_magic → h.version ≢ tcp_version → Refusal h n
  too_long : h.magic ≡ tcp_magic → h.version ≡ tcp_version → 1024 < h.data_len → Refusal h n
  cut_off :
      h.magic ≡ tcp_magic
      → h.version ≡ tcp_version
      → h.data_len ≤ 1024
      → n < h.data_len
      → Refusal h n

abbrev pub refusal_code : {h : TcpHeader} {n : ℕ} → Refusal h n → ℤ
refusal_code (wrong_magic a) = negsuc 1
refusal_code (wrong_version a b) = negsuc 2
refusal_code (too_long a b c) = negsuc 3
refusal_code (cut_off a b c d) = negsuc 4

-- Nothing is wrong with it.
pub record IsComplete (h : TcpHeader) (n : ℕ) : Type 0 where
  pub magic : h.magic ≡ tcp_magic
  pub version : h.version ≡ tcp_version
  pub bounded : h.data_len ≤ 1024
  pub whole : h.data_len ≤ n

module _ (trees : TreeOps) (zsets : ZsetOps)
    (save : State trees zsets → Run (State trees zsets × ℤ)) where
  arrives :
      (h : TcpHeader) (payload : List ℕ) (e : State trees zsets)
      → Fits h
      → kvs_tcp_protocol trees zsets save (encode h ++ payload) e
        ≡ dispatch trees zsets save (encode h ++ payload) (h, check_header h) e
  unfolding kvs_tcp_protocol
  arrives h payload e fits =
      let long : ltb (length (encode h ++ payload)) 24 ≡ false =
        ground (arith, length-append (encode h) payload, length-encode h) in
      rw (long, parse_tcp_header-encode h payload fits, ◌>>=◌)

  -- A request is refused, with nothing sent and the engine as it was, or it is complete, and then the
  -- command is run on the bytes of the payload that the header counts.
  abbrev pub Verdict :
      TcpHeader → List ℕ → State trees zsets → Run (State trees zsets × List ℕ × ℤ) → Type 0
  Verdict h payload e run =
      ((reason : Refusal h (length payload)) × (run ≡ ok (e, [], refusal_code reason)))
      ⊎ (IsComplete h (length payload)
          × (run ≡ answer trees zsets save h (take h.data_len payload) e))

  -- Behind a header that passes the check only the length of the payload counts.
  passed :
      (h : TcpHeader) (payload : List ℕ) (e : State trees zsets)
      → h.magic ≡ tcp_magic
      → h.version ≡ tcp_version
      → h.data_len ≤ 1024
      → Verdict h payload e (dispatch trees zsets save (encode h ++ payload) (h, pos 0) e)
  unfolding dispatch
  passed h payload e magic version fine =
      let size = length-append (encode h) payload in
      let head = length-encode h in
      elim (Bool-cases (ltb (length (encode h ++ payload)) (24 + h.data_len))) [
        | inl short ↦ inl (cut_off magic version fine (ground (arith, size, head, short)), rw short)
        | inr long ↦ inr (
          record {
            magic = magic;
            version = version;
            bounded = fine;
            whole = ground (arith, size, head, long);
          },
          rw (long, drop-append (encode h) payload 24 head),
        )
      ]

  dispatched :
      (h : TcpHeader) (payload : List ℕ) (e : State trees zsets)
      → Verdict h payload e (dispatch trees zsets save (encode h ++ payload) (h, check_header h) e)
  unfolding dispatch check_header
  dispatched h payload e = elim (Bool-cases (h.magic == tcp_magic)) [
    | inr magic ↦ inl (wrong_magic (ground arith), ground (arith, magic))
    | inl magic ↦ elim (Bool-cases (h.version == tcp_version)) [
      | inr version ↦
          inl (wrong_version (ground arith) (ground arith), ground (arith, magic, version))
      | inl version ↦ elim (Bool-cases (ltb 1024 h.data_len)) [
        | inl long ↦ inl (
          too_long (ground arith) (ground arith) (ground arith),
          ground (arith, magic, version, long),
        )
        | inr fine ↦
            let code : check_header h ≡ pos 0 = ground (arith, magic, version, fine) in
            rw code (passed h payload e (ground arith) (ground arith) (ground arith))
      ]
    ]
  ]

  -- A header of six 32-bit words with any payload behind it is refused exactly for what is wrong with
  -- it, the first of these: -2 for the magic number, -3 for the version, -4 for a length above 1024,
  -- -5 for a payload that is not all there. Then nothing is sent and the engine stays as it was.
  -- Otherwise the command is run on the bytes of the payload that the header counts.
  pub kvs_tcp_protocol-Verdict :
      (h : TcpHeader) (payload : List ℕ) (e : State trees zsets)
      → Fits h
      → Verdict h payload e (kvs_tcp_protocol trees zsets save (encode h ++ payload) e)
  kvs_tcp_protocol-Verdict h payload e fits = rw (arrives h payload e fits) (dispatched h payload e)
