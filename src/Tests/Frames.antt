-- ===== src/Tests/Frames.antt =====
-- Requests and responses on concrete bytes, with a tree and a skip list that hold nothing.
use kv_study.Prelude.{
  ℕ, ◌+◌, ◌^◌, ◌≤◌, ◌<◌, ◌≡◌, refl, inl, inr, none, some, List, [], ◌∷◌, ◌++◌, length, ℤ, pos,
  negsuc, Ptr, Str, codes, str_eq, str_eq_iff, if◌then◌else◌, Run, ok, deadlock, ◌>>=◌, Returns,
  arith,
}
use kv_study.Engine.{TreeOps, ZsetOps}
use kv_study.Wire.{TcpHeader, tcp_magic, tcp_version, check_header, parse_tcp_header}
use kv_study.Wire.Codec.{Fits, encode, parse_tcp_header-encode}
use kv_study.Array.View.{count, find-eq-none}
use kv_study.Array.Methods.{view}
use kv_study.Protocol.{State, kvs_tcp_protocol}
use kv_study.Protocol.Replies.{Request, request_bytes, reply, empty_get-deadlock, set-get}
use kv_study.Protocol.Bounds.{Ensures, IsResponse, kvs_tcp_protocol-IsResponse}
use kv_study.Protocol.Refused.{Verdict, kvs_tcp_protocol-Verdict}
use kv_study.Reader.{drain}
use kv_study.Reader.Framing.{
  Frame, frame_bytes, all_bytes, serve, idle, drain-frames, stopped_at, pipelined-refused,
}
use kv_study.Tests.Tables.{one_key, one_key-IsValid, count-replicate}
use kv_study.Tests.Chains.{empty_hash}

abbrev pub no_trees : TreeOps
no_trees = record {
  Tree = Unit;
  kvs_rbtree_set = λ t key value. ok (t, pos 0);
  kvs_rbtree_get = λ t key. ok Ptr.null;
  root = λ t. none;
}

abbrev pub no_zsets : ZsetOps
no_zsets = record {
  Zset = Unit;
  Score = ℕ;
  atof = λ s. 0;
  scan_two = λ s. none;
  print_score = λ x. [];
  kvs_skiptable_zadd = λ z key value score. ok (z, pos 0);
  kvs_skiptable_zrem = λ z key. ok (z, negsuc 0);
  kvs_skiptable_zrange_entries = λ z low high n. ok [];
}

abbrev engine : State no_trees no_zsets
engine = record { array = one_key; hash = empty_hash; tree = tt; zset = tt }

abbrev no_save : State no_trees no_zsets → Run (State no_trees no_zsets × ℤ)
no_save e = ok (e, negsuc 0)

abbrev header : ℕ → ℕ → TcpHeader
header cmd_type data_len = record {
  magic = tcp_magic;
  version = tcp_version;
  cmd_type = cmd_type;
  data_len = data_len;
  seq_id = 7;
  flags = 0;
}

pub header-Fits : (c n : ℕ) → c < 2 ^ 32 → n < 2 ^ 32 → Fits (header c n)
header-Fits c n lt lt' = record {
  magic = omega arith;
  version = omega arith;
  cmd_type = lt;
  data_len = lt';
  seq_id = omega arith;
  flags = omega arith;
}

pub header-fine : (c n : ℕ) → n ≤ 1024 → check_header (header c n) ≡ pos 0
unfolding check_header
header-fine c n le = ground arith

abbrev pub request : (c : ℕ) → c < 2 ^ 32 → (payload : List ℕ) → length payload ≤ 1024 → Request
request c lt payload le = record {
  header = header c (length payload);
  payload = payload;
  fits = header-Fits c (length payload) lt (omega arith);
  accepted = header-fine c (length payload) le;
  sized = refl;
}

abbrev set_k : Request
set_k = request 1 (omega arith) (codes "k v") (omega arith)

abbrev get_k : Request
get_k = request 2 (omega arith) (codes "k") (omega arith)

abbrev empty_get : Request
empty_get = request 2 (omega arith) [] (omega arith)

-- CMD_HDEL
abbrev hdel : Request
hdel = request 23 (omega arith) (codes "k") (omega arith)

lacks_k : view one_key (codes "k") ≡ none
unfolding count
lacks_k =
    find-eq-none (codes "k") one_key.table
      (ground (arith, str_eq_iff (codes "a") (codes "k"), count-replicate (codes "k") 1023))

set-get_example :
    Returns
      (do
        (e', response, code) ←
            kvs_tcp_protocol no_trees no_zsets no_save (request_bytes set_k) engine
        (e'', response', code') ←
            kvs_tcp_protocol no_trees no_zsets no_save (request_bytes get_k) e'
        ok (e'', response, response'))
      λ (e'', response, response').
        (response ≡ (reply set_k.header (codes "OK")).0)
        × (response' ≡ (reply get_k.header (codes "v")).0)
        × ((q : Str)
            → view e''.array q
              ≡ (if str_eq (codes "k") q then some (codes "v") else view one_key q))
set-get_example =
    set-get no_trees no_zsets no_save set_k get_k engine b'k' [] (codes "v") one_key-IsValid refl
      refl refl refl (omega arith, tt) (omega arith, tt) (omega arith, tt) (omega arith) refl
      lacks_k

empty_get-deadlock_example :
    (do
      (e', response, code) ←
          kvs_tcp_protocol no_trees no_zsets no_save (request_bytes empty_get) engine
      kvs_tcp_protocol no_trees no_zsets no_save (request_bytes get_k) e')
    ≡ deadlock
empty_get-deadlock_example =
    empty_get-deadlock no_trees no_zsets no_save empty_get get_k engine refl refl refl (omega arith)
      (omega arith)

kvs_tcp_protocol-IsResponse_example :
    Ensures
      (λ (e', response, code).
        IsResponse no_trees no_zsets no_save set_k.header response × (code ≡ pos (length response)))
      (kvs_tcp_protocol no_trees no_zsets no_save (request_bytes set_k) engine)
kvs_tcp_protocol-IsResponse_example =
    kvs_tcp_protocol-IsResponse no_trees no_zsets no_save set_k engine

-- One byte less than the header counts.
kvs_tcp_protocol-Verdict_example :
    Verdict no_trees no_zsets no_save
      (header 2 2)
      (codes "k")
      engine
      (kvs_tcp_protocol no_trees no_zsets no_save (encode (header 2 2) ++ codes "k") engine)
kvs_tcp_protocol-Verdict_example =
    kvs_tcp_protocol-Verdict no_trees no_zsets no_save (header 2 2) (codes "k") engine
      (header-Fits 2 2 (omega arith) (omega arith))

-- A handler that counts, and sends the size of the frame.
abbrev counter : List ℕ → ℕ → Run (ℕ × List ℕ × ℤ)
counter bytes n = ok (n + 1, length bytes ∷ [], pos 1)

abbrev frame : (payload : List ℕ) → length payload ≤ 1024 → Frame
frame payload le = record {
  header = header 2 (length payload);
  payload = payload;
  fits = header-Fits 2 (length payload) (omega arith) (omega arith);
  accepted = header-fine 2 (length payload) le;
  sized = refl;
}

abbrev two_frames : List Frame
two_frames = frame [] (omega arith) ∷ frame (codes "name") (omega arith) ∷ []

drain-frames_example :
    drain counter 5 (all_bytes two_frames []) 0 ≡ (serve counter two_frames 0 >>= idle counter [])
drain-frames_example =
    drain-frames counter two_frames [] 5 0 (inl (omega arith)) (inl refl, (inr refl, tt))
      (omega arith)

abbrev frame_k : Frame
frame_k = frame (codes "k") (omega arith)

pipelined-refused_example :
    drain counter 5 (all_bytes (frame_k ∷ frame_k ∷ []) []) 0
    ≡ (counter (frame_bytes frame_k) 0 >>= stopped_at counter frame_k frame_k [])
pipelined-refused_example = pipelined-refused counter frame_k frame_k [] 3 0 (omega arith)

parse_tcp_header-encode_example :
    parse_tcp_header (encode (header 2 1) ++ codes "k") ≡ ok (header 2 1, check_header (header 2 1))
parse_tcp_header-encode_example =
    parse_tcp_header-encode (header 2 1) (codes "k") (header-Fits 2 1 (omega arith) (omega arith))
