-- ===== src/Wire.antt =====
-- The TCP framing of kvstore.c and kvstore.h: the 24-byte header of six big-endian words, and the
-- response built around a result. A `char *` to a buffer that the callers give is the list of its
-- bytes; reading past its end is undefined.
pub mod Codec
use kv_study.Prelude.{
  ℕ, ◌+◌, ◌-◌, ◌*◌, ◌/◌, ◌%◌, ◌^◌, ◌≤◌, ◌<◌, ◌≡◌, Bool, true, false, Option, none, some, List, [],
  ◌∷◌, ◌++◌, ltb, ◌==◌, if◌then◌else◌, length, take, drop, ℤ, pos, negsuc, Str, Run, ok, fault,
  ◌>>=◌,
}

abbrev pub tcp_magic : ℕ
tcp_magic = 0x5453564B

abbrev pub tcp_version : ℕ
tcp_version = 1

abbrev pub tcp_header_size : ℕ
tcp_header_size = 24

pub record TcpHeader : Type 0 where
  pub magic : ℕ
  pub version : ℕ
  pub cmd_type : ℕ
  pub data_len : ℕ
  pub seq_id : ℕ
  pub flags : ℕ

-- `htonl` and a copy of the four bytes
unfoldable pub put_u32 : ℕ → List ℕ
put_u32 x = x / 2 ^ 24 % 256 ∷ x / 2 ^ 16 % 256 ∷ x / 2 ^ 8 % 256 ∷ x % 256 ∷ []

-- a copy of the first four bytes and `ntohl`
unfoldable pub get_u32 : List ℕ → Run ℕ
get_u32 (a ∷ b ∷ c ∷ d ∷ rest) = ok (a * 2 ^ 24 + b * 2 ^ 16 + c * 2 ^ 8 + d)
get_u32 _ = fault

-- The six words.
unfoldable pub read_words : List ℕ → Run TcpHeader
unfolding get_u32
read_words buffer = do
  magic ← get_u32 buffer
  version ← get_u32 (drop 4 buffer)
  cmd_type ← get_u32 (drop 8 buffer)
  data_len ← get_u32 (drop 12 buffer)
  seq_id ← get_u32 (drop 16 buffer)
  flags ← get_u32 (drop 20 buffer)
  ok (record {
    magic = magic;
    version = version;
    cmd_type = cmd_type;
    data_len = data_len;
    seq_id = seq_id;
    flags = flags;
  })

-- The checks of the magic number, the version and the length.
unfoldable pub check_header : TcpHeader → ℤ
check_header h =
    if h.magic == tcp_magic
    then if h.version == tcp_version
      then if ltb 1024 h.data_len then negsuc 3 else pos 0
      else negsuc 2
    else negsuc 1

unfoldable pub parse_tcp_header : List ℕ → Run (TcpHeader × ℤ)
unfolding read_words check_header
parse_tcp_header buffer = do h ← read_words buffer; ok (h, check_header h)

-- The six words in front of the data.
unfoldable pub write_header : ℕ → ℕ → ℕ → ℕ → ℕ → ℕ → List ℕ
unfolding put_u32
write_header magic version cmd_type data_len seq_id flags =
    put_u32 magic
    ++ (put_u32 version
        ++ (put_u32 cmd_type ++ (put_u32 data_len ++ (put_u32 seq_id ++ put_u32 flags))))

-- What is written to `response`, and the length returned. `data_len` is the length of the data.
unfoldable pub build_tcp_response : ℕ → ℕ → Str → List ℕ × ℕ
unfolding write_header
build_tcp_response cmd_type seq_id result = (
  write_header tcp_magic tcp_version cmd_type (length result) seq_id 0 ++ result,
  tcp_header_size + length result,
)
