-- ===== src/Rdb/Format.antt =====
-- The byte layout of an RDB file in kv_RDB.c and kvstore.h: a packed header of 32 bytes, the records,
-- and a packed footer of 20 bytes. Words are little-endian, as the program's target stores them.
use kv_study.Prelude.{ℕ, ◌+◌, ◌*◌, ◌/◌, ◌%◌, ◌^◌, List, [], ◌∷◌, ◌++◌, length, take, drop, Str}

abbrev pub rdb_magic : ℕ
rdb_magic = 0x5244424B

abbrev pub rdb_version : ℕ
rdb_version = 1

-- `sizeof (rdb_header_t)` and `RDB_FOOTER_SIZE`
abbrev pub header_size : ℕ
header_size = 32

abbrev pub footer_size : ℕ
footer_size = 20

unfoldable pub put_u16 : ℕ → List ℕ
put_u16 x = x % 256 ∷ x / 2 ^ 8 % 256 ∷ []

unfoldable pub put_le32 : ℕ → List ℕ
put_le32 x = x % 256 ∷ x / 2 ^ 8 % 256 ∷ x / 2 ^ 16 % 256 ∷ x / 2 ^ 24 % 256 ∷ []

unfoldable pub put_le64 : ℕ → List ℕ
unfolding put_le32
put_le64 x = put_le32 (x % 2 ^ 32) ++ put_le32 (x / 2 ^ 32)

-- The four bytes at a place, the missing ones read as 0.
unfoldable pub get_le32 : List ℕ → ℕ
get_le32 (a ∷ b ∷ c ∷ d ∷ rest) = a + b * 2 ^ 8 + c * 2 ^ 16 + d * 2 ^ 24
get_le32 _ = 0

unfoldable pub get_le64 : List ℕ → ℕ
unfolding get_le32
get_le64 bytes = get_le32 bytes + get_le32 (drop 4 bytes) * 2 ^ 32

pub record RdbHeader : Type 0 where
  pub magic : ℕ
  pub version : ℕ
  pub flags : ℕ
  pub data_size : ℕ
  pub record_count : ℕ
  pub save_time : ℕ

-- `alignment_padding` is always 0.
unfoldable pub header_bytes : RdbHeader → List ℕ
unfolding put_le32 put_le64
header_bytes h =
    put_le32 h.magic
    ++ (put_le32 h.version
        ++ (put_le32 h.flags
            ++ (put_le32 h.data_size
                ++ (put_le32 h.record_count ++ (put_le64 h.save_time ++ put_le32 0)))))

unfoldable pub read_header : List ℕ → RdbHeader
unfolding get_le32 get_le64
read_header bytes = record {
  magic = get_le32 bytes;
  version = get_le32 (drop 4 bytes);
  flags = get_le32 (drop 8 bytes);
  data_size = get_le32 (drop 12 bytes);
  record_count = get_le32 (drop 16 bytes);
  save_time = get_le64 (drop 20 bytes);
}

-- "EOF" with its NUL
abbrev pub eof_marker : List ℕ
eof_marker = b'E' ∷ b'O' ∷ b'F' ∷ 0 ∷ []

-- marker, checksum, footer size and padding
unfoldable pub footer_bytes : ℕ → List ℕ
unfolding put_le32 put_le64
footer_bytes crc = eof_marker ++ (put_le64 crc ++ (put_le32 footer_size ++ put_le32 0))

-- `[type][key length][key][value length][value]`; the lengths are `uint16_t`, so of a longer string
-- the first `strlen % 65536` bytes are written.
unfoldable pub encode_record : ℕ → Str → Str → List ℕ
unfolding put_u16
encode_record kind key value =
    let key_len = length key % 2 ^ 16 in
    let val_len = length value % 2 ^ 16 in
    kind % 256 ∷ (put_u16 key_len ++ (take key_len key ++ (put_u16 val_len ++ take val_len value)))
