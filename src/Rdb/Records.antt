-- ===== src/Rdb/Records.antt =====
-- The records and the header of an RDB file are read back as they were written.
use kv_study.Prelude.{
  ℕ, ◌+◌, ◌*◌, ◌/◌, ◌%◌, ◌^◌, ◌≤◌, ◌<◌, ◌≡◌, refl, ◌∙◌, ap, true, false, some, List, ◌∷◌, ◌++◌,
  ◌==◌, ltb, length, drop, length-append, take-append, drop-append, take-length_le, Str, arith,
}
use mathlib.Core.List.{append_assoc}
use kv_study.Rdb.Format.{
  RdbHeader, put_u16, put_le64, get_le64, header_bytes, read_header, encode_record,
}
use kv_study.Rdb.Load.{c_string, get_u16, read_value, read_record}

-- A header whose words fit their fields.
pub record HeaderFits (h : RdbHeader) : Type 0 where
  pub magic : h.magic < 2 ^ 32
  pub version : h.version < 2 ^ 32
  pub flags : h.flags < 2 ^ 32
  pub data_size : h.data_size < 2 ^ 32
  pub record_count : h.record_count < 2 ^ 32
  pub save_time : h.save_time < 2 ^ 64

-- The header that is written is the header that is read, whatever bytes follow.
pub read_header-header_bytes :
    (h : RdbHeader) (rest : List ℕ) → HeaderFits h → read_header (header_bytes h ++ rest) ≡ h
unfolding read_header header_bytes get_le64 put_le64
read_header-header_bytes h rest fits = λ i. record {
  magic = word h.magic fits.magic i;
  version = word h.version fits.version i;
  flags = word h.flags fits.flags i;
  data_size = word h.data_size fits.data_size i;
  record_count = word h.record_count fits.record_count i;
  save_time = long h.save_time fits.save_time i;
}
  where
    word :
        (x : ℕ)
        → x < 2 ^ 32
        → x % 256 + x / 2 ^ 8 % 256 * 2 ^ 8 + x / 2 ^ 16 % 256 * 2 ^ 16 + x / 2 ^ 24 % 256 * 2 ^ 24
          ≡ x
    word x lt = omega arith

    long : (x : ℕ) → x < 2 ^ 64 → get_le64 (put_le64 x) ≡ x
    long x lt =
        let low = word (x % 2 ^ 32) (omega arith) in
        let high = word (x / 2 ^ 32) (omega arith) in omega (arith, low, high)

-- A record that the loader takes back: a key of 1 to 1024 bytes, a value that a 16-bit length counts,
-- and no NUL in either.
pub record Loads (key value : Str) : Type 0 where
  pub key_clean : c_string key ≡ key
  pub value_clean : c_string value ≡ value
  pub key_low : 1 ≤ length key
  pub key_high : length key ≤ 1024
  pub value_high : length value < 2 ^ 16

get_u16-put_u16 : (x : ℕ) (rest : List ℕ) → x < 2 ^ 16 → get_u16 (put_u16 x ++ rest) ≡ some x
unfolding get_u16 put_u16
get_u16-put_u16 x rest lt = ap some (omega arith)

-- The bytes of a record, in front of others.
encode_record_lem :
    (kind : ℕ) (key value : Str) (rest : List ℕ)
    → kind < 256
    → Loads key value
    → encode_record kind key value ++ rest
      ≡ kind ∷ (put_u16 (length key) ++ (key ++ (put_u16 (length value) ++ (value ++ rest))))
unfolding encode_record put_u16
encode_record_lem kind key value rest byte l =
    let one : kind % 256 ≡ kind = omega arith in
    let k : length key % 2 ^ 16 ≡ length key = let h = l.key_high in omega arith in
    let v : length value % 2 ^ 16 ≡ length value = let h = l.value_high in omega arith in
    rw (
      one,
      k,
      v,
      take-length_le (length key) key (omega arith),
      take-length_le (length value) value (omega arith),
      append_assoc key (put_u16 (length value) ++ value) rest,
    )

word16 : (x : ℕ) → x < 2 ^ 16 → x % 256 + x / 2 ^ 8 % 256 * 2 ^ 8 ≡ x
word16 x lt = omega arith

same_length : (n : ℕ) → (n == n) ≡ true
same_length n = ground arith

read_value_lem :
    (kind : ℕ) (key value : Str) (at : ℕ) (rest : List ℕ)
    → c_string value ≡ value
    → length value < 2 ^ 16
    → read_value kind key at (put_u16 (length value) ++ (value ++ rest))
      ≡ some (record { kind = kind; key = key; value = value; consumed = at + 2 + length value })
unfolding read_value put_u16
read_value_lem kind key value at rest clean high = rw (
  word16 (length value) high,
  take-append value rest (length value) refl,
  same_length (length value),
  clean,
)

-- A record that the loader can take is read back with its type, key and value, and with its size.
pub read_record-encode_record :
    (kind : ℕ) (key value : Str) (rest : List ℕ)
    → kind < 256
    → Loads key value
    → read_record (encode_record kind key value ++ rest)
      ≡ some (record {
        kind = kind;
        key = key;
        value = value;
        consumed = 5 + length key + length value;
      })
unfolding read_record put_u16
read_record-encode_record kind key value rest byte l =
    let low = l.key_low in
    let high = l.key_high in
    let nonzero : (length key == 0) ≡ false = ground arith in
    let fits : ltb 1024 (length key) ≡ false = ground arith in
    let behind = put_u16 (length value) ++ (value ++ rest) in
    let front : drop (2 + length key) (put_u16 (length key) ++ (key ++ behind)) ≡ behind =
      drop-append (put_u16 (length key) ++ key) behind (2 + length key) (omega arith) in
    let size : 3 + length key + 2 + length value ≡ 5 + length key + length value = omega arith in
    ap read_record (encode_record_lem kind key value rest byte l)
    ∙ rw
        (
          word16 (length key) (omega arith),
          nonzero,
          fits,
          take-append key behind (length key) refl,
          same_length (length key),
          front,
          read_value_lem kind (c_string key) value (3 + length key) rest l.value_clean l.value_high,
          l.key_clean,
        )
        λ i. some (record { kind = kind; key = key; value = value; consumed = size i })

pub length-encode_record :
    (kind : ℕ) (key value : Str)
    → kind < 256
    → Loads key value
    → length (encode_record kind key value) ≡ 5 + length key + length value
unfolding encode_record put_u16
length-encode_record kind key value byte l =
    let k : length key % 2 ^ 16 ≡ length key = let h = l.key_high in omega arith in
    let v : length value % 2 ^ 16 ≡ length value = let h = l.value_high in omega arith in
    let e = length-append key (put_u16 (length value) ++ value) in
    rw
      (
        k,
        v,
        take-length_le (length key) key (omega arith),
        take-length_le (length value) value (omega arith),
      )
      (omega (arith, e))
