-- ===== src/Rdb/Stream.antt =====
-- The part of <stdio.h> that kv_RDB.c uses: an open file with its position and its mode. A stream
-- opened with "wb" cannot be read: `fread` then gives nothing.
use kv_study.Prelude.{ℕ, ◌+◌, Bool, true, false, List, [], ◌++◌, if◌then◌else◌, length, take, drop}

pub record Stream : Type 0 where
  pub bytes : List ℕ
  pub place : ℕ
  pub readable : Bool

-- `fopen (name, "wb")` empties the file.
abbrev pub open_write : Stream
open_write = record { bytes = []; place = 0; readable = false }

-- `fopen (name, "rb")`
abbrev pub open_read : List ℕ → Stream
open_read bytes = record { bytes = bytes; place = 0; readable = true }

-- `fwrite` at the position, over what stands there.
unfoldable pub fwrite : List ℕ → Stream → Stream
fwrite items s = record s {
  bytes = take s.place s.bytes ++ (items ++ drop (s.place + length items) s.bytes);
  place = s.place + length items;
}

-- `fseek (fp, offset, SEEK_SET)`
abbrev pub fseek : ℕ → Stream → Stream
fseek offset s = record s { place = offset }

-- `fread (buffer, 1, n, fp)`: the bytes read, fewer than `n` at the end of the file.
unfoldable pub fread : ℕ → Stream → List ℕ × Stream
fread n s =
    if s.readable
    then (let items = take n (drop s.place s.bytes) in
        (items, record s { place = s.place + length items }))
    else ([], s)
