-- ===== src/Rdb/Backup.antt =====
-- `rdb_restore_from_backup` of kv_RDB.c: a verified backup is copied over the configured file, in
-- blocks of 4096 bytes.
use kv_study.Prelude.{
  ℕ, zero, suc, ◌+◌, ◌<◌, ◌≡◌, refl, sym, ap, ◌∙◌, Bool, true, false, not, ◌||◌, Bool-cases, inl,
  inr, Option, none, some, List, [], ◌∷◌, ◌++◌, if◌then◌else◌, length, take, drop, length-append,
  length-drop, drop-append, take-length_le, ℤ, pos, negsuc, is_neg, arith,
}
use mathlib.Core.List.{append_assoc}
use kv_study.Rdb.Config.{RdbConfig}
use kv_study.Rdb.Stream.{Stream, open_read, open_write, fread, fwrite}
use kv_study.Rdb.Load.{rdb_verify_file_integrity}
use kv_study.Rdb.Files.{append_nil, drop_beyond}

-- `while ((bytes_read = fread (buffer, 1, sizeof (buffer), src)) > 0) fwrite (...)`. Every round takes
-- a byte at least, so the length of the source and one more is fuel enough.
unfoldable pub copy_blocks : ℕ → Stream → Stream → Stream
copy_blocks zero source target = target
copy_blocks (suc fuel) source target =
    let (items, source') = fread 4096 source in
    let rest = copy_blocks fuel source' (fwrite items target) in
    elim items [ [] ↦ target | b ∷ bs ↦ rest ]

-- `writable` says whether the target can be opened. The result is what the configured file holds
-- afterwards, from what it held before, and the code.
unfoldable pub rdb_restore_from_backup :
    RdbConfig → Bool → Bool → Option (List ℕ) → Option (List ℕ) → Option (List ℕ) × ℤ
unfolding rdb_verify_file_integrity copy_blocks
rdb_restore_from_backup c granted writable none before = (before, negsuc 0)
rdb_restore_from_backup c granted writable (some bytes) before =
    let target = copy_blocks (suc (length bytes)) (open_read bytes) open_write in
    if is_neg (rdb_verify_file_integrity c granted (some bytes))
    then (before, negsuc 0)
    else if not writable
    then (before, negsuc 0)
    else (some target.bytes, pos 0)

take-drop : (n : ℕ) (xs : List ℕ) → take n xs ++ drop n xs ≡ xs
take-drop zero xs = refl
take-drop (suc n) [] = refl
take-drop (suc n) (x ∷ xs) = ap (λ l. x ∷ l) (take-drop n xs)

abbrev reading : List ℕ → ℕ → Stream
reading bytes place = record { bytes = bytes; place = place; readable = true }

abbrev writing : List ℕ → Stream
writing bytes = record { bytes = bytes; place = length bytes; readable = false }

fwrite_end : (done items : List ℕ) → fwrite items (writing done) ≡ writing (done ++ items)
unfolding fwrite
fwrite_end done items =
    let size = length-append done items in
    rw (
      take-length_le (length done) done (omega arith),
      drop_beyond (length done + length items) done (omega arith),
      append_nil items,
      ← size,
    )

fread_block :
    (done left : List ℕ)
    → fread 4096 (reading (done ++ left) (length done))
      ≡ (take 4096 left, reading (done ++ left) (length done + length (take 4096 left)))
unfolding fread
fread_block done left = rw (drop-append done left (length done) refl)

-- What is copied before and in a round is what the source begins with.
regroup : (done left : List ℕ) → (done ++ take 4096 left) ++ drop 4096 left ≡ done ++ left
regroup done left =
    append_assoc done (take 4096 left) (drop 4096 left) ∙ ap (λ l. done ++ l) (take-drop 4096 left)

-- One round, from what was read.
abbrev round : ℕ → Stream → List ℕ × Stream → Stream
round fuel target (items, source) =
    let rest = copy_blocks fuel source (fwrite items target) in
    elim items [ [] ↦ target | b ∷ bs ↦ rest ]

copy_blocks_lem :
    (fuel : ℕ) (done left : List ℕ)
    → length left < fuel
    → copy_blocks fuel (reading (done ++ left) (length done)) (writing done)
      ≡ writing (done ++ left)
unfolding copy_blocks
copy_blocks_lem zero done left lt = absurd (omega arith)
copy_blocks_lem (suc fuel) done [] lt =
    ap (round fuel (writing done)) (fread_block done []) ∙ ap writing (sym (append_nil done))
copy_blocks_lem (suc fuel) done (b ∷ left) lt =
    let items = take 4096 (b ∷ left) in
    let behind = drop 4096 (b ∷ left) in
    let next =
      copy_blocks_lem fuel (done ++ items) behind (omega (arith, length-drop 4096 (b ∷ left))) in
    let place = length-append done items in
    ap (round fuel (writing done)) (fread_block done (b ∷ left))
    ∙ ap (copy_blocks fuel (reading (done ++ b ∷ left) (length done + length items)))
        (fwrite_end done items)
    ∙ rw (← place) (rw (← regroup done (b ∷ left)) next)

-- A backup that passes the verification is restored byte for byte, where the configured file can be
-- opened; otherwise that file is left as it was, and -1 is returned.
pub rdb_restore_from_backup_lem :
    (c : RdbConfig) (granted writable : Bool) (bytes : List ℕ) (before : Option (List ℕ))
    → rdb_restore_from_backup c granted writable (some bytes) before ≡ (
        if is_neg (rdb_verify_file_integrity c granted (some bytes)) || not writable
        then (before, negsuc 0)
        else (some bytes, pos 0))
unfolding rdb_restore_from_backup
rdb_restore_from_backup_lem c granted writable bytes before =
    let copied = ap Stream.bytes (copy_blocks_lem (suc (length bytes)) [] bytes (omega arith)) in
    elim (Bool-cases (is_neg (rdb_verify_file_integrity c granted (some bytes)))) [
      | inl refused ↦ rw refused
      | inr passed ↦
          rw (passed, copied)
            (elim writable
              as (λ w.
                (if not w then (before, negsuc 0) else (some bytes, pos 0))
                ≡ (if not w then (before, negsuc 0) else (some bytes, pos 0))) [
                  | true ↦ refl
                  | false ↦ refl
                ])
    ]
