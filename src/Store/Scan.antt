-- ===== src/Store/Scan.antt =====
-- `scan_records` and `scan_records_with_visitor` of crates/reflink-forest-store/src/lib.rs, on
-- fuel: one more than the file's length is enough, since every round passes at least one byte.
pub mod Candidate
pub mod Found
pub mod Rounds
pub mod Step
pub mod Sound
pub mod Total
pub mod Whole
use gitdb.Base.{ℕ, zero, suc, ◌+◌, Bool, Option, none, some, leb, ltb, ◌==◌, length, if◌then◌else◌}
use gitdb.Base.Bytes.{Bytes}
use gitdb.Base.Result.{Result, panic, ok, err, ◌>>=◌, ◌>>◌, reject_if, ok_or}
use gitdb.Core.Hashing.{Digest}
use gitdb.Format.{FormatError, truncated, checked_add, chunk_header_len, record_header_len}
use gitdb.Format.Crc.{Crc32c, crc_new, crc_update}
use gitdb.Format.Record.{ObjectRecord, decode_record, encoded_record_len_from_header, checked_sub}
use gitdb.Format.Payload.{ZstdRead, verify_object_record}
use gitdb.Store.{
  StoreError, format, sealed_footer_mismatch, record_length_field, offset_overflow, from_format,
  from_codec, read_exact_at, max_recovery_record_bytes,
}

-- `end` is `scan_end`.
pub record RecordScan : Type 0 where
  pub records : ℕ
  pub scan_end : ℕ
  pub checksum : Crc32c

-- `if strict { return Err(e) } break`, where `none` is the `break`
abbrev pub stop {ℓ} : {A : Type ℓ} → Bool → StoreError → Result StoreError (Option A)
stop strict e = if strict then err e else ok none

-- The `match` on the length in the record header
unfoldable pub header_verdict :
    (strict : Bool) (remaining : ℕ) → Result FormatError ℕ → Result StoreError (Option ℕ)
header_verdict strict remaining panic = panic
header_verdict strict remaining (err e) = stop strict (format e)
header_verdict strict remaining (ok encoded_len) =
    if leb encoded_len max_recovery_record_bytes
    then if ltb remaining encoded_len then stop strict (format truncated) else ok (some encoded_len)
    else stop strict offset_overflow

-- The `match` on the decoded record
unfoldable pub record_verdict :
    (strict : Bool) (encoded : Bytes)
    → Result FormatError (ObjectRecord × ℕ)
    → Result StoreError (Option (Bytes × ObjectRecord))
record_verdict strict encoded panic = panic
record_verdict strict encoded (err e) = stop strict (format e)
record_verdict strict encoded (ok (r, consumed)) =
    if consumed == length encoded
    then ok (some (encoded, r))
    else stop strict (sealed_footer_mismatch record_length_field)

unfoldable pub read_body :
    (strict : Bool) (file : Bytes) (offset : ℕ)
    → Option ℕ
    → Result StoreError (Option (Bytes × ObjectRecord))
unfolding record_verdict
read_body strict file offset none = ok none
read_body strict file offset (some encoded_len) = do
  encoded ← read_exact_at file offset encoded_len
  record_verdict strict encoded (decode_record encoded)

unfoldable pub read_header_and_body :
    (strict : Bool) (file : Bytes) (offset remaining : ℕ)
    → Result StoreError (Option (Bytes × ObjectRecord))
unfolding header_verdict read_body
read_header_and_body strict file offset remaining = do
  record_header ← read_exact_at file offset record_header_len
  encoded_len ← header_verdict strict remaining (encoded_record_len_from_header record_header)
  read_body strict file offset encoded_len

-- A round of the loop up to the decoded record. A length of at most 64 MiB fits `u64`.
unfoldable pub read_candidate :
    (strict : Bool) (file : Bytes) (end_at offset : ℕ)
    → Result StoreError (Option (Bytes × ObjectRecord))
unfolding read_header_and_body checked_sub
read_candidate strict file end_at offset = do
  remaining ← ok_or (checked_sub end_at offset) offset_overflow
  if ltb remaining record_header_len
      then stop strict (format truncated)
      else read_header_and_body strict file offset remaining

-- `visitor`, whose captured state is `A`
abbrev pub Visitor : Type 0 → Type 0
Visitor A = A → (offset : ℕ) → ObjectRecord → (encoded_len : ℕ) → Result StoreError A

abbrev pub scan_start : RecordScan
scan_start = record { records = 0; scan_end = chunk_header_len; checksum = crc_new }

module _ (sha256_digest : Digest) (read_frame : Bytes → ZstdRead) {A : Type 0} where
  unfoldable pub advance :
      Visitor A
      → (strict : Bool) (scan : RecordScan) → A
      → Option (Bytes × ObjectRecord)
      → Result StoreError (Option (RecordScan × A))
  advance visitor strict scan seen none = ok none
  advance visitor strict scan seen (some (encoded, r)) = do
    if strict then from_codec (verify_object_record sha256_digest read_frame r) else ok tt
    seen' ← visitor seen scan.scan_end r (length encoded)
    offset ← ok_or (checked_add scan.scan_end (length encoded)) offset_overflow
    records ← ok_or (checked_add scan.records 1) offset_overflow
    ok (
        some (
          record {
            records = records;
            scan_end = offset;
            checksum = crc_update scan.checksum encoded;
          },
          seen',
        ))

  unfoldable pub scan_loop :
      Visitor A
      → (strict : Bool) (file : Bytes) (end_at fuel : ℕ) (scan : RecordScan) → A
      → Result StoreError (RecordScan × A)
  scan_loop visitor strict file end_at zero scan seen = panic
  scan_loop visitor strict file end_at (suc fuel) scan seen =
      if ltb scan.scan_end end_at
      then (read_candidate strict file end_at scan.scan_end
          >>= advance visitor strict scan seen
          >>= λ found. elim found [
            | none ↦ ok (scan, seen)
            | some (scan', seen') ↦ scan_loop visitor strict file end_at fuel scan' seen'
          ])
      else ok (scan, seen)

  unfoldable pub scan_records_with_visitor :
      Visitor A → Bytes → (end_at : ℕ) (strict : Bool) → A → Result StoreError (RecordScan × A)
  scan_records_with_visitor visitor file end_at strict seen = do
    reject_if (ltb end_at chunk_header_len) (format truncated)
    scan_loop visitor strict file end_at (suc end_at) scan_start seen

module _ (sha256_digest : Digest) (read_frame : Bytes → ZstdRead) where
  -- The visitor that does nothing
  unfoldable pub scan_records : Bytes → (end_at : ℕ) (strict : Bool) → Result StoreError RecordScan
  scan_records file end_at strict =
      scan_records_with_visitor sha256_digest read_frame (λ seen _ _ _. ok seen) file end_at strict
        tt
      >>= λ done. ok done.0
