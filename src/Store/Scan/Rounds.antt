-- ===== src/Store/Scan/Rounds.antt =====
-- The record scan over the bytes of valid records.
use gitdb.Base.{
  ℕ, suc, ◌+◌, ◌^◌, ◌≤◌, ◌<◌, ◌≡◌, refl, sym, ap, ap₂, ◌∙◌, arith, Bool, true, false, Option, some,
  List, [], ◌∷◌, ◌++◌, append-nil, append_assoc, length, length-append, All, lt→ltb, if◌then◌else◌,
}
use gitdb.Base.Bytes.{Bytes}
use gitdb.Base.Result.{Result, ok}
use gitdb.Core.Hashing.{Digest}
use gitdb.Format.{checked_add}
use gitdb.Format.Crc.{crc_update, update-append}
use gitdb.Format.Record.{ObjectRecord}
use gitdb.Format.Payload.{ZstdRead, verify_object_record}
use gitdb.Store.{StoreError, from_codec}
use gitdb.Store.Scan.{RecordScan, Visitor, advance, scan_loop, read_candidate}
use gitdb.Store.Scan.Candidate.{
  IsScannable, record_bytes, length-record_bytes, padded_of-ge, read_candidate-found,
}

-- The bytes of records one behind the other.
unfoldable pub records_bytes : List ObjectRecord → Bytes
records_bytes [] = []
records_bytes (r ∷ rs) = record_bytes r ++ records_bytes rs

-- The scan after it has passed `rs`.
unfoldable pub passed : RecordScan → List ObjectRecord → RecordScan
passed scan rs = record {
  records = scan.records + length rs;
  scan_end = scan.scan_end + length (records_bytes rs);
  checksum = crc_update scan.checksum (records_bytes rs);
}

crc_update-nil : (scan : RecordScan) → crc_update scan.checksum [] ≡ scan.checksum
unfolding crc_update
crc_update-nil scan = refl

pub passed-nil : (scan : RecordScan) → scan ≡ passed scan []
unfolding passed records_bytes
passed-nil scan = ground (arith, crc_update-nil scan)

pub passed_next :
    (scan : RecordScan) (r : ObjectRecord) (rs : List ObjectRecord)
    → passed (passed scan (r ∷ [])) rs ≡ passed scan (r ∷ rs)
unfolding passed records_bytes
passed_next scan r rs = ground (
  arith,
  append-nil (record_bytes r),
  length-append (record_bytes r) (records_bytes rs),
  update-append scan.checksum (record_bytes r) (records_bytes rs),
)

pub passed_one_end :
    (scan : RecordScan) (r : ObjectRecord)
    → (passed scan (r ∷ [])).scan_end ≡ scan.scan_end + length (record_bytes r)
unfolding passed records_bytes
passed_one_end scan r = ap (λ t. scan.scan_end + length t) (append-nil (record_bytes r))

pub passed_one_count :
    (scan : RecordScan) (r : ObjectRecord) → (passed scan (r ∷ [])).records ≡ scan.records + 1
unfolding passed
passed_one_count scan r = refl

pub split_first :
    (r : ObjectRecord) (rs : List ObjectRecord) (tail : Bytes)
    → records_bytes (r ∷ rs) ++ tail ≡ record_bytes r ++ (records_bytes rs ++ tail)
unfolding records_bytes
split_first r rs tail = append_assoc (record_bytes r) (records_bytes rs) tail

-- A visitor that takes every record, and what it has seen after `rs`.
unfoldable pub visited :
    {A : Type 0} (visit : A → (offset : ℕ) → ObjectRecord → (encoded_len : ℕ) → A)
    → A
    → (offset : ℕ) → List ObjectRecord
    → A
visited visit seen offset [] = seen
visited visit seen offset (r ∷ rs) =
    visited visit (visit seen offset r (length (record_bytes r))) (offset + length (record_bytes r))
      rs

module _ (sha256_digest : Digest) (read_frame : Bytes → ZstdRead) where
  -- A strict scan takes the records whose payload verifies.
  abbrev pub Acceptable : Bool → ObjectRecord → Type 0
  Acceptable strict r =
      IsScannable r × (strict ≡ true → verify_object_record sha256_digest read_frame r ≡ ok tt)

  strict-verified :
      (strict : Bool) (r : ObjectRecord)
      → (strict ≡ true → verify_object_record sha256_digest read_frame r ≡ ok tt)
      → (if strict then from_codec (verify_object_record sha256_digest read_frame r) else ok tt)
        ≡ ok tt
  strict-verified true r v = rw (v refl)
  strict-verified false r v = refl

module _ (sha256_digest : Digest) (read_frame : Bytes → ZstdRead) {A : Type 0}
    (visit : A → (offset : ℕ) → ObjectRecord → (encoded_len : ℕ) → A) (strict : Bool) where
  abbrev visitor : Visitor A
  visitor seen offset r encoded_len = ok (visit seen offset r encoded_len)

  pub advance-passed :
      (scan : RecordScan) (seen : A) (r : ObjectRecord)
      → Acceptable sha256_digest read_frame strict r
      → scan.scan_end + length (record_bytes r) < 2 ^ 64
      → scan.records + 1 < 2 ^ 64
      → advance sha256_digest read_frame visitor strict scan seen (some (record_bytes r, r))
        ≡ ok (some (passed scan (r ∷ []), visit seen scan.scan_end r (length (record_bytes r))))
  unfolding advance checked_add passed records_bytes
  advance-passed scan seen r (v, verified) small few = rw (
    strict-verified sha256_digest read_frame strict r verified,
    lt→ltb (scan.scan_end + length (record_bytes r)) (2 ^ 64) small,
    lt→ltb (scan.records + 1) (2 ^ 64) few,
    append-nil (record_bytes r),
  )

  abbrev loop :
      (file : Bytes) (end_at fuel : ℕ) (scan : RecordScan) → A → Result StoreError (RecordScan × A)
  loop = scan_loop sha256_digest read_frame visitor strict

  scan_loop-round :
      (file : Bytes) (end_at fuel : ℕ) (scan scan' : RecordScan) (seen seen' : A)
      (found : Option (Bytes × ObjectRecord))
      → scan.scan_end < end_at
      → read_candidate strict file end_at scan.scan_end ≡ ok found
      → advance sha256_digest read_frame visitor strict scan seen found ≡ ok (some (scan', seen'))
      → loop file end_at (suc fuel) scan seen ≡ loop file end_at fuel scan' seen'
  unfolding scan_loop
  scan_loop-round file end_at fuel scan scan' seen seen' found before read advanced =
      rw (lt→ltb scan.scan_end end_at before, read, advanced)

  -- Where valid records stand at the scan's offset, the scan passes them and goes on behind them.
  pub scan_loop-passed :
      (file pre : Bytes) (rs : List ObjectRecord) (tail : Bytes) (end_at fuel : ℕ)
      (scan : RecordScan) (seen : A)
      → file ≡ pre ++ (records_bytes rs ++ tail)
      → All (Acceptable sha256_digest read_frame strict) rs
      → length pre ≡ scan.scan_end
      → scan.scan_end + length (records_bytes rs) ≤ end_at
      → end_at < 2 ^ 64
      → scan.records + length rs < 2 ^ 64
      → loop file end_at (length rs + fuel) scan seen
        ≡ loop file end_at fuel (passed scan rs) (visited visit seen scan.scan_end rs)
  unfolding visited
  scan_loop-passed file pre [] tail end_at fuel scan seen cut a h inside small few =
      let none_left : 0 + fuel ≡ fuel = omega arith in
      rw none_left (ap (λ s. loop file end_at fuel s seen) (passed-nil scan))
  scan_loop-passed file pre (r ∷ rs) tail end_at fuel scan seen cut a h inside small few =
      step
      ∙ scan_loop-passed file (pre ++ record_bytes r) rs tail end_at fuel (passed scan (r ∷ []))
          (visit seen scan.scan_end r (length (record_bytes r)))
          (cut
            ∙ ap (λ t. pre ++ t) (split_first r rs tail)
            ∙ sym (append_assoc pre (record_bytes r) (records_bytes rs ++ tail)))
          a.1 (length-append pre (record_bytes r) ∙ omega (arith, h, passed_one_end scan r))
          (omega (arith, inside, sizes, passed_one_end scan r)) small
          (omega (arith, few, passed_one_count scan r))
      ∙ ap₂ (loop file end_at fuel) (passed_next scan r rs) (
          ap (λ o. visited visit (visit seen scan.scan_end r (length (record_bytes r))) o rs)
            (passed_one_end scan r))
    where
      sizes : length (records_bytes (r ∷ rs)) ≡ length (record_bytes r) + length (records_bytes rs)
      sizes = unfold records_bytes in length-append (record_bytes r) (records_bytes rs)

      step :
          loop file end_at (suc (length rs) + fuel) scan seen
          ≡ loop file end_at
              (length rs + fuel)
              (passed scan (r ∷ []))
              (visit seen scan.scan_end r (length (record_bytes r)))
      step =
          let more : suc (length rs) + fuel ≡ suc (length rs + fuel) = omega arith in
          ap (λ n. loop file end_at n scan seen) more
          ∙ scan_loop-round file end_at (length rs + fuel) scan (passed scan (r ∷ [])) seen
              (visit seen scan.scan_end r (length (record_bytes r))) (some (record_bytes r, r))
              (omega (arith, inside, sizes, length-record_bytes r a.0.0.valid, padded_of-ge r))
              (ap (λ t. read_candidate strict t end_at scan.scan_end)
                  (cut ∙ ap (λ t. pre ++ t) (split_first r rs tail))
                ∙ read_candidate-found r a.0.0 strict pre (records_bytes rs ++ tail) end_at
                    scan.scan_end h
                    (omega (arith, inside, sizes, length-record_bytes r a.0.0.valid)))
              (advance-passed scan seen r a.0 (omega (arith, inside, sizes, small))
                (omega (arith, few)))
