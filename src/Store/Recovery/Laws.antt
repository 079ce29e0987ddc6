-- ===== src/Store/Recovery/Laws.antt =====
-- Recovery of an open chunk with records and further bytes.
use gitdb.Format.Record.RoundTrip.{IsRecord}
use gitdb.Store.{max_recovery_record_bytes}
use gitdb.Base.{
  none, ℕ, ◌+◌, ◌-◌, ◌^◌, ◌<◌, ◌≡◌, refl, sym, ap, ap₂, ◌∙◌, arith, inl, inr, false, List, [], ◌∷◌,
  ◌++◌, append-nil, append_assoc, length, length-append, take, take-append, All, ◌==◌, Bool-cases,
  if◌then◌else◌,
}
use gitdb.Base.Bytes.{Bytes}
use gitdb.Base.Cuts.{take-all}
use gitdb.Base.Result.{ok}
use gitdb.Core.Hashing.{Digest}
use gitdb.Format.Chunk.{ChunkHeader, encode_chunk_header}
use gitdb.Format.Chunk.RoundTrip.{IsHeader, length-encode}
use gitdb.Format.Crc.{crc_new, crc_update}
use gitdb.Format.Record.{ObjectRecord}
use gitdb.Format.Payload.{ZstdRead}
use gitdb.Store.Headers.{read_chunk_header_lem}
use gitdb.Store.Recovery.{Recovery, recovered, scan_open, recover_file}
use gitdb.Store.Scan.{read_candidate, scan_records, scan_start}
use gitdb.Store.Scan.Candidate.{
  IsScannable, record_bytes, length-record_bytes, read_candidate-cut, read_candidate-oversized,
}
use gitdb.Store.Scan.Rounds.{records_bytes, passed, Acceptable}
use gitdb.Store.Scan.Whole.{scan_whole, scan_stopped}

-- The bytes of an open chunk with the records `rs`.
abbrev pub chunk_bytes : ChunkHeader → List ObjectRecord → Bytes
chunk_bytes h rs = encode_chunk_header h ++ records_bytes rs

-- What recovery reports of such a chunk with `lost` bytes behind it.
abbrev pub recovery_of : ChunkHeader → List ObjectRecord → (lost : ℕ) → Recovery
recovery_of h rs lost = record {
  header = h;
  valid_records = length rs;
  retained_bytes = 64 + length (records_bytes rs);
  truncated_bytes = lost;
  records_crc32c = crc_update crc_new (records_bytes rs);
}

module _ (sha256_digest : Digest) (read_frame : Bytes → ZstdRead) where
  lenient :
      (rs : List ObjectRecord)
      → All IsScannable rs
      → All (Acceptable sha256_digest read_frame false) rs
  lenient [] a = tt
  lenient (r ∷ rs) a = ((a.0, λ h. absurd (cc)), lenient rs a.1)

  -- The recovery's scan passes the records in front of bytes that hold no record within the bound.
  scan_records-stopped :
      (pre : Bytes) (rs : List ObjectRecord) (tail : Bytes) (end_at : ℕ)
      → All IsScannable rs
      → length pre ≡ 64
      → 64 + length (records_bytes rs) < end_at
      → end_at < 2 ^ 64
      → read_candidate false
          ((pre ++ records_bytes rs) ++ tail)
          end_at
          (64 + length (records_bytes rs))
        ≡ ok none
      → scan_records sha256_digest read_frame (pre ++ (records_bytes rs ++ tail)) end_at false
        ≡ ok (passed scan_start rs)
  unfolding scan_records
  scan_records-stopped pre rs tail end_at a h inside small stops = rw (
      scan_stopped sha256_digest read_frame (λ seen _ _ _. seen) false pre rs tail end_at tt
        (lenient rs a) h inside small refl stops)

  scan_records-whole :
      (pre : Bytes) (rs : List ObjectRecord) (end_at : ℕ)
      → All IsScannable rs
      → length pre ≡ 64
      → 64 + length (records_bytes rs) ≡ end_at
      → end_at < 2 ^ 64
      → scan_records sha256_digest read_frame (pre ++ (records_bytes rs ++ [])) end_at false
        ≡ ok (passed scan_start rs)
  unfolding scan_records
  scan_records-whole pre rs end_at a h ends small = rw (
      scan_whole sha256_digest read_frame (λ seen _ _ _. seen) false pre rs [] end_at tt
        (lenient rs a) h ends small)

  scan_records-crash :
      (pre : Bytes) (rs : List ObjectRecord) (r : ObjectRecord) (cut behind : Bytes) (end_at : ℕ)
      → All IsScannable rs
      → IsRecord r
      → length pre ≡ 64
      → record_bytes r ≡ cut ++ behind
      → 0 < length behind
      → 64 + length (records_bytes rs) + length cut ≡ end_at
      → end_at < 2 ^ 64
      → scan_records sha256_digest read_frame (pre ++ (records_bytes rs ++ cut)) end_at false
        ≡ ok (passed scan_start rs)
  scan_records-crash pre rs r [] behind end_at a w h split more ends small =
      scan_records-whole pre rs end_at a h (omega (arith, ends)) small
  scan_records-crash pre rs r (c ∷ cut) behind end_at a w h split more ends small =
      scan_records-stopped pre rs (c ∷ cut) end_at a h (omega (arith, ends)) small (
        read_candidate-cut r w (pre ++ records_bytes rs) end_at (64 + length (records_bytes rs))
          (omega (arith, length-append pre (records_bytes rs), h)) (c ∷ cut) behind split more
          (omega (arith, ends)))

  set_len_lem :
      (file : Bytes) (n : ℕ) (front : Bytes)
      → take n file ≡ front
      → (if n == length file then file else take n file) ≡ front
  set_len_lem file n front cut = elim (Bool-cases (n == length file)) [
    | inl same ↦ rw same (sym (take-all file n (ground (arith, same))) ∙ cut)
    | inr other ↦ rw other cut
  ]

  -- Cutting a file at the end of its records.
  pub recovered-kept :
      (h : ChunkHeader) (rs : List ObjectRecord) (rest : Bytes)
      → recovered (chunk_bytes h rs ++ rest) (ok (h, passed scan_start rs))
        ≡ (chunk_bytes h rs, ok (recovery_of h rs (length rest)))
  unfolding recovered passed
  recovered-kept h rs rest =
      let size : length (chunk_bytes h rs) ≡ 64 + length (records_bytes rs) =
        omega (arith, length-append (encode_chunk_header h) (records_bytes rs), length-encode h) in
      let whole = length-append (chunk_bytes h rs) rest in
      let lost : length (chunk_bytes h rs ++ rest) - (64 + length (records_bytes rs))
          ≡ length rest =
        omega (arith, size, whole) in
      let kept =
        set_len_lem (chunk_bytes h rs ++ rest) (64 + length (records_bytes rs)) (chunk_bytes h rs)
          (take-append (64 + length (records_bytes rs)) (chunk_bytes h rs) rest size) in
      let counted : 0 + length rs ≡ length rs = omega arith in
      rw counted (ap₂ (λ (file : Bytes) (n : ℕ). (file, ok (recovery_of h rs n))) kept lost)

  size_with :
      (h : ChunkHeader) (rs : List ObjectRecord) (cut : Bytes)
      → length (encode_chunk_header h ++ (records_bytes rs ++ cut))
        ≡ 64 + length (records_bytes rs) + length cut
  size_with h rs cut = omega (
    arith,
    length-append (encode_chunk_header h) (records_bytes rs ++ cut),
    length-append (records_bytes rs) cut,
    length-encode h,
  )

  recover_file-scanned :
      (h : ChunkHeader) (rs : List ObjectRecord) (cut : Bytes)
      → IsHeader h
      → scan_records sha256_digest read_frame
          (encode_chunk_header h ++ (records_bytes rs ++ cut))
          (length (encode_chunk_header h ++ (records_bytes rs ++ cut)))
          false
        ≡ ok (passed scan_start rs)
      → recover_file sha256_digest read_frame (chunk_bytes h rs ++ cut)
        ≡ (chunk_bytes h rs, ok (recovery_of h rs (length cut)))
  unfolding recover_file scan_open
  recover_file-scanned h rs cut v scanned =
      let opened : scan_open sha256_digest read_frame
            (encode_chunk_header h ++ (records_bytes rs ++ cut))
          ≡ ok (h, passed scan_start rs) =
        rw (read_chunk_header_lem h (records_bytes rs ++ cut) v, scanned) in
      ap (recovered (chunk_bytes h rs ++ cut)) (
        ap (scan_open sha256_digest read_frame)
          (append_assoc (encode_chunk_header h) (records_bytes rs) cut)
        ∙ opened)
      ∙ recovered-kept h rs cut

  -- A crash in the middle of an append: behind the records of an open chunk, which are valid and
  -- of at most 64 MiB each, padding included, stands a part, which may be empty, of the bytes of one
  -- more valid record, of any length. Below 2^64 bytes, recovery leaves exactly the chunk of the
  -- records in front, counts them and the bytes it removed, and returns the checksum with which
  -- their writer goes on.
  pub recover_file-crash :
      (h : ChunkHeader) (rs : List ObjectRecord) (r : ObjectRecord) (cut behind : Bytes)
      → IsHeader h
      → All IsScannable rs
      → IsRecord r
      → record_bytes r ≡ cut ++ behind
      → 0 < length behind
      → 64 + length (records_bytes rs) + length cut < 2 ^ 64
      → recover_file sha256_digest read_frame (chunk_bytes h rs ++ cut)
        ≡ (chunk_bytes h rs, ok (recovery_of h rs (length cut)))
  recover_file-crash h rs r cut behind v a w split more small = recover_file-scanned h rs cut v (
      scan_records-crash (encode_chunk_header h) rs r cut behind _ a w (length-encode h) split more
        (sym (size_with h rs cut)) (omega (arith, size_with h rs cut, small)))

  -- A complete valid record of more than 64 MiB, padding included, is taken off by recovery, with
  -- every byte behind it: what is left is the chunk of the records in front, which are valid and of
  -- at most 64 MiB each. The file has less than 2^64 bytes.
  pub recover_file-oversized :
      (h : ChunkHeader) (rs : List ObjectRecord) (r : ObjectRecord) (behind : Bytes)
      → IsHeader h
      → All IsScannable rs
      → IsRecord r
      → max_recovery_record_bytes < length (record_bytes r)
      → 64 + length (records_bytes rs) + length (record_bytes r) + length behind < 2 ^ 64
      → recover_file sha256_digest read_frame (chunk_bytes h rs ++ (record_bytes r ++ behind))
        ≡ (chunk_bytes h rs, ok (recovery_of h rs (length (record_bytes r) + length behind)))
  recover_file-oversized h rs r behind v a w over small =
      let size = size_with h rs (record_bytes r ++ behind) in
      let lost = length-append (record_bytes r) behind in
      recover_file-scanned h rs (record_bytes r ++ behind) v (
        scan_records-stopped (encode_chunk_header h) rs (record_bytes r ++ behind) _ a
          (length-encode h) (omega (arith, size, lost, over)) (omega (arith, size, lost, small))
          (read_candidate-oversized r w (encode_chunk_header h ++ records_bytes rs) _
            (64 + length (records_bytes rs))
            (omega
              (arith, length-append (encode_chunk_header h) (records_bytes rs), length-encode h))
            behind (omega (arith, length-record_bytes r w, over))
            (omega (arith, size, lost, length-record_bytes r w))))
      ∙ ap (λ n. (chunk_bytes h rs, ok (recovery_of h rs n))) lost

  pub recover_file-whole :
      (h : ChunkHeader) (rs : List ObjectRecord)
      → IsHeader h
      → All IsScannable rs
      → 64 + length (records_bytes rs) < 2 ^ 64
      → recover_file sha256_digest read_frame (chunk_bytes h rs)
        ≡ (chunk_bytes h rs, ok (recovery_of h rs 0))
  recover_file-whole h rs v a small =
      ap (recover_file sha256_digest read_frame) (sym (append-nil (chunk_bytes h rs)))
      ∙ recover_file-scanned h rs [] v (
          scan_records-whole (encode_chunk_header h) rs _ a (length-encode h)
            (omega (arith, size_with h rs [])) (omega (arith, size_with h rs [], small)))
