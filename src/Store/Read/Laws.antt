-- ===== src/Store/Read/Laws.antt =====
-- Reading a record back at the location under which the writer indexes it.
use gitdb.Base.{
  false, inl, inr, ltb, Bool-cases, if◌then◌else◌, ap, ◌∙◌, ◌+◌, ◌^◌, ◌<◌, ◌≡◌, sym, arith, true,
  List, [], ◌++◌, append-nil, append_assoc, length, length-append, ◌==◌, ==_refl, lt→ltb, le→ltb,
}
use gitdb.Base.Bytes.{Bytes}
use gitdb.Base.Result.{ok, err}
use gitdb.Core.{kind_tag}
use gitdb.Core.Hashing.{Digest}
use gitdb.Format.{codec_tag, checked_add}
use gitdb.Format.Chunk.{ChunkHeader, encode_chunk_header}
use gitdb.Format.Chunk.RoundTrip.{IsHeader, length-encode}
use gitdb.Format.Crc.{crc32c}
use gitdb.Format.Record.{ObjectRecord}
use gitdb.Format.Record.RoundTrip.{IsRecord, padded_of}
use gitdb.Format.Payload.{ZstdRead, verify_object_record}
use gitdb.Index.{ObjectLocation}
use gitdb.Store.{max_recovery_record_bytes, offset_overflow, read_exact_at, read_exact_at_lem}
use gitdb.Store.Headers.{read_chunk_header_lem}
use gitdb.Store.Read.{check_range, read_located, check_fields, read_record_at}
use gitdb.Store.Recovery.Laws.{chunk_bytes}
use gitdb.Store.Scan.Candidate.{
  record_bytes, length-record_bytes, padded_of-ge, header_bytes, header_read, header_len,
  decode-record_bytes,
}
use gitdb.Store.Scan.Rounds.{records_bytes}

-- Where the record `r` stands behind the records `rs` of a chunk, and what the catalog repeats of it.
abbrev pub location_in : ChunkHeader → List ObjectRecord → ObjectRecord → ObjectLocation
location_in h rs r = record {
  generation = h.generation;
  chunk_id = h.chunk_id;
  offset = 64 + length (records_bytes rs);
  record_length = length (record_bytes r);
  stored_length = length r.payload;
  raw_length = r.raw_length;
  kind = r.kind;
  codec = r.codec;
  flags = r.flags;
  payload_crc32c = crc32c r.payload;
}

module _ (h : ChunkHeader) (rs : List ObjectRecord) (r : ObjectRecord) (behind : Bytes)
    (is_header : IsHeader h) (v : IsRecord r)
    (small : 64 + length (records_bytes rs) + length (record_bytes r) + length behind
      < 2 ^ 64) where
  abbrev file : Bytes
  file = chunk_bytes h rs ++ (record_bytes r ++ behind)

  front : length (chunk_bytes h rs) ≡ 64 + length (records_bytes rs)
  front = omega (arith, length-append (encode_chunk_header h) (records_bytes rs), length-encode h)

  range_accepted : check_range file (location_in h rs r) ≡ ok tt
  unfolding check_range checked_add
  range_accepted =
      let size : length file
          ≡ 64 + length (records_bytes rs) + length (record_bytes r) + length behind =
        omega (
          arith,
          length-append (chunk_bytes h rs) (record_bytes r ++ behind),
          length-append (record_bytes r) behind,
          front,
        ) in
      rw (
        le→ltb (64 + length (records_bytes rs)) 64 (omega arith),
        lt→ltb (64 + length (records_bytes rs) + length (record_bytes r)) (2 ^ 64)
            (omega (arith, small)),
        le→ltb (length file) (64 + length (records_bytes rs) + length (record_bytes r))
            (omega (arith, size)),
        append_assoc (encode_chunk_header h) (records_bytes rs) (record_bytes r ++ behind),
        read_chunk_header_lem h (records_bytes rs ++ (record_bytes r ++ behind)) is_header,
        ==_refl h.generation,
        ==_refl h.chunk_id,
      )

  header_read_at : read_exact_at file (64 + length (records_bytes rs)) 128 ≡ ok (header_bytes r v)
  header_read_at =
      header_read r v (chunk_bytes h rs) (record_bytes r) [] behind (64 + length (records_bytes rs))
        front (sym (append-nil (record_bytes r)))
        (omega (arith, length-record_bytes r v, padded_of-ge r))

  oversized_refused :
      ltb max_recovery_record_bytes (length (record_bytes r)) ≡ true
      → read_located file (location_in h rs r) ≡ err offset_overflow
  unfolding read_located
  oversized_refused over = rw (
    header_read_at,
    header_len r v,
    ap (ltb max_recovery_record_bytes) (sym (length-record_bytes r v)) ∙ over,
  )

  record_located :
      ltb max_recovery_record_bytes (length (record_bytes r)) ≡ false
      → read_located file (location_in h rs r) ≡ ok r
  unfolding read_located
  record_located within =
      let size = length-record_bytes r v in
      let same : (padded_of r == length (record_bytes r)) ≡ true = ground (arith, size) in
      rw (
        header_read_at,
        header_len r v,
        ap (ltb max_recovery_record_bytes) (sym size) ∙ within,
        same,
        read_exact_at_lem (chunk_bytes h rs) (record_bytes r) behind
            (64 + length (records_bytes rs)) (padded_of r) front size,
        decode-record_bytes r v,
        ==_refl (padded_of r),
      )

  fields_accepted : check_fields r (location_in h rs r) ≡ ok tt
  unfolding check_fields
  fields_accepted = rw (
    ==_refl (length r.payload),
    ==_refl r.raw_length,
    ==_refl (kind_tag r.kind),
    ==_refl (codec_tag r.codec),
    ==_refl r.flags,
    ==_refl (crc32c r.payload),
  )

  module _ (sha256_digest : Digest) (read_frame : Bytes → ZstdRead) where
    -- A verified record in a chunk is read back under its location, whatever has been written
    -- behind it, if its bytes are at most 64 MiB; else the read fails.
    pub read_record_at_lem :
        verify_object_record sha256_digest read_frame r ≡ ok tt
        → read_record_at sha256_digest read_frame
            (chunk_bytes h rs ++ (record_bytes r ++ behind))
            (location_in h rs r)
          ≡ (if ltb max_recovery_record_bytes (length (record_bytes r))
              then err offset_overflow
              else ok r)
    unfolding read_record_at
    read_record_at_lem verified =
        elim (Bool-cases (ltb max_recovery_record_bytes (length (record_bytes r)))) [
          | inl over ↦ rw (range_accepted, oversized_refused over, over)
          | inr within ↦
              rw (range_accepted, record_located within, fields_accepted, verified, within)
        ]
