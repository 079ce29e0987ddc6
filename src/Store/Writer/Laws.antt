-- ===== src/Store/Writer/Laws.antt =====
-- The chunk that a writer keeps, and appending to it.
use mathlib.Core.Path.{subst}
use gitdb.Format.Record.RoundTrip.{IsRecord}
use gitdb.Base.{
  All, lt→ltb, ℕ, some, ◌^◌, ◌<◌, ◌+◌, ◌≡◌, refl, sym, ap, ◌∙◌, arith, List, [], ◌∷◌, ◌++◌,
  append-nil, append_assoc, length, length-append,
}
use gitdb.Base.Bytes.{Bytes}
use gitdb.Base.Result.{◌>>◌, Result, panic, ok, err, >>=-eq-ok}
use gitdb.Core.Hashing.{Digest}
use gitdb.Format.{checked_add}
use gitdb.Format.Chunk.{ChunkHeader, encode_chunk_header}
use gitdb.Format.Chunk.RoundTrip.{IsHeader, length-encode}
use gitdb.Format.Crc.{crc_new, crc_update, update-append}
use gitdb.Format.Record.{encode_record, ObjectRecord}
use gitdb.Format.Payload.{ZstdRead, CodecError, verify_object_record}
use gitdb.Store.{StoreError, open_extension, from_codec, from_format, write_at, write_at-end}
use gitdb.Store.Recovery.Laws.{chunk_bytes}
use gitdb.Store.Scan.Candidate.{record_bytes, encode-record_bytes}
use gitdb.Store.Scan.Rounds.{records_bytes}
use gitdb.Store.Scan.Whole.{count-le}
use gitdb.Store.Writer.{ChunkWriter, RecordLocation, create, append_encoded, after_encoding, append}

module _ (sha256_digest : Digest) (read_frame : Bytes → ZstdRead) where
  -- A valid record, of any length, whose payload verifies.
  abbrev pub Writable : ObjectRecord → Type 0
  Writable r = IsRecord r × (verify_object_record sha256_digest read_frame r ≡ ok tt)

  -- The writer's file is the chunk of the records `rs`, all of which are valid and verify, and its
  -- counters describe that chunk.
  pub record Wrote (w : ChunkWriter) (rs : List ObjectRecord) : Type 0 where
    pub is_chunk : IsHeader w.header
    pub verified : All Writable rs
    pub holds : w.file ≡ chunk_bytes w.header rs
    pub ends : w.next_offset ≡ 64 + length (records_bytes rs)
    pub counts : w.record_count ≡ length rs
    pub sums : w.records_crc32c ≡ crc_update crc_new (records_bytes rs)

  -- A new writer's chunk has no record.
  pub create-Wrote :
      (h : ChunkHeader) (w : ChunkWriter) → IsHeader h → create open_extension h ≡ ok w → Wrote w []
  unfolding create records_bytes crc_update
  create-Wrote h w v e =
      let same : _ ≡ w = cc e in
      subst (λ x. Wrote x []) same
        (record {
          is_chunk = v;
          verified = tt;
          holds = sym (append-nil (encode_chunk_header h));
          ends = refl;
          counts = refl;
          sums = refl;
        })

  pub records_bytes-append :
      (rs : List ObjectRecord) (r : ObjectRecord)
      → records_bytes (rs ++ r ∷ []) ≡ records_bytes rs ++ record_bytes r
  unfolding records_bytes
  records_bytes-append [] r = append-nil (record_bytes r)
  records_bytes-append (x ∷ rs) r =
      ap (λ t. record_bytes x ++ t) (records_bytes-append rs r)
      ∙ sym (append_assoc (record_bytes x) (records_bytes rs) (record_bytes r))

  All-concat :
      (rs : List ObjectRecord) (r : ObjectRecord)
      → All Writable rs
      → Writable r
      → All Writable (rs ++ r ∷ [])
  All-concat [] r a b = (b, tt)
  All-concat (x ∷ rs) r a b = (a.0, All-concat rs r a.1 b)

  after_encoding-ok :
      (w w' : ChunkWriter) (m : Result StoreError Bytes) (location : RecordLocation)
      → after_encoding w m ≡ (w', ok location)
      → (encoded : Bytes) × (m ≡ ok encoded) × (append_encoded w encoded ≡ (w', ok location))
  unfolding after_encoding
  after_encoding-ok w w' panic location e = absurd (cc)
  after_encoding-ok w w' (err x) location e = absurd (cc)
  after_encoding-ok w w' (ok encoded) location e = (encoded, refl, e)

  append_encoded-ok :
      (w w' : ChunkWriter) (encoded : Bytes) (location : RecordLocation)
      → append_encoded w encoded ≡ (w', ok location)
      → (w' ≡ record w {
        file = write_at w.file w.next_offset encoded;
        next_offset = w.next_offset + length encoded;
        record_count = w.record_count + 1;
        records_crc32c = crc_update w.records_crc32c encoded;
      })
        × (location ≡ record { offset = w.next_offset; record_length = length encoded })
  unfolding append_encoded checked_add
  append_encoded-ok w w' encoded location e = ground arith

  -- The writer after it has appended the bytes of `r`.
  abbrev pub appended : ChunkWriter → ObjectRecord → ChunkWriter
  appended w r = record w {
    file = write_at w.file w.next_offset (record_bytes r);
    next_offset = w.next_offset + length (record_bytes r);
    record_count = w.record_count + 1;
    records_crc32c = crc_update w.records_crc32c (record_bytes r);
  }

  from_codec-ok :
      (d : Result CodecError (Unit {0})) {u : Unit {0}} → from_codec d ≡ ok u → d ≡ ok tt
  from_codec-ok panic e = absurd (cc)
  from_codec-ok (err x) e = absurd (cc)
  from_codec-ok (ok u) e = refl

  pub append-appended :
      (w w' : ChunkWriter) (r : ObjectRecord) (location : RecordLocation)
      → IsRecord r
      → append sha256_digest read_frame w r ≡ (w', ok location)
      → (w' ≡ appended w r)
        × (location ≡ record { offset = w.next_offset; record_length = length (record_bytes r) })
        × (verify_object_record sha256_digest read_frame r ≡ ok tt)
  unfolding append
  append-appended w w' r location v e =
      let (encoded, encoding, stored) = after_encoding-ok w w' _ location e in
      let (_, verified, made) =
        >>=-eq-ok (from_codec (verify_object_record sha256_digest read_frame r)) _ encoding in
      let same : encoded ≡ record_bytes r = cc (made, ap from_format (encode-record_bytes r v)) in
      let (after, at) =
        append_encoded-ok w w' (record_bytes r) location
          (ap (append_encoded w) (sym same) ∙ stored) in
      (after, at, from_codec-ok _ verified)

  -- A successful append adds its record at the end of the chunk, at the location that it returns:
  -- the writer's file is then the chunk of the records so far and this one, its counters describe
  -- that chunk, and the record verifies.
  pub append-Wrote :
      (w w' : ChunkWriter) (rs : List ObjectRecord) (r : ObjectRecord) (location : RecordLocation)
      → Wrote w rs
      → IsRecord r
      → append sha256_digest read_frame w r ≡ (w', ok location)
      → Wrote w' (rs ++ r ∷ [])
        × (w'.header ≡ w.header)
        × (location.offset ≡ length w.file)
        × (location.record_length ≡ length (record_bytes r))
  append-Wrote w w' rs r location s v e =
      let (after, at, verified) = append-appended w w' r location v e in
      let size : length w.file ≡ w.next_offset =
        ap length s.holds
        ∙ length-append (encode_chunk_header w.header) (records_bytes rs)
        ∙ omega (arith, length-encode w.header, s.ends) in
      (
        subst (λ x. Wrote x (rs ++ r ∷ [])) (sym after)
            (record {
              is_chunk = s.is_chunk;
              verified = All-concat rs r s.verified (v, verified);
              holds =
                  write_at-end w.file (record_bytes r) w.next_offset size
                  ∙ ap (λ t. t ++ record_bytes r) s.holds
                  ∙ append_assoc (encode_chunk_header w.header) (records_bytes rs) (record_bytes r)
                  ∙ ap (λ t. encode_chunk_header w.header ++ t) (sym (records_bytes-append rs r));
              ends = omega (
                arith,
                s.ends,
                ap length (records_bytes-append rs r),
                length-append (records_bytes rs) (record_bytes r),
              );
              counts = omega (arith, s.counts, length-append rs (r ∷ []));
              sums =
                  ap (λ c. crc_update c (record_bytes r)) s.sums
                  ∙ update-append crc_new (records_bytes rs) (record_bytes r)
                  ∙ ap (crc_update crc_new) (sym (records_bytes-append rs r));
            }),
        ap (λ x. x.header) after,
        ap (λ l. l.offset) at ∙ sym size,
        ap (λ l. l.record_length) at,
      )

  checked_add_ok : (a b : ℕ) → a + b < 2 ^ 64 → checked_add a b ≡ some (a + b)
  unfolding checked_add
  checked_add_ok a b room = rw (lt→ltb (a + b) (2 ^ 64) room)

  append_encoded_ok :
      (w : ChunkWriter) (encoded : Bytes)
      → w.next_offset + length encoded < 2 ^ 64
      → w.record_count + 1 < 2 ^ 64
      → append_encoded w encoded ≡ (
        record w {
          file = write_at w.file w.next_offset encoded;
          next_offset = w.next_offset + length encoded;
          record_count = w.record_count + 1;
          records_crc32c = crc_update w.records_crc32c encoded;
        },
        ok (record { offset = w.next_offset; record_length = length encoded }),
      )
  unfolding append_encoded
  append_encoded_ok w encoded room count = rw (
    append_encoded,
    checked_add_ok w.next_offset (length encoded) room,
    checked_add_ok w.record_count 1 count,
  )

  append_ok :
      (w : ChunkWriter) (r : ObjectRecord)
      → IsRecord r
      → verify_object_record sha256_digest read_frame r ≡ ok tt
      → w.next_offset + length (record_bytes r) < 2 ^ 64
      → w.record_count + 1 < 2 ^ 64
      → append sha256_digest read_frame w r ≡ (
        appended w r,
        ok (record { offset = w.next_offset; record_length = length (record_bytes r) }),
      )
  unfolding append after_encoding append_encoded checked_add
  append_ok w r v verified room count =
      let encoded : (do
        from_codec (verify_object_record sha256_digest read_frame r)
        from_format (encode_record r))
          ≡ ok (record_bytes r) =
        rw (verified, encode-record_bytes r v) in
      ap (after_encoding w) encoded ∙ append_encoded_ok w (record_bytes r) room count

  -- Let a writer's file be the chunk of valid records that verify, and its counters describe that
  -- chunk. Appending one more valid record that verifies, of any length, succeeds while the chunk
  -- stays below 2^64 bytes. The record then stands at the end of the chunk, at the location that is
  -- returned: the writer's file is the chunk of the records so far and this one, and its counters
  -- describe that chunk.
  pub append_lem :
      (w : ChunkWriter) (rs : List ObjectRecord) (r : ObjectRecord)
      → Wrote w rs
      → IsRecord r
      → verify_object_record sha256_digest read_frame r ≡ ok tt
      → 64 + length (records_bytes rs) + length (record_bytes r) < 2 ^ 64
      → (append sha256_digest read_frame w r ≡ (
        appended w r,
        ok (record { offset = length w.file; record_length = length (record_bytes r) }),
      ))
        × Wrote (appended w r) (rs ++ r ∷ [])
  append_lem w rs r s v verified small =
      let size : length w.file ≡ w.next_offset =
        ap length s.holds
        ∙ length-append (encode_chunk_header w.header) (records_bytes rs)
        ∙ omega (arith, length-encode w.header, s.ends) in
      let done =
        append_ok w r v verified (omega (arith, s.ends, small))
          (omega (arith, s.counts, count-le Writable (λ _ a. a.0) rs s.verified, small)) in
      (
        done
            ∙ ap
                (λ n. (
                  appended w r,
                  ok (record { offset = n; record_length = length (record_bytes r) }),
                ))
                (sym size),
        (append-Wrote w _ rs r _ s v done).0,
      )
