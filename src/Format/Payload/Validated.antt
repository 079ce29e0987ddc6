-- ===== src/Format/Payload/Validated.antt =====
-- The bytes that the validating writer has taken.
use gitdb.Base.{
  ℕ, ◌≤◌, ◌≡◌, refl, sym, ap, arith, Option, none, some, List, [], ◌∷◌, length, length-append, true,
  ◌==◌,
}
use mathlib.Core.Path.{subst}
use gitdb.Base.Bytes.{Bytes, bytes_eq_iff}
use gitdb.Base.Result.{panic, ok, err, >>=-eq-ok}
use gitdb.Core.{ObjectKind, ContentId}
use gitdb.Core.Hashing.{
  Digest, content_new, content_update, content_finalize, content_id_for_object,
}
use gitdb.Format.{Codec, raw, zstd, checked_add}
use gitdb.Core.Streaming.{joined}
use gitdb.Format.Record.{ObjectRecord}
use gitdb.Format.Payload.{
  IoError, ZstdRead, Validating, new_validating, after_write, write, finish, copy_decoded,
  copy_payload, decode_object_payload_to_writer, decode_object_payload, decode_record_payload,
  cursor_reads, codec_stream_buffer_bytes,
}

module _ (sha256_digest : Digest) where
  -- The writer was made for an object of `kind` with `raw_length` bytes, and has hashed what it
  -- passed on.
  pub record Follows (kind : ObjectKind) (raw_length : ℕ) (w : Validating sha256_digest)
      : Type 0 where
    pub declared : w.expected_length ≡ raw_length
    pub counted : w.written ≡ length w.output
    pub within : w.written ≤ raw_length
    pub hashed :
        w.hasher ≡ content_update sha256_digest (content_new sha256_digest kind raw_length) w.output

  module _ (kind : ObjectKind) (raw_length : ℕ) where
    new-Follows : Follows kind raw_length (new_validating sha256_digest kind raw_length)
    unfolding new_validating content_update
    new-Follows = record {
      declared = refl;
      counted = refl;
      within = omega arith;
      hashed = sym (sha256_digest.update_nil (content_new sha256_digest kind raw_length));
    }

    write-Follows :
        (w : Validating sha256_digest) (bytes : Bytes)
        → Follows kind raw_length w
        → Follows kind raw_length (write sha256_digest w bytes).0
    unfolding write checked_add content_update
    write-Follows w bytes f = ground (
      arith,
      length-append w.output bytes,
      ap (λ h. sha256_digest.update h bytes) f.hashed,
      sha256_digest.update_append (content_new sha256_digest kind raw_length) w.output bytes,
    )

    copy-Follows :
        (reads : List Bytes) (failure : Option IoError) (w : Validating sha256_digest)
        → Follows kind raw_length w
        → Follows kind raw_length (copy_decoded sha256_digest reads failure w).0
    unfolding copy_decoded
    copy-Follows [] none w f = f
    copy-Follows [] (some e) w f = f
    copy-Follows ([] ∷ reads) failure w f = f
    copy-Follows ((b ∷ bytes) ∷ reads) failure w f =
        let next = write-Follows w (b ∷ bytes) f in
        let w' = (write sha256_digest w (b ∷ bytes)).0 in
        let rest = copy_decoded sha256_digest reads failure w' in
        elim (write sha256_digest w (b ∷ bytes)).1
          as (λ done. Follows kind raw_length (after_write sha256_digest w' done rest).0) [
            | panic ↦ next
            | err e ↦ next
            | ok count ↦ copy-Follows reads failure w' next
          ]

  -- A finished writer has passed on an object of its length whose content ID is the expected one.
  finish_lem :
      (kind : ObjectKind) (raw_length : ℕ) (w : Validating sha256_digest) (expected : ContentId)
      → Follows kind raw_length w
      → finish sha256_digest w expected ≡ ok tt
      → (length w.output ≡ raw_length)
        × (content_id_for_object sha256_digest kind w.output ≡ expected)
  unfolding finish content_finalize content_id_for_object
  finish_lem kind raw_length w expected f e =
      let sizes : (w.written == w.expected_length) ≡ true = ground arith in
      let ids : (content_finalize sha256_digest w.hasher).content_bytes ≡ expected.content_bytes =
        (bytes_eq_iff _ _).0 (ground arith) in
      let full : length w.output ≡ raw_length = ground (arith, sizes, f.declared, f.counted) in
      (full, cc (f.hashed, full, ids))

module _ (sha256_digest : Digest) (read_frame : Bytes → ZstdRead) (kind : ObjectKind) where
  copy_payload-Follows :
      (codec : Codec) (source : List Bytes) (raw_length : ℕ) (w : Validating sha256_digest)
      → Follows sha256_digest kind raw_length w
      → Follows sha256_digest kind raw_length
          (copy_payload sha256_digest read_frame codec source w).0
  unfolding copy_payload
  copy_payload-Follows raw source n w f = copy-Follows sha256_digest kind n source none w f
  copy_payload-Follows zstd source n w f =
      copy-Follows sha256_digest kind n (read_frame (joined source)).reads
        (read_frame (joined source)).failure w f

  decode-Follows :
      (codec : Codec) (source : List Bytes) (raw_length : ℕ)
      → Follows sha256_digest kind raw_length
          (copy_payload sha256_digest read_frame codec source
            (new_validating sha256_digest kind raw_length)).0
  decode-Follows codec source n =
      copy_payload-Follows codec source n _ (new-Follows sha256_digest kind n)

  -- Into a writer that takes every byte, as `Vec` and `io::sink` do, and from a source whose reads
  -- succeed, as a `Cursor`'s do: the bytes that reach the writer are at most the declared raw length,
  -- for either codec, whatever the source holds, whatever the Zstd decoder reads out of it or fails
  -- with, and whether the decoding succeeds or fails.
  pub decode_to_writer_bounded :
      (codec : Codec) (raw_length : ℕ) (expected : ContentId) (source : List Bytes)
      → length
          (decode_object_payload_to_writer sha256_digest read_frame kind codec raw_length expected
            source).0
        ≤ raw_length
  unfolding decode_object_payload_to_writer
  decode_to_writer_bounded codec n expected source =
      let f = decode-Follows codec source n in omega (arith, f.counted, f.within)

  pub decode_to_writer_ok :
      (codec : Codec) (raw_length : ℕ) (expected : ContentId) (source : List Bytes) (output : Bytes)
      → decode_object_payload_to_writer sha256_digest read_frame kind codec raw_length expected
          source
        ≡ (output, ok tt)
      → (length output ≡ raw_length) × (content_id_for_object sha256_digest kind output ≡ expected)
  unfolding decode_object_payload_to_writer
  decode_to_writer_ok codec n expected source output e =
      let written =
        copy_payload sha256_digest read_frame codec source (new_validating sha256_digest kind n) in
      let (_, copied, finished) =
        >>=-eq-ok written.1 (λ _. finish sha256_digest written.0 expected) (ap (λ p. p.1) e) in
      let result =
        finish_lem sha256_digest kind n written.0 expected (decode-Follows codec source n)
          finished in
      let same : written.0.output ≡ output = ap (λ p. p.0) e in
      subst (λ o. (length o ≡ n) × (content_id_for_object sha256_digest kind o ≡ expected)) same
        result

module _ (sha256_digest : Digest) (read_frame : Bytes → ZstdRead) where
  -- Where an owned payload is returned, for either codec and whatever the Zstd decoder does, it has
  -- the record's raw length, and the record's content ID is the one-shot content ID of the returned
  -- bytes.
  pub decode_object_payload_ok :
      (r : ObjectRecord) (output : Bytes)
      → decode_object_payload sha256_digest read_frame r ≡ ok output
      → (length output ≡ r.raw_length)
        × (content_id_for_object sha256_digest r.kind output ≡ r.content_id)
  unfolding decode_object_payload decode_record_payload
  decode_object_payload_ok r output e =
      let decoded = decode_record_payload sha256_digest read_frame r in
      let (_, done, returned) = >>=-eq-ok decoded.1 (λ _. ok decoded.0) e in
      let same : decoded.0 ≡ output = cc returned in
      decode_to_writer_ok sha256_digest read_frame r.kind r.codec r.raw_length r.content_id
        (cursor_reads codec_stream_buffer_bytes (length r.payload) r.payload) output
        (cc (same, done))
