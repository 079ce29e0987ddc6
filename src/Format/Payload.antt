-- ===== src/Format/Payload.antt =====
-- Stored payloads of crates/reflink-forest-format/src/lib.rs: the validating writer, and the
-- decoding of a record's payload. The writer takes every byte at once and the source's reads
-- succeed, as those of `Vec`, `io::sink` and `Cursor` in `decode_object_payload` and
-- `verify_object_record`. What the `zstd` crate reads out of a frame is a parameter.
pub mod Validated
pub mod Raw
pub mod Safe
pub mod Samples
mod Tests
use gitdb.Base.{
  ℕ, zero, suc, ◌+◌, ◌*◌, ◌^◌, Bool, true, false, not, Option, none, some, List, [], ◌∷◌, ◌++◌, ltb,
  ◌==◌, length, take, drop, if◌then◌else◌,
}
use gitdb.Base.Bytes.{Bytes}
use gitdb.Base.Result.{Result, panic, ok, err, ◌>>=◌, ◌>>◌, reject_if}
use gitdb.Base.Table.{bytes_Eq, ◌=?◌}
use gitdb.Core.{ObjectKind, ContentId}
use gitdb.Core.Hashing.{Digest, ContentHasher, content_new, content_update, content_finalize}
use gitdb.Core.Streaming.{joined}
use gitdb.Format.{Codec, raw, zstd, checked_add}
use gitdb.Format.Record.{ObjectRecord}

abbrev pub codec_stream_buffer_bytes : ℕ
codec_stream_buffer_bytes = 64 * 1024

-- The `io::Error`s: a missing file, `read_exact` past the end, those the validating writer makes,
-- one of the decoder's
pub data IoError : Type 0 where
  not_found unexpected_eof write_length_too_large length_overflowed exceeds_raw_length
        decoder_failed :
      IoError

pub data CodecError : Type 0 where
  io : IoError → CodecError
  -- The fields are `expected` and `actual`.
  raw_length_mismatch : ℕ → ℕ → CodecError
  content_mismatch : ContentId → ContentId → CodecError
  trailing_zstd_data : CodecError

-- What reading one frame to its end gives: the results of the successive `read` calls up to an
-- empty one or an error, that error, and the bytes of the source behind the frame.
pub record ZstdRead : Type 0 where
  pub reads : List Bytes
  pub failure : Option IoError
  pub behind : Bytes

-- Both fields of the source's `writer` that matter: the bytes it has taken, and the validation's
-- state
pub record ValidatingObjectWriter (H : Type 0) : Type 0 where
  pub output : Bytes
  pub expected_length : ℕ
  pub written : ℕ
  pub hasher : H

-- The successive results of `read` on a `Cursor` with a buffer of `size` bytes, on fuel
unfoldable pub cursor_reads : ℕ → ℕ → Bytes → List Bytes
cursor_reads size zero payload = []
cursor_reads size (suc fuel) [] = []
cursor_reads size (suc fuel) (b ∷ bytes) =
    take size (b ∷ bytes) ∷ cursor_reads size fuel (drop size (b ∷ bytes))

module _ (sha256_digest : Digest) where
  abbrev pub Validating : Type 0
  Validating = ValidatingObjectWriter (ContentHasher sha256_digest)

  -- `ValidatingObjectWriter::new`, on a writer that has taken nothing
  unfoldable pub new_validating : ObjectKind → ℕ → Validating
  new_validating kind expected_length = record {
    output = [];
    expected_length = expected_length;
    written = 0;
    hasher = content_new sha256_digest kind expected_length;
  }

  -- `<ValidatingObjectWriter as Write>::write` over a writer that takes every byte
  unfoldable pub write : Validating → Bytes → Validating × Result IoError ℕ
  write w bytes =
      if ltb (length bytes) (2 ^ 64)
      then (elim (checked_add w.written (length bytes)) [
        | none ↦ (w, err length_overflowed)
        | some next ↦ if ltb w.expected_length next then (w, err exceeds_raw_length) else (
          record w {
            output = w.output ++ bytes;
            written = w.written + length bytes;
            hasher = content_update sha256_digest w.hasher bytes;
          },
          ok (length bytes),
        )
      ])
      else (w, err write_length_too_large)

  -- `ValidatingObjectWriter::finish`
  unfoldable pub finish : Validating → ContentId → Result CodecError (Unit {0})
  finish w expected = do
    reject_if (not (w.written == w.expected_length))
        (raw_length_mismatch w.expected_length w.written)
    let actual = content_finalize sha256_digest w.hasher
    reject_if (not (actual.content_bytes =? expected.content_bytes))
        (content_mismatch expected actual)
    ok tt

  -- The `?` of `write_all`, whose error leaves what was written
  abbrev pub after_write :
      Validating
      → Result IoError ℕ
      → Validating × Result CodecError (Unit {0})
      → Validating × Result CodecError (Unit {0})
  after_write w panic next = (w, panic)
  after_write w (err e) next = (w, err (io e))
  after_write w (ok count) next = next

  -- `copy_decoded`: a read that gives nothing ends the loop, as does the end of the reads.
  unfoldable pub copy_decoded :
      List Bytes → Option IoError → Validating → Validating × Result CodecError (Unit {0})
  copy_decoded [] none w = (w, ok tt)
  copy_decoded [] (some e) w = (w, err (io e))
  copy_decoded ([] ∷ reads) failure w = (w, ok tt)
  copy_decoded ((b ∷ bytes) ∷ reads) failure w =
      let (w', done) = write w (b ∷ bytes) in after_write w' done (copy_decoded reads failure w')

  -- A step after the copy, whose error leaves what was written
  abbrev pub then_check :
      Validating × Result CodecError (Unit {0})
      → Result CodecError (Unit {0})
      → Validating × Result CodecError (Unit {0})
  then_check (w, done) next = (w, done >> next)

module _ (sha256_digest : Digest) (read_frame : Bytes → ZstdRead) where
  -- The copy with the codec's reader in front. The bytes behind a frame are trailing data, whether
  -- the buffer holds them or the source does.
  unfoldable pub copy_payload :
      Codec
      → List Bytes
      → Validating sha256_digest
      → Validating sha256_digest × Result CodecError (Unit {0})
  copy_payload raw reads w = copy_decoded sha256_digest reads none w
  copy_payload zstd reads w =
      let frame = read_frame (joined reads) in
      then_check sha256_digest (copy_decoded sha256_digest frame.reads frame.failure w)
        (reject_if (ltb 0 (length frame.behind)) trailing_zstd_data)

  -- The bytes that reached the writer, and the result
  unfoldable pub decode_object_payload_to_writer :
      ObjectKind → Codec → ℕ → ContentId → List Bytes → Bytes × Result CodecError (Unit {0})
  unfolding copy_payload
  decode_object_payload_to_writer kind codec raw_length expected source =
      let (w, copied) = copy_payload codec source (new_validating sha256_digest kind raw_length) in
      (w.output, copied >> finish sha256_digest w expected)

  unfoldable pub decode_record_payload : ObjectRecord → Bytes × Result CodecError (Unit {0})
  decode_record_payload r =
      decode_object_payload_to_writer r.kind r.codec r.raw_length r.content_id
        (cursor_reads codec_stream_buffer_bytes (length r.payload) r.payload)

  unfoldable pub decode_object_payload : ObjectRecord → Result CodecError Bytes
  unfolding decode_record_payload
  decode_object_payload r = let (output, done) = decode_record_payload r in done >>= λ _. ok output

  unfoldable pub verify_object_record : ObjectRecord → Result CodecError (Unit {0})
  unfolding decode_record_payload
  verify_object_record r = (decode_record_payload r).1
