-- ===== src/Format/Payload/Safe.antt =====
-- Panics in the decoding of payloads.
use gitdb.Base.{ℕ, refl, arith, Option, none, some, List, [], ◌∷◌, length, ltb}
use gitdb.Base.Bytes.{Bytes}
use gitdb.Base.Result.{
  Result, panic, ok, err, IsSafe, IsSafe-ok, IsSafe-err, IsSafe-bind, IsSafe-reject_if,
}
use gitdb.Core.{ContentId}
use gitdb.Core.Hashing.{Digest}
use gitdb.Core.Streaming.{joined}
use gitdb.Format.{Codec, raw, zstd, checked_add}
use gitdb.Format.Record.{ObjectRecord}
use gitdb.Format.Payload.{
  IoError, io, CodecError, trailing_zstd_data, ZstdRead, Validating, after_write, write, finish,
  copy_decoded, copy_payload, decode_object_payload_to_writer, decode_record_payload, cursor_reads,
  codec_stream_buffer_bytes, verify_object_record,
}

module _ (sha256_digest : Digest) where
  write-IsSafe :
      (w : Validating sha256_digest) (bytes : Bytes) → IsSafe (write sha256_digest w bytes).1
  unfolding write checked_add
  write-IsSafe w bytes = record { no_panic = ground arith }

  finish-IsSafe :
      (w : Validating sha256_digest) (expected : ContentId)
      → IsSafe (finish sha256_digest w expected)
  unfolding finish
  finish-IsSafe w expected = record { no_panic = ground arith }

  after_write-IsSafe :
      (w : Validating sha256_digest) (done : Result IoError ℕ)
      (next : Validating sha256_digest × Result CodecError (Unit {0}))
      → IsSafe done
      → IsSafe next.1
      → IsSafe (after_write sha256_digest w done next).1
  after_write-IsSafe w panic next s n = absurd (s.no_panic refl)
  after_write-IsSafe w (err e) next s n = IsSafe-err (io e)
  after_write-IsSafe w (ok count) next s n = n

  copy_decoded-IsSafe :
      (reads : List Bytes) (failure : Option IoError) (w : Validating sha256_digest)
      → IsSafe (copy_decoded sha256_digest reads failure w).1
  unfolding copy_decoded
  copy_decoded-IsSafe [] none w = IsSafe-ok tt
  copy_decoded-IsSafe [] (some e) w = IsSafe-err (io e)
  copy_decoded-IsSafe ([] ∷ reads) failure w = IsSafe-ok tt
  copy_decoded-IsSafe ((b ∷ bytes) ∷ reads) failure w =
      after_write-IsSafe _ _ _ (write-IsSafe w (b ∷ bytes)) (copy_decoded-IsSafe reads failure _)

module _ (sha256_digest : Digest) (read_frame : Bytes → ZstdRead) where
  copy_payload-IsSafe :
      (codec : Codec) (reads : List Bytes) (w : Validating sha256_digest)
      → IsSafe (copy_payload sha256_digest read_frame codec reads w).1
  unfolding copy_payload
  copy_payload-IsSafe raw reads w = copy_decoded-IsSafe sha256_digest reads none w
  copy_payload-IsSafe zstd reads w =
      IsSafe-bind _ _
        (copy_decoded-IsSafe sha256_digest (read_frame (joined reads)).reads
          (read_frame (joined reads)).failure w)
        (λ _ _.
          IsSafe-reject_if (ltb 0 (length (read_frame (joined reads)).behind)) trailing_zstd_data)

  pub verify_object_record-IsSafe :
      (r : ObjectRecord) → IsSafe (verify_object_record sha256_digest read_frame r)
  unfolding verify_object_record decode_record_payload decode_object_payload_to_writer
  verify_object_record-IsSafe r =
      IsSafe-bind _ _
        (copy_payload-IsSafe r.codec
          (cursor_reads codec_stream_buffer_bytes (length r.payload) r.payload) _)
        (λ _ _. finish-IsSafe sha256_digest _ r.content_id)
