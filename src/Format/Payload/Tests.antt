-- ===== src/Format/Payload/Tests.antt =====
-- Runs of the payload theorems on samples.
use gitdb.Base.{ℕ, ◌≤◌, ◌≡◌, ◌↔◌, refl, arith, [], ◌∷◌, length}
use gitdb.Base.Bytes.{bytes_eq, be}
use gitdb.Base.Result.{ok}
use gitdb.Core.{blob, kind_tag}
use gitdb.Core.Hashing.{content_finalize, content_update, content_new, content_id_for_object}
use gitdb.Core.Samples.{first_bytes}
use gitdb.Format.{zstd, checked_add}
use gitdb.Format.Payload.{
  decode_object_payload_to_writer, decode_object_payload, verify_object_record,
  decode_record_payload, copy_decoded, cursor_reads, new_validating, write, finish,
}
use gitdb.Format.Payload.Samples.{plain_frame, stored_record}
use gitdb.Format.Payload.Validated.{decode_to_writer_bounded, decode_object_payload_ok}
use gitdb.Format.Payload.Raw.{verify_raw_iff}

-- Three bytes arrive where two are declared.
decode_to_writer_bounded_example :
    length
      (decode_object_payload_to_writer
        (first_bytes 32)
        plain_frame
        blob
        zstd
        2
        stored_record.content_id
        ((b'h' ∷ b'i' ∷ b'!' ∷ []) ∷ [])).0
    ≤ 2
decode_to_writer_bounded_example =
    decode_to_writer_bounded (first_bytes 32) plain_frame blob zstd 2 stored_record.content_id
      ((b'h' ∷ b'i' ∷ b'!' ∷ []) ∷ [])

stored_record-decoded :
    decode_object_payload (first_bytes 32) plain_frame stored_record ≡ ok (b'h' ∷ b'i' ∷ [])
unfolding decode_object_payload decode_record_payload decode_object_payload_to_writer copy_decoded
    cursor_reads write checked_add new_validating finish bytes_eq content_finalize content_update
    content_new content_id_for_object kind_tag be
stored_record-decoded = refl

decode_object_payload_ok_example :
    (length {A = ℕ} (b'h' ∷ b'i' ∷ []) ≡ 2)
    × (content_id_for_object (first_bytes 32) blob (b'h' ∷ b'i' ∷ []) ≡ stored_record.content_id)
decode_object_payload_ok_example =
    decode_object_payload_ok (first_bytes 32) plain_frame stored_record (b'h' ∷ b'i' ∷ [])
      stored_record-decoded

verify_raw_iff_example :
    (verify_object_record (first_bytes 32) plain_frame stored_record ≡ ok tt) ↔ (
      (length stored_record.payload ≡ 2)
      × (content_id_for_object (first_bytes 32) blob stored_record.payload
          ≡ stored_record.content_id))
verify_raw_iff_example =
    verify_raw_iff (first_bytes 32) plain_frame stored_record refl (omega arith)
