-- ===== src/Store/Read.antt =====
-- `read_record_at` of crates/reflink-forest-store/src/lib.rs: one record of a chunk, addressed by
-- the catalog.
pub mod Laws
use gitdb.Base.{ℕ, not, Bool, true, ltb, leb, ◌==◌, length}
use gitdb.Base.Bytes.{Bytes}
use gitdb.Base.Result.{Result, ok, ◌>>=◌, ◌>>◌, reject_if, ok_or}
use gitdb.Core.{kind_tag}
use gitdb.Core.Hashing.{Digest}
use gitdb.Format.{chunk_header_len, record_header_len, codec_tag, checked_add}
use gitdb.Format.Chunk.{ChunkHeader, decode_chunk_header}
use gitdb.Format.Crc.{crc32c}
use gitdb.Format.Record.{ObjectRecord, decode_record, encoded_record_len_from_header}
use gitdb.Format.Payload.{ZstdRead, verify_object_record}
use gitdb.Index.{ObjectLocation}
use gitdb.Store.{
  StoreError, location_mismatch, record_length_field, generation_field, chunk_id_field,
  offset_field, stored_length_field, raw_length_field, kind_field, codec_field, flags_field,
  payload_crc32c_field, offset_overflow, from_format, from_codec, read_exact_at, read_chunk_header,
  max_recovery_record_bytes,
}

-- The checks on the addressed range and the chunk's header
unfoldable pub check_range : Bytes → ObjectLocation → Result StoreError (Unit {0})
check_range file location = do
  reject_if (ltb location.offset chunk_header_len) (location_mismatch offset_field)
  record_end ← ok_or (checked_add location.offset location.record_length) offset_overflow
  reject_if (ltb (length file) record_end) (location_mismatch record_length_field)
  chunk_header ← read_chunk_header file
  reject_if (not (chunk_header.generation == location.generation))
      (location_mismatch generation_field)
  reject_if (not (chunk_header.chunk_id == location.chunk_id)) (location_mismatch chunk_id_field)

-- The record at the offset. A location's length fits `usize`, which has 64 bits.
unfoldable pub read_located : Bytes → ObjectLocation → Result StoreError ObjectRecord
read_located file location = do
  record_header ← read_exact_at file location.offset record_header_len
  encoded_length ← from_format (encoded_record_len_from_header record_header)
  reject_if (ltb max_recovery_record_bytes encoded_length) offset_overflow
  reject_if (not (encoded_length == location.record_length)) (location_mismatch record_length_field)
  encoded ← read_exact_at file location.offset encoded_length
  decoded ← from_format (decode_record encoded)
  reject_if (not (decoded.1 == encoded_length)) (location_mismatch record_length_field)
  ok decoded.0

-- The comparisons with the fields that the location repeats. Kinds and codecs are compared by their
-- tags.
unfoldable pub check_fields : ObjectRecord → ObjectLocation → Result StoreError (Unit {0})
check_fields r location = do
  reject_if (not (length r.payload == location.stored_length))
      (location_mismatch stored_length_field)
  reject_if (not (r.raw_length == location.raw_length)) (location_mismatch raw_length_field)
  reject_if (not (kind_tag r.kind == kind_tag location.kind)) (location_mismatch kind_field)
  reject_if (not (codec_tag r.codec == codec_tag location.codec)) (location_mismatch codec_field)
  reject_if (not (r.flags == location.flags)) (location_mismatch flags_field)
  reject_if (not (crc32c r.payload == location.payload_crc32c))
      (location_mismatch payload_crc32c_field)

module _ (sha256_digest : Digest) (read_frame : Bytes → ZstdRead) where
  unfoldable pub read_record_at : Bytes → ObjectLocation → Result StoreError ObjectRecord
  read_record_at file location = do
    check_range file location
    r ← read_located file location
    check_fields r location
    from_codec (verify_object_record sha256_digest read_frame r)
    ok r
