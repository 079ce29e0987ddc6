-- ===== src/Store/Sealed.antt =====
-- Verification of sealed chunks in crates/reflink-forest-store/src/lib.rs: `verify_sealed_file`.
pub mod Laws
pub mod Canonical
use gitdb.Base.{ℕ, not, true, ltb, ◌==◌, length}
use gitdb.Base.Bytes.{Bytes}
use gitdb.Base.Result.{Result, ok, ◌>>=◌, ◌>>◌, reject_if, ok_or}
use gitdb.Core.Hashing.{Digest}
use gitdb.Format.{chunk_header_len, sealed_chunk_footer_len, checked_add}
use gitdb.Format.Chunk.{ChunkHeader}
use gitdb.Format.Crc.{crc_finalize}
use gitdb.Format.Footer.{SealedChunkFooter, decode_chunk_footer}
use gitdb.Format.Record.{checked_sub}
use gitdb.Format.Payload.{ZstdRead}
use gitdb.Store.{
  StoreError, sealed_footer_missing, sealed_footer_mismatch, final_length_field, record_boundary,
  record_count_field, rolling_checksum, offset_overflow, from_format, read_exact_at,
  read_chunk_header,
}
use gitdb.Store.Scan.{Visitor, scan_records_with_visitor}

pub record VerifiedSealedChunk : Type 0 where
  pub header : ChunkHeader
  pub footer : SealedChunkFooter

-- The footer at the end of a file, whose length it holds
unfoldable pub read_footer : Bytes → (footer_offset : ℕ) → Result StoreError SealedChunkFooter
read_footer file footer_offset = do
  footer_bytes ← read_exact_at file footer_offset sealed_chunk_footer_len
  footer ← from_format (decode_chunk_footer footer_bytes)
  reject_if (not (footer.final_length == length file)) (sealed_footer_mismatch final_length_field)
  ok footer

module _ (sha256_digest : Digest) (read_frame : Bytes → ZstdRead) where
  unfoldable pub verify_sealed_file_with_visitor :
      {A : Type 0} → Visitor A → Bytes → A → Result StoreError (VerifiedSealedChunk × A)
  verify_sealed_file_with_visitor visitor file seen = do
    header ← read_chunk_header file
    minimum_length ← ok_or (checked_add chunk_header_len sealed_chunk_footer_len) offset_overflow
    reject_if (ltb (length file) minimum_length) sealed_footer_missing
    footer_offset ← ok_or (checked_sub (length file) sealed_chunk_footer_len) offset_overflow
    footer ← read_footer file footer_offset
    done ← scan_records_with_visitor sha256_digest read_frame visitor file footer_offset true seen
    reject_if (not (done.0.scan_end == footer_offset)) (sealed_footer_mismatch record_boundary)
    reject_if (not (done.0.records == footer.record_count))
        (sealed_footer_mismatch record_count_field)
    reject_if (not (crc_finalize done.0.checksum == footer.records_crc32c))
        (sealed_footer_mismatch rolling_checksum)
    ok (record { header = header; footer = footer }, done.1)

  unfoldable pub verify_sealed_file : Bytes → Result StoreError VerifiedSealedChunk
  verify_sealed_file file =
      verify_sealed_file_with_visitor (λ seen _ _ _. ok seen) file tt >>= λ done. ok done.0
