-- ===== src/Format/Footer.antt =====
-- Sealed-chunk footers of crates/reflink-forest-format/src/lib.rs.
pub mod RoundTrip
pub mod Canonical
use gitdb.Base.{ℕ, ◌+◌, not, [], ◌++◌, ltb, ◌==◌, length, replicate}
use gitdb.Base.Bytes.{Bytes, bytes_eq, any_nonzero, be, slice, read_be, put_at}
use gitdb.Base.Result.{Result, ok, ◌>>=◌, ◌>>◌, reject_if}
use gitdb.Format.{
  FormatError, truncated, bad_magic, header_crc_mismatch, non_zero_reserved, check_version,
  check_header_len, format_version, chunk_header_len, sealed_chunk_footer_len, chunk_magic,
  sealed_chunk_footer_magic, chunk_crc_offset, sealed_chunk_footer_crc_offset,
}
use gitdb.Format.Crc.{crc32c_with_zeroed_field}

pub record SealedChunkFooter : Type 0 where
  pub record_count : ℕ
  pub final_length : ℕ
  pub records_crc32c : ℕ

-- `SealedChunkFooter::encode`, and its bytes before the checksum is put in
unfoldable pub unsealed_footer : SealedChunkFooter → Bytes
unfolding put_at be
unsealed_footer f =
    let bytes0 : Bytes = replicate sealed_chunk_footer_len 0 in
    let bytes1 = put_at bytes0 0 sealed_chunk_footer_magic in
    let bytes2 = put_at bytes1 8 (be 2 format_version) in
    let bytes3 = put_at bytes2 10 (be 2 sealed_chunk_footer_len) in
    let bytes4 = put_at bytes3 12 (be 8 f.record_count) in
    let bytes5 = put_at bytes4 20 (be 8 f.final_length) in put_at bytes5 28 (be 4 f.records_crc32c)

unfoldable pub encode_chunk_footer : SealedChunkFooter → Bytes
unfolding unsealed_footer
encode_chunk_footer f =
    let bytes = unsealed_footer f in
    let crc = crc32c_with_zeroed_field bytes sealed_chunk_footer_crc_offset 4 in
    put_at bytes sealed_chunk_footer_crc_offset (be 4 crc)

-- `SealedChunkFooter::decode`
unfoldable pub decode_chunk_footer : Bytes → Result FormatError SealedChunkFooter
decode_chunk_footer input = do
  reject_if (ltb (length input) sealed_chunk_footer_len) truncated
  bytes ← slice input 0 sealed_chunk_footer_len
  magic ← slice bytes 0 8
  reject_if (not (bytes_eq magic sealed_chunk_footer_magic)) bad_magic
  version ← read_be 2 bytes 8
  check_version version
  header_len ← read_be 2 bytes 10
  check_header_len header_len sealed_chunk_footer_len
  crc ← read_be 4 bytes sealed_chunk_footer_crc_offset
  reject_if (not (crc == crc32c_with_zeroed_field bytes sealed_chunk_footer_crc_offset 4))
      header_crc_mismatch
  reserved ← slice bytes 36 (length bytes)
  reject_if (any_nonzero reserved) non_zero_reserved
  record_count ← read_be 8 bytes 12
  final_length ← read_be 8 bytes 20
  records_crc32c ← read_be 4 bytes 28
  ok (record {
    record_count = record_count;
    final_length = final_length;
    records_crc32c = records_crc32c;
  })
