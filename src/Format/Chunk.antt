-- ===== src/Format/Chunk.antt =====
-- Chunk headers of crates/reflink-forest-format/src/lib.rs.
pub mod RoundTrip
pub mod Canonical
use gitdb.Base.{ℕ, ◌+◌, not, [], ◌++◌, ltb, ◌==◌, length, replicate}
use gitdb.Base.Bytes.{Bytes, bytes_eq, any_nonzero, be, slice, read_be, put_at}
use gitdb.Base.Result.{Result, ok, ◌>>=◌, ◌>>◌, reject_if}
use gitdb.Format.{
  FormatError, truncated, bad_magic, header_crc_mismatch, non_zero_reserved, check_version,
  check_header_len, format_version, chunk_header_len, sealed_chunk_footer_len, chunk_magic,
  sealed_chunk_footer_magic, chunk_crc_offset, sealed_chunk_footer_crc_offset,
}
use gitdb.Format.Crc.{crc32c_with_zeroed_field}

pub record ChunkHeader : Type 0 where
  pub generation : ℕ
  pub chunk_id : ℕ
  pub created_unix_secs : ℕ
  pub flags : ℕ

-- `ChunkHeader::encode` up to the checksum, which is put in last
unfoldable pub unsealed_header : ChunkHeader → Bytes
unfolding put_at be
unsealed_header h =
    let bytes0 : Bytes = replicate chunk_header_len 0 in
    let bytes1 = put_at bytes0 0 chunk_magic in
    let bytes2 = put_at bytes1 8 (be 2 format_version) in
    let bytes3 = put_at bytes2 10 (be 2 chunk_header_len) in
    let bytes4 = put_at bytes3 12 (be 4 h.generation) in
    let bytes5 = put_at bytes4 16 (be 8 h.chunk_id) in
    let bytes6 = put_at bytes5 24 (be 8 h.created_unix_secs) in put_at bytes6 32 (be 4 h.flags)

unfoldable pub encode_chunk_header : ChunkHeader → Bytes
unfolding unsealed_header
encode_chunk_header h =
    let bytes = unsealed_header h in
    let crc = crc32c_with_zeroed_field bytes chunk_crc_offset 4 in
    put_at bytes chunk_crc_offset (be 4 crc)

-- `ChunkHeader::decode`
unfoldable pub decode_chunk_header : Bytes → Result FormatError ChunkHeader
decode_chunk_header input = do
  reject_if (ltb (length input) chunk_header_len) truncated
  bytes ← slice input 0 chunk_header_len
  magic ← slice bytes 0 8
  reject_if (not (bytes_eq magic chunk_magic)) bad_magic
  version ← read_be 2 bytes 8
  check_version version
  header_len ← read_be 2 bytes 10
  check_header_len header_len chunk_header_len
  crc ← read_be 4 bytes chunk_crc_offset
  reject_if (not (crc == crc32c_with_zeroed_field bytes chunk_crc_offset 4)) header_crc_mismatch
  reserved ← slice bytes 40 (length bytes)
  reject_if (any_nonzero reserved) non_zero_reserved
  generation ← read_be 4 bytes 12
  chunk_id ← read_be 8 bytes 16
  created_unix_secs ← read_be 8 bytes 24
  flags ← read_be 4 bytes 32
  ok (record {
    generation = generation;
    chunk_id = chunk_id;
    created_unix_secs = created_unix_secs;
    flags = flags;
  })
