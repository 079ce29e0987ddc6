-- ===== src/Format/Record.antt =====
-- Object records of crates/reflink-forest-format/src/lib.rs: a 128-byte header, the stored payload, a
-- 20-byte footer and zeros up to the next multiple of eight.
pub mod Oid
pub mod Layout
pub mod Header
pub mod Accepted
pub mod RoundTrip
pub mod Decode
pub mod Canonical
pub mod Lengths
use gitdb.Base.{
  ℕ, ◌+◌, ◌-◌, not, ◌||◌, Option, none, some, [], ◌∷◌, ltb, ◌==◌, if◌then◌else◌, length, take, drop,
  replicate,
}
use gitdb.Base.Bytes.{Bytes, bytes_eq, any_nonzero, be, slice, read_be, byte_at, put_at}
use gitdb.Base.Result.{Result, ok, err, panic, ◌>>=◌, ◌>>◌, reject_if, ok_or}
use gitdb.Core.{
  ObjectKind, kind_tag, kind_from_tag, HashAlgorithm, algorithm_tag, algorithm_from_tag, oid_len,
  InvalidGitOidLength, GitOid, new_oid, as_bytes, ContentId,
}
use gitdb.Format.{
  FormatError, truncated, bad_magic, header_crc_mismatch, payload_crc_mismatch,
  footer_magic_mismatch, invalid_oid_length, invalid_record_length, non_zero_reserved,
  non_zero_padding, length_overflow, invalid_object_kind, invalid_codec, invalid_hash_algorithm,
  Codec, codec_tag, codec_from_tag, check_version, check_header_len, checked_add, align, align_u64,
  usize_try_from, u64_try_from, format_version, record_header_len, record_footer_len, record_magic,
  record_end_magic, record_crc_offset,
}
use gitdb.Format.Crc.{crc32c, crc32c_with_zeroed_field}

pub record ObjectRecord : Type 0 where
  pub kind : ObjectKind
  pub codec : Codec
  pub flags : ℕ
  pub raw_length : ℕ
  pub content_id : ContentId
  pub primary_oid : GitOid
  pub payload : Bytes

pub record RecordMetadata : Type 0 where
  pub kind : ObjectKind
  pub codec : Codec
  pub flags : ℕ
  pub raw_length : ℕ
  pub stored_length : ℕ
  pub content_id : ContentId
  pub primary_oid : GitOid

-- `encode_oid_fixed` on the 34 bytes of `output`
unfoldable pub encode_oid_fixed : GitOid → Bytes → Bytes
encode_oid_fixed oid output =
    let output1 = put_at output 0 (algorithm_tag oid.algorithm ∷ []) in
    let output2 = put_at output1 1 (oid.len ∷ []) in put_at output2 2 (as_bytes oid)

-- `GitOid::new(..).map_err(|_| FormatError::InvalidOidLength)`
abbrev pub map_oid_error : Result InvalidGitOidLength GitOid → Result FormatError GitOid
map_oid_error (ok oid) = ok oid
map_oid_error (err _) = err invalid_oid_length
map_oid_error panic = panic

-- The second operand of `||` is reached only where the first is false.
unfoldable pub decode_oid_fixed : Bytes → Result FormatError GitOid
decode_oid_fixed bytes = do
  tag ← byte_at bytes 0
  algorithm ← ok_or (algorithm_from_tag tag) (invalid_hash_algorithm tag)
  len ← byte_at bytes 1
  reject_if (not (len == oid_len algorithm)) invalid_oid_length
  tail ← slice bytes (2 + len) (length bytes)
  reject_if (any_nonzero tail) invalid_oid_length
  raw ← slice bytes 2 (2 + len)
  map_oid_error (new_oid algorithm raw)

-- `RECORD_HEADER_LEN.checked_add(stored).and_then(|n| n.checked_add(RECORD_FOOTER_LEN))`
unfoldable pub checked_total : ℕ → Option ℕ
unfolding checked_add
checked_total stored = elim (checked_add record_header_len stored) [
  | none ↦ none
  | some n ↦ checked_add n record_footer_len
]

-- What `encode_record` writes, in its order: the header fields of fixed width, the identities, the
-- header's checksum, then the payload and the footer.
unfoldable pub put_early_fields : ObjectRecord → ℕ → Bytes → Bytes
put_early_fields r stored_length bytes0 =
    let bytes1 = put_at bytes0 0 record_magic in
    let bytes2 = put_at bytes1 4 (be 2 format_version) in
    let bytes3 = put_at bytes2 6 (be 2 record_header_len) in
    let bytes4 = put_at bytes3 8 (kind_tag r.kind ∷ []) in
    let bytes5 = put_at bytes4 9 (codec_tag r.codec ∷ []) in
    let bytes6 = put_at bytes5 10 (be 2 r.flags) in
    let bytes7 = put_at bytes6 12 (be 8 r.raw_length) in put_at bytes7 20 (be 8 stored_length)

unfoldable pub put_identity : ObjectRecord → Bytes → Bytes
put_identity r bytes0 =
    let bytes1 = put_at bytes0 28 r.content_id.content_bytes in
    put_at bytes1 60 (encode_oid_fixed r.primary_oid (take 34 (drop 60 bytes1)))

unfoldable pub put_header_crc : Bytes → Bytes
put_header_crc bytes =
    let crc = crc32c_with_zeroed_field (take record_header_len bytes) record_crc_offset 4 in
    put_at bytes record_crc_offset (be 4 crc)

unfoldable pub put_payload_and_footer : Bytes → ℕ → Bytes → Bytes
put_payload_and_footer payload total bytes0 =
    let bytes1 = put_at bytes0 record_header_len payload in
    let footer = record_header_len + length payload in
    let bytes2 = put_at bytes1 footer (be 4 (crc32c payload)) in
    let bytes3 = put_at bytes2 (footer + 4) (be 8 total) in
    put_at bytes3 (footer + 12) record_end_magic

unfoldable pub encode_record : ObjectRecord → Result FormatError Bytes
unfolding put_early_fields put_identity put_header_crc put_payload_and_footer
encode_record r = do
  stored_length ← u64_try_from (length r.payload)
  total ← ok_or (checked_total (length r.payload)) length_overflow
  total_u64 ← u64_try_from total
  padded ← align total
  let header = put_identity r (put_early_fields r stored_length (replicate padded 0))
  ok (put_payload_and_footer r.payload total_u64 (put_header_crc header))

-- `decode_record_metadata`
unfoldable pub decode_record_metadata : Bytes → Result FormatError RecordMetadata
decode_record_metadata bytes = do
  reject_if (ltb (length bytes) record_header_len) truncated
  header ← slice bytes 0 record_header_len
  magic ← slice header 0 4
  reject_if (not (bytes_eq magic record_magic)) bad_magic
  version ← read_be 2 header 4
  check_version version
  header_len ← read_be 2 header 6
  check_header_len header_len record_header_len
  crc ← read_be 4 header record_crc_offset
  reject_if (not (crc == crc32c_with_zeroed_field header record_crc_offset 4)) header_crc_mismatch
  reserved ← slice header 98 (length header)
  reject_if (any_nonzero reserved) non_zero_reserved
  kind_byte ← byte_at header 8
  kind ← ok_or (kind_from_tag kind_byte) (invalid_object_kind kind_byte)
  codec_byte ← byte_at header 9
  codec ← ok_or (codec_from_tag codec_byte) (invalid_codec codec_byte)
  flags ← read_be 2 header 10
  raw_length ← read_be 8 header 12
  stored_length ← read_be 8 header 20
  content ← slice header 28 60
  oid_bytes ← slice header 60 94
  primary_oid ← decode_oid_fixed oid_bytes
  ok (record {
    kind = kind;
    codec = codec;
    flags = flags;
    raw_length = raw_length;
    stored_length = stored_length;
    content_id = record { content_bytes = content };
    primary_oid = primary_oid;
  })

-- `total.checked_sub(RECORD_FOOTER_LEN)`
unfoldable pub checked_sub : ℕ → ℕ → Option ℕ
checked_sub a b = if ltb a b then none else some (a - b)

unfoldable pub decode_record : Bytes → Result FormatError (ObjectRecord × ℕ)
decode_record bytes = do
  metadata ← decode_record_metadata bytes
  stored ← usize_try_from metadata.stored_length
  total ← ok_or (checked_total stored) length_overflow
  total_footer ← ok_or (checked_sub total record_footer_len) length_overflow
  reject_if (ltb (length bytes) total) truncated
  recorded_total ← read_be 8 bytes (total_footer + 4)
  total_u64 ← u64_try_from total
  reject_if (not (recorded_total == total_u64)) invalid_record_length
  end_magic ← slice bytes (total_footer + 12) total
  reject_if (not (bytes_eq end_magic record_end_magic)) footer_magic_mismatch
  payload ← slice bytes record_header_len (record_header_len + stored)
  payload_crc ← read_be 4 bytes total_footer
  reject_if (not (payload_crc == crc32c payload)) payload_crc_mismatch
  consumed ← align total
  reject_if (ltb (length bytes) consumed) truncated
  padding ← slice bytes total consumed
  reject_if (any_nonzero padding) non_zero_padding
  ok (
    record {
      kind = metadata.kind;
      codec = metadata.codec;
      flags = metadata.flags;
      raw_length = metadata.raw_length;
      content_id = metadata.content_id;
      primary_oid = metadata.primary_oid;
      payload = payload;
    },
    consumed,
  )

unfoldable pub encoded_record_len_from_header : Bytes → Result FormatError ℕ
encoded_record_len_from_header bytes = do
  metadata ← decode_record_metadata bytes
  stored ← usize_try_from metadata.stored_length
  total ← ok_or (checked_total stored) length_overflow
  align total

unfoldable pub encoded_record_len_from_metadata : RecordMetadata → Result FormatError ℕ
encoded_record_len_from_metadata metadata = do
  total ← ok_or (checked_total metadata.stored_length) length_overflow
  align_u64 total

-- The third argument is the record's length without padding.
unfoldable pub validate_record_footer : Bytes → ℕ → ℕ → Result FormatError (Unit {0})
validate_record_footer bytes payload_crc32c unpadded_record_length = do
  reject_if (ltb (length bytes) record_footer_len) truncated
  footer ← slice bytes 0 record_footer_len
  crc ← read_be 4 footer 0
  reject_if (not (crc == payload_crc32c)) payload_crc_mismatch
  total ← read_be 8 footer 4
  reject_if (not (total == unpadded_record_length)) invalid_record_length
  end_magic ← slice footer 12 20
  reject_if (not (bytes_eq end_magic record_end_magic)) footer_magic_mismatch
  ok tt
