-- ===== src/Format/Tests.antt =====
-- Runs of the record codec's theorems on samples.
use gitdb.Format.Crc.Serial.{shift_bytes, crc32c_serial}
use gitdb.Base.{
  ◌-◌, ◌^◌, ◌%◌, ◌≤◌, ◌≡◌, ◌≢◌, ◌↔◌, refl, arith, [], ◌∷◌, ◌++◌, length, take, drop, replicate,
}
use gitdb.Base.Bytes.{Bytes, AreBytes, are_bytes-AreBytes, be, put_at}
use gitdb.Base.Result.{ok, panic}
use gitdb.Core.{kind_tag, algorithm_tag, oid_len, blob, sha1, GitOid, as_bytes}
use gitdb.Core.Laws.{IsOid, oid_of}
use gitdb.Format.{raw, codec_tag}
use gitdb.Format.Crc.{crc32c, crc32c_with_zeroed_field}
use gitdb.Format.Chunk.{ChunkHeader, encode_chunk_header, decode_chunk_header}
use gitdb.Format.Chunk.RoundTrip.{IsHeader}
use gitdb.Format.Chunk.Canonical.{decode_chunk_header_iff}
use gitdb.Format.Footer.{SealedChunkFooter, encode_chunk_footer, decode_chunk_footer}
use gitdb.Format.Footer.RoundTrip.{IsFooter}
use gitdb.Format.Footer.Canonical.{decode_chunk_footer_iff}
use gitdb.Format.Record.{
  encode_oid_fixed, ObjectRecord, encode_record, decode_record_metadata, decode_record,
  encoded_record_len_from_header, encoded_record_len_from_metadata, validate_record_footer,
}
use gitdb.Format.Record.Layout.{header_crc, IsMetadata, metadata_of}
use gitdb.Format.Record.RoundTrip.{IsRecord, encoded_of}
use gitdb.Format.Record.Accepted.{header_of, decode_record_metadata_iff}
use gitdb.Format.Record.Canonical.{decode_record_iff, decode_record-ne-panic, decode-encode_record}
use gitdb.Format.Record.Decode.{decode-encoded_of}
use gitdb.Format.Record.Lengths.{lengths_agree}

abbrev sample_header : ChunkHeader
sample_header = record { generation = 3; chunk_id = 9; created_unix_secs = 1000; flags = 1 }

-- The encoded sample with a byte behind it
abbrev header_bytes : Bytes
header_bytes = encode_chunk_header sample_header ++ 7 ∷ []

header_bytes-AreBytes : AreBytes header_bytes
unfolding encode_chunk_header crc32c crc32c_with_zeroed_field put_at be
header_bytes-AreBytes = are_bytes-AreBytes header_bytes refl

decode_chunk_header_iff_example :
    (decode_chunk_header header_bytes ≡ ok sample_header)
    ↔ ((take 64 header_bytes ≡ encode_chunk_header sample_header) × IsHeader sample_header)
decode_chunk_header_iff_example =
    decode_chunk_header_iff header_bytes sample_header header_bytes-AreBytes

abbrev sample_footer : SealedChunkFooter
sample_footer = record { record_count = 2; final_length = 512; records_crc32c = 77 }

abbrev footer_bytes : Bytes
footer_bytes = encode_chunk_footer sample_footer

footer_bytes-AreBytes : AreBytes footer_bytes
unfolding encode_chunk_footer crc32c crc32c_with_zeroed_field put_at be
footer_bytes-AreBytes = are_bytes-AreBytes footer_bytes refl

decode_chunk_footer_iff_example :
    (decode_chunk_footer footer_bytes ≡ ok sample_footer)
    ↔ ((take 64 footer_bytes ≡ encode_chunk_footer sample_footer) × IsFooter sample_footer)
decode_chunk_footer_iff_example =
    decode_chunk_footer_iff footer_bytes sample_footer footer_bytes-AreBytes

abbrev sample_oid : GitOid
sample_oid = oid_of sha1 (replicate 20 5)

abbrev sample_record : ObjectRecord
sample_record = record {
  kind = blob;
  codec = raw;
  flags = 0;
  raw_length = 2;
  content_id = record { content_bytes = replicate 32 6 };
  primary_oid = sample_oid;
  payload = b'h' ∷ b'i' ∷ [];
}

sample_oid-IsOid : IsOid sample_oid
unfolding oid_len
sample_oid-IsOid = record {
  raw = replicate 20 5;
  raw_length = refl;
  made = refl;
  raw_AreBytes = are_bytes-AreBytes (replicate 20 5) refl;
}

sample-IsMetadata : IsMetadata (metadata_of sample_record 2)
sample-IsMetadata = record {
  flags_fits = omega arith;
  raw_length_fits = omega arith;
  stored_length_fits = omega arith;
  content_size = refl;
  content_AreBytes = are_bytes-AreBytes (replicate 32 6) refl;
  oid_IsOid = sample_oid-IsOid;
}

sample_record-IsRecord : IsRecord sample_record
sample_record-IsRecord = record {
  metadata = sample-IsMetadata;
  payload_AreBytes = are_bytes-AreBytes (b'h' ∷ b'i' ∷ []) refl;
  total_fits = omega arith;
}

abbrev record_bytes : Bytes
record_bytes = encoded_of sample_record ++ 9 ∷ []

record_bytes-AreBytes : AreBytes record_bytes
unfolding header_crc be kind_tag codec_tag encode_oid_fixed put_at algorithm_tag oid_len as_bytes
    crc32c
record_bytes-AreBytes = are_bytes-AreBytes record_bytes refl

-- Decodes of the sample: the record itself, with its 152 bytes consumed
record_bytes-decoded : decode_record record_bytes ≡ ok (sample_record, 152)
record_bytes-decoded = decode-encoded_of sample_record sample_record-IsRecord (9 ∷ [])

decode_record_iff_example : (decode_record record_bytes ≡ ok (sample_record, 152)) ↔ (
    IsRecord sample_record
    × (encode_record sample_record ≡ ok (take 152 record_bytes))
    × (152 ≤ length record_bytes))
decode_record_iff_example = decode_record_iff record_bytes sample_record 152 record_bytes-AreBytes

decode_record-ne-panic_example : decode_record record_bytes ≢ panic
decode_record-ne-panic_example = decode_record-ne-panic record_bytes record_bytes-AreBytes

decode-encode_record_example :
    (bytes : Bytes) × (encode_record sample_record ≡ ok bytes)
    × (decode_record (bytes ++ (9 ∷ [])) ≡ ok (sample_record, length bytes))
    × (length bytes % 8 ≡ 0)
decode-encode_record_example = decode-encode_record sample_record (9 ∷ []) sample_record-IsRecord

decode_record_metadata_iff_example :
    (decode_record_metadata record_bytes ≡ ok (metadata_of sample_record 2)) ↔ (
      (take 128 record_bytes ≡ header_of (metadata_of sample_record 2))
      × IsMetadata (metadata_of sample_record 2))
decode_record_metadata_iff_example =
    decode_record_metadata_iff record_bytes (metadata_of sample_record 2) record_bytes-AreBytes

lengths_agree_example :
    (encoded_record_len_from_header record_bytes ≡ ok 152)
    × (encoded_record_len_from_metadata (metadata_of sample_record 2) ≡ ok 152)
    × (validate_record_footer (drop 130 record_bytes) (crc32c (b'h' ∷ b'i' ∷ [])) 150 ≡ ok tt)
lengths_agree_example =
    lengths_agree record_bytes sample_record 152 record_bytes-AreBytes record_bytes-decoded

crc32c_serial_example :
    crc32c (1 ∷ 2 ∷ 255 ∷ []) ≡ 2 ^ 32 - 1 - shift_bytes (2 ^ 32 - 1) (1 ∷ 2 ∷ 255 ∷ [])
crc32c_serial_example =
    crc32c_serial (1 ∷ 2 ∷ 255 ∷ []) (are_bytes-AreBytes (1 ∷ 2 ∷ 255 ∷ []) refl)

-- The check value of CRC-32C
crc32c_check :
    crc32c (b'1' ∷ b'2' ∷ b'3' ∷ b'4' ∷ b'5' ∷ b'6' ∷ b'7' ∷ b'8' ∷ b'9' ∷ []) ≡ 0xe306_9283
unfolding crc32c
crc32c_check = refl
