-- ===== src/Format/Record/Header.antt =====
-- `decode_record_metadata`: the headers that it accepts are the encodings of the metadata it returns.
use gitdb.Base.{
  ℕ, ◌+◌, ◌≤◌, ◌<◌, ◌^◌, ◌≡◌, refl, sym, ap, ◌∙◌, arith, [], ◌++◌, append_assoc, le→ltb, ==_refl,
  length, take, drop, replicate, length-append, take-append, drop-append,
}
use gitdb.Base.Bytes.{
  Bytes, bytes_eq_refl, any_nonzero-replicate, be, length-be, slice, read_be, byte_at,
}
use gitdb.Base.Cuts.{slice_field, slice_end, read_field, byte_field}
use gitdb.Base.Result.{ok}
use gitdb.Core.{kind_tag}
use gitdb.Core.Laws.{kind_from_tag_iff}
use gitdb.Format.{
  FormatError, codec_tag, codec_from_tag_iff, record_magic, check_version, check_header_len,
}
use gitdb.Format.Record.{RecordMetadata, decode_record_metadata, decode_oid_fixed}
use gitdb.Format.Record.Layout.{
  IsMetadata, fixed_oid, length-fixed_oid, header_then, header_crc, header_crc-lt, start_split,
  checked_start, length-checked_start, length-header, zeroed-header,
}
use gitdb.Format.Record.Oid.{encode_oid-layout, decode_oid-layout}

module _ (m : RecordMetadata) (v : IsMetadata m) where
  -- The header that is written for `m`.
  abbrev written : Bytes
  written = header_then m (header_crc m) []

  abbrev behind_content : Bytes
  behind_content = fixed_oid m.primary_oid ++ (be 4 (header_crc m) ++ replicate 30 0)

  content_cut : slice {E = FormatError} written 28 60 ≡ ok m.content_id.content_bytes
  unfolding be
  content_cut =
      slice_field written m.content_id.content_bytes 28 60 (omega arith)
        (omega (arith, length-header m v (header_crc m)))
        (take-append 32 m.content_id.content_bytes behind_content v.content_size)

  oid_cut : slice {E = FormatError} written 60 94 ≡ ok (fixed_oid m.primary_oid)
  unfolding be
  oid_cut =
      slice_field written (fixed_oid m.primary_oid) 60 94 (omega arith)
        (omega (arith, length-header m v (header_crc m)))
        (ap (take 34) (drop-append 32 m.content_id.content_bytes behind_content v.content_size)
          ∙ take-append 34 (fixed_oid m.primary_oid) _ (length-fixed_oid m.primary_oid v.oid_IsOid))

  behind_oid : drop 94 written ≡ be 4 (header_crc m) ++ replicate 30 0
  behind_oid =
      ap (drop 94) (start_split m (header_crc m) [])
      ∙ drop-append 94 (checked_start m) _ (length-checked_start m v)

  size_written : length written ≡ 128
  size_written = length-header m v (header_crc m)

  crc_read : read_be {E = FormatError} 4 written 94 ≡ ok (header_crc m)
  crc_read =
      read_field 4 written 94 (header_crc m) (omega (arith, size_written)) (header_crc-lt m)
        (ap (take 4) behind_oid ∙ take-append 4 (be 4 (header_crc m)) _ (length-be 4 _))

  reserved_cut : slice {E = FormatError} written 98 (length written) ≡ ok (replicate 30 0)
  reserved_cut =
      ap (λ t. slice t 98 (length written))
        (start_split m (header_crc m) []
          ∙ sym (append_assoc (checked_start m) (be 4 (header_crc m)) _))
      ∙ slice_end (checked_start m ++ be 4 (header_crc m)) (replicate 30 0) 98 (length written)
          (omega (
            arith,
            length-append (checked_start m) (be 4 (header_crc m)),
            length-checked_start m v,
            length-be 4 (header_crc m),
          ))
          (omega (arith, size_written))

  -- A field among the first 28 bytes.
  early_field :
      (n from value : ℕ)
      → from + n ≤ 128
      → value < 256 ^ n
      → take n (drop from written) ≡ be n value
      → read_be {E = FormatError} n written from ≡ ok value
  early_field n from value h fits e =
      read_field n written from value (omega (arith, size_written)) fits e

  flags_read : read_be {E = FormatError} 2 written 10 ≡ ok m.flags
  unfolding be
  flags_read = early_field 2 10 m.flags (omega arith) v.flags_fits refl

  raw_length_read : read_be {E = FormatError} 8 written 12 ≡ ok m.raw_length
  unfolding be
  raw_length_read = early_field 8 12 m.raw_length (omega arith) v.raw_length_fits refl

  stored_length_read : read_be {E = FormatError} 8 written 20 ≡ ok m.stored_length
  unfolding be
  stored_length_read = early_field 8 20 m.stored_length (omega arith) v.stored_length_fits refl

  version_read : read_be {E = FormatError} 2 written 4 ≡ ok 1
  unfolding be
  version_read = early_field 2 4 1 (omega arith) (omega arith) refl

  header_len_read : read_be {E = FormatError} 2 written 6 ≡ ok 128
  unfolding be
  header_len_read = early_field 2 6 128 (omega arith) (omega arith) refl

  kind_read : byte_at {E = FormatError} written 8 ≡ ok (kind_tag m.kind)
  unfolding be
  kind_read = byte_field written 8 (kind_tag m.kind) refl

  codec_read : byte_at {E = FormatError} written 9 ≡ ok (codec_tag m.codec)
  unfolding be
  codec_read = byte_field written 9 (codec_tag m.codec) refl

  oid_read : decode_oid_fixed (fixed_oid m.primary_oid) ≡ ok m.primary_oid
  oid_read =
      ap decode_oid_fixed (encode_oid-layout m.primary_oid v.oid_IsOid)
      ∙ decode_oid-layout m.primary_oid.algorithm v.oid_IsOid.raw v.oid_IsOid.raw_length
      ∙ ap ok (sym v.oid_IsOid.made)

  pub decode_written : decode_record_metadata written ≡ ok m
  unfolding decode_record_metadata check_version check_header_len
  decode_written = rw (
    le→ltb (length written) 128 (omega (arith, size_written)),
    slice_end {E = FormatError} [] written 0 128 refl (omega (arith, size_written)),
    slice_field {E = FormatError} written record_magic 0 4 (omega arith)
        (omega (arith, size_written)) refl,
    bytes_eq_refl record_magic,
    version_read,
    header_len_read,
    crc_read,
    zeroed-header m v (header_crc m),
    ==_refl (header_crc m),
    reserved_cut,
    any_nonzero-replicate 30,
    kind_read,
    (kind_from_tag_iff (kind_tag m.kind) m.kind).1 refl,
    codec_read,
    (codec_from_tag_iff (codec_tag m.codec) m.codec).1 refl,
    flags_read,
    raw_length_read,
    stored_length_read,
    content_cut,
    oid_cut,
    oid_read,
  )
