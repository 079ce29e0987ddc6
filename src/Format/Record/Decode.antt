-- ===== src/Format/Record/Decode.antt =====
-- `decode_record` reads back what `encode_record` wrote.
use gitdb.Base.{
  ℕ, ◌+◌, ◌-◌, ◌<◌, ◌^◌, ◌≡◌, refl, ap, ◌∙◌, arith, ◌++◌, append_assoc, lt→ltb, le→ltb, ==_refl,
  length, length-append, length-replicate,
}
use gitdb.Base.Bytes.{
  Bytes, bytes_eq_refl, any_nonzero-replicate, be, length-be, from_be-be, slice, read_be,
}
use gitdb.Base.Cuts.{slice_middle}
use gitdb.Base.Result.{ok}
use gitdb.Format.{FormatError, checked_add, align, u64_try_from, usize_try_from, record_end_magic}
use gitdb.Format.Crc.{crc32c, crc32c-lt}
use gitdb.Format.Record.{
  ObjectRecord, RecordMetadata, checked_sub, decode_record, decode_record_metadata,
}
use gitdb.Format.Record.Accepted.{header_of, decode-header_of}
use gitdb.Format.Record.Layout.{metadata_of, header_crc, length-header}
use gitdb.Format.Record.RoundTrip.{
  IsRecord, total_of, padded_of, zeros, body_of, encoded_of, checked_total-some, length-encoded,
}

-- A slice of a sequence that is cut in three.
pub part :
    (bytes xs ys zs : Bytes) (from to : ℕ)
    → bytes ≡ xs ++ (ys ++ zs)
    → length xs ≡ from
    → from + length ys ≡ to
    → slice {E = FormatError} bytes from to ≡ ok ys
part bytes xs ys zs from to e h k = ap (λ t. slice t from to) e ∙ slice_middle xs ys zs from to h k

pub read_part :
    (n v : ℕ) (bytes xs zs : Bytes) (from : ℕ)
    → bytes ≡ xs ++ (be n v ++ zs)
    → length xs ≡ from
    → v < 256 ^ n
    → read_be {E = FormatError} n bytes from ≡ ok v
read_part n v bytes xs zs from e h fits = rw (
  part bytes xs (be n v) zs from (from + n) e h (omega (arith, length-be n v)),
  from_be-be n v fits,
)

module _ (r : ObjectRecord) (v : IsRecord r) (rest : Bytes) where
  abbrev meta : RecordMetadata
  meta = metadata_of r (length r.payload)

  abbrev p : ℕ
  p = length r.payload

  abbrev total : ℕ
  total = total_of r

  abbrev pad : ℕ
  pad = padded_of r - total_of r

  abbrev head : Bytes
  head = header_of meta

  abbrev pcrc : Bytes
  pcrc = be 4 (crc32c r.payload)

  abbrev input : Bytes
  input = encoded_of r ++ rest

  size_head : length head ≡ 128
  size_head = length-header meta v.metadata (header_crc meta)

  size_input : length input ≡ padded_of r + length rest
  size_input = omega (arith, length-append (encoded_of r) rest, (length-encoded r v).0)

  abbrev front3 : Bytes
  front3 = (head ++ r.payload) ++ pcrc

  abbrev front4 : Bytes
  front4 = front3 ++ be 8 total

  abbrev front5 : Bytes
  front5 = front4 ++ record_end_magic

  size3 : length front3 ≡ 132 + p
  size3 = omega (
    arith,
    length-append (head ++ r.payload) pcrc,
    length-append head r.payload,
    size_head,
    length-be 4 (crc32c r.payload),
  )

  size4 : length front4 ≡ 140 + p
  size4 = omega (arith, length-append front3 (be 8 total), size3, length-be 8 total)

  size5 : length front5 ≡ total
  size5 = omega (arith, length-append front4 record_end_magic, size4)

  pub metadata_read : decode_record_metadata input ≡ ok meta
  metadata_read =
      ap decode_record_metadata (append_assoc head (body_of r.payload total pad) rest)
      ∙ decode-header_of meta (body_of r.payload total pad ++ rest) v.metadata

  payload_cut : slice {E = FormatError} input 128 (128 + p) ≡ ok r.payload
  payload_cut =
      part input head r.payload (pcrc ++ (be 8 total ++ (record_end_magic ++ (zeros pad ++ rest))))
        128 (128 + p) (simp append_assoc) size_head refl

  crc_read : read_be {E = FormatError} 4 input (total - 20) ≡ ok (crc32c r.payload)
  crc_read =
      read_part 4 (crc32c r.payload) input (head ++ r.payload)
        (be 8 total ++ (record_end_magic ++ (zeros pad ++ rest))) (total - 20) (simp append_assoc)
        (omega (arith, length-append head r.payload, size_head)) (crc32c-lt r.payload)

  total_read : read_be {E = FormatError} 8 input (total - 20 + 4) ≡ ok total
  total_read =
      read_part 8 total input front3 (record_end_magic ++ (zeros pad ++ rest)) (total - 20 + 4)
        (simp append_assoc) (omega (arith, size3)) (omega (arith, v.total_fits))

  end_cut : slice {E = FormatError} input (total - 20 + 12) total ≡ ok record_end_magic
  end_cut =
      part input front4 record_end_magic (zeros pad ++ rest) (total - 20 + 12) total
        (simp append_assoc) (omega (arith, size4)) (omega arith)

  padding_cut : slice {E = FormatError} input total (padded_of r) ≡ ok (zeros pad)
  padding_cut =
      part input front5 (zeros pad) rest total (padded_of r) (simp append_assoc) size5
        (omega (arith, length-replicate {A = ℕ} pad 0, length-encoded r v))

  -- A valid record that was encoded is decoded to itself, whatever bytes follow it, and the number of
  -- consumed bytes is the length of its encoding.
  pub decode-encoded_of : decode_record (encoded_of r ++ rest) ≡ ok (r, padded_of r)
  unfolding decode_record usize_try_from u64_try_from checked_sub align checked_add
  decode-encoded_of = rw (
    metadata_read,
    lt→ltb p (2 ^ 64) (omega (arith, v.total_fits)),
    checked_total-some p (omega (arith, v.total_fits)),
    le→ltb total 20 (omega arith),
    le→ltb (length input) total (omega (arith, size_input, length-encoded r v)),
    total_read,
    lt→ltb total (2 ^ 64) (omega (arith, v.total_fits)),
    ==_refl total,
    end_cut,
    bytes_eq_refl record_end_magic,
    payload_cut,
    crc_read,
    ==_refl (crc32c r.payload),
    lt→ltb (total + 7) (2 ^ 64) (omega (arith, v.total_fits)),
    le→ltb (length input) (padded_of r) (omega (arith, size_input)),
    padding_cut,
    any_nonzero-replicate pad,
  )
