-- ===== src/Format/Record/Lengths.antt =====
-- The record length from the header alone, from the metadata alone, and from the whole record.
use gitdb.Base.{
  ℕ, ◌+◌, ◌-◌, ◌≤◌, ◌<◌, ◌^◌, ◌≡◌, refl, sym, ap, ◌∙◌, arith, [], ◌++◌, append_assoc, lt→ltb,
  le→ltb, ==_refl, length, take, drop, replicate, length-append, length-take, drop-append,
  take-append-drop,
}
use gitdb.Base.Bytes.{Bytes, AreBytes, bytes_eq_refl, be, length-be, slice, read_be}
use gitdb.Base.Result.{ok}
use gitdb.Format.{FormatError, checked_add, align, align_u64, usize_try_from, record_end_magic}
use gitdb.Format.Crc.{crc32c, crc32c-lt}
use gitdb.Format.Record.{
  ObjectRecord, encode_record, decode_record, decode_record_metadata,
  encoded_record_len_from_header, encoded_record_len_from_metadata, validate_record_footer,
}
use gitdb.Format.Record.Accepted.{header_of}
use gitdb.Format.Record.Canonical.{decode_record_iff}
use gitdb.Format.Record.Decode.{part, read_part, metadata_read}
use gitdb.Format.Record.Layout.{metadata_of, header_crc, length-header}
use gitdb.Format.Record.RoundTrip.{
  IsRecord, total_of, padded_of, encoded_of, checked_total-some, encode-layout, length-encoded,
}

module _ (r : ObjectRecord) (v : IsRecord r) where
  pub len_from_metadata_read :
      (bytes : Bytes)
      → decode_record_metadata bytes ≡ ok (metadata_of r (length r.payload))
      → encoded_record_len_from_header bytes ≡ ok (padded_of r)
  unfolding encoded_record_len_from_header usize_try_from align checked_add
  len_from_metadata_read bytes e = rw (
    e,
    lt→ltb (length r.payload) (2 ^ 64) (omega (arith, v.total_fits)),
    checked_total-some (length r.payload) (omega (arith, v.total_fits)),
    lt→ltb (total_of r + 7) (2 ^ 64) (omega (arith, v.total_fits)),
  )

  len_from_header :
      (rest : Bytes) → encoded_record_len_from_header (encoded_of r ++ rest) ≡ ok (padded_of r)
  len_from_header rest = len_from_metadata_read (encoded_of r ++ rest) (metadata_read r v rest)

  len_from_metadata :
      encoded_record_len_from_metadata (metadata_of r (length r.payload)) ≡ ok (padded_of r)
  unfolding encoded_record_len_from_metadata align_u64 checked_add
  len_from_metadata = rw (
    checked_total-some (length r.payload) (omega (arith, v.total_fits)),
    lt→ltb (total_of r + 7) (2 ^ 64) (omega (arith, v.total_fits)),
  )

-- The footer's twenty bytes, with anything behind them.
abbrev footer_bytes : ℕ → ℕ → Bytes → Bytes
footer_bytes crc total behind = be 4 crc ++ (be 8 total ++ (record_end_magic ++ behind))

module _ (crc total : ℕ) (behind : Bytes) (crc_fits : crc < 256 ^ 4)
    (total_fits : total < 256 ^ 8) where
  whole : Bytes
  whole = be 4 crc ++ (be 8 total ++ record_end_magic)

  size_numbers : length (be 4 crc ++ be 8 total) ≡ 12
  size_numbers =
      omega (arith, length-append (be 4 crc) (be 8 total), length-be 4 crc, length-be 8 total)

  size_whole : length whole ≡ 20
  unfolding whole
  size_whole =
      ap length (sym (append_assoc (be 4 crc) (be 8 total) record_end_magic))
      ∙ omega (arith, length-append (be 4 crc ++ be 8 total) record_end_magic, size_numbers)

  footer_cut : slice {E = FormatError} (footer_bytes crc total behind) 0 20 ≡ ok whole
  unfolding whole
  footer_cut =
      part (footer_bytes crc total behind) [] whole behind 0 20 (simp append_assoc) refl
        (omega (arith, size_whole))

  crc_read : read_be {E = FormatError} 4 whole 0 ≡ ok crc
  unfolding whole
  crc_read = read_part 4 crc whole [] (be 8 total ++ record_end_magic) 0 refl refl crc_fits

  total_read : read_be {E = FormatError} 8 whole 4 ≡ ok total
  unfolding whole
  total_read =
      read_part 8 total whole (be 4 crc) record_end_magic 4 refl (length-be 4 crc) total_fits

  end_cut : slice {E = FormatError} whole 12 20 ≡ ok record_end_magic
  unfolding whole
  end_cut =
      part whole (be 4 crc ++ be 8 total) record_end_magic [] 12 20 (simp append_assoc) size_numbers
        refl

  footer_long : 20 ≤ length (footer_bytes crc total behind)
  unfolding whole
  footer_long =
      let split : footer_bytes crc total behind ≡ whole ++ behind = simp append_assoc in
      omega (arith, ap length split, length-append whole behind, size_whole)

  footer_accepted : validate_record_footer (footer_bytes crc total behind) crc total ≡ ok tt
  unfolding validate_record_footer
  footer_accepted = rw (
    le→ltb (length (footer_bytes crc total behind)) 20 footer_long,
    footer_cut,
    crc_read,
    ==_refl crc,
    total_read,
    ==_refl total,
    end_cut,
    bytes_eq_refl record_end_magic,
  )

-- Where `decode_record` accepts a record of `n` bytes, the length computed from the header alone is
-- `n`, so is the one from the metadata, and the footer check of a streaming reader accepts the
-- bytes behind the payload with the payload's checksum and the unpadded length.
pub lengths_agree :
    (input : Bytes) (r : ObjectRecord) (n : ℕ)
    → AreBytes input
    → decode_record input ≡ ok (r, n)
    → (encoded_record_len_from_header input ≡ ok n)
      × (encoded_record_len_from_metadata (metadata_of r (length r.payload)) ≡ ok n)
      × (validate_record_footer
            (drop (128 + length r.payload) input)
            (crc32c r.payload)
            (128 + length r.payload + 20)
          ≡ ok tt)
lengths_agree input r n bytes_in e = (
  ap encoded_record_len_from_header split ∙ len_from_header r v (drop n input) ∙ ap ok (sym n_eq),
  len_from_metadata r v ∙ ap ok (sym n_eq),
  ap (λ t. validate_record_footer t (crc32c r.payload) (total_of r)) behind_payload
      ∙ footer_accepted (crc32c r.payload) (total_of r) (padding ++ drop n input)
          (crc32c-lt r.payload) (omega (arith, v.total_fits)),
)
  where
    facts : IsRecord r × (encode_record r ≡ ok (take n input)) × (n ≤ length input)
    facts = (decode_record_iff input r n bytes_in).0 e

    v : IsRecord r
    v = facts.0

    front : take n input ≡ encoded_of r
    front = cc (facts.1, encode-layout r v)

    n_eq : n ≡ padded_of r
    n_eq = omega (arith, ap length front, length-take n input, (length-encoded r v).0, facts.2)

    split : input ≡ encoded_of r ++ drop n input
    split = sym (take-append-drop n input) ∙ ap (λ t. t ++ drop n input) front

    padding : Bytes
    padding = replicate (padded_of r - total_of r) 0

    head : Bytes
    head = header_of (metadata_of r (length r.payload))

    behind_payload :
        drop (128 + length r.payload) input
        ≡ footer_bytes (crc32c r.payload) (total_of r) (padding ++ drop n input)
    behind_payload =
        ap (drop (128 + length r.payload)) (split ∙ simp append_assoc)
        ∙ drop-append (128 + length r.payload) (head ++ r.payload)
            (footer_bytes (crc32c r.payload) (total_of r) (padding ++ drop n input))
            (omega (
              arith,
              length-append head r.payload,
              length-header (metadata_of r (length r.payload)) v.metadata
                  (header_crc (metadata_of r (length r.payload))),
            ))
