-- ===== src/Format/Footer/RoundTrip.antt =====
-- Sealed-chunk footers: what `encode` writes, `decode` reads back.
use gitdb.Base.{
  ℕ, ◌<◌, ◌^◌, ◌≡◌, refl, ◌∙◌, arith, ◌++◌, ==_refl, le→ltb, length, replicate, length-append,
}
use gitdb.Base.Bytes.{Bytes, bytes_eq, any_nonzero, be, from_be-be, slice, slice-append, put_at}
use gitdb.Base.Result.{ok}
use gitdb.Format.{
  FormatError, sealed_chunk_footer_magic, check_version, check_header_len,
  sealed_chunk_footer_crc_offset,
}
use gitdb.Format.Crc.{crc32c, crc32c_with_zeroed_field, crc32c_with_zeroed_field-lt}
use gitdb.Format.Footer.{
  SealedChunkFooter, unsealed_footer, encode_chunk_footer, decode_chunk_footer,
}

-- The fields fit their integer types.
pub record IsFooter (f : SealedChunkFooter) : Type 0 where
  pub record_count_fits : f.record_count < 256 ^ 8
  pub final_length_fits : f.final_length < 256 ^ 8
  pub records_crc32c_fits : f.records_crc32c < 256 ^ 4

-- The table of docs/format-v1.md, with `crc` in the checksum field.
abbrev pub footer_layout : SealedChunkFooter → ℕ → Bytes
footer_layout h crc =
    sealed_chunk_footer_magic
    ++ (be 2 1
        ++ (be 2 64
            ++ (be 8 h.record_count
                ++ (be 8 h.final_length
                    ++ (be 4 h.records_crc32c ++ (be 4 crc ++ replicate 28 0))))))

-- The checksum in the footer is that of the footer with zeros in the checksum's place.
pub footer_crc : SealedChunkFooter → ℕ
footer_crc h = crc32c (footer_layout h 0)

pub encode-layout : (h : SealedChunkFooter) → encode_chunk_footer h ≡ footer_layout h (footer_crc h)
unfolding encode_chunk_footer footer_crc crc32c_with_zeroed_field
encode-layout h = refl

pub zeroed-layout :
    (h : SealedChunkFooter) (crc : ℕ)
    → crc32c_with_zeroed_field (footer_layout h crc) 32 4 ≡ footer_crc h
unfolding crc32c_with_zeroed_field footer_crc put_at be
zeroed-layout h crc = refl

pub length-encode : (h : SealedChunkFooter) → length (encode_chunk_footer h) ≡ 64
unfolding encode_chunk_footer
length-encode h = refl

-- `decode` sees the first 64 bytes alone.
decode_fixed :
    (bytes rest : Bytes)
    → length bytes ≡ 64
    → decode_chunk_footer (bytes ++ rest) ≡ decode_chunk_footer bytes
unfolding decode_chunk_footer
decode_fixed bytes rest h =
    rw
      (
        le→ltb (length (bytes ++ rest)) 64 (omega (arith, length-append bytes rest)),
        le→ltb (length bytes) 64 (omega arith),
        slice-append {E = FormatError} bytes rest 0 64 (omega arith),
      )
      refl

decode-encode_fixed :
    (h : SealedChunkFooter) → IsFooter h → decode_chunk_footer (encode_chunk_footer h) ≡ ok h
unfolding encode_chunk_footer decode_chunk_footer slice bytes_eq check_version check_header_len
    any_nonzero crc32c_with_zeroed_field
decode-encode_fixed h v =
    let crc = crc32c_with_zeroed_field (unsealed_footer h) sealed_chunk_footer_crc_offset 4 in
    rw (
      from_be-be 2 1 (omega arith),
      from_be-be 2 64 (omega arith),
      from_be-be 4 crc
          (crc32c_with_zeroed_field-lt (unsealed_footer h) sealed_chunk_footer_crc_offset 4),
      ==_refl crc,
      from_be-be 8 h.record_count v.record_count_fits,
      from_be-be 8 h.final_length v.final_length_fits,
      from_be-be 4 h.records_crc32c v.records_crc32c_fits,
    )

-- Decoding what `encode` wrote, with any bytes behind it, gives the footer back.
pub decode-encode :
    (h : SealedChunkFooter) (rest : Bytes)
    → IsFooter h
    → decode_chunk_footer (encode_chunk_footer h ++ rest) ≡ ok h
decode-encode h rest v =
    decode_fixed (encode_chunk_footer h) rest (length-encode h) ∙ decode-encode_fixed h v
