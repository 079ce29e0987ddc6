-- ===== src/Format/Chunk/RoundTrip.antt =====
-- Chunk headers: what `encode` writes, `decode` reads back.
use gitdb.Base.{
  ℕ, ◌<◌, ◌^◌, ◌≡◌, refl, ◌∙◌, arith, ◌++◌, ==_refl, le→ltb, length, replicate, length-append,
}
use gitdb.Base.Bytes.{Bytes, bytes_eq, any_nonzero, be, from_be-be, slice, slice-append, put_at}
use gitdb.Base.Result.{ok}
use gitdb.Format.{FormatError, chunk_magic, check_version, check_header_len, chunk_crc_offset}
use gitdb.Format.Crc.{crc32c, crc32c_with_zeroed_field, crc32c_with_zeroed_field-lt}
use gitdb.Format.Chunk.{ChunkHeader, unsealed_header, encode_chunk_header, decode_chunk_header}

-- The fields fit their integer types.
pub record IsHeader (h : ChunkHeader) : Type 0 where
  pub generation_fits : h.generation < 256 ^ 4
  pub chunk_id_fits : h.chunk_id < 256 ^ 8
  pub created_fits : h.created_unix_secs < 256 ^ 8
  pub flags_fits : h.flags < 256 ^ 4

-- The table of docs/format-v1.md, with `crc` in the checksum field.
abbrev pub header_layout : ChunkHeader → ℕ → Bytes
header_layout h crc =
    chunk_magic
    ++ (be 2 1
        ++ (be 2 64
            ++ (be 4 h.generation
                ++ (be 8 h.chunk_id
                    ++ (be 8 h.created_unix_secs
                        ++ (be 4 h.flags ++ (be 4 crc ++ replicate 24 0)))))))

-- The checksum in the header is that of the header with zeros in the checksum's place.
pub header_crc : ChunkHeader → ℕ
header_crc h = crc32c (header_layout h 0)

pub encode-layout : (h : ChunkHeader) → encode_chunk_header h ≡ header_layout h (header_crc h)
unfolding encode_chunk_header header_crc crc32c_with_zeroed_field
encode-layout h = refl

pub zeroed-layout :
    (h : ChunkHeader) (crc : ℕ) → crc32c_with_zeroed_field (header_layout h crc) 36 4 ≡ header_crc h
unfolding crc32c_with_zeroed_field header_crc put_at be
zeroed-layout h crc = refl

pub length-encode : (h : ChunkHeader) → length (encode_chunk_header h) ≡ 64
unfolding encode_chunk_header
length-encode h = refl

-- `decode` sees the first 64 bytes alone.
decode_fixed :
    (bytes rest : Bytes)
    → length bytes ≡ 64
    → decode_chunk_header (bytes ++ rest) ≡ decode_chunk_header bytes
unfolding decode_chunk_header
decode_fixed bytes rest h =
    rw
      (
        le→ltb (length (bytes ++ rest)) 64 (omega (arith, length-append bytes rest)),
        le→ltb (length bytes) 64 (omega arith),
        slice-append {E = FormatError} bytes rest 0 64 (omega arith),
      )
      refl

decode-encode_fixed :
    (h : ChunkHeader) → IsHeader h → decode_chunk_header (encode_chunk_header h) ≡ ok h
unfolding encode_chunk_header decode_chunk_header slice bytes_eq check_version check_header_len
    any_nonzero crc32c_with_zeroed_field
decode-encode_fixed h v =
    let crc = crc32c_with_zeroed_field (unsealed_header h) chunk_crc_offset 4 in
    rw (
      from_be-be 2 1 (omega arith),
      from_be-be 2 64 (omega arith),
      from_be-be 4 crc (crc32c_with_zeroed_field-lt (unsealed_header h) chunk_crc_offset 4),
      ==_refl crc,
      from_be-be 4 h.generation v.generation_fits,
      from_be-be 8 h.chunk_id v.chunk_id_fits,
      from_be-be 8 h.created_unix_secs v.created_fits,
      from_be-be 4 h.flags v.flags_fits,
    )

-- Decoding what `encode` wrote, with any bytes behind it, gives the header back.
pub decode-encode :
    (h : ChunkHeader) (rest : Bytes)
    → IsHeader h
    → decode_chunk_header (encode_chunk_header h ++ rest) ≡ ok h
decode-encode h rest v =
    decode_fixed (encode_chunk_header h) rest (length-encode h) ∙ decode-encode_fixed h v
