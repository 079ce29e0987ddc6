-- ===== src/Format/Record/Accepted.antt =====
-- `decode_record_metadata` on any input: no panic, and it accepts only encodings.
use gitdb.Base.{
  ℕ, ◌≡◌, ◌≢◌, ◌↔◌, sym, ap, ◌∙◌, arith, false, not, some, [], ◌++◌, ltb, le→ltb, ◌==◌, ==_iff,
  length, take, drop, length-append, take-append-drop,
}
use gitdb.Base.Bytes.{
  Bytes, AreBytes, bytes_eq, bytes_eq_iff, any_nonzero, slice, slice-append, length-slice, read_be,
  byte_at,
}
use gitdb.Base.Cuts.{
  slice-AreBytes, slice-drop, slice-eq_take, read_be-drop, byte_at-drop, zero_tail,
}
use gitdb.Base.Ensures.{
  Ensures, returns, Ensures-ok, Ensures-ne-panic, ensure_step, ensure_reject, ensure_slice,
  ensure_read, ensure_byte, ensure_some,
}
use gitdb.Base.Result.{ok, panic}
use gitdb.Core.{kind_from_tag}
use gitdb.Core.Laws.{kind_from_tag_iff}
use gitdb.Format.{
  FormatError, truncated, bad_magic, header_crc_mismatch, non_zero_reserved, invalid_object_kind,
  invalid_codec, codec_from_tag, codec_from_tag_iff, record_magic, check_version,
  check_version-IsSafe, check_version-eq_ok, check_header_len, check_header_len-IsSafe,
  check_header_len-eq_ok,
}
use gitdb.Format.Crc.{crc32c_with_zeroed_field}
use gitdb.Format.Record.{RecordMetadata, decode_record_metadata}
use gitdb.Format.Record.Header.{decode_written}
use gitdb.Format.Record.Layout.{IsMetadata, header_then, header_crc, length-header, zeroed-header}
use gitdb.Format.Record.Oid.{encode_oid-layout, decode_oid-Ensures, OidRead}

-- What the decoder has read of the fixed part of a record that it accepts.
record Accepted (input : Bytes) (m : RecordMetadata) : Type 0 where
  header : Bytes
  cut : slice {E = FormatError} input 0 128 ≡ ok header
  size : length header ≡ 128
  prefix : Bytes
  prefix_cut : slice {E = FormatError} header 0 4 ≡ ok prefix
  magic : not (bytes_eq prefix record_magic) ≡ false
  version : ℕ
  version_read : read_be {E = FormatError} 2 header 4 ≡ ok version
  version_ok : check_version version ≡ ok tt
  header_len : ℕ
  header_len_read : read_be {E = FormatError} 2 header 6 ≡ ok header_len
  header_len_ok : check_header_len header_len 128 ≡ ok tt
  crc : ℕ
  crc_read : read_be {E = FormatError} 4 header 94 ≡ ok crc
  crc_ok : not (crc == crc32c_with_zeroed_field header 94 4) ≡ false
  tail : Bytes
  tail_cut : slice {E = FormatError} header 98 (length header) ≡ ok tail
  tail_zero : any_nonzero tail ≡ false
  kind_byte : ℕ
  kind_read : byte_at {E = FormatError} header 8 ≡ ok kind_byte
  kind_known : kind_from_tag kind_byte ≡ some m.kind
  codec_byte : ℕ
  codec_read : byte_at {E = FormatError} header 9 ≡ ok codec_byte
  codec_known : codec_from_tag codec_byte ≡ some m.codec
  flags : read_be {E = FormatError} 2 header 10 ≡ ok m.flags
  raw_length : read_be {E = FormatError} 8 header 12 ≡ ok m.raw_length
  stored_length : read_be {E = FormatError} 8 header 20 ≡ ok m.stored_length
  content : slice {E = FormatError} header 28 60 ≡ ok m.content_id.content_bytes
  oid_bytes : Bytes
  oid_cut : slice {E = FormatError} header 60 94 ≡ ok oid_bytes
  oid_read : OidRead oid_bytes m.primary_oid

decode-Ensures :
    (input : Bytes) → AreBytes input → Ensures (Accepted input) (decode_record_metadata input)
unfolding decode_record_metadata
decode-Ensures input in_bytes = ensure_reject (ltb (length input) 128) truncated λ long.
    ensure_slice input 0 128 (omega arith) (ground arith) λ header cut.
      let size : length header ≡ 128 = omega (arith, length-slice input 0 128 cut) in
      ensure_slice header 0 4 (omega arith) (omega arith) λ prefix prefix_cut.
        ensure_reject (not (bytes_eq prefix record_magic)) bad_magic λ magic.
          ensure_read 2 header 4 (omega arith) λ version version_read.
            ensure_step _ (check_version-IsSafe version) λ _ version_ok.
              ensure_read 2 header 6 (omega arith) λ header_len header_len_read.
                ensure_step _ (check_header_len-IsSafe header_len 128) λ _ header_len_ok.
                  ensure_read 4 header 94 (omega arith) λ crc crc_read.
                    ensure_reject (not (crc == crc32c_with_zeroed_field header 94 4))
                      header_crc_mismatch
                      λ crc_ok.
                        ensure_slice header 98 (length header) (omega arith) (omega arith)
                          λ tail tail_cut.
                            ensure_reject (any_nonzero tail) non_zero_reserved λ tail_zero.
                              ensure_byte header 8 (omega arith) λ kind_byte kind_read.
                                ensure_some (kind_from_tag kind_byte)
                                  (invalid_object_kind kind_byte)
                                  λ kind kind_known.
                                    ensure_byte header 9 (omega arith) λ codec_byte codec_read.
                                      ensure_some (codec_from_tag codec_byte)
                                        (invalid_codec codec_byte)
                                        λ codec codec_known.
                                          ensure_read 2 header 10 (omega arith) λ flags e1.
                                            ensure_read 8 header 12 (omega arith) λ raw_length e2.
                                              ensure_read 8 header 20 (omega arith)
                                                λ stored_length e3.
                                                  ensure_slice header 28 60 (omega arith)
                                                    (omega arith)
                                                    λ content content_cut.
                                                      ensure_slice header 60 94 (omega arith)
                                                        (omega arith)
                                                        λ oid_bytes oid_cut.
                                                          let oid_size : length oid_bytes ≡ 34 =
                                                            omega (
                                                            arith,
                                                            length-slice header 60 94 oid_cut,
                                                            ) in
                                                          let header_bytes =
                                                            slice-AreBytes input 0 128 in_bytes
                                                            cut in
                                                          let oid_are_bytes =
                                                            slice-AreBytes header 60 94 header_bytes
                                                            oid_cut in
                                                          let oid =
                                                            decode_oid-Ensures oid_bytes oid_size
                                                            oid_are_bytes in
                                                          ensure_step _
                                                            (record {
                                                            no_panic = Ensures-ne-panic oid;
                                                            })
                                                            λ primary_oid e4. returns _ (record {
                                                            header = header;
                                                            cut = cut;
                                                            size = size;
                                                            prefix = prefix;
                                                            prefix_cut = prefix_cut;
                                                            magic = magic;
                                                            version = version;
                                                            version_read = version_read;
                                                            version_ok = version_ok;
                                                            header_len = header_len;
                                                            header_len_read = header_len_read;
                                                            header_len_ok = header_len_ok;
                                                            crc = crc;
                                                            crc_read = crc_read;
                                                            crc_ok = crc_ok;
                                                            tail = tail;
                                                            tail_cut = tail_cut;
                                                            tail_zero = tail_zero;
                                                            kind_byte = kind_byte;
                                                            kind_read = kind_read;
                                                            kind_known = kind_known;
                                                            codec_byte = codec_byte;
                                                            codec_read = codec_read;
                                                            codec_known = codec_known;
                                                            flags = e1;
                                                            raw_length = e2;
                                                            stored_length = e3;
                                                            content = content_cut;
                                                            oid_bytes = oid_bytes;
                                                            oid_cut = oid_cut;
                                                            oid_read =
                                                            Ensures-ok primary_oid oid e4;
                                                            })

module _ {input : Bytes} {m : RecordMetadata} (bytes_in : AreBytes input)
    (a : Accepted input m) where
  header_bytes : AreBytes a.header
  header_bytes = slice-AreBytes input 0 128 bytes_in a.cut

  in_range : IsMetadata m
  in_range = record {
    flags_fits = (read_be-drop 2 a.header 10 header_bytes a.flags).1;
    raw_length_fits = (read_be-drop 8 a.header 12 header_bytes a.raw_length).1;
    stored_length_fits = (read_be-drop 8 a.header 20 header_bytes a.stored_length).1;
    content_size = omega (arith, length-slice a.header 28 60 a.content);
    content_AreBytes = slice-AreBytes a.header 28 60 header_bytes a.content;
    oid_IsOid = a.oid_read.0;
  }

  layout : a.header ≡ header_then m a.crc []
  layout = cc (
    slice-drop a.header 0 4 a.prefix_cut,
    (bytes_eq_iff a.prefix record_magic).0 (ground arith),
    (read_be-drop 2 a.header 4 header_bytes a.version_read).0,
    check_version-eq_ok a.version a.version_ok,
    (read_be-drop 2 a.header 6 header_bytes a.header_len_read).0,
    check_header_len-eq_ok a.header_len 128 a.header_len_ok,
    byte_at-drop a.header 8 a.kind_read,
    (kind_from_tag_iff a.kind_byte m.kind).0 a.kind_known,
    byte_at-drop a.header 9 a.codec_read,
    (codec_from_tag_iff a.codec_byte m.codec).0 a.codec_known,
    (read_be-drop 2 a.header 10 header_bytes a.flags).0,
    (read_be-drop 8 a.header 12 header_bytes a.raw_length).0,
    (read_be-drop 8 a.header 20 header_bytes a.stored_length).0,
    slice-drop a.header 28 60 a.content,
    slice-drop a.header 60 94 a.oid_cut,
    a.oid_read.1,
    encode_oid-layout m.primary_oid a.oid_read.0,
    (read_be-drop 4 a.header 94 header_bytes a.crc_read).0,
    zero_tail a.header 98 30 a.tail_cut a.tail_zero a.size,
  )

  encoded : a.header ≡ header_then m (header_crc m) []
  encoded = layout ∙ ap (λ crc. header_then m crc []) checksum
    where
      checksum : a.crc ≡ header_crc m
      checksum =
          (==_iff a.crc _).0 (ground arith)
          ∙ ap (λ t. crc32c_with_zeroed_field t 94 4) layout
          ∙ zeroed-header m in_range a.crc

-- The decoder reads the first 128 bytes alone.
decode_fixed :
    (bytes rest : Bytes)
    → length bytes ≡ 128
    → decode_record_metadata (bytes ++ rest) ≡ decode_record_metadata bytes
unfolding decode_record_metadata
decode_fixed bytes rest h = rw (
  le→ltb (length (bytes ++ rest)) 128 (omega (arith, length-append bytes rest)),
  le→ltb (length bytes) 128 (omega arith),
  slice-append {E = FormatError} bytes rest 0 128 (omega arith),
)

-- The bytes that stand for valid metadata.
abbrev pub header_of : RecordMetadata → Bytes
header_of m = header_then m (header_crc m) []

pub decode-header_of :
    (m : RecordMetadata) (rest : Bytes)
    → IsMetadata m
    → decode_record_metadata (header_of m ++ rest) ≡ ok m
decode-header_of m rest v =
    decode_fixed (header_of m) rest (length-header m v (header_crc m)) ∙ decode_written m v

-- On any bytes, the header decoder returns `m` exactly when the first 128 bytes are the header of `m`
-- and the fields of `m` have the ranges and lengths of their types.
pub decode_record_metadata_iff :
    (input : Bytes) (m : RecordMetadata)
    → AreBytes input
    → (decode_record_metadata input ≡ ok m) ↔ ((take 128 input ≡ header_of m) × IsMetadata m)
decode_record_metadata_iff input m bytes_in = (forth, back)
  where
    forth : decode_record_metadata input ≡ ok m → (take 128 input ≡ header_of m) × IsMetadata m
    forth e =
        let a = Ensures-ok m (decode-Ensures input bytes_in) e in
        (sym (slice-eq_take input 128 a.cut) ∙ encoded bytes_in a, in_range bytes_in a)

    back : (take 128 input ≡ header_of m) × IsMetadata m → decode_record_metadata input ≡ ok m
    back (front, v) =
        ap decode_record_metadata
          (sym (take-append-drop 128 input) ∙ ap (λ t. t ++ drop 128 input) front)
        ∙ decode-header_of m (drop 128 input) v

-- The header decoder returns a value or an error, and does not panic, on any bytes.
pub decode_record_metadata-ne-panic :
    (input : Bytes) → AreBytes input → decode_record_metadata input ≢ panic
decode_record_metadata-ne-panic input bytes_in = Ensures-ne-panic (decode-Ensures input bytes_in)
