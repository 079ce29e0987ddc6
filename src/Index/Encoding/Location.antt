-- ===== src/Index/Encoding/Location.antt =====
-- Location values of the catalog: `decode` accepts exactly what `encode` writes.
use gitdb.Base.{
  ℕ, zero, suc, ◌<◌, ◌^◌, ◌≡◌, ◌≢◌, ◌↔◌, refl, sym, ap, ◌∙◌, arith, not, some, [], ◌∷◌, ◌++◌, ◌==◌,
  length, drop,
}
use gitdb.Base.Bytes.{Bytes, AreBytes, be, from_be-be, slice, read_be, byte_at, put_at}
use gitdb.Base.Cuts.{read_be-drop, byte_at-drop}
use gitdb.Base.Ensures.{
  Ensures, returns, Ensures-ok, Ensures-ne-panic, ensure_step, ensure_reject, ensure_some,
  ensure_read, ensure_byte,
}
use gitdb.Base.Result.{ok, panic, IsSafe}
use gitdb.Core.{kind_tag, kind_from_tag}
use gitdb.Core.Laws.{kind_from_tag_iff}
use gitdb.Format.{Codec, codec_tag}
use gitdb.Index.{CatalogError, invalid_encoding, ObjectLocation}
use gitdb.Index.Encoding.{check_version, codec, encode_location_value, decode_location_value}

pub check_version-IsSafe : (version : ℕ) → IsSafe (check_version version)
unfolding check_version
check_version-IsSafe version = record { no_panic = ground arith }

pub check_version-eq_ok : (version : ℕ) → check_version version ≡ ok tt → version ≡ 1
unfolding check_version
check_version-eq_ok version h = ground arith

codec-IsSafe : (t : ℕ) → IsSafe (codec t)
unfolding codec
codec-IsSafe t = record { no_panic = ground arith }

codec_iff : (t : ℕ) (c : Codec) → (codec t ≡ ok c) ↔ (codec_tag c ≡ t)
unfolding codec codec_tag
codec_iff t c = ground arith

pub drop_all : (n : ℕ) (xs : Bytes) → length xs ≡ n → drop n xs ≡ []
drop_all zero [] h = refl
drop_all zero (x ∷ xs) h = absurd (omega (arith, h))
drop_all (suc n) [] h = absurd (omega (arith, h))
drop_all (suc n) (x ∷ xs) h = drop_all n xs (omega (arith, h))

-- The fields fit their integer types.
pub record IsLocation (l : ObjectLocation) : Type 0 where
  pub generation_fits : l.generation < 256 ^ 4
  pub chunk_id_fits : l.chunk_id < 256 ^ 8
  pub offset_fits : l.offset < 256 ^ 8
  pub record_length_fits : l.record_length < 256 ^ 8
  pub stored_length_fits : l.stored_length < 256 ^ 8
  pub raw_length_fits : l.raw_length < 256 ^ 8
  pub flags_fits : l.flags < 256 ^ 2
  pub payload_crc32c_fits : l.payload_crc32c < 256 ^ 4

abbrev value_layout : ObjectLocation → Bytes
value_layout l =
    1
    ∷ (be 4 l.generation
        ++ (be 8 l.chunk_id
            ++ (be 8 l.offset
                ++ (be 8 l.record_length
                    ++ (be 8 l.stored_length
                        ++ (be 8 l.raw_length
                            ++ (kind_tag l.kind
                                ∷ codec_tag l.codec
                                ∷ (be 2 l.flags ++ (be 4 l.payload_crc32c ++ [])))))))))

encode-layout : (l : ObjectLocation) → encode_location_value l ≡ value_layout l
unfolding encode_location_value
encode-layout l = refl

decode-encode :
    (l : ObjectLocation) → IsLocation l → decode_location_value (encode_location_value l) ≡ ok l
unfolding encode_location_value decode_location_value slice byte_at put_at be check_version
decode-encode l v = rw (
  from_be-be 4 l.generation v.generation_fits,
  from_be-be 8 l.chunk_id v.chunk_id_fits,
  from_be-be 8 l.offset v.offset_fits,
  from_be-be 8 l.record_length v.record_length_fits,
  from_be-be 8 l.stored_length v.stored_length_fits,
  from_be-be 8 l.raw_length v.raw_length_fits,
  (kind_from_tag_iff (kind_tag l.kind) l.kind).1 refl,
  (codec_iff (codec_tag l.codec) l.codec).1 refl,
  from_be-be 2 l.flags v.flags_fits,
  from_be-be 4 l.payload_crc32c v.payload_crc32c_fits,
)

-- What the guards of `decode` have checked once it returns `l`.
record Accepted (input : Bytes) (l : ObjectLocation) : Type 0 where
  size : length input ≡ 53
  version : ℕ
  version_read : byte_at {E = CatalogError} input 0 ≡ ok version
  version_ok : check_version version ≡ ok tt
  generation : read_be {E = CatalogError} 4 input 1 ≡ ok l.generation
  chunk_id : read_be {E = CatalogError} 8 input 5 ≡ ok l.chunk_id
  offset : read_be {E = CatalogError} 8 input 13 ≡ ok l.offset
  record_length : read_be {E = CatalogError} 8 input 21 ≡ ok l.record_length
  stored_length : read_be {E = CatalogError} 8 input 29 ≡ ok l.stored_length
  raw_length : read_be {E = CatalogError} 8 input 37 ≡ ok l.raw_length
  kind_byte : ℕ
  kind_read : byte_at {E = CatalogError} input 45 ≡ ok kind_byte
  kind_known : kind_from_tag kind_byte ≡ some l.kind
  codec_byte : ℕ
  codec_read : byte_at {E = CatalogError} input 46 ≡ ok codec_byte
  codec_known : codec codec_byte ≡ ok l.codec
  flags : read_be {E = CatalogError} 2 input 47 ≡ ok l.flags
  payload_crc32c : read_be {E = CatalogError} 4 input 49 ≡ ok l.payload_crc32c

decode-Ensures : (input : Bytes) → Ensures (Accepted input) (decode_location_value input)
unfolding decode_location_value
decode-Ensures input = ensure_reject (not (length input == 53)) invalid_encoding λ sized.
    let size : length input ≡ 53 = ground arith in
    ensure_byte input 0 (omega arith) λ version version_read.
      ensure_step _ (check_version-IsSafe version) λ _ version_ok.
        ensure_read 4 input 1 (omega arith) λ generation e1.
          ensure_read 8 input 5 (omega arith) λ chunk_id e2.
            ensure_read 8 input 13 (omega arith) λ offset e3.
              ensure_read 8 input 21 (omega arith) λ record_length e4.
                ensure_read 8 input 29 (omega arith) λ stored_length e5.
                  ensure_read 8 input 37 (omega arith) λ raw_length e6.
                    ensure_byte input 45 (omega arith) λ kind_byte kind_read.
                      ensure_some (kind_from_tag kind_byte) invalid_encoding λ kind kind_known.
                        ensure_byte input 46 (omega arith) λ codec_byte codec_read.
                          ensure_step _ (codec-IsSafe codec_byte) λ known codec_known.
                            ensure_read 2 input 47 (omega arith) λ flags e7.
                              ensure_read 4 input 49 (omega arith) λ payload_crc32c e8.
                                returns _ (record {
                                  size = size;
                                  version = version;
                                  version_read = version_read;
                                  version_ok = version_ok;
                                  generation = e1;
                                  chunk_id = e2;
                                  offset = e3;
                                  record_length = e4;
                                  stored_length = e5;
                                  raw_length = e6;
                                  kind_byte = kind_byte;
                                  kind_read = kind_read;
                                  kind_known = kind_known;
                                  codec_byte = codec_byte;
                                  codec_read = codec_read;
                                  codec_known = codec_known;
                                  flags = e7;
                                  payload_crc32c = e8;
                                })

module _ {input : Bytes} {l : ObjectLocation} (bytes_in : AreBytes input)
    (a : Accepted input l) where
  layout : input ≡ value_layout l
  layout = cc (
    byte_at-drop input 0 a.version_read,
    check_version-eq_ok a.version a.version_ok,
    (read_be-drop 4 input 1 bytes_in a.generation).0,
    (read_be-drop 8 input 5 bytes_in a.chunk_id).0,
    (read_be-drop 8 input 13 bytes_in a.offset).0,
    (read_be-drop 8 input 21 bytes_in a.record_length).0,
    (read_be-drop 8 input 29 bytes_in a.stored_length).0,
    (read_be-drop 8 input 37 bytes_in a.raw_length).0,
    byte_at-drop input 45 a.kind_read,
    (kind_from_tag_iff a.kind_byte l.kind).0 a.kind_known,
    byte_at-drop input 46 a.codec_read,
    (codec_iff a.codec_byte l.codec).0 a.codec_known,
    (read_be-drop 2 input 47 bytes_in a.flags).0,
    (read_be-drop 4 input 49 bytes_in a.payload_crc32c).0,
    drop_all 53 input a.size,
  )

  in_range : IsLocation l
  in_range = record {
    generation_fits = (read_be-drop 4 input 1 bytes_in a.generation).1;
    chunk_id_fits = (read_be-drop 8 input 5 bytes_in a.chunk_id).1;
    offset_fits = (read_be-drop 8 input 13 bytes_in a.offset).1;
    record_length_fits = (read_be-drop 8 input 21 bytes_in a.record_length).1;
    stored_length_fits = (read_be-drop 8 input 29 bytes_in a.stored_length).1;
    raw_length_fits = (read_be-drop 8 input 37 bytes_in a.raw_length).1;
    flags_fits = (read_be-drop 2 input 47 bytes_in a.flags).1;
    payload_crc32c_fits = (read_be-drop 4 input 49 bytes_in a.payload_crc32c).1;
  }

-- On any bytes, decoding a location value does not panic, and it returns `l` exactly when the bytes
-- are the encoding of `l` and the fields of `l` are in the range of their integer types.
pub decode_location_value_iff :
    (input : Bytes) (l : ObjectLocation)
    → AreBytes input
    → (decode_location_value input ≢ panic)
      × ((decode_location_value input ≡ ok l) ↔ ((input ≡ encode_location_value l) × IsLocation l))
decode_location_value_iff input l bytes_in =
    (Ensures-ne-panic (decode-Ensures input), (forth, back))
  where
    forth : decode_location_value input ≡ ok l → (input ≡ encode_location_value l) × IsLocation l
    forth e =
        let a = Ensures-ok l (decode-Ensures input) e in
        (layout bytes_in a ∙ sym (encode-layout l), in_range bytes_in a)

    back : (input ≡ encode_location_value l) × IsLocation l → decode_location_value input ≡ ok l
    back (same, v) = ap decode_location_value same ∙ decode-encode l v
