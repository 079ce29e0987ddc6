-- ===== src/Format/Record/Layout.antt =====
-- The bytes of a record header, field by field, as in docs/format-v1.md.
use gitdb.Base.{
  ℕ, ◌-◌, ◌<◌, ◌^◌, ◌≡◌, refl, sym, ap, ◌∙◌, arith, [], ◌∷◌, ◌++◌, append_assoc, length, replicate,
  length-append, length-replicate, drop-append,
}
use gitdb.Base.Bytes.{Bytes, AreBytes, be, length-be, put_at}
use gitdb.Base.Cuts.{put_at-skip, put_at-front}
use gitdb.Core.{kind_tag, GitOid, oid_len}
use gitdb.Core.Laws.{IsOid}
use gitdb.Format.{codec_tag, record_magic}
use gitdb.Format.Crc.{crc32c, crc32c-lt, crc32c_with_zeroed_field}
use gitdb.Format.Record.{ObjectRecord, RecordMetadata, encode_oid_fixed}
use gitdb.Format.Record.Oid.{encode_oid-layout, oid_len-le}

-- The values that the fields of a header can hold.
pub record IsMetadata (m : RecordMetadata) : Type 0 where
  pub flags_fits : m.flags < 256 ^ 2
  pub raw_length_fits : m.raw_length < 256 ^ 8
  pub stored_length_fits : m.stored_length < 256 ^ 8
  pub content_size : length m.content_id.content_bytes ≡ 32
  pub content_AreBytes : AreBytes m.content_id.content_bytes
  pub oid_IsOid : IsOid m.primary_oid

abbrev pub fixed_oid : GitOid → Bytes
fixed_oid g = encode_oid_fixed g (replicate 34 0)

abbrev pub header_start : RecordMetadata → Bytes → Bytes
header_start m rest =
    record_magic
    ++ (be 2 1
        ++ (be 2 128
            ++ (kind_tag m.kind
                ∷ codec_tag m.codec
                ∷ (be 2 m.flags ++ (be 8 m.raw_length ++ (be 8 m.stored_length ++ rest))))))

-- A header with `crc` in its checksum field, and `rest` behind it.
abbrev pub header_then : RecordMetadata → ℕ → Bytes → Bytes
header_then m crc rest = header_start m (
    m.content_id.content_bytes
    ++ (fixed_oid m.primary_oid ++ (be 4 crc ++ (replicate 30 0 ++ rest))))

unfoldable pub header_crc : RecordMetadata → ℕ
header_crc m = crc32c (header_then m 0 [])

pub header_crc-lt : (m : RecordMetadata) → header_crc m < 2 ^ 32
unfolding header_crc
header_crc-lt m = crc32c-lt _

abbrev pub metadata_of : ObjectRecord → ℕ → RecordMetadata
metadata_of r stored = record {
  kind = r.kind;
  codec = r.codec;
  flags = r.flags;
  raw_length = r.raw_length;
  stored_length = stored;
  content_id = r.content_id;
  primary_oid = r.primary_oid;
}

pub length-fixed_oid : (g : GitOid) → IsOid g → length (fixed_oid g) ≡ 34
length-fixed_oid g v = rw (encode_oid-layout g v) (
    omega (
      arith,
      length-append v.raw (replicate (32 - oid_len g.algorithm) 0),
      length-replicate {A = ℕ} (32 - oid_len g.algorithm) 0,
      v.raw_length,
      oid_len-le g.algorithm,
    ))

-- The part in front of the checksum.
abbrev pub checked_start : RecordMetadata → Bytes
checked_start m = header_start m (m.content_id.content_bytes ++ fixed_oid m.primary_oid)

pub start_split :
    (m : RecordMetadata) (crc : ℕ) (rest : Bytes)
    → header_then m crc rest ≡ checked_start m ++ (be 4 crc ++ (replicate 30 0 ++ rest))
start_split m crc rest = simp append_assoc

pub rest_split :
    (m : RecordMetadata) (crc : ℕ) (rest : Bytes)
    → header_then m crc rest ≡ header_then m crc [] ++ rest
rest_split m crc rest = simp append_assoc

module _ (m : RecordMetadata) (v : IsMetadata m) where
  pub length-checked_start : length (checked_start m) ≡ 94
  unfolding be
  length-checked_start = omega (
    arith,
    length-append m.content_id.content_bytes (fixed_oid m.primary_oid),
    v.content_size,
    length-fixed_oid m.primary_oid v.oid_IsOid,
  )

  pub length-header : (crc : ℕ) → length (header_then m crc []) ≡ 128
  length-header crc =
      let tail = be 4 crc ++ replicate 30 0 in
      ap length (start_split m crc [])
      ∙ omega (
        arith,
        length-append (checked_start m) tail,
        length-checked_start,
        length-append (be 4 crc) (replicate 30 0),
        length-be 4 crc,
      )

  -- Writing into the checksum field.
  pub put_at-crc :
      (crc : ℕ) (new rest : Bytes)
      → length new ≡ 4
      → put_at (header_then m crc rest) 94 new
        ≡ checked_start m ++ (new ++ (replicate 30 0 ++ rest))
  put_at-crc crc new rest size = rw (start_split m crc rest) (
      put_at-skip (checked_start m) _ 94 0 94 new length-checked_start refl
      ∙ ap (λ t. checked_start m ++ t)
          (put_at-front _ 4 new size
            ∙ ap (λ t. new ++ t) (drop-append 4 (be 4 crc) _ (length-be 4 crc))))

  -- The checksum field holds the checksum of the header with zeros in that field.
  pub zeroed-header :
      (crc : ℕ) → crc32c_with_zeroed_field (header_then m crc []) 94 4 ≡ header_crc m
  unfolding crc32c_with_zeroed_field header_crc be
  zeroed-header crc = ap crc32c (put_at-crc crc (replicate 4 0) [] refl ∙ sym (start_split m 0 []))
