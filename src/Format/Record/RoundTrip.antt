-- ===== src/Format/Record/RoundTrip.antt =====
-- `encode_record` writes the header, the payload, the footer and the padding one after the other.
use gitdb.Base.{
  ℕ, ◌+◌, ◌-◌, ◌%◌, ◌≤◌, ◌<◌, ◌^◌, ◌≡◌, refl, sym, ap, ◌∙◌, arith, some, [], ◌++◌, append_assoc,
  lt→ltb, length, take, drop, replicate, length-append, length-replicate, take-append, drop-append,
  replicate-add,
}
use gitdb.Base.Bytes.{Bytes, AreBytes, be, length-be, put_at}
use gitdb.Base.Cuts.{put_at-skip, put_at-front, put_at-part}
use gitdb.Base.Result.{ok}
use gitdb.Format.{checked_add, align, u64_try_from, record_end_magic}
use gitdb.Format.Crc.{crc32c, crc32c_with_zeroed_field}
use gitdb.Format.Record.{
  ObjectRecord, RecordMetadata, encode_oid_fixed, put_early_fields, put_identity, put_header_crc,
  put_payload_and_footer, checked_total, encode_record,
}
use gitdb.Format.Record.Accepted.{header_of}
use gitdb.Format.Record.Layout.{
  IsMetadata, metadata_of, fixed_oid, length-fixed_oid, header_start, header_then, header_crc,
  put_at-crc, start_split, rest_split, zeroed-header, length-header,
}

-- The values that `encode_record` takes: fields in range, and a payload whose record fits a `u64`.
pub record IsRecord (r : ObjectRecord) : Type 0 where
  pub metadata : IsMetadata (metadata_of r (length r.payload))
  pub payload_AreBytes : AreBytes r.payload
  pub total_fits : 128 + length r.payload + 20 + 7 < 2 ^ 64

pub checked_total-some :
    (stored : ℕ) → 128 + stored + 20 < 2 ^ 64 → checked_total stored ≡ some (128 + stored + 20)
unfolding checked_total
checked_total-some stored h = ground arith

abbrev pub total_of : ObjectRecord → ℕ
total_of r = 128 + length r.payload + 20

abbrev pub padded_of : ObjectRecord → ℕ
padded_of r = (total_of r + 7) - (total_of r + 7) % 8

-- Payload, footer and padding.
abbrev pub body_of : Bytes → ℕ → ℕ → Bytes
body_of payload total padding =
    payload ++ (be 4 (crc32c payload) ++ (be 8 total ++ (record_end_magic ++ replicate padding 0)))

abbrev pub zeros : ℕ → Bytes
zeros n = replicate n 0

module _ (r : ObjectRecord) (stored : ℕ) (v : IsMetadata (metadata_of r stored))
    (behind : Bytes) where
  abbrev meta : RecordMetadata
  meta = metadata_of r stored

  abbrev content : Bytes
  content = r.content_id.content_bytes

  early : put_early_fields r stored (zeros 128 ++ behind) ≡ header_start meta (zeros 100 ++ behind)
  unfolding put_early_fields put_at be
  early = refl

  content_put :
      put_at (header_start meta (zeros 100 ++ behind)) 28 content
      ≡ header_start meta (content ++ (zeros 68 ++ behind))
  unfolding be
  content_put =
      put_at-skip (header_start meta []) (zeros 100 ++ behind) 28 0 28 content refl refl
      ∙ ap (λ t. header_start meta t) (put_at-front _ 32 content v.content_size)

  oid_space : take 34 (drop 60 (header_start meta (content ++ (zeros 68 ++ behind)))) ≡ zeros 34
  unfolding be
  oid_space = ap (take 34) (drop-append 32 content (zeros 68 ++ behind) v.content_size)

  oid_put :
      put_at (header_start meta (content ++ (zeros 68 ++ behind))) 60 (fixed_oid r.primary_oid)
      ≡ header_then meta 0 behind
  unfolding be
  oid_put =
      put_at-skip (header_start meta content) (zeros 68 ++ behind) 60 0 60 (fixed_oid r.primary_oid)
        (omega (arith, v.content_size)) refl
      ∙ ap (λ t. header_start meta (content ++ t))
          (put_at-front _ 34 (fixed_oid r.primary_oid) (length-fixed_oid r.primary_oid v.oid_IsOid))

  identity : put_identity r (header_start meta (zeros 100 ++ behind)) ≡ header_then meta 0 behind
  unfolding put_identity
  identity =
      ap (λ t. put_at t 60 (encode_oid_fixed r.primary_oid (take 34 (drop 60 t)))) content_put
      ∙ ap
          (λ t.
            put_at (header_start meta (content ++ (zeros 68 ++ behind))) 60
              (encode_oid_fixed r.primary_oid t))
          oid_space
      ∙ oid_put

  checksum : put_header_crc (header_then meta 0 behind) ≡ header_of meta ++ behind
  unfolding put_header_crc
  checksum =
      ap (λ t. put_at (header_then meta 0 behind) 94 (be 4 (crc32c_with_zeroed_field t 94 4))) first
      ∙ ap (λ t. put_at (header_then meta 0 behind) 94 (be 4 t)) (zeroed-header meta v 0)
      ∙ put_at-crc meta v 0 (be 4 (header_crc meta)) behind (length-be 4 (header_crc meta))
      ∙ sym (start_split meta (header_crc meta) behind)
      ∙ rest_split meta (header_crc meta) behind
    where
      first : take 128 (header_then meta 0 behind) ≡ header_then meta 0 []
      first =
          ap (take 128) (rest_split meta 0 behind)
          ∙ take-append 128 (header_then meta 0 []) behind (length-header meta v 0)

  header_written :
      put_header_crc (put_identity r (put_early_fields r stored (zeros 128 ++ behind)))
      ≡ header_of meta ++ behind
  header_written =
      ap (λ t. put_header_crc (put_identity r t)) early ∙ ap put_header_crc identity ∙ checksum

body_written :
    (header payload : Bytes) (total padding : ℕ)
    → length header ≡ 128
    → put_payload_and_footer payload total
        (header ++ (zeros (length payload) ++ (zeros 4 ++ (zeros 8 ++ (zeros 8 ++ zeros padding)))))
      ≡ header ++ body_of payload total padding
unfolding put_payload_and_footer
body_written header payload total padding size =
    ap
      (λ t.
        put_at (put_at (put_at t footer pcrc) (footer + 4) (be 8 total)) (footer + 12)
          record_end_magic)
      (put_at-part header (zeros (length payload)) _ 128 payload size (length-replicate _ 0))
    ∙ ap (λ t. put_at (put_at t (footer + 4) (be 8 total)) (footer + 12) record_end_magic)
        (put_at-part (header ++ payload) (zeros 4) _ footer pcrc s1 (sym (length-be 4 _)))
    ∙ ap (λ t. put_at t (footer + 12) record_end_magic)
        (put_at-part ((header ++ payload) ++ pcrc) (zeros 8) _ (footer + 4) (be 8 total) s2
          (sym (length-be 8 _)))
    ∙ put_at-part (((header ++ payload) ++ pcrc) ++ be 8 total) (zeros 8) (zeros padding)
        (footer + 12) record_end_magic s3 refl
    ∙ simp append_assoc
  where
    footer : ℕ
    footer = 128 + length payload

    pcrc : Bytes
    pcrc = be 4 (crc32c payload)

    s1 : length (header ++ payload) ≡ footer
    s1 = omega (arith, length-append header payload)

    s2 : length ((header ++ payload) ++ pcrc) ≡ footer + 4
    s2 = omega (arith, length-append (header ++ payload) pcrc, s1, length-be 4 (crc32c payload))

    s3 : length (((header ++ payload) ++ pcrc) ++ be 8 total) ≡ footer + 12
    s3 =
        omega
          (arith, length-append ((header ++ payload) ++ pcrc) (be 8 total), s2, length-be 8 total)

-- The bytes of a record.
abbrev pub encoded_of : ObjectRecord → Bytes
encoded_of r =
    header_of (metadata_of r (length r.payload))
    ++ body_of r.payload (total_of r) (padded_of r - total_of r)

space :
    (padded p pad : ℕ)
    → padded ≡ 128 + p + 20 + pad
    → zeros padded ≡ zeros 128 ++ (zeros p ++ (zeros 4 ++ (zeros 8 ++ (zeros 8 ++ zeros pad))))
space padded p pad h =
    replicate-add 128 (p + 20 + pad) padded 0 (omega arith)
    ∙ ap (λ t. zeros 128 ++ t)
        (replicate-add p (20 + pad) (p + 20 + pad) 0 (omega arith)
          ∙ ap (λ t. zeros p ++ t) (replicate-add 20 pad (20 + pad) 0 refl))

-- `encode_record` succeeds on every valid record, with the bytes laid out as in docs/format-v1.md.
pub encode-layout : (r : ObjectRecord) → IsRecord r → encode_record r ≡ ok (encoded_of r)
unfolding encode_record u64_try_from align checked_add
encode-layout r v =
    rw
      (
        lt→ltb (length r.payload) (2 ^ 64) (omega (arith, v.total_fits)),
        checked_total-some (length r.payload) (omega (arith, v.total_fits)),
        lt→ltb (total_of r) (2 ^ 64) (omega (arith, v.total_fits)),
        lt→ltb (total_of r + 7) (2 ^ 64) (omega (arith, v.total_fits)),
      )
      (ap ok written)
  where
    pad : ℕ
    pad = padded_of r - total_of r

    behind : Bytes
    behind = zeros (length r.payload) ++ (zeros 4 ++ (zeros 8 ++ (zeros 8 ++ zeros pad)))

    meta_r : RecordMetadata
    meta_r = metadata_of r (length r.payload)

    written :
        put_payload_and_footer r.payload (total_of r) (
          put_header_crc
            (put_identity r (put_early_fields r (length r.payload) (zeros (padded_of r)))))
        ≡ encoded_of r
    written =
        ap
          (λ t.
            put_payload_and_footer r.payload (total_of r)
              (put_header_crc (put_identity r (put_early_fields r (length r.payload) t))))
          (space (padded_of r) (length r.payload) pad (omega arith))
        ∙ ap (put_payload_and_footer r.payload (total_of r))
            (header_written r (length r.payload) v.metadata behind)
        ∙ body_written (header_of meta_r) r.payload (total_of r) pad
            (length-header meta_r v.metadata (header_crc meta_r))

pub length-body :
    (payload : Bytes) (total padding : ℕ)
    → length (body_of payload total padding) ≡ length payload + 20 + padding
length-body payload total padding = omega (
  arith,
  length-append payload
      (be 4 (crc32c payload) ++ (be 8 total ++ (record_end_magic ++ zeros padding))),
  length-append (be 4 (crc32c payload)) (be 8 total ++ (record_end_magic ++ zeros padding)),
  length-append (be 8 total) (record_end_magic ++ zeros padding),
  length-be 4 (crc32c payload),
  length-be 8 total,
  length-replicate {A = ℕ} padding 0,
)

-- An encoded record takes a whole number of eight-byte units, and has less than eight bytes of
-- padding.
pub length-encoded :
    (r : ObjectRecord)
    → IsRecord r
    → (length (encoded_of r) ≡ padded_of r)
      × (padded_of r % 8 ≡ 0)
      × (total_of r ≤ padded_of r)
      × (padded_of r < total_of r + 8)
length-encoded r v = (
  omega (
    arith,
    length-append (header_of meta_r) (body_of r.payload (total_of r) pad),
    length-header meta_r v.metadata (header_crc meta_r),
    length-body r.payload (total_of r) pad,
  ),
  omega arith,
  omega arith,
  omega arith,
)
  where
    pad : ℕ
    pad = padded_of r - total_of r

    meta_r : RecordMetadata
    meta_r = metadata_of r (length r.payload)
