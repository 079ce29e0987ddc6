-- ===== src/Store/Scan/Candidate.antt =====
-- One round of the record scan where the bytes of a valid record stand.
use gitdb.Base.{
  none, ℕ, ◌+◌, ◌-◌, ◌≤◌, ◌<◌, ◌≡◌, refl, sym, ap, ◌∙◌, arith, inl, inr, Bool, false, some, [],
  ◌++◌, append-nil, append_assoc, length, length-append, length-take, take, drop, take-append,
  take-append-drop, ltb, le→leb, le→ltb, ==_refl, Bool-cases,
}
use gitdb.Base.Bytes.{Bytes, take-drop_append}
use gitdb.Base.Result.{ok}
use gitdb.Format.Record.{
  ObjectRecord, decode_record, decode_record_metadata, encode_record,
  encoded_record_len_from_header, checked_sub,
}
use gitdb.Format.Record.Accepted.{header_of, decode-header_of}
use gitdb.Format.Record.Decode.{decode-encoded_of}
use gitdb.Format.Record.Layout.{metadata_of, header_crc, length-header}
use gitdb.Format.Record.Lengths.{len_from_metadata_read}
use gitdb.Format.Record.RoundTrip.{IsRecord, padded_of, encoded_of, encode-layout, length-encoded}
use gitdb.Store.{read_exact_at, read_exact_at_lem, max_recovery_record_bytes}
use gitdb.Store.Scan.{
  header_verdict, record_verdict, read_body, read_header_and_body, read_candidate,
}

-- A record that a scan takes: valid, and of at most 64 MiB, the bound on one allocation.
pub record IsScannable (r : ObjectRecord) : Type 0 where
  pub valid : IsRecord r
  pub fits : padded_of r ≤ max_recovery_record_bytes

-- The bytes of a record in a chunk, kept shut.
unfoldable pub record_bytes : ObjectRecord → Bytes
record_bytes r = encoded_of r

-- The least length of a record.
pub padded_of-ge : (r : ObjectRecord) → 148 ≤ padded_of r
padded_of-ge r = omega arith

module _ (r : ObjectRecord) (v : IsRecord r) where
  pub length-record_bytes : length (record_bytes r) ≡ padded_of r
  unfolding record_bytes
  length-record_bytes = (length-encoded r v).0

  pub encode-record_bytes : encode_record r ≡ ok (record_bytes r)
  unfolding record_bytes
  encode-record_bytes = encode-layout r v

  pub decode-record_bytes : decode_record (record_bytes r) ≡ ok (r, padded_of r)
  unfolding record_bytes
  decode-record_bytes =
      ap decode_record (sym (append-nil (encoded_of r))) ∙ decode-encoded_of r v []

  -- The first 128 bytes of the record, and what the scan reads out of them.
  pub header_bytes : Bytes
  header_bytes = header_of (metadata_of r (length r.payload))

  header_size : length header_bytes ≡ 128
  unfolding header_bytes
  header_size =
      length-header (metadata_of r (length r.payload)) v.metadata
        (header_crc (metadata_of r (length r.payload)))

  pub header_split : (rest : Bytes) × (record_bytes r ≡ header_bytes ++ rest)
  unfolding header_bytes record_bytes
  header_split = (_, refl)

  pub header_len : encoded_record_len_from_header header_bytes ≡ ok (padded_of r)
  unfolding header_bytes
  header_len = len_from_metadata_read r v _ (
      ap decode_record_metadata (sym (append-nil _))
      ∙ decode-header_of (metadata_of r (length r.payload)) [] v.metadata)

  -- The header of the record is read wherever at least the header is there.
  pub header_read :
      (pre cut behind rest : Bytes) (offset : ℕ)
      → length pre ≡ offset
      → record_bytes r ≡ cut ++ behind
      → 128 ≤ length cut
      → read_exact_at (pre ++ (cut ++ rest)) offset 128 ≡ ok header_bytes
  header_read pre cut behind rest offset h split long =
      ap (λ t. read_exact_at (pre ++ t) offset 128)
        (ap (λ t. t ++ rest) (sym (take-append-drop 128 cut))
          ∙ append_assoc (take 128 cut) (drop 128 cut) rest)
      ∙ read_exact_at_lem pre (take 128 cut) (drop 128 cut ++ rest) offset 128 h
          (omega (arith, length-take 128 cut))
      ∙ ap ok front
    where
      front : take 128 cut ≡ header_bytes
      front =
          sym (take-drop_append cut behind 0 128 long)
          ∙ ap (take 128) (sym split ∙ header_split.1)
          ∙ take-append 128 header_bytes header_split.0 header_size

module _ (r : ObjectRecord) (s : IsScannable r) where
  pub read_candidate-found :
      (strict : Bool) (pre rest : Bytes) (end_at offset : ℕ)
      → length pre ≡ offset
      → offset + padded_of r ≤ end_at
      → read_candidate strict (pre ++ (record_bytes r ++ rest)) end_at offset
        ≡ ok (some (record_bytes r, r))
  unfolding read_candidate read_header_and_body checked_sub header_verdict read_body record_verdict
  read_candidate-found strict pre rest end_at offset h inside = rw (
    le→ltb end_at offset (omega arith),
    le→ltb (end_at - offset) 128 (omega (arith, padded_of-ge r)),
    header_read r s.valid pre (record_bytes r) [] rest offset h (sym (append-nil _))
        (omega (arith, length-record_bytes r s.valid, padded_of-ge r)),
    header_len r s.valid,
    le→leb (padded_of r) max_recovery_record_bytes s.fits,
    le→ltb (end_at - offset) (padded_of r) (omega arith),
    read_exact_at_lem pre (record_bytes r) rest offset (padded_of r) h
        (length-record_bytes r s.valid),
    decode-record_bytes r s.valid,
    length-record_bytes r s.valid,
    ==_refl (padded_of r),
  )

ltb-false : (a b : ℕ) → ltb a b ≡ false → b ≤ a
ltb-false a b e = ground arith

-- What a recovery makes of the length in a header when too little is left for it: whether the
-- length is within the bound or not, the scan stops.
header_verdict-short :
    (remaining encoded_len : ℕ)
    → remaining < encoded_len
    → header_verdict false remaining (ok encoded_len) ≡ ok none
unfolding header_verdict
header_verdict-short remaining encoded_len short = ground (arith, short)

header_verdict-oversized :
    (remaining encoded_len : ℕ)
    → max_recovery_record_bytes < encoded_len
    → header_verdict false remaining (ok encoded_len) ≡ ok none
unfolding header_verdict
header_verdict-oversized remaining encoded_len over = ground (arith, over)

module _ (r : ObjectRecord) (v : IsRecord r) (pre : Bytes) (end_at offset : ℕ)
    (here : length pre ≡ offset) where
  -- A record that the end of the chunk cuts off is none for a recovery.
  pub read_candidate-cut :
      (cut behind : Bytes)
      → record_bytes r ≡ cut ++ behind
      → 0 < length behind
      → end_at ≡ offset + length cut
      → read_candidate false (pre ++ cut) end_at offset ≡ ok none
  unfolding read_candidate read_header_and_body checked_sub read_body
  read_candidate-cut cut behind split some_left ends =
      elim (Bool-cases (ltb (end_at - offset) 128)) [
        | inl short ↦ rw (le→ltb end_at offset (omega arith), short)
        | inr long ↦ rw (
          le→ltb end_at offset (omega arith),
          long,
          ap (λ t. read_exact_at (pre ++ t) offset 128) (sym (append-nil cut))
              ∙ header_read r v pre cut behind [] offset here split
                  (omega (arith, ltb-false (end_at - offset) 128 long)),
          header_len r v,
          header_verdict-short (end_at - offset) (padded_of r)
              (omega (arith, ap length split, length-append cut behind, length-record_bytes r v)),
        )
      ]

  -- A complete record above the bound is none for a recovery, whatever stands behind it.
  pub read_candidate-oversized :
      (rest : Bytes)
      → max_recovery_record_bytes < padded_of r
      → offset + padded_of r ≤ end_at
      → read_candidate false (pre ++ (record_bytes r ++ rest)) end_at offset ≡ ok none
  unfolding read_candidate read_header_and_body checked_sub read_body
  read_candidate-oversized rest over inside = rw (
    le→ltb end_at offset (omega arith),
    le→ltb (end_at - offset) 128 (omega (arith, padded_of-ge r)),
    header_read r v pre (record_bytes r) [] rest offset here (sym (append-nil _))
        (omega (arith, length-record_bytes r v, padded_of-ge r)),
    header_len r v,
    header_verdict-oversized (end_at - offset) (padded_of r) over,
  )
