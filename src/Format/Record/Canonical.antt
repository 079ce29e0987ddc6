-- ===== src/Format/Record/Canonical.antt =====
-- `decode_record` on any input: no panic, and it accepts only what `encode_record` writes.
use gitdb.Base.{
  ℕ, ◌+◌, ◌-◌, ◌%◌, ◌≤◌, ◌<◌, ◌^◌, ◌≡◌, ◌≢◌, ◌↔◌, sym, ap, ◌∙◌, arith, false, not, some, ◌++◌,
  append_assoc, ltb, ◌==◌, ==_iff, length, take, drop, replicate, length-take, take-append,
  take-append-drop,
}
use gitdb.Base.Bytes.{
  Bytes, AreBytes, bytes_eq, bytes_eq_iff, any_nonzero, any_nonzero-eq_false, be, slice,
  length-slice, read_be,
}
use gitdb.Base.Cuts.{slice-AreBytes, slice-drop, read_be-drop}
use gitdb.Base.Ensures.{
  Ensures, returns, Ensures-ok, Ensures-ne-panic, ensure_step, ensure_reject, ensure_slice,
  ensure_read, ensure_some,
}
use gitdb.Base.Result.{ok, panic, IsSafe}
use gitdb.Format.{
  FormatError, truncated, length_overflow, invalid_record_length, footer_magic_mismatch,
  payload_crc_mismatch, non_zero_padding, checked_add, align, u64_try_from, usize_try_from,
  record_end_magic,
}
use gitdb.Format.Crc.{crc32c}
use gitdb.Format.Record.{
  ObjectRecord, checked_total, checked_sub, decode_record, decode_record_metadata, encode_record,
}
use gitdb.Format.Record.Accepted.{
  header_of, decode_record_metadata_iff, decode_record_metadata-ne-panic,
}
use gitdb.Format.Record.Decode.{decode-encoded_of}
use gitdb.Format.Record.Layout.{IsMetadata, metadata_of}
use gitdb.Format.Record.RoundTrip.{
  IsRecord, total_of, padded_of, body_of, encoded_of, encode-layout, length-encoded,
}

pub usize_try_from-IsSafe : (n : ℕ) → IsSafe (usize_try_from n)
unfolding usize_try_from
usize_try_from-IsSafe n = record { no_panic = ground arith }

usize_try_from-eq_ok : (n m : ℕ) → usize_try_from n ≡ ok m → m ≡ n
unfolding usize_try_from
usize_try_from-eq_ok n m h = ground arith

u64_try_from-IsSafe : (n : ℕ) → IsSafe (u64_try_from n)
unfolding u64_try_from
u64_try_from-IsSafe n = record { no_panic = ground arith }

u64_try_from-eq_ok : (n m : ℕ) → u64_try_from n ≡ ok m → m ≡ n
unfolding u64_try_from
u64_try_from-eq_ok n m h = ground arith

pub align-IsSafe : (n : ℕ) → IsSafe (align n)
unfolding align checked_add
align-IsSafe n = record { no_panic = ground arith }

align-eq_ok : (n m : ℕ) → align n ≡ ok m → (m ≡ (n + 7) - (n + 7) % 8) × (n + 7 < 2 ^ 64)
unfolding align checked_add
align-eq_ok n m h = ground arith

checked_total-eq_some : (n m : ℕ) → checked_total n ≡ some m → m ≡ 128 + n + 20
unfolding checked_total
checked_total-eq_some n m h = ground arith

checked_sub-eq_some : (a b c : ℕ) → checked_sub a b ≡ some c → c ≡ a - b
unfolding checked_sub
checked_sub-eq_some a b c h = ground arith

-- What the decoder has read of a record that it accepts, behind its header.
record Accepted (input : Bytes) (r : ObjectRecord) (consumed : ℕ) : Type 0 where
  stored : ℕ
  metadata : decode_record_metadata input ≡ ok (metadata_of r stored)
  total : ℕ
  total_eq : total ≡ 128 + stored + 20
  footer : ℕ
  footer_eq : footer ≡ 128 + stored
  total_read : read_be {E = FormatError} 8 input (footer + 4) ≡ ok total
  end_bytes : Bytes
  end_cut : slice {E = FormatError} input (footer + 12) total ≡ ok end_bytes
  end_ok : not (bytes_eq end_bytes record_end_magic) ≡ false
  payload_cut : slice {E = FormatError} input 128 (128 + stored) ≡ ok r.payload
  crc : ℕ
  crc_read : read_be {E = FormatError} 4 input footer ≡ ok crc
  crc_ok : not (crc == crc32c r.payload) ≡ false
  consumed_eq : consumed ≡ (total + 7) - (total + 7) % 8
  total_fits : total + 7 < 2 ^ 64
  consumed_fits : consumed ≤ length input
  padding : Bytes
  padding_cut : slice {E = FormatError} input total consumed ≡ ok padding
  padding_zero : any_nonzero padding ≡ false

abbrev Read : Bytes → ObjectRecord × ℕ → Type 0
Read input (r, consumed) = Accepted input r consumed

decode-Ensures : (input : Bytes) → AreBytes input → Ensures (Read input) (decode_record input)
unfolding decode_record
decode-Ensures input in_bytes =
    ensure_step _ (record { no_panic = decode_record_metadata-ne-panic input in_bytes })
      λ m metadata. ensure_step _ (usize_try_from-IsSafe m.stored_length) λ stored stored_eq.
        let same_stored = usize_try_from-eq_ok m.stored_length stored stored_eq in
        ensure_some (checked_total stored) length_overflow λ total total_some.
          let total_eq = checked_total-eq_some stored total total_some in
          ensure_some (checked_sub total 20) length_overflow λ footer footer_some.
            let footer_eq : footer ≡ 128 + stored =
              omega (arith, checked_sub-eq_some total 20 footer footer_some) in
            ensure_reject (ltb (length input) total) truncated λ long.
              let enough : total ≤ length input = ground arith in
              ensure_read 8 input (footer + 4) (omega arith) λ recorded total_read.
                ensure_step _ (u64_try_from-IsSafe total) λ total_u64 u64_eq.
                  let same_total = u64_try_from-eq_ok total total_u64 u64_eq in
                  ensure_reject (not (recorded == total_u64)) invalid_record_length λ total_ok.
                    let right_total : recorded ≡ total =
                      omega (arith, (==_iff recorded total_u64).0 (ground arith)) in
                    ensure_slice input (footer + 12) total (omega arith) enough λ end_bytes end_cut.
                      ensure_reject (not (bytes_eq end_bytes record_end_magic))
                        footer_magic_mismatch
                        λ end_ok.
                          ensure_slice input 128 (128 + stored) (omega arith) (omega arith)
                            λ payload payload_cut.
                              ensure_read 4 input footer (omega arith) λ crc crc_read.
                                ensure_reject (not (crc == crc32c payload)) payload_crc_mismatch
                                  λ crc_ok.
                                    ensure_step _ (align-IsSafe total) λ consumed consumed_ok.
                                      let consumed_eq = align-eq_ok total consumed consumed_ok in
                                      ensure_reject (ltb (length input) consumed) truncated λ room.
                                        let fits : consumed ≤ length input = ground arith in
                                        ensure_slice input total consumed (omega arith) fits
                                          λ padding padding_cut.
                                            ensure_reject (any_nonzero padding) non_zero_padding
                                              λ padding_zero. returns _ (record {
                                                stored = stored;
                                                metadata =
                                                    metadata
                                                    ∙ ap (λ n. ok (record m { stored_length = n }))
                                                        (sym same_stored);
                                                total = total;
                                                total_eq = total_eq;
                                                footer = footer;
                                                footer_eq = footer_eq;
                                                total_read = total_read ∙ ap ok right_total;
                                                end_bytes = end_bytes;
                                                end_cut = end_cut;
                                                end_ok = end_ok;
                                                payload_cut = payload_cut;
                                                crc = crc;
                                                crc_read = crc_read;
                                                crc_ok = crc_ok;
                                                consumed_eq = consumed_eq.0;
                                                total_fits = consumed_eq.1;
                                                consumed_fits = fits;
                                                padding = padding;
                                                padding_cut = padding_cut;
                                                padding_zero = padding_zero;
                                              })

module _ {input : Bytes} {r : ObjectRecord} {n : ℕ} (bytes_in : AreBytes input)
    (a : Accepted input r n) where
  payload_size : length r.payload ≡ a.stored
  payload_size = omega (arith, length-slice input 128 (128 + a.stored) a.payload_cut)

  header_read :
      (take 128 input ≡ header_of (metadata_of r a.stored)) × IsMetadata (metadata_of r a.stored)
  header_read = (decode_record_metadata_iff input (metadata_of r a.stored) bytes_in).0 a.metadata

  valid : IsRecord r
  valid = record {
    metadata = rw payload_size header_read.1;
    payload_AreBytes = slice-AreBytes input 128 (128 + a.stored) bytes_in a.payload_cut;
    total_fits = omega (arith, payload_size, a.total_eq, a.total_fits);
  }

  padding_size : length a.padding ≡ n - a.total
  padding_size = omega (arith, length-slice input a.total n a.padding_cut)

  split :
      input
      ≡ (header_of (metadata_of r a.stored) ++ body_of r.payload a.total (n - a.total))
        ++ drop n input
  split = cc (
    take-append-drop 128 input,
    header_read.0,
    slice-drop input 128 (128 + a.stored) a.payload_cut,
    a.footer_eq,
    (read_be-drop 4 input a.footer bytes_in a.crc_read).0,
    (==_iff a.crc (crc32c r.payload)).0 (ground arith),
    (read_be-drop 8 input (a.footer + 4) bytes_in a.total_read).0,
    next,
    slice-drop input (a.footer + 12) a.total a.end_cut,
    (bytes_eq_iff a.end_bytes record_end_magic).0 (ground arith),
    slice-drop input a.total n a.padding_cut,
    any_nonzero-eq_false a.padding a.padding_zero,
    padding_size,
    joined,
  )
    where
      next : a.footer + 4 + 8 ≡ a.footer + 12
      next = omega arith

      pad : Bytes
      pad = replicate (n - a.total) 0

      joined :
          (header_of (metadata_of r a.stored) ++ body_of r.payload a.total (n - a.total))
            ++ drop n input
          ≡ header_of (metadata_of r a.stored)
            ++ (r.payload
                ++ (be 4 (crc32c r.payload)
                    ++ (be 8 a.total ++ (record_end_magic ++ (pad ++ drop n input)))))
      joined = simp append_assoc

  n_eq : n ≡ padded_of r
  n_eq = omega (arith, a.consumed_eq, a.total_eq, payload_size)

  total_eq_of : a.total ≡ total_of r
  total_eq_of = omega (arith, a.total_eq, payload_size)

  same_bytes :
      header_of (metadata_of r a.stored) ++ body_of r.payload a.total (n - a.total) ≡ encoded_of r
  same_bytes =
      ap (λ s. header_of (metadata_of r s) ++ body_of r.payload a.total (n - a.total))
        (sym payload_size)
      ∙ ap (λ t. header_of (metadata_of r (length r.payload)) ++ body_of r.payload t (n - t))
          total_eq_of
      ∙ ap
          (λ k.
            header_of (metadata_of r (length r.payload))
            ++ body_of r.payload (total_of r) (k - total_of r))
          n_eq

  encoded : take n input ≡ encoded_of r
  encoded =
      ap (take n) (split ∙ ap (λ t. t ++ drop n input) same_bytes)
      ∙ take-append n (encoded_of r) (drop n input)
          (omega (arith, (length-encoded r valid).0, n_eq))

-- On any bytes, `decode_record` returns a record and a count of consumed bytes exactly when the
-- record is valid and that many bytes of the input are what `encode_record` writes for it.
pub decode_record_iff :
    (input : Bytes) (r : ObjectRecord) (n : ℕ)
    → AreBytes input
    → (decode_record input ≡ ok (r, n))
      ↔ (IsRecord r × (encode_record r ≡ ok (take n input)) × (n ≤ length input))
decode_record_iff input r n bytes_in = (forth, back)
  where
    forth :
        decode_record input ≡ ok (r, n)
        → IsRecord r × (encode_record r ≡ ok (take n input)) × (n ≤ length input)
    forth e =
        let a = Ensures-ok (r, n) (decode-Ensures input bytes_in) e in
        let v = valid bytes_in a in
        (v, encode-layout r v ∙ ap ok (sym (encoded bytes_in a)), a.consumed_fits)

    back :
        IsRecord r × (encode_record r ≡ ok (take n input)) × (n ≤ length input)
        → decode_record input ≡ ok (r, n)
    back (v, e, fits) =
        let front : take n input ≡ encoded_of r = cc (encode-layout r v) in
        let size : n ≡ padded_of r =
          omega (arith, ap length front, length-take n input, (length-encoded r v).0) in
        ap decode_record (sym (take-append-drop n input) ∙ ap (λ t. t ++ drop n input) front)
        ∙ decode-encoded_of r v (drop n input)
        ∙ ap (λ k. ok (r, k)) (sym size)

-- The record decoder returns a value or an error, and does not panic, on any bytes.
pub decode_record-ne-panic : (input : Bytes) → AreBytes input → decode_record input ≢ panic
decode_record-ne-panic input bytes_in = Ensures-ne-panic (decode-Ensures input bytes_in)

-- Encoding a valid record succeeds, and decoding the result with any bytes behind it gives the
-- record back and consumes exactly the encoded bytes, a multiple of eight of them.
pub decode-encode_record :
    (r : ObjectRecord) (rest : Bytes)
    → IsRecord r
    → (bytes : Bytes) × (encode_record r ≡ ok bytes)
      × (decode_record (bytes ++ rest) ≡ ok (r, length bytes))
      × (length bytes % 8 ≡ 0)
decode-encode_record r rest v =
    let laws = length-encoded r v in
    (
      encoded_of r,
      encode-layout r v,
      decode-encoded_of r v rest ∙ ap (λ n. ok (r, n)) (sym laws.0),
      ap (λ n. n % 8) laws.0 ∙ laws.1,
    )
