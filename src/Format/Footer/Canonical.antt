-- ===== src/Format/Footer/Canonical.antt =====
-- Sealed-chunk footers: whatever `decode` accepts is what `encode` writes, and it never panics.
use gitdb.Base.{
  ℕ, ◌≡◌, ◌≢◌, ◌↔◌, sym, ap, ◌∙◌, arith, false, not, ◌++◌, ltb, ◌==◌, ==_iff, length, take, drop,
  take-append-drop,
}
use gitdb.Base.Bytes.{
  Bytes, AreBytes, bytes_eq, bytes_eq_iff, any_nonzero, slice, length-slice, read_be,
}
use gitdb.Base.Ensures.{
  Ensures, returns, Ensures-ok, Ensures-ne-panic, ensure_step, ensure_reject, ensure_slice,
  ensure_read,
}
use gitdb.Base.Result.{ok, panic}
use gitdb.Format.{
  FormatError, truncated, bad_magic, header_crc_mismatch, non_zero_reserved,
  sealed_chunk_footer_magic, check_version, check_version-IsSafe, check_version-eq_ok,
  check_header_len-eq_ok, check_header_len, check_header_len-IsSafe,
}
use gitdb.Format.Footer.RoundTrip.{
  IsFooter, decode-encode, footer_layout, footer_crc, encode-layout, zeroed-layout,
}
use gitdb.Base.Cuts.{slice-AreBytes, slice-drop, read_be-drop, zero_tail, slice-eq_take}
use gitdb.Format.Crc.{crc32c_with_zeroed_field}
use gitdb.Format.Footer.{SealedChunkFooter, encode_chunk_footer, decode_chunk_footer}

-- What the guards of `decode` have checked once it returns `f`.
record Accepted (input : Bytes) (h : SealedChunkFooter) : Type 0 where
  bytes : Bytes
  cut : slice {E = FormatError} input 0 64 ≡ ok bytes
  prefix : Bytes
  prefix_cut : slice {E = FormatError} bytes 0 8 ≡ ok prefix
  magic : not (bytes_eq prefix sealed_chunk_footer_magic) ≡ false
  version : ℕ
  version_read : read_be {E = FormatError} 2 bytes 8 ≡ ok version
  version_ok : check_version version ≡ ok tt
  header_len : ℕ
  header_len_read : read_be {E = FormatError} 2 bytes 10 ≡ ok header_len
  header_len_ok : check_header_len header_len 64 ≡ ok tt
  crc : ℕ
  crc_read : read_be {E = FormatError} 4 bytes 32 ≡ ok crc
  crc_ok : not (crc == crc32c_with_zeroed_field bytes 32 4) ≡ false
  tail : Bytes
  tail_cut : slice {E = FormatError} bytes 36 (length bytes) ≡ ok tail
  tail_zero : any_nonzero tail ≡ false
  record_count : read_be {E = FormatError} 8 bytes 12 ≡ ok h.record_count
  final_length : read_be {E = FormatError} 8 bytes 20 ≡ ok h.final_length
  records_crc32c : read_be {E = FormatError} 4 bytes 28 ≡ ok h.records_crc32c

decode-Ensures : (input : Bytes) → Ensures (Accepted input) (decode_chunk_footer input)
unfolding decode_chunk_footer
decode-Ensures input = ensure_reject (ltb (length input) 64) truncated λ long.
    ensure_slice input 0 64 (omega arith) (ground arith) λ bytes cut.
      let size : length bytes ≡ 64 = omega (arith, length-slice input 0 64 cut) in
      ensure_slice bytes 0 8 (omega arith) (omega arith) λ prefix prefix_cut.
        ensure_reject (not (bytes_eq prefix sealed_chunk_footer_magic)) bad_magic λ magic.
          ensure_read 2 bytes 8 (omega arith) λ version version_read.
            ensure_step _ (check_version-IsSafe version) λ _ version_ok.
              ensure_read 2 bytes 10 (omega arith) λ header_len header_len_read.
                ensure_step _ (check_header_len-IsSafe header_len 64) λ _ header_len_ok.
                  ensure_read 4 bytes 32 (omega arith) λ crc crc_read.
                    ensure_reject (not (crc == crc32c_with_zeroed_field bytes 32 4))
                      header_crc_mismatch
                      λ crc_ok.
                        ensure_slice bytes 36 (length bytes) (omega arith) (omega arith)
                          λ tail tail_cut.
                            ensure_reject (any_nonzero tail) non_zero_reserved λ tail_zero.
                              ensure_read 8 bytes 12 (omega arith) λ record_count e1.
                                ensure_read 8 bytes 20 (omega arith) λ final_length e2.
                                  ensure_read 4 bytes 28 (omega arith) λ records_crc32c e3.
                                    returns _ (record {
                                      bytes = bytes;
                                      cut = cut;
                                      prefix = prefix;
                                      prefix_cut = prefix_cut;
                                      magic = magic;
                                      version = version;
                                      version_read = version_read;
                                      version_ok = version_ok;
                                      header_len = header_len;
                                      header_len_read = header_len_read;
                                      header_len_ok = header_len_ok;
                                      crc = crc;
                                      crc_read = crc_read;
                                      crc_ok = crc_ok;
                                      tail = tail;
                                      tail_cut = tail_cut;
                                      tail_zero = tail_zero;
                                      record_count = e1;
                                      final_length = e2;
                                      records_crc32c = e3;
                                    })

module _ {input : Bytes} {h : SealedChunkFooter} (bytes_in : AreBytes input)
    (a : Accepted input h) where
  size : length a.bytes ≡ 64
  size = omega (arith, length-slice input 0 64 a.cut)

  are_bytes : AreBytes a.bytes
  are_bytes = slice-AreBytes input 0 64 bytes_in a.cut

  layout : a.bytes ≡ footer_layout h a.crc
  layout = cc (
    slice-drop a.bytes 0 8 a.prefix_cut,
    (bytes_eq_iff a.prefix sealed_chunk_footer_magic).0 (ground arith),
    (read_be-drop 2 a.bytes 8 are_bytes a.version_read).0,
    check_version-eq_ok a.version a.version_ok,
    (read_be-drop 2 a.bytes 10 are_bytes a.header_len_read).0,
    check_header_len-eq_ok a.header_len 64 a.header_len_ok,
    (read_be-drop 8 a.bytes 12 are_bytes a.record_count).0,
    (read_be-drop 8 a.bytes 20 are_bytes a.final_length).0,
    (read_be-drop 4 a.bytes 28 are_bytes a.records_crc32c).0,
    (read_be-drop 4 a.bytes 32 are_bytes a.crc_read).0,
    zero_tail a.bytes 36 28 a.tail_cut a.tail_zero size,
  )

  encoded : a.bytes ≡ encode_chunk_footer h
  encoded = layout ∙ ap (footer_layout h) checksum ∙ sym (encode-layout h)
    where
      checksum : a.crc ≡ footer_crc h
      checksum =
          (==_iff a.crc _).0 (ground arith)
          ∙ ap (λ t. crc32c_with_zeroed_field t 32 4) layout
          ∙ zeroed-layout h a.crc

  in_range : IsFooter h
  in_range = record {
    record_count_fits = (read_be-drop 8 a.bytes 12 are_bytes a.record_count).1;
    final_length_fits = (read_be-drop 8 a.bytes 20 are_bytes a.final_length).1;
    records_crc32c_fits = (read_be-drop 4 a.bytes 28 are_bytes a.records_crc32c).1;
  }

-- A footer that `decode` accepts has fields in range, and its 64 bytes are the encoding of those
-- fields.
encode-decode :
    (input : Bytes) (h : SealedChunkFooter)
    → AreBytes input
    → decode_chunk_footer input ≡ ok h
    → (take 64 input ≡ encode_chunk_footer h) × IsFooter h
encode-decode input h bytes_in e =
    let a = Ensures-ok h (decode-Ensures input) e in
    (sym (slice-eq_take input 64 a.cut) ∙ encoded bytes_in a, in_range bytes_in a)

-- On any bytes, `decode` returns `f` exactly when the first 64 bytes are the encoding of `f` and the
-- fields of `f` are in the range of their integer types.
pub decode_chunk_footer_iff :
    (input : Bytes) (h : SealedChunkFooter)
    → AreBytes input
    → (decode_chunk_footer input ≡ ok h) ↔ ((take 64 input ≡ encode_chunk_footer h) × IsFooter h)
decode_chunk_footer_iff input h bytes_in = (encode-decode input h bytes_in, back)
  where
    back : (take 64 input ≡ encode_chunk_footer h) × IsFooter h → decode_chunk_footer input ≡ ok h
    back (front, v) =
        ap decode_chunk_footer
          (sym (take-append-drop 64 input) ∙ ap (λ t. t ++ drop 64 input) front)
        ∙ decode-encode h (drop 64 input) v

-- Decoding does not panic on any input.
pub decode_chunk_footer-ne-panic : (input : Bytes) → decode_chunk_footer input ≢ panic
decode_chunk_footer-ne-panic input = Ensures-ne-panic (decode-Ensures input)
