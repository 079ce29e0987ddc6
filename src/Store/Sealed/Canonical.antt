-- ===== src/Store/Sealed/Canonical.antt =====
-- Verification of a sealed chunk on arbitrary bytes.
use mathlib.Core.Path.{subst}
use gitdb.Base.{
  not, ℕ, ◌+◌, ◌^◌, ◌<◌, ◌≡◌, ◌↔◌, refl, sym, ap, ◌∙◌, arith, Bool, true, false, List, ◌++◌,
  append_assoc, length, length-append, drop, ltb, ◌==◌, ==_iff, drop-append,
}
use gitdb.Base.Bytes.{Bytes, AreBytes}
use gitdb.Base.Cuts.{AreBytes-drop}
use gitdb.Base.Result.{ok, >>=-eq-ok, reject_if, ok_or, ◌>>◌}
use gitdb.Core.Hashing.{Digest}
use gitdb.Format.Chunk.{ChunkHeader, encode_chunk_header}
use gitdb.Format.Chunk.RoundTrip.{IsHeader, length-encode}
use gitdb.Format.Crc.{crc_new, crc_update}
use gitdb.Format.Record.{ObjectRecord}
use gitdb.Format.Payload.{ZstdRead}
use gitdb.Store.{StoreError, read_chunk_header}
use gitdb.Store.Headers.{read_chunk_header-ok}
use gitdb.Store.Scan.{RecordScan, scan_records_with_visitor, scan_start}
use gitdb.Store.Scan.Rounds.{records_bytes, passed, Acceptable}
use gitdb.Store.Scan.Sound.{Scanned}
use gitdb.Format.Crc.{crc_finalize}
use gitdb.Format.Footer.{SealedChunkFooter, encode_chunk_footer}
use gitdb.Format.{checked_add, chunk_header_len, sealed_chunk_footer_len}
use gitdb.Format.Record.{checked_sub}
use gitdb.Store.{sealed_footer_mismatch}
use gitdb.Store.Recovery.Laws.{chunk_bytes}
use gitdb.Store.Sealed.{
  VerifiedSealedChunk, read_footer, verify_sealed_file, verify_sealed_file_with_visitor,
}
use gitdb.Store.{
  record_boundary, record_count_field, rolling_checksum, offset_overflow, sealed_footer_missing,
}
use gitdb.Store.Scan.Sound.{scan_records-Scanned}
use gitdb.Store.Sealed.Laws.{
  footer_of, sealed_bytes, Verified, verify_sealed_bytes, read_footer-ok, length-sealed_bytes,
}

three_checks :
    {E A : Type 0} (a b c : Bool) (x y z : E) (d d' : A)
    → (reject_if (not a) x >> (reject_if (not b) y >> (reject_if (not c) z >> ok d))) ≡ ok d'
    → (a ≡ true) × (b ≡ true) × (c ≡ true) × (d ≡ d')
three_checks true true true x y z d d' e = (refl, refl, refl, cc e)
three_checks true true false x y z d d' e = absurd (cc e)
three_checks true false c x y z d d' e = absurd (cc e)
three_checks false b c x y z d d' e = absurd (cc e)

footer_position :
    (size minimum offset : ℕ)
    → ok_or {E = StoreError} (checked_add 64 64) offset_overflow ≡ ok minimum
    → reject_if (ltb size minimum) sealed_footer_missing ≡ ok tt
    → ok_or (checked_sub size 64) offset_overflow ≡ ok offset
    → offset + 64 ≡ size
unfolding checked_add checked_sub
footer_position size minimum offset e f g = ground arith

-- The parts of a chunk that verified.
record Verifies (accepted : List ObjectRecord → Type 0) (file : Bytes) (v : VerifiedSealedChunk)
    : Type 0 where
  pub rs : List ObjectRecord
  pub is_chunk : IsHeader v.header
  pub verified : accepted rs
  pub layout : file ≡ sealed_bytes v.header rs
  pub described : v.footer ≡ footer_of rs

module _ (sha256_digest : Digest) (read_frame : Bytes → ZstdRead) where
  assemble :
      (file : Bytes) (header : ChunkHeader) (footer : SealedChunkFooter) (offset : ℕ)
      (scan : RecordScan)
      → Scanned
          (Acceptable sha256_digest read_frame true)
          true
          (drop 64 file)
          offset
          scan_start
          scan
      → file ≡ encode_chunk_header header ++ drop 64 file
      → IsHeader header
      → offset + 64 ≡ length file
      → drop offset file ≡ encode_chunk_footer footer
      → footer.final_length ≡ length file
      → (scan.records == footer.record_count) ≡ true
      → (crc_finalize scan.checksum == footer.records_crc32c) ≡ true
      → Verifies
          (Verified sha256_digest read_frame)
          file
          (record { header = header; footer = footer })
  unfolding passed
  assemble file header footer offset scan s cut is_header room tail final counted summed =
      let ended : 64 + length (records_bytes s.rs) ≡ offset =
        sym (ap (λ t. t.scan_end) s.result) ∙ s.complete refl in
      let file_cut : file ≡ chunk_bytes header s.rs ++ s.rest =
        cut
        ∙ ap (λ t. encode_chunk_header header ++ t) s.layout
        ∙ sym (append_assoc (encode_chunk_header header) (records_bytes s.rs) s.rest) in
      let front : length (chunk_bytes header s.rs) ≡ offset = omega (
        arith,
        length-append (encode_chunk_header header) (records_bytes s.rs),
        length-encode header,
        ended,
      ) in
      let rest_footer : s.rest ≡ encode_chunk_footer footer =
        sym (drop-append offset (chunk_bytes header s.rs) s.rest front)
        ∙ ap (drop offset) (sym file_cut)
        ∙ tail in
      let records : footer.record_count ≡ length s.rs =
        sym ((==_iff scan.records footer.record_count).0 counted)
        ∙ ap (λ t. t.records) s.result
        ∙ omega arith in
      let size : footer.final_length ≡ 64 + length (records_bytes s.rs) + 64 =
        omega (arith, final, room, ended) in
      let sum : footer.records_crc32c ≡ crc_finalize (crc_update crc_new (records_bytes s.rs)) =
        sym ((==_iff (crc_finalize scan.checksum) footer.records_crc32c).0 summed)
        ∙ ap (λ t. crc_finalize t.checksum) s.result in
      let described : footer ≡ footer_of s.rs = ground (arith, records, size, sum) in
      record {
        rs = s.rs;
        is_chunk = is_header;
        verified = s.accepted;
        layout =
            cut
            ∙ ap (λ t. encode_chunk_header header ++ t)
                (s.layout
                  ∙ ap (λ t. records_bytes s.rs ++ t)
                      (rest_footer ∙ ap encode_chunk_footer described));
        described = described;
      }

  verify-Verifies :
      (file : Bytes) (v : VerifiedSealedChunk)
      → AreBytes file
      → verify_sealed_file sha256_digest read_frame file ≡ ok v
      → Verifies (Verified sha256_digest read_frame) file v
  unfolding verify_sealed_file verify_sealed_file_with_visitor
  verify-Verifies file v bytes_in e =
      let (done, run, same) =
        >>=-eq-ok
          (verify_sealed_file_with_visitor sha256_digest read_frame (λ seen _ _ _. ok seen) file tt)
          (λ done. ok done.0) e in
      let (header, read, e1) = >>=-eq-ok (read_chunk_header file) _ run in
      let (minimum, min_eq, e2) =
        >>=-eq-ok (ok_or (checked_add chunk_header_len sealed_chunk_footer_len) offset_overflow) _
          e1 in
      let (_, long, e3) =
        >>=-eq-ok (reject_if (ltb (length file) minimum) sealed_footer_missing) _ e2 in
      let (offset, off_eq, e4) =
        >>=-eq-ok (ok_or (checked_sub (length file) sealed_chunk_footer_len) offset_overflow) _
          e3 in
      let (footer, footer_eq, e5) = >>=-eq-ok (read_footer file offset) _ e4 in
      let (scanned, scan_eq, e6) =
        >>=-eq-ok
          (scan_records_with_visitor sha256_digest read_frame (λ seen _ _ _. ok seen) file offset
            true tt)
          _ e5 in
      let (at_end, counted, summed, result) =
        three_checks (scanned.0.scan_end == offset) (scanned.0.records == footer.record_count)
          (crc_finalize scanned.0.checksum == footer.records_crc32c)
          (sealed_footer_mismatch record_boundary) (sealed_footer_mismatch record_count_field)
          (sealed_footer_mismatch rolling_checksum)
          (record { header = header; footer = footer }, scanned.1) done e6 in
      let (cut, is_header, has_header) = read_chunk_header-ok file header bytes_in read in
      let s =
        scan_records-Scanned sha256_digest read_frame (λ seen _ _ _. ok seen) true file
          (encode_chunk_header header) (drop 64 file) offset tt scanned.0 scanned.1 cut
          (AreBytes-drop 64 file bytes_in) (length-encode header) scan_eq in
      let room : offset + 64 ≡ length file =
        footer_position (length file) minimum offset min_eq long off_eq in
      let (tail, is_footer, final) =
        read_footer-ok sha256_digest read_frame file offset footer bytes_in room footer_eq in
      subst (Verifies (Verified sha256_digest read_frame) file) (ap (λ d. d.0) result ∙ cc same) (
        assemble file header footer offset scanned.0 s cut is_header room tail final counted summed)

  -- On any file of less than 2^64 bytes, verification as a sealed chunk succeeds with `v` exactly
  -- when the file is the header of `v`, the encodings of valid records whose payloads verify and
  -- that are of at most 64 MiB each, padding included, and a footer that holds their number, the
  -- file's length and the checksum of the records; and the footer of `v` is that one.
  pub verify_sealed_file_iff :
      (file : Bytes) (v : VerifiedSealedChunk)
      → AreBytes file
      → length file < 2 ^ 64
      → (verify_sealed_file sha256_digest read_frame file ≡ ok v) ↔ (
          (rs : List ObjectRecord) × IsHeader v.header
          × Verified sha256_digest read_frame rs
          × (file ≡ sealed_bytes v.header rs)
          × (v.footer ≡ footer_of rs))
  verify_sealed_file_iff file v bytes_in small = (
    λ e.
        let s = verify-Verifies file v bytes_in e in
        (s.rs, s.is_chunk, s.verified, s.layout, s.described),
    λ (rs, is_chunk, verified, layout, described).
        ap (verify_sealed_file sha256_digest read_frame) layout
        ∙ verify_sealed_bytes sha256_digest read_frame v.header rs is_chunk verified (
            omega (
              arith,
              ap length layout,
              length-sealed_bytes sha256_digest read_frame v.header rs,
              small,
            ))
        ∙ ap (λ f. ok (record { header = v.header; footer = f })) (sym described),
  )
