-- ===== src/Store/Sealed/Laws.antt =====
-- Verification of the bytes of a sealed chunk.
use mathlib.Core.Path.{subst}
use gitdb.Base.{
  not, ℕ, ◌+◌, ◌-◌, ◌^◌, ◌<◌, ◌≡◌, refl, sym, ap, ◌∙◌, arith, inl, inr, true, List, [], ◌++◌,
  append-nil, append_assoc, length, length-append, length-drop, length-take, take, drop,
  take-append-drop, All, ◌==◌, ==_refl, le→ltb, Bool-cases,
}
use gitdb.Base.Bytes.{Bytes, AreBytes}
use gitdb.Base.Cuts.{AreBytes-drop, take-all}
use gitdb.Base.Result.{ok, >>=-eq-ok, reject_if, ◌>>◌}
use gitdb.Core.Hashing.{Digest}
use gitdb.Format.Chunk.{ChunkHeader, encode_chunk_header}
use gitdb.Format.Chunk.RoundTrip.{IsHeader, length-encode}
use gitdb.Format.Crc.{Crc32c, crc_new, crc_update}
use gitdb.Format.Record.{ObjectRecord}
use gitdb.Format.Payload.{ZstdRead}
use gitdb.Store.Headers.{read_chunk_header_lem}
use gitdb.Store.Scan.Rounds.{records_bytes, passed, Acceptable}
use gitdb.Store.Scan.Whole.{scan_whole}
use gitdb.Format.Crc.{crc_finalize}
use gitdb.Format.Footer.{SealedChunkFooter, encode_chunk_footer, decode_chunk_footer}
use gitdb.Format.Footer.RoundTrip.{IsFooter}
use gitdb.Format.Footer.RoundTrip
use gitdb.Format.Footer.Canonical.{decode_chunk_footer_iff}
use gitdb.Format.{checked_add}
use gitdb.Format.Record.{checked_sub}
use gitdb.Store.{
  sealed_footer_mismatch, final_length_field, read_exact_at, read_exact_at_lem, read_exact_at-ok,
  from_format,
}
use gitdb.Store.Headers.{from_format-ok}
use gitdb.Store.Recovery.Laws.{chunk_bytes}
use gitdb.Store.Scan.Whole.{count-le}
use gitdb.Store.Sealed.{read_footer, verify_sealed_file, verify_sealed_file_with_visitor}

-- The footer of a chunk with the records `rs`.
abbrev pub footer_of : List ObjectRecord → SealedChunkFooter
footer_of rs = record {
  record_count = length rs;
  final_length = 64 + length (records_bytes rs) + 64;
  records_crc32c = crc_finalize (crc_update crc_new (records_bytes rs));
}

abbrev pub sealed_bytes : ChunkHeader → List ObjectRecord → Bytes
sealed_bytes h rs =
    encode_chunk_header h ++ (records_bytes rs ++ encode_chunk_footer (footer_of rs))

crc_finalize-lt : (c : Crc32c) → crc_finalize c < 2 ^ 32
unfolding crc_finalize
crc_finalize-lt c = omega arith

module _ (sha256_digest : Digest) (read_frame : Bytes → ZstdRead) where
  abbrev pub Verified : List ObjectRecord → Type 0
  Verified = All (Acceptable sha256_digest read_frame true)

  pub footer_of-IsFooter :
      (rs : List ObjectRecord)
      → Verified rs
      → 64 + length (records_bytes rs) + 64 < 2 ^ 64
      → IsFooter (footer_of rs)
  footer_of-IsFooter rs a small = record {
    record_count_fits =
        omega (
          arith,
          count-le (Acceptable sha256_digest read_frame true) (λ r p. p.0.valid) rs a,
          small,
        );
    final_length_fits = omega (arith, small);
    records_crc32c_fits = omega (arith, crc_finalize-lt (crc_update crc_new (records_bytes rs)));
  }

  pub length-sealed_bytes :
      (h : ChunkHeader) (rs : List ObjectRecord)
      → length (sealed_bytes h rs) ≡ 64 + length (records_bytes rs) + 64
  length-sealed_bytes h rs = omega (
    arith,
    length-append (encode_chunk_header h) (records_bytes rs ++ encode_chunk_footer (footer_of rs)),
    length-append (records_bytes rs) (encode_chunk_footer (footer_of rs)),
    length-encode h,
    RoundTrip.length-encode (footer_of rs),
  )

  footer_read :
      (h : ChunkHeader) (rs : List ObjectRecord)
      → IsFooter (footer_of rs)
      → read_footer (sealed_bytes h rs) (64 + length (records_bytes rs)) ≡ ok (footer_of rs)
  unfolding read_footer
  footer_read h rs v =
      let here : read_exact_at (sealed_bytes h rs) (64 + length (records_bytes rs)) 64
          ≡ ok (encode_chunk_footer (footer_of rs)) =
        ap (λ t. read_exact_at t (64 + length (records_bytes rs)) 64)
          (sym (
              append_assoc (encode_chunk_header h) (records_bytes rs)
                (encode_chunk_footer (footer_of rs)))
            ∙ ap (λ t. chunk_bytes h rs ++ t)
                (sym (append-nil (encode_chunk_footer (footer_of rs)))))
        ∙ read_exact_at_lem (chunk_bytes h rs) (encode_chunk_footer (footer_of rs)) []
            (64 + length (records_bytes rs)) 64
            (omega
              (arith, length-append (encode_chunk_header h) (records_bytes rs), length-encode h))
            (RoundTrip.length-encode (footer_of rs)) in
      let decoded : decode_chunk_footer (encode_chunk_footer (footer_of rs)) ≡ ok (footer_of rs) =
        ap decode_chunk_footer (sym (append-nil (encode_chunk_footer (footer_of rs))))
        ∙ RoundTrip.decode-encode (footer_of rs) [] v in
      rw (here, decoded, length-sealed_bytes h rs, ==_refl (64 + length (records_bytes rs) + 64))

  pub verify_sealed_bytes :
      (h : ChunkHeader) (rs : List ObjectRecord)
      → IsHeader h
      → Verified rs
      → 64 + length (records_bytes rs) + 64 < 2 ^ 64
      → verify_sealed_file sha256_digest read_frame (sealed_bytes h rs)
        ≡ ok (record { header = h; footer = footer_of rs })
  unfolding verify_sealed_file verify_sealed_file_with_visitor checked_add checked_sub passed
  verify_sealed_bytes h rs v a small =
      let size = length-sealed_bytes h rs in
      let counted : (0 + length rs == length rs) ≡ true = ground arith in
      let footer_at : 64 + length (records_bytes rs) + 64 - 64 ≡ 64 + length (records_bytes rs) =
        omega arith in
      rw (
        read_chunk_header_lem h (records_bytes rs ++ encode_chunk_footer (footer_of rs)) v,
        size,
        le→ltb (64 + length (records_bytes rs) + 64) 128 (omega arith),
        le→ltb (64 + length (records_bytes rs) + 64) 64 (omega arith),
        footer_at,
        footer_read h rs (footer_of-IsFooter rs a small),
        scan_whole sha256_digest read_frame (λ seen _ _ _. seen) true (encode_chunk_header h) rs
            (encode_chunk_footer (footer_of rs)) (64 + length (records_bytes rs)) tt a
            (length-encode h) refl (omega (arith, small)),
        ==_refl (64 + length (records_bytes rs)),
        counted,
        ==_refl (crc_finalize (crc_update crc_new (records_bytes rs))),
      )

  final_check :
      (footer footer' : SealedChunkFooter) (n : ℕ)
      → (reject_if (not (footer.final_length == n)) (sealed_footer_mismatch final_length_field)
          >> ok footer)
        ≡ ok footer'
      → (footer ≡ footer') × (footer.final_length ≡ n)
  final_check footer footer' n e = elim (Bool-cases (footer.final_length == n)) [
    | inl same ↦ (cc (rw same at e), ground (arith, same))
    | inr other ↦ absurd (ground (arith, other, e))
  ]

  pub read_footer-ok :
      (file : Bytes) (offset : ℕ) (footer : SealedChunkFooter)
      → AreBytes file
      → offset + 64 ≡ length file
      → read_footer file offset ≡ ok footer
      → (drop offset file ≡ encode_chunk_footer footer)
        × IsFooter footer
        × (footer.final_length ≡ length file)
  unfolding read_footer
  read_footer-ok file offset footer bytes_in at_end e =
      let (bytes, read, e1) = >>=-eq-ok (read_exact_at file offset 64) _ e in
      let (footer', decoded, e2) = >>=-eq-ok (from_format (decode_chunk_footer bytes)) _ e1 in
      let (same, long) = final_check footer' footer (length file) e2 in
      let size_pre : length (take offset file) ≡ offset =
        omega (arith, length-take offset file, at_end) in
      let (front, room) =
        read_exact_at-ok (take offset file) (drop offset file) bytes offset 64 size_pre
          (ap (λ t. read_exact_at t offset 64) (take-append-drop offset file) ∙ read) in
      let whole : bytes ≡ drop offset file =
        front ∙ take-all (drop offset file) 64 (omega (arith, length-drop offset file, at_end)) in
      let (wrote, v) =
        (decode_chunk_footer_iff bytes footer'
            (subst AreBytes (sym whole) (AreBytes-drop offset file bytes_in))).0
          (from_format-ok (decode_chunk_footer bytes) decoded) in
      let size : 64 ≡ length bytes =
        omega (arith, ap length whole, length-drop offset file, at_end) in
      (
        sym whole ∙ sym (take-all bytes 64 size) ∙ wrote ∙ ap encode_chunk_footer same,
        subst IsFooter same v,
        ap (λ f. f.final_length) (sym same) ∙ long,
      )
