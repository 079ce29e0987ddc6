-- ===== src/Store/Recovery/Sound.antt =====
-- Recovery of files with arbitrary bytes.
use gitdb.Base.{
  ℕ, suc, ◌+◌, ◌^◌, ◌≤◌, ◌<◌, ◌≡◌, ◌≢◌, refl, sym, ap, ap₂, ◌∙◌, arith, false, List, [], ◌∷◌, ◌++◌,
  append_assoc, length, length-append, drop, All, ltb,
}
use gitdb.Base.Bytes.{Bytes, AreBytes}
use gitdb.Base.Cuts.{AreBytes-drop}
use gitdb.Base.Result.{Result, panic, ok, err, >>=-eq-ok, IsSafe, IsSafe-ok, IsSafe-bind, reject_if}
use gitdb.Core.Hashing.{Digest}
use gitdb.Format.{truncated}
use gitdb.Format.Chunk.{ChunkHeader, encode_chunk_header}
use gitdb.Format.Chunk.RoundTrip.{IsHeader, length-encode}
use gitdb.Format.Record.{ObjectRecord}
use gitdb.Format.Payload.{ZstdRead}
use gitdb.Store.{StoreError, format, read_chunk_header}
use gitdb.Store.Headers.{read_chunk_header-ok, read_chunk_header-IsSafe}
use gitdb.Store.Recovery.{Recovery, recovered, scan_open, recover_file}
use gitdb.Store.Scan.{RecordScan, scan_loop, scan_records, scan_records_with_visitor, scan_start}
use gitdb.Store.Scan.Candidate.{IsScannable}
use gitdb.Store.Scan.Rounds.{records_bytes, Acceptable}
use gitdb.Store.Scan.Sound.{scan_loop-Scanned}
use gitdb.Store.Scan.Total.{scan_records-IsSafe}
use gitdb.Store.Recovery.Laws.{chunk_bytes, recovery_of, recovered-kept, recover_file-whole}

-- A file is a valid chunk with bytes behind it that recovery takes off.
pub record Kept (file file' : Bytes) (recovery : Recovery) : Type 0 where
  pub header : ChunkHeader
  pub rs : List ObjectRecord
  pub lost : Bytes
  pub is_chunk : IsHeader header
  pub are_stored : All IsScannable rs
  pub was : file ≡ chunk_bytes header rs ++ lost
  pub left : file' ≡ chunk_bytes header rs
  pub reported : recovery ≡ recovery_of header rs (length lost)

module _ (sha256_digest : Digest) (read_frame : Bytes → ZstdRead) where
  All-IsScannable :
      (rs : List ObjectRecord)
      → All (Acceptable sha256_digest read_frame false) rs
      → All IsScannable rs
  All-IsScannable [] a = tt
  All-IsScannable (r ∷ rs) a = (a.0.0, All-IsScannable rs a.1)

  recovered-ok :
      (file file' : Bytes) (m : Result StoreError (ChunkHeader × RecordScan)) (recovery : Recovery)
      → recovered file m ≡ (file', ok recovery)
      → (h : ChunkHeader) × (scan : RecordScan) × (m ≡ ok (h, scan))
        × (recovered file (ok (h, scan)) ≡ (file', ok recovery))
  unfolding recovered
  recovered-ok file file' panic recovery e = absurd (cc)
  recovered-ok file file' (err x) recovery e = absurd (cc)
  recovered-ok file file' (ok (h, scan)) recovery e = (h, scan, refl, e)

  scan_records-loop :
      (file : Bytes) (end_at : ℕ) (scan : RecordScan)
      → scan_records sha256_digest read_frame file end_at false ≡ ok scan
      → (64 ≤ end_at)
        × (scan_loop sha256_digest read_frame
              (λ seen _ _ _. ok seen)
              false
              file
              end_at
              (suc end_at)
              scan_start
              tt
            ≡ ok (scan, tt))
  unfolding scan_records scan_records_with_visitor
  scan_records-loop file end_at scan e =
      let (done, ran, same) =
        >>=-eq-ok
          (scan_records_with_visitor sha256_digest read_frame (λ seen _ _ _. ok seen) file end_at
            false tt)
          (λ done. ok done.0) e in
      let (_, long, loops) = >>=-eq-ok (reject_if (ltb end_at 64) (format truncated)) _ ran in
      let first : done.0 ≡ scan = cc same in
      (ground (arith, long), loops ∙ ap (λ t. ok (t, tt)) first)

  -- Whatever a file holds, when its recovery succeeds, the file was an encoded chunk header and the
  -- encodings of zero or more valid records of at most 64 MiB each, padding included, with further
  -- bytes behind them; it is cut to the header and those records, and the report gives the header,
  -- their number and length, the bytes removed, and their checksum.
  pub recover_file-Kept :
      (file file' : Bytes) (recovery : Recovery)
      → AreBytes file
      → recover_file sha256_digest read_frame file ≡ (file', ok recovery)
      → Kept file file' recovery
  unfolding recover_file scan_open
  recover_file-Kept file file' recovery bytes_in e =
      let (h, scan, opened, rest) =
        recovered-ok file file' (scan_open sha256_digest read_frame file) recovery e in
      let (h', read, e1) = >>=-eq-ok (read_chunk_header file) _ opened in
      let (scan', scanned, same) =
        >>=-eq-ok (scan_records sha256_digest read_frame file (length file) false) _ e1 in
      let (cut, v, long) = read_chunk_header-ok file h' bytes_in read in
      let (_, ran) = scan_records-loop file (length file) scan' scanned in
      let s =
        scan_loop-Scanned sha256_digest read_frame (λ seen _ _ _. ok seen) false file
          (encode_chunk_header h') (drop 64 file) (length file) (suc (length file)) scan_start tt
          scan' tt cut (AreBytes-drop 64 file bytes_in) (length-encode h') long ran in
      let chunk_cut : file ≡ chunk_bytes h' s.rs ++ s.rest =
        cut
        ∙ ap (λ t. encode_chunk_header h' ++ t) s.layout
        ∙ sym (append_assoc (encode_chunk_header h') (records_bytes s.rs) s.rest) in
      let final =
        sym rest
        ∙ ap₂ recovered chunk_cut (sym same ∙ ap (λ t. ok (h', t)) s.result)
        ∙ recovered-kept sha256_digest read_frame h' s.rs s.rest in
      record {
        header = h';
        rs = s.rs;
        lost = s.rest;
        is_chunk = v;
        are_stored = All-IsScannable s.rs s.accepted;
        was = chunk_cut;
        left = ap (λ p. p.0) final;
        reported = cc (ap (λ p. p.1) final);
      }

  -- Recovering the recovered file changes nothing and reports the same records, with no byte removed.
  pub recover_file-idempotent :
      (file file' : Bytes) (recovery : Recovery)
      → AreBytes file
      → length file < 2 ^ 64
      → recover_file sha256_digest read_frame file ≡ (file', ok recovery)
      → recover_file sha256_digest read_frame file'
        ≡ (file', ok (record recovery { truncated_bytes = 0 }))
  recover_file-idempotent file file' recovery bytes_in small e =
      let k = recover_file-Kept file file' recovery bytes_in e in
      let size : 64 + length (records_bytes k.rs) < 2 ^ 64 = omega (
        arith,
        ap length k.was,
        length-append (chunk_bytes k.header k.rs) k.lost,
        length-append (encode_chunk_header k.header) (records_bytes k.rs),
        length-encode k.header,
        small,
      ) in
      ap (recover_file sha256_digest read_frame) k.left
      ∙ recover_file-whole sha256_digest read_frame k.header k.rs k.is_chunk k.are_stored size
      ∙ ap₂ (λ (f : Bytes) (r : Recovery). (f, ok (record r { truncated_bytes = 0 }))) (sym k.left)
          (sym k.reported)

  recovered-IsSafe :
      (file : Bytes) (m : Result StoreError (ChunkHeader × RecordScan))
      → IsSafe m
      → (recovered file m).1 ≢ panic
  unfolding recovered
  recovered-IsSafe file panic s e = s.no_panic refl
  recovered-IsSafe file (err x) s e = cc
  recovered-IsSafe file (ok (h, scan)) s e = cc

  -- Recovery of any file returns a report or an error.
  pub recover_file-ne-panic :
      (file : Bytes) → AreBytes file → (recover_file sha256_digest read_frame file).1 ≢ panic
  unfolding recover_file scan_open
  recover_file-ne-panic file bytes_in =
      recovered-IsSafe file (scan_open sha256_digest read_frame file) (
        IsSafe-bind (read_chunk_header file) _ (read_chunk_header-IsSafe file) (λ h _.
          IsSafe-bind (scan_records sha256_digest read_frame file (length file) false) _
            (unfold scan_records in
              IsSafe-bind _ _
                (record {
                  no_panic =
                      scan_records-IsSafe sha256_digest read_frame (λ seen _ _ _. ok seen)
                        (λ seen _ _ _. IsSafe-ok seen) false file (length file) tt bytes_in
                        (omega arith);
                })
                (λ done _. IsSafe-ok done.0))
            (λ scan _. IsSafe-ok (h, scan))))
