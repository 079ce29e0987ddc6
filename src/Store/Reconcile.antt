-- ===== src/Store/Reconcile.antt =====
-- `reconcile_chunk` and `ChunkWriter::open_recovered` of crates/reflink-forest-store/src/lib.rs:
-- what a restart does with the two names of one chunk and its catalog entry.
pub mod Laws
pub mod Publishes
use gitdb.Base.{ℕ, true, Option, none, some, length}
use gitdb.Base.Bytes.{Bytes}
use gitdb.Base.Result.{Result, panic, ok, err, ◌>>=◌, ◌>>◌}
use gitdb.Core.Hashing.{Digest}
use gitdb.Format.Payload.{ZstdRead, not_found}
use gitdb.Index.{InMemoryCatalog}
use gitdb.Index.Batch.{chunk}
use gitdb.Store.{
  StoreError, Extension, open_extension, sealed_extension, other_extension, io, not_an_open_chunk,
  not_a_sealed_chunk, conflicting_chunk_paths, open_chunk_contains_sealed_footer, read_chunk_header,
}
use gitdb.Store.Recovery.{Recovery, recover_file, refuse_sealed}
use gitdb.Store.Scan.{scan_records}
use gitdb.Store.Sealed.{VerifiedSealedChunk, verify_sealed_file}
use gitdb.Store.Writer.{
  ChunkWriter, ChunkFiles, SealedChunk, ensure_catalog_writable, publish_open,
  publish_sealed_metadata,
}

-- `ChunkReconciliation`
pub data ChunkReconciliation : Type 0 where
  as_open : Recovery → ChunkReconciliation
  as_sealed : SealedChunk → ChunkReconciliation

abbrev pub Reconciled : Type 0
Reconciled = ChunkFiles × InMemoryCatalog × Result StoreError ChunkReconciliation

-- `chunk_path_pair`, as a check of the path's extension
unfoldable pub check_path_pair : Extension → Result StoreError (Unit {0})
check_path_pair open_extension = ok tt
check_path_pair sealed_extension = ok tt
check_path_pair other_extension = err not_an_open_chunk

module _ (sha256_digest : Digest) (read_frame : Bytes → ZstdRead) where
  -- `verify_sealed_chunk`
  unfoldable pub verify_sealed_chunk : Extension → Bytes → Result StoreError SealedChunk
  verify_sealed_chunk sealed_extension file = do
    verified ← verify_sealed_file sha256_digest read_frame file
    ok (record { header = verified.header; footer = verified.footer })
  verify_sealed_chunk _ file = err not_a_sealed_chunk

  unfoldable pub verify_open : Bytes → Result StoreError VerifiedSealedChunk → Result StoreError ℕ
  verify_open file (ok verified) = ok verified.footer.record_count
  verify_open file panic = panic
  verify_open file (err _) =
      scan_records sha256_digest read_frame file (length file) true >>= λ scan. ok scan.records

  -- `verify_chunk`
  unfoldable pub verify_chunk : Extension → Bytes → Result StoreError ℕ
  unfolding verify_open verify_sealed_chunk
  verify_chunk sealed_extension file =
      verify_sealed_chunk sealed_extension file >>= λ sealed. ok sealed.footer.record_count
  verify_chunk open_extension file = read_chunk_header file >>= λ _.
      verify_open file (verify_sealed_file sha256_digest read_frame file)
  verify_chunk other_extension file = err not_an_open_chunk

  -- The writer of `open_recovered`, for the recovered file
  unfoldable pub writer_of :
      Bytes × Result StoreError Recovery → Bytes × Result StoreError (ChunkWriter × Recovery)
  writer_of (file, panic) = (file, panic)
  writer_of (file, err e) = (file, err e)
  writer_of (file, ok recovery) = (
    file,
    ok (
      record {
        file = file;
        header = recovery.header;
        next_offset = length file;
        record_count = recovery.valid_records;
        records_crc32c = recovery.records_crc32c;
      },
      recovery,
    ),
  )

  -- `ChunkWriter::open_recovered`
  unfoldable pub open_recovered :
      Extension → Bytes → Bytes × Result StoreError (ChunkWriter × Recovery)
  unfolding writer_of
  open_recovered open_extension file = writer_of (
      refuse_sealed sha256_digest read_frame (verify_sealed_file sha256_digest read_frame file)
        file)
  open_recovered _ file = (file, err not_an_open_chunk)

  -- The sealed file is verified and published.
  unfoldable pub publish_verified :
      ChunkFiles → InMemoryCatalog → Result StoreError SealedChunk → Reconciled
  publish_verified files c panic = (files, c, panic)
  publish_verified files c (err e) = (files, c, err e)
  publish_verified files c (ok sealed) =
      let (c', done) = publish_sealed_metadata c sealed.header sealed.footer in
      (files, c', done >> ok (as_sealed sealed))

  -- The writer that is opened on the recovered file publishes it.
  unfoldable pub publish_reopened :
      InMemoryCatalog → Recovery → Bytes × Result StoreError (ChunkWriter × Recovery) → Reconciled
  publish_reopened c recovery (file, panic) =
      (record { open_file = some file; sealed_file = none }, c, panic)
  publish_reopened c recovery (file, err e) =
      (record { open_file = some file; sealed_file = none }, c, err e)
  publish_reopened c recovery (file, ok (w, again)) =
      let (c', done) = publish_open w c in
      (record { open_file = some file; sealed_file = none }, c', done >> ok (as_open recovery))

  unfoldable pub reopen : InMemoryCatalog → Bytes × Result StoreError Recovery → Reconciled
  unfolding open_recovered publish_reopened
  reopen c (file, panic) = (record { open_file = some file; sealed_file = none }, c, panic)
  reopen c (file, err e) = (record { open_file = some file; sealed_file = none }, c, err e)
  reopen c (file, ok recovery) = publish_reopened c recovery (open_recovered open_extension file)

  -- `read_chunk_header`, then the check of the catalog's state
  unfoldable pub check_not_sealed : InMemoryCatalog → Bytes → Result StoreError (Unit {0})
  check_not_sealed c file = read_chunk_header file >>= ensure_catalog_writable c

  unfoldable pub recover_checked :
      InMemoryCatalog → Bytes → Result StoreError (Unit {0}) → Reconciled
  unfolding reopen
  recover_checked c file panic = (record { open_file = some file; sealed_file = none }, c, panic)
  recover_checked c file (err e) = (record { open_file = some file; sealed_file = none }, c, err e)
  recover_checked c file (ok _) = reopen c (recover_file sha256_digest read_frame file)

  -- The open file: with a complete footer it is renamed and published as sealed, else it is
  -- recovered.
  unfoldable pub reconcile_open :
      InMemoryCatalog → Bytes → Result StoreError VerifiedSealedChunk → Reconciled
  unfolding publish_verified recover_checked check_not_sealed
  reconcile_open c file (ok verified) =
      publish_verified (record { open_file = none; sealed_file = some file }) c
        (ok (record { header = verified.header; footer = verified.footer }))
  reconcile_open c file panic = (record { open_file = some file; sealed_file = none }, c, panic)
  reconcile_open c file (err _) = recover_checked c file (check_not_sealed c file)

  unfoldable pub reconcile_files :
      (open_file sealed_file : Option Bytes) → InMemoryCatalog → Reconciled
  unfolding reconcile_open publish_verified verify_sealed_chunk
  reconcile_files (some o) (some f) c =
      (record { open_file = some o; sealed_file = some f }, c, err conflicting_chunk_paths)
  reconcile_files none (some f) c =
      publish_verified (record { open_file = none; sealed_file = some f }) c
        (verify_sealed_chunk sealed_extension f)
  reconcile_files none none c =
      (record { open_file = none; sealed_file = none }, c, err (io not_found))
  reconcile_files (some o) none c =
      reconcile_open c o (verify_sealed_file sha256_digest read_frame o)

  unfoldable pub reconcile_checked :
      Result StoreError (Unit {0}) → ChunkFiles → InMemoryCatalog → Reconciled
  unfolding reconcile_files
  reconcile_checked panic files c = (files, c, panic)
  reconcile_checked (err e) files c = (files, c, err e)
  reconcile_checked (ok _) files c = reconcile_files files.open_file files.sealed_file c

  -- `reconcile_chunk`
  unfoldable pub reconcile_chunk : InMemoryCatalog → Extension → ChunkFiles → Reconciled
  unfolding reconcile_checked check_path_pair
  reconcile_chunk c extension files = reconcile_checked (check_path_pair extension) files c
