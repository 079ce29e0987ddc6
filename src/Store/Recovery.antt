-- ===== src/Store/Recovery.antt =====
-- Recovery of open chunks in crates/reflink-forest-store/src/lib.rs: `recover_file` and
-- `recover_open_chunk`. A function that changes a file returns its bytes with the result.
pub mod Laws
pub mod Sound
use gitdb.Base.{ℕ, ◌-◌, false, ◌==◌, length, take, if◌then◌else◌}
use gitdb.Base.Bytes.{Bytes}
use gitdb.Base.Result.{Result, panic, ok, err, ◌>>=◌}
use gitdb.Core.Hashing.{Digest}
use gitdb.Format.Chunk.{ChunkHeader}
use gitdb.Format.Crc.{Crc32c}
use gitdb.Format.Payload.{ZstdRead}
use gitdb.Store.{StoreError, open_chunk_contains_sealed_footer, read_chunk_header}
use gitdb.Store.Scan.{RecordScan, scan_records}
use gitdb.Store.Sealed.{VerifiedSealedChunk, verify_sealed_file}

pub record Recovery : Type 0 where
  pub header : ChunkHeader
  pub valid_records : ℕ
  pub retained_bytes : ℕ
  pub truncated_bytes : ℕ
  pub records_crc32c : Crc32c

-- `set_len` and `Recovery` after the scan, which ends within the file
unfoldable pub recovered :
    Bytes → Result StoreError (ChunkHeader × RecordScan) → Bytes × Result StoreError Recovery
recovered file panic = (file, panic)
recovered file (err e) = (file, err e)
recovered file (ok (header, scan)) = (
  if scan.scan_end == length file then file else take scan.scan_end file,
  ok (record {
    header = header;
    valid_records = scan.records;
    retained_bytes = scan.scan_end;
    truncated_bytes = length file - scan.scan_end;
    records_crc32c = scan.checksum;
  }),
)

module _ (sha256_digest : Digest) (read_frame : Bytes → ZstdRead) where
  unfoldable pub scan_open : Bytes → Result StoreError (ChunkHeader × RecordScan)
  scan_open file = do
    header ← read_chunk_header file
    scan ← scan_records sha256_digest read_frame file (length file) false
    ok (header, scan)

  unfoldable pub recover_file : Bytes → Bytes × Result StoreError Recovery
  unfolding recovered scan_open
  recover_file file = recovered file (scan_open file)

  unfoldable pub refuse_sealed :
      Result StoreError VerifiedSealedChunk → Bytes → Bytes × Result StoreError Recovery
  unfolding recover_file
  refuse_sealed (ok verified) file = (file, err open_chunk_contains_sealed_footer)
  refuse_sealed (err e) file = recover_file file
  refuse_sealed panic file = (file, panic)

  unfoldable pub recover_open_chunk : Bytes → Bytes × Result StoreError Recovery
  unfolding refuse_sealed
  recover_open_chunk file = refuse_sealed (verify_sealed_file sha256_digest read_frame file) file
