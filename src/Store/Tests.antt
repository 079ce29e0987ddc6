-- ===== src/Store/Tests.antt =====
-- Runs of the chunk store's theorems on samples.
use gitdb.Base.{
  ℕ, ◌+◌, ◌≡◌, ◌≢◌, ◌↔◌, refl, arith, false, none, some, List, [], ◌∷◌, ◌++◌, length, inl,
  replicate, take, drop,
}
use gitdb.Base.Bytes.{Bytes, AreBytes, are_bytes-AreBytes, be, put_at}
use gitdb.Base.Result.{IsSafe-ok, ok, panic}
use gitdb.Core.{kind_tag, algorithm_tag, oid_len, as_bytes}
use gitdb.Core.Hashing.{content_id_for_object, content_finalize, content_update, content_new}
use gitdb.Core.Samples.{first_bytes}
use gitdb.Format.{codec_tag}
use gitdb.Format.Chunk.{ChunkHeader, encode_chunk_header}
use gitdb.Format.Chunk.RoundTrip.{IsHeader}
use gitdb.Format.Crc.{crc32c, crc32c_with_zeroed_field, crc_new, crc_update, crc_finalize}
use gitdb.Format.Footer.{encode_chunk_footer}
use gitdb.Format.Payload.Samples.{
  plain_frame, stored_record, stored_record-IsRecord, stored_record-verified,
}
use gitdb.Format.Record.{ObjectRecord, encode_oid_fixed}
use gitdb.Format.Record.Layout.{header_crc}
use gitdb.Index.Batch.{chunk}
use gitdb.Index.{
  ChunkMetadata, RepoId, InMemoryCatalog, object_location, oid_alias, open_state, sealed_state,
}
use gitdb.Base.Table.{get}
use gitdb.Store.{open_extension}
use gitdb.Store.Scan.{Visitor, scan_records_with_visitor}
use gitdb.Store.Scan.Candidate.{IsScannable, record_bytes}
use gitdb.Store.Scan.Rounds.{records_bytes}
use gitdb.Store.Scan.Total.{scan_records-IsSafe}
use gitdb.Store.Sealed.{VerifiedSealedChunk, verify_sealed_file}
use gitdb.Store.Sealed.Laws.{footer_of, sealed_bytes, Verified}
use gitdb.Store.Sealed.Canonical.{verify_sealed_file_iff}
use gitdb.Store.Recovery.{recover_file}
use gitdb.Store.Recovery.Laws.{chunk_bytes, recovery_of, recover_file-crash, recover_file-oversized}
use gitdb.Store.Recovery.Sound.{Kept, recover_file-Kept, recover_file-idempotent}
use gitdb.Store.Writer.Progress.{append_and_index_lem, seal_and_publish_lem}
use gitdb.Store.Writer.{
  require_not_retired, RecordLocation, SealedChunk, ensure_catalog_writable, require_open,
  ChunkWriter, ChunkFiles, append, append_and_index, create, seal_and_publish,
}
use gitdb.Store.Writer.Laws.{Wrote, create-Wrote, appended, append_lem}
use gitdb.Store.Writer.Index.{Outcome}
use gitdb.Store.Writer.Seal.{Sealing}
use gitdb.Store.Read.{read_record_at}
use gitdb.Store.Read.Laws.{location_in}
use gitdb.Store.Reconcile.Publishes.{reconcile_chunk_publishes}
use gitdb.Store.Samples.{oversized_record, oversized_record-IsRecord, length-oversized_record}
use gitdb.Store.Reconcile.{Reconciled, as_sealed, reconcile_chunk}
use gitdb.Store.Reconcile.Laws.{reconcile_chunk_closed}

abbrev sample_header : ChunkHeader
sample_header = record { generation = 3; chunk_id = 9; created_unix_secs = 1000; flags = 1 }

sample_header-IsHeader : IsHeader sample_header
sample_header-IsHeader = record {
  generation_fits = omega arith;
  chunk_id_fits = omega arith;
  created_fits = omega arith;
  flags_fits = omega arith;
}

stored_record-IsScannable : IsScannable stored_record
stored_record-IsScannable = record { valid = stored_record-IsRecord; fits = omega arith }

stored-Verified : Verified (first_bytes 32) plain_frame (stored_record ∷ [])
stored-Verified = ((stored_record-IsScannable, λ _. stored_record-verified), tt)

-- The first bytes of a record whose append was cut short
abbrev cut : Bytes
cut = take 140 (record_bytes stored_record)

-- An open chunk of the record with a second copy cut short
abbrev crashed : Bytes
crashed = chunk_bytes sample_header (stored_record ∷ []) ++ cut

recover_file-crash_example :
    recover_file (first_bytes 32) plain_frame (chunk_bytes sample_header [] ++ cut)
    ≡ (chunk_bytes sample_header [], ok (recovery_of sample_header [] (length cut)))
unfolding record_bytes records_bytes be content_id_for_object content_finalize content_update
    content_new encode_oid_fixed put_at as_bytes oid_len
recover_file-crash_example =
    recover_file-crash (first_bytes 32) plain_frame sample_header [] stored_record cut
      (drop 140 (record_bytes stored_record)) sample_header-IsHeader tt stored_record-IsRecord refl
      (omega arith) (omega arith)

crashed-AreBytes : AreBytes crashed
unfolding record_bytes records_bytes be content_id_for_object content_finalize content_update
    content_new encode_oid_fixed put_at encode_chunk_header crc32c crc32c_with_zeroed_field
    header_crc kind_tag codec_tag algorithm_tag as_bytes oid_len
crashed-AreBytes = are_bytes-AreBytes crashed refl

-- The crashed chunk is recovered to the record's, with a report.
recovered_crash : recover_file (first_bytes 32) plain_frame crashed ≡ (
  chunk_bytes sample_header (stored_record ∷ []),
  ok (recovery_of sample_header (stored_record ∷ []) (length cut)),
)
unfolding record_bytes records_bytes be content_id_for_object content_finalize content_update
    content_new encode_oid_fixed put_at as_bytes oid_len
recovered_crash =
    recover_file-crash (first_bytes 32) plain_frame sample_header (stored_record ∷ []) stored_record
      cut (drop 140 (record_bytes stored_record)) sample_header-IsHeader
      (stored_record-IsScannable, tt) stored_record-IsRecord refl (omega arith) (omega arith)

recover_file-Kept_example :
    Kept crashed
      (chunk_bytes sample_header (stored_record ∷ []))
      (recovery_of sample_header (stored_record ∷ []) (length cut))
recover_file-Kept_example =
    recover_file-Kept (first_bytes 32) plain_frame crashed
      (chunk_bytes sample_header (stored_record ∷ []))
      (recovery_of sample_header (stored_record ∷ []) (length cut)) crashed-AreBytes recovered_crash

recover_file-idempotent_example :
    recover_file (first_bytes 32) plain_frame (chunk_bytes sample_header (stored_record ∷ [])) ≡ (
      chunk_bytes sample_header (stored_record ∷ []),
      ok (recovery_of sample_header (stored_record ∷ []) 0),
    )
unfolding record_bytes records_bytes be content_id_for_object content_finalize content_update
    content_new encode_oid_fixed put_at as_bytes oid_len encode_chunk_header
recover_file-idempotent_example =
    recover_file-idempotent (first_bytes 32) plain_frame crashed
      (chunk_bytes sample_header (stored_record ∷ []))
      (recovery_of sample_header (stored_record ∷ []) (length cut)) crashed-AreBytes (omega arith)
      recovered_crash

-- A visitor that counts the records
abbrev counting : Visitor ℕ
counting seen offset r encoded_len = ok (seen + 1)

scan_records-IsSafe_example :
    scan_records_with_visitor (first_bytes 32) plain_frame counting crashed (length crashed) false 0
    ≢ panic
scan_records-IsSafe_example =
    scan_records-IsSafe (first_bytes 32) plain_frame counting
      (λ seen offset r encoded_len. IsSafe-ok (seen + 1)) false crashed (length crashed) 0
      crashed-AreBytes (omega arith)

abbrev sealed_file : Bytes
sealed_file = sealed_bytes sample_header (stored_record ∷ [])

sealed_file-AreBytes : AreBytes sealed_file
unfolding record_bytes records_bytes be content_id_for_object content_finalize content_update
    content_new encode_oid_fixed put_at encode_chunk_footer encode_chunk_header crc32c
    crc32c_with_zeroed_field header_crc kind_tag codec_tag algorithm_tag crc_update crc_finalize
    as_bytes oid_len
sealed_file-AreBytes = are_bytes-AreBytes sealed_file refl

abbrev verified_chunk : VerifiedSealedChunk
verified_chunk = record { header = sample_header; footer = footer_of (stored_record ∷ []) }

verify_sealed_file_iff_example :
    (verify_sealed_file (first_bytes 32) plain_frame sealed_file ≡ ok verified_chunk) ↔ (
      (rs : List ObjectRecord) × IsHeader sample_header
      × Verified (first_bytes 32) plain_frame rs
      × (sealed_file ≡ sealed_bytes sample_header rs)
      × (footer_of (stored_record ∷ []) ≡ footer_of rs))
unfolding record_bytes records_bytes be content_id_for_object content_finalize content_update
    content_new encode_oid_fixed put_at encode_chunk_header encode_chunk_footer as_bytes oid_len
verify_sealed_file_iff_example =
    verify_sealed_file_iff (first_bytes 32) plain_frame sealed_file verified_chunk
      sealed_file-AreBytes (omega arith)

-- A new writer, whose chunk has no record
abbrev new_writer : ChunkWriter
new_writer = record {
  file = encode_chunk_header sample_header;
  header = sample_header;
  next_offset = 64;
  record_count = 0;
  records_crc32c = crc_new;
}

new_writer-Wrote : Wrote (first_bytes 32) plain_frame new_writer []
unfolding create
new_writer-Wrote =
    create-Wrote (first_bytes 32) plain_frame sample_header new_writer sample_header-IsHeader refl

append_lem_example :
    (append (first_bytes 32) plain_frame new_writer stored_record ≡ (
      appended (first_bytes 32) plain_frame new_writer stored_record,
      ok (record {
        offset = length new_writer.file;
        record_length = length (record_bytes stored_record);
      }),
    ))
    × Wrote
        (first_bytes 32)
        plain_frame
        (appended (first_bytes 32) plain_frame new_writer stored_record)
        (stored_record ∷ [])
unfolding record_bytes records_bytes be content_id_for_object content_finalize content_update
    content_new encode_oid_fixed put_at as_bytes oid_len
append_lem_example =
    append_lem (first_bytes 32) plain_frame new_writer [] stored_record new_writer-Wrote
      stored_record-IsRecord stored_record-verified (omega arith)

abbrev empty : InMemoryCatalog
empty = record {
  objects = [];
  rebuilding = false;
  aliases = [];
  repositories = [];
  repository_snapshots = [];
  chunks = [];
  metas = [];
  workspaces = [];
  workspace_names = [];
  workspace_pins = [];
  gc_pins = [];
  jobs = [];
}

abbrev sample_repo : RepoId
sample_repo = replicate 16 1

append_and_index_lem_example :
    (w' : ChunkWriter) × (d : InMemoryCatalog) × (l : RecordLocation) × (◌≡◌ {A = Outcome}
      (append_and_index (first_bytes 32) plain_frame new_writer empty sample_repo 3 9 stored_record)
      (w', d, ok (some l)))
    × Wrote (first_bytes 32) plain_frame w' (stored_record ∷ [])
    × (object_location d stored_record.content_id
        ≡ some (location_in sample_header [] stored_record))
    × (oid_alias d sample_repo stored_record.primary_oid ≡ some stored_record.content_id)
    × (chunk d 3 9 ≡ some (record { state = open_state; size = length w'.file; record_count = 1 }))
    × (read_record_at
          (first_bytes 32)
          plain_frame
          w'.file
          (location_in sample_header [] stored_record)
        ≡ ok stored_record)
unfolding record_bytes records_bytes be content_id_for_object content_finalize content_update
    content_new encode_oid_fixed put_at as_bytes oid_len encode_chunk_header ensure_catalog_writable
    require_open chunk object_location oid_alias get
append_and_index_lem_example =
    append_and_index_lem (first_bytes 32) plain_frame new_writer empty sample_repo [] stored_record
      new_writer-Wrote stored_record-IsRecord stored_record-verified (omega arith) refl refl refl
      (λ id e. absurd (cc))

-- The files of the chunk with its first record
abbrev open_files : ChunkFiles
open_files = record {
  open_file = some (chunk_bytes sample_header (stored_record ∷ []));
  sealed_file = none;
}

first-Wrote :
    Wrote
      (first_bytes 32)
      plain_frame
      (appended (first_bytes 32) plain_frame new_writer stored_record)
      (stored_record ∷ [])
unfolding record_bytes records_bytes be content_id_for_object content_finalize content_update
    content_new encode_oid_fixed put_at as_bytes oid_len
first-Wrote =
    (append_lem (first_bytes 32) plain_frame new_writer [] stored_record new_writer-Wrote
      stored_record-IsRecord stored_record-verified (omega arith)).1

seal_and_publish_lem_example :
    (files' : ChunkFiles) × (d : InMemoryCatalog) × (sealed : SealedChunk) × (◌≡◌ {A = Sealing}
      (seal_and_publish
        (appended (first_bytes 32) plain_frame new_writer stored_record)
        empty
        open_files)
      (files', d, ok sealed))
    × (files' ≡ record { open_file = none; sealed_file = some sealed_file })
    × (sealed ≡ record { header = sample_header; footer = footer_of (stored_record ∷ []) })
    × (verify_sealed_file (first_bytes 32) plain_frame sealed_file
        ≡ ok (record { header = sample_header; footer = footer_of (stored_record ∷ []) }))
    × (chunk d 3 9
        ≡ some (record { state = sealed_state; size = length sealed_file; record_count = 1 }))
unfolding record_bytes records_bytes be content_id_for_object content_finalize content_update
    content_new encode_oid_fixed put_at as_bytes oid_len encode_chunk_header ensure_catalog_writable
    require_open chunk get
seal_and_publish_lem_example =
    seal_and_publish_lem (first_bytes 32) plain_frame
      (appended (first_bytes 32) plain_frame new_writer stored_record) (stored_record ∷ []) empty
      open_files first-Wrote (omega arith, tt) refl refl refl (omega arith)

-- A crash after sealing, before the rename
abbrev unrenamed : ChunkFiles
unrenamed = record { open_file = some sealed_file; sealed_file = none }

-- A catalog that has the chunk as sealed, while its file is open and has no footer
abbrev contradicting : InMemoryCatalog
contradicting = record empty {
  chunks = ((3, 9), record { state = sealed_state; size = 300; record_count = 1 }) ∷ [];
}

reconcile_chunk_closed_example :
    (m' : ChunkMetadata) × (chunk
        (reconcile_chunk (first_bytes 32) plain_frame contradicting open_extension open_files).1
        3
        9
      ≡ some m')
    × (m'.state ≡ sealed_state)
unfolding chunk get
reconcile_chunk_closed_example =
    reconcile_chunk_closed (first_bytes 32) plain_frame contradicting open_extension open_files 3 9
      (record { state = sealed_state; size = 300; record_count = 1 }) refl (λ e. cc)

reconcile_chunk_publishes_example :
    (d : InMemoryCatalog) × (◌≡◌ {A = Reconciled}
      (reconcile_chunk (first_bytes 32) plain_frame empty open_extension unrenamed)
      (
        record { open_file = none; sealed_file = some sealed_file },
        d,
        ok (as_sealed (record { header = sample_header; footer = footer_of (stored_record ∷ []) })),
      ))
    × (chunk d 3 9
        ≡ some (record { state = sealed_state; size = length sealed_file; record_count = 1 }))
unfolding record_bytes records_bytes be content_id_for_object content_finalize content_update
    content_new encode_oid_fixed put_at as_bytes oid_len encode_chunk_header require_not_retired
    chunk get
reconcile_chunk_publishes_example =
    reconcile_chunk_publishes (first_bytes 32) plain_frame empty sample_header (stored_record ∷ [])
      open_extension unrenamed sample_header-IsHeader stored-Verified (omega arith)
      (λ e. absurd (cc)) (inl refl) refl refl

recover_file-oversized_example :
    recover_file
      (first_bytes 32)
      plain_frame
      (chunk_bytes sample_header [] ++ (record_bytes oversized_record ++ 1 ∷ []))
    ≡ (
      chunk_bytes sample_header [],
      ok (recovery_of sample_header [] (length (record_bytes oversized_record) + 1)),
    )
unfolding records_bytes
recover_file-oversized_example =
    recover_file-oversized (first_bytes 32) plain_frame sample_header [] oversized_record (1 ∷ [])
      sample_header-IsHeader tt oversized_record-IsRecord length-oversized_record.0
      (omega (arith, length-oversized_record))
