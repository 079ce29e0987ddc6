-- ===== src/Store/Writer.antt =====
-- The chunk writer of crates/reflink-forest-store/src/lib.rs, over the in-memory catalog. A
-- writer's file is its bytes; the two names of a chunk, `.open` and `.sealed`, are the two files of
-- a `ChunkFiles`.
pub mod Laws
pub mod Index
pub mod Seal
pub mod Commits
pub mod Progress
use gitdb.Base.{
  ℕ, ◌+◌, ◌^◌, not, Bool, true, false, Option, none, some, List, [], ◌∷◌, ltb, ◌==◌, length,
  if◌then◌else◌,
}
use gitdb.Base.Bytes.{Bytes}
use gitdb.Base.Result.{Result, panic, ok, err, ◌>>=◌, ◌>>◌, reject_if, ok_or}
use gitdb.Core.Hashing.{Digest}
use gitdb.Format.{checked_add, chunk_header_len, sealed_chunk_footer_len}
use gitdb.Format.Chunk.{ChunkHeader, encode_chunk_header}
use gitdb.Format.Crc.{Crc32c, crc_new, crc_update, crc_finalize, crc32c}
use gitdb.Format.Footer.{SealedChunkFooter, encode_chunk_footer}
use gitdb.Format.Record.{ObjectRecord, encode_record}
use gitdb.Format.Payload.{ZstdRead, verify_object_record}
use gitdb.Index.{
  RepoId, CatalogBatch, InMemoryCatalog, ObjectLocation, ChunkState, open_state, sealed_state,
  retired_state, ChunkMetadata, object_location,
}
use gitdb.Index.Apply.{apply}
use gitdb.Index.Batch.{put_object_location, put_oid_alias, put_chunk_metadata, chunk}
use gitdb.Store.{
  StoreError, Extension, open_extension, not_an_open_chunk, conflicting_chunk_paths,
  catalog_chunk_state_conflict, location_mismatch, generation_field, chunk_id_field,
  offset_overflow, from_format, from_codec, from_catalog, write_at,
}

pub record RecordLocation : Type 0 where
  pub offset : ℕ
  pub record_length : ℕ

pub record ChunkWriter : Type 0 where
  pub file : Bytes
  pub header : ChunkHeader
  pub next_offset : ℕ
  pub record_count : ℕ
  pub records_crc32c : Crc32c

-- `SealedChunk` without its path
pub record SealedChunk : Type 0 where
  pub header : ChunkHeader
  pub footer : SealedChunkFooter

-- What the two names of a chunk hold
pub record ChunkFiles : Type 0 where
  pub open_file : Option Bytes
  pub sealed_file : Option Bytes

-- `ChunkWriter::create`, on a path where no file stands
unfoldable pub create : Extension → ChunkHeader → Result StoreError ChunkWriter
create open_extension header = ok (record {
  file = encode_chunk_header header;
  header = header;
  next_offset = chunk_header_len;
  record_count = 0;
  records_crc32c = crc_new;
})
create _ header = err not_an_open_chunk

unfoldable pub require_open : ChunkHeader → Option ChunkMetadata → Result StoreError (Unit {0})
require_open header none = ok tt
require_open header (some metadata) = elim metadata.state [
  | open_state ↦ ok tt
  | other ↦ err (catalog_chunk_state_conflict header.generation header.chunk_id other)
]

-- `ensure_catalog_writable`
unfoldable pub ensure_catalog_writable :
    InMemoryCatalog → ChunkHeader → Result StoreError (Unit {0})
unfolding require_open
ensure_catalog_writable c header = require_open header (chunk c header.generation header.chunk_id)

-- A check, then `catalog.apply(batch)?`
unfoldable pub apply_after :
    Result StoreError (Unit {0})
    → InMemoryCatalog
    → CatalogBatch
    → InMemoryCatalog × Result StoreError (Unit {0})
apply_after panic c batch = (c, panic)
apply_after (err e) c batch = (c, err e)
apply_after (ok _) c batch = let (c', done) = apply c batch in (c', from_catalog done)

-- `ChunkWriter::publish_open`
unfoldable pub publish_open :
    ChunkWriter → InMemoryCatalog → InMemoryCatalog × Result StoreError (Unit {0})
unfolding apply_after
publish_open w c = apply_after (ensure_catalog_writable c w.header) c (
    put_chunk_metadata [] w.header.generation w.header.chunk_id
      (record { state = open_state; size = w.next_offset; record_count = w.record_count }))

unfoldable pub require_not_retired :
    ChunkHeader → Option ChunkMetadata → Result StoreError (Unit {0})
require_not_retired header none = ok tt
require_not_retired header (some metadata) = elim metadata.state [
  | retired_state ↦
      err (catalog_chunk_state_conflict header.generation header.chunk_id retired_state)
  | _ ↦ ok tt
]

unfoldable pub publish_sealed_metadata :
    InMemoryCatalog
    → ChunkHeader
    → SealedChunkFooter
    → InMemoryCatalog × Result StoreError (Unit {0})
unfolding apply_after require_not_retired
publish_sealed_metadata c header footer =
    apply_after (require_not_retired header (chunk c header.generation header.chunk_id)) c (
      put_chunk_metadata [] header.generation header.chunk_id (record {
        state = sealed_state;
        size = footer.final_length;
        record_count = footer.record_count;
      }))

-- The end of `append`, behind `encode_record`: an overflow comes after the write.
unfoldable pub append_encoded : ChunkWriter → Bytes → ChunkWriter × Result StoreError RecordLocation
append_encoded w encoded =
    let written = record w { file = write_at w.file w.next_offset encoded } in
    elim (checked_add w.next_offset (length encoded)) [
      | none ↦ (written, err offset_overflow)
      | some next ↦ elim (checked_add w.record_count 1) [
        | none ↦ (record written { next_offset = next }, err offset_overflow)
        | some count ↦ (
          record written {
            next_offset = next;
            record_count = count;
            records_crc32c = crc_update w.records_crc32c encoded;
          },
          ok (record { offset = w.next_offset; record_length = length encoded }),
        )
      ]
    ]

unfoldable pub after_encoding :
    ChunkWriter → Result StoreError Bytes → ChunkWriter × Result StoreError RecordLocation
unfolding append_encoded
after_encoding w panic = (w, panic)
after_encoding w (err e) = (w, err e)
after_encoding w (ok encoded) = append_encoded w encoded

-- The location that `append_and_index` publishes
unfoldable pub indexed_location : ChunkWriter → ObjectRecord → RecordLocation → ObjectLocation
indexed_location w r location = record {
  generation = w.header.generation;
  chunk_id = w.header.chunk_id;
  offset = location.offset;
  record_length = location.record_length;
  stored_length = length r.payload;
  raw_length = r.raw_length;
  kind = r.kind;
  codec = r.codec;
  flags = r.flags;
  payload_crc32c = crc32c r.payload;
}

-- The batch of `append_and_index`, built after the append
unfoldable pub append_batch :
    ChunkWriter → RepoId → ObjectRecord → RecordLocation → Result StoreError CatalogBatch
append_batch w repo r location = do
  reject_if (not (ltb (length r.payload) (2 ^ 64))) offset_overflow
  let located = put_object_location [] r.content_id (indexed_location w r location)
  let named = put_oid_alias located repo r.primary_oid r.content_id
  ok (
      put_chunk_metadata named w.header.generation w.header.chunk_id
        (record { state = open_state; size = w.next_offset; record_count = w.record_count }))

unfoldable pub index_appended :
    ChunkWriter
    → InMemoryCatalog
    → RecordLocation
    → Result StoreError CatalogBatch
    → ChunkWriter × InMemoryCatalog × Result StoreError (Option RecordLocation)
index_appended w c location panic = (w, c, panic)
index_appended w c location (err e) = (w, c, err e)
index_appended w c location (ok batch) =
    let (c', done) = apply c batch in (w, c', from_catalog done >> ok (some location))

unfoldable pub append_new :
    InMemoryCatalog
    → RepoId
    → ObjectRecord
    → ChunkWriter × Result StoreError RecordLocation
    → ChunkWriter × InMemoryCatalog × Result StoreError (Option RecordLocation)
unfolding index_appended append_batch
append_new c repo r (w, panic) = (w, c, panic)
append_new c repo r (w, err e) = (w, c, err e)
append_new c repo r (w, ok location) = index_appended w c location (append_batch w repo r location)

unfoldable pub check_chunk :
    ChunkWriter → InMemoryCatalog → (generation chunk_id : ℕ) → Result StoreError (Unit {0})
check_chunk w c generation chunk_id = do
  reject_if (not (w.header.generation == generation)) (location_mismatch generation_field)
  reject_if (not (w.header.chunk_id == chunk_id)) (location_mismatch chunk_id_field)
  ensure_catalog_writable c w.header

module _ (sha256_digest : Digest) (read_frame : Bytes → ZstdRead) where
  -- `ChunkWriter::append`
  unfoldable pub append :
      ChunkWriter → ObjectRecord → ChunkWriter × Result StoreError RecordLocation
  unfolding after_encoding
  append w r =
      after_encoding w do
        from_codec (verify_object_record sha256_digest read_frame r)
        from_format (encode_record r)

  unfoldable pub append_or_alias :
      ChunkWriter
      → InMemoryCatalog
      → RepoId
      → ObjectRecord
      → Option ObjectLocation
      → ChunkWriter × InMemoryCatalog × Result StoreError (Option RecordLocation)
  unfolding append_new
  append_or_alias w c repo r none = append_new c repo r (append w r)
  append_or_alias w c repo r (some _) =
      let (c', done) = apply c (put_oid_alias [] repo r.primary_oid r.content_id) in
      (w, c', from_catalog done >> ok none)

  unfoldable pub index_checked :
      Result StoreError (Unit {0})
      → ChunkWriter
      → InMemoryCatalog
      → RepoId
      → ObjectRecord
      → ChunkWriter × InMemoryCatalog × Result StoreError (Option RecordLocation)
  unfolding append_or_alias
  index_checked panic w c repo r = (w, c, panic)
  index_checked (err e) w c repo r = (w, c, err e)
  index_checked (ok _) w c repo r = append_or_alias w c repo r (object_location c r.content_id)

  -- `ChunkWriter::append_and_index`
  unfoldable pub append_and_index :
      ChunkWriter
      → InMemoryCatalog
      → RepoId
      → (generation chunk_id : ℕ) → ObjectRecord
      → ChunkWriter × InMemoryCatalog × Result StoreError (Option RecordLocation)
  unfolding index_checked check_chunk
  append_and_index w c repo generation chunk_id r =
      index_checked (check_chunk w c generation chunk_id) w c repo r

abbrev pub is_some {ℓ} : {A : Type ℓ} → Option A → Bool
is_some none = false
is_some (some _) = true

-- The checks of `seal_and_publish`, and the footer
unfoldable pub prepare_footer :
    ChunkWriter → InMemoryCatalog → ChunkFiles → Result StoreError SealedChunkFooter
prepare_footer w c files = do
  ensure_catalog_writable c w.header
  reject_if (is_some files.sealed_file) conflicting_chunk_paths
  final_length ← ok_or (checked_add w.next_offset sealed_chunk_footer_len) offset_overflow
  ok (record {
    record_count = w.record_count;
    final_length = final_length;
    records_crc32c = crc_finalize w.records_crc32c;
  })

unfoldable pub seal_with :
    ChunkWriter
    → InMemoryCatalog
    → ChunkFiles
    → Result StoreError SealedChunkFooter
    → ChunkFiles × InMemoryCatalog × Result StoreError SealedChunk
seal_with w c files panic = (files, c, panic)
seal_with w c files (err e) = (files, c, err e)
seal_with w c files (ok footer) =
    let sealed = write_at w.file w.next_offset (encode_chunk_footer footer) in
    let (c', done) = publish_sealed_metadata c w.header footer in
    (
      record { open_file = none; sealed_file = some sealed },
      c',
      done >> ok (record { header = w.header; footer = footer }),
    )

-- `ChunkWriter::seal_and_publish`, which writes the footer, renames the file and then publishes
unfoldable pub seal_and_publish :
    ChunkWriter
    → InMemoryCatalog
    → ChunkFiles
    → ChunkFiles × InMemoryCatalog × Result StoreError SealedChunk
unfolding seal_with prepare_footer
seal_and_publish w c files = seal_with w c files (prepare_footer w c files)
