-- ===== src/Store/Writer/Progress.antt =====
-- Indexing and sealing of a chunk that the catalog has as writable.
use gitdb.Format.Record.RoundTrip.{IsRecord}
use gitdb.Store.{max_recovery_record_bytes, offset_overflow}
use gitdb.Base.{
  ltb, if◌then◌else◌, All, ◌≤◌, ◌+◌, ◌^◌, ◌<◌, ◌≡◌, ap, ◌∙◌, arith, false, none, some, List, [],
  ◌∷◌, ◌++◌, length, ==_refl,
}
use gitdb.Base.Result.{err, Result, ok, ◌>>◌}
use gitdb.Base.Table.{pair_Eq, bytes_Eq}
use gitdb.Core.{ContentId}
use gitdb.Core.Hashing.{Digest}
use gitdb.Format.Payload.{ZstdRead, verify_object_record}
use gitdb.Format.Record.{ObjectRecord}
use gitdb.Index.{
  oid_Eq, CatalogError, RepoId, InMemoryCatalog, open_state, sealed_state, object_location,
  oid_alias,
}
use gitdb.Index.Batch.{chunk}
use gitdb.Store.{from_catalog}
use gitdb.Store.Writer.{
  append_new, index_appended, index_checked, append_or_alias, check_chunk, append_and_index,
  RecordLocation, SealedChunk, ChunkWriter, ChunkFiles, ensure_catalog_writable, seal_and_publish,
}
use gitdb.Base.Bytes.{Bytes}
use gitdb.Store.Read.{read_record_at}
use gitdb.Store.Read.Laws.{location_in}
use gitdb.Store.Scan.Candidate.{record_bytes}
use gitdb.Store.Scan.Rounds.{records_bytes}
use gitdb.Store.Sealed.{verify_sealed_file}
use gitdb.Store.Sealed.Laws.{footer_of, sealed_bytes}
use gitdb.Store.Writer.Index.{Outcome, append_and_index_readable}
use gitdb.Store.Writer.Laws.{Wrote, appended, append_lem}
use gitdb.Store.Writer.Seal.{seal_and_publish_verified, Sealing}
use gitdb.Store.Writer.Commits.{seal_and_publish_ok, append_batch_commits}

module _ (sha256_digest : Digest) (read_frame : Bytes → ZstdRead) where
  append_new_ok :
      (w : ChunkWriter) (c : InMemoryCatalog) (repo : RepoId) (r : ObjectRecord)
      (location : RecordLocation)
      → length r.payload < 2 ^ 64
      → c.rebuilding ≡ false
      → ((id : ContentId) → oid_alias c repo r.primary_oid ≡ some id → id ≡ r.content_id)
      → (d : InMemoryCatalog) × ◌≡◌ {A = Outcome}
          (append_new c repo r (w, ok location))
          (w, d, ok (some location))
  unfolding append_new index_appended
  append_new_ok w c repo r location short idle agrees =
      let (batch, built, d, done) = append_batch_commits w c repo r location short idle agrees in
      (
        d,
        ap (index_appended w c location) built
            ∙ ap
                (λ (p : InMemoryCatalog × Result CatalogError (Unit {0})).
                  (w, p.0, from_catalog p.1 >> ok (some location)))
                done,
      )

  -- Let a writer's file be the chunk of valid records that verify, and its counters describe that
  -- chunk. Indexing one more valid record of any length that verifies, whose content has no location
  -- and whose alias is free or already its own, succeeds in an idle catalog that has the chunk as
  -- open or not at all, while the chunk stays below 2^64 bytes. The writer's file is then the chunk
  -- with the record appended; the catalog finds the record's content ID at the record's place, the
  -- repository's alias names the content, and the chunk's metadata has its new size and count.
  -- Reading the file at the place that the catalog gives returns the record if its bytes, padding
  -- included, are at most 64 MiB, and fails with an overflow of the offset if they are more.
  pub append_and_index_lem :
      (w : ChunkWriter) (c : InMemoryCatalog) (repo : RepoId) (rs : List ObjectRecord)
      (r : ObjectRecord)
      → Wrote sha256_digest read_frame w rs
      → IsRecord r
      → verify_object_record sha256_digest read_frame r ≡ ok tt
      → 64 + length (records_bytes rs) + length (record_bytes r) < 2 ^ 64
      → ensure_catalog_writable c w.header ≡ ok tt
      → c.rebuilding ≡ false
      → object_location c r.content_id ≡ none
      → ((id : ContentId) → oid_alias c repo r.primary_oid ≡ some id → id ≡ r.content_id)
      → (w' : ChunkWriter) × (d : InMemoryCatalog) × (l : RecordLocation) × (◌≡◌ {A = Outcome}
          (append_and_index sha256_digest read_frame w c repo w.header.generation w.header.chunk_id
            r)
          (w', d, ok (some l)))
        × Wrote sha256_digest read_frame w' (rs ++ r ∷ [])
        × (object_location d r.content_id ≡ some (location_in w.header rs r))
        × (oid_alias d repo r.primary_oid ≡ some r.content_id)
        × (chunk d w.header.generation w.header.chunk_id
            ≡ some (record {
              state = open_state;
              size = length w'.file;
              record_count = length (rs ++ r ∷ []);
            }))
        × (read_record_at sha256_digest read_frame w'.file (location_in w.header rs r) ≡ (
            if ltb max_recovery_record_bytes (length (record_bytes r))
            then err offset_overflow
            else ok r))
  unfolding append_and_index check_chunk index_checked append_or_alias
  append_and_index_lem w c repo rs r s v verified small writable idle fresh agrees =
      let (done, _) = append_lem sha256_digest read_frame w rs r s v verified small in
      let (d, indexed) =
        append_new_ok (appended sha256_digest read_frame w r) c repo r _
          v.metadata.stored_length_fits idle agrees in
      let checked : check_chunk w c w.header.generation w.header.chunk_id ≡ ok tt =
        rw (==_refl w.header.generation, ==_refl w.header.chunk_id, writable) in
      let ran =
        ap (λ m. index_checked sha256_digest read_frame m w c repo r) checked
        ∙ ap (append_or_alias sha256_digest read_frame w c repo r) fresh
        ∙ ap (append_new c repo r) done
        ∙ indexed in
      let (wrote, located, named, counted, back) =
        append_and_index_readable sha256_digest read_frame w _ c d repo w.header.generation
          w.header.chunk_id rs r _ s v small ran in
      (_, d, _, ran, wrote, located, named, counted, back)

  -- Let a writer's file be the chunk of valid records that verify and that are of at most 64 MiB
  -- each, padding included, and its counters describe that chunk. Sealing it succeeds where the
  -- catalog is idle and has the chunk as open or not at all, no file has the sealed name, and the
  -- sealed length is below 2^64. The open file is then gone and the sealed file holds the chunk's
  -- header, its records and their footer; verification accepts it with that header and footer; and
  -- the catalog has the chunk as sealed, with the file's length and the number of records.
  pub seal_and_publish_lem :
      (w : ChunkWriter) (rs : List ObjectRecord) (c : InMemoryCatalog) (files : ChunkFiles)
      → Wrote sha256_digest read_frame w rs
      → All (λ r. length (record_bytes r) ≤ max_recovery_record_bytes) rs
      → ensure_catalog_writable c w.header ≡ ok tt
      → c.rebuilding ≡ false
      → files.sealed_file ≡ none
      → 64 + length (records_bytes rs) + 64 < 2 ^ 64
      → (files' : ChunkFiles) × (d : InMemoryCatalog) × (sealed : SealedChunk) × (◌≡◌ {A = Sealing}
          (seal_and_publish w c files)
          (files', d, ok sealed))
        × (files' ≡ record { open_file = none; sealed_file = some (sealed_bytes w.header rs) })
        × (sealed ≡ record { header = w.header; footer = footer_of rs })
        × (verify_sealed_file sha256_digest read_frame (sealed_bytes w.header rs)
            ≡ ok (record { header = w.header; footer = footer_of rs }))
        × (chunk d w.header.generation w.header.chunk_id
            ≡ some (record {
              state = sealed_state;
              size = length (sealed_bytes w.header rs);
              record_count = length rs;
            }))
  seal_and_publish_lem w rs c files s within writable idle free small =
      let (files', d, sealed, ran) =
        seal_and_publish_ok w c files writable idle free (omega (arith, s.ends, small)) in
      let (placed, described, accepted, published) =
        seal_and_publish_verified sha256_digest read_frame w rs c d files files' sealed s within
          ran in
      (files', d, sealed, ran, placed, described, accepted, published)
