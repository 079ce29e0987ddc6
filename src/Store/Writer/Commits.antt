-- ===== src/Store/Writer/Commits.antt =====
-- The catalog batches of the chunk writer: when they commit.
use mathlib.Core.List.{Memᴰ}
use gitdb.Base.{
  ℕ, ◌+◌, ◌^◌, ◌<◌, ◌≡◌, refl, sym, ap, ◌∙◌, false, Option, none, some, [], ◌∷◌, length, lt→ltb,
}
use gitdb.Base.Result.{Result, ok, ◌>>◌}
use gitdb.Base.Table.{pair_Eq, bytes_Eq, Table, get}
use gitdb.Core.{ContentId}
use gitdb.Format.{checked_add}
use gitdb.Format.Chunk.{ChunkHeader}
use gitdb.Format.Crc.{crc_finalize}
use gitdb.Format.Footer.{SealedChunkFooter}
use gitdb.Format.Record.{ObjectRecord}
use gitdb.Index.{
  oid_Eq, ChunkState, CatalogError, RepoId, CatalogBatch, InMemoryCatalog, ChunkMetadata,
  open_state, sealed_state, retired_state, oid_alias,
}
use gitdb.Index.Apply.{apply, mutates_marker}
use gitdb.Index.Apply.Aliases.{AliasKey, AreConsistent, alias_puts}
use gitdb.Index.Apply.Commit.{apply_commits_iff}
use gitdb.Index.Batch.{put_object_location, put_oid_alias, put_chunk_metadata, chunk}
use gitdb.Store.{StoreError, from_catalog}
use gitdb.Format.Footer.{encode_chunk_footer}
use gitdb.Store.{write_at}
use gitdb.Store.Writer.{
  indexed_location, RecordLocation, SealedChunk, append_batch, ChunkWriter, ChunkFiles,
  require_open, require_not_retired, ensure_catalog_writable, publish_sealed_metadata, apply_after,
  prepare_footer, seal_with, seal_and_publish,
}
use gitdb.Store.Writer.Seal.{Sealing}

open_not_retired :
    (h : ChunkHeader) (size record_count : ℕ) (s : ChunkState)
    → require_open h (some (record { state = s; size = size; record_count = record_count })) ≡ ok tt
    → require_not_retired h (some (record { state = s; size = size; record_count = record_count }))
      ≡ ok tt
unfolding require_open require_not_retired
open_not_retired h size record_count open_state e = refl
open_not_retired h size record_count sealed_state e = refl
open_not_retired h size record_count retired_state e = absurd (cc)

require_open-require_not_retired :
    (h : ChunkHeader) (m : Option ChunkMetadata)
    → require_open h m ≡ ok tt
    → require_not_retired h m ≡ ok tt
unfolding require_not_retired
require_open-require_not_retired h none e = refl
require_open-require_not_retired h (some m) e = open_not_retired h m.size m.record_count m.state e

chunk_batch_commits :
    (c : InMemoryCatalog) (generation chunk_id : ℕ) (m : ChunkMetadata)
    → c.rebuilding ≡ false
    → (d : InMemoryCatalog) × (apply c (put_chunk_metadata [] generation chunk_id m) ≡ (d, ok tt))
unfolding put_chunk_metadata mutates_marker alias_puts
chunk_batch_commits c generation chunk_id m idle = (apply_commits_iff c _).1 (
  idle,
  refl,
  record { with_catalog = λ k v w m. elim m [ ]; with_batch = λ k v w m. elim m [ ] },
)

pub publish_sealed_metadata_ok :
    (c : InMemoryCatalog) (h : ChunkHeader) (footer : SealedChunkFooter)
    → require_not_retired h (chunk c h.generation h.chunk_id) ≡ ok tt
    → c.rebuilding ≡ false
    → (d : InMemoryCatalog) × (publish_sealed_metadata c h footer ≡ (d, ok tt))
unfolding publish_sealed_metadata apply_after
publish_sealed_metadata_ok c h footer not_retired idle =
    let batch = put_chunk_metadata [] h.generation h.chunk_id (record {
      state = sealed_state;
      size = footer.final_length;
      record_count = footer.record_count;
    }) in
    let (d, done) =
      chunk_batch_commits c h.generation h.chunk_id
        (record {
          state = sealed_state;
          size = footer.final_length;
          record_count = footer.record_count;
        })
        idle in
    (
      d,
      ap (λ m. apply_after m c batch) not_retired
          ∙ ap (λ (p : InMemoryCatalog × Result CatalogError (Unit {0})). (p.0, from_catalog p.1))
              done,
    )

prepare_footer_ok :
    (w : ChunkWriter) (c : InMemoryCatalog) (files : ChunkFiles)
    → ensure_catalog_writable c w.header ≡ ok tt
    → files.sealed_file ≡ none
    → w.next_offset + 64 < 2 ^ 64
    → prepare_footer w c files
      ≡ ok (record {
        record_count = w.record_count;
        final_length = w.next_offset + 64;
        records_crc32c = crc_finalize w.records_crc32c;
      })
unfolding prepare_footer checked_add
prepare_footer_ok w c files writable free room =
    rw (writable, free, lt→ltb (w.next_offset + 64) (2 ^ 64) room)

pub seal_and_publish_ok :
    (w : ChunkWriter) (c : InMemoryCatalog) (files : ChunkFiles)
    → ensure_catalog_writable c w.header ≡ ok tt
    → c.rebuilding ≡ false
    → files.sealed_file ≡ none
    → w.next_offset + 64 < 2 ^ 64
    → (files' : ChunkFiles) × (d : InMemoryCatalog) × (sealed : SealedChunk) × ◌≡◌ {A = Sealing}
        (seal_and_publish w c files)
        (files', d, ok sealed)
unfolding seal_and_publish seal_with ensure_catalog_writable
seal_and_publish_ok w c files writable idle free room =
    let footer : SealedChunkFooter = record {
      record_count = w.record_count;
      final_length = w.next_offset + 64;
      records_crc32c = crc_finalize w.records_crc32c;
    } in
    let (d, done) =
      publish_sealed_metadata_ok c w.header footer
        (require_open-require_not_retired w.header (chunk c w.header.generation w.header.chunk_id)
          writable)
        idle in
    (
      _,
      d,
      _,
      ap (seal_with w c files) (prepare_footer_ok w c files writable free room)
          ∙ ap
              (λ (p : InMemoryCatalog × Result StoreError (Unit {0})). (
                record {
                  open_file = none;
                  sealed_file = some (write_at w.file w.next_offset (encode_chunk_footer footer));
                },
                p.0,
                p.1 >> ok (record { header = w.header; footer = footer }),
              ))
              done,
    )

-- The batch of an append has one alias, which agrees with the catalog's.
one_alias-AreConsistent :
    (aliases : Table AliasKey ContentId) (k : AliasKey) (v : ContentId)
    → ((w : ContentId) → get k aliases ≡ some w → w ≡ v)
    → AreConsistent aliases ((k, v) ∷ [])
one_alias-AreConsistent aliases k v agrees = record { with_catalog = held; with_batch = same }
  where
    held :
        (j : AliasKey) (u w : ContentId)
        → Memᴰ {A = AliasKey × ContentId} (j, u) ((k, v) ∷ [])
        → get j aliases ≡ some w
        → w ≡ u
    held j u w (Memᴰ.head e) h =
        agrees w (ap (λ i. get i aliases) (sym (ap (λ p. p.0) e)) ∙ h) ∙ sym (ap (λ p. p.1) e)
    held j u w (Memᴰ.tail n) h = elim n [ ]

    same :
        (j : AliasKey) (u w : ContentId)
        → Memᴰ {A = AliasKey × ContentId} (j, u) ((k, v) ∷ [])
        → Memᴰ {A = AliasKey × ContentId} (j, w) ((k, v) ∷ [])
        → w ≡ u
    same j u w (Memᴰ.head e) (Memᴰ.head g) = ap (λ p. p.1) g ∙ sym (ap (λ p. p.1) e)
    same j u w (Memᴰ.head e) (Memᴰ.tail n) = elim n [ ]
    same j u w (Memᴰ.tail n) m = elim n [ ]

pub append_batch_commits :
    (w : ChunkWriter) (c : InMemoryCatalog) (repo : RepoId) (r : ObjectRecord)
    (location : RecordLocation)
    → length r.payload < 2 ^ 64
    → c.rebuilding ≡ false
    → ((id : ContentId) → oid_alias c repo r.primary_oid ≡ some id → id ≡ r.content_id)
    → (batch : CatalogBatch) × (append_batch w repo r location ≡ ok batch)
      × (d : InMemoryCatalog) × (apply c batch ≡ (d, ok tt))
unfolding append_batch put_object_location put_oid_alias put_chunk_metadata mutates_marker
    alias_puts oid_alias
append_batch_commits w c repo r location short idle agrees =
    let batch =
      put_chunk_metadata
        (put_oid_alias (put_object_location [] r.content_id (indexed_location w r location)) repo
          r.primary_oid r.content_id)
        w.header.generation w.header.chunk_id
        (record { state = open_state; size = w.next_offset; record_count = w.record_count }) in
    let (d, done) =
      (apply_commits_iff c batch).1
        (idle, refl, one_alias-AreConsistent c.aliases (repo, r.primary_oid) r.content_id agrees) in
    (batch, rw (lt→ltb (length r.payload) (2 ^ 64) short), d, done)
