-- ===== src/Store/Reconcile/Publishes.antt =====
-- Reconciliation of a sealed chunk under either of its names.
use gitdb.Base.{◌+◌, ◌^◌, ◌<◌, ◌≡◌, ◌≢◌, ◌⊎◌, ap, sym, ◌∙◌, false, none, some, List, length}
use gitdb.Base.Bytes.{Bytes}
use gitdb.Base.Result.{Result, ok, ◌>>◌}
use gitdb.Core.Hashing.{Digest}
use gitdb.Format.Chunk.{ChunkHeader}
use gitdb.Format.Chunk.RoundTrip.{IsHeader}
use gitdb.Format.Payload.{ZstdRead}
use gitdb.Format.Record.{ObjectRecord}
use gitdb.Index.{InMemoryCatalog, sealed_state}
use gitdb.Index.Batch.{chunk}
use gitdb.Store.{StoreError, Extension, other_extension}
use gitdb.Store.Reconcile.{Reconciled, as_sealed, reconcile_chunk}
use gitdb.Store.Reconcile.Laws.{reconcile_chunk_sealed}
use gitdb.Store.Scan.Rounds.{records_bytes}
use gitdb.Store.Sealed.Laws.{Verified, footer_of, sealed_bytes, length-sealed_bytes}
use gitdb.Store.Writer.{ChunkFiles, require_not_retired}
use gitdb.Store.Writer.Commits.{publish_sealed_metadata_ok}
use gitdb.Store.Writer.Seal.{publish_sealed-chunk}

module _ (sha256_digest : Digest) (read_frame : Bytes → ZstdRead) where
  -- Reconciliation finishes an interrupted sealing, whether the crash came before the rename or
  -- after it. Let the file hold, under the open or the sealed name and under that one alone, a
  -- sealed chunk of less than 2^64 bytes, whose records are valid, verify, and are of at most 64
  -- MiB each, padding included; let the path have one of the two extensions, and the catalog be idle
  -- and not have the chunk as retired. Then reconciliation succeeds with the chunk's header and
  -- footer, the file stands under the sealed name with the same bytes, and the catalog has the
  -- chunk as sealed, with the file's length and the number of records.
  pub reconcile_chunk_publishes :
      (c : InMemoryCatalog) (h : ChunkHeader) (rs : List ObjectRecord) (extension : Extension)
      (files : ChunkFiles)
      → IsHeader h
      → Verified sha256_digest read_frame rs
      → 64 + length (records_bytes rs) + 64 < 2 ^ 64
      → extension ≢ other_extension
      → (files ≡ record { open_file = some (sealed_bytes h rs); sealed_file = none })
        ⊎ (files ≡ record { open_file = none; sealed_file = some (sealed_bytes h rs) })
      → c.rebuilding ≡ false
      → require_not_retired h (chunk c h.generation h.chunk_id) ≡ ok tt
      → (d : InMemoryCatalog) × (◌≡◌ {A = Reconciled}
          (reconcile_chunk sha256_digest read_frame c extension files)
          (
            record { open_file = none; sealed_file = some (sealed_bytes h rs) },
            d,
            ok (as_sealed (record { header = h; footer = footer_of rs })),
          ))
        × (chunk d h.generation h.chunk_id
            ≡ some (record {
              state = sealed_state;
              size = length (sealed_bytes h rs);
              record_count = length rs;
            }))
  reconcile_chunk_publishes c h rs extension files v a small either place idle not_retired =
      let (d, done) = publish_sealed_metadata_ok c h (footer_of rs) not_retired idle in
      (
        d,
        reconcile_chunk_sealed sha256_digest read_frame c h rs extension files v a small either
              place
            ∙ ap
                (λ (p : InMemoryCatalog × Result StoreError (Unit {0})). (
                  record { open_file = none; sealed_file = some (sealed_bytes h rs) },
                  p.0,
                  p.1 >> ok (as_sealed (record { header = h; footer = footer_of rs })),
                ))
                done,
        publish_sealed-chunk c d h (footer_of rs) done
            ∙ ap (λ n. some (record { state = sealed_state; size = n; record_count = length rs }))
                (sym (length-sealed_bytes sha256_digest read_frame h rs)),
      )
