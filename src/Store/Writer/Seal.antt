-- ===== src/Store/Writer/Seal.antt =====
-- Sealing a chunk that the writer has kept.
use gitdb.Store.{max_recovery_record_bytes}
use gitdb.Store.Scan.Candidate.{record_bytes, length-record_bytes}
use gitdb.Base.{
  All, [], ◌∷◌, ◌≤◌, ℕ, ◌+◌, ◌^◌, ◌<◌, ◌≡◌, refl, sym, ap, ap₂, ◌∙◌, arith, none, some, List, ◌++◌,
  append_assoc, length, length-append, ==_refl,
}
use gitdb.Base.Bytes.{Bytes}
use gitdb.Base.Result.{Result, panic, ok, err, >>=-eq-ok, ◌>>◌, reject_if}
use gitdb.Core.Hashing.{Digest}
use gitdb.Format.{checked_add}
use gitdb.Format.Chunk.{ChunkHeader, encode_chunk_header}
use gitdb.Format.Chunk.RoundTrip.{length-encode}
use gitdb.Format.Crc.{Crc32c, crc_finalize}
use gitdb.Format.Footer.{SealedChunkFooter, encode_chunk_footer}
use gitdb.Format.Record.{ObjectRecord}
use gitdb.Format.Payload.{ZstdRead}
use gitdb.Index.{InMemoryCatalog, CatalogError, CatalogBatch, sealed_state}
use gitdb.Index.Apply.{apply}
use gitdb.Index.Apply.Lookups.{apply-LastWrites, last_write, overwrite}
use gitdb.Index.Batch.{put_chunk_metadata, chunk}
use gitdb.Store.{StoreError, from_catalog, conflicting_chunk_paths, write_at, write_at-end}
use gitdb.Store.Scan.Rounds.{records_bytes}
use gitdb.Store.Sealed.{verify_sealed_file}
use gitdb.Store.Sealed.Laws.{
  Verified, footer_of, sealed_bytes, verify_sealed_bytes, length-sealed_bytes,
}
use gitdb.Store.Writer.{
  ChunkWriter, ChunkFiles, SealedChunk, is_some, apply_after, publish_sealed_metadata,
  prepare_footer, seal_with, seal_and_publish, ensure_catalog_writable,
}
use gitdb.Store.Writer.Laws.{Wrote, Writable}

catalog_applied :
    (done : Result CatalogError (Unit {0})) {u : Unit {0}} → from_catalog done ≡ ok u → done ≡ ok tt
catalog_applied panic e = absurd (cc)
catalog_applied (err x) e = absurd (cc)
catalog_applied (ok u) e = refl

apply_after-ok :
    (m : Result StoreError (Unit {0})) (c c' : InMemoryCatalog) (batch : CatalogBatch)
    → apply_after m c batch ≡ (c', ok tt)
    → apply c batch ≡ (c', ok tt)
unfolding apply_after
apply_after-ok panic c c' batch e = absurd (cc)
apply_after-ok (err x) c c' batch e = absurd (cc)
apply_after-ok (ok u) c c' batch e =
    ap₂ (λ (x : InMemoryCatalog) (y : Result CatalogError (Unit {0})). (x, y)) (ap (λ p. p.0) e)
      (catalog_applied (apply c batch).1 (ap (λ p. p.1) e))

-- A sealed chunk that was published is in the catalog with the footer's length and count.
pub publish_sealed-chunk :
    (c c' : InMemoryCatalog) (h : ChunkHeader) (footer : SealedChunkFooter)
    → publish_sealed_metadata c h footer ≡ (c', ok tt)
    → chunk c' h.generation h.chunk_id
      ≡ some (record {
        state = sealed_state;
        size = footer.final_length;
        record_count = footer.record_count;
      })
unfolding publish_sealed_metadata put_chunk_metadata chunk last_write overwrite
publish_sealed-chunk c c' h footer e =
    (apply-LastWrites c c' _ (apply_after-ok _ c c' _ e)).chunks_written (h.generation, h.chunk_id)
    ∙ rw (==_refl h.generation, ==_refl h.chunk_id)

abbrev pub Sealing : Type 0
Sealing = ChunkFiles × InMemoryCatalog × Result StoreError SealedChunk

-- What a sealing that succeeded has done.
record Seals (w : ChunkWriter) (c c' : InMemoryCatalog) (files' : ChunkFiles) (sealed : SealedChunk)
    (m : Result StoreError SealedChunkFooter) : Type 0 where
  pub footer : SealedChunkFooter
  pub prepared : m ≡ ok footer
  pub published : publish_sealed_metadata c w.header footer ≡ (c', ok tt)
  pub written : files' ≡ record {
    open_file = none;
    sealed_file = some (write_at w.file w.next_offset (encode_chunk_footer footer));
  }
  pub returned : sealed ≡ record { header = w.header; footer = footer }

after_publish :
    (done : Result StoreError (Unit {0})) (made sealed : SealedChunk)
    → (done >> ok made) ≡ ok sealed
    → (done ≡ ok tt) × (sealed ≡ made)
after_publish panic made sealed e = absurd (cc)
after_publish (err x) made sealed e = absurd (cc)
after_publish (ok u) made sealed e = (refl, cc e)

seal_with-Seals :
    (w : ChunkWriter) (c c' : InMemoryCatalog) (files files' : ChunkFiles) (sealed : SealedChunk)
    (m : Result StoreError SealedChunkFooter)
    → ◌≡◌ {A = Sealing} (seal_with w c files m) (files', c', ok sealed)
    → Seals w c c' files' sealed m
unfolding seal_with
seal_with-Seals w c c' files files' sealed panic e = absurd (cc)
seal_with-Seals w c c' files files' sealed (err x) e = absurd (cc)
seal_with-Seals w c c' files files' sealed (ok footer) e =
    let (done, same) =
      after_publish (publish_sealed_metadata c w.header footer).1
        (record { header = w.header; footer = footer }) sealed (ap (λ (o : Sealing). o.2) e) in
    record {
      footer = footer;
      prepared = refl;
      published =
          ap₂ (λ (x : InMemoryCatalog) (y : Result StoreError (Unit {0})). (x, y))
            (ap (λ (o : Sealing). o.1) e) done;
      written = ap (λ (o : Sealing). o.0) (sym e);
      returned = same;
    }

prepare_footer-ok :
    (w : ChunkWriter) (c : InMemoryCatalog) (files : ChunkFiles) (footer : SealedChunkFooter)
    → prepare_footer w c files ≡ ok footer
    → (w.next_offset + 64 < 2 ^ 64)
      × (footer ≡ record {
        record_count = w.record_count;
        final_length = w.next_offset + 64;
        records_crc32c = crc_finalize w.records_crc32c;
      })
unfolding prepare_footer checked_add
prepare_footer-ok w c files footer e =
    let (_, _, e1) = >>=-eq-ok (ensure_catalog_writable c w.header) _ e in
    let (_, _, e2) =
      >>=-eq-ok (reject_if (is_some files.sealed_file) conflicting_chunk_paths) _ e1 in
    ground arith

sealed_footer :
    (n n' k k' : ℕ) (sum sum' : Crc32c)
    → n ≡ n'
    → k ≡ k'
    → sum ≡ sum'
    → ◌≡◌ {A = SealedChunkFooter}
        (record { record_count = k; final_length = n + 64; records_crc32c = crc_finalize sum })
        (record { record_count = k'; final_length = n' + 64; records_crc32c = crc_finalize sum' })
sealed_footer n n' k k' sum sum' p q r = rw (p, q, r)

module _ (sha256_digest : Digest) (read_frame : Bytes → ZstdRead) where
  -- Written records of at most 64 MiB are those that a strict scan takes.
  within_bound :
      (rs : List ObjectRecord)
      → All (Writable sha256_digest read_frame) rs
      → All (λ r. length (record_bytes r) ≤ max_recovery_record_bytes) rs
      → Verified sha256_digest read_frame rs
  within_bound [] a b = tt
  within_bound (r ∷ rs) (a, more) (b, bs) = (
    (record { valid = a.0; fits = omega (arith, b, length-record_bytes r a.0) }, λ _. a.1),
    within_bound rs more bs,
  )

  -- Where sealing succeeds on records of at most 64 MiB each, the open file is gone and the sealed
  -- file holds the chunk's header, its records and their footer; the result names that header and
  -- footer; verification of the sealed file accepts it with them; and the catalog has the chunk as
  -- sealed, with the file's length and the number of records.
  pub seal_and_publish_verified :
      (w : ChunkWriter) (rs : List ObjectRecord) (c c' : InMemoryCatalog)
      (files files' : ChunkFiles) (sealed : SealedChunk)
      → Wrote sha256_digest read_frame w rs
      → All (λ r. length (record_bytes r) ≤ max_recovery_record_bytes) rs
      → ◌≡◌ {A = Sealing} (seal_and_publish w c files) (files', c', ok sealed)
      → (files' ≡ record { open_file = none; sealed_file = some (sealed_bytes w.header rs) })
        × (sealed ≡ record { header = w.header; footer = footer_of rs })
        × (verify_sealed_file sha256_digest read_frame (sealed_bytes w.header rs)
            ≡ ok (record { header = w.header; footer = footer_of rs }))
        × (chunk c' w.header.generation w.header.chunk_id
            ≡ some (record {
              state = sealed_state;
              size = length (sealed_bytes w.header rs);
              record_count = length rs;
            }))
  unfolding seal_and_publish
  seal_and_publish_verified w rs c c' files files' sealed s within e =
      let x = seal_with-Seals w c c' files files' sealed (prepare_footer w c files) e in
      let (small, is_footer) = prepare_footer-ok w c files x.footer x.prepared in
      let same : x.footer ≡ footer_of rs =
        is_footer
        ∙ sealed_footer w.next_offset (64 + length (records_bytes rs)) w.record_count (length rs)
            w.records_crc32c _ s.ends s.counts s.sums in
      let size : length w.file ≡ w.next_offset =
        ap length s.holds
        ∙ length-append (encode_chunk_header w.header) (records_bytes rs)
        ∙ omega (arith, length-encode w.header, s.ends) in
      let bytes : write_at w.file w.next_offset (encode_chunk_footer x.footer)
          ≡ sealed_bytes w.header rs =
        write_at-end w.file (encode_chunk_footer x.footer) w.next_offset size
        ∙ ap₂ (λ f g. f ++ encode_chunk_footer g) s.holds same
        ∙ append_assoc (encode_chunk_header w.header) (records_bytes rs)
            (encode_chunk_footer (footer_of rs)) in
      (
        x.written ∙ ap (λ (b : Bytes). record { open_file = none; sealed_file = some b }) bytes,
        x.returned ∙ ap (λ (f : SealedChunkFooter). record { header = w.header; footer = f }) same,
        verify_sealed_bytes sha256_digest read_frame w.header rs s.is_chunk
            (within_bound rs s.verified within) (omega (arith, small, s.ends)),
        publish_sealed-chunk c c' w.header x.footer x.published
            ∙ ap
                (λ f. some (record {
                  state = sealed_state;
                  size = f.final_length;
                  record_count = f.record_count;
                }))
                same
            ∙ ap (λ n. some (record { state = sealed_state; size = n; record_count = length rs }))
                (sym (length-sealed_bytes sha256_digest read_frame w.header rs)),
      )
