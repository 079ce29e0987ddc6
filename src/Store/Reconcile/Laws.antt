-- ===== src/Store/Reconcile/Laws.antt =====
-- Reconciliation and the states of a chunk in the catalog.
use gitdb.Base.{
  ℕ, ◌+◌, ◌^◌, ◌<◌, ◌≡◌, ◌≢◌, ◌⊎◌, inl, inr, refl, sym, ap, ap₂, ◌∙◌, arith, Option, none, some,
  List, [], length, ◌==◌, ◌&&◌, Bool-cases, if◌then◌else◌,
}
use gitdb.Base.Bytes.{Bytes}
use gitdb.Base.Result.{Result, panic, ok, err, ◌>>◌}
use gitdb.Core.Hashing.{Digest}
use gitdb.Format.Chunk.{ChunkHeader}
use gitdb.Format.Chunk.RoundTrip.{IsHeader}
use gitdb.Format.Footer.{SealedChunkFooter}
use gitdb.Format.Record.{ObjectRecord}
use gitdb.Format.Payload.{ZstdRead}
use gitdb.Index.{InMemoryCatalog, CatalogBatch, ChunkMetadata, open_state, sealed_state}
use gitdb.Index.Apply.{apply}
use gitdb.Index.Apply.Commit.{apply_failure}
use gitdb.Index.Apply.Lookups.{apply-LastWrites, last_write, overwrite}
use gitdb.Index.Batch.{put_chunk_metadata, chunk}
use gitdb.Store.{StoreError, Extension, open_extension, sealed_extension, other_extension}
use gitdb.Store.Recovery.{Recovery}
use gitdb.Store.Reconcile.{
  as_sealed, check_path_pair, reconcile_checked, reconcile_files, reconcile_open, recover_checked,
  reopen, publish_reopened, publish_verified, reconcile_chunk, verify_sealed_chunk,
}
use gitdb.Store.Scan.Rounds.{records_bytes}
use gitdb.Store.Sealed.{VerifiedSealedChunk}
use gitdb.Store.Sealed.Laws.{Verified, footer_of, sealed_bytes, verify_sealed_bytes}
use gitdb.Store.Writer.{
  ChunkWriter, ChunkFiles, SealedChunk, apply_after, require_open, require_not_retired,
  ensure_catalog_writable, publish_open, publish_sealed_metadata,
}

-- A chunk that is sealed or retired in `c` has that state in `c'`.
abbrev NeverReopens : InMemoryCatalog → InMemoryCatalog → Type 0
NeverReopens c c' =
    (generation chunk_id : ℕ) (m : ChunkMetadata)
    → chunk c generation chunk_id ≡ some m
    → m.state ≢ open_state
    → (m' : ChunkMetadata) × (chunk c' generation chunk_id ≡ some m') × (m'.state ≡ m.state)

unchanged : (c c' : InMemoryCatalog) → c' ≡ c → NeverReopens c c'
unchanged c c' same g i m e sealed = (m, ap (λ x. chunk x g i) same ∙ e, refl)

-- Either nothing was written, or the check had passed and the batch was applied.
apply_after-cases :
    (m : Result StoreError (Unit {0})) (c : InMemoryCatalog) (batch : CatalogBatch)
    → ((apply_after m c batch).0 ≡ c)
      ⊎ ((m ≡ ok tt) × (apply c batch ≡ ((apply_after m c batch).0, ok tt)))
unfolding apply_after
apply_after-cases panic c batch = inl refl
apply_after-cases (err e) c batch = inl refl
apply_after-cases (ok u) c batch = elim (apply_failure c batch) [
  | inl (d, h) ↦ inr (refl, h ∙ ap (λ x. (x, ok tt)) (sym (ap (λ p. p.0) h)))
  | inr (e, h, _) ↦ inl (ap (λ p. p.0) h)
]

put_one :
    (c c' : InMemoryCatalog) (generation chunk_id : ℕ) (new : ChunkMetadata) (g i : ℕ)
    → apply c (put_chunk_metadata [] generation chunk_id new) ≡ (c', ok tt)
    → chunk c' g i ≡ (if generation == g && chunk_id == i then some new else chunk c g i)
unfolding put_chunk_metadata chunk last_write overwrite
put_one c c' generation chunk_id new g i e = (apply-LastWrites c c' _ e).chunks_written (g, i)

-- A write of one chunk's metadata, behind a check of that chunk's entry.
guarded_put :
    (c : InMemoryCatalog) (generation chunk_id : ℕ) (new : ChunkMetadata)
    (m : Result StoreError (Unit {0}))
    → ((old : ChunkMetadata)
        → chunk c generation chunk_id ≡ some old
        → old.state ≢ open_state
        → m ≡ ok tt
        → new.state ≡ old.state)
    → NeverReopens c (apply_after m c (put_chunk_metadata [] generation chunk_id new)).0
guarded_put c generation chunk_id new m allowed g i old e sealed =
    elim (apply_after-cases m c (put_chunk_metadata [] generation chunk_id new)) [
      | inl same ↦ unchanged c _ same g i old e sealed
      | inr (checked, applied) ↦ elim (Bool-cases (generation == g && chunk_id == i)) [
        | inl here ↦
            let same_generation : generation ≡ g = ground (arith, here) in
            let same_chunk : chunk_id ≡ i = ground (arith, here) in
            (
              new,
              put_one c _ generation chunk_id new g i applied ∙ rw here refl,
              allowed old (ap₂ (chunk c) same_generation same_chunk ∙ e) sealed checked,
            )
        | inr other ↦ (old, put_one c _ generation chunk_id new g i applied ∙ rw other e, refl)
      ]
    ]

require_open-state :
    (h : ChunkHeader) (m : ChunkMetadata) → require_open h (some m) ≡ ok tt → m.state ≡ open_state
unfolding require_open
require_open-state h m e = ground arith

require_not_retired-state :
    (h : ChunkHeader) (m : ChunkMetadata)
    → m.state ≢ open_state
    → require_not_retired h (some m) ≡ ok tt
    → sealed_state ≡ m.state
unfolding require_not_retired
require_not_retired-state h m sealed e = ground arith

publish_open-NeverReopens :
    (w : ChunkWriter) (c : InMemoryCatalog) → NeverReopens c (publish_open w c).0
unfolding publish_open ensure_catalog_writable
publish_open-NeverReopens w c =
    guarded_put c w.header.generation w.header.chunk_id _ (ensure_catalog_writable c w.header)
      (λ old e sealed checked.
        absurd
          (sealed (require_open-state w.header old (ap (require_open w.header) (sym e) ∙ checked))))

publish_sealed-NeverReopens :
    (c : InMemoryCatalog) (h : ChunkHeader) (footer : SealedChunkFooter)
    → NeverReopens c (publish_sealed_metadata c h footer).0
unfolding publish_sealed_metadata
publish_sealed-NeverReopens c h footer =
    guarded_put c h.generation h.chunk_id _
      (require_not_retired h (chunk c h.generation h.chunk_id))
      (λ old e sealed checked.
        require_not_retired-state h old sealed (ap (require_not_retired h) (sym e) ∙ checked))

module _ (sha256_digest : Digest) (read_frame : Bytes → ZstdRead) where
  publish_verified-NeverReopens :
      (files : ChunkFiles) (c : InMemoryCatalog) (m : Result StoreError SealedChunk)
      → NeverReopens c (publish_verified sha256_digest read_frame files c m).1
  unfolding publish_verified
  publish_verified-NeverReopens files c panic = unchanged c c refl
  publish_verified-NeverReopens files c (err e) = unchanged c c refl
  publish_verified-NeverReopens files c (ok sealed) =
      publish_sealed-NeverReopens c sealed.header sealed.footer

  publish_reopened-NeverReopens :
      (c : InMemoryCatalog) (recovery : Recovery)
      (reopened : Bytes × Result StoreError (ChunkWriter × Recovery))
      → NeverReopens c (publish_reopened sha256_digest read_frame c recovery reopened).1
  unfolding publish_reopened
  publish_reopened-NeverReopens c recovery (file, panic) = unchanged c c refl
  publish_reopened-NeverReopens c recovery (file, err e) = unchanged c c refl
  publish_reopened-NeverReopens c recovery (file, ok (w, again)) = publish_open-NeverReopens w c

  reopen-NeverReopens :
      (c : InMemoryCatalog) (recovered : Bytes × Result StoreError Recovery)
      → NeverReopens c (reopen sha256_digest read_frame c recovered).1
  unfolding reopen
  reopen-NeverReopens c (file, panic) = unchanged c c refl
  reopen-NeverReopens c (file, err e) = unchanged c c refl
  reopen-NeverReopens c (file, ok recovery) = publish_reopened-NeverReopens c recovery _

  recover_checked-NeverReopens :
      (c : InMemoryCatalog) (file : Bytes) (m : Result StoreError (Unit {0}))
      → NeverReopens c (recover_checked sha256_digest read_frame c file m).1
  unfolding recover_checked
  recover_checked-NeverReopens c file panic = unchanged c c refl
  recover_checked-NeverReopens c file (err e) = unchanged c c refl
  recover_checked-NeverReopens c file (ok u) = reopen-NeverReopens c _

  reconcile_open-NeverReopens :
      (c : InMemoryCatalog) (file : Bytes) (m : Result StoreError VerifiedSealedChunk)
      → NeverReopens c (reconcile_open sha256_digest read_frame c file m).1
  unfolding reconcile_open publish_verified
  reconcile_open-NeverReopens c file panic = unchanged c c refl
  reconcile_open-NeverReopens c file (err e) = recover_checked-NeverReopens c file _
  reconcile_open-NeverReopens c file (ok verified) =
      publish_sealed-NeverReopens c verified.header verified.footer

  reconcile_files-NeverReopens :
      (open_file sealed_file : Option Bytes) (c : InMemoryCatalog)
      → NeverReopens c (reconcile_files sha256_digest read_frame open_file sealed_file c).1
  unfolding reconcile_files
  reconcile_files-NeverReopens (some o) (some f) c = unchanged c c refl
  reconcile_files-NeverReopens none (some f) c = publish_verified-NeverReopens _ c _
  reconcile_files-NeverReopens none none c = unchanged c c refl
  reconcile_files-NeverReopens (some o) none c = reconcile_open-NeverReopens c o _

  reconcile_chunk-NeverReopens :
      (c : InMemoryCatalog) (extension : Extension) (files : ChunkFiles)
      → NeverReopens c (reconcile_chunk sha256_digest read_frame c extension files).1
  unfolding reconcile_chunk reconcile_checked check_path_pair
  reconcile_chunk-NeverReopens c open_extension files =
      reconcile_files-NeverReopens files.open_file files.sealed_file c
  reconcile_chunk-NeverReopens c sealed_extension files =
      reconcile_files-NeverReopens files.open_file files.sealed_file c
  reconcile_chunk-NeverReopens c other_extension files = unchanged c c refl

  -- Whatever the files hold, and whether reconciliation succeeds or fails, a chunk that the catalog
  -- has as sealed or retired keeps that state.
  pub reconcile_chunk_closed :
      (c : InMemoryCatalog) (extension : Extension) (files : ChunkFiles) (generation chunk_id : ℕ)
      (m : ChunkMetadata)
      → chunk c generation chunk_id ≡ some m
      → m.state ≢ open_state
      → (m' : ChunkMetadata) × (chunk
            (reconcile_chunk sha256_digest read_frame c extension files).1
            generation
            chunk_id
          ≡ some m')
        × (m'.state ≡ m.state)
  reconcile_chunk_closed c extension files generation chunk_id m held closed =
      reconcile_chunk-NeverReopens c extension files generation chunk_id m held closed

  -- Under either of its names, a sealed chunk is reconciled alike: its file stands under the sealed
  -- name with the same bytes, and what is left is to publish its header and footer.
  pub reconcile_chunk_sealed :
      (c : InMemoryCatalog) (h : ChunkHeader) (rs : List ObjectRecord) (extension : Extension)
      (files : ChunkFiles)
      → IsHeader h
      → Verified sha256_digest read_frame rs
      → 64 + length (records_bytes rs) + 64 < 2 ^ 64
      → extension ≢ other_extension
      → (files ≡ record { open_file = some (sealed_bytes h rs); sealed_file = none })
        ⊎ (files ≡ record { open_file = none; sealed_file = some (sealed_bytes h rs) })
      → reconcile_chunk sha256_digest read_frame c extension files ≡ (
        record { open_file = none; sealed_file = some (sealed_bytes h rs) },
        (publish_sealed_metadata c h (footer_of rs)).0,
        (publish_sealed_metadata c h (footer_of rs)).1
            >> ok (as_sealed (record { header = h; footer = footer_of rs })),
      )
  unfolding reconcile_chunk reconcile_checked check_path_pair reconcile_files reconcile_open
      publish_verified verify_sealed_chunk
  reconcile_chunk_sealed c h rs open_extension files v a small either (inl before) =
      rw (before, verify_sealed_bytes sha256_digest read_frame h rs v a small)
  reconcile_chunk_sealed c h rs open_extension files v a small either (inr after) =
      rw (after, verify_sealed_bytes sha256_digest read_frame h rs v a small)
  reconcile_chunk_sealed c h rs sealed_extension files v a small either (inl before) =
      rw (before, verify_sealed_bytes sha256_digest read_frame h rs v a small)
  reconcile_chunk_sealed c h rs sealed_extension files v a small either (inr after) =
      rw (after, verify_sealed_bytes sha256_digest read_frame h rs v a small)
  reconcile_chunk_sealed c h rs other_extension files v a small either place = absurd (either refl)
