-- ===== src/Store/Writer/Index.antt =====
-- What `append_and_index` leaves in the catalog and in the chunk.
use mathlib.Core.List.{Memᴰ}
use gitdb.Format.Record.RoundTrip.{IsRecord}
use gitdb.Base.{
  ltb, if◌then◌else◌, ℕ, ◌+◌, ◌^◌, ◌<◌, ◌≡◌, ◌≢◌, refl, sym, ap, ap₂, ◌∙◌, arith, inr, false,
  Option, none, some, List, [], ◌∷◌, ◌++◌, append-nil, append_assoc, length, length-append, ==_refl,
}
use gitdb.Base.Bytes.{Bytes, bytes_eq_refl}
use gitdb.Base.Result.{Result, panic, ok, err, ◌>>◌}
use gitdb.Core.Hashing.{Digest}
use gitdb.Format.Chunk.{ChunkHeader, encode_chunk_header}
use gitdb.Format.Chunk.RoundTrip.{length-encode}
use gitdb.Format.Record.{ObjectRecord}
use gitdb.Format.Payload.{ZstdRead}
use gitdb.Index.{
  open_state, RepoId, CatalogError, CatalogBatch, InMemoryCatalog, ObjectLocation, object_location,
  oid_alias, put_location, put_alias, put_chunk, content_id_Eq, oid_Eq,
}
use gitdb.Index.Apply.{apply}
use gitdb.Index.Apply.Commit.{apply-Accepts, apply_aliases}
use gitdb.Index.Apply.Marker.{apply-rebuilding}
use gitdb.Index.Apply.Aliases.{alias_puts}
use gitdb.Index.Apply.Lookups.{apply-LastWrites, last_write, overwrite}
use gitdb.Index.Batch.{put_object_location, put_oid_alias, put_chunk_metadata, chunk}
use gitdb.Store.{StoreError, from_catalog, max_recovery_record_bytes, offset_overflow}
use gitdb.Store.Read.{read_record_at}
use gitdb.Store.Read.Laws.{location_in, read_record_at_lem}
use gitdb.Store.Recovery.Laws.{chunk_bytes}
use gitdb.Store.Scan.Candidate.{record_bytes}
use gitdb.Store.Scan.Rounds.{records_bytes}
use gitdb.Store.Writer.{
  ChunkWriter, RecordLocation, append, append_batch, append_new, append_or_alias, append_and_index,
  index_appended, index_checked, indexed_location, check_chunk,
}
use gitdb.Store.Writer.Laws.{Wrote, records_bytes-append, append-Wrote, append-appended}

abbrev pub Outcome : Type 0
Outcome = ChunkWriter × InMemoryCatalog × Result StoreError (Option RecordLocation)

catalog_done :
    (done : Result CatalogError (Unit {0})) (location l : RecordLocation)
    → (from_catalog done >> ok (some location)) ≡ ok (some l)
    → (done ≡ ok tt) × (location ≡ l)
catalog_done panic location l e = absurd (cc)
catalog_done (err x) location l e = absurd (cc)
catalog_done (ok u) location l e = (refl, cc e)

not_appended :
    (done : Result CatalogError (Unit {0})) (l : RecordLocation)
    → (from_catalog done >> ok none) ≢ ok (some l)
not_appended panic l e = cc
not_appended (err x) l e = cc
not_appended (ok u) l e = cc

-- What committed an append.
record Indexed (w w' : ChunkWriter) (c c' : InMemoryCatalog) (location l : RecordLocation)
    (m : Result StoreError CatalogBatch) : Type 0 where
  pub batch : CatalogBatch
  pub built : m ≡ ok batch
  pub applied : apply c batch ≡ (c', ok tt)
  pub same_writer : w ≡ w'
  pub same_location : location ≡ l

index_appended-Indexed :
    (w w' : ChunkWriter) (c c' : InMemoryCatalog) (location l : RecordLocation)
    (m : Result StoreError CatalogBatch)
    → ◌≡◌ {A = Outcome} (index_appended w c location m) (w', c', ok (some l))
    → Indexed w w' c c' location l m
unfolding index_appended
index_appended-Indexed w w' c c' location l panic e = absurd (cc)
index_appended-Indexed w w' c c' location l (err x) e = absurd (cc)
index_appended-Indexed w w' c c' location l (ok batch) e =
    let (done, same) = catalog_done (apply c batch).1 location l (ap (λ (o : Outcome). o.2) e) in
    record {
      batch = batch;
      built = refl;
      applied =
          ap₂ (λ (x : InMemoryCatalog) (y : Result CatalogError (Unit {0})). (x, y))
            (ap (λ (o : Outcome). o.1) e) done;
      same_writer = ap (λ (o : Outcome). o.0) e;
      same_location = same;
    }

append_new-Indexed :
    (c c' : InMemoryCatalog) (repo : RepoId) (r : ObjectRecord) (w' : ChunkWriter)
    (l : RecordLocation) (a : ChunkWriter × Result StoreError RecordLocation)
    → ◌≡◌ {A = Outcome} (append_new c repo r a) (w', c', ok (some l))
    → (location : RecordLocation) × (a.1 ≡ ok location)
      × Indexed a.0 w' c c' location l (append_batch a.0 repo r location)
unfolding append_new
append_new-Indexed c c' repo r w' l (w, panic) e = absurd (cc)
append_new-Indexed c c' repo r w' l (w, err x) e = absurd (cc)
append_new-Indexed c c' repo r w' l (w, ok location) e =
    (location, refl, index_appended-Indexed w w' c c' location l _ e)

module _ (sha256_digest : Digest) (read_frame : Bytes → ZstdRead) where
  append_or_alias-new :
      (w w' : ChunkWriter) (c c' : InMemoryCatalog) (repo : RepoId) (r : ObjectRecord)
      (l : RecordLocation) (o : Option ObjectLocation)
      → ◌≡◌ {A = Outcome}
          (append_or_alias sha256_digest read_frame w c repo r o)
          (w', c', ok (some l))
      → ◌≡◌ {A = Outcome}
          (append_new c repo r (append sha256_digest read_frame w r))
          (w', c', ok (some l))
  unfolding append_or_alias
  append_or_alias-new w w' c c' repo r l none e = e
  append_or_alias-new w w' c c' repo r l (some x) e = absurd (
      not_appended (apply c (put_oid_alias [] repo r.primary_oid r.content_id)).1 l
        (ap (λ (o : Outcome). o.2) e))

  index_checked-new :
      (w w' : ChunkWriter) (c c' : InMemoryCatalog) (repo : RepoId) (r : ObjectRecord)
      (l : RecordLocation) (m : Result StoreError (Unit {0}))
      → ◌≡◌ {A = Outcome}
          (index_checked sha256_digest read_frame m w c repo r)
          (w', c', ok (some l))
      → ◌≡◌ {A = Outcome}
          (append_new c repo r (append sha256_digest read_frame w r))
          (w', c', ok (some l))
  unfolding index_checked
  index_checked-new w w' c c' repo r l panic e = absurd (cc)
  index_checked-new w w' c c' repo r l (err x) e = absurd (cc)
  index_checked-new w w' c c' repo r l (ok u) e = append_or_alias-new w w' c c' repo r l _ e

-- The batch of an appended record.
abbrev append_operations : ChunkWriter → RepoId → ObjectRecord → RecordLocation → CatalogBatch
append_operations w repo r location =
    put_location r.content_id (indexed_location w r location)
    ∷ put_alias repo r.primary_oid r.content_id
    ∷ put_chunk w.header.generation w.header.chunk_id
        (record { state = open_state; size = w.next_offset; record_count = w.record_count })
    ∷ []

append_batch-operations :
    (w : ChunkWriter) (repo : RepoId) (r : ObjectRecord) (location : RecordLocation)
    (batch : CatalogBatch)
    → append_batch w repo r location ≡ ok batch
    → batch ≡ append_operations w repo r location
unfolding append_batch put_object_location put_oid_alias put_chunk_metadata
append_batch-operations w repo r location batch e = ground arith

-- What the catalog says of an appended record.
record IsIndexed (c : InMemoryCatalog) (w : ChunkWriter) (repo : RepoId) (r : ObjectRecord)
    (location : RecordLocation) : Type 0 where
  pub located : object_location c r.content_id ≡ some (indexed_location w r location)
  pub named : oid_alias c repo r.primary_oid ≡ some r.content_id
  pub described :
      chunk c w.header.generation w.header.chunk_id
      ≡ some (record { state = open_state; size = w.next_offset; record_count = w.record_count })

applied-IsIndexed :
    (c c' : InMemoryCatalog) (w : ChunkWriter) (repo : RepoId) (r : ObjectRecord)
    (location : RecordLocation)
    → apply c (append_operations w repo r location) ≡ (c', ok tt)
    → IsIndexed c' w repo r location
unfolding object_location oid_alias chunk last_write overwrite alias_puts
applied-IsIndexed c c' w repo r location e =
    let a = apply-Accepts c c' (append_operations w repo r location) e in
    let l = apply-LastWrites c c' (append_operations w repo r location) e in
    let is_idle : c'.rebuilding ≡ false =
      apply-rebuilding c c' (append_operations w repo r location) e ∙ a.is_idle in
    record {
      located =
          rw is_idle
            (l.objects_written r.content_id ∙ rw (bytes_eq_refl r.content_id.content_bytes));
      named =
          (apply_aliases c c' (append_operations w repo r location) (repo, r.primary_oid)
              r.content_id e).1
            (inr (Memᴰ.head refl));
      described =
          l.chunks_written (w.header.generation, w.header.chunk_id)
          ∙ rw (==_refl w.header.generation, ==_refl w.header.chunk_id);
    }

indexed_location-in :
    (h : ChunkHeader) (w : ChunkWriter) (rs : List ObjectRecord) (r : ObjectRecord)
    (location : RecordLocation)
    → w.header ≡ h
    → location
      ≡ record { offset = 64 + length (records_bytes rs); record_length = length (record_bytes r) }
    → indexed_location w r location ≡ location_in h rs r
unfolding indexed_location
indexed_location-in h w rs r location same place = rw (same, place)

module _ (sha256_digest : Digest) (read_frame : Bytes → ZstdRead) {w : ChunkWriter}
    {rs : List ObjectRecord} (s : Wrote sha256_digest read_frame w rs) where
  file_length : length w.file ≡ w.next_offset
  file_length =
      ap length s.holds
      ∙ length-append (encode_chunk_header w.header) (records_bytes rs)
      ∙ omega (arith, length-encode w.header, s.ends)

  described_by :
      (c : InMemoryCatalog) (h : ChunkHeader)
      → w.header ≡ h
      → chunk c w.header.generation w.header.chunk_id
        ≡ some (record { state = open_state; size = w.next_offset; record_count = w.record_count })
      → chunk c h.generation h.chunk_id
        ≡ some (record { state = open_state; size = length w.file; record_count = length rs })
  described_by c h same e =
      ap (λ (x : ChunkHeader). chunk c x.generation x.chunk_id) (sym same)
      ∙ e
      ∙ ap₂ (λ n k. some (record { state = open_state; size = n; record_count = k }))
          (sym file_length) s.counts

module _ (sha256_digest : Digest) (read_frame : Bytes → ZstdRead) where
  -- Where `append_and_index` returns a location for a new object, the writer's file is the chunk
  -- with the record appended; the catalog finds the record's content ID at that record's place, the
  -- repository's alias names the content, and the chunk's metadata has its new size and count; and
  -- reading the file at the place that the catalog gives returns the record, if its bytes are at
  -- most 64 MiB, and fails otherwise.
  pub append_and_index_readable :
      (w w' : ChunkWriter) (c c' : InMemoryCatalog) (repo : RepoId) (generation chunk_id : ℕ)
      (rs : List ObjectRecord) (r : ObjectRecord) (l : RecordLocation)
      → Wrote sha256_digest read_frame w rs
      → IsRecord r
      → 64 + length (records_bytes rs) + length (record_bytes r) < 2 ^ 64
      → ◌≡◌ {A = Outcome}
          (append_and_index sha256_digest read_frame w c repo generation chunk_id r)
          (w', c', ok (some l))
      → Wrote sha256_digest read_frame w' (rs ++ r ∷ [])
        × (object_location c' r.content_id ≡ some (location_in w.header rs r))
        × (oid_alias c' repo r.primary_oid ≡ some r.content_id)
        × (chunk c' w.header.generation w.header.chunk_id
            ≡ some (record {
              state = open_state;
              size = length w'.file;
              record_count = length (rs ++ r ∷ []);
            }))
        × (read_record_at sha256_digest read_frame w'.file (location_in w.header rs r) ≡ (
            if ltb max_recovery_record_bytes (length (record_bytes r))
            then err offset_overflow
            else ok r))
  unfolding append_and_index
  append_and_index_readable w w' c c' repo generation chunk_id rs r l s v small e =
      let new =
        index_checked-new sha256_digest read_frame w w' c c' repo r l
          (check_chunk w c generation chunk_id) e in
      let (location, done, i) =
        append_new-Indexed c c' repo r w' l (append sha256_digest read_frame w r) new in
      let ran : append sha256_digest read_frame w r ≡ (w', ok location) =
        ap₂ (λ (x : ChunkWriter) (y : Result StoreError RecordLocation). (x, y)) i.same_writer
          done in
      let (s', same_header, at, size) =
        append-Wrote sha256_digest read_frame w w' rs r location s v ran in
      let (_, stood, verified) = append-appended sha256_digest read_frame w w' r location v ran in
      let operations =
        append_batch-operations w' repo r location i.batch
          (ap (λ x. append_batch x repo r location) (sym i.same_writer) ∙ i.built) in
      let x =
        applied-IsIndexed c c' w' repo r location (ap (apply c) (sym operations) ∙ i.applied) in
      let place : location ≡ record {
        offset = 64 + length (records_bytes rs);
        record_length = length (record_bytes r);
      } =
        stood ∙ ap (λ n. record { offset = n; record_length = length (record_bytes r) }) s.ends in
      let located : indexed_location w' r location ≡ location_in w.header rs r =
        indexed_location-in w.header w' rs r location same_header place in
      (
        s',
        x.located ∙ ap some located,
        x.named,
        described_by sha256_digest read_frame s' c' w.header same_header x.described,
        ap (λ t. read_record_at sha256_digest read_frame t (location_in w.header rs r))
              (appended_file (ap (λ h. chunk_bytes h (rs ++ r ∷ [])) same_header) s')
            ∙ read_record_at_lem w.header rs r [] s.is_chunk v (omega (arith, small)) sha256_digest
                read_frame verified,
      )
    where
      appended_file :
          chunk_bytes w'.header (rs ++ r ∷ []) ≡ chunk_bytes w.header (rs ++ r ∷ [])
          → Wrote sha256_digest read_frame w' (rs ++ r ∷ [])
          → w'.file ≡ chunk_bytes w.header rs ++ (record_bytes r ++ [])
      appended_file same t =
          t.holds
          ∙ same
          ∙ ap (λ b. encode_chunk_header w.header ++ b)
              (records_bytes-append sha256_digest read_frame rs r)
          ∙ sym (append_assoc (encode_chunk_header w.header) (records_bytes rs) (record_bytes r))
          ∙ ap (λ b. chunk_bytes w.header rs ++ b) (sym (append-nil (record_bytes r)))
