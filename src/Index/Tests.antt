-- ===== src/Index/Tests.antt =====
-- Runs of the catalog's theorems on samples.
use gitdb.Base.{arith, false, true, ◌≡◌, ◌↔◌, ◌⊎◌, refl, none, some, List, [], ◌∷◌, replicate}
use mathlib.Core.List.{Memᴰ}
use gitdb.Base.Bytes.{Bytes, bytes_eq, put_at}
use gitdb.Base.Result.{ok, err}
use gitdb.Base.Table.{insert, remove, get, bytes_Eq, nat_Eq, pair_Eq}
use gitdb.Core.{algorithm_tag, oid_len, blob, sha1, GitOid, ContentId}
use gitdb.Core.Laws.{oid_of}
use gitdb.Format.{raw}
use gitdb.Index.{
  CatalogError, CatalogBatch, InMemoryCatalog, ObjectLocation, ObjectLocationEntry, ready,
  rebuild_in_progress, object_location, put_location, put_alias, put_snapshot, put_gc_pin,
  delete_gc_pin, content_id_Eq, oid_Eq,
}
use gitdb.Index.Apply.{
  mutates_marker, apply, reject_direct_rebuild_marker_mutation, apply_operations, apply_operation,
}
use gitdb.Index.Apply.Aliases.{AreConsistent, alias_puts}
use gitdb.Index.Apply.Commit.{apply_commits_iff, apply_aliases, apply_failure, Explains}
use gitdb.Index.Apply.Lookups.{LastWrites, apply-LastWrites}
use gitdb.Index.Rebuild.{check_new, insert_entries, begin_rebuild, append_rebuilt, finish_rebuild}
use gitdb.Index.Rebuild.Append.{ids, AreDistinct, append_rebuilt_iff}
use gitdb.Index.Rebuild.Protocol.{
  entry_of, Rebuilt, IsRebuilding, Rebuilt-IsRebuilding, rebuild_publishes,
}
use gitdb.Base.{◌<◌, ◌^◌, ◌≢◌}
use gitdb.Base.Bytes.{AreBytes, are_bytes-AreBytes, be}
use gitdb.Base.Result.{panic}
use gitdb.Core.{kind_tag}
use gitdb.Format.{codec_tag}
use gitdb.Index.{ChunkMetadata, sealed_state}
use gitdb.Index.Encoding.{
  encode_location_value, decode_location_value, encode_chunk_key, decode_chunk_key,
  encode_chunk_value, decode_chunk_value, state_tag,
}
use gitdb.Index.Encoding.Location.{IsLocation, decode_location_value_iff}
use gitdb.Index.Encoding.Chunks.{IsChunk, decode_chunk_key_iff, decode_chunk_value_iff}
use gitdb.Index.{RepoId, SnapshotId, current_generation_meta_key}
use gitdb.Index.Snapshots.{repository, repository_snapshot, delete_whole_repository}
use gitdb.Index.Snapshots.Deletion.{delete_whole_repository_lem}
use gitdb.Index.Batch.{put_current_generation, current_generation}
use gitdb.Index.Batch.Generation.{current_generation_lem}

-- `InMemoryCatalog::default()`
abbrev empty : InMemoryCatalog
empty = record {
  objects = [];
  rebuilding = false;
  aliases = [];
  repositories = [];
  repository_snapshots = [];
  chunks = [];
  metas = [];
  workspaces = [];
  workspace_names = [];
  workspace_pins = [];
  gc_pins = [];
  jobs = [];
}

abbrev location : ObjectLocation
location = record {
  generation = 1;
  chunk_id = 2;
  offset = 64;
  record_length = 152;
  stored_length = 2;
  raw_length = 2;
  kind = blob;
  codec = raw;
  flags = 0;
  payload_crc32c = 0;
}

abbrev content : ContentId
content = record { content_bytes = replicate 32 1 }

abbrev oid : GitOid
oid = oid_of sha1 (replicate 20 3)

abbrev repo : Bytes
repo = replicate 16 4

abbrev batch : CatalogBatch
batch =
    put_location content location
    ∷ put_alias repo oid content
    ∷ put_snapshot repo (replicate 16 5) ready
    ∷ put_gc_pin (replicate 16 6) 1
    ∷ delete_gc_pin (replicate 16 6)
    ∷ put_alias repo oid content
    ∷ []

-- The catalog after the batch
abbrev filled : InMemoryCatalog
filled = record empty {
  objects = (content, location) ∷ [];
  aliases = ((repo, oid), content) ∷ [];
  repository_snapshots = ((repo, replicate 16 5), ready) ∷ [];
}

applied : apply empty batch ≡ (filled, ok tt)
unfolding apply reject_direct_rebuild_marker_mutation mutates_marker apply_operations
    apply_operation get insert bytes_eq algorithm_tag oid_len put_at remove
applied = refl

apply_commits_iff_example :
    ((d : InMemoryCatalog) × (apply empty batch ≡ (d, ok tt)))
    ↔ ((false ≡ false) × (mutates_marker batch ≡ false) × AreConsistent [] (alias_puts batch))
apply_commits_iff_example = apply_commits_iff empty batch

apply_failure_example :
    ((d : InMemoryCatalog) × (apply empty batch ≡ (d, ok tt)))
    ⊎ ((e : CatalogError) × (apply empty batch ≡ (empty, err e)) × Explains empty batch e)
apply_failure_example = apply_failure empty batch

apply_aliases_example : (get (repo, oid) filled.aliases ≡ some content) ↔ (
    (get (repo, oid) empty.aliases ≡ some content) ⊎ Memᴰ ((repo, oid), content) (alias_puts batch))
apply_aliases_example = apply_aliases empty filled batch (repo, oid) content applied

apply-LastWrites_example : LastWrites empty filled batch
apply-LastWrites_example = apply-LastWrites empty filled batch applied

abbrev entries : List ObjectLocationEntry
entries = entry_of content location ∷ []

-- A catalog in a rebuild, before and after an append
abbrev started : InMemoryCatalog
started = record filled { objects = []; rebuilding = true }

abbrev refilled : InMemoryCatalog
refilled = record filled { rebuilding = true }

rebuilding : Rebuilt filled entries refilled
unfolding begin_rebuild append_rebuilt check_new get insert_entries insert remove
rebuilding = Rebuilt.appended entries (Rebuilt.begun {d = started} refl) refl

append_rebuilt_iff_example : ((append_rebuilt started entries).1 ≡ ok tt) ↔ (
    (true ≡ true)
    × AreDistinct (ids entries)
    × ((id : ContentId) → Memᴰ id (ids entries) → get id started.objects ≡ none))
append_rebuilt_iff_example = append_rebuilt_iff started entries

Rebuilt-IsRebuilding_example : IsRebuilding filled entries refilled
Rebuilt-IsRebuilding_example = Rebuilt-IsRebuilding filled refilled entries rebuilding

rebuild_publishes_example :
    ((id : ContentId) → object_location refilled id ≡ none)
    × ((b : CatalogBatch) → apply refilled b ≡ (refilled, err rebuild_in_progress))
    × ((e : InMemoryCatalog) × (finish_rebuild refilled ≡ (e, ok tt))
        × (e ≡ record filled { objects = e.objects })
        × ((id : ContentId) (l : ObjectLocation)
            → (object_location e id ≡ some l) ↔ Memᴰ (entry_of id l) entries))
rebuild_publishes_example = rebuild_publishes filled refilled entries rebuilding

abbrev location_bytes : Bytes
location_bytes = encode_location_value location

location_bytes-AreBytes : AreBytes location_bytes
unfolding encode_location_value be kind_tag codec_tag
location_bytes-AreBytes = are_bytes-AreBytes location_bytes refl

decode_location_value_iff_example :
    (decode_location_value location_bytes ≢ panic)
    × ((decode_location_value location_bytes ≡ ok location)
        ↔ ((location_bytes ≡ encode_location_value location) × IsLocation location))
decode_location_value_iff_example =
    decode_location_value_iff location_bytes location location_bytes-AreBytes

abbrev key_bytes : Bytes
key_bytes = 1 ∷ 0 ∷ 0 ∷ 0 ∷ 7 ∷ 0 ∷ 0 ∷ 0 ∷ 0 ∷ 0 ∷ 0 ∷ 1 ∷ 2 ∷ []

decode_chunk_key_iff_example :
    (decode_chunk_key key_bytes ≢ panic)
    × ((decode_chunk_key key_bytes ≡ ok (7, 258))
        ↔ ((key_bytes ≡ encode_chunk_key 7 258) × (7 < 256 ^ 4) × (258 < 256 ^ 8)))
decode_chunk_key_iff_example =
    decode_chunk_key_iff key_bytes 7 258 (are_bytes-AreBytes key_bytes refl)

abbrev chunk_metadata : ChunkMetadata
chunk_metadata = record { state = sealed_state; size = 640; record_count = 3 }

abbrev value_bytes : Bytes
value_bytes = encode_chunk_value chunk_metadata

value_bytes-AreBytes : AreBytes value_bytes
unfolding encode_chunk_value be state_tag
value_bytes-AreBytes = are_bytes-AreBytes value_bytes refl

decode_chunk_value_iff_example :
    (decode_chunk_value value_bytes ≢ panic)
    × ((decode_chunk_value value_bytes ≡ ok chunk_metadata)
        ↔ ((value_bytes ≡ encode_chunk_value chunk_metadata) × IsChunk chunk_metadata))
decode_chunk_value_iff_example =
    decode_chunk_value_iff value_bytes chunk_metadata value_bytes-AreBytes

delete_whole_repository_lem_example :
    (d : InMemoryCatalog) × (delete_whole_repository filled repo ≡ (d, ok tt))
    × (repository d repo ≡ none)
    × ((s : SnapshotId) → repository_snapshot d repo s ≡ none)
    × ((r : RepoId) → r ≢ repo → repository d r ≡ repository filled r)
    × ((r : RepoId) (s : SnapshotId)
        → r ≢ repo
        → repository_snapshot d r s ≡ repository_snapshot filled r s)
delete_whole_repository_lem_example = delete_whole_repository_lem filled repo refl

abbrev selected : InMemoryCatalog
selected = record empty { metas = (current_generation_meta_key, 0 ∷ 0 ∷ 1 ∷ 2 ∷ []) ∷ [] }

selection : apply empty (put_current_generation [] 258) ≡ (selected, ok tt)
unfolding apply put_current_generation reject_direct_rebuild_marker_mutation mutates_marker
    apply_operations apply_operation insert remove be bytes_eq
selection = refl

current_generation_lem_example : current_generation selected ≡ some 258
current_generation_lem_example =
    current_generation_lem empty selected [] 258 (omega arith) selection
