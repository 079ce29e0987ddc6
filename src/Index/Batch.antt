-- ===== src/Index/Batch.antt =====
-- `CatalogBatch`'s methods, each of which adds an operation at the end, and the reads that they are
-- for.
pub mod Generation
use gitdb.Base.{ℕ, Option, none, some, [], ◌∷◌, ◌++◌, ◌==◌, if◌then◌else◌, length}
use gitdb.Base.Bytes.{Bytes, be, from_be}
use gitdb.Base.Table.{get, nat_Eq, bytes_Eq, pair_Eq}
use gitdb.Core.{GitOid, ContentId}
use gitdb.Index.{
  RepoId, SnapshotId, WorkspaceId, GcPinId, SnapshotVisibility, ObjectLocation, ChunkMetadata,
  CatalogBatch, InMemoryCatalog, current_generation_meta_key, put_location, put_alias,
  put_repository, delete_repository, put_snapshot, delete_snapshot, put_chunk, put_meta,
  put_workspace, put_workspace_name, put_workspace_pin, delete_workspace_pin, put_gc_pin,
  delete_gc_pin, put_job,
}

unfoldable pub put_object_location : CatalogBatch → ContentId → ObjectLocation → CatalogBatch
put_object_location batch id location = batch ++ put_location id location ∷ []

unfoldable pub put_oid_alias : CatalogBatch → RepoId → GitOid → ContentId → CatalogBatch
put_oid_alias batch repo oid id = batch ++ put_alias repo oid id ∷ []

unfoldable pub put_repository_record : CatalogBatch → RepoId → Bytes → CatalogBatch
put_repository_record batch id r = batch ++ put_repository id r ∷ []

unfoldable pub delete_repository_record : CatalogBatch → RepoId → CatalogBatch
delete_repository_record batch id = batch ++ delete_repository id ∷ []

unfoldable pub put_repository_snapshot :
    CatalogBatch → RepoId → SnapshotId → SnapshotVisibility → CatalogBatch
put_repository_snapshot batch repo snapshot visibility =
    batch ++ put_snapshot repo snapshot visibility ∷ []

unfoldable pub delete_repository_snapshot : CatalogBatch → RepoId → SnapshotId → CatalogBatch
delete_repository_snapshot batch repo snapshot = batch ++ delete_snapshot repo snapshot ∷ []

unfoldable pub put_chunk_metadata :
    CatalogBatch → (generation chunk_id : ℕ) → ChunkMetadata → CatalogBatch
put_chunk_metadata batch generation chunk_id metadata =
    batch ++ put_chunk generation chunk_id metadata ∷ []

unfoldable pub put_meta_value : CatalogBatch → (key value : Bytes) → CatalogBatch
put_meta_value batch key value = batch ++ put_meta key value ∷ []

unfoldable pub put_current_generation : CatalogBatch → (generation : ℕ) → CatalogBatch
put_current_generation batch generation =
    batch ++ put_meta current_generation_meta_key (be 4 generation) ∷ []

unfoldable pub put_workspace_record : CatalogBatch → WorkspaceId → Bytes → CatalogBatch
put_workspace_record batch id r = batch ++ put_workspace id r ∷ []

unfoldable pub put_name : CatalogBatch → Bytes → WorkspaceId → CatalogBatch
put_name batch name id = batch ++ put_workspace_name name id ∷ []

unfoldable pub put_pin : CatalogBatch → WorkspaceId → (generation : ℕ) → CatalogBatch
put_pin batch id generation = batch ++ put_workspace_pin id generation ∷ []

unfoldable pub delete_pin : CatalogBatch → WorkspaceId → CatalogBatch
delete_pin batch id = batch ++ delete_workspace_pin id ∷ []

unfoldable pub put_explicit_pin : CatalogBatch → GcPinId → (generation : ℕ) → CatalogBatch
put_explicit_pin batch id generation = batch ++ put_gc_pin id generation ∷ []

unfoldable pub delete_explicit_pin : CatalogBatch → GcPinId → CatalogBatch
delete_explicit_pin batch id = batch ++ delete_gc_pin id ∷ []

unfoldable pub put_job_record : CatalogBatch → (job_id r : Bytes) → CatalogBatch
put_job_record batch job_id r = batch ++ put_job job_id r ∷ []

unfoldable pub chunk : InMemoryCatalog → (generation chunk_id : ℕ) → Option ChunkMetadata
chunk c generation chunk_id = get (generation, chunk_id) c.chunks

unfoldable pub meta : InMemoryCatalog → Bytes → Option Bytes
meta c key = get key c.metas

unfoldable pub workspace : InMemoryCatalog → WorkspaceId → Option Bytes
workspace c id = get id c.workspaces

unfoldable pub workspace_name : InMemoryCatalog → Bytes → Option WorkspaceId
workspace_name c name = get name c.workspace_names

unfoldable pub workspace_pin : InMemoryCatalog → WorkspaceId → Option ℕ
workspace_pin c id = get id c.workspace_pins

unfoldable pub job : InMemoryCatalog → Bytes → Option Bytes
job c job_id = get job_id c.jobs

-- `value.as_slice().try_into().ok()?` for an array of four bytes
unfoldable pub generation_value : Option Bytes → Option ℕ
generation_value none = none
generation_value (some value) = if length value == 4 then some (from_be value) else none

-- `Catalog::current_generation`
unfoldable pub current_generation : InMemoryCatalog → Option ℕ
current_generation c = generation_value (meta c current_generation_meta_key)
