-- ===== src/Index/Apply.antt =====
-- `apply` of the in-memory catalog, crates/reflink-forest-index/src/lib.rs.
pub mod Aliases
pub mod Commit
pub mod Lookups
pub mod Marker
use gitdb.Base.{Bool, Option, true, false, not, ◌||◌, ◌≡◌, none, some, List, [], ◌∷◌, if◌then◌else◌}
use gitdb.Base.Result.{Result, ok, err, panic, ◌>>=◌, ◌>>◌, reject_if, committed}
use gitdb.Base.Table.{Table, ◌=?◌, get, insert, remove, bytes_Eq, nat_Eq, pair_Eq}
use gitdb.Core.{GitOid, ContentId}
use gitdb.Index.{
  RepoId, CatalogError, rebuild_in_progress, unsupported_operation,
  direct_rebuild_metadata_mutation, alias_conflict, Operation, put_location, put_alias,
  put_repository, delete_repository, put_snapshot, delete_snapshot, put_chunk, put_meta,
  put_workspace, put_workspace_name, put_workspace_pin, delete_workspace_pin, put_gc_pin,
  delete_gc_pin, put_job, CatalogBatch, InMemoryCatalog, object_location_rebuild_meta_key,
  content_id_Eq, oid_Eq,
}

abbrev is_marker_mutation : Operation → Bool
is_marker_mutation (put_meta key value) = key =? object_location_rebuild_meta_key
is_marker_mutation _ = false

unfoldable pub mutates_marker : CatalogBatch → Bool
mutates_marker [] = false
mutates_marker (o ∷ os) = is_marker_mutation o || mutates_marker os

-- `reject_direct_rebuild_marker_mutation`
unfoldable pub reject_direct_rebuild_marker_mutation : CatalogBatch → Result CatalogError (Unit {0})
reject_direct_rebuild_marker_mutation batch =
    reject_if (mutates_marker batch) (unsupported_operation direct_rebuild_metadata_mutation)

-- The arm of `Operation::OidAlias`, for what `staged.aliases.get(&(repo, oid))` returned.
unfoldable pub bind_alias :
    Option ContentId
    → RepoId
    → GitOid
    → ContentId
    → InMemoryCatalog
    → Result CatalogError InMemoryCatalog
bind_alias (some existing) repo oid id staged =
    if not (existing =? id)
    then err (alias_conflict repo oid existing id)
    else ok (record staged { aliases = insert (repo, oid) id staged.aliases })
bind_alias none repo oid id staged =
    ok (record staged { aliases = insert (repo, oid) id staged.aliases })

-- The body of the loop of `apply`, on the staged clone.
unfoldable pub apply_operation : Operation → InMemoryCatalog → Result CatalogError InMemoryCatalog
unfolding bind_alias
apply_operation (put_location id location) c =
    ok (record c { objects = insert id location c.objects })
apply_operation (put_chunk generation chunk_id metadata) c =
    ok (record c { chunks = insert (generation, chunk_id) metadata c.chunks })
apply_operation (put_repository id r) c =
    ok (record c { repositories = insert id r c.repositories })
apply_operation (delete_repository id) c = ok (record c { repositories = remove id c.repositories })
apply_operation (put_snapshot repository snapshot visibility) c = ok (record c {
  repository_snapshots = insert (repository, snapshot) visibility c.repository_snapshots;
})
apply_operation (delete_snapshot repository snapshot) c =
    ok (record c { repository_snapshots = remove (repository, snapshot) c.repository_snapshots })
apply_operation (put_meta key value) c = ok (record c { metas = insert key value c.metas })
apply_operation (put_workspace id r) c = ok (record c { workspaces = insert id r c.workspaces })
apply_operation (put_workspace_name name id) c =
    ok (record c { workspace_names = insert name id c.workspace_names })
apply_operation (put_workspace_pin id generation) c =
    ok (record c { workspace_pins = insert id generation c.workspace_pins })
apply_operation (delete_workspace_pin id) c =
    ok (record c { workspace_pins = remove id c.workspace_pins })
apply_operation (put_gc_pin id generation) c =
    ok (record c { gc_pins = insert id generation c.gc_pins })
apply_operation (delete_gc_pin id) c = ok (record c { gc_pins = remove id c.gc_pins })
apply_operation (put_job job_id r) c = ok (record c { jobs = insert job_id r c.jobs })
apply_operation (put_alias repo oid id) c = bind_alias (get (repo, oid) c.aliases) repo oid id c

unfoldable pub apply_operations :
    CatalogBatch → InMemoryCatalog → Result CatalogError InMemoryCatalog
apply_operations [] staged = ok staged
apply_operations (o ∷ os) staged = apply_operation o staged >>= apply_operations os

-- `<InMemoryCatalog as Catalog>::apply`
unfoldable pub apply :
    InMemoryCatalog → CatalogBatch → InMemoryCatalog × Result CatalogError (Unit {0})
apply c batch = committed c do
  reject_if c.rebuilding rebuild_in_progress
  reject_direct_rebuild_marker_mutation batch
  apply_operations batch c
