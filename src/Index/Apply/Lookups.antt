-- ===== src/Index/Apply/Lookups.antt =====
-- What `apply` leaves in each family of records but the aliases: the last write of each key.
use gitdb.Base.{ℕ, ◌≡◌, refl, ap, ◌∙◌, Option, none, some, [], ◌∷◌, if◌then◌else◌}
use gitdb.Base.Bytes.{Bytes}
use gitdb.Base.Result.{ok, >>=-eq-ok}
use gitdb.Base.Table.{KeyEq, Table, ◌=?◌, get, get-insert, get-remove, nat_Eq, bytes_Eq, pair_Eq}
use gitdb.Core.{ContentId}
use gitdb.Index.{
  RepoId, SnapshotId, WorkspaceId, GcPinId, SnapshotVisibility, ObjectLocation, ChunkMetadata,
  Operation, put_location, put_alias, put_repository, delete_repository, put_snapshot,
  delete_snapshot, put_chunk, put_meta, put_workspace, put_workspace_name, put_workspace_pin,
  delete_workspace_pin, put_gc_pin, delete_gc_pin, put_job, CatalogBatch, InMemoryCatalog,
  content_id_Eq, oid_Eq,
}
use gitdb.Index.Apply.{apply_operation, apply_operations, apply}
use gitdb.Index.Apply.Aliases.{bind-Settles}
use gitdb.Index.Apply.Commit.{apply-Accepts}

module _ {K V : Type 0} ⦃e : KeyEq K⦄ where
  unfoldable pub overwrite : Option (K × Option V) → K → Option V → Option V
  overwrite none k old = old
  overwrite (some (j, v)) k old = if j =? k then v else old

  -- What a key holds after a batch, when it held `old`.
  unfoldable pub last_write :
      (Operation → Option (K × Option V)) → CatalogBatch → K → Option V → Option V
  unfolding overwrite
  last_write write [] k old = old
  last_write write (o ∷ os) k old = last_write write os k (overwrite (write o) k old)

  -- One operation at a time is enough.
  last_write-operations :
      (table : InMemoryCatalog → Table K V) (write : Operation → Option (K × Option V))
      → ((o : Operation) (c d : InMemoryCatalog) (k : K)
          → apply_operation o c ≡ ok d
          → get k (table d) ≡ overwrite (write o) k (get k (table c)))
      → (os : CatalogBatch) (c d : InMemoryCatalog) (k : K) → apply_operations os c ≡ ok d
      → get k (table d) ≡ last_write write os k (get k (table c))
  unfolding last_write apply_operations
  last_write-operations table write step [] c d k h = cc
  last_write-operations table write step (o ∷ os) c d k h =
      let (b, first, rest) = >>=-eq-ok (apply_operation o c) (apply_operations os) h in
      last_write-operations table write step os b d k rest
      ∙ ap (last_write write os k) (step o c b k first)

abbrev pub location_write : Operation → Option (ContentId × Option ObjectLocation)
location_write (put_location id v) = some (id, some v)
location_write _ = none

abbrev pub repository_write : Operation → Option (RepoId × Option Bytes)
repository_write (put_repository id v) = some (id, some v)
repository_write (delete_repository id) = some (id, none)
repository_write _ = none

abbrev pub snapshot_write : Operation → Option ((RepoId × SnapshotId) × Option SnapshotVisibility)
snapshot_write (put_snapshot repository snapshot v) = some ((repository, snapshot), some v)
snapshot_write (delete_snapshot repository snapshot) = some ((repository, snapshot), none)
snapshot_write _ = none

abbrev pub chunk_write : Operation → Option ((ℕ × ℕ) × Option ChunkMetadata)
chunk_write (put_chunk generation chunk_id v) = some ((generation, chunk_id), some v)
chunk_write _ = none

abbrev pub meta_write : Operation → Option (Bytes × Option Bytes)
meta_write (put_meta key v) = some (key, some v)
meta_write _ = none

abbrev pub workspace_write : Operation → Option (WorkspaceId × Option Bytes)
workspace_write (put_workspace id v) = some (id, some v)
workspace_write _ = none

abbrev pub workspace_name_write : Operation → Option (Bytes × Option WorkspaceId)
workspace_name_write (put_workspace_name name v) = some (name, some v)
workspace_name_write _ = none

abbrev pub workspace_pin_write : Operation → Option (WorkspaceId × Option ℕ)
workspace_pin_write (put_workspace_pin id v) = some (id, some v)
workspace_pin_write (delete_workspace_pin id) = some (id, none)
workspace_pin_write _ = none

abbrev pub gc_pin_write : Operation → Option (GcPinId × Option ℕ)
gc_pin_write (put_gc_pin id v) = some (id, some v)
gc_pin_write (delete_gc_pin id) = some (id, none)
gc_pin_write _ = none

abbrev pub job_write : Operation → Option (Bytes × Option Bytes)
job_write (put_job id v) = some (id, some v)
job_write _ = none

-- Each family holds the last write of the batch, and what it held where the batch wrote nothing.
pub record LastWrites (c d : InMemoryCatalog) (batch : CatalogBatch) : Type 0 where
  pub objects_written :
      (k : ContentId) → get k d.objects ≡ last_write location_write batch k (get k c.objects)
  pub repositories_written :
      (k : RepoId)
      → get k d.repositories ≡ last_write repository_write batch k (get k c.repositories)
  pub repository_snapshots_written :
      (k : (RepoId × SnapshotId))
      → get k d.repository_snapshots
        ≡ last_write snapshot_write batch k (get k c.repository_snapshots)
  pub chunks_written :
      (k : (ℕ × ℕ)) → get k d.chunks ≡ last_write chunk_write batch k (get k c.chunks)
  pub metas_written : (k : Bytes) → get k d.metas ≡ last_write meta_write batch k (get k c.metas)
  pub workspaces_written :
      (k : WorkspaceId)
      → get k d.workspaces ≡ last_write workspace_write batch k (get k c.workspaces)
  pub workspace_names_written :
      (k : Bytes)
      → get k d.workspace_names ≡ last_write workspace_name_write batch k (get k c.workspace_names)
  pub workspace_pins_written :
      (k : WorkspaceId)
      → get k d.workspace_pins ≡ last_write workspace_pin_write batch k (get k c.workspace_pins)
  pub gc_pins_written :
      (k : GcPinId) → get k d.gc_pins ≡ last_write gc_pin_write batch k (get k c.gc_pins)
  pub jobs_written : (k : Bytes) → get k d.jobs ≡ last_write job_write batch k (get k c.jobs)

objects-step :
    (o : Operation) (c d : InMemoryCatalog) (k : ContentId)
    → apply_operation o c ≡ ok d
    → get k d.objects ≡ overwrite (location_write o) k (get k c.objects)
unfolding apply_operation overwrite
objects-step (put_location id v) c d k h = cc (get-insert id k v c.objects)
objects-step (put_alias repo oid id) c d k h = cc ((bind-Settles repo oid id c _ d refl h).1)
objects-step _ c d k h = cc

repositories-step :
    (o : Operation) (c d : InMemoryCatalog) (k : RepoId)
    → apply_operation o c ≡ ok d
    → get k d.repositories ≡ overwrite (repository_write o) k (get k c.repositories)
unfolding apply_operation overwrite
repositories-step (put_repository id v) c d k h = cc (get-insert id k v c.repositories)
repositories-step (delete_repository id) c d k h = cc (get-remove id k c.repositories)
repositories-step (put_alias repo oid id) c d k h = cc ((bind-Settles repo oid id c _ d refl h).1)
repositories-step _ c d k h = cc

repository_snapshots-step :
    (o : Operation) (c d : InMemoryCatalog) (k : (RepoId × SnapshotId))
    → apply_operation o c ≡ ok d
    → get k d.repository_snapshots ≡ overwrite (snapshot_write o) k (get k c.repository_snapshots)
unfolding apply_operation overwrite
repository_snapshots-step (put_snapshot repository snapshot v) c d k h =
    cc (get-insert (repository, snapshot) k v c.repository_snapshots)
repository_snapshots-step (delete_snapshot repository snapshot) c d k h =
    cc (get-remove (repository, snapshot) k c.repository_snapshots)
repository_snapshots-step (put_alias repo oid id) c d k h =
    cc ((bind-Settles repo oid id c _ d refl h).1)
repository_snapshots-step _ c d k h = cc

chunks-step :
    (o : Operation) (c d : InMemoryCatalog) (k : (ℕ × ℕ))
    → apply_operation o c ≡ ok d
    → get k d.chunks ≡ overwrite (chunk_write o) k (get k c.chunks)
unfolding apply_operation overwrite
chunks-step (put_chunk generation chunk_id v) c d k h =
    cc (get-insert (generation, chunk_id) k v c.chunks)
chunks-step (put_alias repo oid id) c d k h = cc ((bind-Settles repo oid id c _ d refl h).1)
chunks-step _ c d k h = cc

metas-step :
    (o : Operation) (c d : InMemoryCatalog) (k : Bytes)
    → apply_operation o c ≡ ok d
    → get k d.metas ≡ overwrite (meta_write o) k (get k c.metas)
unfolding apply_operation overwrite
metas-step (put_meta key v) c d k h = cc (get-insert key k v c.metas)
metas-step (put_alias repo oid id) c d k h = cc ((bind-Settles repo oid id c _ d refl h).1)
metas-step _ c d k h = cc

workspaces-step :
    (o : Operation) (c d : InMemoryCatalog) (k : WorkspaceId)
    → apply_operation o c ≡ ok d
    → get k d.workspaces ≡ overwrite (workspace_write o) k (get k c.workspaces)
unfolding apply_operation overwrite
workspaces-step (put_workspace id v) c d k h = cc (get-insert id k v c.workspaces)
workspaces-step (put_alias repo oid id) c d k h = cc ((bind-Settles repo oid id c _ d refl h).1)
workspaces-step _ c d k h = cc

workspace_names-step :
    (o : Operation) (c d : InMemoryCatalog) (k : Bytes)
    → apply_operation o c ≡ ok d
    → get k d.workspace_names ≡ overwrite (workspace_name_write o) k (get k c.workspace_names)
unfolding apply_operation overwrite
workspace_names-step (put_workspace_name name v) c d k h =
    cc (get-insert name k v c.workspace_names)
workspace_names-step (put_alias repo oid id) c d k h =
    cc ((bind-Settles repo oid id c _ d refl h).1)
workspace_names-step _ c d k h = cc

workspace_pins-step :
    (o : Operation) (c d : InMemoryCatalog) (k : WorkspaceId)
    → apply_operation o c ≡ ok d
    → get k d.workspace_pins ≡ overwrite (workspace_pin_write o) k (get k c.workspace_pins)
unfolding apply_operation overwrite
workspace_pins-step (put_workspace_pin id v) c d k h = cc (get-insert id k v c.workspace_pins)
workspace_pins-step (delete_workspace_pin id) c d k h = cc (get-remove id k c.workspace_pins)
workspace_pins-step (put_alias repo oid id) c d k h = cc ((bind-Settles repo oid id c _ d refl h).1)
workspace_pins-step _ c d k h = cc

gc_pins-step :
    (o : Operation) (c d : InMemoryCatalog) (k : GcPinId)
    → apply_operation o c ≡ ok d
    → get k d.gc_pins ≡ overwrite (gc_pin_write o) k (get k c.gc_pins)
unfolding apply_operation overwrite
gc_pins-step (put_gc_pin id v) c d k h = cc (get-insert id k v c.gc_pins)
gc_pins-step (delete_gc_pin id) c d k h = cc (get-remove id k c.gc_pins)
gc_pins-step (put_alias repo oid id) c d k h = cc ((bind-Settles repo oid id c _ d refl h).1)
gc_pins-step _ c d k h = cc

jobs-step :
    (o : Operation) (c d : InMemoryCatalog) (k : Bytes)
    → apply_operation o c ≡ ok d
    → get k d.jobs ≡ overwrite (job_write o) k (get k c.jobs)
unfolding apply_operation overwrite
jobs-step (put_job id v) c d k h = cc (get-insert id k v c.jobs)
jobs-step (put_alias repo oid id) c d k h = cc ((bind-Settles repo oid id c _ d refl h).1)
jobs-step _ c d k h = cc

-- After a commit every family but the aliases holds, for each key, what the last operation on the
-- key wrote (nothing after a deletion), and what it held before where no operation of the batch
-- names the key.
pub apply-LastWrites :
    (c d : InMemoryCatalog) (batch : CatalogBatch)
    → apply c batch ≡ (d, ok tt)
    → LastWrites c d batch
apply-LastWrites c d batch h =
    let ran = (apply-Accepts c d batch h).ran in
    record {
      objects_written =
          λ k. last_write-operations (λ m. m.objects) location_write objects-step batch c d k ran;
      repositories_written = λ k.
          last_write-operations (λ m. m.repositories) repository_write repositories-step batch c d k
            ran;
      repository_snapshots_written = λ k.
          last_write-operations (λ m. m.repository_snapshots) snapshot_write
            repository_snapshots-step batch c d k ran;
      chunks_written =
          λ k. last_write-operations (λ m. m.chunks) chunk_write chunks-step batch c d k ran;
      metas_written =
          λ k. last_write-operations (λ m. m.metas) meta_write metas-step batch c d k ran;
      workspaces_written = λ k.
          last_write-operations (λ m. m.workspaces) workspace_write workspaces-step batch c d k ran;
      workspace_names_written = λ k.
          last_write-operations (λ m. m.workspace_names) workspace_name_write workspace_names-step
            batch c d k ran;
      workspace_pins_written = λ k.
          last_write-operations (λ m. m.workspace_pins) workspace_pin_write workspace_pins-step
            batch c d k ran;
      gc_pins_written =
          λ k. last_write-operations (λ m. m.gc_pins) gc_pin_write gc_pins-step batch c d k ran;
      jobs_written = λ k. last_write-operations (λ m. m.jobs) job_write jobs-step batch c d k ran;
    }
