-- ===== src/Index/Snapshots.antt =====
-- Repository records and snapshots of the in-memory catalog, crates/reflink-forest-index/src/lib.rs.
pub mod Deletion
use gitdb.Base.{Bool, true, false, Option, List, [], ◌∷◌, if◌then◌else◌}
use gitdb.Base.Bytes.{Bytes}
use gitdb.Base.Result.{Result}
use gitdb.Base.Sort.{bytes_before, sort}
use gitdb.Base.Table.{Table, ◌=?◌, get, bytes_Eq, pair_Eq}
use gitdb.Index.{
  RepoId, SnapshotId, SnapshotVisibility, incomplete, ready, RepositorySnapshot, CatalogError,
  Operation, delete_repository, delete_snapshot, CatalogBatch, InMemoryCatalog,
}
use gitdb.Index.Apply.{apply}

-- `repository` and `repository_snapshot`
unfoldable pub repository : InMemoryCatalog → RepoId → Option Bytes
repository c id = get id c.repositories

unfoldable pub repository_snapshot :
    InMemoryCatalog → RepoId → SnapshotId → Option SnapshotVisibility
repository_snapshot c repo snapshot = get (repo, snapshot) c.repository_snapshots

abbrev visibility_before : SnapshotVisibility → SnapshotVisibility → Bool
visibility_before incomplete ready = true
visibility_before _ _ = false

-- The derived order of `RepositorySnapshot`, field by field
unfoldable pub snapshot_before : RepositorySnapshot → RepositorySnapshot → Bool
snapshot_before a b =
    if a.repository =? b.repository
    then (if a.snapshot =? b.snapshot
        then visibility_before a.visibility b.visibility
        else bytes_before a.snapshot b.snapshot)
    else bytes_before a.repository b.repository

unfoldable pub snapshot_entries :
    Table (RepoId × SnapshotId) SnapshotVisibility → List RepositorySnapshot
snapshot_entries [] = []
snapshot_entries (((repo, snapshot), visibility) ∷ entries) =
    record { repository = repo; snapshot = snapshot; visibility = visibility }
    ∷ snapshot_entries entries

-- `repository_snapshots`, which returns no error
unfoldable pub repository_snapshots : InMemoryCatalog → List RepositorySnapshot
repository_snapshots c = sort snapshot_before (snapshot_entries c.repository_snapshots)

-- The loop of `Catalog::delete_repository`
unfoldable pub snapshot_deletions : RepoId → List RepositorySnapshot → CatalogBatch
snapshot_deletions repo [] = []
snapshot_deletions repo (s ∷ snapshots) =
    let rest = snapshot_deletions repo snapshots in
    if s.repository =? repo then delete_snapshot repo s.snapshot ∷ rest else rest

-- `Catalog::delete_repository`
unfoldable pub delete_whole_repository :
    InMemoryCatalog → RepoId → InMemoryCatalog × Result CatalogError (Unit {0})
delete_whole_repository c repo =
    apply c (delete_repository repo ∷ snapshot_deletions repo (repository_snapshots c))
