-- ===== src/Index.antt =====
-- crates/reflink-forest-index/src/lib.rs: catalog records, batches, and the in-memory catalog with
-- its reads.
pub mod Apply
pub mod Rebuild
pub mod Encoding
pub mod Snapshots
pub mod Batch
mod Tests
use gitdb.Base.{
  ℕ, Bool, true, false, not, ◌≡◌, refl, ◌↔◌, arith, Option, none, some, List, [], ◌∷◌, ◌++◌, ◌==◌,
  ==_iff, ◌&&◌, if◌then◌else◌,
}
use gitdb.Base.Bytes.{Bytes}
use gitdb.Base.Table.{KeyEq, Table, ◌=?◌, get, bytes_Eq, nat_Eq, pair_Eq}
use gitdb.Core.{ObjectKind, HashAlgorithm, algorithm_tag, GitOid, ContentId}
use gitdb.Core.Laws.{algorithm_tag_injective}
use gitdb.Format.{Codec}

-- Identifiers are arrays of 16 bytes.
abbrev pub RepoId : Type 0
RepoId = Bytes

abbrev pub SnapshotId : Type 0
SnapshotId = Bytes

abbrev pub WorkspaceId : Type 0
WorkspaceId = Bytes

abbrev pub GcPinId : Type 0
GcPinId = Bytes

pub data SnapshotVisibility : Type 0 where
  incomplete ready : SnapshotVisibility

pub record RepositorySnapshot : Type 0 where
  pub repository : RepoId
  pub snapshot : SnapshotId
  pub visibility : SnapshotVisibility

pub record ObjectLocation : Type 0 where
  pub generation : ℕ
  pub chunk_id : ℕ
  pub offset : ℕ
  pub record_length : ℕ
  pub stored_length : ℕ
  pub raw_length : ℕ
  pub kind : ObjectKind
  pub codec : Codec
  pub flags : ℕ
  pub payload_crc32c : ℕ

pub data ChunkState : Type 0 where
  open_state sealed_state retired_state : ChunkState

pub record ChunkMetadata : Type 0 where
  pub state : ChunkState
  pub size : ℕ
  pub record_count : ℕ

pub record ObjectLocationEntry : Type 0 where
  pub content_id : ContentId
  pub location : ObjectLocation

pub data ObjectLocationRebuildState : Type 0 where
  idle in_progress : ObjectLocationRebuildState

-- The messages that `UnsupportedOperation` carries, one constructor for each string literal.
pub data UnsupportedOperation : Type 0 where
  direct_rebuild_metadata_mutation : UnsupportedOperation

-- `Backend` is an error of the RocksDB catalog alone.
pub data CatalogError : Type 0 where
  invalid_encoding : CatalogError
  unsupported_version : ℕ → CatalogError
  unsupported_operation : UnsupportedOperation → CatalogError
  rebuild_in_progress rebuild_not_in_progress : CatalogError
  duplicate_rebuilt_location : ContentId → CatalogError
  alias_conflict : RepoId → GitOid → (existing requested : ContentId) → CatalogError

-- "current_generation" and "object_location_rebuild_v1"
abbrev pub current_generation_meta_key : Bytes
current_generation_meta_key =
    b'c' ∷ b'u' ∷ b'r' ∷ b'r' ∷ b'e' ∷ b'n' ∷ b't' ∷ b'_' ∷ b'g' ∷ b'e' ∷ b'n' ∷ b'e' ∷ b'r' ∷ b'a'
    ∷ b't' ∷ b'i' ∷ b'o' ∷ b'n' ∷ []

abbrev pub object_location_rebuild_meta_key : Bytes
object_location_rebuild_meta_key =
    b'o' ∷ b'b' ∷ b'j' ∷ b'e' ∷ b'c' ∷ b't' ∷ b'_' ∷ b'l' ∷ b'o' ∷ b'c' ∷ b'a' ∷ b't' ∷ b'i' ∷ b'o'
    ∷ b'n' ∷ b'_' ∷ b'r' ∷ b'e' ∷ b'b' ∷ b'u' ∷ b'i' ∷ b'l' ∷ b'd' ∷ b'_' ∷ b'v' ∷ b'1' ∷ []

pub data Operation : Type 0 where
  put_location : ContentId → ObjectLocation → Operation
  put_alias : RepoId → GitOid → ContentId → Operation
  put_repository : RepoId → Bytes → Operation
  delete_repository : RepoId → Operation
  put_snapshot : RepoId → SnapshotId → SnapshotVisibility → Operation
  delete_snapshot : RepoId → SnapshotId → Operation
  put_chunk : (generation chunk_id : ℕ) → ChunkMetadata → Operation
  put_meta : (key value : Bytes) → Operation
  put_workspace : WorkspaceId → Bytes → Operation
  put_workspace_name : Bytes → WorkspaceId → Operation
  put_workspace_pin : WorkspaceId → ℕ → Operation
  delete_workspace_pin : WorkspaceId → Operation
  put_gc_pin : GcPinId → ℕ → Operation
  delete_gc_pin : GcPinId → Operation
  put_job : Bytes → Bytes → Operation

-- `CatalogBatch`, the operations in the order of the calls
abbrev pub CatalogBatch : Type 0
CatalogBatch = List Operation

-- Derived equality of content IDs and of Git object IDs, which compares every field.
pub content_id_beq_iff : (a b : ContentId) → ((a.content_bytes =? b.content_bytes) ≡ true) ↔ (a ≡ b)
content_id_beq_iff a b = ground (arith, bytes_Eq.same_iff a.content_bytes b.content_bytes)

instance abbrev pub content_id_Eq : KeyEq ContentId
content_id_Eq = record {
  same_key = λ a b. a.content_bytes =? b.content_bytes;
  same_iff = content_id_beq_iff;
}

abbrev algorithm_beq : HashAlgorithm → HashAlgorithm → Bool
algorithm_beq a b = algorithm_tag a == algorithm_tag b

abbrev oid_beq : GitOid → GitOid → Bool
oid_beq a b = algorithm_beq a.algorithm b.algorithm && (a.len == b.len && a.bytes =? b.bytes)

pub oid_beq_iff : (a b : GitOid) → (oid_beq a b ≡ true) ↔ (a ≡ b)
oid_beq_iff a b = ground (
  arith,
  ==_iff (algorithm_tag a.algorithm) (algorithm_tag b.algorithm),
  algorithm_tag_injective a.algorithm b.algorithm,
  ==_iff a.len b.len,
  bytes_Eq.same_iff a.bytes b.bytes,
)

instance abbrev pub oid_Eq : KeyEq GitOid
oid_Eq = record { same_key = oid_beq; same_iff = oid_beq_iff }

pub record InMemoryCatalog : Type 0 where
  pub objects : Table ContentId ObjectLocation
  pub rebuilding : Bool
  pub aliases : Table (RepoId × GitOid) ContentId
  pub repositories : Table RepoId Bytes
  pub repository_snapshots : Table (RepoId × SnapshotId) SnapshotVisibility
  pub chunks : Table (ℕ × ℕ) ChunkMetadata
  pub metas : Table Bytes Bytes
  pub workspaces : Table WorkspaceId Bytes
  pub workspace_names : Table Bytes WorkspaceId
  pub workspace_pins : Table WorkspaceId ℕ
  pub gc_pins : Table GcPinId ℕ
  pub jobs : Table Bytes Bytes

-- `object_location`, `object_location_rebuild_state` and `oid_alias` of `InMemoryCatalog`
unfoldable pub object_location : InMemoryCatalog → ContentId → Option ObjectLocation
object_location c id = if c.rebuilding then none else get id c.objects

unfoldable pub object_location_rebuild_state : InMemoryCatalog → ObjectLocationRebuildState
object_location_rebuild_state c = if c.rebuilding then in_progress else idle

unfoldable pub oid_alias : InMemoryCatalog → RepoId → GitOid → Option ContentId
oid_alias c repo oid = get (repo, oid) c.aliases
