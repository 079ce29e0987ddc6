-- ===== src/Core.antt =====
-- crates/reflink-forest-core/src/lib.rs: object kinds, hash algorithms, Git object IDs and content
-- IDs.
pub mod Hashing
pub mod Laws
pub mod Streaming
pub mod Samples
mod Tests
use gitdb.Base.{
  ℕ, Bool, not, Option, none, some, ◌∷◌, ◌++◌, ◌==◌, if◌then◌else◌, length, take, replicate,
}
use gitdb.Base.Bytes.{Bytes, put_at}
use gitdb.Base.Result.{Result, ok, err}

pub data ObjectKind : Type 0 where
  commit tree blob tag : ObjectKind

-- `ObjectKind::tag`, `ObjectKind::from_tag`
unfoldable pub kind_tag : ObjectKind → ℕ
kind_tag commit = 1
kind_tag tree = 2
kind_tag blob = 3
kind_tag tag = 4

unfoldable pub kind_from_tag : ℕ → Option ObjectKind
kind_from_tag t =
    if t == 1
    then some commit
    else if t == 2
    then some tree
    else if t == 3
    then some blob
    else if t == 4
    then some tag
    else none

pub data HashAlgorithm : Type 0 where
  sha1 sha256 : HashAlgorithm

-- `HashAlgorithm::tag`, `HashAlgorithm::oid_len`, `HashAlgorithm::from_tag`
unfoldable pub algorithm_tag : HashAlgorithm → ℕ
algorithm_tag sha1 = 1
algorithm_tag sha256 = 2

unfoldable pub oid_len : HashAlgorithm → ℕ
oid_len sha1 = 20
oid_len sha256 = 32

unfoldable pub algorithm_from_tag : ℕ → Option HashAlgorithm
algorithm_from_tag t = if t == 1 then some sha1 else if t == 2 then some sha256 else none

pub record InvalidGitOidLength : Type 0 where
  pub algorithm : HashAlgorithm
  pub actual : ℕ

-- The fixed array `bytes` has 32 bytes; the ones from `len` on are zero.
pub record GitOid : Type 0 where
  pub algorithm : HashAlgorithm
  pub len : ℕ
  pub bytes : Bytes

-- `GitOid::new`
unfoldable pub new_oid : HashAlgorithm → Bytes → Result InvalidGitOidLength GitOid
new_oid algorithm oid =
    if not (length oid == oid_len algorithm)
    then err (record { algorithm = algorithm; actual = length oid })
    else ok (record {
      algorithm = algorithm;
      len = oid_len algorithm;
      bytes = put_at (replicate 32 0) 0 oid;
    })

-- `GitOid::as_bytes`: the slice is in range, since `len` is 20 or 32
unfoldable pub as_bytes : GitOid → Bytes
as_bytes oid = take oid.len oid.bytes

-- `GitOid::encode_canonical`
unfoldable pub encode_canonical : GitOid → Bytes
unfolding as_bytes
encode_canonical oid = algorithm_tag oid.algorithm ∷ oid.len ∷ as_bytes oid

-- `ContentId`, an array of 32 bytes
pub record ContentId : Type 0 where
  pub content_bytes : Bytes
