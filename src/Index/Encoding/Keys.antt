-- ===== src/Index/Encoding/Keys.antt =====
-- Identifier, pin, opaque and generation encodings of catalog v1 in
-- crates/reflink-forest-index/src/lib.rs.
pub mod Laws
use gitdb.Base.{ℕ, not, [], ◌∷◌, ◌==◌, length, replicate}
use gitdb.Base.Bytes.{Bytes, be, slice, read_be, byte_at, put_at}
use gitdb.Base.Result.{Result, ok, err, ◌>>=◌, ◌>>◌, reject_if}
use gitdb.Index.{CatalogError, invalid_encoding, RepoId, WorkspaceId, GcPinId}
use gitdb.Index.Encoding.{catalog_version, check_version}

-- `encode_repository_key` and `encode_workspace_key`
unfoldable pub encode_repository_key : RepoId → Bytes
unfolding put_at
encode_repository_key id = put_at (put_at (replicate 17 0) 0 (catalog_version ∷ [])) 1 id

unfoldable pub encode_workspace_key : WorkspaceId → Bytes
unfolding put_at
encode_workspace_key id = put_at (put_at (replicate 17 0) 0 (catalog_version ∷ [])) 1 id

unfoldable pub decode_repository_key : Bytes → Result CatalogError RepoId
decode_repository_key input = do
  reject_if (not (length input == 17)) invalid_encoding
  version ← byte_at input 0
  check_version version
  id ← slice input 1 (length input)
  ok id

unfoldable pub decode_workspace_key : Bytes → Result CatalogError WorkspaceId
decode_workspace_key input = do
  reject_if (not (length input == 17)) invalid_encoding
  version ← byte_at input 0
  check_version version
  id ← slice input 1 (length input)
  ok id

abbrev pub explicit_gc_pin_key_tag : ℕ
explicit_gc_pin_key_tag = 1

unfoldable pub encode_gc_pin_key : GcPinId → Bytes
unfolding put_at
encode_gc_pin_key id =
    let out0 : Bytes = replicate 18 0 in
    let out1 = put_at out0 0 (catalog_version ∷ []) in
    let out2 = put_at out1 1 (explicit_gc_pin_key_tag ∷ []) in put_at out2 2 id

unfoldable pub decode_gc_pin_key : Bytes → Result CatalogError GcPinId
decode_gc_pin_key input = do
  reject_if (not (length input == 18)) invalid_encoding
  version ← byte_at input 0
  check_version version
  tag ← byte_at input 1
  reject_if (not (tag == explicit_gc_pin_key_tag)) invalid_encoding
  id ← slice input 2 (length input)
  ok id

unfoldable pub encode_opaque_key : Bytes → Bytes
encode_opaque_key key = catalog_version ∷ key

-- `split_first` fails on the empty slice alone.
unfoldable pub decode_opaque_key : Bytes → Result CatalogError Bytes
decode_opaque_key [] = err invalid_encoding
decode_opaque_key (version ∷ value) = check_version version >> ok value

unfoldable pub encode_current_generation_value : (generation : ℕ) → Bytes
unfolding put_at be
encode_current_generation_value generation =
    put_at (put_at (replicate 5 0) 0 (catalog_version ∷ [])) 1 (be 4 generation)

unfoldable pub decode_current_generation_value : Bytes → Result CatalogError ℕ
decode_current_generation_value input = do
  reject_if (not (length input == 5)) invalid_encoding
  version ← byte_at input 0
  check_version version
  generation ← read_be 4 input 1
  ok generation
