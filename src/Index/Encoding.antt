-- ===== src/Index/Encoding.antt =====
-- Keys and values of catalog v1 in crates/reflink-forest-index/src/lib.rs: locations and chunks.
pub mod Location
pub mod Chunks
pub mod Keys
mod Tests
use gitdb.Base.{
  ℕ, ◌+◌, not, Option, none, some, [], ◌∷◌, ◌++◌, ◌==◌, if◌then◌else◌, length, replicate,
}
use gitdb.Base.Bytes.{Bytes, be, slice, read_be, byte_at, put_at}
use gitdb.Base.Result.{Result, ok, err, ◌>>=◌, ◌>>◌, reject_if, ok_or}
use gitdb.Core.{ContentId, kind_tag, kind_from_tag}
use gitdb.Format.{Codec, raw, zstd, codec_tag}
use gitdb.Index.{
  CatalogError, invalid_encoding, unsupported_version, ObjectLocation, ChunkState, open_state,
  sealed_state, retired_state, ChunkMetadata,
}

abbrev pub catalog_version : ℕ
catalog_version = 1

-- `check_version` and `codec`
unfoldable pub check_version : ℕ → Result CatalogError (Unit {0})
check_version version =
    if version == catalog_version then ok tt else err (unsupported_version version)

unfoldable pub codec : ℕ → Result CatalogError Codec
codec tag = if tag == 0 then ok raw else if tag == 1 then ok zstd else err invalid_encoding

-- `ChunkState as u8` and `ChunkState::from_tag`
unfoldable pub state_tag : ChunkState → ℕ
state_tag open_state = 1
state_tag sealed_state = 2
state_tag retired_state = 3

unfoldable pub state_from_tag : ℕ → Option ChunkState
state_from_tag t =
    if t == 1
    then some open_state
    else if t == 2
    then some sealed_state
    else if t == 3
    then some retired_state
    else none

unfoldable pub encode_location_key : ContentId → Bytes
unfolding put_at
encode_location_key id =
    let result0 : Bytes = replicate 33 0 in
    let result1 = put_at result0 0 (catalog_version ∷ []) in put_at result1 1 id.content_bytes

unfoldable pub decode_location_key : Bytes → Result CatalogError ContentId
decode_location_key input = do
  reject_if (not (length input == 33)) invalid_encoding
  version ← byte_at input 0
  check_version version
  id ← slice input 1 (length input)
  ok (record { content_bytes = id })

unfoldable pub encode_location_value : ObjectLocation → Bytes
unfolding put_at be
encode_location_value l =
    let out0 : Bytes = replicate 53 0 in
    let out1 = put_at out0 0 (catalog_version ∷ []) in
    let out2 = put_at out1 1 (be 4 l.generation) in
    let out3 = put_at out2 5 (be 8 l.chunk_id) in
    let out4 = put_at out3 13 (be 8 l.offset) in
    let out5 = put_at out4 21 (be 8 l.record_length) in
    let out6 = put_at out5 29 (be 8 l.stored_length) in
    let out7 = put_at out6 37 (be 8 l.raw_length) in
    let out8 = put_at out7 45 (kind_tag l.kind ∷ []) in
    let out9 = put_at out8 46 (codec_tag l.codec ∷ []) in
    let out10 = put_at out9 47 (be 2 l.flags) in put_at out10 49 (be 4 l.payload_crc32c)

unfoldable pub decode_location_value : Bytes → Result CatalogError ObjectLocation
decode_location_value input = do
  reject_if (not (length input == 53)) invalid_encoding
  version ← byte_at input 0
  check_version version
  generation ← read_be 4 input 1
  chunk_id ← read_be 8 input 5
  offset ← read_be 8 input 13
  record_length ← read_be 8 input 21
  stored_length ← read_be 8 input 29
  raw_length ← read_be 8 input 37
  kind_byte ← byte_at input 45
  kind ← ok_or (kind_from_tag kind_byte) invalid_encoding
  codec_byte ← byte_at input 46
  codec ← codec codec_byte
  flags ← read_be 2 input 47
  payload_crc32c ← read_be 4 input 49
  ok (record {
    generation = generation;
    chunk_id = chunk_id;
    offset = offset;
    record_length = record_length;
    stored_length = stored_length;
    raw_length = raw_length;
    kind = kind;
    codec = codec;
    flags = flags;
    payload_crc32c = payload_crc32c;
  })

unfoldable pub encode_chunk_key : (generation chunk_id : ℕ) → Bytes
unfolding put_at be
encode_chunk_key generation chunk_id =
    let out0 : Bytes = replicate 13 0 in
    let out1 = put_at out0 0 (catalog_version ∷ []) in
    let out2 = put_at out1 1 (be 4 generation) in put_at out2 5 (be 8 chunk_id)

unfoldable pub decode_chunk_key : Bytes → Result CatalogError (ℕ × ℕ)
decode_chunk_key input = do
  reject_if (not (length input == 13)) invalid_encoding
  version ← byte_at input 0
  check_version version
  generation ← read_be 4 input 1
  chunk_id ← read_be 8 input 5
  ok (generation, chunk_id)

unfoldable pub encode_chunk_value : ChunkMetadata → Bytes
unfolding put_at be
encode_chunk_value value =
    let out0 : Bytes = replicate 18 0 in
    let out1 = put_at out0 0 (catalog_version ∷ []) in
    let out2 = put_at out1 1 (state_tag value.state ∷ []) in
    let out3 = put_at out2 2 (be 8 value.size) in put_at out3 10 (be 8 value.record_count)

unfoldable pub decode_chunk_value : Bytes → Result CatalogError ChunkMetadata
decode_chunk_value input = do
  reject_if (not (length input == 18)) invalid_encoding
  version ← byte_at input 0
  check_version version
  state_byte ← byte_at input 1
  state ← ok_or (state_from_tag state_byte) invalid_encoding
  size ← read_be 8 input 2
  record_count ← read_be 8 input 10
  ok (record { state = state; size = size; record_count = record_count })
