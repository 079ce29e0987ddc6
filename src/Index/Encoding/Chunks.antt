-- ===== src/Index/Encoding/Chunks.antt =====
-- Chunk keys and values of the catalog: `decode` accepts exactly what `encode` writes.
use gitdb.Base.{ℕ, ◌<◌, ◌^◌, ◌≡◌, ◌≢◌, ◌↔◌, refl, ap, ◌∙◌, arith, not, some, ◌==◌, length}
use gitdb.Base.Bytes.{Bytes, AreBytes, be, from_be-be, slice, read_be, byte_at, put_at}
use gitdb.Base.Cuts.{read_be-drop, byte_at-drop}
use gitdb.Base.Ensures.{
  Ensures, returns, Ensures-ok, Ensures-ne-panic, ensure_step, ensure_reject, ensure_some,
  ensure_read, ensure_byte,
}
use gitdb.Base.Result.{ok, panic}
use gitdb.Index.{CatalogError, invalid_encoding, ChunkState, ChunkMetadata}
use gitdb.Index.Encoding.{
  check_version, state_tag, state_from_tag, encode_chunk_key, decode_chunk_key, encode_chunk_value,
  decode_chunk_value,
}
use gitdb.Index.Encoding.Location.{check_version-IsSafe, check_version-eq_ok, drop_all}

state_from_tag_iff : (t : ℕ) (s : ChunkState) → (state_from_tag t ≡ some s) ↔ (state_tag s ≡ t)
unfolding state_from_tag state_tag
state_from_tag_iff t s = ground arith

record AcceptedKey (input : Bytes) (k : ℕ × ℕ) : Type 0 where
  size : length input ≡ 13
  version : ℕ
  version_read : byte_at {E = CatalogError} input 0 ≡ ok version
  version_ok : check_version version ≡ ok tt
  generation : read_be {E = CatalogError} 4 input 1 ≡ ok k.0
  chunk_id : read_be {E = CatalogError} 8 input 5 ≡ ok k.1

key-Ensures : (input : Bytes) → Ensures (AcceptedKey input) (decode_chunk_key input)
unfolding decode_chunk_key
key-Ensures input = ensure_reject (not (length input == 13)) invalid_encoding λ sized.
    let size : length input ≡ 13 = ground arith in
    ensure_byte input 0 (omega arith) λ version version_read.
      ensure_step _ (check_version-IsSafe version) λ _ version_ok.
        ensure_read 4 input 1 (omega arith) λ generation e1.
          ensure_read 8 input 5 (omega arith) λ chunk_id e2. returns _ (record {
            size = size;
            version = version;
            version_read = version_read;
            version_ok = version_ok;
            generation = e1;
            chunk_id = e2;
          })

key_written :
    (generation chunk_id : ℕ)
    → generation < 256 ^ 4
    → chunk_id < 256 ^ 8
    → decode_chunk_key (encode_chunk_key generation chunk_id) ≡ ok (generation, chunk_id)
unfolding encode_chunk_key decode_chunk_key slice byte_at put_at be check_version
key_written generation chunk_id h k = rw (from_be-be 4 generation h, from_be-be 8 chunk_id k)

-- On any bytes, decoding a chunk key does not panic, and it returns a generation and a chunk ID
-- exactly when the bytes are the encoding of the two and the two fit 32 and 64 bits.
pub decode_chunk_key_iff :
    (input : Bytes) (generation chunk_id : ℕ)
    → AreBytes input
    → (decode_chunk_key input ≢ panic)
      × ((decode_chunk_key input ≡ ok (generation, chunk_id)) ↔ (
          (input ≡ encode_chunk_key generation chunk_id)
          × (generation < 256 ^ 4)
          × (chunk_id < 256 ^ 8)))
unfolding encode_chunk_key
decode_chunk_key_iff input generation chunk_id bytes_in =
    (Ensures-ne-panic (key-Ensures input), (forth, back))
  where
    forth :
        decode_chunk_key input ≡ ok (generation, chunk_id)
        → (input ≡ encode_chunk_key generation chunk_id)
          × (generation < 256 ^ 4)
          × (chunk_id < 256 ^ 8)
    forth e =
        let a = Ensures-ok (generation, chunk_id) (key-Ensures input) e in
        let first = read_be-drop 4 input 1 bytes_in a.generation in
        let second = read_be-drop 8 input 5 bytes_in a.chunk_id in
        (
          cc (
            byte_at-drop input 0 a.version_read,
            check_version-eq_ok a.version a.version_ok,
            first.0,
            second.0,
            drop_all 13 input a.size,
          ),
          first.1,
          second.1,
        )

    back :
        (input ≡ encode_chunk_key generation chunk_id)
          × (generation < 256 ^ 4)
          × (chunk_id < 256 ^ 8)
        → decode_chunk_key input ≡ ok (generation, chunk_id)
    back (same, fits, fits') = ap decode_chunk_key same ∙ key_written generation chunk_id fits fits'

pub record IsChunk (m : ChunkMetadata) : Type 0 where
  pub size_fits : m.size < 256 ^ 8
  pub record_count_fits : m.record_count < 256 ^ 8

value_written : (m : ChunkMetadata) → IsChunk m → decode_chunk_value (encode_chunk_value m) ≡ ok m
unfolding encode_chunk_value decode_chunk_value slice byte_at put_at be check_version
value_written m v = rw (
  (state_from_tag_iff (state_tag m.state) m.state).1 refl,
  from_be-be 8 m.size v.size_fits,
  from_be-be 8 m.record_count v.record_count_fits,
)

record AcceptedValue (input : Bytes) (m : ChunkMetadata) : Type 0 where
  size : length input ≡ 18
  version : ℕ
  version_read : byte_at {E = CatalogError} input 0 ≡ ok version
  version_ok : check_version version ≡ ok tt
  state_byte : ℕ
  state_read : byte_at {E = CatalogError} input 1 ≡ ok state_byte
  state_known : state_from_tag state_byte ≡ some m.state
  size_read : read_be {E = CatalogError} 8 input 2 ≡ ok m.size
  record_count : read_be {E = CatalogError} 8 input 10 ≡ ok m.record_count

value-Ensures : (input : Bytes) → Ensures (AcceptedValue input) (decode_chunk_value input)
unfolding decode_chunk_value
value-Ensures input = ensure_reject (not (length input == 18)) invalid_encoding λ sized.
    let size : length input ≡ 18 = ground arith in
    ensure_byte input 0 (omega arith) λ version version_read.
      ensure_step _ (check_version-IsSafe version) λ _ version_ok.
        ensure_byte input 1 (omega arith) λ state_byte state_read.
          ensure_some (state_from_tag state_byte) invalid_encoding λ state state_known.
            ensure_read 8 input 2 (omega arith) λ bytes e1.
              ensure_read 8 input 10 (omega arith) λ count e2. returns _ (record {
                size = size;
                version = version;
                version_read = version_read;
                version_ok = version_ok;
                state_byte = state_byte;
                state_read = state_read;
                state_known = state_known;
                size_read = e1;
                record_count = e2;
              })

-- On any bytes, decoding a chunk value does not panic, and it returns `m` exactly when the bytes
-- are the encoding of `m` and its size and record count fit 64 bits.
pub decode_chunk_value_iff :
    (input : Bytes) (m : ChunkMetadata)
    → AreBytes input
    → (decode_chunk_value input ≢ panic)
      × ((decode_chunk_value input ≡ ok m) ↔ ((input ≡ encode_chunk_value m) × IsChunk m))
unfolding encode_chunk_value
decode_chunk_value_iff input m bytes_in = (Ensures-ne-panic (value-Ensures input), (forth, back))
  where
    forth : decode_chunk_value input ≡ ok m → (input ≡ encode_chunk_value m) × IsChunk m
    forth e =
        let a = Ensures-ok m (value-Ensures input) e in
        let first = read_be-drop 8 input 2 bytes_in a.size_read in
        let second = read_be-drop 8 input 10 bytes_in a.record_count in
        (
          cc (
            byte_at-drop input 0 a.version_read,
            check_version-eq_ok a.version a.version_ok,
            byte_at-drop input 1 a.state_read,
            (state_from_tag_iff a.state_byte m.state).0 a.state_known,
            first.0,
            second.0,
            drop_all 18 input a.size,
          ),
          record { size_fits = first.1; record_count_fits = second.1 },
        )

    back : (input ≡ encode_chunk_value m) × IsChunk m → decode_chunk_value input ≡ ok m
    back (same, v) = ap decode_chunk_value same ∙ value_written m v
