-- ===== src/Store.antt =====
-- crates/reflink-forest-store/src/lib.rs: errors, files as byte sequences, and the reads that its
-- parts share. The store's I/O calls succeed, but for reads past the end of a file, which give the
-- error they give.
pub mod Scan
pub mod Headers
pub mod Sealed
pub mod Recovery
pub mod Writer
pub mod Read
pub mod Reconcile
mod Samples
mod Tests
use gitdb.Base.{
  ℕ, zero, suc, append-nil, ◌+◌, ◌-◌, ◌*◌, ◌^◌, ◌≡◌, ◌≤◌, refl, ap, ◌∙◌, sym, arith, List, [], ◌∷◌,
  ◌++◌, leb, length, take, drop, replicate, if◌then◌else◌, drop-append, length-append, le→leb,
  take-append,
}
use gitdb.Base.Bytes.{Bytes, AreBytes}
use gitdb.Base.Result.{Result, panic, ok, err, ◌>>=◌}
use gitdb.Core.{GitOid, ContentId}
use gitdb.Format.{FormatError, chunk_header_len}
use gitdb.Format.Chunk.{ChunkHeader, decode_chunk_header}
use gitdb.Format.Payload.{CodecError, IoError, unexpected_eof}
use gitdb.Index.{RepoId, CatalogError, ChunkState}

abbrev pub max_recovery_record_bytes : ℕ
max_recovery_record_bytes = 64 * 1024 * 1024

-- The messages of `SealedFooterMismatch` and `LocationMismatch`, one constructor for each literal
pub data Mismatch : Type 0 where
  final_length_field record_boundary record_count_field rolling_checksum record_length_field :
      Mismatch
  generation_field chunk_id_field offset_field stored_length_field raw_length_field : Mismatch
  kind_field codec_field flags_field payload_crc32c_field : Mismatch

-- The paths of `ConflictingChunkPaths` are left out.
pub data StoreError : Type 0 where
  io : IoError → StoreError
  format : FormatError → StoreError
  codec : CodecError → StoreError
  catalog : CatalogError → StoreError
  not_an_open_chunk not_a_sealed_chunk conflicting_chunk_paths sealed_footer_missing : StoreError
  sealed_footer_mismatch location_mismatch : Mismatch → StoreError
  open_chunk_contains_sealed_footer offset_overflow : StoreError
  catalog_chunk_state_conflict : (generation chunk_id : ℕ) → ChunkState → StoreError

-- `From<FormatError>`, `From<CodecError>` and `From<CatalogError>`, as `?` applies them
abbrev pub from_format {ℓ} : {A : Type ℓ} → Result FormatError A → Result StoreError A
from_format panic = panic
from_format (err e) = err (format e)
from_format (ok a) = ok a

abbrev pub from_codec {ℓ} : {A : Type ℓ} → Result CodecError A → Result StoreError A
from_codec panic = panic
from_codec (err e) = err (codec e)
from_codec (ok a) = ok a

abbrev pub from_catalog {ℓ} : {A : Type ℓ} → Result CatalogError A → Result StoreError A
from_catalog panic = panic
from_catalog (err e) = err (catalog e)
from_catalog (ok a) = ok a

-- `seek(SeekFrom::Start(offset))`, then `read_exact` of `count` bytes
unfoldable pub read_exact_at : Bytes → (offset count : ℕ) → Result StoreError Bytes
read_exact_at file offset count =
    if leb (offset + count) (length file)
    then ok (take count (drop offset file))
    else err (io unexpected_eof)

-- `seek(SeekFrom::Start(offset))`, then `write_all`: a gap behind the end is filled with zeros.
unfoldable pub write_at : Bytes → (offset : ℕ) → Bytes → Bytes
write_at file offset bytes =
    take offset file
    ++ (replicate (offset - length file) 0 ++ (bytes ++ drop (offset + length bytes) file))

-- `read_chunk_header`
unfoldable pub read_chunk_header : Bytes → Result StoreError ChunkHeader
read_chunk_header file = do
  bytes ← read_exact_at file 0 chunk_header_len
  from_format (decode_chunk_header bytes)

-- The extension of a chunk's path
pub data Extension : Type 0 where
  open_extension sealed_extension other_extension : Extension

-- A read inside a file that is cut at its offset.
pub read_exact_at_lem :
    (pre bytes rest : Bytes) (offset count : ℕ)
    → length pre ≡ offset
    → length bytes ≡ count
    → read_exact_at (pre ++ (bytes ++ rest)) offset count ≡ ok bytes
unfolding read_exact_at
read_exact_at_lem pre bytes rest offset count h k =
    rw
      (le→leb (offset + count) (length (pre ++ (bytes ++ rest)))
        (omega (arith, length-append pre (bytes ++ rest), length-append bytes rest)))
      (ap (λ t. ok (take count t)) (drop-append offset pre (bytes ++ rest) h)
        ∙ ap ok (take-append count bytes rest k))

-- What was read is the front of what stands at the offset.
pub read_exact_at-ok :
    (pre suffix bytes : Bytes) (offset count : ℕ)
    → length pre ≡ offset
    → read_exact_at (pre ++ suffix) offset count ≡ ok bytes
    → (bytes ≡ take count suffix) × (count ≤ length suffix)
unfolding read_exact_at
read_exact_at-ok pre suffix bytes offset count h e =
    ground (arith, drop-append offset pre suffix h, length-append pre suffix)

drop-past : (xs : Bytes) (n : ℕ) → length xs ≤ n → drop n xs ≡ []
drop-past [] zero h = refl
drop-past [] (suc n) h = refl
drop-past (x ∷ xs) zero h = absurd (omega arith)
drop-past (x ∷ xs) (suc n) h = drop-past xs n (omega arith)

-- An append at the end of a file.
pub write_at-end :
    (file bytes : Bytes) (offset : ℕ)
    → length file ≡ offset
    → write_at file offset bytes ≡ file ++ bytes
unfolding write_at
write_at-end file bytes offset h =
    let gap : offset - length file ≡ 0 = omega (arith, h) in
    let whole : take offset file ≡ file =
      ap (take offset) (sym (append-nil file)) ∙ take-append offset file [] h in
    let past : drop (offset + length bytes) file ≡ [] =
      drop-past file (offset + length bytes) (omega (arith, h)) in
    rw (gap, whole, past, append-nil bytes)
