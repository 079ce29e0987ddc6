-- ===== src/Lib.antt =====
-- reflink-forest: a content-addressed store for Git objects, in Rust.
--
-- An object is hashed (crates/reflink-forest-core), framed as a record of an append-only chunk
-- file (crates/reflink-forest-format), and found again through a catalog that maps content IDs to
-- places in chunks and Git object IDs to content IDs (crates/reflink-forest-index). The store
-- (crates/reflink-forest-store) writes the chunks, indexes their records, seals them, recovers
-- them after a crash and reads them back. The import, the checkout, the cache, the workspaces, the
-- maintenance jobs, the backup and the daemon stand on these crates.
--
-- What the files model:
--   Base: Rust's `Result` with a `panic` constructor for an index, a slice or an `expect` out of
--   range, byte strings and big-endian integers, slices, `HashMap` as an association list,
--   sorting, and lists over native numbers.
--   Core: `ObjectKind`, `HashAlgorithm`, `GitOid`, `ContentId` (Core.antt); the incremental and
--   the one-shot hashers (Core/Hashing). SHA-1 and SHA-256 are parameters: a `Digest` whose
--   updates hash the concatenation and whose output has a fixed length, as the `sha1` and `sha2`
--   crates document.
--   Format: the constants, `FormatError`, `Codec` and the shared checks (Format.antt), CRC-32C
--   (Format/Crc), `ChunkHeader` (Format/Chunk), `SealedChunkFooter` (Format/Footer), and
--   `encode_record`, `decode_record`, `decode_record_metadata` and the streaming length and footer
--   checks (Format/Record); the validating writer, the decoding of payloads and
--   `verify_object_record` (Format/Payload). What the `zstd` crate reads out of the bytes of a
--   source is a parameter, `read_frame`: the results of its reads, its error and the bytes behind
--   the frame. The writer takes every byte and the source does not fail, as with the `Vec`,
--   `io::sink` and `Cursor` of the functions on records; the streaming callers are left out.
--   Index: the catalog's records, `CatalogBatch` and `InMemoryCatalog` (Index.antt), the batch's
--   methods and the plain reads (Index/Batch), `apply` (Index/Apply), the locations-only rebuild
--   protocol (Index/Rebuild), repository snapshots and `delete_repository` (Index/Snapshots), and
--   encoded keys and values (Index/Encoding, Index/Encoding/Keys).
--   Store: errors and the reads and writes of a file, which is its bytes (Store.antt); the scan of
--   records with a visitor (Store/Scan); verification of sealed chunks (Store/Sealed); recovery of
--   open ones (Store/Recovery); `ChunkWriter` over the in-memory catalog (Store/Writer);
--   `read_record_at` (Store/Read); `verify_chunk` and `reconcile_chunk`, over the two names of a
--   chunk (Store/Reconcile). The laws of each stand in its child modules.
--
-- Decoders are `do` blocks with the guards of the source in its order; every slice and index of a
-- decoder is checked, and gives `panic` out of range. Encoders write into fixed arrays at fixed
-- offsets by `put_at`, whose writes are in range. A method on `&mut self` returns the new state
-- and its `Result`. `u64` and `usize` are numbers below 2 ^ 64 (the supported targets have 64-bit
-- `usize`), and `checked_add` and `try_from` test that bound. Loops are structural recursion. The
-- decimal length in a Git header runs on fuel of 20 digits, enough for a `u64`. The scan's loop
-- runs on fuel of one more than the end of the range, since every round moves on by at least a
-- byte. Reads of an owned payload run on its length.
--
-- A chunk's file is a byte string and its two names are two optional files. Opening, seeking,
-- writing, renaming and synchronizing succeed, a read past the end of a file fails, and one writer
-- owns the file. A crash in the middle of an append is a file that ends in a part of the record's
-- bytes. The encoder and the writer take records of any length; the scan and `read_record_at` refuse
-- one whose encoding, padding included, is longer than 64 MiB (`MAX_RECOVERY_RECORD_BYTES`), and
-- `IsScannable` is a valid record within that bound.
--
-- Not modelled: compression of payloads (zstd), the RocksDB backend, other file-system and process
-- calls, `Display` texts, the in-memory catalog's sorted visits, lists of pins and `gc_roots`, the
-- store's writer gate, rotating writer, streaming reads and rebuild of object locations, and the
-- crates above the four named: they call the file system, processes, sockets and third-party
-- libraries around these four.
pub mod Base
pub mod Core
pub mod Format
pub mod Index
pub mod Store
