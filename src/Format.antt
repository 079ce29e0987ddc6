-- ===== src/Format.antt =====
-- crates/reflink-forest-format/src/lib.rs: constants, errors, the codec tag, and the checks that
-- its decoders share.
pub mod Crc
pub mod Chunk
pub mod Record
pub mod Footer
pub mod Payload
mod Tests
use gitdb.Base.{
  ℕ, ◌+◌, ◌-◌, ◌%◌, ◌^◌, ◌≡◌, ◌↔◌, arith, Option, none, some, [], ◌∷◌, ltb, ◌==◌, if◌then◌else◌,
}
use gitdb.Base.Bytes.{Bytes}
use gitdb.Base.Result.{Result, ok, err, IsSafe}

abbrev pub format_version : ℕ
format_version = 1

abbrev pub chunk_header_len : ℕ
chunk_header_len = 64

abbrev pub sealed_chunk_footer_len : ℕ
sealed_chunk_footer_len = 64

abbrev pub record_header_len : ℕ
record_header_len = 128

abbrev pub record_footer_len : ℕ
record_footer_len = 20

abbrev pub record_alignment : ℕ
record_alignment = 8

abbrev pub chunk_crc_offset : ℕ
chunk_crc_offset = 36

abbrev pub sealed_chunk_footer_crc_offset : ℕ
sealed_chunk_footer_crc_offset = 32

abbrev pub record_crc_offset : ℕ
record_crc_offset = 94

-- "RFSCHNK\0", "RFSSEAL\0", "ROBJ" and "RENDOBJ\0"
abbrev pub chunk_magic : Bytes
chunk_magic = b'R' ∷ b'F' ∷ b'S' ∷ b'C' ∷ b'H' ∷ b'N' ∷ b'K' ∷ 0 ∷ []

abbrev pub sealed_chunk_footer_magic : Bytes
sealed_chunk_footer_magic = b'R' ∷ b'F' ∷ b'S' ∷ b'S' ∷ b'E' ∷ b'A' ∷ b'L' ∷ 0 ∷ []

abbrev pub record_magic : Bytes
record_magic = b'R' ∷ b'O' ∷ b'B' ∷ b'J' ∷ []

abbrev pub record_end_magic : Bytes
record_end_magic = b'R' ∷ b'E' ∷ b'N' ∷ b'D' ∷ b'O' ∷ b'B' ∷ b'J' ∷ 0 ∷ []

pub data FormatError : Type 0 where
  truncated bad_magic header_crc_mismatch payload_crc_mismatch footer_magic_mismatch : FormatError
  invalid_oid_length invalid_record_length non_zero_reserved non_zero_padding : FormatError
  length_overflow : FormatError
  unsupported_version invalid_object_kind invalid_codec invalid_hash_algorithm : ℕ → FormatError
  invalid_header_length : ℕ → ℕ → FormatError

pub data Codec : Type 0 where
  raw zstd : Codec

-- `Codec as u8` and `Codec::from_tag`
unfoldable pub codec_tag : Codec → ℕ
codec_tag raw = 0
codec_tag zstd = 1

unfoldable pub codec_from_tag : ℕ → Option Codec
codec_from_tag t = if t == 0 then some raw else if t == 1 then some zstd else none

unfoldable pub check_version : ℕ → Result FormatError (Unit {0})
check_version version =
    if version == format_version then ok tt else err (unsupported_version version)

-- The error's fields are `expected` and `actual`.
unfoldable pub check_header_len : ℕ → ℕ → Result FormatError (Unit {0})
check_header_len actual expected =
    if actual == expected then ok tt else err (invalid_header_length expected actual)

-- `checked_add` on `u64`, and on `usize`, which has 64 bits on the supported targets.
unfoldable pub checked_add : ℕ → ℕ → Option ℕ
checked_add a b = if ltb (a + b) (2 ^ 64) then some (a + b) else none

-- `n & !(RECORD_ALIGNMENT - 1)` clears the lowest three bits of `n`.
abbrev pub clear_low_bits : ℕ → ℕ
clear_low_bits n = n - n % record_alignment

abbrev aligned : Option ℕ → Result FormatError ℕ
aligned none = err length_overflow
aligned (some n) = ok (clear_low_bits n)

unfoldable pub align : ℕ → Result FormatError ℕ
unfolding checked_add
align value = aligned (checked_add value (record_alignment - 1))

unfoldable pub align_u64 : ℕ → Result FormatError ℕ
unfolding checked_add
align_u64 value = aligned (checked_add value (record_alignment - 1))

-- `usize::try_from(value)`, where `usize` has 64 bits
unfoldable pub usize_try_from : ℕ → Result FormatError ℕ
usize_try_from value = if ltb value (2 ^ 64) then ok value else err length_overflow

-- `u64::try_from(value)`
unfoldable pub u64_try_from : ℕ → Result FormatError ℕ
u64_try_from value = if ltb value (2 ^ 64) then ok value else err length_overflow

pub check_version-IsSafe : (version : ℕ) → IsSafe (check_version version)
unfolding check_version
check_version-IsSafe version = record { no_panic = ground arith }

pub check_header_len-IsSafe : (actual expected : ℕ) → IsSafe (check_header_len actual expected)
unfolding check_header_len
check_header_len-IsSafe actual expected = record { no_panic = ground arith }

pub check_version-eq_ok : (version : ℕ) → check_version version ≡ ok tt → version ≡ 1
unfolding check_version
check_version-eq_ok version h = ground arith

pub check_header_len-eq_ok :
    (actual expected : ℕ) → check_header_len actual expected ≡ ok tt → actual ≡ expected
unfolding check_header_len
check_header_len-eq_ok actual expected h = ground arith

pub codec_from_tag_iff : (t : ℕ) (c : Codec) → (codec_from_tag t ≡ some c) ↔ (codec_tag c ≡ t)
unfolding codec_from_tag codec_tag
codec_from_tag_iff t c = ground arith
