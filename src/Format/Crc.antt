-- ===== src/Format/Crc.antt =====
-- Castagnoli CRC-32C: `Crc32c`, `crc32c` and `crc32c_with_zeroed_field` of
-- crates/reflink-forest-format/src/lib.rs.
pub mod Xor
pub mod Serial
use Prim.Native.Nat.{bit_and, bit_xor}
use gitdb.Base.{ℕ, zero, suc, ◌-◌, ◌/◌, ◌%◌, ◌^◌, ◌<◌, ◌≡◌, refl, arith, [], ◌∷◌, ◌++◌, replicate}
use gitdb.Base.Bytes.{Bytes, put_at}

-- The tuple struct's register, a `u32`
pub record Crc32c : Type 0 where
  pub register : ℕ

-- `Crc32c::new`, also `Default`
unfoldable pub crc_new : Crc32c
crc_new = record { register = 2 ^ 32 - 1 }

-- `(self.0 >> 1) ^ (0x82f6_3b78 & 0_u32.wrapping_sub(self.0 & 1))`
unfoldable pub crc_bit : ℕ → ℕ
crc_bit c = bit_xor (c / 2) (bit_and 0x82f6_3b78 ((2 ^ 32 - c % 2) % 2 ^ 32))

-- `for _ in 0..8`, on the rounds left
unfoldable pub crc_bits : ℕ → ℕ → ℕ
unfolding crc_bit
crc_bits zero c = c
crc_bits (suc n) c = crc_bits n (crc_bit c)

unfoldable pub crc_loop : ℕ → Bytes → ℕ
unfolding crc_bits
crc_loop c [] = c
crc_loop c (byte ∷ bytes) = crc_loop (crc_bits 8 (bit_xor c byte)) bytes

-- `Crc32c::update`
unfoldable pub crc_update : Crc32c → Bytes → Crc32c
unfolding crc_loop
crc_update c bytes = record { register = crc_loop c.register bytes }

-- `Crc32c::finalize`: the complement of a 32-bit register
unfoldable pub crc_finalize : Crc32c → ℕ
crc_finalize c = 2 ^ 32 - 1 - c.register

unfoldable pub crc32c : Bytes → ℕ
unfolding crc_new crc_update crc_finalize
crc32c bytes = crc_finalize (crc_update crc_new bytes)

-- `copy[offset..offset + len].fill(0)` on a range inside `bytes`
unfoldable pub crc32c_with_zeroed_field : Bytes → ℕ → ℕ → ℕ
crc32c_with_zeroed_field bytes offset len = crc32c (put_at bytes offset (replicate len 0))

pub crc32c-lt : (bytes : Bytes) → crc32c bytes < 2 ^ 32
unfolding crc32c
crc32c-lt bytes = omega arith

pub crc32c_with_zeroed_field-lt :
    (bytes : Bytes) (offset len : ℕ) → crc32c_with_zeroed_field bytes offset len < 2 ^ 32
unfolding crc32c_with_zeroed_field
crc32c_with_zeroed_field-lt bytes offset len = crc32c-lt _

crc_loop-append : (c : ℕ) (xs ys : Bytes) → crc_loop c (xs ++ ys) ≡ crc_loop (crc_loop c xs) ys
unfolding crc_loop
crc_loop-append c [] ys = refl
crc_loop-append c (x ∷ xs) ys = crc_loop-append (crc_bits 8 (bit_xor c x)) xs ys

-- Updating with two slices in turn is updating with the slices joined.
pub update-append :
    (c : Crc32c) (xs ys : Bytes) → crc_update (crc_update c xs) ys ≡ crc_update c (xs ++ ys)
unfolding crc_update
update-append c xs ys = rw crc_loop-append
