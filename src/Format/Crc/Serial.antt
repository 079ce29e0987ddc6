-- ===== src/Format/Crc/Serial.antt =====
-- The checksum one bit at a time.
use Prim.Native.Nat.{bit_and, bit_xor}
use gitdb.Base.{
  ℕ, zero, suc, ◌-◌, ◌/◌, ◌%◌, ◌^◌, ◌<◌, ◌≡◌, refl, ap, ◌∙◌, arith, inl, inr, [], ◌∷◌, ◌==◌,
  Bool-cases, if◌then◌else◌,
}
use gitdb.Base.Bytes.{Bytes, AreBytes}
use gitdb.Format.Crc.{crc_bit, crc_bits, crc_loop, crc_new, crc_update, crc_finalize, crc32c}
use gitdb.Format.Crc.Xor.{bit_xor-half, bit_xor-parity, bit_xor-zero, bit_xor_swap}

-- The shift register of the reflected Castagnoli polynomial takes one bit of the message: it shifts
-- down, and where the bit that falls out differs from the message's, the polynomial is added.
unfoldable pub shift_bit : ℕ → (bit : ℕ) → ℕ
shift_bit c bit = if c % 2 == bit then c / 2 else bit_xor (c / 2) 0x82f6_3b78

-- The lowest `n` bits of a number, lowest first
unfoldable pub shift_bits : (n : ℕ) → ℕ → (bits : ℕ) → ℕ
shift_bits zero c bits = c
shift_bits (suc n) c bits = shift_bits n (shift_bit c (bits % 2)) (bits / 2)

-- The eight bits of each byte in turn
unfoldable pub shift_bytes : ℕ → Bytes → ℕ
shift_bytes c [] = c
shift_bytes c (byte ∷ bytes) = shift_bytes (shift_bits 8 c byte) bytes

-- The mask of `crc_bit`: nothing for a 0, the polynomial for a 1.
mask_zero : (p : ℕ) → p ≡ 0 → bit_and 0x82f6_3b78 ((2 ^ 32 - p) % 2 ^ 32) ≡ 0
mask_zero p e = rw e refl

mask_one : (p : ℕ) → p ≡ 1 → bit_and 0x82f6_3b78 ((2 ^ 32 - p) % 2 ^ 32) ≡ 0x82f6_3b78
mask_one p e = rw e refl

-- One round on a register into which the bits `y` have been mixed shifts in the lowest of them.
crc_bit-shift : (c y : ℕ) → crc_bit (bit_xor c y) ≡ bit_xor (shift_bit c (y % 2)) (y / 2)
unfolding crc_bit shift_bit
crc_bit-shift c y = elim (Bool-cases (c % 2 == y % 2)) [
  | inl same ↦
      let even : bit_xor c y % 2 ≡ 0 = ground (arith, same, bit_xor-parity c y) in
      rw (
        same,
        bit_xor-half c y,
        mask_zero (bit_xor c y % 2) even,
        bit_xor-zero (bit_xor (c / 2) (y / 2)),
      )
  | inr other ↦
      let odd : bit_xor c y % 2 ≡ 1 = ground (arith, other, bit_xor-parity c y) in
      rw (
        other,
        bit_xor-half c y,
        mask_one (bit_xor c y % 2) odd,
        bit_xor_swap (c / 2) (y / 2) 0x82f6_3b78,
      )
]

crc_bits-shift : (n c y : ℕ) → y < 2 ^ n → crc_bits n (bit_xor c y) ≡ shift_bits n c y
unfolding crc_bits shift_bits
crc_bits-shift zero c y h = ap (bit_xor c) (omega arith) ∙ bit_xor-zero c
crc_bits-shift (suc n) c y h =
    ap (crc_bits n) (crc_bit-shift c y)
    ∙ crc_bits-shift n (shift_bit c (y % 2)) (y / 2) (omega arith)

crc_loop-shift : (c : ℕ) (bytes : Bytes) → AreBytes bytes → crc_loop c bytes ≡ shift_bytes c bytes
unfolding crc_loop shift_bytes
crc_loop-shift c [] h = refl
crc_loop-shift c (byte ∷ bytes) (b, h) =
    ap (λ r. crc_loop r bytes) (crc_bits-shift 8 c byte b)
    ∙ crc_loop-shift (shift_bits 8 c byte) bytes h

-- The checksum of a byte string is the complement of the 32-bit shift register of the reflected
-- Castagnoli polynomial 0x82f63b78, which starts with all ones and takes the bits of each byte one
-- at a time, lowest first.
pub crc32c_serial :
    (bytes : Bytes) → AreBytes bytes → crc32c bytes ≡ 2 ^ 32 - 1 - shift_bytes (2 ^ 32 - 1) bytes
unfolding crc32c crc_new crc_update crc_finalize
crc32c_serial bytes h = ap (λ r. 2 ^ 32 - 1 - r) (crc_loop-shift (2 ^ 32 - 1) bytes h)
