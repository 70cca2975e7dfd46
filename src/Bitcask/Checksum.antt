-- ===== src/Bitcask/Checksum.antt =====
-- crc32.ChecksumIEEE of hash/crc32, bit by bit over the reflected polynomial.
use Prim.Native.Nat.{bit_xor}
use design_pocs.Common.{
  ℕ, zero, suc, ◌/◌, ◌%◌, ◌^◌, ◌<◌, ◌≡◌, refl, [], ◌∷◌, arith, Bytes, codes, ◌==◌, if◌then◌else◌,
}

crc_bits : ℕ → ℕ → ℕ
crc_bits zero c = c
crc_bits (suc n) c = crc_bits n (if c % 2 == 1 then bit_xor (c / 2) 0xedb8_8320 else c / 2)

crc_bytes : ℕ → Bytes → ℕ
crc_bytes c [] = c
crc_bytes c (b ∷ bs) = crc_bytes (crc_bits 8 (bit_xor c b)) bs

unfoldable pub checksum : Bytes → ℕ
unfolding crc_bits crc_bytes
checksum bs = bit_xor (crc_bytes 0xffff_ffff bs) 0xffff_ffff % 2 ^ 32

pub checksum-lt : (bs : Bytes) → checksum bs < 2 ^ 32
unfolding checksum
checksum-lt bs = omega arith

-- The check value of CRC-32.
checksum_check_value : checksum (codes "123456789") ≡ 0xcbf4_3926
unfolding checksum
checksum_check_value = refl
