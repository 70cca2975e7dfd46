-- ===== src/ConsistentHashing/Hash.antt =====
-- crc64.Checksum of hash/crc64 with the ISO table, bit by bit over the reflected polynomial.
use Prim.Native.Nat.{bit_xor}
use design_pocs.Common.{
  ℕ, zero, suc, ◌/◌, ◌%◌, ◌≡◌, refl, [], ◌∷◌, Bytes, codes, ◌==◌, if◌then◌else◌,
}

crc_bits : ℕ → ℕ → ℕ
crc_bits zero c = c
crc_bits (suc n) c =
    crc_bits n (if c % 2 == 1 then bit_xor (c / 2) 0xd800_0000_0000_0000 else c / 2)

crc_bytes : ℕ → Bytes → ℕ
crc_bytes c [] = c
crc_bytes c (b ∷ bs) = crc_bytes (crc_bits 8 (bit_xor c b)) bs

-- computeHash
unfoldable pub compute_hash : Bytes → ℕ
unfolding crc_bits crc_bytes
compute_hash key = bit_xor (crc_bytes 0xffff_ffff_ffff_ffff key) 0xffff_ffff_ffff_ffff

-- The check value of CRC-64/GO-ISO.
compute_hash_check_value : compute_hash (codes "123456789") ≡ 0xb909_56c7_75a4_1001
unfolding compute_hash
compute_hash_check_value = refl
