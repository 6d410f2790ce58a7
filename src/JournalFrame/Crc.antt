-- ===== src/JournalFrame/Crc.antt =====
-- protocol/crc32.h: CRC-32 computed bit by bit.
use Prim.Native.Nat.{bit_xor}
use mesflow_kiosk_runtime_v.Prelude.{
  ℕ, zero, suc, ◌-◌, ◌/◌, ◌%◌, ◌^◌, ◌<◌, ◌≡◌, refl, List, [], ◌∷◌, ◌==◌, if◌then◌else◌, codes,
  arith,
}

-- `(crc >> 1) ^ (0xEDB88320 & mask)`, with the mask all ones or zero by the low bit of `crc`.
crc_bit : ℕ → ℕ
crc_bit crc = bit_xor (crc / 2) (if crc % 2 == 1 then 0xEDB88320 else 0)

crc_bits : ℕ → ℕ → ℕ
unfolding crc_bit
crc_bits zero crc = crc
crc_bits (suc n) crc = crc_bits n (crc_bit crc)

crc_bytes : List ℕ → ℕ → ℕ
unfolding crc_bits
crc_bytes [] crc = crc
crc_bytes (b ∷ bs) crc = crc_bytes bs (crc_bits 8 (bit_xor crc b))

-- `~crc` of a uint32_t.
unfoldable pub crc32 : List ℕ → ℕ
unfolding crc_bytes
crc32 data_bytes = 2 ^ 32 - 1 - crc_bytes data_bytes 0xFFFFFFFF

pub crc32-lt : (bytes : List ℕ) → crc32 bytes < 2 ^ 32
unfolding crc32
crc32-lt bytes = omega arith

crc32_check_value : crc32 (codes "123456789") ≡ 0xCBF43926
unfolding crc32
crc32_check_value = refl
