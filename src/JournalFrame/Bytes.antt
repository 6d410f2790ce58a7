-- ===== src/JournalFrame/Bytes.antt =====
-- `write_u32_le` and `read_u32_le` of protocol/event_journal_core.cpp.
use mesflow_kiosk_runtime_v.Prelude.{
  ℕ, ◌+◌, ◌*◌, ◌/◌, ◌%◌, ◌^◌, ◌<◌, ◌≡◌, refl, List, [], ◌∷◌, length, arith,
}

-- `v >> 8k & 0xFF` is a quotient and a remainder.
unfoldable pub write_u32_le : ℕ → List ℕ
write_u32_le v = v % 256 ∷ v / 2 ^ 8 % 256 ∷ v / 2 ^ 16 % 256 ∷ v / 2 ^ 24 % 256 ∷ []

-- `b[0] | b[1] << 8 | …`: the fields are disjoint, so the bitwise or is a sum.
unfoldable pub read_u32_le : List ℕ → ℕ
read_u32_le [] = 0
read_u32_le (b ∷ bs) = b + read_u32_le bs * 2 ^ 8

-- The one byte of a buffer that `read_exact` has filled.
unfoldable pub first_byte : List ℕ → ℕ
first_byte [] = 0
first_byte (b ∷ _) = b

pub length-write_u32_le : (v : ℕ) → length (write_u32_le v) ≡ 4
unfolding write_u32_le
length-write_u32_le v = refl

pub read-write_u32_le : (v : ℕ) → v < 2 ^ 32 → read_u32_le (write_u32_le v) ≡ v
unfolding write_u32_le read_u32_le
read-write_u32_le v h = omega arith
