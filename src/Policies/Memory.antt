-- ===== src/Policies/Memory.antt =====
-- firmware/kiosk_runtime_v2/src/health/low_memory_supervisor.{h,cpp}.
use mesflow_kiosk_runtime_v.Prelude.{ℕ, List, leb, if◌then◌else◌, codes}

pub data LowMemoryLevel : Type 0 where
  normal warning critical : LowMemoryLevel

abbrev pub critical_largest_block_bytes : ℕ
critical_largest_block_bytes = 9000

abbrev pub warning_largest_block_bytes : ℕ
warning_largest_block_bytes = 18000

unfoldable pub classify_low_memory : ℕ → LowMemoryLevel
classify_low_memory largest_internal_free_block_bytes =
    if leb largest_internal_free_block_bytes critical_largest_block_bytes
    then critical
    else if leb largest_internal_free_block_bytes warning_largest_block_bytes
    then warning
    else normal

unfoldable pub low_memory_level_to_string : LowMemoryLevel → List ℕ
low_memory_level_to_string normal = codes "NORMAL"
low_memory_level_to_string warning = codes "WARNING"
low_memory_level_to_string critical = codes "CRITICAL"
