-- ===== src/JournalIndex/Counts.antt =====
-- The counts by status.
use mesflow_kiosk_runtime_v.Prelude.{suc, ◌+◌, ◌≡◌, [], ◌∷◌, length, arith, ◌∙◌}
use mesflow_kiosk_runtime_v.StringMap.{StringMap}
use mesflow_kiosk_runtime_v.JournalRecord.{JournalRecord}
use mesflow_kiosk_runtime_v.JournalIndex.{EventJournalIndex, u32}
use mesflow_kiosk_runtime_v.JournalIndex.Pressure.{
  JournalCounts, total, count_one, count_records, counts, record_count, no_counts,
}

total-count_one :
    (r : JournalRecord) (c : JournalCounts) → total (count_one r c) ≡ u32 (suc (total c))
total-count_one r c = grind arith

total-count_records :
    (m : StringMap JournalRecord) (c : JournalCounts)
    → total (count_records m c) ≡ u32 (total c + length m)
unfolding count_records
total-count_records [] c = omega arith
total-count_records ((_, r) ∷ m) c =
    total-count_records m (count_one r c) ∙ omega (arith, total-count_one r c)

-- Every record is counted under exactly one status: the total of the counts is the number of
-- records.
pub total-counts : (x : EventJournalIndex) → total (counts x) ≡ record_count x
unfolding counts
total-counts x = total-count_records x.records no_counts ∙ omega arith
