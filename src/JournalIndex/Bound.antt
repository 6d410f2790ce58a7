-- ===== src/JournalIndex/Bound.antt =====
-- How many records compaction leaves.
use mesflow_kiosk_runtime_v.StringMap.{StringMap}
use mesflow_kiosk_runtime_v.JournalRecord.{JournalRecord}
