-- ===== src/Tests/Index.antt =====
-- The index at concrete records.
use mesflow_kiosk_runtime_v.Prelude.{◌≡◌, refl, [], ◌∷◌, codes, map}
use mathlib.Core.List.{Permᴰ}
use mesflow_kiosk_runtime_v.JournalRecord.{acked, JournalRecord}
use mesflow_kiosk_runtime_v.JournalIndex.{
  collect_and_trim, EventJournalIndex, pending_in_device_seq_order, select, is_pending,
  by_device_seq, sort_by,
}
use mesflow_kiosk_runtime_v.JournalIndex.Sorting.{IsOrdered}
use mesflow_kiosk_runtime_v.JournalIndex.Pending.{pending_in_device_seq_order-IsOrdered}
use mesflow_kiosk_runtime_v.Tests.Journal.{scan_event, first_event}

-- Two events, the later one first in the order of ids.
abbrev pub second_event : JournalRecord
second_event = scan_event (codes "a-0") 9

abbrev pub two_events : EventJournalIndex
two_events = record {
  capacity_bytes = 2000;
  used_bytes = 700;
  records = (codes "a-0", second_event) ∷ (codes "a-1", first_event) ∷ [];
  frame_sizes = (codes "a-0", 350) ∷ (codes "a-1", 350) ∷ [];
}

pending_in_device_seq_order-IsOrdered_example :
    IsOrdered by_device_seq (pending_in_device_seq_order two_events)
    × Permᴰ
        (pending_in_device_seq_order two_events)
        (map (λ e. e.1) (select is_pending two_events.records))
pending_in_device_seq_order-IsOrdered_example = pending_in_device_seq_order-IsOrdered two_events

-- The event with the smaller device_seq goes first.
two_pending : pending_in_device_seq_order two_events ≡ first_event ∷ second_event ∷ []
unfolding pending_in_device_seq_order sort_by
two_pending = refl

abbrev three_acked : EventJournalIndex
three_acked = record two_events {
  records =
      (codes "a", record first_event { sync_status = acked; created_uptime_ms = 5 })
      ∷ (codes "b", record first_event { sync_status = acked; created_uptime_ms = 9 })
      ∷ (codes "c", record first_event { sync_status = acked; created_uptime_ms = 7 })
      ∷ [];
}

-- The oldest of the three is dropped.
two_newest : collect_and_trim acked 2 three_acked.records ≡ codes "b" ∷ codes "c" ∷ []
unfolding collect_and_trim sort_by
two_newest = refl
