-- ===== src/JournalIndex/Pending.antt =====
-- The replay queue.
use mesflow_kiosk_runtime_v.Prelude.{map, arith}
use mathlib.Core.List.{Permᴰ}
use mesflow_kiosk_runtime_v.JournalIndex.{
  EventJournalIndex, is_pending, by_device_seq, select, pending_in_device_seq_order,
}
use mesflow_kiosk_runtime_v.JournalIndex.Sorting.{
  IsOrdered, IsWeakOrder, sort_by-Permᴰ, sort_by-IsOrdered,
}

by_device_seq-IsWeakOrder : IsWeakOrder by_device_seq
by_device_seq-IsWeakOrder = record {
  asym = λ x y h. ground arith;
  trans = λ x y z h k. ground arith;
}

-- The queue holds exactly the PENDING and IN_FLIGHT records, each once, and never a record ahead of
-- one with a smaller device_seq.
pub pending_in_device_seq_order-IsOrdered :
    (x : EventJournalIndex)
    → IsOrdered by_device_seq (pending_in_device_seq_order x)
      × Permᴰ (pending_in_device_seq_order x) (map (λ e. e.1) (select is_pending x.records))
unfolding pending_in_device_seq_order
pending_in_device_seq_order-IsOrdered x =
    let unsynced = map (λ e. e.1) (select is_pending x.records) in
    (
      sort_by-IsOrdered by_device_seq by_device_seq-IsWeakOrder unsynced,
      sort_by-Permᴰ by_device_seq unsynced,
    )
