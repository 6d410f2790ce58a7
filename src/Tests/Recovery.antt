-- ===== src/Tests/Recovery.antt =====
-- The recovery supervisor at concrete inputs.
use mesflow_kiosk_runtime_v.Prelude.{
  ℕ, suc, ◌-◌, ◌<◌, ◌≡◌, refl, false, some, codes, leb, bytes_eq, arith,
}
use mesflow_kiosk_runtime_v.RecoverySupervisor.{
  RecoveryEvent, RecoveryHistory, RecoverySupervisor, low_memory, ui_stall, capacity,
  safe_mode_threshold, truncate_detail, record_recovery_event, recovery_history_at,
  recovery_code_to_string,
}
use mesflow_kiosk_runtime_v.RecoverySupervisor.History.{IsRing, record_recovery_event-lem}
use mesflow_kiosk_runtime_v.RecoverySupervisor.SafeMode.{reboots, reboots-safe_mode}

abbrev stall : RecoveryEvent
stall = record {
  code = ui_stall;
  detail = codes "no frame";
  uptime_ms = 9;
  journal_pressure = 1;
  memory_free_bytes = 30000;
  memory_largest_block_bytes = 8000;
}

abbrev full_ring : RecoveryHistory
full_ring = record {
  slots = λ i. record stall { uptime_ms = i };
  history_count = 8;
  history_next = 3;
}

record_recovery_event-lem_example :
    IsRing (record_recovery_event stall full_ring)
    × (recovery_history_at
          (record_recovery_event stall full_ring)
          ((record_recovery_event stall full_ring).history_count - 1)
        ≡ record stall { detail = truncate_detail stall.detail })
    × ((i : ℕ)
        → full_ring.history_count < capacity
        → i < full_ring.history_count
        → recovery_history_at (record_recovery_event stall full_ring) i
          ≡ recovery_history_at full_ring i)
    × ((i : ℕ)
        → full_ring.history_count ≡ capacity
        → suc i < capacity
        → recovery_history_at (record_recovery_event stall full_ring) i
          ≡ recovery_history_at full_ring (suc i))
record_recovery_event-lem_example = record_recovery_event-lem stall full_ring (record {
  full_or_filling = omega arith;
  next_within = omega arith;
  filling = λ more. omega arith;
})

abbrev after_stall : RecoverySupervisor
after_stall = record {
  safe_mode = false;
  same_fault_streak = 2;
  marked_stable_this_boot = false;
  safe_mode_reason = codes "RECOVERY_UI_STALL";
  prefs = record { streak = some 2; last_code = some (codes "RECOVERY_UI_STALL") };
}

reboots-safe_mode_example : (reboots 3 low_memory after_stall).safe_mode ≡ leb safe_mode_threshold 3
unfolding bytes_eq recovery_code_to_string
reboots-safe_mode_example = reboots-safe_mode 2 low_memory after_stall refl (omega arith)
