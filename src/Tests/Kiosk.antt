-- ===== src/Tests/Kiosk.antt =====
-- A kiosk with a SPIFFS in memory at concrete inputs.
use mesflow_kiosk_runtime_v.Prelude.{
  inr, ◌≡◌, refl, Bool, true, false, none, some, List, [], ◌∷◌, codes, negsuc, pos, arith,
}
use mesflow_kiosk_runtime_v.EventTypes.{scan, unsynced, quantity_submitted}
use mesflow_kiosk_runtime_v.StateProjection.{quantity_input}
use mesflow_kiosk_runtime_v.Decimal.{decimal}
use mesflow_kiosk_runtime_v.JournalRecord.{human_review}
use mesflow_kiosk_runtime_v.WifiRecovery.{LocalEvent, LocalEventKind, connected}
use mesflow_kiosk_runtime_v.Policies.Environment.{unknown}
use mesflow_kiosk_runtime_v.Policies.NetworkState.{online}
use mesflow_kiosk_runtime_v.RetryPolicy.{failed}
use mesflow_kiosk_runtime_v.NetworkWorker.{NetworkResult, idle, business_event}
use mesflow_kiosk_runtime_v.NetworkWorker.Execute.{Answer, HttpCall}
use mesflow_kiosk_runtime_v.KioskRuntime.{
  World, KioskRuntime, QuantityFlow, Evidence, Notice, identity_screen,
  render_current_business_state, active, suspended, good,
}
use mesflow_kiosk_runtime_v.KioskRuntime.Send.{send_business_event}
use mesflow_kiosk_runtime_v.KioskRuntime.Steps.{
  DeviceStep, local_event, polled, worker_receives, worker_finishes, compaction_begun,
  compaction_ticked, device_step, run,
}
use mesflow_kiosk_runtime_v.KioskRuntime.Durability.{IsDurable}
use mesflow_kiosk_runtime_v.KioskRuntime.Durability.Rounds.{run-IsDurable}
use mesflow_kiosk_runtime_v.KioskRuntime.Quantity.Dialogue.{IsSane}
use mesflow_kiosk_runtime_v.KioskRuntime.Quantity.Typed.{entry}
use mesflow_kiosk_runtime_v.KioskRuntime.Quantity.Submitted.{
  press_keys, three_quantities, press_keys-entry, press_keys-IsSane,
}
use mesflow_kiosk_runtime_v.KioskRuntime.Verdict.{IsWritten, handle_event_result-journal}
use mesflow_kiosk_runtime_v.KioskRuntime.Response.{handle_event_result}
use mesflow_kiosk_runtime_v.KioskRuntime.Keys.{handle_business_key}
use mesflow_kiosk_runtime_v.KioskRuntime.Input.{handle_local_event}
use mesflow_kiosk_runtime_v.KioskRuntime.Poll.{check_ui_timeout}
use mesflow_kiosk_runtime_v.KioskRuntime.Blocked.{outbox, handle_local_event-blocked}
use mesflow_kiosk_runtime_v.Tests.MemorySpiffs.{memory_spiffs}
use mesflow_kiosk_runtime_v.Tests.Concurrent.{keep_none, before_compaction}
use mesflow_kiosk_runtime_v.Tests.Disk.{booted}
use mesflow_kiosk_runtime_v.Tests.State.{snapshot}

abbrev pub world : World
world = record {
  millis = 5000;
  is_safe_mode = false;
  identity_state = active;
  kiosk_token = codes "token";
  recovery_overlay_active = false;
  random = λ i. i;
  sync_status = unsynced;
  sync_age_s = 0;
  iso8601_now = [];
  local_hhmm = [];
  active_bundle = none;
  expected_environment = codes "dev";
}

abbrev blank_flow : QuantityFlow
blank_flow = record {
  local_qty_buffer = [];
  qty_step = good;
  qty_good = 0;
  qty_defect = 0;
  qty_rework = 0;
  qty_timeout_warned = false;
}

abbrev no_evidence : Evidence
no_evidence = record {
  last_scan = [];
  last_key = 0;
  has_scanned = false;
  last_backend_ok = false;
  last_http_status = 0;
  last_error_code = [];
  last_latency_ms = 0;
  last_retry_count = 0;
  last_event_id = [];
  last_event_type = scan;
  scan_pending_result = false;
  pending_raw_code = [];
  consecutive_tcp_connect_fail = 0;
  consecutive_request_failures = 0;
  last_logged_network_state = online;
  last_scan_received_ms = 0;
  last_scan_dispatch_ms = 0;
  last_server_seq = negsuc 0;
}

-- In QUANTITY_INPUT, with an empty journal.
abbrev pub kiosk : KioskRuntime memory_spiffs
kiosk = record {
  journal = booted;
  network = idle;
  state_projection = record { has_snapshot = true; current = snapshot 3 quantity_input };
  device_seq =
      some (record { block_size = 1000; current = 0; reserved_ceiling = 1000; persisted = 1000 });
  device_id = codes "kiosk-1";
  hardware_id = codes "hw";
  boot_id = codes "boot";
  api_endpoint = codes "http://host/api/events";
  wifi_indicator = connected;
  resyncing = false;
  last_activity_ms = 0;
  quantity = blank_flow;
  presentation = record {
    showing_error_view = false;
    error_view_shown_at_ms = 0;
    finish_result_hold_active = false;
    finish_result_hold_until_ms = 0;
    finish_result_employee_name = [];
    finish_result_operation_code = [];
    finish_result_good = 0;
    finish_result_defect = 0;
    finish_result_rework = 0;
    last_rendered_offline_queue = 0;
    last_rendered_clock_text = [];
    drawn = [];
  };
  evidence = no_evidence;
  server = record {
    server_environment = unknown;
    server_version = [];
    last_sync_iso = [];
    env_mismatch = false;
    env_mismatch_expected = unknown;
  };
  replay = record {
    replay_event_ids = [];
    replay_next = 0;
    replaying = false;
    last_replay_fallback_check_ms = 0;
  };
  bootstrap_result = none;
  ui_bundle_fetch_result = none;
}

abbrev refused : HttpCall
refused = record {
  resolves = true;
  begins = true;
  status = negsuc 0;
  retry_after = [];
  content_length = pos 0;
  text = [];
}

abbrev pub no_answer : Answer
no_answer = record { wifi_connected = true; first = refused; second = refused; took_ms = 40 }

-- The same with a journal that is ready to be compacted.
abbrev full_kiosk : KioskRuntime memory_spiffs
full_kiosk = record kiosk { journal = before_compaction }

abbrev steps : List DeviceStep
steps =
    compaction_begun keep_none
    ∷ compaction_ticked 9
    ∷ local_event world
        (record { kind = LocalEventKind.scan; text = codes "EMP-7"; key = 0; timestamp_ms = 4990 })
    ∷ worker_receives
    ∷ worker_finishes no_answer
    ∷ polled world
    ∷ []

run-IsDurable_example : IsDurable memory_spiffs (run memory_spiffs steps full_kiosk)
unfolding device_step
run-IsDurable_example =
    run-IsDurable memory_spiffs steps full_kiosk
      (tt, (inr (tt, tt, tt), (tt, (tt, (tt, (tt, tt)))))) (record { all_backed = (tt, tt, tt) })

press_keys-IsSane_example :
    IsSane (press_keys memory_spiffs world (codes "1200#7#1999999999") kiosk).quantity
press_keys-IsSane_example =
    press_keys-IsSane memory_spiffs world (codes "1200#7#1999999999") kiosk (record {
      short = omega arith;
      good_fits = omega arith;
      defect_fits = omega arith;
      rework_fits = λ h. omega arith;
    })

press_keys-entry_example :
    handle_business_key memory_spiffs world b'#'
      (press_keys memory_spiffs world (codes "12#5#13#") kiosk)
    ≡ send_business_event memory_spiffs world quantity_submitted []
        (three_quantities 12 5 3)
        (record (press_keys memory_spiffs world (entry 12 5 3) kiosk) { last_activity_ms = 5000 })
unfolding decimal
press_keys-entry_example =
    press_keys-entry memory_spiffs world 12 5 3 kiosk refl refl refl (omega arith) (omega arith)
      (omega arith)

abbrev pub failed_result : NetworkResult
failed_result = record {
  kind = business_event;
  outcome = failed 409 (codes "HTTP_4XX") false;
  total_latency_ms = 40;
  attempts = 1;
  event_id = codes "live";
  device_seq = 9;
  response_body = [];
}

handle_event_result-journal_example :
    IsWritten memory_spiffs booted
      (codes "live")
      human_review
      (handle_event_result memory_spiffs world failed_result kiosk).journal
handle_event_result-journal_example =
    handle_event_result-journal memory_spiffs world failed_result kiosk

abbrev suspended_world : World
suspended_world = record world { identity_state = suspended }

handle_local_event-blocked_example :
    ((e : LocalEvent)
      → outbox memory_spiffs (handle_local_event memory_spiffs suspended_world e kiosk)
        ≡ (booted, idle))
    × (check_ui_timeout memory_spiffs suspended_world kiosk ≡ kiosk)
    × ((text : Notice) (is_error is_network_error : Bool)
        → (render_current_business_state memory_spiffs suspended_world text is_error
            is_network_error kiosk).presentation.drawn
          ≡ identity_screen suspended (codes "hw") ∷ [])
handle_local_event-blocked_example =
    handle_local_event-blocked memory_spiffs suspended_world kiosk refl
