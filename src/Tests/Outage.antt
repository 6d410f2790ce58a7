-- ===== src/Tests/Outage.antt =====
-- A kiosk that was offline, and a loaded worker, at concrete inputs.
use mesflow_kiosk_runtime_v.Prelude.{ℕ, ◌≡◌, refl, true, false, some, List, [], ◌∷◌, codes, arith}
use mesflow_kiosk_runtime_v.JournalRecord.{JournalRecord, pending}
use mesflow_kiosk_runtime_v.JournalIndex.{
  empty_index, pending_in_device_seq_order, select, sort_by, insert_by,
}
use mesflow_kiosk_runtime_v.NetworkWorker.{
  NetworkRequest, NetworkWorker, idle, business_event, offline_replay, heartbeat, poll_result,
  plain_request, event_request,
}
use mesflow_kiosk_runtime_v.NetworkWorker.Delivery.{served, served-waiting}
use mesflow_kiosk_runtime_v.KioskRuntime.{KioskRuntime, render_current_business_state}
use mesflow_kiosk_runtime_v.KioskRuntime.Response.{handle_event_result, handle_failure}
use mesflow_kiosk_runtime_v.KioskRuntime.Poll.{poll_network, dispatch_result}
use mesflow_kiosk_runtime_v.KioskRuntime.Replay.{start_offline_replay_if_needed}
use mesflow_kiosk_runtime_v.KioskRuntime.Progress.Done.{
  Round, replay_rounds, IsDone, start_offline_replay-IsDone,
}
use mesflow_kiosk_runtime_v.Tests.MemorySpiffs.{memory_spiffs}
use mesflow_kiosk_runtime_v.Tests.Disk.{booted}
use mesflow_kiosk_runtime_v.Tests.Kiosk.{world, kiosk, no_answer, failed_result}

abbrev waiting_record : List ℕ → ℕ → JournalRecord
waiting_record event_id device_seq = record {
  record_version = 1;
  event_id = event_id;
  device_seq = device_seq;
  boot_id = [];
  event_type = [];
  payload = codes "{}";
  payload_hash = [];
  expected_state_version = 0;
  created_uptime_ms = 0;
  time_sync_status = [];
  retry_count = 0;
  last_attempt_uptime_ms = 0;
  last_error_code = [];
  sync_status = pending;
}

-- Two events wait in the journal.
abbrev offline_kiosk : KioskRuntime memory_spiffs
offline_kiosk = record kiosk {
  journal = record booted {
    index = record (empty_index 2000) {
      records =
          (codes "a", waiting_record (codes "a") 2)
          ∷ (codes "b", waiting_record (codes "b") 1)
          ∷ [];
    };
  };
}

abbrev failing_round : Round
failing_round = record { world = world; first = no_answer; second = no_answer }

start_offline_replay-IsDone_example : IsDone memory_spiffs (
    replay_rounds memory_spiffs
      (failing_round ∷ failing_round ∷ [])
      (start_offline_replay_if_needed memory_spiffs offline_kiosk))
unfolding pending_in_device_seq_order select sort_by insert_by
start_offline_replay-IsDone_example =
    start_offline_replay-IsDone memory_spiffs (failing_round ∷ failing_round ∷ []) offline_kiosk
      (record {
        idle_worker = refl;
        none_in_flight = refl;
        right_server = refl;
        no_item_left = refl;
      })
      (refl, (refl, tt)) refl

abbrev heartbeat_request : NetworkRequest
heartbeat_request = plain_request heartbeat (codes "http://h/hb") (codes "{}") []

abbrev replay_request : NetworkRequest
replay_request =
    event_request offline_replay (codes "b") 1 (codes "http://h/ev") (codes "{}") (codes "token")

abbrev live_request : NetworkRequest
live_request =
    event_request business_event (codes "live") 9 (codes "http://h/ev") (codes "{}") (codes "token")

abbrev loaded : NetworkWorker
loaded = record idle {
  high_queue = live_request ∷ [];
  low_queue = replay_request ∷ heartbeat_request ∷ [];
}

served-waiting_example :
    served (no_answer ∷ no_answer ∷ no_answer ∷ no_answer ∷ []) loaded
    ≡ live_request ∷ replay_request ∷ heartbeat_request ∷ []
served-waiting_example =
    served-waiting (no_answer ∷ no_answer ∷ no_answer ∷ no_answer ∷ []) loaded (omega arith)

-- A live event is answered while a replayed one waits in the low queue: the replay counts the
-- answer as its own, and goes on to the next item with the first still unsent.
abbrev replaying_kiosk : KioskRuntime memory_spiffs
replaying_kiosk = record kiosk {
  network = record idle { low_queue = replay_request ∷ []; pending_result = some failed_result };
  replay = record kiosk.replay { replay_event_ids = codes "b" ∷ codes "a" ∷ []; replaying = true };
}

live_answer_advances :
    ((poll_network memory_spiffs world replaying_kiosk).replay.replay_next ≡ 1)
    × ((poll_network memory_spiffs world replaying_kiosk).replay.replaying ≡ false)
    × ((poll_network memory_spiffs world replaying_kiosk).network.low_queue ≡ replay_request ∷ [])
unfolding poll_network poll_result dispatch_result handle_event_result handle_failure
    render_current_business_state
live_answer_advances = (refl, refl, refl)
