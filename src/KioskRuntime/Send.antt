-- ===== src/KioskRuntime/Send.antt =====
-- `send_business_event` of firmware/kiosk_runtime_v2/src/runtime/kiosk_runtime.cpp: an event is
-- written to the journal first and then given to the network worker.
use mesflow_kiosk_runtime_v.Prelude.{
  ℕ, zero, suc, ◌/◌, ◌%◌, Bool, true, false, not, List, [], ◌∷◌, ◌++◌, if◌then◌else◌, is_empty,
  codes,
}
use mesflow_kiosk_runtime_v.EventTypes.{
  EventType, scan, finish_requested, quantity_submitted, cancel_requested, OptionalQuantity,
  KioskEvent, event_type_to_string, time_sync_status_to_string,
}
use mesflow_kiosk_runtime_v.DeviceSequence.{generate_random_hex_id, next_seq}
use mesflow_kiosk_runtime_v.ProtocolCodec.{hex_digit}
use mesflow_kiosk_runtime_v.ProtocolCodec.Event.{encode_event_json}
use mesflow_kiosk_runtime_v.JournalFrame.Crc.{crc32}
use mesflow_kiosk_runtime_v.JournalRecord.{
  JournalRecord, JournalTransition, JournalSyncStatus, pending, in_flight,
}
use mesflow_kiosk_runtime_v.EventJournal.{append_event, append_transition}
use mesflow_kiosk_runtime_v.EventJournal.SpiffsFile.{Spiffs}
use mesflow_kiosk_runtime_v.NetworkWorker.{enqueue_business_event}
use mesflow_kiosk_runtime_v.KioskRuntime.{
  World, KioskRuntime, endpoint_missing, journal_full, sending, saved_for_later,
  render_current_business_state,
}

-- The last `n` hexadecimal digits.
abbrev hex : ℕ → ℕ → List ℕ
hex zero c = []
hex (suc n) c = hex n (c / 16) ++ hex_digit (c % 16) ∷ []

abbrev pub is_scan : EventType → Bool
is_scan scan = true
is_scan finish_requested = false
is_scan quantity_submitted = false
is_scan cancel_requested = false

-- The three quantities of an event.
pub record Quantities : Type 0 where
  pub quantity_good : OptionalQuantity
  pub quantity_defect : OptionalQuantity
  pub quantity_rework : OptionalQuantity

abbrev pub transition_to : JournalSyncStatus → List ℕ → ℕ → List ℕ → ℕ → JournalTransition
transition_to status event_id retry_count error_code now = record {
  event_id = event_id;
  sync_status = status;
  retry_count = retry_count;
  last_attempt_uptime_ms = now;
  last_error_code = error_code;
}

module _ (spiffs : Spiffs) where
  unfoldable pub new_event :
      World → EventType → List ℕ → Quantities → KioskRuntime spiffs → KioskEvent
  new_event w type raw_payload qs k =
      let p = k.state_projection in
      record {
        protocol_version = 1;
        device = record {
          device_id = k.device_id;
          hardware_id = k.hardware_id;
          boot_id = k.boot_id;
        };
        event = record {
          event_id = generate_random_hex_id 16 w.random;
          device_seq = (next_seq k.device_seq).0;
          type = type;
        };
        time = record {
          timestamp_device_iso = w.iso8601_now;
          uptime_ms = w.millis;
          sync_status = w.sync_status;
          sync_age_s = w.sync_age_s;
        };
        context = record {
          expected_state_version = if p.has_snapshot then p.current.state_version else 0;
          workflow_version = if p.has_snapshot then p.current.workflow_version else 0;
          ui_bundle_version = 0;
        };
        payload = record {
          source = if is_scan type then codes "GM65" else codes "KEYPAD";
          raw = raw_payload;
        };
        quantity_good = qs.quantity_good;
        quantity_defect = qs.quantity_defect;
        quantity_rework = qs.quantity_rework;
      }

  unfoldable pub new_record : KioskEvent → KioskRuntime spiffs → JournalRecord
  new_record event k =
      let json_body = encode_event_json event in
      record {
        record_version = 1;
        event_id = event.event.event_id;
        device_seq = event.event.device_seq;
        boot_id = k.boot_id;
        event_type = event_type_to_string event.event.type;
        payload = json_body;
        payload_hash = hex 8 (crc32 json_body);
        expected_state_version = event.context.expected_state_version;
        created_uptime_ms = event.time.uptime_ms;
        time_sync_status = time_sync_status_to_string event.time.sync_status;
        retry_count = 0;
        last_attempt_uptime_ms = 0;
        last_error_code = [];
        sync_status = pending;
      }

  abbrev pub note_event :
      World → EventType → List ℕ → List ℕ → KioskRuntime spiffs → KioskRuntime spiffs
  note_event w type raw_payload event_id k = record k {
    evidence = record k.evidence {
      scan_pending_result = true;
      pending_raw_code = raw_payload;
      last_event_id = event_id;
      last_event_type = type;
      last_scan_dispatch_ms = w.millis;
    };
  }

  -- What is remembered of an event that is in the journal.
  unfoldable pub remember_event :
      World → EventType → List ℕ → List ℕ → KioskRuntime spiffs → KioskRuntime spiffs
  unfolding render_current_business_state
  remember_event w type raw_payload event_id k =
      let k' = note_event w type raw_payload event_id k in
      if is_scan type then k' else render_current_business_state spiffs w sending false false k'

  abbrev pub note_unsent : KioskRuntime spiffs → KioskRuntime spiffs
  note_unsent k = record k { evidence = record k.evidence { scan_pending_result = false } }

  -- The last step, with the record that the journal took.
  unfoldable pub hand_over : World → JournalRecord → KioskRuntime spiffs → KioskRuntime spiffs
  unfolding enqueue_business_event render_current_business_state
  hand_over w r k =
      let (queued, network) =
        enqueue_business_event r.event_id r.device_seq k.api_endpoint r.payload w.kiosk_token
          k.network in
      let t = transition_to in_flight r.event_id 0 [] w.millis in
      if queued
      then record k { network = network; journal = (append_transition spiffs t k.journal).1 }
      else render_current_business_state spiffs w saved_for_later false false (note_unsent k)

  -- The hold of the last result is over, and the sequence has moved.
  abbrev pub end_hold : KioskRuntime spiffs → KioskRuntime spiffs
  end_hold k = record k {
    presentation = record k.presentation { finish_result_hold_active = false };
  }

  abbrev pub begin_event : KioskRuntime spiffs → KioskRuntime spiffs
  begin_event k = record (end_hold k) { device_seq = (next_seq k.device_seq).1 }

  unfoldable pub send_business_event :
      World → EventType → List ℕ → Quantities → KioskRuntime spiffs → KioskRuntime spiffs
  unfolding new_event new_record remember_event hand_over append_event render_current_business_state
  send_business_event w type raw_payload qs k =
      let event = new_event w type raw_payload qs k in
      let r = new_record event k in
      let (journaled_ok, journal) = append_event spiffs r k.journal in
      let k' = record (begin_event k) { journal = journal } in
      if is_empty k.api_endpoint
      then render_current_business_state spiffs w endpoint_missing true true (end_hold k)
      else if not journaled_ok
      then render_current_business_state spiffs w journal_full true true k'
      else hand_over w r (remember_event w type raw_payload r.event_id k')
