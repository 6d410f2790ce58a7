-- ===== src/Tests/Journal.antt =====
-- The journal and its index at concrete contents.
use mesflow_kiosk_runtime_v.Prelude.{ℕ, ◌≡◌, refl, some, List, codes, arith}
use mesflow_kiosk_runtime_v.JournalRecord.{
  JournalRecord, JournalTransition, pending, acked, encode_journal_event, encode_journal_transition,
  decode_journal_event, decode_journal_transition,
}
use mesflow_kiosk_runtime_v.JournalRecord.RoundTrip.{IsStorable, decode-encode_event}
use mesflow_kiosk_runtime_v.JournalRecord.Transitions.{
  IsStorableTransition, decode-encode_transition,
}
use mesflow_kiosk_runtime_v.JsonObject.Escape.{is_clean}

abbrev pub scan_event : List ℕ → ℕ → JournalRecord
scan_event id seq = record {
  record_version = 1;
  event_id = id;
  device_seq = seq;
  boot_id = codes "b";
  event_type = codes "SCAN";
  payload = codes "{\"code\":\"E\n1\"}";
  payload_hash = codes "";
  expected_state_version = 3;
  created_uptime_ms = 10;
  time_sync_status = codes "NTP";
  retry_count = 0;
  last_attempt_uptime_ms = 0;
  last_error_code = codes "";
  sync_status = pending;
}

abbrev pub first_event : JournalRecord
first_event = scan_event (codes "a-1") 7

abbrev pub acknowledged : JournalTransition
acknowledged = record {
  event_id = codes "a-1";
  sync_status = acked;
  retry_count = 1;
  last_attempt_uptime_ms = 20;
  last_error_code = codes "";
}

pub first_event-IsStorable : IsStorable first_event
unfolding is_clean
first_event-IsStorable = record {
  version = refl;
  has_id = λ e. cc;
  has_type = λ e. cc;
  clean_id = refl;
  clean_boot = refl;
  clean_type = refl;
  clean_payload = refl;
  clean_hash = refl;
  clean_time = refl;
  clean_error = refl;
  seq_fits = omega arith;
  expected_fits = omega arith;
  created_fits = omega arith;
  retry_fits = omega arith;
  attempt_fits = omega arith;
}

pub acknowledged-IsStorableTransition : IsStorableTransition acknowledged
unfolding is_clean
acknowledged-IsStorableTransition = record {
  has_id = λ e. cc;
  clean_id = refl;
  clean_error = refl;
  retry_fits = omega arith;
  attempt_fits = omega arith;
}

decode-encode_event_example :
    decode_journal_event (encode_journal_event first_event) ≡ some first_event
decode-encode_event_example = decode-encode_event first_event first_event-IsStorable

decode-encode_transition_example :
    decode_journal_transition (encode_journal_transition acknowledged) ≡ some acknowledged
decode-encode_transition_example =
    decode-encode_transition acknowledged acknowledged-IsStorableTransition
