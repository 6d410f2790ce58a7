-- ===== src/JournalRecord.antt =====
-- firmware/kiosk_runtime_v2/src/protocol/journal_record.{h,cpp}: the bodies of the journal's frames,
-- written and read as flat JSON objects.
pub mod RoundTrip
pub mod Transitions
use mesflow_kiosk_runtime_v.Prelude.{
  ℕ, Bool, true, false, Option, none, some, List, [], ◌∷◌, ◌++◌, ◌%◌, ◌^◌, ◌==◌, if◌then◌else◌,
  codes, bytes_eq, is_empty, ℤ, pos, negsuc, int_eq, not,
}
use mesflow_kiosk_runtime_v.Decimal.{print_unsigned, to_u32, to_u64}
use mesflow_kiosk_runtime_v.JsonExtract.{json_extract_string, json_extract_int}
use mesflow_kiosk_runtime_v.ProtocolCodec.{json_escape}

pub data JournalSyncStatus : Type 0 where
  pending in_flight acked rejected conflict human_review : JournalSyncStatus

unfoldable pub journal_sync_status_to_string : JournalSyncStatus → List ℕ
journal_sync_status_to_string pending = codes "PENDING"
journal_sync_status_to_string in_flight = codes "IN_FLIGHT"
journal_sync_status_to_string acked = codes "ACKED"
journal_sync_status_to_string rejected = codes "REJECTED"
journal_sync_status_to_string conflict = codes "CONFLICT"
journal_sync_status_to_string human_review = codes "HUMAN_REVIEW"

unfoldable pub journal_sync_status_from_string : List ℕ → Option JournalSyncStatus
unfolding bytes_eq
journal_sync_status_from_string s =
    if bytes_eq s (codes "PENDING")
    then some pending
    else if bytes_eq s (codes "IN_FLIGHT")
    then some in_flight
    else if bytes_eq s (codes "ACKED")
    then some acked
    else if bytes_eq s (codes "REJECTED")
    then some rejected
    else if bytes_eq s (codes "CONFLICT")
    then some conflict
    else if bytes_eq s (codes "HUMAN_REVIEW")
    then some human_review
    else none

pub record JournalRecord : Type 0 where
  pub record_version : ℕ
  pub event_id : List ℕ
  pub device_seq : ℕ
  pub boot_id : List ℕ
  pub event_type : List ℕ
  pub payload : List ℕ
  pub payload_hash : List ℕ
  pub expected_state_version : ℕ
  pub created_uptime_ms : ℕ
  pub time_sync_status : List ℕ
  pub retry_count : ℕ
  pub last_attempt_uptime_ms : ℕ
  pub last_error_code : List ℕ
  pub sync_status : JournalSyncStatus

pub record JournalTransition : Type 0 where
  pub event_id : List ℕ
  pub sync_status : JournalSyncStatus
  pub retry_count : ℕ
  pub last_attempt_uptime_ms : ℕ
  pub last_error_code : List ℕ

unfoldable pub encode_journal_event : JournalRecord → List ℕ
encode_journal_event r =
    codes "{\"k\":\"E\""
    ++ (codes ",\"record_version\":"
        ++ (print_unsigned r.record_version
            ++ (codes ",\"event_id\":\""
                ++ (json_escape r.event_id
                    ++ (codes "\""
                        ++ (codes ",\"device_seq\":"
                            ++ (print_unsigned r.device_seq
                                ++ (codes ",\"boot_id\":\""
                                    ++ (json_escape r.boot_id
                                        ++ (codes "\""
                                            ++ (codes ",\"event_type\":\""
                                                ++ (json_escape r.event_type
                                                    ++ (codes "\""
                                                        ++ (codes ",\"payload\":\""
                                                            ++ (json_escape r.payload
                                                            ++ (codes "\""
                                                            ++ (codes ",\"payload_hash\":\""
                                                            ++ (json_escape r.payload_hash
                                                            ++ (codes "\""
                                                            ++ (codes ",\"expected_state_version\":"
                                                            ++ (print_unsigned
                                                            r.expected_state_version
                                                            ++ (codes ",\"created_uptime_ms\":"
                                                            ++ (print_unsigned r.created_uptime_ms
                                                            ++ (codes ",\"time_sync_status\":\""
                                                            ++ (json_escape r.time_sync_status
                                                            ++ (codes "\""
                                                            ++ (codes ",\"retry_count\":"
                                                            ++ (print_unsigned r.retry_count
                                                            ++ (codes ",\"last_attempt_uptime_ms\":"
                                                            ++ (print_unsigned
                                                            r.last_attempt_uptime_ms
                                                            ++ (codes ",\"last_error_code\":\""
                                                            ++ (json_escape r.last_error_code
                                                            ++ (codes "\""
                                                            ++ (codes ",\"sync_status\":\""
                                                            ++ (journal_sync_status_to_string
                                                            r.sync_status
                                                            ++ (codes "\""
                                                            ++ codes
                                                            "}"))))))))))))))))))))))))))))))))))))

unfoldable pub encode_journal_transition : JournalTransition → List ℕ
encode_journal_transition t =
    codes "{\"k\":\"T\""
    ++ (codes ",\"event_id\":\""
        ++ (json_escape t.event_id
            ++ (codes "\""
                ++ (codes ",\"sync_status\":\""
                    ++ (journal_sync_status_to_string t.sync_status
                        ++ (codes "\""
                            ++ (codes ",\"retry_count\":"
                                ++ (print_unsigned t.retry_count
                                    ++ (codes ",\"last_attempt_uptime_ms\":"
                                        ++ (print_unsigned t.last_attempt_uptime_ms
                                            ++ (codes ",\"last_error_code\":\""
                                                ++ (json_escape t.last_error_code
                                                    ++ (codes "\"" ++ codes "}")))))))))))))

pub data JournalBodyKind : Type 0 where
  event transition unknown : JournalBodyKind

unfoldable pub journal_body_kind : List ℕ → JournalBodyKind
unfolding bytes_eq
journal_body_kind body_json =
    let k = json_extract_string body_json (codes "k") [] in
    if bytes_eq k (codes "E") then event else if bytes_eq k (codes "T") then transition else unknown

abbrev is_event : JournalBodyKind → Bool
is_event event = true
is_event _ = false

abbrev is_transition : JournalBodyKind → Bool
is_transition transition = true
is_transition _ = false

abbrev text_at : List ℕ → List ℕ → List ℕ
text_at body_json key = json_extract_string body_json key []

abbrev int_at : List ℕ → List ℕ → ℤ
int_at body_json key = json_extract_int body_json key (pos 0)

-- The record of a body whose checks have passed.
event_fields : List ℕ → JournalSyncStatus → JournalRecord
event_fields body sync_status = record {
  record_version = 1;
  event_id = text_at body (codes "event_id");
  device_seq = to_u64 (int_at body (codes "device_seq"));
  boot_id = text_at body (codes "boot_id");
  event_type = text_at body (codes "event_type");
  payload = text_at body (codes "payload");
  payload_hash = text_at body (codes "payload_hash");
  expected_state_version = to_u64 (int_at body (codes "expected_state_version"));
  created_uptime_ms = to_u32 (int_at body (codes "created_uptime_ms"));
  time_sync_status = text_at body (codes "time_sync_status");
  retry_count = to_u32 (int_at body (codes "retry_count"));
  last_attempt_uptime_ms = to_u32 (int_at body (codes "last_attempt_uptime_ms"));
  last_error_code = text_at body (codes "last_error_code");
  sync_status = sync_status;
}

transition_fields : List ℕ → JournalSyncStatus → JournalTransition
transition_fields body sync_status = record {
  event_id = text_at body (codes "event_id");
  sync_status = sync_status;
  retry_count = to_u32 (int_at body (codes "retry_count"));
  last_attempt_uptime_ms = to_u32 (int_at body (codes "last_attempt_uptime_ms"));
  last_error_code = text_at body (codes "last_error_code");
}

-- `none` is the result false.
unfoldable pub decode_journal_event : List ℕ → Option JournalRecord
unfolding event_fields
decode_journal_event body =
    if not (is_event (journal_body_kind body))
    then none
    else if not (int_eq (json_extract_int body (codes "record_version") (negsuc 0)) (pos 1))
    then none
    else if is_empty (text_at body (codes "event_id"))
    then none
    else if is_empty (text_at body (codes "event_type"))
    then none
    else elim (journal_sync_status_from_string (text_at body (codes "sync_status"))) [
      | none ↦ none
      | some sync_status ↦ some (event_fields body sync_status)
    ]

unfoldable pub decode_journal_transition : List ℕ → Option JournalTransition
unfolding transition_fields
decode_journal_transition body =
    if not (is_transition (journal_body_kind body))
    then none
    else if is_empty (text_at body (codes "event_id"))
    then none
    else elim (journal_sync_status_from_string (text_at body (codes "sync_status"))) [
      | none ↦ none
      | some sync_status ↦ some (transition_fields body sync_status)
    ]
