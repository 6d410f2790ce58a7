-- ===== src/EventResponse.antt =====
-- firmware/kiosk_runtime_v2/src/protocol/event_response.{h,cpp}: the server's answer to an event.
pub mod Outcome
use mesflow_kiosk_runtime_v.Prelude.{
  ℕ, Bool, true, false, not, ◌&&◌, Option, none, some, List, [], is_empty, if◌then◌else◌, bytes_eq,
  codes, ℤ, pos, negsuc,
}
use mesflow_kiosk_runtime_v.Decimal.{to_u64}
use mesflow_kiosk_runtime_v.JsonExtract.{
  json_extract_string, json_extract_bool, json_extract_int, json_extract_object, json_has_key,
}
use mesflow_kiosk_runtime_v.StateProjection.{StateSnapshot, wait_employee}
use mesflow_kiosk_runtime_v.StateProjection.Parser.{parse_state_snapshot_json, blank_view}

pub data EventOutcomeKind : Type 0 where
  success business_rejected conflict_resync malformed : EventOutcomeKind

pub record EventResponse : Type 0 where
  pub kind : EventOutcomeKind
  pub event_id : List ℕ
  pub server_seq : ℤ
  pub error_code : List ℕ
  pub error_message : List ℕ
  pub current_state_version : ℕ
  pub snapshot : StateSnapshot

abbrev pub blank_snapshot : StateSnapshot
blank_snapshot = record {
  state = wait_employee;
  state_version = 0;
  workflow_version = 0;
  view = blank_view;
}

abbrev pub blank_response : EventResponse
blank_response = record {
  kind = malformed;
  event_id = [];
  server_seq = negsuc 0;
  error_code = [];
  error_message = [];
  current_state_version = 0;
  snapshot = blank_snapshot;
}

-- What is read of every answer that says whether the event was accepted.
unfoldable pub common_fields : List ℕ → EventResponse
common_fields json =
    let error_obj = json_extract_object json (codes "error") in
    let has_error = not (is_empty error_obj) in
    record blank_response {
      event_id = json_extract_string json (codes "event_id") [];
      server_seq = json_extract_int json (codes "server_seq") (negsuc 0);
      error_code = if has_error then json_extract_string error_obj (codes "code") [] else [];
      error_message = if has_error then json_extract_string error_obj (codes "message") [] else [];
    }

abbrev pub is_accepted : List ℕ → Bool
is_accepted json = json_extract_bool json (codes "accepted") false

-- The test for an answer that asks for a resync.
abbrev pub asks_resync : List ℕ → List ℕ → Bool
asks_resync json error_code =
    not (is_accepted json)
    && (bytes_eq error_code (codes "STATE_CONFLICT")
        && bytes_eq (json_extract_string json (codes "action") []) (codes "RESYNC"))

-- The result and the out parameter.
unfoldable pub parse_event_response_json : List ℕ → Bool × EventResponse
unfolding common_fields parse_state_snapshot_json
parse_event_response_json json =
    let out = common_fields json in
    if not (json_has_key json (codes "accepted"))
    then (false, blank_response)
    else if asks_resync json out.error_code
    then (
      true,
      record out {
        current_state_version =
            to_u64 (json_extract_int json (codes "current_state_version") (pos 0));
        kind = conflict_resync;
      },
    )
    else elim (parse_state_snapshot_json json) [
      | none ↦ (false, record out { kind = malformed })
      | some snapshot ↦ (
        true,
        record out {
          snapshot = snapshot;
          kind = if is_accepted json then success else business_rejected;
        },
      )
    ]
