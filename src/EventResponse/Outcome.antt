-- ===== src/EventResponse/Outcome.antt =====
-- What the kind of an answer says of it.
use mesflow_kiosk_runtime_v.Prelude.{
  ℕ, ◌≡◌, eq-of-bytes_eq, Bool, true, false, some, List, codes, arith,
}
use mesflow_kiosk_runtime_v.StateProjection.Parser.{parse_state_snapshot_json}
use mesflow_kiosk_runtime_v.EventResponse.{
  EventOutcomeKind, EventResponse, success, business_rejected, conflict_resync, malformed,
  blank_snapshot, common_fields, is_accepted, parse_event_response_json,
}

-- What each kind promises of the answer `json` and of the response read from it.
abbrev pub Promised : List ℕ → Bool → EventResponse → EventOutcomeKind → Type 0
Promised json done out success =
    (done ≡ true) × (is_accepted json ≡ true) × (parse_state_snapshot_json json ≡ some out.snapshot)
Promised json done out business_rejected =
    (done ≡ true)
    × (is_accepted json ≡ false)
    × (parse_state_snapshot_json json ≡ some out.snapshot)
Promised json done out conflict_resync =
    (done ≡ true)
    × (is_accepted json ≡ false)
    × (out.error_code ≡ codes "STATE_CONFLICT")
    × (out.snapshot ≡ blank_snapshot)
Promised json done out malformed = (done ≡ false) × (out.snapshot ≡ blank_snapshot)

-- An answer is read as a success or a rejection only with a whole snapshot of the state, and as the
-- `accepted` field says; as a conflict only with that error code, and then no snapshot is taken from
-- it; the parser fails exactly on what it calls malformed, and takes no snapshot from that either.
pub parse_event_response-Promised :
    (json : List ℕ)
    → Promised json
        (parse_event_response_json json).0
        (parse_event_response_json json).1
        (parse_event_response_json json).1.kind
unfolding parse_event_response_json common_fields
parse_event_response-Promised json =
    ground (arith, eq-of-bytes_eq (common_fields json).error_code (codes "STATE_CONFLICT"))
