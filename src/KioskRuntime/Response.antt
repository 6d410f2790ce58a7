-- ===== src/KioskRuntime/Response.antt =====
-- What the result of a sent event does: `apply_event_response`, and the branch of `poll` for
-- events, of firmware/kiosk_runtime_v2/src/runtime/kiosk_runtime.cpp.
use mesflow_kiosk_runtime_v.Prelude.{
  ℕ, suc, ◌+◌, ◌-◌, ◌%◌, ◌^◌, Bool, true, false, not, ◌&&◌, ◌||◌, List, [], ◌==◌, if◌then◌else◌,
  is_empty, bytes_eq, codes, ℤ, pos, negsuc,
}
use mesflow_kiosk_runtime_v.EventTypes.{
  EventType, scan, finish_requested, quantity_submitted, cancel_requested,
}
use mesflow_kiosk_runtime_v.EventResponse.{
  EventResponse, EventOutcomeKind, business_rejected, conflict_resync, malformed,
  parse_event_response_json,
}
use mesflow_kiosk_runtime_v.StateProjection.{
  BusinessState, wait_employee, quantity_input, ApplyResult, applied, applied_identical,
  rejected_stale, rejected_inconsistent, rejected_unsupported, Projection, ViewModel, apply,
  state_eq,
}
use mesflow_kiosk_runtime_v.StateProjection.Parser.{blank_view}
use mesflow_kiosk_runtime_v.JournalRecord.{
  JournalTransition, pending, acked, rejected, conflict, human_review,
}
use mesflow_kiosk_runtime_v.EventJournal.{append_transition}
use mesflow_kiosk_runtime_v.EventJournal.SpiffsFile.{Spiffs}
use mesflow_kiosk_runtime_v.RetryPolicy.{HttpOutcome}
use mesflow_kiosk_runtime_v.NetworkWorker.{NetworkResult}
use mesflow_kiosk_runtime_v.KioskRuntime.{
  World, KioskRuntime, Notice, Presentation, QuantityFlow, Evidence, no_notice, wifi_down_notice,
  device_forbidden, server_failing, connection_failed, malformed_response, unsupported_state,
  server_text, render_current_business_state,
}
use mesflow_kiosk_runtime_v.KioskRuntime.Send.{transition_to}
use mesflow_kiosk_runtime_v.KioskRuntime.Quantity.{reset_quantity_flow}
use mesflow_kiosk_runtime_v.KioskRuntime.Resync.{start_resync}

abbrev pub is_submission : EventType → Bool
is_submission quantity_submitted = true
is_submission scan = false
is_submission finish_requested = false
is_submission cancel_requested = false

abbrev pub is_malformed : EventOutcomeKind → Bool
is_malformed malformed = true
is_malformed _ = false

abbrev pub is_conflict : EventOutcomeKind → Bool
is_conflict conflict_resync = true
is_conflict _ = false

abbrev pub is_rejection : EventOutcomeKind → Bool
is_rejection business_rejected = true
is_rejection _ = false

abbrev pub note_server_seq : ℤ → ℤ → ℤ
note_server_seq (pos n) before = pos n
note_server_seq (negsuc _) before = before

abbrev finish_result_hold_ms : ℕ
finish_result_hold_ms = 7000

-- The state and the view before the response is applied.
abbrev pub prev_state : Projection → BusinessState
prev_state p = if p.has_snapshot then p.current.state else wait_employee

abbrev prev_view : Projection → ViewModel
prev_view p = if p.has_snapshot then p.current.view else blank_view

-- The result that is held on the screen.
abbrev hold_result : World → ViewModel → QuantityFlow → Presentation → Presentation
hold_result w view q p = record p {
  finish_result_employee_name = if view.has_employee_name then view.employee_name else [];
  finish_result_operation_code = if view.has_operation_code then view.operation_code else [];
  finish_result_good = q.qty_good;
  finish_result_defect = q.qty_defect;
  finish_result_rework = q.qty_rework;
  finish_result_hold_active = true;
  finish_result_hold_until_ms = (w.millis + finish_result_hold_ms) % 2 ^ 32;
}

-- The message of a failed send.
unfoldable pub failure_notice : HttpOutcome → Notice
unfolding bytes_eq
failure_notice outcome =
    if bytes_eq outcome.error_code (codes "WIFI_DOWN")
    then wifi_down_notice
    else if outcome.http_status == 401 || outcome.http_status == 403
    then device_forbidden
    else if bytes_eq outcome.error_code (codes "HTTP_5XX")
    then server_failing
    else connection_failed

-- The fields that are set on every result of an event.
unfoldable pub note_result : NetworkResult → Evidence → Evidence
unfolding bytes_eq
note_result result e =
    let outcome = result.outcome in
    let tcp_failed = not outcome.ok && bytes_eq outcome.error_code (codes "TCP_CONNECT_FAIL") in
    record e {
      scan_pending_result = false;
      has_scanned = true;
      last_backend_ok = outcome.ok;
      last_http_status = outcome.http_status;
      last_error_code = outcome.error_code;
      last_latency_ms = result.total_latency_ms;
      last_retry_count = result.attempts - 1;
      consecutive_tcp_connect_fail =
          if tcp_failed then (e.consecutive_tcp_connect_fail + 1) % 2 ^ 32 else 0;
      consecutive_request_failures =
          if outcome.ok then 0 else (e.consecutive_request_failures + 1) % 2 ^ 32;
    }

-- Whether the result belongs to the scan that is timed.
unfoldable pub is_timed_scan : NetworkResult → Evidence → Bool
unfolding bytes_eq
is_timed_scan result e =
    (elim e.last_event_type [
      | scan ↦ true
      | finish_requested ↦ false
      | quantity_submitted ↦ false
      | cancel_requested ↦ false
    ])
    && (bytes_eq result.event_id e.last_event_id && not (e.last_scan_received_ms == 0))

module _ (spiffs : Spiffs) where
  abbrev pub journal_status : JournalTransition → KioskRuntime spiffs → KioskRuntime spiffs
  journal_status t k = record k { journal = (append_transition spiffs t k.journal).1 }

  -- The case of a snapshot that was applied; `before` is the projection before that.
  unfoldable pub show_applied :
      World → EventResponse → Projection → KioskRuntime spiffs → KioskRuntime spiffs
  unfolding reset_quantity_flow render_current_business_state
  show_applied w resp before k =
      let accepted = not (is_rejection resp.kind) in
      let was_input = state_eq (prev_state before) quantity_input in
      let is_input = state_eq resp.snapshot.state quantity_input in
      let q = if is_input && not was_input then reset_quantity_flow k.quantity else k.quantity in
      let finished =
        accepted && (is_submission k.evidence.last_event_type && (was_input && not is_input)) in
      let message =
        server_text (if is_empty resp.error_message then resp.error_code else resp.error_message) in
      render_current_business_state spiffs w (if accepted then no_notice else message)
        (not accepted) false
        (record k {
          quantity = q;
          server = record k.server { last_sync_iso = w.iso8601_now };
          presentation =
              if finished
              then hold_result w (prev_view before) q k.presentation
              else k.presentation;
        })

  unfoldable pub after_apply :
      World → EventResponse → ApplyResult → Projection → KioskRuntime spiffs → KioskRuntime spiffs
  unfolding show_applied start_resync render_current_business_state
  after_apply w resp applied before k = show_applied w resp before k
  after_apply w resp applied_identical before k = show_applied w resp before k
  after_apply w resp rejected_stale before k = start_resync spiffs w k
  after_apply w resp rejected_inconsistent before k = start_resync spiffs w k
  after_apply w resp rejected_unsupported before k =
      render_current_business_state spiffs w unsupported_state true true k

  abbrev pub note_response : World → EventResponse → KioskRuntime spiffs → KioskRuntime spiffs
  note_response w resp k = record k {
    last_activity_ms = w.millis;
    evidence = record k.evidence {
      last_server_seq = note_server_seq resp.server_seq k.evidence.last_server_seq;
    };
  }

  -- The status that the server's decision gives the event, and the response's snapshot. The
  -- journal is written whether or not the snapshot is applied.
  unfoldable pub apply_decision :
      World → EventResponse → List ℕ → KioskRuntime spiffs → KioskRuntime spiffs
  unfolding apply after_apply
  apply_decision w resp event_id k =
      let rejection = is_rejection resp.kind in
      let verdict = if rejection then rejected else acked in
      let error_code = if rejection then resp.error_code else [] in
      let (projection, result) = apply resp.snapshot k.state_projection in
      after_apply w resp result k.state_projection (
        journal_status (transition_to verdict event_id 0 error_code w.millis) (record k {
          state_projection = projection;
          quantity = record k.quantity { local_qty_buffer = [] };
        }))

  unfoldable pub apply_event_response :
      World → Bool → EventResponse → List ℕ → KioskRuntime spiffs → KioskRuntime spiffs
  unfolding apply_decision start_resync render_current_business_state
  apply_event_response w parsed resp event_id k =
      let t = transition_to pending event_id 0 (codes "EVENT_RESPONSE_MALFORMED") w.millis in
      let t' = transition_to conflict event_id 0 (codes "STATE_CONFLICT") w.millis in
      if not parsed || is_malformed resp.kind
      then render_current_business_state spiffs w malformed_response true true
          (journal_status t (record k { last_activity_ms = w.millis }))
      else if is_conflict resp.kind
      then start_resync spiffs w (journal_status t' (note_response w resp k))
      else apply_decision w resp event_id (note_response w resp k)

  abbrev pub stop_timing : Bool → KioskRuntime spiffs → KioskRuntime spiffs
  stop_timing timed k = record k {
    evidence = record k.evidence {
      last_scan_received_ms = if timed then 0 else k.evidence.last_scan_received_ms;
    };
  }

  unfoldable pub handle_failure : World → NetworkResult → KioskRuntime spiffs → KioskRuntime spiffs
  unfolding failure_notice render_current_business_state
  handle_failure w result k =
      let status = if result.outcome.retryable then pending else human_review in
      let t =
        transition_to status result.event_id (result.attempts - 1) result.outcome.error_code
          w.millis in
      render_current_business_state spiffs w (failure_notice result.outcome) true true
        (journal_status t k)

  unfoldable pub handle_response : World → NetworkResult → KioskRuntime spiffs → KioskRuntime spiffs
  unfolding parse_event_response_json apply_event_response
  handle_response w result k =
      let (parsed, resp) = parse_event_response_json result.response_body in
      apply_event_response w parsed resp result.event_id k

  -- An item of the replay that was in flight counts as done, whatever came back.
  abbrev pub advance_replay : KioskRuntime spiffs → KioskRuntime spiffs
  advance_replay k = record k {
    replay = record k.replay {
      replaying = false;
      replay_next = if k.replay.replaying then suc k.replay.replay_next else k.replay.replay_next;
    };
  }

  unfoldable pub handle_event_result :
      World → NetworkResult → KioskRuntime spiffs → KioskRuntime spiffs
  unfolding note_result is_timed_scan handle_failure handle_response
  handle_event_result w result k =
      let k' = record (advance_replay k) { evidence = note_result result k.evidence } in
      let timed = is_timed_scan result k.evidence in
      stop_timing timed
        (if result.outcome.ok then handle_response w result k' else handle_failure w result k')
