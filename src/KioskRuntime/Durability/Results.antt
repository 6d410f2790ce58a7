-- ===== src/KioskRuntime/Durability/Results.antt =====
-- The handlers of what the server answers.
use mesflow_kiosk_runtime_v.Prelude.{ℕ, ◌-◌, Bool, true, not, ◌||◌, List, [], if◌then◌else◌, codes}
use mesflow_kiosk_runtime_v.EventResponse.{EventResponse, parse_event_response_json}
use mesflow_kiosk_runtime_v.StateProjection.{
  StateSnapshot, Projection, ApplyResult, applied, applied_identical, rejected_stale,
  rejected_inconsistent, rejected_unsupported, apply,
}
use mesflow_kiosk_runtime_v.JournalRecord.{
  JournalTransition, pending, acked, rejected, conflict, human_review,
}
use mesflow_kiosk_runtime_v.EventJournal.{append_transition}
use mesflow_kiosk_runtime_v.EventJournal.SpiffsFile.{Spiffs}
use mesflow_kiosk_runtime_v.EventJournal.Keeps.{append_transition-Extends}
use mesflow_kiosk_runtime_v.NetworkWorker.{NetworkResult}
use mesflow_kiosk_runtime_v.Policies.Environment.{
  environment_from_server_role, environment_from_config_string,
}
use mesflow_kiosk_runtime_v.KioskRuntime.{
  World, KioskRuntime, malformed_response, render_current_business_state, unsupported_state,
}
use mesflow_kiosk_runtime_v.KioskRuntime.Send.{transition_to}
use mesflow_kiosk_runtime_v.KioskRuntime.Resync.{
  BootstrapResult, BootstrapStatus, not_attempted, ok, failed, is_applied, is_genuine_mismatch,
  apply_server_environment, apply_bootstrap, on_bootstrap_result,
}
use mesflow_kiosk_runtime_v.KioskRuntime.Response.{
  is_rejection, is_malformed, is_conflict, journal_status, show_applied, after_apply,
  apply_decision, note_response, apply_event_response, handle_failure, failure_notice,
  handle_response, handle_event_result, advance_replay, note_result,
}
use mesflow_kiosk_runtime_v.KioskRuntime.Durability.{
  IsDurable, journal-IsDurable, render-IsDurable, branch-IsDurable, flagged-IsDurable,
}
use mesflow_kiosk_runtime_v.KioskRuntime.Durability.Inputs.{
  refresh-IsDurable, start_resync-IsDurable,
}

module _ (spiffs : Spiffs) where
  journal_status-IsDurable :
      (t : JournalTransition) (k : KioskRuntime spiffs)
      → IsDurable spiffs k
      → IsDurable spiffs (journal_status spiffs t k)
  journal_status-IsDurable t k d =
      journal-IsDurable spiffs k (append_transition spiffs t k.journal).1
        (append_transition-Extends spiffs t k.journal) d

  show_applied-IsDurable :
      (w : World) (resp : EventResponse) (before : Projection) (k : KioskRuntime spiffs)
      → IsDurable spiffs k
      → IsDurable spiffs (show_applied spiffs w resp before k)
  unfolding show_applied render_current_business_state
  show_applied-IsDurable w resp before k d = record { all_backed = d.all_backed }

  after_apply-IsDurable :
      (w : World) (resp : EventResponse) (r : ApplyResult) (before : Projection)
      (k : KioskRuntime spiffs)
      → IsDurable spiffs k
      → IsDurable spiffs (after_apply spiffs w resp r before k)
  unfolding after_apply
  after_apply-IsDurable w resp applied before k d = show_applied-IsDurable w resp before k d
  after_apply-IsDurable w resp applied_identical before k d =
      show_applied-IsDurable w resp before k d
  after_apply-IsDurable w resp rejected_stale before k d = start_resync-IsDurable spiffs w k d
  after_apply-IsDurable w resp rejected_inconsistent before k d =
      start_resync-IsDurable spiffs w k d
  after_apply-IsDurable w resp rejected_unsupported before k d =
      render-IsDurable spiffs w unsupported_state true true k d

  apply_decision-IsDurable :
      (w : World) (resp : EventResponse) (id : List ℕ) (k : KioskRuntime spiffs)
      → IsDurable spiffs k
      → IsDurable spiffs (apply_decision spiffs w resp id k)
  unfolding apply_decision
  apply_decision-IsDurable w resp id k d =
      let verdict = if is_rejection resp.kind then rejected else acked in
      let error_code = if is_rejection resp.kind then resp.error_code else [] in
      let t = transition_to verdict id 0 error_code w.millis in
      let k' = record k {
        state_projection = (apply resp.snapshot k.state_projection).0;
        quantity = record k.quantity { local_qty_buffer = [] };
      } in
      after_apply-IsDurable w resp (apply resp.snapshot k.state_projection).1 k.state_projection
        (journal_status spiffs t k')
        (journal_status-IsDurable t k' (record { all_backed = d.all_backed }))

  pub apply_event_response-IsDurable :
      (w : World) (parsed : Bool) (resp : EventResponse) (id : List ℕ) (k : KioskRuntime spiffs)
      → IsDurable spiffs k
      → IsDurable spiffs (apply_event_response spiffs w parsed resp id k)
  unfolding apply_event_response
  apply_event_response-IsDurable w parsed resp id k d =
      let t = transition_to pending id 0 (codes "EVENT_RESPONSE_MALFORMED") w.millis in
      let t' = transition_to conflict id 0 (codes "STATE_CONFLICT") w.millis in
      let k' = record k { last_activity_ms = w.millis } in
      let k'' = note_response spiffs w resp k in
      let d'' : IsDurable spiffs k'' = record { all_backed = d.all_backed } in
      branch-IsDurable spiffs (not parsed || is_malformed resp.kind) _ _
        (render-IsDurable spiffs w malformed_response true true (journal_status spiffs t k')
          (journal_status-IsDurable t k' (record { all_backed = d.all_backed })))
        (branch-IsDurable spiffs (is_conflict resp.kind) _ _
          (start_resync-IsDurable spiffs w (journal_status spiffs t' k'')
            (journal_status-IsDurable t' k'' d''))
          (apply_decision-IsDurable w resp id k'' d''))

  handle_failure-IsDurable :
      (w : World) (result : NetworkResult) (k : KioskRuntime spiffs)
      → IsDurable spiffs k
      → IsDurable spiffs (handle_failure spiffs w result k)
  unfolding handle_failure
  handle_failure-IsDurable w result k d =
      let status = if result.outcome.retryable then pending else human_review in
      let t =
        transition_to status result.event_id (result.attempts - 1) result.outcome.error_code
          w.millis in
      render-IsDurable spiffs w (failure_notice result.outcome) true true
        (journal_status spiffs t k) (journal_status-IsDurable t k d)

  handle_response-IsDurable :
      (w : World) (result : NetworkResult) (k : KioskRuntime spiffs)
      → IsDurable spiffs k
      → IsDurable spiffs (handle_response spiffs w result k)
  unfolding handle_response
  handle_response-IsDurable w result k d =
      apply_event_response-IsDurable w (parse_event_response_json result.response_body).0
        (parse_event_response_json result.response_body).1 result.event_id k d

  pub handle_event_result-IsDurable :
      (w : World) (result : NetworkResult) (k : KioskRuntime spiffs)
      → IsDurable spiffs k
      → IsDurable spiffs (handle_event_result spiffs w result k)
  unfolding handle_event_result
  handle_event_result-IsDurable w result k d =
      let k' = record (advance_replay spiffs k) { evidence = note_result result k.evidence } in
      let d' : IsDurable spiffs k' = record { all_backed = d.all_backed } in
      let answered =
        branch-IsDurable spiffs result.outcome.ok _ _ (handle_response-IsDurable w result k' d')
          (handle_failure-IsDurable w result k' d') in
      record { all_backed = answered.all_backed }

  apply_bootstrap-IsDurable :
      (w : World) (snap : StateSnapshot) (k : KioskRuntime spiffs)
      → IsDurable spiffs k
      → IsDurable spiffs (apply_bootstrap spiffs w snap k)
  unfolding apply_bootstrap
  apply_bootstrap-IsDurable w snap k d =
      branch-IsDurable spiffs (is_applied (apply snap k.state_projection).1) _ _
        (refresh-IsDurable spiffs w
          (record k {
            state_projection = (apply snap k.state_projection).0;
            last_activity_ms = w.millis;
          })
          (record { all_backed = d.all_backed }))
        (record { all_backed = d.all_backed })

  apply_server_environment-IsDurable :
      (w : World) (result : BootstrapResult) (k : KioskRuntime spiffs)
      → IsDurable spiffs k
      → IsDurable spiffs (apply_server_environment spiffs w result k).1
  unfolding apply_server_environment render_current_business_state
  apply_server_environment-IsDurable w result k d =
      let actual = environment_from_server_role result.server_role in
      let expected = environment_from_config_string w.expected_environment in
      flagged-IsDurable spiffs (is_genuine_mismatch expected actual) _ _
        (record { all_backed = d.all_backed }) (record { all_backed = d.all_backed })

  status-IsDurable :
      (status : BootstrapStatus) (w : World) (result : BootstrapResult) (k : KioskRuntime spiffs)
      → IsDurable spiffs k
      → IsDurable spiffs (on_bootstrap_result spiffs w (record result { status = status }) k)
  unfolding on_bootstrap_result
  status-IsDurable BootstrapStatus.rejected w result k d = record { all_backed = d.all_backed }
  status-IsDurable not_attempted w result k d = d
  status-IsDurable failed w result k d = d
  status-IsDurable ok w result k d =
      let k' = apply_server_environment spiffs w result k in
      let d' = apply_server_environment-IsDurable w result k d in
      branch-IsDurable spiffs (not k'.0) _ _ d' (
        branch-IsDurable spiffs (not result.has_snapshot) _ _ d'
          (apply_bootstrap-IsDurable w result.snapshot k'.1 d'))

  pub on_bootstrap_result-IsDurable :
      (w : World) (result : BootstrapResult) (k : KioskRuntime spiffs)
      → IsDurable spiffs k
      → IsDurable spiffs (on_bootstrap_result spiffs w result k)
  on_bootstrap_result-IsDurable w result k d = status-IsDurable result.status w result k d
