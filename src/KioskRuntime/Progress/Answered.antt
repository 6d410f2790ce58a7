-- ===== src/KioskRuntime/Progress/Answered.antt =====
-- The result of a sent item leaves the worker with a state to fetch at most.
use mesflow_kiosk_runtime_v.Prelude.{
  ℕ, ◌≡◌, refl, inl, Bool, not, ◌||◌, Option, none, some, List, [], if◌then◌else◌, codes,
}
use mesflow_kiosk_runtime_v.EventResponse.{EventResponse, parse_event_response_json}
use mesflow_kiosk_runtime_v.StateProjection.{
  StateSnapshot, Projection, ApplyResult, applied, applied_identical, rejected_stale,
  rejected_inconsistent, rejected_unsupported, apply,
}
use mesflow_kiosk_runtime_v.StateProjection.Parser.{parse_state_snapshot_json}
use mesflow_kiosk_runtime_v.JournalRecord.{acked, rejected, conflict}
use mesflow_kiosk_runtime_v.EventJournal.SpiffsFile.{Spiffs}
use mesflow_kiosk_runtime_v.NetworkWorker.{NetworkResult}
use mesflow_kiosk_runtime_v.KioskRuntime.{World, KioskRuntime, render_current_business_state}
use mesflow_kiosk_runtime_v.KioskRuntime.Send.{transition_to}
use mesflow_kiosk_runtime_v.KioskRuntime.Resync.{is_applied, apply_resync, handle_resync_result}
use mesflow_kiosk_runtime_v.KioskRuntime.Response.{
  is_rejection, is_malformed, is_conflict, journal_status, note_response, show_applied, after_apply,
  apply_decision, apply_event_response, handle_failure, handle_response, advance_replay,
  note_result, handle_event_result,
}
use mesflow_kiosk_runtime_v.KioskRuntime.Progress.{
  view, IsIdle, IsCalm, IsCalm-branch, view-branch, start_resync-IsCalm,
}

module _ (spiffs : Spiffs) (ids : List (List ℕ)) (n : ℕ) (w : World) where
  after_apply-IsCalm :
      (resp : EventResponse) (r : ApplyResult) (before : Projection) (k : KioskRuntime spiffs)
      → IsIdle spiffs ids n k
      → IsCalm spiffs ids n (after_apply spiffs w resp r before k)
  unfolding after_apply show_applied render_current_business_state
  after_apply-IsCalm resp applied before k i = inl i
  after_apply-IsCalm resp applied_identical before k i = inl i
  after_apply-IsCalm resp rejected_stale before k i = start_resync-IsCalm spiffs ids n w k i
  after_apply-IsCalm resp rejected_inconsistent before k i = start_resync-IsCalm spiffs ids n w k i
  after_apply-IsCalm resp rejected_unsupported before k i = inl i

  apply_decision-IsCalm :
      (resp : EventResponse) (id : List ℕ) (k : KioskRuntime spiffs)
      → IsIdle spiffs ids n k
      → IsCalm spiffs ids n (apply_decision spiffs w resp id k)
  unfolding apply_decision
  apply_decision-IsCalm resp id k i =
      let rejection = is_rejection resp.kind in
      let t =
        transition_to (if rejection then rejected else acked) id 0
          (if rejection then resp.error_code else []) w.millis in
      after_apply-IsCalm resp (apply resp.snapshot k.state_projection).1 k.state_projection
        (journal_status spiffs t (record k {
          state_projection = (apply resp.snapshot k.state_projection).0;
          quantity = record k.quantity { local_qty_buffer = [] };
        }))
        i

  response-IsCalm :
      (parsed : Bool) (resp : EventResponse) (id : List ℕ) (k : KioskRuntime spiffs)
      → IsIdle spiffs ids n k
      → IsCalm spiffs ids n (apply_event_response spiffs w parsed resp id k)
  unfolding apply_event_response render_current_business_state
  response-IsCalm parsed resp id k i =
      let t = transition_to conflict id 0 (codes "STATE_CONFLICT") w.millis in
      let k' = note_response spiffs w resp k in
      IsCalm-branch spiffs ids n (not parsed || is_malformed resp.kind) _ _ (inl i) (
        IsCalm-branch spiffs ids n (is_conflict resp.kind) _ _
          (start_resync-IsCalm spiffs ids n w (journal_status spiffs t k') i)
          (apply_decision-IsCalm resp id k' i))

  answered :
      (result : NetworkResult) (k : KioskRuntime spiffs)
      → IsIdle spiffs ids n k
      → IsCalm spiffs ids n (
          if result.outcome.ok
          then handle_response spiffs w result k
          else handle_failure spiffs w result k)
  unfolding handle_response handle_failure render_current_business_state
  answered result k i =
      let (parsed, resp) = parse_event_response_json result.response_body in
      IsCalm-branch spiffs ids n result.outcome.ok _ _
        (response-IsCalm parsed resp result.event_id k i) (inl i)

  -- The result brings the replay to the item that `advance_replay` leads to.
  pub handle_event_result-IsCalm :
      (result : NetworkResult) (k : KioskRuntime spiffs)
      → IsIdle spiffs ids n (advance_replay spiffs k)
      → IsCalm spiffs ids n (handle_event_result spiffs w result k)
  unfolding handle_event_result
  handle_event_result-IsCalm result k i =
      answered result
        (record (advance_replay spiffs k) { evidence = note_result result k.evidence }) i

  resync-view :
      (o : Option StateSnapshot) (k : KioskRuntime spiffs)
      → view spiffs (elim o [ none ↦ k | some snap ↦ apply_resync spiffs w snap k ]) ≡ view spiffs k
  unfolding apply_resync render_current_business_state
  resync-view none k = refl
  resync-view (some snap) k =
      view-branch spiffs (is_applied (apply snap k.state_projection).1) _ _ (view spiffs k) refl
        refl

  pub handle_resync_result-view :
      (result : NetworkResult) (k : KioskRuntime spiffs)
      → view spiffs (handle_resync_result spiffs w result k) ≡ view spiffs k
  unfolding handle_resync_result
  handle_resync_result-view result k =
      view-branch spiffs (not result.outcome.ok) _ _ (view spiffs k) refl
        (resync-view (parse_state_snapshot_json result.response_body) k)
