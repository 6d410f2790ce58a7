-- ===== src/KioskRuntime/Verdict.antt =====
-- What the result of a sent event writes to the journal. About `poll` and `apply_event_response`
-- of firmware/kiosk_runtime_v2/src/runtime/kiosk_runtime.cpp.
use mesflow_kiosk_runtime_v.Prelude.{ℕ, ◌-◌, ◌≡◌, refl, Bool, true, false, List, [], if◌then◌else◌}
use mesflow_kiosk_runtime_v.EventResponse.{
  EventResponse, EventOutcomeKind, success, business_rejected, conflict_resync, malformed,
  parse_event_response_json,
}
use mesflow_kiosk_runtime_v.StateProjection.{
  Projection, ApplyResult, applied, applied_identical, rejected_stale, rejected_inconsistent,
  rejected_unsupported, apply,
}
use mesflow_kiosk_runtime_v.JournalRecord.{
  JournalSyncStatus, JournalTransition, pending, acked, rejected, conflict, human_review,
}
use mesflow_kiosk_runtime_v.EventJournal.{EventJournal, append_transition}
use mesflow_kiosk_runtime_v.EventJournal.SpiffsFile.{Spiffs}
use mesflow_kiosk_runtime_v.NetworkWorker.{NetworkResult}
use mesflow_kiosk_runtime_v.KioskRuntime.{World, KioskRuntime, render_current_business_state}
use mesflow_kiosk_runtime_v.KioskRuntime.Send.{transition_to}
use mesflow_kiosk_runtime_v.KioskRuntime.Resync.{start_resync}
use mesflow_kiosk_runtime_v.KioskRuntime.Response.{
  is_rejection, journal_status, show_applied, after_apply, apply_decision, note_response,
  advance_replay, note_result, apply_event_response, handle_failure, handle_response,
  handle_event_result,
}

-- The status by the server's decision.
abbrev pub decided : EventOutcomeKind → JournalSyncStatus
decided success = acked
decided business_rejected = rejected
decided conflict_resync = conflict
decided malformed = pending

-- The status that a result calls for: what was answered decides, and a result with no answer is
-- tried again if that makes sense.
abbrev pub verdict : NetworkResult → JournalSyncStatus
verdict result =
    let (parsed, resp) = parse_event_response_json result.response_body in
    if result.outcome.ok
    then if parsed then decided resp.kind else pending
    else if result.outcome.retryable
    then pending
    else human_review

abbrev decision : World → EventResponse → List ℕ → JournalTransition
decision w resp id =
    let rejection = is_rejection resp.kind in
    transition_to (if rejection then rejected else acked) id 0
      (if rejection then resp.error_code else []) w.millis

module _ (spiffs : Spiffs) where
  -- The journal after one transition of the event.
  abbrev pub IsWritten :
      EventJournal spiffs → List ℕ → JournalSyncStatus → EventJournal spiffs → Type 0
  IsWritten before event_id status after =
      (t : JournalTransition) × (t.event_id ≡ event_id)
      × (t.sync_status ≡ status)
      × (after ≡ (append_transition spiffs t before).1)

  after_apply-journal :
      (w : World) (resp : EventResponse) (r : ApplyResult) (before : Projection)
      (k : KioskRuntime spiffs)
      → (after_apply spiffs w resp r before k).journal ≡ k.journal
  unfolding after_apply show_applied start_resync render_current_business_state
  after_apply-journal w resp applied before k = refl
  after_apply-journal w resp applied_identical before k = refl
  after_apply-journal w resp rejected_stale before k = refl
  after_apply-journal w resp rejected_inconsistent before k = refl
  after_apply-journal w resp rejected_unsupported before k = refl

  apply_decision-journal :
      (w : World) (resp : EventResponse) (id : List ℕ) (k : KioskRuntime spiffs)
      → (apply_decision spiffs w resp id k).journal
        ≡ (append_transition spiffs (decision w resp id) k.journal).1
  unfolding apply_decision
  apply_decision-journal w resp id k =
      after_apply-journal w resp (apply resp.snapshot k.state_projection).1 k.state_projection (
        journal_status spiffs (decision w resp id) (record k {
          state_projection = (apply resp.snapshot k.state_projection).0;
          quantity = record k.quantity { local_qty_buffer = [] };
        }))

  kind-journal :
      (kind : EventOutcomeKind) (w : World) (parsed : Bool) (resp : EventResponse) (id : List ℕ)
      (k : KioskRuntime spiffs)
      → IsWritten k.journal id
          (if parsed then decided kind else pending)
          (apply_event_response spiffs w parsed (record resp { kind = kind }) id k).journal
  unfolding apply_event_response apply_decision start_resync render_current_business_state
  kind-journal kind w false resp id k = (_, refl, refl, refl)
  kind-journal malformed w true resp id k = (_, refl, refl, refl)
  kind-journal conflict_resync w true resp id k = (_, refl, refl, refl)
  kind-journal success w true resp id k =
      let resp' = record resp { kind = success } in
      (
        decision w resp' id,
        refl,
        refl,
        apply_decision-journal w resp' id (note_response spiffs w resp' k),
      )
  kind-journal business_rejected w true resp id k =
      let resp' = record resp { kind = business_rejected } in
      (
        decision w resp' id,
        refl,
        refl,
        apply_decision-journal w resp' id (note_response spiffs w resp' k),
      )

  response-journal :
      (w : World) (parsed : Bool) (resp : EventResponse) (id : List ℕ) (k : KioskRuntime spiffs)
      → IsWritten k.journal id
          (if parsed then decided resp.kind else pending)
          (apply_event_response spiffs w parsed resp id k).journal
  response-journal w parsed resp id k = kind-journal resp.kind w parsed resp id k

  failure-journal :
      (w : World) (result : NetworkResult) (k : KioskRuntime spiffs)
      → IsWritten k.journal result.event_id
          (if result.outcome.retryable then pending else human_review)
          (handle_failure spiffs w result k).journal
  unfolding handle_failure render_current_business_state
  failure-journal w result k = (
    transition_to (if result.outcome.retryable then pending else human_review) result.event_id
        (result.attempts - 1) result.outcome.error_code w.millis,
    refl,
    refl,
    refl,
  )

  answered-journal :
      (b : Bool) (before : EventJournal spiffs) (id : List ℕ) (s s' : JournalSyncStatus)
      (k k' : KioskRuntime spiffs)
      → IsWritten before id s k.journal
      → IsWritten before id s' k'.journal
      → IsWritten before id (if b then s else s') (if b then k else k').journal
  answered-journal true before id s s' k k' x x' = x
  answered-journal false before id s s' k k' x x' = x'

  -- The result of a sent event writes exactly one transition of that event to the journal, and its
  -- status is the verdict on the result: acked, rejected or conflict as the server decided, pending
  -- when the answer makes no sense or the failure can pass, and human review otherwise. Neither the
  -- state of the kiosk nor the fate of the snapshot in the answer changes this.
  pub handle_event_result-journal :
      (w : World) (result : NetworkResult) (k : KioskRuntime spiffs)
      → IsWritten k.journal result.event_id
          (verdict result)
          (handle_event_result spiffs w result k).journal
  unfolding handle_event_result handle_response
  handle_event_result-journal w result k =
      let k' = record (advance_replay spiffs k) { evidence = note_result result k.evidence } in
      let (parsed, resp) = parse_event_response_json result.response_body in
      answered-journal result.outcome.ok k.journal result.event_id _ _
        (handle_response spiffs w result k') (handle_failure spiffs w result k')
        (response-journal w parsed resp result.event_id k') (failure-journal w result k')
