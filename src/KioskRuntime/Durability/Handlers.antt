-- ===== src/KioskRuntime/Durability/Handlers.antt =====
-- The handlers keep every event that is on its way in the journal.
use mesflow_kiosk_runtime_v.Prelude.{
  ℕ, ◌≡◌, refl, sym, ap, ◌∙◌, Bool, true, false, not, some, List, [], is_empty,
}
use mesflow_kiosk_runtime_v.EventTypes.{
  EventType, scan, finish_requested, quantity_submitted, cancel_requested,
}
use mesflow_kiosk_runtime_v.JournalRecord.{JournalRecord, in_flight}
use mesflow_kiosk_runtime_v.JournalIndex.{find}
use mesflow_kiosk_runtime_v.EventJournal.{append_event, append_transition}
use mesflow_kiosk_runtime_v.EventJournal.SpiffsFile.{Spiffs}
use mesflow_kiosk_runtime_v.EventJournal.Keeps.{
  append_event-Extends, append_event-find, append_transition-Extends,
}
use mesflow_kiosk_runtime_v.NetworkWorker.{
  priority_high, business_event, event_request, enqueue_business_event,
}
use mesflow_kiosk_runtime_v.KioskRuntime.{
  World, KioskRuntime, endpoint_missing, journal_full, sending, saved_for_later,
  render_current_business_state,
}
use mesflow_kiosk_runtime_v.KioskRuntime.Send.{
  Quantities, new_event, new_record, remember_event, hand_over, begin_event, send_business_event,
  transition_to, is_scan, note_event, note_unsent, end_hold,
}
use mesflow_kiosk_runtime_v.KioskRuntime.Durability.{
  IsDurable, enqueue-AllBacked, journal-IsDurable, render-IsDurable, branch-IsDurable,
  known-IsDurable,
}

not-false : (b : Bool) → not b ≡ false → b ≡ true
not-false true h = refl
not-false false h = sym h

module _ (spiffs : Spiffs) where
  remember_event-IsDurable :
      (w : World) (type : EventType) (raw event_id : List ℕ) (k : KioskRuntime spiffs)
      → IsDurable spiffs k
      → IsDurable spiffs (remember_event spiffs w type raw event_id k)
  unfolding remember_event
  remember_event-IsDurable w type raw event_id k d =
      branch-IsDurable spiffs (is_scan type) _ _ (record { all_backed = d.all_backed })
        (render-IsDurable spiffs w sending false false (note_event spiffs w type raw event_id k)
          (record { all_backed = d.all_backed }))

  -- `remember_event` leaves the journal alone.
  remember_event-journal :
      (w : World) (type : EventType) (raw event_id : List ℕ) (k : KioskRuntime spiffs)
      → (remember_event spiffs w type raw event_id k).journal ≡ k.journal
  unfolding remember_event render_current_business_state
  remember_event-journal w scan raw event_id k = refl
  remember_event-journal w finish_requested raw event_id k = refl
  remember_event-journal w quantity_submitted raw event_id k = refl
  remember_event-journal w cancel_requested raw event_id k = refl

  hand_over-IsDurable :
      (w : World) (r : JournalRecord) (k : KioskRuntime spiffs)
      → find r.event_id k.journal.index ≡ some r
      → IsDurable spiffs k
      → IsDurable spiffs (hand_over spiffs w r k)
  unfolding hand_over enqueue_business_event
  hand_over-IsDurable w r k found d =
      let t = transition_to in_flight r.event_id 0 [] w.millis in
      let sent =
        enqueue-AllBacked k.journal.index priority_high
          (event_request business_event r.event_id r.device_seq k.api_endpoint r.payload
            w.kiosk_token)
          k.network (λ h. (r.event_id, r, found, (refl, refl, refl))) d.all_backed in
      branch-IsDurable spiffs
        (enqueue_business_event r.event_id r.device_seq k.api_endpoint r.payload w.kiosk_token
          k.network).0
        _ _
        (journal-IsDurable spiffs
          (record k {
            network =
                (enqueue_business_event r.event_id r.device_seq k.api_endpoint r.payload
                  w.kiosk_token k.network).1;
          })
          (append_transition spiffs t k.journal).1 (append_transition-Extends spiffs t k.journal)
          (record { all_backed = sent }))
        (render-IsDurable spiffs w saved_for_later false false (note_unsent spiffs k)
          (record { all_backed = d.all_backed }))

  pub send_business_event-IsDurable :
      (w : World) (type : EventType) (raw : List ℕ) (qs : Quantities) (k : KioskRuntime spiffs)
      → IsDurable spiffs k
      → IsDurable spiffs (send_business_event spiffs w type raw qs k)
  unfolding send_business_event
  send_business_event-IsDurable w type raw qs k d =
      let r = new_record spiffs (new_event spiffs w type raw qs k) k in
      let j = (append_event spiffs r k.journal).1 in
      let k' = record (begin_event spiffs k) { journal = j } in
      let d' : IsDurable spiffs k' =
        journal-IsDurable spiffs (begin_event spiffs k) j (append_event-Extends spiffs r k.journal)
          (record { all_backed = d.all_backed }) in
      let k'' = remember_event spiffs w type raw r.event_id k' in
      let is_found : (append_event spiffs r k.journal).0 ≡ true
          → find r.event_id k''.journal.index ≡ some r =
        λ done.
          ap (λ x. find r.event_id x.index) (remember_event-journal w type raw r.event_id k')
          ∙ append_event-find spiffs r k.journal done in
      branch-IsDurable spiffs (is_empty k.api_endpoint) _ _
        (render-IsDurable spiffs w endpoint_missing true true (end_hold spiffs k)
          (record { all_backed = d.all_backed }))
        (known-IsDurable spiffs (not (append_event spiffs r k.journal).0) _ _
          (λ h. render-IsDurable spiffs w journal_full true true k' d')
          (λ h.
            hand_over-IsDurable w r k'' (is_found (not-false _ h))
              (remember_event-IsDurable w type raw r.event_id k' d')))
