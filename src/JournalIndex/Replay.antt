-- ===== src/JournalIndex/Replay.antt =====
-- Replaying a frame at boot has the effect that the live append had.
use mesflow_kiosk_runtime_v.Prelude.{ℕ, ◌≡◌, false, some, List, arith}
use mesflow_kiosk_runtime_v.StringMap.{contains}
use mesflow_kiosk_runtime_v.JournalRecord.{
  JournalRecord, JournalTransition, event, transition, journal_body_kind, decode_journal_event,
  decode_journal_transition, encode_journal_event, encode_journal_transition,
}
use mesflow_kiosk_runtime_v.JournalRecord.RoundTrip.{IsStorable, event_kind, decode-encode_event}
use mesflow_kiosk_runtime_v.JournalRecord.Transitions.{
  IsStorableTransition, transition_kind, decode-encode_transition,
}
use mesflow_kiosk_runtime_v.JournalIndex.{
  EventJournalIndex, apply_scanned_frame, record_appended_event, record_appended_transition,
}

apply_event-read :
    (body : List ℕ) (r : JournalRecord) (n : ℕ) (x : EventJournalIndex)
    → journal_body_kind body ≡ event
    → decode_journal_event body ≡ some r
    → contains r.event_id x.records ≡ false
    → apply_scanned_frame body n x ≡ record_appended_event r n x
unfolding apply_scanned_frame record_appended_event
apply_event-read body r n x kind read fresh = ground (arith, kind, read, fresh)

apply_transition-read :
    (body : List ℕ) (t : JournalTransition) (n : ℕ) (x : EventJournalIndex)
    → journal_body_kind body ≡ transition
    → decode_journal_transition body ≡ some t
    → apply_scanned_frame body n x ≡ record_appended_transition t n x
unfolding apply_scanned_frame record_appended_transition
apply_transition-read body t n x kind read = ground (arith, kind, read)

-- The frame of a storable event with a new id does to the index at boot what
-- `record_appended_event` did to it when the event was appended.
pub apply_scanned_frame-event :
    (r : JournalRecord) (n : ℕ) (x : EventJournalIndex)
    → IsStorable r
    → contains r.event_id x.records ≡ false
    → apply_scanned_frame (encode_journal_event r) n x ≡ record_appended_event r n x
apply_scanned_frame-event r n x ok =
    apply_event-read (encode_journal_event r) r n x (event_kind r) (decode-encode_event r ok)

-- The frame of a storable transition does to the index at boot what `record_appended_transition`
-- did to it when the transition was appended.
pub apply_scanned_frame-transition :
    (t : JournalTransition) (n : ℕ) (x : EventJournalIndex)
    → IsStorableTransition t
    → apply_scanned_frame (encode_journal_transition t) n x ≡ record_appended_transition t n x
apply_scanned_frame-transition t n x ok =
    apply_transition-read (encode_journal_transition t) t n x (transition_kind t)
      (decode-encode_transition t ok)
