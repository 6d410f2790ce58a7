-- ===== src/JournalRecord/Transitions.antt =====
-- Transition bodies that are written are read back.
use mesflow_kiosk_runtime_v.Prelude.{
  ℕ, ◌<◌, ◌≡◌, ◌≢◌, refl, ap, ◌∙◌, ◌^◌, true, false, some, List, [], ◌∷◌, codes, is_empty,
}
use mesflow_kiosk_runtime_v.Decimal.{to_u32}
use mesflow_kiosk_runtime_v.JsonObject.{Value, text, number, object_text, get, is_key, are_keys}
use mesflow_kiosk_runtime_v.JsonObject.Escape.{is_clean}
use mesflow_kiosk_runtime_v.JsonObject.Extract.{text_under, u32_under}
use mesflow_kiosk_runtime_v.JournalRecord.{
  JournalSyncStatus, journal_sync_status_to_string, journal_sync_status_from_string,
  JournalTransition, encode_journal_transition, journal_body_kind, transition,
  decode_journal_transition, text_at, int_at, transition_fields,
}
use mesflow_kiosk_runtime_v.JournalRecord.RoundTrip.{
  status-to_string, status-is_clean, status-json_escape, kind-json_escape, nonempty, kind_field,
}

-- A transition that can be read back: it names an event, its texts hold no control character but
-- tab, newline and carriage return, and its numbers fit a uint32_t.
pub record IsStorableTransition (t : JournalTransition) : Type 0 where
  pub has_id : t.event_id ≢ []
  pub clean_id : is_clean t.event_id ≡ true
  pub clean_error : is_clean t.last_error_code ≡ true
  pub retry_fits : t.retry_count < 2 ^ 32
  pub attempt_fits : t.last_attempt_uptime_ms < 2 ^ 32

abbrev transition_object : JournalTransition → List (List ℕ × Value)
transition_object t =
    (codes "event_id", text t.event_id)
    ∷ (codes "sync_status", text (journal_sync_status_to_string t.sync_status))
    ∷ (codes "retry_count", number t.retry_count)
    ∷ (codes "last_attempt_uptime_ms", number t.last_attempt_uptime_ms)
    ∷ (codes "last_error_code", text t.last_error_code)
    ∷ []

-- The encoder writes the flat object of those fields.
transition-object_text :
    (t : JournalTransition)
    → encode_journal_transition t ≡ object_text (kind_field (codes "T")) (transition_object t)
unfolding encode_journal_transition
transition-object_text t = rw (status-json_escape t.sync_status, kind-json_escape.1)

transition-are_keys :
    (t : JournalTransition) → are_keys (kind_field (codes "T") ∷ transition_object t) ≡ true
unfolding are_keys
transition-are_keys t = refl

module _ (t : JournalTransition) where
  transition_text :
      (k s : List ℕ)
      → get k (kind_field (codes "T") ∷ transition_object t) ≡ some (text s)
      → is_clean s ≡ true
      → is_key k ≡ true
      → text_at (encode_journal_transition t) k ≡ s
  transition_text =
      text_under (encode_journal_transition t) (kind_field (codes "T")) (transition_object t)
        (transition-object_text t) (transition-are_keys t)

  transition_u32 :
      (k : List ℕ) (n : ℕ)
      → get k (kind_field (codes "T") ∷ transition_object t) ≡ some (number n)
      → n < 2 ^ 32
      → is_key k ≡ true
      → to_u32 (int_at (encode_journal_transition t) k) ≡ n
  transition_u32 =
      u32_under (encode_journal_transition t) (kind_field (codes "T")) (transition_object t)
        (transition-object_text t) (transition-are_keys t)

pub transition_kind :
    (t : JournalTransition) → journal_body_kind (encode_journal_transition t) ≡ transition
unfolding journal_body_kind is_clean is_key get
transition_kind t = rw (transition_text t (codes "k") (codes "T") refl refl refl) refl

-- A body that passes the checks is decoded to its fields.
decode_transition-passes :
    (body : List ℕ) (st : JournalSyncStatus)
    → journal_body_kind body ≡ transition
    → is_empty (text_at body (codes "event_id")) ≡ false
    → journal_sync_status_from_string (text_at body (codes "sync_status")) ≡ some st
    → decode_journal_transition body ≡ some (transition_fields body st)
unfolding decode_journal_transition
decode_transition-passes body st kind id status = rw (kind, id, status)

-- Every storable transition is read back as it was written.
pub decode-encode_transition :
    (t : JournalTransition)
    → IsStorableTransition t
    → decode_journal_transition (encode_journal_transition t) ≡ some t
unfolding is_key get transition_fields
decode-encode_transition t ok =
    let body = encode_journal_transition t in
    let id = transition_text t (codes "event_id") t.event_id refl ok.clean_id refl in
    let status =
      transition_text t (codes "sync_status") (journal_sync_status_to_string t.sync_status) refl
        (status-is_clean t.sync_status) refl in
    decode_transition-passes body t.sync_status (transition_kind t)
      (ap is_empty id ∙ nonempty t.event_id ok.has_id)
      (ap journal_sync_status_from_string status ∙ status-to_string t.sync_status)
    ∙ ap some (λ i. record {
      event_id = id i;
      sync_status = t.sync_status;
      retry_count = transition_u32 t (codes "retry_count") t.retry_count refl ok.retry_fits refl i;
      last_attempt_uptime_ms =
          transition_u32 t (codes "last_attempt_uptime_ms") t.last_attempt_uptime_ms refl
            ok.attempt_fits refl i;
      last_error_code =
          transition_text t (codes "last_error_code") t.last_error_code refl ok.clean_error refl i;
    })
