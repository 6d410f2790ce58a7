-- ===== src/JournalRecord/RoundTrip.antt =====
-- Bodies that are written are read back.
use mesflow_kiosk_runtime_v.Prelude.{
  ℕ, ◌<◌, ◌≡◌, ◌≢◌, refl, sym, ap, ◌∙◌, ◌^◌, true, false, some, List, [], ◌∷◌, codes, is_empty, ℤ,
  pos, negsuc, arith,
}
use mesflow_kiosk_runtime_v.Decimal.{to_u32, to_u64}
use mesflow_kiosk_runtime_v.JsonExtract.{json_extract_int}
use mesflow_kiosk_runtime_v.ProtocolCodec.{json_escape}
use mesflow_kiosk_runtime_v.JsonObject.{Value, text, number, object_text, get, is_key, are_keys}
use mesflow_kiosk_runtime_v.JsonObject.Escape.{is_clean}
use mesflow_kiosk_runtime_v.JsonObject.Extract.{text_under, int_under, u64_under, u32_under}
use mesflow_kiosk_runtime_v.JournalRecord.{
  JournalSyncStatus, pending, in_flight, acked, rejected, conflict, human_review,
  journal_sync_status_to_string, journal_sync_status_from_string, JournalRecord,
  encode_journal_event, journal_body_kind, event, decode_journal_event, text_at, int_at,
  event_fields,
}

-- The six states are told apart by their names.
pub status-to_string :
    (s : JournalSyncStatus)
    → journal_sync_status_from_string (journal_sync_status_to_string s) ≡ some s
unfolding journal_sync_status_from_string journal_sync_status_to_string
status-to_string s = ground arith

pub status-is_clean : (s : JournalSyncStatus) → is_clean (journal_sync_status_to_string s) ≡ true
unfolding is_clean journal_sync_status_to_string
status-is_clean s = ground arith

pub status-json_escape :
    (s : JournalSyncStatus)
    → json_escape (journal_sync_status_to_string s) ≡ journal_sync_status_to_string s
unfolding json_escape journal_sync_status_to_string
status-json_escape pending = refl
status-json_escape in_flight = refl
status-json_escape acked = refl
status-json_escape rejected = refl
status-json_escape conflict = refl
status-json_escape human_review = refl

pub kind-json_escape : (json_escape (codes "E") ≡ codes "E") × (json_escape (codes "T") ≡ codes "T")
unfolding json_escape
kind-json_escape = (refl, refl)

-- A record that can be read back: the version is the one that is understood, the required fields
-- are there, the texts hold no control character but tab, newline and carriage return, and the
-- numbers fit their types, those of 64 bits also an int64_t.
pub record IsStorable (r : JournalRecord) : Type 0 where
  pub version : r.record_version ≡ 1
  pub has_id : r.event_id ≢ []
  pub has_type : r.event_type ≢ []
  pub clean_id : is_clean r.event_id ≡ true
  pub clean_boot : is_clean r.boot_id ≡ true
  pub clean_type : is_clean r.event_type ≡ true
  pub clean_payload : is_clean r.payload ≡ true
  pub clean_hash : is_clean r.payload_hash ≡ true
  pub clean_time : is_clean r.time_sync_status ≡ true
  pub clean_error : is_clean r.last_error_code ≡ true
  pub seq_fits : r.device_seq < 2 ^ 63
  pub expected_fits : r.expected_state_version < 2 ^ 63
  pub created_fits : r.created_uptime_ms < 2 ^ 32
  pub retry_fits : r.retry_count < 2 ^ 32
  pub attempt_fits : r.last_attempt_uptime_ms < 2 ^ 32

abbrev pub kind_field : List ℕ → List ℕ × Value
kind_field k = (codes "k", text k)

abbrev event_object : JournalRecord → List (List ℕ × Value)
event_object r =
    (codes "record_version", number r.record_version)
    ∷ (codes "event_id", text r.event_id)
    ∷ (codes "device_seq", number r.device_seq)
    ∷ (codes "boot_id", text r.boot_id)
    ∷ (codes "event_type", text r.event_type)
    ∷ (codes "payload", text r.payload)
    ∷ (codes "payload_hash", text r.payload_hash)
    ∷ (codes "expected_state_version", number r.expected_state_version)
    ∷ (codes "created_uptime_ms", number r.created_uptime_ms)
    ∷ (codes "time_sync_status", text r.time_sync_status)
    ∷ (codes "retry_count", number r.retry_count)
    ∷ (codes "last_attempt_uptime_ms", number r.last_attempt_uptime_ms)
    ∷ (codes "last_error_code", text r.last_error_code)
    ∷ (codes "sync_status", text (journal_sync_status_to_string r.sync_status))
    ∷ []

-- The encoder writes the flat object of those fields.
event-object_text :
    (r : JournalRecord)
    → encode_journal_event r ≡ object_text (kind_field (codes "E")) (event_object r)
unfolding encode_journal_event
event-object_text r = rw (status-json_escape r.sync_status, kind-json_escape.0)

event-are_keys : (r : JournalRecord) → are_keys (kind_field (codes "E") ∷ event_object r) ≡ true
unfolding are_keys
event-are_keys r = refl

module _ (r : JournalRecord) where
  event_text :
      (k s : List ℕ)
      → get k (kind_field (codes "E") ∷ event_object r) ≡ some (text s)
      → is_clean s ≡ true
      → is_key k ≡ true
      → text_at (encode_journal_event r) k ≡ s
  event_text =
      text_under (encode_journal_event r) (kind_field (codes "E")) (event_object r)
        (event-object_text r) (event-are_keys r)

  event_number :
      (k : List ℕ) (n : ℕ) (d : ℤ)
      → get k (kind_field (codes "E") ∷ event_object r) ≡ some (number n)
      → n < 2 ^ 63
      → is_key k ≡ true
      → json_extract_int (encode_journal_event r) k d ≡ pos n
  event_number =
      int_under (encode_journal_event r) (kind_field (codes "E")) (event_object r)
        (event-object_text r) (event-are_keys r)

  event_u64 :
      (k : List ℕ) (n : ℕ)
      → get k (kind_field (codes "E") ∷ event_object r) ≡ some (number n)
      → n < 2 ^ 63
      → is_key k ≡ true
      → to_u64 (int_at (encode_journal_event r) k) ≡ n
  event_u64 =
      u64_under (encode_journal_event r) (kind_field (codes "E")) (event_object r)
        (event-object_text r) (event-are_keys r)

  event_u32 :
      (k : List ℕ) (n : ℕ)
      → get k (kind_field (codes "E") ∷ event_object r) ≡ some (number n)
      → n < 2 ^ 32
      → is_key k ≡ true
      → to_u32 (int_at (encode_journal_event r) k) ≡ n
  event_u32 =
      u32_under (encode_journal_event r) (kind_field (codes "E")) (event_object r)
        (event-object_text r) (event-are_keys r)

pub event_kind : (r : JournalRecord) → journal_body_kind (encode_journal_event r) ≡ event
unfolding journal_body_kind is_clean is_key get
event_kind r = rw (event_text r (codes "k") (codes "E") refl refl refl) refl

pub nonempty : (s : List ℕ) → s ≢ [] → is_empty s ≡ false
nonempty [] h = absurd (h refl)
nonempty (c ∷ s) h = refl

-- A body that passes the checks is decoded to its fields.
decode_event-passes :
    (body : List ℕ) (st : JournalSyncStatus)
    → journal_body_kind body ≡ event
    → json_extract_int body (codes "record_version") (negsuc 0) ≡ pos 1
    → is_empty (text_at body (codes "event_id")) ≡ false
    → is_empty (text_at body (codes "event_type")) ≡ false
    → journal_sync_status_from_string (text_at body (codes "sync_status")) ≡ some st
    → decode_journal_event body ≡ some (event_fields body st)
unfolding decode_journal_event
decode_event-passes body st kind version id type status = rw (kind, version, id, type, status)

-- Every storable event record is read back as it was written.
pub decode-encode_event :
    (r : JournalRecord) → IsStorable r → decode_journal_event (encode_journal_event r) ≡ some r
unfolding is_key get event_fields
decode-encode_event r ok =
    let body = encode_journal_event r in
    let id = event_text r (codes "event_id") r.event_id refl ok.clean_id refl in
    let type = event_text r (codes "event_type") r.event_type refl ok.clean_type refl in
    let status =
      event_text r (codes "sync_status") (journal_sync_status_to_string r.sync_status) refl
        (status-is_clean r.sync_status) refl in
    decode_event-passes body r.sync_status (event_kind r)
      (event_number r (codes "record_version") r.record_version (negsuc 0) refl
          (omega (arith, ok.version)) refl
        ∙ ap pos ok.version)
      (ap is_empty id ∙ nonempty r.event_id ok.has_id)
      (ap is_empty type ∙ nonempty r.event_type ok.has_type)
      (ap journal_sync_status_from_string status ∙ status-to_string r.sync_status)
    ∙ ap some (λ i. record {
      record_version = sym ok.version i;
      event_id = id i;
      device_seq = event_u64 r (codes "device_seq") r.device_seq refl ok.seq_fits refl i;
      boot_id = event_text r (codes "boot_id") r.boot_id refl ok.clean_boot refl i;
      event_type = type i;
      payload = event_text r (codes "payload") r.payload refl ok.clean_payload refl i;
      payload_hash = event_text r (codes "payload_hash") r.payload_hash refl ok.clean_hash refl i;
      expected_state_version =
          event_u64 r (codes "expected_state_version") r.expected_state_version refl
            ok.expected_fits refl i;
      created_uptime_ms =
          event_u32 r (codes "created_uptime_ms") r.created_uptime_ms refl ok.created_fits refl i;
      time_sync_status =
          event_text r (codes "time_sync_status") r.time_sync_status refl ok.clean_time refl i;
      retry_count = event_u32 r (codes "retry_count") r.retry_count refl ok.retry_fits refl i;
      last_attempt_uptime_ms =
          event_u32 r (codes "last_attempt_uptime_ms") r.last_attempt_uptime_ms refl ok.attempt_fits
            refl i;
      last_error_code =
          event_text r (codes "last_error_code") r.last_error_code refl ok.clean_error refl i;
      sync_status = r.sync_status;
    })
