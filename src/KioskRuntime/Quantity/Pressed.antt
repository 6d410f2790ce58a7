-- ===== src/KioskRuntime/Quantity/Pressed.antt =====
-- The quantity dialogue at the keypad: what a key changes of that which
-- decides about keys. About firmware/kiosk_runtime_v2/src/runtime/kiosk_runtime.cpp.
use mesflow_kiosk_runtime_v.Prelude.{
  ℕ, ◌≡◌, refl, ap, ◌∙◌, Bool, true, false, not, ◌&&◌, List, [], if◌then◌else◌, arith, is_empty,
  and-parts, branch_true, branch_false, ◌==◌,
}
use mesflow_kiosk_runtime_v.EventTypes.{
  EventType, scan, finish_requested, quantity_submitted, cancel_requested,
}
use mesflow_kiosk_runtime_v.JournalRecord.{JournalRecord}
use mesflow_kiosk_runtime_v.EventJournal.{append_event}
use mesflow_kiosk_runtime_v.EventJournal.SpiffsFile.{Spiffs}
use mesflow_kiosk_runtime_v.StateProjection.{
  BusinessState, Projection, state_eq, quantity_input, wait_operation,
}
use mesflow_kiosk_runtime_v.NetworkWorker.{enqueue_business_event}
use mesflow_kiosk_runtime_v.KioskRuntime.{
  World, is_active, KioskRuntime, QuantityFlow, ServerInfo, current_state,
  render_current_business_state,
}
use mesflow_kiosk_runtime_v.KioskRuntime.Send.{
  Quantities, new_event, new_record, remember_event, hand_over, begin_event, send_business_event,
}
use mesflow_kiosk_runtime_v.KioskRuntime.Keys.{
  accepts_keys, after_key, submit_final_quantity, final_quantities, handle_business_key,
}
use mesflow_kiosk_runtime_v.KioskRuntime.Quantity.{
  KeyAction, ignore, redraw, refuse_rework, submit, quantity_key,
}

-- What decides about keys, and the dialogue.
pub record Input : Type 0 where
  pub projection : Projection
  pub resyncing : Bool
  pub info : ServerInfo
  pub flow : QuantityFlow

not_waiting :
    (s : BusinessState) (b : Bool)
    → state_eq s quantity_input ≡ true
    → (state_eq s wait_operation && b) ≡ false
not_waiting s b asks = ground arith

module _ (spiffs : Spiffs) where
  abbrev pub input_of : KioskRuntime spiffs → Input
  input_of k = record {
    projection = k.state_projection;
    resyncing = k.resyncing;
    info = k.server;
    flow = k.quantity;
  }

  input-branch :
      (b : Bool) (k k' : KioskRuntime spiffs) (x : Input)
      → input_of k ≡ x
      → input_of k' ≡ x
      → input_of (if b then k else k') ≡ x
  input-branch true k k' x e e' = e
  input-branch false k k' x e e' = e'

  remember_event-input :
      (w : World) (type : EventType) (raw id : List ℕ) (k : KioskRuntime spiffs)
      → input_of (remember_event spiffs w type raw id k) ≡ input_of k
  unfolding remember_event render_current_business_state
  remember_event-input w scan raw id k = refl
  remember_event-input w finish_requested raw id k = refl
  remember_event-input w quantity_submitted raw id k = refl
  remember_event-input w cancel_requested raw id k = refl

  hand_over-input :
      (w : World) (r : JournalRecord) (k : KioskRuntime spiffs)
      → input_of (hand_over spiffs w r k) ≡ input_of k
  unfolding hand_over render_current_business_state
  hand_over-input w r k =
      input-branch
        (enqueue_business_event r.event_id r.device_seq k.api_endpoint r.payload w.kiosk_token
          k.network).0
        _ _ (input_of k) refl refl

  pub send_business_event-input :
      (w : World) (type : EventType) (raw : List ℕ) (qs : Quantities) (k : KioskRuntime spiffs)
      → input_of (send_business_event spiffs w type raw qs k) ≡ input_of k
  unfolding send_business_event render_current_business_state
  send_business_event-input w type raw qs k =
      let r = new_record spiffs (new_event spiffs w type raw qs k) k in
      let j = (append_event spiffs r k.journal).1 in
      let k' = record (begin_event spiffs k) { journal = j } in
      input-branch (is_empty k.api_endpoint) _ _ (input_of k) refl (
        input-branch (not (append_event spiffs r k.journal).0) _ _ (input_of k) refl (
          hand_over-input w r (remember_event spiffs w type raw r.event_id k')
          ∙ remember_event-input w type raw r.event_id k'))

  pub after_key-input :
      (w : World) (a : KeyAction) (k : KioskRuntime spiffs)
      → input_of (after_key spiffs w a k) ≡ input_of k
  unfolding after_key submit_final_quantity render_current_business_state
  after_key-input w ignore k = refl
  after_key-input w redraw k = refl
  after_key-input w refuse_rework k = refl
  after_key-input w submit k =
      send_business_event-input w quantity_submitted [] (final_quantities k.quantity) k

  abbrev pub is_asking_of : World → Input → Bool
  is_asking_of w x =
      (not w.is_safe_mode
        && (not x.info.env_mismatch
            && (is_active w.identity_state && (x.projection.has_snapshot && not x.resyncing))))
      && state_eq x.projection.current.state quantity_input

  -- A kiosk whose keys go to the dialogue.
  abbrev pub is_asking : World → KioskRuntime spiffs → Bool
  is_asking w k = accepts_keys spiffs w k && state_eq (current_state spiffs k) quantity_input

  pub asking_key :
      (w : World) (key : ℕ) (k : KioskRuntime spiffs)
      → is_asking w k ≡ true
      → handle_business_key spiffs w key k
        ≡ after_key spiffs w
            (quantity_key key k.quantity).1
            (record k { last_activity_ms = w.millis; quantity = (quantity_key key k.quantity).0 })
  unfolding handle_business_key
  asking_key w key k asking =
      let (accepts, asks) = and-parts _ _ asking in
      branch_false (not (accepts_keys spiffs w k)) _ _ (ap not accepts)
      ∙ branch_false (state_eq (current_state spiffs k) wait_operation && key == b'#') _ _
          (not_waiting (current_state spiffs k) (key == b'#') asks)
      ∙ branch_true (state_eq (current_state spiffs k) quantity_input) _ _ asks
