-- ===== src/KioskRuntime/Keys.antt =====
-- `handle_business_key` and `handle_scan` of
-- firmware/kiosk_runtime_v2/src/runtime/kiosk_runtime.cpp.
use mesflow_kiosk_runtime_v.Prelude.{
  ℕ, Bool, true, false, not, ◌&&◌, ◌||◌, List, [], ◌==◌, if◌then◌else◌, codes, pos,
}
use mesflow_kiosk_runtime_v.EventTypes.{
  scan, finish_requested, quantity_submitted, cancel_requested, no_quantity,
}
use mesflow_kiosk_runtime_v.StateProjection.{
  wait_operation, session_active, quantity_input, state_eq,
}
use mesflow_kiosk_runtime_v.EventJournal.SpiffsFile.{Spiffs}
use mesflow_kiosk_runtime_v.KioskRuntime.{
  ProvisioningState, unprovisioned, provisioning, active, suspended, revoked, is_active, World,
  KioskRuntime, QuantityFlow, no_notice, rework_exceeds_defect, scan_received, scan_result, draw,
  current_state, render_current_business_state,
}
use mesflow_kiosk_runtime_v.KioskRuntime.Send.{Quantities, send_business_event}
use mesflow_kiosk_runtime_v.KioskRuntime.Quantity.{
  KeyAction, ignore, redraw, refuse_rework, submit, quantity_key,
}

unfoldable pub identity_error_code : ProvisioningState → List ℕ
identity_error_code unprovisioned = codes "IDENTITY_NOT_PROVISIONED"
identity_error_code provisioning = codes "IDENTITY_NOT_PROVISIONED"
identity_error_code suspended = codes "IDENTITY_INVALID"
identity_error_code revoked = codes "IDENTITY_REVOKED"
identity_error_code active = []

abbrev pub no_quantities : Quantities
no_quantities = record {
  quantity_good = no_quantity;
  quantity_defect = no_quantity;
  quantity_rework = no_quantity;
}

abbrev pub final_quantities : QuantityFlow → Quantities
final_quantities q = record {
  quantity_good = record { present = true; value = pos q.qty_good };
  quantity_defect = record { present = true; value = pos q.qty_defect };
  quantity_rework = record { present = true; value = pos q.qty_rework };
}

module _ (spiffs : Spiffs) where
  unfoldable pub submit_final_quantity : World → KioskRuntime spiffs → KioskRuntime spiffs
  unfolding send_business_event
  submit_final_quantity w k =
      send_business_event spiffs w quantity_submitted [] (final_quantities k.quantity) k

  unfoldable pub after_key : World → KeyAction → KioskRuntime spiffs → KioskRuntime spiffs
  unfolding submit_final_quantity render_current_business_state
  after_key w ignore k = k
  after_key w redraw k = render_current_business_state spiffs w no_notice false false k
  after_key w refuse_rework k =
      render_current_business_state spiffs w rework_exceeds_defect true false k
  after_key w submit k = submit_final_quantity w k

  -- What the first four tests let through.
  abbrev pub accepts_keys : World → KioskRuntime spiffs → Bool
  accepts_keys w k =
      not w.is_safe_mode
      && (not k.server.env_mismatch
          && (is_active w.identity_state && (k.state_projection.has_snapshot && not k.resyncing)))

  unfoldable pub handle_business_key : World → ℕ → KioskRuntime spiffs → KioskRuntime spiffs
  unfolding quantity_key after_key send_business_event
  handle_business_key w key k =
      let k' = record k { last_activity_ms = w.millis } in
      let (q, action) = quantity_key key k.quantity in
      if not (accepts_keys w k)
      then k
      else if state_eq (current_state spiffs k) wait_operation && key == b'#'
      then send_business_event spiffs w cancel_requested [] no_quantities k'
      else if state_eq (current_state spiffs k) quantity_input
      then after_key w action (record k' { quantity = q })
      else if state_eq (current_state spiffs k) session_active && key == b'#'
      then send_business_event spiffs w finish_requested [] no_quantities k'
      else k'

  -- The local feedback of a scan.
  abbrev pub note_scan : World → List ℕ → KioskRuntime spiffs → KioskRuntime spiffs
  note_scan w raw_code k =
      let e = k.evidence in
      draw spiffs (scan_received raw_code) (record k {
        last_activity_ms = w.millis;
        evidence = record e {
          last_scan = raw_code;
          last_scan_received_ms =
              if e.scan_pending_result then e.last_scan_received_ms else w.millis;
        };
      })

  unfoldable pub handle_scan : World → List ℕ → KioskRuntime spiffs → KioskRuntime spiffs
  unfolding send_business_event identity_error_code
  handle_scan w raw_code k =
      if w.is_safe_mode || k.server.env_mismatch
      then k
      else if not (is_active w.identity_state)
      then draw spiffs (scan_result raw_code (identity_error_code w.identity_state))
          (note_scan w raw_code k)
      else send_business_event spiffs w scan raw_code no_quantities (note_scan w raw_code k)
