-- ===== src/KioskRuntime/Durability/Inputs.antt =====
-- The handlers of inputs, and the fetches of the state.
use mesflow_kiosk_runtime_v.Prelude.{
  ℕ, true, false, not, ◌&&◌, ◌||◌, Option, none, some, List, [], ◌==◌,
}
use mesflow_kiosk_runtime_v.EventTypes.{
  scan, finish_requested, quantity_submitted, cancel_requested,
}
use mesflow_kiosk_runtime_v.StateProjection.{
  StateSnapshot, apply, state_eq, wait_operation, session_active, quantity_input,
}
use mesflow_kiosk_runtime_v.StateProjection.Parser.{parse_state_snapshot_json}
use mesflow_kiosk_runtime_v.WifiRecovery.{
  read_indicator, LocalEvent, LocalEventKind, key_down, key_up, keypad_raw, wifi_state,
  wifi_recovery_state,
}
use mesflow_kiosk_runtime_v.NetworkWorker.{
  NetworkResult, priority_high, state_fetch, plain_request, enqueue_state_fetch,
}
use mesflow_kiosk_runtime_v.EventJournal.SpiffsFile.{Spiffs}
use mesflow_kiosk_runtime_v.KioskRuntime.{
  World, KioskRuntime, no_notice, rework_exceeds_defect, is_active, current_state,
  refresh_idle_screen,
}
use mesflow_kiosk_runtime_v.KioskRuntime.Quantity.{
  KeyAction, ignore, redraw, refuse_rework, submit, quantity_key,
}
use mesflow_kiosk_runtime_v.KioskRuntime.Keys.{
  no_quantities, final_quantities, after_key, accepts_keys, handle_business_key, note_scan,
  handle_scan, submit_final_quantity,
}
use mesflow_kiosk_runtime_v.KioskRuntime.Resync.{
  is_applied, state_endpoint_url, start_resync, request_manual_resync, apply_resync,
  handle_resync_result,
}
use mesflow_kiosk_runtime_v.KioskRuntime.Input.{handle_local_event, handle_wifi_state, note_key}
use mesflow_kiosk_runtime_v.KioskRuntime.Durability.{
  IsDurable, enqueue-AllBacked, render-IsDurable, branch-IsDurable,
}
use mesflow_kiosk_runtime_v.KioskRuntime.Durability.Handlers.{send_business_event-IsDurable}

module _ (spiffs : Spiffs) where
  pub refresh-IsDurable :
      (w : World) (k : KioskRuntime spiffs)
      → IsDurable spiffs k
      → IsDurable spiffs (refresh_idle_screen spiffs w k)
  unfolding refresh_idle_screen
  refresh-IsDurable w k d = render-IsDurable spiffs w no_notice false false k d

  after_key-IsDurable :
      (w : World) (a : KeyAction) (k : KioskRuntime spiffs)
      → IsDurable spiffs k
      → IsDurable spiffs (after_key spiffs w a k)
  unfolding after_key submit_final_quantity
  after_key-IsDurable w ignore k d = d
  after_key-IsDurable w redraw k d = render-IsDurable spiffs w no_notice false false k d
  after_key-IsDurable w refuse_rework k d =
      render-IsDurable spiffs w rework_exceeds_defect true false k d
  after_key-IsDurable w submit k d =
      send_business_event-IsDurable spiffs w quantity_submitted [] (final_quantities k.quantity) k d

  pub handle_business_key-IsDurable :
      (w : World) (key : ℕ) (k : KioskRuntime spiffs)
      → IsDurable spiffs k
      → IsDurable spiffs (handle_business_key spiffs w key k)
  unfolding handle_business_key
  handle_business_key-IsDurable w key k d =
      let k' = record k { last_activity_ms = w.millis } in
      let d' : IsDurable spiffs k' = record { all_backed = d.all_backed } in
      branch-IsDurable spiffs (not (accepts_keys spiffs w k)) _ _ d (
        branch-IsDurable spiffs (state_eq (current_state spiffs k) wait_operation && key == b'#') _
          _ (send_business_event-IsDurable spiffs w cancel_requested [] no_quantities k' d')
          (branch-IsDurable spiffs (state_eq (current_state spiffs k) quantity_input) _ _
            (after_key-IsDurable w (quantity_key key k.quantity).1
              (record k' { quantity = (quantity_key key k.quantity).0 })
              (record { all_backed = d.all_backed }))
            (branch-IsDurable spiffs
              (state_eq (current_state spiffs k) session_active && key == b'#') _ _
              (send_business_event-IsDurable spiffs w finish_requested [] no_quantities k' d') d')))

  pub handle_scan-IsDurable :
      (w : World) (raw : List ℕ) (k : KioskRuntime spiffs)
      → IsDurable spiffs k
      → IsDurable spiffs (handle_scan spiffs w raw k)
  unfolding handle_scan
  handle_scan-IsDurable w raw k d =
      branch-IsDurable spiffs (w.is_safe_mode || k.server.env_mismatch) _ _ d (
        branch-IsDurable spiffs (not (is_active w.identity_state)) _ _
          (record { all_backed = d.all_backed })
          (send_business_event-IsDurable spiffs w scan raw no_quantities (note_scan spiffs w raw k)
            (record { all_backed = d.all_backed })))

  pub start_resync-IsDurable :
      (w : World) (k : KioskRuntime spiffs)
      → IsDurable spiffs k
      → IsDurable spiffs (start_resync spiffs w k)
  unfolding start_resync enqueue_state_fetch
  start_resync-IsDurable w k d = record {
    all_backed =
        enqueue-AllBacked k.journal.index priority_high
          (plain_request state_fetch (state_endpoint_url spiffs k) [] w.kiosk_token) k.network
          (λ h. cc) d.all_backed;
  }

  pub request_manual_resync-IsDurable :
      (w : World) (k : KioskRuntime spiffs)
      → IsDurable spiffs k
      → IsDurable spiffs (request_manual_resync spiffs w k)
  unfolding request_manual_resync
  request_manual_resync-IsDurable w k d =
      branch-IsDurable spiffs (is_active w.identity_state) _ _ (start_resync-IsDurable w k d) d

  apply_resync-IsDurable :
      (w : World) (snap : StateSnapshot) (k : KioskRuntime spiffs)
      → IsDurable spiffs k
      → IsDurable spiffs (apply_resync spiffs w snap k)
  unfolding apply_resync
  apply_resync-IsDurable w snap k d =
      branch-IsDurable spiffs (is_applied (apply snap k.state_projection).1) _ _
        (render-IsDurable spiffs w no_notice false false
          (record k {
            state_projection = (apply snap k.state_projection).0;
            resyncing = false;
            quantity = record k.quantity { local_qty_buffer = [] };
            last_activity_ms = w.millis;
          })
          (record { all_backed = d.all_backed }))
        (record { all_backed = d.all_backed })

  parsed-IsDurable :
      (w : World) (o : Option StateSnapshot) (k : KioskRuntime spiffs)
      → IsDurable spiffs k
      → IsDurable spiffs (elim o [ none ↦ k | some snap ↦ apply_resync spiffs w snap k ])
  parsed-IsDurable w none k d = d
  parsed-IsDurable w (some snap) k d = apply_resync-IsDurable w snap k d

  pub handle_resync_result-IsDurable :
      (w : World) (result : NetworkResult) (k : KioskRuntime spiffs)
      → IsDurable spiffs k
      → IsDurable spiffs (handle_resync_result spiffs w result k)
  unfolding handle_resync_result
  handle_resync_result-IsDurable w result k d =
      branch-IsDurable spiffs (not result.outcome.ok) _ _ d
        (parsed-IsDurable w (parse_state_snapshot_json result.response_body) k d)

  handle_wifi_state-IsDurable :
      (w : World) (text : List ℕ) (k : KioskRuntime spiffs)
      → IsDurable spiffs k
      → IsDurable spiffs (handle_wifi_state spiffs w text k)
  unfolding handle_wifi_state
  handle_wifi_state-IsDurable w text k d =
      let k' = record k { wifi_indicator = read_indicator text k.wifi_indicator } in
      let d' : IsDurable spiffs k' = record { all_backed = d.all_backed } in
      branch-IsDurable spiffs k.evidence.scan_pending_result _ _ d' (refresh-IsDurable w k' d')

  kind-IsDurable :
      (kind : LocalEventKind) (w : World) (e : LocalEvent) (k : KioskRuntime spiffs)
      → IsDurable spiffs k
      → IsDurable spiffs (handle_local_event spiffs w (record e { kind = kind }) k)
  unfolding handle_local_event
  kind-IsDurable LocalEventKind.scan w e k d = handle_scan-IsDurable w e.text k d
  kind-IsDurable keypad_raw w e k d = d
  kind-IsDurable key_down w e k d =
      branch-IsDurable spiffs (e.key == b'*' || w.recovery_overlay_active) _ _
        (record { all_backed = d.all_backed })
        (handle_business_key-IsDurable w e.key (note_key spiffs e.key k)
          (record { all_backed = d.all_backed }))
  kind-IsDurable key_up w e k d = record { all_backed = d.all_backed }
  kind-IsDurable wifi_state w e k d = handle_wifi_state-IsDurable w e.text k d
  kind-IsDurable wifi_recovery_state w e k d = d

  pub handle_local_event-IsDurable :
      (w : World) (e : LocalEvent) (k : KioskRuntime spiffs)
      → IsDurable spiffs k
      → IsDurable spiffs (handle_local_event spiffs w e k)
  handle_local_event-IsDurable w e k d = kind-IsDurable e.kind w e k d
