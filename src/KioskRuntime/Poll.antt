-- ===== src/KioskRuntime/Poll.antt =====
-- `poll` and its timeouts in firmware/kiosk_runtime_v2/src/runtime/kiosk_runtime.cpp, and the
-- status that kiosk_runtime.h reports. The journal of recoveries is left out.
use mesflow_kiosk_runtime_v.Prelude.{
  ℕ, ◌+◌, ◌%◌, ◌^◌, Bool, true, false, not, ◌&&◌, ◌||◌, Option, none, some, [], ltb, leb, ◌==◌,
  if◌then◌else◌, bytes_eq,
}
use mesflow_kiosk_runtime_v.EventTypes.{cancel_requested}
use mesflow_kiosk_runtime_v.StateProjection.{
  wait_operation, wait_employee, quantity_input, state_eq,
}
use mesflow_kiosk_runtime_v.WifiRecovery.{
  WifiIndicator, connected, connecting, disconnected, unknown,
}
use mesflow_kiosk_runtime_v.JournalIndex.Pressure.{counts}
use mesflow_kiosk_runtime_v.EventJournal.SpiffsFile.{Spiffs}
use mesflow_kiosk_runtime_v.Policies.NetworkState.{NetworkState, classify_network_state}
use mesflow_kiosk_runtime_v.Policies.Timeouts.{ui_timeout_ms_for_state, ui_state_should_timeout}
use mesflow_kiosk_runtime_v.NetworkWorker.{
  NetworkResult, business_event, offline_replay, state_fetch, bootstrap, heartbeat, ui_bundle_fetch,
  high_priority_busy, poll_result,
}
use mesflow_kiosk_runtime_v.KioskRuntime.{
  World, KioskRuntime, enter_quantity, current_state, elapsed, render_current_business_state,
  refresh_idle_screen,
}
use mesflow_kiosk_runtime_v.KioskRuntime.Send.{send_business_event}
use mesflow_kiosk_runtime_v.KioskRuntime.Keys.{no_quantities, accepts_keys}
use mesflow_kiosk_runtime_v.KioskRuntime.Resync.{handle_resync_result}
use mesflow_kiosk_runtime_v.KioskRuntime.Replay.{
  start_offline_replay_if_needed, check_offline_replay,
}
use mesflow_kiosk_runtime_v.KioskRuntime.Response.{handle_event_result}

abbrev pub error_view_timeout_ms : ℕ
error_view_timeout_ms = 20000

abbrev pub replay_fallback_check_interval_ms : ℕ
replay_fallback_check_interval_ms = 30000

abbrev is_connected : WifiIndicator → Bool
is_connected connected = true
is_connected connecting = false
is_connected disconnected = false
is_connected unknown = false

module _ (spiffs : Spiffs) where
  unfoldable pub network_state : KioskRuntime spiffs → NetworkState
  unfolding classify_network_state
  network_state k =
      let e = k.evidence in
      classify_network_state (record {
        wifi_connected = is_connected k.wifi_indicator;
        last_request_ok = not e.has_scanned || e.last_backend_ok;
        last_http_status = e.last_http_status;
        consecutive_failures = e.consecutive_request_failures;
      })

  unfoldable pub dispatch_result : World → NetworkResult → KioskRuntime spiffs → KioskRuntime spiffs
  unfolding handle_resync_result handle_event_result
  dispatch_result w result k = elim result.kind [
    | state_fetch ↦ handle_resync_result spiffs w result k
    | bootstrap ↦ record k { bootstrap_result = some result }
    | ui_bundle_fetch ↦ record k { ui_bundle_fetch_result = some result }
    | heartbeat ↦ k
    | business_event ↦ handle_event_result spiffs w result k
    | offline_replay ↦ handle_event_result spiffs w result k
  ]

  unfoldable pub poll_network : World → KioskRuntime spiffs → KioskRuntime spiffs
  unfolding poll_result dispatch_result
  poll_network w k =
      let (got, network) = poll_result k.network in
      let k' = record k { network = network } in
      elim got [ none ↦ k' | some result ↦ dispatch_result w result k' ]

  unfoldable pub check_error_view_timeout : World → KioskRuntime spiffs → KioskRuntime spiffs
  unfolding refresh_idle_screen
  check_error_view_timeout w k =
      let shown_ms = elapsed w.millis k.presentation.error_view_shown_at_ms in
      if not k.presentation.showing_error_view
      then k
      else if ltb shown_ms error_view_timeout_ms
      then k
      else refresh_idle_screen spiffs w k

  -- `static_cast<long>` of the difference is negative from 2 ^ 31 on.
  unfoldable pub check_finish_result_hold_timeout :
      World → KioskRuntime spiffs → KioskRuntime spiffs
  unfolding refresh_idle_screen
  check_finish_result_hold_timeout w k =
      let past_ms = elapsed w.millis k.presentation.finish_result_hold_until_ms in
      if not k.presentation.finish_result_hold_active
      then k
      else if leb (2 ^ 31) past_ms
      then k
      else refresh_idle_screen spiffs w
          (record k { presentation = record k.presentation { finish_result_hold_active = false } })

  -- The timeout of QUANTITY_INPUT warns once, and then leaves the screen.
  unfoldable pub warn_quantity : World → KioskRuntime spiffs → KioskRuntime spiffs
  unfolding refresh_idle_screen render_current_business_state
  warn_quantity w k =
      if k.quantity.qty_timeout_warned
      then refresh_idle_screen spiffs w k
      else render_current_business_state spiffs w enter_quantity false false
          (record k { quantity = record k.quantity { qty_timeout_warned = true } })

  unfoldable pub check_ui_timeout : World → KioskRuntime spiffs → KioskRuntime spiffs
  unfolding ui_timeout_ms_for_state ui_state_should_timeout warn_quantity send_business_event
  check_ui_timeout w k =
      let state = current_state spiffs k in
      let k' = record k { last_activity_ms = w.millis } in
      if not (accepts_keys spiffs w k)
      then k
      else if high_priority_busy k.network
      then k
      else if ui_timeout_ms_for_state state == 0
      then k
      else if not (ui_state_should_timeout state (elapsed w.millis k.last_activity_ms))
      then k
      else if state_eq state wait_operation
      then send_business_event spiffs w cancel_requested [] no_quantities k'
      else if state_eq state quantity_input
      then warn_quantity w k'
      else k

  unfoldable pub check_replay_fallback : World → KioskRuntime spiffs → KioskRuntime spiffs
  unfolding start_offline_replay_if_needed
  check_replay_fallback w k =
      if leb replay_fallback_check_interval_ms
        (elapsed w.millis k.replay.last_replay_fallback_check_ms)
      then start_offline_replay_if_needed spiffs
          (record k { replay = record k.replay { last_replay_fallback_check_ms = w.millis } })
      else k

  -- Neither the error view nor a held result owns the screen.
  abbrev pub is_screen_free : KioskRuntime spiffs → Bool
  is_screen_free k =
      not k.presentation.showing_error_view && not k.presentation.finish_result_hold_active

  abbrev pub offline_queue_size : KioskRuntime spiffs → ℕ
  offline_queue_size k = let c = counts k.journal.index in (c.pending + c.in_flight) % 2 ^ 32

  unfoldable pub show_queue_size : World → KioskRuntime spiffs → KioskRuntime spiffs
  unfolding refresh_idle_screen counts
  show_queue_size w k =
      let size = offline_queue_size k in
      let k' = record k {
        presentation = record k.presentation { last_rendered_offline_queue = size };
      } in
      if size == k.presentation.last_rendered_offline_queue
      then k
      else if is_screen_free k
      then refresh_idle_screen spiffs w k'
      else k'

  -- A new minute is drawn on the idle screen only.
  unfoldable pub show_clock : World → KioskRuntime spiffs → KioskRuntime spiffs
  unfolding refresh_idle_screen bytes_eq
  show_clock w k =
      let k' = record k {
        presentation = record k.presentation { last_rendered_clock_text = w.local_hhmm };
      } in
      let idle_screen =
        k.state_projection.has_snapshot && state_eq (current_state spiffs k) wait_employee in
      if bytes_eq w.local_hhmm k.presentation.last_rendered_clock_text
      then k
      else if idle_screen && is_screen_free k
      then refresh_idle_screen spiffs w k'
      else k'

  unfoldable pub log_network_state : KioskRuntime spiffs → KioskRuntime spiffs
  unfolding network_state
  log_network_state k = record k {
    evidence = record k.evidence { last_logged_network_state = network_state k };
  }

  abbrev pub check_timeouts : World → KioskRuntime spiffs → KioskRuntime spiffs
  check_timeouts w k =
      check_ui_timeout w (check_finish_result_hold_timeout w (check_error_view_timeout w k))

  unfoldable pub poll : World → KioskRuntime spiffs → KioskRuntime spiffs
  unfolding poll_network check_error_view_timeout check_finish_result_hold_timeout check_ui_timeout
      check_replay_fallback check_offline_replay show_queue_size show_clock log_network_state
  poll w k =
      let k₁ = check_timeouts w (poll_network w k) in
      let k₂ = check_offline_replay spiffs w (check_replay_fallback w k₁) in
      log_network_state (show_clock w (show_queue_size w k₂))

  unfoldable pub take_bootstrap_result :
      KioskRuntime spiffs → Option NetworkResult × KioskRuntime spiffs
  take_bootstrap_result k = (k.bootstrap_result, record k { bootstrap_result = none })

  unfoldable pub take_ui_bundle_fetch_result :
      KioskRuntime spiffs → Option NetworkResult × KioskRuntime spiffs
  take_ui_bundle_fetch_result k =
      (k.ui_bundle_fetch_result, record k { ui_bundle_fetch_result = none })
