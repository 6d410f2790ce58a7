-- ===== src/KioskRuntime/Durability/Polls.antt =====
-- The rounds of `poll` of firmware/kiosk_runtime_v2/src/runtime/kiosk_runtime.cpp.
use mesflow_kiosk_runtime_v.Prelude.{◌^◌, true, false, not, ◌&&◌, [], leb, ltb, ◌==◌, bytes_eq}
use mesflow_kiosk_runtime_v.EventTypes.{cancel_requested}
use mesflow_kiosk_runtime_v.StateProjection.{
  wait_operation, wait_employee, quantity_input, state_eq,
}
use mesflow_kiosk_runtime_v.EventJournal.SpiffsFile.{Spiffs}
use mesflow_kiosk_runtime_v.Policies.Timeouts.{ui_timeout_ms_for_state, ui_state_should_timeout}
use mesflow_kiosk_runtime_v.NetworkWorker.{high_priority_busy}
use mesflow_kiosk_runtime_v.KioskRuntime.{
  World, KioskRuntime, enter_quantity, elapsed, current_state,
}
use mesflow_kiosk_runtime_v.KioskRuntime.Send.{end_hold}
use mesflow_kiosk_runtime_v.KioskRuntime.Keys.{no_quantities, accepts_keys}
use mesflow_kiosk_runtime_v.KioskRuntime.Poll.{
  error_view_timeout_ms, check_error_view_timeout, check_finish_result_hold_timeout, warn_quantity,
  check_ui_timeout, replay_fallback_check_interval_ms, check_replay_fallback, is_screen_free,
  offline_queue_size, show_queue_size, show_clock, log_network_state, poll,
}
use mesflow_kiosk_runtime_v.KioskRuntime.Durability.{IsDurable, render-IsDurable, branch-IsDurable}
use mesflow_kiosk_runtime_v.KioskRuntime.Durability.Handlers.{send_business_event-IsDurable}
use mesflow_kiosk_runtime_v.KioskRuntime.Durability.Inputs.{refresh-IsDurable}
use mesflow_kiosk_runtime_v.KioskRuntime.Durability.Replays.{
  start_offline_replay-IsDurable, check_offline_replay-IsDurable, poll_network-IsDurable,
}

module _ (spiffs : Spiffs) where
  check_error_view-IsDurable :
      (w : World) (k : KioskRuntime spiffs)
      → IsDurable spiffs k
      → IsDurable spiffs (check_error_view_timeout spiffs w k)
  unfolding check_error_view_timeout
  check_error_view-IsDurable w k d =
      branch-IsDurable spiffs (not k.presentation.showing_error_view) _ _ d (
        branch-IsDurable spiffs
          (ltb (elapsed w.millis k.presentation.error_view_shown_at_ms) error_view_timeout_ms) _ _ d
          (refresh-IsDurable spiffs w k d))

  check_hold-IsDurable :
      (w : World) (k : KioskRuntime spiffs)
      → IsDurable spiffs k
      → IsDurable spiffs (check_finish_result_hold_timeout spiffs w k)
  unfolding check_finish_result_hold_timeout
  check_hold-IsDurable w k d =
      let past_ms = elapsed w.millis k.presentation.finish_result_hold_until_ms in
      branch-IsDurable spiffs (not k.presentation.finish_result_hold_active) _ _ d (
        branch-IsDurable spiffs (leb (2 ^ 31) past_ms) _ _ d
          (refresh-IsDurable spiffs w (end_hold spiffs k) (record { all_backed = d.all_backed })))

  warn_quantity-IsDurable :
      (w : World) (k : KioskRuntime spiffs)
      → IsDurable spiffs k
      → IsDurable spiffs (warn_quantity spiffs w k)
  unfolding warn_quantity
  warn_quantity-IsDurable w k d =
      branch-IsDurable spiffs k.quantity.qty_timeout_warned _ _ (refresh-IsDurable spiffs w k d) (
        render-IsDurable spiffs w enter_quantity false false
          (record k { quantity = record k.quantity { qty_timeout_warned = true } })
          (record { all_backed = d.all_backed }))

  check_ui_timeout-IsDurable :
      (w : World) (k : KioskRuntime spiffs)
      → IsDurable spiffs k
      → IsDurable spiffs (check_ui_timeout spiffs w k)
  unfolding check_ui_timeout
  check_ui_timeout-IsDurable w k d =
      let state = current_state spiffs k in
      let k' = record k { last_activity_ms = w.millis } in
      let d' : IsDurable spiffs k' = record { all_backed = d.all_backed } in
      branch-IsDurable spiffs (not (accepts_keys spiffs w k)) _ _ d (
        branch-IsDurable spiffs (high_priority_busy k.network) _ _ d (
          branch-IsDurable spiffs (ui_timeout_ms_for_state state == 0) _ _ d (
            branch-IsDurable spiffs
              (not (ui_state_should_timeout state (elapsed w.millis k.last_activity_ms))) _ _ d
              (branch-IsDurable spiffs (state_eq state wait_operation) _ _
                (send_business_event-IsDurable spiffs w cancel_requested [] no_quantities k' d')
                (branch-IsDurable spiffs (state_eq state quantity_input) _ _
                  (warn_quantity-IsDurable w k' d') d)))))

  check_replay_fallback-IsDurable :
      (w : World) (k : KioskRuntime spiffs)
      → IsDurable spiffs k
      → IsDurable spiffs (check_replay_fallback spiffs w k)
  unfolding check_replay_fallback
  check_replay_fallback-IsDurable w k d =
      branch-IsDurable spiffs
        (leb replay_fallback_check_interval_ms
          (elapsed w.millis k.replay.last_replay_fallback_check_ms))
        _ _
        (start_offline_replay-IsDurable spiffs
          (record k { replay = record k.replay { last_replay_fallback_check_ms = w.millis } })
          (record { all_backed = d.all_backed }))
        d

  show_queue_size-IsDurable :
      (w : World) (k : KioskRuntime spiffs)
      → IsDurable spiffs k
      → IsDurable spiffs (show_queue_size spiffs w k)
  unfolding show_queue_size
  show_queue_size-IsDurable w k d =
      let size = offline_queue_size spiffs k in
      let k' = record k {
        presentation = record k.presentation { last_rendered_offline_queue = size };
      } in
      let d' : IsDurable spiffs k' = record { all_backed = d.all_backed } in
      branch-IsDurable spiffs (size == k.presentation.last_rendered_offline_queue) _ _ d (
        branch-IsDurable spiffs (is_screen_free spiffs k) _ _ (refresh-IsDurable spiffs w k' d') d')

  show_clock-IsDurable :
      (w : World) (k : KioskRuntime spiffs)
      → IsDurable spiffs k
      → IsDurable spiffs (show_clock spiffs w k)
  unfolding show_clock
  show_clock-IsDurable w k d =
      let k' = record k {
        presentation = record k.presentation { last_rendered_clock_text = w.local_hhmm };
      } in
      let d' : IsDurable spiffs k' = record { all_backed = d.all_backed } in
      let idle_screen =
        k.state_projection.has_snapshot && state_eq (current_state spiffs k) wait_employee in
      branch-IsDurable spiffs (bytes_eq w.local_hhmm k.presentation.last_rendered_clock_text) _ _ d
        (branch-IsDurable spiffs (idle_screen && is_screen_free spiffs k) _ _
          (refresh-IsDurable spiffs w k' d') d')

  log-IsDurable :
      (k : KioskRuntime spiffs) → IsDurable spiffs k → IsDurable spiffs (log_network_state spiffs k)
  unfolding log_network_state
  log-IsDurable k d = record { all_backed = d.all_backed }

  pub poll-IsDurable :
      (w : World) (k : KioskRuntime spiffs)
      → IsDurable spiffs k
      → IsDurable spiffs (poll spiffs w k)
  unfolding poll
  poll-IsDurable w k d = log-IsDurable _ (
      show_clock-IsDurable w _ (
        show_queue_size-IsDurable w _ (
          check_offline_replay-IsDurable spiffs w _ (
            check_replay_fallback-IsDurable w _ (
              check_ui_timeout-IsDurable w _ (
                check_hold-IsDurable w _
                  (check_error_view-IsDurable w _ (poll_network-IsDurable spiffs w k d))))))))
