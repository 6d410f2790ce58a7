-- ===== src/KioskRuntime.antt =====
-- firmware/kiosk_runtime_v2/src/runtime/kiosk_runtime.{h,cpp}: the state of the kiosk and the
-- choice of its screen. The handlers are in the children. Log lines are left out, and the clock is
-- read once in each handler.
pub mod Send
pub mod Quantity
pub mod Keys
pub mod Resync
pub mod Input
pub mod Replay
pub mod Response
pub mod Poll
pub mod Steps
pub mod Durability
pub mod Verdict
pub mod Blocked
pub mod Progress
use mesflow_kiosk_runtime_v.Prelude.{
  ℕ, ◌+◌, ◌-◌, ◌%◌, ◌^◌, Bool, true, false, not, ◌&&◌, ◌||◌, Option, none, some, List, [], ◌∷◌,
  if◌then◌else◌, bytes_eq, is_empty, codes, ℤ, negsuc,
}
use mesflow_kiosk_runtime_v.EventTypes.{EventType, TimeSyncStatus}
use mesflow_kiosk_runtime_v.StateProjection.{
  BusinessState, quantity_input, wait_employee, wait_operation, session_active, device_disabled,
  maintenance, unsupported, StateSnapshot, ViewModel, Projection, state_eq,
}
use mesflow_kiosk_runtime_v.SequenceReservation.{Device}
use mesflow_kiosk_runtime_v.WifiRecovery.{WifiIndicator}
use mesflow_kiosk_runtime_v.Policies.Environment.{Environment}
use mesflow_kiosk_runtime_v.Policies.NetworkState.{NetworkState}
use mesflow_kiosk_runtime_v.UiBundle.{UiBundle, UiScreen, find_ui_screen}
use mesflow_kiosk_runtime_v.NetworkWorker.{NetworkWorker, NetworkResult}
use mesflow_kiosk_runtime_v.EventJournal.{EventJournal}
use mesflow_kiosk_runtime_v.EventJournal.SpiffsFile.{Spiffs}

-- security/device_identity.h.
pub data ProvisioningState : Type 0 where
  unprovisioned provisioning active suspended revoked : ProvisioningState

abbrev pub is_active : ProvisioningState → Bool
is_active active = true
is_active _ = false

-- What a handler reads of the rest of the device.
pub record World : Type 0 where
  pub millis : ℕ
  pub is_safe_mode : Bool
  pub identity_state : ProvisioningState
  pub kiosk_token : List ℕ
  pub recovery_overlay_active : Bool
  pub random : ℕ → ℕ
  pub sync_status : TimeSyncStatus
  pub sync_age_s : ℕ
  pub iso8601_now : List ℕ
  pub local_hhmm : List ℕ
  pub active_bundle : Option UiBundle
  pub expected_environment : List ℕ

-- The messages of the sources, and a text that came from the server.
pub data Notice : Type 0 where
  no_notice endpoint_missing journal_full sending saved_for_later rework_exceeds_defect
        enter_quantity wifi_down_notice device_forbidden server_failing connection_failed
        malformed_response unsupported_state rejected_by_server :
      Notice
  server_text : List ℕ → Notice

-- The calls of the renderer, without the Wi-Fi indicator.
pub data Screen : Type 0 where
  safe_mode_screen resyncing_screen waiting_screen : Screen
  server_mismatch_screen : Environment → Environment → Screen
  identity_screen : ProvisioningState → List ℕ → Screen
  finish_result_screen : List ℕ → List ℕ → ℕ → ℕ → ℕ → Screen
  error_view : Notice → Bool → Screen
  quantity_defect_screen : ViewModel → List ℕ → ℕ → Notice → Bool → Screen
  rework_decision_screen : ViewModel → ℕ → ℕ → Notice → Bool → Screen
  quantity_rework_screen : ViewModel → List ℕ → ℕ → Notice → Bool → Screen
  quantity_summary_screen : ViewModel → ℕ → ℕ → ℕ → Notice → Bool → Screen
  bundle_screen : UiScreen → ViewModel → List ℕ → Notice → Bool → Screen
  quantity_input_screen : ViewModel → List ℕ → Notice → Bool → Screen
  business_state_screen : StateSnapshot → Notice → Bool → Screen
  scan_received : List ℕ → Screen
  scan_result : List ℕ → List ℕ → Screen

pub data QtyStep : Type 0 where
  good defect rework_decision rework summary : QtyStep

pub record QuantityFlow : Type 0 where
  pub local_qty_buffer : List ℕ
  pub qty_step : QtyStep
  pub qty_good : ℕ
  pub qty_defect : ℕ
  pub qty_rework : ℕ
  pub qty_timeout_warned : Bool

-- `drawn` has the last screen first.
pub record Presentation : Type 0 where
  pub showing_error_view : Bool
  pub error_view_shown_at_ms : ℕ
  pub finish_result_hold_active : Bool
  pub finish_result_hold_until_ms : ℕ
  pub finish_result_employee_name : List ℕ
  pub finish_result_operation_code : List ℕ
  pub finish_result_good : ℕ
  pub finish_result_defect : ℕ
  pub finish_result_rework : ℕ
  pub last_rendered_offline_queue : ℕ
  pub last_rendered_clock_text : List ℕ
  pub drawn : List Screen

pub record Evidence : Type 0 where
  pub last_scan : List ℕ
  pub last_key : ℕ
  pub has_scanned : Bool
  pub last_backend_ok : Bool
  pub last_http_status : ℕ
  pub last_error_code : List ℕ
  pub last_latency_ms : ℕ
  pub last_retry_count : ℕ
  pub last_event_id : List ℕ
  pub last_event_type : EventType
  pub scan_pending_result : Bool
  pub pending_raw_code : List ℕ
  pub consecutive_tcp_connect_fail : ℕ
  pub consecutive_request_failures : ℕ
  pub last_logged_network_state : NetworkState
  pub last_scan_received_ms : ℕ
  pub last_scan_dispatch_ms : ℕ
  pub last_server_seq : ℤ

pub record ServerInfo : Type 0 where
  pub server_environment : Environment
  pub server_version : List ℕ
  pub last_sync_iso : List ℕ
  pub env_mismatch : Bool
  pub env_mismatch_expected : Environment

pub record ReplayQueue : Type 0 where
  pub replay_event_ids : List (List ℕ)
  pub replay_next : ℕ
  pub replaying : Bool
  pub last_replay_fallback_check_ms : ℕ

-- protocol/state_projection.cpp.
unfoldable pub screen_id_for_business_state : BusinessState → List ℕ
screen_id_for_business_state wait_employee = codes "state_wait_employee"
screen_id_for_business_state wait_operation = codes "state_wait_operation"
screen_id_for_business_state session_active = codes "state_session_active"
screen_id_for_business_state quantity_input = codes "state_quantity_input"
screen_id_for_business_state device_disabled = codes "state_device_disabled"
screen_id_for_business_state maintenance = codes "state_maintenance"
screen_id_for_business_state unsupported = []

-- The screen of the active bundle, if it has one.
unfoldable pub screen_of_bundle : Option UiBundle → List ℕ → Option UiScreen
unfolding find_ui_screen
screen_of_bundle none screen_id = none
screen_of_bundle (some bundle) screen_id = find_ui_screen bundle.screens screen_id

abbrev pub is_blank : Notice → Bool
is_blank no_notice = true
is_blank (server_text s) = is_empty s
is_blank _ = false

-- Differences of uint32_t.
abbrev pub elapsed : ℕ → ℕ → ℕ
elapsed now before = (now + (2 ^ 32 - before)) % 2 ^ 32

module _ (spiffs : Spiffs) where
  pub record KioskRuntime : Type 0 where
    pub journal : EventJournal spiffs
    pub network : NetworkWorker
    pub state_projection : Projection
    pub device_seq : Option Device
    pub device_id : List ℕ
    pub hardware_id : List ℕ
    pub boot_id : List ℕ
    pub api_endpoint : List ℕ
    pub wifi_indicator : WifiIndicator
    pub resyncing : Bool
    pub last_activity_ms : ℕ
    pub quantity : QuantityFlow
    pub presentation : Presentation
    pub evidence : Evidence
    pub server : ServerInfo
    pub replay : ReplayQueue
    pub bootstrap_result : Option NetworkResult
    pub ui_bundle_fetch_result : Option NetworkResult

  abbrev pub current_state : KioskRuntime → BusinessState
  current_state k = k.state_projection.current.state

  abbrev pub draw : Screen → KioskRuntime → KioskRuntime
  draw s k = record k { presentation = record k.presentation { drawn = s ∷ k.presentation.drawn } }

  -- The end of `render_current_business_state` for a state other than the later quantity steps.
  unfoldable pub plain_screen : World → Notice → Bool → KioskRuntime → Screen
  unfolding screen_id_for_business_state screen_of_bundle
  plain_screen w notice is_error k =
      let snap = k.state_projection.current in
      let screen_id = screen_id_for_business_state snap.state in
      let buffer = k.quantity.local_qty_buffer in
      let built_in =
        if state_eq snap.state quantity_input
        then quantity_input_screen snap.view buffer notice is_error
        else business_state_screen snap notice is_error in
      elim (screen_of_bundle w.active_bundle screen_id) [
        | some screen ↦ bundle_screen screen snap.view buffer notice is_error
        | none ↦ built_in
      ]

  unfoldable pub business_screen : World → Notice → Bool → KioskRuntime → Screen
  unfolding plain_screen
  business_screen w notice is_error k =
      let view = k.state_projection.current.view in
      let q = k.quantity in
      let plain = plain_screen w notice is_error k in
      if not (state_eq (current_state k) quantity_input) then plain else elim q.qty_step [
        | good ↦ plain
        | defect ↦ quantity_defect_screen view q.local_qty_buffer q.qty_good notice is_error
        | rework_decision ↦ rework_decision_screen view q.qty_good q.qty_defect notice is_error
        | rework ↦ quantity_rework_screen view q.local_qty_buffer q.qty_defect notice is_error
        | summary ↦
            quantity_summary_screen view q.qty_good q.qty_defect q.qty_rework notice is_error
      ]

  -- What the error view remembers of when it came up.
  abbrev pub show_error : World → Presentation → Presentation
  show_error w p = record p {
    showing_error_view = true;
    error_view_shown_at_ms = if p.showing_error_view then p.error_view_shown_at_ms else w.millis;
  }

  -- The screen that is drawn, and whether it is the error view.
  unfoldable pub choose_screen : World → Notice → Bool → Bool → KioskRuntime → Bool × Screen
  unfolding business_screen
  choose_screen w notice is_error is_network_error k =
      let p = k.presentation in
      if w.is_safe_mode
      then (false, safe_mode_screen)
      else if k.server.env_mismatch
      then (
        false,
        server_mismatch_screen k.server.env_mismatch_expected k.server.server_environment,
      )
      else if not (is_active w.identity_state)
      then (false, identity_screen w.identity_state k.hardware_id)
      else if k.resyncing
      then (false, resyncing_screen)
      else if not k.state_projection.has_snapshot
      then (false, waiting_screen)
      else if p.finish_result_hold_active && not is_error
      then (
        false,
        finish_result_screen p.finish_result_employee_name p.finish_result_operation_code
            p.finish_result_good p.finish_result_defect p.finish_result_rework,
      )
      else if is_error && not (is_blank notice)
      then (true, error_view notice is_network_error)
      else (false, business_screen w notice is_error k)

  unfoldable pub render_current_business_state :
      World → Notice → Bool → Bool → KioskRuntime → KioskRuntime
  unfolding choose_screen
  render_current_business_state w notice is_error is_network_error k =
      let (is_error_view, screen) = choose_screen w notice is_error is_network_error k in
      let p = k.presentation in
      let shown =
        if is_error_view then show_error w p else record p { showing_error_view = false } in
      record k { presentation = record shown { drawn = screen ∷ p.drawn } }

  unfoldable pub refresh_idle_screen : World → KioskRuntime → KioskRuntime
  unfolding render_current_business_state
  refresh_idle_screen w k = render_current_business_state w no_notice false false k
