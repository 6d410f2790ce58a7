-- ===== src/KioskRuntime/Resync.antt =====
-- The fetches of the server's state, and the answer to the bootstrap request, of
-- firmware/kiosk_runtime_v2/src/runtime/kiosk_runtime.cpp.
use mesflow_kiosk_runtime_v.Prelude.{
  ℕ, Bool, true, false, not, ◌&&◌, none, some, List, [], ◌++◌, if◌then◌else◌, is_empty, codes,
}
use mesflow_kiosk_runtime_v.StateProjection.{
  StateSnapshot, ApplyResult, applied, applied_identical, rejected_stale, rejected_inconsistent,
  rejected_unsupported, apply,
}
use mesflow_kiosk_runtime_v.StateProjection.Parser.{parse_state_snapshot_json}
use mesflow_kiosk_runtime_v.Policies.Environment.{
  Environment, unknown, environment_eq, environment_from_server_role,
  environment_from_config_string, derive_sibling_endpoint,
}
use mesflow_kiosk_runtime_v.NetworkWorker.{NetworkResult, enqueue_state_fetch}
use mesflow_kiosk_runtime_v.EventJournal.SpiffsFile.{Spiffs}
use mesflow_kiosk_runtime_v.KioskRuntime.{
  World, KioskRuntime, is_active, resyncing_screen, error_view, rejected_by_server, server_text,
  no_notice, draw, render_current_business_state, refresh_idle_screen,
}

abbrev pub is_applied : ApplyResult → Bool
is_applied applied = true
is_applied applied_identical = true
is_applied rejected_stale = false
is_applied rejected_inconsistent = false
is_applied rejected_unsupported = false

pub data BootstrapStatus : Type 0 where
  not_attempted ok rejected failed : BootstrapStatus

-- The fields of `BootstrapResult` that the runtime reads.
pub record BootstrapResult : Type 0 where
  pub status : BootstrapStatus
  pub has_snapshot : Bool
  pub snapshot : StateSnapshot
  pub server_role : List ℕ
  pub server_version : List ℕ
  pub reject_message : List ℕ

abbrev pub is_genuine_mismatch : Environment → Environment → Bool
is_genuine_mismatch expected actual =
    not (environment_eq expected unknown)
    && (not (environment_eq actual unknown) && not (environment_eq expected actual))

module _ (spiffs : Spiffs) where
  unfoldable pub state_endpoint_url : KioskRuntime spiffs → List ℕ
  unfolding derive_sibling_endpoint
  state_endpoint_url k =
      let base = derive_sibling_endpoint k.api_endpoint (codes "state") in
      if is_empty base then [] else base ++ (codes "?device_id=" ++ k.device_id)

  -- A full queue leaves the runtime resyncing all the same.
  unfoldable pub start_resync : World → KioskRuntime spiffs → KioskRuntime spiffs
  unfolding state_endpoint_url enqueue_state_fetch
  start_resync w k = draw spiffs resyncing_screen (record k {
    resyncing = true;
    network = (enqueue_state_fetch (state_endpoint_url k) w.kiosk_token k.network).1;
  })

  unfoldable pub request_manual_resync : World → KioskRuntime spiffs → KioskRuntime spiffs
  unfolding start_resync
  request_manual_resync w k = if is_active w.identity_state then start_resync w k else k

  unfoldable pub apply_resync : World → StateSnapshot → KioskRuntime spiffs → KioskRuntime spiffs
  unfolding apply render_current_business_state
  apply_resync w snap k =
      let (projection, result) = apply snap k.state_projection in
      let k' = record k { state_projection = projection } in
      if is_applied result
      then render_current_business_state spiffs w no_notice false false (record k' {
        resyncing = false;
        quantity = record k.quantity { local_qty_buffer = [] };
        last_activity_ms = w.millis;
      })
      else k'

  unfoldable pub handle_resync_result :
      World → NetworkResult → KioskRuntime spiffs → KioskRuntime spiffs
  unfolding apply_resync parse_state_snapshot_json
  handle_resync_result w result k =
      if not result.outcome.ok then k else elim (parse_state_snapshot_json result.response_body) [
        | none ↦ k
        | some snap ↦ apply_resync w snap k
      ]

  -- The result is false on a mismatch.
  unfoldable pub apply_server_environment :
      World → BootstrapResult → KioskRuntime spiffs → Bool × KioskRuntime spiffs
  unfolding environment_from_server_role environment_from_config_string
      render_current_business_state
  apply_server_environment w result k =
      let actual = environment_from_server_role result.server_role in
      let expected = environment_from_config_string w.expected_environment in
      let info = record k.server {
        server_environment = actual;
        server_version = result.server_version;
      } in
      if is_genuine_mismatch expected actual
      then (
        false,
        render_current_business_state spiffs w no_notice false false (record k {
          server = record info { env_mismatch = true; env_mismatch_expected = expected };
        }),
      )
      else (
        true,
        record k { server = record info { env_mismatch = false; last_sync_iso = w.iso8601_now } },
      )

  unfoldable pub apply_bootstrap : World → StateSnapshot → KioskRuntime spiffs → KioskRuntime spiffs
  unfolding apply refresh_idle_screen
  apply_bootstrap w snap k =
      let (projection, result) = apply snap k.state_projection in
      let k' = record k { state_projection = projection } in
      if is_applied result
      then refresh_idle_screen spiffs w (record k' { last_activity_ms = w.millis })
      else k'

  unfoldable pub on_bootstrap_result :
      World → BootstrapResult → KioskRuntime spiffs → KioskRuntime spiffs
  unfolding apply_server_environment apply_bootstrap
  on_bootstrap_result w result k =
      let (matches, k') = apply_server_environment w result k in
      let notice =
        if is_empty result.reject_message
        then rejected_by_server
        else server_text result.reject_message in
      elim result.status [
        | rejected ↦ draw spiffs (error_view notice false) k
        | not_attempted ↦ k
        | failed ↦ k
        | ok ↦
            if not matches
            then k'
            else if not result.has_snapshot
            then k'
            else apply_bootstrap w result.snapshot k'
      ]
