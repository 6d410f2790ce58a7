-- ===== src/UiBundle/Sync.antt =====
-- firmware/kiosk_runtime_v2/src/runtime/ui_sync_controller.{h,cpp}: the download of a bundle that
-- the server wants. Of the runtime it uses the network worker and the result that waits there.
use mesflow_kiosk_runtime_v.Prelude.{
  ℕ, Bool, true, false, not, ◌||◌, Option, none, some, List, [], ◌++◌, if◌then◌else◌, is_empty,
  codes,
}
use mesflow_kiosk_runtime_v.Decimal.{print_unsigned}
use mesflow_kiosk_runtime_v.JsonExtract.{json_extract_string, json_extract_object}
use mesflow_kiosk_runtime_v.Policies.Environment.{derive_sibling_endpoint}
use mesflow_kiosk_runtime_v.NetworkWorker.{NetworkWorker, NetworkResult, enqueue_ui_bundle_fetch}
use mesflow_kiosk_runtime_v.UiBundle.{ui_bundle_needs_sync}
use mesflow_kiosk_runtime_v.UiBundle.Store.{
  UiStorage, UiBundleStore, UiSyncState, update_available, downloading, update_failed,
  UiStageResult, staged, stage, activate_staged, c_str,
}

abbrev pub is_staged : UiStageResult → Bool
is_staged staged = true
is_staged _ = false

module _ (storage : UiStorage) where
  pub record UiSyncController : Type 0 where
    pub store : UiBundleStore storage
    pub network : NetworkWorker
    pub fetch_result : Option NetworkResult
    pub download_in_flight : Bool
    pub pending_version : ℕ
    pub last_desired_version : ℕ

  abbrev pub set_sync_state : UiSyncState → UiSyncController → UiSyncController
  set_sync_state state c = record c { store = record c.store { sync_state = state } }

  unfoldable pub start_download : List ℕ → ℕ → UiSyncController → UiSyncController
  unfolding enqueue_ui_bundle_fetch
  start_download url desired_version c =
      let (started, network) = enqueue_ui_bundle_fetch url c.network in
      record (set_sync_state downloading c) {
        network = network;
        pending_version = desired_version;
        download_in_flight = started;
      }

  unfoldable pub check_desired : List ℕ → ℕ → List ℕ → UiSyncController → UiSyncController
  unfolding ui_bundle_needs_sync derive_sibling_endpoint start_download c_str
  check_desired base_events_url desired_version desired_hash c =
      let c' = record c { last_desired_version = desired_version } in
      let bundle_base = derive_sibling_endpoint base_events_url (codes "ui-bundles") in
      let url = bundle_base ++ (codes "/" ++ print_unsigned desired_version) in
      if c.download_in_flight
      then c'
      else if not (
          ui_bundle_needs_sync c.store.active_version (c_str c.store.active_hash) desired_version
            desired_hash)
      then c'
      else if is_empty bundle_base
      then set_sync_state update_available c'
      else start_download url desired_version (set_sync_state update_available c')

  -- A body that has come.
  unfoldable pub take_bundle : List ℕ → UiSyncController → Bool × UiSyncController
  unfolding stage activate_staged
  take_bundle body c =
      let manifest_json = json_extract_object body (codes "manifest") in
      let expected_hash = json_extract_string manifest_json (codes "sha256") [] in
      let (stage_result, store) = stage storage body c.pending_version expected_hash c.store in
      let (activated, store') = activate_staged storage store in
      if not (is_staged stage_result)
      then (false, record c { store = store })
      else (activated, record c { store = store' })

  unfoldable pub poll_result_of : NetworkResult → UiSyncController → Bool × UiSyncController
  unfolding take_bundle
  poll_result_of result c =
      if not result.outcome.ok || is_empty result.response_body
      then (false, set_sync_state update_failed c)
      else take_bundle result.response_body c

  unfoldable pub poll : UiSyncController → Bool × UiSyncController
  unfolding poll_result_of
  poll c = elim c.fetch_result [
    | none ↦ (false, c)
    | some result ↦
        poll_result_of result (record c { fetch_result = none; download_in_flight = false })
  ]
