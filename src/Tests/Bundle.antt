-- ===== src/Tests/Bundle.antt =====
-- The bundle store and the controller at concrete inputs.
use mesflow_kiosk_runtime_v.Prelude.{
  ℕ, ◌≡◌, refl, true, false, none, some, List, [], ◌∷◌, codes, arith,
}
use mesflow_kiosk_runtime_v.JsonExtract.{
  json_has_key, json_extract_string, json_extract_int, json_extract_object,
  json_extract_object_array,
}
use mesflow_kiosk_runtime_v.NetworkWorker.{NetworkResult, ui_bundle_fetch, idle}
use mesflow_kiosk_runtime_v.StateProjection.Parser.{blank_view}
use mesflow_kiosk_runtime_v.UiBundle.Tokens.{resolve_ui_tokens}
use mesflow_kiosk_runtime_v.UiBundle.Store.{
  meta_slot, UiBundleStore, new_store, stage, activate_staged, init, c_str, target_of,
}
use mesflow_kiosk_runtime_v.UiBundle.Boot.{boot}
use mesflow_kiosk_runtime_v.UiBundle.Consistent.{
  Reach, here, next, stage_called, activated, rebooted, IsConsistent, Reach-IsConsistent,
}
use mesflow_kiosk_runtime_v.UiBundle.Torn.{IsTorn, activate_staged-IsTorn}
use mesflow_kiosk_runtime_v.UiBundle.Staging.{Leaves, stage-boot}
use mesflow_kiosk_runtime_v.UiBundle.Activated.{IsActivated}
use mesflow_kiosk_runtime_v.UiBundle.Sync.{UiSyncController, poll}
use mesflow_kiosk_runtime_v.UiBundle.Synced.{poll-IsActivated}
use mesflow_kiosk_runtime_v.Tests.MemoryFlash.{
  MemoryFlash, memory_flash, memory_flash-KeepsOthers, memory_flash-KeepsWritten, full_flash,
  full_flash-KeepsOthers, full_flash-KeepsWritten,
}

abbrev bundle_text : List ℕ
bundle_text =
    codes "{\"manifest\":{\"version\":3,\"schema_version\":1},\"screens\":[{\"id\":\"idle\"}]}"

-- Slot A is selected and holds nothing.
abbrev used_flash : MemoryFlash
used_flash = record {
  files = λ q. none;
  strings = λ j. elim j [ meta_slot ↦ b'A' ∷ [] | _ ↦ [] ];
  uints = λ j. 0;
}

abbrev used_store : UiBundleStore memory_flash
used_store = new_store memory_flash used_flash

stage-boot_example :
    Leaves memory_flash used_store (stage memory_flash bundle_text 3 [] used_store).1
stage-boot_example =
    stage-boot memory_flash memory_flash-KeepsOthers bundle_text 3 [] used_store refl

-- An update, a reboot, and a text that is no bundle.
abbrev first_boot : UiBundleStore memory_flash
first_boot = boot memory_flash used_flash

abbrev with_staged : UiBundleStore memory_flash
with_staged = (stage memory_flash bundle_text 3 [] first_boot).1

abbrev updated : UiBundleStore memory_flash
updated = (activate_staged memory_flash with_staged).1

abbrev rebooted_store : UiBundleStore memory_flash
rebooted_store = boot memory_flash updated.flash

update_done : (activate_staged memory_flash with_staged).0 ≡ true
unfolding stage activate_staged init json_has_key json_extract_string json_extract_int
    json_extract_object json_extract_object_array
update_done = refl

update_shown : rebooted_store.active_version ≡ 3
unfolding stage activate_staged init json_has_key json_extract_string json_extract_int
    json_extract_object json_extract_object_array
update_shown = refl

abbrev update_steps :
    Reach memory_flash first_boot (stage memory_flash (codes "{") 4 [] rebooted_store).1
update_steps =
    next
      (next (next (next here (stage_called bundle_text 3 [] refl)) (activated update_done refl))
        (rebooted refl))
      (stage_called (codes "{") 4 [] refl)

Reach-IsConsistent_example :
    IsConsistent memory_flash (stage memory_flash (codes "{") 4 [] rebooted_store).1
Reach-IsConsistent_example =
    Reach-IsConsistent memory_flash memory_flash-KeepsOthers memory_flash-KeepsWritten used_flash
      (stage memory_flash (codes "{") 4 [] rebooted_store).1 update_steps

-- A bundle is staged in slot B, and the version is not written.
abbrev staged_on_full : UiBundleStore full_flash
staged_on_full = record (new_store full_flash used_flash) {
  has_staged = true;
  staged_slot = b'B';
  staged_version = 3;
}

activate_staged-IsTorn_example :
    IsTorn full_flash staged_on_full (activate_staged full_flash staged_on_full)
unfolding target_of
activate_staged-IsTorn_example =
    activate_staged-IsTorn full_flash full_flash-KeepsOthers full_flash-KeepsWritten staged_on_full
      refl refl (omega arith) refl

abbrev fetched : NetworkResult
fetched = record {
  kind = ui_bundle_fetch;
  outcome = record {
    ok = true;
    http_status = 200;
    error_code = [];
    retryable = false;
    retry_after_s = 0;
  };
  total_latency_ms = 40;
  attempts = 1;
  event_id = [];
  device_seq = 0;
  response_body = bundle_text;
}

abbrev controller : UiSyncController memory_flash
controller = record {
  store = used_store;
  network = idle;
  fetch_result = some fetched;
  download_in_flight = true;
  pending_version = 3;
  last_desired_version = 3;
}

bundle_without_zero : c_str bundle_text ≡ bundle_text
unfolding c_str
bundle_without_zero = refl

controller_takes : (poll memory_flash controller).0 ≡ true
unfolding poll json_has_key json_extract_string json_extract_int json_extract_object
    json_extract_object_array
controller_takes = refl

poll-IsActivated_example :
    IsActivated memory_flash memory_flash-KeepsOthers memory_flash-KeepsWritten
      (target_of b'A')
      bundle_text
      3
      (poll memory_flash controller).1.store
poll-IsActivated_example =
    poll-IsActivated memory_flash memory_flash-KeepsOthers memory_flash-KeepsWritten fetched
      controller refl bundle_without_zero controller_takes

-- A token that is not closed stays as it is, and an unknown name is empty.
tokens_resolved :
    resolve_ui_tokens (codes "a{{local_digit_buffer}}b{{x}}c{{y") blank_view (codes "12")
    ≡ codes "a12bc{{y"
unfolding resolve_ui_tokens
tokens_resolved = refl
