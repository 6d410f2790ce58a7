-- ===== src/UiBundle/Synced.antt =====
-- firmware/kiosk_runtime_v2/src/runtime/ui_sync_controller.cpp: what a poll that reports a new
-- bundle has done.
use mesflow_kiosk_runtime_v.Prelude.{
  ℕ, ◌≡◌, refl, sym, ap, ◌∙◌, subst, Bool, true, false, not, ◌||◌, Option, none, some, List, [],
  is_empty, codes,
}
use mesflow_kiosk_runtime_v.JsonExtract.{json_extract_string, json_extract_object}
use mesflow_kiosk_runtime_v.NetworkWorker.{NetworkResult}
use mesflow_kiosk_runtime_v.UiBundle.Store.{
  UiStorage, UiStageResult, staged, hash_mismatch, parse_failed, schema_unsupported, storage_failed,
  stage, activate_staged, c_str, target_of,
}
use mesflow_kiosk_runtime_v.UiBundle.Selected.{KeepsOthers}
use mesflow_kiosk_runtime_v.UiBundle.Written.{KeepsWritten, passed}
use mesflow_kiosk_runtime_v.UiBundle.Activated.{IsActivated, activate_staged-stage}
use mesflow_kiosk_runtime_v.UiBundle.Sync.{
  UiSyncController, is_staged, take_bundle, poll_result_of, poll,
}

staged-of_is_staged : (r : UiStageResult) → not (is_staged r) ≡ false → r ≡ staged
staged-of_is_staged staged e = refl
staged-of_is_staged hash_mismatch e = cc
staged-of_is_staged parse_failed e = cc
staged-of_is_staged schema_unsupported e = cc
staged-of_is_staged storage_failed e = cc

module _ (storage : UiStorage) (laws : KeepsOthers storage) (keeps : KeepsWritten storage) where
  -- The store of a controller that has taken `body` into the other slot.
  abbrev Took : List ℕ → UiSyncController storage → UiSyncController storage → Type 0
  Took body c c' =
      IsActivated storage laws keeps (target_of c.store.active_slot) body c.pending_version c'.store

  take_bundle_done :
      (body : List ℕ) (c : UiSyncController storage)
      → c_str body ≡ body
      → (take_bundle storage body c).0 ≡ true
      → Took body c (take_bundle storage body c).1
  unfolding take_bundle
  take_bundle_done body c whole done =
      let expected =
        json_extract_string (json_extract_object body (codes "manifest")) (codes "sha256") [] in
      let r = stage storage body c.pending_version expected c.store in
      let r' = activate_staged storage r.1 in
      let (a, e) = passed (not (is_staged r.0)) false true _ _ (λ h. cc) done in
      let ok = ap (λ t. t.0) (sym e) ∙ done in
      subst (λ t. Took body c t.1) (sym e)
        (activate_staged-stage storage laws keeps body c.pending_version expected c.store whole
          (staged-of_is_staged r.0 a) ok)

  poll_result_done :
      (r : NetworkResult) (c : UiSyncController storage)
      → c_str r.response_body ≡ r.response_body
      → (poll_result_of storage r c).0 ≡ true
      → Took r.response_body c (poll_result_of storage r c).1
  unfolding poll_result_of
  poll_result_done r c whole done =
      let (a, e) =
        passed (not r.outcome.ok || is_empty r.response_body) false true _ _ (λ h. cc) done in
      subst (λ t. Took r.response_body c t.1) (sym e)
        (take_bundle_done r.response_body c whole (ap (λ t. t.0) (sym e) ∙ done))

  -- When a poll reports a new bundle, the bundle of the result that waited is shown from the slot
  -- that was not in use, with the version that was asked for, and the next boot shows the same; no
  -- byte of the body is 0, and a write that reports success is read back.
  pub poll-IsActivated :
      (r : NetworkResult) (c : UiSyncController storage)
      → c.fetch_result ≡ some r
      → c_str r.response_body ≡ r.response_body
      → (poll storage c).0 ≡ true
      → IsActivated storage laws keeps
          (target_of c.store.active_slot)
          r.response_body
          c.pending_version
          (poll storage c).1.store
  unfolding poll
  poll-IsActivated r c waits whole done =
      let c' = record c { fetch_result = none; download_in_flight = false } in
      let e =
        ap {A = Option NetworkResult}
          (λ o. elim o as (λ _. Bool × UiSyncController storage) [
            | none ↦ (false, c)
            | some result ↦ poll_result_of storage result c'
          ])
          waits in
      subst (λ t. Took r.response_body c t.1) (sym e)
        (poll_result_done r c' whole (ap (λ t. t.0) (sym e) ∙ done))
