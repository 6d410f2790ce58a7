-- ===== src/UiBundle/Staged.antt =====
-- firmware/kiosk_runtime_v2/src/storage/ui_bundle_store.cpp: a bundle that `stage` took.
use mesflow_kiosk_runtime_v.Prelude.{
  ℕ, ◌≡◌, refl, sym, ap, ◌∙◌, subst, true, not, ◌&&◌, ◌||◌, List, is_empty, ltb, arith, bytes_eq,
}
use mesflow_kiosk_runtime_v.UiBundle.{parse_ui_bundle_json}
use mesflow_kiosk_runtime_v.UiBundle.Store.{
  UiStorage, UiBundleStore, staged, hash_mismatch, parse_failed, schema_unsupported, storage_failed,
  target_of, write_slot, store_staged, stage, c_str, to_lower, sha256_hex, ui_schema_supported_min,
  ui_schema_supported_max,
}
use mesflow_kiosk_runtime_v.UiBundle.Selected.{KeepsOthers}
use mesflow_kiosk_runtime_v.UiBundle.Written.{KeepsWritten, Holds, passed, slot_done}

module _ (storage : UiStorage) where
  -- What `stage` has done when it reports STAGED.
  pub record IsStaged (bytes : List ℕ) (version : ℕ) (s s' : UiBundleStore storage) : Type 0 where
    pub is_there : s'.has_staged ≡ true
    pub slot_is : s'.staged_slot ≡ target_of s.active_slot
    pub holds :
        Holds storage
          (target_of s.active_slot)
          bytes
          version
          (sha256_hex storage bytes)
          (parse_ui_bundle_json bytes).1.manifest.schema_version
          s'.flash

module _ (storage : UiStorage) (laws : KeepsOthers storage) (keeps : KeepsWritten storage) where
  store_staged_done :
      (bytes : List ℕ) (version : ℕ) (s : UiBundleStore storage)
      → let schema_version = (parse_ui_bundle_json bytes).1.manifest.schema_version in
        (store_staged storage bytes version schema_version s).0 ≡ staged
        → IsStaged storage bytes version s (store_staged storage bytes version schema_version s).1
  unfolding store_staged
  store_staged_done bytes version s done =
      let c = target_of s.active_slot in
      let hash = sha256_hex storage bytes in
      let schema_version = (parse_ui_bundle_json bytes).1.manifest.schema_version in
      let r = write_slot storage c bytes version hash schema_version s.flash in
      let (a, e) = passed (not r.0) storage_failed staged _ _ (λ h. cc) done in
      subst (λ t. IsStaged storage bytes version s t.1) (sym e)
        (record {
          is_there = refl;
          slot_is = refl;
          holds =
              slot_done storage laws keeps c version schema_version bytes hash s.flash
                (ground arith);
        })

  pub stage_done :
      (bytes : List ℕ) (version : ℕ) (expected : List ℕ) (s : UiBundleStore storage)
      → (stage storage bytes version expected s).0 ≡ staged
      → ((parse_ui_bundle_json bytes).0 ≡ true)
        × IsStaged storage bytes version s (stage storage bytes version expected s).1
  unfolding stage
  stage_done bytes version expected s done =
      let r = parse_ui_bundle_json bytes in
      let hash_differs =
        not (is_empty expected)
        && not (bytes_eq (to_lower (sha256_hex storage bytes)) (to_lower (c_str expected))) in
      let schema_version = r.1.manifest.schema_version in
      let unsupported =
        ltb schema_version ui_schema_supported_min || ltb ui_schema_supported_max schema_version in
      let (a, e) = passed hash_differs hash_mismatch staged _ _ (λ h. cc) done in
      let done' = ap (λ t. t.0) (sym e) ∙ done in
      let (b, e') = passed (not r.0) parse_failed staged _ _ (λ h. cc) done' in
      let done'' = ap (λ t. t.0) (sym e') ∙ done' in
      let (d, e'') = passed unsupported schema_unsupported staged _ _ (λ h. cc) done'' in
      (
        ground arith,
        subst (λ t. IsStaged storage bytes version s t.1) (sym (e ∙ e' ∙ e''))
            (store_staged_done bytes version s (ap (λ t. t.0) (sym e'') ∙ done'')),
      )
