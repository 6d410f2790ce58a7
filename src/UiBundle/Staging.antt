-- ===== src/UiBundle/Staging.antt =====
-- firmware/kiosk_runtime_v2/src/storage/ui_bundle_store.cpp: `stage` does not change what the next
-- boot loads.
use mesflow_kiosk_runtime_v.Prelude.{
  ℕ, ◌≡◌, refl, sym, ap, ◌∙◌, Bool, true, false, not, ◌&&◌, ◌||◌, List, if◌then◌else◌, is_empty,
  ltb, bytes_eq, subst, codes,
}
use mesflow_kiosk_runtime_v.UiBundle.{parse_ui_bundle_json}
use mesflow_kiosk_runtime_v.UiBundle.Store.{
  meta_slot, last_good_ver, meta_ver, meta_hash, meta_schema, UiStorage, UiBundleStore,
  UiStageResult, new_store, spiffs_path_for, target_of, stage, store_staged, write_slot, c_str,
  to_lower, sha256_hex, ui_schema_supported_min, ui_schema_supported_max, refuse,
}
use mesflow_kiosk_runtime_v.UiBundle.Selected.{KeepsOthers, SameSlot, write_slot-SameSlot}
use mesflow_kiosk_runtime_v.UiBundle.Boot.{
  Selects, shown, boot, IsSelected, show_selected, boot-shown, show_selected-SameSlot,
}

module _ (storage : UiStorage) where
  -- What a step of the store leaves alone: what is shown, and what the next boot shows.
  pub record Leaves (s s' : UiBundleStore storage) : Type 0 where
    pub view : shown storage s' ≡ shown storage s
    pub reboot : shown storage (boot storage s'.flash) ≡ shown storage (boot storage s.flash)
    pub selected : IsSelected storage s'

  refuse-Leaves :
      (error : List ℕ) (s : UiBundleStore storage)
      → IsSelected storage s
      → Leaves s (refuse storage error s)
  refuse-Leaves error s selected = record { view = refl; reboot = refl; selected = selected }

  Leaves-branch :
      (s : UiBundleStore storage) (b : Bool) (x y : UiStageResult × UiBundleStore storage)
      → Leaves s x.1
      → Leaves s y.1
      → Leaves s (if b then x else y).1
  Leaves-branch s true x y p q = p
  Leaves-branch s false x y p q = q

module _ (storage : UiStorage) (laws : KeepsOthers storage) where
  abbrev pub mounts : (c : ℕ) (f : storage.Flash) → SameSlot storage c f (storage.begin f).1
  mounts c f = record {
    file = laws.mount_files f (spiffs_path_for c);
    ver = laws.mount_keys f (meta_ver c);
    hash = laws.mount_keys f (meta_hash c);
    schema = laws.mount_keys f (meta_schema c);
    slot = laws.mount_keys f meta_slot;
    good = laws.mount_keys f last_good_ver;
  }

  -- A boot shows the selected slot.
  pub boot-selected :
      (c : ℕ) (f : storage.Flash)
      → Selects (storage.get_string meta_slot f) c
      → shown storage (boot storage f)
        ≡ show_selected storage
            (storage.get_string meta_slot f)
            (shown storage (new_store storage f))
            f
  boot-selected c f selects =
      boot-shown storage f
      ∙ ap
          (λ slot.
            show_selected storage slot (shown storage (new_store storage f)) (storage.begin f).1)
          (mounts c f).slot.0
      ∙ show_selected-SameSlot storage c (storage.get_string meta_slot f)
          (shown storage (new_store storage f)) f (storage.begin f).1 selects (mounts c f)

  -- Two states of the flash that agree on the selected slot boot alike.
  pub boot-SameSlot :
      (c : ℕ) (f g : storage.Flash)
      → Selects (storage.get_string meta_slot f) c
      → SameSlot storage c f g
      → shown storage (boot storage g) ≡ shown storage (boot storage f)
  boot-SameSlot c f g selects same =
      boot-selected c g (subst (λ slot. Selects slot c) (sym same.slot.0) selects)
      ∙ ap (λ slot. show_selected storage slot (shown storage (new_store storage g)) g) same.slot.0
      ∙ show_selected-SameSlot storage c (storage.get_string meta_slot f)
          (shown storage (new_store storage f)) f g selects same
      ∙ sym (boot-selected c f selects)

  store_staged-Leaves :
      (raw_json : List ℕ) (version schema_version : ℕ) (s : UiBundleStore storage)
      → IsSelected storage s
      → Leaves storage s (store_staged storage raw_json version schema_version s).1
  unfolding store_staged
  store_staged-Leaves raw_json version schema_version s selected =
      let c = s.active_slot in
      let hash = sha256_hex storage raw_json in
      let r = write_slot storage (target_of c) raw_json version hash schema_version s.flash in
      let same = write_slot-SameSlot storage laws c version schema_version raw_json hash s.flash in
      let again = boot-SameSlot c s.flash r.1 selected same in
      let still = subst (λ slot. Selects slot c) (sym same.slot.0) selected in
      Leaves-branch storage s (not r.0) _ _
        (record { view = refl; reboot = again; selected = still })
        (record { view = refl; reboot = again; selected = still })

  -- While the store's slot is the selected one, `stage` changes neither what is shown nor what the
  -- next boot shows, whatever its result and whichever of its writes fail or are cut off.
  pub stage-boot :
      (raw_json : List ℕ) (version : ℕ) (expected : List ℕ) (s : UiBundleStore storage)
      → IsSelected storage s
      → Leaves storage s (stage storage raw_json version expected s).1
  unfolding stage
  stage-boot raw_json version expected s selected =
      let r = parse_ui_bundle_json raw_json in
      let hash_differs =
        not (is_empty expected)
        && not (bytes_eq (to_lower (sha256_hex storage raw_json)) (to_lower (c_str expected))) in
      let schema_version = r.1.manifest.schema_version in
      let unsupported =
        ltb schema_version ui_schema_supported_min || ltb ui_schema_supported_max schema_version in
      Leaves-branch storage s hash_differs _ _
        (refuse-Leaves storage (codes "HASH_MISMATCH") s selected)
        (Leaves-branch storage s (not r.0) _ _
          (refuse-Leaves storage (codes "PARSE_FAILED") s selected)
          (Leaves-branch storage s unsupported _ _
            (refuse-Leaves storage (codes "SCHEMA_UNSUPPORTED") s selected)
            (store_staged-Leaves raw_json version schema_version s selected)))
