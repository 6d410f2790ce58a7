-- ===== src/UiBundle/Activated.antt =====
-- firmware/kiosk_runtime_v2/src/storage/ui_bundle_store.cpp: a bundle that `stage` took and
-- `activate_staged` selected.
use mesflow_kiosk_runtime_v.Prelude.{
  ℕ, ◌≡◌, refl, sym, ap, ◌∙◌, subst, Bool, true, false, not, List, [], ◌∷◌, is_empty, arith,
}
use mesflow_kiosk_runtime_v.UiBundle.{UiBundle, parse_ui_bundle_json, empty_bundle}
use mesflow_kiosk_runtime_v.JsonExtract.{json_extract_object}
use mesflow_kiosk_runtime_v.UiBundle.Store.{
  meta_slot, meta_ver, meta_hash, meta_schema, UiStorage, UiBundleStore, staged, target_of,
  write_selection, stage, activate_staged, c_str, sha256_hex, load_active_from_nvs, active,
  new_store,
}
use mesflow_kiosk_runtime_v.UiBundle.Selected.{KeepsOthers}
use mesflow_kiosk_runtime_v.UiBundle.Boot.{
  Shown, shown, boot, IsSelected, show_slot, show_flash, show_selected, load_active_from_nvs-shown,
  show_parsed, Selects, load_active_from_nvs-flash,
}
use mesflow_kiosk_runtime_v.UiBundle.Staging.{boot-selected}
use mesflow_kiosk_runtime_v.UiBundle.Written.{
  KeepsWritten, Holds, IsInstalled, passed, selection_done,
}
use mesflow_kiosk_runtime_v.UiBundle.Staged.{IsStaged, stage_done}

parse_nothing : (parse_ui_bundle_json []).0 ≡ false
unfolding parse_ui_bundle_json json_extract_object
parse_nothing = refl

module _ (storage : UiStorage) (laws : KeepsOthers storage) (keeps : KeepsWritten storage) where
  -- What the store shows of a new bundle in slot `c`.
  abbrev pub new_shown : ℕ → List ℕ → ℕ → Shown
  new_shown c bytes version = record {
    has_active = true;
    active_bundle = (parse_ui_bundle_json bytes).1;
    active_version = version;
    active_hash = sha256_hex storage bytes;
    active_schema_version = (parse_ui_bundle_json bytes).1.manifest.schema_version;
    active_slot = c;
  }

  -- A load that shows it, now and at the next boot, from the selected slot.
  pub record IsActivated (c : ℕ) (bytes : List ℕ) (version : ℕ) (s : UiBundleStore storage)
      : Type 0 where
    pub view : shown storage s ≡ new_shown c bytes version
    pub reboot : shown storage (boot storage s.flash) ≡ new_shown c bytes version
    pub is_selected : IsSelected storage s

  not_empty : (bytes : List ℕ) → (parse_ui_bundle_json bytes).0 ≡ true → is_empty bytes ≡ false
  not_empty [] parsed = cc (parsed, parse_nothing)
  not_empty (_ ∷ _) parsed = refl

  show_good :
      (c version schema_version : ℕ) (before : UiBundle) (hash : List ℕ) (r : Bool × UiBundle)
      → r.0 ≡ true
      → show_parsed storage c before false r version hash schema_version ≡ record {
        has_active = true;
        active_bundle = r.1;
        active_version = version;
        active_hash = hash;
        active_schema_version = schema_version;
        active_slot = c;
      }
  show_good c version schema_version before hash (true, bundle) e = refl
  show_good c version schema_version before hash (false, bundle) e = cc

  is_loaded :
      (before : UiBundle) (bytes : List ℕ)
      → c_str bytes ≡ bytes
      → (parse_ui_bundle_json bytes).0 ≡ true
      → (c version : ℕ)
      → show_slot storage c before bytes version
          (sha256_hex storage bytes)
          (parse_ui_bundle_json bytes).1.manifest.schema_version
        ≡ new_shown c bytes version
  is_loaded before bytes whole parsed c version =
      let r = parse_ui_bundle_json bytes in
      let hash = sha256_hex storage bytes in
      let schema_version = r.1.manifest.schema_version in
      ap
        (λ t.
          show_parsed storage c before (is_empty bytes) (parse_ui_bundle_json t) version hash
            schema_version)
        whole
      ∙ ap (λ b. show_parsed storage c before b r version hash schema_version)
          (not_empty bytes parsed)
      ∙ show_good c version schema_version before hash r parsed

  holds_shown :
      (before : UiBundle) (bytes : List ℕ) (c version : ℕ) (f : storage.Flash)
      → c_str bytes ≡ bytes
      → (parse_ui_bundle_json bytes).0 ≡ true
      → Holds storage c bytes version
          (sha256_hex storage bytes)
          (parse_ui_bundle_json bytes).1.manifest.schema_version
          f
      → show_flash storage c before f ≡ new_shown c bytes version
  holds_shown before bytes c version f whole parsed holds =
      let hash = sha256_hex storage bytes in
      ap
        (λ t.
          show_slot storage c before t (storage.get_uint (meta_ver c) f)
            (storage.get_string (meta_hash c) f) (storage.get_uint (meta_schema c) f))
        holds.file
      ∙ ap
          (λ v.
            show_slot storage c before bytes v (storage.get_string (meta_hash c) f)
              (storage.get_uint (meta_schema c) f))
          holds.ver
      ∙ ap (λ v. show_slot storage c before bytes version v (storage.get_uint (meta_schema c) f))
          holds.hash_is
      ∙ ap (show_slot storage c before bytes version hash) holds.schema
      ∙ is_loaded before bytes whole parsed c version

  -- A load from a flash that selects the slot.
  loaded_done :
      (bytes : List ℕ) (c version : ℕ) (t : UiBundleStore storage)
      → c_str bytes ≡ bytes
      → (parse_ui_bundle_json bytes).0 ≡ true
      → IsInstalled storage laws keeps c version
          (parse_ui_bundle_json bytes).1.manifest.schema_version
          bytes
          (sha256_hex storage bytes)
          t.flash
      → IsActivated c bytes version
          (record (load_active_from_nvs storage t) { sync_state = active })
  loaded_done bytes c version t whole parsed (holds, slot) =
      let loaded = load_active_from_nvs storage t in
      let same = load_active_from_nvs-flash storage t in
      let view =
        load_active_from_nvs-shown storage t
        ∙ ap (λ l. show_selected storage l (shown storage t) t.flash) slot
        ∙ holds_shown t.active_bundle bytes c version t.flash whole parsed holds in
      let reboot =
        boot-selected storage laws c t.flash (subst (λ l. Selects l c) (sym slot) refl)
        ∙ ap (λ l. show_selected storage l (shown storage (new_store storage t.flash)) t.flash) slot
        ∙ holds_shown empty_bundle bytes c version t.flash whole parsed holds in
      let at = ap (λ v. v.active_slot) view in
      record {
        view = view;
        reboot = ap (λ f. shown storage (boot storage f)) same ∙ reboot;
        is_selected =
            subst (λ l. Selects l loaded.active_slot)
              (sym (ap (storage.get_string meta_slot) same ∙ slot)) (sym at);
      }

  selection_set :
      (bytes : List ℕ) (version : ℕ) (s s' : UiBundleStore storage)
      → IsStaged storage bytes version s s'
      → (write_selection storage s'.staged_slot s'.staged_version s'.flash).0 ≡ true
      → IsInstalled storage laws keeps
          (target_of s.active_slot)
          version
          (parse_ui_bundle_json bytes).1.manifest.schema_version
          bytes
          (sha256_hex storage bytes)
          (write_selection storage s'.staged_slot s'.staged_version s'.flash).1
  selection_set bytes version s s' done ok =
      let c = target_of s.active_slot in
      let schema_version = (parse_ui_bundle_json bytes).1.manifest.schema_version in
      let hash = sha256_hex storage bytes in
      let select = λ (d : ℕ). write_selection storage d s'.staged_version s'.flash in
      subst (λ d. IsInstalled storage laws keeps c version schema_version bytes hash (select d).1)
        (sym done.slot_is)
        (selection_done storage laws keeps c version schema_version s'.staged_version bytes hash
          s'.flash done.holds (sym (ap (λ d. (select d).0) done.slot_is) ∙ ok))

  activated :
      (bytes : List ℕ) (version : ℕ) (s s' : UiBundleStore storage)
      → c_str bytes ≡ bytes
      → (parse_ui_bundle_json bytes).0 ≡ true
      → IsStaged storage bytes version s s'
      → (activate_staged storage s').0 ≡ true
      → IsActivated (target_of s.active_slot) bytes version (activate_staged storage s').1
  unfolding activate_staged
  activated bytes version s s' whole parsed done ok =
      let c = target_of s.active_slot in
      let w = write_selection storage s'.staged_slot s'.staged_version s'.flash in
      let (a, e) = passed (not s'.has_staged) false true s' _ (λ h. cc) ok in
      let ok' = ap (λ t. t.0) (sym e) ∙ ok in
      let (b, e') = passed (not w.0) false true _ _ (λ h. cc) ok' in
      subst (λ t. IsActivated c bytes version t.1) (sym (e ∙ e'))
        (loaded_done bytes c version (record s' { flash = w.1; has_staged = false }) whole parsed
          (selection_set bytes version s s' done (ground arith)))

  -- The bundle that was staged is shown after its activation, now and at the next boot.
  pub activate_staged-stage :
      (bytes : List ℕ) (version : ℕ) (expected : List ℕ) (s : UiBundleStore storage)
      → c_str bytes ≡ bytes
      → (stage storage bytes version expected s).0 ≡ staged
      → (activate_staged storage (stage storage bytes version expected s).1).0 ≡ true
      → IsActivated
          (target_of s.active_slot)
          bytes
          version
          (activate_staged storage (stage storage bytes version expected s).1).1
  activate_staged-stage bytes version expected s whole is_staged is_active =
      let (parsed, done) = stage_done storage laws keeps bytes version expected s is_staged in
      activated bytes version s (stage storage bytes version expected s).1 whole parsed done
        is_active
