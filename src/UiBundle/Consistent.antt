-- ===== src/UiBundle/Consistent.antt =====
-- firmware/kiosk_runtime_v2/src/storage/ui_bundle_store.cpp: the store in memory and what the flash
-- holds, over any calls and reboots.
use mesflow_kiosk_runtime_v.Prelude.{
  ℕ, ◌≡◌, refl, sym, ap, ◌∙◌, subst, Bool, true, false, not, Option, none, some, List, [], ◌∷◌,
  if◌then◌else◌, is_empty, ltb, arith, branch_true,
}
use mesflow_kiosk_runtime_v.UiBundle.{UiBundle, parse_ui_bundle_json}
use mesflow_kiosk_runtime_v.UiBundle.Store.{
  UiStorage, UiBundleStore, UiSyncState, new_store, meta_slot, last_good_ver, meta_ver, meta_hash,
  meta_schema, stage, activate_staged, write_selection, load_active_from_nvs, init, active, c_str,
}
use mesflow_kiosk_runtime_v.UiBundle.Selected.{KeepsOthers}
use mesflow_kiosk_runtime_v.UiBundle.Boot.{
  Shown, shown, boot, IsSelected, Selects, show_parsed, show_selected, boot-shown,
  load_active_from_nvs-shown, load_active_from_nvs-flash, text_at,
}
use mesflow_kiosk_runtime_v.UiBundle.Staging.{stage-boot, boot-selected, boot-SameSlot, mounts}
use mesflow_kiosk_runtime_v.UiBundle.Written.{KeepsWritten, passed, taken}

-- What a reader of the store gets: a bundle that is not active is not read.
pub record Visible : Type 0 where
  pub bundle : Option UiBundle
  pub version : ℕ
  pub hash : List ℕ
  pub schema_version : ℕ
  pub slot : ℕ

abbrev pub visible : Shown → Visible
visible s = record {
  bundle = if s.has_active then some s.active_bundle else none;
  version = s.active_version;
  hash = s.active_hash;
  schema_version = s.active_schema_version;
  slot = s.active_slot;
}

module _ (storage : UiStorage) where
  -- A call of the store, or a reboot. An activation counts once it has reported success, or when
  -- nothing was staged.
  pub data StoreStep (s t : UiBundleStore storage) : Type 0 where
    stage_called :
        (raw_json : List ℕ) (version : ℕ) (expected : List ℕ)
        → t ≡ (stage storage raw_json version expected s).1
        → StoreStep s t
    activated :
        (activate_staged storage s).0 ≡ true → t ≡ (activate_staged storage s).1 → StoreStep s t
    nothing_staged : s.has_staged ≡ false → t ≡ (activate_staged storage s).1 → StoreStep s t
    sync_state_set : (state : UiSyncState) → t ≡ record s { sync_state = state } → StoreStep s t
    rebooted : t ≡ boot storage s.flash → StoreStep s t

  pub data Reach (s : UiBundleStore storage) : UiBundleStore storage → Type 0 where
    here : Reach s s
    next : {t u : UiBundleStore storage} → Reach s t → StoreStep t u → Reach s u

  -- The store shows what the next boot shows, from the selected slot.
  pub record IsConsistent (s : UiBundleStore storage) : Type 0 where
    pub same : visible (shown storage (boot storage s.flash)) ≡ visible (shown storage s)
    pub is_selected : IsSelected storage s

  visible_parsed :
      (c version schema_version : ℕ) (a b : UiBundle) (empty : Bool) (r : Bool × UiBundle)
      (hash : List ℕ)
      → visible (show_parsed storage c a empty r version hash schema_version)
        ≡ visible (show_parsed storage c b empty r version hash schema_version)
  visible_parsed c version schema_version a b true r hash = refl
  visible_parsed c version schema_version a b false (true, bundle) hash = refl
  visible_parsed c version schema_version a b false (false, bundle) hash = refl

  -- What a load of a selected slot shows does not depend on what was shown before.
  visible_selected :
      (c : ℕ) (rest : List ℕ) (a b : Shown) (f : storage.Flash)
      → visible (show_selected storage (c ∷ rest) a f)
        ≡ visible (show_selected storage (c ∷ rest) b f)
  visible_selected c rest a b f =
      let text = text_at storage c f in
      visible_parsed c (storage.get_uint (meta_ver c) f) (storage.get_uint (meta_schema c) f)
        a.active_bundle b.active_bundle (is_empty text) (parse_ui_bundle_json (c_str text))
        (storage.get_string (meta_hash c) f)

  Selects-show_selected :
      (slot : List ℕ) (s : Shown) (f : storage.Flash)
      → Selects slot (show_selected storage slot s f).active_slot
  Selects-show_selected [] s f = tt
  Selects-show_selected (c ∷ rest) s f = refl

module _ (storage : UiStorage) (laws : KeepsOthers storage) (keeps : KeepsWritten storage) where
  -- A boot shows what the boot after it will show.
  boot-IsConsistent : (f : storage.Flash) → IsConsistent storage (boot storage f)
  unfolding init
  boot-IsConsistent f =
      let g = (storage.begin f).1 in
      let s = boot storage f in
      let slot_is = (mounts storage laws 0 f).slot.0 in
      let fresh = shown storage (new_store storage f) in
      let flash_is = load_active_from_nvs-flash storage (new_store storage g) in
      let selects =
        subst (λ v. Selects (storage.get_string meta_slot g) v.active_slot)
          (sym (boot-shown storage f))
          (Selects-show_selected storage (storage.get_string meta_slot g) fresh g) in
      record {
        same =
            ap (λ h. visible (shown storage (boot storage h))) flash_is
            ∙ ap visible (
                boot-SameSlot storage laws s.active_slot f g
                  (subst (λ l. Selects l s.active_slot) slot_is selects)
                  (mounts storage laws s.active_slot f));
        is_selected =
            subst (λ h. Selects (storage.get_string meta_slot h) s.active_slot) (sym flash_is)
              selects;
      }

  -- A load from a flash with a selection.
  load-IsConsistent :
      (c : ℕ) (t : UiBundleStore storage)
      → storage.get_string meta_slot t.flash ≡ c ∷ []
      → IsConsistent storage (record (load_active_from_nvs storage t) { sync_state = active })
  load-IsConsistent c t slot =
      let h = t.flash in
      let loaded = load_active_from_nvs storage t in
      let flash_is = load_active_from_nvs-flash storage t in
      let fresh = shown storage (new_store storage h) in
      let view =
        load_active_from_nvs-shown storage t
        ∙ ap (λ l. show_selected storage l (shown storage t) h) slot in
      let reboot =
        boot-selected storage laws c h (subst (λ l. Selects l c) (sym slot) refl)
        ∙ ap (λ l. show_selected storage l fresh h) slot in
      record {
        same =
            ap (λ f. visible (shown storage (boot storage f))) flash_is
            ∙ ap visible reboot
            ∙ visible_selected storage c [] fresh (shown storage t) h
            ∙ sym (ap visible view);
        is_selected =
            subst (λ l. Selects l loaded.active_slot)
              (sym (ap (storage.get_string meta_slot) flash_is ∙ slot))
              (sym (ap (λ v. v.active_slot) view));
      }

  selection_written :
      (c v : ℕ) (f : storage.Flash)
      → (write_selection storage c v f).0 ≡ true
      → storage.get_string meta_slot (write_selection storage c v f).1 ≡ c ∷ []
  unfolding write_selection
  selection_written c v f done =
      let r = storage.put_string meta_slot (c ∷ []) f in
      let r' = storage.put_uint last_good_ver v r.1 in
      let (n, e) = taken (ltb 0 r.0) false true r.1 (ltb 0 r'.0, r'.1) (λ h. cc) done in
      ap (λ t. storage.get_string meta_slot t.1) e
      ∙ (laws.uint_keys last_good_ver meta_slot v r.1 refl).0
      ∙ keeps.string_written meta_slot (c ∷ []) f (ground arith)

  activate-IsConsistent :
      (s : UiBundleStore storage)
      → (activate_staged storage s).0 ≡ true
      → IsConsistent storage (activate_staged storage s).1
  unfolding activate_staged
  activate-IsConsistent s done =
      let w = write_selection storage s.staged_slot s.staged_version s.flash in
      let (a, e) = passed (not s.has_staged) false true s _ (λ h. cc) done in
      let done' = ap (λ t. t.0) (sym e) ∙ done in
      let (b, e') = passed (not w.0) false true _ _ (λ h. cc) done' in
      subst (λ t. IsConsistent storage t.1) (sym (e ∙ e'))
        (load-IsConsistent s.staged_slot (record s { flash = w.1; has_staged = false })
          (selection_written s.staged_slot s.staged_version s.flash (ground arith)))

  unstaged-IsConsistent :
      (s : UiBundleStore storage)
      → s.has_staged ≡ false
      → IsConsistent storage s
      → IsConsistent storage (activate_staged storage s).1
  unfolding activate_staged
  unstaged-IsConsistent s e h =
      subst {A = Bool × UiBundleStore storage} (λ t. IsConsistent storage t.1)
        (sym (branch_true (not s.has_staged) _ _ (ap not e))) h

  step-IsConsistent :
      (s t : UiBundleStore storage)
      → StoreStep storage s t
      → IsConsistent storage s
      → IsConsistent storage t
  step-IsConsistent s t (stage_called raw_json version expected e) h =
      let left = stage-boot storage laws raw_json version expected s h.is_selected in
      subst (IsConsistent storage) (sym e) (record {
        same = ap visible (left.reboot) ∙ h.same ∙ sym (ap visible left.view);
        is_selected = left.selected;
      })
  step-IsConsistent s t (activated done e) h =
      subst (IsConsistent storage) (sym e) (activate-IsConsistent s done)
  step-IsConsistent s t (nothing_staged idle e) h =
      subst (IsConsistent storage) (sym e) (unstaged-IsConsistent s idle h)
  step-IsConsistent s t (sync_state_set state e) h =
      subst (IsConsistent storage) (sym e) (record { same = h.same; is_selected = h.is_selected })
  step-IsConsistent s t (rebooted e) h =
      subst (IsConsistent storage) (sym e) (boot-IsConsistent s.flash)

  -- From a boot on, over any calls and reboots with any texts and failing writes of `stage`, but
  -- without an activation that fails, the store shows what the next boot will show, and the slot
  -- that it takes for active is the one that the metadata select.
  pub Reach-IsConsistent :
      (f : storage.Flash) (s : UiBundleStore storage)
      → Reach storage (boot storage f) s
      → IsConsistent storage s
  Reach-IsConsistent f s here = boot-IsConsistent f
  Reach-IsConsistent f s (next {t} r step) = step-IsConsistent t s step (Reach-IsConsistent f t r)
