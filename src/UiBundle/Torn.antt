-- ===== src/UiBundle/Torn.antt =====
-- firmware/kiosk_runtime_v2/src/storage/ui_bundle_store.cpp: an activation of which only the first
-- write is done.
use mesflow_kiosk_runtime_v.Prelude.{
  ℕ, ◌<◌, ◌≡◌, refl, sym, ap, ◌∙◌, subst, Bool, true, false, not, [], ◌∷◌, ltb, arith, branch_true,
  branch_false,
}
use mesflow_kiosk_runtime_v.UiBundle.Store.{
  UiStorage, UiBundleStore, meta_slot, last_good_ver, activate_staged, write_selection, target_of,
}
use mesflow_kiosk_runtime_v.UiBundle.Selected.{KeepsOthers}
use mesflow_kiosk_runtime_v.UiBundle.Boot.{shown}
use mesflow_kiosk_runtime_v.UiBundle.Written.{KeepsWritten}

module _ (storage : UiStorage) where
  -- A result that is false, with a store that shows what it showed and a flash that selects the
  -- other slot.
  pub record IsTorn (s : UiBundleStore storage) (r : Bool × UiBundleStore storage) : Type 0 where
    pub failed : r.0 ≡ false
    pub view : shown storage r.1 ≡ shown storage s
    pub selection : storage.get_string meta_slot r.1.flash ≡ target_of s.active_slot ∷ []

module _ (storage : UiStorage) (laws : KeepsOthers storage) (keeps : KeepsWritten storage) where
  torn_selection :
      (c v : ℕ) (f : storage.Flash)
      → 0 < (storage.put_string meta_slot (c ∷ []) f).0
      → (storage.put_uint last_good_ver v (storage.put_string meta_slot (c ∷ []) f).1).0 ≡ 0
      → ((write_selection storage c v f).0 ≡ false)
        × (storage.get_string meta_slot (write_selection storage c v f).1 ≡ c ∷ [])
  unfolding write_selection
  torn_selection c v f n m =
      let r = storage.put_string meta_slot (c ∷ []) f in
      let r' = storage.put_uint last_good_ver v r.1 in
      let e =
        branch_true {A = Bool × storage.Flash} (ltb 0 r.0) (ltb 0 r'.0, r'.1) (false, r.1)
          (ground arith) in
      (
        ap (λ t. t.0) e ∙ ground arith,
        ap (λ t. storage.get_string meta_slot t.1) e
            ∙ (laws.uint_keys last_good_ver meta_slot v r.1 refl).0
            ∙ keeps.string_written meta_slot (c ∷ []) f n,
      )

  -- When the first write of an activation is done and the second one fails, the result is false and
  -- the store keeps its slot, but the metadata select the staged one, which is the slot that the
  -- next call of `stage` writes.
  pub activate_staged-IsTorn :
      (s : UiBundleStore storage)
      → s.has_staged ≡ true
      → s.staged_slot ≡ target_of s.active_slot
      → 0 < (storage.put_string meta_slot (s.staged_slot ∷ []) s.flash).0
      → (storage.put_uint last_good_ver s.staged_version
          (storage.put_string meta_slot (s.staged_slot ∷ []) s.flash).1).0
        ≡ 0
      → IsTorn storage s (activate_staged storage s)
  unfolding activate_staged
  activate_staged-IsTorn s there slot_is n m =
      let w = write_selection storage s.staged_slot s.staged_version s.flash in
      let (failed, slot) = torn_selection s.staged_slot s.staged_version s.flash n m in
      subst (IsTorn storage s)
        (sym (
          branch_false (not s.has_staged) _ _ (ap not there)
          ∙ branch_true (not w.0) _ _ (ap not failed)))
        (record { failed = refl; view = refl; selection = slot ∙ ap (λ c. c ∷ []) slot_is })
