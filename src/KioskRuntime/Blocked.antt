-- ===== src/KioskRuntime/Blocked.antt =====
-- A kiosk in safe mode, at the wrong server or without an active identity. About the guards of the
-- handlers of firmware/kiosk_runtime_v2/src/runtime/kiosk_runtime.cpp.
use mesflow_kiosk_runtime_v.Prelude.{
  ℕ, ◌≡◌, refl, ap, ◌∙◌, Bool, true, false, not, ◌||◌, List, ◌∷◌, ◌==◌, if◌then◌else◌, arith,
  Bool-cases, branch_true, branch_false, inl, inr,
}
use mesflow_kiosk_runtime_v.WifiRecovery.{
  LocalEvent, LocalEventKind, scan, key_down, key_up, keypad_raw, wifi_state, wifi_recovery_state,
}
use mesflow_kiosk_runtime_v.EventJournal.{EventJournal}
use mesflow_kiosk_runtime_v.EventJournal.SpiffsFile.{Spiffs}
use mesflow_kiosk_runtime_v.NetworkWorker.{NetworkWorker}
use mesflow_kiosk_runtime_v.KioskRuntime.{
  World, KioskRuntime, Notice, Screen, safe_mode_screen, server_mismatch_screen, identity_screen,
  is_active, choose_screen, render_current_business_state, refresh_idle_screen,
}
use mesflow_kiosk_runtime_v.KioskRuntime.Keys.{accepts_keys, handle_business_key, handle_scan}
use mesflow_kiosk_runtime_v.KioskRuntime.Input.{handle_wifi_state, handle_local_event, note_key}
use mesflow_kiosk_runtime_v.KioskRuntime.Poll.{check_ui_timeout}

module _ (spiffs : Spiffs) where
  abbrev pub is_blocked : World → KioskRuntime spiffs → Bool
  is_blocked w k = w.is_safe_mode || (k.server.env_mismatch || not (is_active w.identity_state))

  -- The screen that says why.
  abbrev pub blocked_screen : World → KioskRuntime spiffs → Screen
  blocked_screen w k =
      if w.is_safe_mode
      then safe_mode_screen
      else if k.server.env_mismatch
      then server_mismatch_screen k.server.env_mismatch_expected k.server.server_environment
      else identity_screen w.identity_state k.hardware_id

  -- What an event could be written to or sent with.
  abbrev pub outbox : KioskRuntime spiffs → EventJournal spiffs × NetworkWorker
  outbox k = (k.journal, k.network)

  outbox-branch :
      (b : Bool) (k k' : KioskRuntime spiffs) (x : EventJournal spiffs × NetworkWorker)
      → outbox k ≡ x
      → outbox k' ≡ x
      → outbox (if b then k else k') ≡ x
  outbox-branch true k k' x e e' = e
  outbox-branch false k k' x e e' = e'

  blocked_keys :
      (w : World) (k : KioskRuntime spiffs)
      → is_blocked w k ≡ true
      → accepts_keys spiffs w k ≡ false
  blocked_keys w k blocked = ground arith

  blocked_key :
      (w : World) (key : ℕ) (k : KioskRuntime spiffs)
      → is_blocked w k ≡ true
      → handle_business_key spiffs w key k ≡ k
  unfolding handle_business_key
  blocked_key w key k blocked =
      branch_true (not (accepts_keys spiffs w k)) _ _ (ap not (blocked_keys w k blocked))

  blocked_scan :
      (w : World) (raw : List ℕ) (k : KioskRuntime spiffs)
      → is_blocked w k ≡ true
      → outbox (handle_scan spiffs w raw k) ≡ outbox k
  unfolding handle_scan
  blocked_scan w raw k blocked = elim (Bool-cases (w.is_safe_mode || k.server.env_mismatch)) [
    | inl e ↦ ap outbox (branch_true (w.is_safe_mode || k.server.env_mismatch) _ _ e)
    | inr e ↦ ap outbox (
        branch_false (w.is_safe_mode || k.server.env_mismatch) _ _ e
        ∙ branch_true (not (is_active w.identity_state)) _ _ (ground arith))
  ]

  blocked_kind :
      (kind : LocalEventKind) (w : World) (e : LocalEvent) (k : KioskRuntime spiffs)
      → is_blocked w k ≡ true
      → outbox (handle_local_event spiffs w (record e { kind = kind }) k) ≡ outbox k
  unfolding handle_local_event handle_wifi_state refresh_idle_screen render_current_business_state
  blocked_kind scan w e k blocked = blocked_scan w e.text k blocked
  blocked_kind keypad_raw w e k blocked = refl
  blocked_kind key_down w e k blocked =
      outbox-branch (e.key == b'*' || w.recovery_overlay_active) _ _ (outbox k) refl
        (ap outbox (blocked_key w e.key (note_key spiffs e.key k) blocked))
  blocked_kind key_up w e k blocked = refl
  blocked_kind wifi_state w e k blocked =
      outbox-branch k.evidence.scan_pending_result _ _ (outbox k) refl refl
  blocked_kind wifi_recovery_state w e k blocked = refl

  blocked_choice :
      (w : World) (text : Notice) (is_error is_network_error : Bool) (k : KioskRuntime spiffs)
      → is_blocked w k ≡ true
      → choose_screen spiffs w text is_error is_network_error k ≡ (false, blocked_screen w k)
  unfolding choose_screen
  blocked_choice w text is_error is_network_error k blocked = ground arith

  blocked_drawing :
      (w : World) (text : Notice) (is_error is_network_error : Bool) (k : KioskRuntime spiffs)
      → is_blocked w k ≡ true
      → (render_current_business_state spiffs w text is_error is_network_error k).presentation.drawn
        ≡ blocked_screen w k ∷ k.presentation.drawn
  unfolding render_current_business_state
  blocked_drawing w text is_error is_network_error k blocked =
      ap (λ (c : Bool × Screen). c.1 ∷ k.presentation.drawn)
        (blocked_choice w text is_error is_network_error k blocked)

  blocked_timeout :
      (w : World) (k : KioskRuntime spiffs)
      → is_blocked w k ≡ true
      → check_ui_timeout spiffs w k ≡ k
  unfolding check_ui_timeout
  blocked_timeout w k blocked =
      branch_true (not (accepts_keys spiffs w k)) _ _ (ap not (blocked_keys w k blocked))

  -- While the device is in safe mode, at a server of the wrong environment or without an active
  -- identity, no local event and no timeout of a screen changes the journal or gives the worker a
  -- request, and `render_current_business_state` draws the screen that says why it is blocked, the
  -- safe mode first.
  pub handle_local_event-blocked :
      (w : World) (k : KioskRuntime spiffs)
      → is_blocked w k ≡ true
      → ((e : LocalEvent) → outbox (handle_local_event spiffs w e k) ≡ outbox k)
        × (check_ui_timeout spiffs w k ≡ k)
        × ((text : Notice) (is_error is_network_error : Bool)
            → (render_current_business_state spiffs w text is_error is_network_error
                k).presentation.drawn
              ≡ blocked_screen w k ∷ k.presentation.drawn)
  handle_local_event-blocked w k blocked = (
    λ e. blocked_kind e.kind w e k blocked,
    blocked_timeout w k blocked,
    λ text is_error is_network_error. blocked_drawing w text is_error is_network_error k blocked,
  )
