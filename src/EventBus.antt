-- ===== src/EventBus.antt =====
-- firmware/kiosk_runtime_v2/src/runtime/event_bus.{h,cpp}, and its two subscribers, in the order in
-- which kiosk_runtime_v2.ino starts them: the runtime, and then the recovery controller, whose
-- callbacks are calls of the runtime.
pub mod Business
pub mod Overlay
use mesflow_kiosk_runtime_v.Prelude.{ℕ, Bool, List, [], ◌∷◌, ◌++◌}
use mesflow_kiosk_runtime_v.WifiRecovery.{
  LocalEvent, WifiSetupPortal, WifiRecoveryController, Effect, draw_recovery_menu,
  draw_waiting_screen, draw_portal_active, draw_portal_testing, draw_portal_failed,
  draw_wifi_hold_progress, retry_network, resync, return_to_state, show_device_info, restart, tick,
}
use mesflow_kiosk_runtime_v.EventJournal.SpiffsFile.{Spiffs}
use mesflow_kiosk_runtime_v.KioskRuntime.{World, KioskRuntime, refresh_idle_screen}
use mesflow_kiosk_runtime_v.KioskRuntime.Resync.{request_manual_resync}
use mesflow_kiosk_runtime_v.KioskRuntime.Input.{handle_local_event}
use mesflow_kiosk_runtime_v.WifiRecovery as Recovery

abbrev pub Subscriber {ℓ} : Type ℓ → Type ℓ
Subscriber S = LocalEvent → S → S

module _ {ℓ} {S : Type ℓ} where
  unfoldable pub subscribe : Subscriber S → List (Subscriber S) → List (Subscriber S)
  subscribe subscriber subscribers = subscribers ++ subscriber ∷ []

  unfoldable pub publish : List (Subscriber S) → LocalEvent → S → S
  publish [] event s = s
  publish (subscriber ∷ rest) event s = publish rest event (subscriber event s)

module _ (spiffs : Spiffs) (portal : WifiSetupPortal) where
  pub record KioskDevice : Type 0 where
    pub runtime : KioskRuntime spiffs
    pub recovery : WifiRecoveryController portal

  -- The runtime asks the flag of runtime/recovery_overlay.cpp, which the controller sets.
  abbrev pub runtime_subscriber : World → LocalEvent → KioskDevice → KioskDevice
  runtime_subscriber w e d = record d {
    runtime =
        handle_local_event spiffs (record w { recovery_overlay_active = d.recovery.overlay_active })
          e d.runtime;
  }

  -- The callbacks that reach the runtime.
  unfoldable pub call_back : World → Effect → KioskRuntime spiffs → KioskRuntime spiffs
  unfolding request_manual_resync refresh_idle_screen
  call_back w resync k = request_manual_resync spiffs w k
  call_back w return_to_state k = refresh_idle_screen spiffs w k
  call_back w _ k = k

  unfoldable pub call_all : World → List Effect → KioskRuntime spiffs → KioskRuntime spiffs
  unfolding call_back
  call_all w [] k = k
  call_all w (effect ∷ effects) k = call_all w effects (call_back w effect k)

  -- The controller's handler; what it calls does not ask for the flag.
  abbrev pub recovery_subscriber : World → LocalEvent → KioskDevice → KioskDevice
  recovery_subscriber w e d =
      let c = Recovery.handle_local_event portal e (record d.recovery { effects = [] }) in
      record { recovery = c; runtime = call_all w c.effects d.runtime }

  unfoldable pub publish_event : World → LocalEvent → KioskDevice → KioskDevice
  unfolding publish subscribe
  publish_event w e d =
      let bus = subscribe (recovery_subscriber w) (subscribe (runtime_subscriber w) []) in
      publish bus e d

  abbrev pub tick_device : ℕ → KioskDevice → KioskDevice
  tick_device millis d = record d { recovery = tick portal millis d.recovery }
