-- ===== src/EventBus/Overlay.antt =====
-- What the keys do while the recovery menu or the device info is open. About the two subscribers of
-- the bus in firmware/kiosk_runtime_v2/kiosk_runtime_v2.ino and the flag of
-- firmware/kiosk_runtime_v2/src/runtime/recovery_overlay.cpp.
use mesflow_kiosk_runtime_v.Prelude.{
  ℕ, ◌≡◌, sym, subst, ◌∙◌, Bool, true, false, ◌||◌, [], bytes_eq, codes, arith,
}
use mesflow_kiosk_runtime_v.EventJournal.SpiffsFile.{Spiffs}
use mesflow_kiosk_runtime_v.WifiRecovery.{
  LocalEvent, wifi_recovery_state, WifiSetupPortal, WifiRecoveryController, tick,
}
use mesflow_kiosk_runtime_v.WifiRecovery as Recovery
use mesflow_kiosk_runtime_v.KioskRuntime.{World}
use mesflow_kiosk_runtime_v.EventBus.{KioskDevice, subscribe, publish, publish_event, tick_device}
use mesflow_kiosk_runtime_v.EventBus.Business.{IsKey, business, business-call_all, business-key}

module _ (portal : WifiSetupPortal) where
  abbrev pub is_menu_open : WifiRecoveryController portal → Bool
  is_menu_open c = c.menu_active || c.device_info_active

  -- The flag that the runtime asks is set.
  abbrev pub IsCovered : WifiRecoveryController portal → Type 0
  IsCovered c = is_menu_open c ≡ true → c.overlay_active ≡ true

  -- The portal's report that it has stopped.
  abbrev pub IsStop : LocalEvent → Type 0
  IsStop e = (e.kind ≡ wifi_recovery_state) × (bytes_eq e.text (codes "INACTIVE") ≡ true)

  -- What holds between two steps: the portal runs behind no menu, and nothing is timed behind the
  -- device info.
  record IsModal (c : WifiRecoveryController portal) : Type 0 where
    covered : IsCovered c
    alone : portal.active c.portal_state ≡ true → is_menu_open c ≡ false
    exclusive : c.device_info_active ≡ true → c.star_held ≡ false

  handle-IsModal :
      (e : LocalEvent) (c : WifiRecoveryController portal)
      → (IsStop e → is_menu_open c ≡ false)
      → IsModal c
      → IsModal (Recovery.handle_local_event portal e c)
  unfolding Recovery.handle_local_event
  handle-IsModal e c timely h =
      let covered = h.covered in
      let alone = h.alone in
      let exclusive = h.exclusive in
      record { covered = ground arith; alone = ground arith; exclusive = ground arith }

  tick-IsModal :
      (millis : ℕ) (c : WifiRecoveryController portal) → IsModal c → IsModal (tick portal millis c)
  unfolding tick
  tick-IsModal millis c h =
      let covered = h.covered in
      let alone = h.alone in
      let exclusive = h.exclusive in
      record { covered = ground arith; alone = ground arith; exclusive = ground arith }

  -- A tick that finds the portal running opens no menu.
  tick-alone :
      (millis : ℕ) (c : WifiRecoveryController portal)
      → portal.active c.portal_state ≡ true
      → is_menu_open (tick portal millis c) ≡ is_menu_open c
  unfolding tick
  tick-alone millis c running = ground arith

module _ (spiffs : Spiffs) (portal : WifiSetupPortal) where
  -- An event that is not the portal's stop, a tick of the controller, or a tick in which a running
  -- portal stops and says so.
  pub data Move (s t : KioskDevice spiffs portal) : Type 0 where
    published :
        (w : World) (e : LocalEvent)
        → (IsStop portal e → ⊥)
        → t ≡ publish_event spiffs portal w e s
        → Move s t
    ticked : (millis : ℕ) → t ≡ tick_device spiffs portal millis s → Move s t
    portal_stopped :
        (w : World) (millis : ℕ) (e : LocalEvent)
        → portal.active s.recovery.portal_state ≡ true
        → t ≡ publish_event spiffs portal w e (tick_device spiffs portal millis s)
        → Move s t

  pub data Reach (s : KioskDevice spiffs portal) : KioskDevice spiffs portal → Type 0 where
    here : Reach s s
    next : {t u : KioskDevice spiffs portal} → Reach s t → Move t u → Reach s u

  publish-IsModal :
      (w : World) (e : LocalEvent) (s : KioskDevice spiffs portal)
      → (IsStop portal e → is_menu_open portal s.recovery ≡ false)
      → IsModal portal s.recovery
      → IsModal portal (publish_event spiffs portal w e s).recovery
  unfolding publish_event publish subscribe
  publish-IsModal w e s timely h =
      handle-IsModal portal e (record s.recovery { effects = [] }) timely
        (record { covered = h.covered; alone = h.alone; exclusive = h.exclusive })

  Move-IsModal :
      (s t : KioskDevice spiffs portal)
      → Move s t
      → IsModal portal s.recovery
      → IsModal portal t.recovery
  Move-IsModal s t (published w e other eq) h =
      subst (λ (d : KioskDevice spiffs portal). IsModal portal d.recovery) (sym eq)
        (publish-IsModal w e s (λ stop. elim (other stop) [ ]) h)
  Move-IsModal s t (ticked millis eq) h =
      subst (λ (d : KioskDevice spiffs portal). IsModal portal d.recovery) (sym eq)
        (tick-IsModal portal millis s.recovery h)
  Move-IsModal s t (portal_stopped w millis e running eq) h =
      subst (λ (d : KioskDevice spiffs portal). IsModal portal d.recovery) (sym eq)
        (publish-IsModal w e (tick_device spiffs portal millis s)
          (λ stop. tick-alone portal millis s.recovery running ∙ h.alone running)
          (tick-IsModal portal millis s.recovery h))

  Reach-IsModal :
      (s t : KioskDevice spiffs portal)
      → Reach s t
      → IsModal portal s.recovery
      → IsModal portal t.recovery
  Reach-IsModal s _ here h = h
  Reach-IsModal s u (next {t} r step) h = Move-IsModal t u step (Reach-IsModal s t r h)

  closed-IsModal :
      (c : WifiRecoveryController portal) → is_menu_open portal c ≡ false → IsModal portal c
  closed-IsModal c closed = record {
    covered = λ opened. ground arith;
    alone = λ running. closed;
    exclusive = λ shown. ground arith;
  }

  -- From a device with no recovery screen open, after any published events and any ticks, a key
  -- pressed or released while the recovery menu or the device info is open changes neither the
  -- journal, the server's state, the sequence, the quantities typed so far nor the events that wait
  -- for the network: it is the recovery controller's alone. The portal says that it has stopped only
  -- in a tick that finds it running.
  pub publish_event-covered :
      (s t : KioskDevice spiffs portal) (w : World) (e : LocalEvent)
      → is_menu_open portal s.recovery ≡ false
      → Reach s t
      → is_menu_open portal t.recovery ≡ true
      → IsKey e.kind
      → business spiffs (publish_event spiffs portal w e t).runtime ≡ business spiffs t.runtime
  unfolding publish_event publish subscribe
  publish_event-covered s t w e closed r opened key =
      let modal = Reach-IsModal s t r (closed-IsModal s.recovery closed) in
      let w' = record w { recovery_overlay_active = t.recovery.overlay_active } in
      business-call_all spiffs portal w _ _
      ∙ business-key spiffs e.kind w' e t.runtime key (modal.covered opened)
