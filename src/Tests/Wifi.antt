-- ===== src/Tests/Wifi.antt =====
-- The recovery menu at concrete inputs, with a portal that only remembers whether it runs.
use mesflow_kiosk_runtime_v.Prelude.{
  ℕ, ◌+◌, ◌%◌, ◌^◌, ◌≤◌, ◌<◌, ◌≡◌, refl, Bool, true, false, List, [], ◌∷◌, negsuc, arith,
}
use mesflow_kiosk_runtime_v.WifiRecovery.{
  WifiSetupPortal, WifiRecoveryController, connected, key_down, menu_hold_ms, recovery_hold_ms,
  tick,
}
use mesflow_kiosk_runtime_v.WifiRecovery.Screens.{
  Input, event, ticked, run, IsExclusive, run-IsExclusive,
}
use mesflow_kiosk_runtime_v.WifiRecovery.Hold.{tick_all, tick-held, clock, IsMenuAt, hold-IsMenuAt}

abbrev pub portal : WifiSetupPortal
portal = record { State = Bool; active = λ s. s; start = λ s. true; poll = λ s. s }

abbrev pub quiet : WifiRecoveryController portal
quiet = record {
  star_held = false;
  star_down_ms = 0;
  last_shown_seconds = negsuc 0;
  menu_active = false;
  device_info_active = false;
  wifi_indicator = connected;
  overlay_active = false;
  portal_state = false;
  effects = [];
}

abbrev holding_star : WifiRecoveryController portal
holding_star = record quiet { star_held = true; star_down_ms = 4294967000 }

abbrev in_menu : WifiRecoveryController portal
in_menu = record holding_star { menu_active = true; overlay_active = true }

abbrev press : ℕ → ℕ → Input
press key at = event (record { kind = key_down; text = []; key = key; timestamp_ms = at })

abbrev inputs : List Input
inputs = press b'*' 100 ∷ ticked 3200 ∷ ticked 5100 ∷ press b'6' 6000 ∷ press b'*' 7000 ∷ []

run-IsExclusive_example : IsExclusive portal (run portal inputs quiet)
run-IsExclusive_example = run-IsExclusive portal inputs quiet (λ h. cc)

-- Held for five seconds the menu opens, and the last key returns to it from the device info.
back_in_menu : (run portal inputs quiet).menu_active ≡ true
unfolding run
back_in_menu = refl

tick-held_example :
    (7000 < menu_hold_ms
      → ((tick portal ((4294967000 + 7000) % 2 ^ 32) holding_star).menu_active ≡ false)
        × ((tick portal ((4294967000 + 7000) % 2 ^ 32) holding_star).portal_state ≡ false))
    × ((menu_hold_ms ≤ 7000
          → 7000 < recovery_hold_ms
          → ((tick portal ((4294967000 + 7000) % 2 ^ 32) holding_star).menu_active ≡ true)
            × ((tick portal ((4294967000 + 7000) % 2 ^ 32) holding_star).portal_state ≡ false))
        × (recovery_hold_ms ≤ 7000
            → ((tick portal ((4294967000 + 7000) % 2 ^ 32) holding_star).menu_active ≡ false)
              × ((tick portal ((4294967000 + 7000) % 2 ^ 32) holding_star).portal_state ≡ true)))
tick-held_example = tick-held portal 7000 holding_star refl refl refl (omega arith) (omega arith)

-- Held for thirteen seconds, over a wrap of the clock.
hold-IsMenuAt_example :
    IsMenuAt portal 13000 holding_star
      (tick_all portal (clock portal 4294967000 (100 ∷ 4900 ∷ 9100 ∷ 13000 ∷ [])) holding_star)
hold-IsMenuAt_example =
    hold-IsMenuAt portal (100 ∷ 4900 ∷ 9100 ∷ 13000 ∷ []) holding_star refl refl refl (omega arith)
      (omega arith)
