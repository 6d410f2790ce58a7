-- ===== src/WifiRecovery/Screens.antt =====
-- Which of the recovery screens can be open together.
use mesflow_kiosk_runtime_v.Prelude.{ℕ, ◌≡◌, true, false, List, [], ◌∷◌, arith}
use mesflow_kiosk_runtime_v.WifiRecovery.{
  WifiSetupPortal, WifiRecoveryController, LocalEvent, handle_local_event, tick,
}

-- One step of the main loop as the controller sees it.
pub data Input : Type 0 where
  event : LocalEvent → Input
  ticked : ℕ → Input

module _ (portal : WifiSetupPortal) where
  unfoldable pub run : List Input → WifiRecoveryController portal → WifiRecoveryController portal
  unfolding handle_local_event tick
  run [] c = c
  run (event e ∷ rest) c = run rest (handle_local_event portal e c)
  run (ticked millis ∷ rest) c = run rest (tick portal millis c)

  -- While the device info is shown the menu is closed, and no hold of '*' is being timed.
  abbrev pub IsExclusive : WifiRecoveryController portal → Type 0
  IsExclusive c = c.device_info_active ≡ true → (c.menu_active ≡ false) × (c.star_held ≡ false)

  handle-IsExclusive :
      (e : LocalEvent) (c : WifiRecoveryController portal)
      → IsExclusive c
      → IsExclusive (handle_local_event portal e c)
  unfolding handle_local_event
  handle-IsExclusive e c h = ground arith

  tick-IsExclusive :
      (millis : ℕ) (c : WifiRecoveryController portal)
      → IsExclusive c
      → IsExclusive (tick portal millis c)
  unfolding tick
  tick-IsExclusive millis c h = ground arith

  -- Whatever events come and whenever the loop ticks, the menu and the device info are never open
  -- together, and no hold of '*' is timed behind the device info.
  pub run-IsExclusive :
      (inputs : List Input) (c : WifiRecoveryController portal)
      → IsExclusive c
      → IsExclusive (run inputs c)
  unfolding run
  run-IsExclusive [] c h = h
  run-IsExclusive (event e ∷ rest) c h =
      run-IsExclusive rest (handle_local_event portal e c) (handle-IsExclusive e c h)
  run-IsExclusive (ticked millis ∷ rest) c h =
      run-IsExclusive rest (tick portal millis c) (tick-IsExclusive millis c h)
