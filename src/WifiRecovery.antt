-- ===== src/WifiRecovery.antt =====
-- firmware/kiosk_runtime_v2/src/runtime/wifi_recovery_controller.{h,cpp}, with the flag of
-- runtime/recovery_overlay.cpp: the recovery menu, opened by holding the '*' key. The Wi-Fi portal is
-- a parameter; drawing, the callbacks and the restart are recorded in order. All four callbacks are
-- set, as kiosk_runtime_v2.ino sets them.
pub mod Screens
pub mod Hold
use mesflow_kiosk_runtime_v.Prelude.{
  ℕ, ◌+◌, ◌-◌, ◌/◌, ◌%◌, ◌^◌, Bool, true, false, not, ◌&&◌, ◌||◌, List, [], ◌∷◌, ◌++◌, ltb, leb,
  ◌==◌, if◌then◌else◌, bytes_eq, codes, ℤ, pos, negsuc, int_eq,
}

-- `WifiSetupPortal`, as far as it is used.
pub record WifiSetupPortal : Type 1 where
  pub State : Type 0
  pub active : State → Bool
  pub start : State → State
  pub poll : State → State

pub data LocalEventKind : Type 0 where
  scan keypad_raw key_down key_up wifi_state wifi_recovery_state : LocalEventKind

pub record LocalEvent : Type 0 where
  pub kind : LocalEventKind
  pub text : List ℕ
  pub key : ℕ
  pub timestamp_ms : ℕ

pub data WifiIndicator : Type 0 where
  unknown connected connecting disconnected : WifiIndicator

-- The calls that leave the controller.
pub data Effect : Type 0 where
  draw_recovery_menu draw_waiting_screen draw_portal_active draw_portal_testing draw_portal_failed :
      Effect
  draw_wifi_hold_progress : ℕ → Effect
  retry_network resync return_to_state show_device_info restart : Effect

abbrev pub menu_hold_ms : ℕ
menu_hold_ms = 5000

abbrev pub recovery_hold_ms : ℕ
recovery_hold_ms = 10000

abbrev pub read_indicator : List ℕ → WifiIndicator → WifiIndicator
read_indicator text before =
    if bytes_eq text (codes "CONNECTED")
    then connected
    else if bytes_eq text (codes "CONNECTING")
    then connecting
    else if bytes_eq text (codes "DISCONNECTED")
    then disconnected
    else before

module _ (portal : WifiSetupPortal) where
  open portal use {State, active, start, poll}

  pub record WifiRecoveryController : Type 0 where
    pub star_held : Bool
    pub star_down_ms : ℕ
    pub last_shown_seconds : ℤ
    pub menu_active : Bool
    pub device_info_active : Bool
    pub wifi_indicator : WifiIndicator
    pub overlay_active : Bool
    pub portal_state : State
    pub effects : List Effect

  abbrev pub emit : Effect → WifiRecoveryController → WifiRecoveryController
  emit e c = record c { effects = c.effects ++ e ∷ [] }

  unfoldable pub enter_menu : WifiRecoveryController → WifiRecoveryController
  enter_menu c = emit draw_recovery_menu (record c { menu_active = true; overlay_active = true })

  unfoldable pub exit_menu_to_current_state : WifiRecoveryController → WifiRecoveryController
  exit_menu_to_current_state c =
      let c' = record c { menu_active = false; overlay_active = active c.portal_state } in
      if active c.portal_state then c' else emit return_to_state c'

  unfoldable pub handle_menu_selection : ℕ → WifiRecoveryController → WifiRecoveryController
  unfolding exit_menu_to_current_state
  handle_menu_selection key c₀ =
      let c = record c₀ { star_held = false; last_shown_seconds = negsuc 0 } in
      if key == b'1'
      then exit_menu_to_current_state (emit retry_network c)
      else if key == b'2'
      then record (emit resync c) { menu_active = false; overlay_active = active c.portal_state }
      else if key == b'3'
      then record c { menu_active = false; portal_state = start c.portal_state }
      else if key == b'4'
      then exit_menu_to_current_state c
      else if key == b'5'
      then emit restart c
      else if key == b'6'
      then emit show_device_info (record c { menu_active = false; device_info_active = true })
      else c

  abbrev pub leave_portal : WifiRecoveryController → WifiRecoveryController
  leave_portal c = emit return_to_state (record c { overlay_active = false })

  -- A transition of the portal while it owns the screen.
  unfoldable pub show_portal : List ℕ → WifiRecoveryController → WifiRecoveryController
  unfolding bytes_eq
  show_portal text c =
      if bytes_eq text (codes "AP_ACTIVE")
      then emit draw_portal_active c
      else if bytes_eq text (codes "TESTING")
      then emit draw_portal_testing c
      else if bytes_eq text (codes "FAILED")
      then emit draw_portal_failed c
      else if bytes_eq text (codes "INACTIVE")
      then leave_portal c
      else c

  abbrev pub star_down : ℕ → WifiRecoveryController → WifiRecoveryController
  star_down at c = record c { star_held = true; star_down_ms = at; last_shown_seconds = negsuc 0 }

  abbrev pub has_shown : ℤ → Bool
  has_shown (pos _) = true
  has_shown (negsuc _) = false

  abbrev pub star_up : WifiRecoveryController → WifiRecoveryController
  star_up c =
      let shown = not c.menu_active && (c.star_held && has_shown c.last_shown_seconds) in
      record (if shown then emit draw_waiting_screen c else c) {
        star_held = false;
        last_shown_seconds = negsuc 0;
      }

  abbrev pub is_menu_key : ℕ → Bool
  is_menu_key key = leb b'1' key && leb key b'6'

  -- `handle_local_event` behind its first two tests, by the kind of the event.
  unfoldable pub key_pressed : LocalEvent → WifiRecoveryController → WifiRecoveryController
  unfolding handle_menu_selection
  key_pressed e c =
      if c.device_info_active
      then emit draw_recovery_menu (record c { device_info_active = false; menu_active = true })
      else if c.menu_active && is_menu_key e.key
      then handle_menu_selection e.key c
      else if e.key == b'*'
      then star_down e.timestamp_ms c
      else c

  unfoldable pub handle_local_event : LocalEvent → WifiRecoveryController → WifiRecoveryController
  unfolding show_portal key_pressed bytes_eq
  handle_local_event e c = elim e.kind [
    | wifi_state ↦ record c { wifi_indicator = read_indicator e.text c.wifi_indicator }
    | wifi_recovery_state ↦
        if active c.portal_state
        then show_portal e.text c
        else if bytes_eq e.text (codes "INACTIVE")
        then leave_portal c
        else c
    | key_down ↦ if active c.portal_state then c else key_pressed e c
    | key_up ↦ if active c.portal_state then c else if e.key == b'*' then star_up c else c
    | scan ↦ c
    | keypad_raw ↦ c
  ]

  -- The countdown; nothing is shown before three seconds.
  abbrev pub shown_seconds : ℕ → ℕ
  shown_seconds held_ms = if ltb (held_ms / 1000) 3 then 0 else held_ms / 1000

  unfoldable pub tick : ℕ → WifiRecoveryController → WifiRecoveryController
  unfolding enter_menu
  tick millis c =
      let held_ms = (millis + (2 ^ 32 - c.star_down_ms)) % 2 ^ 32 in
      let shown = shown_seconds held_ms in
      if active c.portal_state
      then record c { portal_state = poll c.portal_state }
      else if c.menu_active
      then c
      else if not c.star_held
      then c
      else if leb recovery_hold_ms held_ms
      then record c {
        star_held = false;
        menu_active = false;
        overlay_active = true;
        portal_state = start c.portal_state;
      }
      else if leb menu_hold_ms held_ms
      then enter_menu c
      else if int_eq (pos shown) c.last_shown_seconds
      then c
      else emit (draw_wifi_hold_progress shown) (record c { last_shown_seconds = pos shown })
