-- ===== src/KioskRuntime/Input.antt =====
-- `begin` and `handle_local_event` of firmware/kiosk_runtime_v2/src/runtime/kiosk_runtime.cpp.
use mesflow_kiosk_runtime_v.Prelude.{ℕ, ◌||◌, List, ◌==◌, if◌then◌else◌, bytes_eq}
use mesflow_kiosk_runtime_v.DeviceSequence.{init}
use mesflow_kiosk_runtime_v.WifiRecovery.{
  LocalEvent, scan, keypad_raw, key_down, key_up, wifi_state, wifi_recovery_state, read_indicator,
}
use mesflow_kiosk_runtime_v.EventJournal.SpiffsFile.{Spiffs}
use mesflow_kiosk_runtime_v.KioskRuntime.{World, KioskRuntime, refresh_idle_screen}
use mesflow_kiosk_runtime_v.KioskRuntime.Keys.{handle_business_key, handle_scan}

-- What `begin` reads from the identity, the configuration and the preferences.
pub record BootValues : Type 0 where
  pub boot_id : List ℕ
  pub device_id : List ℕ
  pub hardware_id : List ℕ
  pub api_endpoint : List ℕ
  pub persisted_seq : ℕ

module _ (spiffs : Spiffs) where
  unfoldable pub begin : World → BootValues → KioskRuntime spiffs → KioskRuntime spiffs
  unfolding init refresh_idle_screen
  begin w v k = refresh_idle_screen spiffs w (record k {
    device_seq = init v.persisted_seq k.device_seq;
    device_id = v.device_id;
    hardware_id = v.hardware_id;
    boot_id = v.boot_id;
    api_endpoint = v.api_endpoint;
  })

  abbrev pub note_key : ℕ → KioskRuntime spiffs → KioskRuntime spiffs
  note_key key k = record k { evidence = record k.evidence { last_key = key } }

  unfoldable pub handle_wifi_state : World → List ℕ → KioskRuntime spiffs → KioskRuntime spiffs
  unfolding refresh_idle_screen bytes_eq
  handle_wifi_state w text k =
      let k' = record k { wifi_indicator = read_indicator text k.wifi_indicator } in
      if k.evidence.scan_pending_result then k' else refresh_idle_screen spiffs w k'

  unfoldable pub handle_local_event : World → LocalEvent → KioskRuntime spiffs → KioskRuntime spiffs
  unfolding handle_scan handle_business_key handle_wifi_state
  handle_local_event w e k = elim e.kind [
    | scan ↦ handle_scan spiffs w e.text k
    | keypad_raw ↦ k
    | key_down ↦
        if e.key == b'*' || w.recovery_overlay_active
        then note_key e.key k
        else handle_business_key spiffs w e.key (note_key e.key k)
    | key_up ↦ note_key e.key k
    | wifi_state ↦ handle_wifi_state w e.text k
    | wifi_recovery_state ↦ k
  ]
