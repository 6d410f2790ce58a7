-- ===== src/Tests/Bus.antt =====
-- The bus with both subscribers at concrete inputs.
use mesflow_kiosk_runtime_v.Prelude.{ℕ, ◌≡◌, refl, true, []}
use mesflow_kiosk_runtime_v.WifiRecovery.{LocalEvent, key_down, handle_local_event, tick}
use mesflow_kiosk_runtime_v.EventBus.{KioskDevice, publish_event, publish, subscribe, tick_device}
use mesflow_kiosk_runtime_v.EventBus.Business.{business, down}
use mesflow_kiosk_runtime_v.EventBus.Overlay.{
  is_menu_open, Reach, here, next, published, ticked, publish_event-covered,
}
use mesflow_kiosk_runtime_v.Tests.Kiosk.{world, kiosk}
use mesflow_kiosk_runtime_v.Tests.Wifi.{portal, quiet}
use mesflow_kiosk_runtime_v.Tests.MemorySpiffs.{memory_spiffs}

abbrev pressed : ℕ → ℕ → LocalEvent
pressed key at = record { kind = key_down; text = []; key = key; timestamp_ms = at }

abbrev device : KioskDevice memory_spiffs portal
device = record { runtime = kiosk; recovery = quiet }

abbrev holding : KioskDevice memory_spiffs portal
holding = publish_event memory_spiffs portal world (pressed b'*' 100) device

abbrev menu_opened : KioskDevice memory_spiffs portal
menu_opened = tick_device memory_spiffs portal 5200 holding

opening : Reach memory_spiffs portal device menu_opened
opening =
    next (next here (published world (pressed b'*' 100) (λ (k, _). cc) refl)) (ticked 5200 refl)

is_opened : is_menu_open portal menu_opened.recovery ≡ true
unfolding publish_event publish subscribe handle_local_event tick
is_opened = refl

publish_event-covered_example :
    business memory_spiffs
      (publish_event memory_spiffs portal world (pressed b'2' 5400) menu_opened).runtime
    ≡ business memory_spiffs menu_opened.runtime
publish_event-covered_example =
    publish_event-covered memory_spiffs portal device menu_opened world (pressed b'2' 5400) refl
      opening is_opened down
