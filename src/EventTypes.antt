-- ===== src/EventTypes.antt =====
-- firmware/kiosk_runtime_v2/src/protocol/event_types.h: what a device event carries.
use mesflow_kiosk_runtime_v.Prelude.{ℕ, Bool, false, List, ℤ, pos, codes}

pub data EventType : Type 0 where
  scan finish_requested quantity_submitted cancel_requested : EventType

unfoldable pub event_type_to_string : EventType → List ℕ
event_type_to_string scan = codes "SCAN"
event_type_to_string finish_requested = codes "FINISH_REQUESTED"
event_type_to_string quantity_submitted = codes "QUANTITY_SUBMITTED"
event_type_to_string cancel_requested = codes "CANCEL_REQUESTED"

pub data TimeSyncStatus : Type 0 where
  unsynced syncing synced stale failed : TimeSyncStatus

unfoldable pub time_sync_status_to_string : TimeSyncStatus → List ℕ
time_sync_status_to_string unsynced = codes "UNSYNCED"
time_sync_status_to_string syncing = codes "SYNCING"
time_sync_status_to_string synced = codes "SYNCED"
time_sync_status_to_string stale = codes "STALE"
time_sync_status_to_string failed = codes "FAILED"

pub record OptionalQuantity : Type 0 where
  pub present : Bool
  pub value : ℤ

abbrev pub no_quantity : OptionalQuantity
no_quantity = record { present = false; value = pos 0 }

pub record ScanPayload : Type 0 where
  pub source : List ℕ
  pub raw : List ℕ

pub record EventContext : Type 0 where
  pub expected_state_version : ℕ
  pub workflow_version : ℕ
  pub ui_bundle_version : ℕ

pub record EventDeviceInfo : Type 0 where
  pub device_id : List ℕ
  pub hardware_id : List ℕ
  pub boot_id : List ℕ

pub record EventInfo : Type 0 where
  pub event_id : List ℕ
  pub device_seq : ℕ
  pub type : EventType

pub record EventTimeInfo : Type 0 where
  pub timestamp_device_iso : List ℕ
  pub uptime_ms : ℕ
  pub sync_status : TimeSyncStatus
  pub sync_age_s : ℕ

pub record KioskEvent : Type 0 where
  pub protocol_version : ℕ
  pub device : EventDeviceInfo
  pub event : EventInfo
  pub time : EventTimeInfo
  pub context : EventContext
  pub payload : ScanPayload
  pub quantity_good : OptionalQuantity
  pub quantity_defect : OptionalQuantity
  pub quantity_rework : OptionalQuantity
