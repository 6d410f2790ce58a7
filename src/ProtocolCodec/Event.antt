-- ===== src/ProtocolCodec/Event.antt =====
-- firmware/kiosk_runtime_v2/src/protocol/protocol_codec.cpp: the JSON text of an event.
use mesflow_kiosk_runtime_v.Prelude.{
  ℕ, suc, List, [], ◌∷◌, ◌++◌, if◌then◌else◌, codes, ℤ, pos, negsuc,
}
use mesflow_kiosk_runtime_v.Decimal.{print_unsigned}
use mesflow_kiosk_runtime_v.EventTypes.{
  KioskEvent, OptionalQuantity, unsynced, syncing, synced, stale, failed, event_type_to_string,
  time_sync_status_to_string, EventDeviceInfo, EventInfo, EventTimeInfo, EventContext,
}
use mesflow_kiosk_runtime_v.ProtocolCodec.{json_escape}

-- `snprintf` with "%d".
abbrev pub print_signed : ℤ → List ℕ
print_signed (pos n) = print_unsigned n
print_signed (negsuc n) = b'-' ∷ print_unsigned (suc n)

abbrev pub quoted : List ℕ → List ℕ
quoted s = codes "\"" ++ (json_escape s ++ codes "\"")

encode_device : EventDeviceInfo → List ℕ
encode_device d =
    codes ",\"device\":{\"device_id\":"
    ++ (quoted d.device_id
        ++ (codes ",\"hardware_id\":"
            ++ (quoted d.hardware_id
                ++ (codes ",\"boot_id\":" ++ (quoted d.boot_id ++ codes "}")))))

encode_info : EventInfo → List ℕ
encode_info e =
    codes ",\"event\":{\"event_id\":"
    ++ (quoted e.event_id
        ++ (codes ",\"device_seq\":"
            ++ (print_unsigned e.device_seq
                ++ (codes ",\"type\":\"" ++ (event_type_to_string e.type ++ codes "\"}")))))

-- A clock that was never set gives no timestamp.
unfoldable pub encode_timestamp : EventTimeInfo → List ℕ
encode_timestamp t = elim t.sync_status [
  | synced ↦ codes "\"timestamp_device\":" ++ quoted t.timestamp_device_iso
  | stale ↦ codes "\"timestamp_device\":" ++ quoted t.timestamp_device_iso
  | unsynced ↦ codes "\"timestamp_device\":null"
  | syncing ↦ codes "\"timestamp_device\":null"
  | failed ↦ codes "\"timestamp_device\":null"
]

encode_time : EventTimeInfo → List ℕ
unfolding encode_timestamp
encode_time t =
    codes ",\"time\":{"
    ++ (encode_timestamp t
        ++ (codes ",\"uptime_ms\":"
            ++ (print_unsigned t.uptime_ms
                ++ (codes ",\"sync_status\":\""
                    ++ (time_sync_status_to_string t.sync_status
                        ++ (codes "\",\"sync_age_s\":"
                            ++ (print_unsigned t.sync_age_s ++ codes "}")))))))

encode_context : EventContext → List ℕ
encode_context c =
    codes ",\"context\":{\"expected_state_version\":"
    ++ (print_unsigned c.expected_state_version
        ++ (codes ",\"workflow_version\":"
            ++ (print_unsigned c.workflow_version
                ++ (codes ",\"ui_bundle_version\":"
                    ++ (print_unsigned c.ui_bundle_version ++ codes "}")))))

-- A quantity that is absent leaves no field.
unfoldable pub encode_quantity : List ℕ → OptionalQuantity → List ℕ
encode_quantity name q =
    if q.present then codes ",\"" ++ (name ++ (codes "\":" ++ print_signed q.value)) else []

encode_payload : KioskEvent → List ℕ
unfolding encode_quantity
encode_payload e =
    codes ",\"payload\":{\"source\":"
    ++ (quoted e.payload.source
        ++ (codes ",\"raw\":"
            ++ (quoted e.payload.raw
                ++ (encode_quantity (codes "quantity_good") e.quantity_good
                    ++ (encode_quantity (codes "quantity_defect") e.quantity_defect
                        ++ (encode_quantity (codes "quantity_rework") e.quantity_rework
                            ++ codes "}"))))))

unfoldable pub encode_event_json : KioskEvent → List ℕ
unfolding encode_device encode_info encode_time encode_context encode_payload
encode_event_json event =
    codes "{\"protocol_version\":"
    ++ (print_unsigned event.protocol_version
        ++ (encode_device event.device
            ++ (encode_info event.event
                ++ (encode_time event.time
                    ++ (encode_context event.context ++ (encode_payload event ++ codes "}"))))))
