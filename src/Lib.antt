-- ===== src/Lib.antt =====
-- MESFlow kiosk runtime v2: the runtime of an ESP32 shop-floor kiosk with its durable event journal, its
-- network worker, its projection of the server's state, and its policies of retry and recovery.
--
-- Every business event gets its number from SequenceReservation, is encoded as a flat JSON object and
-- is appended to the journal on SPIFFS before it is sent. Transitions of an event's delivery status
-- are appended behind it. At boot the journal is scanned, and the index of its records is rebuilt;
-- when the journal fills up, compaction rewrites it. The server answers with snapshots of its state,
-- which StateProjection accepts or rejects by version. KioskRuntime turns scans and keys into events,
-- gives them to NetworkWorker once they are in the journal, and sends what is left after an outage.
--
-- Paths below are relative to firmware/kiosk_runtime_v2/src.
--
--   JournalFrame        protocol/event_journal_core.{h,cpp}, protocol/crc32.h: `scan_journal` and
--                       `append_journal_frame` over the abstract class JournalFile, a record of
--                       operations on a state. JournalFrame/Files has what is assumed of a file.
--   JsonExtract         protocol/json_extract.cpp: the extractors, on lists of bytes.
--   ProtocolCodec       protocol/protocol_codec.cpp: `json_escape`, and `encode_event_json` in Event.
--   EventTypes          protocol/event_types.h: what an event carries.
--   DeviceSequence      protocol/ids.cpp: random identifiers, and the counter behind its pointer.
--   JournalRecord       protocol/journal_record.{h,cpp}: the bodies of the frames.
--   JournalIndex        protocol/event_journal_index.{h,cpp}: the index in memory; Pressure has the
--                       counts, the usage and the age of the oldest pending record.
--   EventJournal        storage/event_journal.{h,cpp}: recovery at boot, appends and compaction.
--                       EventJournal/SpiffsFile has the SPIFFS library, a parameter, and the class
--                       SpiffsJournalFile over it.
--   SequenceReservation protocol/sequence_reservation.h, with the value in flash.
--   StateProjection     protocol/state_projection.{h,cpp}: the snapshot and the rules of `apply`.
--                       StateProjection/Parser has parse_state_snapshot_json.
--   EventResponse       protocol/event_response.{h,cpp}: the parser of the server's answer.
--   RetryPolicy         protocol/retry_policy.{h,cpp}: the class of an HTTP result, the backoff, Retry-After.
--   RecoverySupervisor  health/recovery_supervisor.{h,cpp}: the ring of events, the streak in flash.
--   WifiRecovery        runtime/wifi_recovery_controller.{h,cpp}: the recovery menu; calls that leave it
--                       are recorded in order, and the portal is a parameter.
--   Policies            protocol/environment_label.cpp, network/endpoint_utils.h, network/network_state.cpp,
--                       runtime/ui_timeout_policy.cpp, health/low_memory_supervisor.cpp,
--                       protocol/backend_url_validation.cpp, protocol/ap_ssid.cpp.
--   NetworkWorker       network/network_worker.{h,cpp}: two bounded queues, one slot for a result; Execute
--                       has the HTTP attempts and the two halves of a turn of the task.
--   KioskRuntime        runtime/kiosk_runtime.{h,cpp}: the state and `render_current_business_state`; Send,
--                       Quantity and Keys, Input, Resync, Replay, Response and Poll have the handlers,
--                       Steps what moves a kiosk, the ticks of a compaction among it. A `World` is
--                       what a handler reads of the rest of the device. The runtime calls the
--                       operations of EventJournal, StateProjection, EventResponse and NetworkWorker,
--                       not stand-ins for them.
--   UiBundle            protocol/ui_bundle.{h,cpp}; Tokens, its `resolve_ui_tokens`; Store,
--                       storage/ui_bundle_store.cpp with SPIFFS, Preferences and SHA-256 as parameters,
--                       of which Selected and Written say what is assumed;
--                       Sync, runtime/ui_sync_controller.cpp, over the queues of NetworkWorker.
--   VnFont              protocol/vn_font_core.{h,cpp}: UTF-8, the glyph search and the width of a text.
--   Scanner             hardware/scanner_gm65.{h,cpp}: the lines of the scanner; Lines, what they are.
--   EventBus            runtime/event_bus.{h,cpp}, with the two subscribers that the sketch starts, the
--                       runtime and the recovery controller, whose callbacks are calls of the runtime.
--   StringMap           std::map from strings, an association list in the order of its keys.
--   Decimal             std::to_string and strtoll; JsonObject, the flat objects that the encoders
--                       write, stated apart from them.
--   Prelude, Tests      shared names; concrete runs, with a file and a SPIFFS in memory that obey the
--                       assumed laws.
--
-- State is passed explicitly: an operation takes the state and returns its result with the new one.
-- Texts are lists of byte values. uint32_t and uint64_t arithmetic is written out with its modulus.
-- `none` stands for a null pointer, a false result with an out parameter, and the count -1.
--
-- Fuel: `scan_from` takes the number of rounds. Each round but the last reads nine bytes at least, so
-- more rounds than the file has bytes are enough, which the theorems on it ask for and show to do.
-- `read_exact_from` takes the length to be read as fuel, since each read gives a byte or ends it.
-- `read_objects`, `measure_from` and `resolve_from` read a byte at least in a round and take the length
-- of the text; `search_glyphs` halves its range and takes one round more than there are glyphs.
--
-- std::sort leaves the order of equal keys open; `sort_by` is a stable sort. `usage_pct` is compared
-- as an exact fraction; JournalIndex/Pressure says why no rounding can change a comparison.
--
-- The runtime and the task of the worker run on two threads that share the queues and the slot.
-- FreeRTOS makes each operation on these atomic, so a run is a sequence of handlers, ticks of a
-- compaction and half turns of the worker in any order. A handler reads the clock once, and its
-- messages are constructors.
--
-- Not modelled: logging and the journal's millis() stamps, the debug hook that fakes crashes, the
-- record of a UI stall, and the parts of the firmware that no file above names (drivers, drawing,
-- the Wi-Fi and bootstrap clients, the main loop).
pub mod Decimal
pub mod DeviceSequence
pub mod EventBus
pub mod EventJournal
pub mod EventResponse
pub mod EventTypes
pub mod JournalFrame
pub mod JournalIndex
pub mod JournalRecord
pub mod JsonExtract
pub mod JsonObject
pub mod KioskRuntime
pub mod NetworkWorker
pub mod Policies
pub mod Prelude
pub mod ProtocolCodec
pub mod RecoverySupervisor
pub mod RetryPolicy
pub mod Scanner
pub mod SequenceReservation
pub mod StateProjection
pub mod StringMap
pub mod Tests
pub mod UiBundle
pub mod VnFont
pub mod WifiRecovery
