-- ===== src/Tests/Concurrent.antt =====
-- An append between begin_compaction and compact_tick, on a SPIFFS in memory.
use mesflow_kiosk_runtime_v.Prelude.{inl, ◌≡◌, ◌≢◌, refl, true, false, none, some, [], ◌∷◌, codes}
use mesflow_kiosk_runtime_v.ProtocolCodec.{json_escape}
use mesflow_kiosk_runtime_v.Decimal.{decimal}
use mesflow_kiosk_runtime_v.JournalFrame.{append_journal_frame, scan_journal}
use mesflow_kiosk_runtime_v.JournalFrame.Bytes.{write_u32_le, read_u32_le, first_byte}
use mesflow_kiosk_runtime_v.JournalFrame.Crc.{crc32}
use mesflow_kiosk_runtime_v.JournalRecord.{
  acked, encode_journal_event, journal_sync_status_to_string,
}
use mesflow_kiosk_runtime_v.JournalIndex.{
  CompactionPolicy, find, sort_by, frame_size_for, rebuild_after_compaction, record_appended_event,
}
use mesflow_kiosk_runtime_v.EventJournal.{EventJournal, append_event, begin_compaction, swap}
use mesflow_kiosk_runtime_v.EventJournal.Concurrent.{ticks, append_event-ticks}
use mesflow_kiosk_runtime_v.EventJournal.Spared.{ticks-keeps_unsynced}
use mesflow_kiosk_runtime_v.Tests.MemorySpiffs.{memory_spiffs}
use mesflow_kiosk_runtime_v.Tests.Journal.{scan_event, first_event}
use mesflow_kiosk_runtime_v.Tests.Index.{second_event}

-- No terminal record is to be kept.
abbrev pub keep_none : CompactionPolicy
keep_none = record {
  acked_retention_count = 0;
  rejected_retention_count = 0;
  conflict_retention_count = 0;
  human_review_retention_count = 0;
}

-- One event that is pending and one that is acknowledged.
abbrev pub before_compaction : EventJournal memory_spiffs
before_compaction = record {
  index = record {
    capacity_bytes = 4000;
    used_bytes = 700;
    records =
        (codes "a-0", second_event)
        ∷ (codes "a-9", record (scan_event (codes "a-9") 1) { sync_status = acked })
        ∷ [];
    frame_sizes = (codes "a-0", 350) ∷ (codes "a-9", 350) ∷ [];
  };
  init_ok = true;
  compaction_active = false;
  compaction_keep = [];
  compaction_write_index = 0;
  fs = record { dat_file = some []; tmp_file = none; old_file = none };
}

abbrev begun : EventJournal memory_spiffs
begun = (begin_compaction memory_spiffs keep_none before_compaction).1

abbrev appended : EventJournal memory_spiffs
appended = (append_event memory_spiffs first_event begun).1

begun_ok : (begin_compaction memory_spiffs keep_none before_compaction).0 ≡ true
unfolding begin_compaction sort_by
begun_ok = refl

appended_ok : (append_event memory_spiffs first_event begun).0 ≡ true
unfolding begin_compaction sort_by append_event encode_journal_event append_journal_frame
    frame_size_for json_escape decimal journal_sync_status_to_string write_u32_le crc32
appended_ok = refl

append_event-ticks_example :
    (find first_event.event_id appended.index ≡ some first_event)
    × ((ticks memory_spiffs 1 9 appended).index ≢ appended.index
        → find first_event.event_id (ticks memory_spiffs 1 9 appended).index ≡ none)
append_event-ticks_example =
    append_event-ticks memory_spiffs keep_none first_event 1 9 before_compaction begun_ok
      appended_ok

-- Without an append in between the pending event stays.
ticks-keeps_unsynced_example :
    find second_event.event_id (ticks memory_spiffs 1 9 begun).index ≡ some second_event
unfolding find
ticks-keeps_unsynced_example =
    ticks-keeps_unsynced memory_spiffs keep_none 1 9 before_compaction second_event.event_id
      second_event begun_ok refl (inl refl)

-- One tick is enough here.
lost_after_tick : find first_event.event_id (ticks memory_spiffs 1 9 appended).index ≡ none
unfolding ticks find begin_compaction sort_by append_event record_appended_event
    encode_journal_event append_journal_frame frame_size_for json_escape decimal
    journal_sync_status_to_string write_u32_le crc32 scan_journal swap read_u32_le first_byte
    rebuild_after_compaction
lost_after_tick = refl
