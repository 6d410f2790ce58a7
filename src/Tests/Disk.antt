-- ===== src/Tests/Disk.antt =====
-- The journal on a SPIFFS in memory.
use mesflow_kiosk_runtime_v.Prelude.{
  All, ◌+◌, ◌≤◌, ◌<◌, ◌^◌, ◌≡◌, ◌⊎◌, refl, true, false, some, none, List, [], ◌∷◌, codes, arith,
  bytes_eq,
}
use mesflow_kiosk_runtime_v.StringMap.{contains}
use mesflow_kiosk_runtime_v.JournalFrame.{append_journal_frame, scan_journal}
use mesflow_kiosk_runtime_v.ProtocolCodec.{json_escape}
use mesflow_kiosk_runtime_v.Decimal.{decimal}
use mesflow_kiosk_runtime_v.JournalFrame.Bytes.{write_u32_le, read_u32_le, first_byte}
use mesflow_kiosk_runtime_v.JournalFrame.Crc.{crc32}
use mesflow_kiosk_runtime_v.JournalRecord.{
  journal_sync_status_to_string, encode_journal_event, encode_journal_transition,
}
use mesflow_kiosk_runtime_v.JournalIndex.{
  empty_index, find, frame_size_for, has_event, record_appended_event,
}
use mesflow_kiosk_runtime_v.EventJournal.{
  EventJournal, init, append_event, append_transition, swap, recover_orphans,
  finish_compaction_validate_and_swap,
}
use mesflow_kiosk_runtime_v.EventJournal.SpiffsFile.{dat, old}
use mesflow_kiosk_runtime_v.EventJournal.History.{
  JournalWrite, event, transition, append_all, init-append_all,
}
use mesflow_kiosk_runtime_v.EventJournal.Swap.{
  swap_states, last_of, IsRecovered, swap-recover_orphans,
}
use mesflow_kiosk_runtime_v.EventJournal.Capacity.{append_event-capacity}
use mesflow_kiosk_runtime_v.EventJournal.Lost.{finish_compaction-dropped}
use mesflow_kiosk_runtime_v.Tests.MemorySpiffs.{
  MemoryFs, memory_spiffs, memory_spiffs-SpiffsLaws, memory_spiffs-AtomicCalls,
}
use mesflow_kiosk_runtime_v.JournalFrame.Scan.{encode_frame}
use mesflow_kiosk_runtime_v.Tests.Index.{two_events}
use mesflow_kiosk_runtime_v.Tests.Journal.{
  first_event, first_event-IsStorable, acknowledged, acknowledged-IsStorableTransition,
}

abbrev empty_fs : MemoryFs
empty_fs = record { dat_file = none; tmp_file = none; old_file = none }

-- A compaction ready to swap.
abbrev full_fs : MemoryFs
full_fs = record { dat_file = some (codes "old"); tmp_file = some (codes "new"); old_file = none }

-- A journal that has booted on an empty file system.
abbrev pub booted : EventJournal memory_spiffs
booted = record {
  index = empty_index 2000;
  init_ok = true;
  compaction_active = false;
  compaction_keep = [];
  compaction_write_index = 0;
  fs = empty_fs;
}

abbrev writes : List JournalWrite
writes = event first_event ∷ transition acknowledged ∷ []

abbrev written : EventJournal memory_spiffs
written = (append_all memory_spiffs writes booted).1

writes_done : (append_all memory_spiffs writes booted).0 ≡ true
unfolding append_all encode_journal_event encode_journal_transition append_journal_frame
    frame_size_for append_transition record_appended_event has_event json_escape decimal
    journal_sync_status_to_string write_u32_le crc32
writes_done = refl

init-append_all_example :
    (init memory_spiffs 600 written.index.capacity_bytes written).index ≡ written.index
unfolding append_all encode_journal_event encode_journal_transition append_journal_frame
    frame_size_for append_transition record_appended_event has_event json_escape decimal
    journal_sync_status_to_string write_u32_le crc32
init-append_all_example =
    init-append_all memory_spiffs memory_spiffs-SpiffsLaws writes 600 booted refl refl refl
      (
        (first_event-IsStorable, omega arith),
        ((acknowledged-IsStorableTransition, omega arith), tt),
      )
      writes_done refl refl (omega arith)

append_event-capacity_example :
    ((append_event memory_spiffs first_event booted).1.index.used_bytes
      ≤ (append_event memory_spiffs first_event booted).1.index.capacity_bytes)
    × ((append_event memory_spiffs first_event booted).0 ≡ false
        → (append_event memory_spiffs first_event booted).1.index ≡ booted.index)
    × ((booted.init_ok ≡ false)
          ⊎ ((contains first_event.event_id booted.index.records ≡ true)
              ⊎ ((booted.index.used_bytes + frame_size_for (encode_journal_event first_event)
                    < 2 ^ 32)
                  × (booted.index.capacity_bytes
                      < booted.index.used_bytes
                        + frame_size_for (encode_journal_event first_event))))
        → ((append_event memory_spiffs first_event booted).0 ≡ false)
          × ((append_event memory_spiffs first_event booted).1 ≡ booted))
append_event-capacity_example = append_event-capacity memory_spiffs first_event booted (omega arith)

swap-recover_orphans_example :
    (last_of memory_spiffs full_fs (swap_states memory_spiffs full_fs)
      ≡ (swap memory_spiffs full_fs).1)
    × All
        (λ s.
          IsRecovered memory_spiffs memory_spiffs-AtomicCalls
            (codes "old")
            (codes "new")
            (recover_orphans memory_spiffs s))
        (swap_states memory_spiffs full_fs)
swap-recover_orphans_example =
    swap-recover_orphans memory_spiffs memory_spiffs-AtomicCalls (codes "old") (codes "new") full_fs
      refl refl restores
  where
    restores :
        (s : MemoryFs)
        → s.dat_file ≡ none
        → s.old_file ≡ some (codes "old")
        → (memory_spiffs.rename old dat s).0 ≡ true
    restores s gone there = ground arith

-- A compaction that has written its one record, while a second event was appended meanwhile.
abbrev compacting : EventJournal memory_spiffs
compacting = record {
  index = two_events;
  init_ok = true;
  compaction_active = true;
  compaction_keep = codes "a-1" ∷ [];
  compaction_write_index = 1;
  fs = record {
    dat_file = some (codes "live");
    tmp_file = some (encode_frame (encode_journal_event first_event));
    old_file = none;
  };
}

compacting_done :
    (finish_compaction_validate_and_swap memory_spiffs 3 (codes "a-1" ∷ []) compacting).0 ≡ true
unfolding finish_compaction_validate_and_swap swap scan_journal encode_journal_event json_escape
    decimal journal_sync_status_to_string write_u32_le crc32 read_u32_le first_byte
compacting_done = refl

finish_compaction-dropped_example :
    find
      (codes "a-0")
      (finish_compaction_validate_and_swap memory_spiffs 3 (codes "a-1" ∷ []) compacting).1.index
    ≡ none
unfolding bytes_eq
finish_compaction-dropped_example =
    finish_compaction-dropped memory_spiffs 3 (codes "a-1" ∷ []) compacting (codes "a-0")
      compacting_done refl
