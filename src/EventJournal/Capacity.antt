-- ===== src/EventJournal/Capacity.antt =====
-- Backpressure: what an append does when the journal is full or holds the id already.
use mesflow_kiosk_runtime_v.Prelude.{◌+◌, ◌≤◌, ◌<◌, ◌≡◌, ◌^◌, ◌⊎◌, true, false, arith}
use mesflow_kiosk_runtime_v.StringMap.{contains}
use mesflow_kiosk_runtime_v.JournalRecord.{JournalRecord, encode_journal_event}
use mesflow_kiosk_runtime_v.JournalIndex.{decide_append, record_appended_event, frame_size_for}
use mesflow_kiosk_runtime_v.EventJournal.{EventJournal, append_event}
use mesflow_kiosk_runtime_v.EventJournal.SpiffsFile.{Spiffs}

module _ (spiffs : Spiffs) where
  -- Every append of an event keeps the bytes in use within the capacity. One that returns false
  -- leaves the index as it was; it does not touch the file system either if the journal is not up,
  -- holds the id already, or has no room for the frame.
  pub append_event-capacity :
      (r : JournalRecord) (j : EventJournal spiffs)
      → j.index.used_bytes ≤ j.index.capacity_bytes
      → ((append_event spiffs r j).1.index.used_bytes
          ≤ (append_event spiffs r j).1.index.capacity_bytes)
        × ((append_event spiffs r j).0 ≡ false → (append_event spiffs r j).1.index ≡ j.index)
        × ((j.init_ok ≡ false)
              ⊎ ((contains r.event_id j.index.records ≡ true)
                  ⊎ ((j.index.used_bytes + frame_size_for (encode_journal_event r) < 2 ^ 32)
                      × (j.index.capacity_bytes
                          < j.index.used_bytes + frame_size_for (encode_journal_event r))))
            → ((append_event spiffs r j).0 ≡ false) × ((append_event spiffs r j).1 ≡ j))
  unfolding append_event decide_append record_appended_event
  append_event-capacity r j within = (ground arith, ground arith, ground arith)
