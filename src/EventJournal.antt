-- ===== src/EventJournal.antt =====
-- firmware/kiosk_runtime_v2/src/storage/event_journal.{h,cpp}: the journal on SPIFFS, its recovery at
-- boot, its appends and its compaction. The calls of `log_structured` and `millis` are left out.
pub mod SpiffsFile
pub mod Reboot
pub mod Swap
pub mod History
pub mod Capacity
pub mod Lost
pub mod Concurrent
pub mod Spared
pub mod Keeps
use mesflow_kiosk_runtime_v.Prelude.{
  ℕ, zero, suc, ◌+◌, ◌-◌, Bool, true, false, not, ◌&&◌, ◌||◌, Option, none, some, List, [], ◌∷◌,
  length, take, drop, min, ltb, ◌==◌, if◌then◌else◌,
}
use mesflow_kiosk_runtime_v.JournalFrame.{
  JournalFile, JournalFrameOutcome, JournalScanFrame, ok, incomplete, crc_fail, bad_commit_marker,
  scan_journal, append_journal_frame,
}
use mesflow_kiosk_runtime_v.JournalRecord.{
  JournalRecord, JournalTransition, encode_journal_event, encode_journal_transition,
}
use mesflow_kiosk_runtime_v.JournalIndex.{
  EventJournalIndex, JournalAppendDecision, CompactionPolicy, empty_index, apply_scanned_frame,
  decide_append, has_event, find, record_appended_event, record_appended_transition,
  select_records_to_keep, rebuild_after_compaction, frame_size_for,
}
use mesflow_kiosk_runtime_v.JournalIndex.Pressure.{record_count}
use SpiffsFile.{JournalPath, dat, tmp, old, Spiffs, spiffs_journal_file}

-- The frames that a scan reports as OK, fed to the index.
unfoldable pub apply_frames : List JournalScanFrame → EventJournalIndex → EventJournalIndex
unfolding apply_scanned_frame
apply_frames [] x = x
apply_frames (f ∷ rest) x = apply_frames rest (elim f.outcome [
  | ok ↦ apply_scanned_frame f.body_json f.frame_size x
  | incomplete ↦ x
  | crc_fail ↦ x
  | bad_commit_marker ↦ x
])

abbrev is_ok : JournalScanFrame → Bool
is_ok f = elim f.outcome [
  | ok ↦ true
  | incomplete ↦ false
  | crc_fail ↦ false
  | bad_commit_marker ↦ false
]

count_bad : List JournalScanFrame → ℕ
count_bad [] = 0
count_bad (f ∷ rest) = let n = count_bad rest in if is_ok f then n else suc n

abbrev pub records_per_tick : ℕ
records_per_tick = 10

module _ (spiffs : Spiffs) where
  open spiffs use {Fs, begin, exists, remove, rename}

  -- The object, together with the file system that it works on.
  pub record EventJournal : Type 0 where
    pub index : EventJournalIndex
    pub init_ok : Bool
    pub compaction_active : Bool
    pub compaction_keep : List (List ℕ)
    pub compaction_write_index : ℕ
    pub fs : Fs

  -- The decision of `init` on what an interrupted compaction left.
  unfoldable pub recover_orphans : Fs → Fs
  recover_orphans fs =
      let has_dat = exists dat fs in
      let has_old = exists old fs in
      let fs' = if exists tmp fs then remove tmp fs else fs in
      if not has_dat && has_old
      then (rename old dat fs').1
      else if has_dat && has_old
      then remove old fs'
      else fs'

  -- `fuel` bounds the rounds of the scan.
  unfoldable pub init : ℕ → ℕ → EventJournal → EventJournal
  unfolding recover_orphans scan_journal apply_frames
  init fuel capacity_bytes j =
      let (mounted, fs) = begin j.fs in
      let file = spiffs_journal_file spiffs dat in
      let (result, s) = scan_journal file fuel (none, recover_orphans fs) in
      if mounted
      then record j {
        index = apply_frames result.frames (empty_index capacity_bytes);
        init_ok = true;
        fs = s.1;
      }
      else record j { init_ok = false; fs = fs }

  unfoldable pub append_event : JournalRecord → EventJournal → Bool × EventJournal
  unfolding decide_append append_journal_frame record_appended_event frame_size_for
  append_event r j =
      let body = encode_journal_event r in
      let frame_size = frame_size_for body in
      let (written, s) = append_journal_frame (spiffs_journal_file spiffs dat) body (none, j.fs) in
      if not j.init_ok then (false, j) else elim (decide_append r.event_id frame_size j.index) [
        | JournalAppendDecision.duplicate_event ↦ (false, j)
        | JournalAppendDecision.full ↦ (false, j)
        | JournalAppendDecision.ok ↦
            if not written
            then (false, record j { fs = s.1 })
            else (true, record j { index = record_appended_event r frame_size j.index; fs = s.1 })
      ]

  unfoldable pub append_transition : JournalTransition → EventJournal → Bool × EventJournal
  unfolding has_event append_journal_frame record_appended_transition frame_size_for
  append_transition t j =
      let body = encode_journal_transition t in
      let frame_size = frame_size_for body in
      let (written, s) = append_journal_frame (spiffs_journal_file spiffs dat) body (none, j.fs) in
      if not j.init_ok
      then (false, j)
      else if not (has_event t.event_id j.index)
      then (false, j)
      else if not written
      then (false, record j { fs = s.1 })
      else (true, record j { index = record_appended_transition t frame_size j.index; fs = s.1 })

  -- The loop that writes to the temp file the records of the ids from index `i` on. It returns
  -- false if a write failed, and the index behind the last record written (`written_to` at first).
  unfoldable pub write_kept : EventJournalIndex → ℕ → List (List ℕ) → ℕ → Fs → Bool × ℕ × Fs
  unfolding find append_journal_frame
  write_kept x i [] written_to fs = (true, written_to, fs)
  write_kept x i (id ∷ rest) written_to fs = elim (find id x) [
    | none ↦ write_kept x (suc i) rest written_to fs
    | some r ↦
        let (written, s) =
          append_journal_frame (spiffs_journal_file spiffs tmp) (encode_journal_event r)
            (none, fs) in
        let later = write_kept x (suc i) rest (suc i) s.1 in
        if written then later else (false, written_to, s.1)
  ]

  -- The swap behind a validation that passed.
  unfoldable pub swap : Fs → Bool × Fs
  swap fs =
      let (moved_out, fs₁) = if exists dat fs then rename dat old fs else (true, fs) in
      let (moved_in, fs₂) = rename tmp dat fs₁ in
      if not moved_out
      then (false, remove tmp fs₁)
      else if not moved_in
      then (false, if exists old fs₂ then (rename old dat fs₂).1 else fs₂)
      else (true, remove old fs₂)

  unfoldable pub finish_compaction_validate_and_swap :
      ℕ → List (List ℕ) → EventJournal → Bool × EventJournal
  unfolding scan_journal swap rebuild_after_compaction count_bad
  finish_compaction_validate_and_swap fuel keep j =
      let (result, s) = scan_journal (spiffs_journal_file spiffs tmp) fuel (none, j.fs) in
      let valid =
        count_bad result.frames == 0
        && length result.frames == length keep
        && result.ok_count == length keep in
      let (swapped, fs) = swap s.1 in
      if not valid
      then (false, record j { fs = remove tmp s.1 })
      else if not swapped
      then (false, record j { fs = fs })
      else (true, record j { fs = fs; index = rebuild_after_compaction keep j.index })

  unfoldable pub compact : ℕ → CompactionPolicy → EventJournal → Bool × EventJournal
  unfolding select_records_to_keep write_kept finish_compaction_validate_and_swap
  compact fuel policy j =
      let keep = select_records_to_keep policy j.index in
      let (written, _, fs) = write_kept j.index 0 keep 0 (remove tmp j.fs) in
      if not j.init_ok
      then (false, j)
      else if length keep == record_count j.index
      then (true, j)
      else if not written
      then (false, record j { fs = remove tmp fs })
      else finish_compaction_validate_and_swap fuel keep (record j { fs = fs })

  unfoldable pub begin_compaction : CompactionPolicy → EventJournal → Bool × EventJournal
  unfolding select_records_to_keep
  begin_compaction policy j =
      let keep = select_records_to_keep policy j.index in
      if not j.init_ok || j.compaction_active
      then (false, j)
      else if length keep == record_count j.index
      then (false, record j { compaction_keep = [] })
      else (
        true,
        record j {
          compaction_keep = keep;
          fs = remove tmp j.fs;
          compaction_write_index = 0;
          compaction_active = true;
        },
      )

  -- The end of the last tick.
  abbrev pub compaction_over : EventJournal → EventJournal
  compaction_over j = record j {
    compaction_active = false;
    compaction_keep = [];
    compaction_write_index = 0;
  }

  unfoldable pub compact_tick : ℕ → EventJournal → EventJournal
  unfolding write_kept finish_compaction_validate_and_swap
  compact_tick fuel j =
      let keep = j.compaction_keep in
      let start = j.compaction_write_index in
      let end = min (start + records_per_tick) (length keep) in
      let chunk = take (end - start) (drop start keep) in
      let (written, written_to, fs) = write_kept j.index start chunk start j.fs in
      let j' = record j { fs = fs; compaction_write_index = written_to } in
      if not j.compaction_active
      then j
      else if not written
      then record j' { fs = remove tmp fs; compaction_active = false; compaction_keep = [] }
      else if ltb written_to (length keep)
      then j'
      else compaction_over (finish_compaction_validate_and_swap fuel keep j').1
