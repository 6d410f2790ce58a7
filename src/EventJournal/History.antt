-- ===== src/EventJournal/History.antt =====
-- The journal over a whole boot session: a sequence of appends, then a reboot.
use mesflow_kiosk_runtime_v.Prelude.{
  ℕ, ◌^◌, ◌<◌, ◌≡◌, refl, sym, ap, ◌∙◌, Bool, true, false, ◌&&◌, and-parts, none, List, [], ◌∷◌,
  length, arith, append-nil,
}
use mesflow_kiosk_runtime_v.JournalFrame.{ScanResult, scan_journal}
use mesflow_kiosk_runtime_v.JournalFrame.Recovery.{
  encode_log, frames_from, scan_journal-torn, length-encode_frame,
}
use mesflow_kiosk_runtime_v.JournalRecord.{
  JournalRecord, JournalTransition, encode_journal_event, encode_journal_transition,
}
use mesflow_kiosk_runtime_v.JournalRecord.RoundTrip.{IsStorable}
use mesflow_kiosk_runtime_v.JournalRecord.Transitions.{IsStorableTransition}
use mesflow_kiosk_runtime_v.JournalIndex.{empty_index}
use mesflow_kiosk_runtime_v.EventJournal.{
  EventJournal, apply_frames, init, recover_orphans, append_event, append_transition,
}
use mesflow_kiosk_runtime_v.EventJournal.SpiffsFile.{Spiffs, dat, tmp, old, spiffs_journal_file}
use mesflow_kiosk_runtime_v.EventJournal.Reboot.{
  SpiffsLaws, IsBacked, replay, apply_frames-frames_from, append_event-IsBacked,
  append_transition-IsBacked,
}

pub data JournalWrite : Type 0 where
  event : JournalRecord → JournalWrite
  transition : JournalTransition → JournalWrite

-- What an append needs of its argument to be read back.
abbrev pub IsWritable : JournalWrite → Type 0
IsWritable (event r) = IsStorable r × (length (encode_journal_event r) < 2 ^ 32)
IsWritable (transition t) = IsStorableTransition t × (length (encode_journal_transition t) < 2 ^ 32)

abbrev pub AllWritable : List JournalWrite → Type 0
AllWritable [] = Unit {0}
AllWritable (w ∷ ws) = IsWritable w × AllWritable ws

abbrev bodies_of : List JournalWrite → List (List ℕ)
bodies_of [] = []
bodies_of (event r ∷ ws) = encode_journal_event r ∷ bodies_of ws
bodies_of (transition t ∷ ws) = encode_journal_transition t ∷ bodies_of ws

module _ (spiffs : Spiffs) where
  -- The appends in order; true if each of them returned true.
  unfoldable pub append_all : List JournalWrite → EventJournal spiffs → Bool × EventJournal spiffs
  unfolding append_event append_transition
  append_all [] j = (true, j)
  append_all (event r ∷ ws) j =
      let (done, j') = append_event spiffs r j in
      let rest = append_all ws j' in (done && rest.0, rest.1)
  append_all (transition t ∷ ws) j =
      let (done, j') = append_transition spiffs t j in
      let rest = append_all ws j' in (done && rest.0, rest.1)

module _ (spiffs : Spiffs) (laws : SpiffsLaws spiffs) where
  open laws use {contents, reads, on_disk, mounts}

  append_all-IsBacked :
      (ws : List JournalWrite) (bodies : List (List ℕ)) (j : EventJournal spiffs)
      → IsBacked spiffs laws bodies j
      → AllWritable ws
      → (append_all spiffs ws j).0 ≡ true
      → (all : List (List ℕ)) × IsBacked spiffs laws all (append_all spiffs ws j).1
  unfolding append_all
  append_all-IsBacked [] bodies j backed fine done = (bodies, backed)
  append_all-IsBacked (event r ∷ ws) bodies j backed fine done =
      let (one, rest) = and-parts _ _ done in
      append_all-IsBacked ws _ (append_event spiffs r j).1
        (append_event-IsBacked spiffs laws bodies r j backed fine.0.0 fine.0.1 one) fine.1 rest
  append_all-IsBacked (transition t ∷ ws) bodies j backed fine done =
      let (one, rest) = and-parts _ _ done in
      append_all-IsBacked ws _ (append_transition spiffs t j).1
        (append_transition-IsBacked spiffs laws bodies t j backed fine.0.0 fine.0.1 one) fine.1 rest

  recover_orphans-none :
      (fs : spiffs.Fs)
      → spiffs.exists tmp fs ≡ false
      → spiffs.exists old fs ≡ false
      → recover_orphans spiffs fs ≡ fs
  unfolding recover_orphans
  recover_orphans-none fs no_tmp no_old = ground arith

  scan_log :
      (bodies : List (List ℕ)) (fuel : ℕ) (j : EventJournal spiffs)
      → IsBacked spiffs laws bodies j
      → length (contents j.fs) < fuel
      → (scan_journal (spiffs_journal_file spiffs dat) fuel (none, j.fs)).0
        ≡ record { ok_count = length bodies; frames = frames_from 0 bodies }
  scan_log bodies fuel j backed enough =
      scan_journal-torn (spiffs_journal_file spiffs dat) reads bodies [] 0 fuel (none, j.fs)
        (on_disk (none, j.fs) ∙ backed.log ∙ sym (append-nil (encode_log bodies)))
        (omega arith, backed.fit) (omega (arith, length-encode_frame []))
        (omega (arith, ap length (on_disk (none, j.fs))))
      ∙ ap (λ fs. record { ok_count = length bodies; frames = fs })
          (append-nil (frames_from 0 bodies))

  init-index :
      (fuel capacity : ℕ) (j : EventJournal spiffs) (result : ScanResult)
      → recover_orphans spiffs j.fs ≡ j.fs
      → (scan_journal (spiffs_journal_file spiffs dat) fuel (none, j.fs)).0 ≡ result
      → (init spiffs fuel capacity j).index ≡ apply_frames result.frames (empty_index capacity)
  unfolding init
  init-index fuel capacity j result tidy scanned = rw (mounts j.fs, tidy, scanned) refl

  init-IsBacked :
      (bodies : List (List ℕ)) (fuel : ℕ) (j : EventJournal spiffs)
      → IsBacked spiffs laws bodies j
      → spiffs.exists tmp j.fs ≡ false
      → spiffs.exists old j.fs ≡ false
      → length (contents j.fs) < fuel
      → (init spiffs fuel j.index.capacity_bytes j).index ≡ j.index
  init-IsBacked bodies fuel j backed no_tmp no_old enough =
      init-index fuel j.index.capacity_bytes j _ (recover_orphans-none j.fs no_tmp no_old)
        (scan_log bodies fuel j backed enough)
      ∙ apply_frames-frames_from bodies 0 (empty_index j.index.capacity_bytes)
      ∙ sym backed.replays

  -- Durability of the whole journal: start with an empty file, append any sequence of events and
  -- transitions that can be read back, each append returning true, and reboot with no files of a
  -- compaction left over. Then `init` builds the very index, its byte count included, that the
  -- appends had left in memory.
  pub init-append_all :
      (ws : List JournalWrite) (fuel : ℕ) (j : EventJournal spiffs)
      → j.init_ok ≡ true
      → contents j.fs ≡ []
      → j.index ≡ empty_index j.index.capacity_bytes
      → AllWritable ws
      → (append_all spiffs ws j).0 ≡ true
      → spiffs.exists tmp (append_all spiffs ws j).1.fs ≡ false
      → spiffs.exists old (append_all spiffs ws j).1.fs ≡ false
      → length (contents (append_all spiffs ws j).1.fs) < fuel
      → (init spiffs fuel
          (append_all spiffs ws j).1.index.capacity_bytes
          (append_all spiffs ws j).1).index
        ≡ (append_all spiffs ws j).1.index
  unfolding replay
  init-append_all ws fuel j ready nothing fresh fine done no_tmp no_old enough =
      let start : IsBacked spiffs laws [] j = record {
        ready = ready;
        log = nothing;
        fit = tt;
        replays = fresh;
      } in
      let (all, backed) = append_all-IsBacked ws [] j start fine done in
      init-IsBacked all fuel (append_all spiffs ws j).1 backed no_tmp no_old enough
