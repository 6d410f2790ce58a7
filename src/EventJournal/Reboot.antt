-- ===== src/EventJournal/Reboot.antt =====
-- A reboot brings back the index that the appends had built.
use mesflow_kiosk_runtime_v.Prelude.{
  ℕ, ◌^◌, ◌<◌, ◌≡◌, refl, sym, ap, ◌∙◌, subst, Bool, true, false, none, List, [], ◌∷◌, ◌++◌, length,
  arith, take-ge,
}
use mesflow_kiosk_runtime_v.StringMap.{contains}
use mesflow_kiosk_runtime_v.JournalFrame.{append_journal_frame, frame_size_of}
use mesflow_kiosk_runtime_v.JournalFrame.Files.{ReadsInOrder, AppendsAtEnd}
use mesflow_kiosk_runtime_v.JournalFrame.Scan.{encode_frame}
use mesflow_kiosk_runtime_v.JournalFrame.Recovery.{encode_log, frames_from, Fit}
use mesflow_kiosk_runtime_v.JournalFrame.Append.{append_journal_frame-Lands}
use mesflow_kiosk_runtime_v.JournalFrame.Durability.{encode_log-append, Fit-append}
use mesflow_kiosk_runtime_v.JournalRecord.{
  JournalRecord, JournalTransition, encode_journal_event, encode_journal_transition,
}
use mesflow_kiosk_runtime_v.JournalRecord.RoundTrip.{IsStorable}
use mesflow_kiosk_runtime_v.JournalRecord.Transitions.{IsStorableTransition}
use mesflow_kiosk_runtime_v.JournalIndex.{
  EventJournalIndex, empty_index, apply_scanned_frame, record_appended_event,
  record_appended_transition, decide_append, frame_size_for,
}
use mesflow_kiosk_runtime_v.JournalIndex.Replay.{
  apply_scanned_frame-event, apply_scanned_frame-transition,
}
use mesflow_kiosk_runtime_v.EventJournal.{
  EventJournal, apply_frames, append_event, append_transition,
}
use mesflow_kiosk_runtime_v.EventJournal.SpiffsFile.{Spiffs, dat, spiffs_journal_file}

-- The effect on the index of a log of bodies.
unfoldable pub replay : List (List ℕ) → EventJournalIndex → EventJournalIndex
replay [] x = x
replay (b ∷ bs) x = replay bs (apply_scanned_frame b (frame_size_of (length b)) x)

replay-append :
    (bs : List (List ℕ)) (b : List ℕ) (x : EventJournalIndex)
    → replay (bs ++ b ∷ []) x ≡ apply_scanned_frame b (frame_size_of (length b)) (replay bs x)
unfolding replay
replay-append [] b x = refl
replay-append (c ∷ bs) b x = replay-append bs b (apply_scanned_frame c (frame_size_of (length c)) x)

pub apply_frames-frames_from :
    (bs : List (List ℕ)) (offset : ℕ) (x : EventJournalIndex)
    → apply_frames (frames_from offset bs) x ≡ replay bs x
unfolding apply_frames replay
apply_frames-frames_from [] offset x = refl
apply_frames-frames_from (b ∷ bs) offset x =
    apply_frames-frames_from bs _ (apply_scanned_frame b (frame_size_of (length b)) x)

-- What SPIFFS documents: a mounted file system is mounted again at no cost, the live file reads
-- and appends as a file does, and what it holds does not depend on a handle to it.
pub record SpiffsLaws (spiffs : Spiffs) : Type 0 where
  pub contents : spiffs.Fs → List ℕ
  pub reads : ReadsInOrder (spiffs_journal_file spiffs dat)
  pub appends : AppendsAtEnd (spiffs_journal_file spiffs dat) reads.stored
  pub on_disk : (s : (spiffs_journal_file spiffs dat).State) → reads.stored s ≡ contents s.1
  pub mounts : (fs : spiffs.Fs) → spiffs.begin fs ≡ (true, fs)

module _ (spiffs : Spiffs) (laws : SpiffsLaws spiffs) where
  open laws use {contents, reads, appends, on_disk, mounts}

  -- The journal is up, its file is a log of whole frames, and its index is what they replay to.
  pub record IsBacked (bodies : List (List ℕ)) (j : EventJournal spiffs) : Type 0 where
    pub ready : j.init_ok ≡ true
    pub log : contents j.fs ≡ encode_log bodies
    pub fit : Fit bodies
    pub replays : j.index ≡ replay bodies (empty_index j.index.capacity_bytes)

  written : (body : List ℕ) → spiffs.Fs → Bool
  written body fs = (append_journal_frame (spiffs_journal_file spiffs dat) body (none, fs)).0

  fs_after : (body : List ℕ) → spiffs.Fs → spiffs.Fs
  fs_after body fs = (append_journal_frame (spiffs_journal_file spiffs dat) body (none, fs)).1.1

  -- The file behind a write that returned true.
  contents-fs_after :
      (bodies : List (List ℕ)) (body : List ℕ) (fs : spiffs.Fs)
      → contents fs ≡ encode_log bodies
      → length body < 2 ^ 32
      → written body fs ≡ true
      → contents (fs_after body fs) ≡ encode_log (bodies ++ body ∷ [])
  unfolding written fs_after
  contents-fs_after bodies body fs log small done =
      let file = spiffs_journal_file spiffs dat in
      let (k, short, lands, full) =
        append_journal_frame-Lands file reads.stored appends body (none, fs) small in
      sym (on_disk (append_journal_frame file body (none, fs)).1)
      ∙ lands
      ∙ ap (◌++◌ (reads.stored (none, fs)))
          (take-ge k (encode_frame body) (omega (arith, full done)))
      ∙ ap (λ t. t ++ encode_frame body) (on_disk (none, fs) ∙ log)
      ∙ sym (encode_log-append bodies body)

  append_event-done :
      (r : JournalRecord) (j : EventJournal spiffs)
      → (append_event spiffs r j).0 ≡ true
      → (contains r.event_id j.index.records ≡ false)
        × (written (encode_journal_event r) j.fs ≡ true)
        × ((append_event spiffs r j).1 ≡ record j {
          index = record_appended_event r (frame_size_for (encode_journal_event r)) j.index;
          fs = fs_after (encode_journal_event r) j.fs;
        })
  unfolding append_event decide_append written fs_after
  append_event-done r j done = ground arith

  append_transition-done :
      (t : JournalTransition) (j : EventJournal spiffs)
      → (append_transition spiffs t j).0 ≡ true
      → (written (encode_journal_transition t) j.fs ≡ true)
        × ((append_transition spiffs t j).1 ≡ record j {
          index =
              record_appended_transition t (frame_size_for (encode_journal_transition t)) j.index;
          fs = fs_after (encode_journal_transition t) j.fs;
        })
  unfolding append_transition written fs_after
  append_transition-done t j done = ground arith

  -- One more body, its effect on the index being that of its replay.
  IsBacked-append :
      (bodies : List (List ℕ)) (body : List ℕ) (j : EventJournal spiffs) (x : EventJournalIndex)
      → IsBacked bodies j
      → length body < 2 ^ 32
      → written body j.fs ≡ true
      → apply_scanned_frame body (frame_size_of (length body)) j.index ≡ x
      → x.capacity_bytes ≡ j.index.capacity_bytes
      → IsBacked (bodies ++ body ∷ []) (record j { index = x; fs = fs_after body j.fs })
  IsBacked-append bodies body j x backed small done effect same = record {
    ready = backed.ready;
    log = contents-fs_after bodies body j.fs backed.log small done;
    fit = Fit-append bodies body backed.fit small;
    replays =
        sym effect
        ∙ ap (apply_scanned_frame body (frame_size_of (length body))) backed.replays
        ∙ sym (replay-append bodies body (empty_index j.index.capacity_bytes))
        ∙ ap (λ c. replay (bodies ++ body ∷ []) (empty_index c)) (sym same);
  }

  size_same : (body : List ℕ) → frame_size_of (length body) ≡ frame_size_for body
  unfolding frame_size_for
  size_same body = omega arith

  pub append_event-IsBacked :
      (bodies : List (List ℕ)) (r : JournalRecord) (j : EventJournal spiffs)
      → IsBacked bodies j
      → IsStorable r
      → length (encode_journal_event r) < 2 ^ 32
      → (append_event spiffs r j).0 ≡ true
      → IsBacked (bodies ++ encode_journal_event r ∷ []) (append_event spiffs r j).1
  unfolding record_appended_event
  append_event-IsBacked bodies r j backed storable small done =
      let body = encode_journal_event r in
      let (fresh, whole, result) = append_event-done r j done in
      subst (IsBacked (bodies ++ body ∷ [])) (sym result) (
        IsBacked-append bodies body j _ backed small whole
          (ap (λ n. apply_scanned_frame body n j.index) (size_same body)
            ∙ apply_scanned_frame-event r (frame_size_for body) j.index storable fresh)
          refl)

  pub append_transition-IsBacked :
      (bodies : List (List ℕ)) (t : JournalTransition) (j : EventJournal spiffs)
      → IsBacked bodies j
      → IsStorableTransition t
      → length (encode_journal_transition t) < 2 ^ 32
      → (append_transition spiffs t j).0 ≡ true
      → IsBacked (bodies ++ encode_journal_transition t ∷ []) (append_transition spiffs t j).1
  unfolding record_appended_transition
  append_transition-IsBacked bodies t j backed storable small done =
      let body = encode_journal_transition t in
      let (whole, result) = append_transition-done t j done in
      subst (IsBacked (bodies ++ body ∷ [])) (sym result) (
        IsBacked-append bodies body j _ backed small whole
          (ap (λ n. apply_scanned_frame body n j.index) (size_same body)
            ∙ apply_scanned_frame-transition t (frame_size_for body) j.index storable)
          refl)
