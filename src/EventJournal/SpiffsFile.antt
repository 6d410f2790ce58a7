-- ===== src/EventJournal/SpiffsFile.antt =====
-- The ESP32 SPIFFS library, a parameter, and the class `SpiffsJournalFile` over it.
use mesflow_kiosk_runtime_v.Prelude.{
  ℕ, Bool, true, false, if◌then◌else◌, Option, none, some, List, [],
}
use mesflow_kiosk_runtime_v.JournalFrame.{JournalFile}

-- kJournalPath, kJournalTmpPath and kJournalOldPath.
pub data JournalPath : Type 0 where
  dat tmp old : JournalPath

-- The calls that are made of the library. `none` is a `File` that converts to false.
pub record Spiffs : Type 1 where
  pub Fs : Type 0
  pub File : JournalPath → Type 0
  pub begin : Fs → Bool × Fs
  pub exists : JournalPath → Fs → Bool
  pub remove : JournalPath → Fs → Fs
  pub rename : JournalPath → JournalPath → Fs → Bool × Fs
  pub open_append : (path : JournalPath) → Fs → Option (File path) × Fs
  pub open_read : (path : JournalPath) → Fs → Option (File path) × Fs
  pub close_file : (path : JournalPath) → File path → Fs → Fs
  pub write_file : (path : JournalPath) → File path → List ℕ → Fs → ℕ × File path × Fs
  pub flush_file : (path : JournalPath) → File path → Fs → Fs
  pub available : (path : JournalPath) → File path → Fs → Bool
  pub read_file : (path : JournalPath) → File path → ℕ → Fs → List ℕ × File path × Fs

abbrev pub is_open {ℓ} : {A : Type ℓ} → Option A → Bool
is_open none = false
is_open (some _) = true

-- The object's `file_`, with the file system; a new object holds `none`.
abbrev pub spiffs_journal_file : Spiffs → JournalPath → JournalFile
spiffs_journal_file spiffs path = record {
  State = Option (spiffs.File path) × spiffs.Fs;
  open_for_append = λ s. let r = spiffs.open_append path s.1 in (is_open r.0, r);
  open_for_read = λ s.
      let r = spiffs.open_read path s.1 in
      if spiffs.exists path s.1 then (is_open r.0, r) else (true, s);
  close = λ s. elim s.0 [ none ↦ s | some f ↦ (none, spiffs.close_file path f s.1) ];
  write = λ bytes s. elim s.0 [
    | none ↦ (none, s)
    | some f ↦ let (n, f', fs) = spiffs.write_file path f bytes s.1 in (some n, (some f', fs))
  ];
  flush =
      λ s. elim s.0 [ none ↦ (false, s) | some f ↦ (true, (some f, spiffs.flush_file path f s.1)) ];
  read = λ len s. elim s.0 [
    | none ↦ ([], s)
    | some f ↦
        let (bytes, f', fs) = spiffs.read_file path f len s.1 in
        if spiffs.available path f s.1 then (bytes, (some f', fs)) else ([], s)
  ];
}
