-- ===== src/JournalFrame/Files.antt =====
-- What the file system documents of an open file: the laws that SPIFFS files are assumed to obey.
use mesflow_kiosk_runtime_v.Prelude.{
  ℕ, ◌<◌, ◌≤◌, ◌≡◌, ◌≢◌, true, some, List, [], ◌++◌, length, take, drop,
}
use mesflow_kiosk_runtime_v.JournalFrame.{JournalFile}

-- Reads give the next bytes, some at least while there are any, and never more than asked for.
pub record ReadsInOrder (file : JournalFile) : Type 0 where
  pub stored : file.State → List ℕ
  pub unread : file.State → List ℕ
  pub opens : (s : file.State) → (file.open_for_read s).0 ≡ true
  pub opens_at_start : (s : file.State) → unread (file.open_for_read s).1 ≡ stored s
  pub chunk : ℕ → file.State → ℕ
  pub chunk_le : (n : ℕ) (s : file.State) → 0 < n → chunk n s ≤ n
  pub chunk_within : (n : ℕ) (s : file.State) → 0 < n → chunk n s ≤ length (unread s)
  pub chunk_pos : (n : ℕ) (s : file.State) → 0 < n → unread s ≢ [] → 0 < chunk n s
  pub read_gives :
      (n : ℕ) (s : file.State) → 0 < n → (file.read n s).0 ≡ take (chunk n s) (unread s)
  pub read_moves :
      (n : ℕ) (s : file.State) → 0 < n → unread (file.read n s).1 ≡ drop (chunk n s) (unread s)

-- A write adds a prefix of its bytes, and all that it reports; nothing else changes the contents.
pub record AppendsAtEnd (file : JournalFile) (stored : file.State → List ℕ) : Type 0 where
  pub open_keeps : (s : file.State) → stored (file.open_for_append s).1 ≡ stored s
  pub close_keeps : (s : file.State) → stored (file.close s) ≡ stored s
  pub flush_keeps : (s : file.State) → stored (file.flush s).1 ≡ stored s
  pub landed : List ℕ → file.State → ℕ
  pub write_adds :
      (bytes : List ℕ) (s : file.State)
      → stored (file.write bytes s).1 ≡ stored s ++ take (landed bytes s) bytes
  pub write_reports :
      (bytes : List ℕ) (s : file.State) (n : ℕ)
      → (file.write bytes s).0 ≡ some n
      → landed bytes s ≡ n
