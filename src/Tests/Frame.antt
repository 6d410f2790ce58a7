-- ===== src/Tests/Frame.antt =====
-- The journal file at concrete contents.
use mesflow_kiosk_runtime_v.Prelude.{
  ℕ, ◌≡◌, refl, true, false, List, [], ◌∷◌, ◌++◌, codes, take, arith,
}
use mesflow_kiosk_runtime_v.JournalFrame.{
  scan_journal, append_journal_frame, stopped, incomplete, crc_fail, bad_commit_marker,
}
use mesflow_kiosk_runtime_v.JournalFrame.Bytes.{write_u32_le, read_u32_le, first_byte}
use mesflow_kiosk_runtime_v.JournalFrame.Crc.{crc32}
use mesflow_kiosk_runtime_v.JournalFrame.Scan.{encode_frame}
use mesflow_kiosk_runtime_v.JournalFrame.Recovery.{encode_log, frames_from, scan_journal-torn}
use mesflow_kiosk_runtime_v.JournalFrame.Durability.{append-scan_journal, scan_journal-behind_torn}
use mesflow_kiosk_runtime_v.Tests.MemoryFile.{
  memory_file, Memory, holding, memory_file-ReadsInOrder, memory_file-AppendsAtEnd,
}

abbrev first_body : List ℕ
first_body = codes "{}"

abbrev second_body : List ℕ
second_body = codes "[1]"

abbrev one_frame : Memory
one_frame = holding (encode_log (first_body ∷ [])) 100

abbrev torn_log : Memory
torn_log = holding (encode_log (first_body ∷ []) ++ take 6 (encode_frame second_body)) 100

scan_journal-torn_example : (scan_journal memory_file 50 torn_log).0 ≡ record {
  ok_count = 1;
  frames = frames_from 0 (first_body ∷ []) ++ stopped 11 incomplete ∷ [];
}
unfolding write_u32_le crc32
scan_journal-torn_example =
    scan_journal-torn memory_file memory_file-ReadsInOrder (first_body ∷ []) second_body 6 50
      torn_log refl (omega arith) (omega arith) (omega arith)

append_is_whole : (append_journal_frame memory_file second_body one_frame).0 ≡ true
unfolding append_journal_frame write_u32_le crc32
append_is_whole = refl

-- A disk with room for seven bytes only keeps a torn frame, and the append returns false.
full_disk : (append_journal_frame memory_file second_body (holding [] 7)).0 ≡ false
unfolding append_journal_frame write_u32_le crc32
full_disk = refl

append-scan_journal_example :
    (scan_journal memory_file 50 (append_journal_frame memory_file second_body one_frame).1).0
    ≡ record { ok_count = 2; frames = frames_from 0 (first_body ∷ second_body ∷ []) }
append-scan_journal_example =
    append-scan_journal memory_file memory_file-ReadsInOrder memory_file-AppendsAtEnd
      (first_body ∷ []) second_body 50 one_frame refl (omega arith) append_is_whole
      (unfold write_u32_le crc32 in omega arith)

-- A long frame torn behind its length, and three whole frames that were appended after the next
-- boot.
abbrev long_body : List ℕ
long_body = codes "{\"k\":\"E\",\"record_version\":1}"

abbrev later_frames : List ℕ
later_frames = encode_log (second_body ∷ long_body ∷ second_body ∷ [])

abbrev appended_behind : Memory
appended_behind =
    holding (encode_log (first_body ∷ []) ++ (take 6 (encode_frame long_body) ++ later_frames)) 100

scan_journal-behind_torn_example :
    (scan_journal memory_file 120 appended_behind).0
    ≡ record { ok_count = 1; frames = frames_from 0 (first_body ∷ []) ++ stopped 11 crc_fail ∷ [] }
unfolding write_u32_le crc32 read_u32_le
scan_journal-behind_torn_example =
    scan_journal-behind_torn memory_file memory_file-ReadsInOrder (first_body ∷ []) long_body
      later_frames 6 120 appended_behind refl (omega arith) (omega arith) refl (omega arith)

-- A flipped body byte fails the checksum, and a frame without its marker is not committed.
scan_flipped :
    (scan_journal memory_file 50 (
      holding
        (write_u32_le 2 ++ (codes "{{" ++ (write_u32_le (crc32 first_body) ++ (0xC3 ∷ []))))
        0)).0
    ≡ record { ok_count = 0; frames = stopped 0 crc_fail ∷ [] }
unfolding scan_journal write_u32_le crc32 read_u32_le first_byte
scan_flipped = refl

scan_bad_marker :
    (scan_journal memory_file 50 (
      holding
        (write_u32_le 2 ++ (first_body ++ (write_u32_le (crc32 first_body) ++ (0xC4 ∷ []))))
        0)).0
    ≡ record { ok_count = 0; frames = stopped 0 bad_commit_marker ∷ [] }
unfolding scan_journal write_u32_le crc32 read_u32_le first_byte
scan_bad_marker = refl
