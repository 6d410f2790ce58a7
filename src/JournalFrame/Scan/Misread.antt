-- ===== src/JournalFrame/Scan/Misread.antt =====
-- A frame whose checksum is not that of its body, in the scan of
-- firmware/kiosk_runtime_v2/src/protocol/event_journal_core.cpp.
use mesflow_kiosk_runtime_v.Prelude.{
  Bool, false, ◌&&◌, leb, ◌==◌, ℕ, ◌+◌, ◌≤◌, ◌≡◌, sym, ap, ◌∙◌, List, length, take, drop, arith,
  length-take, length-drop, take-append-drop,
}
use mesflow_kiosk_runtime_v.JournalFrame.{
  JournalFile, stopped, crc_fail, break_with, check_crc, read_body, scan_round,
}
use mesflow_kiosk_runtime_v.JournalFrame.Bytes.{read_u32_le}
use mesflow_kiosk_runtime_v.JournalFrame.Crc.{crc32}
use mesflow_kiosk_runtime_v.JournalFrame.Files.{ReadsInOrder}
use mesflow_kiosk_runtime_v.JournalFrame.Reading.{read_exact_prefix}
use mesflow_kiosk_runtime_v.JournalFrame.Scan.{scan_round-next, read_body-next}

-- Whether the bytes behind a length `n` hold a body of this length with its checksum.
abbrev pub reads_back : ℕ → List ℕ → Bool
reads_back n bytes =
    leb (n + 4) (length bytes) && (read_u32_le (take 4 (drop n bytes)) == crc32 (take n bytes))

module _ (file : JournalFile) (laws : ReadsInOrder file) where
  open laws use {unread}

  read_body-misread :
      (offset n : ℕ) (s : file.State)
      → reads_back n (unread s) ≡ false
      → n + 4 ≤ length (unread s)
      → (read_body file offset n s).0 ≡ break_with (stopped offset crc_fail)
  unfolding check_crc
  read_body-misread offset n s wrong long =
      let body = take n (unread s) in
      let tail = drop n (unread s) in
      let (s₁, e₁, step₁) =
        read_body-next file laws offset n body tail s (sym (take-append-drop n (unread s)))
          (omega (arith, length-take n (unread s))) in
      let got =
        read_exact_prefix file laws 4 (take 4 tail) (drop 4 tail) s₁
          (e₁ ∙ sym (take-append-drop 4 tail))
          (omega (arith, length-take 4 tail, length-drop n (unread s))) in
      rw step₁ (ground (arith, got.0, length-take 4 tail, length-drop n (unread s), wrong))

  -- A length, and a body whose checksum is not the one behind it.
  pub scan_round-misread :
      (offset : ℕ) (s : file.State)
      → reads_back (read_u32_le (take 4 (unread s))) (drop 4 (unread s)) ≡ false
      → 4 + read_u32_le (take 4 (unread s)) + 4 ≤ length (unread s)
      → (scan_round file offset s).0 ≡ break_with (stopped offset crc_fail)
  scan_round-misread offset s wrong long =
      let n = read_u32_le (take 4 (unread s)) in
      let (s₁, e₁, step₁) =
        scan_round-next file laws offset (take 4 (unread s)) (drop 4 (unread s)) s
          (sym (take-append-drop 4 (unread s))) (omega (arith, length-take 4 (unread s))) in
      rw step₁ (
        read_body-misread offset n s₁ (ap (reads_back n) e₁ ∙ wrong)
          (omega (arith, ap length e₁, length-drop 4 (unread s))))
