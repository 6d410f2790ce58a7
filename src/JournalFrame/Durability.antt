-- ===== src/JournalFrame/Durability.antt =====
-- Appending and scanning together: what the next boot finds of an append that succeeded, of one
-- that failed, and of one that came after a torn frame.
use mesflow_kiosk_runtime_v.Prelude.{
  ℕ, suc, ◌+◌, ◌-◌, ◌^◌, ◌≤◌, ◌<◌, ◌≡◌, sym, ap, ◌∙◌, ◌++◌, List, [], ◌∷◌, length, take, drop, true,
  false, ltb, if◌then◌else◌, Bool-cases, inl, inr, length-drop, arith, length-append, append_assoc,
  append-nil, take-append-le, take-ge, length-take,
}
use mesflow_kiosk_runtime_v.JournalFrame.{
  JournalFile, JournalFrameOutcome, append_journal_frame, scan_journal, scan_round, break_with,
  incomplete, crc_fail, stopped,
}
use mesflow_kiosk_runtime_v.JournalFrame.Bytes.{read_u32_le, read-write_u32_le}
use mesflow_kiosk_runtime_v.JournalFrame.Files.{ReadsInOrder, AppendsAtEnd}
use mesflow_kiosk_runtime_v.JournalFrame.Scan.{encode_frame, scan_round-torn_body}
use mesflow_kiosk_runtime_v.JournalFrame.Scan.Misread.{reads_back, scan_round-misread}
use mesflow_kiosk_runtime_v.JournalFrame.Recovery.{
  encode_log, frames_from, end_offset, Fit, length-encode_frame, length-encode_log,
  take-encode_frame_head, scan_from-log, scan_from-break, scan_journal-torn,
}
use mesflow_kiosk_runtime_v.JournalFrame.Append.{append_journal_frame-Lands}

-- What the scan calls a frame whose length is there and which does not read back.
abbrev pub hidden_outcome : ℕ → List ℕ → JournalFrameOutcome
hidden_outcome n bytes = if ltb (length bytes) (n + 4) then incomplete else crc_fail

pub encode_log-append :
    (bodies : List (List ℕ)) (b : List ℕ)
    → encode_log (bodies ++ b ∷ []) ≡ encode_log bodies ++ encode_frame b
encode_log-append [] b = append-nil (encode_frame b)
encode_log-append (c ∷ bodies) b =
    ap (◌++◌ (encode_frame c)) (encode_log-append bodies b)
    ∙ sym (append_assoc (encode_frame c) (encode_log bodies) (encode_frame b))

pub Fit-append :
    (bodies : List (List ℕ)) (b : List ℕ) → Fit bodies → length b < 2 ^ 32 → Fit (bodies ++ b ∷ [])
Fit-append [] b h small = (small, tt)
Fit-append (c ∷ bodies) b h small = (h.0, Fit-append bodies b h.1 small)

module _ (file : JournalFile) (laws : ReadsInOrder file)
    (appends : AppendsAtEnd file laws.stored) where
  open laws use {stored}

  -- An append that returned true is durable: the next scan reports every frame that was there
  -- before, in order, then the new one, and nothing else.
  pub append-scan_journal :
      (bodies : List (List ℕ)) (b : List ℕ) (fuel : ℕ) (s : file.State)
      → stored s ≡ encode_log bodies
      → Fit (b ∷ bodies)
      → (append_journal_frame file b s).0 ≡ true
      → length (stored s) + length (encode_frame b) < fuel
      → (scan_journal file fuel (append_journal_frame file b s).1).0
        ≡ record { ok_count = length (bodies ++ b ∷ []); frames = frames_from 0 (bodies ++ b ∷ []) }
  append-scan_journal bodies b fuel s e fit done enough =
      let (k, short, lands, full) = append_journal_frame-Lands file stored appends b s fit.0 in
      let s' = (append_journal_frame file b s).1 in
      let all : stored s' ≡ stored s ++ encode_frame b =
        lands ∙ ap (◌++◌ (stored s)) (take-ge k (encode_frame b) (omega (arith, full done))) in
      let log : stored s' ≡ encode_log (bodies ++ b ∷ []) ++ [] =
        all
        ∙ ap (λ t. t ++ encode_frame b) e
        ∙ sym (encode_log-append bodies b)
        ∙ sym (append-nil (encode_log (bodies ++ b ∷ []))) in
      scan_journal-torn file laws (bodies ++ b ∷ []) [] 0 fuel s' log
        (omega arith, Fit-append bodies b fit.1 fit.0) (omega (arith, length-encode_frame []))
        (omega (arith, ap length all, length-append (stored s) (encode_frame b)))
      ∙ ap (λ fs. record { ok_count = length (bodies ++ b ∷ []); frames = fs })
          (append-nil (frames_from 0 (bodies ++ b ∷ [])))

module _ (file : JournalFile) (laws : ReadsInOrder file) where
  open laws use {stored, unread, opens, opens_at_start}

  -- A scan that comes to a length without a body of this length and its checksum.
  scan_round-hidden :
      (offset n : ℕ) (s : file.State)
      → 4 ≤ length (unread s)
      → read_u32_le (take 4 (unread s)) ≡ n
      → reads_back n (drop 4 (unread s)) ≡ false
      → (scan_round file offset s).0
        ≡ break_with (stopped offset (hidden_outcome n (drop 4 (unread s))))
  scan_round-hidden offset n s long head wrong =
      let rest = drop 4 (unread s) in
      let left = length-drop 4 (unread s) in
      elim (Bool-cases (ltb (length rest) (n + 4))) [
        | inl short ↦
            scan_round-torn_body file laws offset s long (ground (arith, left, head))
            ∙ ap (λ b. break_with (stopped offset (if b then incomplete else crc_fail))) (sym short)
        | inr enough ↦
            scan_round-misread file laws offset s (ap (λ m. reads_back m rest) head ∙ wrong)
              (ground (arith, left, head))
            ∙ ap (λ b. break_with (stopped offset (if b then incomplete else crc_fail)))
                (sym enough)
      ]

  -- Frames behind a torn one are lost: if the file goes on behind the first `k` bytes of a frame,
  -- its length among them, the scan reports the frames before the torn one and one INCOMPLETE or
  -- CRC_FAIL frame, whatever the later bytes and however many, unless the bytes behind the torn
  -- frame's length happen to hold a body of this length with its checksum.
  pub scan_journal-behind_torn :
      (bodies : List (List ℕ)) (b later : List ℕ) (k fuel : ℕ) (s : file.State)
      → stored s ≡ encode_log bodies ++ (take k (encode_frame b) ++ later)
      → Fit (b ∷ bodies)
      → 4 ≤ k
      → reads_back (length b) (drop 4 (take k (encode_frame b) ++ later)) ≡ false
      → length (stored s) < fuel
      → (scan_journal file fuel s).0 ≡ record {
        ok_count = length bodies;
        frames =
            frames_from 0 bodies
            ++ stopped
                (end_offset 0 bodies)
                (hidden_outcome (length b) (drop 4 (take k (encode_frame b) ++ later)))
              ∷ [];
      }
  unfolding scan_journal
  scan_journal-behind_torn bodies b later k fuel s e fit long wrong enough =
      let s₀ = (file.open_for_read s).1 in
      let torn = take k (encode_frame b) in
      let whole : suc (length bodies) ≤ fuel = omega (
        arith,
        ap length e,
        length-append (encode_log bodies) (torn ++ later),
        length-encode_log bodies,
        length-append torn later,
        length-take k (encode_frame b),
        length-encode_frame b,
      ) in
      let (s', e', run) =
        scan_from-log file laws bodies fuel (suc (fuel - suc (length bodies))) 0 (torn ++ later) s₀
          (opens_at_start s ∙ e) fit.1 (omega arith) in
      let size : 4 ≤ length torn =
        omega (arith, length-take k (encode_frame b), length-encode_frame b) in
      let head : read_u32_le (take 4 (unread s')) ≡ length b =
        ap (λ t. read_u32_le (take 4 t)) e'
        ∙ ap read_u32_le
            (take-append-le 4 torn later (omega (arith, size)) ∙ take-encode_frame_head k b long)
        ∙ read-write_u32_le (length b) fit.0 in
      let stop =
        scan_round-hidden (end_offset 0 bodies) (length b) s'
          (omega (arith, ap length e', length-append torn later, size)) head
          (ap (λ t. reads_back (length b) (drop 4 t)) e' ∙ wrong)
        ∙ ap
            (λ t. break_with (stopped (end_offset 0 bodies) (hidden_outcome (length b) (drop 4 t))))
            e' in
      let hidden =
        scan_from-break file laws (fuel - suc (length bodies)) (end_offset 0 bodies) s' _ stop in
      ground (arith, opens s, run, hidden)
