-- ===== src/JournalFrame/Recovery.antt =====
-- `scan_journal` against the log of whole frames, with a torn frame at its end.
use mesflow_kiosk_runtime_v.Prelude.{
  ℕ, zero, suc, ◌+◌, ◌-◌, ◌%◌, ◌^◌, ◌≤◌, ◌<◌, ◌≡◌, sym, ap, ◌∙◌, ◌++◌, List, [], ◌∷◌, length, take,
  arith, length-append, length-take, append_assoc, append-nil, dec_lt, take-append-le,
  take-append-ge, take-ge,
}
use mesflow_kiosk_runtime_v.JournalFrame.{
  JournalFile, JournalScanFrame, incomplete, stopped, frame_size_of, clean_eof, break_with,
  continue_with, scan_round, scan_from, scan_journal, ScanResult,
}
use mesflow_kiosk_runtime_v.JournalFrame.Bytes.{
  write_u32_le, read_u32_le, read-write_u32_le, length-write_u32_le,
}
use mesflow_kiosk_runtime_v.JournalFrame.Crc.{crc32}
use mesflow_kiosk_runtime_v.JournalFrame.Files.{ReadsInOrder}
use mesflow_kiosk_runtime_v.JournalFrame.Scan.{
  encode_frame, frame_at, marker, scan_round-good, scan_round-empty, scan_round-torn_length,
  scan_round-torn_body, scan_round-uncommitted,
}

-- The log of some bodies, and the frames and the offset that a scan of it from `offset` reports.
abbrev pub encode_log : List (List ℕ) → List ℕ
encode_log [] = []
encode_log (b ∷ bs) = encode_frame b ++ encode_log bs

abbrev pub next_offset : ℕ → List ℕ → ℕ
next_offset offset body = (offset + frame_size_of (length body)) % 2 ^ 32

abbrev pub frames_from : ℕ → List (List ℕ) → List JournalScanFrame
frames_from offset [] = []
frames_from offset (b ∷ bs) = frame_at offset b ∷ frames_from (next_offset offset b) bs

abbrev pub end_offset : ℕ → List (List ℕ) → ℕ
end_offset offset [] = offset
end_offset offset (b ∷ bs) = end_offset (next_offset offset b) bs

-- Every length fits the four bytes that it is written in.
abbrev pub Fit : List (List ℕ) → Type 0
Fit [] = Unit {0}
Fit (b ∷ bs) = (length b < 2 ^ 32) × Fit bs

-- What is reported of the first `k` bytes of a frame.
abbrev pub torn_frames : ℕ → ℕ → List JournalScanFrame
torn_frames zero offset = []
torn_frames (suc k) offset = stopped offset incomplete ∷ []

-- A scan result behind some frames that came first.
abbrev before : ℕ → List JournalScanFrame → ScanResult → ScanResult
before n fs r = record { ok_count = n + r.ok_count; frames = fs ++ r.frames }

before-none : (r : ScanResult) → r ≡ before 0 [] r
before-none r = ground arith

before-before :
    (n : ℕ) (f : JournalScanFrame) (fs : List JournalScanFrame) (r : ScanResult)
    → before 1 (f ∷ []) (before n fs r) ≡ before (suc n) (f ∷ fs) r
before-before n f fs r = ground arith

pub length-encode_frame : (b : List ℕ) → length (encode_frame b) ≡ 9 + length b
length-encode_frame b = omega (
  arith,
  length-append (write_u32_le (length b)) (b ++ (write_u32_le (crc32 b) ++ marker)),
  length-append b (write_u32_le (crc32 b) ++ marker),
  length-append (write_u32_le (crc32 b)) marker,
  length-write_u32_le (length b),
  length-write_u32_le (crc32 b),
)

pub length-encode_log : (bs : List (List ℕ)) → length bs ≤ length (encode_log bs)
length-encode_log [] = omega arith
length-encode_log (b ∷ bs) = omega (
  arith,
  length-append (encode_frame b) (encode_log bs),
  length-encode_frame b,
  length-encode_log bs,
)

pub take-encode_frame_head :
    (k : ℕ) (b : List ℕ) → 4 ≤ k → take 4 (take k (encode_frame b)) ≡ write_u32_le (length b)
take-encode_frame_head k b h =
    let head = write_u32_le (length b) in
    let size = length-write_u32_le (length b) in
    ap (take 4) (take-append-ge k head _ (omega (arith, size)))
    ∙ take-append-le 4 head _ (omega (arith, size))
    ∙ take-ge 4 head (omega (arith, size))

take-encode_frame_last :
    (k : ℕ) (b : List ℕ)
    → k ≡ 8 + length b
    → take k (encode_frame b) ≡ write_u32_le (length b) ++ (b ++ (write_u32_le (crc32 b) ++ []))
take-encode_frame_last k b h =
    let crc = write_u32_le (crc32 b) in
    let size = length-write_u32_le (length b) in
    let crc_size = length-write_u32_le (crc32 b) in
    take-append-ge k (write_u32_le (length b)) (b ++ (crc ++ marker)) (omega (arith, size))
    ∙ ap (◌++◌ (write_u32_le (length b))) (
        take-append-ge (k - length (write_u32_le (length b))) b (crc ++ marker)
          (omega (arith, size))
        ∙ ap (◌++◌ b) (
            take-append-le _ crc marker (omega (arith, size, crc_size))
            ∙ take-ge _ crc (omega (arith, size, crc_size))
            ∙ sym (append-nil crc)))

module _ (file : JournalFile) (laws : ReadsInOrder file) where
  open laws use {unread, stored, opens, opens_at_start}

  scan_round-torn :
      (offset k : ℕ) (b : List ℕ) (s : file.State)
      → unread s ≡ take k (encode_frame b)
      → length b < 2 ^ 32
      → 0 < k
      → k < length (encode_frame b)
      → (scan_round file offset s).0 ≡ break_with (stopped offset incomplete)
  scan_round-torn offset k b s e small pos short =
      let size : length (unread s) ≡ k =
        ap length e ∙ omega (arith, length-take k (encode_frame b)) in
      elim (dec_lt k 4) [
        | yes h ↦
            scan_round-torn_length file laws offset s (λ n. omega (arith, ap length n))
              (omega arith)
        | no h ↦ elim (dec_lt k (8 + length b)) [
          | yes before ↦
              let head : read_u32_le (take 4 (unread s)) ≡ length b =
                ap (λ t. read_u32_le (take 4 t)) e
                ∙ ap read_u32_le (take-encode_frame_head k b (omega arith))
                ∙ read-write_u32_le (length b) small in
              scan_round-torn_body file laws offset s (omega arith) (omega arith)
          | no at ↦
              scan_round-uncommitted file laws offset b s
                (e ∙ take-encode_frame_last k b (omega (arith, length-encode_frame b))) small
        ]
      ]

  scan_from-continue :
      (fuel offset : ℕ) (s : file.State) (f : JournalScanFrame)
      → (scan_round file offset s).0 ≡ continue_with f
      → (scan_from file (suc fuel) offset s).0
        ≡ before 1
            (f ∷ [])
            (scan_from file fuel ((offset + f.frame_size) % 2 ^ 32) (scan_round file offset s).1).0
  unfolding scan_from
  scan_from-continue fuel offset s f e = ground (arith, e)

  pub scan_from-break :
      (fuel offset : ℕ) (s : file.State) (f : JournalScanFrame)
      → (scan_round file offset s).0 ≡ break_with f
      → (scan_from file (suc fuel) offset s).0 ≡ record { ok_count = 0; frames = f ∷ [] }
  unfolding scan_from
  scan_from-break fuel offset s f e = ground (arith, e)

  scan_from-end :
      (fuel offset : ℕ) (s : file.State)
      → (scan_round file offset s).0 ≡ clean_eof
      → (scan_from file (suc fuel) offset s).0 ≡ record { ok_count = 0; frames = [] }
  unfolding scan_from
  scan_from-end fuel offset s e = ground (arith, e)

  -- The whole frames are reported in order, and the scan goes on behind them.
  pub scan_from-log :
      (bodies : List (List ℕ)) (fuel more offset : ℕ) (tail : List ℕ) (s : file.State)
      → unread s ≡ encode_log bodies ++ tail
      → Fit bodies
      → fuel ≡ length bodies + more
      → (s' : file.State) × (unread s' ≡ tail)
        × ((scan_from file fuel offset s).0
            ≡ before
                (length bodies)
                (frames_from offset bodies)
                (scan_from file more (end_offset offset bodies) s').0)
  scan_from-log [] fuel more offset tail s e fit f =
      let same : fuel ≡ more = omega arith in (s, e, rw same (before-none _))
  scan_from-log (b ∷ bs) zero more offset tail s e fit f = absurd (omega arith)
  scan_from-log (b ∷ bs) (suc fuel) more offset tail s e fit f =
      let good =
        scan_round-good file laws offset b (encode_log bs ++ tail) s
          (e ∙ append_assoc (encode_frame b) (encode_log bs) tail) fit.0 in
      let (s', e', run) =
        scan_from-log bs fuel more (next_offset offset b) tail (scan_round file offset s).1 good.1
          fit.1 (omega arith) in
      (
        s',
        e',
        scan_from-continue fuel offset s (frame_at offset b) good.0
            ∙ ap (before 1 (frame_at offset b ∷ [])) run
            ∙ before-before (length bs) (frame_at offset b) (frames_from (next_offset offset b) bs)
                (scan_from file more (end_offset (next_offset offset b) bs) s').0,
      )

  scan_from-torn :
      (fuel offset k : ℕ) (b : List ℕ) (s : file.State)
      → unread s ≡ take k (encode_frame b)
      → length b < 2 ^ 32
      → k < length (encode_frame b)
      → (scan_from file (suc fuel) offset s).0
        ≡ record { ok_count = 0; frames = torn_frames k offset }
  scan_from-torn fuel offset zero b s e small short =
      scan_from-end fuel offset s (scan_round-empty file laws offset s e)
  scan_from-torn fuel offset (suc k) b s e small short =
      scan_from-break fuel offset s _
        (scan_round-torn offset (suc k) b s e small (omega arith) short)

  -- Crash safety: of a log of whole frames and the first bytes of one more, a scan reports all the
  -- whole frames, in order and with their bodies, and of the torn one no more than INCOMPLETE.
  pub scan_journal-torn :
      (bodies : List (List ℕ)) (b : List ℕ) (k fuel : ℕ) (s : file.State)
      → stored s ≡ encode_log bodies ++ take k (encode_frame b)
      → Fit (b ∷ bodies)
      → k < length (encode_frame b)
      → length (stored s) < fuel
      → (scan_journal file fuel s).0 ≡ record {
        ok_count = length bodies;
        frames = frames_from 0 bodies ++ torn_frames k (end_offset 0 bodies);
      }
  unfolding scan_journal
  scan_journal-torn bodies b k fuel s e fit short enough =
      let s₀ = (file.open_for_read s).1 in
      let whole : suc (length bodies) ≤ fuel = omega (
        arith,
        ap length e,
        length-append (encode_log bodies) (take k (encode_frame b)),
        length-encode_log bodies,
      ) in
      let (s', e', run) =
        scan_from-log bodies fuel (suc (fuel - suc (length bodies))) 0 (take k (encode_frame b)) s₀
          (opens_at_start s ∙ e) fit.1 (omega arith) in
      let torn =
        scan_from-torn (fuel - suc (length bodies)) (end_offset 0 bodies) k b s' e' fit.0 short in
      ground (arith, opens s, run, torn)
