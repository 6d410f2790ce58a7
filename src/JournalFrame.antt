-- ===== src/JournalFrame.antt =====
-- firmware/kiosk_runtime_v2/src/protocol/event_journal_core.{h,cpp} and crc32.h: the on-disk frame
-- of the event journal, `append_journal_frame` and `scan_journal` over an abstract file.
pub mod Bytes
pub mod Crc
pub mod Files
pub mod Reading
pub mod Scan
pub mod Recovery
pub mod Append
pub mod Durability
use mesflow_kiosk_runtime_v.Prelude.{
  ℕ, zero, suc, ◌+◌, ◌-◌, ◌%◌, ◌^◌, Bool, true, false, not, Option, none, some, List, [], ◌∷◌, ◌++◌,
  length, is_empty, ◌==◌, if◌then◌else◌, codes,
}
use Bytes.{write_u32_le, read_u32_le, first_byte}
use Crc.{crc32}

abbrev pub journal_commit_marker : ℕ
journal_commit_marker = 0xC3

-- The abstract class `JournalFile`, its C++ object a value of `State`. `write` returns the count
-- of bytes written, `none` for -1; `read` returns the bytes read, none of them for a count <= 0.
pub record JournalFile : Type 1 where
  pub State : Type 0
  pub open_for_append : State → Bool × State
  pub open_for_read : State → Bool × State
  pub close : State → State
  pub write : List ℕ → State → Option ℕ × State
  pub flush : State → Bool × State
  pub read : ℕ → State → List ℕ × State

pub data JournalFrameOutcome : Type 0 where
  ok incomplete crc_fail bad_commit_marker : JournalFrameOutcome

pub record JournalScanFrame : Type 0 where
  pub offset : ℕ
  pub frame_size : ℕ
  pub body_json : List ℕ
  pub outcome : JournalFrameOutcome

-- A frame that is not OK keeps the struct's defaults for its size and body.
abbrev pub stopped : ℕ → JournalFrameOutcome → JournalScanFrame
stopped offset outcome = record {
  offset = offset;
  frame_size = 0;
  body_json = [];
  outcome = outcome;
}

-- uint32_t arithmetic: 4 + body_len + 4 + 1.
abbrev pub frame_size_of : ℕ → ℕ
frame_size_of body_len = (4 + body_len + 4 + 1) % 2 ^ 32

-- One round of the loop of `scan_journal`: it breaks with no frame, breaks with one, or goes on.
pub data Round : Type 0 where
  clean_eof : Round
  break_with : JournalScanFrame → Round
  continue_with : JournalScanFrame → Round

pub record ScanResult : Type 0 where
  pub ok_count : ℕ
  pub frames : List JournalScanFrame

module _ (file : JournalFile) where
  open file use {State, open_for_append, open_for_read, close, write, flush, read}

  -- A round reads one byte at least, so `len` rounds are enough: the first argument is `len`.
  pub read_exact_from : ℕ → ℕ → State → List ℕ × State
  read_exact_from zero len s = ([], s)
  read_exact_from (suc fuel) len s =
      let (chunk, s') = read len s in
      let rest = read_exact_from fuel (len - length chunk) s' in
      if len == 0 then ([], s) else if is_empty chunk then ([], s') else (chunk ++ rest.0, rest.1)

  -- The bytes got, to be compared with `len` by the caller (`return got == len`).
  pub read_exact : ℕ → State → List ℕ × State
  unfolding read_exact_from
  read_exact len s = read_exact_from len len s

  check_marker : ℕ → ℕ → List ℕ → State → Round × State
  unfolding read_exact
  check_marker offset body_len body s =
      let (marker, s') = read_exact 1 s in
      if not (length marker == 1)
      then (break_with (stopped offset incomplete), s')
      else if not (first_byte marker == journal_commit_marker)
      then (break_with (stopped offset bad_commit_marker), s')
      else (
        continue_with (record {
          offset = offset;
          frame_size = frame_size_of body_len;
          body_json = body;
          outcome = ok;
        }),
        s',
      )

  check_crc : ℕ → ℕ → List ℕ → State → Round × State
  unfolding check_marker
  check_crc offset body_len body s =
      let (crc_bytes, s') = read_exact 4 s in
      if not (length crc_bytes == 4)
      then (break_with (stopped offset incomplete), s')
      else if not (read_u32_le crc_bytes == crc32 body)
      then (break_with (stopped offset crc_fail), s')
      else check_marker offset body_len body s'

  read_body : ℕ → ℕ → State → Round × State
  unfolding check_crc
  read_body offset body_len s =
      let (body, s') = read_exact body_len s in
      if not (length body == body_len)
      then (break_with (stopped offset incomplete), s')
      else check_crc offset body_len body s'

  pub scan_round : ℕ → State → Round × State
  unfolding read_body
  scan_round offset s =
      let (len_bytes, s') = read_exact 4 s in
      if length len_bytes == 4
      then read_body offset (read_u32_le len_bytes) s'
      else if is_empty len_bytes
      then (clean_eof, s')
      else (break_with (stopped offset incomplete), s')

  -- `for (;;)` on fuel, with the frames in the order of the `on_frame` calls.
  pub scan_from : ℕ → ℕ → State → ScanResult × State
  unfolding scan_round
  scan_from zero offset s = (record { ok_count = 0; frames = [] }, s)
  scan_from (suc fuel) offset s =
      let (round, s') = scan_round offset s in
      elim round [
        | clean_eof ↦ (record { ok_count = 0; frames = [] }, s')
        | break_with f ↦ (record { ok_count = 0; frames = f ∷ [] }, s')
        | continue_with f ↦
            let (rest, s'') = scan_from fuel ((offset + f.frame_size) % 2 ^ 32) s' in
            (record { ok_count = rest.ok_count + 1; frames = f ∷ rest.frames }, s'')
      ]

  unfoldable pub scan_journal : ℕ → State → ScanResult × State
  unfolding scan_from
  scan_journal fuel s =
      let (opened, s') = open_for_read s in
      if opened
      then (let (result, s'') = scan_from fuel 0 s' in (result, close s''))
      else (record { ok_count = 0; frames = [] }, s')

  -- `file.write(data, n) != n` and `!file.flush()`, each followed by `close` and `return false`.
  write_all : List ℕ → State → Bool × State
  write_all bytes s =
      let (written, s') = write bytes s in
      elim written [ none ↦ (false, s') | some n ↦ (n == length bytes, s') ]

  or_close : Bool × State → (State → Bool × State) → Bool × State
  or_close (true, s) next = next s
  or_close (false, s) next = (false, close s)

  -- The ordered writes and flushes behind a successful open.
  write_frame : List ℕ → State → Bool × State
  unfolding write_all or_close
  write_frame body_json s₀ =
      or_close (write_all (write_u32_le (length body_json % 2 ^ 32)) s₀) λ s₁.
        or_close (if is_empty body_json then (true, s₁) else write_all body_json s₁) λ s₂.
          or_close (flush s₂) λ s₃. or_close (write_all (write_u32_le (crc32 body_json)) s₃) λ s₄.
            or_close (flush s₄) λ s₅.
              or_close (write_all (journal_commit_marker ∷ []) s₅)
                λ s₆. let (done, s₇) = flush s₆ in (done, close s₇)

  unfoldable pub append_journal_frame : List ℕ → State → Bool × State
  unfolding write_frame
  append_journal_frame body_json s =
      let (opened, s₀) = open_for_append s in
      if opened then write_frame body_json s₀ else (false, s₀)
