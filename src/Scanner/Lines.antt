-- ===== src/Scanner/Lines.antt =====
-- The lines that the scanner of firmware/kiosk_runtime_v2/src/hardware/scanner_gm65.cpp emits.
use mesflow_kiosk_runtime_v.Prelude.{
  ℕ, ◌≤◌, ◌≡◌, sym, subst, Bool, true, false, ◌&&◌, List, [], ◌∷◌, ◌++◌, length, ltb, leb,
  if◌then◌else◌, is_empty, bytes_eq, arith, All, All-append, length-append, Bool-cases, inl, inr,
}
use mesflow_kiosk_runtime_v.KioskRuntime.{elapsed}
use mesflow_kiosk_runtime_v.Scanner.{
  ScannerGm65, is_line_end, max_line_length, line_timeout_ms, duplicate_suppress_ms, emit_if_new,
  flush_line, take_byte, take_bytes, poll, init, reinit, set_baud,
}

-- A line that may be emitted.
pub record IsLine (line : List ℕ) : Type 0 where
  pub is_there : is_empty line ≡ false
  pub is_bounded : length line ≤ max_line_length
  pub has_no_end : All (λ c. is_line_end c ≡ false) line

-- What holds between two calls.
pub record IsClean (s : ScannerGm65) : Type 0 where
  pub buffer_bounded : length s.buffer ≤ max_line_length
  pub buffer_clean : All (λ c. is_line_end c ≡ false) s.buffer
  pub lines : All IsLine s.emitted

IsClean-branch :
    (b : Bool) (x y : ScannerGm65) → IsClean x → IsClean y → IsClean (if b then x else y)
IsClean-branch true x y p q = p
IsClean-branch false x y p q = q

emit_if_new-IsClean :
    (now : ℕ) (line : List ℕ) (s : ScannerGm65)
    → IsLine line
    → IsClean s
    → IsClean (emit_if_new now line s)
unfolding emit_if_new
emit_if_new-IsClean now line s is_line clean =
    let repeated =
      bytes_eq line s.last_emitted_line
      && ltb (elapsed now s.last_emitted_ms) duplicate_suppress_ms in
    IsClean-branch repeated s
      (record s { last_emitted_line = line; last_emitted_ms = now; emitted = line ∷ s.emitted })
      clean
      (record {
        buffer_bounded = clean.buffer_bounded;
        buffer_clean = clean.buffer_clean;
        lines = (is_line, clean.lines);
      })

empty_buffer : (s : ScannerGm65) → IsClean s → IsClean (record s { buffer = [] })
empty_buffer s clean = record {
  buffer_bounded = omega arith;
  buffer_clean = tt;
  lines = clean.lines;
}

flush_line-IsClean : (now : ℕ) (s : ScannerGm65) → IsClean s → IsClean (flush_line now s)
unfolding flush_line
flush_line-IsClean now s clean = elim (Bool-cases (is_empty s.buffer)) [
  | inl nothing ↦
      subst (λ b. IsClean (if b then s else record (emit_if_new now s.buffer s) { buffer = [] }))
        (sym nothing) clean
  | inr some_line ↦
      let is_line : IsLine s.buffer = record {
        is_there = some_line;
        is_bounded = clean.buffer_bounded;
        has_no_end = clean.buffer_clean;
      } in
      subst (λ b. IsClean (if b then s else record (emit_if_new now s.buffer s) { buffer = [] }))
        (sym some_line)
        (empty_buffer (emit_if_new now s.buffer s)
          (emit_if_new-IsClean now s.buffer s is_line clean))
]

-- One more byte of a line.
grow_buffer :
    (c : ℕ) (s : ScannerGm65)
    → is_line_end c ≡ false
    → leb max_line_length (length s.buffer) ≡ false
    → IsClean s
    → IsClean (record s { buffer = s.buffer ++ c ∷ [] })
grow_buffer c s plain room clean = record {
  buffer_bounded = ground (arith, length-append s.buffer (c ∷ []));
  buffer_clean = All-append (λ d. is_line_end d ≡ false) s.buffer c clean.buffer_clean plain;
  lines = clean.lines;
}

take_byte-IsClean : (now c : ℕ) (s : ScannerGm65) → IsClean s → IsClean (take_byte now c s)
unfolding take_byte
take_byte-IsClean now c s clean =
    let s' = record s { last_byte_ms = now } in
    let clean' : IsClean s' = record {
      buffer_bounded = clean.buffer_bounded;
      buffer_clean = clean.buffer_clean;
      lines = clean.lines;
    } in
    let next = λ (e f : Bool).
      if e
      then flush_line now s'
      else if f
      then record s' { buffer = [] }
      else record s' { buffer = s.buffer ++ c ∷ [] } in
    elim (Bool-cases (is_line_end c)) [
      | inl ends ↦
          subst (λ e. IsClean (next e (leb max_line_length (length s.buffer)))) (sym ends)
            (flush_line-IsClean now s' clean')
      | inr plain ↦
          subst (λ e. IsClean (next e (leb max_line_length (length s.buffer)))) (sym plain)
            (elim (Bool-cases (leb max_line_length (length s.buffer))) [
              | inl long ↦ subst (λ f. IsClean (next false f)) (sym long) (empty_buffer s' clean')
              | inr room ↦
                  subst (λ f. IsClean (next false f)) (sym room)
                    (grow_buffer c s' plain room clean')
            ])
    ]

take_bytes-IsClean :
    (now : ℕ) (bytes : List ℕ) (s : ScannerGm65) → IsClean s → IsClean (take_bytes now bytes s)
unfolding take_bytes
take_bytes-IsClean now [] s clean = clean
take_bytes-IsClean now (c ∷ bytes) s clean =
    take_bytes-IsClean now bytes (take_byte now c s) (take_byte-IsClean now c s clean)

poll-IsClean : (now : ℕ) (bytes : List ℕ) (s : ScannerGm65) → IsClean s → IsClean (poll now bytes s)
unfolding poll
poll-IsClean now bytes s clean =
    let late = ltb line_timeout_ms (elapsed now s.last_byte_ms) in
    take_bytes-IsClean now bytes (if late then flush_line now s else s)
      (IsClean-branch late (flush_line now s) s (flush_line-IsClean now s clean) clean)

set_rate : (baud : ℕ) (s : ScannerGm65) → IsClean s → IsClean (record s { baud_rate = baud })
set_rate baud s clean = record {
  buffer_bounded = clean.buffer_bounded;
  buffer_clean = clean.buffer_clean;
  lines = clean.lines;
}

-- The scanner as it is constructed.
abbrev pub new_scanner : ScannerGm65
new_scanner = record {
  baud_rate = 9600;
  buffer = [];
  last_byte_ms = 0;
  last_emitted_line = [];
  last_emitted_ms = 0;
  emitted = [];
}

-- What moves a scanner.
pub data ScannerStep : Type 0 where
  poll_at : ℕ → List ℕ → ScannerStep
  started : ℕ → ScannerStep
  attach_again : ScannerStep
  baud_changed : ℕ → ScannerStep

abbrev pub run : List ScannerStep → ScannerGm65 → ScannerGm65
run [] s = s
run (poll_at now bytes ∷ steps) s = run steps (poll now bytes s)
run (started baud ∷ steps) s = run steps (init baud s)
run (attach_again ∷ steps) s = run steps (reinit s)
run (baud_changed baud ∷ steps) s = run steps (set_baud baud s)

run-IsClean : (steps : List ScannerStep) (s : ScannerGm65) → IsClean s → IsClean (run steps s)
unfolding reinit set_baud init
run-IsClean [] s clean = clean
run-IsClean (poll_at now bytes ∷ steps) s clean =
    run-IsClean steps (poll now bytes s) (poll-IsClean now bytes s clean)
run-IsClean (started baud ∷ steps) s clean = run-IsClean steps (init baud s) (set_rate baud s clean)
run-IsClean (attach_again ∷ steps) s clean =
    run-IsClean steps (reinit s)
      (set_rate s.baud_rate (record s { buffer = [] }) (empty_buffer s clean))
run-IsClean (baud_changed baud ∷ steps) s clean =
    run-IsClean steps (set_baud baud s)
      (set_rate baud (record s { buffer = [] }) (empty_buffer s clean))

-- Whatever bytes come and whenever, each line that a new scanner emits has from 1 to 128 bytes, and
-- none of them ends a line.
pub run-IsLine : (steps : List ScannerStep) → All IsLine (run steps new_scanner).emitted
run-IsLine steps =
    let clean : IsClean new_scanner = record {
      buffer_bounded = omega arith;
      buffer_clean = tt;
      lines = tt;
    } in
    (run-IsClean steps new_scanner clean).lines
