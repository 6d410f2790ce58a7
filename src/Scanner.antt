-- ===== src/Scanner.antt =====
-- firmware/kiosk_runtime_v2/src/hardware/scanner_gm65.{h,cpp}: the lines of the bar code scanner.
-- The bytes that the UART has, and the one reading of millis() in a call, are arguments.
pub mod Lines
use mesflow_kiosk_runtime_v.Prelude.{
  ℕ, zero, suc, ◌+◌, ◌-◌, ◌%◌, ◌^◌, Bool, true, false, not, ◌&&◌, ◌||◌, List, [], ◌∷◌, ◌++◌, length,
  ltb, leb, ◌==◌, if◌then◌else◌, is_empty, bytes_eq,
}
use mesflow_kiosk_runtime_v.KioskRuntime.{elapsed}

-- `emitted` are the SCAN events that were published, the newest first.
pub record ScannerGm65 : Type 0 where
  pub baud_rate : ℕ
  pub buffer : List ℕ
  pub last_byte_ms : ℕ
  pub last_emitted_line : List ℕ
  pub last_emitted_ms : ℕ
  pub emitted : List (List ℕ)

abbrev pub max_line_length : ℕ
max_line_length = 128

abbrev pub line_timeout_ms : ℕ
line_timeout_ms = 200

abbrev pub duplicate_suppress_ms : ℕ
duplicate_suppress_ms = 1500

abbrev pub is_line_end : ℕ → Bool
is_line_end c = c == 13 || c == 10

unfoldable pub emit_if_new : ℕ → List ℕ → ScannerGm65 → ScannerGm65
unfolding bytes_eq
emit_if_new now line s =
    if bytes_eq line s.last_emitted_line
      && ltb (elapsed now s.last_emitted_ms) duplicate_suppress_ms
    then s
    else record s { last_emitted_line = line; last_emitted_ms = now; emitted = line ∷ s.emitted }

-- The line in the buffer, if there is one, is emitted, and the buffer is empty again.
unfoldable pub flush_line : ℕ → ScannerGm65 → ScannerGm65
unfolding emit_if_new
flush_line now s =
    if is_empty s.buffer then s else record (emit_if_new now s.buffer s) { buffer = [] }

unfoldable pub take_byte : ℕ → ℕ → ScannerGm65 → ScannerGm65
unfolding flush_line
take_byte now c s =
    let s' = record s { last_byte_ms = now } in
    if is_line_end c
    then flush_line now s'
    else if leb max_line_length (length s.buffer)
    then record s' { buffer = [] }
    else record s' { buffer = s.buffer ++ c ∷ [] }

-- The loop over the bytes that are there.
unfoldable pub take_bytes : ℕ → List ℕ → ScannerGm65 → ScannerGm65
unfolding take_byte
take_bytes now [] s = s
take_bytes now (c ∷ bytes) s = take_bytes now bytes (take_byte now c s)

unfoldable pub poll : ℕ → List ℕ → ScannerGm65 → ScannerGm65
unfolding flush_line take_bytes
poll now available s =
    let s' = if ltb line_timeout_ms (elapsed now s.last_byte_ms) then flush_line now s else s in
    take_bytes now available s'

-- What is left of the UART is its baud rate.
unfoldable pub init : ℕ → ScannerGm65 → ScannerGm65
init baud s = record s { baud_rate = baud }

-- The partial line is dropped.
unfoldable pub reinit : ScannerGm65 → ScannerGm65
unfolding init
reinit s = init s.baud_rate (record s { buffer = [] })

unfoldable pub set_baud : ℕ → ScannerGm65 → ScannerGm65
unfolding init
set_baud baud s = init baud (record s { buffer = [] })
