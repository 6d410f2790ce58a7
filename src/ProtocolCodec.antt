-- ===== src/ProtocolCodec.antt =====
-- firmware/kiosk_runtime_v2/src/protocol/protocol_codec.cpp: the escaping of strings that go into
-- JSON texts.
pub mod Event
use mesflow_kiosk_runtime_v.Prelude.{
  ℕ, ◌+◌, ◌-◌, ◌/◌, ◌%◌, List, [], ◌∷◌, ◌++◌, ltb, ◌==◌, if◌then◌else◌,
}
use mesflow_kiosk_runtime_v.JsonExtract.{quote, backslash}

abbrev pub hex_digit : ℕ → ℕ
hex_digit d = if ltb d 10 then b'0' + d else b'a' + (d - 10)

-- `snprintf` of a control character with "\\u%04x".
abbrev pub unicode_escape : ℕ → List ℕ
unicode_escape c = backslash ∷ b'u' ∷ b'0' ∷ b'0' ∷ hex_digit (c / 16) ∷ hex_digit (c % 16) ∷ []

unfoldable pub escape_char : ℕ → List ℕ
escape_char c =
    if c == quote
    then backslash ∷ quote ∷ []
    else if c == backslash
    then backslash ∷ backslash ∷ []
    else if c == 10
    then backslash ∷ b'n' ∷ []
    else if c == 13
    then backslash ∷ b'r' ∷ []
    else if c == 9
    then backslash ∷ b't' ∷ []
    else if ltb c 0x20
    then unicode_escape c
    else c ∷ []

unfoldable pub json_escape : List ℕ → List ℕ
unfolding escape_char
json_escape [] = []
json_escape (c ∷ s) = escape_char c ++ json_escape s
