-- ===== src/JsonObject.antt =====
-- Flat JSON objects, as a list of fields: the layout that the encoders of protocol/ write, against
-- which their texts and the extractors of json_extract.cpp are specified.
pub mod Escape
pub mod Find
pub mod Extract
use mesflow_kiosk_runtime_v.Prelude.{
  ℕ, ◌≤◌, ◌≡◌, Bool, true, false, ◌&&◌, ◌||◌, Option, none, some, List, [], ◌∷◌, ◌++◌, leb, ◌==◌,
  if◌then◌else◌, bytes_eq, codes,
}
use mesflow_kiosk_runtime_v.Decimal.{print_unsigned}
use mesflow_kiosk_runtime_v.JsonExtract.{quote}
use mesflow_kiosk_runtime_v.ProtocolCodec.{json_escape}

pub data Value : Type 0 where
  text : List ℕ → Value
  number : ℕ → Value

-- A value, with the text that comes behind it.
abbrev pub value_text : Value → List ℕ → List ℕ
value_text (text s) rest = quote ∷ (json_escape s ++ (quote ∷ rest))
value_text (number n) rest = print_unsigned n ++ rest

abbrev pub field_text : List ℕ × Value → List ℕ → List ℕ
field_text (key, v) rest = quote ∷ (key ++ (quote ∷ b':' ∷ value_text v rest))

abbrev pub fields_text : List (List ℕ × Value) → List ℕ
fields_text [] = b'}' ∷ []
fields_text (f ∷ fs) = b',' ∷ field_text f (fields_text fs)

abbrev pub object_text : List ℕ × Value → List (List ℕ × Value) → List ℕ
object_text f fs = b'{' ∷ field_text f (fields_text fs)

unfoldable pub get : List ℕ → List (List ℕ × Value) → Option Value
unfolding bytes_eq
get key [] = none
get key ((k, v) ∷ fs) = let later = get key fs in if bytes_eq key k then some v else later

-- Keys are lower-case letters and underscores.
abbrev pub is_key_char : ℕ → Bool
is_key_char c = c == b'_' || leb b'a' c && leb c b'z'

unfoldable pub is_key : List ℕ → Bool
is_key [] = true
is_key (c ∷ s) = is_key_char c && is_key s

unfoldable pub are_keys : List (List ℕ × Value) → Bool
unfolding is_key
are_keys [] = true
are_keys ((k, v) ∷ fs) = is_key k && are_keys fs
