-- ===== src/JsonExtract.antt =====
-- firmware/kiosk_runtime_v2/src/protocol/json_extract.{h,cpp}: the flat JSON reader. A position in
-- the text is the part of the text that begins there.
use mesflow_kiosk_runtime_v.Prelude.{
  ℕ, zero, suc, ◌+◌, ◌-◌, Bool, true, false, ◌&&◌, ◌||◌, Option, none, some, List, [], ◌∷◌, ◌++◌,
  leb, ◌==◌, if◌then◌else◌, codes, ℤ, length,
}
use mesflow_kiosk_runtime_v.Decimal.{is_digit, read_digits, strtoll}

abbrev pub quote : ℕ
quote = b'"'

abbrev pub backslash : ℕ
backslash = 92

abbrev is_space : ℕ → Bool
is_space c = c == 32 || leb 9 c && leb c 13

unfoldable pub skip_ws : List ℕ → List ℕ
skip_ws [] = []
skip_ws (c ∷ s) = let rest = skip_ws s in if is_space c then rest else c ∷ s

-- What follows `p` in a text that begins with it.
unfoldable pub strip_prefix : List ℕ → List ℕ → Option (List ℕ)
strip_prefix [] s = some s
strip_prefix (p ∷ ps) [] = none
strip_prefix (p ∷ ps) (c ∷ s) = let rest = strip_prefix ps s in if p == c then rest else none

-- `json.find(needle)`, and the text behind the first occurrence.
unfoldable pub find_after : List ℕ → List ℕ → Option (List ℕ)
unfolding strip_prefix
find_after needle [] = strip_prefix needle []
find_after needle (c ∷ s) =
    let later = find_after needle s in
    elim (strip_prefix needle (c ∷ s)) [ some rest ↦ some rest | none ↦ later ]

abbrev pub needle_of : List ℕ → List ℕ
needle_of key = quote ∷ (key ++ codes "\":")

-- `find_value_start`, with the callers' `skip_ws` behind it.
unfoldable pub find_value : List ℕ → List ℕ → Option (List ℕ)
unfolding find_after skip_ws
find_value json key = elim (find_after (needle_of key) json) [
  | none ↦ none
  | some rest ↦ some (skip_ws rest)
]

abbrev pub unescape : ℕ → ℕ
unescape e = if e == b'n' then 10 else if e == b'r' then 13 else if e == b't' then 9 else e

-- The text behind the opening quote, up to the closing one or the end.
unfoldable pub read_string : List ℕ → List ℕ
read_string [] = []
read_string (c ∷ []) = if c == quote then [] else c ∷ []
read_string (c ∷ e ∷ s) =
    let escaped = unescape e ∷ read_string s in
    let plain = c ∷ read_string (e ∷ s) in
    if c == quote then [] else if c == backslash then escaped else plain

-- A value that begins with a quote, and the default otherwise.
unfoldable pub string_value : List ℕ → List ℕ → List ℕ
unfolding read_string
string_value [] default_value = default_value
string_value (c ∷ s) default_value =
    let text = read_string s in if c == quote then text else default_value

unfoldable pub json_extract_string : List ℕ → List ℕ → List ℕ → List ℕ
unfolding find_value string_value
json_extract_string json key default_value = elim (find_value json key) [
  | none ↦ default_value
  | some s ↦ string_value s default_value
]

abbrev starts_with : List ℕ → List ℕ → Bool
starts_with s p = elim (strip_prefix p s) [ none ↦ false | some _ ↦ true ]

unfoldable pub json_extract_bool : List ℕ → List ℕ → Bool → Bool
unfolding find_value strip_prefix
json_extract_bool json key default_value = elim (find_value json key) [
  | none ↦ default_value
  | some s ↦
      if starts_with s (codes "true")
      then true
      else if starts_with s (codes "false")
      then false
      else default_value
]

-- The digits at the front of `s`, if there are any.
unfoldable pub digits_value : Bool → List ℕ → ℤ → ℤ
unfolding read_digits
digits_value negative [] default_value = default_value
digits_value negative (c ∷ s) default_value =
    let number = strtoll negative (read_digits 0 (c ∷ s)).0 in
    if is_digit c then number else default_value

unfoldable pub int_value : List ℕ → ℤ → ℤ
unfolding digits_value
int_value [] default_value = default_value
int_value (c ∷ s) default_value =
    if c == b'-'
    then digits_value true s default_value
    else digits_value false (c ∷ s) default_value

unfoldable pub json_extract_int : List ℕ → List ℕ → ℤ → ℤ
unfolding find_value int_value
json_extract_int json key default_value = elim (find_value json key) [
  | none ↦ default_value
  | some s ↦ int_value s default_value
]

unfoldable pub json_has_key : List ℕ → List ℕ → Bool
unfolding find_after
json_has_key json key = elim (find_after (needle_of key) json) [ none ↦ false | some _ ↦ true ]

unfoldable pub json_is_null : List ℕ → List ℕ → Bool
unfolding find_value strip_prefix
json_is_null json key = elim (find_value json key) [
  | none ↦ false
  | some s ↦ starts_with s (codes "null")
]

abbrev after_first : ℕ → Option (List ℕ × List ℕ) → Option (List ℕ × List ℕ)
after_first c none = none
after_first c (some (object, rest)) = some (c ∷ object, rest)

-- The object at the front, `depth` braces of it open already, and what follows it.
unfoldable pub read_object : ℕ → List ℕ → Option (List ℕ × List ℕ)
read_object depth [] = none
read_object depth (c ∷ s) =
    let deeper = after_first c (read_object (depth + 1) s) in
    let higher = after_first c (read_object (depth - 1) s) in
    let same = after_first c (read_object depth s) in
    if c == b'{'
    then deeper
    else if c == b'}'
    then (if depth - 1 == 0 then some (c ∷ [], s) else higher)
    else same

abbrev object_of : Option (List ℕ × List ℕ) → List ℕ
object_of none = []
object_of (some (object, rest)) = object

unfoldable pub object_value : List ℕ → List ℕ
unfolding read_object
object_value [] = []
object_value (c ∷ s) =
    let object = object_of (read_object 0 (c ∷ s)) in if c == b'{' then object else []

unfoldable pub json_extract_object : List ℕ → List ℕ → List ℕ
unfolding find_value object_value
json_extract_object json key = elim (find_value json key) [ none ↦ [] | some s ↦ object_value s ]

abbrev skip_comma : List ℕ → List ℕ
skip_comma [] = []
skip_comma (c ∷ s) = if c == b',' then s else c ∷ s

abbrev starts_with_brace : List ℕ → Bool
starts_with_brace [] = false
starts_with_brace (c ∷ s) = c == b'{'

-- The loop over the elements, on fuel: each round takes two bytes at least.
unfoldable pub read_objects : ℕ → List ℕ → List (List ℕ)
unfolding skip_ws read_object
read_objects zero s = []
read_objects (suc fuel) s =
    let element = skip_ws s in
    let more : List (List ℕ) = elim (read_object 0 element) [
      | none ↦ []
      | some (object, rest) ↦ object ∷ read_objects fuel (skip_comma (skip_ws rest))
    ] in
    if starts_with_brace element then more else []

unfoldable pub json_extract_object_array : List ℕ → List ℕ → List (List ℕ)
unfolding find_value read_objects
json_extract_object_array json key = elim (find_value json key) [
  | none ↦ []
  | some [] ↦ []
  | some (c ∷ s) ↦ if c == b'[' then read_objects (length s) s else []
]
