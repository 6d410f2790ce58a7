-- ===== src/JsonObject/Extract.antt =====
-- What the extractors of json_extract.cpp give on a flat object.
use mesflow_kiosk_runtime_v.Prelude.{
  ℕ, ◌<◌, ◌≡◌, inl, inr, refl, sym, ap, ◌∙◌, subst, true, false, List, [], ◌∷◌, ◌++◌, arith,
  Bool-cases, Option, none, some, and-parts, bytes_eq, ◌^◌, ℤ, pos,
}
use mesflow_kiosk_runtime_v.Decimal.{to_u32, to_u64, strtoll, read_digits, is_digit}
use mesflow_kiosk_runtime_v.Decimal.RoundTrip.{read_digits-decimal, decimal-digit, read_digits-stop}
use mesflow_kiosk_runtime_v.JsonExtract.{
  find_after, needle_of, find_value, skip_ws, string_value, int_value, digits_value,
  json_extract_string, json_extract_int,
}
use mesflow_kiosk_runtime_v.JsonObject.{
  Value, text, number, value_text, field_text, fields_text, object_text, get, is_key, are_keys,
}
use mesflow_kiosk_runtime_v.JsonObject.Escape.{is_clean, read_string-json_escape}
use mesflow_kiosk_runtime_v.JsonObject.Find.{
  Closes, find_after-field, find_after-NoQuote, colon_tail,
}

-- The result of a search for a key: no field has it, or the first that has it.
abbrev pub Finds : Option Value → Option (List ℕ) → Type 0
Finds none r = r ≡ none
Finds (some v) r = (c : ℕ) × (w : List ℕ) × Closes c × (r ≡ some (value_text v (c ∷ w)))

fields_text-Closes :
    (fs : List (List ℕ × Value)) → (c : ℕ) × (w : List ℕ) × Closes c × (fields_text fs ≡ c ∷ w)
fields_text-Closes [] = (b'}', [], inr refl, refl)
fields_text-Closes (f ∷ fs) = (b',', _, inl refl, refl)

Finds-field :
    (k j : List ℕ) (v : Value) (fs : List (List ℕ × Value))
    → is_key k ≡ true
    → is_key j ≡ true
    → Finds (get k fs) (find_after (needle_of k) (fields_text fs))
    → Finds (get k ((j, v) ∷ fs)) (find_after (needle_of k) (field_text (j, v) (fields_text fs)))
unfolding get
Finds-field k j v fs hk hj later =
    let (c, w, close, e) = fields_text-Closes fs in
    let found = find_after-field k j v c w hk hj close in
    elim (Bool-cases (bytes_eq k j)) [
      | inl same ↦ rw (same, e) ((c, w, close, found ∙ rw same refl))
      | inr differs ↦
          rw (differs, e)
            (subst (Finds (get k fs))
              (ap (find_after (needle_of k)) e ∙ sym (found ∙ rw differs refl)) later)
    ]

Finds-fields :
    (k : List ℕ) (fs : List (List ℕ × Value))
    → is_key k ≡ true
    → are_keys fs ≡ true
    → Finds (get k fs) (find_after (needle_of k) (fields_text fs))
unfolding are_keys get find_after
Finds-fields k [] hk hs = find_after-NoQuote (k ++ colon_tail) (b'}' ∷ []) [] ((omega arith, tt))
Finds-fields k ((j, v) ∷ fs) hk hs =
    let (hj, rest) = and-parts (is_key j) (are_keys fs) hs in
    subst (Finds (get k ((j, v) ∷ fs)))
      (sym (
        find_after-NoQuote (k ++ colon_tail) (b',' ∷ []) (field_text (j, v) (fields_text fs))
          ((omega arith, tt))))
      (Finds-field k j v fs hk hj (Finds-fields k fs hk rest))

-- The search for a key in an object finds the first field that has it, and no other text.
pub Finds-object :
    (k : List ℕ) (f : List ℕ × Value) (fs : List (List ℕ × Value))
    → is_key k ≡ true
    → are_keys (f ∷ fs) ≡ true
    → Finds (get k (f ∷ fs)) (find_after (needle_of k) (object_text f fs))
unfolding are_keys
Finds-object k (j, v) fs hk hs =
    let (hj, rest) = and-parts (is_key j) (are_keys fs) hs in
    subst (Finds (get k ((j, v) ∷ fs)))
      (sym (
        find_after-NoQuote (k ++ colon_tail) (b'{' ∷ []) (field_text (j, v) (fields_text fs))
          ((omega arith, tt))))
      (Finds-field k j v fs hk hj (Finds-fields k fs hk rest))

find_value-Finds :
    (json k : List ℕ) (s : List ℕ)
    → find_after (needle_of k) json ≡ some s
    → find_value json k ≡ some (skip_ws s)
unfolding find_value
find_value-Finds json k s e = rw (e, find_value)

string_value-text :
    (s rest d : List ℕ)
    → is_clean s ≡ true
    → string_value (skip_ws (value_text (text s) rest)) d ≡ s
unfolding string_value skip_ws
string_value-text s rest d clean = read_string-json_escape s rest clean

-- A clean string that the object holds under a key is what the extractor gives for the key.
pub json_extract_string-text :
    (k : List ℕ) (f : List ℕ × Value) (fs : List (List ℕ × Value)) (s d : List ℕ)
    → get k (f ∷ fs) ≡ some (text s)
    → is_clean s ≡ true
    → is_key k ≡ true
    → are_keys (f ∷ fs) ≡ true
    → json_extract_string (object_text f fs) k d ≡ s
unfolding json_extract_string
json_extract_string-text k f fs s d e clean hk hs =
    let found = Finds-object k f fs hk hs in
    let (c, w, close, at) =
      subst (λ o. Finds o (find_after (needle_of k) (object_text f fs))) e found in
    rw (find_value-Finds (object_text f fs) k _ at, json_extract_string)
      (string_value-text s (c ∷ w) d clean)

skip_ws-stop : (c : ℕ) (s : List ℕ) → is_digit c ≡ true → skip_ws (c ∷ s) ≡ c ∷ s
unfolding skip_ws
skip_ws-stop c s h = ground arith

int_value-digit :
    (c : ℕ) (s : List ℕ) (d : ℤ)
    → is_digit c ≡ true
    → int_value (c ∷ s) d ≡ strtoll false (read_digits 0 (c ∷ s)).0
unfolding int_value digits_value
int_value-digit c s d h = ground arith

Closes-stops : (c : ℕ) → Closes c → is_digit c ≡ false
Closes-stops c (inl e) = ground (arith, e)
Closes-stops c (inr e) = ground (arith, e)

int_value-number :
    (n c : ℕ) (w : List ℕ) (d : ℤ)
    → n < 2 ^ 63
    → Closes c
    → int_value (skip_ws (value_text (number n) (c ∷ w))) d ≡ pos n
int_value-number n c w d small close =
    let (x, t, e, digit) = decimal-digit 19 n in
    let read : read_digits 0 (x ∷ (t ++ c ∷ w)) ≡ (n, c ∷ w) =
      ap (λ p. read_digits 0 (p ++ c ∷ w)) (sym e)
      ∙ read_digits-decimal 19 n (c ∷ w) (omega arith)
      ∙ read_digits-stop n c w (Closes-stops c close) in
    ap (λ p. int_value (skip_ws (p ++ c ∷ w)) d) e
    ∙ ap (λ s. int_value s d) (skip_ws-stop x (t ++ c ∷ w) digit)
    ∙ int_value-digit x (t ++ c ∷ w) d digit
    ∙ ap (λ (r : ℕ × List ℕ). strtoll false r.0) read
    ∙ ap pos (omega arith)

-- So is a number that the object holds under a key, if an int64_t can hold it.
pub json_extract_int-number :
    (k : List ℕ) (f : List ℕ × Value) (fs : List (List ℕ × Value)) (n : ℕ) (d : ℤ)
    → get k (f ∷ fs) ≡ some (number n)
    → n < 2 ^ 63
    → is_key k ≡ true
    → are_keys (f ∷ fs) ≡ true
    → json_extract_int (object_text f fs) k d ≡ pos n
unfolding json_extract_int
json_extract_int-number k f fs n d e small hk hs =
    let found = Finds-object k f fs hk hs in
    let (c, w, close, at) =
      subst (λ o. Finds o (find_after (needle_of k) (object_text f fs))) e found in
    rw (find_value-Finds (object_text f fs) k _ at, json_extract_int)
      (int_value-number n c w d small close)

-- The same for a text that is known to be laid out as the object.
module _ (body : List ℕ) (f : List ℕ × Value) (fs : List (List ℕ × Value))
    (layout : body ≡ object_text f fs) (keys : are_keys (f ∷ fs) ≡ true) where
  pub text_under :
      (k s : List ℕ)
      → get k (f ∷ fs) ≡ some (text s)
      → is_clean s ≡ true
      → is_key k ≡ true
      → json_extract_string body k [] ≡ s
  text_under k s e clean hk =
      ap (λ t. json_extract_string t k []) layout
      ∙ json_extract_string-text k f fs s [] e clean hk keys

  pub int_under :
      (k : List ℕ) (n : ℕ) (d : ℤ)
      → get k (f ∷ fs) ≡ some (number n)
      → n < 2 ^ 63
      → is_key k ≡ true
      → json_extract_int body k d ≡ pos n
  int_under k n d e small hk =
      ap (λ t. json_extract_int t k d) layout ∙ json_extract_int-number k f fs n d e small hk keys

  pub u64_under :
      (k : List ℕ) (n : ℕ)
      → get k (f ∷ fs) ≡ some (number n)
      → n < 2 ^ 63
      → is_key k ≡ true
      → to_u64 (json_extract_int body k (pos 0)) ≡ n
  u64_under k n e small hk = ap to_u64 (int_under k n (pos 0) e small hk) ∙ omega arith

  pub u32_under :
      (k : List ℕ) (n : ℕ)
      → get k (f ∷ fs) ≡ some (number n)
      → n < 2 ^ 32
      → is_key k ≡ true
      → to_u32 (json_extract_int body k (pos 0)) ≡ n
  u32_under k n e small hk = ap to_u32 (int_under k n (pos 0) e (omega arith) hk) ∙ omega arith
