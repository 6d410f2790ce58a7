-- ===== src/JsonObject/Find.antt =====
-- The substring search for `"key":` finds the first field of that key, and never anything inside a
-- string or a number.
use mesflow_kiosk_runtime_v.Prelude.{
  ℕ, zero, suc, ◌+◌, ◌≡◌, ◌≢◌, ◌⊎◌, inl, inr, refl, ◌∙◌, Bool, true, false, List, [], ◌∷◌, ◌++◌,
  ◌==◌, arith, Bool-cases, append_assoc, sym, ℕ_discrete, none, some, if◌then◌else◌, and-parts,
  bytes_eq, ◌/◌, ◌%◌,
}
use mesflow_kiosk_runtime_v.Decimal.{decimal, print_unsigned}
use mesflow_kiosk_runtime_v.JsonExtract.{quote, backslash, strip_prefix, find_after, needle_of}
use mesflow_kiosk_runtime_v.ProtocolCodec.{escape_char, json_escape}
use mesflow_kiosk_runtime_v.JsonObject.{
  Value, text, number, value_text, field_text, is_key_char, is_key,
}
use mesflow_kiosk_runtime_v.JsonObject.Escape.{
  NoQuote, Escaped, itself, quoted, other, escape_char-Escaped,
}

-- What a key is followed by in a needle.
abbrev pub colon_tail : List ℕ
colon_tail = quote ∷ b':' ∷ []

-- The text behind a value goes on with a comma or a closing brace.
abbrev pub Closes : ℕ → Type 0
Closes c = (c ≡ b',') ⊎ (c ≡ b'}')

strip_prefix-ne : (p c : ℕ) (ps s : List ℕ) → p ≢ c → strip_prefix (p ∷ ps) (c ∷ s) ≡ none
unfolding strip_prefix
strip_prefix-ne p c ps s h = ground (arith, h)

strip_prefix-eq : (c : ℕ) (ps s : List ℕ) → strip_prefix (c ∷ ps) (c ∷ s) ≡ strip_prefix ps s
unfolding strip_prefix
strip_prefix-eq c ps s = ground arith

find_after-miss :
    (needle s : List ℕ) (c : ℕ)
    → strip_prefix needle (c ∷ s) ≡ none
    → find_after needle (c ∷ s) ≡ find_after needle s
unfolding find_after
find_after-miss needle s c h = rw (h, find_after)

find_after-hit :
    (needle s rest : List ℕ) (c : ℕ)
    → strip_prefix needle (c ∷ s) ≡ some rest
    → find_after needle (c ∷ s) ≡ some rest
unfolding find_after
find_after-hit needle s rest c h = rw (h, find_after)

-- No occurrence begins within text that holds no quote.
pub find_after-NoQuote :
    (n p s : List ℕ) → NoQuote p → find_after (quote ∷ n) (p ++ s) ≡ find_after (quote ∷ n) s
find_after-NoQuote n [] s h = refl
find_after-NoQuote n (c ∷ p) s h =
    find_after-miss (quote ∷ n) (p ++ s) c (strip_prefix-ne quote c n (p ++ s) (λ e. h.0 (sym e)))
    ∙ find_after-NoQuote n p s h.1

key_char_ne :
    (c : ℕ)
    → is_key_char c ≡ true
    → (c ≢ quote) × (c ≢ backslash) × (c ≢ b':') × (c ≢ b',') × (c ≢ b'}')
key_char_ne c h = (ground arith, ground arith, ground arith, ground arith, ground arith)

-- Between keys, the needle matches exactly the same key.
strip_prefix-key :
    (k j w : List ℕ)
    → is_key k ≡ true
    → is_key j ≡ true
    → strip_prefix (k ++ colon_tail) (j ++ (quote ∷ b':' ∷ w))
      ≡ (if bytes_eq k j then some w else none)
unfolding is_key bytes_eq
strip_prefix-key [] [] w hk hj =
    strip_prefix-eq quote _ _ ∙ strip_prefix-eq b':' _ _ ∙ unfold strip_prefix in refl
strip_prefix-key [] (c ∷ j) w hk hj =
    let ne = key_char_ne c (and-parts _ _ hj).0 in strip_prefix-ne quote c _ _ (λ e. ne.0 (sym e))
strip_prefix-key (c ∷ k) [] w hk hj =
    let ne = key_char_ne c (and-parts _ _ hk).0 in strip_prefix-ne c quote _ _ ne.0
strip_prefix-key (c ∷ k) (d ∷ j) w hk hj = elim (ℕ_discrete c d) [
  | yes e ↦ rw (← e) (
      strip_prefix-eq c _ _
      ∙ strip_prefix-key k j w (and-parts _ _ hk).1 (and-parts _ _ hj).1
      ∙ ground arith)
  | no h ↦ strip_prefix-ne c d _ _ h ∙ ground (arith, h)
]

-- What is not a backslash matches of an escaped character at most the character itself.
strip_prefix-Escaped :
    (p c : ℕ) (ps t u : List ℕ)
    → Escaped c t
    → p ≢ backslash
    → (p ≡ c → c ≢ quote → strip_prefix ps u ≡ none)
    → strip_prefix (p ∷ ps) (t ++ u) ≡ none
strip_prefix-Escaped p c ps t u (itself h _) np rest = elim (ℕ_discrete p c) [
  | yes e ↦ rw e (strip_prefix-eq c ps u ∙ rest e h)
  | no ne ↦ strip_prefix-ne p c ps u ne
]
strip_prefix-Escaped p c ps t u quoted np rest = strip_prefix-ne p backslash ps _ np
strip_prefix-Escaped p c ps t u (other t' _) np rest = strip_prefix-ne p backslash ps _ np

Closes-ne : (c : ℕ) → Closes c → (c ≢ quote) × (c ≢ b':')
Closes-ne c (inl e) = (omega arith, omega arith)
Closes-ne c (inr e) = (omega arith, omega arith)

-- A needle's key does not match at the opening quote of a string, nor anywhere within it.
strip_prefix-json_escape :
    (k s w : List ℕ) (c : ℕ)
    → is_key k ≡ true
    → Closes c
    → strip_prefix (k ++ colon_tail) (json_escape s ++ (quote ∷ c ∷ w)) ≡ none
unfolding is_key json_escape
strip_prefix-json_escape [] [] w c hk close =
    strip_prefix-eq quote _ _ ∙ strip_prefix-ne b':' c _ _ (λ e. (Closes-ne c close).1 (sym e))
strip_prefix-json_escape (p ∷ k) [] w c hk close =
    strip_prefix-ne p quote _ _ (key_char_ne p (and-parts _ _ hk).0).0
strip_prefix-json_escape [] (x ∷ s) w c hk close =
    rw (append_assoc (escape_char x) (json_escape s) (quote ∷ c ∷ w)) (
      strip_prefix-Escaped quote x _ _ _ (escape_char-Escaped x) (omega arith)
        (λ e h. absurd (h (sym e))))
strip_prefix-json_escape (p ∷ k) (x ∷ s) w c hk close =
    let parts = and-parts (is_key_char p) (is_key k) hk in
    let ih = strip_prefix-json_escape k s w c parts.1 close in
    rw (append_assoc (escape_char x) (json_escape s) (quote ∷ c ∷ w))
      (strip_prefix-Escaped p x _ _ _ (escape_char-Escaped x) (key_char_ne p parts.0).1 (λ _ _. ih))

-- At a quote that closes a string or a key, the needle does not match either.
strip_prefix-closing :
    (k w : List ℕ) (c : ℕ)
    → is_key k ≡ true
    → c ≢ quote
    → is_key_char c ≡ false
    → strip_prefix (k ++ colon_tail) (c ∷ w) ≡ none
unfolding is_key
strip_prefix-closing [] w c hk h n = strip_prefix-ne quote c _ _ (λ e. h (sym e))
strip_prefix-closing (p ∷ k) w c hk h n =
    strip_prefix-ne p c _ _ (λ e. ground (arith, e, (and-parts (is_key_char p) (is_key k) hk).0))

find_after-quote :
    (n s : List ℕ)
    → strip_prefix n s ≡ none
    → find_after (quote ∷ n) (quote ∷ s) ≡ find_after (quote ∷ n) s
find_after-quote n s h = find_after-miss (quote ∷ n) s quote (strip_prefix-eq quote n s ∙ h)

Closes-char : (c : ℕ) → Closes c → is_key_char c ≡ false
Closes-char c (inl e) = ground (arith, e)
Closes-char c (inr e) = ground (arith, e)

-- The search passes over the inside of a string.
find_after-json_escape :
    (k s w : List ℕ) (c : ℕ)
    → is_key k ≡ true
    → Closes c
    → find_after (needle_of k) (json_escape s ++ (quote ∷ c ∷ w)) ≡ find_after (needle_of k) (c ∷ w)
unfolding json_escape
find_after-json_escape k [] w c hk close =
    find_after-quote (k ++ colon_tail) (c ∷ w)
      (strip_prefix-closing k w c hk (Closes-ne c close).0 (Closes-char c close))
find_after-json_escape k (x ∷ s) w c hk close =
    let u = json_escape s ++ (quote ∷ c ∷ w) in
    let ih = find_after-json_escape k s w c hk close in
    rw (append_assoc (escape_char x) (json_escape s) (quote ∷ c ∷ w)) (
      find_after-Escaped k u x (escape_char x) (escape_char-Escaped x)
        (strip_prefix-json_escape k s w c hk close)
      ∙ ih)
  where
    find_after-Escaped :
        (k u : List ℕ) (x : ℕ) (t : List ℕ)
        → Escaped x t
        → strip_prefix (k ++ colon_tail) u ≡ none
        → find_after (needle_of k) (t ++ u) ≡ find_after (needle_of k) u
    find_after-Escaped k u x t (itself h _) miss =
        find_after-NoQuote (k ++ colon_tail) (x ∷ []) u (h, tt)
    find_after-Escaped k u x t quoted miss =
        find_after-NoQuote (k ++ colon_tail) (backslash ∷ []) (quote ∷ u) (omega arith)
        ∙ find_after-quote (k ++ colon_tail) u miss
    find_after-Escaped k u x t (other t' h) miss =
        find_after-NoQuote (k ++ colon_tail) (backslash ∷ t') u ((omega arith, h))

NoQuote-append : (p q : List ℕ) → NoQuote p → NoQuote q → NoQuote (p ++ q)
NoQuote-append [] q hp hq = hq
NoQuote-append (c ∷ p) q hp hq = (hp.0, NoQuote-append p q hp.1 hq)

NoQuote-if : (b : Bool) (p q : List ℕ) → NoQuote p → NoQuote q → NoQuote (if b then p else q)
NoQuote-if true p q hp hq = hp
NoQuote-if false p q hp hq = hq

decimal-NoQuote : (k n : ℕ) → NoQuote (decimal k n)
unfolding decimal
decimal-NoQuote zero n = tt
decimal-NoQuote (suc k) n =
    NoQuote-append _ ((b'0' + n % 10) ∷ [])
      (NoQuote-if (n / 10 == 0) [] (decimal k (n / 10)) tt (decimal-NoQuote k (n / 10)))
      ((omega arith, tt))

is_key-NoQuote : (k : List ℕ) → is_key k ≡ true → NoQuote k
unfolding is_key
is_key-NoQuote [] h = tt
is_key-NoQuote (c ∷ k) h =
    let (head, tail) = and-parts (is_key_char c) (is_key k) h in
    ((key_char_ne c head).0, is_key-NoQuote k tail)

find_after-value :
    (k : List ℕ) (v : Value) (c : ℕ) (w : List ℕ)
    → is_key k ≡ true
    → Closes c
    → find_after (needle_of k) (value_text v (c ∷ w)) ≡ find_after (needle_of k) (c ∷ w)
find_after-value k (text s) c w hk close =
    find_after-quote (k ++ colon_tail) _ (strip_prefix-json_escape k s w c hk close)
    ∙ find_after-json_escape k s w c hk close
find_after-value k (number n) c w hk close =
    find_after-NoQuote (k ++ colon_tail) (print_unsigned n) (c ∷ w) (decimal-NoQuote 20 n)

-- A field either is the one that is searched for, or is passed over.
pub find_after-field :
    (k j : List ℕ) (v : Value) (c : ℕ) (w : List ℕ)
    → is_key k ≡ true
    → is_key j ≡ true
    → Closes c
    → find_after (needle_of k) (field_text (j, v) (c ∷ w))
      ≡ (if bytes_eq k j then some (value_text v (c ∷ w)) else find_after (needle_of k) (c ∷ w))
find_after-field k j v c w hk hj close = elim (Bool-cases (bytes_eq k j)) [
  | inl same ↦ rw same (
      find_after-hit (needle_of k) _ _ quote (
        strip_prefix-eq quote _ _
        ∙ strip_prefix-key k j (value_text v (c ∷ w)) hk hj
        ∙ rw same refl))
  | inr differs ↦ rw differs (
      find_after-quote (k ++ colon_tail) _
        (strip_prefix-key k j (value_text v (c ∷ w)) hk hj ∙ rw differs refl)
      ∙ find_after-NoQuote (k ++ colon_tail) j _ (is_key-NoQuote j hj)
      ∙ find_after-quote (k ++ colon_tail) _
          (strip_prefix-closing k (value_text v (c ∷ w)) b':' hk (omega arith) refl)
      ∙ find_after-NoQuote (k ++ colon_tail) (b':' ∷ []) _ ((omega arith, tt))
      ∙ find_after-value k v c w hk close)
]
