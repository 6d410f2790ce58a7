-- ===== src/JsonObject/Escape.antt =====
-- Escaped text has a quote only behind a backslash, and is read back as it was.
use mesflow_kiosk_runtime_v.Prelude.{
  ℕ, ◌/◌, ◌%◌, ◌<◌, ◌≡◌, ◌≢◌, inl, inr, refl, ap, ◌∙◌, Bool, true, ◌||◌, List, [], ◌∷◌, ◌++◌, leb,
  ltb, ◌==◌, arith, Bool-cases, append_assoc, and-parts, ◌&&◌,
}
use mesflow_kiosk_runtime_v.JsonExtract.{quote, backslash, read_string}
use mesflow_kiosk_runtime_v.ProtocolCodec.{escape_char, json_escape, hex_digit}

abbrev pub NoQuote : List ℕ → Type 0
NoQuote [] = Unit {0}
NoQuote (c ∷ s) = (c ≢ quote) × NoQuote s

-- How a character comes out: as itself, as an escaped quote, or as a backslash and no quote.
pub data Escaped (c : ℕ) : List ℕ → Type 0 where
  itself : c ≢ quote → c ≢ backslash → Escaped c (c ∷ [])
  quoted : Escaped c (backslash ∷ quote ∷ [])
  other : (t : List ℕ) → NoQuote t → Escaped c (backslash ∷ t)

hex_digit-ne-quote : (d : ℕ) → d < 16 → hex_digit d ≢ quote
hex_digit-ne-quote d h = ground arith

control :
    (c : ℕ)
    → ltb c 0x20 ≡ true
    → NoQuote (b'u' ∷ b'0' ∷ b'0' ∷ hex_digit (c / 16) ∷ hex_digit (c % 16) ∷ [])
control c h =
    let high = hex_digit-ne-quote (c / 16) (ground arith) in
    let low = hex_digit-ne-quote (c % 16) (omega arith) in
    (omega arith, (omega arith, (omega arith, (high, (low, tt)))))

pub escape_char-Escaped : (c : ℕ) → Escaped c (escape_char c)
unfolding escape_char
escape_char-Escaped c = elim (Bool-cases (c == quote)) [
  | inl e ↦ rw e quoted
  | inr e₁ ↦ elim (Bool-cases (c == backslash)) [
    | inl e ↦ rw (e₁, e) (other (backslash ∷ []) (omega arith))
    | inr e₂ ↦ elim (Bool-cases (c == 10)) [
      | inl e ↦ rw (e₁, e₂, e) (other (b'n' ∷ []) (omega arith))
      | inr e₃ ↦ elim (Bool-cases (c == 13)) [
        | inl e ↦ rw (e₁, e₂, e₃, e) (other (b'r' ∷ []) (omega arith))
        | inr e₄ ↦ elim (Bool-cases (c == 9)) [
          | inl e ↦ rw (e₁, e₂, e₃, e₄, e) (other (b't' ∷ []) (omega arith))
          | inr e₅ ↦ elim (Bool-cases (ltb c 0x20)) [
            | inl e ↦ rw (e₁, e₂, e₃, e₄, e₅, e) (other _ (control c e))
            | inr e ↦
                rw (e₁, e₂, e₃, e₄, e₅, e)
                  (itself (λ h. ground (arith, h)) (λ h. ground (arith, h)))
          ]
        ]
      ]
    ]
  ]
]

-- The characters that the extractor's unescaping gives back: all but the other control characters.
abbrev pub is_clean_char : ℕ → Bool
is_clean_char c = leb 0x20 c || c == 10 || c == 13 || c == 9

unfoldable pub is_clean : List ℕ → Bool
is_clean [] = true
is_clean (c ∷ s) = is_clean_char c && is_clean s

read_string-plain :
    (c : ℕ) (t : List ℕ) → c ≢ quote → c ≢ backslash → read_string (c ∷ t) ≡ c ∷ read_string t
unfolding read_string
read_string-plain c [] h k = ground (arith, h, k)
read_string-plain c (e ∷ t) h k = ground (arith, h, k)

read_string-quote : (t : List ℕ) → read_string (quote ∷ t) ≡ []
unfolding read_string
read_string-quote [] = refl
read_string-quote (e ∷ t) = refl

read_string-escape_char :
    (c : ℕ) (t : List ℕ)
    → is_clean_char c ≡ true
    → read_string (escape_char c ++ t) ≡ c ∷ read_string t
unfolding escape_char read_string
read_string-escape_char c t clean = elim (Bool-cases (c == quote)) [
  | inl e ↦ rw e (escape c quote t e)
  | inr e₁ ↦ elim (Bool-cases (c == backslash)) [
    | inl e ↦ rw (e₁, e) (escape c backslash t e)
    | inr e₂ ↦ elim (Bool-cases (c == 10)) [
      | inl e ↦ rw (e₁, e₂, e) (escape c 10 t e)
      | inr e₃ ↦ elim (Bool-cases (c == 13)) [
        | inl e ↦ rw (e₁, e₂, e₃, e) (escape c 13 t e)
        | inr e₄ ↦ elim (Bool-cases (c == 9)) [
          | inl e ↦ rw (e₁, e₂, e₃, e₄, e) (escape c 9 t e)
          | inr e₅ ↦ elim (Bool-cases (ltb c 0x20)) [
            | inl e ↦ absurd (ground arith)
            | inr e ↦
                rw (e₁, e₂, e₃, e₄, e₅, e)
                  (read_string-plain c t (λ h. ground (arith, h)) (λ h. ground (arith, h)))
          ]
        ]
      ]
    ]
  ]
]
  where
    escape : (c k : ℕ) (t : List ℕ) → (c == k) ≡ true → k ∷ read_string t ≡ c ∷ read_string t
    escape c k t h = ground arith

-- A clean string is read back up to its closing quote.
pub read_string-json_escape :
    (s rest : List ℕ) → is_clean s ≡ true → read_string (json_escape s ++ (quote ∷ rest)) ≡ s
unfolding json_escape is_clean
read_string-json_escape [] rest clean = read_string-quote rest
read_string-json_escape (c ∷ s) rest clean =
    let (head, tail) = and-parts (is_clean_char c) (is_clean s) clean in
    rw (append_assoc (escape_char c) (json_escape s) (quote ∷ rest)) (
      read_string-escape_char c (json_escape s ++ (quote ∷ rest)) head
      ∙ ap (λ t. c ∷ t) (read_string-json_escape s rest tail))
