-- ===== src/RetryPolicy/RetryAfter.antt =====
-- The Retry-After header.
use mesflow_kiosk_runtime_v.Prelude.{
  ℕ, zero, suc, ◌+◌, ◌-◌, ◌/◌, ◌%◌, ◌^◌, ◌<◌, ◌≡◌, refl, ap, sym, ◌∙◌, min, true, false, ◌&&◌,
  arith, dec_lt, none, some, List, [], ◌∷◌, ◌++◌, append-nil, is_empty,
}
use mesflow_kiosk_runtime_v.Decimal.{decimal, print_unsigned, is_digit, read_digits}
use mesflow_kiosk_runtime_v.Decimal.RoundTrip.{
  decimal-small, decimal-large, decimal-digit, read_digits-decimal,
}
use mesflow_kiosk_runtime_v.RetryPolicy.{all_digits, parse_retry_after}

all_digits-append : (s t : List ℕ) → all_digits (s ++ t) ≡ (all_digits s && all_digits t)
unfolding all_digits
all_digits-append [] t = refl
all_digits-append (c ∷ s) t = ground (arith, all_digits-append s t)

one_digit : (n : ℕ) → n < 10 → all_digits ((b'0' + n) ∷ []) ≡ true
unfolding all_digits
one_digit n h = ground arith

all_digits-decimal : (k n : ℕ) → all_digits (decimal (suc k) n) ≡ true
all_digits-decimal zero n = elim (dec_lt n 10) [
  | yes small ↦ rw (decimal-small zero n small) (one_digit n small)
  | no large ↦
      rw (decimal-large zero n (omega arith)) (unfold decimal in one_digit (n % 10) (omega arith))
]
all_digits-decimal (suc k) n = elim (dec_lt n 10) [
  | yes small ↦ rw (decimal-small (suc k) n small) (one_digit n small)
  | no large ↦ rw (decimal-large (suc k) n (omega arith)) (
      all_digits-append (decimal (suc k) (n / 10)) ((b'0' + n % 10) ∷ [])
      ∙ rw (all_digits-decimal k (n / 10)) (one_digit (n % 10) (omega arith)))
]

parse-passes :
    (s : List ℕ)
    → is_empty s ≡ false
    → all_digits s ≡ true
    → parse_retry_after s ≡ some (min (read_digits 0 s).0 (2 ^ 31 - 1))
unfolding parse_retry_after
parse-passes s full digits = rw (full, digits) refl

-- A header that is the decimal number `n` is taken for `n` seconds, if `n` fits a 32-bit `long`.
pub parse_retry_after-print_unsigned :
    (n : ℕ) → n < 2 ^ 31 → parse_retry_after (print_unsigned n) ≡ some n
unfolding read_digits
parse_retry_after-print_unsigned n small =
    let (c, t, e, digit) = decimal-digit 19 n in
    let value : read_digits 0 (decimal 20 n) ≡ (n, []) =
      ap (read_digits 0) (sym (append-nil (decimal 20 n)))
      ∙ read_digits-decimal 19 n [] (omega arith) in
    parse-passes (decimal 20 n) (ap is_empty e) (all_digits-decimal 19 n)
    ∙ ap (λ r. some (min r.0 (2 ^ 31 - 1))) value
    ∙ ap some (omega arith)

-- A header with any character that is no digit, a date in particular, is not taken at all.
pub parse_retry_after-date :
    (s t : List ℕ) (c : ℕ) → is_digit c ≡ false → parse_retry_after (s ++ c ∷ t) ≡ none
unfolding parse_retry_after all_digits
parse_retry_after-date [] t c h = ground arith
parse_retry_after-date (b ∷ s) t c h = ground (arith, all_digits-append s (c ∷ t))
