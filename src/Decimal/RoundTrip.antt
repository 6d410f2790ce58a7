-- ===== src/Decimal/RoundTrip.antt =====
-- What is printed is read back.
use native.Mathlib.Nat.{pow-suc}
use mesflow_kiosk_runtime_v.Prelude.{
  ℕ, zero, suc, ◌+◌, ◌-◌, ◌*◌, ◌/◌, ◌%◌, ◌^◌, ◌≤◌, ◌<◌, ◌≡◌, refl, ap, ◌∙◌, true, false, List, [],
  ◌∷◌, ◌++◌, append_assoc, arith, dec_lt,
}
use mesflow_kiosk_runtime_v.Decimal.{decimal, read_digits, is_digit}

read_digits-digit :
    (acc d n : ℕ) (rest : List ℕ)
    → d < 10
    → acc * 10 + d ≡ n
    → read_digits acc ((b'0' + d) ∷ rest) ≡ read_digits n rest
unfolding read_digits
read_digits-digit acc d n rest h e =
    let same : 48 + d - 48 ≡ d = omega arith in rw (same, e) (ground arith)

pub decimal-small : (k n : ℕ) → n < 10 → decimal (suc k) n ≡ (b'0' + n) ∷ []
unfolding decimal
decimal-small k n h =
    let none_left : n / 10 ≡ 0 = omega arith in
    let last : n % 10 ≡ n = omega arith in rw (none_left, last) refl

pub decimal-large :
    (k n : ℕ) → 10 ≤ n → decimal (suc k) n ≡ decimal k (n / 10) ++ (b'0' + n % 10) ∷ []
unfolding decimal
decimal-large k n h = ground arith

-- The digits of `n` are read as `n`, and reading goes on behind them.
pub read_digits-decimal :
    (k n : ℕ) (rest : List ℕ)
    → n < 10 ^ suc k
    → read_digits 0 (decimal (suc k) n ++ rest) ≡ read_digits n rest
read_digits-decimal zero n rest h =
    let small : n < 10 = h in
    rw (decimal-small 0 n small) (read_digits-digit 0 n n rest small (omega arith))
read_digits-decimal (suc k) n rest h =
    let ih = λ (large : 10 ≤ n).
      read_digits-decimal k (n / 10) ((b'0' + n % 10) ∷ rest) (omega (arith, pow-suc 10 (suc k))) in
    elim (dec_lt n 10) [
      | yes small ↦
          rw (decimal-small (suc k) n small) (read_digits-digit 0 n n rest small (omega arith))
      | no large ↦
          rw (decimal-large (suc k) n (omega arith), append_assoc)
            (ih (omega arith)
              ∙ read_digits-digit (n / 10) (n % 10) n rest (omega arith) (omega arith))
    ]

-- A printed number begins with a digit.
pub decimal-digit :
    (k n : ℕ) → (c : ℕ) × (t : List ℕ) × (decimal (suc k) n ≡ c ∷ t) × (is_digit c ≡ true)
decimal-digit zero n = (b'0' + n % 10, [], last, ground arith)
  where
    last : decimal 1 n ≡ (b'0' + n % 10) ∷ []
    last = elim (dec_lt n 10) [
      | yes h ↦ decimal-small 0 n h ∙ ap (λ m. (b'0' + m) ∷ []) (omega arith)
      | no h ↦ unfold decimal in decimal-large 0 n (omega arith)
    ]
decimal-digit (suc k) n =
    let (c, t, e, digit) = decimal-digit k (n / 10) in
    elim (dec_lt n 10) [
      | yes h ↦ (b'0' + n, [], decimal-small (suc k) n h, ground arith)
      | no h ↦ (
        c,
        t ++ (b'0' + n % 10) ∷ [],
        decimal-large (suc k) n (omega arith) ∙ ap (λ u. u ++ (b'0' + n % 10) ∷ []) e,
        digit,
      )
    ]

-- Reading stops at what is no digit.
pub read_digits-stop :
    (n c : ℕ) (w : List ℕ) → is_digit c ≡ false → read_digits n (c ∷ w) ≡ (n, c ∷ w)
unfolding read_digits
read_digits-stop n c w h = rw h
