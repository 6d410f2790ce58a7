-- ===== src/KioskRuntime/Quantity/Typed.antt =====
-- Which keys enter given numbers into the quantity dialogue of
-- firmware/kiosk_runtime_v2/src/runtime/kiosk_runtime.cpp.
use native.Mathlib.Nat.{pow-suc}
use mesflow_kiosk_runtime_v.Prelude.{
  ℕ, zero, suc, ◌+◌, ◌-◌, ◌/◌, ◌%◌, ◌^◌, ◌≤◌, ◌<◌, min, ◌≡◌, refl, sym, ap, ◌∙◌, subst, Bool, true,
  false, List, [], ◌∷◌, ◌++◌, All, All-append, length, length-append, append-nil, append_assoc,
  ◌==◌, if◌then◌else◌, arith, dec_lt,
}
use mesflow_kiosk_runtime_v.Decimal.{is_digit, read_digits, print_unsigned, decimal}
use mesflow_kiosk_runtime_v.Decimal.RoundTrip.{read_digits-decimal, decimal-small, decimal-large}
use mesflow_kiosk_runtime_v.KioskRuntime.{
  QuantityFlow, QtyStep, good, defect, rework_decision, rework, summary,
}
use mesflow_kiosk_runtime_v.KioskRuntime.Quantity.{
  quantity_key, digits_key, decision_key, confirm_digits, buffer_value,
}
use mesflow_kiosk_runtime_v.KioskRuntime.Quantity.Dialogue.{type_keys, max_quantity}

abbrev pub IsDigits : List ℕ → Type 0
IsDigits = All (λ c. is_digit c ≡ true)

abbrev pub has_buffer : QtyStep → Bool
has_buffer good = true
has_buffer defect = true
has_buffer rework = true
has_buffer rework_decision = false
has_buffer summary = false

pub type_keys-append :
    (s t : List ℕ) (q : QuantityFlow) → type_keys (s ++ t) q ≡ type_keys t (type_keys s q)
unfolding type_keys
type_keys-append [] t q = refl
type_keys-append (key ∷ s) t q = type_keys-append s t (quantity_key key q).0

one_digit :
    (c : ℕ) (q : QuantityFlow)
    → is_digit c ≡ true
    → has_buffer q.qty_step ≡ true
    → length q.local_qty_buffer < 6
    → (quantity_key c q).0 ≡ record q { local_qty_buffer = q.local_qty_buffer ++ c ∷ [] }
unfolding quantity_key digits_key
one_digit c q digit step room = ground arith

type_digits :
    (s : List ℕ) (q : QuantityFlow)
    → IsDigits s
    → has_buffer q.qty_step ≡ true
    → length q.local_qty_buffer + length s ≤ 6
    → type_keys s q ≡ record q { local_qty_buffer = q.local_qty_buffer ++ s }
unfolding type_keys
type_digits [] q digits step room =
    ap (λ b. record q { local_qty_buffer = b }) (sym (append-nil q.local_qty_buffer))
type_digits (c ∷ s) q digits step room =
    let q' = record q { local_qty_buffer = q.local_qty_buffer ++ c ∷ [] } in
    ap (type_keys s) (one_digit c q digits.0 step (omega arith))
    ∙ type_digits s q' digits.1 step (omega (arith, length-append q.local_qty_buffer (c ∷ [])))
    ∙ ap (λ b. record q { local_qty_buffer = b }) (append_assoc q.local_qty_buffer (c ∷ []) s)

decimal-IsDigits : (k n : ℕ) → IsDigits (decimal k n)
unfolding decimal
decimal-IsDigits zero n = tt
decimal-IsDigits (suc k) n = elim (dec_lt n 10) [
  | yes small ↦ subst IsDigits (sym (decimal-small k n small)) (ground arith, tt)
  | no large ↦ subst IsDigits (sym (decimal-large k n (omega arith))) (
      All-append _ (decimal k (n / 10)) (b'0' + n % 10) (decimal-IsDigits k (n / 10))
        (ground arith))
]

length-decimal : (j k n : ℕ) → n < 10 ^ suc j → length (decimal k n) ≤ suc j
unfolding decimal
length-decimal j zero n fits = omega arith
length-decimal zero (suc k) n fits = omega (arith, ap length (decimal-small k n fits))
length-decimal (suc j) (suc k) n fits = elim (dec_lt n 10) [
  | yes small ↦ omega (arith, ap length (decimal-small k n small))
  | no large ↦
      let front : n / 10 < 10 ^ suc j = omega (arith, pow-suc 10 (suc j)) in
      omega (
        arith,
        ap length (decimal-large k n (omega arith)),
        length-append (decimal k (n / 10)) ((b'0' + n % 10) ∷ []),
        length-decimal j k (n / 10) front,
      )
]

buffer_value-printed :
    (n : ℕ) (q : QuantityFlow)
    → n < max_quantity
    → buffer_value (record q { local_qty_buffer = print_unsigned n }) ≡ n
unfolding read_digits
buffer_value-printed n q fits =
    let read : read_digits 0 (print_unsigned n) ≡ (n, []) =
      ap (read_digits 0) (sym (append-nil (print_unsigned n)))
      ∙ read_digits-decimal 19 n [] (omega arith) in
    ap (λ v. min v.0 (2 ^ 31 - 1)) read ∙ omega arith

confirm : (q : QuantityFlow) → has_buffer q.qty_step ≡ true → quantity_key b'#' q ≡ confirm_digits q
unfolding quantity_key digits_key
confirm q step = ground arith

-- A number and the '#' key, in a step with an empty buffer.
type_number :
    (n : ℕ) (q : QuantityFlow)
    → n < max_quantity
    → has_buffer q.qty_step ≡ true
    → q.local_qty_buffer ≡ []
    → type_keys (print_unsigned n ++ b'#' ∷ []) q
      ≡ (confirm_digits (record q { local_qty_buffer = print_unsigned n })).0
unfolding type_keys
type_number n q fits step blank =
    let room : length q.local_qty_buffer + length (print_unsigned n) ≤ 6 =
      omega (arith, ap length blank, length-decimal 5 20 n (omega arith)) in
    let typed = type_digits (print_unsigned n) q (decimal-IsDigits 20 n) step room in
    let q' = record q { local_qty_buffer = print_unsigned n } in
    type_keys-append (print_unsigned n) (b'#' ∷ []) q
    ∙ ap (type_keys (b'#' ∷ [])) typed
    ∙ ap (λ b. type_keys (b'#' ∷ []) (record q { local_qty_buffer = b ++ print_unsigned n })) blank
    ∙ ap (λ x. x.0) (confirm q' step)

confirm_good :
    (v : ℕ) (q : QuantityFlow)
    → q.qty_step ≡ good
    → buffer_value q ≡ v
    → (confirm_digits q).0 ≡ record q { local_qty_buffer = []; qty_step = defect; qty_good = v }
unfolding confirm_digits
confirm_good v q step value = ground arith

confirm_defect :
    (v : ℕ) (q : QuantityFlow)
    → q.qty_step ≡ defect
    → buffer_value q ≡ v
    → (confirm_digits q).0 ≡ record q {
      local_qty_buffer = [];
      qty_step = if v == 0 then summary else rework_decision;
      qty_defect = v;
      qty_rework = if v == 0 then 0 else q.qty_rework;
    }
unfolding confirm_digits
confirm_defect v q step value = ground arith

confirm_rework :
    (v : ℕ) (q : QuantityFlow)
    → q.qty_step ≡ rework
    → buffer_value q ≡ v
    → v ≤ q.qty_defect
    → (confirm_digits q).0 ≡ record q { local_qty_buffer = []; qty_step = summary; qty_rework = v }
unfolding confirm_digits
confirm_rework v q step value fits = ground arith

abbrev behind_defect : ℕ → ℕ → QuantityFlow → QuantityFlow
behind_defect g d q = record q {
  local_qty_buffer = [];
  qty_step = if d == 0 then summary else rework_decision;
  qty_good = g;
  qty_defect = d;
  qty_rework = if d == 0 then 0 else q.qty_rework;
}

abbrev pub repair_keys : ℕ → ℕ → List ℕ
repair_keys d r =
    if d == 0 then [] else if r == 0 then b'2' ∷ [] else b'1' ∷ (print_unsigned r ++ b'#' ∷ [])

-- The keys for three numbers, up to the summary.
abbrev pub entry : ℕ → ℕ → ℕ → List ℕ
entry g d r =
    (print_unsigned g ++ b'#' ∷ []) ++ ((print_unsigned d ++ b'#' ∷ []) ++ repair_keys d r)

nonzero : (n : ℕ) → (suc n == 0) ≡ false
nonzero n = ground arith

type_repair :
    (g d r : ℕ) (q : QuantityFlow)
    → d < max_quantity
    → r ≤ d
    → type_keys (repair_keys d r) (behind_defect g d q) ≡ record q {
      local_qty_buffer = [];
      qty_step = summary;
      qty_good = g;
      qty_defect = d;
      qty_rework = r;
    }
unfolding type_keys quantity_key decision_key
type_repair g zero r q fits le =
    let none_left : 0 ≡ r = omega arith in
    ap (λ n. record (behind_defect g 0 q) { qty_step = summary; qty_rework = n }) none_left
type_repair g (suc d) zero q fits le = rw (nonzero d) refl
type_repair g (suc d) (suc r) q fits le =
    let q' = record q {
      local_qty_buffer = [];
      qty_step = rework;
      qty_good = g;
      qty_defect = suc d;
    } in
    rw (nonzero d, nonzero r)
      (type_number (suc r) q' (omega arith) refl refl
        ∙ confirm_rework (suc r) (record q' { local_qty_buffer = print_unsigned (suc r) }) refl
            (buffer_value-printed (suc r) q' (omega arith)) le)

pub type_keys-entry :
    (g d r : ℕ) (q : QuantityFlow)
    → g < max_quantity
    → d < max_quantity
    → r ≤ d
    → q.qty_step ≡ good
    → q.local_qty_buffer ≡ []
    → type_keys (entry g d r) q ≡ record q {
      local_qty_buffer = [];
      qty_step = summary;
      qty_good = g;
      qty_defect = d;
      qty_rework = r;
    }
type_keys-entry g d r q g_fits d_fits r_fits step blank =
    let q₁ = record q { local_qty_buffer = []; qty_step = defect; qty_good = g } in
    let q₂ = record q₁ {
      qty_step = if d == 0 then summary else rework_decision;
      qty_defect = d;
      qty_rework = if d == 0 then 0 else q.qty_rework;
    } in
    let first =
      type_number g q g_fits (ap has_buffer step) blank
      ∙ confirm_good g (record q { local_qty_buffer = print_unsigned g }) step
          (buffer_value-printed g q g_fits) in
    let second =
      type_number d q₁ d_fits refl refl
      ∙ confirm_defect d (record q₁ { local_qty_buffer = print_unsigned d }) refl
          (buffer_value-printed d q₁ d_fits) in
    type_keys-append (print_unsigned g ++ b'#' ∷ []) _ q
    ∙ ap (type_keys _) first
    ∙ type_keys-append (print_unsigned d ++ b'#' ∷ []) _ q₁
    ∙ ap (type_keys _) second
    ∙ type_repair g d r q d_fits r_fits
