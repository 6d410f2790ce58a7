-- ===== src/KioskRuntime/Quantity/Dialogue.antt =====
-- The quantity dialogue of firmware/kiosk_runtime_v2/src/runtime/kiosk_runtime.cpp as a whole: what
-- can be submitted, and which keys submit given numbers.
use native.Mathlib.Nat.{pow-suc}
use mesflow_kiosk_runtime_v.Prelude.{
  ℕ, zero, suc, ◌+◌, ◌-◌, ◌*◌, ◌^◌, ◌≤◌, ◌<◌, ◌≡◌, ap, ◌∙◌, List, [], ◌∷◌, length, length-append,
  arith, Bool-cases, inl, inr,
}
use mesflow_kiosk_runtime_v.Decimal.{is_digit, read_digits}
use mesflow_kiosk_runtime_v.KioskRuntime.{QuantityFlow, summary}
use mesflow_kiosk_runtime_v.KioskRuntime.Quantity.{
  quantity_key, digits_key, decision_key, summary_key, confirm_digits, reset_quantity_flow,
  buffer_value,
}

-- The flow after a list of keys.
unfoldable pub type_keys : List ℕ → QuantityFlow → QuantityFlow
unfolding quantity_key
type_keys [] q = q
type_keys (key ∷ keys) q = type_keys keys (quantity_key key q).0

-- Below a million.
abbrev pub max_quantity : ℕ
max_quantity = 1000000

pub record IsSane (q : QuantityFlow) : Type 0 where
  pub short : length q.local_qty_buffer ≤ 6
  pub good_fits : q.qty_good < max_quantity
  pub defect_fits : q.qty_defect < max_quantity
  pub rework_fits : q.qty_step ≡ summary → q.qty_rework ≤ q.qty_defect

shift : (m n : ℕ) → m * 10 ^ suc n ≡ (m * 10) * 10 ^ n
shift m n = ap (m *◌) (pow-suc 10 n) ∙ omega arith

le_shifted : (m n : ℕ) → m ≤ m * 10 ^ n
le_shifted m zero = omega arith
le_shifted m (suc n) = omega (arith, shift m n, le_shifted (m * 10) n)

read_digits-bound :
    (n m acc : ℕ) (s : List ℕ) → acc < m → length s ≤ n → (read_digits acc s).0 < m * 10 ^ n
unfolding read_digits
read_digits-bound n m acc [] h fits = omega (arith, le_shifted m n)
read_digits-bound zero m acc (c ∷ s) h fits = absurd (omega arith)
read_digits-bound (suc n) m acc (c ∷ s) h fits = elim (Bool-cases (is_digit c)) [
  | inl e ↦
      let small : acc * 10 + (c - b'0') < m * 10 = ground arith in
      rw e (
        omega (
          arith,
          shift m n,
          read_digits-bound n (m * 10) (acc * 10 + (c - b'0')) s small (omega arith),
        ))
  | inr e ↦ rw e (omega (arith, le_shifted m (suc n)))
]

buffer_value-bound : (q : QuantityFlow) → IsSane q → buffer_value q < max_quantity
buffer_value-bound q sane =
    omega (arith, read_digits-bound 6 1 0 q.local_qty_buffer (omega arith) sane.short)

pub quantity_key-IsSane : (key : ℕ) (q : QuantityFlow) → IsSane q → IsSane (quantity_key key q).0
unfolding quantity_key digits_key decision_key summary_key confirm_digits reset_quantity_flow
quantity_key-IsSane key q sane =
    let value = buffer_value-bound q sane in
    let grows = length-append q.local_qty_buffer (key ∷ []) in
    record {
      short = ground arith;
      good_fits = ground arith;
      defect_fits = ground arith;
      rework_fits = ground arith;
    }
