-- ===== src/RetryPolicy/Backoff.antt =====
-- How long is waited before the next try.
use native.Mathlib.Nat.{mul-le-mul_left, mul-le-mul_right}
use mesflow_kiosk_runtime_v.Prelude.{
  ℕ, zero, suc, ◌+◌, ◌-◌, ◌*◌, ◌/◌, ◌%◌, ◌^◌, ◌≤◌, ◌<◌, ◌≡◌, refl, min, arith, dec_lt, ltb,
  if◌then◌else◌, ℤ,
}
use mesflow_kiosk_runtime_v.RetryPolicy.{grow, rounds, compute_backoff_ms}

-- `base` doubled `n` times.
abbrev pub doubled : ℕ → ℕ → ℕ
doubled zero base = base
doubled (suc n) base = doubled n (base * 2)

doubled-grows : (n base : ℕ) → base ≤ doubled n base
doubled-grows zero base = omega arith
doubled-grows (suc n) base = omega (arith, doubled-grows n (base * 2))

-- The loop stops early, but not below the bound.
min-grow : (n base bound : ℕ) → min (grow n base bound) bound ≡ min (doubled n base) bound
unfolding grow
min-grow zero base bound = refl
min-grow (suc n) base bound = elim (dec_lt base bound) [
  | yes more ↦ ground (arith, min-grow n (base * 2) bound)
  | no enough ↦ ground (arith, doubled-grows n (base * 2))
]

-- The wait without its jitter: exponential in the attempts, up to the maximum.
abbrev pub exponential : ℤ → ℕ → ℕ → ℕ
exponential attempt base_ms max_ms = min (doubled (rounds attempt) base_ms) max_ms

exponential_same :
    (attempt : ℤ) (base max : ℕ)
    → (if ltb max (grow (rounds attempt) base max) then max else grow (rounds attempt) base max)
      ≡ exponential attempt base max
exponential_same attempt base max = ground (arith, min-grow (rounds attempt) base max)

-- The sum and its limit, the products being named.
clamped-bounds :
    (e max p q r : ℕ)
    → e ≤ max
    → p ≤ q
    → q ≤ r
    → r < 2 ^ 32
    → max + r / 100 < 2 ^ 32
    → (e
        ≤ (if ltb ((max + r % 2 ^ 32 / 100) % 2 ^ 32) (e + p % 2 ^ 64 / 100)
            then (max + r % 2 ^ 32 / 100) % 2 ^ 32
            else e + p % 2 ^ 64 / 100)
          % 2 ^ 32)
      × ((if ltb ((max + r % 2 ^ 32 / 100) % 2 ^ 32) (e + p % 2 ^ 64 / 100)
              then (max + r % 2 ^ 32 / 100) % 2 ^ 32
              else e + p % 2 ^ 64 / 100)
            % 2 ^ 32
          ≤ e + q / 100)
clamped-bounds e max p q r below h k fits room = (ground arith, ground arith)

-- The wait is exponential in the attempts up to the maximum, plus a jitter of no more than
-- `jitter_pct_max` percent of that, whatever the random number, if `jitter_pct_max` percent of the
-- maximum can be computed, and added to it, within a uint32_t.
pub compute_backoff_ms-bounds :
    (attempt : ℤ) (base_ms max_ms jitter jitter_pct_max : ℕ)
    → jitter_pct_max < 2 ^ 32 - 1
    → max_ms * jitter_pct_max < 2 ^ 32
    → max_ms + max_ms * jitter_pct_max / 100 < 2 ^ 32
    → (exponential attempt base_ms max_ms
        ≤ compute_backoff_ms attempt base_ms max_ms jitter jitter_pct_max)
      × (compute_backoff_ms attempt base_ms max_ms jitter jitter_pct_max
          ≤ exponential attempt base_ms max_ms
            + exponential attempt base_ms max_ms * jitter_pct_max / 100)
unfolding compute_backoff_ms
compute_backoff_ms-bounds attempt base max jitter pct small fits room =
    let e = exponential attempt base max in
    let j = jitter % ((pct + 1) % 2 ^ 32) in
    let low : j ≤ pct = omega arith in
    rw (exponential_same attempt base max) (
      clamped-bounds e max (e * j) (e * pct) (max * pct) (omega arith) (mul-le-mul_left e low)
        (mul-le-mul_right pct (omega arith)) fits room)
