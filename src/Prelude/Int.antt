-- ===== src/Prelude/Int.antt =====
-- Signed integers: `negsuc n` is -(n + 1).
use Prim.Native.Nat.{ℕ}
use mathlib.Core.Path.{◌≡◌}
use mathlib.Core.Bool.{Bool, true, false}
use native.Mathlib.Omega.{arith}
use mesflow_kiosk_runtime_v.Prelude.Tests.{◌==◌}

pub data ℤ : Type 0 where
  pos : ℕ → ℤ
  negsuc : ℕ → ℤ

abbrev pub int_eq : ℤ → ℤ → Bool
int_eq (pos a) (pos b) = a == b
int_eq (pos a) (negsuc b) = false
int_eq (negsuc a) (pos b) = false
int_eq (negsuc a) (negsuc b) = a == b

pub int_eq_refl : (a : ℤ) → int_eq a a ≡ true
int_eq_refl (pos a) = ground arith
int_eq_refl (negsuc a) = ground arith

pub eq-of-int_eq : (a b : ℤ) → int_eq a b ≡ true → a ≡ b
eq-of-int_eq (pos a) (pos b) h = ground arith
eq-of-int_eq (pos a) (negsuc b) h = cc
eq-of-int_eq (negsuc a) (pos b) h = cc
eq-of-int_eq (negsuc a) (negsuc b) h = ground arith
