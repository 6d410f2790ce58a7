-- ===== src/Decimal.antt =====
-- The C library's decimal numbers, as the sources use them: `snprintf` with "%u" and "%llu", and
-- `strtoll`, which saturates at the bounds of int64_t.
pub mod RoundTrip
use mesflow_kiosk_runtime_v.Prelude.{
  ℕ, zero, suc, ◌+◌, ◌-◌, ◌*◌, ◌/◌, ◌%◌, ◌^◌, min, Bool, true, false, ◌&&◌, List, [], ◌∷◌, ◌++◌,
  leb, ltb, ◌==◌, if◌then◌else◌, ℤ, pos, negsuc,
}

-- The last `k` digits at most, with no leading zero.
unfoldable pub decimal : ℕ → ℕ → List ℕ
decimal zero n = []
decimal (suc k) n =
    let front = decimal k (n / 10) in (if n / 10 == 0 then [] else front) ++ (b'0' + n % 10) ∷ []

-- Twenty digits are enough for a uint64_t.
abbrev pub print_unsigned : ℕ → List ℕ
print_unsigned n = decimal 20 n

abbrev pub is_digit : ℕ → Bool
is_digit c = leb b'0' c && leb c b'9'

-- The value of the leading digits behind `acc`, and what follows them.
unfoldable pub read_digits : ℕ → List ℕ → ℕ × List ℕ
read_digits acc [] = (acc, [])
read_digits acc (c ∷ s) =
    let more = read_digits (acc * 10 + (c - b'0')) s in if is_digit c then more else (acc, c ∷ s)

-- `strtoll` of a sign and its digits.
abbrev pub strtoll : Bool → ℕ → ℤ
strtoll false n = pos (min n (2 ^ 63 - 1))
strtoll true n = if n == 0 then pos 0 else negsuc (min n (2 ^ 63) - 1)

-- `static_cast` of an int64_t to an unsigned type.
abbrev pub to_u64 : ℤ → ℕ
to_u64 (pos n) = n % 2 ^ 64
to_u64 (negsuc n) = 2 ^ 64 - 1 - n % 2 ^ 64

abbrev pub to_u32 : ℤ → ℕ
to_u32 (pos n) = n % 2 ^ 32
to_u32 (negsuc n) = 2 ^ 32 - 1 - n % 2 ^ 32

-- `static_cast<int32_t>` of an int64_t.
abbrev pub to_i32 : ℤ → ℤ
to_i32 z = if ltb (to_u32 z) (2 ^ 31) then pos (to_u32 z) else negsuc (2 ^ 32 - 1 - to_u32 z)
