-- ===== src/RetryPolicy.antt =====
-- firmware/kiosk_runtime_v2/src/protocol/retry_policy.{h,cpp}: what the result of a request means,
-- how long to wait before the next one, and the Retry-After header.
pub mod Outcomes
pub mod Backoff
pub mod RetryAfter
use mesflow_kiosk_runtime_v.Prelude.{
  ℕ, zero, suc, ◌+◌, ◌-◌, ◌*◌, ◌/◌, ◌%◌, ◌^◌, min, Bool, true, false, not, ◌&&◌, Option, none, some,
  List, [], ◌∷◌, ltb, leb, ◌==◌, if◌then◌else◌, is_empty, ℤ, pos, negsuc, codes,
}
use mesflow_kiosk_runtime_v.Decimal.{is_digit, read_digits, to_u32}

pub record HttpOutcome : Type 0 where
  pub ok : Bool
  pub http_status : ℕ
  pub error_code : List ℕ
  pub retryable : Bool
  pub retry_after_s : ℕ

abbrev pub failed : ℕ → List ℕ → Bool → HttpOutcome
failed http_status error_code retryable = record {
  ok = false;
  http_status = http_status;
  error_code = error_code;
  retryable = retryable;
  retry_after_s = 0;
}

-- A status that came from the server, which is positive.
abbrev classify_status : ℕ → ℤ → HttpOutcome
classify_status n retry_after_header_s =
    if leb 200 n && ltb n 300
    then record {
      ok = true;
      http_status = n;
      error_code = [];
      retryable = false;
      retry_after_s = 0;
    }
    else if n == 429
    then record {
      ok = false;
      http_status = n;
      error_code = codes "API_RATE_LIMITED";
      retryable = true;
      retry_after_s = elim retry_after_header_s [ pos s ↦ to_u32 (pos s) | negsuc _ ↦ 0 ];
    }
    else if leb 500 n && ltb n 600
    then failed n (codes "HTTP_5XX") true
    else if leb 400 n && ltb n 500
    then failed n (codes "HTTP_4XX") false
    else failed n (codes "PROTOCOL_INVALID_RESPONSE") false

-- No status at all: 0, or one of the client's negative codes, -(n + 1).
abbrev classify_transport : ℕ → HttpOutcome
classify_transport n =
    if n == 1000
    then failed 0 (codes "RESPONSE_TOO_LARGE") false
    else if n == 999
    then failed 0 (codes "DNS_FAIL") true
    else if n == 10
    then failed 0 (codes "HTTP_TIMEOUT") true
    else failed 0 (codes "TCP_CONNECT_FAIL") true

unfoldable pub classify_http_result : ℤ → ℤ → HttpOutcome
classify_http_result (pos n) retry_after_header_s =
    if n == 0 then failed 0 (codes "HTTP_TIMEOUT") true else classify_status n retry_after_header_s
classify_http_result (negsuc n) retry_after_header_s = classify_transport n

-- The loop that doubles `exp_ms`, with the rounds that are left.
unfoldable pub grow : ℕ → ℕ → ℕ → ℕ
grow zero exp_ms max_ms = exp_ms
grow (suc n) exp_ms max_ms =
    let doubled = grow n (exp_ms * 2) max_ms in if ltb exp_ms max_ms then doubled else exp_ms

-- `attempt - 1`, an attempt below 1 counting as 1.
abbrev pub rounds : ℤ → ℕ
rounds (pos n) = n - 1
rounds (negsuc _) = 0

-- `total` and `exp_ms` are uint64_t, the rest is uint32_t and wraps.
unfoldable pub compute_backoff_ms : ℤ → ℕ → ℕ → ℕ → ℕ → ℕ
unfolding grow
compute_backoff_ms attempt base_ms max_ms jitter_pct_0_100 jitter_pct_max =
    let grown = grow (rounds attempt) base_ms max_ms in
    let exp_ms = if ltb max_ms grown then max_ms else grown in
    let jitter_pct = jitter_pct_0_100 % ((jitter_pct_max + 1) % 2 ^ 32) in
    let jitter_ms = (exp_ms * jitter_pct) % 2 ^ 64 / 100 in
    let total = exp_ms + jitter_ms in
    let limit = (max_ms + (max_ms * jitter_pct_max) % 2 ^ 32 / 100) % 2 ^ 32 in
    (if ltb limit total then limit else total) % 2 ^ 32

unfoldable pub all_digits : List ℕ → Bool
all_digits [] = true
all_digits (c ∷ s) = is_digit c && all_digits s

-- `none` is a result that is not present. A `long` has 32 bits here, and `strtol` saturates.
unfoldable pub parse_retry_after : List ℕ → Option ℕ
unfolding all_digits read_digits
parse_retry_after header_value =
    if is_empty header_value
    then none
    else if not (all_digits header_value)
    then none
    else some (min (read_digits 0 header_value).0 (2 ^ 31 - 1))
