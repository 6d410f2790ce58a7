-- ===== src/RetryPolicy/Outcomes.antt =====
-- Which results are tried again.
use mesflow_kiosk_runtime_v.Prelude.{◌≤◌, ◌<◌, ◌≡◌, ◌≢◌, ◌↔◌, ◌⊎◌, true, [], ℤ, pos, negsuc, arith}
use mesflow_kiosk_runtime_v.RetryPolicy.{classify_http_result}

-- The results for which another try may help: no answer at all, unless it was too large to take,
-- a rate limit, or an error of the server.
abbrev pub MayHelp : ℤ → Type 0
MayHelp (pos n) = (n ≡ 0) ⊎ ((n ≡ 429) ⊎ ((500 ≤ n) × (n < 600)))
MayHelp (negsuc n) = n ≢ 1000

abbrev pub IsSuccess : ℤ → Type 0
IsSuccess (pos n) = (200 ≤ n) × (n < 300)
IsSuccess (negsuc n) = ⊥

-- A request is tried again exactly if there was no status (and the response was not refused as too
-- large), or the status is 429 or 5xx; it is a success exactly for 2xx; and it is a success exactly
-- if it has no error code.
pub classify_http_result-lem :
    (raw_status retry_after : ℤ)
    → (((classify_http_result raw_status retry_after).retryable ≡ true) ↔ MayHelp raw_status)
      × (((classify_http_result raw_status retry_after).ok ≡ true) ↔ IsSuccess raw_status)
      × (((classify_http_result raw_status retry_after).ok ≡ true)
          ↔ ((classify_http_result raw_status retry_after).error_code ≡ []))
unfolding classify_http_result
classify_http_result-lem (pos n) retry_after = (ground arith, ground arith, ground arith)
classify_http_result-lem (negsuc n) retry_after = (ground arith, ground arith, ground arith)
