-- ===== src/Tests/Retry.antt =====
-- The retry policy at concrete inputs.
use mesflow_kiosk_runtime_v.Prelude.{
  ◌+◌, ◌*◌, ◌/◌, ◌≤◌, ◌≡◌, ◌↔◌, refl, true, [], pos, negsuc, arith,
}
use mesflow_kiosk_runtime_v.RetryPolicy.{classify_http_result, compute_backoff_ms}
use mesflow_kiosk_runtime_v.RetryPolicy.Outcomes.{MayHelp, IsSuccess, classify_http_result-lem}
use mesflow_kiosk_runtime_v.RetryPolicy.Backoff.{exponential, compute_backoff_ms-bounds}

classify_http_result-lem_example :
    (((classify_http_result (negsuc 10) (negsuc 0)).retryable ≡ true) ↔ MayHelp (negsuc 10))
    × (((classify_http_result (negsuc 10) (negsuc 0)).ok ≡ true) ↔ IsSuccess (negsuc 10))
    × (((classify_http_result (negsuc 10) (negsuc 0)).ok ≡ true)
        ↔ ((classify_http_result (negsuc 10) (negsuc 0)).error_code ≡ []))
classify_http_result-lem_example = classify_http_result-lem (negsuc 10) (negsuc 0)

compute_backoff_ms-bounds_example :
    (exponential (pos 3) 1000 30000 ≤ compute_backoff_ms (pos 3) 1000 30000 77 25)
    × (compute_backoff_ms (pos 3) 1000 30000 77 25
        ≤ exponential (pos 3) 1000 30000 + exponential (pos 3) 1000 30000 * 25 / 100)
compute_backoff_ms-bounds_example =
    compute_backoff_ms-bounds (pos 3) 1000 30000 77 25 (omega arith) (omega arith) (omega arith)

-- The third attempt waits four seconds and twenty-five percent at most.
third_wait : compute_backoff_ms (pos 3) 1000 30000 25 25 ≡ 5000
unfolding compute_backoff_ms
third_wait = refl
