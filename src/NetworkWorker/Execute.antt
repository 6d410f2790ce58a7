-- ===== src/NetworkWorker/Execute.antt =====
-- The HTTP attempts of firmware/kiosk_runtime_v2/src/network/network_worker.cpp and the turns of
-- its task.
use mesflow_kiosk_runtime_v.Prelude.{
  ℕ, ◌*◌, ◌%◌, ◌^◌, Bool, true, false, ◌||◌, ◌&&◌, not, Option, none, some, List, [], ◌∷◌, ltb, leb,
  ◌==◌, if◌then◌else◌, bytes_eq, codes, ℤ, pos, negsuc,
}
use mesflow_kiosk_runtime_v.RetryPolicy.{
  HttpOutcome, failed, classify_http_result, compute_backoff_ms, parse_retry_after,
}
use mesflow_kiosk_runtime_v.NetworkWorker.{
  NetworkRequestKind, business_event, offline_replay, state_fetch, bootstrap, heartbeat,
  ui_bundle_fetch, NetworkRequest, NetworkResult, NetworkWorker, deposit_result,
}

-- What the libraries answer during one attempt: `hostByName`, `begin`, the status of the request,
-- its Retry-After header, `getSize` and `getString`.
pub record HttpCall : Type 0 where
  pub resolves : Bool
  pub begins : Bool
  pub status : ℤ
  pub retry_after : List ℕ
  pub content_length : ℤ
  pub text : List ℕ

abbrev pub max_response_body_bytes : ℕ
max_response_body_bytes = 16384

abbrev pub response_too_large_marker : ℤ
response_too_large_marker = negsuc 1000

abbrev pub dns_fail_marker : ℤ
dns_fail_marker = negsuc 999

abbrev pub is_size_accepted : ℤ → Bool
is_size_accepted (pos n) = leb n max_response_body_bytes
is_size_accepted (negsuc _) = false

abbrev pub is_positive : ℤ → Bool
is_positive (pos n) = ltb 0 n
is_positive (negsuc _) = false

-- The status, with `out_body` after the call.
unfoldable pub perform_http_attempt : HttpCall → List ℕ → ℤ × List ℕ
perform_http_attempt call out_body =
    if not call.resolves
    then (dns_fail_marker, out_body)
    else if not call.begins
    then (negsuc 0, out_body)
    else if not (is_positive call.status)
    then (call.status, out_body)
    else if is_size_accepted call.content_length
    then (call.status, call.text)
    else (response_too_large_marker, out_body)

-- The header is read on status 429 only.
unfoldable pub retry_after_header : HttpCall → List ℕ
retry_after_header call = elim call.status [
  | pos n ↦ if call.resolves && call.begins && n == 429 then call.retry_after else []
  | negsuc _ ↦ []
]

abbrev pub retry_after_seconds : Option ℕ → ℤ
retry_after_seconds none = negsuc 0
retry_after_seconds (some s) = pos s

-- One round of the loop: what the attempt means, and the body read so far.
unfoldable pub attempt_once : HttpCall → List ℕ → HttpOutcome × List ℕ
unfolding perform_http_attempt retry_after_header parse_retry_after
attempt_once call last_body =
    let (status, body) = perform_http_attempt call last_body in
    (
      classify_http_result status
          (retry_after_seconds (parse_retry_after (retry_after_header call))),
      body,
    )

-- The wait before the second attempt, in milliseconds.
unfoldable pub backoff_ms : HttpOutcome → ℕ → ℕ
unfolding compute_backoff_ms bytes_eq
backoff_ms outcome random =
    if bytes_eq outcome.error_code (codes "API_RATE_LIMITED") && ltb 0 outcome.retry_after_s
    then (outcome.retry_after_s * 1000) % 2 ^ 32
    else compute_backoff_ms (pos 1) 1000 30000 (random % 101) 25

-- Two attempts at most: the outcome, the number of attempts and the body.
unfoldable pub send_with_retry : HttpCall → HttpCall → HttpOutcome × ℕ × List ℕ
unfolding attempt_once
send_with_retry first second =
    let (outcome, body) = attempt_once first [] in
    let (outcome₂, body₂) = attempt_once second body in
    if outcome.ok || not outcome.retryable then (outcome, 1, body) else (outcome₂, 2, body₂)

abbrev pub carries_event : NetworkRequestKind → Bool
carries_event business_event = true
carries_event offline_replay = true
carries_event state_fetch = false
carries_event bootstrap = false
carries_event heartbeat = false
carries_event ui_bundle_fetch = false

-- What the world answers to one request.
pub record Answer : Type 0 where
  pub wifi_connected : Bool
  pub first : HttpCall
  pub second : HttpCall
  pub took_ms : ℕ

unfoldable pub execute : Answer → NetworkRequest → NetworkResult
unfolding send_with_retry perform_http_attempt
execute answer req =
    let (outcome, attempts, body) = send_with_retry answer.first answer.second in
    let (status, response_body) = perform_http_attempt answer.first [] in
    if not answer.wifi_connected
    then record {
      kind = req.kind;
      outcome = failed 0 (codes "WIFI_DOWN") true;
      total_latency_ms = answer.took_ms;
      attempts = 0;
      event_id = req.event_id;
      device_seq = req.device_seq;
      response_body = [];
    }
    else if carries_event req.kind
    then record {
      kind = req.kind;
      outcome = outcome;
      total_latency_ms = answer.took_ms;
      attempts = attempts;
      event_id = req.event_id;
      device_seq = req.device_seq;
      response_body = body;
    }
    else record {
      kind = req.kind;
      outcome = classify_http_result status (negsuc 0);
      total_latency_ms = answer.took_ms;
      attempts = 1;
      event_id = [];
      device_seq = 0;
      response_body = response_body;
    }

-- The first half of a turn of the task: a request of the low queue is taken only if the high
-- queue is empty. Nothing is taken while a request is executed.
unfoldable pub receive : NetworkWorker → NetworkWorker
receive w = elim w.current [
  | some _ ↦ w
  | none ↦ elim w.high_queue [
    | req ∷ rest ↦ record w { high_queue = rest; current = some req }
    | [] ↦ elim w.low_queue [
      | req ∷ rest ↦ record w { low_queue = rest; current = some req }
      | [] ↦ w
    ]
  ]
]

-- The second half.
unfoldable pub finish : Answer → NetworkWorker → NetworkWorker
unfolding execute deposit_result
finish answer w = elim w.current [
  | none ↦ w
  | some req ↦ deposit_result (execute answer req) (record w { current = none })
]
