-- ===== src/NetworkWorker.antt =====
-- firmware/kiosk_runtime_v2/src/network/network_worker.{h,cpp}: one task that serves two bounded
-- queues of HTTP requests and leaves its results in one slot. What Wi-Fi, DNS and HTTPClient answer
-- is an argument.
pub mod Execute
pub mod Delivery
use mesflow_kiosk_runtime_v.Prelude.{
  ℕ, zero, suc, ◌+◌, ◌-◌, Bool, true, false, ◌||◌, not, Option, none, some, List, [], ◌∷◌, ◌++◌,
  length, take, ltb, ◌==◌, if◌then◌else◌, is_empty,
}
use mesflow_kiosk_runtime_v.RetryPolicy.{HttpOutcome}

pub data NetworkRequestKind : Type 0 where
  business_event offline_replay state_fetch bootstrap heartbeat ui_bundle_fetch : NetworkRequestKind

pub data NetworkPriorityTier : Type 0 where
  priority_high priority_low : NetworkPriorityTier

-- The arrays of characters stand for the strings in them, and `body` has `body_len` bytes.
pub record NetworkRequest : Type 0 where
  pub kind : NetworkRequestKind
  pub url : List ℕ
  pub event_id : List ℕ
  pub device_seq : ℕ
  pub body : List ℕ
  pub kiosk_token : List ℕ

pub record NetworkResult : Type 0 where
  pub kind : NetworkRequestKind
  pub outcome : HttpOutcome
  pub total_latency_ms : ℕ
  pub attempts : ℕ
  pub event_id : List ℕ
  pub device_seq : ℕ
  pub response_body : List ℕ

-- `current` is the request that the task executes while `executing_` is true.
pub record NetworkWorker : Type 0 where
  pub high_queue : List NetworkRequest
  pub low_queue : List NetworkRequest
  pub current : Option NetworkRequest
  pub pending_result : Option NetworkResult

abbrev pub max_queued_url_bytes : ℕ
max_queued_url_bytes = 160

abbrev pub max_queued_body_bytes : ℕ
max_queued_body_bytes = 2560

abbrev pub max_queued_event_id_bytes : ℕ
max_queued_event_id_bytes = 40

abbrev pub max_queued_token_bytes : ℕ
max_queued_token_bytes = 64

abbrev pub high_depth : ℕ
high_depth = 3

abbrev pub low_depth : ℕ
low_depth = 2

-- The string that `strncpy` of `n` characters leaves in an array of zeros.
unfoldable pub strncpy : ℕ → List ℕ → List ℕ
strncpy zero s = []
strncpy (suc n) [] = []
strncpy (suc n) (c ∷ s) = let rest = strncpy n s in if c == 0 then [] else c ∷ rest

unfoldable pub fill_body : List ℕ → List ℕ
fill_body body = take (max_queued_body_bytes - 1) body

abbrev pub idle : NetworkWorker
idle = record { high_queue = []; low_queue = []; current = none; pending_result = none }

-- `xQueueSend` without waiting: it fails on a full queue.
unfoldable pub enqueue : NetworkPriorityTier → NetworkRequest → NetworkWorker → Bool × NetworkWorker
enqueue priority_high req w =
    if ltb (length w.high_queue) high_depth
    then (true, record w { high_queue = w.high_queue ++ req ∷ [] })
    else (false, w)
enqueue priority_low req w =
    if ltb (length w.low_queue) low_depth
    then (true, record w { low_queue = w.low_queue ++ req ∷ [] })
    else (false, w)

abbrev pub event_request :
    NetworkRequestKind → List ℕ → ℕ → List ℕ → List ℕ → List ℕ → NetworkRequest
event_request kind event_id device_seq url payload kiosk_token = record {
  kind = kind;
  url = strncpy (max_queued_url_bytes - 1) url;
  event_id = strncpy (max_queued_event_id_bytes - 1) event_id;
  device_seq = device_seq;
  body = fill_body payload;
  kiosk_token = strncpy (max_queued_token_bytes - 1) kiosk_token;
}

abbrev pub plain_request : NetworkRequestKind → List ℕ → List ℕ → List ℕ → NetworkRequest
plain_request kind url body kiosk_token = record {
  kind = kind;
  url = strncpy (max_queued_url_bytes - 1) url;
  event_id = [];
  device_seq = 0;
  body = fill_body body;
  kiosk_token = strncpy (max_queued_token_bytes - 1) kiosk_token;
}

unfoldable pub enqueue_business_event :
    List ℕ → ℕ → List ℕ → List ℕ → List ℕ → NetworkWorker → Bool × NetworkWorker
unfolding enqueue
enqueue_business_event event_id device_seq url payload kiosk_token =
    enqueue priority_high (event_request business_event event_id device_seq url payload kiosk_token)

unfoldable pub enqueue_offline_replay :
    List ℕ → ℕ → List ℕ → List ℕ → List ℕ → NetworkWorker → Bool × NetworkWorker
unfolding enqueue
enqueue_offline_replay event_id device_seq url payload kiosk_token =
    enqueue priority_low (event_request offline_replay event_id device_seq url payload kiosk_token)

unfoldable pub enqueue_state_fetch : List ℕ → List ℕ → NetworkWorker → Bool × NetworkWorker
unfolding enqueue
enqueue_state_fetch url kiosk_token =
    enqueue priority_high (plain_request state_fetch url [] kiosk_token)

unfoldable pub enqueue_ui_bundle_fetch : List ℕ → NetworkWorker → Bool × NetworkWorker
unfolding enqueue
enqueue_ui_bundle_fetch url = enqueue priority_low (plain_request ui_bundle_fetch url [] [])

unfoldable pub enqueue_bootstrap : List ℕ → List ℕ → NetworkWorker → Bool × NetworkWorker
unfolding enqueue
enqueue_bootstrap url body = enqueue priority_high (plain_request bootstrap url body [])

unfoldable pub enqueue_heartbeat : List ℕ → List ℕ → NetworkWorker → Bool × NetworkWorker
unfolding enqueue
enqueue_heartbeat url body = enqueue priority_low (plain_request heartbeat url body [])

abbrev pub is_executing : NetworkWorker → Bool
is_executing w = elim w.current [ none ↦ false | some _ ↦ true ]

unfoldable pub high_priority_busy : NetworkWorker → Bool
high_priority_busy w = is_executing w || not (is_empty w.high_queue)

unfoldable pub busy : NetworkWorker → Bool
busy w = is_executing w || (not (is_empty w.high_queue) || not (is_empty w.low_queue))

-- The slot keeps the last result only.
unfoldable pub deposit_result : NetworkResult → NetworkWorker → NetworkWorker
deposit_result result w = record w { pending_result = some result }

unfoldable pub poll_result : NetworkWorker → Option NetworkResult × NetworkWorker
poll_result w = (w.pending_result, record w { pending_result = none })
