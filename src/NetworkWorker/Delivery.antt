-- ===== src/NetworkWorker/Delivery.antt =====
-- What the task of firmware/kiosk_runtime_v2/src/network/network_worker.cpp serves, and when.
use mesflow_kiosk_runtime_v.Prelude.{
  ℕ, suc, ◌≤◌, min, ◌≡◌, refl, sym, ap, ◌∙◌, Option, none, some, List, [], ◌∷◌, ◌++◌, length, arith,
  length-append,
}
use mesflow_kiosk_runtime_v.NetworkWorker.{NetworkRequest, NetworkWorker, deposit_result}
use mesflow_kiosk_runtime_v.NetworkWorker.Execute.{Answer, receive, finish}

-- A whole turn.
unfoldable pub turn : Answer → NetworkWorker → NetworkWorker
unfolding receive finish
turn answer w = finish answer (receive w)

abbrev pub in_hand : Option NetworkRequest → List NetworkRequest
in_hand none = []
in_hand (some req) = req ∷ []

-- The requests that are executed in turns with the given answers.
unfoldable pub served : List Answer → NetworkWorker → List NetworkRequest
unfolding receive finish turn
served [] w = []
served (answer ∷ rest) w = in_hand (receive w).current ++ served rest (turn answer w)

abbrev pub waiting : NetworkWorker → List NetworkRequest
waiting w = in_hand w.current ++ (w.high_queue ++ w.low_queue)

turn-waiting :
    (answer : Answer) (w : NetworkWorker)
    → waiting w ≡ in_hand (receive w).current ++ waiting (turn answer w)
unfolding receive finish turn deposit_result
turn-waiting answer w = ground arith

no_length : (xs : List NetworkRequest) → length xs ≤ 0 → [] ≡ xs
no_length [] h = refl
no_length (x ∷ xs) h = absurd (omega arith)

receive-waiting :
    (w : NetworkWorker) → min 1 (length (waiting w)) ≤ length (in_hand (receive w).current)
unfolding receive
receive-waiting w = ground arith

left_over :
    (answer : Answer) (n : ℕ) (w : NetworkWorker)
    → length (waiting w) ≤ suc n
    → length (waiting (turn answer w)) ≤ n
left_over answer n w h = omega (
  arith,
  receive-waiting w,
  ap length (turn-waiting answer w),
  length-append (in_hand (receive w).current) (waiting (turn answer w)),
)

-- A worker that is given nothing new serves in as many turns as it has requests each of them once:
-- first the one in hand, then the high queue in its order, then the low queue in its order.
pub served-waiting :
    (answers : List Answer) (w : NetworkWorker)
    → length (waiting w) ≤ length answers
    → served answers w ≡ waiting w
unfolding served
served-waiting [] w h = no_length (waiting w) h
served-waiting (answer ∷ rest) w h =
    ap (in_hand (receive w).current ++◌)
      (served-waiting rest (turn answer w) (left_over answer (length rest) w h))
    ∙ sym (turn-waiting answer w)
