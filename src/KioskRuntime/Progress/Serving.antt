-- ===== src/KioskRuntime/Progress/Serving.antt =====
-- A round of the replay.
use mesflow_kiosk_runtime_v.Prelude.{
  ℕ, suc, ◌≡◌, refl, sym, ap, ◌∙◌, ◌⊎◌, inl, inr, true, false, not, ◌||◌, Option, none, some, List,
  [], ◌∷◌, if◌then◌else◌, arith, branch_false, subst,
}
use mesflow_kiosk_runtime_v.JournalRecord.{JournalRecord}
use mesflow_kiosk_runtime_v.JournalIndex.{find}
use mesflow_kiosk_runtime_v.EventJournal.SpiffsFile.{Spiffs}
use mesflow_kiosk_runtime_v.NetworkWorker.{
  NetworkRequestKind, offline_replay, state_fetch, NetworkRequest, NetworkResult, priority_low,
  idle, event_request, enqueue_offline_replay, enqueue, high_priority_busy, poll_result,
  deposit_result,
}
use mesflow_kiosk_runtime_v.NetworkWorker.Execute.{Answer, execute, receive, finish}
use mesflow_kiosk_runtime_v.NetworkWorker.Delivery.{turn}
use mesflow_kiosk_runtime_v.KioskRuntime.{World, KioskRuntime, is_active}
use mesflow_kiosk_runtime_v.KioskRuntime.Response.{advance_replay}
use mesflow_kiosk_runtime_v.KioskRuntime.Replay.{
  get_elem?, skip_item, send_replay, send_item, check_offline_replay,
}
use mesflow_kiosk_runtime_v.KioskRuntime.Poll.{dispatch_result, poll_network}
use mesflow_kiosk_runtime_v.KioskRuntime.Steps.{with_network}
use mesflow_kiosk_runtime_v.KioskRuntime.Progress.{View, ready, waiting_fetch, view, IsIdle, IsCalm}
use mesflow_kiosk_runtime_v.KioskRuntime.Progress.Answered.{
  handle_event_result-IsCalm, handle_resync_result-view,
}

execute-kind : (answer : Answer) (req : NetworkRequest) → (execute answer req).kind ≡ req.kind
unfolding execute
execute-kind answer req = ground arith

abbrev sending : NetworkRequest → List (List ℕ) → ℕ → View
sending req ids n = record {
  network = record idle { low_queue = req ∷ [] };
  ids = ids;
  next_item = n;
  replaying = true;
  env_mismatch = false;
}

module _ (spiffs : Spiffs) where
  -- A turn of the worker, and a poll of its result.
  unfoldable pub serve : World → Answer → KioskRuntime spiffs → KioskRuntime spiffs
  unfolding turn poll_network
  serve w answer k = poll_network spiffs w (with_network spiffs (turn answer k.network) k)

  -- The replay looks for work, and the worker has two turns: one for the item, and one for the
  -- state that the answer may ask for.
  unfoldable pub replay_round : World → Answer → Answer → KioskRuntime spiffs → KioskRuntime spiffs
  unfolding check_offline_replay serve
  replay_round w answer answer' k =
      serve w answer' (serve w answer (check_offline_replay spiffs w k))

module _ (spiffs : Spiffs) (ids : List (List ℕ)) (n : ℕ) (w : World) where
  abbrev pub IsSending : KioskRuntime spiffs → Type 0
  IsSending k =
      (req : NetworkRequest) × (req.kind ≡ offline_replay) × (view spiffs k ≡ sending req ids n)

  send_replay-IsSending :
      (r : JournalRecord) (k : KioskRuntime spiffs)
      → IsIdle spiffs ids n k
      → IsSending (send_replay spiffs w r k)
  unfolding send_replay enqueue_offline_replay enqueue
  send_replay-IsSending r k is_idle =
      let req =
        event_request offline_replay r.event_id r.device_seq k.api_endpoint r.payload
          w.kiosk_token in
      let queued : (enqueue priority_low req k.network).0 ≡ true =
        ap {A = View} (λ v. (enqueue priority_low req v.network).0) is_idle in
      (
        req,
        refl,
        ap
              (λ b. view spiffs (
                if b
                then record k {
                  network = (enqueue priority_low req k.network).1;
                  replay = record k.replay { replaying = true };
                }
                else k))
              queued
            ∙ ap {A = View}
                (λ v. record v {
                  network = (enqueue priority_low req v.network).1;
                  replaying = true;
                })
                is_idle,
      )

  found-cases :
      (o : Option JournalRecord) (k : KioskRuntime spiffs)
      → IsIdle spiffs ids n k
      → IsIdle spiffs ids
          (suc n)
          (elim o [ none ↦ skip_item spiffs k | some r ↦ send_replay spiffs w r k ])
        ⊎ IsSending (elim o [ none ↦ skip_item spiffs k | some r ↦ send_replay spiffs w r k ])
  found-cases none k is_idle =
      inl (ap {A = View} (λ v. record v { next_item = suc v.next_item }) is_idle)
  found-cases (some r) k is_idle = inr (send_replay-IsSending r k is_idle)

  pub send_item-cases :
      (id : List ℕ) (k : KioskRuntime spiffs)
      → IsIdle spiffs ids n k
      → IsIdle spiffs ids (suc n) (send_item spiffs w id k) ⊎ IsSending (send_item spiffs w id k)
  unfolding send_item
  send_item-cases id k is_idle = found-cases (find id k.journal.index) k is_idle

  pub check-cases :
      (id : List ℕ) (k : KioskRuntime spiffs)
      → IsIdle spiffs ids n k
      → is_active w.identity_state ≡ true
      → get_elem? ids n ≡ some id
      → check_offline_replay spiffs w k ≡ send_item spiffs w id k
  unfolding check_offline_replay high_priority_busy
  check-cases id k is_idle active found =
      branch_false k.replay.replaying _ _ (ap {A = View} (λ v. v.replaying) is_idle)
      ∙ branch_false (high_priority_busy k.network) _ _
          (ap {A = View} (λ v. high_priority_busy v.network) is_idle)
      ∙ branch_false (not (is_active w.identity_state) || k.server.env_mismatch) _ _ (
          ap {A = View} (λ v. not (is_active w.identity_state) || v.env_mismatch) is_idle
          ∙ ap (λ b. not b || false) active)
      ∙ ap (λ o. elim o [ none ↦ k | some event_id ↦ send_item spiffs w event_id k ])
          (ap {A = View} (λ v. get_elem? v.ids v.next_item) is_idle ∙ found)

  -- A result of the worker at the next poll.
  serve-result :
      (answer : Answer) (req : NetworkRequest) (k : KioskRuntime spiffs)
      → (turn answer k.network).pending_result ≡ some (execute answer req)
      → serve spiffs w answer k
        ≡ dispatch_result spiffs w
            (execute answer req)
            (record k { network = record (turn answer k.network) { pending_result = none } })
  unfolding serve poll_network poll_result
  serve-result answer req k h =
      let k' = record k { network = record (turn answer k.network) { pending_result = none } } in
      ap (λ o. elim o [ none ↦ k' | some result ↦ dispatch_result spiffs w result k' ]) h

  dispatch-kind :
      (kind : NetworkRequestKind) (result : NetworkResult) (k : KioskRuntime spiffs)
      → result.kind ≡ kind
      → dispatch_result spiffs w result k
        ≡ dispatch_result spiffs w (record result { kind = kind }) k
  dispatch-kind kind result k e =
      ap {A = NetworkRequestKind} (λ x. dispatch_result spiffs w (record result { kind = x }) k) e

  pub serve-sending :
      (answer : Answer) (k : KioskRuntime spiffs)
      → IsSending k
      → IsCalm spiffs ids (suc n) (serve spiffs w answer k)
  unfolding turn receive finish deposit_result dispatch_result
  serve-sending answer k (req, is_replay, v) =
      let result = execute answer req in
      let k' = record k { network = record (turn answer k.network) { pending_result = none } } in
      let arrived = ap {A = View} (λ v. (turn answer v.network).pending_result) v in
      let advanced : IsIdle spiffs ids (suc n) (advance_replay spiffs k') =
        ap {A = View}
          (λ v. record v {
            network = record (turn answer v.network) { pending_result = none };
            next_item = if v.replaying then suc v.next_item else v.next_item;
            replaying = false;
          })
          v in
      subst (IsCalm spiffs ids (suc n))
        (sym (
          serve-result answer req k arrived
          ∙ dispatch-kind offline_replay result k' (execute-kind answer req ∙ is_replay)))
        (handle_event_result-IsCalm spiffs ids (suc n) w (record result { kind = offline_replay })
          k' advanced)

  pub serve-IsIdle :
      (answer : Answer) (k : KioskRuntime spiffs)
      → IsIdle spiffs ids n k
      → IsIdle spiffs ids n (serve spiffs w answer k)
  unfolding serve poll_network poll_result turn receive finish
  serve-IsIdle answer k i =
      let k' = record k { network = record (turn answer k.network) { pending_result = none } } in
      ap
        (λ o. view spiffs (elim o [ none ↦ k' | some result ↦ dispatch_result spiffs w result k' ]))
        (ap {A = View} (λ v. (turn answer v.network).pending_result) i)
      ∙ ap {A = View}
          (λ v. record v { network = record (turn answer v.network) { pending_result = none } }) i

  serve-fetch :
      (answer : Answer) (req : NetworkRequest) (k : KioskRuntime spiffs)
      → req.kind ≡ state_fetch
      → view spiffs k ≡ ready (waiting_fetch req) ids n
      → IsIdle spiffs ids n (serve spiffs w answer k)
  unfolding turn receive finish deposit_result dispatch_result
  serve-fetch answer req k is_fetch v =
      let result = execute answer req in
      let k' = record k { network = record (turn answer k.network) { pending_result = none } } in
      ap (view spiffs) (
        serve-result answer req k (ap {A = View} (λ v. (turn answer v.network).pending_result) v)
        ∙ dispatch-kind state_fetch result k' (execute-kind answer req ∙ is_fetch))
      ∙ handle_resync_result-view spiffs ids n w (record result { kind = state_fetch }) k'
      ∙ ap {A = View}
          (λ v. record v { network = record (turn answer v.network) { pending_result = none } }) v

  pub serve-calm :
      (answer : Answer) (k : KioskRuntime spiffs)
      → IsCalm spiffs ids n k
      → IsIdle spiffs ids n (serve spiffs w answer k)
  serve-calm answer k (inl i) = serve-IsIdle answer k i
  serve-calm answer k (inr (req, is_fetch, v)) = serve-fetch answer req k is_fetch v
