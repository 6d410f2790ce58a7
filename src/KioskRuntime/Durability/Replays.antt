-- ===== src/KioskRuntime/Durability/Replays.antt =====
-- The replay, the turns of the worker, and the results that `poll` takes.
use mesflow_kiosk_runtime_v.Prelude.{
  ℕ, ◌≡◌, refl, not, ◌||◌, Option, none, some, List, [], ◌∷◌, is_empty,
}
use mesflow_kiosk_runtime_v.JournalRecord.{JournalRecord}
use mesflow_kiosk_runtime_v.JournalIndex.{EventJournalIndex, find, pending_in_device_seq_order}
use mesflow_kiosk_runtime_v.EventJournal.SpiffsFile.{Spiffs}
use mesflow_kiosk_runtime_v.NetworkWorker.{
  NetworkRequestKind, business_event, offline_replay, state_fetch, bootstrap, heartbeat,
  ui_bundle_fetch, NetworkRequest, NetworkResult, NetworkWorker, priority_low, event_request,
  enqueue_offline_replay, high_priority_busy, poll_result, deposit_result,
}
use mesflow_kiosk_runtime_v.NetworkWorker.Execute.{Answer, receive, finish}
use mesflow_kiosk_runtime_v.KioskRuntime.{World, KioskRuntime, is_active}
use mesflow_kiosk_runtime_v.KioskRuntime.Replay.{
  get_elem?, has_work, start_offline_replay_if_needed, skip_item, send_replay, send_item,
  check_offline_replay,
}
use mesflow_kiosk_runtime_v.KioskRuntime.Poll.{dispatch_result, poll_network}
use mesflow_kiosk_runtime_v.KioskRuntime.Durability.{
  IsDurable, AllBacked, enqueue-AllBacked, branch-IsDurable,
}
use mesflow_kiosk_runtime_v.KioskRuntime.Durability.Inputs.{handle_resync_result-IsDurable}
use mesflow_kiosk_runtime_v.KioskRuntime.Durability.Results.{handle_event_result-IsDurable}

abbrev worker :
    Option NetworkRequest
    → List NetworkRequest
    → List NetworkRequest
    → Option NetworkResult
    → NetworkWorker
worker current high low result = record {
  high_queue = high;
  low_queue = low;
  current = current;
  pending_result = result;
}

receive_parts :
    (x : EventJournalIndex) (current : Option NetworkRequest) (high low : List NetworkRequest)
    (result : Option NetworkResult)
    → AllBacked x (worker current high low result)
    → AllBacked x (receive (worker current high low result))
unfolding receive
receive_parts x (some req) high low result all = all
receive_parts x none (req ∷ high) low result all = ((all.1.0, tt), all.1.1, all.2)
receive_parts x none [] (req ∷ low) result all = ((all.2.0, tt), tt, all.2.1)
receive_parts x none [] [] result all = all

pub receive-AllBacked :
    (x : EventJournalIndex) (w : NetworkWorker) → AllBacked x w → AllBacked x (receive w)
receive-AllBacked x w all = receive_parts x w.current w.high_queue w.low_queue w.pending_result all

finish_parts :
    (x : EventJournalIndex) (answer : Answer) (current : Option NetworkRequest)
    (high low : List NetworkRequest) (result : Option NetworkResult)
    → AllBacked x (worker current high low result)
    → AllBacked x (finish answer (worker current high low result))
unfolding finish deposit_result
finish_parts x answer none high low result all = all
finish_parts x answer (some req) high low result all = (tt, all.1, all.2)

pub finish-AllBacked :
    (x : EventJournalIndex) (answer : Answer) (w : NetworkWorker)
    → AllBacked x w
    → AllBacked x (finish answer w)
finish-AllBacked x answer w all =
    finish_parts x answer w.current w.high_queue w.low_queue w.pending_result all

module _ (spiffs : Spiffs) where
  pub start_offline_replay-IsDurable :
      (k : KioskRuntime spiffs)
      → IsDurable spiffs k
      → IsDurable spiffs (start_offline_replay_if_needed spiffs k)
  unfolding start_offline_replay_if_needed
  start_offline_replay-IsDurable k d =
      branch-IsDurable spiffs (k.replay.replaying || has_work k.replay) _ _ d (
        branch-IsDurable spiffs (is_empty (pending_in_device_seq_order k.journal.index)) _ _ d
          (record { all_backed = d.all_backed }))

  send_replay-IsDurable :
      (w : World) (key : List ℕ) (r : JournalRecord) (k : KioskRuntime spiffs)
      → find key k.journal.index ≡ some r
      → IsDurable spiffs k
      → IsDurable spiffs (send_replay spiffs w r k)
  unfolding send_replay enqueue_offline_replay
  send_replay-IsDurable w key r k found d =
      let sent =
        enqueue-AllBacked k.journal.index priority_low
          (event_request offline_replay r.event_id r.device_seq k.api_endpoint r.payload
            w.kiosk_token)
          k.network (λ h. (key, r, found, (refl, refl, refl))) d.all_backed in
      branch-IsDurable spiffs
        (enqueue_offline_replay r.event_id r.device_seq k.api_endpoint r.payload w.kiosk_token
          k.network).0
        _ _ (record { all_backed = sent }) d

  send_found-IsDurable :
      (w : World) (key : List ℕ) (o : Option JournalRecord) (k : KioskRuntime spiffs)
      → find key k.journal.index ≡ o
      → IsDurable spiffs k
      → IsDurable spiffs (elim o [ none ↦ skip_item spiffs k | some r ↦ send_replay spiffs w r k ])
  send_found-IsDurable w key none k found d = record { all_backed = d.all_backed }
  send_found-IsDurable w key (some r) k found d = send_replay-IsDurable w key r k found d

  item-IsDurable :
      (w : World) (o : Option (List ℕ)) (k : KioskRuntime spiffs)
      → IsDurable spiffs k
      → IsDurable spiffs (elim o [ none ↦ k | some event_id ↦ send_item spiffs w event_id k ])
  unfolding send_item
  item-IsDurable w none k d = d
  item-IsDurable w (some event_id) k d =
      send_found-IsDurable w event_id (find event_id k.journal.index) k refl d

  pub check_offline_replay-IsDurable :
      (w : World) (k : KioskRuntime spiffs)
      → IsDurable spiffs k
      → IsDurable spiffs (check_offline_replay spiffs w k)
  unfolding check_offline_replay
  check_offline_replay-IsDurable w k d = branch-IsDurable spiffs k.replay.replaying _ _ d (
      branch-IsDurable spiffs (high_priority_busy k.network) _ _ d (
        branch-IsDurable spiffs (not (is_active w.identity_state) || k.server.env_mismatch) _ _ d
          (item-IsDurable w (get_elem? k.replay.replay_event_ids k.replay.replay_next) k d)))

  dispatch-IsDurable :
      (kind : NetworkRequestKind) (w : World) (result : NetworkResult) (k : KioskRuntime spiffs)
      → IsDurable spiffs k
      → IsDurable spiffs (dispatch_result spiffs w (record result { kind = kind }) k)
  unfolding dispatch_result
  dispatch-IsDurable state_fetch w result k d =
      handle_resync_result-IsDurable spiffs w (record result { kind = state_fetch }) k d
  dispatch-IsDurable bootstrap w result k d = record { all_backed = d.all_backed }
  dispatch-IsDurable ui_bundle_fetch w result k d = record { all_backed = d.all_backed }
  dispatch-IsDurable heartbeat w result k d = d
  dispatch-IsDurable business_event w result k d =
      handle_event_result-IsDurable spiffs w (record result { kind = business_event }) k d
  dispatch-IsDurable offline_replay w result k d =
      handle_event_result-IsDurable spiffs w (record result { kind = offline_replay }) k d

  got-IsDurable :
      (w : World) (got : Option NetworkResult) (k : KioskRuntime spiffs)
      → IsDurable spiffs k
      → IsDurable spiffs (elim got [ none ↦ k | some result ↦ dispatch_result spiffs w result k ])
  got-IsDurable w none k d = d
  got-IsDurable w (some result) k d = dispatch-IsDurable result.kind w result k d

  pub poll_network-IsDurable :
      (w : World) (k : KioskRuntime spiffs)
      → IsDurable spiffs k
      → IsDurable spiffs (poll_network spiffs w k)
  unfolding poll_network poll_result
  poll_network-IsDurable w k d =
      got-IsDurable w k.network.pending_result
        (record k { network = record k.network { pending_result = none } })
        (record { all_backed = d.all_backed })
