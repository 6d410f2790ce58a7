-- ===== src/KioskRuntime/Durability/Rounds.antt =====
-- All that moves a kiosk of firmware/kiosk_runtime_v2, in any order, and the records of the events
-- that wait.
use mesflow_kiosk_runtime_v.Prelude.{
  ◌≡◌, ◌⊎◌, inl, inr, sym, subst, All, arith, false, List, [], ◌∷◌,
}
use mesflow_kiosk_runtime_v.EventJournal.SpiffsFile.{Spiffs}
use mesflow_kiosk_runtime_v.NetworkWorker.{
  NetworkRequest, NetworkWorker, bootstrap, heartbeat, ui_bundle_fetch, priority_low, priority_high,
  plain_request, enqueue_bootstrap, enqueue_ui_bundle_fetch, enqueue_heartbeat,
}
use mesflow_kiosk_runtime_v.KioskRuntime.{KioskRuntime}
use mesflow_kiosk_runtime_v.KioskRuntime.Steps.{
  DeviceStep, local_event, polled, bootstrap_answered, manual_resync, reconnected, ask_bootstrap,
  ask_ui_bundle, ask_heartbeat, worker_receives, worker_finishes, compaction_begun,
  compaction_ticked, device_step, run,
}
use mesflow_kiosk_runtime_v.KioskRuntime.Durability.Polls.{poll-IsDurable}
use mesflow_kiosk_runtime_v.JournalIndex.{CompactionPolicy, EventJournalIndex}
use mesflow_kiosk_runtime_v.EventJournal.{EventJournal, begin_compaction, compact_tick}
use mesflow_kiosk_runtime_v.NetworkWorker.Execute.{carries_event}
use mesflow_kiosk_runtime_v.KioskRuntime.Durability.{
  IsBacked, AllBacked, in_hand, IsDurable, enqueue-AllBacked,
}
use mesflow_kiosk_runtime_v.KioskRuntime.Durability.Inputs.{
  handle_local_event-IsDurable, request_manual_resync-IsDurable,
}
use mesflow_kiosk_runtime_v.KioskRuntime.Durability.Results.{on_bootstrap_result-IsDurable}
use mesflow_kiosk_runtime_v.KioskRuntime.Durability.Replays.{
  receive-AllBacked, finish-AllBacked, start_offline_replay-IsDurable,
}

AllPlain-IsBacked :
    (x : EventJournalIndex) (reqs : List NetworkRequest)
    → All (λ req. carries_event req.kind ≡ false) reqs
    → All (IsBacked x) reqs
AllPlain-IsBacked x [] plain = tt
AllPlain-IsBacked x (req ∷ reqs) plain = (λ h. cc (h, plain.0), AllPlain-IsBacked x reqs plain.1)

-- No request of the worker carries an event.
abbrev pub NothingWaits : NetworkWorker → Type 0
NothingWaits w =
    All (λ req. carries_event req.kind ≡ false) (in_hand w.current)
    × All (λ req. carries_event req.kind ≡ false) w.high_queue
    × All (λ req. carries_event req.kind ≡ false) w.low_queue

NothingWaits-AllBacked :
    (x : EventJournalIndex) (w : NetworkWorker) → NothingWaits w → AllBacked x w
NothingWaits-AllBacked x w (current, high, low) = (
  AllPlain-IsBacked x (in_hand w.current) current,
  AllPlain-IsBacked x w.high_queue high,
  AllPlain-IsBacked x w.low_queue low,
)

module _ (spiffs : Spiffs) where
  -- A tick of a compaction leaves the index as it is, or comes while no event waits.
  abbrev pub IsSpared : DeviceStep → KioskRuntime spiffs → Type 0
  IsSpared (compaction_ticked fuel) k =
      ((compact_tick spiffs fuel k.journal).index ≡ k.journal.index) ⊎ NothingWaits k.network
  IsSpared _ k = Unit

  abbrev pub AllSpared : List DeviceStep → KioskRuntime spiffs → Type 0
  AllSpared [] k = Unit
  AllSpared (s ∷ steps) k = IsSpared s k × AllSpared steps (device_step spiffs s k)

  begin-index :
      (policy : CompactionPolicy) (j : EventJournal spiffs)
      → (begin_compaction spiffs policy j).1.index ≡ j.index
  unfolding begin_compaction
  begin-index policy j = ground arith

  device_step-IsDurable :
      (s : DeviceStep) (k : KioskRuntime spiffs)
      → IsSpared s k
      → IsDurable spiffs k
      → IsDurable spiffs (device_step spiffs s k)
  unfolding device_step begin_compaction enqueue_bootstrap enqueue_ui_bundle_fetch enqueue_heartbeat
  device_step-IsDurable (local_event w e) k _ d = handle_local_event-IsDurable spiffs w e k d
  device_step-IsDurable (polled w) k _ d = poll-IsDurable spiffs w k d
  device_step-IsDurable (bootstrap_answered w result) k _ d =
      on_bootstrap_result-IsDurable spiffs w result k d
  device_step-IsDurable (manual_resync w) k _ d = request_manual_resync-IsDurable spiffs w k d
  device_step-IsDurable reconnected k _ d = start_offline_replay-IsDurable spiffs k d
  device_step-IsDurable (ask_bootstrap url body) k _ d = record {
    all_backed =
        enqueue-AllBacked k.journal.index priority_high (plain_request bootstrap url body [])
          k.network (λ h. cc) d.all_backed;
  }
  device_step-IsDurable (ask_ui_bundle url) k _ d = record {
    all_backed =
        enqueue-AllBacked k.journal.index priority_low (plain_request ui_bundle_fetch url [] [])
          k.network (λ h. cc) d.all_backed;
  }
  device_step-IsDurable (ask_heartbeat url body) k _ d = record {
    all_backed =
        enqueue-AllBacked k.journal.index priority_low (plain_request heartbeat url body [])
          k.network (λ h. cc) d.all_backed;
  }
  device_step-IsDurable worker_receives k _ d = record {
    all_backed = receive-AllBacked k.journal.index k.network d.all_backed;
  }
  device_step-IsDurable (worker_finishes answer) k _ d = record {
    all_backed = finish-AllBacked k.journal.index answer k.network d.all_backed;
  }
  device_step-IsDurable (compaction_begun policy) k _ d = record {
    all_backed =
        subst (λ x. AllBacked x k.network) (sym (begin-index policy k.journal)) d.all_backed;
  }
  device_step-IsDurable (compaction_ticked fuel) k (inl same) d = record {
    all_backed = subst (λ x. AllBacked x k.network) (sym same) d.all_backed;
  }
  device_step-IsDurable (compaction_ticked fuel) k (inr nothing) d = record {
    all_backed =
        NothingWaits-AllBacked (compact_tick spiffs fuel k.journal).index k.network nothing;
  }

  -- Every event that waits in a queue of the worker or is being sent has its record in the index of
  -- the journal, with the sent id, number and text: if this holds at first, it holds after any run
  -- of scans, keys, polls, answers, resyncs, replays, other requests, turns of the worker and
  -- compactions, in any order, on any SPIFFS, whether its writes succeed or fail, as long as no tick
  -- of a compaction changes the index while an event waits.
  pub run-IsDurable :
      (steps : List DeviceStep) (k : KioskRuntime spiffs)
      → AllSpared steps k
      → IsDurable spiffs k
      → IsDurable spiffs (run spiffs steps k)
  unfolding run
  run-IsDurable [] k spared d = d
  run-IsDurable (s ∷ steps) k spared d =
      run-IsDurable steps (device_step spiffs s k) spared.1 (device_step-IsDurable s k spared.0 d)
