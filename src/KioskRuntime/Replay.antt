-- ===== src/KioskRuntime/Replay.antt =====
-- The offline replay of firmware/kiosk_runtime_v2/src/runtime/kiosk_runtime.cpp.
use mesflow_kiosk_runtime_v.Prelude.{
  ℕ, zero, suc, Bool, true, not, ◌||◌, Option, none, some, List, [], ◌∷◌, map, length, ltb,
  if◌then◌else◌, is_empty,
}
use mesflow_kiosk_runtime_v.JournalRecord.{JournalRecord}
use mesflow_kiosk_runtime_v.JournalIndex.{find, pending_in_device_seq_order}
use mesflow_kiosk_runtime_v.EventJournal.SpiffsFile.{Spiffs}
use mesflow_kiosk_runtime_v.NetworkWorker.{enqueue_offline_replay, high_priority_busy}
use mesflow_kiosk_runtime_v.KioskRuntime.{World, KioskRuntime, ReplayQueue, is_active}

-- The element at an index of the vector.
unfoldable pub get_elem? : List (List ℕ) → ℕ → Option (List ℕ)
get_elem? [] n = none
get_elem? (x ∷ xs) zero = some x
get_elem? (x ∷ xs) (suc n) = get_elem? xs n

abbrev pub has_work : ReplayQueue → Bool
has_work r = ltb r.replay_next (length r.replay_event_ids)

module _ (spiffs : Spiffs) where
  abbrev pub fill_queue : List JournalRecord → KioskRuntime spiffs → KioskRuntime spiffs
  fill_queue waiting k = record k {
    replay = record k.replay { replay_event_ids = map (λ r. r.event_id) waiting; replay_next = 0 };
  }

  unfoldable pub start_offline_replay_if_needed : KioskRuntime spiffs → KioskRuntime spiffs
  unfolding pending_in_device_seq_order
  start_offline_replay_if_needed k =
      let waiting = pending_in_device_seq_order k.journal.index in
      if k.replay.replaying || has_work k.replay
      then k
      else if is_empty waiting
      then k
      else fill_queue waiting k

  abbrev pub skip_item : KioskRuntime spiffs → KioskRuntime spiffs
  skip_item k = record k { replay = record k.replay { replay_next = suc k.replay.replay_next } }

  -- The send of the record that was found. A full queue leaves it for the next call.
  unfoldable pub send_replay : World → JournalRecord → KioskRuntime spiffs → KioskRuntime spiffs
  unfolding enqueue_offline_replay
  send_replay w r k =
      let (queued, network) =
        enqueue_offline_replay r.event_id r.device_seq k.api_endpoint r.payload w.kiosk_token
          k.network in
      if queued
      then record k { network = network; replay = record k.replay { replaying = true } }
      else k

  unfoldable pub send_item : World → List ℕ → KioskRuntime spiffs → KioskRuntime spiffs
  unfolding find send_replay
  send_item w event_id k = elim (find event_id k.journal.index) [
    | none ↦ skip_item k
    | some r ↦ send_replay w r k
  ]

  unfoldable pub check_offline_replay : World → KioskRuntime spiffs → KioskRuntime spiffs
  unfolding send_item high_priority_busy get_elem?
  check_offline_replay w k =
      if k.replay.replaying
      then k
      else if high_priority_busy k.network
      then k
      else if not (is_active w.identity_state) || k.server.env_mismatch
      then k
      else elim (get_elem? k.replay.replay_event_ids k.replay.replay_next) [
        | none ↦ k
        | some event_id ↦ send_item w event_id k
      ]
