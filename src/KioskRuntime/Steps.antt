-- ===== src/KioskRuntime/Steps.antt =====
-- What moves a kiosk: the calls that kiosk_runtime_v2.ino and the event bus make of
-- firmware/kiosk_runtime_v2/src/runtime/kiosk_runtime.cpp, the beginning and the ticks of a compaction
-- of the journal, other requests to the worker of src/network/network_worker.cpp, and the turns of the
-- worker's task, in any order.
use mesflow_kiosk_runtime_v.Prelude.{ℕ, List, [], ◌∷◌}
use mesflow_kiosk_runtime_v.WifiRecovery.{LocalEvent}
use mesflow_kiosk_runtime_v.NetworkWorker.{
  NetworkWorker, enqueue_bootstrap, enqueue_ui_bundle_fetch, enqueue_heartbeat,
}
use mesflow_kiosk_runtime_v.NetworkWorker.Execute.{Answer, receive, finish}
use mesflow_kiosk_runtime_v.JournalIndex.{CompactionPolicy}
use mesflow_kiosk_runtime_v.EventJournal.{begin_compaction, compact_tick}
use mesflow_kiosk_runtime_v.EventJournal.SpiffsFile.{Spiffs}
use mesflow_kiosk_runtime_v.KioskRuntime.{World, KioskRuntime}
use mesflow_kiosk_runtime_v.KioskRuntime.Input.{handle_local_event}
use mesflow_kiosk_runtime_v.KioskRuntime.Resync.{
  BootstrapResult, on_bootstrap_result, request_manual_resync,
}
use mesflow_kiosk_runtime_v.KioskRuntime.Replay.{start_offline_replay_if_needed}
use mesflow_kiosk_runtime_v.KioskRuntime.Poll.{poll}

pub data DeviceStep : Type 0 where
  local_event : World → LocalEvent → DeviceStep
  polled : World → DeviceStep
  bootstrap_answered : World → BootstrapResult → DeviceStep
  manual_resync : World → DeviceStep
  reconnected : DeviceStep
  ask_bootstrap : List ℕ → List ℕ → DeviceStep
  ask_ui_bundle : List ℕ → DeviceStep
  ask_heartbeat : List ℕ → List ℕ → DeviceStep
  worker_receives : DeviceStep
  worker_finishes : Answer → DeviceStep
  compaction_begun : CompactionPolicy → DeviceStep
  compaction_ticked : ℕ → DeviceStep

module _ (spiffs : Spiffs) where
  abbrev pub with_network : NetworkWorker → KioskRuntime spiffs → KioskRuntime spiffs
  with_network network k = record k { network = network }

  unfoldable pub device_step : DeviceStep → KioskRuntime spiffs → KioskRuntime spiffs
  unfolding handle_local_event poll on_bootstrap_result request_manual_resync
      start_offline_replay_if_needed enqueue_bootstrap enqueue_ui_bundle_fetch enqueue_heartbeat
      receive finish begin_compaction compact_tick
  device_step (local_event w e) k = handle_local_event spiffs w e k
  device_step (polled w) k = poll spiffs w k
  device_step (bootstrap_answered w result) k = on_bootstrap_result spiffs w result k
  device_step (manual_resync w) k = request_manual_resync spiffs w k
  device_step reconnected k = start_offline_replay_if_needed spiffs k
  device_step (ask_bootstrap url body) k = with_network (enqueue_bootstrap url body k.network).1 k
  device_step (ask_ui_bundle url) k = with_network (enqueue_ui_bundle_fetch url k.network).1 k
  device_step (ask_heartbeat url body) k = with_network (enqueue_heartbeat url body k.network).1 k
  device_step worker_receives k = with_network (receive k.network) k
  device_step (worker_finishes answer) k = with_network (finish answer k.network) k
  device_step (compaction_begun policy) k = record k {
    journal = (begin_compaction spiffs policy k.journal).1;
  }
  device_step (compaction_ticked fuel) k = record k { journal = compact_tick spiffs fuel k.journal }

  unfoldable pub run : List DeviceStep → KioskRuntime spiffs → KioskRuntime spiffs
  unfolding device_step
  run [] k = k
  run (s ∷ steps) k = run steps (device_step s k)
