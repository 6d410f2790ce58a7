-- ===== src/EventBus/Business.antt =====
-- What the two subscribers of firmware/kiosk_runtime_v2/src/runtime/event_bus.cpp leave as it is: the
-- calls back of the recovery controller, and the runtime's handler of a key behind the overlay.
use mesflow_kiosk_runtime_v.Prelude.{
  ℕ, ◌≡◌, refl, ap, ◌∙◌, Bool, true, false, ◌||◌, Option, List, [], ◌∷◌, ◌++◌, ◌==◌, if◌then◌else◌,
  ltb, length, arith, Bool-cases, branch_true, branch_false, inl, inr,
}
use mesflow_kiosk_runtime_v.StateProjection.{Projection}
use mesflow_kiosk_runtime_v.SequenceReservation.{Device}
use mesflow_kiosk_runtime_v.EventJournal.{EventJournal}
use mesflow_kiosk_runtime_v.EventJournal.SpiffsFile.{Spiffs}
use mesflow_kiosk_runtime_v.NetworkWorker.{
  NetworkRequest, NetworkWorker, enqueue, enqueue_state_fetch, high_depth,
}
use mesflow_kiosk_runtime_v.NetworkWorker.Execute.{carries_event}
use mesflow_kiosk_runtime_v.WifiRecovery.{
  LocalEvent, LocalEventKind, key_down, key_up, WifiSetupPortal, Effect, draw_recovery_menu,
  draw_waiting_screen, draw_portal_active, draw_portal_testing, draw_portal_failed,
  draw_wifi_hold_progress, retry_network, resync, return_to_state, show_device_info, restart,
}
use mesflow_kiosk_runtime_v.KioskRuntime.{
  World, KioskRuntime, is_active, QuantityFlow, refresh_idle_screen, render_current_business_state,
}
use mesflow_kiosk_runtime_v.KioskRuntime.Resync.{
  state_endpoint_url, request_manual_resync, start_resync,
}
use mesflow_kiosk_runtime_v.KioskRuntime.Input.{handle_local_event}
use mesflow_kiosk_runtime_v.EventBus.{call_back, call_all}

pub data IsKey : LocalEventKind → Type 0 where
  down : IsKey key_down
  up : IsKey key_up

-- The requests that carry an event.
abbrev pub event_requests : List NetworkRequest → List NetworkRequest
event_requests [] = []
event_requests (req ∷ queue) =
    let rest = event_requests queue in if carries_event req.kind then req ∷ rest else rest

event_requests-append :
    (queue : List NetworkRequest) (req : NetworkRequest)
    → carries_event req.kind ≡ false
    → event_requests (queue ++ req ∷ []) ≡ event_requests queue
event_requests-append [] req e = branch_false (carries_event req.kind) _ _ e
event_requests-append (r ∷ queue) req e =
    ap (λ rest. if carries_event r.kind then r ∷ rest else rest) (event_requests-append queue req e)

high_queue-enqueue_state_fetch :
    (url token : List ℕ) (n : NetworkWorker)
    → event_requests (enqueue_state_fetch url token n).1.high_queue ≡ event_requests n.high_queue
unfolding enqueue_state_fetch enqueue
high_queue-enqueue_state_fetch url token n =
    elim (Bool-cases (ltb (length n.high_queue) high_depth)) [
      | inl e ↦
          ap (λ (r : Bool × NetworkWorker). event_requests r.1.high_queue)
            (branch_true (ltb (length n.high_queue) high_depth) _ _ e)
          ∙ event_requests-append n.high_queue _ refl
      | inr e ↦
          ap (λ (r : Bool × NetworkWorker). event_requests r.1.high_queue)
            (branch_false (ltb (length n.high_queue) high_depth) _ _ e)
    ]

low_queue-enqueue_state_fetch :
    (url token : List ℕ) (n : NetworkWorker)
    → (enqueue_state_fetch url token n).1.low_queue ≡ n.low_queue
unfolding enqueue_state_fetch enqueue
low_queue-enqueue_state_fetch url token n = ground arith

module _ (spiffs : Spiffs) where
  -- What the keys of the operator may change: the journal, the server's state, the sequence, the
  -- quantities and the events that wait for the network.
  abbrev pub Business : Type 0
  Business =
      EventJournal spiffs
      × Projection
      × Option Device
      × QuantityFlow
      × List NetworkRequest
      × List NetworkRequest

  abbrev pub business : KioskRuntime spiffs → Business
  business k = (
    k.journal,
    k.state_projection,
    k.device_seq,
    k.quantity,
    event_requests k.network.high_queue,
    k.network.low_queue,
  )

  abbrev with_queues : KioskRuntime spiffs → List NetworkRequest × List NetworkRequest → Business
  with_queues k (high, low) = (k.journal, k.state_projection, k.device_seq, k.quantity, high, low)

  business-request_manual_resync :
      (w : World) (k : KioskRuntime spiffs)
      → business (request_manual_resync spiffs w k) ≡ business k
  unfolding request_manual_resync start_resync
  business-request_manual_resync w k = elim (Bool-cases (is_active w.identity_state)) [
    | inl e ↦
        let high =
          high_queue-enqueue_state_fetch (state_endpoint_url spiffs k) w.kiosk_token k.network in
        let low =
          low_queue-enqueue_state_fetch (state_endpoint_url spiffs k) w.kiosk_token k.network in
        ap business (branch_true (is_active w.identity_state) _ _ e)
        ∙ (λ i. with_queues k (high i, low i))
    | inr e ↦ ap business (branch_false (is_active w.identity_state) _ _ e)
  ]

  pub business-key :
      (kind : LocalEventKind) (w : World) (e : LocalEvent) (k : KioskRuntime spiffs)
      → IsKey kind
      → w.recovery_overlay_active ≡ true
      → business (handle_local_event spiffs w (record e { kind = kind }) k) ≡ business k
  unfolding handle_local_event
  business-key kind w e k down covered =
      ap business (branch_true (e.key == b'*' || w.recovery_overlay_active) _ _ (ground arith))
  business-key kind w e k up covered = refl

module _ (spiffs : Spiffs) (portal : WifiSetupPortal) where
  business-call_back :
      (w : World) (effect : Effect) (k : KioskRuntime spiffs)
      → business spiffs (call_back spiffs portal w effect k) ≡ business spiffs k
  unfolding call_back refresh_idle_screen render_current_business_state
  business-call_back w resync k = business-request_manual_resync spiffs w k
  business-call_back w return_to_state k = refl
  business-call_back w draw_recovery_menu k = refl
  business-call_back w draw_waiting_screen k = refl
  business-call_back w draw_portal_active k = refl
  business-call_back w draw_portal_testing k = refl
  business-call_back w draw_portal_failed k = refl
  business-call_back w (draw_wifi_hold_progress _) k = refl
  business-call_back w retry_network k = refl
  business-call_back w show_device_info k = refl
  business-call_back w restart k = refl

  pub business-call_all :
      (w : World) (effects : List Effect) (k : KioskRuntime spiffs)
      → business spiffs (call_all spiffs portal w effects k) ≡ business spiffs k
  unfolding call_all
  business-call_all w [] k = refl
  business-call_all w (effect ∷ effects) k =
      business-call_all w effects (call_back spiffs portal w effect k)
      ∙ business-call_back w effect k
