-- ===== src/KioskRuntime/Progress.antt =====
-- The offline replay of firmware/kiosk_runtime_v2/src/runtime/kiosk_runtime.cpp gets to its end.
pub mod Answered
pub mod Serving
pub mod Done
use mesflow_kiosk_runtime_v.Prelude.{
  ℕ, suc, ◌≡◌, refl, sym, ap, ◌∙◌, ◌⊎◌, inl, inr, Bool, true, false, Option, none, some, List, [],
  ◌∷◌, if◌then◌else◌,
}
use mesflow_kiosk_runtime_v.EventJournal.SpiffsFile.{Spiffs}
use mesflow_kiosk_runtime_v.NetworkWorker.{
  NetworkRequestKind, state_fetch, NetworkRequest, NetworkWorker, idle, plain_request,
  enqueue_state_fetch, enqueue,
}
use mesflow_kiosk_runtime_v.KioskRuntime.{World, KioskRuntime}
use mesflow_kiosk_runtime_v.KioskRuntime.Resync.{start_resync, state_endpoint_url}

-- What the replay depends on.
pub record View : Type 0 where
  pub network : NetworkWorker
  pub ids : List (List ℕ)
  pub next_item : ℕ
  pub replaying : Bool
  pub env_mismatch : Bool

-- No item is in flight, and the environment is the right one.
abbrev pub ready : NetworkWorker → List (List ℕ) → ℕ → View
ready network ids n = record {
  network = network;
  ids = ids;
  next_item = n;
  replaying = false;
  env_mismatch = false;
}

abbrev pub waiting_fetch : NetworkRequest → NetworkWorker
waiting_fetch req = record idle { high_queue = req ∷ [] }

module _ (spiffs : Spiffs) where
  abbrev pub view : KioskRuntime spiffs → View
  view k = record {
    network = k.network;
    ids = k.replay.replay_event_ids;
    next_item = k.replay.replay_next;
    replaying = k.replay.replaying;
    env_mismatch = k.server.env_mismatch;
  }

  -- The worker has nothing to do, and item `n` is the next.
  abbrev pub IsIdle : List (List ℕ) → ℕ → KioskRuntime spiffs → Type 0
  IsIdle ids n k = view k ≡ ready idle ids n

  -- The worker may have a state to fetch.
  abbrev pub IsCalm : List (List ℕ) → ℕ → KioskRuntime spiffs → Type 0
  IsCalm ids n k =
      IsIdle ids n k
      ⊎ ((req : NetworkRequest) × (req.kind ≡ state_fetch)
          × (view k ≡ ready (waiting_fetch req) ids n))

  pub view-branch :
      (b : Bool) (k k' : KioskRuntime spiffs) (v : View)
      → view k ≡ v
      → view k' ≡ v
      → view (if b then k else k') ≡ v
  view-branch true k k' v e e' = e
  view-branch false k k' v e e' = e'

  pub IsCalm-branch :
      (ids : List (List ℕ)) (n : ℕ) (b : Bool) (k k' : KioskRuntime spiffs)
      → IsCalm ids n k
      → IsCalm ids n k'
      → IsCalm ids n (if b then k else k')
  IsCalm-branch ids n true k k' c c' = c
  IsCalm-branch ids n false k k' c c' = c'

  pub start_resync-IsCalm :
      (ids : List (List ℕ)) (n : ℕ) (w : World) (k : KioskRuntime spiffs)
      → IsIdle ids n k
      → IsCalm ids n (start_resync spiffs w k)
  unfolding start_resync enqueue_state_fetch enqueue
  start_resync-IsCalm ids n w k is_idle =
      let url = state_endpoint_url spiffs k in
      inr (
        plain_request state_fetch url [] w.kiosk_token,
        refl,
        ap {A = View}
            (λ v. record v { network = (enqueue_state_fetch url w.kiosk_token v.network).1 })
            is_idle,
      )
