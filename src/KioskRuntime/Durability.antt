-- ===== src/KioskRuntime/Durability.antt =====
-- Every event that is on its way to the server is in the journal. About the handlers of
-- firmware/kiosk_runtime_v2/src/runtime/kiosk_runtime.cpp together with the worker's turns.
pub mod Handlers
pub mod Inputs
pub mod Results
pub mod Replays
pub mod Polls
pub mod Rounds
use mesflow_kiosk_runtime_v.Prelude.{
  ℕ, ◌-◌, ◌≡◌, refl, sym, ap, ◌∙◌, Bool, true, false, Option, none, some, List, [], ◌∷◌, ◌++◌, All,
  All-imp, All-append, if◌then◌else◌, Bool-cases, inl, inr, arith, length, ltb,
}
use mesflow_kiosk_runtime_v.JournalRecord.{JournalRecord, JournalTransition}
use mesflow_kiosk_runtime_v.JournalIndex.{EventJournalIndex, find}
use mesflow_kiosk_runtime_v.JournalIndex.Extends.{Extends}
use mesflow_kiosk_runtime_v.EventJournal.{EventJournal, append_transition}
use mesflow_kiosk_runtime_v.EventJournal.SpiffsFile.{Spiffs}
use mesflow_kiosk_runtime_v.EventJournal.Keeps.{append_transition-Extends}
use mesflow_kiosk_runtime_v.NetworkWorker.{
  NetworkRequest, NetworkWorker, NetworkPriorityTier, priority_high, priority_low, strncpy,
  fill_body, max_queued_event_id_bytes, high_depth, low_depth, enqueue,
}
use mesflow_kiosk_runtime_v.NetworkWorker.Execute.{carries_event}
use mesflow_kiosk_runtime_v.NetworkWorker.Delivery.{in_hand}
use mesflow_kiosk_runtime_v.KioskRuntime.{
  World, Notice, KioskRuntime, render_current_business_state,
}

-- The record that a request was made from.
abbrev pub IsFrom : NetworkRequest → JournalRecord → Type 0
IsFrom req r =
    (req.event_id ≡ strncpy (max_queued_event_id_bytes - 1) r.event_id)
    × (req.device_seq ≡ r.device_seq)
    × (req.body ≡ fill_body r.payload)

-- A request for an event was made from a record of the index.
abbrev pub IsBacked : EventJournalIndex → NetworkRequest → Type 0
IsBacked x req =
    carries_event req.kind ≡ true
    → (key : List ℕ) × (r : JournalRecord) × (find key x ≡ some r) × IsFrom req r

pub Extends-IsBacked :
    (x y : EventJournalIndex)
    → Extends x y
    → (req : NetworkRequest) → IsBacked x req
    → IsBacked y req
Extends-IsBacked x y ext req backed is_event =
    let (key, r, found, from) = backed is_event in
    let (s, found', same) = ext key r found in
    (
      key,
      s,
      found',
      (
        from.0 ∙ ap (strncpy (max_queued_event_id_bytes - 1)) (sym same.0),
        from.1 ∙ sym same.1,
        from.2 ∙ ap fill_body (sym same.2),
      ),
    )

abbrev pub AllBacked : EventJournalIndex → NetworkWorker → Type 0
AllBacked x w =
    All (IsBacked x) (in_hand w.current)
    × All (IsBacked x) w.high_queue
    × All (IsBacked x) w.low_queue

sent-AllBacked :
    (b : Bool) (x : EventJournalIndex) (w w' : NetworkWorker)
    → AllBacked x w'
    → AllBacked x w
    → AllBacked x (if◌then◌else◌ {A = Bool × NetworkWorker} b (true, w') (false, w)).1
sent-AllBacked true x w w' new old = new
sent-AllBacked false x w w' new old = old

pub enqueue-AllBacked :
    (x : EventJournalIndex) (tier : NetworkPriorityTier) (req : NetworkRequest) (w : NetworkWorker)
    → IsBacked x req
    → AllBacked x w
    → AllBacked x (enqueue tier req w).1
unfolding enqueue
enqueue-AllBacked x priority_high req w backed all =
    sent-AllBacked (ltb (length w.high_queue) high_depth) x w _
      (all.0, All-append (IsBacked x) w.high_queue req all.1 backed, all.2) all
enqueue-AllBacked x priority_low req w backed all =
    sent-AllBacked (ltb (length w.low_queue) low_depth) x w _
      (all.0, all.1, All-append (IsBacked x) w.low_queue req all.2 backed) all

module _ (spiffs : Spiffs) where
  -- Every request of the worker is backed by the journal.
  pub record IsDurable (k : KioskRuntime spiffs) : Type 0 where
    pub all_backed : AllBacked k.journal.index k.network

  pub journal-IsDurable :
      (k : KioskRuntime spiffs) (j : EventJournal spiffs)
      → Extends k.journal.index j.index
      → IsDurable k
      → IsDurable (record k { journal = j })
  journal-IsDurable k j ext d =
      let keep = Extends-IsBacked k.journal.index j.index ext in
      record {
        all_backed = (
          All-imp _ _ _ keep d.all_backed.0,
          All-imp _ _ _ keep d.all_backed.1,
          All-imp _ _ _ keep d.all_backed.2,
        );
      }

  pub render-IsDurable :
      (w : World) (text : Notice) (is_error is_network_error : Bool) (k : KioskRuntime spiffs)
      → IsDurable k
      → IsDurable (render_current_business_state spiffs w text is_error is_network_error k)
  unfolding render_current_business_state
  render-IsDurable w text is_error is_network_error k d = record { all_backed = d.all_backed }

  pub branch-IsDurable :
      (b : Bool) (k k' : KioskRuntime spiffs)
      → IsDurable k
      → IsDurable k'
      → IsDurable (if b then k else k')
  branch-IsDurable true k k' d d' = d
  branch-IsDurable false k k' d d' = d'

  -- The same behind a flag that is returned.
  pub flagged-IsDurable :
      (b : Bool) (k k' : Bool × KioskRuntime spiffs)
      → IsDurable k.1
      → IsDurable k'.1
      → IsDurable (if◌then◌else◌ {A = Bool × KioskRuntime spiffs} b k k').1
  flagged-IsDurable true k k' d d' = d
  flagged-IsDurable false k k' d d' = d'

  -- The same with what the test has found.
  pub known-IsDurable :
      (b : Bool) (k k' : KioskRuntime spiffs)
      → (b ≡ true → IsDurable k)
      → (b ≡ false → IsDurable k')
      → IsDurable (if b then k else k')
  known-IsDurable true k k' d d' = d refl
  known-IsDurable false k k' d d' = d' refl
