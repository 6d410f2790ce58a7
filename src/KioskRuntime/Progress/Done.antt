-- ===== src/KioskRuntime/Progress/Done.antt =====
-- How many rounds the offline replay takes.
use mesflow_kiosk_runtime_v.Prelude.{
  ℕ, zero, suc, ◌+◌, ◌<◌, ◌≤◌, ◌≡◌, refl, sym, ap, ◌∙◌, inl, inr, Bool, true, false, some, List, [],
  ◌∷◌, All, length, length-map, ltb, ◌||◌, arith, subst, map, is_empty, if◌then◌else◌,
}
use mesflow_kiosk_runtime_v.EventJournal.SpiffsFile.{Spiffs}
use mesflow_kiosk_runtime_v.JournalRecord.{JournalRecord}
use mesflow_kiosk_runtime_v.JournalIndex.{pending_in_device_seq_order}
use mesflow_kiosk_runtime_v.NetworkWorker.{NetworkWorker, idle}
use mesflow_kiosk_runtime_v.NetworkWorker.Execute.{Answer}
use mesflow_kiosk_runtime_v.KioskRuntime.{World, KioskRuntime, is_active}
use mesflow_kiosk_runtime_v.KioskRuntime.Replay.{
  get_elem?, send_item, has_work, fill_queue, start_offline_replay_if_needed,
}
use mesflow_kiosk_runtime_v.KioskRuntime.Progress.{View, view, IsIdle, IsCalm}
use mesflow_kiosk_runtime_v.KioskRuntime.Progress.Serving.{
  replay_round, serve, send_item-cases, check-cases, serve-sending, serve-IsIdle, serve-calm,
}

get_elem?-some :
    (ids : List (List ℕ)) (n : ℕ) → n < length ids → (id : List ℕ) × (get_elem? ids n ≡ some id)
unfolding get_elem?
get_elem?-some [] n h = absurd (omega arith)
get_elem?-some (id ∷ ids) zero h = (id, refl)
get_elem?-some (id ∷ ids) (suc n) h = get_elem?-some ids n (omega arith)

-- What the device and the server do during a round.
pub record Round : Type 0 where
  pub world : World
  pub first : Answer
  pub second : Answer

module _ (spiffs : Spiffs) where
  unfoldable pub replay_rounds : List Round → KioskRuntime spiffs → KioskRuntime spiffs
  unfolding replay_round
  replay_rounds [] k = k
  replay_rounds (r ∷ rounds) k =
      replay_rounds rounds (replay_round spiffs r.world r.first r.second k)

  replay_round-IsIdle :
      (ids : List (List ℕ)) (n : ℕ) (r : Round) (k : KioskRuntime spiffs)
      → IsIdle spiffs ids n k
      → is_active r.world.identity_state ≡ true
      → n < length ids
      → IsIdle spiffs ids (suc n) (replay_round spiffs r.world r.first r.second k)
  unfolding replay_round
  replay_round-IsIdle ids n r k i active more =
      let w = r.world in
      let (id, found) = get_elem?-some ids n more in
      let k' = send_item spiffs w id k in
      let calm : IsCalm spiffs ids (suc n) (serve spiffs w r.first k') =
        elim (send_item-cases spiffs ids n w id k i) [
          | inl skipped ↦ inl (serve-IsIdle spiffs ids (suc n) w r.first k' skipped)
          | inr sent ↦ serve-sending spiffs ids n w r.first k' sent
        ] in
      subst (λ x. IsIdle spiffs ids (suc n) (serve spiffs w r.second (serve spiffs w r.first x)))
        (sym (check-cases spiffs ids n w id k i active found))
        (serve-calm spiffs ids (suc n) w r.second (serve spiffs w r.first k') calm)

  replay_rounds-IsIdle :
      (ids : List (List ℕ)) (n : ℕ) (rounds : List Round) (k : KioskRuntime spiffs)
      → IsIdle spiffs ids n k
      → All (λ r. is_active r.world.identity_state ≡ true) rounds
      → n + length rounds ≤ length ids
      → IsIdle spiffs ids (n + length rounds) (replay_rounds rounds k)
  unfolding replay_rounds
  replay_rounds-IsIdle ids n [] k i active fits = subst (λ m. IsIdle spiffs ids m k) (omega arith) i
  replay_rounds-IsIdle ids n (r ∷ rounds) k i active fits =
      subst (λ m. IsIdle spiffs ids m (replay_rounds (r ∷ rounds) k)) (omega arith)
        (replay_rounds-IsIdle ids (suc n) rounds (replay_round spiffs r.world r.first r.second k)
          (replay_round-IsIdle ids n r k i active.0 (omega arith)) active.1 (omega arith))

  -- No item is left or in flight, and the worker has nothing to do.
  abbrev pub IsDone : KioskRuntime spiffs → Type 0
  IsDone k = (has_work k.replay ≡ false) × (k.replay.replaying ≡ false) × (k.network ≡ idle)

  idle-IsDone :
      (ids : List (List ℕ)) (k : KioskRuntime spiffs) → IsIdle spiffs ids (length ids) k → IsDone k
  idle-IsDone ids k i =
      let none_left : ltb (length ids) (length ids) ≡ false = ground arith in
      (
        ap {A = View} (λ v. ltb v.next_item (length v.ids)) i ∙ none_left,
        ap {A = View} (λ v. v.replaying) i,
        ap {A = View} (λ v. v.network) i,
      )

  -- A kiosk on which no replay runs.
  pub record IsResting (k : KioskRuntime spiffs) : Type 0 where
    pub idle_worker : k.network ≡ idle
    pub none_in_flight : k.replay.replaying ≡ false
    pub right_server : k.server.env_mismatch ≡ false
    pub no_item_left : has_work k.replay ≡ false

  filled-IsDone :
      (ps : List JournalRecord) (rounds : List Round) (k : KioskRuntime spiffs)
      → IsResting k
      → All (λ r. is_active r.world.identity_state ≡ true) rounds
      → length rounds ≡ length ps
      → IsDone (replay_rounds rounds (if is_empty ps then k else fill_queue spiffs ps k))
  unfolding replay_rounds
  filled-IsDone [] [] k rests active enough =
      (rests.no_item_left, rests.none_in_flight, rests.idle_worker)
  filled-IsDone [] (r ∷ rounds) k rests active enough = absurd (omega arith)
  filled-IsDone (p ∷ ps) rounds k rests active enough =
      let ids = map (λ r. r.event_id) (p ∷ ps) in
      let k' = fill_queue spiffs (p ∷ ps) k in
      let all_items : 0 + length rounds ≡ length ids =
        omega (arith, length-map (λ r. r.event_id) (p ∷ ps)) in
      let filled : IsIdle spiffs ids 0 k' =
        ap {A = NetworkWorker} (λ x. record (view spiffs k') { network = x }) rests.idle_worker
        ∙ ap {A = Bool} (λ b. record (view spiffs k') { network = idle; replaying = b })
            rests.none_in_flight
        ∙ ap {A = Bool}
            (λ b. record (view spiffs k') { network = idle; replaying = false; env_mismatch = b })
            rests.right_server in
      idle-IsDone ids (replay_rounds rounds k') (
        subst (λ m. IsIdle spiffs ids m (replay_rounds rounds k')) all_items
          (replay_rounds-IsIdle ids 0 rounds k' filled active (omega arith)))

  -- The replay gets through its queue: on a kiosk with an idle worker, an active identity and the
  -- right server, where no replay runs, whatever the server answers to each event and whether or
  -- not a record is still there, the queue that a reconnect fills from the journal is done after as
  -- many rounds as the journal has events to send, each with two turns of the worker, and the
  -- worker is idle again with no item in flight.
  pub start_offline_replay-IsDone :
      (rounds : List Round) (k : KioskRuntime spiffs)
      → IsResting k
      → All (λ r. is_active r.world.identity_state ≡ true) rounds
      → length rounds ≡ length (pending_in_device_seq_order k.journal.index)
      → IsDone (replay_rounds rounds (start_offline_replay_if_needed spiffs k))
  unfolding start_offline_replay_if_needed
  start_offline_replay-IsDone rounds k rests active enough =
      let none_runs : (k.replay.replaying || has_work k.replay) ≡ false =
        ap (λ b. b || has_work k.replay) rests.none_in_flight ∙ rests.no_item_left in
      subst (λ x. IsDone (replay_rounds rounds x))
        (sym (
          ap
            (λ b.
              if b
              then k
              else if is_empty (pending_in_device_seq_order k.journal.index)
              then k
              else fill_queue spiffs (pending_in_device_seq_order k.journal.index) k)
            none_runs))
        (filled-IsDone (pending_in_device_seq_order k.journal.index) rounds k rests active enough)
