-- ===== src/RecoverySupervisor/History.antt =====
-- The ring keeps the last events, oldest first.
use mesflow_kiosk_runtime_v.Prelude.{
  ℕ, suc, ◌+◌, ◌-◌, ◌%◌, ◌≤◌, ◌<◌, ◌≡◌, ◌≢◌, ap, ◌∙◌, arith, ltb, if◌then◌else◌, ◌==◌,
}
use mesflow_kiosk_runtime_v.RecoverySupervisor.{
  RecoveryEvent, RecoveryHistory, capacity, record_recovery_event, recovery_history_at,
  truncate_detail,
}

-- The counters of a ring that has been written to from its start.
pub record IsRing (h : RecoveryHistory) : Type 0 where
  pub full_or_filling : h.history_count ≤ capacity
  pub next_within : h.history_next < capacity
  pub filling : h.history_count < capacity → h.history_next ≡ h.history_count

-- The slot of an entry, and the counters behind a record.
abbrev slot : ℕ → ℕ → ℕ → ℕ
slot count next index = ((if ltb count capacity then 0 else next) + index) % capacity

abbrev count_after : ℕ → ℕ
count_after count = if ltb count capacity then count + 1 else count

abbrev next_after : ℕ → ℕ
next_after next = (next + 1) % capacity

put_same : (k next : ℕ) (a b : RecoveryEvent) → k ≡ next → (if k == next then a else b) ≡ a
put_same k next a b h = ground arith

put_other : (k next : ℕ) (a b : RecoveryEvent) → k ≢ next → (if k == next then a else b) ≡ b
put_other k next a b h = ground arith

module _ (count next : ℕ) (full : count ≤ capacity) (within : next < capacity)
    (filling : count < capacity → next ≡ count) where
  slot-newest : slot (count_after count) (next_after next) (count_after count - 1) ≡ next
  slot-newest = ground arith

  slot-older :
      (i : ℕ)
      → count < capacity
      → i < count
      → (slot (count_after count) (next_after next) i ≢ next)
        × (slot (count_after count) (next_after next) i ≡ slot count next i)
  slot-older i more h = (ground arith, ground arith)

  slot-shifted :
      (i : ℕ)
      → count ≡ capacity
      → suc i < capacity
      → (slot (count_after count) (next_after next) i ≢ next)
        × (slot (count_after count) (next_after next) i ≡ slot count next (suc i))
  slot-shifted i same h = (ground arith, ground arith)

record-IsRing :
    (e : RecoveryEvent) (h : RecoveryHistory) → IsRing h → IsRing (record_recovery_event e h)
unfolding record_recovery_event
record-IsRing e h ring = record {
  full_or_filling = ground arith;
  next_within = omega arith;
  filling = λ more. ground arith;
}

-- Recording an event keeps the ring well formed. The newest entry is then that event, its detail cut
-- to 63 bytes. Before the ring is full every older entry stays where it was; once it is full the
-- oldest is dropped and every other moves one place down.
pub record_recovery_event-lem :
    (e : RecoveryEvent) (h : RecoveryHistory)
    → IsRing h
    → IsRing (record_recovery_event e h)
      × (recovery_history_at
            (record_recovery_event e h)
            ((record_recovery_event e h).history_count - 1)
          ≡ record e { detail = truncate_detail e.detail })
      × ((i : ℕ)
          → h.history_count < capacity
          → i < h.history_count
          → recovery_history_at (record_recovery_event e h) i ≡ recovery_history_at h i)
      × ((i : ℕ)
          → h.history_count ≡ capacity
          → suc i < capacity
          → recovery_history_at (record_recovery_event e h) i ≡ recovery_history_at h (suc i))
unfolding record_recovery_event recovery_history_at
record_recovery_event-lem e h ring =
    let full = ring.full_or_filling in
    let within = ring.next_within in
    let filling = ring.filling in
    (
      record-IsRing e h ring,
      put_same _ _ _ _ (slot-newest h.history_count h.history_next full within filling),
      λ i more below.
          (let (other, same) =
              slot-older h.history_count h.history_next full within filling i more below in
            put_other _ _ _ _ other ∙ ap h.slots same),
      λ i at below.
          (let (other, same) =
              slot-shifted h.history_count h.history_next full within filling i at below in
            put_other _ _ _ _ other ∙ ap h.slots same),
    )
