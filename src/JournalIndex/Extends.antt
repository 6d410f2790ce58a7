-- ===== src/JournalIndex/Extends.antt =====
-- What an append to the journal leaves of the records that the index already has.
use mesflow_kiosk_runtime_v.Prelude.{
  ℕ, ◌≡◌, refl, ap, ◌∙◌, false, some, List, if◌then◌else◌, bytes_eq, bytes_eq_iff, bytes_eq_refl,
  Bool-cases, inl, inr, arith,
}
use mesflow_kiosk_runtime_v.StringMap.{lookup, contains}
use mesflow_kiosk_runtime_v.StringMap.Laws.{lookup-insert, lookup-modify, apply_to}
use mesflow_kiosk_runtime_v.JournalRecord.{JournalRecord, JournalTransition}
use mesflow_kiosk_runtime_v.JournalIndex.{
  EventJournalIndex, find, has_event, record_appended_event, record_appended_transition,
  update_record,
}

-- The parts of a record that a transition does not touch.
abbrev pub SameEvent : JournalRecord → JournalRecord → Type 0
SameEvent r s = (s.event_id ≡ r.event_id) × (s.device_seq ≡ r.device_seq) × (s.payload ≡ r.payload)

-- Every record of the first index is in the second, with the same event.
abbrev pub Extends : EventJournalIndex → EventJournalIndex → Type 0
Extends x y =
    (key : List ℕ) (r : JournalRecord)
    → find key x ≡ some r
    → (s : JournalRecord) × (find key y ≡ some s) × SameEvent r s

pub Extends-refl : (x : EventJournalIndex) → Extends x x
Extends-refl x key r h = (r, h, (refl, refl, refl))

pub Extends-trans : (x y z : EventJournalIndex) → Extends x y → Extends y z → Extends x z
Extends-trans x y z f g key r h =
    let (s, found, same) = f key r h in
    let (u, found', same') = g key s found in
    (u, found', (same'.0 ∙ same.0, same'.1 ∙ same.1, same'.2 ∙ same.2))

pub record_appended_event-Extends :
    (r : JournalRecord) (n : ℕ) (x : EventJournalIndex)
    → has_event r.event_id x ≡ false
    → Extends x (record_appended_event r n x)
unfolding record_appended_event find has_event contains
record_appended_event-Extends r n x absent key s h = (
  s,
  elim (Bool-cases (bytes_eq r.event_id key)) [
    | inl e ↦ ground (arith, bytes_eq_iff r.event_id key)
    | inr e ↦
        lookup-insert r.event_id key r x.records
        ∙ ap (λ b. if b then some r else lookup key x.records) e
        ∙ h
  ],
  (refl, refl, refl),
)

pub find-record_appended_event :
    (r : JournalRecord) (n : ℕ) (x : EventJournalIndex)
    → find r.event_id (record_appended_event r n x) ≡ some r
unfolding record_appended_event find
find-record_appended_event r n x =
    lookup-insert r.event_id r.event_id r x.records
    ∙ ap (λ b. if b then some r else lookup r.event_id x.records) (bytes_eq_refl r.event_id)

pub record_appended_transition-Extends :
    (t : JournalTransition) (n : ℕ) (x : EventJournalIndex)
    → Extends x (record_appended_transition t n x)
unfolding record_appended_transition find
record_appended_transition-Extends t n x key s h = elim (Bool-cases (bytes_eq t.event_id key)) [
  | inl e ↦ (
    update_record t s,
    lookup-modify t.event_id key (update_record t) x.records
        ∙ ap
            (λ b.
              if b then apply_to (update_record t) (lookup key x.records) else lookup key x.records)
            e
        ∙ ap (apply_to (update_record t)) h,
    (refl, refl, refl),
  )
  | inr e ↦ (
    s,
    lookup-modify t.event_id key (update_record t) x.records
        ∙ ap
            (λ b.
              if b then apply_to (update_record t) (lookup key x.records) else lookup key x.records)
            e
        ∙ h,
    (refl, refl, refl),
  )
]
