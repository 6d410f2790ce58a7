-- ===== src/JournalIndex.antt =====
-- firmware/kiosk_runtime_v2/src/protocol/event_journal_index.{h,cpp}: the index in memory that a
-- scan of the journal builds, its accounting of bytes, and the choice of what compaction keeps.
pub mod Pressure
pub mod Replay
pub mod Counts
pub mod Sorting
pub mod Pending
pub mod Compaction
pub mod Bound
pub mod Kept
pub mod Newest
pub mod Extends
use mesflow_kiosk_runtime_v.Prelude.{
  ℕ, zero, suc, ◌+◌, ◌-◌, ◌%◌, ◌^◌, Bool, true, false, not, ◌||◌, Option, none, some, List, [], ◌∷◌,
  ◌++◌, map, length, take, min, ltb, leb, if◌then◌else◌, bytes_eq,
}
use mesflow_kiosk_runtime_v.StringMap.{StringMap, lookup, insert, modify, contains}
use mesflow_kiosk_runtime_v.JournalRecord.{
  JournalSyncStatus, pending, in_flight, acked, rejected, conflict, human_review, JournalRecord,
  JournalTransition, JournalBodyKind, event, transition, unknown, journal_body_kind,
  decode_journal_event, decode_journal_transition, encode_journal_event,
}

-- uint32_t arithmetic.
abbrev pub u32 : ℕ → ℕ
u32 n = n % 2 ^ 32

pub record EventJournalIndex : Type 0 where
  pub capacity_bytes : ℕ
  pub used_bytes : ℕ
  pub records : StringMap JournalRecord
  pub frame_sizes : StringMap ℕ

-- The constructor.
abbrev pub empty_index : ℕ → EventJournalIndex
empty_index capacity_bytes = record {
  capacity_bytes = capacity_bytes;
  used_bytes = 0;
  records = [];
  frame_sizes = [];
}

abbrev pub is_terminal : JournalSyncStatus → Bool
is_terminal pending = false
is_terminal in_flight = false
is_terminal _ = true

abbrev pub add_used : ℕ → EventJournalIndex → EventJournalIndex
add_used frame_size x = record x { used_bytes = u32 (x.used_bytes + frame_size) }

-- The four assignments through the iterator.
abbrev pub update_record : JournalTransition → JournalRecord → JournalRecord
update_record t r = record r {
  sync_status = t.sync_status;
  retry_count = t.retry_count;
  last_attempt_uptime_ms = t.last_attempt_uptime_ms;
  last_error_code = t.last_error_code;
}

unfoldable pub has_event : List ℕ → EventJournalIndex → Bool
unfolding contains
has_event event_id x = contains event_id x.records

unfoldable pub find : List ℕ → EventJournalIndex → Option JournalRecord
unfolding lookup
find event_id x = lookup event_id x.records

-- The two stores that put a record into both maps.
abbrev pub put_record : JournalRecord → ℕ → EventJournalIndex → EventJournalIndex
put_record r frame_size x = record x {
  records = insert r.event_id r x.records;
  frame_sizes = insert r.event_id frame_size x.frame_sizes;
}

unfoldable pub apply_scanned_frame : List ℕ → ℕ → EventJournalIndex → EventJournalIndex
unfolding contains
apply_scanned_frame body_json frame_size x =
    let x' = add_used frame_size x in
    elim (journal_body_kind body_json) [
      | event ↦ elim (decode_journal_event body_json) [
        | none ↦ x'
        | some r ↦ if contains r.event_id x'.records then x' else put_record r frame_size x'
      ]
      | transition ↦ elim (decode_journal_transition body_json) [
        | none ↦ x'
        | some t ↦ record x' { records = modify t.event_id (update_record t) x'.records }
      ]
      | unknown ↦ x'
    ]

pub data JournalAppendDecision : Type 0 where
  ok duplicate_event full : JournalAppendDecision

unfoldable pub decide_append : List ℕ → ℕ → EventJournalIndex → JournalAppendDecision
unfolding contains
decide_append event_id frame_size x =
    if contains event_id x.records
    then duplicate_event
    else if ltb x.capacity_bytes (u32 (x.used_bytes + frame_size))
    then full
    else ok

unfoldable pub record_appended_event : JournalRecord → ℕ → EventJournalIndex → EventJournalIndex
unfolding insert
record_appended_event r frame_size x = add_used frame_size (put_record r frame_size x)

unfoldable pub record_appended_transition :
    JournalTransition → ℕ → EventJournalIndex → EventJournalIndex
unfolding modify
record_appended_transition t frame_size x =
    add_used frame_size (record x { records = modify t.event_id (update_record t) x.records })

-- The records that a loop over the map collects.
unfoldable pub select :
    (JournalRecord → Bool) → StringMap JournalRecord → List (List ℕ × JournalRecord)
select p [] = []
select p ((k, r) ∷ m) = let rest = select p m in if p r then (k, r) ∷ rest else rest

-- `std::sort` by `operator<` on a number, as a stable sort: the source leaves ties open.
unfoldable pub insert_by {ℓ} : {A : Type ℓ} → (A → A → Bool) → A → List A → List A
insert_by before x [] = x ∷ []
insert_by before x (y ∷ ys) =
    let rest = insert_by before x ys in if before y x then y ∷ rest else x ∷ y ∷ ys

unfoldable pub sort_by {ℓ} : {A : Type ℓ} → (A → A → Bool) → List A → List A
unfolding insert_by
sort_by before [] = []
sort_by before (x ∷ xs) = insert_by before x (sort_by before xs)

abbrev pub status_eq : JournalSyncStatus → JournalSyncStatus → Bool
status_eq pending pending = true
status_eq in_flight in_flight = true
status_eq acked acked = true
status_eq rejected rejected = true
status_eq conflict conflict = true
status_eq human_review human_review = true
status_eq _ _ = false

-- The condition on the status in the loops over what is still to be sent.
abbrev pub is_pending : JournalRecord → Bool
is_pending r = status_eq r.sync_status pending || status_eq r.sync_status in_flight

abbrev pub is_unsynced : JournalRecord → Bool
is_unsynced r = not (is_terminal r.sync_status)

abbrev pub by_device_seq : JournalRecord → JournalRecord → Bool
by_device_seq a b = ltb a.device_seq b.device_seq

unfoldable pub pending_in_device_seq_order : EventJournalIndex → List JournalRecord
unfolding select
pending_in_device_seq_order x = sort_by by_device_seq (map (λ e. e.1) (select is_pending x.records))

pub record CompactionPolicy : Type 0 where
  pub acked_retention_count : ℕ
  pub rejected_retention_count : ℕ
  pub conflict_retention_count : ℕ
  pub human_review_retention_count : ℕ

abbrev pub default_policy : CompactionPolicy
default_policy = record {
  acked_retention_count = 5;
  rejected_retention_count = 5;
  conflict_retention_count = 5;
  human_review_retention_count = 5;
}

abbrev pub has_status : JournalSyncStatus → JournalRecord → Bool
has_status status r = status_eq r.sync_status status

abbrev pub newest_first : List ℕ × JournalRecord → List ℕ × JournalRecord → Bool
newest_first a b = ltb b.1.created_uptime_ms a.1.created_uptime_ms

abbrev pub ids : List (List ℕ × JournalRecord) → List (List ℕ)
ids = map (λ e. e.0)

-- The lambda `collect_and_trim`, its result the ids that it pushes.
unfoldable pub collect_and_trim : JournalSyncStatus → ℕ → StringMap JournalRecord → List (List ℕ)
unfolding select
collect_and_trim status retention records =
    let bucket = sort_by newest_first (select (has_status status) records) in
    ids (take (min retention (length bucket)) bucket)

unfoldable pub select_records_to_keep : CompactionPolicy → EventJournalIndex → List (List ℕ)
unfolding select collect_and_trim
select_records_to_keep policy x =
    ids (select is_unsynced x.records)
    ++ (collect_and_trim acked policy.acked_retention_count x.records
        ++ (collect_and_trim rejected policy.rejected_retention_count x.records
            ++ (collect_and_trim conflict policy.conflict_retention_count x.records
                ++ collect_and_trim human_review policy.human_review_retention_count x.records)))

-- kJournalFrameOverheadBytes + body.size().
unfoldable pub frame_size_for : List ℕ → ℕ
frame_size_for body = u32 (9 + length body)

-- The stores for one record of the list, on the maps and the byte count built so far.
abbrev pub store_kept : List ℕ → JournalRecord → EventJournalIndex → EventJournalIndex
store_kept id r new =
    let frame_size = frame_size_for (encode_journal_event r) in
    record new {
      records = insert id r new.records;
      frame_sizes = insert id frame_size new.frame_sizes;
      used_bytes = u32 (new.used_bytes + frame_size);
    }

-- The body of the loop of `rebuild_after_compaction`.
unfoldable pub keep_record : EventJournalIndex → List ℕ → EventJournalIndex → EventJournalIndex
unfolding lookup insert frame_size_for
keep_record old id new = elim (lookup id old.records) [ none ↦ new | some r ↦ store_kept id r new ]

unfoldable pub keep_records :
    EventJournalIndex → List (List ℕ) → EventJournalIndex → EventJournalIndex
unfolding keep_record
keep_records old [] new = new
keep_records old (id ∷ rest) new = keep_records old rest (keep_record old id new)

unfoldable pub rebuild_after_compaction : List (List ℕ) → EventJournalIndex → EventJournalIndex
unfolding keep_records
rebuild_after_compaction keep x = keep_records x keep (empty_index x.capacity_bytes)
