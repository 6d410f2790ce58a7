-- ===== src/JournalIndex/Pressure.antt =====
-- Counts, usage and backpressure of the index. `usage_pct` is a double: the quotient of a number
-- below 100 * 2 ^ 32 by a uint32_t is rounded to the nearest, and a quotient below one of the
-- thresholds lies more than 2 ^ -33 below it, so each comparison is the exact one written here.
use mesflow_kiosk_runtime_v.Prelude.{
  ℕ, suc, ◌+◌, ◌-◌, ◌*◌, Bool, ◌||◌, Option, none, some, [], ◌∷◌, length, ltb, leb, ◌==◌,
  if◌then◌else◌,
}
use mesflow_kiosk_runtime_v.StringMap.{StringMap}
use mesflow_kiosk_runtime_v.JournalRecord.{
  JournalRecord, pending, in_flight, acked, rejected, conflict, human_review,
}
use mesflow_kiosk_runtime_v.JournalIndex.{EventJournalIndex, u32, is_pending}

pub data JournalPressure : Type 0 where
  normal warning restricted full : JournalPressure

-- usage_pct() >= pct.
abbrev pub usage_at_least : ℕ → EventJournalIndex → Bool
usage_at_least pct x =
    if x.capacity_bytes == 0 then leb pct 100 else leb (pct * x.capacity_bytes) (100 * x.used_bytes)

unfoldable pub pressure : EventJournalIndex → JournalPressure
pressure x =
    if usage_at_least 100 x
    then full
    else if usage_at_least 90 x
    then restricted
    else if usage_at_least 70 x
    then warning
    else normal

abbrev pub record_count : EventJournalIndex → ℕ
record_count x = u32 (length x.records)

unfoldable pub should_consider_compaction : EventJournalIndex → Bool
should_consider_compaction x = usage_at_least 70 x || ltb 120 (record_count x)

pub record JournalCounts : Type 0 where
  pub pending : ℕ
  pub in_flight : ℕ
  pub acked : ℕ
  pub rejected : ℕ
  pub conflict : ℕ
  pub human_review : ℕ

abbrev pub total : JournalCounts → ℕ
total c = u32 (c.pending + c.in_flight + c.acked + c.rejected + c.conflict + c.human_review)

abbrev pub no_counts : JournalCounts
no_counts = record {
  pending = 0;
  in_flight = 0;
  acked = 0;
  rejected = 0;
  conflict = 0;
  human_review = 0;
}

abbrev pub count_one : JournalRecord → JournalCounts → JournalCounts
count_one r c = elim r.sync_status [
  | pending ↦ record c { pending = u32 (suc c.pending) }
  | in_flight ↦ record c { in_flight = u32 (suc c.in_flight) }
  | acked ↦ record c { acked = u32 (suc c.acked) }
  | rejected ↦ record c { rejected = u32 (suc c.rejected) }
  | conflict ↦ record c { conflict = u32 (suc c.conflict) }
  | human_review ↦ record c { human_review = u32 (suc c.human_review) }
]

unfoldable pub count_records : StringMap JournalRecord → JournalCounts → JournalCounts
count_records [] c = c
count_records ((_, r) ∷ m) c = count_records m (count_one r c)

unfoldable pub counts : EventJournalIndex → JournalCounts
unfolding count_records
counts x = count_records x.records no_counts

-- The loop of `oldest_pending_age_ms`: the oldest creation time found so far, if any.
unfoldable pub oldest_created : StringMap JournalRecord → Option ℕ → Option ℕ
oldest_created [] found = found
oldest_created ((_, r) ∷ m) found = oldest_created m (
    if is_pending r
    then elim found [
      | none ↦ some r.created_uptime_ms
      | some oldest ↦
          if ltb r.created_uptime_ms oldest then some r.created_uptime_ms else some oldest
    ]
    else found)

unfoldable pub oldest_pending_age_ms : ℕ → EventJournalIndex → ℕ
unfolding oldest_created
oldest_pending_age_ms now_uptime_ms x = elim (oldest_created x.records none) [
  | none ↦ 0xFFFFFFFF
  | some oldest ↦ if leb oldest now_uptime_ms then now_uptime_ms - oldest else 0
]
