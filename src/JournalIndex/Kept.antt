-- ===== src/JournalIndex/Kept.antt =====
-- Compaction chooses among the ids that the index holds.
use mesflow_kiosk_runtime_v.Prelude.{
  All, All-imp, ℕ, zero, suc, ◌≡◌, refl, Bool, true, false, List, [], ◌∷◌, ◌++◌, length, take, min,
  bytes_eq_refl, eq-of-bytes_eq, arith, Bool-cases, inl, inr,
}
use mesflow_kiosk_runtime_v.StringMap.{StringMap, contains}
use mesflow_kiosk_runtime_v.JournalRecord.{
  JournalRecord, JournalSyncStatus, acked, rejected, conflict, human_review,
}
use mesflow_kiosk_runtime_v.JournalIndex.{
  EventJournalIndex, is_unsynced, has_status, newest_first, select, sort_by, ids, collect_and_trim,
  CompactionPolicy, select_records_to_keep,
}
use mesflow_kiosk_runtime_v.JournalIndex.Sorting.{insert_by-All}
use mesflow_kiosk_runtime_v.JournalIndex.Compaction.{member}

abbrev Entry : Type 0
Entry = List ℕ × JournalRecord

module _ {A : Type 0} (P : A → Type 0) where
  append-All : (xs ys : List A) → All P xs → All P ys → All P (xs ++ ys)
  append-All [] ys all more = more
  append-All (x ∷ xs) ys all more = (all.0, append-All xs ys all.1 more)

  take-All : (n : ℕ) (xs : List A) → All P xs → All P (take n xs)
  take-All zero xs all = tt
  take-All (suc n) [] all = tt
  take-All (suc n) (x ∷ xs) all = (all.0, take-All n xs all.1)

  sort_by-All : (before : A → A → Bool) (xs : List A) → All P xs → All P (sort_by before xs)
  unfolding sort_by
  sort_by-All before [] all = tt
  sort_by-All before (x ∷ xs) all =
      insert_by-All before P x (sort_by before xs) all.0 (sort_by-All before xs all.1)

select-All :
    (P : Entry → Type 0) (p : JournalRecord → Bool) (m : StringMap JournalRecord)
    → All P m
    → All P (select p m)
unfolding select
select-All P p [] all = tt
select-All P p ((k, r) ∷ m) all = elim (Bool-cases (p r)) [
  | inl taken ↦ rw taken (all.0, select-All P p m all.1)
  | inr skipped ↦ rw skipped (select-All P p m all.1)
]

ids-All : (P : List ℕ → Type 0) (es : List Entry) → All (λ e. P e.0) es → All P (ids es)
ids-All P [] all = tt
ids-All P (e ∷ es) all = (all.0, ids-All P es all.1)

entries-All : (m : StringMap JournalRecord) → All (λ e. contains e.0 m ≡ true) m
unfolding contains
entries-All [] = tt
entries-All ((k, r) ∷ m) = (
  ground (arith, bytes_eq_refl k),
  All-imp (λ e. contains e.0 m ≡ true) _ m (λ e h. ground arith) (entries-All m),
)

collect-All :
    (status : JournalSyncStatus) (n : ℕ) (m : StringMap JournalRecord)
    → All (λ i. contains i m ≡ true) (collect_and_trim status n m)
unfolding collect_and_trim
collect-All status n m =
    let P : Entry → Type 0 = λ e. contains e.0 m ≡ true in
    let bucket = sort_by newest_first (select (has_status status) m) in
    ids-All (λ i. contains i m ≡ true) (take (min n (length bucket)) bucket)
      (take-All P (min n (length bucket)) bucket (
        sort_by-All P newest_first (select (has_status status) m)
          (select-All P (has_status status) m (entries-All m))))

kept-All :
    (policy : CompactionPolicy) (x : EventJournalIndex)
    → All (λ i. contains i x.records ≡ true) (select_records_to_keep policy x)
unfolding select_records_to_keep
kept-All policy x =
    let m = x.records in
    let P : List ℕ → Type 0 = λ i. contains i m ≡ true in
    append-All P (ids (select is_unsynced m)) _
      (ids-All P (select is_unsynced m)
        (select-All (λ e. contains e.0 m ≡ true) is_unsynced m (entries-All m)))
      (append-All P (collect_and_trim acked policy.acked_retention_count m) _
        (collect-All acked policy.acked_retention_count m)
        (append-All P (collect_and_trim rejected policy.rejected_retention_count m) _
          (collect-All rejected policy.rejected_retention_count m)
          (append-All P (collect_and_trim conflict policy.conflict_retention_count m) _
            (collect-All conflict policy.conflict_retention_count m)
            (collect-All human_review policy.human_review_retention_count m))))

not_member :
    (m : StringMap JournalRecord) (keep : List (List ℕ)) (j : List ℕ)
    → All (λ i. contains i m ≡ true) keep
    → contains j m ≡ false
    → member j keep ≡ false
not_member m [] j all out = refl
not_member m (i ∷ keep) j all out =
    ground (arith, eq-of-bytes_eq i j, not_member m keep j all.1 out)

-- An id that the index does not hold is not chosen.
pub select_records-absent :
    (policy : CompactionPolicy) (x : EventJournalIndex) (j : List ℕ)
    → contains j x.records ≡ false
    → member j (select_records_to_keep policy x) ≡ false
select_records-absent policy x j out =
    not_member x.records (select_records_to_keep policy x) j (kept-All policy x) out
