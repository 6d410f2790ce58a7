-- ===== src/JournalIndex/Compaction.antt =====
-- What compaction keeps, and how much.
use mesflow_kiosk_runtime_v.Prelude.{
  ℕ, ◌≡◌, ◌∙◌, ap, refl, Bool, true, false, ◌||◌, none, some, List, [], ◌∷◌, ◌++◌, if◌then◌else◌,
  bytes_eq, eq-of-bytes_eq, ◌&&◌, ◌⊎◌, inl, inr, arith, Bool-cases, Option-cases,
}
use mesflow_kiosk_runtime_v.StringMap.{StringMap, lookup, contains}
use mesflow_kiosk_runtime_v.StringMap.Laws.{lookup-insert}
use mesflow_kiosk_runtime_v.JournalRecord.{pending, in_flight, JournalRecord}
use mesflow_kiosk_runtime_v.JournalIndex.{
  EventJournalIndex, empty_index, find, is_unsynced, select, ids, CompactionPolicy,
  select_records_to_keep, keep_record, store_kept, keep_records, rebuild_after_compaction,
}

abbrev pub member : List ℕ → List (List ℕ) → Bool
member j [] = false
member j (i ∷ rest) = bytes_eq i j || member j rest

member-append : (j : List ℕ) (a b : List (List ℕ)) → member j (a ++ b) ≡ (member j a || member j b)
member-append j [] b = refl
member-append j (i ∷ a) b = ground (arith, member-append j a b)

member-select :
    (p : JournalRecord → Bool) (m : StringMap JournalRecord) (j : List ℕ) (r : JournalRecord)
    → lookup j m ≡ some r
    → p r ≡ true
    → member j (ids (select p m)) ≡ true
unfolding lookup select
member-select p [] j r found keep = cc
member-select p ((i, s) ∷ m) j r found keep = elim (Bool-cases (bytes_eq i j)) [
  | inl same ↦ ground (arith, same)
  | inr other ↦ ground (arith, other, member-select p m j r)
]

pub keep_record-missing :
    (old new : EventJournalIndex) (i : List ℕ)
    → lookup i old.records ≡ none
    → keep_record old i new ≡ new
unfolding keep_record
keep_record-missing old new i e = ap (λ o. elim o [ none ↦ new | some r ↦ store_kept i r new ]) e

pub keep_record-found :
    (old new : EventJournalIndex) (i : List ℕ) (s : JournalRecord)
    → lookup i old.records ≡ some s
    → keep_record old i new ≡ store_kept i s new
unfolding keep_record
keep_record-found old new i s e = ap (λ o. elim o [ none ↦ new | some r ↦ store_kept i r new ]) e

-- One step of the rebuild, seen at a key.
pub keep_record-lookup :
    (old new : EventJournalIndex) (i j : List ℕ)
    → lookup j (keep_record old i new).records ≡ (
        if bytes_eq i j && contains i old.records
        then lookup i old.records
        else lookup j new.records)
unfolding contains
keep_record-lookup old new i j = elim (Option-cases (lookup i old.records)) [
  | inl missing ↦
      ap (λ x. lookup j x.records) (keep_record-missing old new i missing) ∙ ground (arith, missing)
  | inr (s, there) ↦
      ap (λ x. lookup j x.records) (keep_record-found old new i s there)
      ∙ lookup-insert i j s new.records
      ∙ ground (arith, there)
]

keep_record-same :
    (old new : EventJournalIndex) (i j : List ℕ) (r : JournalRecord)
    → lookup j old.records ≡ some r
    → (bytes_eq i j ≡ true) ⊎ (lookup j new.records ≡ some r)
    → lookup j (keep_record old i new).records ≡ some r
unfolding contains
keep_record-same old new i j r found here =
    keep_record-lookup old new i j ∙ ground (arith, eq-of-bytes_eq i j)

keep_records-kept :
    (old : EventJournalIndex) (keep : List (List ℕ)) (new : EventJournalIndex) (j : List ℕ)
    (r : JournalRecord)
    → lookup j old.records ≡ some r
    → (member j keep ≡ true) ⊎ (lookup j new.records ≡ some r)
    → lookup j (keep_records old keep new).records ≡ some r
unfolding keep_records
keep_records-kept old [] new j r found here = ground arith
keep_records-kept old (i ∷ keep) new j r found here =
    keep_records-kept old keep (keep_record old i new) j r found
      (ground (arith, keep_record-same old new i j r))

-- A record that is PENDING or IN_FLIGHT survives a rebuild with the list chosen from the same index
-- unchanged, under every policy.
pub rebuild-keeps_unsynced :
    (policy : CompactionPolicy) (x : EventJournalIndex) (j : List ℕ) (r : JournalRecord)
    → find j x ≡ some r
    → (r.sync_status ≡ pending) ⊎ (r.sync_status ≡ in_flight)
    → find j (rebuild_after_compaction (select_records_to_keep policy x) x) ≡ some r
unfolding find rebuild_after_compaction select_records_to_keep
rebuild-keeps_unsynced policy x j r found keep =
    keep_records-kept x (select_records_to_keep policy x) (empty_index x.capacity_bytes) j r found (
      inl (
        member-append j (ids (select is_unsynced x.records)) _
        ∙ rw (member-select is_unsynced x.records j r found (ground (arith, keep)))))

keep_record_sound :
    (old new : EventJournalIndex) (i j : List ℕ) (r : JournalRecord)
    → lookup j (keep_record old i new).records ≡ some r
    → (lookup j old.records ≡ some r) ⊎ (lookup j new.records ≡ some r)
unfolding contains
keep_record_sound old new i j r found =
    ground (arith, keep_record-lookup old new i j, eq-of-bytes_eq i j)

keep_records_sound :
    (old : EventJournalIndex) (keep : List (List ℕ)) (new : EventJournalIndex) (j : List ℕ)
    (r : JournalRecord)
    → lookup j (keep_records old keep new).records ≡ some r
    → (lookup j old.records ≡ some r) ⊎ (lookup j new.records ≡ some r)
unfolding keep_records
keep_records_sound old [] new j r found = inr found
keep_records_sound old (i ∷ keep) new j r found =
    elim (keep_records_sound old keep (keep_record old i new) j r found) [
      | inl there ↦ inl there
      | inr here ↦ keep_record_sound old new i j r here
    ]

-- Compaction makes up no record: what it leaves under an id stood there before.
pub rebuild-invents_nothing :
    (keep : List (List ℕ)) (x : EventJournalIndex) (j : List ℕ) (r : JournalRecord)
    → find j (rebuild_after_compaction keep x) ≡ some r
    → find j x ≡ some r
unfolding find rebuild_after_compaction lookup
rebuild-invents_nothing keep x j r found =
    elim (keep_records_sound x keep (empty_index x.capacity_bytes) j r found) [
      | inl there ↦ there
      | inr here ↦ cc
    ]
