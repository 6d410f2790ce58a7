-- ===== src/EventJournal/Lost.antt =====
-- What happens to an event that is appended while an incremental compaction is under way.
use mesflow_kiosk_runtime_v.Prelude.{ℕ, ◌≡◌, ◌∙◌, refl, true, false, none, List, [], ◌∷◌, arith}
use mesflow_kiosk_runtime_v.StringMap.{lookup}
use mesflow_kiosk_runtime_v.JournalIndex.{
  EventJournalIndex, empty_index, find, keep_record, keep_records, rebuild_after_compaction,
}
use mesflow_kiosk_runtime_v.JournalIndex.Compaction.{member, keep_record-lookup}
use mesflow_kiosk_runtime_v.EventJournal.{EventJournal, finish_compaction_validate_and_swap}
use mesflow_kiosk_runtime_v.EventJournal.SpiffsFile.{Spiffs}

keep_records-dropped :
    (x : EventJournalIndex) (keep : List (List ℕ)) (new : EventJournalIndex) (j : List ℕ)
    → member j keep ≡ false
    → lookup j new.records ≡ none
    → lookup j (keep_records x keep new).records ≡ none
unfolding keep_records
keep_records-dropped x [] new j out absent = absent
keep_records-dropped x (i ∷ keep) new j out absent =
    keep_records-dropped x keep (keep_record x i new) j (ground arith)
      (keep_record-lookup x new i j ∙ ground arith)

pub rebuild-dropped :
    (x : EventJournalIndex) (keep : List (List ℕ)) (j : List ℕ)
    → member j keep ≡ false
    → find j (rebuild_after_compaction keep x) ≡ none
unfolding find rebuild_after_compaction lookup
rebuild-dropped x keep j out = keep_records-dropped x keep (empty_index x.capacity_bytes) j out refl

module _ (spiffs : Spiffs) where
  -- A compaction that finishes drops every record whose id its list does not name.
  pub finish_compaction-dropped :
      (fuel : ℕ) (keep : List (List ℕ)) (j : EventJournal spiffs) (id : List ℕ)
      → (finish_compaction_validate_and_swap spiffs fuel keep j).0 ≡ true
      → member id keep ≡ false
      → find id (finish_compaction_validate_and_swap spiffs fuel keep j).1.index ≡ none
  unfolding finish_compaction_validate_and_swap
  finish_compaction-dropped fuel keep j id done out =
      ground (arith, rebuild-dropped j.index keep id out)
