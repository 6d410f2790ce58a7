-- ===== src/EventJournal/Spared.antt =====
-- What an incremental compaction of firmware/kiosk_runtime_v2/src/storage/event_journal.cpp keeps, when
-- nothing else changes the journal between its ticks.
use mesflow_kiosk_runtime_v.Prelude.{ℕ, zero, suc, ◌≡◌, ◌⊎◌, inl, inr, ap, ◌∙◌, true, some, List}
use mesflow_kiosk_runtime_v.JournalRecord.{JournalRecord, pending, in_flight}
use mesflow_kiosk_runtime_v.JournalIndex.{
  EventJournalIndex, CompactionPolicy, find, rebuild_after_compaction, select_records_to_keep,
}
use mesflow_kiosk_runtime_v.JournalIndex.Compaction.{rebuild-keeps_unsynced}
use mesflow_kiosk_runtime_v.EventJournal.{EventJournal, begin_compaction, compact_tick}
use mesflow_kiosk_runtime_v.EventJournal.SpiffsFile.{Spiffs}
use mesflow_kiosk_runtime_v.EventJournal.Concurrent.{
  ticks, tick-cases, tick-active, ticks-idle, begin-keep,
}

module _ (spiffs : Spiffs) where
  -- The ticks of one compaction leave the index, or rebuild it once.
  ticks-index :
      (n fuel : ℕ) (x : EventJournalIndex) (keep : List (List ℕ)) (j : EventJournal spiffs)
      → j.index ≡ x
      → (j.compaction_active ≡ true → j.compaction_keep ≡ keep)
      → ((ticks spiffs n fuel j).index ≡ x)
        ⊎ ((ticks spiffs n fuel j).index ≡ rebuild_after_compaction keep x)
  unfolding ticks
  ticks-index zero fuel x keep j same listed = inl same
  ticks-index (suc n) fuel x keep j same listed =
      let j' = compact_tick spiffs fuel j in
      elim (tick-cases spiffs fuel j) [
        | inl (index, list) ↦
            ticks-index n fuel x keep j' (index ∙ same)
              (λ going. list going ∙ listed (tick-active spiffs fuel j going))
        | inr (index, idle, active) ↦ inr (
            ap (λ k. k.index) (ticks-idle spiffs n fuel j' idle)
            ∙ index
            ∙ ap (λ l. rebuild_after_compaction l j.index) (listed active)
            ∙ ap (rebuild_after_compaction keep) same)
      ]

  -- A compaction that has begun, under any policy, leaves each record that is PENDING or IN_FLIGHT
  -- in the index unchanged after any number of ticks, whichever of their writes fail, when nothing
  -- else changes the journal meanwhile.
  pub ticks-keeps_unsynced :
      (policy : CompactionPolicy) (n fuel : ℕ) (j : EventJournal spiffs) (id : List ℕ)
      (r : JournalRecord)
      → (begin_compaction spiffs policy j).0 ≡ true
      → find id j.index ≡ some r
      → (r.sync_status ≡ pending) ⊎ (r.sync_status ≡ in_flight)
      → find id (ticks spiffs n fuel (begin_compaction spiffs policy j).1).index ≡ some r
  ticks-keeps_unsynced policy n fuel j id r begun found unsynced =
      let (chosen, same) = begin-keep spiffs policy j begun in
      elim (ticks-index n fuel j.index (select_records_to_keep policy j.index)
        (begin_compaction spiffs policy j).1 same (λ going. chosen)) [
          | inl left ↦ ap (find id) left ∙ found
          | inr rebuilt ↦
              ap (find id) rebuilt ∙ rebuild-keeps_unsynced policy j.index id r found unsynced
        ]
