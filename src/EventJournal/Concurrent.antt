-- ===== src/EventJournal/Concurrent.antt =====
-- An event that is appended between two ticks of a compaction.
use mesflow_kiosk_runtime_v.Prelude.{
  ℕ, zero, suc, ◌≡◌, ◌≢◌, ◌⊎◌, inl, inr, refl, sym, ap, ◌∙◌, true, false, none, some, List,
  bytes_eq_refl, arith,
}
use mesflow_kiosk_runtime_v.StringMap.{contains}
use mesflow_kiosk_runtime_v.StringMap.Laws.{lookup-insert}
use mesflow_kiosk_runtime_v.JournalRecord.{JournalRecord}
use mesflow_kiosk_runtime_v.JournalIndex.{
  EventJournalIndex, CompactionPolicy, find, record_appended_event, rebuild_after_compaction,
  select_records_to_keep, decide_append,
}
use mesflow_kiosk_runtime_v.JournalIndex.Compaction.{member}
use mesflow_kiosk_runtime_v.JournalIndex.Kept.{select_records-absent}
use mesflow_kiosk_runtime_v.EventJournal.{
  EventJournal, append_event, begin_compaction, compact_tick, finish_compaction_validate_and_swap,
}
use mesflow_kiosk_runtime_v.EventJournal.SpiffsFile.{Spiffs}
use mesflow_kiosk_runtime_v.EventJournal.Lost.{rebuild-dropped}

module _ (spiffs : Spiffs) where
  -- So many iterations of the main loop, each with its call of `compact_tick`.
  unfoldable pub ticks : ℕ → ℕ → EventJournal spiffs → EventJournal spiffs
  unfolding compact_tick
  ticks zero fuel j = j
  ticks (suc n) fuel j = ticks n fuel (compact_tick spiffs fuel j)

  -- What a tick can do to the index and to the list.
  pub tick-cases :
      (fuel : ℕ) (j : EventJournal spiffs)
      → (((compact_tick spiffs fuel j).index ≡ j.index)
          × ((compact_tick spiffs fuel j).compaction_active ≡ true
              → (compact_tick spiffs fuel j).compaction_keep ≡ j.compaction_keep))
        ⊎ (((compact_tick spiffs fuel j).index ≡ rebuild_after_compaction j.compaction_keep j.index)
            × ((compact_tick spiffs fuel j).compaction_active ≡ false)
            × (j.compaction_active ≡ true))
  unfolding compact_tick finish_compaction_validate_and_swap
  tick-cases fuel j = ground arith

  tick-idle :
      (fuel : ℕ) (j : EventJournal spiffs)
      → j.compaction_active ≡ false
      → compact_tick spiffs fuel j ≡ j
  unfolding compact_tick
  tick-idle fuel j idle = ground arith

  pub begin-keep :
      (policy : CompactionPolicy) (j : EventJournal spiffs)
      → (begin_compaction spiffs policy j).0 ≡ true
      → ((begin_compaction spiffs policy j).1.compaction_keep
          ≡ select_records_to_keep policy j.index)
        × ((begin_compaction spiffs policy j).1.index ≡ j.index)
  unfolding begin_compaction
  begin-keep policy j done = ground arith

  append-keep :
      (r : JournalRecord) (j : EventJournal spiffs)
      → (append_event spiffs r j).0 ≡ true
      → ((append_event spiffs r j).1.compaction_keep ≡ j.compaction_keep)
        × (contains r.event_id j.index.records ≡ false)
        × (find r.event_id (append_event spiffs r j).1.index ≡ some r)
  unfolding append_event decide_append record_appended_event find
  append-keep r j done =
      ground
        (arith, lookup-insert r.event_id r.event_id r j.index.records, bytes_eq_refl r.event_id)

  pub tick-active :
      (fuel : ℕ) (j : EventJournal spiffs)
      → (compact_tick spiffs fuel j).compaction_active ≡ true
      → j.compaction_active ≡ true
  unfolding compact_tick
  tick-active fuel j going = ground arith

  pub ticks-idle :
      (n fuel : ℕ) (j : EventJournal spiffs) → j.compaction_active ≡ false → ticks n fuel j ≡ j
  unfolding ticks
  ticks-idle zero fuel j idle = refl
  ticks-idle (suc n) fuel j idle =
      ap (ticks n fuel) (tick-idle fuel j idle) ∙ ticks-idle n fuel j idle

  ticks-cases :
      (n fuel : ℕ) (x : EventJournalIndex) (keep : List (List ℕ)) (id : List ℕ)
      (j : EventJournal spiffs)
      → j.index ≡ x
      → (j.compaction_active ≡ true → j.compaction_keep ≡ keep)
      → member id keep ≡ false
      → ((ticks n fuel j).index ≡ x) ⊎ (find id (ticks n fuel j).index ≡ none)
  unfolding ticks
  ticks-cases zero fuel x keep id j same listed out = inl same
  ticks-cases (suc n) fuel x keep id j same listed out =
      let j' = compact_tick spiffs fuel j in
      elim (tick-cases fuel j) [
        | inl (index, list) ↦
            ticks-cases n fuel x keep id j' (index ∙ same)
              (λ going. list going ∙ listed (tick-active fuel j going)) out
        | inr (index, idle, active) ↦ inr (
            ap (λ k. find id k.index) (ticks-idle n fuel j' idle)
            ∙ ap (find id) index
            ∙ ap (λ l. find id (rebuild_after_compaction l j.index)) (listed active)
            ∙ rebuild-dropped j.index keep id out)
      ]

  -- An event that is appended behind a begin_compaction, the append returning true, is in the index;
  -- but once a later tick of that compaction changes the index, the event is no longer found.
  pub append_event-ticks :
      (policy : CompactionPolicy) (r : JournalRecord) (n fuel : ℕ) (j : EventJournal spiffs)
      → (begin_compaction spiffs policy j).0 ≡ true
      → (append_event spiffs r (begin_compaction spiffs policy j).1).0 ≡ true
      → (find r.event_id (append_event spiffs r (begin_compaction spiffs policy j).1).1.index
          ≡ some r)
        × ((ticks n fuel (append_event spiffs r (begin_compaction spiffs policy j).1).1).index
              ≢ (append_event spiffs r (begin_compaction spiffs policy j).1).1.index
            → find r.event_id
                (ticks n fuel (append_event spiffs r (begin_compaction spiffs policy j).1).1).index
              ≡ none)
  append_event-ticks policy r n fuel j begun done =
      let j₀ = (begin_compaction spiffs policy j).1 in
      let j₁ = (append_event spiffs r j₀).1 in
      let (chosen, same) = begin-keep policy j begun in
      let (kept, fresh, found) = append-keep r j₀ done in
      let absent =
        select_records-absent policy j.index r.event_id
          (ap (λ x. contains r.event_id x.records) (sym same) ∙ fresh) in
      (
        found,
        λ changed.
            elim (ticks-cases n fuel j₁.index (select_records_to_keep policy j.index) r.event_id j₁
              refl (λ going. kept ∙ chosen) absent) [
                | inl unchanged ↦ absurd (changed unchanged)
                | inr lost ↦ lost
              ],
      )
