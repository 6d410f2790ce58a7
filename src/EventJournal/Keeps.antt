-- ===== src/EventJournal/Keeps.antt =====
-- What an append does to the index, whether it succeeds or not.
use mesflow_kiosk_runtime_v.Prelude.{
  ◌≡◌, sym, ap, ◌∙◌, subst, inl, inr, Bool, true, false, some, if◌then◌else◌, Bool-cases, arith,
}
use mesflow_kiosk_runtime_v.JournalRecord.{
  JournalRecord, JournalTransition, encode_journal_event, encode_journal_transition,
}
use mesflow_kiosk_runtime_v.JournalIndex.{
  EventJournalIndex, frame_size_for, find, has_event, decide_append, record_appended_event,
  record_appended_transition,
}
use mesflow_kiosk_runtime_v.JournalIndex.Extends.{
  Extends, Extends-refl, record_appended_event-Extends, find-record_appended_event,
  record_appended_transition-Extends,
}
use mesflow_kiosk_runtime_v.EventJournal.{EventJournal, append_event, append_transition}
use mesflow_kiosk_runtime_v.EventJournal.SpiffsFile.{Spiffs}

module _ (spiffs : Spiffs) where
  -- The index behind an append that returned the given value.
  abbrev index_after_event : JournalRecord → EventJournal spiffs → Bool → EventJournalIndex
  index_after_event r j done =
      if done
      then record_appended_event r (frame_size_for (encode_journal_event r)) j.index
      else j.index

  abbrev index_after_transition : JournalTransition → EventJournal spiffs → Bool → EventJournalIndex
  index_after_transition t j done =
      if done
      then record_appended_transition t (frame_size_for (encode_journal_transition t)) j.index
      else j.index

  append_event-index :
      (r : JournalRecord) (j : EventJournal spiffs)
      → (append_event spiffs r j).1.index ≡ index_after_event r j (append_event spiffs r j).0
  unfolding append_event
  append_event-index r j = ground arith

  append_event-new :
      (r : JournalRecord) (j : EventJournal spiffs)
      → (append_event spiffs r j).0 ≡ true
      → has_event r.event_id j.index ≡ false
  unfolding append_event decide_append has_event
  append_event-new r j done = ground arith

  append_transition-index :
      (t : JournalTransition) (j : EventJournal spiffs)
      → (append_transition spiffs t j).1.index
        ≡ index_after_transition t j (append_transition spiffs t j).0
  unfolding append_transition
  append_transition-index t j = ground arith

  pub append_event-Extends :
      (r : JournalRecord) (j : EventJournal spiffs)
      → Extends j.index (append_event spiffs r j).1.index
  append_event-Extends r j = elim (Bool-cases (append_event spiffs r j).0) [
    | inl e ↦
        subst (Extends j.index) (sym (append_event-index r j ∙ ap (index_after_event r j) e))
          (record_appended_event-Extends r _ j.index (append_event-new r j e))
    | inr e ↦
        subst (Extends j.index) (sym (append_event-index r j ∙ ap (index_after_event r j) e))
          (Extends-refl j.index)
  ]

  pub append_transition-Extends :
      (t : JournalTransition) (j : EventJournal spiffs)
      → Extends j.index (append_transition spiffs t j).1.index
  append_transition-Extends t j = elim (Bool-cases (append_transition spiffs t j).0) [
    | inl e ↦
        subst (Extends j.index)
          (sym (append_transition-index t j ∙ ap (index_after_transition t j) e))
          (record_appended_transition-Extends t _ j.index)
    | inr e ↦
        subst (Extends j.index)
          (sym (append_transition-index t j ∙ ap (index_after_transition t j) e))
          (Extends-refl j.index)
  ]

  pub append_event-find :
      (r : JournalRecord) (j : EventJournal spiffs)
      → (append_event spiffs r j).0 ≡ true
      → find r.event_id (append_event spiffs r j).1.index ≡ some r
  append_event-find r j e =
      ap (find r.event_id) (append_event-index r j ∙ ap (index_after_event r j) e)
      ∙ find-record_appended_event r _ j.index
