-- ===== src/JournalIndex/Newest.antt =====
-- Of each terminal status, compaction keeps the newest records.
use mesflow_kiosk_runtime_v.Prelude.{
  All, ℕ, zero, suc, ◌≡◌, refl, ap, sym, ◌∙◌, Bool, false, List, [], ◌∷◌, ◌++◌, length, take, drop,
  min, subst, take-append-drop, length-take, arith,
}
use mathlib.Core.List.{Permᴰ}
use mesflow_kiosk_runtime_v.StringMap.{StringMap}
use mesflow_kiosk_runtime_v.JournalRecord.{JournalRecord, JournalSyncStatus}
use mesflow_kiosk_runtime_v.JournalIndex.{
  has_status, newest_first, select, insert_by, sort_by, ids, collect_and_trim,
}
use mesflow_kiosk_runtime_v.JournalIndex.Sorting.{
  IsOrdered, IsWeakOrder, sort_by-Permᴰ, sort_by-IsOrdered,
}

module _ {A : Type 0} where
  drop-All : (P : A → Type 0) (n : ℕ) (xs : List A) → All P xs → All P (drop n xs)
  drop-All P zero xs all = all
  drop-All P (suc n) [] all = tt
  drop-All P (suc n) (x ∷ xs) all = drop-All P n xs all.1

  -- In an ordered list nothing behind a cut comes before anything ahead of it.
  cut-All :
      (before : A → A → Bool) (n : ℕ) (xs : List A)
      → IsOrdered before xs
      → All (λ a. All (λ b. before b a ≡ false) (drop n xs)) (take n xs)
  cut-All before zero xs ordered = tt
  cut-All before (suc n) [] ordered = tt
  cut-All before (suc n) (x ∷ xs) ordered =
      (drop-All (λ b. before b x ≡ false) n xs ordered.0, cut-All before n xs ordered.1)

  length-insert_by :
      (before : A → A → Bool) (x : A) (ys : List A)
      → length (insert_by before x ys) ≡ suc (length ys)
  unfolding insert_by
  length-insert_by before x [] = refl
  length-insert_by before x (y ∷ ys) = ground (arith, length-insert_by before x ys)

  length-sort_by : (before : A → A → Bool) (xs : List A) → length (sort_by before xs) ≡ length xs
  unfolding sort_by
  length-sort_by before [] = refl
  length-sort_by before (x ∷ xs) =
      length-insert_by before x (sort_by before xs) ∙ ap suc (length-sort_by before xs)

newest_first-IsWeakOrder : IsWeakOrder newest_first
newest_first-IsWeakOrder = record {
  asym = λ x y h. ground arith;
  trans = λ x y z h k. ground arith;
}

abbrev pub Entry : Type 0
Entry = List ℕ × JournalRecord

-- The records of a status fall into those that are kept, as many as the retention count allows, and
-- those that are dropped, and none that is dropped was created later than one that is kept.
pub collect_and_trim-newest :
    (status : JournalSyncStatus) (retention : ℕ) (m : StringMap JournalRecord)
    → (kept : List Entry) × (dropped : List Entry) × (collect_and_trim status retention m
        ≡ ids kept)
      × (length kept ≡ min retention (length (select (has_status status) m)))
      × Permᴰ (kept ++ dropped) (select (has_status status) m)
      × All (λ a. All (λ b. newest_first b a ≡ false) dropped) kept
unfolding collect_and_trim
collect_and_trim-newest status retention m =
    let found = select (has_status status) m in
    let bucket = sort_by newest_first found in
    let n = min retention (length bucket) in
    (
      take n bucket,
      drop n bucket,
      refl,
      length-take n bucket ∙ omega (arith, length-sort_by newest_first found),
      subst (λ l. Permᴰ l found) (sym (take-append-drop n bucket))
          (sort_by-Permᴰ newest_first found),
      cut-All newest_first n bucket (sort_by-IsOrdered newest_first newest_first-IsWeakOrder found),
    )
