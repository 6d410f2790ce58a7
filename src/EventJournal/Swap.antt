-- ===== src/EventJournal/Swap.antt =====
-- Losing power while compaction swaps its new file in.
use mesflow_kiosk_runtime_v.Prelude.{
  All, All-imp, ℕ, ◌≡◌, Bool, true, false, not, if◌then◌else◌, ◌⊎◌, inl, inr, Option, none, some,
  List, [], ◌∷◌, arith,
}
use mesflow_kiosk_runtime_v.EventJournal.{recover_orphans, swap}
use mesflow_kiosk_runtime_v.EventJournal.SpiffsFile.{Spiffs, JournalPath, dat, tmp, old, is_open}

abbrev pub path_eq : JournalPath → JournalPath → Bool
path_eq dat dat = true
path_eq tmp tmp = true
path_eq old old = true
path_eq _ _ = false

-- What SPIFFS documents of whole files: each call is done or not done, never half.
pub record AtomicCalls (spiffs : Spiffs) : Type 0 where
  pub file_at : JournalPath → spiffs.Fs → Option (List ℕ)
  pub sees : (p : JournalPath) (fs : spiffs.Fs) → spiffs.exists p fs ≡ is_open (file_at p fs)
  pub removes :
      (p q : JournalPath) (fs : spiffs.Fs)
      → file_at q (spiffs.remove p fs) ≡ (if path_eq p q then none else file_at q fs)
  pub renames :
      (p q r : JournalPath) (fs : spiffs.Fs)
      → file_at r (spiffs.rename p q fs).1 ≡ (
          if (spiffs.rename p q fs).0
          then (if path_eq p r then none else if path_eq q r then file_at p fs else file_at r fs)
          else file_at r fs)

module _ (spiffs : Spiffs) where
  open spiffs use {Fs, exists, rename, remove}

  -- The states of the file system between the calls of `swap`: where the power may fail.
  unfoldable pub swap_states : Fs → List Fs
  swap_states fs =
      let (moved_out, fs₁) = if exists dat fs then rename dat old fs else (true, fs) in
      let (moved_in, fs₂) = rename tmp dat fs₁ in
      if not moved_out
      then fs ∷ fs₁ ∷ remove tmp fs₁ ∷ []
      else if not moved_in
      then fs ∷ fs₁ ∷ fs₂ ∷ (if exists old fs₂ then (rename old dat fs₂).1 else fs₂) ∷ []
      else fs ∷ fs₁ ∷ fs₂ ∷ remove old fs₂ ∷ []

  abbrev pub last_of : Fs → List Fs → Fs
  last_of fs [] = fs
  last_of fs (s ∷ rest) = last_of s rest

  -- The last of those states is the one that `swap` leaves.
  swap_states-last : (fs : Fs) → last_of fs (swap_states fs) ≡ (swap spiffs fs).1
  unfolding swap_states swap
  swap_states-last fs = ground arith

  module _ (laws : AtomicCalls spiffs) where
    open laws use {file_at, sees, removes, renames}

    -- After the recovery at boot: the live file holds one of the two, and nothing is left over.
    abbrev pub IsRecovered : List ℕ → List ℕ → Fs → Type 0
    IsRecovered before after fs =
        ((file_at dat fs ≡ some before) ⊎ (file_at dat fs ≡ some after))
        × (file_at tmp fs ≡ none)
        × (file_at old fs ≡ none)

    recover-live :
        (d : List ℕ) (fs : Fs)
        → file_at dat fs ≡ some d
        → (file_at dat (recover_orphans spiffs fs) ≡ some d)
          × (file_at tmp (recover_orphans spiffs fs) ≡ none)
          × (file_at old (recover_orphans spiffs fs) ≡ none)
    unfolding recover_orphans
    recover-live d fs live = ground (
      arith,
      sees dat fs,
      sees old fs,
      sees tmp fs,
      removes tmp dat fs,
      removes tmp tmp fs,
      removes tmp old fs,
      removes old dat fs,
      removes old tmp fs,
      removes old old fs,
      removes old dat (remove tmp fs),
      removes old tmp (remove tmp fs),
      removes old old (remove tmp fs),
    )

    recover-moved_out :
        (d : List ℕ) (fs : Fs)
        → file_at dat fs ≡ none
        → file_at old fs ≡ some d
        → ((s : Fs) → file_at dat s ≡ none → file_at old s ≡ some d → (rename old dat s).0 ≡ true)
        → (file_at dat (recover_orphans spiffs fs) ≡ some d)
          × (file_at tmp (recover_orphans spiffs fs) ≡ none)
          × (file_at old (recover_orphans spiffs fs) ≡ none)
    unfolding recover_orphans
    recover-moved_out d fs gone there restores = ground (
      arith,
      sees dat fs,
      sees old fs,
      sees tmp fs,
      restores fs,
      restores (remove tmp fs),
      removes tmp dat fs,
      removes tmp tmp fs,
      removes tmp old fs,
      renames old dat dat fs,
      renames old dat tmp fs,
      renames old dat old fs,
      renames old dat dat (remove tmp fs),
      renames old dat tmp (remove tmp fs),
      renames old dat old (remove tmp fs),
    )

    -- The old journal or the new one is in its place, or the old one stands aside.
    abbrev IsCovered : List ℕ → List ℕ → Fs → Type 0
    IsCovered before after fs =
        (file_at dat fs ≡ some before)
        ⊎ ((file_at dat fs ≡ some after)
            ⊎ ((file_at dat fs ≡ none) × (file_at old fs ≡ some before)))

    swap_states-All :
        (before after : List ℕ) (fs : Fs)
        → file_at dat fs ≡ some before
        → file_at tmp fs ≡ some after
        → All (IsCovered before after) (swap_states fs)
    unfolding swap_states
    swap_states-All before after fs live ready =
        let fs₁ = (rename dat old fs).1 in
        let fs₂ = (rename tmp dat fs₁).1 in
        ground (
          arith,
          sees dat fs,
          renames dat old dat fs,
          renames dat old tmp fs,
          renames dat old old fs,
          renames tmp dat dat fs₁,
          renames tmp dat old fs₁,
          removes tmp dat fs₁,
          removes tmp old fs₁,
          sees old fs₂,
          removes old dat fs₂,
          renames old dat dat fs₂,
          renames old dat old fs₂,
        )

    covered-IsRecovered :
        (before after : List ℕ) (fs : Fs)
        → ((s : Fs)
            → file_at dat s ≡ none
            → file_at old s ≡ some before
            → (rename old dat s).0 ≡ true)
        → IsCovered before after fs
        → IsRecovered before after (recover_orphans spiffs fs)
    covered-IsRecovered before after fs restores covered = elim covered [
      | inl live ↦ let (d, t, o) = recover-live before fs live in (inl d, t, o)
      | inr (inl live) ↦ let (d, t, o) = recover-live after fs live in (inr d, t, o)
      | inr (inr (gone, there)) ↦
          let (d, t, o) = recover-moved_out before fs gone there restores in (inl d, t, o)
    ]

    -- Compaction is crash-safe: whichever renames fail and wherever the power fails between the
    -- calls of the swap, the recovery of the next boot leaves a live journal that holds all of the
    -- old contents or all of the new, and no other file, if its own rename of the old file works.
    pub swap-recover_orphans :
        (before after : List ℕ) (fs : Fs)
        → file_at dat fs ≡ some before
        → file_at tmp fs ≡ some after
        → ((s : Fs)
            → file_at dat s ≡ none
            → file_at old s ≡ some before
            → (rename old dat s).0 ≡ true)
        → (last_of fs (swap_states fs) ≡ (swap spiffs fs).1)
          × All (λ s. IsRecovered before after (recover_orphans spiffs s)) (swap_states fs)
    swap-recover_orphans before after fs live ready restores = (
      swap_states-last fs,
      All-imp (IsCovered before after) _ (swap_states fs)
          (λ s. covered-IsRecovered before after s restores)
          (swap_states-All before after fs live ready),
    )
