-- ===== src/JournalFrame/Reading.antt =====
-- `read_exact` gives the next bytes of the file, whatever sizes the single reads have.
use mesflow_kiosk_runtime_v.Prelude.{
  ℕ, zero, suc, ◌-◌, ◌≤◌, ◌<◌, ◌≡◌, ◌≢◌, ◌⊎◌, inl, inr, refl, ap, ◌∙◌, List, [], ◌∷◌, length, take,
  drop, arith, take_split, ◌++◌, take-append_self, drop-append_self, take-ge, drop-ge, drop-drop,
  length-take, take-nil, drop-nil,
}
use mesflow_kiosk_runtime_v.JournalFrame.{JournalFile, read_exact, read_exact_from}
use mesflow_kiosk_runtime_v.JournalFrame.Files.{ReadsInOrder}

module _ (file : JournalFile) (laws : ReadsInOrder file) where
  open laws use {unread, chunk, chunk_le, chunk_within, chunk_pos, read_gives, read_moves}

  -- The state after a read of `n` bytes that gave `got`.
  abbrev pub Gives : ℕ → file.State → List ℕ × file.State → Type 0
  Gives n s r = (r.0 ≡ take n (unread s)) × (unread r.1 ≡ drop n (unread s))

  List-cases : (xs : List ℕ) → (xs ≡ []) ⊎ (xs ≢ [])
  List-cases [] = inl refl
  List-cases (x ∷ xs) = inr (λ e. cc)

  length-read : (n : ℕ) (s : file.State) → 0 < n → length (file.read n s).0 ≡ chunk n s
  length-read n s h =
      ap length (read_gives n s h)
      ∙ omega (arith, length-take (chunk n s) (unread s), chunk_within n s h)

  read_exact_from-Gives :
      (fuel len : ℕ) (s : file.State) → len ≤ fuel → Gives len s (read_exact_from file fuel len s)
  unfolding read_exact_from
  read_exact_from-Gives zero zero s h = (refl, refl)
  read_exact_from-Gives zero (suc len) s h = elim h [ ]
  read_exact_from-Gives (suc fuel) zero s h = (refl, refl)
  read_exact_from-Gives (suc fuel) (suc len) s h =
      let n : ℕ = suc len in
      let k = chunk n s in
      let pos : 0 < n = omega arith in
      let got = read_gives n s pos in
      let moved = read_moves n s pos in
      elim (List-cases (unread s)) [
        | inl none_left ↦
            ground (arith, got, moved, none_left, take-nil {A = ℕ} k, drop-nil {A = ℕ} k)
        | inr some_left ↦
            let some_read = chunk_pos n s pos some_left in
            let rest =
              read_exact_from-Gives fuel (n - k) (file.read n s).1 (omega (arith, some_read)) in
            ground (
              arith,
              got,
              moved,
              rest,
              length-read n s pos,
              some_read,
              chunk_le n s pos,
              take_split k n (unread s),
              drop-drop k (n - k) (unread s),
            )
      ]

  pub read_exact-Gives : (n : ℕ) (s : file.State) → Gives n s (read_exact file n s)
  unfolding read_exact
  read_exact-Gives n s = read_exact_from-Gives n n s (omega arith)

  -- A file that goes on with `p` gives `p` to a read of its length, and then goes on with `q`.
  pub read_exact_prefix :
      (n : ℕ) (p q : List ℕ) (s : file.State)
      → unread s ≡ p ++ q
      → length p ≡ n
      → ((read_exact file n s).0 ≡ p) × (unread (read_exact file n s).1 ≡ q)
  read_exact_prefix n p q s e size =
      ground (arith, read_exact-Gives n s, take-append_self p q, drop-append_self p q)

  -- A file with fewer bytes than asked for gives them all.
  pub read_exact_short :
      (n : ℕ) (s : file.State)
      → length (unread s) ≤ n
      → ((read_exact file n s).0 ≡ unread s) × (unread (read_exact file n s).1 ≡ [])
  read_exact_short n s h =
      ground (arith, read_exact-Gives n s, take-ge n (unread s), drop-ge n (unread s))
