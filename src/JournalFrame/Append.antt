-- ===== src/JournalFrame/Append.antt =====
-- What `append_journal_frame` leaves in the file, when it succeeds and when a write or flush fails.
use mesflow_kiosk_runtime_v.Prelude.{
  ℕ, ◌+◌, ◌%◌, ◌^◌, ◌≤◌, ◌<◌, ◌≡◌, refl, sym, ap, ◌∙◌, subst, inl, inr, ◌++◌, List, [], ◌∷◌, length,
  take, arith, length-append, append_assoc, append-nil, take-append-le, take-append-ge, take-ge,
  Bool, true, false, is_empty, Option-cases, dec_le, if◌then◌else◌,
}
use mesflow_kiosk_runtime_v.JournalFrame.{
  JournalFile, append_journal_frame, write_all, or_close, write_frame,
}
use mesflow_kiosk_runtime_v.JournalFrame.Bytes.{write_u32_le}
use mesflow_kiosk_runtime_v.JournalFrame.Crc.{crc32}
use mesflow_kiosk_runtime_v.JournalFrame.Files.{AppendsAtEnd}
use mesflow_kiosk_runtime_v.JournalFrame.Scan.{encode_frame, marker}

module _ (file : JournalFile) (stored : file.State → List ℕ) (laws : AppendsAtEnd file stored) where
  open laws use {open_keeps, close_keeps, flush_keeps, landed, write_adds, write_reports}

  -- A run that had `want` to add to `base` added its first bytes, and all of them if it succeeded.
  abbrev pub Lands : List ℕ → List ℕ → Bool × file.State → Type 0
  Lands base want r =
      (k : ℕ) × (k ≤ length want)
      × (stored r.1 ≡ base ++ take k want)
      × (r.0 ≡ true → k ≡ length want)

  write_all-adds :
      (bytes : List ℕ) (s : file.State)
      → stored (write_all file bytes s).1 ≡ stored s ++ take (landed bytes s) bytes
  unfolding write_all
  write_all-adds bytes s = ground (arith, write_adds bytes s)

  write_all-reports :
      (bytes : List ℕ) (s : file.State)
      → (write_all file bytes s).0 ≡ true
      → landed bytes s ≡ length bytes
  unfolding write_all
  write_all-reports bytes s h = elim (Option-cases (file.write bytes s).0) [
    | inl e ↦ ground (arith, e)
    | inr (n, e) ↦ ground (arith, e, write_reports bytes s n e)
  ]

  -- `close` after a failed step.
  or_close-Lands :
      (base p q : List ℕ) (r : Bool × file.State) (next : file.State → Bool × file.State) (j : ℕ)
      → stored r.1 ≡ base ++ take j p
      → (r.0 ≡ true → j ≡ length p)
      → ((s' : file.State) → stored s' ≡ base ++ p → Lands (base ++ p) q (next s'))
      → Lands base (p ++ q) (or_close file r next)
  unfolding or_close
  or_close-Lands base p q (true, s) next j e full rest =
      let all = full refl in
      let (k, short, lands, done) =
        rest s (e ∙ ap (◌++◌ base) (take-ge j p (omega (arith, all)))) in
      (
        length p + k,
        omega (arith, length-append p q),
        lands
            ∙ append_assoc base p (take k q)
            ∙ ap (◌++◌ base) (
                sym (
                  take-append-ge (length p + k) p q (omega arith)
                  ∙ ap (λ m. p ++ take m q) (omega arith))),
        λ h. omega (arith, done h, length-append p q),
      )
  or_close-Lands base p q (false, s) next j e full rest = elim (dec_le j (length p)) [
    | yes h ↦ (
      j,
      omega (arith, length-append p q),
      close_keeps s ∙ e ∙ ap (◌++◌ base) (sym (take-append-le j p q h)),
      λ t. cc,
    )
    | no h ↦ (
      length p,
      omega (arith, length-append p q),
      close_keeps s
          ∙ e
          ∙ ap (◌++◌ base) (
              take-ge j p (omega arith)
              ∙ sym (take-ge (length p) p (omega arith))
              ∙ sym (take-append-le (length p) p q (omega arith))),
      λ t. cc,
    )
  ]

  write-Lands :
      (base p q : List ℕ) (s : file.State) (next : file.State → Bool × file.State)
      → stored s ≡ base
      → ((s' : file.State) → stored s' ≡ base ++ p → Lands (base ++ p) q (next s'))
      → Lands base (p ++ q) (or_close file (write_all file p s) next)
  write-Lands base p q s next e rest =
      or_close-Lands base p q (write_all file p s) next (landed p s)
        (write_all-adds p s ∙ ap (λ t. t ++ take (landed p s) p) e) (write_all-reports p s) rest

  flush-Lands :
      (base q : List ℕ) (s : file.State) (next : file.State → Bool × file.State)
      → stored s ≡ base
      → ((s' : file.State) → stored s' ≡ base → Lands base q (next s'))
      → Lands base q (or_close file (file.flush s) next)
  flush-Lands base q s next e rest =
      or_close-Lands base [] q (file.flush s) next 0 (flush_keeps s ∙ e ∙ sym (append-nil base))
        (λ _. refl)
        (λ s' e'.
          subst (λ b. Lands b q (next s')) (sym (append-nil base)) (rest s' (e' ∙ append-nil base)))

  body-Lands :
      (base body q : List ℕ) (s : file.State) (next : file.State → Bool × file.State)
      → stored s ≡ base
      → ((s' : file.State) → stored s' ≡ base ++ body → Lands (base ++ body) q (next s'))
      → Lands base
          (body ++ q)
          (or_close file (if is_empty body then (true, s) else write_all file body s) next)
  unfolding or_close
  body-Lands base [] q s next e rest =
      subst (λ b. Lands b q (next s)) (append-nil base) (rest s (e ∙ sym (append-nil base)))
  body-Lands base (b ∷ body) q s next e rest = write-Lands base (b ∷ body) q s next e rest

  finish-Lands :
      (base : List ℕ) (s : file.State)
      → stored s ≡ base
      → Lands base [] (let (done, s') = file.flush s in (done, file.close s'))
  finish-Lands base s e = (
    0,
    omega arith,
    close_keeps (file.flush s).1 ∙ flush_keeps s ∙ e ∙ sym (append-nil base),
    λ _. refl,
  )

  frame-Lands :
      (base body : List ℕ) (s : file.State)
      → stored s ≡ base
      → length body < 2 ^ 32
      → Lands base (encode_frame body) (write_frame file body s)
  unfolding write_frame
  frame-Lands base body s e small =
      let fits : length body % 2 ^ 32 ≡ length body = omega arith in
      rw fits (
        write-Lands base (write_u32_le (length body)) _ s _ e λ s₁ e₁.
          body-Lands _ body _ s₁ _ e₁ λ s₂ e₂. flush-Lands _ _ s₂ _ e₂ λ s₃ e₃.
            write-Lands _ (write_u32_le (crc32 body)) marker s₃ _ e₃ λ s₄ e₄.
              flush-Lands _ _ s₄ _ e₄
                λ s₅ e₅. write-Lands _ marker [] s₅ _ e₅ λ s₆ e₆. finish-Lands _ s₆ e₆)

  opened-Lands :
      (base body : List ℕ) (s : file.State) (opened : Bool)
      → stored s ≡ base
      → length body < 2 ^ 32
      → Lands base (encode_frame body) (if opened then write_frame file body s else (false, s))
  opened-Lands base body s true e small = frame-Lands base body s e small
  opened-Lands base body s false e small = (0, omega arith, e ∙ sym (append-nil base), λ t. cc)

  -- Whatever write or flush fails, an append leaves the bytes before it and adds the first bytes of
  -- its frame; if it returns true it has added the whole frame.
  pub append_journal_frame-Lands :
      (body : List ℕ) (s : file.State)
      → length body < 2 ^ 32
      → (k : ℕ) × (k ≤ length (encode_frame body))
        × (stored (append_journal_frame file body s).1 ≡ stored s ++ take k (encode_frame body))
        × ((append_journal_frame file body s).0 ≡ true → k ≡ length (encode_frame body))
  unfolding append_journal_frame
  append_journal_frame-Lands body s small =
      opened-Lands (stored s) body (file.open_for_append s).1 (file.open_for_append s).0
        (open_keeps s) small
