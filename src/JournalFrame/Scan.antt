-- ===== src/JournalFrame/Scan.antt =====
-- What one round of `scan_journal` makes of the bytes that are left.
pub mod Misread
use mesflow_kiosk_runtime_v.Prelude.{
  ==_iff, if◌then◌else◌, ◌==◌, is_empty, ℕ, ◌+◌, ◌^◌, ◌≤◌, ◌<◌, ◌≡◌, ◌≢◌, refl, sym, ap, ◌∙◌, ◌++◌,
  List, [], ◌∷◌, length, take, drop, arith, length-take, length-drop, append_assoc,
  take-append-drop, dec_lt,
}
use mesflow_kiosk_runtime_v.JournalFrame.{
  JournalFile, Round, JournalScanFrame, ok, incomplete, stopped, frame_size_of, clean_eof,
  break_with, continue_with, check_marker, check_crc, read_body, scan_round, read_exact,
  journal_commit_marker,
}
use mesflow_kiosk_runtime_v.JournalFrame.Bytes.{
  write_u32_le, read_u32_le, first_byte, read-write_u32_le, length-write_u32_le,
}
use mesflow_kiosk_runtime_v.JournalFrame.Crc.{crc32, crc32-lt}
use mesflow_kiosk_runtime_v.JournalFrame.Files.{ReadsInOrder}
use mesflow_kiosk_runtime_v.JournalFrame.Reading.{read_exact_prefix, read_exact_short}

-- The frame layout, as the header of the source file draws it.
abbrev pub marker : List ℕ
marker = journal_commit_marker ∷ []

abbrev pub encode_frame : List ℕ → List ℕ
encode_frame body = write_u32_le (length body) ++ (body ++ (write_u32_le (crc32 body) ++ marker))

-- The frame that the scan reports for it.
abbrev pub frame_at : ℕ → List ℕ → JournalScanFrame
frame_at offset body = record {
  offset = offset;
  frame_size = frame_size_of (length body);
  body_json = body;
  outcome = ok;
}

encode_frame-append :
    (body rest : List ℕ)
    → encode_frame body ++ rest
      ≡ write_u32_le (length body) ++ (body ++ (write_u32_le (crc32 body) ++ (marker ++ rest)))
encode_frame-append body rest = simp append_assoc

module _ (file : JournalFile) (laws : ReadsInOrder file) where
  open laws use {unread}

  check_marker-good :
      (offset n : ℕ) (body rest : List ℕ) (s : file.State)
      → unread s ≡ marker ++ rest
      → ((check_marker file offset n body s).0
          ≡ continue_with (record {
            offset = offset;
            frame_size = frame_size_of n;
            body_json = body;
            outcome = ok;
          }))
        × (unread (check_marker file offset n body s).1 ≡ rest)
  unfolding check_marker first_byte
  check_marker-good offset n body rest s e =
      ground (arith, read_exact_prefix file laws 1 marker rest s e refl)

  check_crc-good :
      (offset n : ℕ) (body rest : List ℕ) (s : file.State)
      → unread s ≡ write_u32_le (crc32 body) ++ (marker ++ rest)
      → ((check_crc file offset n body s).0
          ≡ continue_with (record {
            offset = offset;
            frame_size = frame_size_of n;
            body_json = body;
            outcome = ok;
          }))
        × (unread (check_crc file offset n body s).1 ≡ rest)
  unfolding check_crc
  check_crc-good offset n body rest s e =
      let crc = write_u32_le (crc32 body) in
      let got =
        read_exact_prefix file laws 4 crc (marker ++ rest) s e (length-write_u32_le (crc32 body)) in
      ground (
        arith,
        got,
        length-write_u32_le (crc32 body),
        read-write_u32_le (crc32 body) (crc32-lt body),
        check_marker-good offset n body rest (read_exact file 4 s).1 got.1,
      )

  -- A stage whose bytes are all there hands on to the next.
  read_body-next :
      (offset n : ℕ) (p q : List ℕ) (s : file.State)
      → unread s ≡ p ++ q
      → length p ≡ n
      → (s' : file.State) × (unread s' ≡ q)
        × (read_body file offset n s ≡ check_crc file offset n p s')
  unfolding read_body
  read_body-next offset n p q s e size =
      let got = read_exact_prefix file laws n p q s e size in
      ((read_exact file n s).1, got.1, ground (arith, got))

  scan_round-next :
      (offset : ℕ) (p q : List ℕ) (s : file.State)
      → unread s ≡ p ++ q
      → length p ≡ 4
      → (s' : file.State) × (unread s' ≡ q)
        × (scan_round file offset s ≡ read_body file offset (read_u32_le p) s')
  unfolding scan_round
  scan_round-next offset p q s e size =
      let (first, then_) = read_exact_prefix file laws 4 p q s e size in
      let s' = (read_exact file 4 s).1 in
      let short : List ℕ → Round × file.State = λ bytes.
        if is_empty bytes then (clean_eof, s') else (break_with (stopped offset incomplete), s') in
      (
        s',
        then_,
        ap
              (λ bytes.
                if length bytes == 4
                then read_body file offset (read_u32_le bytes) s'
                else short bytes)
              first
            ∙ ap (λ b. if b then read_body file offset (read_u32_le p) s' else short p)
                ((==_iff (length p) 4).1 size),
      )

  -- A whole frame is read back, and the scan goes on behind it.
  pub scan_round-good :
      (offset : ℕ) (body rest : List ℕ) (s : file.State)
      → unread s ≡ encode_frame body ++ rest
      → length body < 2 ^ 32
      → ((scan_round file offset s).0 ≡ continue_with (frame_at offset body))
        × (unread (scan_round file offset s).1 ≡ rest)
  scan_round-good offset body rest s e small =
      let size = length-write_u32_le (length body) in
      let (s₁, e₁, step₁) = scan_round-next offset _ _ s (e ∙ encode_frame-append body rest) size in
      let (s₂, e₂, step₂) = read_body-next offset (length body) body _ s₁ e₁ refl in
      rw (step₁, read-write_u32_le (length body) small, step₂)
        (check_crc-good offset (length body) body rest s₂ e₂)

  -- Nothing left: the clean end.
  pub scan_round-empty :
      (offset : ℕ) (s : file.State) → unread s ≡ [] → (scan_round file offset s).0 ≡ clean_eof
  unfolding scan_round
  scan_round-empty offset s e = ground (arith, read_exact_short file laws 4 s, e)

  -- Fewer than four bytes: not even a length.
  pub scan_round-torn_length :
      (offset : ℕ) (s : file.State)
      → unread s ≢ []
      → length (unread s) < 4
      → (scan_round file offset s).0 ≡ break_with (stopped offset incomplete)
  unfolding scan_round
  scan_round-torn_length offset s some_left short =
      ground (arith, read_exact_short file laws 4 s (omega arith))

  check_crc-short :
      (offset n : ℕ) (body : List ℕ) (s : file.State)
      → length (unread s) < 4
      → (check_crc file offset n body s).0 ≡ break_with (stopped offset incomplete)
  unfolding check_crc
  check_crc-short offset n body s short =
      ground (arith, read_exact_short file laws 4 s (omega arith))

  read_body-short :
      (offset n : ℕ) (s : file.State)
      → length (unread s) < n
      → (read_body file offset n s).0 ≡ break_with (stopped offset incomplete)
  unfolding read_body
  read_body-short offset n s short = ground (arith, read_exact_short file laws n s (omega arith))

  read_body-torn :
      (offset n : ℕ) (s : file.State)
      → length (unread s) < n + 4
      → (read_body file offset n s).0 ≡ break_with (stopped offset incomplete)
  read_body-torn offset n s short = elim (dec_lt (length (unread s)) n) [
    | yes h ↦ read_body-short offset n s h
    | no h ↦
        let (s₁, e₁, step₁) =
          read_body-next offset n (take n (unread s)) (drop n (unread s)) s
            (sym (take-append-drop n (unread s))) (omega (arith, length-take n (unread s))) in
        rw step₁ (
          check_crc-short offset n (take n (unread s)) s₁
            (omega (arith, ap length e₁, length-drop n (unread s))))
  ]

  check_crc-next :
      (offset n : ℕ) (body q : List ℕ) (s : file.State)
      → unread s ≡ write_u32_le (crc32 body) ++ q
      → (s' : file.State) × (unread s' ≡ q)
        × (check_crc file offset n body s ≡ check_marker file offset n body s')
  unfolding check_crc
  check_crc-next offset n body q s e =
      let crc = write_u32_le (crc32 body) in
      let size = length-write_u32_le (crc32 body) in
      let got = read_exact_prefix file laws 4 crc q s e size in
      (
        (read_exact file 4 s).1,
        got.1,
        ground (arith, got, size, read-write_u32_le (crc32 body) (crc32-lt body)),
      )

  check_marker-missing :
      (offset n : ℕ) (body : List ℕ) (s : file.State)
      → unread s ≡ []
      → (check_marker file offset n body s).0 ≡ break_with (stopped offset incomplete)
  unfolding check_marker
  check_marker-missing offset n body s e = ground (arith, read_exact_short file laws 1 s, e)

  -- Body and checksum are there, and the commit marker is not.
  pub scan_round-uncommitted :
      (offset : ℕ) (body : List ℕ) (s : file.State)
      → unread s ≡ write_u32_le (length body) ++ (body ++ (write_u32_le (crc32 body) ++ []))
      → length body < 2 ^ 32
      → (scan_round file offset s).0 ≡ break_with (stopped offset incomplete)
  scan_round-uncommitted offset body s e small =
      let (s₁, e₁, step₁) = scan_round-next offset _ _ s e (length-write_u32_le (length body)) in
      let (s₂, e₂, step₂) = read_body-next offset (length body) body _ s₁ e₁ refl in
      let (s₃, e₃, step₃) = check_crc-next offset (length body) body [] s₂ e₂ in
      rw (step₁, read-write_u32_le (length body) small, step₂, step₃)
        (check_marker-missing offset (length body) body s₃ e₃)

  -- A length, and fewer bytes than the body and the checksum that it promises.
  pub scan_round-torn_body :
      (offset : ℕ) (s : file.State)
      → 4 ≤ length (unread s)
      → length (unread s) < 4 + read_u32_le (take 4 (unread s)) + 4
      → (scan_round file offset s).0 ≡ break_with (stopped offset incomplete)
  scan_round-torn_body offset s long short =
      let (s₁, e₁, step₁) =
        scan_round-next offset (take 4 (unread s)) (drop 4 (unread s)) s
          (sym (take-append-drop 4 (unread s))) (omega (arith, length-take 4 (unread s))) in
      rw step₁ (
        read_body-torn offset (read_u32_le (take 4 (unread s))) s₁
          (omega (arith, ap length e₁, length-drop 4 (unread s))))
