-- ===== src/Tests/MemoryFile.antt =====
-- A file in memory that obeys the laws assumed of a SPIFFS file: it reads at most `step + 1` bytes
-- at a time and has `room` for so many more bytes.
use mesflow_kiosk_runtime_v.Prelude.{
  ℕ, suc, ◌-◌, ◌<◌, ◌≡◌, refl, ◌≢◌, true, some, List, [], ◌∷◌, ◌++◌, length, take, drop, min, arith,
}
use mesflow_kiosk_runtime_v.JournalFrame.{JournalFile}
use mesflow_kiosk_runtime_v.JournalFrame.Files.{ReadsInOrder, AppendsAtEnd}

pub record Memory : Type 0 where
  pub contents : List ℕ
  pub ahead : List ℕ
  pub step : ℕ
  pub room : ℕ

abbrev pub holding : List ℕ → ℕ → Memory
holding bytes room = record { contents = bytes; ahead = []; step = 2; room = room }

abbrev read_size : ℕ → Memory → ℕ
read_size n m = min n (min (suc m.step) (length m.ahead))

abbrev write_size : List ℕ → Memory → ℕ
write_size bytes m = min m.room (length bytes)

abbrev pub memory_file : JournalFile
memory_file = record {
  State = Memory;
  open_for_append = λ m. (true, m);
  open_for_read = λ m. (true, record m { ahead = m.contents });
  close = λ m. m;
  write = λ bytes m. (
    some (write_size bytes m),
    record m {
      contents = m.contents ++ take (write_size bytes m) bytes;
      room = m.room - write_size bytes m;
    },
  );
  flush = λ m. (true, m);
  read = λ n m. (take (read_size n m) m.ahead, record m { ahead = drop (read_size n m) m.ahead });
}

pub ahead_some : (xs : List ℕ) → xs ≢ [] → 0 < length xs
ahead_some [] h = absurd (h refl)
ahead_some (x ∷ xs) h = omega arith

abbrev pub memory_file-ReadsInOrder : ReadsInOrder memory_file
memory_file-ReadsInOrder = record {
  stored = λ m. m.contents;
  unread = λ m. m.ahead;
  opens = λ m. refl;
  opens_at_start = λ m. refl;
  chunk = read_size;
  chunk_le = λ n m h. omega arith;
  chunk_within = λ n m h. omega arith;
  chunk_pos = λ n m h some_left. omega (arith, ahead_some m.ahead some_left);
  read_gives = λ n m h. refl;
  read_moves = λ n m h. refl;
}

pub some_size :
    (bytes : List ℕ) (m : Memory) (n : ℕ)
    → some (write_size bytes m) ≡ some n
    → write_size bytes m ≡ n
some_size bytes m n e = ground arith

abbrev pub memory_file-AppendsAtEnd : AppendsAtEnd memory_file (λ m. m.contents)
memory_file-AppendsAtEnd = record {
  open_keeps = λ m. refl;
  close_keeps = λ m. refl;
  flush_keeps = λ m. refl;
  landed = write_size;
  write_adds = λ bytes m. refl;
  write_reports = some_size;
}
