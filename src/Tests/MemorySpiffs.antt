-- ===== src/Tests/MemorySpiffs.antt =====
-- A SPIFFS in memory that obeys the laws assumed of the library: a file is read four bytes at a
-- time, and a call of rename fails if its target is there or its source is not.
use mesflow_kiosk_runtime_v.Prelude.{
  ℕ, ◌≡◌, refl, Bool, true, false, not, ◌&&◌, if◌then◌else◌, Option, none, some, List, [], ◌++◌,
  length, take, drop, min, is_empty, arith, dec_le, ◌∙◌, drop-ge, take-ge, take-nil, drop-nil,
  append-nil, sym, ap,
}
use mesflow_kiosk_runtime_v.EventJournal.SpiffsFile.{
  JournalPath, dat, tmp, old, Spiffs, spiffs_journal_file, is_open,
}
use mesflow_kiosk_runtime_v.EventJournal.Reboot.{SpiffsLaws}
use mesflow_kiosk_runtime_v.EventJournal.Swap.{AtomicCalls, path_eq}
use mesflow_kiosk_runtime_v.Tests.MemoryFile.{ahead_some}

pub record MemoryFs : Type 0 where
  pub dat_file : Option (List ℕ)
  pub tmp_file : Option (List ℕ)
  pub old_file : Option (List ℕ)

abbrev pub file_of : JournalPath → MemoryFs → Option (List ℕ)
file_of dat fs = fs.dat_file
file_of tmp fs = fs.tmp_file
file_of old fs = fs.old_file

abbrev pub store : JournalPath → Option (List ℕ) → MemoryFs → MemoryFs
store dat f fs = record fs { dat_file = f }
store tmp f fs = record fs { tmp_file = f }
store old f fs = record fs { old_file = f }

abbrev pub bytes_of : Option (List ℕ) → List ℕ
bytes_of none = []
bytes_of (some bytes) = bytes

abbrev can_rename : JournalPath → JournalPath → MemoryFs → Bool
can_rename p q fs = is_open (file_of p fs) && not (is_open (file_of q fs))

-- A handle is what its file holds beyond the place of the next read; of a file that is gone
-- nothing is available.
abbrev pub memory_spiffs : Spiffs
memory_spiffs = record {
  Fs = MemoryFs;
  File = λ path. List ℕ;
  begin = λ fs. (true, fs);
  exists = λ p fs. is_open (file_of p fs);
  remove = λ p fs. store p none fs;
  rename = λ p q fs.
      if can_rename p q fs then (true, store q (file_of p fs) (store p none fs)) else (false, fs);
  open_append = λ p fs. (some [], store p (some (bytes_of (file_of p fs))) fs);
  open_read = λ p fs. (some (bytes_of (file_of p fs)), fs);
  close_file = λ p f fs. fs;
  write_file =
      λ p f bytes fs. (length bytes, f, store p (some (bytes_of (file_of p fs) ++ bytes)) fs);
  flush_file = λ p f fs. fs;
  available = λ p f fs. is_open (file_of p fs) && not (is_empty f);
  read_file = λ p f n fs. (take (min n 4) f, drop (min n 4) f, fs);
}

pub removes_one :
    (p q : JournalPath) (fs : MemoryFs)
    → file_of q (store p none fs) ≡ (if path_eq p q then none else file_of q fs)
removes_one p q fs = ground arith

pub renames_one :
    (p q r : JournalPath) (fs : MemoryFs)
    → file_of r (memory_spiffs.rename p q fs).1 ≡ (
        if (memory_spiffs.rename p q fs).0
        then (if path_eq p r then none else if path_eq q r then file_of p fs else file_of r fs)
        else file_of r fs)
renames_one p q r fs = ground arith

abbrev pub memory_spiffs-AtomicCalls : AtomicCalls memory_spiffs
memory_spiffs-AtomicCalls = record {
  file_at = file_of;
  sees = λ p fs. refl;
  removes = removes_one;
  renames = renames_one;
}

abbrev pub Handle : Type 0
Handle = Option (List ℕ) × MemoryFs

abbrev ahead : Handle → List ℕ
ahead s = if is_open s.1.dat_file then bytes_of s.0 else []

abbrev read_size : ℕ → Handle → ℕ
read_size n s = min (min n 4) (length (ahead s))

abbrev landed_size : List ℕ → Handle → ℕ
landed_size bytes s = elim s.0 [ none ↦ 0 | some f ↦ length bytes ]

take-min : (n : ℕ) (xs : List ℕ) → take (min n (length xs)) xs ≡ take n xs
take-min n xs = elim (dec_le n (length xs)) [
  | yes short ↦ ap (λ k. take k xs) (omega arith)
  | no long ↦ take-ge (min n (length xs)) xs (omega arith) ∙ sym (take-ge n xs (omega arith))
]

drop-min : (n : ℕ) (xs : List ℕ) → drop (min n (length xs)) xs ≡ drop n xs
drop-min n xs = elim (dec_le n (length xs)) [
  | yes short ↦ ap (λ k. drop k xs) (omega arith)
  | no long ↦ drop-ge (min n (length xs)) xs (omega arith) ∙ sym (drop-ge n xs (omega arith))
]

pub opens_live : (s : Handle) → ((spiffs_journal_file memory_spiffs dat).open_for_read s).0 ≡ true
opens_live s = ground arith

pub opens_first :
    (s : Handle)
    → ahead ((spiffs_journal_file memory_spiffs dat).open_for_read s).1 ≡ bytes_of s.1.dat_file
opens_first s = ground arith

pub read_is :
    (n : ℕ) (s : Handle)
    → ((spiffs_journal_file memory_spiffs dat).read n s).0 ≡ take (read_size n s) (ahead s)
read_is n (none, fs) = ground (arith, take-min (min n 4) [], take-nil {A = ℕ} (min n 4))
read_is n (some f, fs) = ground (arith, take-min (min n 4) f, take-nil {A = ℕ} (min n 4))

pub read_leaves :
    (n : ℕ) (s : Handle)
    → ahead ((spiffs_journal_file memory_spiffs dat).read n s).1 ≡ drop (read_size n s) (ahead s)
read_leaves n (none, fs) = ground (arith, drop-min (min n 4) [], drop-nil {A = ℕ} (min n 4))
read_leaves n (some f, fs) = ground (arith, drop-min (min n 4) f, drop-nil {A = ℕ} (min n 4))

pub write_is :
    (bytes : List ℕ) (s : Handle)
    → bytes_of ((spiffs_journal_file memory_spiffs dat).write bytes s).1.1.dat_file
      ≡ bytes_of s.1.dat_file ++ take (landed_size bytes s) bytes
write_is bytes (none, fs) = sym (append-nil (bytes_of fs.dat_file))
write_is bytes (some f, fs) =
    ap (◌++◌ (bytes_of fs.dat_file)) (sym (take-ge (length bytes) bytes (omega arith)))

pub write_says :
    (bytes : List ℕ) (s : Handle) (n : ℕ)
    → ((spiffs_journal_file memory_spiffs dat).write bytes s).0 ≡ some n
    → landed_size bytes s ≡ n
write_says bytes (none, fs) n e = cc
write_says bytes (some f, fs) n e = ground arith

pub close_is :
    (s : Handle)
    → bytes_of ((spiffs_journal_file memory_spiffs dat).close s).1.dat_file ≡ bytes_of s.1.dat_file
close_is (none, fs) = refl
close_is (some f, fs) = refl

pub flush_is :
    (s : Handle)
    → bytes_of ((spiffs_journal_file memory_spiffs dat).flush s).1.1.dat_file
      ≡ bytes_of s.1.dat_file
flush_is (none, fs) = refl
flush_is (some f, fs) = refl

abbrev pub memory_spiffs-SpiffsLaws : SpiffsLaws memory_spiffs
memory_spiffs-SpiffsLaws = record {
  contents = λ fs. bytes_of fs.dat_file;
  reads = record {
    stored = λ s. bytes_of s.1.dat_file;
    unread = ahead;
    opens = opens_live;
    opens_at_start = opens_first;
    chunk = read_size;
    chunk_le = λ n s h. omega arith;
    chunk_within = λ n s h. omega arith;
    chunk_pos = λ n s h more. omega (arith, ahead_some (ahead s) more);
    read_gives = λ n s h. read_is n s;
    read_moves = λ n s h. read_leaves n s;
  };
  appends = record {
    open_keeps = λ s. refl;
    close_keeps = close_is;
    flush_keeps = flush_is;
    landed = landed_size;
    write_adds = write_is;
    write_reports = write_says;
  };
  on_disk = λ s. refl;
  mounts = λ fs. refl;
}
