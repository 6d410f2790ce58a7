-- ===== src/Tests/MemoryFlash.antt =====
-- A flash in memory that obeys the laws assumed of SPIFFS and Preferences.
use mesflow_kiosk_runtime_v.Prelude.{
  ℕ, suc, ◌≡◌, refl, ap, Bool, true, false, Option, none, some, List, [], length, if◌then◌else◌,
  arith, branch_true, branch_false,
}
use mesflow_kiosk_runtime_v.UiBundle.Store.{
  UiPath, path_a, path_b, UiKey, meta_slot, last_good_ver, meta_ver, meta_hash, meta_schema,
  UiStorage,
}
use mesflow_kiosk_runtime_v.UiBundle.Selected.{path_eq, key_eq, KeepsOthers, SameFile, SameKey}
use mesflow_kiosk_runtime_v.UiBundle.Written.{KeepsWritten}

pub record MemoryFlash : Type 0 where
  pub files : UiPath → Option (List ℕ)
  pub strings : UiKey → List ℕ
  pub uints : UiKey → ℕ

abbrev is_there : Option (List ℕ) → Bool
is_there none = false
is_there (some _) = true

-- Every write is done; that of a string reports one byte more than the string has.
abbrev pub memory_flash : UiStorage
memory_flash = record {
  Flash = MemoryFlash;
  begin = λ f. (true, f);
  exists = λ q f. is_there (f.files q);
  read_file = λ q f. f.files q;
  write_file = λ p bytes f. (
    some (length bytes),
    record f { files = λ q. if path_eq p q then some bytes else f.files q },
  );
  get_string = λ j f. f.strings j;
  get_uint = λ j f. f.uints j;
  put_string =
      λ k v f. (suc (length v), record f { strings = λ j. if key_eq k j then v else f.strings j });
  put_uint = λ k v f. (4, record f { uints = λ j. if key_eq k j then v else f.uints j });
  sha256 = λ bytes. [];
}

path_eq_refl : (p : UiPath) → path_eq p p ≡ true
path_eq_refl path_a = refl
path_eq_refl path_b = refl

pub key_eq_refl : (k : UiKey) → key_eq k k ≡ true
key_eq_refl meta_slot = refl
key_eq_refl last_good_ver = refl
key_eq_refl (meta_ver c) = ground arith
key_eq_refl (meta_hash c) = ground arith
key_eq_refl (meta_schema c) = ground arith

pub file_apart :
    (p q : UiPath) (bytes : List ℕ) (f : MemoryFlash)
    → path_eq p q ≡ false
    → SameFile memory_flash q f (memory_flash.write_file p bytes f).1
file_apart p q bytes f e =
    let same = branch_false (path_eq p q) (some bytes) (f.files q) e in (ap is_there same, same)

pub string_apart :
    (k j : UiKey) (v : List ℕ) (f : MemoryFlash)
    → key_eq k j ≡ false
    → SameKey memory_flash j f (memory_flash.put_string k v f).1
string_apart k j v f e = (branch_false (key_eq k j) v (f.strings j) e, refl)

pub uint_apart :
    (k j : UiKey) (v : ℕ) (f : MemoryFlash)
    → key_eq k j ≡ false
    → SameKey memory_flash j f (memory_flash.put_uint k v f).1
uint_apart k j v f e = (refl, branch_false (key_eq k j) v (f.uints j) e)

pub file_back :
    (p : UiPath) (bytes : List ℕ) (f : MemoryFlash)
    → (memory_flash.write_file p bytes f).0 ≡ some (length bytes)
    → (memory_flash.exists p (memory_flash.write_file p bytes f).1 ≡ true)
      × (memory_flash.read_file p (memory_flash.write_file p bytes f).1 ≡ some bytes)
file_back p bytes f e =
    let same = branch_true (path_eq p p) (some bytes) (f.files p) (path_eq_refl p) in
    (ap is_there same, same)

abbrev pub memory_flash-KeepsOthers : KeepsOthers memory_flash
memory_flash-KeepsOthers = record {
  mount_files = λ f q. (refl, refl);
  mount_keys = λ f j. (refl, refl);
  file_files = file_apart;
  file_keys = λ p j bytes f. (refl, refl);
  string_files = λ k q v f. (refl, refl);
  string_keys = string_apart;
  uint_files = λ k q v f. (refl, refl);
  uint_keys = uint_apart;
}

abbrev pub memory_flash-KeepsWritten : KeepsWritten memory_flash
memory_flash-KeepsWritten = record {
  file_written = file_back;
  string_written = λ k v f h. branch_true (key_eq k k) v (f.strings k) (key_eq_refl k);
  uint_written = λ k v f h. branch_true (key_eq k k) v (f.uints k) (key_eq_refl k);
}

-- The same flash, in which no number can be written any more.
abbrev pub full_flash : UiStorage
full_flash = record memory_flash { put_uint = λ k v f. (0, f) }

abbrev pub full_flash-KeepsOthers : KeepsOthers full_flash
full_flash-KeepsOthers = record {
  mount_files = λ f q. (refl, refl);
  mount_keys = λ f j. (refl, refl);
  file_files = file_apart;
  file_keys = λ p j bytes f. (refl, refl);
  string_files = λ k q v f. (refl, refl);
  string_keys = string_apart;
  uint_files = λ k q v f. (refl, refl);
  uint_keys = λ k j v f e. (refl, refl);
}

abbrev pub full_flash-KeepsWritten : KeepsWritten full_flash
full_flash-KeepsWritten = record {
  file_written = file_back;
  string_written = λ k v f h. branch_true (key_eq k k) v (f.strings k) (key_eq_refl k);
  uint_written = λ k v f h. omega arith;
}
