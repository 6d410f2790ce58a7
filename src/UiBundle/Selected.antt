-- ===== src/UiBundle/Selected.antt =====
-- firmware/kiosk_runtime_v2/src/storage/ui_bundle_store.cpp: what the next boot loads while
-- `stage` writes the other slot.
use mesflow_kiosk_runtime_v.Prelude.{
  ℕ, ◌≡◌, refl, ◌∙◌, Bool, true, false, not, List, ◌==◌, if◌then◌else◌, ltb, arith,
}
use mesflow_kiosk_runtime_v.UiBundle.Store.{
  UiPath, path_a, path_b, UiKey, meta_slot, last_good_ver, meta_ver, meta_hash, meta_schema,
  UiStorage, spiffs_path_for, target_of, write_slot, write_metadata, write_spiffs_file,
}

abbrev pub path_eq : UiPath → UiPath → Bool
path_eq path_a path_a = true
path_eq path_b path_b = true
path_eq _ _ = false

abbrev pub key_eq : UiKey → UiKey → Bool
key_eq meta_slot meta_slot = true
key_eq last_good_ver last_good_ver = true
key_eq (meta_ver a) (meta_ver b) = a == b
key_eq (meta_hash a) (meta_hash b) = a == b
key_eq (meta_schema a) (meta_schema b) = a == b
key_eq _ _ = false

module _ (storage : UiStorage) where
  -- One file, or one value, as two states of the flash show it.
  abbrev pub SameFile : UiPath → storage.Flash → storage.Flash → Type 0
  SameFile q f g =
      (storage.exists q g ≡ storage.exists q f) × (storage.read_file q g ≡ storage.read_file q f)

  abbrev pub SameKey : UiKey → storage.Flash → storage.Flash → Type 0
  SameKey j f g =
      (storage.get_string j g ≡ storage.get_string j f)
      × (storage.get_uint j g ≡ storage.get_uint j f)

  -- A write, done, failed or cut off, changes its own file or value only, and mounting changes
  -- nothing.
  pub record KeepsOthers : Type 0 where
    pub mount_files : (f : storage.Flash) (q : UiPath) → SameFile q f (storage.begin f).1
    pub mount_keys : (f : storage.Flash) (j : UiKey) → SameKey j f (storage.begin f).1
    pub file_files :
        (p q : UiPath) (bytes : List ℕ) (f : storage.Flash)
        → path_eq p q ≡ false
        → SameFile q f (storage.write_file p bytes f).1
    pub file_keys :
        (p : UiPath) (j : UiKey) (bytes : List ℕ) (f : storage.Flash)
        → SameKey j f (storage.write_file p bytes f).1
    pub string_files :
        (k : UiKey) (q : UiPath) (v : List ℕ) (f : storage.Flash)
        → SameFile q f (storage.put_string k v f).1
    pub string_keys :
        (k j : UiKey) (v : List ℕ) (f : storage.Flash)
        → key_eq k j ≡ false
        → SameKey j f (storage.put_string k v f).1
    pub uint_files :
        (k : UiKey) (q : UiPath) (v : ℕ) (f : storage.Flash)
        → SameFile q f (storage.put_uint k v f).1
    pub uint_keys :
        (k j : UiKey) (v : ℕ) (f : storage.Flash)
        → key_eq k j ≡ false
        → SameKey j f (storage.put_uint k v f).1

  -- All that a boot reads for slot `c`.
  pub record SameSlot (c : ℕ) (f g : storage.Flash) : Type 0 where
    pub file : SameFile (spiffs_path_for c) f g
    pub ver : SameKey (meta_ver c) f g
    pub hash : SameKey (meta_hash c) f g
    pub schema : SameKey (meta_schema c) f g
    pub slot : SameKey meta_slot f g
    pub good : SameKey last_good_ver f g

  abbrev join_file :
      (q : UiPath) (f g h : storage.Flash) → SameFile q f g → SameFile q g h → SameFile q f h
  join_file q f g h a b = (b.0 ∙ a.0, b.1 ∙ a.1)

  abbrev join_key :
      (j : UiKey) (f g h : storage.Flash) → SameKey j f g → SameKey j g h → SameKey j f h
  join_key j f g h a b = (b.0 ∙ a.0, b.1 ∙ a.1)

  pub SameSlot-refl : (c : ℕ) (f : storage.Flash) → SameSlot c f f
  SameSlot-refl c f = record {
    file = (refl, refl);
    ver = (refl, refl);
    hash = (refl, refl);
    schema = (refl, refl);
    slot = (refl, refl);
    good = (refl, refl);
  }

  pub SameSlot-trans :
      (c : ℕ) (f g h : storage.Flash) → SameSlot c f g → SameSlot c g h → SameSlot c f h
  SameSlot-trans c f g h a b = record {
    file = join_file (spiffs_path_for c) f g h a.file b.file;
    ver = join_key (meta_ver c) f g h a.ver b.ver;
    hash = join_key (meta_hash c) f g h a.hash b.hash;
    schema = join_key (meta_schema c) f g h a.schema b.schema;
    slot = join_key meta_slot f g h a.slot b.slot;
    good = join_key last_good_ver f g h a.good b.good;
  }

  pub SameSlot-branch :
      (c : ℕ) (f : storage.Flash) (b : Bool) (x y : Bool × storage.Flash)
      → SameSlot c f x.1
      → SameSlot c f y.1
      → SameSlot c f (if b then x else y).1
  SameSlot-branch c f true x y p q = p
  SameSlot-branch c f false x y p q = q

other_path : (c : ℕ) → path_eq (spiffs_path_for (target_of c)) (spiffs_path_for c) ≡ false
unfolding spiffs_path_for target_of
other_path c = ground arith

other_slot : (c : ℕ) → (target_of c == c) ≡ false
unfolding target_of
other_slot c = ground arith

module _ (storage : UiStorage) (laws : KeepsOthers storage) where
  put_uint-SameSlot :
      (c v : ℕ) (k : UiKey) (f : storage.Flash)
      → key_eq k (meta_ver c) ≡ false
      → key_eq k (meta_hash c) ≡ false
      → key_eq k (meta_schema c) ≡ false
      → key_eq k meta_slot ≡ false
      → key_eq k last_good_ver ≡ false
      → SameSlot storage c f (storage.put_uint k v f).1
  put_uint-SameSlot c v k f a b d e g = record {
    file = laws.uint_files k (spiffs_path_for c) v f;
    ver = laws.uint_keys k (meta_ver c) v f a;
    hash = laws.uint_keys k (meta_hash c) v f b;
    schema = laws.uint_keys k (meta_schema c) v f d;
    slot = laws.uint_keys k meta_slot v f e;
    good = laws.uint_keys k last_good_ver v f g;
  }

  put_hash-SameSlot :
      (c : ℕ) (v : List ℕ) (f : storage.Flash)
      → SameSlot storage c f (storage.put_string (meta_hash (target_of c)) v f).1
  put_hash-SameSlot c v f = record {
    file = laws.string_files (meta_hash (target_of c)) (spiffs_path_for c) v f;
    ver = laws.string_keys (meta_hash (target_of c)) (meta_ver c) v f refl;
    hash = laws.string_keys (meta_hash (target_of c)) (meta_hash c) v f (other_slot c);
    schema = laws.string_keys (meta_hash (target_of c)) (meta_schema c) v f refl;
    slot = laws.string_keys (meta_hash (target_of c)) meta_slot v f refl;
    good = laws.string_keys (meta_hash (target_of c)) last_good_ver v f refl;
  }

  write_file-SameSlot :
      (c : ℕ) (bytes : List ℕ) (f : storage.Flash)
      → SameSlot storage c f (storage.write_file (spiffs_path_for (target_of c)) bytes f).1
  write_file-SameSlot c bytes f =
      let p = spiffs_path_for (target_of c) in
      record {
        file = laws.file_files p (spiffs_path_for c) bytes f (other_path c);
        ver = laws.file_keys p (meta_ver c) bytes f;
        hash = laws.file_keys p (meta_hash c) bytes f;
        schema = laws.file_keys p (meta_schema c) bytes f;
        slot = laws.file_keys p meta_slot bytes f;
        good = laws.file_keys p last_good_ver bytes f;
      }

  write_metadata-SameSlot :
      (c version schema_version : ℕ) (hash : List ℕ) (f : storage.Flash)
      → SameSlot storage c f (write_metadata storage (target_of c) version hash schema_version f).1
  unfolding write_metadata
  write_metadata-SameSlot c version schema_version hash f =
      let r = storage.put_uint (meta_ver (target_of c)) version f in
      let r' = storage.put_string (meta_hash (target_of c)) hash r.1 in
      let r'' = storage.put_uint (meta_schema (target_of c)) schema_version r'.1 in
      let one =
        put_uint-SameSlot c version (meta_ver (target_of c)) f (other_slot c) refl refl refl refl in
      let two = SameSlot-trans storage c f r.1 r'.1 one (put_hash-SameSlot c hash r.1) in
      let last =
        put_uint-SameSlot c schema_version (meta_schema (target_of c)) r'.1 refl refl (other_slot c)
          refl refl in
      let three = SameSlot-trans storage c f r'.1 r''.1 two last in
      SameSlot-branch storage c f (not (ltb 0 r.0)) (false, r.1)
        (if not (ltb 0 r'.0) then (false, r'.1) else (ltb 0 r''.0, r''.1)) one
        (SameSlot-branch storage c f (not (ltb 0 r'.0)) (false, r'.1) (ltb 0 r''.0, r''.1) two
          three)

  -- What `stage` writes leaves the active slot and the selection as they were.
  pub write_slot-SameSlot :
      (c version schema_version : ℕ) (raw_json hash : List ℕ) (f : storage.Flash)
      → SameSlot storage c f
          (write_slot storage (target_of c) raw_json version hash schema_version f).1
  unfolding write_slot write_spiffs_file
  write_slot-SameSlot c version schema_version raw_json hash f =
      let r = write_spiffs_file storage (spiffs_path_for (target_of c)) raw_json f in
      let file = write_file-SameSlot c raw_json f in
      SameSlot-branch storage c f r.0
        (write_metadata storage (target_of c) version hash schema_version r.1) (false, r.1)
        (SameSlot-trans storage c f r.1
          (write_metadata storage (target_of c) version hash schema_version r.1).1 file
          (write_metadata-SameSlot c version schema_version hash r.1))
        file
