-- ===== src/UiBundle/Written.antt =====
-- firmware/kiosk_runtime_v2/src/storage/ui_bundle_store.cpp: the writes of `stage` and
-- `activate_staged`, when they report success.
use mesflow_kiosk_runtime_v.Prelude.{
  ℕ, ◌<◌, ◌≡◌, ◌≢◌, refl, sym, ap, ◌∙◌, subst, Bool, true, false, not, Option, none, some, List, [],
  ◌∷◌, ◌==◌, length, if◌then◌else◌, ltb, arith,
}
use mesflow_kiosk_runtime_v.UiBundle.Store.{
  UiPath, UiKey, meta_slot, last_good_ver, meta_ver, meta_hash, meta_schema, UiStorage,
  spiffs_path_for, read_spiffs_file, write_spiffs_file, write_metadata, write_slot, write_selection,
}
use mesflow_kiosk_runtime_v.UiBundle.Selected.{KeepsOthers}
use mesflow_kiosk_runtime_v.UiBundle.Boot.{text_at, text_at-SameFile}

-- The branch that was not taken, when the result says so.
pub passed {ℓ κ} :
    {A : Type ℓ} {S : Type κ} (b : Bool) (r t : A) (x : S) (y : A × S)
    → r ≢ t
    → (if b then (r, x) else y).0 ≡ t
    → (b ≡ false) × ((if b then (r, x) else y) ≡ y)
passed true r t x y other e = elim (other e) [ ]
passed false r t x y other e = (refl, refl)

pub taken {ℓ κ} :
    {A : Type ℓ} {S : Type κ} (b : Bool) (r t : A) (x : S) (y : A × S)
    → r ≢ t
    → (if b then y else (r, x)).0 ≡ t
    → (b ≡ true) × ((if b then y else (r, x)) ≡ y)
taken true r t x y other e = (refl, refl)
taken false r t x y other e = elim (other e) [ ]

all_written :
    (o : Option ℕ) (n : ℕ) → (elim o [ none ↦ false | some m ↦ m == n ]) ≡ true → o ≡ some n
all_written none n e = cc
all_written (some m) n e = ap some (ground arith)

is_positive : (n : ℕ) → not (ltb 0 n) ≡ false → 0 < n
is_positive n e = ground arith

module _ (storage : UiStorage) where
  -- What a write that reports success leaves to read.
  pub record KeepsWritten : Type 0 where
    pub file_written :
        (p : UiPath) (bytes : List ℕ) (f : storage.Flash)
        → (storage.write_file p bytes f).0 ≡ some (length bytes)
        → (storage.exists p (storage.write_file p bytes f).1 ≡ true)
          × (storage.read_file p (storage.write_file p bytes f).1 ≡ some bytes)
    pub string_written :
        (k : UiKey) (v : List ℕ) (f : storage.Flash)
        → 0 < (storage.put_string k v f).0
        → storage.get_string k (storage.put_string k v f).1 ≡ v
    pub uint_written :
        (k : UiKey) (v : ℕ) (f : storage.Flash)
        → 0 < (storage.put_uint k v f).0
        → storage.get_uint k (storage.put_uint k v f).1 ≡ v

  -- A slot that holds a bundle.
  pub record Holds (c : ℕ) (text : List ℕ) (version : ℕ) (hash : List ℕ) (schema_version : ℕ)
      (f : storage.Flash) : Type 0 where
    pub file : text_at storage c f ≡ text
    pub ver : storage.get_uint (meta_ver c) f ≡ version
    pub hash_is : storage.get_string (meta_hash c) f ≡ hash
    pub schema : storage.get_uint (meta_schema c) f ≡ schema_version

module _ (storage : UiStorage) (laws : KeepsOthers storage) (keeps : KeepsWritten storage) where
  file_done :
      (c : ℕ) (bytes : List ℕ) (f : storage.Flash)
      → (write_spiffs_file storage (spiffs_path_for c) bytes f).0 ≡ true
      → text_at storage c (write_spiffs_file storage (spiffs_path_for c) bytes f).1 ≡ bytes
  unfolding write_spiffs_file read_spiffs_file
  file_done c bytes f done =
      let p = spiffs_path_for c in
      let r = storage.write_file p bytes f in
      let (there, holds) = keeps.file_written p bytes f (all_written r.0 (length bytes) done) in
      ap
        (λ b. if not b then [] else elim (storage.read_file p r.1) [ none ↦ [] | some read ↦ read ])
        there
      ∙ ap {A = Option (List ℕ)} (λ o. elim o [ none ↦ [] | some read ↦ read ]) holds

  -- The three values, when each write was done.
  written :
      (c version schema_version : ℕ) (bytes hash : List ℕ) (f : storage.Flash)
      → text_at storage c f ≡ bytes
      → 0 < (storage.put_uint (meta_ver c) version f).0
      → 0 < (storage.put_string (meta_hash c) hash (storage.put_uint (meta_ver c) version f).1).0
      → 0
        < (storage.put_uint
            (meta_schema c)
            schema_version
            (storage.put_string (meta_hash c) hash (storage.put_uint (meta_ver c) version f).1).1).0
      → Holds storage c bytes version hash schema_version
          (storage.put_uint
            (meta_schema c)
            schema_version
            (storage.put_string (meta_hash c) hash (storage.put_uint (meta_ver c) version f).1).1).1
  written c version schema_version bytes hash f text n m k =
      let p = spiffs_path_for c in
      let g = (storage.put_uint (meta_ver c) version f).1 in
      let h = (storage.put_string (meta_hash c) hash g).1 in
      let i = (storage.put_uint (meta_schema c) schema_version h).1 in
      record {
        file =
            text_at-SameFile storage c h i (laws.uint_files (meta_schema c) p schema_version h)
            ∙ text_at-SameFile storage c g h (laws.string_files (meta_hash c) p hash g)
            ∙ text_at-SameFile storage c f g (laws.uint_files (meta_ver c) p version f)
            ∙ text;
        ver =
            (laws.uint_keys (meta_schema c) (meta_ver c) schema_version h refl).1
            ∙ (laws.string_keys (meta_hash c) (meta_ver c) hash g refl).1
            ∙ keeps.uint_written (meta_ver c) version f n;
        hash_is =
            (laws.uint_keys (meta_schema c) (meta_hash c) schema_version h refl).0
            ∙ keeps.string_written (meta_hash c) hash g m;
        schema = keeps.uint_written (meta_schema c) schema_version h k;
      }

  metadata_done :
      (c version schema_version : ℕ) (bytes hash : List ℕ) (f : storage.Flash)
      → text_at storage c f ≡ bytes
      → (write_metadata storage c version hash schema_version f).0 ≡ true
      → Holds storage c bytes version hash schema_version
          (write_metadata storage c version hash schema_version f).1
  unfolding write_metadata
  metadata_done c version schema_version bytes hash f text done =
      let r = storage.put_uint (meta_ver c) version f in
      let r' = storage.put_string (meta_hash c) hash r.1 in
      let r'' = storage.put_uint (meta_schema c) schema_version r'.1 in
      let (a, e) = passed (not (ltb 0 r.0)) false true r.1 _ (λ h. cc) done in
      let (b, e') =
        passed (not (ltb 0 r'.0)) false true r'.1 (ltb 0 r''.0, r''.1) (λ h. cc)
          (ap (λ t. t.0) (sym e) ∙ done) in
      let last = ap (λ t. t.0) (sym (e ∙ e')) ∙ done in
      subst (λ t. Holds storage c bytes version hash schema_version t.1) (sym (e ∙ e'))
        (written c version schema_version bytes hash f text (is_positive r.0 a) (is_positive r'.0 b)
          (ground arith))

  pub slot_done :
      (c version schema_version : ℕ) (bytes hash : List ℕ) (f : storage.Flash)
      → (write_slot storage c bytes version hash schema_version f).0 ≡ true
      → Holds storage c bytes version hash schema_version
          (write_slot storage c bytes version hash schema_version f).1
  unfolding write_slot
  slot_done c version schema_version bytes hash f done =
      let r = write_spiffs_file storage (spiffs_path_for c) bytes f in
      let r' = write_metadata storage c version hash schema_version r.1 in
      let (ok, e) = taken r.0 false true r.1 r' (λ h. cc) done in
      subst (λ t. Holds storage c bytes version hash schema_version t.1) (sym e)
        (metadata_done c version schema_version bytes hash r.1 (file_done c bytes f ok)
          (ap (λ t. t.0) (sym e) ∙ done))

  -- The slot holds the bundle, and the metadata select it.
  abbrev pub IsInstalled : ℕ → ℕ → ℕ → List ℕ → List ℕ → storage.Flash → Type 0
  IsInstalled c version schema_version bytes hash f =
      Holds storage c bytes version hash schema_version f
      × (storage.get_string meta_slot f ≡ c ∷ [])

  selected :
      (c version schema_version v : ℕ) (bytes hash : List ℕ) (f : storage.Flash)
      → Holds storage c bytes version hash schema_version f
      → 0 < (storage.put_string meta_slot (c ∷ []) f).0
      → IsInstalled c version schema_version bytes hash
          (storage.put_uint last_good_ver v (storage.put_string meta_slot (c ∷ []) f).1).1
  selected c version schema_version v bytes hash f holds n =
      let p = spiffs_path_for c in
      let g = (storage.put_string meta_slot (c ∷ []) f).1 in
      let h = (storage.put_uint last_good_ver v g).1 in
      (
        record {
          file =
              text_at-SameFile storage c g h (laws.uint_files last_good_ver p v g)
              ∙ text_at-SameFile storage c f g (laws.string_files meta_slot p (c ∷ []) f)
              ∙ holds.file;
          ver =
              (laws.uint_keys last_good_ver (meta_ver c) v g refl).1
              ∙ (laws.string_keys meta_slot (meta_ver c) (c ∷ []) f refl).1
              ∙ holds.ver;
          hash_is =
              (laws.uint_keys last_good_ver (meta_hash c) v g refl).0
              ∙ (laws.string_keys meta_slot (meta_hash c) (c ∷ []) f refl).0
              ∙ holds.hash_is;
          schema =
              (laws.uint_keys last_good_ver (meta_schema c) v g refl).1
              ∙ (laws.string_keys meta_slot (meta_schema c) (c ∷ []) f refl).1
              ∙ holds.schema;
        },
        (laws.uint_keys last_good_ver meta_slot v g refl).0
            ∙ keeps.string_written meta_slot (c ∷ []) f n,
      )

  pub selection_done :
      (c version schema_version v : ℕ) (bytes hash : List ℕ) (f : storage.Flash)
      → Holds storage c bytes version hash schema_version f
      → (write_selection storage c v f).0 ≡ true
      → IsInstalled c version schema_version bytes hash (write_selection storage c v f).1
  unfolding write_selection
  selection_done c version schema_version v bytes hash f holds done =
      let r = storage.put_string meta_slot (c ∷ []) f in
      let r' = storage.put_uint last_good_ver v r.1 in
      let (n, e) = taken (ltb 0 r.0) false true r.1 (ltb 0 r'.0, r'.1) (λ h. cc) done in
      subst (λ t. IsInstalled c version schema_version bytes hash t.1) (sym e)
        (selected c version schema_version v bytes hash f holds (ground arith))
