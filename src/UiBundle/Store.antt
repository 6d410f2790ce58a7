-- ===== src/UiBundle/Store.antt =====
-- firmware/kiosk_runtime_v2/src/storage/ui_bundle_store.{h,cpp}: two slots for a bundle, of which
-- the metadata selects one. SPIFFS, Preferences and mbedtls' SHA-256 are parameters.
use mesflow_kiosk_runtime_v.Prelude.{
  ℕ, ◌+◌, ◌/◌, ◌%◌, Bool, true, false, not, ◌&&◌, ◌||◌, Option, none, some, List, [], ◌∷◌, ◌++◌,
  length, map, ◌==◌, ltb, leb, if◌then◌else◌, is_empty, bytes_eq, codes,
}
use mesflow_kiosk_runtime_v.ProtocolCodec.{hex_digit}
use mesflow_kiosk_runtime_v.UiBundle.{UiBundle, empty_bundle, parse_ui_bundle_json}

-- kSpiffsPathA and kSpiffsPathB.
pub data UiPath : Type 0 where
  path_a path_b : UiPath

-- The keys of the namespace; three of them carry the letter of a slot.
pub data UiKey : Type 0 where
  meta_slot last_good_ver : UiKey
  meta_ver meta_hash meta_schema : ℕ → UiKey

-- The calls that are made of the libraries. A file that cannot be read is `none`; `write_file`
-- opens for writing, and `none` is a `File` that converts to false.
pub record UiStorage : Type 1 where
  pub Flash : Type 0
  pub begin : Flash → Bool × Flash
  pub exists : UiPath → Flash → Bool
  pub read_file : UiPath → Flash → Option (List ℕ)
  pub write_file : UiPath → List ℕ → Flash → Option ℕ × Flash
  pub get_string : UiKey → Flash → List ℕ
  pub get_uint : UiKey → Flash → ℕ
  pub put_string : UiKey → List ℕ → Flash → ℕ × Flash
  pub put_uint : UiKey → ℕ → Flash → ℕ × Flash
  pub sha256 : List ℕ → List ℕ

pub data UiSyncState : Type 0 where
  idle update_available downloading verifying staged activating active update_failed : UiSyncState

pub data UiStageResult : Type 0 where
  staged hash_mismatch parse_failed schema_unsupported storage_failed : UiStageResult

unfoldable pub ui_sync_state_to_string : UiSyncState → List ℕ
ui_sync_state_to_string idle = codes "IDLE"
ui_sync_state_to_string update_available = codes "UPDATE_AVAILABLE"
ui_sync_state_to_string downloading = codes "DOWNLOADING"
ui_sync_state_to_string verifying = codes "VERIFYING"
ui_sync_state_to_string staged = codes "STAGED"
ui_sync_state_to_string activating = codes "ACTIVATING"
ui_sync_state_to_string active = codes "ACTIVE"
ui_sync_state_to_string update_failed = codes "UPDATE_FAILED"

unfoldable pub ui_stage_result_to_string : UiStageResult → List ℕ
ui_stage_result_to_string staged = codes "STAGED"
ui_stage_result_to_string hash_mismatch = codes "HASH_MISMATCH"
ui_stage_result_to_string parse_failed = codes "PARSE_FAILED"
ui_stage_result_to_string schema_unsupported = codes "SCHEMA_UNSUPPORTED"
ui_stage_result_to_string storage_failed = codes "STORAGE_FAILED"

unfoldable pub spiffs_path_for : ℕ → UiPath
spiffs_path_for slot = if slot == b'A' then path_a else path_b

abbrev pub ui_schema_supported_min : ℕ
ui_schema_supported_min = 1

abbrev pub ui_schema_supported_max : ℕ
ui_schema_supported_max = 1

abbrev hex_byte : ℕ → List ℕ
hex_byte b = hex_digit (b / 16) ∷ hex_digit (b % 16) ∷ []

abbrev pub hex_bytes : List ℕ → List ℕ
hex_bytes [] = []
hex_bytes (b ∷ bytes) = hex_byte b ++ hex_bytes bytes

unfoldable pub to_lower : List ℕ → List ℕ
to_lower s = map (λ c. if leb b'A' c && leb c b'Z' then c + 32 else c) s

-- The string that `c_str()` gives.
unfoldable pub c_str : List ℕ → List ℕ
c_str [] = []
c_str (c ∷ s) = let rest = c_str s in if c == 0 then [] else c ∷ rest

-- The other slot's letter.
unfoldable pub target_of : ℕ → ℕ
target_of slot = if slot == b'A' then b'B' else b'A'

module _ (storage : UiStorage) where
  pub record UiBundleStore : Type 0 where
    pub flash : storage.Flash
    pub has_active : Bool
    pub active_bundle : UiBundle
    pub active_version : ℕ
    pub active_hash : List ℕ
    pub active_schema_version : ℕ
    pub active_slot : ℕ
    pub last_good_version : ℕ
    pub has_staged : Bool
    pub staged_slot : ℕ
    pub staged_version : ℕ
    pub sync_state : UiSyncState
    pub last_update_error : List ℕ

  -- The object as it is constructed.
  abbrev pub new_store : storage.Flash → UiBundleStore
  new_store flash = record {
    flash = flash;
    has_active = false;
    active_bundle = empty_bundle;
    active_version = 0;
    active_hash = [];
    active_schema_version = 0;
    active_slot = b'A';
    last_good_version = 0;
    has_staged = false;
    staged_slot = b'B';
    staged_version = 0;
    sync_state = idle;
    last_update_error = [];
  }

  unfoldable pub read_spiffs_file : UiPath → storage.Flash → List ℕ
  read_spiffs_file path flash =
      if not (storage.exists path flash)
      then []
      else elim (storage.read_file path flash) [ none ↦ [] | some bytes ↦ bytes ]

  unfoldable pub write_spiffs_file : UiPath → List ℕ → storage.Flash → Bool × storage.Flash
  write_spiffs_file path bytes flash =
      let (written, flash') = storage.write_file path bytes flash in
      (elim written [ none ↦ false | some n ↦ n == length bytes ], flash')

  unfoldable pub sha256_hex : List ℕ → List ℕ
  sha256_hex bytes = hex_bytes (storage.sha256 bytes)

  -- The text of the active slot, once it has been read.
  unfoldable pub load_text : List ℕ → UiBundleStore → UiBundleStore
  unfolding c_str
  load_text raw_json s =
      let (parsed, bundle) = parse_ui_bundle_json (c_str raw_json) in
      if is_empty raw_json
      then record s { has_active = false }
      else if not parsed
      then record s { has_active = false }
      else record s { active_bundle = bundle; has_active = true; sync_state = active }

  -- The metadata and the text of a slot.
  unfoldable pub load_slot : ℕ → UiBundleStore → UiBundleStore
  unfolding read_spiffs_file spiffs_path_for load_text
  load_slot slot s = load_text (read_spiffs_file (spiffs_path_for slot) s.flash) (record s {
    active_slot = slot;
    active_version = storage.get_uint (meta_ver slot) s.flash;
    active_hash = storage.get_string (meta_hash slot) s.flash;
    active_schema_version = storage.get_uint (meta_schema slot) s.flash;
  })

  unfoldable pub load_active_from_nvs : UiBundleStore → UiBundleStore
  unfolding load_slot
  load_active_from_nvs s =
      let s' = record s { last_good_version = storage.get_uint last_good_ver s.flash } in
      elim (storage.get_string meta_slot s.flash) [
        | [] ↦ record s' { has_active = false }
        | slot ∷ _ ↦ load_slot slot s'
      ]

  unfoldable pub init : UiBundleStore → UiBundleStore
  unfolding load_active_from_nvs
  init s = load_active_from_nvs (record s { flash = (storage.begin s.flash).1 })

  abbrev pub refuse : List ℕ → UiBundleStore → UiBundleStore
  refuse error s = record s { last_update_error = error; sync_state = update_failed }

  -- The three writes of metadata, each only if the one before was done.
  unfoldable pub write_metadata : ℕ → ℕ → List ℕ → ℕ → storage.Flash → Bool × storage.Flash
  write_metadata slot version actual_hash schema_version flash =
      let (n, flash₁) = storage.put_uint (meta_ver slot) version flash in
      let (m, flash₂) = storage.put_string (meta_hash slot) actual_hash flash₁ in
      let (k, flash₃) = storage.put_uint (meta_schema slot) schema_version flash₂ in
      if not (ltb 0 n)
      then (false, flash₁)
      else if not (ltb 0 m)
      then (false, flash₂)
      else (ltb 0 k, flash₃)

  -- All that `stage` writes.
  unfoldable pub write_slot : ℕ → List ℕ → ℕ → List ℕ → ℕ → storage.Flash → Bool × storage.Flash
  unfolding write_spiffs_file spiffs_path_for write_metadata
  write_slot slot raw_json version actual_hash schema_version flash =
      let (ok, flash') = write_spiffs_file (spiffs_path_for slot) raw_json flash in
      if ok then write_metadata slot version actual_hash schema_version flash' else (false, flash')

  -- The part of `stage` behind the checks.
  unfoldable pub store_staged : List ℕ → ℕ → ℕ → UiBundleStore → UiStageResult × UiBundleStore
  unfolding write_slot target_of
  store_staged raw_json version schema_version s =
      let slot = target_of s.active_slot in
      let (ok, flash) =
        write_slot slot raw_json version (sha256_hex raw_json) schema_version s.flash in
      if not ok
      then (storage_failed, refuse (codes "STORAGE_FAILED") (record s { flash = flash }))
      else (
        staged,
        record s {
          flash = flash;
          has_staged = true;
          staged_slot = slot;
          staged_version = version;
          last_update_error = [];
          sync_state = staged;
        },
      )

  unfoldable pub stage : List ℕ → ℕ → List ℕ → UiBundleStore → UiStageResult × UiBundleStore
  unfolding bytes_eq to_lower sha256_hex parse_ui_bundle_json store_staged
  stage raw_json version expected_sha256_hex s =
      let (parsed, bundle) = parse_ui_bundle_json raw_json in
      let schema_version = bundle.manifest.schema_version in
      if not (is_empty expected_sha256_hex)
        && not (bytes_eq (to_lower (sha256_hex raw_json)) (to_lower (c_str expected_sha256_hex)))
      then (hash_mismatch, refuse (codes "HASH_MISMATCH") s)
      else if not parsed
      then (parse_failed, refuse (codes "PARSE_FAILED") s)
      else if ltb schema_version ui_schema_supported_min
          || ltb ui_schema_supported_max schema_version
      then (schema_unsupported, refuse (codes "SCHEMA_UNSUPPORTED") s)
      else store_staged raw_json version schema_version s

  -- The two writes that select the staged slot.
  unfoldable pub write_selection : ℕ → ℕ → storage.Flash → Bool × storage.Flash
  write_selection slot version flash =
      let (n, flash₁) = storage.put_string meta_slot (slot ∷ []) flash in
      let (m, flash₂) = storage.put_uint last_good_ver version flash₁ in
      if ltb 0 n then (ltb 0 m, flash₂) else (false, flash₁)

  unfoldable pub activate_staged : UiBundleStore → Bool × UiBundleStore
  unfolding write_selection load_active_from_nvs
  activate_staged s =
      let (ok, flash) = write_selection s.staged_slot s.staged_version s.flash in
      let loaded = load_active_from_nvs (record s { flash = flash; has_staged = false }) in
      if not s.has_staged
      then (false, s)
      else if not ok
      then (false, refuse (codes "ACTIVATE_STORAGE_FAILED") (record s { flash = flash }))
      else (true, record loaded { sync_state = active })
