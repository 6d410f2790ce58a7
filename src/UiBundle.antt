-- ===== src/UiBundle.antt =====
-- firmware/kiosk_runtime_v2/src/protocol/ui_bundle.{h,cpp}: the screens that the server describes.
pub mod Tokens
pub mod Store
pub mod Sync
pub mod Selected
pub mod Boot
pub mod Staging
pub mod Written
pub mod Staged
pub mod Activated
pub mod Synced
pub mod Consistent
pub mod Torn
use mesflow_kiosk_runtime_v.Prelude.{
  ℕ, zero, suc, ◌+◌, ◌-◌, ◌%◌, ◌^◌, Bool, true, false, not, ◌&&◌, ◌||◌, Option, none, some, List,
  [], ◌∷◌, ◌==◌, ltb, if◌then◌else◌, is_empty, bytes_eq, codes, ℤ, pos, negsuc,
}
use mesflow_kiosk_runtime_v.Decimal.{to_u32}
use mesflow_kiosk_runtime_v.JsonExtract.{
  json_extract_string, json_extract_int, json_extract_object, json_extract_object_array,
  json_has_key,
}

pub data UiComponentType : Type 0 where
  text rect line unsupported : UiComponentType

pub record UiComponent : Type 0 where
  pub type : UiComponentType
  pub x : ℤ
  pub y : ℤ
  pub w : ℤ
  pub h : ℤ
  pub font_size : ℕ
  pub color : List ℕ
  pub content : List ℕ
  pub align : List ℕ

pub record UiScreen : Type 0 where
  pub screen_id : List ℕ
  pub components : List UiComponent

pub record UiBundleManifest : Type 0 where
  pub version : ℕ
  pub sha256 : List ℕ
  pub schema_version : ℕ
  pub min_runtime_version : List ℕ

pub record UiBundle : Type 0 where
  pub manifest : UiBundleManifest
  pub screens : List UiScreen

abbrev pub empty_bundle : UiBundle
empty_bundle = record {
  manifest = record { version = 0; sha256 = []; schema_version = 0; min_runtime_version = [] };
  screens = [];
}

unfoldable pub ui_component_type_to_string : UiComponentType → List ℕ
ui_component_type_to_string text = codes "text"
ui_component_type_to_string rect = codes "rect"
ui_component_type_to_string line = codes "line"
ui_component_type_to_string unsupported = codes "unsupported"

unfoldable pub ui_component_type_from_string : List ℕ → UiComponentType
unfolding bytes_eq
ui_component_type_from_string s =
    if bytes_eq s (codes "text")
    then text
    else if bytes_eq s (codes "rect")
    then rect
    else if bytes_eq s (codes "line")
    then line
    else unsupported

abbrev is_unsupported : UiComponentType → Bool
is_unsupported unsupported = true
is_unsupported _ = false

-- `static_cast` of an int64_t to an int16_t and to a uint8_t.
abbrev to_i16 : ℤ → ℤ
to_i16 z = let n = to_u32 z % 2 ^ 16 in if ltb n (2 ^ 15) then pos n else negsuc (2 ^ 16 - 1 - n)

abbrev to_u8 : ℤ → ℕ
to_u8 z = to_u32 z % 2 ^ 8

-- `none` is the result false, here and in `parse_screen`.
unfoldable pub parse_component : List ℕ → Option UiComponent
unfolding ui_component_type_from_string
parse_component json =
    let type = ui_component_type_from_string (json_extract_string json (codes "type") []) in
    if is_unsupported type
    then none
    else some (record {
      type = type;
      x = to_i16 (json_extract_int json (codes "x") (pos 0));
      y = to_i16 (json_extract_int json (codes "y") (pos 0));
      w = to_i16 (json_extract_int json (codes "w") (pos 0));
      h = to_i16 (json_extract_int json (codes "h") (pos 0));
      font_size = to_u8 (json_extract_int json (codes "font_size") (pos 1));
      color = json_extract_string json (codes "color") (codes "#FFFFFF");
      content = json_extract_string json (codes "text") [];
      align = json_extract_string json (codes "align") (codes "left");
    })

-- The loops over an array, which keep what is parsed.
unfoldable pub parse_each {ℓ} : {A : Type ℓ} → (List ℕ → Option A) → List (List ℕ) → List A
parse_each parse [] = []
parse_each parse (json ∷ jsons) =
    let rest = parse_each parse jsons in elim (parse json) [ none ↦ rest | some a ↦ a ∷ rest ]

unfoldable pub parse_screen : List ℕ → Option UiScreen
unfolding parse_component parse_each
parse_screen json =
    let screen_id = json_extract_string json (codes "id") [] in
    let components =
      parse_each parse_component (json_extract_object_array json (codes "components")) in
    if is_empty screen_id
    then none
    else some (record { screen_id = screen_id; components = components })

unfoldable pub parse_manifest : List ℕ → UiBundleManifest
parse_manifest json = record {
  version = to_u32 (json_extract_int json (codes "version") (pos 0));
  schema_version = to_u32 (json_extract_int json (codes "schema_version") (pos 0));
  sha256 = json_extract_string json (codes "sha256") [];
  min_runtime_version = json_extract_string json (codes "min_runtime_version") [];
}

-- The result and `out`, which is reset first.
unfoldable pub parse_ui_bundle_json : List ℕ → Bool × UiBundle
unfolding parse_manifest parse_screen parse_each
parse_ui_bundle_json json =
    let manifest_json = json_extract_object json (codes "manifest") in
    let screens = parse_each parse_screen (json_extract_object_array json (codes "screens")) in
    let out : UiBundle = record { manifest = parse_manifest manifest_json; screens = screens } in
    if is_empty manifest_json
    then (false, empty_bundle)
    else if not (json_has_key manifest_json (codes "version"))
        || not (json_has_key manifest_json (codes "schema_version"))
    then (false, empty_bundle)
    else (not (is_empty screens), out)

unfoldable pub find_ui_screen : List UiScreen → List ℕ → Option UiScreen
unfolding bytes_eq
find_ui_screen [] screen_id = none
find_ui_screen (screen ∷ screens) screen_id =
    let later = find_ui_screen screens screen_id in
    if bytes_eq screen.screen_id screen_id then some screen else later

unfoldable pub ui_bundle_needs_sync : ℕ → List ℕ → ℕ → List ℕ → Bool
unfolding bytes_eq
ui_bundle_needs_sync local_version local_hash desired_version desired_hash =
    if desired_version == 0 && is_empty desired_hash
    then false
    else if not (local_version == desired_version)
    then true
    else not (is_empty desired_hash) && not (bytes_eq local_hash desired_hash)
