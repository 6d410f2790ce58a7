-- ===== src/UiBundle/Boot.antt =====
-- firmware/kiosk_runtime_v2/src/storage/ui_bundle_store.cpp: what a boot loads.
use mesflow_kiosk_runtime_v.Prelude.{
  ℕ, ◌≡◌, refl, sym, ap, ◌∙◌, Bool, true, false, not, ◌&&◌, Option, none, some, List, [], ◌∷◌,
  if◌then◌else◌, is_empty,
}
use mesflow_kiosk_runtime_v.UiBundle.{UiBundle, parse_ui_bundle_json}
use mesflow_kiosk_runtime_v.UiBundle.Store.{
  meta_slot, last_good_ver, meta_ver, meta_hash, meta_schema, UiStorage, UiBundleStore, new_store,
  spiffs_path_for, read_spiffs_file, load_text, load_slot, load_active_from_nvs, init, c_str,
  active,
}
use mesflow_kiosk_runtime_v.UiBundle.Selected.{SameFile, SameSlot}

-- What the rest of the program sees of the store.
pub record Shown : Type 0 where
  pub has_active : Bool
  pub active_bundle : UiBundle
  pub active_version : ℕ
  pub active_hash : List ℕ
  pub active_schema_version : ℕ
  pub active_slot : ℕ

-- The selection that the metadata hold is slot `c`, or there is none.
abbrev pub Selects : List ℕ → ℕ → Type 0
Selects [] c = Unit
Selects (slot ∷ _) c = slot ≡ c

module _ (storage : UiStorage) where
  abbrev pub shown : UiBundleStore storage → Shown
  shown s = record {
    has_active = s.has_active;
    active_bundle = s.active_bundle;
    active_version = s.active_version;
    active_hash = s.active_hash;
    active_schema_version = s.active_schema_version;
    active_slot = s.active_slot;
  }

  abbrev pub boot : storage.Flash → UiBundleStore storage
  boot flash = init storage (new_store storage flash)

  -- The store's slot is the one that the next boot takes.
  abbrev pub IsSelected : UiBundleStore storage → Type 0
  IsSelected s = Selects (storage.get_string meta_slot s.flash) s.active_slot

  -- The text of a slot.
  abbrev pub text_at : ℕ → storage.Flash → List ℕ
  text_at c f = read_spiffs_file storage (spiffs_path_for c) f

  -- What the slot shows when `parsed` is what its text is parsed to.
  abbrev pub show_parsed : ℕ → UiBundle → Bool → Bool × UiBundle → ℕ → List ℕ → ℕ → Shown
  show_parsed c before empty parsed version hash schema_version = record {
    has_active = not empty && parsed.0;
    active_bundle = if not empty && parsed.0 then parsed.1 else before;
    active_version = version;
    active_hash = hash;
    active_schema_version = schema_version;
    active_slot = c;
  }

  abbrev pub show_slot : ℕ → UiBundle → List ℕ → ℕ → List ℕ → ℕ → Shown
  show_slot c before text = show_parsed c before (is_empty text) (parse_ui_bundle_json (c_str text))

  load_parsed :
      (empty : Bool) (parsed : Bool × UiBundle) (s : UiBundleStore storage)
      → shown (
          if empty
          then record s { has_active = false }
          else if not parsed.0
          then record s { has_active = false }
          else record s { active_bundle = parsed.1; has_active = true; sync_state = active })
        ≡ show_parsed s.active_slot s.active_bundle empty parsed s.active_version s.active_hash
            s.active_schema_version
  load_parsed true parsed s = refl
  load_parsed false (true, bundle) s = refl
  load_parsed false (false, bundle) s = refl

  either_flash :
      (b : Bool) (x y : UiBundleStore storage) (f : storage.Flash)
      → x.flash ≡ f
      → y.flash ≡ f
      → (if b then x else y).flash ≡ f
  either_flash true x y f p q = p
  either_flash false x y f p q = q

  load_text-shown :
      (text : List ℕ) (s : UiBundleStore storage)
      → shown (load_text storage text s)
        ≡ show_slot s.active_slot s.active_bundle text s.active_version s.active_hash
            s.active_schema_version
  unfolding load_text
  load_text-shown text s = load_parsed (is_empty text) (parse_ui_bundle_json (c_str text)) s

  pub text_at-SameFile :
      (c : ℕ) (f g : storage.Flash)
      → SameFile storage (spiffs_path_for c) f g
      → text_at c g ≡ text_at c f
  unfolding read_spiffs_file
  text_at-SameFile c f g same =
      ap
        (λ b.
          if not b
          then []
          else elim (storage.read_file (spiffs_path_for c) g) [ none ↦ [] | some bytes ↦ bytes ])
        same.0
      ∙ ap {A = Option (List ℕ)}
          (λ o.
            if not (storage.exists (spiffs_path_for c) f)
            then []
            else elim o [ none ↦ [] | some bytes ↦ bytes ])
          same.1

  -- What a boot shows of slot `c`.
  abbrev pub show_flash : ℕ → UiBundle → storage.Flash → Shown
  show_flash c before f =
      show_slot c before (text_at c f) (storage.get_uint (meta_ver c) f)
        (storage.get_string (meta_hash c) f) (storage.get_uint (meta_schema c) f)

  pub load_slot-shown :
      (c : ℕ) (s : UiBundleStore storage)
      → shown (load_slot storage c s) ≡ show_flash c s.active_bundle s.flash
  unfolding load_slot
  load_slot-shown c s = load_text-shown (text_at c s.flash) (record s {
    active_slot = c;
    active_version = storage.get_uint (meta_ver c) s.flash;
    active_hash = storage.get_string (meta_hash c) s.flash;
    active_schema_version = storage.get_uint (meta_schema c) s.flash;
  })

  pub show_flash-SameSlot :
      (c : ℕ) (before : UiBundle) (f g : storage.Flash)
      → SameSlot storage c f g
      → show_flash c before g ≡ show_flash c before f
  show_flash-SameSlot c before f g same =
      ap
        (λ t.
          show_slot c before t (storage.get_uint (meta_ver c) g)
            (storage.get_string (meta_hash c) g) (storage.get_uint (meta_schema c) g))
        (text_at-SameFile c f g same.file)
      ∙ ap
          (λ v.
            show_slot c before (text_at c f) v (storage.get_string (meta_hash c) g)
              (storage.get_uint (meta_schema c) g))
          same.ver.1
      ∙ ap
          (λ v.
            show_slot c before (text_at c f) (storage.get_uint (meta_ver c) f) v
              (storage.get_uint (meta_schema c) g))
          same.hash.0
      ∙ ap
          (show_slot c before (text_at c f) (storage.get_uint (meta_ver c) f)
            (storage.get_string (meta_hash c) f))
          same.schema.1

  -- What a load with the selection `slot` shows, if `s` was shown before.
  abbrev pub show_selected : List ℕ → Shown → storage.Flash → Shown
  show_selected slot s f = elim slot [
    | [] ↦ record s { has_active = false }
    | c ∷ _ ↦ show_flash c s.active_bundle f
  ]

  load_selected :
      (slot : List ℕ) (s : UiBundleStore storage)
      → shown (elim slot [ [] ↦ record s { has_active = false } | c ∷ _ ↦ load_slot storage c s ])
        ≡ show_selected slot (shown s) s.flash
  load_selected [] s = refl
  load_selected (c ∷ rest) s = load_slot-shown c s

  pub load_active_from_nvs-shown :
      (s : UiBundleStore storage)
      → shown (load_active_from_nvs storage s)
        ≡ show_selected (storage.get_string meta_slot s.flash) (shown s) s.flash
  unfolding load_active_from_nvs
  load_active_from_nvs-shown s =
      load_selected (storage.get_string meta_slot s.flash)
        (record s { last_good_version = storage.get_uint last_good_ver s.flash })

  -- A load writes nothing.
  load_text-flash :
      (text : List ℕ) (s : UiBundleStore storage) → (load_text storage text s).flash ≡ s.flash
  unfolding load_text
  load_text-flash text s =
      either_flash (is_empty text) (record s { has_active = false }) _ s.flash refl
        (either_flash (not (parse_ui_bundle_json (c_str text)).0) (record s { has_active = false })
          (record s {
            active_bundle = (parse_ui_bundle_json (c_str text)).1;
            has_active = true;
            sync_state = active;
          })
          s.flash refl refl)

  load_slot-flash : (c : ℕ) (s : UiBundleStore storage) → (load_slot storage c s).flash ≡ s.flash
  unfolding load_slot
  load_slot-flash c s = load_text-flash (text_at c s.flash) (record s {
    active_slot = c;
    active_version = storage.get_uint (meta_ver c) s.flash;
    active_hash = storage.get_string (meta_hash c) s.flash;
    active_schema_version = storage.get_uint (meta_schema c) s.flash;
  })

  selected_flash :
      (slot : List ℕ) (s : UiBundleStore storage)
      → (elim slot as (λ _. UiBundleStore storage) [
        | [] ↦ record s { has_active = false }
        | c ∷ _ ↦ load_slot storage c s
      ]).flash
        ≡ s.flash
  selected_flash [] s = refl
  selected_flash (c ∷ rest) s = load_slot-flash c s

  pub load_active_from_nvs-flash :
      (s : UiBundleStore storage) → (load_active_from_nvs storage s).flash ≡ s.flash
  unfolding load_active_from_nvs
  load_active_from_nvs-flash s =
      selected_flash (storage.get_string meta_slot s.flash)
        (record s { last_good_version = storage.get_uint last_good_ver s.flash })

  pub boot-shown :
      (f : storage.Flash)
      → shown (boot f)
        ≡ show_selected
            (storage.get_string meta_slot (storage.begin f).1)
            (shown (new_store storage f))
            (storage.begin f).1
  unfolding init
  boot-shown f = load_active_from_nvs-shown (new_store storage (storage.begin f).1)

  pub show_selected-SameSlot :
      (c : ℕ) (slot : List ℕ) (s : Shown) (f g : storage.Flash)
      → Selects slot c
      → SameSlot storage c f g
      → show_selected slot s g ≡ show_selected slot s f
  show_selected-SameSlot c [] s f g selects same = refl
  show_selected-SameSlot c (d ∷ _) s f g selects same =
      ap (λ e. show_flash e s.active_bundle g) selects
      ∙ show_flash-SameSlot c s.active_bundle f g same
      ∙ ap (λ e. show_flash e s.active_bundle f) (sym selects)
