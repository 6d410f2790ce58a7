-- ===== src/StringMap.antt =====
-- `std::map<std::string, V>`: an association list in the order of its keys.
pub mod Laws
use mesflow_kiosk_runtime_v.Prelude.{
  ℕ, Bool, true, false, not, Option, none, some, List, [], ◌∷◌, ltb, ◌==◌, if◌then◌else◌, bytes_eq,
  map,
}

-- `operator<` of `std::string`.
unfoldable pub bytes_lt : List ℕ → List ℕ → Bool
bytes_lt [] [] = false
bytes_lt [] (_ ∷ _) = true
bytes_lt (_ ∷ _) [] = false
bytes_lt (a ∷ s) (b ∷ t) =
    let rest = bytes_lt s t in if ltb a b then true else if a == b then rest else false

abbrev pub StringMap : Type 0 → Type 0
StringMap V = List (List ℕ × V)

module _ {V : Type 0} where
  unfoldable pub lookup : List ℕ → StringMap V → Option V
  unfolding bytes_eq
  lookup k [] = none
  lookup k ((j, v) ∷ m) = let later = lookup k m in if bytes_eq j k then some v else later

  -- `m[k] = v`.
  unfoldable pub insert : List ℕ → V → StringMap V → StringMap V
  unfolding bytes_eq bytes_lt
  insert k v [] = (k, v) ∷ []
  insert k v ((j, w) ∷ m) =
      let later = (j, w) ∷ insert k v m in
      if bytes_eq j k then (k, v) ∷ m else if bytes_lt k j then (k, v) ∷ (j, w) ∷ m else later

  -- A change of the value that an iterator points at, if there is one.
  unfoldable pub modify : List ℕ → (V → V) → StringMap V → StringMap V
  unfolding bytes_eq
  modify k f [] = []
  modify k f ((j, w) ∷ m) =
      let later = (j, w) ∷ modify k f m in if bytes_eq j k then (j, f w) ∷ m else later

  unfoldable pub contains : List ℕ → StringMap V → Bool
  unfolding lookup
  contains k m = elim (lookup k m) [ none ↦ false | some _ ↦ true ]

  abbrev pub keys : StringMap V → List (List ℕ)
  keys = map (λ e. e.0)
