-- ===== src/StringMap/Laws.antt =====
-- The laws of the map's operations.
use mesflow_kiosk_runtime_v.Prelude.{
  ℕ, ◌≡◌, refl, Option, none, some, List, [], ◌∷◌, if◌then◌else◌, bytes_eq, bytes_eq_iff, arith,
}
use mesflow_kiosk_runtime_v.StringMap.{StringMap, lookup, insert, modify}

module _ {V : Type 0} where
  pub lookup-insert :
      (k j : List ℕ) (v : V) (m : StringMap V)
      → lookup j (insert k v m) ≡ (if bytes_eq k j then some v else lookup j m)
  unfolding lookup insert
  lookup-insert k j v [] = refl
  lookup-insert k j v ((i, w) ∷ m) =
      ground (arith, bytes_eq_iff k j, bytes_eq_iff i k, bytes_eq_iff i j, lookup-insert k j v m)

  abbrev pub apply_to : (V → V) → Option V → Option V
  apply_to f none = none
  apply_to f (some v) = some (f v)

  pub lookup-modify :
      (k j : List ℕ) (f : V → V) (m : StringMap V)
      → lookup j (modify k f m) ≡ (if bytes_eq k j then apply_to f (lookup j m) else lookup j m)
  unfolding lookup modify
  lookup-modify k j f [] = ground arith
  lookup-modify k j f ((i, w) ∷ m) =
      ground (arith, bytes_eq_iff k j, bytes_eq_iff i k, bytes_eq_iff i j, lookup-modify k j f m)

  -- A change under a key that is not there changes nothing.
  pub modify-missing :
      (k : List ℕ) (f : V → V) (m : StringMap V) → lookup k m ≡ none → modify k f m ≡ m
  unfolding lookup modify
  modify-missing k f [] h = refl
  modify-missing k f ((i, w) ∷ m) h = ground (arith, modify-missing k f m)
