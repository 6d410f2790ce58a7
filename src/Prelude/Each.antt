-- ===== src/Prelude/Each.antt =====
-- A property of every item of a list.
use mathlib.Core.List.{List, [], ◌∷◌, ◌++◌}

module _ {A : Type 0} where
  abbrev pub All : (A → Type 0) → List A → Type 0
  All P [] = Unit {0}
  All P (x ∷ xs) = P x × All P xs

  pub All-imp : (P Q : A → Type 0) (xs : List A) → ((x : A) → P x → Q x) → All P xs → All Q xs
  All-imp P Q [] f all = tt
  All-imp P Q (x ∷ xs) f all = (f x all.0, All-imp P Q xs f all.1)

  -- One more item at the end.
  pub All-append : (P : A → Type 0) (xs : List A) (y : A) → All P xs → P y → All P (xs ++ y ∷ [])
  All-append P [] y all p = (p, tt)
  All-append P (x ∷ xs) y all p = (all.0, All-append P xs y all.1 p)
