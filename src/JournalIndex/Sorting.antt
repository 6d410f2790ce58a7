-- ===== src/JournalIndex/Sorting.antt =====
-- `sort_by` sorts: its result is ordered and a permutation of its argument.
use mesflow_kiosk_runtime_v.Prelude.{
  ◌≡◌, refl, Bool, true, false, List, [], ◌∷◌, Bool-cases, inl, inr, All,
}
use mathlib.Core.List.{Permᴰ}
use mathlib.Core.List.Permᴰ
use mesflow_kiosk_runtime_v.JournalIndex.{insert_by, sort_by}

module _ {A : Type 0} where
  -- No item comes before one that stands ahead of it.
  abbrev pub IsOrdered : (A → A → Bool) → List A → Type 0
  IsOrdered before [] = Unit {0}
  IsOrdered before (x ∷ xs) = All (λ y. before y x ≡ false) xs × IsOrdered before xs

-- A strict weak order, as `std::sort` asks of its comparison.
pub record IsWeakOrder {A : Type 0} (before : A → A → Bool) : Type 0 where
  pub asym : (x y : A) → before x y ≡ true → before y x ≡ false
  pub trans : (x y z : A) → before y x ≡ false → before z y ≡ false → before z x ≡ false

module _ {A : Type 0} (before : A → A → Bool) where
  insert_by-Permᴰ : (x : A) (ys : List A) → Permᴰ (insert_by before x ys) (x ∷ ys)
  unfolding insert_by
  insert_by-Permᴰ x [] = Permᴰ.refl (x ∷ [])
  insert_by-Permᴰ x (y ∷ ys) = elim (Bool-cases (before y x)) [
    | inl h ↦ rw h (Permᴰ.trans (Permᴰ.cons refl (insert_by-Permᴰ x ys)) (Permᴰ.swap refl refl))
    | inr h ↦ rw h (Permᴰ.refl (x ∷ y ∷ ys))
  ]

  -- The sorted list is a permutation.
  pub sort_by-Permᴰ : (xs : List A) → Permᴰ (sort_by before xs) xs
  unfolding sort_by
  sort_by-Permᴰ [] = Permᴰ.refl []
  sort_by-Permᴰ (x ∷ xs) =
      Permᴰ.trans (insert_by-Permᴰ x (sort_by before xs)) (Permᴰ.cons refl (sort_by-Permᴰ xs))

  pub insert_by-All :
      (P : A → Type 0) (x : A) (ys : List A) → P x → All P ys → All P (insert_by before x ys)
  unfolding insert_by
  insert_by-All P x [] px all = (px, tt)
  insert_by-All P x (y ∷ ys) px all = elim (Bool-cases (before y x)) [
    | inl h ↦ rw h (all.0, insert_by-All P x ys px all.1)
    | inr h ↦ rw h (px, all)
  ]

  module _ (order : IsWeakOrder before) where
    All-behind :
        (x y : A) (zs : List A)
        → before y x ≡ false
        → All (λ z. before z y ≡ false) zs
        → All (λ z. before z x ≡ false) zs
    All-behind x y [] h all = tt
    All-behind x y (z ∷ zs) h all = (order.trans x y z h all.0, All-behind x y zs h all.1)

    insert_by-IsOrdered :
        (x : A) (ys : List A) → IsOrdered before ys → IsOrdered before (insert_by before x ys)
    unfolding insert_by
    insert_by-IsOrdered x [] ordered = (tt, tt)
    insert_by-IsOrdered x (y ∷ ys) ordered = elim (Bool-cases (before y x)) [
      | inl h ↦ rw h (
        insert_by-All (λ z. before z y ≡ false) x ys (order.asym y x h) ordered.0,
        insert_by-IsOrdered x ys ordered.1,
      )
      | inr h ↦ rw h ((h, All-behind x y ys h ordered.0), ordered)
    ]

    -- The sorted list is ordered.
    pub sort_by-IsOrdered : (xs : List A) → IsOrdered before (sort_by before xs)
    unfolding sort_by
    sort_by-IsOrdered [] = tt
    sort_by-IsOrdered (x ∷ xs) = insert_by-IsOrdered x (sort_by before xs) (sort_by-IsOrdered xs)
