-- ===== src/VnFont/Table.antt =====
-- The table of glyphs that firmware/kiosk_runtime_v2/src/protocol/vn_font_core.cpp searches: its
-- order, and a search from the front.
use mesflow_kiosk_runtime_v.Prelude.{
  ℕ, zero, suc, ◌≤◌, ◌<◌, ◌≡◌, refl, sym, ◌∙◌, Option, none, some, List, [], ◌∷◌, length, ◌==◌,
  if◌then◌else◌, arith, All, ap, branch_true, branch_false, dec_lt, ℕ_discrete, subst, ◌≢◌,
}
use mesflow_kiosk_runtime_v.VnFont.{VnGlyph, glyph_at}

-- The first glyph of a code point.
abbrev pub first_glyph : List VnGlyph → ℕ → Option VnGlyph
first_glyph [] codepoint = none
first_glyph (g ∷ gs) codepoint =
    let later = first_glyph gs codepoint in if g.codepoint == codepoint then some g else later

-- The order that the generator of the table keeps.
abbrev pub IsAscending : List VnGlyph → Type 0
IsAscending [] = Unit
IsAscending (g ∷ gs) = All (λ h. g.codepoint < h.codepoint) gs × IsAscending gs

pub opened : (g h : VnGlyph) → some g ≡ some h → g ≡ h
opened g h e = cc

All-glyph_at :
    (P : VnGlyph → Type 0) (gs : List VnGlyph) (i : ℕ) (g : VnGlyph)
    → All P gs
    → glyph_at gs i ≡ some g
    → P g
unfolding glyph_at
All-glyph_at P [] i g all e = cc
All-glyph_at P (h ∷ gs) zero g all e = subst P (opened h g e) all.0
All-glyph_at P (h ∷ gs) (suc i) g all e = All-glyph_at P gs i g all.1 e

glyph_at-order :
    (gs : List VnGlyph) (i j : ℕ) (a b : VnGlyph)
    → IsAscending gs
    → glyph_at gs i ≡ some a
    → glyph_at gs j ≡ some b
    → i < j
    → a.codepoint < b.codepoint
unfolding glyph_at
glyph_at-order [] i j a b up p q h = cc
glyph_at-order (g ∷ gs) i zero a b up p q h = omega arith
glyph_at-order (g ∷ gs) zero (suc j) a b up p q h =
    subst (λ c. c.codepoint < b.codepoint) (opened g a p)
      (All-glyph_at (λ c. g.codepoint < c.codepoint) gs j b up.0 q)
glyph_at-order (g ∷ gs) (suc i) (suc j) a b up p q h =
    glyph_at-order gs i j a b up.1 p q (omega arith)

-- A place is known by its code point, and its order too.
places_by_code :
    (gs : List VnGlyph) (i j : ℕ) (a b : VnGlyph)
    → IsAscending gs
    → glyph_at gs i ≡ some a
    → glyph_at gs j ≡ some b
    → a.codepoint ≤ b.codepoint
    → i ≤ j
places_by_code gs i j a b up p q h = elim (dec_lt j i) [
  | yes above ↦ omega (arith, glyph_at-order gs j i b a up q p above)
  | no here ↦ omega arith
]

pub not_above :
    (gs : List VnGlyph) (i j : ℕ) (a b : VnGlyph)
    → IsAscending gs
    → glyph_at gs i ≡ some a
    → glyph_at gs j ≡ some b
    → a.codepoint < b.codepoint
    → i < j
not_above gs i j a b up p q h = elim (ℕ_discrete i j) [
  | yes here ↦
      let same = ap (λ g. g.codepoint) (opened a b (sym p ∙ ap (glyph_at gs) here ∙ q)) in
      omega (arith, same)
  | no other ↦ let from = places_by_code gs i j a b up p q (omega arith) in omega (arith, from)
]

pub same_place :
    (gs : List VnGlyph) (i j : ℕ) (a b : VnGlyph)
    → IsAscending gs
    → glyph_at gs i ≡ some a
    → glyph_at gs j ≡ some b
    → a.codepoint ≡ b.codepoint
    → i ≡ j
same_place gs i j a b up p q same = omega (
  arith,
  places_by_code gs i j a b up p q (omega arith),
  places_by_code gs j i b a up q p (omega arith),
)

pub glyph_at-in_range :
    (gs : List VnGlyph) (i : ℕ) → i < length gs → (g : VnGlyph) × (glyph_at gs i ≡ some g)
unfolding glyph_at
glyph_at-in_range [] i h = elim h [ ]
glyph_at-in_range (g ∷ gs) zero h = (g, refl)
glyph_at-in_range (g ∷ gs) (suc i) h = glyph_at-in_range gs i (omega arith)

head_found :
    (g : VnGlyph) (gs : List VnGlyph) (codepoint : ℕ)
    → g.codepoint ≡ codepoint
    → first_glyph (g ∷ gs) codepoint ≡ some g
head_found g gs codepoint e = branch_true (g.codepoint == codepoint) _ _ (ground arith)

head_passed :
    (g : VnGlyph) (gs : List VnGlyph) (codepoint : ℕ)
    → g.codepoint ≢ codepoint
    → first_glyph (g ∷ gs) codepoint ≡ first_glyph gs codepoint
head_passed g gs codepoint e = branch_false (g.codepoint == codepoint) _ _ (ground arith)

-- A glyph of the table with its code point is not missed.
pub first_glyph-finds :
    (gs : List VnGlyph) (codepoint i : ℕ) (g : VnGlyph)
    → glyph_at gs i ≡ some g
    → g.codepoint ≡ codepoint
    → (h : VnGlyph) × (first_glyph gs codepoint ≡ some h)
unfolding glyph_at
first_glyph-finds [] codepoint i g at is_it = cc
first_glyph-finds (h ∷ gs) codepoint zero g at is_it =
    (h, head_found h gs codepoint (ap (λ c. c.codepoint) (opened h g at) ∙ is_it))
first_glyph-finds (h ∷ gs) codepoint (suc i) g at is_it = elim (ℕ_discrete h.codepoint codepoint) [
  | yes same ↦ (h, head_found h gs codepoint same)
  | no other ↦
      let (later, e) = first_glyph-finds gs codepoint i g at is_it in
      (later, head_passed h gs codepoint other ∙ e)
]

-- The glyph that is found first stands somewhere in the table.
pub first_glyph-glyph_at :
    (gs : List VnGlyph) (codepoint : ℕ) (g : VnGlyph)
    → first_glyph gs codepoint ≡ some g
    → (i : ℕ) × (glyph_at gs i ≡ some g) × (g.codepoint ≡ codepoint) × (i < length gs)
unfolding glyph_at
first_glyph-glyph_at [] codepoint g e = cc
first_glyph-glyph_at (h ∷ gs) codepoint g e = elim (ℕ_discrete h.codepoint codepoint) [
  | yes same ↦
      let is_head = sym (head_found h gs codepoint same) ∙ e in
      (0, is_head, ap (λ c. c.codepoint) (sym (opened h g is_head)) ∙ same, omega arith)
  | no other ↦
      let (i, at, is_it, within) =
        first_glyph-glyph_at gs codepoint g (sym (head_passed h gs codepoint other) ∙ e) in
      (suc i, at, is_it, omega arith)
]
