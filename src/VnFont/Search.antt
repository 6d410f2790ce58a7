-- ===== src/VnFont/Search.antt =====
-- `find_glyph` of firmware/kiosk_runtime_v2/src/protocol/vn_font_core.cpp is a search in a sorted
-- table.
use mesflow_kiosk_runtime_v.Prelude.{
  ℕ, zero, suc, ◌+◌, ◌-◌, ◌/◌, ◌≤◌, ◌<◌, ◌≡◌, refl, sym, ◌∙◌, Option, none, some, List, length, ltb,
  ◌==◌, if◌then◌else◌, arith, Option-cases, inl, inr, ap, branch_true, branch_false, dec_lt,
  ℕ_discrete,
}
use mesflow_kiosk_runtime_v.VnFont.{VnGlyph, VnFontData, glyph_at, search_glyphs, find_glyph}
use mesflow_kiosk_runtime_v.VnFont.Table.{
  first_glyph, IsAscending, not_above, same_place, glyph_at-in_range, first_glyph-finds,
  first_glyph-glyph_at, opened,
}

-- One round, at a middle that is in the table.
abbrev go_on : ℕ → List VnGlyph → ℕ → ℕ → ℕ → ℕ → VnGlyph → Option VnGlyph
go_on fuel gs codepoint lo top mid g =
    if g.codepoint == codepoint
    then some g
    else if ltb g.codepoint codepoint
    then search_glyphs fuel gs codepoint (suc mid) top
    else search_glyphs fuel gs codepoint lo mid

search_round :
    (fuel : ℕ) (gs : List VnGlyph) (codepoint lo top : ℕ) (g : VnGlyph)
    → lo < top
    → glyph_at gs ((lo + (top - 1)) / 2) ≡ some g
    → search_glyphs (suc fuel) gs codepoint lo top
      ≡ go_on fuel gs codepoint lo top ((lo + (top - 1)) / 2) g
unfolding search_glyphs
search_round fuel gs codepoint lo top g more at =
    let mid = (lo + (top - 1)) / 2 in
    branch_true (ltb lo top) _ _ (ground arith)
    ∙ ap {A = Option VnGlyph}
        (λ o. elim o [ none ↦ none | some h ↦ go_on fuel gs codepoint lo top mid h ]) at

search_over :
    (fuel : ℕ) (gs : List VnGlyph) (codepoint lo top : ℕ)
    → top ≤ lo
    → search_glyphs fuel gs codepoint lo top ≡ none
unfolding search_glyphs
search_over zero gs codepoint lo top over = refl
search_over (suc fuel) gs codepoint lo top over = branch_false (ltb lo top) _ _ (ground arith)

-- A glyph of the range is hit.
search_glyphs-hit :
    (fuel : ℕ) (gs : List VnGlyph) (codepoint lo top i : ℕ) (g : VnGlyph)
    → IsAscending gs
    → glyph_at gs i ≡ some g
    → g.codepoint ≡ codepoint
    → lo ≤ i
    → i < top
    → top ≤ length gs
    → top - lo < fuel
    → search_glyphs fuel gs codepoint lo top ≡ some g
search_glyphs-hit zero gs codepoint lo top i g up at is_it from to within enough = elim enough [ ]
search_glyphs-hit (suc fuel) gs codepoint lo top i g up at is_it from to within enough =
    let mid = (lo + (top - 1)) / 2 in
    let (h, at_mid) = glyph_at-in_range gs mid (omega arith) in
    search_round fuel gs codepoint lo top h (omega arith) at_mid
    ∙ elim (ℕ_discrete h.codepoint codepoint) [
      | yes same ↦
          branch_true (h.codepoint == codepoint) _ _ (ground arith)
          ∙ sym at_mid
          ∙ ap (glyph_at gs) (same_place gs mid i h g up at_mid at (same ∙ sym is_it))
          ∙ at
      | no other ↦
          branch_false (h.codepoint == codepoint) _ _ (ground arith)
          ∙ elim (dec_lt h.codepoint codepoint) [
            | yes low ↦
                branch_true (ltb h.codepoint codepoint) _ _ (ground arith)
                ∙ search_glyphs-hit fuel gs codepoint (suc mid) top i g up at is_it
                    (omega (arith, not_above gs mid i h g up at_mid at (omega arith))) to within
                    (omega arith)
            | no high ↦
                branch_false (ltb h.codepoint codepoint) _ _ (ground arith)
                ∙ search_glyphs-hit fuel gs codepoint lo mid i g up at is_it from
                    (not_above gs i mid g h up at at_mid (omega arith)) (omega arith) (omega arith)
          ]
    ]

-- What is found has the code point that was asked for and stands in the table.
search_glyphs_sound :
    (fuel : ℕ) (gs : List VnGlyph) (codepoint lo top : ℕ) (g : VnGlyph)
    → top ≤ length gs
    → search_glyphs fuel gs codepoint lo top ≡ some g
    → (i : ℕ) × (glyph_at gs i ≡ some g) × (g.codepoint ≡ codepoint)
unfolding search_glyphs
search_glyphs_sound zero gs codepoint lo top g within e = cc
search_glyphs_sound (suc fuel) gs codepoint lo top g within e = elim (dec_lt lo top) [
  | no over ↦ cc (search_over (suc fuel) gs codepoint lo top (omega arith))
  | yes more ↦
      let mid = (lo + (top - 1)) / 2 in
      let (h, at) = glyph_at-in_range gs mid (omega arith) in
      let e' = sym (search_round fuel gs codepoint lo top h more at) ∙ e in
      elim (ℕ_discrete h.codepoint codepoint) [
        | yes same ↦
            let hit = sym (branch_true (h.codepoint == codepoint) _ _ (ground arith)) ∙ e' in
            (mid, at ∙ hit, ap (λ c. c.codepoint) (sym (opened h g hit)) ∙ same)
        | no other ↦
            let e'' = sym (branch_false (h.codepoint == codepoint) _ _ (ground arith)) ∙ e' in
            elim (dec_lt h.codepoint codepoint) [
              | yes low ↦
                  search_glyphs_sound fuel gs codepoint (suc mid) top g within
                    (sym (branch_true (ltb h.codepoint codepoint) _ _ (ground arith)) ∙ e'')
              | no high ↦
                  search_glyphs_sound fuel gs codepoint lo mid g (omega arith)
                    (sym (branch_false (ltb h.codepoint codepoint) _ _ (ground arith)) ∙ e'')
            ]
      ]
]

-- In a table that ascends by code point, the binary search gives what a search from the front
-- gives.
pub find_glyph-first_glyph :
    (font : VnFontData) (codepoint : ℕ)
    → IsAscending font.glyphs
    → find_glyph font codepoint ≡ first_glyph font.glyphs codepoint
unfolding find_glyph
find_glyph-first_glyph font codepoint up =
    let gs = font.glyphs in
    let n = length gs in
    elim (Option-cases (first_glyph gs codepoint)) [
      | inr (g, first) ↦
          let (i, at, is_it, within) = first_glyph-glyph_at gs codepoint g first in
          search_glyphs-hit (suc n) gs codepoint 0 n i g up at is_it (omega arith) within
            (omega arith) (omega arith)
          ∙ sym first
      | inl first ↦ elim (Option-cases (search_glyphs (suc n) gs codepoint 0 n)) [
        | inl missed ↦ missed ∙ sym first
        | inr (g, hit) ↦
            let (i, at, is_it) = search_glyphs_sound (suc n) gs codepoint 0 n g (omega arith) hit in
            let (h, found) = first_glyph-finds gs codepoint i g at is_it in cc
      ]
    ]
