-- ===== src/VnFont/Width.antt =====
-- `measure_vn_text` of firmware/kiosk_runtime_v2/src/protocol/vn_font_core.cpp adds the widths of
-- the characters.
use mesflow_kiosk_runtime_v.Prelude.{
  ℕ, zero, suc, ◌+◌, ◌*◌, ◌%◌, ◌≤◌, ◌<◌, ◌^◌, ◌≡◌, ◌∙◌, List, [], ◌∷◌, ◌++◌, length, ◌==◌,
  if◌then◌else◌, arith, ap, branch_false, All, length-append, pos,
}
use mesflow_kiosk_runtime_v.Decimal.{to_i32}
use mesflow_kiosk_runtime_v.VnFont.{
  VnFontData, Read, utf8_decode_next, advance_of, measure_from, measure_vn_text,
}
use mesflow_kiosk_runtime_v.VnFont.Decode.{utf8, utf8_decode_next-utf8, length-utf8}

abbrev pub encode : List ℕ → List ℕ
encode [] = []
encode (c ∷ cs) = utf8 c ++ encode cs

-- The code points that UTF-8 writes, but for the end of the string.
abbrev pub IsWritten : ℕ → Type 0
IsWritten c = (0 < c) × (c < 2 ^ 21)

abbrev pub total_advance : VnFontData → List ℕ → ℕ
total_advance font [] = 0
total_advance font (c ∷ cs) = advance_of font c + total_advance font cs

-- What a round does with what was read.
abbrev go_on : ℕ → VnFontData → ℕ → ℕ → Read → ℕ
go_on fuel font scale width (codepoint, rest) =
    if codepoint == 0
    then width
    else measure_from fuel font scale ((width + advance_of font codepoint * scale) % 2 ^ 32) rest

measure_round :
    (fuel : ℕ) (font : VnFontData) (scale width c : ℕ) (rest : List ℕ)
    → IsWritten c
    → measure_from (suc fuel) font scale width (utf8 c ++ rest)
      ≡ measure_from fuel font scale ((width + advance_of font c * scale) % 2 ^ 32) rest
unfolding measure_from
measure_round fuel font scale width c rest (positive, bound) =
    ap (go_on fuel font scale width) (utf8_decode_next-utf8 c rest positive bound)
    ∙ branch_false (c == 0) _ _ (ground arith)

sum_wraps :
    (width a t scale : ℕ)
    → ((width + a * scale) % 2 ^ 32 + t * scale) % 2 ^ 32 ≡ (width + (a + t) * scale) % 2 ^ 32
sum_wraps width a t scale = grind arith

measure_from-encode :
    (fuel : ℕ) (font : VnFontData) (scale width : ℕ) (cs : List ℕ)
    → All IsWritten cs
    → length (encode cs) ≤ fuel
    → width < 2 ^ 32
    → measure_from fuel font scale width (encode cs)
      ≡ (width + total_advance font cs * scale) % 2 ^ 32
unfolding measure_from utf8_decode_next
measure_from-encode zero font scale width [] all enough small = omega arith
measure_from-encode (suc fuel) font scale width [] all enough small = omega arith
measure_from-encode zero font scale width (c ∷ cs) all enough small =
    omega (arith, length-append (utf8 c) (encode cs), length-utf8 c)
measure_from-encode (suc fuel) font scale width (c ∷ cs) all enough small =
    let written = length-utf8 c in
    measure_round fuel font scale width c (encode cs) all.0
    ∙ measure_from-encode fuel font scale ((width + advance_of font c * scale) % 2 ^ 32) cs all.1
        (omega (arith, length-append (utf8 c) (encode cs), written)) (omega arith)
    ∙ sum_wraps width (advance_of font c) (total_advance font cs) scale

-- The width of a text in UTF-8 is the sum of its characters' advances, times the font size, in 32
-- bits with a sign.
pub measure_vn_text-encode :
    (font : VnFontData) (cs : List ℕ) (font_size : ℕ)
    → All IsWritten cs
    → 0 < font_size
    → measure_vn_text font (encode cs) font_size
      ≡ to_i32 (pos (total_advance font cs * font_size % 2 ^ 32))
unfolding measure_vn_text
measure_vn_text-encode font cs font_size all positive =
    ap (λ n. to_i32 (pos n))
      (ap (λ scale. measure_from (length (encode cs)) font scale 0 (encode cs))
          (branch_false (font_size == 0) 1 font_size (ground arith))
        ∙ measure_from-encode (length (encode cs)) font font_size 0 cs all (omega arith)
            (omega arith)
        ∙ ap (λ n. n % 2 ^ 32) (omega arith))
