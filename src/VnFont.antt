-- ===== src/VnFont.antt =====
-- firmware/kiosk_runtime_v2/src/protocol/vn_font_core.{h,cpp}: the text of the bitmap font. A text is
-- its bytes; the end of the list, like a byte 0, is the end of the C string. On bytes the masks of
-- the source are quotients and remainders by powers of two.
pub mod Decode
pub mod Table
pub mod Search
pub mod Width
use mesflow_kiosk_runtime_v.Prelude.{
  ℕ, zero, suc, ◌+◌, ◌-◌, ◌*◌, ◌/◌, ◌%◌, ◌^◌, Bool, true, false, Option, none, some, List, [], ◌∷◌,
  length, ltb, ◌==◌, if◌then◌else◌, ℤ, pos,
}
use mesflow_kiosk_runtime_v.Decimal.{to_i32}

pub record VnGlyph : Type 0 where
  pub codepoint : ℕ
  pub bitmap_offset : ℕ
  pub width : ℕ
  pub height : ℕ
  pub advance : ℕ

-- The bitmaps are left out; `glyph_count` is the length of `glyphs`.
pub record VnFontData : Type 0 where
  pub glyphs : List VnGlyph
  pub ascent : ℕ

abbrev pub replacement : ℕ
replacement = 65533

-- A value and what follows the bytes that were read.
abbrev pub Read : Type 0
Read = ℕ × List ℕ

-- `continuation_byte()`, and what is done with its value; anything else is left unread.
unfoldable pub continuation_byte : (ℕ → List ℕ → Read) → List ℕ → Read
continuation_byte next [] = (replacement, [])
continuation_byte next (b ∷ s) = if b / 64 == 2 then next (b % 64) s else (replacement, b ∷ s)

-- The values behind a lead byte with the bits `lead`.
unfoldable pub two_bytes : ℕ → List ℕ → Read
unfolding continuation_byte
two_bytes lead = continuation_byte (λ b s. (lead * 64 + b, s))

unfoldable pub three_bytes : ℕ → List ℕ → Read
unfolding continuation_byte two_bytes
three_bytes lead = continuation_byte (λ b. two_bytes (lead * 64 + b))

unfoldable pub four_bytes : ℕ → List ℕ → Read
unfolding continuation_byte three_bytes
four_bytes lead = continuation_byte (λ b. three_bytes (lead * 64 + b))

unfoldable pub utf8_decode_next : List ℕ → Read
unfolding two_bytes three_bytes four_bytes
utf8_decode_next [] = (0, [])
utf8_decode_next (a ∷ s) =
    if a == 0
    then (0, a ∷ s)
    else if ltb a 128
    then (a, s)
    else if a / 32 == 6
    then two_bytes (a % 32) s
    else if a / 16 == 14
    then three_bytes (a % 16) s
    else if a / 8 == 30
    then four_bytes (a % 8) s
    else (replacement, s)

unfoldable pub glyph_at : List VnGlyph → ℕ → Option VnGlyph
glyph_at [] i = none
glyph_at (g ∷ gs) zero = some g
glyph_at (g ∷ gs) (suc i) = glyph_at gs i

-- The loop of `find_glyph`, with `top` for `hi + 1`, which is never negative.
unfoldable pub search_glyphs : ℕ → List VnGlyph → ℕ → ℕ → ℕ → Option VnGlyph
unfolding glyph_at
search_glyphs zero gs codepoint lo top = none
search_glyphs (suc fuel) gs codepoint lo top =
    let mid = (lo + (top - 1)) / 2 in
    let above = search_glyphs fuel gs codepoint (suc mid) top in
    let below = search_glyphs fuel gs codepoint lo mid in
    let found : Option VnGlyph = elim (glyph_at gs mid) [
      | none ↦ none
      | some g ↦
          if g.codepoint == codepoint
          then some g
          else if ltb g.codepoint codepoint
          then above
          else below
    ] in
    if ltb lo top then found else none

-- A round takes one glyph at least from the range, so one round more than glyphs is enough.
unfoldable pub find_glyph : VnFontData → ℕ → Option VnGlyph
unfolding search_glyphs
find_glyph font codepoint =
    search_glyphs (suc (length font.glyphs)) font.glyphs codepoint 0 (length font.glyphs)

unfoldable pub advance_of : VnFontData → ℕ → ℕ
unfolding find_glyph
advance_of font codepoint = elim (find_glyph font codepoint) [
  | some g ↦ g.advance
  | none ↦ font.ascent / 2
]

-- The loop of `measure_vn_text`, with the 32 bits of the width; each round reads a byte at least.
unfoldable pub measure_from : ℕ → VnFontData → ℕ → ℕ → List ℕ → ℕ
unfolding utf8_decode_next advance_of
measure_from zero font scale width text = width
measure_from (suc fuel) font scale width text =
    let (codepoint, rest) = utf8_decode_next text in
    let more =
      measure_from fuel font scale ((width + advance_of font codepoint * scale) % 2 ^ 32) rest in
    if codepoint == 0 then width else more

-- The bits are those of an `int32_t`.
unfoldable pub measure_vn_text : VnFontData → List ℕ → ℕ → ℤ
unfolding measure_from
measure_vn_text font text font_size =
    to_i32 (pos (measure_from (length text) font (if font_size == 0 then 1 else font_size) 0 text))
