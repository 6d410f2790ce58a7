-- ===== src/Tests/Font.antt =====
-- The font's text routines at concrete inputs.
use mesflow_kiosk_runtime_v.Prelude.{
  pos, ◌*◌, ◌%◌, ◌^◌, ◌++◌, ◌≡◌, refl, [], ◌∷◌, arith, some, none,
}
use mesflow_kiosk_runtime_v.Decimal.{to_i32}
use mesflow_kiosk_runtime_v.VnFont.{
  VnGlyph, VnFontData, utf8_decode_next, find_glyph, measure_vn_text, replacement,
}
use mesflow_kiosk_runtime_v.VnFont.Decode.{utf8, utf8_decode_next-utf8}
use mesflow_kiosk_runtime_v.VnFont.Table.{first_glyph}
use mesflow_kiosk_runtime_v.VnFont.Search.{find_glyph-first_glyph}
use mesflow_kiosk_runtime_v.VnFont.Width.{encode, total_advance, measure_vn_text-encode}

abbrev glyph_a : VnGlyph
glyph_a = record { codepoint = 65; bitmap_offset = 0; width = 5; height = 7; advance = 6 }

abbrev glyph_d : VnGlyph
glyph_d = record { codepoint = 272; bitmap_offset = 7; width = 6; height = 7; advance = 7 }

abbrev glyph_e : VnGlyph
glyph_e = record { codepoint = 7879; bitmap_offset = 14; width = 5; height = 9; advance = 6 }

abbrev small_font : VnFontData
small_font = record { glyphs = glyph_a ∷ glyph_d ∷ glyph_e ∷ []; ascent = 10 }

utf8_decode_next-utf8_example : utf8_decode_next (utf8 7879 ++ 65 ∷ []) ≡ (7879, 65 ∷ [])
utf8_decode_next-utf8_example = utf8_decode_next-utf8 7879 (65 ∷ []) (omega arith) (omega arith)

find_glyph-first_glyph_example : find_glyph small_font 272 ≡ first_glyph small_font.glyphs 272
find_glyph-first_glyph_example =
    find_glyph-first_glyph small_font 272
      ((omega arith, (omega arith, tt)), ((omega arith, tt), (tt, tt)))

-- The glyph is found, and a code point that is not there is missed.
glyph_found : find_glyph small_font 272 ≡ some glyph_d
unfolding find_glyph
glyph_found = refl

glyph_missed : find_glyph small_font 66 ≡ none
unfolding find_glyph
glyph_missed = refl

measure_vn_text-encode_example :
    measure_vn_text small_font (encode (65 ∷ 272 ∷ 66 ∷ [])) 2
    ≡ to_i32 (pos (total_advance small_font (65 ∷ 272 ∷ 66 ∷ []) * 2 % 2 ^ 32))
measure_vn_text-encode_example =
    measure_vn_text-encode small_font (65 ∷ 272 ∷ 66 ∷ []) 2
      ((omega arith, omega arith), ((omega arith, omega arith), ((omega arith, omega arith), tt)))
      (omega arith)

-- A sequence that breaks off after one good byte is read as the replacement character, two bytes
-- in all.
truncated_sequence : utf8_decode_next (225 ∷ 187 ∷ 65 ∷ []) ≡ (replacement, 65 ∷ [])
unfolding utf8_decode_next
truncated_sequence = refl
