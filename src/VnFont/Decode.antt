-- ===== src/VnFont/Decode.antt =====
-- `utf8_decode_next` of firmware/kiosk_runtime_v2/src/protocol/vn_font_core.cpp reads UTF-8.
use mesflow_kiosk_runtime_v.Prelude.{
  ℕ, ◌+◌, ◌*◌, ◌/◌, ◌%◌, ◌≤◌, ◌<◌, ◌^◌, ◌≡◌, ◌∙◌, List, [], ◌∷◌, ◌++◌, length, ltb, ◌==◌,
  if◌then◌else◌, arith, ap, branch_true, branch_false, dec_lt,
}
use mesflow_kiosk_runtime_v.VnFont.{
  Read, continuation_byte, two_bytes, three_bytes, four_bytes, utf8_decode_next,
}

-- The bytes of a code point in RFC 3629.
abbrev pub utf8 : ℕ → List ℕ
utf8 c =
    if ltb c 128
    then c ∷ []
    else if ltb c 2048
    then (192 + c / 64) ∷ (128 + c % 64) ∷ []
    else if ltb c 65536
    then (224 + c / 4096) ∷ (128 + c / 64 % 64) ∷ (128 + c % 64) ∷ []
    else (240 + c / 262144) ∷ (128 + c / 4096 % 64) ∷ (128 + c / 64 % 64) ∷ (128 + c % 64) ∷ []

continuation_byte-lem :
    (next : ℕ → List ℕ → Read) (x : ℕ) (s : List ℕ)
    → x < 64
    → continuation_byte next ((128 + x) ∷ s) ≡ next x s
unfolding continuation_byte
continuation_byte-lem next x s h =
    branch_true ((128 + x) / 64 == 2) _ _ (ground arith) ∙ ap (λ k. next k s) (omega arith)

two_bytes-lem :
    (lead x : ℕ) (s : List ℕ) → x < 64 → two_bytes lead ((128 + x) ∷ s) ≡ (lead * 64 + x, s)
unfolding two_bytes
two_bytes-lem lead x s h = continuation_byte-lem (λ b t. (lead * 64 + b, t)) x s h

three_bytes-lem :
    (lead x : ℕ) (s : List ℕ)
    → x < 64
    → three_bytes lead ((128 + x) ∷ s) ≡ two_bytes (lead * 64 + x) s
unfolding three_bytes
three_bytes-lem lead x s h = continuation_byte-lem (λ b. two_bytes (lead * 64 + b)) x s h

four_bytes-lem :
    (lead x : ℕ) (s : List ℕ)
    → x < 64
    → four_bytes lead ((128 + x) ∷ s) ≡ three_bytes (lead * 64 + x) s
unfolding four_bytes
four_bytes-lem lead x s h = continuation_byte-lem (λ b. three_bytes (lead * 64 + b)) x s h

lead_one : (a : ℕ) (s : List ℕ) → 0 < a → a < 128 → utf8_decode_next (a ∷ s) ≡ (a, s)
unfolding utf8_decode_next
lead_one a s positive small =
    branch_false (a == 0) _ _ (ground arith) ∙ branch_true (ltb a 128) _ _ (ground arith)

lead_two : (x : ℕ) (s : List ℕ) → x < 32 → utf8_decode_next ((192 + x) ∷ s) ≡ two_bytes x s
unfolding utf8_decode_next
lead_two x s h =
    branch_false (192 + x == 0) _ _ (ground arith)
    ∙ branch_false (ltb (192 + x) 128) _ _ (ground arith)
    ∙ branch_true ((192 + x) / 32 == 6) _ _ (ground arith)
    ∙ ap (λ k. two_bytes k s) (omega arith)

lead_three : (x : ℕ) (s : List ℕ) → x < 16 → utf8_decode_next ((224 + x) ∷ s) ≡ three_bytes x s
unfolding utf8_decode_next
lead_three x s h =
    branch_false (224 + x == 0) _ _ (ground arith)
    ∙ branch_false (ltb (224 + x) 128) _ _ (ground arith)
    ∙ branch_false ((224 + x) / 32 == 6) _ _ (ground arith)
    ∙ branch_true ((224 + x) / 16 == 14) _ _ (ground arith)
    ∙ ap (λ k. three_bytes k s) (omega arith)

lead_four : (x : ℕ) (s : List ℕ) → x < 8 → utf8_decode_next ((240 + x) ∷ s) ≡ four_bytes x s
unfolding utf8_decode_next
lead_four x s h =
    branch_false (240 + x == 0) _ _ (ground arith)
    ∙ branch_false (ltb (240 + x) 128) _ _ (ground arith)
    ∙ branch_false ((240 + x) / 32 == 6) _ _ (ground arith)
    ∙ branch_false ((240 + x) / 16 == 14) _ _ (ground arith)
    ∙ branch_true ((240 + x) / 8 == 30) _ _ (ground arith)
    ∙ ap (λ k. four_bytes k s) (omega arith)

decode_two :
    (x y : ℕ) (s : List ℕ)
    → x < 32
    → y < 64
    → utf8_decode_next ((192 + x) ∷ (128 + y) ∷ s) ≡ (x * 64 + y, s)
decode_two x y s hx hy = lead_two x ((128 + y) ∷ s) hx ∙ two_bytes-lem x y s hy

decode_three :
    (x y z : ℕ) (s : List ℕ)
    → x < 16
    → y < 64
    → z < 64
    → utf8_decode_next ((224 + x) ∷ (128 + y) ∷ (128 + z) ∷ s) ≡ ((x * 64 + y) * 64 + z, s)
decode_three x y z s hx hy hz =
    lead_three x ((128 + y) ∷ (128 + z) ∷ s) hx
    ∙ three_bytes-lem x y ((128 + z) ∷ s) hy
    ∙ two_bytes-lem (x * 64 + y) z s hz

decode_four :
    (x y z w : ℕ) (s : List ℕ)
    → x < 8
    → y < 64
    → z < 64
    → w < 64
    → utf8_decode_next ((240 + x) ∷ (128 + y) ∷ (128 + z) ∷ (128 + w) ∷ s)
      ≡ (((x * 64 + y) * 64 + z) * 64 + w, s)
decode_four x y z w s hx hy hz hw =
    lead_four x ((128 + y) ∷ (128 + z) ∷ (128 + w) ∷ s) hx
    ∙ four_bytes-lem x y ((128 + z) ∷ (128 + w) ∷ s) hy
    ∙ three_bytes-lem (x * 64 + y) z ((128 + w) ∷ s) hz
    ∙ two_bytes-lem ((x * 64 + y) * 64 + z) w s hw

one_byte : (c : ℕ) → c < 128 → utf8 c ≡ c ∷ []
one_byte c h = branch_true (ltb c 128) _ _ (ground arith)

two_byte_code : (c : ℕ) → 128 ≤ c → c < 2048 → utf8 c ≡ (192 + c / 64) ∷ (128 + c % 64) ∷ []
two_byte_code c l h =
    branch_false (ltb c 128) _ _ (ground arith) ∙ branch_true (ltb c 2048) _ _ (ground arith)

three_byte_code :
    (c : ℕ)
    → 2048 ≤ c
    → c < 65536
    → utf8 c ≡ (224 + c / 4096) ∷ (128 + c / 64 % 64) ∷ (128 + c % 64) ∷ []
three_byte_code c l h =
    branch_false (ltb c 128) _ _ (ground arith)
    ∙ branch_false (ltb c 2048) _ _ (ground arith)
    ∙ branch_true (ltb c 65536) _ _ (ground arith)

four_byte_code :
    (c : ℕ)
    → 65536 ≤ c
    → utf8 c
      ≡ (240 + c / 262144) ∷ (128 + c / 4096 % 64) ∷ (128 + c / 64 % 64) ∷ (128 + c % 64) ∷ []
four_byte_code c l =
    branch_false (ltb c 128) _ _ (ground arith)
    ∙ branch_false (ltb c 2048) _ _ (ground arith)
    ∙ branch_false (ltb c 65536) _ _ (ground arith)

-- The bytes of each code point are read as this code point, and what follows is left.
pub utf8_decode_next-utf8 :
    (c : ℕ) (rest : List ℕ) → 0 < c → c < 2 ^ 21 → utf8_decode_next (utf8 c ++ rest) ≡ (c, rest)
utf8_decode_next-utf8 c rest positive bound =
    let decodes = λ (t : List ℕ). utf8_decode_next (t ++ rest) in
    elim (dec_lt c 128) [
      | yes a ↦ ap decodes (one_byte c a) ∙ lead_one c rest positive a
      | no a ↦ elim (dec_lt c 2048) [
        | yes b ↦
            ap decodes (two_byte_code c (omega arith) b)
            ∙ decode_two (c / 64) (c % 64) rest (omega arith) (omega arith)
            ∙ ap (λ v. (v, rest)) (omega arith)
        | no b ↦ elim (dec_lt c 65536) [
          | yes d ↦
              ap decodes (three_byte_code c (omega arith) d)
              ∙ decode_three (c / 4096) (c / 64 % 64) (c % 64) rest (omega arith) (omega arith)
                  (omega arith)
              ∙ ap (λ v. (v, rest)) (omega arith)
          | no d ↦
              ap decodes (four_byte_code c (omega arith))
              ∙ decode_four (c / 262144) (c / 4096 % 64) (c / 64 % 64) (c % 64) rest (omega arith)
                  (omega arith) (omega arith) (omega arith)
              ∙ ap (λ v. (v, rest)) (omega arith)
        ]
      ]
    ]

-- A code point takes a byte at least.
pub length-utf8 : (c : ℕ) → 1 ≤ length (utf8 c)
length-utf8 c = ground arith
