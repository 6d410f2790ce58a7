-- ===== src/Tests/Json.antt =====
-- The JSON extractor at a concrete object.
use mesflow_kiosk_runtime_v.Prelude.{ℕ, ◌≡◌, refl, List, [], ◌∷◌, codes}
use mesflow_kiosk_runtime_v.JsonExtract.{json_extract_string}
use mesflow_kiosk_runtime_v.ProtocolCodec.{json_escape}
use mesflow_kiosk_runtime_v.JsonObject.{Value, text, number, object_text}

-- The value under the first key looks like the field under the second.
abbrev tricky : List (List ℕ × Value)
tricky = (codes "b", number 42) ∷ (codes "c", text (codes "x\n")) ∷ []

abbrev first_field : List ℕ × Value
first_field = (codes "a", text (codes "\"b\":7,\\"))

tricky_text :
    json_extract_string (object_text first_field tricky) (codes "a") [] ≡ codes "\"b\":7,\\"
unfolding json_extract_string json_escape
tricky_text = refl
