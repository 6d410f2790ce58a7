-- ===== src/Policies/Environment.antt =====
-- firmware/kiosk_runtime_v2/src/protocol/environment_label.{h,cpp}, and
-- src/network/endpoint_utils.h: which server the device talks to.
use mesflow_kiosk_runtime_v.Prelude.{
  ℕ, suc, ◌+◌, ◌-◌, Bool, true, false, ◌&&◌, Option, none, some, List, [], ◌∷◌, ◌++◌, map, take,
  leb, ◌==◌, if◌then◌else◌, bytes_eq, codes,
}

pub data Environment : Type 0 where
  dev test prod unknown : Environment

unfoldable pub environment_to_string : Environment → List ℕ
environment_to_string dev = codes "DEV"
environment_to_string test = codes "TEST"
environment_to_string prod = codes "PROD"
environment_to_string unknown = codes "UNKNOWN"

unfoldable pub environment_from_server_role : List ℕ → Environment
unfolding bytes_eq
environment_from_server_role server_role =
    if bytes_eq server_role (codes "DEV")
    then dev
    else if bytes_eq server_role (codes "PRODUCTION_TEST")
    then test
    else if bytes_eq server_role (codes "PRODUCTION")
    then prod
    else unknown

abbrev pub to_upper : ℕ → ℕ
to_upper c = if leb b'a' c && leb c b'z' then c - b'a' + b'A' else c

unfoldable pub environment_from_config_string : List ℕ → Environment
unfolding bytes_eq
environment_from_config_string configured =
    let upper = map to_upper configured in
    if bytes_eq upper (codes "DEV")
    then dev
    else if bytes_eq upper (codes "TEST")
    then test
    else if bytes_eq upper (codes "PROD")
    then prod
    else unknown

abbrev pub environment_eq : Environment → Environment → Bool
environment_eq dev dev = true
environment_eq test test = true
environment_eq prod prod = true
environment_eq unknown unknown = true
environment_eq _ _ = false

unfoldable pub environment_matches : Environment → Environment → Bool
environment_matches unknown actual = false
environment_matches expected unknown = false
environment_matches expected actual = environment_eq expected actual

-- `indexOf("://")` behind `i` characters.
unfoldable pub scheme_end : ℕ → List ℕ → Option ℕ
scheme_end i [] = none
scheme_end i (a ∷ []) = none
scheme_end i (a ∷ b ∷ []) = none
scheme_end i (a ∷ b ∷ c ∷ s) =
    let later = scheme_end (suc i) (b ∷ c ∷ s) in
    if a == b':' && b == b'/' && c == b'/' then some i else later

-- `lastIndexOf('/')` behind `i` characters.
unfoldable pub last_slash : ℕ → List ℕ → Option ℕ
last_slash i [] = none
last_slash i (c ∷ s) =
    let here = if c == b'/' then some i else none in
    elim (last_slash (suc i) s) [ some j ↦ some j | none ↦ here ]

-- There is a path if the last slash comes behind the scheme's two.
abbrev pub behind_scheme : Option ℕ → ℕ → Bool
behind_scheme none slash = true
behind_scheme (some i) slash = leb (i + 3) slash

unfoldable pub derive_sibling_endpoint : List ℕ → List ℕ → List ℕ
unfolding scheme_end last_slash
derive_sibling_endpoint events_url name = elim (last_slash 0 events_url) [
  | none ↦ []
  | some slash ↦
      if behind_scheme (scheme_end 0 events_url) slash
      then take (slash + 1) events_url ++ name
      else []
]
