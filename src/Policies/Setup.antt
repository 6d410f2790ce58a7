-- ===== src/Policies/Setup.antt =====
-- firmware/kiosk_runtime_v2/src/protocol/backend_url_validation.cpp and protocol/ap_ssid.cpp: the
-- check of a server's address, and the name of the network that the setup opens.
use mesflow_kiosk_runtime_v.Prelude.{
  ℕ, zero, suc, ◌+◌, ◌-◌, Bool, true, false, not, ◌&&◌, ◌||◌, List, [], ◌∷◌, ◌++◌, length, drop,
  map, ltb, leb, ◌==◌, if◌then◌else◌, is_empty, codes,
}
use mesflow_kiosk_runtime_v.Decimal.{is_digit}
use mesflow_kiosk_runtime_v.Policies.Environment.{to_upper}

pub data BackendUrlValidation : Type 0 where
  ok empty too_long bad_scheme missing_host : BackendUrlValidation

unfoldable pub starts_with : List ℕ → List ℕ → Bool
starts_with s [] = true
starts_with [] (p ∷ prefix) = false
starts_with (c ∷ s) (p ∷ prefix) = c == p && starts_with s prefix

-- The characters before the first slash.
unfoldable pub host_length : List ℕ → ℕ
host_length [] = 0
host_length (c ∷ s) = let rest = host_length s in if c == b'/' then 0 else suc rest

unfoldable pub validate_backend_url : List ℕ → Bool → ℕ → BackendUrlValidation
unfolding starts_with host_length
validate_backend_url url allow_http max_length =
    let is_https = starts_with url (codes "https://") in
    let is_http = starts_with url (codes "http://") in
    let scheme_len = if is_https then 8 else 7 in
    let host_end = scheme_len + host_length (drop scheme_len url) in
    if is_empty url
    then empty
    else if ltb max_length (length url)
    then too_long
    else if not is_https && not (is_http && allow_http)
    then bad_scheme
    else if leb host_end scheme_len
    then missing_host
    else ok

unfoldable pub backend_url_validation_to_string : BackendUrlValidation → List ℕ
backend_url_validation_to_string ok = codes "OK"
backend_url_validation_to_string empty = codes "CONFIG_BACKEND_NOT_SET"
backend_url_validation_to_string too_long = codes "CONFIG_BACKEND_INVALID"
backend_url_validation_to_string bad_scheme = codes "CONFIG_BACKEND_INVALID"
backend_url_validation_to_string missing_host = codes "CONFIG_BACKEND_INVALID"

-- `isalnum` in the C locale.
abbrev is_alnum : ℕ → Bool
is_alnum c = is_digit c || (leb b'A' c && leb c b'Z' || leb b'a' c && leb c b'z')

unfoldable pub keep_alnum : List ℕ → List ℕ
keep_alnum [] = []
keep_alnum (c ∷ s) = let rest = keep_alnum s in if is_alnum c then c ∷ rest else rest

abbrev zeros : ℕ → List ℕ
zeros zero = []
zeros (suc n) = b'0' ∷ zeros n

unfoldable pub compute_setup_ap_ssid : List ℕ → List ℕ
unfolding keep_alnum
compute_setup_ap_ssid identity_name =
    let alnum = keep_alnum identity_name in
    let suffix =
      if leb 4 (length alnum)
      then drop (length alnum - 4) alnum
      else zeros (4 - length alnum) ++ alnum in
    codes "MesflowKiosk-" ++ map to_upper suffix
