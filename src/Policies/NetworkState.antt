-- ===== src/Policies/NetworkState.antt =====
-- firmware/kiosk_runtime_v2/src/network/network_state.{h,cpp}.
use mesflow_kiosk_runtime_v.Prelude.{ℕ, Bool, not, ◌||◌, List, leb, ◌==◌, if◌then◌else◌, codes}

pub data NetworkState : Type 0 where
  online degraded offline_wifi offline_server auth_blocked : NetworkState

unfoldable pub network_state_to_string : NetworkState → List ℕ
network_state_to_string online = codes "ONLINE"
network_state_to_string degraded = codes "DEGRADED"
network_state_to_string offline_wifi = codes "OFFLINE_WIFI"
network_state_to_string offline_server = codes "OFFLINE_SERVER"
network_state_to_string auth_blocked = codes "AUTH_BLOCKED"

abbrev pub offline_server_streak_threshold : ℕ
offline_server_streak_threshold = 2

pub record NetworkStateInputs : Type 0 where
  pub wifi_connected : Bool
  pub last_request_ok : Bool
  pub last_http_status : ℕ
  pub consecutive_failures : ℕ

unfoldable pub classify_network_state : NetworkStateInputs → NetworkState
classify_network_state x =
    if not x.wifi_connected
    then offline_wifi
    else if x.last_http_status == 401 || x.last_http_status == 403
    then auth_blocked
    else if not x.last_request_ok
    then if leb offline_server_streak_threshold x.consecutive_failures
      then offline_server
      else degraded
    else online
