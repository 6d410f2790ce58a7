-- ===== src/Tests/Setup.antt =====
-- The check of addresses and the name of the access point at concrete inputs.
use mesflow_kiosk_runtime_v.Prelude.{◌≡◌, refl, true, false, codes}
use mesflow_kiosk_runtime_v.Policies.Setup.{
  ok, bad_scheme, missing_host, validate_backend_url, compute_setup_ap_ssid,
}

https_taken : validate_backend_url (codes "https://mes/api") false 128 ≡ ok
unfolding validate_backend_url
https_taken = refl

http_refused : validate_backend_url (codes "http://mes/api") false 128 ≡ bad_scheme
unfolding validate_backend_url
http_refused = refl

host_wanted : validate_backend_url (codes "http:///api") true 128 ≡ missing_host
unfolding validate_backend_url
host_wanted = refl

ssid_of_laser : compute_setup_ap_ssid (codes "KIOSK-lasr-01") ≡ codes "MesflowKiosk-SR01"
unfolding compute_setup_ap_ssid
ssid_of_laser = refl

ssid_of_short : compute_setup_ap_ssid (codes "a-") ≡ codes "MesflowKiosk-000A"
unfolding compute_setup_ap_ssid
ssid_of_short = refl
