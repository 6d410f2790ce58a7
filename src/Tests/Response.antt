-- ===== src/Tests/Response.antt =====
-- An answer of the server at concrete bytes.
use mesflow_kiosk_runtime_v.Prelude.{ℕ, ◌≡◌, refl, List, codes}
use mesflow_kiosk_runtime_v.JsonExtract.{
  json_has_key, json_extract_string, json_extract_bool, json_extract_int, json_extract_object,
}
use mesflow_kiosk_runtime_v.EventResponse.{success, parse_event_response_json}
use mesflow_kiosk_runtime_v.EventResponse.Outcome.{Promised, parse_event_response-Promised}

abbrev answer : List ℕ
answer = codes "{\"accepted\": true,\"state\":{\"name\":\"MAINTENANCE\",\"version\":7}}"

parse_event_response-Promised_example :
    Promised answer
      (parse_event_response_json answer).0
      (parse_event_response_json answer).1
      (parse_event_response_json answer).1.kind
parse_event_response-Promised_example = parse_event_response-Promised answer

answer_kind : (parse_event_response_json answer).1.kind ≡ success
unfolding parse_event_response_json json_has_key json_extract_string json_extract_bool
    json_extract_int json_extract_object
answer_kind = refl

answer_version : (parse_event_response_json answer).1.snapshot.state_version ≡ 7
unfolding parse_event_response_json json_has_key json_extract_string json_extract_bool
    json_extract_int json_extract_object
answer_version = refl
