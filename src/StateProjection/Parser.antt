-- ===== src/StateProjection/Parser.antt =====
-- firmware/kiosk_runtime_v2/src/protocol/state_projection.cpp: the parser of a snapshot.
use mesflow_kiosk_runtime_v.Prelude.{
  ℕ, Bool, false, not, ◌&&◌, ◌||◌, Option, none, some, List, [], is_empty, if◌then◌else◌, codes, ℤ,
  pos,
}
use mesflow_kiosk_runtime_v.Decimal.{to_i32, to_u32, to_u64}
use mesflow_kiosk_runtime_v.JsonExtract.{
  json_extract_string, json_extract_int, json_extract_object, json_has_key, json_is_null,
}
use mesflow_kiosk_runtime_v.StateProjection.{ViewModel, StateSnapshot, business_state_from_string}

abbrev pub is_given : List ℕ → List ℕ → Bool
is_given json key = json_has_key json key && not (json_is_null json key)

-- A text or a number of the view, the default if it is absent or null.
abbrev view_text : List ℕ → List ℕ → List ℕ
view_text json key = if is_given json key then json_extract_string json key [] else []

abbrev view_qty : List ℕ → List ℕ → ℤ
view_qty json key = if is_given json key then to_i32 (json_extract_int json key (pos 0)) else pos 0

-- `parse_view` on a view that has just been reset.
unfoldable pub parse_view : List ℕ → ViewModel
parse_view view_json = record {
  has_employee_name = is_given view_json (codes "employee_name");
  employee_name = view_text view_json (codes "employee_name");
  has_operation_code = is_given view_json (codes "operation_code");
  operation_code = view_text view_json (codes "operation_code");
  has_operation_name = is_given view_json (codes "operation_name");
  operation_name = view_text view_json (codes "operation_name");
  has_session_id = is_given view_json (codes "session_id");
  session_id = view_text view_json (codes "session_id");
  has_started_at = is_given view_json (codes "started_at");
  started_at = view_text view_json (codes "started_at");
  has_target_qty = is_given view_json (codes "target_qty");
  target_qty = view_qty view_json (codes "target_qty");
  has_produced_qty = is_given view_json (codes "produced_qty");
  produced_qty = view_qty view_json (codes "produced_qty");
}

abbrev pub blank_view : ViewModel
blank_view = record {
  has_employee_name = false;
  employee_name = [];
  has_operation_code = false;
  operation_code = [];
  has_operation_name = false;
  operation_name = [];
  has_session_id = false;
  session_id = [];
  has_started_at = false;
  started_at = [];
  has_target_qty = false;
  target_qty = pos 0;
  has_produced_qty = false;
  produced_qty = pos 0;
}

-- `none` is the result false.
unfoldable pub parse_state_snapshot_json : List ℕ → Option StateSnapshot
unfolding parse_view business_state_from_string
parse_state_snapshot_json json =
    let state_obj = json_extract_object json (codes "state") in
    let workflow_obj = json_extract_object json (codes "workflow") in
    let view_obj = json_extract_object json (codes "view") in
    if is_empty state_obj
    then none
    else if not (json_has_key state_obj (codes "name"))
        || not (json_has_key state_obj (codes "version"))
    then none
    else some (record {
      state = business_state_from_string (json_extract_string state_obj (codes "name") []);
      state_version = to_u64 (json_extract_int state_obj (codes "version") (pos 0));
      workflow_version =
          if is_empty workflow_obj
          then 0
          else to_u32 (json_extract_int workflow_obj (codes "version") (pos 0));
      view = if is_empty view_obj then blank_view else parse_view view_obj;
    })
