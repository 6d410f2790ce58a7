-- ===== src/Policies/Timeouts.antt =====
-- firmware/kiosk_runtime_v2/src/runtime/ui_timeout_policy.{h,cpp}.
use mesflow_kiosk_runtime_v.Prelude.{ℕ, Bool, false, leb, ◌==◌, if◌then◌else◌}
use mesflow_kiosk_runtime_v.StateProjection.{
  BusinessState, wait_employee, wait_operation, session_active, quantity_input, device_disabled,
  maintenance, unsupported,
}

abbrev pub wait_operation_timeout_ms : ℕ
wait_operation_timeout_ms = 20000

abbrev pub quantity_input_timeout_ms : ℕ
quantity_input_timeout_ms = 60000

unfoldable pub ui_timeout_ms_for_state : BusinessState → ℕ
ui_timeout_ms_for_state wait_operation = wait_operation_timeout_ms
ui_timeout_ms_for_state quantity_input = quantity_input_timeout_ms
ui_timeout_ms_for_state wait_employee = 0
ui_timeout_ms_for_state session_active = 0
ui_timeout_ms_for_state device_disabled = 0
ui_timeout_ms_for_state maintenance = 0
ui_timeout_ms_for_state unsupported = 0

unfoldable pub ui_state_should_timeout : BusinessState → ℕ → Bool
unfolding ui_timeout_ms_for_state
ui_state_should_timeout state elapsed_ms =
    let limit = ui_timeout_ms_for_state state in if limit == 0 then false else leb limit elapsed_ms
