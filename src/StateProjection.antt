-- ===== src/StateProjection.antt =====
-- firmware/kiosk_runtime_v2/src/protocol/state_projection.{h,cpp}, the parser in a child: the
-- authoritative snapshot of the server's state and the rules by which a new one is applied.
pub mod Versions
pub mod Parser
use mesflow_kiosk_runtime_v.Prelude.{
  ℕ, Bool, true, false, ◌&&◌, List, [], ◌∷◌, ◌==◌, ltb, if◌then◌else◌, bytes_eq, ℤ, int_eq, codes,
}

pub data BusinessState : Type 0 where
  wait_employee wait_operation session_active quantity_input device_disabled maintenance
        unsupported :
      BusinessState

unfoldable pub business_state_to_string : BusinessState → List ℕ
business_state_to_string wait_employee = codes "WAIT_EMPLOYEE"
business_state_to_string wait_operation = codes "WAIT_OPERATION"
business_state_to_string session_active = codes "SESSION_ACTIVE"
business_state_to_string quantity_input = codes "QUANTITY_INPUT"
business_state_to_string device_disabled = codes "DEVICE_DISABLED"
business_state_to_string maintenance = codes "MAINTENANCE"
business_state_to_string unsupported = codes "UNSUPPORTED"

unfoldable pub business_state_from_string : List ℕ → BusinessState
unfolding bytes_eq
business_state_from_string s =
    if bytes_eq s (codes "WAIT_EMPLOYEE")
    then wait_employee
    else if bytes_eq s (codes "WAIT_OPERATION")
    then wait_operation
    else if bytes_eq s (codes "SESSION_ACTIVE")
    then session_active
    else if bytes_eq s (codes "QUANTITY_INPUT")
    then quantity_input
    else if bytes_eq s (codes "DEVICE_DISABLED")
    then device_disabled
    else if bytes_eq s (codes "MAINTENANCE")
    then maintenance
    else unsupported

abbrev pub state_eq : BusinessState → BusinessState → Bool
state_eq wait_employee wait_employee = true
state_eq wait_operation wait_operation = true
state_eq session_active session_active = true
state_eq quantity_input quantity_input = true
state_eq device_disabled device_disabled = true
state_eq maintenance maintenance = true
state_eq unsupported unsupported = true
state_eq _ _ = false

pub record ViewModel : Type 0 where
  pub has_employee_name : Bool
  pub employee_name : List ℕ
  pub has_operation_code : Bool
  pub operation_code : List ℕ
  pub has_operation_name : Bool
  pub operation_name : List ℕ
  pub has_session_id : Bool
  pub session_id : List ℕ
  pub has_started_at : Bool
  pub started_at : List ℕ
  pub has_target_qty : Bool
  pub target_qty : ℤ
  pub has_produced_qty : Bool
  pub produced_qty : ℤ

pub record StateSnapshot : Type 0 where
  pub state : BusinessState
  pub state_version : ℕ
  pub workflow_version : ℕ
  pub view : ViewModel

abbrev bool_eq : Bool → Bool → Bool
bool_eq true b = b
bool_eq false true = false
bool_eq false false = true

-- The two `operator==`.
view_eq : ViewModel → ViewModel → Bool
view_eq v o =
    bool_eq v.has_employee_name o.has_employee_name
    && bytes_eq v.employee_name o.employee_name
    && bool_eq v.has_operation_code o.has_operation_code
    && bytes_eq v.operation_code o.operation_code
    && bool_eq v.has_operation_name o.has_operation_name
    && bytes_eq v.operation_name o.operation_name
    && bool_eq v.has_session_id o.has_session_id
    && bytes_eq v.session_id o.session_id
    && bool_eq v.has_started_at o.has_started_at
    && bytes_eq v.started_at o.started_at
    && bool_eq v.has_target_qty o.has_target_qty
    && int_eq v.target_qty o.target_qty
    && bool_eq v.has_produced_qty o.has_produced_qty
    && int_eq v.produced_qty o.produced_qty

pub snapshot_eq : StateSnapshot → StateSnapshot → Bool
snapshot_eq s o =
    state_eq s.state o.state
    && s.state_version == o.state_version
    && s.workflow_version == o.workflow_version
    && view_eq s.view o.view

pub data ApplyResult : Type 0 where
  applied applied_identical rejected_stale rejected_inconsistent rejected_unsupported : ApplyResult

pub record Projection : Type 0 where
  pub has_snapshot : Bool
  pub current : StateSnapshot

-- The last two tests of `apply`, and the assignment.
apply_newer : StateSnapshot → Projection → Projection × ApplyResult
apply_newer incoming p =
    if ltb incoming.state_version p.current.state_version
    then (p, rejected_stale)
    else if incoming.state_version == p.current.state_version
    then (p, if snapshot_eq incoming p.current then applied_identical else rejected_inconsistent)
    else (record p { current = incoming }, applied)

unfoldable pub apply : StateSnapshot → Projection → Projection × ApplyResult
unfolding apply_newer
apply incoming p =
    if state_eq incoming.state unsupported
    then (p, rejected_unsupported)
    else if p.has_snapshot
    then apply_newer incoming p
    else (record { has_snapshot = true; current = incoming }, applied)

-- The snapshots that come in, one after another.
pub apply_all : List StateSnapshot → Projection → Projection
apply_all [] p = p
apply_all (s ∷ rest) p = apply_all rest (apply s p).0
