-- ===== src/Tests/State.antt =====
-- The projection of the server's state and the event counter at concrete inputs.
use mesflow_kiosk_runtime_v.Prelude.{ℕ, ◌≡◌, refl, true, false, List, [], ◌∷◌, pos, arith}
use mesflow_kiosk_runtime_v.StateProjection.{
  BusinessState, wait_employee, maintenance, unsupported, ViewModel, StateSnapshot, Projection,
  rejected_stale, apply, apply_all,
}
use mesflow_kiosk_runtime_v.StateProjection.Versions.{
  Outcome, ReachesAll, Reaches, IsShown, apply-Outcome, apply_all-latest,
}
use mesflow_kiosk_runtime_v.SequenceReservation.{Device, issued, take_next, reboot}
use mesflow_kiosk_runtime_v.SequenceReservation.Monotone.{Ascends, issued-Ascends}

abbrev blank_view : ViewModel
blank_view = record {
  has_employee_name = false;
  employee_name = [];
  has_operation_code = false;
  operation_code = [];
  has_operation_name = false;
  operation_name = [];
  has_session_id = false;
  session_id = [];
  has_started_at = false;
  started_at = [];
  has_target_qty = false;
  target_qty = pos 0;
  has_produced_qty = false;
  produced_qty = pos 0;
}

abbrev pub snapshot : ℕ → BusinessState → StateSnapshot
snapshot version state = record {
  state_version = version;
  workflow_version = 1;
  state = state;
  view = blank_view;
}

abbrev showing : Projection
showing = record { has_snapshot = true; current = snapshot 5 wait_employee }

apply-Outcome_example :
    Outcome
      (snapshot 4 maintenance)
      showing
      (apply (snapshot 4 maintenance) showing).0
      (apply (snapshot 4 maintenance) showing).1
apply-Outcome_example = apply-Outcome (snapshot 4 maintenance) showing

-- A snapshot of version 4 is stale beside one of version 5.
stale : (apply (snapshot 4 maintenance) showing).1 ≡ rejected_stale
unfolding apply
stale = refl

abbrev out_of_order : List StateSnapshot
out_of_order = snapshot 9 maintenance ∷ snapshot 7 wait_employee ∷ snapshot 10 unsupported ∷ []

apply_all-latest_example :
    ReachesAll out_of_order (apply_all out_of_order showing)
    × (showing.has_snapshot ≡ true → Reaches 5 (apply_all out_of_order showing))
    × IsShown (apply_all out_of_order showing)
apply_all-latest_example = apply_all-latest out_of_order showing (λ h e. cc)

abbrev device : Device
device = record { block_size = 2; current = 10; reserved_ceiling = 12; persisted = 12 }

issued-Ascends_example :
    Ascends 10 (issued (take_next ∷ reboot ∷ take_next ∷ take_next ∷ take_next ∷ []) device)
issued-Ascends_example =
    issued-Ascends (take_next ∷ reboot ∷ take_next ∷ take_next ∷ take_next ∷ []) device
      (record { within = omega arith; durable = omega arith }) (omega arith) (omega arith)
