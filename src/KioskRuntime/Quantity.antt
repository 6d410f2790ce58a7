-- ===== src/KioskRuntime/Quantity.antt =====
-- The quantity steps of `handle_business_key` in
-- firmware/kiosk_runtime_v2/src/runtime/kiosk_runtime.cpp.
pub mod Dialogue
pub mod Typed
pub mod Pressed
pub mod Submitted
use mesflow_kiosk_runtime_v.Prelude.{
  ℕ, ◌+◌, ◌-◌, ◌^◌, min, Bool, true, false, ◌||◌, List, [], ◌∷◌, ◌++◌, length, ltb, leb, ◌==◌,
  if◌then◌else◌,
}
use mesflow_kiosk_runtime_v.Decimal.{is_digit, read_digits}
use mesflow_kiosk_runtime_v.KioskRuntime.{
  QuantityFlow, QtyStep, good, defect, rework_decision, rework, summary,
}

-- What follows a key: nothing, a new drawing, the message that the rework is too large, or the
-- event.
pub data KeyAction : Type 0 where
  ignore redraw refuse_rework submit : KeyAction

unfoldable pub reset_quantity_flow : QuantityFlow → QuantityFlow
reset_quantity_flow q = record {
  local_qty_buffer = [];
  qty_step = good;
  qty_good = 0;
  qty_defect = 0;
  qty_rework = 0;
  qty_timeout_warned = false;
}

abbrev pub max_digits : ℕ
max_digits = 6

abbrev go_to : QtyStep → QuantityFlow → QuantityFlow
go_to step q = record q { qty_step = step; local_qty_buffer = [] }

-- `strtol` on a long of 32 bits; an empty buffer counts as 0.
abbrev pub buffer_value : QuantityFlow → ℕ
buffer_value q = min (read_digits 0 q.local_qty_buffer).0 (2 ^ 31 - 1)

-- The '#' key in a step that has a digit buffer.
unfoldable pub confirm_digits : QuantityFlow → QuantityFlow × KeyAction
confirm_digits q =
    let value = buffer_value q in
    elim q.qty_step [
      | good ↦ (go_to defect (record q { qty_good = value }), redraw)
      | defect ↦
          if value == 0
          then (go_to summary (record q { qty_defect = value; qty_rework = 0 }), redraw)
          else (go_to rework_decision (record q { qty_defect = value }), redraw)
      | rework ↦
          if ltb q.qty_defect value
          then (record q { local_qty_buffer = [] }, refuse_rework)
          else (go_to summary (record q { qty_rework = value }), redraw)
      | rework_decision ↦ (q, ignore)
      | summary ↦ (q, ignore)
    ]

unfoldable pub digits_key : ℕ → QuantityFlow → QuantityFlow × KeyAction
unfolding confirm_digits
digits_key key q =
    if is_digit key
    then (
      if ltb (length q.local_qty_buffer) max_digits
          then record q { local_qty_buffer = q.local_qty_buffer ++ key ∷ [] }
          else q,
      redraw,
    )
    else if key == b'*'
    then (record q { local_qty_buffer = [] }, redraw)
    else if key == b'#'
    then confirm_digits q
    else (q, ignore)

unfoldable pub decision_key : ℕ → QuantityFlow → QuantityFlow × KeyAction
decision_key key q =
    if key == b'1'
    then (go_to rework q, redraw)
    else if key == b'2' || key == b'#'
    then (record q { qty_rework = 0; qty_step = summary }, redraw)
    else (q, ignore)

unfoldable pub summary_key : ℕ → QuantityFlow → QuantityFlow × KeyAction
unfolding reset_quantity_flow
summary_key key q =
    if key == b'#'
    then (q, submit)
    else if key == b'0'
    then (reset_quantity_flow q, redraw)
    else (q, ignore)

unfoldable pub quantity_key : ℕ → QuantityFlow → QuantityFlow × KeyAction
unfolding digits_key decision_key summary_key
quantity_key key q = elim q.qty_step [
  | summary ↦ summary_key key q
  | rework_decision ↦ decision_key key q
  | good ↦ digits_key key q
  | defect ↦ digits_key key q
  | rework ↦ digits_key key q
]
