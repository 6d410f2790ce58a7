-- ===== src/SequenceReservation.antt =====
-- firmware/kiosk_runtime_v2/src/protocol/sequence_reservation.h: the persistent event counter that
-- writes a high-water mark once for each block of values. A `Device` is the object together with
-- the value in flash that `load` and `persist` share.
pub mod Monotone
use mesflow_kiosk_runtime_v.Prelude.{ℕ, ◌+◌, ◌%◌, ◌^◌, List, [], ◌∷◌, leb, if◌then◌else◌}

pub record Device : Type 0 where
  pub block_size : ℕ
  pub current : ℕ
  pub reserved_ceiling : ℕ
  pub persisted : ℕ

-- uint64_t arithmetic.
abbrev pub u64 : ℕ → ℕ
u64 n = n % 2 ^ 64

reserve_next_block : Device → Device
reserve_next_block d =
    let ceiling = u64 (d.current + d.block_size) in
    record d { reserved_ceiling = ceiling; persisted = ceiling }

-- The constructor: all that survives from an earlier boot is what was persisted.
unfoldable pub construct : Device → Device
unfolding reserve_next_block
construct d =
    reserve_next_block (record d { current = d.persisted; reserved_ceiling = d.persisted })

-- The returned value is the new `current`.
unfoldable pub next : Device → Device
unfolding reserve_next_block
next d =
    let d' = if leb d.reserved_ceiling d.current then reserve_next_block d else d in
    record d' { current = u64 (d'.current + 1) }

-- What happens to a device: a value is asked for, or the power fails and it boots again.
pub data Action : Type 0 where
  take_next reboot : Action

-- The values handed out, in order.
unfoldable pub issued : List Action → Device → List ℕ
unfolding construct next
issued [] d = []
issued (take_next ∷ rest) d = (next d).current ∷ issued rest (next d)
issued (reboot ∷ rest) d = issued rest (construct d)
