-- ===== src/SequenceReservation/Monotone.antt =====
-- No value of the counter repeats, reboots included.
use mesflow_kiosk_runtime_v.Prelude.{ℕ, ◌+◌, ◌*◌, ◌^◌, ◌≤◌, ◌<◌, ◌≡◌, List, [], ◌∷◌, length, arith}
use mesflow_kiosk_runtime_v.SequenceReservation.{
  Device, construct, next, Action, take_next, reboot, issued,
}

-- What has been handed out lies below what is persisted.
pub record IsSafe (d : Device) : Type 0 where
  pub within : d.current ≤ d.reserved_ceiling
  pub durable : d.reserved_ceiling ≤ d.persisted

construct-IsSafe :
    (d : Device)
    → d.persisted + d.block_size < 2 ^ 64
    → IsSafe (construct d)
      × (d.persisted ≤ (construct d).current)
      × ((construct d).persisted ≤ d.persisted + d.block_size)
      × ((construct d).block_size ≡ d.block_size)
unfolding construct
construct-IsSafe d room = ground arith

next-IsSafe :
    (d : Device)
    → IsSafe d
    → 0 < d.block_size
    → d.persisted + d.block_size < 2 ^ 64
    → IsSafe (next d)
      × (d.current < (next d).current)
      × ((next d).persisted ≤ d.persisted + d.block_size)
      × ((next d).block_size ≡ d.block_size)
unfolding next
next-IsSafe d safe block room = ground arith

-- A list rises strictly from a bound.
abbrev pub Ascends : ℕ → List ℕ → Type 0
Ascends bound [] = Unit {0}
Ascends bound (x ∷ xs) = (bound < x) × Ascends x xs

Ascends-mono : (a b : ℕ) (xs : List ℕ) → a ≤ b → Ascends b xs → Ascends a xs
Ascends-mono a b [] h rise = tt
Ascends-mono a b (x ∷ xs) h rise = (omega arith, rise.1)

-- Over any mix of calls of next() and reboots the values handed out rise strictly, so none repeats,
-- if the block size is positive and the counter has room below 2 ^ 64 for a block for each action.
pub issued-Ascends :
    (acts : List Action) (d : Device)
    → IsSafe d
    → 0 < d.block_size
    → d.persisted + length acts * d.block_size < 2 ^ 64
    → Ascends d.current (issued acts d)
unfolding issued
issued-Ascends [] d safe block room = tt
issued-Ascends (take_next ∷ rest) d safe block room =
    let (safe', rise, grown, same) = next-IsSafe d safe block (omega arith) in
    (rise, issued-Ascends rest (next d) safe' (omega arith) (grind (arith, same)))
issued-Ascends (reboot ∷ rest) d safe block room =
    let (safe', over, grown, same) = construct-IsSafe d (omega arith) in
    Ascends-mono d.current (construct d).current (issued rest (construct d)) (omega arith)
      (issued-Ascends rest (construct d) safe' (omega arith) (grind (arith, same)))
