-- ===== src/DeviceSequence.antt =====
-- firmware/kiosk_runtime_v2/src/protocol/ids.{h,cpp}: identifiers of events. The random words are
-- an argument; the preferences are the device's persisted value.
use mesflow_kiosk_runtime_v.Prelude.{ℕ, zero, suc, ◌/◌, ◌%◌, Option, none, some, List, [], ◌∷◌}
use mesflow_kiosk_runtime_v.ProtocolCodec.{hex_digit}
use mesflow_kiosk_runtime_v.SequenceReservation.{Device, construct, next}

-- `random i` is the word of `esp_random` that is drawn in round `i`.
unfoldable pub generate_random_hex_id : ℕ → (ℕ → ℕ) → List ℕ
generate_random_hex_id zero random = []
generate_random_hex_id (suc byte_length) random =
    let b = random 0 % 256 in
    hex_digit (b / 16)
    ∷ hex_digit (b % 16)
    ∷ generate_random_hex_id byte_length (λ i. random (suc i))

abbrev pub reserve_block : ℕ
reserve_block = 1000

-- A sequence before `init` is `none`; `persisted` is what an earlier boot left.
unfoldable pub init : ℕ → Option Device → Option Device
unfolding construct
init persisted (some d) = some d
init persisted none = some (
    construct (record {
      block_size = reserve_block;
      current = 0;
      reserved_ceiling = 0;
      persisted = persisted;
    }))

unfoldable pub next_seq : Option Device → ℕ × Option Device
unfolding next
next_seq none = (0, none)
next_seq (some d) = ((next d).current, some (next d))
