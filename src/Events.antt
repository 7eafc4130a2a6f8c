-- ===== src/Events.antt =====
-- internal/backend/events/events.go, and the identifiers of gateways.
pub mod Replay
use chirpstack_gateway_bridg.Prelude.{take, Bytes, ◌+◌, Bool, [], ◌∷◌, ◌++◌}

-- `events.Subscribe`. The channel of a backend is the list of the events that it has sent.
pub record Subscribe : Type 0 where
  pub gateway_id : Bytes
  pub subscribe : Bool

-- `var id lorawan.EUI64; copy(id[:], bs)`: eight bytes, zeros where there are none.
unfoldable pub copy_eui : Bytes → Bytes
copy_eui bs = take 8 (bs ++ (0 ∷ 0 ∷ 0 ∷ 0 ∷ 0 ∷ 0 ∷ 0 ∷ 0 ∷ []))
