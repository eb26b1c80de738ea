-- ===== src/Minimal/Contract.antt =====
-- What sb_sim/minimal relies on outside the repository.
use switchboard_adapter.Base.{
  ℕ, ◌≤◌, ◌<◌, ◌≡◌, ◌≢◌, none, some, List, [], ◌∷◌, ◌++◌, length, get_or, All,
}
use switchboard_adapter.Wire.{IsByte}
use switchboard_adapter.Wire.Bytes.{le_bytes}
use switchboard_adapter.Minimal.{SbPacket, Port, SwitchboardIfc, Bridge}

-- First in, first out, and an empty queue has room.
pub record IsPort {Q : Type 0} (port : Port Q) : Type 0 where
  pub contents : Q → List SbPacket
  pub sent :
      (p : SbPacket) (q later : Q)
      → port.send p q ≡ some later
      → contents later ≡ contents q ++ (p ∷ [])
  pub no_room : (p : SbPacket) (q : Q) → port.send p q ≡ none → contents q ≢ []
  pub received :
      (p : SbPacket) (q later : Q) → port.recv q ≡ some (p, later) → contents q ≡ p ∷ contents later
  pub no_packet : (q : Q) → port.recv q ≡ none → contents q ≡ []

-- The low 32 bytes of the wires are the first 32 of the packet, both ways.
pub record IsBridge (bridge : Bridge) : Type 0 where
  pub offers :
      (p : SbPacket) (i : ℕ)
      → 32 ≤ length p.bytes
      → All IsByte p.bytes
      → i < 32
      → get_or (le_bytes 32 (bridge.offered p).payload) i 0 ≡ get_or p.bytes i 0
  pub delivers :
      (x : SwitchboardIfc) (i : ℕ)
      → i < 32
      → get_or (bridge.delivered x).bytes i 0 ≡ get_or (le_bytes 32 x.payload) i 0
  pub delivers_32 : (x : SwitchboardIfc) → 32 ≤ length (bridge.delivered x).bytes
