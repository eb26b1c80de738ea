-- ===== src/Client.antt =====
-- `ClientTLAgent` and `ManagerTLAgent` of sb_sim/include/tilelinklib.hpp. The Switchboard queues
-- (`SBTX`, `SBRX`) are not part of the repository: a `Link` stands for the two queues of an agent
-- and what is behind them, as a state that a send changes and a receive takes a packet from.
pub mod Receive
pub mod Queue
pub mod Order
pub mod Network
pub mod Tests
use Prim.Native.String.{String}
use switchboard_adapter.Base.{ℕ, false, List, Option, none, some}
use switchboard_adapter.Base.Result.{Result, ok, err, blocked}
use switchboard_adapter.Wire.{TlMessageA, TlMessageD}
use switchboard_adapter.Wire.Codec.{encode_a, decode_a, encode_d, decode_d}
use switchboard_adapter.Agent.{TlAgent}

-- `send_blocking`, with the state once there was room for the packet, and `recv_blocking`, which is `none` where no packet ever comes.
pub record Link (W : Type 0) : Type 0 where
  pub send : List ℕ → W → W
  pub recv : W → Option (List ℕ × W)

-- What both constructors leave besides the opened queues.
unfoldable pub new_agent : String → TlAgent
new_agent uri = record {
  info = uri;
  p = record {
    address_bit_width = 64;
    source_bit_width = 32;
    sink_bit_width = 32;
    size_bit_width = 4;
    data_bit_width = 256;
    max_transfer_bytes = 32;
  };
  p_set = false;
}

module _ {W : Type 0} (link : Link W) where
  unfoldable pub send_a : TlMessageA → W → W
  send_a tl_a w = link.send (encode_a tl_a) w

  unfoldable pub recv_d : W → Result (TlMessageD × W)
  recv_d w = elim (link.recv w) [
    | none ↦ err blocked
    | some (packet, later) ↦ ok (decode_d packet, later)
  ]

  unfoldable pub recv_a : W → Result (TlMessageA × W)
  recv_a w = elim (link.recv w) [
    | none ↦ err blocked
    | some (packet, later) ↦ ok (decode_a packet, later)
  ]

  unfoldable pub send_d : TlMessageD → W → W
  send_d tl_d w = link.send (encode_d tl_d) w
