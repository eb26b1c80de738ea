-- ===== src/Client/Receive.antt =====
-- `recv_a` and `recv_d` of sb_sim/include/tilelinklib.hpp on a packet that holds an encoded message.
use switchboard_adapter.Base.{◌≡◌, none, some}
use switchboard_adapter.Base.Result.{ok, err, blocked}
use switchboard_adapter.Wire.{TlMessageA, TlMessageD, IsWireA, IsWireD}
use switchboard_adapter.Wire.Codec.{encode_a, encode_d}
use switchboard_adapter.Wire.RoundTrip.{decode_a-encode_a, decode_d-encode_d}
use switchboard_adapter.Client.{Link, recv_a, recv_d}

module _ {W : Type 0} (link : Link W) (w later : W) where
  pub recv_a-encode_a :
      (m : TlMessageA)
      → link.recv w ≡ some (encode_a m, later)
      → IsWireA m
      → recv_a link w ≡ ok (m, later)
  unfolding recv_a
  recv_a-encode_a m e wire = rw (e, recv_a, decode_a-encode_a m wire)

  pub recv_d-encode_d :
      (m : TlMessageD)
      → link.recv w ≡ some (encode_d m, later)
      → IsWireD m
      → recv_d link w ≡ ok (m, later)
  unfolding recv_d
  recv_d-encode_d m e wire = rw (e, recv_d, decode_d-encode_d m wire)

pub recv_a-none :
    {W : Type 0} (link : Link W) (w : W) → link.recv w ≡ none → recv_a link w ≡ err blocked
unfolding recv_a
recv_a-none link w e = rw (e, recv_a)

pub recv_d-none :
    {W : Type 0} (link : Link W) (w : W) → link.recv w ≡ none → recv_d link w ≡ err blocked
unfolding recv_d
recv_d-none link w e = rw (e, recv_d)
