-- ===== src/Wire/Codec.antt =====
-- The packed structs of sb_sim/include/tilelinklib.h as the 52 bytes that `send_a`, `recv_a`,
-- `send_d` and `recv_d` copy to and from the data of a Switchboard packet.
use switchboard_adapter.Base.{ℕ, List, ◌∷◌, ◌++◌, take, drop, get_or}
use switchboard_adapter.Wire.{TlMessageA, TlMessageD}
use switchboard_adapter.Wire.Bytes.{le_bytes, from_le}

unfoldable pub encode_a : TlMessageA → List ℕ
encode_a m =
    m.opcode
    ∷ m.param
    ∷ m.size
    ∷ m.corrupt
    ∷ (le_bytes 4 m.source ++ (le_bytes 8 m.address ++ (le_bytes 4 m.mask ++ m.payload)))

unfoldable pub decode_a : List ℕ → TlMessageA
decode_a bytes = record {
  opcode = get_or bytes 0 0;
  param = get_or bytes 1 0;
  size = get_or bytes 2 0;
  corrupt = get_or bytes 3 0;
  source = from_le (take 4 (drop 4 bytes));
  address = from_le (take 8 (drop 8 bytes));
  mask = from_le (take 4 (drop 16 bytes));
  payload = take 32 (drop 20 bytes);
}

unfoldable pub encode_d : TlMessageD → List ℕ
encode_d m =
    m.opcode
    ∷ m.param
    ∷ m.size
    ∷ m.corrupt
    ∷ (le_bytes 4 m.source ++ (le_bytes 4 m.sink ++ (m.denied ∷ (m.payload ++ m.reserved))))

unfoldable pub decode_d : List ℕ → TlMessageD
decode_d bytes = record {
  opcode = get_or bytes 0 0;
  param = get_or bytes 1 0;
  size = get_or bytes 2 0;
  corrupt = get_or bytes 3 0;
  source = from_le (take 4 (drop 4 bytes));
  sink = from_le (take 4 (drop 8 bytes));
  denied = get_or bytes 12 0;
  payload = take 32 (drop 13 bytes);
  reserved = take 7 (drop 45 bytes);
}
