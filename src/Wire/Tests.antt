-- ===== src/Wire/Tests.antt =====
-- A request and a response on the wire.
use switchboard_adapter.Base.{ℕ, ◌+◌, ◌^◌, ◌≡◌, refl, List, ◌∷◌, All-replicate, replicate, arith}
use switchboard_adapter.Wire.{TlMessageA, IsByte, IsWireA}
use switchboard_adapter.Wire.Bytes.{le_bytes, from_le}
use switchboard_adapter.Wire.Codec.{encode_a, decode_a, encode_d, decode_d}
use switchboard_adapter.Wire.RoundTrip.{IsPacket, encode-decode}
use switchboard_adapter.Wire.Rtl.{SwitchboardTlBundleD, FitsD, pack_d, unpack_a, unpack_d}
use switchboard_adapter.Wire.Layout.{bundle_a, message_d, unpack_a-encode_a, decode_d-pack_d}

abbrev request : TlMessageA
request = record {
  opcode = 4;
  param = 0;
  size = 3;
  corrupt = 0;
  source = 258;
  address = 2 ^ 40;
  mask = 255;
  payload = replicate 32 9;
}

request-IsWireA : IsWireA request
request-IsWireA = record {
  opcode_fits = omega arith;
  param_fits = omega arith;
  size_fits = omega arith;
  corrupt_fits = omega arith;
  source_fits = omega arith;
  address_fits = omega arith;
  mask_fits = omega arith;
  payload_length = refl;
  payload_bytes = All-replicate IsByte 32 9 (omega arith);
}

abbrev packet : List ℕ
packet = replicate 52 171

packet-IsPacket : IsPacket packet
packet-IsPacket = record { length_52 = refl; all_bytes = All-replicate IsByte 52 171 (omega arith) }

abbrev response : SwitchboardTlBundleD
response = record {
  opcode = 1;
  param = 0;
  size = 3;
  corrupt = 0;
  source = 258;
  sink = 1;
  denied = 1;
  payload = 2 ^ 255 + 77;
}

response-FitsD : FitsD response
response-FitsD = record {
  opcode_fits = omega arith;
  param_fits = omega arith;
  size_fits = omega arith;
  corrupt_fits = omega arith;
  source_fits = omega arith;
  sink_fits = omega arith;
  denied_fits = omega arith;
  payload_fits = omega arith;
}

encode-decode_example :
    (encode_a (decode_a packet) ≡ packet) × (encode_d (decode_d packet) ≡ packet)
encode-decode_example = encode-decode packet packet-IsPacket

unpack_a-encode_a_example : unpack_a (from_le (encode_a request)) ≡ bundle_a request
unpack_a-encode_a_example = unpack_a-encode_a request request-IsWireA

decode_d-pack_d_example :
    (decode_d (le_bytes 52 (pack_d response)) ≡ message_d response)
    × (unpack_d (pack_d response) ≡ response)
decode_d-pack_d_example = decode_d-pack_d response response-FitsD

-- The fields lie where the packed struct has them.
request_bytes :
    encode_a request
    ≡ 4
      ∷ 0
      ∷ 3
      ∷ 0
      ∷ 2
      ∷ 1
      ∷ 0
      ∷ 0
      ∷ 0
      ∷ 0
      ∷ 0
      ∷ 0
      ∷ 0
      ∷ 1
      ∷ 0
      ∷ 0
      ∷ 255
      ∷ 0
      ∷ 0
      ∷ 0
      ∷ replicate 32 9
unfolding encode_a le_bytes
request_bytes = refl
