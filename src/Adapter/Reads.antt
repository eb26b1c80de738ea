-- ===== src/Adapter/Reads.antt =====
-- What the C++ agents read of the packets that a port of src/main/scala/SwitchboardTLAdapter.scala makes.
use native.Mathlib.Nat.{mod-eq_of_lt}
use switchboard_adapter.Base.{ℕ, ◌^◌, ◌≤◌, ◌<◌, ◌≡◌, sym, ap, ◌∙◌, replicate, arith}
use switchboard_adapter.Base.Bits.{pow-le}
use switchboard_adapter.Wire.{TlMessageA, TlMessageD, IsWireA}
use switchboard_adapter.Wire.Bytes.{
  le_bytes, from_le, length-le_bytes, All-le_bytes, from_le-le_bytes, le_bytes-from_le,
}
use switchboard_adapter.Wire.Codec.{encode_a, decode_a, decode_d}
use switchboard_adapter.Wire.RoundTrip.{IsPacket, encode_a-IsPacket, decode_a-encode_a}
use switchboard_adapter.Wire.Rtl.{FitsD, pack_a, pack_d}
use switchboard_adapter.Wire.Layout.{from_le-encode_a, message_d, decode_d-pack_d}
use switchboard_adapter.Adapter.{Widths, TlBundleA, TlBundleD, from_tla, from_tld}
use switchboard_adapter.Adapter.Fields.{IsValid, FitsNodeA, FitsNodeD}

-- The messages of a node's bundles, with zeros in `reserved`.
abbrev pub message_of_a : TlBundleA → TlMessageA
message_of_a x = record {
  opcode = x.opcode;
  param = x.param;
  size = x.size;
  corrupt = x.corrupt;
  source = x.source;
  address = x.address;
  mask = x.mask;
  payload = le_bytes 32 x.payload;
}

abbrev pub message_of_d : TlBundleD → TlMessageD
message_of_d x = record {
  opcode = x.opcode;
  param = x.param;
  size = x.size;
  corrupt = x.corrupt;
  source = x.source;
  sink = x.sink;
  denied = x.denied;
  payload = le_bytes 32 x.payload;
  reserved = replicate 7 0;
}

within : (v j k : ℕ) → v < 2 ^ j → j ≤ k → v < 2 ^ k
within v j k h le = omega (arith, pow-le j k le)

module _ (fixed node : Widths) (v : IsValid fixed node) where
  from_tla-fits :
      (x : TlBundleA)
      → FitsNodeA node x
      → from_tla x ≡ (record {
        opcode = x.opcode;
        param = x.param;
        size = x.size;
        source = x.source;
        address = x.address;
        mask = x.mask;
        corrupt = x.corrupt;
        payload = x.payload;
      })
  unfolding from_tla
  from_tla-fits x f = λ i. record {
    opcode = mod-eq_of_lt (within x.opcode node.opcode 8 f.opcode_fits v.opcode_8) i;
    param = mod-eq_of_lt (within x.param node.param_a 8 f.param_fits v.param_a_8) i;
    size = mod-eq_of_lt (within x.size node.size 8 f.size_fits (omega (arith, v.size_le))) i;
    source = mod-eq_of_lt (within x.source node.source 32 f.source_fits v.source_le) i;
    address = mod-eq_of_lt (within x.address node.address 64 f.address_fits v.address_le) i;
    mask = mod-eq_of_lt (within x.mask node.mask 32 f.mask_fits v.mask_le) i;
    corrupt = mod-eq_of_lt (within x.corrupt node.flag 8 f.corrupt_fits v.flag_8) i;
    payload = mod-eq_of_lt (within x.payload node.payload 256 f.payload_fits v.payload_le) i;
  }

  message_of_a-IsWireA : (x : TlBundleA) → FitsNodeA node x → IsWireA (message_of_a x)
  message_of_a-IsWireA x f = record {
    opcode_fits = within x.opcode node.opcode 8 f.opcode_fits v.opcode_8;
    param_fits = within x.param node.param_a 8 f.param_fits v.param_a_8;
    size_fits = within x.size node.size 8 f.size_fits (omega (arith, v.size_le));
    corrupt_fits = within x.corrupt node.flag 8 f.corrupt_fits v.flag_8;
    source_fits = within x.source node.source 32 f.source_fits v.source_le;
    address_fits = within x.address node.address 64 f.address_fits v.address_le;
    mask_fits = within x.mask node.mask 32 f.mask_fits v.mask_le;
    payload_length = length-le_bytes 32 x.payload;
    payload_bytes = All-le_bytes 32 x.payload;
  }

  -- The packet is that of the message.
  packet_a :
      (x : TlBundleA) → FitsNodeA node x → from_le (encode_a (message_of_a x)) ≡ pack_a (from_tla x)
  packet_a x f =
      from_le-encode_a (message_of_a x) (message_of_a-IsWireA x f)
      ∙ ap
          (λ payload. pack_a (record {
            opcode = x.opcode;
            param = x.param;
            size = x.size;
            source = x.source;
            address = x.address;
            mask = x.mask;
            corrupt = x.corrupt;
            payload = payload;
          }))
          (from_le-le_bytes 32 x.payload
            (within x.payload node.payload 256 f.payload_fits v.payload_le))
      ∙ ap pack_a (sym (from_tla-fits x f))

  -- A manager reads a request of the node as it is.
  pub request_read :
      (x : TlBundleA)
      → FitsNodeA node x
      → decode_a (le_bytes 52 (pack_a (from_tla x))) ≡ message_of_a x
  request_read x f =
      let packet : IsPacket (encode_a (message_of_a x)) =
        encode_a-IsPacket _ (message_of_a-IsWireA x f) in
      ap (λ n. decode_a (le_bytes 52 n)) (sym (packet_a x f))
      ∙ ap decode_a
          (le_bytes-from_le 52 (encode_a (message_of_a x)) packet.length_52 packet.all_bytes)
      ∙ decode_a-encode_a (message_of_a x) (message_of_a-IsWireA x f)

  from_tld-FitsD : (x : TlBundleD) → FitsD (from_tld x)
  unfolding from_tld
  from_tld-FitsD x = record {
    opcode_fits = omega arith;
    param_fits = omega arith;
    size_fits = omega arith;
    corrupt_fits = omega arith;
    source_fits = omega arith;
    sink_fits = omega arith;
    denied_fits = omega arith;
    payload_fits = omega arith;
  }

  from_tld-fits :
      (x : TlBundleD)
      → FitsNodeD node x
      → from_tld x ≡ (record {
        opcode = x.opcode;
        param = x.param;
        size = x.size;
        source = x.source;
        sink = x.sink;
        corrupt = x.corrupt;
        denied = x.denied;
        payload = x.payload;
      })
  unfolding from_tld
  from_tld-fits x f = λ i. record {
    opcode = mod-eq_of_lt (within x.opcode node.opcode 8 f.opcode_fits v.opcode_8) i;
    param = mod-eq_of_lt (within x.param node.param_d 8 f.param_fits v.param_d_8) i;
    size = mod-eq_of_lt (within x.size node.size 8 f.size_fits (omega (arith, v.size_le))) i;
    source = mod-eq_of_lt (within x.source node.source 32 f.source_fits v.source_le) i;
    sink = mod-eq_of_lt (within x.sink node.sink 32 f.sink_fits v.sink_le) i;
    corrupt = mod-eq_of_lt (within x.corrupt node.flag 8 f.corrupt_fits v.flag_8) i;
    denied = mod-eq_of_lt (within x.denied node.flag 8 f.denied_fits v.flag_8) i;
    payload = mod-eq_of_lt (within x.payload node.payload 256 f.payload_fits v.payload_le) i;
  }

  -- A client reads a response of the node as it is.
  pub response_read :
      (x : TlBundleD)
      → FitsNodeD node x
      → decode_d (le_bytes 52 (pack_d (from_tld x))) ≡ message_of_d x
  response_read x f =
      (decode_d-pack_d (from_tld x) (from_tld-FitsD x)).0 ∙ ap message_d (from_tld-fits x f)
