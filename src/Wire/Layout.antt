-- ===== src/Wire/Layout.antt =====
-- The structs of sb_sim/include/tilelinklib.h beside the bundles of src/main/scala/Bundles.scala.
use switchboard_adapter.Base.{
  zero, suc, subst, ℕ, ◌^◌, ◌<◌, ◌≡◌, refl, sym, ap, ◌∙◌, ◌∷◌, ◌++◌, replicate, arith,
  All-replicate,
}
use switchboard_adapter.Wire.{TlMessageA, TlMessageD, IsWireA, IsWireD, IsByte}
use switchboard_adapter.Wire.Bytes.{
  le_bytes, from_le, length-le_bytes, All-le_bytes, from_le-le_bytes, le_bytes-from_le, from_le-lt,
  from_le-append,
}
use switchboard_adapter.Wire.Codec.{encode_a, encode_d, decode_d}
use switchboard_adapter.Wire.RoundTrip.{IsPacket, encode_d-IsPacket, decode_d-encode_d}
use switchboard_adapter.Wire.Rtl.{
  SwitchboardTlBundleA, SwitchboardTlBundleD, FitsA, FitsD, pack_a, unpack_a, pack_d, unpack_d,
}

-- A message as the RTL sees it: lane 0 of the payload is its lowest byte.
abbrev pub bundle_a : TlMessageA → SwitchboardTlBundleA
bundle_a m = record {
  opcode = m.opcode;
  param = m.param;
  size = m.size;
  source = m.source;
  address = m.address;
  mask = m.mask;
  corrupt = m.corrupt;
  payload = from_le m.payload;
}

pub unpack_a-pack_a : (x : SwitchboardTlBundleA) → FitsA x → unpack_a (pack_a x) ≡ x
unfolding unpack_a pack_a
unpack_a-pack_a x f = ground arith

-- The packet of a message, read as one number, is the packed bundle.
pub from_le-encode_a : (m : TlMessageA) → IsWireA m → from_le (encode_a m) ≡ pack_a (bundle_a m)
unfolding encode_a pack_a from_le
from_le-encode_a m w = omega (
  arith,
  from_le-append 4 (le_bytes 4 m.source) (le_bytes 8 m.address ++ (le_bytes 4 m.mask ++ m.payload))
      (length-le_bytes 4 _),
  from_le-append 8 (le_bytes 8 m.address) (le_bytes 4 m.mask ++ m.payload) (length-le_bytes 8 _),
  from_le-append 4 (le_bytes 4 m.mask) m.payload (length-le_bytes 4 _),
  from_le-le_bytes 4 m.source w.source_fits,
  from_le-le_bytes 8 m.address w.address_fits,
  from_le-le_bytes 4 m.mask w.mask_fits,
)

pub bundle_a-FitsA : (m : TlMessageA) → IsWireA m → FitsA (bundle_a m)
bundle_a-FitsA m w = record {
  opcode_fits = w.opcode_fits;
  param_fits = w.param_fits;
  size_fits = w.size_fits;
  source_fits = w.source_fits;
  address_fits = w.address_fits;
  mask_fits = w.mask_fits;
  corrupt_fits = w.corrupt_fits;
  payload_fits =
      subst (λ n. from_le m.payload < 256 ^ n) w.payload_length
        (from_le-lt m.payload w.payload_bytes);
}

-- The packet that `send_a` makes of a message whose fields fit their C types unpacks, on the RTL
-- side, to the message's own fields, the payload read with byte 0 lowest.
pub unpack_a-encode_a : (m : TlMessageA) → IsWireA m → unpack_a (from_le (encode_a m)) ≡ bundle_a m
unpack_a-encode_a m w =
    ap unpack_a (from_le-encode_a m w) ∙ unpack_a-pack_a (bundle_a m) (bundle_a-FitsA m w)

-- The message that a bundle of the D channel stands for, with zeros in `reserved`.
abbrev pub message_d : SwitchboardTlBundleD → TlMessageD
message_d x = record {
  opcode = x.opcode;
  param = x.param;
  size = x.size;
  corrupt = x.corrupt;
  source = x.source;
  sink = x.sink;
  denied = x.denied;
  payload = le_bytes 32 x.payload;
  reserved = replicate 7 0;
}

pub message_d-IsWireD : (x : SwitchboardTlBundleD) → FitsD x → IsWireD (message_d x)
message_d-IsWireD x f = record {
  opcode_fits = f.opcode_fits;
  param_fits = f.param_fits;
  size_fits = f.size_fits;
  corrupt_fits = f.corrupt_fits;
  source_fits = f.source_fits;
  sink_fits = f.sink_fits;
  denied_fits = f.denied_fits;
  payload_length = length-le_bytes 32 x.payload;
  payload_bytes = All-le_bytes 32 x.payload;
  reserved_length = refl;
  reserved_bytes = All-replicate IsByte 7 0 (omega arith);
}

from_le-zeros : (n : ℕ) → from_le (replicate n 0) ≡ 0
unfolding from_le
from_le-zeros zero = refl
from_le-zeros (suc n) = omega (arith, from_le-zeros n)

from_le-encode_d :
    (x : SwitchboardTlBundleD) → FitsD x → from_le (encode_d (message_d x)) ≡ pack_d x
unfolding encode_d pack_d from_le
from_le-encode_d x f = omega (
  arith,
  from_le-append 4 (le_bytes 4 x.source)
      (le_bytes 4 x.sink ++ (x.denied ∷ (le_bytes 32 x.payload ++ replicate 7 0)))
      (length-le_bytes 4 _),
  from_le-append 4 (le_bytes 4 x.sink) (x.denied ∷ (le_bytes 32 x.payload ++ replicate 7 0))
      (length-le_bytes 4 _),
  from_le-append 32 (le_bytes 32 x.payload) (replicate 7 0) (length-le_bytes 32 _),
  from_le-le_bytes 4 x.source f.source_fits,
  from_le-le_bytes 4 x.sink f.sink_fits,
  from_le-le_bytes 32 x.payload f.payload_fits,
  from_le-zeros 7,
)

-- The packet that the RTL packs of a response whose fields fit their widths is read by `recv_d` as
-- the same fields, with zeros in `reserved`, and unpacks on the RTL side to the response it was
-- made of.
pub decode_d-pack_d :
    (x : SwitchboardTlBundleD)
    → FitsD x
    → (decode_d (le_bytes 52 (pack_d x)) ≡ message_d x) × (unpack_d (pack_d x) ≡ x)
decode_d-pack_d x f = (
  ap (λ n. decode_d (le_bytes 52 n)) (sym (from_le-encode_d x f))
      ∙ ap decode_d (le_bytes-from_le 52 (encode_d (message_d x)) packet.length_52 packet.all_bytes)
      ∙ decode_d-encode_d (message_d x) wire,
  unfold unpack_d pack_d in ground arith,
)
  where
    wire : IsWireD (message_d x)
    wire = message_d-IsWireD x f

    packet : IsPacket (encode_d (message_d x))
    packet = encode_d-IsPacket (message_d x) wire
