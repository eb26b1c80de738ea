-- ===== src/Adapter/Fields.antt =====
-- The fields of a message on both sides of a port of src/main/scala/SwitchboardTLAdapter.scala.
use native.Mathlib.Nat.{mod-eq_of_lt}
use switchboard_adapter.Base.{ℕ, ◌+◌, ◌*◌, ◌^◌, ◌≤◌, ◌<◌, ◌≡◌, ap, ◌∙◌, subst, ◌∷◌, ◌++◌, arith}
use switchboard_adapter.Base.Bits.{mod-pow-pow}
use switchboard_adapter.Wire.{TlMessageA, TlMessageD, IsWireA, IsWireD}
use switchboard_adapter.Wire.Bytes.{
  le_bytes, from_le, length-le_bytes, from_le-le_bytes, from_le-lt, from_le-append,
}
use switchboard_adapter.Wire.Codec.{encode_a, encode_d}
use switchboard_adapter.Wire.Rtl.{SwitchboardTlBundleD, FitsD, unpack_a, pack_d, unpack_d}
use switchboard_adapter.Wire.Layout.{unpack_a-encode_a}
use switchboard_adapter.Adapter.{
  Widths, TlBundleA, TlBundleD, hold_a, hold_d, sb_widths, to_tla, to_tld,
}

-- What the `require`s of the adapter ask of the widths of a node, and `fixed` of those that TileLink fixes.
pub record IsValid (fixed node : Widths) : Type 0 where
  pub payload_le : node.payload ≤ 256
  pub mask_le : node.mask ≤ 32
  pub address_le : node.address ≤ 64
  pub size_le : node.size ≤ 4
  pub source_le : node.source ≤ 32
  pub sink_le : node.sink ≤ 32
  pub opcode_le : node.opcode ≤ fixed.opcode
  pub param_a_le : node.param_a ≤ fixed.param_a
  pub param_d_le : node.param_d ≤ fixed.param_d
  pub flag_le : node.flag ≤ fixed.flag
  pub opcode_8 : node.opcode ≤ 8
  pub param_a_8 : node.param_a ≤ 8
  pub param_d_8 : node.param_d ≤ 8
  pub flag_8 : node.flag ≤ 8

-- The fields of a message as a bundle of the node, byte 0 of the payload lowest.
abbrev pub tl_bundle_a : TlMessageA → TlBundleA
tl_bundle_a m = record {
  opcode = m.opcode;
  param = m.param;
  size = m.size;
  source = m.source;
  address = m.address;
  mask = m.mask;
  payload = from_le m.payload;
  corrupt = m.corrupt;
}

abbrev pub tl_bundle_d : TlMessageD → TlBundleD
tl_bundle_d m = record {
  opcode = m.opcode;
  param = m.param;
  size = m.size;
  source = m.source;
  sink = m.sink;
  denied = m.denied;
  payload = from_le m.payload;
  corrupt = m.corrupt;
}

-- Each field of a bundle fits its width.
pub record FitsNodeA (w : Widths) (x : TlBundleA) : Type 0 where
  pub opcode_fits : x.opcode < 2 ^ w.opcode
  pub param_fits : x.param < 2 ^ w.param_a
  pub size_fits : x.size < 2 ^ w.size
  pub source_fits : x.source < 2 ^ w.source
  pub address_fits : x.address < 2 ^ w.address
  pub mask_fits : x.mask < 2 ^ w.mask
  pub payload_fits : x.payload < 2 ^ w.payload
  pub corrupt_fits : x.corrupt < 2 ^ w.flag

pub record FitsNodeD (w : Widths) (x : TlBundleD) : Type 0 where
  pub opcode_fits : x.opcode < 2 ^ w.opcode
  pub param_fits : x.param < 2 ^ w.param_d
  pub size_fits : x.size < 2 ^ w.size
  pub source_fits : x.source < 2 ^ w.source
  pub sink_fits : x.sink < 2 ^ w.sink
  pub denied_fits : x.denied < 2 ^ w.flag
  pub payload_fits : x.payload < 2 ^ w.payload
  pub corrupt_fits : x.corrupt < 2 ^ w.flag

pub hold_a-fits : (w : Widths) (x : TlBundleA) → FitsNodeA w x → hold_a w x ≡ x
unfolding hold_a
hold_a-fits w x f = λ i. record {
  opcode = mod-eq_of_lt f.opcode_fits i;
  param = mod-eq_of_lt f.param_fits i;
  size = mod-eq_of_lt f.size_fits i;
  source = mod-eq_of_lt f.source_fits i;
  address = mod-eq_of_lt f.address_fits i;
  mask = mod-eq_of_lt f.mask_fits i;
  payload = mod-eq_of_lt f.payload_fits i;
  corrupt = mod-eq_of_lt f.corrupt_fits i;
}

pub hold_d-fits : (w : Widths) (x : TlBundleD) → FitsNodeD w x → hold_d w x ≡ x
unfolding hold_d
hold_d-fits w x f = λ i. record {
  opcode = mod-eq_of_lt f.opcode_fits i;
  param = mod-eq_of_lt f.param_fits i;
  size = mod-eq_of_lt f.size_fits i;
  source = mod-eq_of_lt f.source_fits i;
  sink = mod-eq_of_lt f.sink_fits i;
  denied = mod-eq_of_lt f.denied_fits i;
  payload = mod-eq_of_lt f.payload_fits i;
  corrupt = mod-eq_of_lt f.corrupt_fits i;
}

-- The response that a packet holds, whatever its reserved bytes are.
abbrev bundle_d : TlMessageD → SwitchboardTlBundleD
bundle_d m = record {
  opcode = m.opcode;
  param = m.param;
  size = m.size;
  corrupt = m.corrupt;
  source = m.source;
  sink = m.sink;
  denied = m.denied;
  payload = from_le m.payload;
}

from_le-encode_d :
    (m : TlMessageD)
    → IsWireD m
    → from_le (encode_d m) ≡ pack_d (bundle_d m) + 2 ^ 360 * from_le m.reserved
unfolding encode_d pack_d from_le
from_le-encode_d m w = omega (
  arith,
  from_le-append 4 (le_bytes 4 m.source)
      (le_bytes 4 m.sink ++ (m.denied ∷ (m.payload ++ m.reserved))) (length-le_bytes 4 _),
  from_le-append 4 (le_bytes 4 m.sink) (m.denied ∷ (m.payload ++ m.reserved)) (length-le_bytes 4 _),
  from_le-append 32 m.payload m.reserved w.payload_length,
  from_le-le_bytes 4 m.source w.source_fits,
  from_le-le_bytes 4 m.sink w.sink_fits,
)

payload_fits : (m : TlMessageD) → IsWireD m → from_le m.payload < 2 ^ 256
payload_fits m w =
    subst (λ n. from_le m.payload < 256 ^ n) w.payload_length (from_le-lt m.payload w.payload_bytes)

unpack_above :
    (x : SwitchboardTlBundleD) (above : ℕ) → FitsD x → unpack_d (pack_d x + 2 ^ 360 * above) ≡ x
unfolding unpack_d pack_d
unpack_above x above f = ground arith

unpack_d-encode_d : (m : TlMessageD) → IsWireD m → unpack_d (from_le (encode_d m)) ≡ bundle_d m
unpack_d-encode_d m w =
    ap unpack_d (from_le-encode_d m w)
    ∙ unpack_above (bundle_d m) (from_le m.reserved) (record {
      opcode_fits = w.opcode_fits;
      param_fits = w.param_fits;
      size_fits = w.size_fits;
      corrupt_fits = w.corrupt_fits;
      source_fits = w.source_fits;
      sink_fits = w.sink_fits;
      denied_fits = w.denied_fits;
      payload_fits = payload_fits m w;
    })

module _ (fixed node : Widths) (v : IsValid fixed node) where
  -- The packet of a request reaches the node as the fields of the request, each modulo the number of
  -- values that its wires hold: nothing is lost but what the node has no room for.
  pub request_fields :
      (m : TlMessageA)
      → IsWireA m
      → hold_a node (to_tla fixed (unpack_a (from_le (encode_a m)))) ≡ hold_a node (tl_bundle_a m)
  unfolding hold_a to_tla sb_widths
  request_fields m wire = ap (λ x. hold_a node (to_tla fixed x)) (unpack_a-encode_a m wire) ∙ (λ i.
      record {
        opcode = mod-pow-pow m.opcode node.opcode fixed.opcode v.opcode_le i;
        param = mod-pow-pow m.param node.param_a fixed.param_a v.param_a_le i;
        size = mod-pow-pow m.size node.size 4 v.size_le i;
        source = mod-pow-pow m.source node.source 32 v.source_le i;
        address = mod-pow-pow m.address node.address 64 v.address_le i;
        mask = mod-pow-pow m.mask node.mask 32 v.mask_le i;
        payload = mod-pow-pow (from_le m.payload) node.payload 256 v.payload_le i;
        corrupt = mod-pow-pow m.corrupt node.flag fixed.flag v.flag_le i;
      })

  pub response_fields :
      (m : TlMessageD)
      → IsWireD m
      → hold_d node (to_tld fixed (unpack_d (from_le (encode_d m)))) ≡ hold_d node (tl_bundle_d m)
  unfolding hold_d to_tld sb_widths
  response_fields m wire = ap (λ x. hold_d node (to_tld fixed x)) (unpack_d-encode_d m wire) ∙ (λ i.
      record {
        opcode = mod-pow-pow m.opcode node.opcode fixed.opcode v.opcode_le i;
        param = mod-pow-pow m.param node.param_d fixed.param_d v.param_d_le i;
        size = mod-pow-pow m.size node.size 4 v.size_le i;
        source = mod-pow-pow m.source node.source 32 v.source_le i;
        sink = mod-pow-pow m.sink node.sink 32 v.sink_le i;
        denied = mod-pow-pow m.denied node.flag fixed.flag v.flag_le i;
        payload = mod-pow-pow (from_le m.payload) node.payload 256 v.payload_le i;
        corrupt = mod-pow-pow m.corrupt node.flag fixed.flag v.flag_le i;
      })
