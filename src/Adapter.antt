-- ===== src/Adapter.antt =====
-- src/main/scala: the conversions between the bundles of Bundles.scala and those of rocket-chip, and the
-- ports of SwitchboardTLAdapter.scala, each a queue of 8 entries between a conversion on either side. The
-- bundles of rocket-chip are not part of the repository: their fields have the widths of a parameter.
pub mod Fields
pub mod Reads
pub mod Ports
pub mod Through
pub mod Tests
use switchboard_adapter.Base.{ℕ, ◌%◌, ◌^◌, List}
use switchboard_adapter.Chisel.{ChiselQueue, Edge, relay}
use switchboard_adapter.Wire.Rtl.{
  SwitchboardTlBundleA, SwitchboardTlBundleD, pack_a, unpack_a, pack_d, unpack_d,
}

-- The widths of the fields of a link: `flag` is that of `corrupt` and `denied`.
pub record Widths : Type 0 where
  pub opcode : ℕ
  pub param_a : ℕ
  pub param_d : ℕ
  pub size : ℕ
  pub source : ℕ
  pub sink : ℕ
  pub address : ℕ
  pub mask : ℕ
  pub payload : ℕ
  pub flag : ℕ

pub record TlBundleA : Type 0 where
  pub opcode : ℕ
  pub param : ℕ
  pub size : ℕ
  pub source : ℕ
  pub address : ℕ
  pub mask : ℕ
  pub payload : ℕ
  pub corrupt : ℕ

pub record TlBundleD : Type 0 where
  pub opcode : ℕ
  pub param : ℕ
  pub size : ℕ
  pub source : ℕ
  pub sink : ℕ
  pub denied : ℕ
  pub payload : ℕ
  pub corrupt : ℕ

-- What wires of these widths hold of a bundle: a connection drops the upper bits.
unfoldable pub hold_a : Widths → TlBundleA → TlBundleA
hold_a w x = record {
  opcode = x.opcode % 2 ^ w.opcode;
  param = x.param % 2 ^ w.param_a;
  size = x.size % 2 ^ w.size;
  source = x.source % 2 ^ w.source;
  address = x.address % 2 ^ w.address;
  mask = x.mask % 2 ^ w.mask;
  payload = x.payload % 2 ^ w.payload;
  corrupt = x.corrupt % 2 ^ w.flag;
}

unfoldable pub hold_d : Widths → TlBundleD → TlBundleD
hold_d w x = record {
  opcode = x.opcode % 2 ^ w.opcode;
  param = x.param % 2 ^ w.param_d;
  size = x.size % 2 ^ w.size;
  source = x.source % 2 ^ w.source;
  sink = x.sink % 2 ^ w.sink;
  denied = x.denied % 2 ^ w.flag;
  payload = x.payload % 2 ^ w.payload;
  corrupt = x.corrupt % 2 ^ w.flag;
}

-- `SBTLBundleParameters`, with the widths that the TileLink specification fixes as `fixed` has them.
unfoldable pub sb_widths : Widths → Widths
sb_widths fixed = record fixed {
  address = 64;
  payload = 256;
  mask = 32;
  source = 32;
  sink = 32;
  size = 4;
}

unfoldable pub to_tla : Widths → SwitchboardTlBundleA → TlBundleA
to_tla fixed x = hold_a (sb_widths fixed) (record {
  opcode = x.opcode;
  param = x.param;
  size = x.size;
  source = x.source;
  address = x.address;
  mask = x.mask;
  payload = x.payload;
  corrupt = x.corrupt;
})

unfoldable pub from_tla : TlBundleA → SwitchboardTlBundleA
from_tla d = record {
  opcode = d.opcode % 2 ^ 8;
  param = d.param % 2 ^ 8;
  size = d.size % 2 ^ 8;
  source = d.source % 2 ^ 32;
  address = d.address % 2 ^ 64;
  mask = d.mask % 2 ^ 32;
  corrupt = d.corrupt % 2 ^ 8;
  payload = d.payload % 2 ^ 256;
}

unfoldable pub to_tld : Widths → SwitchboardTlBundleD → TlBundleD
to_tld fixed x = hold_d (sb_widths fixed) (record {
  opcode = x.opcode;
  param = x.param;
  size = x.size;
  source = x.source;
  sink = x.sink;
  denied = x.denied;
  payload = x.payload;
  corrupt = x.corrupt;
})

unfoldable pub from_tld : TlBundleD → SwitchboardTlBundleD
from_tld d = record {
  opcode = d.opcode % 2 ^ 8;
  param = d.param % 2 ^ 8;
  size = d.size % 2 ^ 8;
  source = d.source % 2 ^ 32;
  sink = d.sink % 2 ^ 32;
  corrupt = d.corrupt % 2 ^ 8;
  denied = d.denied % 2 ^ 8;
  payload = d.payload % 2 ^ 256;
}

-- The four ports, over a sequence of clock edges: `node` has the widths of the rocket-chip node.
module _ {Q : Type 0} (node : Widths) where
  -- The A channel of a client port: packets in, requests to the node out.
  unfoldable pub client_a :
      Widths → ChiselQueue TlBundleA Q → List (Edge ℕ) → Q → List ℕ × List TlBundleA × Q
  client_a fixed = relay (λ d. hold_a node (to_tla fixed (unpack_a d))) (λ x. x)

  -- Its D channel: responses of the node in, packets out.
  unfoldable pub client_d :
      ChiselQueue TlBundleD Q → List (Edge TlBundleD) → Q → List TlBundleD × List ℕ × Q
  client_d = relay (hold_d node) (λ x. pack_d (from_tld x))

  -- The A channel of a manager port: requests of the node in, packets out.
  unfoldable pub manager_a :
      ChiselQueue TlBundleA Q → List (Edge TlBundleA) → Q → List TlBundleA × List ℕ × Q
  manager_a = relay (hold_a node) (λ x. pack_a (from_tla x))

  -- Its D channel: packets in, responses to the node out.
  unfoldable pub manager_d :
      Widths → ChiselQueue TlBundleD Q → List (Edge ℕ) → Q → List ℕ × List TlBundleD × Q
  manager_d fixed = relay (λ d. hold_d node (to_tld fixed (unpack_d d))) (λ x. x)
