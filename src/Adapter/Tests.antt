-- ===== src/Adapter/Tests.antt =====
-- The ports of a node with the widths of src/main/scala/example/TLMem.scala: source identifiers of 4 bits.
use switchboard_adapter.Base.{
  ℕ, ◌≤◌, ◌≡◌, refl, true, false, List, [], ◌∷◌, ◌++◌, map, length, replicate, All-replicate, arith,
}
use switchboard_adapter.Chisel.{Edge, accepts, delivers, relay}
use switchboard_adapter.Chisel.ListQueue.{list_queue, list_queue-IsChiselQueue}
use switchboard_adapter.Wire.Bytes.{le_bytes, from_le}
use switchboard_adapter.Wire.Codec.{encode_a, encode_d}
use switchboard_adapter.Wire.Rtl.{unpack_a, unpack_d}
use switchboard_adapter.Wire.{TlMessageA, TlMessageD, IsByte, IsWireA, IsWireD}
use switchboard_adapter.Adapter.{
  Widths, TlBundleA, TlBundleD, hold_a, hold_d, to_tla, to_tld, sb_widths, client_a, client_d,
  manager_a, manager_d,
}
use switchboard_adapter.Adapter.Fields.{IsValid, FitsNodeA, FitsNodeD, tl_bundle_a, tl_bundle_d}
use switchboard_adapter.Adapter.Reads.{message_of_a, message_of_d}
use switchboard_adapter.Adapter.Through.{loopback_lem}
use switchboard_adapter.Adapter.Ports.{
  wires_a, wires_d, read_a, read_d, client_port_lem, manager_port_lem,
}

abbrev fixed : Widths
fixed = record {
  opcode = 3;
  param_a = 3;
  param_d = 2;
  size = 4;
  source = 32;
  sink = 32;
  address = 64;
  mask = 32;
  payload = 256;
  flag = 1;
}

abbrev node : Widths
node = record fixed { size = 2; source = 4; sink = 1; address = 32; mask = 4; payload = 32 }

node-IsValid : IsValid fixed node
node-IsValid = record {
  payload_le = omega arith;
  mask_le = omega arith;
  address_le = omega arith;
  size_le = omega arith;
  source_le = omega arith;
  sink_le = omega arith;
  opcode_le = omega arith;
  param_a_le = omega arith;
  param_d_le = omega arith;
  flag_le = omega arith;
  opcode_8 = omega arith;
  param_a_8 = omega arith;
  param_d_8 = omega arith;
  flag_8 = omega arith;
}

-- A write with a source that the node has no room for.
abbrev request : TlMessageA
request = record {
  opcode = 0;
  param = 0;
  size = 2;
  corrupt = 0;
  source = 17;
  address = 68;
  mask = 15;
  payload = 1 ∷ replicate 31 2;
}

request-IsWireA : IsWireA request
request-IsWireA = record {
  opcode_fits = omega arith;
  param_fits = omega arith;
  size_fits = omega arith;
  corrupt_fits = omega arith;
  source_fits = omega arith;
  address_fits = omega arith;
  mask_fits = omega arith;
  payload_length = refl;
  payload_bytes = (omega arith, All-replicate IsByte 31 2 (omega arith));
}

abbrev response : TlMessageD
response = record {
  opcode = 0;
  param = 0;
  size = 2;
  corrupt = 0;
  source = 3;
  sink = 0;
  denied = 0;
  payload = replicate 32 7;
  reserved = replicate 7 170;
}

response-IsWireD : IsWireD response
response-IsWireD = record {
  opcode_fits = omega arith;
  param_fits = omega arith;
  size_fits = omega arith;
  corrupt_fits = omega arith;
  source_fits = omega arith;
  sink_fits = omega arith;
  denied_fits = omega arith;
  payload_length = refl;
  payload_bytes = All-replicate IsByte 32 7 (omega arith);
  reserved_length = refl;
  reserved_bytes = All-replicate IsByte 7 170 (omega arith);
}

-- A bundle of each channel that fits the node.
abbrev bundle_a : TlBundleA
bundle_a = record {
  opcode = 4;
  param = 0;
  size = 2;
  source = 9;
  address = 100;
  mask = 15;
  payload = 0;
  corrupt = 0;
}

abbrev bundle_d : TlBundleD
bundle_d = record {
  opcode = 1;
  param = 0;
  size = 2;
  source = 9;
  sink = 0;
  denied = 0;
  payload = 1000;
  corrupt = 0;
}

bundle_a-FitsNodeA : FitsNodeA node bundle_a
bundle_a-FitsNodeA = record {
  opcode_fits = omega arith;
  param_fits = omega arith;
  size_fits = omega arith;
  source_fits = omega arith;
  address_fits = omega arith;
  mask_fits = omega arith;
  payload_fits = omega arith;
  corrupt_fits = omega arith;
}

bundle_d-FitsNodeD : FitsNodeD node bundle_d
bundle_d-FitsNodeD = record {
  opcode_fits = omega arith;
  param_fits = omega arith;
  size_fits = omega arith;
  source_fits = omega arith;
  sink_fits = omega arith;
  denied_fits = omega arith;
  payload_fits = omega arith;
  corrupt_fits = omega arith;
}

-- An element enters, and leaves at the next edge.
abbrev in_out : {P : Type 0} → P → List (Edge P)
in_out p =
    record { in_valid = true; in_bits = p; out_ready = false }
    ∷ record { in_valid = false; in_bits = p; out_ready = true }
    ∷ []

abbrev requests_in : List ℕ × List TlBundleA × List TlBundleA
requests_in = client_a node fixed (list_queue bundle_a 8) (in_out (wires_a request)) []

abbrev responses_out : List TlBundleD × List ℕ × List TlBundleD
responses_out = client_d node (list_queue bundle_d 8) (in_out bundle_d) []

client_port_lem_example :
    ((pending : List TlBundleA) × (map (λ m. hold_a node (tl_bundle_a m)) (request ∷ [])
        ≡ requests_in.1 ++ pending)
      × (length pending ≤ 8))
    × ((pending : List ℕ) × (map message_of_d responses_out.0
          ≡ map read_d (responses_out.1 ++ pending))
        × (length pending ≤ 8))
unfolding list_queue-IsChiselQueue client_a client_d relay accepts hold_d
client_port_lem_example =
    client_port_lem fixed node node-IsValid (list_queue bundle_a 8)
      (list_queue-IsChiselQueue bundle_a 8) (in_out (wires_a request)) [] (request ∷ [])
      (list_queue bundle_d 8) (list_queue-IsChiselQueue bundle_d 8) (in_out bundle_d) [] refl refl
      (request-IsWireA, tt) (bundle_d-FitsNodeD, tt) refl

abbrev requests_out : List TlBundleA × List ℕ × List TlBundleA
requests_out = manager_a node (list_queue bundle_a 8) (in_out bundle_a) []

abbrev responses_in : List ℕ × List TlBundleD × List TlBundleD
responses_in = manager_d node fixed (list_queue bundle_d 8) (in_out (wires_d response)) []

manager_port_lem_example :
    ((pending : List ℕ) × (map message_of_a requests_out.0 ≡ map read_a (requests_out.1 ++ pending))
      × (length pending ≤ 8))
    × ((pending : List TlBundleD) × (map (λ m. hold_d node (tl_bundle_d m)) (response ∷ [])
          ≡ responses_in.1 ++ pending)
        × (length pending ≤ 8))
unfolding list_queue-IsChiselQueue manager_a manager_d relay accepts
manager_port_lem_example =
    manager_port_lem fixed node node-IsValid (list_queue bundle_a 8)
      (list_queue-IsChiselQueue bundle_a 8) (in_out bundle_a) [] (list_queue bundle_d 8)
      (list_queue-IsChiselQueue bundle_d 8) (in_out (wires_d response)) [] (response ∷ []) refl refl
      (bundle_a-FitsNodeA, tt) (response-IsWireD, tt) refl

-- The two ports joined: the request and the response, as the node holds them, pass through.
abbrev manager_side : List TlBundleA × List ℕ × List TlBundleA
manager_side =
    manager_a node (list_queue bundle_a 8) (in_out (hold_a node (tl_bundle_a request))) []

abbrev client_side : List TlBundleD × List ℕ × List TlBundleD
client_side = client_d node (list_queue bundle_d 8) (in_out (hold_d node (tl_bundle_d response))) []

loopback_lem_example :
    ((pending : List TlMessageA) × (map
          (λ m. message_of_a (hold_a node (tl_bundle_a m)))
          (request ∷ [])
        ≡ map read_a manager_side.1 ++ pending)
      × (length pending ≤ 16))
    × ((pending : List TlMessageD) × (map
            (λ m. message_of_d (hold_d node (tl_bundle_d m)))
            (response ∷ [])
          ≡ map read_d client_side.1 ++ pending)
        × (length pending ≤ 16))
unfolding list_queue-IsChiselQueue client_a client_d manager_a manager_d relay accepts delivers
    to_tla to_tld hold_a hold_d sb_widths unpack_a unpack_d from_le le_bytes encode_a encode_d
loopback_lem_example =
    loopback_lem fixed node node-IsValid (list_queue bundle_a 8)
      (list_queue-IsChiselQueue bundle_a 8) (in_out (wires_a request)) [] (list_queue bundle_a 8)
      (list_queue-IsChiselQueue bundle_a 8) (in_out (hold_a node (tl_bundle_a request))) []
      (list_queue bundle_d 8) (list_queue-IsChiselQueue bundle_d 8) (in_out (wires_d response)) []
      (list_queue bundle_d 8) (list_queue-IsChiselQueue bundle_d 8)
      (in_out (hold_d node (tl_bundle_d response))) [] (request ∷ []) (response ∷ []) refl refl refl
      refl (request-IsWireA, tt) (response-IsWireD, tt) refl refl refl refl
