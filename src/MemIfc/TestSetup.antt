-- ===== src/MemIfc/TestSetup.antt =====
-- An adapter, a memory and buffers for the tests, with beats of 8 bytes.
use switchboard_adapter.Base.{
  ℕ, ◌^◌, ◌≤◌, refl, true, List, [], ◌∷◌, All, All-replicate, replicate, arith,
}
use switchboard_adapter.Wire.{TlMessageA, TlBundleParams, IsByte}
use switchboard_adapter.Agent.Mask.{IsBeat}
use switchboard_adapter.MemIfc.{ClientTlMemIfc}
use switchboard_adapter.MemIfc.Memory.{IsMemory, idle}
use switchboard_adapter.MemIfc.Ready.{IsReady, IsStack}
use switchboard_adapter.MemIfc.Ram.{Ram, ram_link, ram-IsMemory}

abbrev pub test_params : TlBundleParams
test_params = record {
  address_bit_width = 64;
  source_bit_width = 32;
  sink_bit_width = 32;
  size_bit_width = 4;
  data_bit_width = 64;
  max_transfer_bytes = 32;
}

abbrev pub test_ifc : ClientTlMemIfc
test_ifc = record {
  tl_agent = record { info = "test"; p = test_params; p_set = true };
  tl_params = test_params;
}

abbrev pub test_stack : TlMessageA
test_stack = record {
  opcode = 7;
  param = 7;
  size = 7;
  corrupt = 7;
  source = 7;
  address = 7;
  mask = 7;
  payload = replicate 32 170;
}

abbrev pub test_ram : Ram
test_ram = record { state = idle; store = λ x. x }

abbrev pub test_bytes : List ℕ
test_bytes =
    1 ∷ 2 ∷ 3 ∷ 4 ∷ 5 ∷ 6 ∷ 7 ∷ 8 ∷ 9 ∷ 10 ∷ 11 ∷ 12 ∷ 13 ∷ 14 ∷ 15 ∷ 16 ∷ 17 ∷ 18 ∷ 19 ∷ 20 ∷ 21
    ∷ 22 ∷ 23 ∷ 24 ∷ []

pub eight_fits : 2 ^ 3 ≤ 32
eight_fits = omega arith

abbrev pub test_memory : IsMemory (ram_link 3) 3 4096
test_memory = ram-IsMemory 3 4096 eight_fits

pub test-capacity : 4096 ≤ 2 ^ 64
test-capacity = omega arith

pub test_params-IsBeat : IsBeat 3 test_params
test_params-IsBeat = record { width = refl; at_most_32 = omega arith }

pub test_ifc-IsReady : IsReady 3 test_ifc
test_ifc-IsReady = record {
  configured = record { is_set = refl; beat = test_params-IsBeat };
  cached = refl;
  max_le = omega arith;
}

pub test_stack-IsStack : IsStack test_stack
test_stack-IsStack = record {
  payload_length = refl;
  payload_bytes = All-replicate IsByte 32 170 (omega arith);
}

pub test_bytes-All : All IsByte test_bytes
test_bytes-All = ground arith
