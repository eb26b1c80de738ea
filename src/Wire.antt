-- ===== src/Wire.antt =====
-- sb_sim/include/tilelinklib.h: the opcodes and the messages of the A and D channels.
-- Every field is a number; `IsWireA` and `IsWireD` say that it fits its C type.
pub mod Bytes
pub mod Codec
pub mod RoundTrip
pub mod Rtl
pub mod Layout
pub mod Tests
use switchboard_adapter.Base.{ℕ, ◌≡◌, ◌<◌, ◌^◌, List, length, All}

pub data TlaOpcode : Type 0 where
  put_full_data put_partial_data arithmetic_data logical_data get hint : TlaOpcode

pub data TldOpcode : Type 0 where
  access_ack access_ack_data hint_ack : TldOpcode

-- The numbers of the enumerators.
abbrev pub opcode_a : TlaOpcode → ℕ
opcode_a put_full_data = 0
opcode_a put_partial_data = 1
opcode_a arithmetic_data = 2
opcode_a logical_data = 3
opcode_a get = 4
opcode_a hint = 5

abbrev pub opcode_d : TldOpcode → ℕ
opcode_d access_ack = 0
opcode_d access_ack_data = 1
opcode_d hint_ack = 2

pub record TlMessageA : Type 0 where
  pub opcode : ℕ
  pub param : ℕ
  pub size : ℕ
  pub corrupt : ℕ
  pub source : ℕ
  pub address : ℕ
  pub mask : ℕ
  pub payload : List ℕ

pub record TlMessageD : Type 0 where
  pub opcode : ℕ
  pub param : ℕ
  pub size : ℕ
  pub corrupt : ℕ
  pub source : ℕ
  pub sink : ℕ
  pub denied : ℕ
  pub payload : List ℕ
  pub reserved : List ℕ

abbrev pub IsByte : ℕ → Type 0
IsByte b = b < 256

pub record IsWireA (m : TlMessageA) : Type 0 where
  pub opcode_fits : m.opcode < 2 ^ 8
  pub param_fits : m.param < 2 ^ 8
  pub size_fits : m.size < 2 ^ 8
  pub corrupt_fits : m.corrupt < 2 ^ 8
  pub source_fits : m.source < 2 ^ 32
  pub address_fits : m.address < 2 ^ 64
  pub mask_fits : m.mask < 2 ^ 32
  pub payload_length : length m.payload ≡ 32
  pub payload_bytes : All IsByte m.payload

pub record IsWireD (m : TlMessageD) : Type 0 where
  pub opcode_fits : m.opcode < 2 ^ 8
  pub param_fits : m.param < 2 ^ 8
  pub size_fits : m.size < 2 ^ 8
  pub corrupt_fits : m.corrupt < 2 ^ 8
  pub source_fits : m.source < 2 ^ 32
  pub sink_fits : m.sink < 2 ^ 32
  pub denied_fits : m.denied < 2 ^ 8
  pub payload_length : length m.payload ≡ 32
  pub payload_bytes : All IsByte m.payload
  pub reserved_length : length m.reserved ≡ 7
  pub reserved_bytes : All IsByte m.reserved

pub record TlBundleParams : Type 0 where
  pub address_bit_width : ℕ
  pub source_bit_width : ℕ
  pub sink_bit_width : ℕ
  pub size_bit_width : ℕ
  pub data_bit_width : ℕ
  pub max_transfer_bytes : ℕ
