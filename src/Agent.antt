-- ===== src/Agent.antt =====
-- `TLAgent` of sb_sim/include/tilelinklib.hpp. A method of the class takes the agent first; one
-- that fills a message takes what the message held before and returns what it holds after.
pub mod Mask
pub mod Config
pub mod Put
pub mod Partial
pub mod PartialLanes
pub mod Refuse
pub mod Respond
pub mod Setup
pub mod Tests
use Prim.Native.String.{String}
use switchboard_adapter.Base.{
  ℕ, ◌*◌, ◌/◌, ◌%◌, ◌^◌, bit_and, Bool, true, not, Option, none, some, List, ltb, leb, ◌==◌,
  if◌then◌else◌,
}
use switchboard_adapter.Base.Result.{
  Result, ok, err, ◌>>=◌, ◌>>◌, check, params_already_set, data_width_exceeds_256,
  data_width_not_byte_aligned, max_transfer_exceeds_4096, params_not_set, lg_size_exceeds_4096,
  lg_size_exceeds_max_transfer, size_exceeds_data_width, address_not_aligned_to_size,
  undefined_behaviour,
}
use switchboard_adapter.Base.Bits.{count_trailing_zeros}
use switchboard_adapter.Base.Words.{u8, u32, sub32, shl32, low_mask, builtin_ctz, memcpy}
use switchboard_adapter.Wire.{
  TlMessageA, TlMessageD, TlBundleParams, opcode_a, opcode_d, put_full_data, put_partial_data,
  get as get_op, access_ack as access_ack_op, access_ack_data as access_ack_data_op,
}

pub record TlAgent : Type 0 where
  pub info : String
  pub p : TlBundleParams
  pub p_set : Bool

-- -1 is `none`.
unfoldable pub first_bit_set_u32 : ℕ → Option ℕ
first_bit_set_u32 v = if v == 0 then none else some (count_trailing_zeros 32 v)

-- The address `&data[i]` of such an index.
unfoldable pub lane : Option ℕ → Result ℕ
lane none = err undefined_behaviour
lane (some i) = ok i

-- The two overloads of `set_TLBundleParams`: for a TL-UL link, and with all parameters given.
unfoldable pub set_ul_params : TlAgent → String → ℕ → ℕ → ℕ → Result TlAgent
unfolding builtin_ctz
set_ul_params a name data_width addr_width src_width = do
  check (not a.p_set) params_already_set
  check (leb data_width 256) data_width_exceeds_256
  check (data_width % 8 == 0) data_width_not_byte_aligned
  lg_beat ← builtin_ctz 32 (data_width / 8)
  ok (record {
    info = name;
    p = record {
      address_bit_width = addr_width;
      source_bit_width = src_width;
      sink_bit_width = 1;
      size_bit_width = u8 lg_beat;
      data_bit_width = data_width;
      max_transfer_bytes = data_width / 8;
    };
    p_set = true;
  })

unfoldable pub set_params : TlAgent → String → TlBundleParams → Result TlAgent
set_params a name params = do
  check (not a.p_set) params_already_set
  check (leb params.data_bit_width 256) data_width_exceeds_256
  check (leb params.max_transfer_bytes 4096) max_transfer_exceeds_4096
  ok (record { info = name; p = params; p_set = true })

unfoldable pub get_params : TlAgent → Result TlBundleParams
get_params a = do check a.p_set params_not_set; ok a.p

-- `alignMask(unalignedMask, lgSize, byteAddress)`.
unfoldable pub align_mask_at : TlBundleParams → ℕ → ℕ → ℕ → Result ℕ
align_mask_at p unaligned_mask lg_size byte_address = do
  let beat_bytes = p.data_bit_width / 8
  let offset = u32 (bit_and byte_address (sub32 beat_bytes 1))
  size ← shl32 1 lg_size
  check (leb size beat_bytes) size_exceeds_data_width
  check (bit_and offset (sub32 size 1) == 0) address_not_aligned_to_size
  let slot_id = offset / 2 ^ lg_size
  shl32 unaligned_mask (u32 (slot_id * size))

-- `alignMask(lgSize, byteAddress)`.
unfoldable pub align_mask : TlAgent → ℕ → ℕ → Result ℕ
align_mask a lg_size byte_address = do
  check a.p_set params_not_set
  size ← shl32 1 lg_size
  let beat_bytes = u8 (a.p.data_bit_width / 8)
  if leb beat_bytes size
      then low_mask beat_bytes
      else low_mask size >>= λ unaligned_mask. align_mask_at a.p unaligned_mask lg_size byte_address

-- The asserts that open `put`, `putPartial`, `get` and `accessAckData`.
unfoldable pub check_transfer : TlAgent → ℕ → Result (Unit {0})
check_transfer a lg_size = do
  check a.p_set params_not_set
  check (leb lg_size 12) lg_size_exceeds_4096
  check (leb (2 ^ lg_size) a.p.max_transfer_bytes) lg_size_exceeds_max_transfer

unfoldable pub put_partial : TlAgent → TlMessageA → ℕ → ℕ → ℕ → ℕ → List ℕ → Result TlMessageA
put_partial a msg from_source to_address lg_size mask bytes = do
  check_transfer a lg_size
  let size = 2 ^ lg_size
  let head = record msg {
    opcode = opcode_a put_partial_data;
    param = 0;
    size = lg_size;
    address = to_address;
    source = from_source;
    corrupt = 0;
  }
  if mask == 0
      then ok (record head { mask = 0 })
      else if leb (a.p.data_bit_width / 8) size
      then (do
        filled ← memcpy msg.payload 0 bytes (a.p.data_bit_width / 8)
        ok (record head { mask = mask; payload = filled }))
      else (do
        aligned ← align_mask_at a.p mask lg_size to_address
        i ← lane (first_bit_set_u32 aligned)
        filled ← memcpy msg.payload i bytes size
        ok (record head { mask = aligned; payload = filled }))

unfoldable pub put : TlAgent → TlMessageA → ℕ → ℕ → ℕ → List ℕ → Result TlMessageA
put a msg from_source to_address lg_size bytes = do
  check_transfer a lg_size
  let beat_bytes = a.p.data_bit_width / 8
  mask ← align_mask a lg_size to_address
  filled ←
      if ltb (2 ^ lg_size) beat_bytes
      then lane (first_bit_set_u32 mask) >>= (λ i. memcpy msg.payload i bytes (2 ^ lg_size))
      else memcpy msg.payload 0 bytes beat_bytes
  ok (record {
    opcode = opcode_a put_full_data;
    param = 0;
    size = lg_size;
    corrupt = 0;
    source = from_source;
    address = to_address;
    mask = mask;
    payload = filled;
  })

unfoldable pub get : TlAgent → TlMessageA → ℕ → ℕ → ℕ → Result TlMessageA
get a msg from_source to_address lg_size = do
  check_transfer a lg_size
  mask ← align_mask a lg_size to_address
  ok (record msg {
    opcode = opcode_a get_op;
    param = 0;
    size = lg_size;
    address = to_address;
    source = from_source;
    mask = mask;
    corrupt = 0;
  })

-- `denied` is a `uint32_t` argument stored in a `uint8_t` field.
unfoldable pub access_ack_data : TlAgent → TlMessageD → ℕ → ℕ → List ℕ → ℕ → Result TlMessageD
access_ack_data a msg to_source lg_size bytes denied = do
  check_transfer a lg_size
  filled ← memcpy msg.payload 0 bytes (a.p.data_bit_width / 8)
  ok (record msg {
    opcode = opcode_d access_ack_data_op;
    param = 0;
    size = lg_size;
    source = to_source;
    sink = 0;
    payload = filled;
    corrupt = 0;
    denied = u8 denied;
  })

unfoldable pub access_ack : TlAgent → TlMessageD → ℕ → ℕ → ℕ → Result TlMessageD
access_ack a msg to_source lg_size denied = do
  check a.p_set params_not_set
  ok (record msg {
    opcode = opcode_d access_ack_op;
    param = 0;
    size = lg_size;
    source = to_source;
    sink = 0;
    corrupt = 0;
    denied = u8 denied;
  })
