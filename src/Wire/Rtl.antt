-- ===== src/Wire/Rtl.antt =====
-- `SwitchboardTLBundleA` and `SwitchboardTLBundleD` of src/main/scala/Bundles.scala: the fields of a
-- message within the 416-bit number that the RTL side of a Switchboard queue handles.
use switchboard_adapter.Base.{ℕ, ◌+◌, ◌-◌, ◌*◌, ◌/◌, ◌%◌, ◌^◌, ◌<◌}

pub record SwitchboardTlBundleA : Type 0 where
  pub opcode : ℕ
  pub param : ℕ
  pub size : ℕ
  pub source : ℕ
  pub address : ℕ
  pub mask : ℕ
  pub corrupt : ℕ
  pub payload : ℕ

pub record SwitchboardTlBundleD : Type 0 where
  pub opcode : ℕ
  pub param : ℕ
  pub size : ℕ
  pub corrupt : ℕ
  pub source : ℕ
  pub sink : ℕ
  pub denied : ℕ
  pub payload : ℕ

-- `high` over the `width` bits of `low`, as `Cat` puts them.
abbrev pub cat : ℕ → ℕ → ℕ → ℕ
cat high width low = high * 2 ^ width + low

-- `d(high, low)`.
abbrev pub bits : ℕ → ℕ → ℕ → ℕ
bits d high low = d / 2 ^ low % 2 ^ (high + 1 - low)

unfoldable pub pack_a : SwitchboardTlBundleA → ℕ
pack_a x =
    let ctrl32 = cat x.corrupt 24 (cat x.size 16 (cat x.param 8 x.opcode)) in
    cat x.payload 160 (cat x.mask 128 (cat x.address 64 (cat x.source 32 ctrl32)))

unfoldable pub unpack_a : ℕ → SwitchboardTlBundleA
unpack_a d = record {
  opcode = bits d 7 0;
  param = bits d 15 8;
  size = bits d 23 16;
  source = bits d 63 32;
  address = bits d 127 64;
  mask = bits d 159 128;
  corrupt = bits d 31 24;
  payload = bits d 415 160;
}

-- The 56 bits above the payload are the zeros of `pad`.
unfoldable pub pack_d : SwitchboardTlBundleD → ℕ
pack_d x =
    let ctrl32 = cat x.corrupt 24 (cat x.size 16 (cat x.param 8 x.opcode)) in
    cat x.payload 104 (cat x.denied 96 (cat x.sink 64 (cat x.source 32 ctrl32)))

unfoldable pub unpack_d : ℕ → SwitchboardTlBundleD
unpack_d d = record {
  opcode = bits d 7 0;
  param = bits d 15 8;
  size = bits d 23 16;
  corrupt = bits d 31 24;
  source = bits d 63 32;
  sink = bits d 95 64;
  denied = bits d 103 96;
  payload = bits d 359 104;
}

-- Each field fits its `UInt`.
pub record FitsA (x : SwitchboardTlBundleA) : Type 0 where
  pub opcode_fits : x.opcode < 2 ^ 8
  pub param_fits : x.param < 2 ^ 8
  pub size_fits : x.size < 2 ^ 8
  pub source_fits : x.source < 2 ^ 32
  pub address_fits : x.address < 2 ^ 64
  pub mask_fits : x.mask < 2 ^ 32
  pub corrupt_fits : x.corrupt < 2 ^ 8
  pub payload_fits : x.payload < 2 ^ 256

pub record FitsD (x : SwitchboardTlBundleD) : Type 0 where
  pub opcode_fits : x.opcode < 2 ^ 8
  pub param_fits : x.param < 2 ^ 8
  pub size_fits : x.size < 2 ^ 8
  pub corrupt_fits : x.corrupt < 2 ^ 8
  pub source_fits : x.source < 2 ^ 32
  pub sink_fits : x.sink < 2 ^ 32
  pub denied_fits : x.denied < 2 ^ 8
  pub payload_fits : x.payload < 2 ^ 256
