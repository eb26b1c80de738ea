-- ===== src/Print/Tests.antt =====
-- Texts of a request and of a response on a link with beats of 8 bytes.
use switchboard_adapter.Base.{
  ℕ, ◌+◌, ◌*◌, ◌^◌, ◌≡◌, ◌≢◌, ◌%◌, ◌⊎◌, refl, none, some, List, length, take, replicate,
  All-replicate, arith,
}
use switchboard_adapter.Base.Result.{ok, err, print_width_not_bytes, print_width_not_pow2}
use switchboard_adapter.Print.Widths.{data_to_bytes_cases}
use switchboard_adapter.Wire.{TlMessageA, TlMessageD, TlBundleParams, IsByte, IsWireA, IsWireD}
use switchboard_adapter.Agent.Mask.{IsBeat}
use switchboard_adapter.Print.{
  codes, get_opcode_a_str, digits_text, bytes_text, data_to_bytes, tl_a_to_str, tl_d_to_str,
}
use switchboard_adapter.Print.Numbers.{then_some}
use switchboard_adapter.Print.Bytes.{read_bytes, data_to_bytes_lem}
use switchboard_adapter.Print.Messages.{ShowsA, ShowsD, messages_text_lem}

abbrev params : TlBundleParams
params = record {
  address_bit_width = 64;
  source_bit_width = 32;
  sink_bit_width = 32;
  size_bit_width = 4;
  data_bit_width = 64;
  max_transfer_bytes = 32;
}

abbrev request : TlMessageA
request = record {
  opcode = 4;
  param = 0;
  size = 3;
  corrupt = 0;
  source = 258;
  address = 0xbeef0;
  mask = 255;
  payload = replicate 32 171;
}

abbrev response : TlMessageD
response = record {
  opcode = 1;
  param = 0;
  size = 3;
  corrupt = 0;
  source = 258;
  sink = 0;
  denied = 1;
  payload = replicate 32 18;
  reserved = replicate 7 0;
}

params-IsBeat : IsBeat 3 params
params-IsBeat = record { width = refl; at_most_32 = omega arith }

request-IsWireA : IsWireA request
request-IsWireA = record {
  opcode_fits = omega arith;
  param_fits = omega arith;
  size_fits = omega arith;
  corrupt_fits = omega arith;
  source_fits = omega arith;
  address_fits = omega arith;
  mask_fits = omega arith;
  payload_length = refl;
  payload_bytes = All-replicate IsByte 32 171 (omega arith);
}

response-IsWireD : IsWireD response
response-IsWireD = record {
  opcode_fits = omega arith;
  param_fits = omega arith;
  size_fits = omega arith;
  corrupt_fits = omega arith;
  source_fits = omega arith;
  sink_fits = omega arith;
  denied_fits = omega arith;
  payload_length = refl;
  payload_bytes = All-replicate IsByte 32 18 (omega arith);
  reserved_length = refl;
  reserved_bytes = All-replicate IsByte 7 0 (omega arith);
}

data_to_bytes_lem_example :
    (text : List ℕ) × (data_to_bytes request.payload (8 * 2 ^ 2) ≡ ok text)
    × (length text ≡ 3 * 2 ^ 2 + 1)
    × (read_bytes text ≡ some (take (2 ^ 2) request.payload))
data_to_bytes_lem_example =
    data_to_bytes_lem 2 request.payload (omega arith) (All-replicate IsByte 32 171 (omega arith))

-- A width of three bytes.
data_to_bytes_cases_example :
    ((k : ℕ) × (24 ≡ 8 * 2 ^ k) × (text : List ℕ) × (data_to_bytes request.payload 24 ≡ ok text))
    ⊎ (((24 % 8 ≢ 0) × (data_to_bytes request.payload 24 ≡ err print_width_not_bytes))
        ⊎ ((24 % 8 ≡ 0)
            × ((k : ℕ) → 24 ≢ 8 * 2 ^ k)
            × (data_to_bytes request.payload 24 ≡ err print_width_not_pow2)))
data_to_bytes_cases_example =
    data_to_bytes_cases request.payload 24 (omega arith) (All-replicate IsByte 32 171 (omega arith))

-- Padding with a space is refused, as is an open end.
padded_refused : read_bytes (codes "[ b 12]") ≡ none
unfolding then_some
padded_refused = refl

open_refused : read_bytes (codes "[0b 12 ]") ≡ none
unfolding then_some
open_refused = refl

messages_text_lem_example :
    ((text : List ℕ) × (tl_a_to_str request params ≡ ok text) × ShowsA 3 request text)
    × ((text : List ℕ) × (tl_d_to_str response params ≡ ok text) × ShowsD 3 response text)
messages_text_lem_example =
    messages_text_lem 3 request response params params-IsBeat request-IsWireA response-IsWireD

-- The text of the request.
request_text :
    tl_a_to_str request params
    ≡ ok (
        codes
          "TL-A[op=Get, param=0, size=3, source=258, corrupt=0, addr=0xbeef0, mask=0xff, data=[ab ab ab ab ab ab ab ab]]")
unfolding tl_a_to_str get_opcode_a_str digits_text bytes_text data_to_bytes
request_text = refl
