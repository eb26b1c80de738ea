-- ===== src/Client/Tests.antt =====
-- Messages over the queues of Client.Network.
use switchboard_adapter.Base.{ℕ, ◌^◌, ◌<◌, ◌≡◌, refl, [], ◌∷◌, All-replicate, replicate, arith}
use switchboard_adapter.Base.Result.{ok}
use switchboard_adapter.Wire.{TlMessageA, TlMessageD, IsByte, IsWireA, IsWireD}
use switchboard_adapter.Client.{send_a, recv_a, send_d, recv_d}
use switchboard_adapter.Client.Order.{send_each, receive_each, requests_arrive, responses_arrive}
use switchboard_adapter.Client.Network.{Queues, client_link, manager_link, queues-IsNetwork}

abbrev request : ℕ → TlMessageA
request address = record {
  opcode = 4;
  param = 0;
  size = 3;
  corrupt = 0;
  source = 5;
  address = address;
  mask = 255;
  payload = replicate 32 9;
}

abbrev response : ℕ → TlMessageD
response source = record {
  opcode = 1;
  param = 0;
  size = 3;
  corrupt = 0;
  source = source;
  sink = 0;
  denied = 0;
  payload = replicate 32 7;
  reserved = replicate 7 1;
}

request-IsWireA : (address : ℕ) → address < 2 ^ 64 → IsWireA (request address)
request-IsWireA address h = record {
  opcode_fits = omega arith;
  param_fits = omega arith;
  size_fits = omega arith;
  corrupt_fits = omega arith;
  source_fits = omega arith;
  address_fits = h;
  mask_fits = omega arith;
  payload_length = refl;
  payload_bytes = All-replicate IsByte 32 9 (omega arith);
}

response-IsWireD : (source : ℕ) → source < 2 ^ 32 → IsWireD (response source)
response-IsWireD source h = record {
  opcode_fits = omega arith;
  param_fits = omega arith;
  size_fits = omega arith;
  corrupt_fits = omega arith;
  source_fits = h;
  sink_fits = omega arith;
  denied_fits = omega arith;
  payload_length = refl;
  payload_bytes = All-replicate IsByte 32 7 (omega arith);
  reserved_length = refl;
  reserved_bytes = All-replicate IsByte 7 1 (omega arith);
}

abbrev empty : Queues
empty = record { requests = []; responses = [] }

requests_arrive_example :
    (later : Queues) × (receive_each
        (recv_a manager_link)
        2
        (send_each (send_a client_link) (request 64 ∷ request 8 ∷ []) empty)
      ≡ ok (request 64 ∷ request 8 ∷ [], later))
    × (later.requests ≡ [])
    × (later.responses ≡ [])
requests_arrive_example =
    requests_arrive client_link manager_link queues-IsNetwork (request 64 ∷ request 8 ∷ []) empty
      (request-IsWireA 64 (omega arith), (request-IsWireA 8 (omega arith), tt)) refl

responses_arrive_example :
    (later : Queues) × (receive_each
        (recv_d client_link)
        2
        (send_each (send_d manager_link) (response 3 ∷ response 1 ∷ []) empty)
      ≡ ok (response 3 ∷ response 1 ∷ [], later))
    × (later.responses ≡ [])
    × (later.requests ≡ [])
responses_arrive_example =
    responses_arrive client_link manager_link queues-IsNetwork (response 3 ∷ response 1 ∷ []) empty
      (response-IsWireD 3 (omega arith), (response-IsWireD 1 (omega arith), tt)) refl
