-- ===== src/Loopback/Moves.antt =====
-- What each thread of sb_sim/tlloopback/client.cc does at each place, and what the design between them
-- makes of the packets.
use native.Mathlib.Nat.{mod-eq_of_lt, mod-le}
use switchboard_adapter.Base.{
  ℕ, ◌%◌, ◌^◌, ◌<◌, ◌≡◌, refl, ap, ◌∙◌, none, some, List, [], ◌∷◌, length, length-drop, drop, All,
  All-append, All-drop, All-replicate, arith,
}
use switchboard_adapter.Base.Result.{ok}
use switchboard_adapter.Base.Bits.{pow-pos}
use switchboard_adapter.Wire.{TlMessageA, TlMessageD, IsByte, IsWireA, IsWireD}
use switchboard_adapter.Wire.Bytes.{length-le_bytes, All-le_bytes}
use switchboard_adapter.Wire.Codec.{encode_a, decode_a, encode_d, decode_d}
use switchboard_adapter.Wire.RoundTrip.{decode_a-encode_a, decode_d-encode_d}
use switchboard_adapter.Agent.{TlAgent}
use switchboard_adapter.Agent.Mask.{IsBeat}
use switchboard_adapter.Client.{Link, send_a, send_d}
use switchboard_adapter.Client.Receive.{recv_a-encode_a, recv_d-encode_d, recv_a-none, recv_d-none}
use switchboard_adapter.Print.{print_a}
use switchboard_adapter.Print.Messages.{print_a-ok, print_d-ok}
use switchboard_adapter.Adapter.{Widths, hold_a, hold_d}
use switchboard_adapter.Adapter.Fields.{tl_bundle_a, tl_bundle_d}
use switchboard_adapter.Adapter.Reads.{message_of_a, message_of_d}
use switchboard_adapter.Base.Threads.{Move, moved, waiting}
use switchboard_adapter.Loopback.{
  request, response, Place, first, second, third, finish, client_thread, manager_thread,
}
use switchboard_adapter.Loopback.Contract.{through_a, through_d}

-- What the stack may hold where the threads declare their messages.
pub record IsFresh (stack_a : TlMessageA) (stack_d : TlMessageD) : Type 0 where
  pub a_length : length stack_a.payload ≡ 32
  pub a_bytes : All IsByte stack_a.payload
  pub d_length : length stack_d.payload ≡ 32
  pub d_bytes : All IsByte stack_d.payload
  pub reserved_length : length stack_d.reserved ≡ 7
  pub reserved_bytes : All IsByte stack_d.reserved

abbrev first_bytes : List ℕ
first_bytes = 0 ∷ 1 ∷ 2 ∷ 3 ∷ 4 ∷ 5 ∷ 6 ∷ 7 ∷ []

first_bytes-All : All IsByte first_bytes
first_bytes-All = ground arith

module _ (stack_a : TlMessageA) (stack_d : TlMessageD) (fresh : IsFresh stack_a stack_d) where
  pub request-IsWireA : IsWireA (request stack_a)
  request-IsWireA = record {
    opcode_fits = omega arith;
    param_fits = omega arith;
    size_fits = omega arith;
    corrupt_fits = omega arith;
    source_fits = omega arith;
    address_fits = omega arith;
    mask_fits = omega arith;
    payload_length = omega (arith, length-drop 8 stack_a.payload, fresh.a_length);
    payload_bytes =
        All-append IsByte first_bytes (drop 8 stack_a.payload) first_bytes-All
          (All-drop IsByte 8 stack_a.payload fresh.a_bytes);
  }

  pub response-IsWireD :
      (tl_a : TlMessageA) → tl_a.source < 2 ^ 32 → IsWireD (response stack_d tl_a)
  response-IsWireD tl_a h = record {
    opcode_fits = omega arith;
    param_fits = omega arith;
    size_fits = omega arith;
    corrupt_fits = omega arith;
    source_fits = h;
    sink_fits = omega arith;
    denied_fits = omega arith;
    payload_length = fresh.d_length;
    payload_bytes = fresh.d_bytes;
    reserved_length = fresh.reserved_length;
    reserved_bytes = fresh.reserved_bytes;
  }

-- A request that passes the manager's asserts, and a response that passes the client's.
abbrev pub IsGranted : List ℕ → Type 0
IsGranted p = (m : TlMessageA) × IsWireA m × (m.opcode ≡ 0) × (m.corrupt ≡ 0) × (p ≡ encode_a m)

abbrev pub IsAnswer : List ℕ → Type 0
IsAnswer p = (d : TlMessageD) × IsWireD d × (d.opcode ≡ 0) × (d.denied ≡ 0) × (p ≡ encode_d d)

-- The fields that are tested are 0, and stay so in any node.
module _ (node : Widths) where
  held_zero : (v w : ℕ) → v ≡ 0 → v % 2 ^ w ≡ 0
  held_zero v w z = rw z (mod-eq_of_lt (pow-pos w))

  held_small : (v w bound : ℕ) → v < bound → v % 2 ^ w < bound
  held_small v w bound h = omega (arith, mod-le v (2 ^ w), h)

  pub through_a-IsGranted : (p : List ℕ) → IsGranted p → IsGranted (through_a node p)
  unfolding hold_a
  through_a-IsGranted p (m, wire, put, clean, same) = (
    message_of_a (hold_a node (tl_bundle_a m)),
    record {
      opcode_fits = held_small m.opcode node.opcode _ wire.opcode_fits;
      param_fits = held_small m.param node.param_a _ wire.param_fits;
      size_fits = held_small m.size node.size _ wire.size_fits;
      corrupt_fits = held_small m.corrupt node.flag _ wire.corrupt_fits;
      source_fits = held_small m.source node.source _ wire.source_fits;
      address_fits = held_small m.address node.address _ wire.address_fits;
      mask_fits = held_small m.mask node.mask _ wire.mask_fits;
      payload_length = length-le_bytes 32 _;
      payload_bytes = All-le_bytes 32 _;
    },
    held_zero m.opcode node.opcode put,
    held_zero m.corrupt node.flag clean,
    ap (λ q. encode_a (message_of_a (hold_a node (tl_bundle_a q))))
        (ap decode_a same ∙ decode_a-encode_a m wire),
  )

  pub through_d-IsAnswer : (p : List ℕ) → IsAnswer p → IsAnswer (through_d node p)
  unfolding hold_d
  through_d-IsAnswer p (d, wire, ack, granted, same) = (
    message_of_d (hold_d node (tl_bundle_d d)),
    record {
      opcode_fits = held_small d.opcode node.opcode _ wire.opcode_fits;
      param_fits = held_small d.param node.param_d _ wire.param_fits;
      size_fits = held_small d.size node.size _ wire.size_fits;
      corrupt_fits = held_small d.corrupt node.flag _ wire.corrupt_fits;
      source_fits = held_small d.source node.source _ wire.source_fits;
      sink_fits = held_small d.sink node.sink _ wire.sink_fits;
      denied_fits = held_small d.denied node.flag _ wire.denied_fits;
      payload_length = length-le_bytes 32 _;
      payload_bytes = All-le_bytes 32 _;
      reserved_length = refl;
      reserved_bytes = All-replicate IsByte 7 0 (omega arith);
    },
    held_zero d.opcode node.opcode ack,
    held_zero d.denied node.flag granted,
    ap (λ q. encode_d (message_of_d (hold_d node (tl_bundle_d q))))
        (ap decode_d same ∙ decode_d-encode_d d wire),
  )

module _ {W : Type 0} (client manager : Link W) (k : ℕ) (agent : TlAgent) (beat : IsBeat k agent.p)
    (stack_a : TlMessageA) (stack_d : TlMessageD) (fresh : IsFresh stack_a stack_d) where
  abbrev client_does : Place → W → Move (Place × W)
  client_does = client_thread client manager agent stack_a stack_d

  abbrev manager_does : Place → TlMessageA → W → Move (Place × TlMessageA × W)
  manager_does = manager_thread client manager agent stack_a stack_d

  abbrev asked : TlMessageA
  asked = request stack_a

  pub asked-IsGranted : IsGranted (encode_a asked)
  asked-IsGranted = (asked, request-IsWireA stack_a stack_d fresh, refl, refl, refl)

  pub response-IsAnswer :
      (last : TlMessageA) → last.source < 2 ^ 32 → IsAnswer (encode_d (response stack_d last))
  response-IsAnswer last h =
      (response stack_d last, response-IsWireD stack_a stack_d fresh last h, refl, refl, refl)

  line_a : (line : List ℕ) × (print_a agent asked ≡ ok line)
  line_a =
      let wire = request-IsWireA stack_a stack_d fresh in
      print_a-ok k agent asked beat wire.payload_length wire.payload_bytes

  pub client_sends :
      (w : W)
      → (client_does first w ≡ moved (second, send_a client asked w))
        × (client_does second w ≡ moved (third, send_a client asked w))
  unfolding client_thread
  client_sends w = (refl, rw line_a.1)

  pub client_receives :
      (p : List ℕ) (w later : W)
      → client.recv w ≡ some (p, later)
      → IsAnswer p
      → client_does third w ≡ moved (finish, later)
  unfolding client_thread
  client_receives p w later e (d, wire, ack, granted, same) =
      let line_d = print_d-ok k agent d beat wire.payload_length wire.payload_bytes in
      rw (
        line_a.1,
        recv_d-encode_d client w later d (e ∙ ap (λ q. some (q, later)) same) wire,
        line_d.1,
        ack,
        granted,
      )

  pub client_waits : (w : W) → client.recv w ≡ none → client_does third w ≡ waiting
  unfolding client_thread
  client_waits w e = rw (line_a.1, recv_d-none client w e)

  pub manager_receives :
      (last : TlMessageA) (p : List ℕ) (w later : W)
      → manager.recv w ≡ some (p, later)
      → IsGranted p
      → (tl_a : TlMessageA) × (tl_a.source < 2 ^ 32)
        × (manager_does first last w ≡ moved (second, tl_a, later))
        × (manager_does second last w ≡ moved (third, tl_a, later))
  unfolding manager_thread
  manager_receives last p w later e (m, wire, put, clean, same) =
      let takes = recv_a-encode_a manager w later m (e ∙ ap (λ q. some (q, later)) same) wire in
      (m, wire.source_fits, rw (takes, put, clean), rw (takes, put, clean))

  pub manager_waits :
      (last : TlMessageA) (w : W)
      → manager.recv w ≡ none
      → (manager_does first last w ≡ waiting) × (manager_does second last w ≡ waiting)
  unfolding manager_thread
  manager_waits last w e = (rw (recv_a-none manager w e), rw (recv_a-none manager w e))

  pub manager_sends :
      (last : TlMessageA) (w : W)
      → manager_does third last w ≡ moved (finish, last, send_d manager (response stack_d last) w)
  unfolding manager_thread
  manager_sends last w = refl
