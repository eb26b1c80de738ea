-- ===== src/Minimal/Tests.antt =====
-- sb_sim/minimal over ports with room for one packet, and the first packet's way through it.
use native.Mathlib.Nat.{suc-add}
use switchboard_adapter.Base.{
  ◌%◌, ◌/◌, ℕ, ◌+◌, ◌≤◌, ◌<◌, ◌≡◌, ◌≢◌, refl, sym, ◌∙◌, zero, suc, ap, ◌⊎◌, false, Option, none,
  some, List, [], ◌∷◌, ◌++◌, replicate, take, length, get_or, All-replicate, All-take, arith,
  get_or-take, length-take,
}
use switchboard_adapter.Base.Threads.{returned}
use switchboard_adapter.Base.Words.{memcpy}
use switchboard_adapter.Wire.{IsByte}
use switchboard_adapter.Wire.Bytes.{le_bytes, from_le, length-le_bytes, le_bytes-from_le}
use switchboard_adapter.Chisel.ListQueue.{list_queue, list_queue-IsChiselQueue}
use switchboard_adapter.Chisel.{ChiselQueue}
use switchboard_adapter.Minimal.{
  SbPacket, Port, SwitchboardIfc, Bridge, State, idle, cycle, clock, increment, fill, check_bytes,
  byte_at, send_blocking, try_recv, send_round, recv_round, send_thread, recv_thread, Step, sends,
  receives, ticks, Run, start, next, Fails,
}
use switchboard_adapter.Minimal.Contract.{IsPort, IsBridge}
use switchboard_adapter.Minimal.Threads.{IsBuffer}
use switchboard_adapter.Minimal.Passes.{minimal_passes}

-- Room for one packet.
abbrev put : SbPacket → List SbPacket → Option (List SbPacket)
put p [] = some (p ∷ [])
put p (x ∷ xs) = none

abbrev pop : List SbPacket → Option (SbPacket × List SbPacket)
pop [] = none
pop (x ∷ xs) = some (x, xs)

abbrev port : Port (List SbPacket)
port = record { send = put; recv = pop }

port-IsPort : IsPort port
port-IsPort = record {
  contents = λ q. q;
  sent = λ p q later e. sent p q later e;
  no_room = λ p q e. no_room p q e;
  received = λ p q later e. received p q later e;
  no_packet = λ q e. no_packet q e;
}
  where
    sent : (p : SbPacket) (q later : List SbPacket) → put p q ≡ some later → later ≡ q ++ (p ∷ [])
    sent p [] later e = cc
    sent p (x ∷ xs) later e = absurd (cc e)

    no_room : (p : SbPacket) (q : List SbPacket) → put p q ≡ none → q ≢ []
    no_room p [] e = absurd (cc e)
    no_room p (x ∷ xs) e = λ h. cc h

    received : (p : SbPacket) (q later : List SbPacket) → pop q ≡ some (p, later) → q ≡ p ∷ later
    received p [] later e = absurd (cc e)
    received p (x ∷ xs) later e = cc

    no_packet : (q : List SbPacket) → pop q ≡ none → q ≡ []
    no_packet [] e = refl
    no_packet (x ∷ xs) e = absurd (cc e)

abbrev queue : ChiselQueue SwitchboardIfc (List SwitchboardIfc)
queue = list_queue idle 32

-- The packets of the bridge have 52 bytes.
abbrev bridge : Bridge
bridge = record {
  offered =
      λ p. record { payload = from_le (take 32 p.bytes); dest = p.destination; last = p.last };
  delivered = λ x. record { destination = x.dest; last = x.last; bytes = le_bytes 52 x.payload };
}

le_bytes-take : (m n v : ℕ) → take m (le_bytes (m + n) v) ≡ le_bytes m v
unfolding le_bytes
le_bytes-take zero n v = refl
le_bytes-take (suc m) n v = rw (suc-add m n) (ap (◌∷◌ (v % 256)) (le_bytes-take m n (v / 256)))

bridge-IsBridge : IsBridge bridge
bridge-IsBridge = record {
  offers = λ p i long bytes h.
      ap (λ t. get_or t i 0)
        (le_bytes-from_le 32 (take 32 p.bytes) (omega (arith, length-take 32 p.bytes))
          (All-take IsByte 32 p.bytes bytes))
      ∙ get_or-take 32 p.bytes i 0 h;
  delivers = λ x i h.
      sym (get_or-take 32 (le_bytes 52 x.payload) i 0 h)
      ∙ ap (λ t. get_or t i 0) (le_bytes-take 32 20 x.payload);
  delivers_32 = λ x. omega (arith, length-le_bytes 52 x.payload);
}

abbrev buffer : SbPacket
buffer = record { destination = 0; last = false; bytes = replicate 52 170 }

buffer-IsBuffer : IsBuffer buffer
buffer-IsBuffer = record {
  at_least_32 = omega arith;
  all_bytes = All-replicate IsByte 52 170 (omega arith);
}

abbrev initial : State (List SbPacket) (List SwitchboardIfc) (List SbPacket)
initial = record { sent = 0; txp = buffer; in_port = []; buf = []; out_port = []; received = 0 }

-- The sender sends, the design takes the packet and gives it to the bridge, and the receiver checks it.
one_packet :
    (s : State (List SbPacket) (List SwitchboardIfc) (List SbPacket)) × Run port queue port bridge
      initial 4 s
unfolding send_thread send_round send_blocking recv_thread recv_round try_recv fill memcpy
    check_bytes byte_at cycle clock increment from_le le_bytes
one_packet = (
  _,
  next
      (next (next (next start (sends refl)) (ticks (some (_, [])) none refl tt))
        (ticks none (some _) tt (refl, refl)))
      (receives refl),
)

abbrev moves : ℕ
moves = 4

minimal_passes_example :
    (¬ Fails port queue port bridge one_packet.0)
    × (length one_packet.0.buf ≤ 32)
    × (((moves ≡ 128)
          × (send_thread port one_packet.0.sent one_packet.0.txp one_packet.0.in_port ≡ returned)
          × (recv_thread port one_packet.0.received one_packet.0.out_port ≡ returned))
        ⊎ ((k : ℕ) × (t : State (List SbPacket) (List SwitchboardIfc) (List SbPacket)) × Step port
              queue port bridge one_packet.0 k t
            × (0 < k)
            × (moves + k ≤ 128)))
unfolding port-IsPort list_queue-IsChiselQueue
minimal_passes_example =
    minimal_passes port queue port bridge port-IsPort (list_queue-IsChiselQueue idle 32) port-IsPort
      bridge-IsBridge buffer [] [] [] moves one_packet.0 buffer-IsBuffer refl refl refl one_packet.1
