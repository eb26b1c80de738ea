-- ===== src/Minimal.antt =====
-- sb_sim/minimal/client.cc, a thread that sends 32 packets and one that checks 32 answers, and the
-- design between them, src/main/scala/example/Minimal.scala. The Switchboard queues, the bridge of the
-- simulation to the wires of the design, and the `Queue` of the Chisel library are not part of the
-- repository: they are the parameters `Port`, `Bridge` and `ChiselQueue`.
pub mod Contract
pub mod Bytes
pub mod Threads
pub mod Entries
pub mod Flow
pub mod Cycles
pub mod Passes
pub mod Tests
use switchboard_adapter.Base.{
  ℕ, zero, suc, ◌+◌, ◌≡◌, Bool, true, false, Option, none, some, bit_and, List, [], ◌∷◌, map, ltb,
  ◌==◌, if◌then◌else◌, length, get_or,
}
use switchboard_adapter.Base.Result.{
  Result, Error, ok, err, ◌>>=◌, ◌>>◌, check, blocked, undefined_behaviour, wrong_byte,
}
use switchboard_adapter.Base.Threads.{Move, moved, waiting, returned, failed, move}
use switchboard_adapter.Base.Words.{u8, memcpy}
use switchboard_adapter.Chisel.{ChiselQueue}
use switchboard_adapter.Wire.Bytes.{le_bytes, from_le}

-- `sb_packet`.
pub record SbPacket : Type 0 where
  pub destination : ℕ
  pub last : Bool
  pub bytes : List ℕ

-- A queue between two processes: `send` is `none` while there is no room, `recv` while there is no packet.
pub record Port (Q : Type 0) : Type 0 where
  pub send : SbPacket → Q → Option Q
  pub recv : Q → Option (SbPacket × Q)

abbrev pub nbytes : ℕ
nbytes = 32

-- `txp.data[i] = i & 0xff` from `i` on.
unfoldable pub fill : ℕ → ℕ → List ℕ → Result (List ℕ)
fill zero i bytes = ok bytes
fill (suc left) i bytes = do later ← memcpy bytes i (bit_and i 0xff ∷ []) 1; fill left (i + 1) later

unfoldable pub byte_at : List ℕ → ℕ → Result ℕ
byte_at bytes i = if ltb i (length bytes) then ok (get_or bytes i 0) else err undefined_behaviour

-- `assert(rxp.data[i] == ((i & 0xff) + 1))` from `i` on.
unfoldable pub check_bytes : ℕ → ℕ → List ℕ → Result (Unit {0})
check_bytes zero i bytes = ok tt
check_bytes (suc left) i bytes = do
  b ← byte_at bytes i
  check (b == bit_and i 0xff + 1) wrong_byte
  check_bytes left (i + 1) bytes

module _ {Q : Type 0} (port : Port Q) where
  -- `send_blocking`, and one turn of the loop around `recv`.
  unfoldable pub send_blocking : SbPacket → Q → Result Q
  send_blocking p q = elim (port.send p q) [ none ↦ err blocked | some later ↦ ok later ]

  unfoldable pub try_recv : Q → Result (SbPacket × Q)
  try_recv q = elim (port.recv q) [ none ↦ err blocked | some taken ↦ ok taken ]

  -- A round of each thread: the sender's with the packet that it keeps filling.
  unfoldable pub send_round : SbPacket → Q → Result (SbPacket × Q)
  send_round txp q = do
    bytes ← fill nbytes 0 txp.bytes
    later ← send_blocking (record { destination = 0xbeefcafe; last = true; bytes = bytes }) q
    ok (record { destination = 0xbeefcafe; last = true; bytes = bytes }, later)

  unfoldable pub recv_round : Q → Result Q
  recv_round q = do (rxp, later) ← try_recv q; check_bytes nbytes 0 rxp.bytes; ok later

  -- The threads before round `j`.
  unfoldable pub send_thread : ℕ → SbPacket → Q → Move (SbPacket × Q)
  send_thread j txp q = if ltb j 32 then move (send_round txp q) else returned

  unfoldable pub recv_thread : ℕ → Q → Move Q
  recv_thread j q = if ltb j 32 then move (recv_round q) else returned

-- `SwitchboardIfc`: what a queue of the design holds.
pub record SwitchboardIfc : Type 0 where
  pub payload : ℕ
  pub dest : ℕ
  pub last : Bool

-- Each of the low 32 bytes and one, as an 8-bit number.
unfoldable pub increment : ℕ → ℕ
increment d = from_le (map (λ b. u8 (b + 1)) (le_bytes 32 d))

-- The wires of `Minimal`: its outputs, and the state after a clock edge with these inputs.
module _ {Q : Type 0} (buf : ChiselQueue SwitchboardIfc Q) where
  abbrev pub in_ready : Q → Bool
  in_ready q = buf.enq_ready q

  abbrev pub out_valid : Q → Bool
  out_valid q = buf.deq_valid q

  abbrev pub out_bits : Q → SwitchboardIfc
  out_bits q = buf.deq_bits q

  unfoldable pub clock : Bool → SwitchboardIfc → Bool → Q → Q
  clock in_valid in_bits out_ready q =
      buf.clock in_valid (record in_bits { payload = increment in_bits.payload }) out_ready q

-- The bridge between packets and wires.
pub record Bridge : Type 0 where
  pub offered : SbPacket → SwitchboardIfc
  pub delivered : SwitchboardIfc → SbPacket

-- Nothing on the wires.
abbrev pub idle : SwitchboardIfc
idle = record { payload = 0; dest = 0; last = false }

-- The rounds of both threads, the packet of the sender, both queues, and the design between them.
pub record State (I Q O : Type 0) : Type 0 where
  pub sent : ℕ
  pub txp : SbPacket
  pub in_port : I
  pub buf : Q
  pub out_port : O
  pub received : ℕ

module _ {I Q O : Type 0} (tx : Port I) (buf : ChiselQueue SwitchboardIfc Q) (rx : Port O)
    (bridge : Bridge) where
  -- What the bridge offers to the design in a cycle, and the queue behind it if the design takes it.
  abbrev pub Given : State I Q O → Option (SbPacket × I) → Type 0
  Given s none = Unit {0}
  Given s (some (p, later)) = tx.recv s.in_port ≡ some (p, later)

  -- The queue behind the bridge if it takes what the design shows.
  abbrev pub Taken : State I Q O → Option O → Type 0
  Taken s none = Unit {0}
  Taken s (some later) =
      (out_valid buf s.buf ≡ true)
      × (rx.send (bridge.delivered (out_bits buf s.buf)) s.out_port ≡ some later)

  -- The design and both queues after a clock edge, with the packets that went in and out.
  unfoldable pub cycle : State I Q O → Option (SbPacket × I) → Option O → ℕ × State I Q O
  cycle s none none = (0, record s { buf = clock buf false idle false s.buf })
  cycle s none (some out) = (1, record s { buf = clock buf false idle true s.buf; out_port = out })
  cycle s (some (p, later)) none = (
    if in_ready buf s.buf then 1 else 0,
    record s {
      in_port = if in_ready buf s.buf then later else s.in_port;
      buf = clock buf true (bridge.offered p) false s.buf;
    },
  )
  cycle s (some (p, later)) (some out) = (
    1 + (if in_ready buf s.buf then 1 else 0),
    record s {
      in_port = if in_ready buf s.buf then later else s.in_port;
      buf = clock buf true (bridge.offered p) true s.buf;
      out_port = out;
    },
  )

  -- A thread goes on, or the clock of the design ticks; with the number of packets that moved.
  pub data Step (s : State I Q O) : ℕ → State I Q O → Type 0 where
    sends :
        {p : SbPacket} {q : I}
        → send_thread tx s.sent s.txp s.in_port ≡ moved (p, q)
        → Step s 1 (record s { sent = s.sent + 1; txp = p; in_port = q })
    receives :
        {q : O}
        → recv_thread rx s.received s.out_port ≡ moved q
        → Step s 1 (record s { received = s.received + 1; out_port = q })
    ticks :
        (given : Option (SbPacket × I)) (taken : Option O)
        → Given s given
        → Taken s taken
        → Step s (cycle s given taken).0 (cycle s given taken).1

  -- An interleaving, with the number of packets that moved.
  pub data Run (s : State I Q O) : ℕ → State I Q O → Type 0 where
    start : Run s 0 s
    next : {n k : ℕ} {t u : State I Q O} → Run s n t → Step t k u → Run s (n + k) u

  -- An assert fails, or a thread accesses a byte outside its packet.
  pub data Fails (s : State I Q O) : Type 0 where
    sender_fails : {e : Error} → send_thread tx s.sent s.txp s.in_port ≡ failed e → Fails s
    receiver_fails : {e : Error} → recv_thread rx s.received s.out_port ≡ failed e → Fails s
