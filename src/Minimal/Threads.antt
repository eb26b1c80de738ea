-- ===== src/Minimal/Threads.antt =====
-- A round of each thread of sb_sim/minimal/client.cc.
use switchboard_adapter.Base.{
  ℕ, ◌+◌, ◌≤◌, ◌<◌, ◌≡◌, ◌≢◌, ◌∙◌, ◌⊎◌, inl, inr, true, none, some, bit_and, [], ◌∷◌, ◌++◌, length,
  get_or, All, arith, subst, Option-cases,
}
use switchboard_adapter.Base.Result.{ok, err, blocked}
use switchboard_adapter.Wire.{IsByte}
use switchboard_adapter.Wire.Bytes.{le_bytes}
use switchboard_adapter.Minimal.{
  SbPacket, Port, SwitchboardIfc, Bridge, send_blocking, try_recv, send_round, recv_round,
  increment,
}
use switchboard_adapter.Minimal.Contract.{IsPort, IsBridge}
use switchboard_adapter.Minimal.Bytes.{low_byte, fill_lem, check_bytes_lem, increment_lem}

-- A packet that the sender may fill.
pub record IsBuffer (p : SbPacket) : Type 0 where
  pub at_least_32 : 32 ≤ length p.bytes
  pub all_bytes : All IsByte p.bytes

-- A packet of the sender, the wires of such a packet behind the adders, and the packet of those.
pub record IsSent (p : SbPacket) : Type 0 where
  pub buffer : IsBuffer p
  pub at_index : (i : ℕ) → i < 32 → get_or p.bytes i 0 ≡ bit_and i 0xff

abbrev pub IsRaised : SwitchboardIfc → Type 0
IsRaised x = (i : ℕ) → i < 32 → get_or (le_bytes 32 x.payload) i 0 ≡ bit_and i 0xff + 1

pub record IsEcho (p : SbPacket) : Type 0 where
  pub at_least_32 : 32 ≤ length p.bytes
  pub at_index : (i : ℕ) → i < 32 → get_or p.bytes i 0 ≡ bit_and i 0xff + 1

module _ {Q : Type 0} (port : Port Q) (fifo : IsPort port) where
  open fifo use {contents}

  blocking_waits :
      (p : SbPacket) (q : Q) → port.send p q ≡ none → send_blocking port p q ≡ err blocked
  unfolding send_blocking
  blocking_waits p q e = rw (e, send_blocking)

  blocking_sends :
      (p : SbPacket) (q later : Q) → port.send p q ≡ some later → send_blocking port p q ≡ ok later
  unfolding send_blocking
  blocking_sends p q later e = rw (e, send_blocking)

  try_waits : (q : Q) → port.recv q ≡ none → try_recv port q ≡ err blocked
  unfolding try_recv
  try_waits q e = rw (e, try_recv)

  try_takes :
      (p : SbPacket) (q later : Q) → port.recv q ≡ some (p, later) → try_recv port q ≡ ok (p, later)
  unfolding try_recv
  try_takes p q later e = rw (e, try_recv)

  pub send_round_lem :
      (txp : SbPacket) (q : Q)
      → IsBuffer txp
      → ((p : SbPacket) × (later : Q) × (send_round port txp q ≡ ok (p, later))
          × IsSent p
          × (contents later ≡ contents q ++ (p ∷ [])))
        ⊎ ((send_round port txp q ≡ err blocked) × (contents q ≢ []))
  unfolding send_round
  send_round_lem txp q room =
      let (filled, runs, rest) =
        fill_lem 32 0 txp.bytes (omega (arith, room.at_least_32)) room.all_bytes in
      let p : SbPacket = record { destination = 0xbeefcafe; last = true; bytes = filled } in
      elim (Option-cases (port.send p q)) [
        | inl full ↦ inr (rw (runs, blocking_waits p q full), fifo.no_room p q full)
        | inr (later, sent) ↦ inl (
          p,
          later,
          rw (runs, blocking_sends p q later sent),
          record {
            buffer = record {
              at_least_32 = omega (arith, rest.same_length, room.at_least_32);
              all_bytes = rest.all_bytes;
            };
            at_index = λ i h. rest.at_index i ∙ ground arith;
          },
          fifo.sent p q later sent,
        )
      ]

  pub recv_round_lem :
      (q : Q)
      → All IsEcho (contents q)
      → ((p : SbPacket) × (later : Q) × (recv_round port q ≡ ok later)
          × (contents q ≡ p ∷ contents later))
        ⊎ ((recv_round port q ≡ err blocked) × (contents q ≡ []))
  unfolding recv_round
  recv_round_lem q echoes = elim (Option-cases (port.recv q)) [
    | inl empty ↦ inr (rw (try_waits q empty), fifo.no_packet q empty)
    | inr ((p, later), taken) ↦
        let front : contents q ≡ p ∷ contents later = fifo.received p q later taken in
        let echo : All IsEcho (p ∷ contents later) = subst (All IsEcho) front echoes in
        inl (
          p,
          later,
          rw (
            try_takes p q later taken,
            check_bytes_lem 32 0 p.bytes (omega (arith, echo.0.at_least_32))
                (λ j h. echo.0.at_index j (omega arith)),
          ),
          front,
        )
  ]

-- What the wires of a sent packet hold behind the adders, and the packet of such wires.
module _ (bridge : Bridge) (wired : IsBridge bridge) where
  pub offered-IsRaised :
      (p : SbPacket)
      → IsSent p
      → IsRaised (record (bridge.offered p) { payload = increment (bridge.offered p).payload })
  offered-IsRaised p s = λ i h. omega (
    arith,
    increment_lem (bridge.offered p).payload i h,
    wired.offers p i s.buffer.at_least_32 s.buffer.all_bytes h,
    s.at_index i h,
    low_byte i,
  )

  pub delivered-IsEcho : (x : SwitchboardIfc) → IsRaised x → IsEcho (bridge.delivered x)
  delivered-IsEcho x raised = record {
    at_least_32 = wired.delivers_32 x;
    at_index = λ i h. wired.delivers x i h ∙ raised i h;
  }
