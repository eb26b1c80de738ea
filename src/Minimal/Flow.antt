-- ===== src/Minimal/Flow.antt =====
-- The packets on their way through sb_sim/minimal, from thread to thread, and each step that moves them.
use switchboard_adapter.Base.{
  ℕ, ◌+◌, ◌≤◌, ◌<◌, ◌≡◌, ◌≢◌, sym, ap, subst, ◌⊎◌, inl, inr, [], ◌∷◌, ltb, length, All, All-append,
  length-append, arith, Bool-cases,
}
use switchboard_adapter.Base.Threads.{moved, waiting, returned}
use switchboard_adapter.Chisel.{ChiselQueue, IsChiselQueue}
use switchboard_adapter.Minimal.{
  SwitchboardIfc, SbPacket, Port, Bridge, State, send_thread, recv_thread,
}
use switchboard_adapter.Minimal.Contract.{IsPort, IsBridge}
use switchboard_adapter.Minimal.Threads.{
  IsBuffer, IsSent, IsRaised, IsEcho, send_round_lem, recv_round_lem,
}

module _ {I Q O : Type 0} (tx : Port I) (buf : ChiselQueue SwitchboardIfc Q) (rx : Port O)
    (bridge : Bridge) (sender : IsPort tx) (queue : IsChiselQueue 32 buf) (receiver : IsPort rx)
    (wired : IsBridge bridge) where
  abbrev pub in_flight : State I Q O → ℕ × ℕ × ℕ
  in_flight s = (
    length (sender.contents s.in_port),
    length (queue.contents s.buf),
    length (receiver.contents s.out_port),
  )

  -- What holds once `n` packets have moved.
  pub record Good (n : ℕ) (s : State I Q O) : Type 0 where
    pub buffer : IsBuffer s.txp
    pub inside : All IsSent (sender.contents s.in_port)
    pub raised : All IsRaised (queue.contents s.buf)
    pub echoes : All IsEcho (receiver.contents s.out_port)
    pub at_most_32 : s.sent ≤ 32
    pub entries : length (queue.contents s.buf) ≤ 32
    pub counted :
        s.sent
        ≡ length (sender.contents s.in_port)
          + length (queue.contents s.buf)
          + length (receiver.contents s.out_port)
          + s.received
    pub moves :
        n
        ≡ s.sent
          + (length (queue.contents s.buf) + length (receiver.contents s.out_port) + s.received)
          + (length (receiver.contents s.out_port) + s.received)
          + s.received

  -- The sender goes on, waits at a queue that is not empty, or has returned.
  pub sender_can :
      (n : ℕ) (s : State I Q O)
      → Good n s
      → ((p : SbPacket) × (later : I) × (send_thread tx s.sent s.txp s.in_port ≡ moved (p, later))
          × Good (n + 1) (record s { sent = s.sent + 1; txp = p; in_port = later }))
        ⊎ (((send_thread tx s.sent s.txp s.in_port ≡ waiting) × (sender.contents s.in_port ≢ []))
            ⊎ ((send_thread tx s.sent s.txp s.in_port ≡ returned) × (s.sent ≡ 32)))
  unfolding send_thread
  sender_can n s g = elim (Bool-cases (ltb s.sent 32)) [
    | inr done ↦ inr (inr (rw done, ground (arith, g.at_most_32)))
    | inl left ↦ elim (send_round_lem tx sender s.txp s.in_port g.buffer) [
      | inr (full, some_inside) ↦ inr (inl (rw (left, full), some_inside))
      | inl (p, later, runs, sent, added) ↦ inl (
        p,
        later,
        rw (left, runs),
        record {
          buffer = sent.buffer;
          inside =
              subst (All IsSent) (sym added)
                (All-append IsSent (sender.contents s.in_port) (p ∷ []) g.inside (sent, tt));
          raised = g.raised;
          echoes = g.echoes;
          at_most_32 = ground arith;
          entries = g.entries;
          counted = omega (
            arith,
            g.counted,
            ap length added,
            length-append (sender.contents s.in_port) (p ∷ []),
          );
          moves = omega (arith, g.moves);
        },
      )
    ]
  ]

  -- The receiver goes on, waits at an empty queue, or has returned.
  pub receiver_can :
      (n : ℕ) (s : State I Q O)
      → Good n s
      → ((later : O) × (recv_thread rx s.received s.out_port ≡ moved later)
          × Good (n + 1) (record s { received = s.received + 1; out_port = later }))
        ⊎ (((recv_thread rx s.received s.out_port ≡ waiting)
              × (receiver.contents s.out_port ≡ [])
              × (s.received < 32))
            ⊎ ((recv_thread rx s.received s.out_port ≡ returned) × (s.received ≡ 32)))
  unfolding recv_thread
  receiver_can n s g = elim (Bool-cases (ltb s.received 32)) [
    | inr done ↦ inr (inr (rw done, ground (arith, g.at_most_32, g.counted)))
    | inl left ↦ elim (recv_round_lem rx receiver s.out_port g.echoes) [
      | inr (waits, empty) ↦ inr (inl (rw (left, waits), empty, ground arith))
      | inl (p, later, runs, front) ↦ inl (
        later,
        rw (left, runs),
        record {
          buffer = g.buffer;
          inside = g.inside;
          raised = g.raised;
          echoes = (subst (All IsEcho) front g.echoes).1;
          at_most_32 = g.at_most_32;
          entries = g.entries;
          counted = omega (arith, g.counted, ap length front);
          moves = omega (arith, g.moves, ap length front);
        },
      )
    ]
  ]
