-- ===== src/Minimal/Passes.antt =====
-- Every interleaving of the threads of sb_sim/minimal/client.cc and the clock of its design.
use switchboard_adapter.Base.{
  ℕ, ◌+◌, ◌≤◌, ◌<◌, ◌≡◌, refl, sym, ◌∙◌, ap, subst, ◌⊎◌, inl, inr, none, some, List, [], ◌∷◌, ltb,
  length, All, arith, Bool-cases, Option-cases,
}
use switchboard_adapter.Base.Threads.{returned, moved-injective}
use switchboard_adapter.Chisel.{ChiselQueue, IsChiselQueue}
use switchboard_adapter.Minimal.{
  SwitchboardIfc, SbPacket, Port, Bridge, State, cycle, send_thread, recv_thread, Step, sends,
  receives, ticks, Run, start, next, Fails, sender_fails, receiver_fails,
}
use switchboard_adapter.Minimal.Contract.{IsPort, IsBridge}
use switchboard_adapter.Minimal.Threads.{IsBuffer, IsSent, IsRaised, IsEcho}
use switchboard_adapter.Minimal.Flow.{Good, sender_can, receiver_can}
use switchboard_adapter.Minimal.Cycles.{cycle-Good}

length-zero : {A : Type 0} (xs : List A) → length xs ≡ 0 → xs ≡ []
length-zero [] h = refl
length-zero (x ∷ xs) h = absurd (omega arith)

module _ {I Q O : Type 0} (tx : Port I) (buf : ChiselQueue SwitchboardIfc Q) (rx : Port O)
    (bridge : Bridge) (sender : IsPort tx) (queue : IsChiselQueue 32 buf) (receiver : IsPort rx)
    (wired : IsBridge bridge) where
  abbrev IsGood : ℕ → State I Q O → Type 0
  IsGood = Good tx buf rx bridge sender queue receiver wired

  advance :
      (n : ℕ) (s : State I Q O) (k : ℕ) (t : State I Q O)
      → IsGood n s
      → Step tx buf rx bridge s k t
      → IsGood (n + k) t
  advance n s k t g (sends {p = p} {q = q} e) =
      elim (sender_can tx buf rx bridge sender queue receiver wired n s g) [
        | inl (p', later, does, good) ↦
            subst
              (λ (x : SbPacket × I).
                IsGood (n + 1) (record s { sent = s.sent + 1; txp = x.0; in_port = x.1 }))
              (moved-injective (p', later) (p, q) (sym does ∙ e)) good
        | inr (inl (waits, _)) ↦ absurd (cc (sym e ∙ waits))
        | inr (inr (done, _)) ↦ absurd (cc (sym e ∙ done))
      ]
  advance n s k t g (receives {q = q} e) =
      elim (receiver_can tx buf rx bridge sender queue receiver wired n s g) [
        | inl (later, does, good) ↦
            subst (λ (x : O). IsGood (n + 1) (record s { received = s.received + 1; out_port = x }))
              (moved-injective later q (sym does ∙ e)) good
        | inr (inl (waits, _, _)) ↦ absurd (cc (sym e ∙ waits))
        | inr (inr (done, _)) ↦ absurd (cc (sym e ∙ done))
      ]
  advance n s k t g (ticks given taken gi ta) =
      cycle-Good tx buf rx bridge sender queue receiver wired n s given taken g gi ta

  no_failure : (n : ℕ) (s : State I Q O) → IsGood n s → ¬ Fails tx buf rx bridge s
  no_failure n s g (sender_fails e) =
      elim (sender_can tx buf rx bridge sender queue receiver wired n s g) [
        | inl (p, later, does, good) ↦ cc (sym e ∙ does)
        | inr (inl (waits, _)) ↦ cc (sym e ∙ waits)
        | inr (inr (done, _)) ↦ cc (sym e ∙ done)
      ]
  no_failure n s g (receiver_fails e) =
      elim (receiver_can tx buf rx bridge sender queue receiver wired n s g) [
        | inl (later, does, good) ↦ cc (sym e ∙ does)
        | inr (inl (waits, _, _)) ↦ cc (sym e ∙ waits)
        | inr (inr (done, _)) ↦ cc (sym e ∙ done)
      ]

  at_most_128 : (n : ℕ) (s : State I Q O) → IsGood n s → n ≤ 128
  at_most_128 n s g = omega (arith, g.moves, g.counted, g.at_most_32)

  -- Both threads have returned, or a packet can move.
  abbrev GoesOn : ℕ → State I Q O → Type 0
  GoesOn n s =
      ((n ≡ 128)
        × (send_thread tx s.sent s.txp s.in_port ≡ returned)
        × (recv_thread rx s.received s.out_port ≡ returned))
      ⊎ ((k : ℕ) × (t : State I Q O) × Step tx buf rx bridge s k t × (0 < k) × (n + k ≤ 128))

  steps :
      (n : ℕ) (s : State I Q O) (k : ℕ) (t : State I Q O)
      → IsGood n s
      → Step tx buf rx bridge s k t
      → 0 < k
      → GoesOn n s
  steps n s k t g step some_move =
      inr (k, t, step, some_move, at_most_128 (n + k) t (advance n s k t g step))

  -- A clock edge at which a packet enters an empty design, or leaves one that is not.
  enters :
      (s : State I Q O) (p : SbPacket) (later : I)
      → length (queue.contents s.buf) ≡ 0
      → 0 < (cycle tx buf rx bridge s (some (p, later)) none).0
  unfolding cycle
  enters s p later e = rw (queue.ready s.buf, e) (omega arith)

  leaves : (s : State I Q O) (out : O) → 0 < (cycle tx buf rx bridge s none (some out)).0
  unfolding cycle
  leaves s out = omega arith

  -- With all packets before the design.
  none_inside :
      (n : ℕ) (s : State I Q O)
      → IsGood n s
      → receiver.contents s.out_port ≡ []
      → length (queue.contents s.buf) ≡ 0
      → s.received < 32
      → GoesOn n s
  none_inside n s g behind inside left = elim (Option-cases (tx.recv s.in_port)) [
    | inr ((p, later), taken) ↦
        steps n s _ _ g (ticks (some (p, later)) none taken tt) (enters s p later inside)
    | inl none_before ↦ elim (sender_can tx buf rx bridge sender queue receiver wired n s g) [
      | inl (p, later, does, good) ↦ steps n s 1 _ g (sends does) (omega arith)
      | inr (inl (waits, some_before)) ↦
          absurd (some_before (sender.no_packet s.in_port none_before))
      | inr (inr (done, is_32)) ↦ absurd (
          omega (
            arith,
            g.counted,
            ap length (sender.no_packet s.in_port none_before),
            ap length behind,
          ))
    ]
  ]

  -- With no packet behind the design.
  none_behind :
      (n : ℕ) (s : State I Q O)
      → IsGood n s
      → receiver.contents s.out_port ≡ []
      → s.received < 32
      → GoesOn n s
  none_behind n s g behind left = elim (Bool-cases (ltb 0 (length (queue.contents s.buf)))) [
    | inr no_entry ↦ none_inside n s g behind (ground arith) left
    | inl entry ↦ elim (Option-cases (rx.send (bridge.delivered (buf.deq_bits s.buf)) s.out_port)) [
      | inl full ↦ absurd (receiver.no_room _ s.out_port full behind)
      | inr (out, taken) ↦
          steps n s _ _ g (ticks none (some out) tt (queue.valid s.buf ∙ entry, taken))
            (leaves s out)
    ]
  ]

  goes_on : (n : ℕ) (s : State I Q O) → IsGood n s → GoesOn n s
  goes_on n s g = elim (receiver_can tx buf rx bridge sender queue receiver wired n s g) [
    | inl (later, does, good) ↦ steps n s 1 _ g (receives does) (omega arith)
    | inr (inl (waits, empty, left)) ↦ none_behind n s g empty left
    | inr (inr (done, all)) ↦ elim (sender_can tx buf rx bridge sender queue receiver wired n s g) [
      | inl (p, later, does, good) ↦ absurd (omega (arith, good.at_most_32, g.counted))
      | inr (inl (waits, some_inside)) ↦ absurd (
          some_inside
            (length-zero (sender.contents s.in_port) (omega (arith, g.counted, g.at_most_32))))
      | inr (inr (sent_all, is_32)) ↦ inl (omega (arith, g.counted, g.moves), sent_all, done)
    ]
  ]

  invariant :
      (s : State I Q O) (n : ℕ) (t : State I Q O)
      → IsGood 0 s
      → Run tx buf rx bridge s n t
      → IsGood n t
  invariant s n t g start = g
  invariant s n t g (next {n = m} {k = k} {t = u} run step) =
      advance m u k t (invariant s m u g run) step

  -- Over first-in first-out ports that are empty at the start and a bridge that hands the low 32 bytes
  -- over, with a queue of 32 entries in the design, and whatever bytes the sender's packet of 32 bytes
  -- or more held: once `n` packets have moved, in any interleaving of the two threads and of clock
  -- edges with any offers and stalls of the bridge, no assert fails and no byte outside a packet is
  -- accessed, the design holds 32 packets at most, and either `n` is 128 and both threads have
  -- returned, or a step is possible that moves a packet or more and keeps that number within 128.
  pub minimal_passes :
      (txp : SbPacket) (in_port : I) (q : Q) (out_port : O) (n : ℕ) (s : State I Q O)
      → IsBuffer txp
      → sender.contents in_port ≡ []
      → queue.contents q ≡ []
      → receiver.contents out_port ≡ []
      → Run tx buf rx bridge
          (record {
            sent = 0;
            txp = txp;
            in_port = in_port;
            buf = q;
            out_port = out_port;
            received = 0;
          })
          n
          s
      → (¬ Fails tx buf rx bridge s)
        × (length (queue.contents s.buf) ≤ 32)
        × (((n ≡ 128)
              × (send_thread tx s.sent s.txp s.in_port ≡ returned)
              × (recv_thread rx s.received s.out_port ≡ returned))
            ⊎ ((k : ℕ) × (t : State I Q O) × Step tx buf rx bridge s k t × (0 < k) × (n + k ≤ 128)))
  minimal_passes txp in_port q out_port n s buffer no_in no_q no_out run =
      let g : IsGood n s =
        invariant _ n s
          (record {
            buffer = buffer;
            inside = subst (All IsSent) (sym no_in) tt;
            raised = subst (All IsRaised) (sym no_q) tt;
            echoes = subst (All IsEcho) (sym no_out) tt;
            at_most_32 = omega arith;
            entries = omega (arith, ap length no_q);
            counted = omega (arith, ap length no_in, ap length no_q, ap length no_out);
            moves = omega (arith, ap length no_q, ap length no_out);
          })
          run in
      (no_failure n s g, g.entries, goes_on n s g)
