-- ===== src/Minimal/Cycles.antt =====
-- A clock edge of sb_sim/minimal, with whatever the bridge offers and takes.
use switchboard_adapter.Chisel.{ChiselQueue, IsChiselQueue}
use switchboard_adapter.Minimal.Entries.{length-clock, All-clock}
use switchboard_adapter.Base.{
  ℕ, ◌+◌, ◌-◌, ◌≤◌, ◌≡◌, refl, sym, ◌∙◌, ap, subst, Bool, true, false, ◌&&◌, Option, none, some,
  List, [], ◌∷◌, ◌++◌, if◌then◌else◌, ltb, length, All, All-append, length-append, arith,
}
use switchboard_adapter.Minimal.{
  SbPacket, Port, SwitchboardIfc, Bridge, State, Given, Taken, idle, cycle, clock, increment,
}
use switchboard_adapter.Minimal.Contract.{IsPort, IsBridge}
use switchboard_adapter.Minimal.Threads.{
  IsSent, IsRaised, IsEcho, offered-IsRaised, delivered-IsEcho,
}
use switchboard_adapter.Minimal.Flow.{Good}

module _ {I Q O : Type 0} (tx : Port I) (buf : ChiselQueue SwitchboardIfc Q) (rx : Port O)
    (bridge : Bridge) (sender : IsPort tx) (queue : IsChiselQueue 32 buf) (receiver : IsPort rx)
    (wired : IsBridge bridge) where
  abbrev IsGood : ℕ → State I Q O → Type 0
  IsGood = Good tx buf rx bridge sender queue receiver wired

  -- What the design shows is one of the incremented packets.
  shown :
      (n : ℕ) (s : State I Q O)
      → IsGood n s
      → buf.deq_valid s.buf ≡ true
      → IsRaised (buf.deq_bits s.buf)
  shown n s g v = first_of (queue.contents s.buf) refl
    where
      first_of :
          (xs : List SwitchboardIfc) → queue.contents s.buf ≡ xs → IsRaised (buf.deq_bits s.buf)
      first_of [] e = absurd (ground (arith, queue.valid s.buf, ap length e))
      first_of (x ∷ xs) e =
          subst IsRaised (sym (queue.first s.buf x xs e)) (subst (All IsRaised) e g.raised).0

  -- Packets that move by a clock edge: in, out, or both.
  edge-Good :
      (n k : ℕ) (s : State I Q O) (in_valid : Bool) (bits : SwitchboardIfc) (out_ready : Bool)
      (in_port : I) (out_port : O)
      → IsGood n s
      → All IsSent (sender.contents in_port)
      → All IsEcho (receiver.contents out_port)
      → (in_valid ≡ true → IsRaised (record bits { payload = increment bits.payload }))
      → length (sender.contents s.in_port)
        ≡ length (sender.contents in_port)
          + (if in_valid && ltb (length (queue.contents s.buf)) 32 then 1 else 0)
      → length (receiver.contents out_port)
        ≡ length (receiver.contents s.out_port) + (if out_ready then 1 else 0)
      → (out_ready ≡ true → 1 ≤ length (queue.contents s.buf))
      → k
        ≡ (if in_valid && ltb (length (queue.contents s.buf)) 32 then 1 else 0)
          + (if out_ready then 1 else 0)
      → IsGood (n + k) (record s {
        in_port = in_port;
        buf = clock buf in_valid bits out_ready s.buf;
        out_port = out_port;
      })
  edge-Good n k s in_valid bits out_ready in_port out_port g inside echoes new ins outs some_left
        count =
      record {
        buffer = g.buffer;
        inside = inside;
        raised = All-clock buf queue in_valid bits out_ready s.buf g.raised new;
        echoes = echoes;
        at_most_32 = g.at_most_32;
        entries = ground (arith, g.entries, after);
        counted = omega (
          arith,
          g.counted,
          ins,
          outs,
          after,
          balance out_ready (length (queue.contents s.buf)) some_left,
        );
        moves = omega (
          arith,
          g.moves,
          ins,
          outs,
          count,
          after,
          balance out_ready (length (queue.contents s.buf)) some_left,
        );
      }
    where
      after :
          length (queue.contents (clock buf in_valid bits out_ready s.buf))
          ≡ (if out_ready then length (queue.contents s.buf) - 1 else length (queue.contents s.buf))
            + (if in_valid && ltb (length (queue.contents s.buf)) 32 then 1 else 0)
      after = length-clock buf queue in_valid bits out_ready s.buf

      balance :
          (b : Bool) (m : ℕ)
          → (b ≡ true → 1 ≤ m)
          → (if b then m - 1 else m) + (if b then 1 else 0) ≡ m
      balance true m h = omega (arith, h refl)
      balance false m h = omega arith

  some_shown : (s : State I Q O) → buf.deq_valid s.buf ≡ true → 1 ≤ length (queue.contents s.buf)
  some_shown s v = ground (arith, queue.valid s.buf)

  -- What the bridge takes from the design stands last in the queue behind it.
  appended :
      (s : State I Q O) (out : O)
      → Taken tx buf rx bridge s (some out)
      → receiver.contents out
        ≡ receiver.contents s.out_port ++ (bridge.delivered (buf.deq_bits s.buf) ∷ [])
  appended s out ta = receiver.sent (bridge.delivered (buf.deq_bits s.buf)) s.out_port out ta.1

  left_behind :
      (s : State I Q O) (out : O)
      → Taken tx buf rx bridge s (some out)
      → length (receiver.contents out) ≡ length (receiver.contents s.out_port) + 1
  left_behind s out ta =
      ap length (appended s out ta) ∙ length-append (receiver.contents s.out_port) _

  echoed :
      (n : ℕ) (s : State I Q O) (out : O)
      → IsGood n s
      → Taken tx buf rx bridge s (some out)
      → All IsEcho (receiver.contents out)
  echoed n s out g ta = subst (All IsEcho) (sym (appended s out ta)) (
      All-append IsEcho (receiver.contents s.out_port) _ g.echoes
        (delivered-IsEcho bridge wired _ (shown n s g ta.0), tt))

  -- What the bridge offers to the design is the first of the packets before it.
  offered_first :
      (n : ℕ) (s : State I Q O) (p : SbPacket) (later : I)
      → IsGood n s
      → Given tx buf rx bridge s (some (p, later))
      → IsSent p
        × All IsSent (sender.contents later)
        × (length (sender.contents s.in_port) ≡ length (sender.contents later) + 1)
  offered_first n s p later g gi =
      let front = sender.received p s.in_port later gi in
      let all : All IsSent (p ∷ sender.contents later) = subst (All IsSent) front g.inside in
      (all.0, all.1, omega (arith, ap length front))

  -- The queue before the design, whether or not the design takes from it.
  kept :
      (takes : Bool) (s : State I Q O) (later : I)
      → All IsSent (sender.contents s.in_port)
      → All IsSent (sender.contents later)
      → length (sender.contents s.in_port) ≡ length (sender.contents later) + 1
      → All IsSent (sender.contents (if takes then later else s.in_port))
        × (length (sender.contents s.in_port)
            ≡ length (sender.contents (if takes then later else s.in_port))
              + (if takes then 1 else 0))
  kept true s later before after count = (after, count)
  kept false s later before after count = (before, omega arith)

  pub cycle-Good :
      (n : ℕ) (s : State I Q O) (given : Option (SbPacket × I)) (taken : Option O)
      → IsGood n s
      → Given tx buf rx bridge s given
      → Taken tx buf rx bridge s taken
      → IsGood
          (n + (cycle tx buf rx bridge s given taken).0)
          (cycle tx buf rx bridge s given taken).1
  unfolding cycle
  cycle-Good n s none none g gi ta =
      edge-Good n 0 s false idle false s.in_port s.out_port g g.inside g.echoes (λ h. cc)
        (omega arith) (omega arith) (λ h. cc) (omega arith)
  cycle-Good n s none (some out) g gi ta =
      edge-Good n 1 s false idle true s.in_port out g g.inside (echoed n s out g ta) (λ h. cc)
        (omega arith) (left_behind s out ta) (λ h. some_shown s ta.0) (omega arith)
  cycle-Good n s (some (p, later)) none g gi ta =
      let (first, others, count) = offered_first n s p later g gi in
      let (inside, ins) =
        kept (ltb (length (queue.contents s.buf)) 32) s later g.inside others count in
      rw (queue.ready s.buf) (
        edge-Good n (if ltb (length (queue.contents s.buf)) 32 then 1 else 0) s true
          (bridge.offered p) false _ s.out_port g inside g.echoes
          (λ h. offered-IsRaised bridge wired p first) ins (omega arith) (λ h. cc) (omega arith))
  cycle-Good n s (some (p, later)) (some out) g gi ta =
      let (first, others, count) = offered_first n s p later g gi in
      let (inside, ins) =
        kept (ltb (length (queue.contents s.buf)) 32) s later g.inside others count in
      rw (queue.ready s.buf) (
        edge-Good n (1 + (if ltb (length (queue.contents s.buf)) 32 then 1 else 0)) s true
          (bridge.offered p) true _ out g inside (echoed n s out g ta)
          (λ h. offered-IsRaised bridge wired p first) ins (left_behind s out ta)
          (λ h. some_shown s ta.0) (omega arith))
