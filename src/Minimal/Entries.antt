-- ===== src/Minimal/Entries.antt =====
-- The queue of src/main/scala/example/Minimal.scala after a clock edge.
use switchboard_adapter.Base.{◌+◌, ◌-◌, ◌≡◌, Bool, true, ◌&&◌, if◌then◌else◌, ltb, length, All}
use switchboard_adapter.Chisel.Clock
use switchboard_adapter.Chisel.{ChiselQueue, IsChiselQueue}
use switchboard_adapter.Minimal.{SwitchboardIfc, clock, increment}
use switchboard_adapter.Minimal.Threads.{IsRaised}

module _ {Q : Type 0} (buf : ChiselQueue SwitchboardIfc Q) (queue : IsChiselQueue 32 buf)
    (enq_valid : Bool) (bits : SwitchboardIfc) (deq_ready : Bool) (q : Q) where
  open queue use {contents}

  pub length-clock :
      length (contents (clock buf enq_valid bits deq_ready q))
      ≡ (if deq_ready then length (contents q) - 1 else length (contents q))
        + (if enq_valid && ltb (length (contents q)) 32 then 1 else 0)
  unfolding clock
  length-clock = Clock.length-clock buf 32 queue enq_valid _ deq_ready q

  pub All-clock :
      All IsRaised (contents q)
      → (enq_valid ≡ true → IsRaised (record bits { payload = increment bits.payload }))
      → All IsRaised (contents (clock buf enq_valid bits deq_ready q))
  unfolding clock
  All-clock raised new = Clock.All-clock buf 32 queue enq_valid _ deq_ready q IsRaised raised new
