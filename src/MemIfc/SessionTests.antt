-- ===== src/MemIfc/SessionTests.antt =====
-- A sequence of calls of the adapter of MemIfc.TestSetup.
use switchboard_adapter.Base.{ℕ, ◌≡◌, refl, List, [], ◌∷◌, replicate, All, arith}
use switchboard_adapter.Base.Result.{ok}
use switchboard_adapter.Wire.{TlMessageA}
use switchboard_adapter.MemIfc.Memory.{idle}
use switchboard_adapter.MemIfc.Checks.{IsChunk}
use switchboard_adapter.MemIfc.Ram.{Ram, ram_link, ram-idle}
use switchboard_adapter.MemIfc.TestSetup.{
  test_ifc, test_stack, test_ram, test_bytes, test_memory, eight_fits, test-capacity,
  test_ifc-IsReady, test_stack-IsStack, test_bytes-All,
}
use switchboard_adapter.MemIfc.Session.{
  Call, reads, writes, clears, session, array_session, IsCall, session_lem,
}

-- A write, a clear of its middle, and a read of all of it.
abbrev calls : List Call
calls = writes 40 24 test_bytes ∷ clears 48 8 ∷ reads 40 24 (replicate 24 9) ∷ []

abbrev fresh : ℕ → TlMessageA
fresh i = test_stack

range : IsChunk 3 test_ifc 40 24
range = record {
  starts_at_beat = omega arith;
  has_a_beat = omega arith;
  within_max = omega arith;
  whole_beats = omega arith;
}

calls-All : All (IsCall 3 4096 test_ifc) calls
calls-All = (
  (range, omega arith, omega arith, test_bytes-All),
  ((omega arith, omega arith, omega arith, omega arith), ((range, omega arith, omega arith), tt)),
)

-- What the read leaves.
calls_read :
    (array_session calls (test_memory.mem test_ram)).0
    ≡ (1 ∷ 2 ∷ 3 ∷ 4 ∷ 5 ∷ 6 ∷ 7 ∷ 8 ∷ 0 ∷ 0 ∷ 0 ∷ 0 ∷ 0 ∷ 0 ∷ 0 ∷ 0 ∷ 17 ∷ 18 ∷ 19 ∷ 20 ∷ 21 ∷ 22
        ∷ 23 ∷ 24 ∷ [])
      ∷ []
calls_read = refl

session_lem_example :
    (later : Ram) × (session (ram_link 3) test_ifc fresh 0 calls test_ram
      ≡ ok ((array_session calls (test_memory.mem test_ram)).0, later))
    × (test_memory.phase later ≡ idle)
    × (test_memory.mem later ≡ (array_session calls (test_memory.mem test_ram)).1)
session_lem_example =
    session_lem (ram_link 3) 3 4096 test_memory test-capacity test_ifc test_ifc-IsReady fresh
      (λ i. test_stack-IsStack) (omega arith) refl calls 0 test_ram calls-All
      (ram-idle 3 4096 eight_fits test_ram refl)
