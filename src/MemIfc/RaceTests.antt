-- ===== src/MemIfc/RaceTests.antt =====
-- A `clear_chunk` of two rounds with the calls of a second thread in between, by the adapter of
-- MemIfc.TestSetup.
use switchboard_adapter.Base.{ℕ, ◌≡◌, refl, inl, List, [], ◌∷◌, replicate, All, arith}
use switchboard_adapter.Base.Result.{ok}
use switchboard_adapter.MemIfc.{clear_chunk}
use switchboard_adapter.MemIfc.Memory.{idle}
use switchboard_adapter.MemIfc.Checks.{IsChunk}
use switchboard_adapter.MemIfc.Ram.{Ram, ram_link, ram-idle}
use switchboard_adapter.MemIfc.TestSetup.{
  test_ifc, test_stack, test_ram, test_bytes, test_memory, eight_fits, test-capacity,
  test_ifc-IsReady, test_stack-IsStack, test_bytes-All,
}
use switchboard_adapter.MemIfc.Session.{
  Call, reads, writes, session, array_write, array_session, IsCall,
}
use switchboard_adapter.MemIfc.ClearCalls.{clear_calls, end_state}
use switchboard_adapter.MemIfc.Interleave.{Merge, done, one, other, IsApart}
use switchboard_adapter.MemIfc.ClearRace.{clear_race}

-- Both calls are just below the range from byte 64 on.
abbrev others : List Call
others = writes 40 24 test_bytes ∷ reads 40 24 (replicate 24 9) ∷ []

abbrev merged : List Call
merged =
    writes 64 32 (replicate 32 0)
    ∷ writes 40 24 test_bytes
    ∷ writes 96 16 (replicate 32 0)
    ∷ reads 40 24 (replicate 24 9)
    ∷ []

range : IsChunk 3 test_ifc 40 24
range = record {
  starts_at_beat = omega arith;
  has_a_beat = omega arith;
  within_max = omega arith;
  whole_beats = omega arith;
}

others-IsCall : All (IsCall 3 4096 test_ifc) others
others-IsCall =
    ((range, omega arith, omega arith, test_bytes-All), ((range, omega arith, omega arith), tt))

others-IsApart : All (IsApart 64 48) others
others-IsApart = (inl (omega arith), (inl (omega arith), tt))

merged-Merge : Merge (clear_calls 32 49 64 48) others merged
unfolding clear_calls
merged-Merge = one (other (one (other done)))

clear_race_example :
    ((v : Ram)
      → clear_chunk (ram_link 3) test_ifc test_stack 64 48 v
        ≡ end_state (session (ram_link 3) test_ifc (λ i. test_stack) 0 (clear_calls 32 49 64 48) v))
    × (later : Ram) × (session (ram_link 3) test_ifc (λ i. test_stack) 0 merged test_ram
        ≡ ok ((array_session others (test_memory.mem test_ram)).0, later))
    × (test_memory.phase later ≡ idle)
    × ((x : ℕ)
        → test_memory.mem later x
          ≡ array_write (array_session others (test_memory.mem test_ram)).1 64 48 (λ j. 0) x)
clear_race_example =
    clear_race (ram_link 3) 3 4096 test_memory test-capacity test_ifc test_ifc-IsReady test_stack
      test_stack-IsStack (omega arith) refl 64 48 others merged test_ram (omega arith) refl refl
      (omega arith) others-IsCall others-IsApart merged-Merge
      (ram-idle 3 4096 eight_fits test_ram refl)
