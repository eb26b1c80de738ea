-- ===== src/RamClient/WordTests.antt =====
-- A write of a word, a clear, and reads, by the adapter of the `main` of sb_sim/tlmem/client.cc.
use switchboard_adapter.Base.{ℕ, ◌^◌, ◌≤◌, ◌≡◌, refl, List, [], ◌∷◌, replicate, All, arith}
use switchboard_adapter.Base.Result.{ok}
use switchboard_adapter.Wire.{TlMessageA}
use switchboard_adapter.MemIfc.{ClientTlMemIfc}
use switchboard_adapter.MemIfc.Memory.{IsMemory, idle}
use switchboard_adapter.MemIfc.Ram.{Ram, ram_link, ram-IsMemory, ram-idle}
use switchboard_adapter.MemIfc.TestSetup.{test_stack, test_ram, test_stack-IsStack}
use switchboard_adapter.MemIfc.Session.{Call, reads, writes, clears, session, array_session}
use switchboard_adapter.RamClient.{memifc}
use switchboard_adapter.RamClient.Words.{IsWordCall, memifc_lem}

four_fits : 2 ^ 2 ≤ 32
four_fits = omega arith

abbrev memory : IsMemory (ram_link 2) 2 4096
memory = ram-IsMemory 2 4096 four_fits

abbrev calls : List Call
calls =
    writes 100 4 (1 ∷ 2 ∷ 3 ∷ 4 ∷ [])
    ∷ clears 104 8
    ∷ reads 100 4 (replicate 4 9)
    ∷ reads 108 4 (replicate 5 9)
    ∷ []

calls-IsWordCall : All (IsWordCall 4096) calls
calls-IsWordCall = (
  (
    refl,
    refl,
    omega arith,
    omega arith,
    (omega arith, (omega arith, (omega arith, (omega arith, tt)))),
  ),
  (
    (omega arith, refl, refl, omega arith),
    ((refl, refl, omega arith, omega arith), ((refl, refl, omega arith, omega arith), tt)),
  ),
)

-- What the reads leave.
calls_read :
    (array_session calls (memory.mem test_ram)).0
    ≡ (1 ∷ 2 ∷ 3 ∷ 4 ∷ []) ∷ (0 ∷ 0 ∷ 0 ∷ 0 ∷ 9 ∷ []) ∷ []
calls_read = refl

abbrev fresh : ℕ → TlMessageA
fresh i = test_stack

memifc_lem_example :
    (f : ClientTlMemIfc) × (memifc ≡ ok f)
    × (later : Ram) × (session (ram_link 2) f fresh 0 calls test_ram
        ≡ ok ((array_session calls (memory.mem test_ram)).0, later))
    × (memory.phase later ≡ idle)
    × (memory.mem later ≡ (array_session calls (memory.mem test_ram)).1)
memifc_lem_example =
    memifc_lem (ram_link 2) 4096 memory fresh calls test_ram (omega arith) (λ i. test_stack-IsStack)
      calls-IsWordCall (ram-idle 2 4096 four_fits test_ram refl)
