-- ===== src/RamClient/Words.antt =====
-- The adapter over which the `main` of sb_sim/tlmem/client.cc loads its program: with beats of four
-- bytes and transfers of a beat, it reads and writes words.
use switchboard_adapter.Base.{
  ℕ, ◌+◌, ◌%◌, ◌^◌, ◌≤◌, ◌<◌, ◌≡◌, refl, List, [], ◌∷◌, length, All, arith,
}
use switchboard_adapter.Base.Result.{ok}
use switchboard_adapter.Wire.{TlMessageA, IsByte}
use switchboard_adapter.Agent.{get_params}
use switchboard_adapter.Agent.Setup.{ul_agent}
use switchboard_adapter.Client.{Link}
use switchboard_adapter.MemIfc.{ClientTlMemIfc, new_mem_ifc}
use switchboard_adapter.MemIfc.Memory.{IsMemory, idle}
use switchboard_adapter.MemIfc.Ready.{IsReady, IsStack}
use switchboard_adapter.MemIfc.Checks.{IsChunk}
use switchboard_adapter.MemIfc.Session.{
  Call, reads, writes, clears, session, array_session, IsCall, session_lem,
}
use switchboard_adapter.RamClient.{memifc}
use switchboard_adapter.RamClient.Passes.{client_agent_lem}

-- A read or a write of an aligned word with a buffer for it, or a clear of aligned words.
abbrev pub IsWordCall : ℕ → Call → Type 0
IsWordCall capacity (reads taddr nbytes dst) =
    (nbytes ≡ 4) × (taddr % 4 ≡ 0) × (taddr + 4 ≤ capacity) × (4 ≤ length dst)
IsWordCall capacity (writes taddr nbytes src) =
    (nbytes ≡ 4) × (taddr % 4 ≡ 0) × (taddr + 4 ≤ capacity) × (4 ≤ length src) × All IsByte src
IsWordCall capacity (clears taddr nbytes) =
    (nbytes < 2 ^ 64) × (taddr % 4 ≡ 0) × (nbytes % 4 ≡ 0) × (taddr + nbytes ≤ capacity)

abbrev word_ifc : ClientTlMemIfc
word_ifc = record {
  tl_agent = ul_agent "client_0" 2 32 4;
  tl_params = (ul_agent "client_0" 2 32 4).p;
}

memifc_ok : memifc ≡ ok word_ifc
unfolding memifc new_mem_ifc get_params
memifc_ok = rw client_agent_lem refl

word_ifc-IsReady : IsReady 2 word_ifc
word_ifc-IsReady = record {
  configured = record { is_set = refl; beat = record { width = refl; at_most_32 = omega arith } };
  cached = refl;
  max_le = omega arith;
}

word-IsChunk : (taddr nbytes : ℕ) → nbytes ≡ 4 → taddr % 4 ≡ 0 → IsChunk 2 word_ifc taddr nbytes
word-IsChunk taddr nbytes h aligned = record {
  starts_at_beat = aligned;
  has_a_beat = omega (arith, h);
  within_max = omega (arith, h);
  whole_beats = omega (arith, h);
}

word-IsCall : (capacity : ℕ) (c : Call) → IsWordCall capacity c → IsCall 2 capacity word_ifc c
word-IsCall capacity (reads taddr nbytes dst) (h, aligned, inside, room) =
    (word-IsChunk taddr nbytes h aligned, omega (arith, h), omega (arith, h))
word-IsCall capacity (writes taddr nbytes src) (h, aligned, inside, room, bytes) =
    (word-IsChunk taddr nbytes h aligned, omega (arith, h), omega (arith, h), bytes)
word-IsCall capacity (clears taddr nbytes) h = h

calls-All :
    (capacity : ℕ) (calls : List Call)
    → All (IsWordCall capacity) calls
    → All (IsCall 2 capacity word_ifc) calls
calls-All capacity [] h = tt
calls-All capacity (c ∷ calls) h = (word-IsCall capacity c h.0, calls-All capacity calls h.1)

module _ {W : Type 0} (link : Link W) (capacity : ℕ) (memory : IsMemory link 2 capacity) where
  open memory use {mem, phase}

  -- The adapter of `main` is made, and over a memory with beats of four bytes and no transfer pending,
  -- any sequence of reads and writes of aligned words and of clears of aligned words, within the memory
  -- and with buffers that are long enough, returns with the buffers and the bytes that the same calls
  -- leave on an array of bytes.
  pub memifc_lem :
      (fresh : ℕ → TlMessageA) (calls : List Call) (w : W)
      → capacity ≤ 2 ^ 64
      → ((i : ℕ) → IsStack (fresh i))
      → All (IsWordCall capacity) calls
      → phase w ≡ idle
      → (f : ClientTlMemIfc) × (memifc ≡ ok f)
        × (later : W) × (session link f fresh 0 calls w
            ≡ ok ((array_session calls (mem w)).0, later))
        × (phase later ≡ idle)
        × (mem later ≡ (array_session calls (mem w)).1)
  memifc_lem fresh calls w bound st words quiet =
      let (later, runs, quiet', now) =
        session_lem link 2 capacity memory bound word_ifc word_ifc-IsReady fresh st (omega arith)
          (omega arith) calls 0 w (calls-All capacity calls words) quiet in
      (word_ifc, memifc_ok, later, runs, quiet', now)
