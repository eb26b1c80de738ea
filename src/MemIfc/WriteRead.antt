-- ===== src/MemIfc/WriteRead.antt =====
-- `write_chunk` and `read_chunk` of sb_sim/include/memifc.hpp, one after the other.
use switchboard_adapter.Base.{
  ℕ, ◌+◌, ◌-◌, ◌^◌, ◌≤◌, ◌<◌, ◌≡◌, ◌∙◌, inl, inr, Bool-cases, true, List, length, All, ltb,
  if◌then◌else◌, arith,
}
use switchboard_adapter.Base.Result.{ok}
use switchboard_adapter.Base.Memcpy.{in_range}
use switchboard_adapter.Wire.{TlMessageA, IsByte}
use switchboard_adapter.Agent.Put.{byte_at}
use switchboard_adapter.Client.{Link}
use switchboard_adapter.MemIfc.{ClientTlMemIfc, read_chunk, write_chunk}
use switchboard_adapter.MemIfc.Memory.{IsMemory, idle}
use switchboard_adapter.MemIfc.Ready.{IsReady, IsStack}
use switchboard_adapter.MemIfc.Writes.{stored}
use switchboard_adapter.MemIfc.Reads.{loaded}
use switchboard_adapter.MemIfc.Checks.{IsChunk}
use switchboard_adapter.MemIfc.WriteChunk.{write_chunk_lem}
use switchboard_adapter.MemIfc.ReadChunk.{read_chunk_lem}

-- A part of what was stored, loaded again.
load_stored :
    (old mem : ℕ → ℕ) (at n first m : ℕ) (src dst : List ℕ) (j : ℕ)
    → first + m ≤ n
    → ((x : ℕ) → mem x ≡ stored old at n src 0 x)
    → loaded dst 0 m mem (at + first) j
      ≡ (if ltb j m then byte_at src (first + j) else byte_at dst j)
load_stored old mem at n first m src dst j part stores = elim (Bool-cases (ltb j m)) [
  | inr beyond ↦ ground arith
  | inl inside ↦
      rw (hit (ground arith), inside)
        (stores (at + first + (j - 0)) ∙ rw (hit' (ground arith)) (λ z. byte_at src (index z)))
]
  where
    hit : j < m → in_range 0 m j ≡ true
    hit h = ground arith

    hit' : j < m → in_range at n (at + first + (j - 0)) ≡ true
    hit' h = ground (arith, part)

    index : 0 + (at + first + (j - 0) - at) ≡ first + j
    index = omega arith

module _ {W : Type 0} (link : Link W) (k capacity : ℕ) (memory : IsMemory link k capacity)
    (cap : capacity ≤ 2 ^ 64) (f : ClientTlMemIfc) (ready : IsReady k f) (fresh : TlMessageA)
    (st : IsStack fresh) where
  open memory use {mem, phase}

  -- With a ready adapter over a memory with no transfer pending, a buffer of bytes that is long
  -- enough, and a range that passes the asserts and lies in the memory: `write_chunk` of the
  -- buffer returns, and then `read_chunk` of any part of the range that passes the asserts (from
  -- its byte `first` on) returns a buffer that starts with the bytes of that part of the source,
  -- the rest of it unchanged.
  pub read_chunk-write_chunk :
      (taddr nbytes first count : ℕ) (src dst : List ℕ) (w : W)
      → All IsByte src
      → IsChunk k f taddr nbytes
      → IsChunk k f (taddr + first) count
      → first + count ≤ nbytes
      → taddr + nbytes ≤ capacity
      → nbytes ≤ length src
      → count ≤ length dst
      → phase w ≡ idle
      → (mid : W) × (write_chunk link f fresh taddr nbytes src w ≡ ok mid)
        × (out : List ℕ) × (later : W) × (read_chunk link f fresh (taddr + first) count dst mid
            ≡ ok (out, later))
        × (length out ≡ length dst)
        × ((j : ℕ)
            → byte_at out j ≡ (if ltb j count then byte_at src (first + j) else byte_at dst j))
  read_chunk-write_chunk taddr nbytes first count src dst w bytes c c' part inside full room quiet =
      let (mid, wrote, quiet', stores) =
        write_chunk_lem link k capacity memory cap f ready fresh st src bytes taddr nbytes w c
          inside full quiet in
      let (out, later, did, lens, rests, mems, loads) =
        read_chunk_lem link k capacity memory cap f ready fresh st (taddr + first) count dst mid c'
          (omega (arith, inside, part)) room quiet' in
      (
        mid,
        wrote,
        out,
        later,
        did,
        lens,
        λ j. loads j ∙ load_stored (mem w) (mem mid) taddr nbytes first count src dst j part stores,
      )
