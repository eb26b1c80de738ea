-- ===== src/MemIfc/ReadChunk.antt =====
-- `read_chunk` of sb_sim/include/memifc.hpp over a TileLink memory.
use switchboard_adapter.Base.{
  ℕ, ◌+◌, ◌-◌, ◌%◌, ◌^◌, ◌≤◌, ◌≡◌, refl, sym, ap, ◌∙◌, List, [], ◌∷◌, length, arith,
}
use switchboard_adapter.Base.Result.{ok}
use switchboard_adapter.Wire.{TlMessageA}
use switchboard_adapter.Agent.Put.{byte_at}
use switchboard_adapter.Client.{Link}
use switchboard_adapter.MemIfc.{ClientTlMemIfc, Cursor, chunk_max_size, read, read_next, read_chunk}
use switchboard_adapter.MemIfc.Tiling.{IsTiling, each, for_aligned_chunks_lem, IsLargest-beats}
use switchboard_adapter.MemIfc.Overlay.{overlay_none, overlay-cons, overlay_ext}
use switchboard_adapter.MemIfc.Memory.{IsMemory, idle}
use switchboard_adapter.MemIfc.Ready.{IsReady, IsStack}
use switchboard_adapter.MemIfc.Reads.{loaded, read_lem}
use switchboard_adapter.MemIfc.Checks.{IsChunk, check_chunk_ok}

module _ {W : Type 0} (link : Link W) (k capacity : ℕ) (memory : IsMemory link k capacity)
    (cap : capacity ≤ 2 ^ 64) (f : ClientTlMemIfc) (ready : IsReady k f) (fresh : TlMessageA)
    (st : IsStack fresh) where
  open memory use {mem, phase}

  abbrev at_place : List ℕ → ℕ → W → Cursor W
  at_place dst place w = record { buffer = dst; place = place; world = w }

  read_next_lem :
      (at len place : ℕ) (dst out : List ℕ) (w later : W)
      → read link f fresh at len dst place w ≡ ok (out, later)
      → read_next link f fresh at len (at_place dst place w) ≡ ok (at_place out (place + len) later)
  unfolding read_next
  read_next_lem at len place dst out w later e = rw e

  -- The rest of the range goes to the rest of the buffer.
  next_load :
      (dst mid : List ℕ) (m m' : ℕ → ℕ) (addr len n i place j : ℕ)
      → len ≡ 2 ^ i
      → len ≤ n
      → byte_at mid j ≡ loaded dst place (2 ^ i) m addr j
      → ((x : ℕ) → m' x ≡ m x)
      → loaded mid (place + len) (n - len) m' (addr + len) j ≡ loaded dst place n m addr j
  next_load dst mid m m' addr len n i place j size fits h same =
      overlay_ext (byte_at mid) (place + len) (n - len) m' m (addr + len) j same
      ∙ overlay-cons (byte_at dst) (byte_at mid) place len (n - len) m addr j
          (h ∙ (λ z. loaded dst place (sym size z) m addr j))
      ∙ ap (λ t. loaded dst place t m addr j) (parts fits)
    where
      parts : len ≤ n → len + (n - len) ≡ n
      parts h = omega arith

  -- The chunks of a range, read in order.
  each_read_lem :
      (cs : List (ℕ × ℕ)) (addr n place : ℕ) (dst : List ℕ) (w : W)
      → IsTiling addr n cs
      → addr % 2 ^ k ≡ 0
      → n % 2 ^ k ≡ 0
      → n ≤ chunk_max_size f
      → addr + n ≤ capacity
      → place + n ≤ length dst
      → phase w ≡ idle
      → (out : List ℕ) × (later : W) × (each (read_next link f fresh) cs (at_place dst place w)
          ≡ ok (at_place out (place + n) later))
        × (length out ≡ length dst)
        × (phase later ≡ idle)
        × ((x : ℕ) → mem later x ≡ mem w x)
        × ((j : ℕ) → byte_at out j ≡ loaded dst place n (mem w) addr j)
  unfolding each
  each_read_lem [] addr n place dst w tiles al whole short inside enough quiet = (
    dst,
    w,
    λ z. ok (at_place dst (last z) w),
    refl,
    quiet,
    λ x. refl,
    λ j. sym (overlay_none (byte_at dst) place n (mem w) addr j tiles),
  )
    where
      last : place ≡ place + n
      last = omega (arith, tiles)
  each_read_lem ((at, len) ∷ cs) addr n place dst w (starts, (i, size, is), rest) al whole short
        inside enough quiet =
      let (beat, al', whole') = IsLargest-beats k addr n i is al whole in
      let fits : len ≤ n = omega (arith, size, is.fits) in
      let (mid_dst, mid, did, lens, quiet', same, fills) =
        read_lem link k capacity memory cap f ready fresh st i addr beat (omega (arith, is.fits))
          is.aligned (omega (arith, is.fits)) place dst w (omega (arith, is.fits)) quiet in
      let (out, later, runs, lens', rests, mems, bytes) =
        each_read_lem cs (addr + len) (n - len) (place + len) mid_dst mid rest
          ((λ z. (addr + size z) % 2 ^ k) ∙ al') ((λ z. (n - size z) % 2 ^ k) ∙ whole')
          (omega (arith, short)) (omega (arith, inside, fits)) (omega (arith, enough, fits, lens))
          quiet' in
      (
        out,
        later,
        rw
            (read_next_lem at len place dst mid_dst w mid
              ((λ z. read link f fresh (starts z) (size z) dst place w) ∙ did))
            (runs ∙ (λ z. ok (at_place out (total fits z) later))),
        lens' ∙ lens,
        rests,
        λ x. mems x ∙ same x,
        λ j.
            bytes j
            ∙ next_load dst mid_dst (mem w) (mem mid) addr len n i place j size fits (fills j) same,
      )
    where
      total : len ≤ n → place + len + (n - len) ≡ place + n
      total h = omega arith

  -- With a ready adapter over a memory with no transfer pending, a buffer that is long enough, and
  -- a range that passes the asserts and lies in the memory, `read_chunk` returns; the buffer then
  -- starts with the bytes of the range and is otherwise unchanged, the memory is unchanged, and
  -- again no transfer is pending.
  pub read_chunk_lem :
      (taddr nbytes : ℕ) (dst : List ℕ) (w : W)
      → IsChunk k f taddr nbytes
      → taddr + nbytes ≤ capacity
      → nbytes ≤ length dst
      → phase w ≡ idle
      → (out : List ℕ) × (later : W) × (read_chunk link f fresh taddr nbytes dst w
          ≡ ok (out, later))
        × (length out ≡ length dst)
        × (phase later ≡ idle)
        × ((x : ℕ) → mem later x ≡ mem w x)
        × ((j : ℕ) → byte_at out j ≡ loaded dst 0 nbytes (mem w) taddr j)
  unfolding read_chunk
  read_chunk_lem taddr nbytes dst w c inside enough quiet =
      let max : chunk_max_size f ≤ 4096 = ready.max_le in
      let (cs, tiles, runs) =
        for_aligned_chunks_lem taddr nbytes (omega (arith, c.within_max)) (omega (arith, cap)) in
      let (out, later, did, lens, rests, mems, bytes) =
        each_read_lem cs taddr nbytes 0 dst w tiles c.starts_at_beat c.whole_beats c.within_max
          inside (omega (arith, enough)) quiet in
      (
        out,
        later,
        rw (
          check_chunk_ok k f ready taddr nbytes c,
          runs (Cursor W) (read_next link f fresh) (at_place dst 0 w),
          did,
        ),
        lens,
        rests,
        mems,
        bytes,
      )
