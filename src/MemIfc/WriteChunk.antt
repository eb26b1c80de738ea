-- ===== src/MemIfc/WriteChunk.antt =====
-- `write_chunk` of sb_sim/include/memifc.hpp over a TileLink memory.
use switchboard_adapter.Base.{
  ℕ, ◌+◌, ◌-◌, ◌%◌, ◌^◌, ◌≤◌, ◌≡◌, sym, ◌∙◌, List, [], ◌∷◌, length, All, arith,
}
use switchboard_adapter.Base.Result.{ok}
use switchboard_adapter.Wire.{TlMessageA, IsByte}
use switchboard_adapter.Agent.Put.{byte_at}
use switchboard_adapter.Client.{Link}
use switchboard_adapter.MemIfc.{
  ClientTlMemIfc, Cursor, chunk_max_size, write, write_next, write_chunk,
}
use switchboard_adapter.MemIfc.Tiling.{IsTiling, each, for_aligned_chunks_lem, IsLargest-beats}
use switchboard_adapter.MemIfc.Overlay.{overlay_none, overlay-cons}
use switchboard_adapter.MemIfc.Memory.{IsMemory, idle}
use switchboard_adapter.MemIfc.Ready.{IsReady, IsStack}
use switchboard_adapter.MemIfc.Writes.{stored, write_lem}
use switchboard_adapter.MemIfc.Checks.{IsChunk, check_chunk_ok}

module _ {W : Type 0} (link : Link W) (k capacity : ℕ) (memory : IsMemory link k capacity)
    (cap : capacity ≤ 2 ^ 64) (f : ClientTlMemIfc) (ready : IsReady k f) (fresh : TlMessageA)
    (st : IsStack fresh) (src : List ℕ) (bytes : All IsByte src) where
  open memory use {mem, phase}

  abbrev at_place : ℕ → W → Cursor W
  at_place place w = record { buffer = src; place = place; world = w }

  write_next_lem :
      (at len place : ℕ) (w later : W)
      → write link f fresh at len src place w ≡ ok later
      → write_next link f fresh at len (at_place place w) ≡ ok (at_place (place + len) later)
  unfolding write_next
  write_next_lem at len place w later e = rw e

  -- The chunks of a range, written in order.
  each_write_lem :
      (cs : List (ℕ × ℕ)) (addr n place : ℕ) (w : W)
      → IsTiling addr n cs
      → addr % 2 ^ k ≡ 0
      → n % 2 ^ k ≡ 0
      → n ≤ chunk_max_size f
      → addr + n ≤ capacity
      → place + n ≤ length src
      → phase w ≡ idle
      → (later : W) × (each (write_next link f fresh) cs (at_place place w)
          ≡ ok (at_place (place + n) later))
        × (phase later ≡ idle)
        × ((x : ℕ) → mem later x ≡ stored (mem w) addr n src place x)
  unfolding each
  each_write_lem [] addr n place w tiles al whole short inside enough quiet = (
    w,
    λ z. ok (at_place (last z) w),
    quiet,
    λ x. sym (overlay_none (mem w) addr n (byte_at src) place x tiles),
  )
    where
      last : place ≡ place + n
      last = omega (arith, tiles)
  each_write_lem ((at, len) ∷ cs) addr n place w (starts, (i, size, is), rest) al whole short inside
        enough quiet =
      let (beat, al', whole') = IsLargest-beats k addr n i is al whole in
      let fits : len ≤ n = omega (arith, size, is.fits) in
      let (mid, wrote, quiet', stores) =
        write_lem link k capacity memory cap f ready i addr beat (omega (arith, is.fits)) is.aligned
          (omega (arith, is.fits)) src place (omega (arith, is.fits)) bytes fresh w st quiet in
      let (later, runs, rests, mems) =
        each_write_lem cs (addr + len) (n - len) (place + len) mid rest
          ((λ z. (addr + size z) % 2 ^ k) ∙ al') ((λ z. (n - size z) % 2 ^ k) ∙ whole')
          (omega (arith, short)) (omega (arith, inside, fits)) (omega (arith, enough, fits))
          quiet' in
      (
        later,
        rw
            (write_next_lem at len place w mid
              ((λ z. write link f fresh (starts z) (size z) src place w) ∙ wrote))
            (runs ∙ (λ z. ok (at_place (total fits z) later))),
        rests,
        λ x.
            mems x
            ∙ overlay-cons (mem w) (mem mid) addr len (n - len) (byte_at src) place x
                (stores x ∙ (λ z. stored (mem w) addr (sym size z) src place x))
            ∙ (λ z. stored (mem w) addr (parts fits z) src place x),
      )
    where
      total : len ≤ n → place + len + (n - len) ≡ place + n
      total h = omega arith

      parts : len ≤ n → len + (n - len) ≡ n
      parts h = omega arith

  -- With a ready adapter over a memory with no transfer pending, a buffer of bytes that is long
  -- enough, and a range that passes the asserts and lies in the memory, `write_chunk` returns; the
  -- bytes of the range are then those of the buffer, all others are unchanged, and again no
  -- transfer is pending.
  pub write_chunk_lem :
      (taddr nbytes : ℕ) (w : W)
      → IsChunk k f taddr nbytes
      → taddr + nbytes ≤ capacity
      → nbytes ≤ length src
      → phase w ≡ idle
      → (later : W) × (write_chunk link f fresh taddr nbytes src w ≡ ok later)
        × (phase later ≡ idle)
        × ((x : ℕ) → mem later x ≡ stored (mem w) taddr nbytes src 0 x)
  unfolding write_chunk
  write_chunk_lem taddr nbytes w c inside enough quiet =
      let max : chunk_max_size f ≤ 4096 = ready.max_le in
      let (cs, tiles, runs) =
        for_aligned_chunks_lem taddr nbytes (omega (arith, c.within_max)) (omega (arith, cap)) in
      let (later, wrote, rests, mems) =
        each_write_lem cs taddr nbytes 0 w tiles c.starts_at_beat c.whole_beats c.within_max inside
          (omega (arith, enough)) quiet in
      (
        later,
        rw (
          check_chunk_ok k f ready taddr nbytes c,
          runs (Cursor W) (write_next link f fresh) (at_place 0 w),
          wrote,
        ),
        rests,
        mems,
      )
