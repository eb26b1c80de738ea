-- ===== src/MemIfc/Clear.antt =====
-- `clear_chunk` of sb_sim/include/memifc.hpp over a TileLink memory.
use native.Mathlib.Nat.{mod-eq-zero_of_dvd, dvd_of_mod-eq-zero, dvd-add, dvd-sub, le_of_dvd}
use switchboard_adapter.Base.{
  ℕ, zero, suc, ◌+◌, ◌-◌, ◌%◌, ◌^◌, ◌≤◌, ◌<◌, ◌≡◌, refl, sym, ap, ◌∙◌, inl, inr, Bool-cases, List,
  replicate, length-replicate, All-replicate, min, ltb, ne→not-==, arith,
}
use switchboard_adapter.Base.Bits.{pow-pos}
use switchboard_adapter.Base.Words.{u64, sub64}
use switchboard_adapter.Base.Result.{ok}
use switchboard_adapter.Wire.{TlMessageA, IsByte}
use switchboard_adapter.Agent.Put.{byte_at}
use switchboard_adapter.Client.{Link}
use switchboard_adapter.MemIfc.{
  ClientTlMemIfc, chunk_max_size, write_chunk, clear_loop, clear_chunk,
}
use switchboard_adapter.MemIfc.Overlay.{overlay, overlay_none, overlay-cons, overlay_ext}
use switchboard_adapter.MemIfc.Memory.{IsMemory, idle}
use switchboard_adapter.MemIfc.Ready.{IsReady, IsStack}
use switchboard_adapter.MemIfc.Checks.{IsChunk}
use switchboard_adapter.MemIfc.WriteChunk.{write_chunk_lem}

-- `mem` with zeros in `[at, at + n)`.
abbrev pub cleared : (ℕ → ℕ) → ℕ → ℕ → ℕ → ℕ
cleared mem at n x = overlay mem at n (λ _. 0) 0 x

pub byte_at-replicate : (n i : ℕ) → byte_at (replicate n 0) i ≡ 0
byte_at-replicate zero i = refl
byte_at-replicate (suc n) zero = refl
byte_at-replicate (suc n) (suc i) = byte_at-replicate n i

-- What a round takes.
pub record IsRound (k n max len : ℕ) : Type 0 where
  pub has_a_beat : 2 ^ k ≤ len
  pub within : len ≤ n
  pub within_max : len ≤ max
  pub whole_beats : len % 2 ^ k ≡ 0
  pub rest_whole : (n - len) % 2 ^ k ≡ 0

pub min-IsRound :
    (k n max : ℕ)
    → 0 < n
    → n % 2 ^ k ≡ 0
    → 2 ^ k ≤ max
    → max % 2 ^ k ≡ 0
    → IsRound k n max (min n max)
min-IsRound k n max pos whole beat even = record {
  has_a_beat = omega (arith, le_of_dvd pos (dvd_of_mod-eq-zero (2 ^ k) whole));
  within = omega arith;
  within_max = omega arith;
  whole_beats = both;
  rest_whole =
      mod-eq-zero_of_dvd (2 ^ k)
        (dvd-sub (2 ^ k) (dvd_of_mod-eq-zero (2 ^ k) whole) (dvd_of_mod-eq-zero (2 ^ k) both));
}
  where
    both : min n max % 2 ^ k ≡ 0
    both = elim (Bool-cases (ltb n max)) [
      | inl less ↦ ap (λ t. t % 2 ^ k) (left (ground arith)) ∙ whole
      | inr more ↦ ap (λ t. t % 2 ^ k) (right (ground arith)) ∙ even
    ]
      where
        left : n < max → min n max ≡ n
        left h = omega arith

        right : max ≤ n → min n max ≡ max
        right h = omega arith

module _ {W : Type 0} (link : Link W) (f : ClientTlMemIfc) (fresh : TlMessageA)
    (zeros : List ℕ) where
  -- The address wraps to 0 only where nothing remains, and is not read then.
  pub wrap_end :
      (fuel curr remaining : ℕ) (w : W)
      → remaining < fuel
      → curr + remaining ≤ 2 ^ 64
      → clear_loop link f fresh fuel zeros (u64 curr) remaining w
        ≡ clear_loop link f fresh fuel zeros curr remaining w
  unfolding clear_loop
  wrap_end zero curr remaining w h fit = absurd (omega arith)
  wrap_end (suc fuel) curr zero w h fit = refl
  wrap_end (suc fuel) curr (suc n) w h fit =
      let e : u64 curr ≡ curr = omega arith in
      λ i. clear_loop link f fresh (suc fuel) zeros (e i) (suc n) w

module _ {W : Type 0} (link : Link W) (k capacity : ℕ) (memory : IsMemory link k capacity)
    (cap : capacity ≤ 2 ^ 64) (f : ClientTlMemIfc) (ready : IsReady k f) (fresh : TlMessageA)
    (st : IsStack fresh) (beat : 2 ^ k ≤ chunk_max_size f)
    (even : chunk_max_size f % 2 ^ k ≡ 0) where
  open memory use {mem, phase}

  abbrev zeros : List ℕ
  zeros = replicate (chunk_max_size f) 0

  clear_round :
      (fuel curr n : ℕ) (w mid : W)
      → 0 < n
      → n < suc fuel
      → n < 2 ^ 64
      → curr + n ≤ 2 ^ 64
      → IsRound k n (chunk_max_size f) (min n (chunk_max_size f))
      → write_chunk link f fresh curr (min n (chunk_max_size f)) zeros w ≡ ok mid
      → clear_loop link f fresh (suc fuel) zeros curr n w
        ≡ clear_loop link f fresh fuel zeros
            (curr + min n (chunk_max_size f))
            (n - min n (chunk_max_size f))
            mid
  unfolding clear_loop
  clear_round fuel curr n w mid pos h h64 fit r e =
      let len : ℕ = min n (chunk_max_size f) in
      let rest : sub64 n len ≡ n - len = omega (arith, r.within) in
      rw (ne→not-== n 0 (omega arith), e, rest)
        (wrap_end link f fresh zeros fuel (curr + len) (n - len) mid
          (omega (arith, r.has_a_beat, pow-pos k)) (omega (arith, r.within)))

  write_zeros :
      (curr n len : ℕ) (w : W)
      → curr % 2 ^ k ≡ 0
      → curr + n ≤ capacity
      → IsRound k n (chunk_max_size f) len
      → phase w ≡ idle
      → (mid : W) × (write_chunk link f fresh curr len zeros w ≡ ok mid)
        × (phase mid ≡ idle)
        × ((x : ℕ) → mem mid x ≡ cleared (mem w) curr len x)
  write_zeros curr n len w al inside r quiet =
      let chunk : IsChunk k f curr len = record {
        starts_at_beat = al;
        has_a_beat = r.has_a_beat;
        within_max = r.within_max;
        whole_beats = r.whole_beats;
      } in
      let (mid, did, rests, mems) =
        write_chunk_lem link k capacity memory cap f ready fresh st zeros
          (All-replicate IsByte (chunk_max_size f) 0 (omega arith)) curr len w chunk
          (omega (arith, inside, r.within))
          (omega (arith, r.within_max, length-replicate {A = ℕ} (chunk_max_size f) 0)) quiet in
      (
        mid,
        did,
        rests,
        λ x.
            mems x
            ∙ overlay_ext (mem w) curr len (byte_at zeros) (λ _. 0) 0 x
                (byte_at-replicate (chunk_max_size f)),
      )

  clear_loop_lem :
      (fuel curr n : ℕ) (w : W)
      → n < fuel
      → n < 2 ^ 64
      → curr % 2 ^ k ≡ 0
      → n % 2 ^ k ≡ 0
      → curr + n ≤ capacity
      → phase w ≡ idle
      → (later : W) × (clear_loop link f fresh fuel zeros curr n w ≡ ok later)
        × (phase later ≡ idle)
        × ((x : ℕ) → mem later x ≡ cleared (mem w) curr n x)
  clear_loop_lem zero curr n w h h64 al whole inside quiet = absurd (omega arith)
  clear_loop_lem (suc fuel) curr zero w h h64 al whole inside quiet = (
    w,
    unfold clear_loop in refl,
    quiet,
    λ x. sym (overlay_none (mem w) curr 0 (λ _. 0) 0 x refl),
  )
  clear_loop_lem (suc fuel) curr (suc n) w h h64 al whole inside quiet =
      let len : ℕ = min (suc n) (chunk_max_size f) in
      let r = min-IsRound k (suc n) (chunk_max_size f) (omega arith) whole beat even in
      let (mid, did, quiet', stores) = write_zeros curr (suc n) len w al inside r quiet in
      let (later, runs, rests, mems) =
        clear_loop_lem fuel (curr + len) (suc n - len) mid
          (omega (arith, h, r.has_a_beat, pow-pos k)) (omega (arith, h64))
          (mod-eq-zero_of_dvd (2 ^ k) (
            dvd-add (2 ^ k) (dvd_of_mod-eq-zero (2 ^ k) al)
              (dvd_of_mod-eq-zero (2 ^ k) r.whole_beats)))
          r.rest_whole (omega (arith, inside, r.within)) quiet' in
      (
        later,
        clear_round fuel curr (suc n) w mid (omega arith) h h64 (omega (arith, inside, cap)) r did
            ∙ runs,
        rests,
        λ x.
            mems x
            ∙ overlay-cons (mem w) (mem mid) curr len (suc n - len) (λ _. 0) 0 x (stores x)
            ∙ ap (λ t. cleared (mem w) curr t x) (parts len r.within),
      )
    where
      parts : (len : ℕ) → len ≤ suc n → len + (suc n - len) ≡ suc n
      parts len h = omega arith

  -- With a ready adapter whose longest transfer is one or more whole beats, over a memory with no
  -- transfer pending, and a range of whole beats that lies in the memory, of any length,
  -- `clear_chunk` returns; the bytes of the range are then 0, all others are unchanged, and again
  -- no transfer is pending.
  pub clear_chunk_lem :
      (taddr nbytes : ℕ) (w : W)
      → nbytes < 2 ^ 64
      → taddr % 2 ^ k ≡ 0
      → nbytes % 2 ^ k ≡ 0
      → taddr + nbytes ≤ capacity
      → phase w ≡ idle
      → (later : W) × (clear_chunk link f fresh taddr nbytes w ≡ ok later)
        × (phase later ≡ idle)
        × ((x : ℕ) → mem later x ≡ cleared (mem w) taddr nbytes x)
  unfolding clear_chunk
  clear_chunk_lem taddr nbytes w h64 al whole inside quiet =
      clear_loop_lem (nbytes + 1) taddr nbytes w (omega arith) h64 al whole inside quiet
