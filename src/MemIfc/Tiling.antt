-- ===== src/MemIfc/Tiling.antt =====
-- `for_aligned_chunks` of sb_sim/include/memifc.hpp beside a description of the ranges it cuts.
use Prim.Native.Nat.{◌∣◌}
use native.Mathlib.Nat.{mod-eq-zero_of_dvd, dvd_of_mod-eq-zero, dvd-add, dvd-sub, le_of_dvd}
use mathlib.Core.Path.{fun_ext}
use switchboard_adapter.Base.{
  ℕ, zero, suc, ◌+◌, ◌-◌, ◌%◌, ◌^◌, ◌≤◌, ◌<◌, ◌≡◌, refl, ap, ◌∙◌, List, [], ◌∷◌, ne→not-==, arith,
}
use switchboard_adapter.Base.Result.{Result, ok, ◌>>=◌}
use switchboard_adapter.Base.Bits.{pow-dvd, pow-pos}
use switchboard_adapter.Base.Words.{u64, sub64}
use switchboard_adapter.MemIfc.Steps.{IsLargest, round_size}
use switchboard_adapter.MemIfc.Chunks.{floor_pow2, shrink, chunk_loop, for_aligned_chunks}

-- The chunks cut the range at `addr` of `n` bytes, in address order and without gaps. Each is a
-- power of two to which its address is aligned, and the largest such that the range still holds.
abbrev pub IsTiling : ℕ → ℕ → List (ℕ × ℕ) → Type 0
IsTiling addr n [] = n ≡ 0
IsTiling addr n ((at, len) ∷ rest) =
    (at ≡ addr)
    × ((i : ℕ) × (len ≡ 2 ^ i) × IsLargest addr n i)
    × IsTiling (addr + len) (n - len) rest

-- A call of the callback for each chunk, until one fails.
unfoldable pub each : {S : Type 0} → (ℕ → ℕ → S → Result S) → List (ℕ × ℕ) → S → Result S
each fn [] s = ok s
each fn ((at, len) ∷ rest) s = fn at len s >>= each fn rest

-- One round of the loop, where the two power-of-two steps are known.
chunk_round :
    {S : Type 0} (fn : ℕ → ℕ → S → Result S) (fuel curr remaining j i : ℕ) (s : S)
    → 0 < remaining
    → floor_pow2 remaining ≡ ok (2 ^ j)
    → shrink 64 curr (2 ^ j) ≡ ok (2 ^ i)
    → chunk_loop fn (suc fuel) curr remaining s
      ≡ (fn curr (2 ^ i) s >>= chunk_loop fn fuel (u64 (curr + 2 ^ i)) (sub64 remaining (2 ^ i)))
unfolding chunk_loop
chunk_round fn fuel curr remaining j i s pos e f = rw (ne→not-== remaining 0 (omega arith), e, f)

-- The cursor wraps to 0 only where nothing remains, and is not read then.
wrap_end :
    {S : Type 0} (fn : ℕ → ℕ → S → Result S) (fuel curr remaining : ℕ) (s : S)
    → remaining < fuel
    → curr + remaining ≤ 2 ^ 64
    → chunk_loop fn fuel (u64 curr) remaining s ≡ chunk_loop fn fuel curr remaining s
wrap_end fn zero curr remaining s h fit = absurd (omega arith)
wrap_end fn (suc fuel) curr zero s h fit = unfold chunk_loop in refl
wrap_end fn (suc fuel) curr (suc n) s h fit =
    let e : u64 curr ≡ curr = omega arith in ap (λ c. chunk_loop fn (suc fuel) c (suc n) s) e

-- What is known of a run of the loop.
abbrev Runs : ℕ → ℕ → ℕ → List (ℕ × ℕ) → Type 1
Runs fuel curr remaining cs =
    (S : Type 0) (fn : ℕ → ℕ → S → Result S) (s : S)
    → chunk_loop fn fuel curr remaining s ≡ each fn cs s

Runs-cons :
    (fuel curr remaining j i : ℕ) (cs : List (ℕ × ℕ))
    → remaining < suc fuel
    → remaining < 2 ^ 64
    → curr + remaining ≤ 2 ^ 64
    → 0 < remaining
    → floor_pow2 remaining ≡ ok (2 ^ j)
    → shrink 64 curr (2 ^ j) ≡ ok (2 ^ i)
    → 2 ^ i ≤ remaining
    → Runs fuel (curr + 2 ^ i) (remaining - 2 ^ i) cs
    → Runs (suc fuel) curr remaining ((curr, 2 ^ i) ∷ cs)
unfolding each
Runs-cons fuel curr remaining j i cs h h64 fit pos e f le runs S fn s =
    chunk_round fn fuel curr remaining j i s pos e f
    ∙ ap (λ k. fn curr (2 ^ i) s >>= k) (fun_ext λ t. rest t)
  where
    left : sub64 remaining (2 ^ i) ≡ remaining - 2 ^ i
    left = omega arith

    rest :
        (t : S) → chunk_loop fn fuel (u64 (curr + 2 ^ i)) (sub64 remaining (2 ^ i)) t ≡ each fn cs t
    rest t =
        ap (λ r. chunk_loop fn fuel (u64 (curr + 2 ^ i)) r t) left
        ∙ wrap_end fn fuel (curr + 2 ^ i) (remaining - 2 ^ i) t (omega (arith, pow-pos i))
            (omega arith)
        ∙ runs S fn t

chunk_loop_lem :
    (fuel curr remaining : ℕ)
    → remaining < fuel
    → remaining < 2 ^ 64
    → curr + remaining ≤ 2 ^ 64
    → (cs : List (ℕ × ℕ)) × IsTiling curr remaining cs × Runs fuel curr remaining cs
chunk_loop_lem zero curr remaining h h64 fit = absurd (omega arith)
chunk_loop_lem (suc fuel) curr zero h h64 fit = ([], refl, λ S fn s. unfold chunk_loop each in refl)
chunk_loop_lem (suc fuel) curr (suc n) h h64 fit =
    let (j, i, floor, shrunk, is) = round_size curr (suc n) (omega arith) h64 in
    let (cs, tiles, runs) =
      chunk_loop_lem fuel (curr + 2 ^ i) (suc n - 2 ^ i) (omega (arith, pow-pos i)) (omega arith)
        (omega (arith, is.fits)) in
    (
      (curr, 2 ^ i) ∷ cs,
      (refl, (i, refl, is), tiles),
      Runs-cons fuel curr (suc n) j i cs h h64 fit (omega arith) floor shrunk is.fits runs,
    )

-- For a range of less than `2 ^ 64` bytes that ends at `2 ^ 64` at most, there is a tiling of the
-- range such that, for any callback and state, the loop ends as one call for each chunk of the
-- tiling does, in order, up to the first call that fails.
pub for_aligned_chunks_lem :
    (addr n : ℕ)
    → n < 2 ^ 64
    → addr + n ≤ 2 ^ 64
    → (cs : List (ℕ × ℕ)) × IsTiling addr n cs
      × ((S : Type 0) (fn : ℕ → ℕ → S → Result S) (s : S)
          → for_aligned_chunks fn addr n s ≡ each fn cs s)
unfolding for_aligned_chunks
for_aligned_chunks_lem addr n h fit = chunk_loop_lem (n + 1) addr n (omega arith) h fit

-- On a range whose ends are multiples of `2 ^ k` every chunk is one, and so is what remains.
pub IsLargest-beats :
    (k addr n i : ℕ)
    → IsLargest addr n i
    → addr % 2 ^ k ≡ 0
    → n % 2 ^ k ≡ 0
    → (k ≤ i) × ((addr + 2 ^ i) % 2 ^ k ≡ 0) × ((n - 2 ^ i) % 2 ^ k ≡ 0)
IsLargest-beats k addr n i is ea en = (
  k_le,
  mod-eq-zero_of_dvd (2 ^ k) (dvd-add (2 ^ k) (dvd_of_mod-eq-zero (2 ^ k) ea) chunk),
  mod-eq-zero_of_dvd (2 ^ k) (dvd-sub (2 ^ k) (dvd_of_mod-eq-zero (2 ^ k) en) chunk),
)
  where
    k_le : k ≤ i
    k_le =
        is.largest k (le_of_dvd (omega (arith, is.fits, pow-pos i)) (dvd_of_mod-eq-zero (2 ^ k) en))
          ea

    chunk : 2 ^ k ∣ 2 ^ i
    chunk = pow-dvd k i k_le
