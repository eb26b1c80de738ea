-- ===== src/MemIfc/Chunks.antt =====
-- `floor_pow2` and `for_aligned_chunks` of sb_sim/include/memifc.hpp. `addr_t` and `size_t` are
-- 64-bit. The callback works on a state and may fail.
use switchboard_adapter.Base.{ℕ, zero, suc, ◌+◌, ◌-◌, ◌/◌, ◌^◌, bit_and, ltb, ◌==◌, if◌then◌else◌}
use switchboard_adapter.Base.Result.{
  Result, ok, err, ◌>>=◌, ◌>>◌, check, floor_pow2_of_zero, out_of_fuel,
}
use switchboard_adapter.Base.Bits.{count_leading_zeros}
use switchboard_adapter.Base.Words.{u64, sub64}

unfoldable pub floor_pow2 : ℕ → Result ℕ
floor_pow2 n = do check (ltb 0 n) floor_pow2_of_zero; ok (u64 (2 ^ (63 - count_leading_zeros 64 n)))

-- `while (curr & (chunk - 1)) chunk >>= 1;`. A power of two below `2 ^ 64` takes 64 rounds at most.
unfoldable pub shrink : ℕ → ℕ → ℕ → Result ℕ
shrink zero curr chunk = err out_of_fuel
shrink (suc fuel) curr chunk =
    let smaller = shrink fuel curr (chunk / 2) in
    if bit_and curr (sub64 chunk 1) == 0 then ok chunk else smaller

module _ {S : Type 0} (fn : ℕ → ℕ → S → Result S) where
  unfoldable pub chunk_loop : ℕ → ℕ → ℕ → S → Result S
  chunk_loop zero curr remaining s = err out_of_fuel
  chunk_loop (suc fuel) curr remaining s =
      let round = do
        whole ← floor_pow2 remaining
        chunk ← shrink 64 curr whole
        t ← fn curr chunk s
        chunk_loop fuel (u64 (curr + chunk)) (sub64 remaining chunk) t
      in if remaining == 0 then ok s else round

  -- Each round takes a byte at least.
  unfoldable pub for_aligned_chunks : ℕ → ℕ → S → Result S
  unfolding chunk_loop
  for_aligned_chunks addr nbytes s = chunk_loop (nbytes + 1) addr nbytes s
