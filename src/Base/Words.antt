-- ===== src/Base/Words.antt =====
-- Machine words, the shifts and builtins of the source, and `memcpy` between byte arrays.
use switchboard_adapter.Base.{
  ℕ, ◌+◌, ◌-◌, ◌*◌, ◌%◌, ◌^◌, ◌&&◌, List, ◌++◌, ltb, leb, ◌==◌, if◌then◌else◌, length, take, drop,
}
use switchboard_adapter.Base.Result.{Result, ok, err, undefined_behaviour}
use switchboard_adapter.Base.Bits.{count_trailing_zeros}

abbrev pub u8 : ℕ → ℕ
u8 n = n % 2 ^ 8

abbrev pub u32 : ℕ → ℕ
u32 n = n % 2 ^ 32

abbrev pub u64 : ℕ → ℕ
u64 n = n % 2 ^ 64

-- `a - b` on `uint32_t` and `uint64_t`; `-` on ℕ stops at 0, so the modulus is added first.
abbrev pub sub32 : ℕ → ℕ → ℕ
sub32 a b = u32 (a + 2 ^ 32 - b)

abbrev pub sub64 : ℕ → ℕ → ℕ
sub64 a b = u64 (a + 2 ^ 64 - b)

-- A 32-bit `x << k`, undefined from 32 on.
unfoldable pub shl32 : ℕ → ℕ → Result ℕ
shl32 x k = if ltb k 32 then ok (u32 (x * 2 ^ k)) else err undefined_behaviour

-- `(uint32_t)(((uint64_t)1 << n) - 1)`.
unfoldable pub low_mask : ℕ → Result ℕ
low_mask n = if ltb n 64 then ok (u32 (2 ^ n - 1)) else err undefined_behaviour

-- `__builtin_ctz` and `__builtin_ctzll` are undefined at 0.
unfoldable pub builtin_ctz : ℕ → ℕ → Result ℕ
builtin_ctz bits v = if v == 0 then err undefined_behaviour else ok (count_trailing_zeros bits v)

-- `memcpy(&dst[i], src, n)`. An access outside either array is undefined.
unfoldable pub memcpy : List ℕ → ℕ → List ℕ → ℕ → Result (List ℕ)
memcpy dst i src n =
    if leb (i + n) (length dst) && leb n (length src)
    then ok (take i dst ++ (take n src ++ drop (i + n) dst))
    else err undefined_behaviour
