-- ===== src/MemIfc/Steps.antt =====
-- `floor_pow2` and the inner loop of `for_aligned_chunks` of sb_sim/include/memifc.hpp, in arithmetic.
use native.Mathlib.Nat.{le_trans, mod-one, pow-suc}
use switchboard_adapter.Base.{
  ℕ, zero, suc, ◌-◌, ◌*◌, ◌/◌, ◌%◌, ◌^◌, ◌≤◌, ◌<◌, bit_and, ◌≡◌, refl, sym, ap, ◌∙◌, inl, inr,
  Bool-cases, false, ltb, ◌==◌, lt→ltb, eq→==, ==→eq, arith,
}
use switchboard_adapter.Base.Result.{ok}
use switchboard_adapter.Base.Bits.{
  clz_bounds, bit_and_mask, pow-pos, pow-le, pow-lt, count_leading_zeros,
}
use switchboard_adapter.Base.Words.{u64, sub64}
use switchboard_adapter.MemIfc.Chunks.{floor_pow2, shrink}

pub pow-suc_two : (k : ℕ) → 2 ^ suc k ≡ 2 * 2 ^ k
pow-suc_two k = omega (arith, pow-suc 2 k)

pub pow-le_inv : (j k : ℕ) → 2 ^ j ≤ 2 ^ k → j ≤ k
pow-le_inv j k h = elim (Bool-cases (ltb k j)) [
  | inl more ↦ absurd (omega (arith, pow-lt k j (ground arith)))
  | inr less ↦ ground arith
]

-- The largest power of two up to `n`.
pub floor_pow2_lem :
    (n : ℕ)
    → 0 < n
    → n < 2 ^ 64
    → (j : ℕ) × (floor_pow2 n ≡ ok (2 ^ j)) × (j < 64) × (2 ^ j ≤ n) × (n < 2 ^ suc j)
unfolding floor_pow2
floor_pow2_lem n pos h =
    let b = clz_bounds 64 n pos h in
    let j : ℕ = 63 - count_leading_zeros 64 n in
    (
      j,
      rw (lt→ltb 0 n pos) (ap ok (wraps j (omega arith))),
      omega arith,
      b.1,
      omega (arith, b.2, pow-suc_two j),
    )
  where
    wraps : (j : ℕ) → j < 64 → u64 (2 ^ j) ≡ 2 ^ j
    wraps j h = omega (arith, pow-lt j 64 h)

-- `2 ^ i` is the largest power of two that is at most `n` and divides `addr`.
pub record IsLargest (addr n i : ℕ) : Type 0 where
  pub fits : 2 ^ i ≤ n
  pub aligned : addr % 2 ^ i ≡ 0
  pub largest : (l : ℕ) → 2 ^ l ≤ n → addr % 2 ^ l ≡ 0 → l ≤ i

-- The test of the inner loop, in arithmetic.
pub align_test : (curr j : ℕ) → j < 64 → bit_and curr (sub64 (2 ^ j) 1) ≡ curr % 2 ^ j
align_test curr j h =
    let e : sub64 (2 ^ j) 1 ≡ 2 ^ j - 1 = omega (arith, pow-lt j 64 h, pow-pos j) in
    rw e (bit_and_mask j curr)

-- The largest aligned power of two up to `2 ^ j`.
pub record IsShrunk (curr j : ℕ) (i : ℕ) : Type 0 where
  pub below : i ≤ j
  pub aligned : curr % 2 ^ i ≡ 0
  pub largest : (l : ℕ) → l ≤ j → curr % 2 ^ l ≡ 0 → l ≤ i

pub shrink_lem :
    (fuel curr j : ℕ)
    → j < fuel
    → j < 64
    → (i : ℕ) × (shrink fuel curr (2 ^ j) ≡ ok (2 ^ i)) × IsShrunk curr j i
unfolding shrink
shrink_lem zero curr j h h64 = absurd (omega arith)
shrink_lem (suc fuel) curr zero h h64 = (
  0,
  rw (align_test curr 0 h64, mod-one) refl,
  record { below = omega arith; aligned = mod-one curr; largest = λ l hl _. hl },
)
shrink_lem (suc fuel) curr (suc j) h h64 = elim (Bool-cases (curr % 2 ^ suc j == 0)) [
  | inl done ↦ (
    suc j,
    rw (align_test curr (suc j) h64, done),
    record { below = omega arith; aligned = ==→eq _ _ done; largest = λ l hl _. hl },
  )
  | inr more ↦
      let (i, e, s) = shrink_lem fuel curr j (omega arith) (omega arith) in
      (
        i,
        rw (align_test curr (suc j) h64, more, half) e,
        record {
          below = omega (arith, s.below);
          aligned = s.aligned;
          largest = λ l hl z. s.largest l (not_top l hl z more) z;
        },
      )
]
  where
    half : 2 ^ suc j / 2 ≡ 2 ^ j
    half = omega (arith, pow-suc_two j)

    not_top : (l : ℕ) → l ≤ suc j → curr % 2 ^ l ≡ 0 → curr % 2 ^ suc j == 0 ≡ false → l ≤ j
    not_top l hl z more = elim (Bool-cases (ltb l (suc j))) [
      | inl less ↦ ground arith
      | inr top ↦
          let e : l ≡ suc j = ground arith in
          cc (more, eq→== _ _ (ap (λ t. curr % 2 ^ t) (sym e) ∙ z))
    ]

-- What the two steps of a round find.
pub round_size :
    (curr n : ℕ)
    → 0 < n
    → n < 2 ^ 64
    → (j : ℕ) × (i : ℕ) × (floor_pow2 n ≡ ok (2 ^ j))
      × (shrink 64 curr (2 ^ j) ≡ ok (2 ^ i))
      × IsLargest curr n i
round_size curr n pos h =
    let (j, floor, j64, low, high) = floor_pow2_lem n pos h in
    let (i, shrunk, is) = shrink_lem 64 curr j j64 j64 in
    (
      j,
      i,
      floor,
      shrunk,
      record {
        fits = le_trans (pow-le i j is.below) low;
        aligned = is.aligned;
        largest = λ l fits z. is.largest l (below l j n high fits) z;
      },
    )
  where
    below : (l j n : ℕ) → n < 2 ^ suc j → 2 ^ l ≤ n → l ≤ j
    below l j n high fits = elim (Bool-cases (ltb j l)) [
      | inl more ↦ absurd (omega (arith, pow-le (suc j) l (ground arith)))
      | inr less ↦ ground arith
    ]
