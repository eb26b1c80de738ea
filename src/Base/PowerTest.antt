-- ===== src/Base/PowerTest.antt =====
-- The test `(n & (n - 1)) == 0` for powers of two.
use native.Mathlib.Nat.{pow-suc}
use switchboard_adapter.Base.{
  ℕ, zero, suc, ◌-◌, ◌/◌, ◌%◌, ◌^◌, ◌≤◌, ◌<◌, bit_and, ◌≡◌, ap, ◌==◌, Bool-cases, inl, inr, arith,
}
use switchboard_adapter.Base.Bits.{bit_and_step}

itself_below : (bound x : ℕ) → x ≤ bound → bit_and x x ≡ x
itself_below bound zero le = bit_and_step 0 0
itself_below (suc bound) (suc x) le =
    omega (arith, itself_below bound (suc x / 2) (omega arith), bit_and_step (suc x) (suc x))
itself_below zero (suc x) le = absurd (omega arith)

power_below : (bound n : ℕ) → n ≤ bound → 0 < n → bit_and n (n - 1) ≡ 0 → (lg : ℕ) × (n ≡ 2 ^ lg)
power_below zero n le pos e = absurd (omega arith)
power_below (suc bound) n le pos e = elim (Bool-cases (n % 2 == 0)) [
  | inl even ↦
      let half : (n - 1) / 2 ≡ n / 2 - 1 = ground arith in
      let (lg, h) =
        power_below bound (n / 2) (omega arith) (ground arith)
          (omega (arith, bit_and_step n (n - 1), ap (bit_and (n / 2)) half)) in
      (suc lg, ground (arith, pow-suc 2 lg, h))
  | inr odd ↦
      let half : (n - 1) / 2 ≡ n / 2 = ground arith in
      (
        0,
        ground (
          arith,
          bit_and_step n (n - 1),
          ap (bit_and (n / 2)) half,
          itself_below (n / 2) (n / 2) (omega arith),
        ),
      )
]

-- A number from 1 on that has no bit in common with its predecessor is a power of two.
pub power_of_and : (n : ℕ) → 0 < n → bit_and n (n - 1) ≡ 0 → (lg : ℕ) × (n ≡ 2 ^ lg)
power_of_and n pos e = power_below n n (omega arith) pos e
