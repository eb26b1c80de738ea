-- ===== src/Print/Widths.antt =====
-- The widths that `data_to_bytes` of sb_sim/include/tilelinklib.hpp takes.
use switchboard_adapter.Base.{
  ℕ, ◌-◌, ◌*◌, ◌/◌, ◌%◌, ◌^◌, ◌≤◌, ◌≡◌, ◌≢◌, ap, ◌∙◌, ◌⊎◌, inl, inr, List, length, All, bit_and,
  ◌==◌, Bool-cases, eq→==, ne→not-==, ==→eq, arith,
}
use switchboard_adapter.Base.Result.{ok, err, print_width_not_bytes, print_width_not_pow2}
use native.Mathlib.Nat.{mod_self}
use switchboard_adapter.Base.Bits.{bit_and_mask, pow-pos}
use switchboard_adapter.Base.PowerTest.{power_of_and}
use switchboard_adapter.Wire.{IsByte}
use switchboard_adapter.Print.{data_to_bytes}
use switchboard_adapter.Print.Bytes.{data_to_bytes_lem}

no_bytes : (bytes : List ℕ) (w : ℕ) → w % 8 ≢ 0 → data_to_bytes bytes w ≡ err print_width_not_bytes
unfolding data_to_bytes
no_bytes bytes w odd = rw (ne→not-== _ _ odd)

no_power :
    (bytes : List ℕ) (w : ℕ)
    → w % 8 ≡ 0
    → (w / 8 ≡ 0) ⊎ (bit_and (w / 8) (w / 8 - 1) ≢ 0)
    → data_to_bytes bytes w ≡ err print_width_not_pow2
unfolding data_to_bytes
no_power bytes w whole (inl none_left) = rw (eq→== _ _ whole, eq→== _ _ none_left)
no_power bytes w whole (inr more) = elim (Bool-cases (w / 8 == 0)) [
  | inl zero_bytes ↦ rw (eq→== _ _ whole, zero_bytes)
  | inr some_bytes ↦ rw (eq→== _ _ whole, some_bytes, ne→not-== _ _ more)
]

-- A number of bytes that is a power of two passes the second test.
power_passes : (w k : ℕ) → w ≡ 8 * 2 ^ k → (w / 8 ≢ 0) × (bit_and (w / 8) (w / 8 - 1) ≡ 0)
power_passes w k h =
    let count : w / 8 ≡ 2 ^ k = omega (arith, h) in
    (omega (arith, count, pow-pos k), rw count (bit_and_mask k (2 ^ k) ∙ mod_self (2 ^ k)))

-- For a width in bits of no more bytes than the array has: either it is a power of two times 8 and
-- `data_to_bytes` returns a text; or it is no multiple of 8 and the first assert fails; or it is a multiple
-- of 8, but no power of two times 8, and the second one fails.
pub data_to_bytes_cases :
    (bytes : List ℕ) (w : ℕ)
    → w / 8 ≤ length bytes
    → All IsByte bytes
    → ((k : ℕ) × (w ≡ 8 * 2 ^ k) × (text : List ℕ) × (data_to_bytes bytes w ≡ ok text))
      ⊎ (((w % 8 ≢ 0) × (data_to_bytes bytes w ≡ err print_width_not_bytes))
          ⊎ ((w % 8 ≡ 0)
              × ((k : ℕ) → w ≢ 8 * 2 ^ k)
              × (data_to_bytes bytes w ≡ err print_width_not_pow2)))
data_to_bytes_cases bytes w enough all = elim (Bool-cases (w % 8 == 0)) [
  | inr odd ↦ inr (inl (ground arith, no_bytes bytes w (ground arith)))
  | inl whole ↦ elim (Bool-cases (w / 8 == 0)) [
    | inl zero_bytes ↦ inr (
        inr (
          ==→eq _ _ whole,
          λ k h. (power_passes w k h).0 (==→eq _ _ zero_bytes),
          no_power bytes w (==→eq _ _ whole) (inl (==→eq _ _ zero_bytes)),
        ))
    | inr some_bytes ↦ elim (Bool-cases (bit_and (w / 8) (w / 8 - 1) == 0)) [
      | inl alone ↦
          let (k, h) = power_of_and (w / 8) (ground arith) (==→eq _ _ alone) in
          let width : w ≡ 8 * 2 ^ k = ground (arith, h) in
          let (text, runs, _, _) = data_to_bytes_lem k bytes (omega (arith, width, enough)) all in
          inl (k, width, text, ap (data_to_bytes bytes) width ∙ runs)
      | inr more ↦ inr (
          inr (
            ==→eq _ _ whole,
            λ k h. absurd (ground (arith, (power_passes w k h).1)),
            no_power bytes w (==→eq _ _ whole) (inr (ground arith)),
          ))
    ]
  ]
]
