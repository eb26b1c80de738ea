-- ===== src/Agent/Mask.antt =====
-- The two `alignMask` of sb_sim/include/tilelinklib.hpp, in arithmetic.
use native.Mathlib.Nat.{mod-lt, div-add-mod', div-lt_iff_lt-mul, mul-le-mul_right}
use switchboard_adapter.Base.{
  ℕ, suc, ◌+◌, ◌-◌, ◌*◌, ◌/◌, ◌%◌, ◌^◌, ◌≤◌, ◌<◌, inl, inr, Bool-cases, bit_and, ◌≡◌, ◌≢◌, ap, ◌∙◌,
  true, ltb, leb, if◌then◌else◌, le→leb, lt→not-leb, eq→==, ne→not-==, arith,
}
use switchboard_adapter.Base.Result.{ok, err, address_not_aligned_to_size}
use switchboard_adapter.Base.Bits.{
  bit_and_mask, mod-pow-pow, pow-add, pow-pos, pow-le, pow-lt, ones, ones-lt,
}
use switchboard_adapter.Base.Words.{u8, u32, sub32, shl32, low_mask}
use switchboard_adapter.Wire.{TlBundleParams}
use switchboard_adapter.Agent.{TlAgent, align_mask_at, align_mask}

-- A link whose beat has `2 ^ lg_beat` bytes, at most the 32 of a message.
pub record IsBeat (lg_beat : ℕ) (p : TlBundleParams) : Type 0 where
  pub width : p.data_bit_width ≡ 8 * 2 ^ lg_beat
  pub at_most_32 : lg_beat ≤ 5

-- The lanes of a transfer of `2 ^ lg_size` bytes at `address`: the first one, and how many.
abbrev pub first_lane : ℕ → ℕ → ℕ → ℕ
first_lane lg_beat lg_size address = if ltb lg_size lg_beat then address % 2 ^ lg_beat else 0

abbrev pub lane_count : ℕ → ℕ → ℕ
lane_count lg_beat lg_size = if ltb lg_size lg_beat then 2 ^ lg_size else 2 ^ lg_beat

pub beat_bytes : (k : ℕ) (p : TlBundleParams) → IsBeat k p → p.data_bit_width / 8 ≡ 2 ^ k
beat_bytes k p b = omega (arith, b.width)

pub beat-le : (k : ℕ) → k ≤ 5 → 2 ^ k ≤ 32
beat-le k h = pow-le k 5 h

-- An aligned sub-beat transfer ends within its beat.
pub offset-add-size :
    (k lg address : ℕ) → lg ≤ k → address % 2 ^ lg ≡ 0 → address % 2 ^ k + 2 ^ lg ≤ 2 ^ k
offset-add-size k lg address h aligned = omega (
  arith,
  div-add-mod' (address % 2 ^ k) (2 ^ lg),
  mod-pow-pow address lg k h,
  whole,
  mul-le-mul_right (2 ^ lg) slot_below,
)
  where
    whole : 2 ^ k ≡ 2 ^ (k - lg) * 2 ^ lg
    whole = ap (λ t. 2 ^ t) (omega arith) ∙ pow-add (k - lg) lg

    slot_below : suc (address % 2 ^ k / 2 ^ lg) ≤ 2 ^ (k - lg)
    slot_below =
        (div-lt_iff_lt-mul (pow-pos lg)).1 (omega (arith, whole, mod-lt address (pow-pos k)))

pub shl32-one : (lg : ℕ) → lg < 32 → shl32 1 lg ≡ ok (2 ^ lg)
unfolding shl32
shl32-one lg h = ground (arith, pow-lt lg 32 h)

ones_shift : (s o : ℕ) → ones s o < 2 ^ 32 → u32 (ones s 0 * 2 ^ o) ≡ ones s o
unfolding ones
ones_shift s o h = omega arith

module _ (k : ℕ) (p : TlBundleParams) (b : IsBeat k p) where
  beat_offset :
      (address : ℕ) → u32 (bit_and address (sub32 (p.data_bit_width / 8) 1)) ≡ address % 2 ^ k
  beat_offset address =
      let e : sub32 (p.data_bit_width / 8) 1 ≡ 2 ^ k - 1 =
        omega (arith, beat_bytes k p b, beat-le k b.at_most_32, pow-pos k) in
      rw (e, bit_and_mask k address)
        (omega (arith, mod-lt address (pow-pos k), beat-le k b.at_most_32))

  -- The inner test of alignment, in arithmetic.
  offset_low_bits :
      (lg address : ℕ) → lg ≤ k → bit_and (address % 2 ^ k) (sub32 (2 ^ lg) 1) ≡ address % 2 ^ lg
  offset_low_bits lg address h =
      let e : sub32 (2 ^ lg) 1 ≡ 2 ^ lg - 1 =
        omega (arith, beat-le lg (omega (arith, b.at_most_32)), pow-pos lg) in
      rw (e, bit_and_mask lg (address % 2 ^ k)) (mod-pow-pow address lg k h)

  size_test : (lg : ℕ) → lg ≤ k → leb (2 ^ lg) (p.data_bit_width / 8) ≡ true
  size_test lg h = le→leb _ _ (omega (arith, beat_bytes k p b, pow-le lg k h))

  slot_shift :
      (unaligned lg address : ℕ)
      → lg ≤ k
      → address % 2 ^ lg ≡ 0
      → shl32 unaligned (u32 (address % 2 ^ k / 2 ^ lg * 2 ^ lg))
        ≡ ok (u32 (unaligned * 2 ^ (address % 2 ^ k)))
  slot_shift unaligned lg address h aligned = rw slot shifted
    where
      below : address % 2 ^ k < 32
      below = omega (arith, mod-lt address (pow-pos k), beat-le k b.at_most_32)

      slot : u32 (address % 2 ^ k / 2 ^ lg * 2 ^ lg) ≡ address % 2 ^ k
      slot =
          omega (arith, below, div-add-mod' (address % 2 ^ k) (2 ^ lg), mod-pow-pow address lg k h)

      shifted : shl32 unaligned (address % 2 ^ k) ≡ ok (u32 (unaligned * 2 ^ (address % 2 ^ k)))
      shifted = unfold shl32 in ground (arith, below)

  -- An aligned address shifts the mask to the transfer's first lane.
  pub align_mask_at-aligned :
      (unaligned lg address : ℕ)
      → lg ≤ k
      → address % 2 ^ lg ≡ 0
      → align_mask_at p unaligned lg address ≡ ok (u32 (unaligned * 2 ^ (address % 2 ^ k)))
  unfolding align_mask_at
  align_mask_at-aligned unaligned lg address h aligned =
      rw
        (
          beat_offset address,
          shl32-one lg (omega (arith, b.at_most_32)),
          size_test lg h,
          offset_low_bits lg address h,
          eq→== _ _ aligned,
        )
        (slot_shift unaligned lg address h aligned)

  pub align_mask_at-misaligned :
      (unaligned lg address : ℕ)
      → lg ≤ k
      → address % 2 ^ lg ≢ 0
      → align_mask_at p unaligned lg address ≡ err address_not_aligned_to_size
  unfolding align_mask_at
  align_mask_at-misaligned unaligned lg address h aligned = rw (
    beat_offset address,
    shl32-one lg (omega (arith, b.at_most_32)),
    size_test lg h,
    offset_low_bits lg address h,
    ne→not-== _ _ aligned,
  )

low_mask_lem : (n : ℕ) → n ≤ 32 → low_mask n ≡ ok (ones n 0)
unfolding low_mask ones
low_mask_lem n h = ground (arith, pow-le n 32, pow-pos n)

-- The address fits a transfer of `2 ^ lg_size` bytes, where that is less than a beat.
abbrev pub IsLaneAligned : ℕ → ℕ → ℕ → Type 0
IsLaneAligned lg_beat lg_size address = lg_size < lg_beat → address % 2 ^ lg_size ≡ 0

module _ (k : ℕ) (a : TlAgent) (set : a.p_set ≡ true) (b : IsBeat k a.p) where
  small_beat : u8 (a.p.data_bit_width / 8) ≡ 2 ^ k
  small_beat = omega (arith, beat_bytes k a.p b, beat-le k b.at_most_32)

  whole_beat : (lg address : ℕ) → k ≤ lg → lg < 32 → align_mask a lg address ≡ ok (ones (2 ^ k) 0)
  unfolding align_mask
  whole_beat lg address h h32 =
      rw (set, shl32-one lg h32, small_beat, le→leb _ _ (pow-le k lg h))
        (low_mask_lem (2 ^ k) (beat-le k b.at_most_32))

  sub_beat :
      (lg address : ℕ)
      → lg < k
      → address % 2 ^ lg ≡ 0
      → align_mask a lg address ≡ ok (ones (2 ^ lg) (address % 2 ^ k))
  unfolding align_mask
  sub_beat lg address h aligned =
      let size_le : 2 ^ lg ≤ 32 = beat-le lg (omega (arith, b.at_most_32)) in
      let fits : ones (2 ^ lg) (address % 2 ^ k) < 2 ^ 32 = ones-lt _ _ 32 (
        omega
          (arith, offset-add-size k lg address (omega arith) aligned, beat-le k b.at_most_32)) in
      rw
        (
          set,
          shl32-one lg (omega (arith, b.at_most_32)),
          small_beat,
          lt→not-leb _ _ (pow-lt lg k h),
          low_mask_lem (2 ^ lg) size_le,
          align_mask_at-aligned k a.p b (ones (2 ^ lg) 0) lg address (omega arith) aligned,
        )
        (ap ok (ones_shift (2 ^ lg) (address % 2 ^ k) fits))

  pub align_mask-misaligned :
      (lg address : ℕ)
      → lg < k
      → address % 2 ^ lg ≢ 0
      → align_mask a lg address ≡ err address_not_aligned_to_size
  unfolding align_mask
  align_mask-misaligned lg address h odd = rw (
    set,
    shl32-one lg (omega (arith, b.at_most_32)),
    small_beat,
    lt→not-leb _ _ (pow-lt lg k h),
    low_mask_lem (2 ^ lg) (beat-le lg (omega (arith, b.at_most_32))),
    align_mask_at-misaligned k a.p b (ones (2 ^ lg) 0) lg address (omega arith) odd,
  )

  -- The mask enables exactly the lanes of the transfer.
  pub align_mask_lem :
      (lg address : ℕ)
      → lg < 32
      → IsLaneAligned k lg address
      → align_mask a lg address ≡ ok (ones (lane_count k lg) (first_lane k lg address))
  align_mask_lem lg address h32 aligned = elim (Bool-cases (ltb lg k)) [
    | inl sub ↦ rw sub (sub_beat lg address (ground arith) (aligned (ground arith)))
    | inr whole ↦ rw whole (whole_beat lg address (ground arith) h32)
  ]
