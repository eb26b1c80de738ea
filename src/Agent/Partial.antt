-- ===== src/Agent/Partial.antt =====
-- `putPartial` of sb_sim/include/tilelinklib.hpp: its three branches.
use native.Mathlib.Nat.{mul-pos, ne_of_gt, mul_assoc, mul-lt-mul_of_pos_right, mul-le-mul_right}
use switchboard_adapter.Base.{
  ℕ, ◌+◌, ◌*◌, ◌%◌, ◌^◌, ◌≤◌, ◌<◌, ◌≡◌, ◌≢◌, inl, inr, Bool-cases, some, List, ltb, ap, ◌∙◌, sym,
  length, le→leb, lt→not-leb, ne→not-==, arith,
}
use switchboard_adapter.Base.Result.{ok, err, undefined_behaviour}
use switchboard_adapter.Base.Bits.{ctz-odd-mul, pow-pos, pow-le, pow-lt, pow-add}
use switchboard_adapter.Base.Words.{u32}
use switchboard_adapter.Base.Memcpy.{splice, memcpy-splice, memcpy_overrun}
use switchboard_adapter.Wire.{TlMessageA, opcode_a, put_partial_data}
use switchboard_adapter.Agent.{TlAgent, first_bit_set_u32, lane, align_mask_at, put_partial}
use switchboard_adapter.Agent.Mask.{beat_bytes, beat-le, align_mask_at-aligned, offset-add-size}
use switchboard_adapter.Agent.Config.{IsConfigured, Accepts, check_transfer_lem}

-- What `putPartial` leaves, for a mask and a payload.
abbrev pub partial_message : TlMessageA → ℕ → ℕ → ℕ → ℕ → List ℕ → TlMessageA
partial_message msg from_source address lg mask payload = record {
  opcode = opcode_a put_partial_data;
  param = 0;
  size = lg;
  corrupt = 0;
  source = from_source;
  address = address;
  mask = mask;
  payload = payload;
}

module _ (k : ℕ) (a : TlAgent) (c : IsConfigured k a) (msg : TlMessageA)
    (from_source address lg : ℕ) (bytes : List ℕ) (acc : Accepts a lg) where
  -- With no byte enabled nothing is copied.
  pub put_partial_none :
      put_partial a msg from_source address lg 0 bytes
      ≡ ok (partial_message msg from_source address lg 0 msg.payload)
  unfolding put_partial
  put_partial_none = rw (check_transfer_lem a lg c.is_set acc)

  -- On a whole beat the mask and the bytes pass unchanged.
  pub put_partial_whole :
      (mask : ℕ)
      → mask ≢ 0
      → k ≤ lg
      → length msg.payload ≡ 32
      → 2 ^ k ≤ length bytes
      → put_partial a msg from_source address lg mask bytes
        ≡ ok (partial_message msg from_source address lg mask (splice msg.payload 0 bytes (2 ^ k)))
  unfolding put_partial
  put_partial_whole mask ne h len enough = rw (
    check_transfer_lem a lg c.is_set acc,
    ne→not-== _ _ ne,
    beat_bytes k a.p c.beat,
    le→leb _ _ (pow-le k lg h),
    memcpy-splice msg.payload 0 bytes (2 ^ k) (omega (arith, beat-le k c.beat.at_most_32)) enough,
  )

  -- A mask whose lowest enabled byte is byte `t` of the transfer, within the transfer.
  module _ (m t : ℕ) (odd : m % 2 ≡ 1) (within : m * 2 ^ t < 2 ^ 2 ^ lg) (sub : lg < k)
      (aligned : address % 2 ^ lg ≡ 0) where
    m_pos : 0 < m
    m_pos = omega arith

    regroup : m * 2 ^ t * 2 ^ (address % 2 ^ k) ≡ m * 2 ^ (t + address % 2 ^ k)
    regroup = mul_assoc m _ _ ∙ ap (λ z. m * z) (sym (pow-add t (address % 2 ^ k)))

    moved-lt : m * 2 ^ (t + address % 2 ^ k) < 2 ^ 32
    moved-lt = omega (
      arith,
      regroup,
      mul-lt-mul_of_pos_right within (pow-pos (address % 2 ^ k)),
      pow-add (2 ^ lg) (address % 2 ^ k),
      pow-le (2 ^ lg + address % 2 ^ k) 32 (
          omega (
            arith,
            offset-add-size k lg address (omega arith) aligned,
            beat-le k c.beat.at_most_32,
          )),
    )

    moved : u32 (m * 2 ^ t * 2 ^ (address % 2 ^ k)) ≡ m * 2 ^ (t + address % 2 ^ k)
    moved = omega (arith, regroup, moved-lt)

    lane-lt : t + address % 2 ^ k < 32
    lane-lt = elim (Bool-cases (ltb (t + address % 2 ^ k) 32)) [
      | inl below ↦ ground arith
      | inr above ↦ absurd (
          omega (
            arith,
            moved-lt,
            pow-le 32 (t + address % 2 ^ k) (ground arith),
            mul-le-mul_right (2 ^ (t + address % 2 ^ k)) m_pos,
          ))
    ]

    first_moved : first_bit_set_u32 (m * 2 ^ (t + address % 2 ^ k)) ≡ some (t + address % 2 ^ k)
    unfolding first_bit_set_u32
    first_moved = rw (
      ne→not-== (m * 2 ^ (t + address % 2 ^ k)) 0 (ne_of_gt (mul-pos m_pos (pow-pos _))),
      ctz-odd-mul 32 (t + address % 2 ^ k) m lane-lt odd,
    )

    shifts : align_mask_at a.p (m * 2 ^ t) lg address ≡ ok (m * 2 ^ (t + address % 2 ^ k))
    shifts =
        align_mask_at-aligned k a.p c.beat (m * 2 ^ t) lg address (omega arith) aligned
        ∙ ap ok moved

    pub put_partial_sub :
        t + address % 2 ^ k + 2 ^ lg ≤ 32
        → length msg.payload ≡ 32
        → 2 ^ lg ≤ length bytes
        → put_partial a msg from_source address lg (m * 2 ^ t) bytes
          ≡ ok (
              partial_message msg from_source address lg
                (m * 2 ^ (t + address % 2 ^ k))
                (splice msg.payload (t + address % 2 ^ k) bytes (2 ^ lg)))
    unfolding put_partial lane
    put_partial_sub fit len enough = rw (
      check_transfer_lem a lg c.is_set acc,
      ne→not-== (m * 2 ^ t) 0 (ne_of_gt (mul-pos m_pos (pow-pos t))),
      beat_bytes k a.p c.beat,
      lt→not-leb _ _ (pow-lt lg k sub),
      shifts,
      first_moved,
      memcpy-splice msg.payload (t + address % 2 ^ k) bytes (2 ^ lg) (omega arith) enough,
    )

    -- On a configured agent, for a transfer of less than a beat that the asserts accept, at an
    -- aligned address, with a mask that fits the transfer and whose lowest enabled byte is byte
    -- `t`: where the bytes of a transfer no longer fit the 32 of the message from that byte's lane
    -- on, the copy leaves the message, which is undefined behaviour.
    pub put_partial_sub_overrun :
        32 < t + address % 2 ^ k + 2 ^ lg
        → length msg.payload ≡ 32
        → put_partial a msg from_source address lg (m * 2 ^ t) bytes ≡ err undefined_behaviour
    unfolding put_partial lane
    put_partial_sub_overrun fit len = rw (
      check_transfer_lem a lg c.is_set acc,
      ne→not-== (m * 2 ^ t) 0 (ne_of_gt (mul-pos m_pos (pow-pos t))),
      beat_bytes k a.p c.beat,
      lt→not-leb _ _ (pow-lt lg k sub),
      shifts,
      first_moved,
      memcpy_overrun msg.payload (t + address % 2 ^ k) bytes (2 ^ lg) (omega arith),
    )
