-- ===== src/Agent/PartialLanes.antt =====
-- `putPartial` of sb_sim/include/tilelinklib.hpp on less than a beat, lane by lane, and beside `put`.
use native.Mathlib.Nat.{mul-one, zero-add}
use switchboard_adapter.Base.{
  ℕ, ◌+◌, ◌-◌, ◌*◌, ◌%◌, ◌^◌, ◌≤◌, ◌<◌, ◌≡◌, ◌≢◌, refl, true, inl, inr, Bool-cases, List, leb, ltb,
  ◌&&◌, ◌∙◌, sym, if◌then◌else◌, length, arith,
}
use switchboard_adapter.Base.Result.{ok, ◌>>=◌}
use switchboard_adapter.Base.Bits.{test_bit, test_bit-shift, pow-pred-odd, ones, pow-pos, pow-le}
use switchboard_adapter.Base.Memcpy.{splice, in_range, get_or-splice}
use switchboard_adapter.Wire.{TlMessageA, opcode_a, put_partial_data}
use switchboard_adapter.Agent.{TlAgent, put, put_partial}
use switchboard_adapter.Agent.Mask.{beat-le, offset-add-size, lane_count, IsLaneAligned}
use switchboard_adapter.Agent.Config.{IsConfigured, Accepts}
use switchboard_adapter.Agent.Put.{byte_at, put_lem}
use switchboard_adapter.Agent.Partial.{partial_message, put_partial_sub, put_partial_whole}

module _ (k : ℕ) (a : TlAgent) (c : IsConfigured k a) (msg : TlMessageA)
    (from_source address lg : ℕ) (bytes : List ℕ) (acc : Accepts a lg) (sub : lg < k)
    (aligned : address % 2 ^ lg ≡ 0) (len : length msg.payload ≡ 32) where
  end-le : address % 2 ^ k + 2 ^ lg ≤ 32
  end-le =
      omega (arith, offset-add-size k lg address (omega arith) aligned, beat-le k c.beat.at_most_32)

  -- On a configured agent, for a transfer of less than a beat that the asserts accept, at an
  -- aligned address, with a mask that fits the transfer and enables its first byte, and enough
  -- source bytes, `put_partial` returns a message whose mask is the given one, moved to the
  -- transfer's slot, and whose payload has byte `j` of the source on lane `j` of that slot; all
  -- other lanes keep their bytes.
  pub put_partial_lanes :
      (mask : ℕ)
      → mask % 2 ≡ 1
      → mask < 2 ^ 2 ^ lg
      → 2 ^ lg ≤ length bytes
      → (out : TlMessageA) × (put_partial a msg from_source address lg mask bytes ≡ ok out)
        × (out.opcode ≡ opcode_a put_partial_data)
        × ((i : ℕ)
            → test_bit out.mask i
              ≡ (leb (address % 2 ^ k) i && test_bit mask (i - address % 2 ^ k)))
        × ((i : ℕ)
            → byte_at out.payload i ≡ (
                if in_range (address % 2 ^ k) (2 ^ lg) i
                then byte_at bytes (i - address % 2 ^ k)
                else byte_at msg.payload i))
  put_partial_lanes mask odd within enough = (
    partial_message msg from_source address lg (mask * 2 ^ (address % 2 ^ k))
        (splice msg.payload (address % 2 ^ k) bytes (2 ^ lg)),
    fill,
    refl,
    test_bit-shift mask (address % 2 ^ k),
    get_or-splice msg.payload (address % 2 ^ k) bytes (2 ^ lg) (omega (arith, end-le)) enough,
  )
    where
      whole :
          put_partial a msg from_source address lg (mask * 2 ^ 0) bytes
          ≡ ok (
              partial_message msg from_source address lg
                (mask * 2 ^ (0 + address % 2 ^ k))
                (splice msg.payload (0 + address % 2 ^ k) bytes (2 ^ lg)))
      whole =
          put_partial_sub k a c msg from_source address lg bytes acc mask 0 odd (omega arith) sub
            aligned (omega (arith, end-le)) len enough

      fill :
          put_partial a msg from_source address lg mask bytes
          ≡ ok (
              partial_message msg from_source address lg
                (mask * 2 ^ (address % 2 ^ k))
                (splice msg.payload (address % 2 ^ k) bytes (2 ^ lg)))
      fill = rw (mul-one, zero-add) at whole

  -- On a configured agent, for a transfer of less than a beat that the asserts accept, at an
  -- aligned address, with a mask that fits the transfer and whose lowest enabled byte is byte `t`,
  -- not the first: where a transfer's bytes still fit the message from that byte's lane on, that
  -- lane is enabled but holds byte 0 of the source; so it is wrong if byte `t` of the source
  -- differs.
  pub put_partial_misplaced :
      (m t : ℕ)
      → m % 2 ≡ 1
      → 0 < t
      → m * 2 ^ t < 2 ^ 2 ^ lg
      → t + address % 2 ^ k + 2 ^ lg ≤ 32
      → 2 ^ lg ≤ length bytes
      → byte_at bytes 0 ≢ byte_at bytes t
      → (out : TlMessageA) × (put_partial a msg from_source address lg (m * 2 ^ t) bytes ≡ ok out)
        × (test_bit out.mask (address % 2 ^ k + t) ≡ true)
        × (byte_at out.payload (address % 2 ^ k + t) ≡ byte_at bytes 0)
        × (byte_at out.payload (address % 2 ^ k + t) ≢ byte_at bytes t)
  put_partial_misplaced m t odd pos within fit enough differ = (
    partial_message msg from_source address lg (m * 2 ^ (t + address % 2 ^ k))
        (splice msg.payload (t + address % 2 ^ k) bytes (2 ^ lg)),
    put_partial_sub k a c msg from_source address lg bytes acc m t odd within sub aligned fit len
        enough,
    enabled,
    first,
    λ e. differ (sym first ∙ e),
  )
    where
      place : ℕ
      place = address % 2 ^ k + t

      at_zero : place - (t + address % 2 ^ k) ≡ 0
      at_zero = omega arith

      first :
          byte_at (splice msg.payload (t + address % 2 ^ k) bytes (2 ^ lg)) (address % 2 ^ k + t)
          ≡ byte_at bytes 0
      first =
          get_or-splice msg.payload (t + address % 2 ^ k) bytes (2 ^ lg) (omega arith) enough place
          ∙ rw (at_zero) (ground (arith, pow-pos lg))

      enabled : test_bit (m * 2 ^ (t + address % 2 ^ k)) (address % 2 ^ k + t) ≡ true
      enabled = test_bit-shift m (t + address % 2 ^ k) place ∙ rw at_zero (ground arith)

ones-ne-zero : (k : ℕ) → ones (2 ^ k) 0 ≢ 0
unfolding ones
ones-ne-zero k = omega (arith, pow-le 1 (2 ^ k) (pow-pos k))

sub_full :
    (k : ℕ) (a : TlAgent) (c : IsConfigured k a) (msg : TlMessageA) (from_source address lg : ℕ)
    (bytes : List ℕ)
    → Accepts a lg
    → lg < k
    → address % 2 ^ lg ≡ 0
    → length msg.payload ≡ 32
    → 2 ^ lg ≤ length bytes
    → put_partial a msg from_source address lg (ones (2 ^ lg) 0) bytes
      ≡ ok (
          partial_message msg from_source address lg
            (ones (2 ^ lg) (address % 2 ^ k))
            (splice msg.payload (address % 2 ^ k) bytes (2 ^ lg)))
unfolding ones
sub_full k a c msg from_source address lg bytes acc sub aligned len enough = rw zero-add at (
    put_partial_sub k a c msg from_source address lg bytes acc (2 ^ 2 ^ lg - 1) 0
      (pow-pred-odd (2 ^ lg) (pow-pos lg)) (omega (arith, pow-pos (2 ^ lg))) sub aligned
      (omega (arith, end-le k a c msg from_source address lg bytes acc sub aligned len)) len enough)

-- On a configured agent, for a transfer size that the asserts accept, an address aligned to it
-- (where it is less than a beat) and enough source bytes, `put_partial` with every byte enabled
-- fills the message as `put` does, but for the opcode.
pub put_partial_full-put :
    (k : ℕ) (a : TlAgent) (msg : TlMessageA) (from_source address lg : ℕ) (bytes : List ℕ)
    → IsConfigured k a
    → Accepts a lg
    → IsLaneAligned k lg address
    → length msg.payload ≡ 32
    → lane_count k lg ≤ length bytes
    → put_partial a msg from_source address lg (ones (lane_count k lg) 0) bytes ≡ (
        put a msg from_source address lg bytes >>= λ out.
        ok (record out { opcode = opcode_a put_partial_data }))
put_partial_full-put k a msg from_source address lg bytes c acc aligned len enough =
    rw (put_lem k a c msg from_source address lg bytes acc aligned len enough)
      (elim (Bool-cases (ltb lg k)) [
        | inl sub ↦ rw sub (
            sub_full k a c msg from_source address lg bytes acc (ground arith)
              (aligned (ground arith)) len (ground arith))
        | inr whole ↦ rw whole (
            put_partial_whole k a c msg from_source address lg bytes acc (ones (2 ^ k) 0)
              (ones-ne-zero k) (ground arith) len (ground arith))
      ])
