-- ===== src/Agent/Put.antt =====
-- `put` and `get` of sb_sim/include/tilelinklib.hpp, lane by lane.
use switchboard_adapter.Agent.Config.{IsConfigured, Accepts, first_bit_set-ones, check_transfer_lem}
use native.Mathlib.Nat.{mod-lt}
use switchboard_adapter.Base.{
  ℕ, ◌+◌, ◌-◌, ◌%◌, ◌^◌, ◌≤◌, ◌≡◌, refl, inl, inr, List, ltb, if◌then◌else◌, length, get_or, lt→ltb,
  le→not-ltb, Bool-cases, arith,
}
use switchboard_adapter.Base.Result.{ok, ◌>>=◌}
use switchboard_adapter.Base.Bits.{ones, test_bit, test_bit-ones, pow-pos, pow-le, pow-lt}
use switchboard_adapter.Base.Words.{memcpy}
use switchboard_adapter.Base.Memcpy.{splice, in_range, memcpy-splice, get_or-splice}
use switchboard_adapter.Wire.{TlMessageA, opcode_a, put_full_data, get as get_op}
use switchboard_adapter.Agent.{TlAgent, first_bit_set_u32, lane, put, get}
use switchboard_adapter.Agent.Mask.{
  IsLaneAligned, first_lane, lane_count, beat_bytes, beat-le, align_mask_lem, offset-add-size,
}

module _ (k lg address : ℕ) (le : k ≤ 5) (aligned : IsLaneAligned k lg address) where
  pub lanes_fit : first_lane k lg address + lane_count k lg ≤ 32
  lanes_fit = elim (Bool-cases (ltb lg k)) [
    | inl sub ↦ rw sub (
        omega (
          arith,
          offset-add-size k lg address (ground arith) (aligned (ground arith)),
          beat-le k le,
        ))
    | inr whole ↦ rw whole (omega (arith, beat-le k le))
  ]

module _ (k : ℕ) (a : TlAgent) (c : IsConfigured k a) where
  put_fill :
      (lg address : ℕ) (payload bytes : List ℕ)
      → IsLaneAligned k lg address
      → length payload ≡ 32
      → lane_count k lg ≤ length bytes
      → (if ltb (2 ^ lg) (2 ^ k)
          then (lane (first_bit_set_u32 (ones (lane_count k lg) (first_lane k lg address))) >>= λ i.
              memcpy payload i bytes (2 ^ lg))
          else memcpy payload 0 bytes (2 ^ k))
        ≡ ok (splice payload (first_lane k lg address) bytes (lane_count k lg))
  unfolding lane
  put_fill lg address payload bytes aligned len enough =
      let fit = lanes_fit k lg address c.beat.at_most_32 aligned in
      elim (Bool-cases (ltb lg k)) [
        | inl sub ↦
            rw
              (
                sub,
                lt→ltb _ _ (pow-lt lg k (ground arith)),
                first_bit_set-ones (2 ^ lg) (address % 2 ^ k) (pow-pos lg)
                    (omega (arith, mod-lt address (pow-pos k), beat-le k c.beat.at_most_32)),
              )
              (memcpy-splice payload (address % 2 ^ k) bytes (2 ^ lg) (ground arith) (ground arith))
        | inr whole ↦
            rw (whole, le→not-ltb _ _ (pow-le k lg (ground arith)))
              (memcpy-splice payload 0 bytes (2 ^ k) (ground arith) (ground arith))
      ]

  -- The message that `put` leaves.
  pub put_lem :
      (msg : TlMessageA) (from_source address lg : ℕ) (bytes : List ℕ)
      → Accepts a lg
      → IsLaneAligned k lg address
      → length msg.payload ≡ 32
      → lane_count k lg ≤ length bytes
      → put a msg from_source address lg bytes
        ≡ ok (record {
          opcode = opcode_a put_full_data;
          param = 0;
          size = lg;
          corrupt = 0;
          source = from_source;
          address = address;
          mask = ones (lane_count k lg) (first_lane k lg address);
          payload = splice msg.payload (first_lane k lg address) bytes (lane_count k lg);
        })
  unfolding put
  put_lem msg from_source address lg bytes acc aligned len enough = rw (
    check_transfer_lem a lg c.is_set acc,
    align_mask_lem k a c.is_set c.beat lg address (omega (arith, acc.at_most_12)) aligned,
    beat_bytes k a.p c.beat,
    put_fill lg address msg.payload bytes aligned len enough,
  )

  pub get_lem :
      (msg : TlMessageA) (from_source address lg : ℕ)
      → Accepts a lg
      → IsLaneAligned k lg address
      → get a msg from_source address lg
        ≡ ok (record {
          opcode = opcode_a get_op;
          param = 0;
          size = lg;
          corrupt = 0;
          source = from_source;
          address = address;
          mask = ones (lane_count k lg) (first_lane k lg address);
          payload = msg.payload;
        })
  unfolding get
  get_lem msg from_source address lg acc aligned = rw (
    check_transfer_lem a lg c.is_set acc,
    align_mask_lem k a c.is_set c.beat lg address (omega (arith, acc.at_most_12)) aligned,
  )

-- Lane `i` of a 32-byte payload.
abbrev pub byte_at : List ℕ → ℕ → ℕ
byte_at payload i = get_or payload i 0

-- `out` is a request for the transfer at `address`: its mask enables the transfer's lanes only, and
-- those of the payload hold `bytes` in order, while the others keep what was in `before`.
pub record IsRequest (lg_beat lg_size address : ℕ) (bytes before : List ℕ) (out : TlMessageA)
    : Type 0 where
  pub size_is : out.size ≡ lg_size
  pub address_is : out.address ≡ address
  pub clean : out.corrupt ≡ 0
  pub mask_lanes :
      (i : ℕ)
      → test_bit out.mask i
        ≡ in_range (first_lane lg_beat lg_size address) (lane_count lg_beat lg_size) i
  pub payload_lanes :
      (i : ℕ)
      → byte_at out.payload i ≡ (
          if in_range (first_lane lg_beat lg_size address) (lane_count lg_beat lg_size) i
          then byte_at bytes (i - first_lane lg_beat lg_size address)
          else byte_at before i)

module _ (k : ℕ) (a : TlAgent) (c : IsConfigured k a) where
  -- On a configured agent, for a transfer size that the asserts accept, an address aligned to it
  -- (where it is less than a beat) and enough source bytes, `put` returns a request whose mask
  -- enables exactly the lanes of the transfer and whose payload carries the bytes on those lanes.
  pub put-IsRequest :
      (msg : TlMessageA) (from_source address lg : ℕ) (bytes : List ℕ)
      → Accepts a lg
      → IsLaneAligned k lg address
      → length msg.payload ≡ 32
      → lane_count k lg ≤ length bytes
      → (out : TlMessageA) × (put a msg from_source address lg bytes ≡ ok out)
        × (out.opcode ≡ opcode_a put_full_data)
        × (out.source ≡ from_source)
        × IsRequest k lg address bytes msg.payload out
  put-IsRequest msg from_source address lg bytes acc aligned len enough =
      let first = first_lane k lg address in
      let count = lane_count k lg in
      let fit : first + count ≤ length msg.payload =
        omega (arith, lanes_fit k lg address c.beat.at_most_32 aligned) in
      (
        record {
          opcode = opcode_a put_full_data;
          param = 0;
          size = lg;
          corrupt = 0;
          source = from_source;
          address = address;
          mask = ones count first;
          payload = splice msg.payload first bytes count;
        },
        put_lem k a c msg from_source address lg bytes acc aligned len enough,
        refl,
        refl,
        record {
          size_is = refl;
          address_is = refl;
          clean = refl;
          mask_lanes = test_bit-ones count first;
          payload_lanes = get_or-splice msg.payload first bytes count fit enough;
        },
      )

  -- On a configured agent, for a transfer size that the asserts accept and an address aligned to
  -- it (where it is less than a beat), `get` returns a request with the given source, size and
  -- address, whose mask enables exactly the lanes of the transfer and whose payload is what the
  -- message held.
  pub get-IsRequest :
      (msg : TlMessageA) (from_source address lg : ℕ)
      → Accepts a lg
      → IsLaneAligned k lg address
      → (out : TlMessageA) × (get a msg from_source address lg ≡ ok out)
        × (out.opcode ≡ opcode_a get_op)
        × (out.source ≡ from_source)
        × (out.size ≡ lg)
        × (out.address ≡ address)
        × (out.payload ≡ msg.payload)
        × ((i : ℕ) → test_bit out.mask i ≡ in_range (first_lane k lg address) (lane_count k lg) i)
  get-IsRequest msg from_source address lg acc aligned = (
    record {
      opcode = opcode_a get_op;
      param = 0;
      size = lg;
      corrupt = 0;
      source = from_source;
      address = address;
      mask = ones (lane_count k lg) (first_lane k lg address);
      payload = msg.payload;
    },
    get_lem k a c msg from_source address lg acc aligned,
    refl,
    refl,
    refl,
    refl,
    refl,
    test_bit-ones (lane_count k lg) (first_lane k lg address),
  )
