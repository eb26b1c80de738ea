-- ===== src/Agent/Refuse.antt =====
-- The asserts of the message builders of sb_sim/include/tilelinklib.hpp, as errors.
use switchboard_adapter.Base.{
  ℕ, ◌%◌, ◌^◌, ◌≤◌, ◌<◌, ◌≡◌, ◌≢◌, true, false, List, le→leb, lt→not-leb, ne→not-==, ==→eq, ◌==◌,
  leb, ◌⊎◌, inl, inr, ◌↔◌, ◌∙◌, sym, Bool-cases, length, arith,
}
use switchboard_adapter.Base.Result.{
  Error, ok, err, params_not_set, lg_size_exceeds_4096, lg_size_exceeds_max_transfer,
  address_not_aligned_to_size,
}
use switchboard_adapter.Base.Bits.{pow-lt}
use switchboard_adapter.Wire.{TlMessageA, TlMessageD}
use switchboard_adapter.Agent.{TlAgent, check_transfer, put, put_partial, get, access_ack_data}
use switchboard_adapter.Agent.Mask.{
  IsBeat, IsLaneAligned, lane_count, beat_bytes, align_mask_at-misaligned, align_mask-misaligned,
}
use switchboard_adapter.Agent.Put.{put_lem, get_lem}
use switchboard_adapter.Agent.Respond.{responses_lem}
use switchboard_adapter.Agent.Config.{IsConfigured, Accepts, check_transfer_lem}

-- All four builders that check the transfer size end by `e`, whatever else they are given.
pub record Refuses (a : TlAgent) (lg_size : ℕ) (e : Error) : Type 0 where
  pub put_refused :
      (msg : TlMessageA) (source address : ℕ) (bytes : List ℕ)
      → put a msg source address lg_size bytes ≡ err e
  pub put_partial_refused :
      (msg : TlMessageA) (source address mask : ℕ) (bytes : List ℕ)
      → put_partial a msg source address lg_size mask bytes ≡ err e
  pub get_refused :
      (msg : TlMessageA) (source address : ℕ) → get a msg source address lg_size ≡ err e
  pub access_ack_data_refused :
      (msg : TlMessageD) (source : ℕ) (bytes : List ℕ) (denied : ℕ)
      → access_ack_data a msg source lg_size bytes denied ≡ err e

check_transfer-Refuses :
    (a : TlAgent) (lg : ℕ) (e : Error) → check_transfer a lg ≡ err e → Refuses a lg e
unfolding put put_partial get access_ack_data
check_transfer-Refuses a lg e h = record {
  put_refused = λ msg source address bytes. rw h;
  put_partial_refused = λ msg source address mask bytes. rw h;
  get_refused = λ msg source address. rw h;
  access_ack_data_refused = λ msg source bytes denied. rw h;
}

-- The first assert on the transfer size that fails.
pub data TransferFails (a : TlAgent) (lg_size : ℕ) : Error → Type 0 where
  not_set : a.p_set ≡ false → TransferFails a lg_size params_not_set
  above_4096 : a.p_set ≡ true → 12 < lg_size → TransferFails a lg_size lg_size_exceeds_4096
  above_max :
      a.p_set ≡ true
      → lg_size ≤ 12
      → a.p.max_transfer_bytes < 2 ^ lg_size
      → TransferFails a lg_size lg_size_exceeds_max_transfer

-- Each builder that checks the transfer then fails, whatever else it is given.
transfer_refused : (a : TlAgent) (lg : ℕ) (e : Error) → TransferFails a lg e → Refuses a lg e
unfolding check_transfer
transfer_refused a lg e (not_set unset) = check_transfer-Refuses a lg _ (rw unset)
transfer_refused a lg e (above_4096 set big) =
    check_transfer-Refuses a lg _ (rw (set, lt→not-leb _ _ big))
transfer_refused a lg e (above_max set small long) =
    check_transfer-Refuses a lg _ (rw (set, le→leb _ _ small, lt→not-leb _ _ long))

-- On a configured agent, a transfer of less than a beat, of a size that the asserts accept, at an
-- address that is not a multiple of its size is refused by `put`, by `get`, and by `put_partial`
-- with a mask that enables a byte.
pub misaligned_refused :
    (k : ℕ) (a : TlAgent) (lg address source mask : ℕ) (bytes : List ℕ) (msg : TlMessageA)
    → IsConfigured k a
    → Accepts a lg
    → lg < k
    → address % 2 ^ lg ≢ 0
    → mask ≢ 0
    → (put a msg source address lg bytes ≡ err address_not_aligned_to_size)
      × (get a msg source address lg ≡ err address_not_aligned_to_size)
      × (put_partial a msg source address lg mask bytes ≡ err address_not_aligned_to_size)
unfolding put get put_partial
misaligned_refused k a lg address source mask bytes msg c acc sub odd ne = (
  rw (
    check_transfer_lem a lg c.is_set acc,
    align_mask-misaligned k a c.is_set c.beat lg address sub odd,
  ),
  rw (
    check_transfer_lem a lg c.is_set acc,
    align_mask-misaligned k a c.is_set c.beat lg address sub odd,
  ),
  rw (
    check_transfer_lem a lg c.is_set acc,
    ne→not-== _ _ ne,
    beat_bytes k a.p c.beat,
    lt→not-leb _ _ (pow-lt lg k sub),
    align_mask_at-misaligned k a.p c.beat mask lg address (omega arith) odd,
  ),
)

-- What the asserts on a transfer ask for.
abbrev pub IsTransfer : ℕ → TlAgent → ℕ → Type 0
IsTransfer k a lg = (a.p_set ≡ true) × (lg ≤ 12) × (2 ^ lg ≤ a.p.max_transfer_bytes)

size_cases : (k : ℕ) (a : TlAgent) (lg : ℕ) → IsTransfer k a lg ⊎ ((e : Error) × Refuses a lg e)
size_cases k a lg = elim (Bool-cases a.p_set) [
  | inr unset ↦ inr (params_not_set, transfer_refused a lg _ (not_set unset))
  | inl set ↦ elim (Bool-cases (leb lg 12)) [
    | inr big ↦ inr (lg_size_exceeds_4096, transfer_refused a lg _ (above_4096 set (ground arith)))
    | inl small ↦ elim (Bool-cases (leb (2 ^ lg) a.p.max_transfer_bytes)) [
      | inr long ↦ inr (
        lg_size_exceeds_max_transfer,
        transfer_refused a lg _ (above_max set (ground arith) (ground arith)),
      )
      | inl short ↦ inl (set, ground arith, ground arith)
    ]
  ]
]

module _ (k : ℕ) (a : TlAgent) (beat : IsBeat k a.p) (lg address source : ℕ) (bytes : List ℕ)
    (msg : TlMessageA) (len : length msg.payload ≡ 32)
    (enough : lane_count k lg ≤ length bytes) where
  request_made :
      IsTransfer k a lg
      → IsLaneAligned k lg address
      → ((m : TlMessageA) × (put a msg source address lg bytes ≡ ok m))
        × ((m : TlMessageA) × (get a msg source address lg ≡ ok m))
  request_made (set, small, short) aligned =
      let c : IsConfigured k a = record { is_set = set; beat = beat } in
      let acc : Accepts a lg = record { at_most_12 = small; within_max = short } in
      (
        (_, put_lem k a c msg source address lg bytes acc aligned len enough),
        (_, get_lem k a c msg source address lg acc aligned),
      )

  -- A transfer of at least a beat, or at a multiple of its size.
  abbrev Aligned : Type 0
  Aligned = (k ≤ lg) ⊎ (address % 2 ^ lg ≡ 0)

  aligned_lanes : Aligned → IsLaneAligned k lg address
  aligned_lanes (inl whole) sub = absurd (omega arith)
  aligned_lanes (inr even) sub = even

  request_cases :
      (IsTransfer k a lg × Aligned)
      ⊎ ((e : Error) × (put a msg source address lg bytes ≡ err e)
          × (get a msg source address lg ≡ err e))
  request_cases = elim (size_cases k a lg) [
    | inr (e, refuses) ↦
        inr
          (e, refuses.put_refused msg source address bytes, refuses.get_refused msg source address)
    | inl (set, small, short) ↦ elim (Bool-cases (leb k lg)) [
      | inl whole ↦ inl ((set, small, short), inl (ground arith))
      | inr sub ↦ elim (Bool-cases (address % 2 ^ lg == 0)) [
        | inl even ↦ inl ((set, small, short), inr (==→eq _ _ even))
        | inr odd ↦
            let refused =
              misaligned_refused k a lg address source 1 bytes msg
                (record { is_set = set; beat = beat })
                (record { at_most_12 = small; within_max = short }) (ground arith) (ground arith)
                (omega arith) in
            inr (address_not_aligned_to_size, refused.0, refused.1)
      ]
    ]
  ]

  -- On any agent with beats of `2 ^ k` bytes, up to 32, set up or not, and with bytes and a message for
  -- the lanes of a transfer: `put` and `get` return a request exactly if the parameters are set, the
  -- transfer has at most 4096 bytes and no more than the link's maximum, and it has at least a beat or
  -- its address is a multiple of its size. With the bytes of a beat, `access_ack_data` returns a response
  -- exactly if the first three of these hold.
  pub builders_ok_iff :
      (answer : TlMessageD) (denied : ℕ)
      → length answer.payload ≡ 32
      → 2 ^ k ≤ length bytes
      → (((m : TlMessageA) × (put a msg source address lg bytes ≡ ok m)) ↔ (
          (a.p_set ≡ true)
          × (lg ≤ 12)
          × (2 ^ lg ≤ a.p.max_transfer_bytes)
          × ((k ≤ lg) ⊎ (address % 2 ^ lg ≡ 0))))
        × (((m : TlMessageA) × (get a msg source address lg ≡ ok m)) ↔ (
            (a.p_set ≡ true)
            × (lg ≤ 12)
            × (2 ^ lg ≤ a.p.max_transfer_bytes)
            × ((k ≤ lg) ⊎ (address % 2 ^ lg ≡ 0))))
        × (((m : TlMessageD) × (access_ack_data a answer source lg bytes denied ≡ ok m))
            ↔ ((a.p_set ≡ true) × (lg ≤ 12) × (2 ^ lg ≤ a.p.max_transfer_bytes)))
  builders_ok_iff answer denied answer_len whole_beat = (
    (
      λ (m, e). elim request_cases [
        | inl ((set, small, short), at) ↦ (set, small, short, at)
        | inr (e', refused, _) ↦ absurd (cc (sym e ∙ refused))
      ],
      λ (set, small, short, at). (request_made (set, small, short) (aligned_lanes at)).0,
    ),
    (
      λ (m, e). elim request_cases [
        | inl ((set, small, short), at) ↦ (set, small, short, at)
        | inr (e', _, refused) ↦ absurd (cc (sym e ∙ refused))
      ],
      λ (set, small, short, at). (request_made (set, small, short) (aligned_lanes at)).1,
    ),
    (
      λ (m, e). elim (size_cases k a lg) [
        | inl t ↦ t
        | inr (e', refuses) ↦
            absurd (cc (sym e ∙ refuses.access_ack_data_refused answer source bytes denied))
      ],
      λ (set, small, short).
          let (out, runs, _, _, _, _) =
            (responses_lem k a answer source lg bytes denied (record { is_set = set; beat = beat })
              (record { at_most_12 = small; within_max = short }) answer_len whole_beat).0 in
          (out, runs),
    ),
  )
