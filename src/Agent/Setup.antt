-- ===== src/Agent/Setup.antt =====
-- `set_TLBundleParams` of sb_sim/include/tilelinklib.hpp, for a TL-UL link.
use Prim.Native.String.{String}
use native.Mathlib.Nat.{ne_of_gt}
use switchboard_adapter.Base.{
  ℕ, ◌*◌, ◌%◌, ◌/◌, ◌^◌, ◌≤◌, ◌<◌, ◌≡◌, ◌↔◌, refl, true, false, le→leb, eq→==, ne→not-==, arith,
  Bool-cases, inl, inr, ltb,
}
use switchboard_adapter.Base.Result.{ok, err, params_already_set}
use switchboard_adapter.Base.Bits.{count_trailing_zeros, ctz-pow, pow-pos, pow-le, pow-lt}
use switchboard_adapter.Base.Words.{u8}
use switchboard_adapter.Wire.{TlBundleParams}
use switchboard_adapter.Agent.{TlAgent, set_ul_params, set_params, get_params}
use switchboard_adapter.Agent.Mask.{beat-le}
use switchboard_adapter.Agent.Config.{IsConfigured, Accepts}

-- The parameters of a TL-UL link with a beat of `2 ^ k` bytes.
abbrev pub ul_agent : String → ℕ → ℕ → ℕ → TlAgent
ul_agent name k addr_width src_width = record {
  info = name;
  p = record {
    address_bit_width = addr_width;
    source_bit_width = src_width;
    sink_bit_width = 1;
    size_bit_width = k;
    data_bit_width = 8 * 2 ^ k;
    max_transfer_bytes = 2 ^ k;
  };
  p_set = true;
}

pub set_ul_params_lem :
    (a : TlAgent) (name : String) (k addr_width src_width : ℕ)
    → a.p_set ≡ false
    → k ≤ 5
    → set_ul_params a name (8 * 2 ^ k) addr_width src_width
      ≡ ok (ul_agent name k addr_width src_width)
unfolding set_ul_params
set_ul_params_lem a name k addr_width src_width fresh h =
    rw
      (
        fresh,
        le→leb (8 * 2 ^ k) 256 (omega (arith, beat-le k h)),
        eq→== (8 * 2 ^ k % 8) 0 (omega arith),
        beat,
        ne→not-== (2 ^ k) 0 (ne_of_gt (pow-pos k)),
        ctz-pow 32 k (omega arith),
      )
      (ground (arith, small))
  where
    beat : 8 * 2 ^ k / 8 ≡ 2 ^ k
    beat = omega arith

    small : k % 2 ^ 8 ≡ k
    small = omega arith

size_le : (k lg : ℕ) → 2 ^ lg ≤ 2 ^ k → lg ≤ k
size_le k lg h = elim (Bool-cases (ltb k lg)) [
  | inl more ↦ absurd (omega (arith, pow-lt k lg (ground arith)))
  | inr less ↦ ground arith
]

-- On an agent that is not set up, the TL-UL overload with the width of a beat of `2 ^ k` bytes, up
-- to 32, sets the agent up for that beat under the given name, with transfers of one beat at most:
-- the sizes that the asserts of a request accept are those up to `k`. From then on the parameters
-- can be read, and neither overload succeeds.
pub set_ul_params-IsConfigured :
    (a : TlAgent) (name : String) (k addr_width src_width : ℕ)
    → a.p_set ≡ false
    → k ≤ 5
    → (b : TlAgent) × (set_ul_params a name (8 * 2 ^ k) addr_width src_width ≡ ok b)
      × IsConfigured k b
      × (b.info ≡ name)
      × (b.p.size_bit_width ≡ k)
      × (get_params b ≡ ok b.p)
      × ((lg : ℕ) → Accepts b lg ↔ (lg ≤ k))
      × ((n : String) (w x y : ℕ) → set_ul_params b n w x y ≡ err params_already_set)
      × ((n : String) (q : TlBundleParams) → set_params b n q ≡ err params_already_set)
unfolding get_params
set_ul_params-IsConfigured a name k addr_width src_width fresh h = (
  ul_agent name k addr_width src_width,
  set_ul_params_lem a name k addr_width src_width fresh h,
  record { is_set = refl; beat = record { width = refl; at_most_32 = h } },
  refl,
  refl,
  refl,
  λ lg. (
    λ acc. size_le k lg acc.within_max,
    λ l. record { at_most_12 = omega arith; within_max = pow-le lg k l },
  ),
  λ n w x y. unfold set_ul_params in refl,
  λ n q. unfold set_params in refl,
)

-- The TL-UL overload succeeds exactly for an agent that is not set up and a width of a positive
-- number of bytes, at most 32. That the number is a power of two is not asked.
pub set_ul_params_ok_iff :
    (a : TlAgent) (name : String) (data_width addr_width src_width : ℕ)
    → ((b : TlAgent) × (set_ul_params a name data_width addr_width src_width ≡ ok b))
      ↔ ((a.p_set ≡ false) × (0 < data_width) × (data_width ≤ 256) × (data_width % 8 ≡ 0))
unfolding set_ul_params
set_ul_params_ok_iff a name data_width addr_width src_width = (
  λ (b, e). ground arith,
  λ (fresh, pos, small, whole). (
    record {
      info = name;
      p = record {
        address_bit_width = addr_width;
        source_bit_width = src_width;
        sink_bit_width = 1;
        size_bit_width = u8 (count_trailing_zeros 32 (data_width / 8));
        data_bit_width = data_width;
        max_transfer_bytes = data_width / 8;
      };
      p_set = true;
    },
    ground arith,
  ),
)
