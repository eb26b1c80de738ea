-- ===== src/Agent/Config.antt =====
-- What the message builders of sb_sim/include/tilelinklib.hpp ask of an agent and a transfer size.
use native.Mathlib.Nat.{mul-pos, ne_of_gt}
use switchboard_adapter.Base.{
  ℕ, ◌-◌, ◌*◌, ◌^◌, ◌≤◌, ◌<◌, ◌≡◌, ◌≢◌, true, some, le→leb, ne→not-==, arith,
}
use switchboard_adapter.Base.Result.{ok}
use switchboard_adapter.Base.Bits.{ctz-odd-mul, ones, pow-pos, pow-pred-odd, pow-le}
use switchboard_adapter.Agent.{TlAgent, first_bit_set_u32, check_transfer}
use switchboard_adapter.Agent.Mask.{IsBeat}

-- An agent that is set up for a beat of `2 ^ lg_beat` bytes.
pub record IsConfigured (lg_beat : ℕ) (a : TlAgent) : Type 0 where
  pub is_set : a.p_set ≡ true
  pub beat : IsBeat lg_beat a.p

-- The asserts on the transfer size hold.
pub record Accepts (a : TlAgent) (lg_size : ℕ) : Type 0 where
  pub at_most_12 : lg_size ≤ 12
  pub within_max : 2 ^ lg_size ≤ a.p.max_transfer_bytes

pub first_bit_set-ones : (s o : ℕ) → 0 < s → o < 32 → first_bit_set_u32 (ones s o) ≡ some o
unfolding first_bit_set_u32 ones
first_bit_set-ones s o pos h = rw (
  ne→not-== ((2 ^ s - 1) * 2 ^ o) 0 positive,
  ctz-odd-mul 32 o (2 ^ s - 1) h (pow-pred-odd s pos),
)
  where
    positive : (2 ^ s - 1) * 2 ^ o ≢ 0
    positive = ne_of_gt (mul-pos {m = 2 ^ s - 1} (omega (arith, pow-le 1 s pos)) (pow-pos o))

pub check_transfer_lem :
    (a : TlAgent) (lg : ℕ) → a.p_set ≡ true → Accepts a lg → check_transfer a lg ≡ ok tt
unfolding check_transfer
check_transfer_lem a lg set acc = rw (set, le→leb _ _ acc.at_most_12, le→leb _ _ acc.within_max)
