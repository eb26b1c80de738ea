-- ===== src/Agent/Respond.antt =====
-- `accessAckData` and `accessAck` of sb_sim/include/tilelinklib.hpp.
use native.Mathlib.Nat.{sub-zero}
use switchboard_adapter.Base.{ℕ, ◌+◌, ◌^◌, ◌≤◌, ◌≡◌, refl, List, if◌then◌else◌, length, arith}
use switchboard_adapter.Base.Result.{ok}
use switchboard_adapter.Base.Words.{u8}
use switchboard_adapter.Base.Memcpy.{splice, in_range, memcpy-splice, get_or-splice}
use switchboard_adapter.Wire.{
  TlMessageD, opcode_d, access_ack as access_ack_op, access_ack_data as access_ack_data_op,
}
use switchboard_adapter.Agent.{TlAgent, access_ack, access_ack_data}
use switchboard_adapter.Agent.Mask.{beat_bytes, beat-le}
use switchboard_adapter.Agent.Config.{IsConfigured, Accepts, check_transfer_lem}
use switchboard_adapter.Agent.Put.{byte_at}

-- The fields that both responses set.
pub record IsResponse (source lg_size denied : ℕ) (out : TlMessageD) : Type 0 where
  pub source_is : out.source ≡ source
  pub size_is : out.size ≡ lg_size
  pub sink_is : out.sink ≡ 0
  pub clean : out.corrupt ≡ 0
  pub denied_is : out.denied ≡ u8 denied

-- On a configured agent, for a size that the asserts accept and at least a beat of bytes, both
-- responses echo the source and the size and keep the low byte of `denied`. `access_ack_data`
-- fills the lanes of the beat and no other; `access_ack` leaves the payload. Neither writes
-- `reserved`.
pub responses_lem :
    (k : ℕ) (a : TlAgent) (msg : TlMessageD) (source lg : ℕ) (bytes : List ℕ) (denied : ℕ)
    → IsConfigured k a
    → Accepts a lg
    → length msg.payload ≡ 32
    → 2 ^ k ≤ length bytes
    → ((out : TlMessageD) × (access_ack_data a msg source lg bytes denied ≡ ok out)
        × (out.opcode ≡ opcode_d access_ack_data_op)
        × IsResponse source lg denied out
        × ((i : ℕ)
            → byte_at out.payload i
              ≡ (if in_range 0 (2 ^ k) i then byte_at bytes i else byte_at msg.payload i))
        × (out.reserved ≡ msg.reserved))
      × ((out : TlMessageD) × (access_ack a msg source lg denied ≡ ok out)
          × (out.opcode ≡ opcode_d access_ack_op)
          × IsResponse source lg denied out
          × (out.payload ≡ msg.payload)
          × (out.reserved ≡ msg.reserved))
unfolding access_ack access_ack_data
responses_lem k a msg source lg bytes denied c acc len enough = (
  (
    record msg {
      opcode = opcode_d access_ack_data_op;
      param = 0;
      size = lg;
      source = source;
      sink = 0;
      payload = splice msg.payload 0 bytes (2 ^ k);
      corrupt = 0;
      denied = u8 denied;
    },
    rw (
      check_transfer_lem a lg c.is_set acc,
      beat_bytes k a.p c.beat,
      memcpy-splice msg.payload 0 bytes (2 ^ k) fit enough,
    ),
    refl,
    record { source_is = refl; size_is = refl; sink_is = refl; clean = refl; denied_is = refl },
    λ i. rw sub-zero at (get_or-splice msg.payload 0 bytes (2 ^ k) fit enough i),
    refl,
  ),
  (
    record msg {
      opcode = opcode_d access_ack_op;
      param = 0;
      size = lg;
      source = source;
      sink = 0;
      corrupt = 0;
      denied = u8 denied;
    },
    rw c.is_set,
    refl,
    record { source_is = refl; size_is = refl; sink_is = refl; clean = refl; denied_is = refl },
    refl,
    refl,
  ),
)
  where
    fit : 0 + 2 ^ k ≤ length msg.payload
    fit = omega (arith, beat-le k c.beat.at_most_32)
