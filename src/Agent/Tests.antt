-- ===== src/Agent/Tests.antt =====
-- The builders on an agent with beats of 8 bytes and transfers of at most 64.
use Prim.Native.String.{String}
use switchboard_adapter.Base.{
  ℕ, ◌+◌, ◌-◌, ◌*◌, ◌%◌, ◌^◌, ◌≤◌, ◌<◌, ◌≡◌, ◌≢◌, ◌↔◌, ◌⊎◌, refl, true, false, ◌&&◌, List, [], ◌∷◌,
  replicate, leb, if◌then◌else◌, arith,
}
use switchboard_adapter.Base.Bits.{test_bit, ones}
use switchboard_adapter.Base.Memcpy.{in_range}
use switchboard_adapter.Base.Result.{
  ok, err, ◌>>=◌, undefined_behaviour, address_not_aligned_to_size, params_already_set,
}
use switchboard_adapter.Wire.{
  TlMessageA, TlMessageD, TlBundleParams, opcode_a, opcode_d, put_full_data, put_partial_data,
  get as get_op, access_ack as access_ack_op, access_ack_data as access_ack_data_op,
}
use switchboard_adapter.Agent.{
  TlAgent, set_ul_params, set_params, get_params, put, put_partial, get, access_ack,
  access_ack_data,
}
use switchboard_adapter.Agent.Config.{IsConfigured, Accepts}
use switchboard_adapter.Agent.Put.{IsRequest, byte_at, put-IsRequest, get-IsRequest}
use switchboard_adapter.Agent.Partial.{put_partial_sub_overrun}
use switchboard_adapter.Agent.PartialLanes.{
  put_partial_lanes, put_partial_misplaced, put_partial_full-put,
}
use switchboard_adapter.Agent.Refuse.{builders_ok_iff, misaligned_refused}
use switchboard_adapter.Agent.Respond.{IsResponse, responses_lem}
use switchboard_adapter.Agent.Setup.{set_ul_params-IsConfigured, set_ul_params_ok_iff}

abbrev agent : TlAgent
agent = record {
  info = "agent";
  p = record {
    address_bit_width = 64;
    source_bit_width = 32;
    sink_bit_width = 32;
    size_bit_width = 4;
    data_bit_width = 64;
    max_transfer_bytes = 64;
  };
  p_set = true;
}

abbrev wide_agent : TlAgent
wide_agent = record agent { p = record agent.p { data_bit_width = 256 } }

abbrev unset_agent : TlAgent
unset_agent = record agent { p_set = false }

abbrev msg : TlMessageA
msg = record {
  opcode = 7;
  param = 7;
  size = 7;
  corrupt = 7;
  source = 7;
  address = 7;
  mask = 7;
  payload = replicate 32 170;
}

abbrev msg_d : TlMessageD
msg_d = record {
  opcode = 7;
  param = 7;
  size = 7;
  corrupt = 7;
  source = 7;
  sink = 7;
  denied = 7;
  payload = replicate 32 170;
  reserved = replicate 7 170;
}

abbrev eight : List ℕ
eight = 1 ∷ 2 ∷ 3 ∷ 4 ∷ 5 ∷ 6 ∷ 7 ∷ 8 ∷ []

agent-IsConfigured : IsConfigured 3 agent
agent-IsConfigured = record {
  is_set = refl;
  beat = record { width = refl; at_most_32 = omega arith };
}

wide_agent-IsConfigured : IsConfigured 5 wide_agent
wide_agent-IsConfigured = record {
  is_set = refl;
  beat = record { width = refl; at_most_32 = omega arith };
}

agent-Accepts : (lg : ℕ) → lg ≤ 6 → 2 ^ lg ≤ 64 → Accepts agent lg
agent-Accepts lg h le = record { at_most_12 = omega arith; within_max = le }

wide_agent-Accepts : Accepts wide_agent 3
wide_agent-Accepts = record { at_most_12 = omega arith; within_max = omega arith }

-- Four bytes at the upper half of a beat.
put-IsRequest_example :
    (out : TlMessageA) × (put agent msg 5 20 2 eight ≡ ok out)
    × (out.opcode ≡ opcode_a put_full_data)
    × (out.source ≡ 5)
    × IsRequest 3 2 20 eight msg.payload out
put-IsRequest_example =
    put-IsRequest 3 agent agent-IsConfigured msg 5 20 2 eight
      (agent-Accepts 2 (omega arith) (omega arith)) (λ _. refl) refl (omega arith)

get-IsRequest_example :
    (out : TlMessageA) × (get agent msg 5 20 2 ≡ ok out)
    × (out.opcode ≡ opcode_a get_op)
    × (out.source ≡ 5)
    × (out.size ≡ 2)
    × (out.address ≡ 20)
    × (out.payload ≡ msg.payload)
    × ((i : ℕ) → test_bit out.mask i ≡ in_range 4 4 i)
get-IsRequest_example =
    get-IsRequest 3 agent agent-IsConfigured msg 5 20 2
      (agent-Accepts 2 (omega arith) (omega arith)) (λ _. refl)

-- Bytes 0 and 2 of the four.
put_partial_lanes_example :
    (out : TlMessageA) × (put_partial agent msg 5 20 2 5 eight ≡ ok out)
    × (out.opcode ≡ opcode_a put_partial_data)
    × ((i : ℕ) → test_bit out.mask i ≡ (leb 4 i && test_bit 5 (i - 4)))
    × ((i : ℕ)
        → byte_at out.payload i
          ≡ (if in_range 4 4 i then byte_at eight (i - 4) else byte_at msg.payload i))
put_partial_lanes_example =
    put_partial_lanes 3 agent agent-IsConfigured msg 5 20 2 eight
      (agent-Accepts 2 (omega arith) (omega arith)) (omega arith) refl refl 5 refl (omega arith)
      (omega arith)

put_partial_full-put_example :
    put_partial agent msg 5 20 2 (ones 4 0) eight
    ≡ (put agent msg 5 20 2 eight >>= λ out. ok (record out { opcode = opcode_a put_partial_data }))
put_partial_full-put_example =
    put_partial_full-put 3 agent msg 5 20 2 eight agent-IsConfigured
      (agent-Accepts 2 (omega arith) (omega arith)) (λ _. refl) refl (omega arith)

-- Byte 1 alone, of two at the start of a beat.
put_partial_misplaced_example :
    (out : TlMessageA) × (put_partial agent msg 5 16 1 (1 * 2 ^ 1) eight ≡ ok out)
    × (test_bit out.mask (0 + 1) ≡ true)
    × (byte_at out.payload (0 + 1) ≡ 1)
    × (byte_at out.payload (0 + 1) ≢ 2)
put_partial_misplaced_example =
    put_partial_misplaced 3 agent agent-IsConfigured msg 5 16 1 eight
      (agent-Accepts 1 (omega arith) (omega arith)) (omega arith) refl refl 1 1 refl (omega arith)
      (omega arith) (omega arith) (omega arith) (omega arith)

-- Byte 7 alone, of the last eight of a 32-byte beat.
put_partial_sub_overrun_example :
    put_partial wide_agent msg 5 24 3 (1 * 2 ^ 7) eight ≡ err undefined_behaviour
put_partial_sub_overrun_example =
    put_partial_sub_overrun 5 wide_agent wide_agent-IsConfigured msg 5 24 3 eight wide_agent-Accepts
      1 7 refl (omega arith) (omega arith) refl (omega arith) refl

responses_lem_example :
    ((out : TlMessageD) × (access_ack_data agent msg_d 5 4 eight 256 ≡ ok out)
      × (out.opcode ≡ opcode_d access_ack_data_op)
      × IsResponse 5 4 256 out
      × ((i : ℕ)
          → byte_at out.payload i
            ≡ (if in_range 0 8 i then byte_at eight i else byte_at msg_d.payload i))
      × (out.reserved ≡ msg_d.reserved))
    × ((out : TlMessageD) × (access_ack agent msg_d 5 4 256 ≡ ok out)
        × (out.opcode ≡ opcode_d access_ack_op)
        × IsResponse 5 4 256 out
        × (out.payload ≡ msg_d.payload)
        × (out.reserved ≡ msg_d.reserved))
responses_lem_example =
    responses_lem 3 agent msg_d 5 4 eight 256 agent-IsConfigured
      (agent-Accepts 4 (omega arith) (omega arith)) refl (omega arith)

builders_ok_iff_example :
    (((m : TlMessageA) × (put agent msg 5 22 2 eight ≡ ok m))
      ↔ ((agent.p_set ≡ true) × (2 ≤ 12) × (2 ^ 2 ≤ 64) × ((3 ≤ 2) ⊎ (22 % 2 ^ 2 ≡ 0))))
    × (((m : TlMessageA) × (get agent msg 5 22 2 ≡ ok m))
        ↔ ((agent.p_set ≡ true) × (2 ≤ 12) × (2 ^ 2 ≤ 64) × ((3 ≤ 2) ⊎ (22 % 2 ^ 2 ≡ 0))))
    × (((m : TlMessageD) × (access_ack_data agent msg_d 5 2 eight 0 ≡ ok m))
        ↔ ((agent.p_set ≡ true) × (2 ≤ 12) × (2 ^ 2 ≤ 64)))
builders_ok_iff_example =
    builders_ok_iff 3 agent agent-IsConfigured.beat 2 22 5 eight msg refl (omega arith) msg_d 0 refl
      (omega arith)

misaligned_refused_example :
    (put agent msg 5 22 2 eight ≡ err address_not_aligned_to_size)
    × (get agent msg 5 22 2 ≡ err address_not_aligned_to_size)
    × (put_partial agent msg 5 22 2 3 eight ≡ err address_not_aligned_to_size)
misaligned_refused_example =
    misaligned_refused 3 agent 2 22 5 3 eight msg agent-IsConfigured
      (agent-Accepts 2 (omega arith) (omega arith)) (omega arith) (omega arith) (omega arith)

set_ul_params-IsConfigured_example :
    (b : TlAgent) × (set_ul_params unset_agent "ul" 64 32 4 ≡ ok b)
    × IsConfigured 3 b
    × (b.info ≡ "ul")
    × (b.p.size_bit_width ≡ 3)
    × (get_params b ≡ ok b.p)
    × ((lg : ℕ) → Accepts b lg ↔ (lg ≤ 3))
    × ((n : String) (w x y : ℕ) → set_ul_params b n w x y ≡ err params_already_set)
    × ((n : String) (q : TlBundleParams) → set_params b n q ≡ err params_already_set)
set_ul_params-IsConfigured_example =
    set_ul_params-IsConfigured unset_agent "ul" 3 32 4 refl (omega arith)

-- A link of three bytes is accepted too.
set_ul_params_ok_iff_example :
    ((b : TlAgent) × (set_ul_params unset_agent "ul" 24 32 4 ≡ ok b))
    ↔ ((false ≡ false) × (0 < 24) × (24 ≤ 256) × (24 % 8 ≡ 0))
set_ul_params_ok_iff_example = set_ul_params_ok_iff unset_agent "ul" 24 32 4
