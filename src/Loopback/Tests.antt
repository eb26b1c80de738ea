-- ===== src/Loopback/Tests.antt =====
-- A run of both threads over the design of Loopback.Line.
use switchboard_adapter.Base.{
  ℕ, suc, ◌≤◌, ◌≡◌, ◌⊎◌, ◌≢◌, inl, ap, refl, [], All-replicate, replicate, arith,
}
use switchboard_adapter.Wire.{TlMessageA, TlMessageD, IsByte}
use switchboard_adapter.Agent.{TlAgent}
use switchboard_adapter.Agent.Mask.{IsBeat}
use switchboard_adapter.Agent.Setup.{ul_agent, set_ul_params_lem}
use switchboard_adapter.Client.{send_a}
use switchboard_adapter.Wire.Codec.{encode_a}
use switchboard_adapter.Adapter.{Widths, TlBundleA, hold_a}
use switchboard_adapter.Adapter.Fields.{tl_bundle_a}
use switchboard_adapter.Loopback.Line.{Line, client_end, manager_end, Carries, line-IsThrough}
use switchboard_adapter.Base.Result.{ok}
use switchboard_adapter.Client.{new_agent}
use switchboard_adapter.Loopback.{
  request, carries, client_agent, first, finish, State, Step, client_moves, Run, start, next, Fails,
}
use switchboard_adapter.Loopback.Moves.{IsFresh, client_sends}
use switchboard_adapter.Loopback.Passes.{loopback_passes}

-- The parameters that `main` sets.
abbrev agent : TlAgent
agent = ul_agent "Master" 3 20 8

abbrev stack_a : TlMessageA
stack_a = record {
  opcode = 9;
  param = 9;
  size = 9;
  corrupt = 9;
  source = 9;
  address = 9;
  mask = 9;
  payload = replicate 32 170;
}

abbrev stack_d : TlMessageD
stack_d = record {
  opcode = 9;
  param = 9;
  size = 9;
  corrupt = 9;
  source = 9;
  sink = 9;
  denied = 9;
  payload = replicate 32 170;
  reserved = replicate 7 170;
}

made : client_agent ≡ ok agent
unfolding client_agent new_agent
made = set_ul_params_lem (new_agent "client_0") "Master" 3 20 8 refl (omega arith)

agent-IsBeat : IsBeat 3 agent.p
agent-IsBeat = record { width = refl; at_most_32 = omega arith }

fresh : IsFresh stack_a stack_d
fresh = record {
  a_length = refl;
  a_bytes = All-replicate IsByte 32 170 (omega arith);
  d_length = refl;
  d_bytes = All-replicate IsByte 32 170 (omega arith);
  reserved_length = refl;
  reserved_bytes = All-replicate IsByte 7 170 (omega arith);
}

-- The node of src/main/scala/example/TLLoopback.scala: 64 KiB of addresses, beats of 8 bytes, and
-- source identifiers of 4 bits.
abbrev node : Widths
node = record {
  opcode = 3;
  param_a = 3;
  param_d = 2;
  size = 2;
  source = 4;
  sink = 1;
  address = 16;
  mask = 8;
  payload = 64;
  flag = 1;
}

abbrev empty : Line
empty = record { a_before = []; a_behind = []; d_before = []; d_behind = [] }

abbrev initial : State Line
initial = record { client_at = first; manager_at = first; last = stack_a; world = empty }

-- The client has sent its first request, and the design has carried it.
two_steps :
    (s : State Line) × Run client_end manager_end (Carries node) agent stack_a stack_d initial 2 s
unfolding send_a
two_steps = (
  _,
  next
      (next start (
        client_moves
          (client_sends client_end manager_end 3 agent agent-IsBeat stack_a stack_d fresh empty).0))
      (carries (inl (encode_a (request stack_a), [], refl, refl))),
)

-- The address that arrives is not the one that was sent.
abbrev asked : TlMessageA
asked = request stack_a

address_cut : hold_a node (tl_bundle_a asked) ≢ tl_bundle_a asked
unfolding hold_a
address_cut e = omega (arith, ap (λ (x : TlBundleA). x.address) e)

abbrev steps : ℕ
steps = 2

loopback_passes_example :
    (¬ Fails client_end manager_end agent stack_a stack_d two_steps.0)
    × (((steps ≡ 9) × (two_steps.0.client_at ≡ finish) × (two_steps.0.manager_at ≡ finish))
        ⊎ ((suc steps ≤ 9)
            × (t : State Line) × Step client_end manager_end
                (Carries node)
                agent
                stack_a
                stack_d
                two_steps.0
                t))
unfolding line-IsThrough
loopback_passes_example =
    loopback_passes client_end manager_end (Carries node) node 8 (line-IsThrough node 8)
      (omega arith) 3 agent agent-IsBeat stack_a stack_d fresh stack_a empty steps two_steps.0 refl
      refl refl refl two_steps.1
