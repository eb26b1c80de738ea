-- ===== src/Loopback.antt =====
-- sb_sim/tlloopback/client.cc: a client thread and a manager thread, each as a function from its place in
-- the program to the next one, which ends at a send or a receive; and their interleavings with the
-- design between them, that of src/main/scala/example/TLLoopback.scala.
pub mod Contract
pub mod Moves
pub mod Flow
pub mod Turns
pub mod Line
pub mod Passes
pub mod Tests
use switchboard_adapter.Base.Threads.{Move, moved, waiting, returned, failed, move}
use switchboard_adapter.Base.{◌≡◌, ℕ, zero, suc, ◌+◌, List, [], ◌∷◌, ◌++◌, drop, ◌==◌}
use switchboard_adapter.Base.Result.{
  Result, Error, ok, err, ◌>>=◌, ◌>>◌, check, blocked, unexpected_opcode, denied_by_target,
  corrupt_request,
}
use switchboard_adapter.Wire.{TlMessageA, TlMessageD, opcode_a, opcode_d, put_full_data, access_ack}
use switchboard_adapter.Agent.{TlAgent, set_ul_params}
use switchboard_adapter.Client.{Link, new_agent, send_a, recv_a, send_d, recv_d}
use switchboard_adapter.Print.{print_a, print_d}

-- The message that the client fills, twice; `fresh` is what its stack held.
abbrev pub request : TlMessageA → TlMessageA
request fresh = record {
  opcode = opcode_a put_full_data;
  param = 0;
  size = 4;
  corrupt = 0;
  source = 0;
  address = 0xDEAD0;
  mask = 0xFF;
  payload = (0 ∷ 1 ∷ 2 ∷ 3 ∷ 4 ∷ 5 ∷ 6 ∷ 7 ∷ []) ++ drop 8 fresh.payload;
}

-- The manager's answer to the request that it received last.
abbrev pub response : TlMessageD → TlMessageA → TlMessageD
response fresh tl_a = record fresh {
  opcode = opcode_d access_ack;
  param = 0;
  size = 4;
  corrupt = 0;
  denied = 0;
  source = tl_a.source;
  sink = 0;
}

-- Where a thread stands: before its first, second and third call that sends or receives, or behind all.
pub data Place : Type 0 where
  first second third finish : Place

module _ {W : Type 0} (client manager : Link W) (agent : TlAgent) (stack_a : TlMessageA)
    (stack_d : TlMessageD) where
  unfoldable pub client_thread : Place → W → Move (Place × W)
  client_thread first w = move do ok (second, send_a client (request stack_a) w)
  client_thread second w = move do
    line ← print_a agent (request stack_a)
    ok (third, send_a client (request (request stack_a)) w)
  client_thread third w = move do
    line ← print_a agent (request (request stack_a))
    (tl_d, later) ← recv_d client w
    answer ← print_d agent tl_d
    check (tl_d.opcode == opcode_d access_ack) unexpected_opcode
    check (tl_d.denied == 0) denied_by_target
    ok (finish, later)
  client_thread finish w = returned

  unfoldable pub manager_thread : Place → TlMessageA → W → Move (Place × TlMessageA × W)
  manager_thread first last w = move do
    (tl_a, later) ← recv_a manager w
    check (tl_a.opcode == opcode_a put_full_data) unexpected_opcode
    check (tl_a.corrupt == 0) corrupt_request
    ok (second, tl_a, later)
  manager_thread second last w = move do
    (tl_a, later) ← recv_a manager w
    check (tl_a.opcode == opcode_a put_full_data) unexpected_opcode
    check (tl_a.corrupt == 0) corrupt_request
    ok (third, tl_a, later)
  manager_thread third last w = moved (finish, last, send_d manager (response stack_d last) w)
  manager_thread finish last w = returned

-- The agent that `main` makes for the client.
unfoldable pub client_agent : Result TlAgent
client_agent = set_ul_params (new_agent "client_0") "Master" 64 20 8

-- Both threads, what the manager received last, and the queues.
pub record State (W : Type 0) : Type 0 where
  pub client_at : Place
  pub manager_at : Place
  pub last : TlMessageA
  pub world : W

-- `Carries w later`: the design takes a packet from a queue of one agent to that of the other.
module _ {W : Type 0} (client manager : Link W) (Carries : W → W → Type 0) (agent : TlAgent)
    (stack_a : TlMessageA) (stack_d : TlMessageD) where
  -- One of the threads goes on, or the design does.
  pub data Step (s : State W) : State W → Type 0 where
    client_moves :
        {p : Place} {w : W}
        → client_thread client manager agent stack_a stack_d s.client_at s.world ≡ moved (p, w)
        → Step s (record s { client_at = p; world = w })
    manager_moves :
        {p : Place} {tl_a : TlMessageA} {w : W}
        → manager_thread client manager agent stack_a stack_d s.manager_at s.last s.world
          ≡ moved (p, tl_a, w)
        → Step s (record s { manager_at = p; last = tl_a; world = w })
    carries : {w : W} → Carries s.world w → Step s (record s { world = w })

  -- `n` steps of an interleaving.
  pub data Run (s : State W) : ℕ → State W → Type 0 where
    start : Run s 0 s
    next : {n : ℕ} {t u : State W} → Run s n t → Step t u → Run s (suc n) u

module _ {W : Type 0} (client manager : Link W) (agent : TlAgent) (stack_a : TlMessageA)
    (stack_d : TlMessageD) where
  -- An assert fails.
  pub data Fails (s : State W) : Type 0 where
    client_fails :
        {e : Error}
        → client_thread client manager agent stack_a stack_d s.client_at s.world ≡ failed e
        → Fails s
    manager_fails :
        {e : Error}
        → manager_thread client manager agent stack_a stack_d s.manager_at s.last s.world ≡ failed e
        → Fails s
