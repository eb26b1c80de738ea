-- ===== src/RamClient.antt =====
-- The two threads of sb_sim/tlmem/client.cc, over any link, and their interleavings with a memory.
pub mod Sends
pub mod Contract
pub mod Rounds
pub mod Flow
pub mod Passes
pub mod Words
pub mod Ram
pub mod Tests
pub mod WordTests
use switchboard_adapter.Base.{
  ℕ, zero, suc, ◌+◌, ◌*◌, List, [], ◌∷◌, ◌++◌, drop, ◌==◌, ltb, if◌then◌else◌, ◌≡◌,
}
use switchboard_adapter.Base.Result.{
  Result, Error, ok, ◌>>=◌, ◌>>◌, check, unexpected_opcode, denied_by_target,
}
use switchboard_adapter.Base.Threads.{Move, moved, returned, failed, move}
use switchboard_adapter.Base.Words.{u8}
use switchboard_adapter.Wire.{TlMessageA, opcode_a, opcode_d, put_full_data, access_ack}
use switchboard_adapter.Agent.{TlAgent, set_ul_params}
use switchboard_adapter.MemIfc.{ClientTlMemIfc, new_mem_ifc}
use switchboard_adapter.Client.{Link, new_agent, send_a, recv_d}
use switchboard_adapter.Print.{print_a, print_d}

-- The four bytes of round `j`.
abbrev pub word : ℕ → List ℕ
word offset =
    u8 (0 + offset * 4) ∷ u8 (1 + offset * 4) ∷ u8 (2 + offset * 4) ∷ u8 (3 + offset * 4) ∷ []

-- The message of round `j`; `fresh` is what its stack held.
abbrev pub word_request : TlMessageA → ℕ → TlMessageA
word_request fresh j = record {
  opcode = opcode_a put_full_data;
  param = 0;
  size = 2;
  corrupt = 0;
  source = j;
  address = j * 4;
  mask = 0xF;
  payload = word j ++ drop 4 fresh.payload;
}

module _ {W : Type 0} (link : Link W) (agent : TlAgent) where
  -- A round of each loop; `fresh` is what the stack holds in it.
  unfoldable pub send_round : TlMessageA → ℕ → W → Result W
  send_round fresh j w = do
    line ← print_a agent (word_request fresh j)
    ok (send_a link (word_request fresh j) w)

  unfoldable pub recv_round : W → Result W
  recv_round w = do
    (tl_d, later) ← recv_d link w
    check (tl_d.opcode == opcode_d access_ack) unexpected_opcode
    check (tl_d.denied == 0) denied_by_target
    line ← print_d agent tl_d
    ok later

  -- The loops, from round `j` on.
  unfoldable pub send_words : (ℕ → TlMessageA) → ℕ → ℕ → W → Result W
  send_words fresh zero j w = ok w
  send_words fresh (suc left) j w = do
    later ← send_round (fresh j) j w
    send_words fresh left (j + 1) later

  unfoldable pub receive_acks : ℕ → W → Result W
  receive_acks zero w = ok w
  receive_acks (suc left) w = do later ← recv_round w; receive_acks left later

  abbrev pub send_thread : (ℕ → TlMessageA) → W → Result W
  send_thread fresh w = send_words fresh 32 0 w

  abbrev pub recv_thread : W → Result W
  recv_thread w = receive_acks 32 w

  -- The threads before round `j`.
  abbrev pub sender : (ℕ → TlMessageA) → ℕ → W → Move W
  sender fresh j w = if ltb j 32 then move (send_round (fresh j) j w) else returned

  abbrev pub receiver : ℕ → W → Move W
  receiver j w = if ltb j 32 then move (recv_round w) else returned

-- The agent that `main` makes.
unfoldable pub client_agent : Result TlAgent
client_agent = set_ul_params (new_agent "client_0") "client_0" 32 32 4

-- The adapter that `main` makes once both threads have returned.
unfoldable pub memifc : Result ClientTlMemIfc
memifc = do client ← client_agent; new_mem_ifc client

-- The rounds that both threads have done, and the link.
pub record State (W : Type 0) : Type 0 where
  pub sent : ℕ
  pub received : ℕ
  pub world : W

-- `Serves w later`: the memory serves a request.
module _ {W : Type 0} (link : Link W) (Serves : W → W → Type 0) (agent : TlAgent)
    (fresh : ℕ → TlMessageA) where
  -- A thread goes on, or the memory does.
  pub data Step (s : State W) : State W → Type 0 where
    sends :
        {w : W}
        → sender link agent fresh s.sent s.world ≡ moved w
        → Step s (record s { sent = s.sent + 1; world = w })
    receives :
        {w : W}
        → receiver link agent s.received s.world ≡ moved w
        → Step s (record s { received = s.received + 1; world = w })
    serves : {w : W} → Serves s.world w → Step s (record s { world = w })

  -- `n` steps of an interleaving.
  pub data Run (s : State W) : ℕ → State W → Type 0 where
    start : Run s 0 s
    next : {n : ℕ} {t u : State W} → Run s n t → Step t u → Run s (suc n) u

  -- An assert fails.
  pub data Fails (s : State W) : Type 0 where
    sender_fails : {e : Error} → sender link agent fresh s.sent s.world ≡ failed e → Fails s
    receiver_fails : {e : Error} → receiver link agent s.received s.world ≡ failed e → Fails s
