-- ===== src/RamClient/Tests.antt =====
-- The client of sb_sim/tlmem/client.cc with the parameters that its `main` sets.
use switchboard_adapter.Base.{ℕ, ◌≡◌, refl, List, length, replicate, All-replicate, arith}
use switchboard_adapter.Base.Result.{ok}
use switchboard_adapter.Wire.{TlMessageA, IsByte}
use switchboard_adapter.Agent.{TlAgent}
use switchboard_adapter.Agent.Config.{IsConfigured, Accepts}
use switchboard_adapter.Agent.Setup.{ul_agent}
use switchboard_adapter.Client.{Link, send_a}
use switchboard_adapter.Client.Order.{send_each}
use switchboard_adapter.MemIfc.Ready.{IsStack}
use switchboard_adapter.RamClient.{
  client_agent, send_thread, send_round, recv_round, sender, receiver, State, Step, sends, receives,
  serves, Run, start, next, Fails,
}
use switchboard_adapter.RamClient.Ram.{Ram, ram_link, Serves, ram-IsRam}
use switchboard_adapter.RamClient.Passes.{ram_passes}
use switchboard_adapter.Agent.{set_ul_params}
use switchboard_adapter.Base.Bits.{count_trailing_zeros}
use switchboard_adapter.Print.{
  print_a, print_d, tl_a_to_str, tl_d_to_str, data_to_bytes, bytes_text,
}
use switchboard_adapter.Wire.Bytes.{le_bytes}
use switchboard_adapter.Wire.Codec.{decode_d, encode_d}
use switchboard_adapter.Client.{new_agent, recv_d}
use switchboard_adapter.Base.Threads.{returned}
use switchboard_adapter.Base.{suc, ◌≤◌, ◌<◌, ◌⊎◌, []}
use switchboard_adapter.RamClient.Sends.{ArePuts, send_thread_sends}

abbrev agent : TlAgent
agent = ul_agent "client_0" 2 32 4

abbrev fresh : ℕ → TlMessageA
fresh j = record {
  opcode = 9;
  param = 9;
  size = 9;
  corrupt = 9;
  source = j;
  address = 9;
  mask = 9;
  payload = replicate 32 170;
}

agent-IsConfigured : IsConfigured 2 agent
agent-IsConfigured = record {
  is_set = refl;
  beat = record { width = refl; at_most_32 = omega arith };
}

agent-Accepts : Accepts agent 2
agent-Accepts = record { at_most_12 = omega arith; within_max = omega arith }

fresh-IsStack : (j : ℕ) → IsStack (fresh j)
fresh-IsStack j = record {
  payload_length = refl;
  payload_bytes = All-replicate IsByte 32 170 (omega arith);
}

send_thread_sends_example :
    (ms : List TlMessageA) × (length ms ≡ 32)
    × ArePuts agent fresh 0 ms
    × ((W : Type 0) (link : Link W) (w : W)
        → send_thread link agent fresh w ≡ ok (send_each (send_a link) ms w))
send_thread_sends_example =
    send_thread_sends agent agent-IsConfigured agent-Accepts fresh fresh-IsStack

abbrev empty : Ram
empty = record { requests = []; answers = []; store = λ x. 255 }

abbrev initial : State Ram
initial = record { sent = 0; received = 0; world = empty }

made : client_agent ≡ ok agent
unfolding client_agent new_agent set_ul_params count_trailing_zeros
made = refl

-- The sender sends its first word, the memory serves it, and the receiver takes the answer.
one_word : (s : State Ram) × Run ram_link Serves agent fresh initial 3 s
unfolding send_round recv_round print_a print_d tl_a_to_str tl_d_to_str send_a recv_d data_to_bytes
    bytes_text decode_d encode_d le_bytes
one_word = (_, next (next (next start (sends refl)) (serves ((λ e. cc e), refl))) (receives refl))

abbrev moves : ℕ
moves = 3

ram_passes_example :
    (¬ Fails ram_link Serves agent fresh one_word.0)
    × (((moves ≡ 96)
          × (sender ram_link agent fresh one_word.0.sent one_word.0.world ≡ returned)
          × (receiver ram_link agent one_word.0.received one_word.0.world ≡ returned)
          × ((x : ℕ) → x < 128 → one_word.0.world.store x ≡ x)
          × ((x : ℕ) → 128 ≤ x → one_word.0.world.store x ≡ 255))
        ⊎ ((suc moves ≤ 96) × (t : State Ram) × Step ram_link Serves agent fresh one_word.0 t))
unfolding ram-IsRam
ram_passes_example =
    ram_passes ram_link Serves 128 (ram-IsRam 128) (omega arith) agent made fresh fresh-IsStack
      empty moves one_word.0 refl refl one_word.1
