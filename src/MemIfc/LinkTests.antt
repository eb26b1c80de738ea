-- ===== src/MemIfc/LinkTests.antt =====
-- Runs of `read` and `write` over links that are no memory.
use switchboard_adapter.Base.{
  ℕ, ◌^◌, ◌<◌, ◌≡◌, refl, List, [], ◌∷◌, length, replicate, All-replicate, arith,
}
use switchboard_adapter.Base.Result.{err, ◌>>=◌, denied_by_target}
use switchboard_adapter.Wire.{TlMessageA, TlMessageD, IsByte, IsWireD}
use switchboard_adapter.Wire.Codec.{encode_a, encode_d}
use switchboard_adapter.Client.{Link, send_a, recv_d}
use switchboard_adapter.Client.Receive.{recv_d-encode_d}
use switchboard_adapter.Client.Order.{send_each}
use switchboard_adapter.Client.Network.{Queues, client_link}
use switchboard_adapter.MemIfc.{read, write}
use switchboard_adapter.MemIfc.Ready.{beat_request}
use switchboard_adapter.MemIfc.Sends.{AreBeatsOf, judge_write, write_sends}
use switchboard_adapter.MemIfc.Answers.{Gives, done, more, EndsBadly, refused, read_stops}
use switchboard_adapter.MemIfc.TestSetup.{
  test_ifc, test_stack, test_bytes, test_ifc-IsReady, test_stack-IsStack, test_bytes-All,
}

-- The 24 bytes from byte 8 of the source on are two chunks; the second has two beats.
write_sends_example :
    (ms : List TlMessageA) × (length ms ≡ 2)
    × AreBeatsOf 3 48 4 test_bytes 8 0 ms
    × ((W : Type 0) (link : Link W) (w : W)
        → write link test_ifc test_stack 48 16 test_bytes 8 w
          ≡ (recv_d link (send_each (send_a link) ms w) >>= judge_write))
write_sends_example =
    write_sends 3 test_ifc test_ifc-IsReady test_stack 4 48 (omega arith) (omega arith) test_bytes 8
      (omega arith) test_bytes-All refl test_stack-IsStack

abbrev good_answer : TlMessageD
good_answer = record {
  opcode = 1;
  param = 0;
  size = 4;
  corrupt = 0;
  source = 0;
  sink = 0;
  denied = 0;
  payload = replicate 32 7;
  reserved = replicate 7 0;
}

abbrev denied_answer : TlMessageD
denied_answer = record good_answer { denied = 1 }

answer-IsWireD : (denied : ℕ) → denied < 2 ^ 8 → IsWireD (record good_answer { denied = denied })
answer-IsWireD denied h = record {
  opcode_fits = omega arith;
  param_fits = omega arith;
  size_fits = omega arith;
  corrupt_fits = omega arith;
  source_fits = omega arith;
  sink_fits = omega arith;
  denied_fits = h;
  payload_length = refl;
  payload_bytes = All-replicate IsByte 32 7 (omega arith);
  reserved_length = refl;
  reserved_bytes = All-replicate IsByte 7 0 (omega arith);
}

-- One answer that is granted, and one that is denied.
abbrev test_queues : Queues
test_queues = record {
  requests = [];
  responses = encode_d good_answer ∷ encode_d denied_answer ∷ [];
}

abbrev test_request : TlMessageA
test_request = beat_request 3 4 48 4 test_stack.payload

abbrev asked : Queues
asked = record test_queues { requests = encode_a test_request ∷ [] }

abbrev half_answered : Queues
half_answered = record asked { responses = encode_d denied_answer ∷ [] }

asked-Gives :
    Gives client_link (send_a client_link test_request test_queues) (good_answer ∷ []) half_answered
unfolding send_a
asked-Gives =
    more
      (recv_d-encode_d client_link asked half_answered good_answer refl
        (answer-IsWireD 0 (omega arith)))
      done

half_answered-EndsBadly : EndsBadly client_link half_answered denied_by_target
half_answered-EndsBadly =
    refused
      (recv_d-encode_d client_link half_answered (record asked { responses = [] }) denied_answer
        refl (answer-IsWireD 1 (omega arith)))
      refl (omega arith)

read_stops_example :
    read client_link test_ifc test_stack 48 16 (replicate 16 0) 0 test_queues ≡ err denied_by_target
read_stops_example =
    read_stops client_link 3 test_ifc test_ifc-IsReady test_stack 4 48 (omega arith) (omega arith) 0
      (replicate 16 0) test_queues half_answered (good_answer ∷ []) denied_by_target refl
      (omega arith) test_stack-IsStack asked-Gives
      (record { opcode_is = refl; granted = refl; payload_length = refl }, tt) (omega arith)
      half_answered-EndsBadly
