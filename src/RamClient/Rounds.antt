-- ===== src/RamClient/Rounds.antt =====
-- The requests and answers on their way in sb_sim/tlmem, and what each step does to them and to the memory.
use switchboard_adapter.Base.{
  ℕ, zero, suc, ◌+◌, ◌*◌, ◌≤◌, ◌<◌, ◌≡◌, refl, ap, ◌∙◌, none, some, List, [], ◌∷◌, ◌++◌, length,
  length-drop, drop, get_or, All-append, All-drop, arith, eq→==,
}
use switchboard_adapter.Base.Result.{ok, err, blocked}
use switchboard_adapter.Base.Bits.{ones}
use switchboard_adapter.Wire.{TlMessageA, TlMessageD, IsWireA, IsByte}
use switchboard_adapter.Wire.Codec.{encode_a, encode_d}
use switchboard_adapter.Agent.{TlAgent}
use switchboard_adapter.Agent.Config.{IsConfigured, Accepts}
use switchboard_adapter.Client.{Link, send_a}
use switchboard_adapter.Client.Receive.{recv_d-encode_d}
use switchboard_adapter.MemIfc.Memory.{IsBurst, IsWriteAck}
use switchboard_adapter.MemIfc.Ready.{IsStack}
use switchboard_adapter.RamClient.{word, word_request, send_round, recv_round}
use switchboard_adapter.RamClient.Sends.{word_line}
use switchboard_adapter.Client.Receive.{recv_d-none}
use switchboard_adapter.Print.Messages.{print_d-ok}

-- The bytes of a word, wherever a message holds them.
pub get_or-word :
    (j i : ℕ) (rest : List ℕ) → j < 32 → i < 4 → get_or (word j ++ rest) i 0 ≡ j * 4 + i
get_or-word j zero rest h l = omega arith
get_or-word j (suc zero) rest h l = omega arith
get_or-word j (suc (suc zero)) rest h l = omega arith
get_or-word j (suc (suc (suc zero))) rest h l = omega arith
get_or-word j (suc (suc (suc (suc i)))) rest h l = absurd (omega arith)

module _ (fresh : ℕ → TlMessageA) (st : (j : ℕ) → IsStack (fresh j)) where
  pub word_request-IsWireA : (j : ℕ) → j < 32 → IsWireA (word_request (fresh j) j)
  word_request-IsWireA j h = record {
    opcode_fits = omega arith;
    param_fits = omega arith;
    size_fits = omega arith;
    corrupt_fits = omega arith;
    source_fits = omega arith;
    address_fits = omega arith;
    mask_fits = omega arith;
    payload_length = omega (arith, length-drop 4 (fresh j).payload, (st j).payload_length);
    payload_bytes =
        All-append IsByte (word j) (drop 4 (fresh j).payload) (ground arith)
          (All-drop IsByte 4 (fresh j).payload (st j).payload_bytes);
  }

  pub word_request-IsBurst :
      (capacity j : ℕ) → j < 32 → 128 ≤ capacity → IsBurst 2 capacity (word_request (fresh j) j)
  unfolding ones
  word_request-IsBurst capacity j h c = record {
    wire = word_request-IsWireA j h;
    whole_beats = omega arith;
    aligned = omega arith;
    inside = omega arith;
    full_mask = refl;
    clean = refl;
  }

module _ (fresh : ℕ → TlMessageA) where
  -- The packets of the requests from round `j` on.
  abbrev pub queued : ℕ → ℕ → List (List ℕ)
  queued j zero = []
  queued j (suc left) = encode_a (word_request (fresh j) j) ∷ queued (j + 1) left

  pub queued-suc :
      (left j : ℕ)
      → queued j left ++ (encode_a (word_request (fresh (j + left)) (j + left)) ∷ [])
        ≡ queued j (suc left)
  queued-suc zero j = ap (λ (i : ℕ). encode_a (word_request (fresh i) i) ∷ []) (omega arith)
  queued-suc (suc left) j = ap (◌∷◌ (encode_a (word_request (fresh j) j))) (
      ap (λ (i : ℕ). queued (j + 1) left ++ (encode_a (word_request (fresh i) i) ∷ []))
        (omega arith)
      ∙ queued-suc left (j + 1))

  pub length-queued : (j left : ℕ) → length (queued j left) ≡ left
  length-queued j zero = refl
  length-queued j (suc left) = ap suc (length-queued (j + 1) left)

-- The packet of an acknowledgement.
abbrev pub IsAck : List ℕ → Type 0
IsAck p = (d : TlMessageD) × (p ≡ encode_d d) × IsWriteAck d

module _ {W : Type 0} (link : Link W) (agent : TlAgent) (c : IsConfigured 2 agent)
    (acc : Accepts agent 2) where
  pub sends_round :
      (fresh : ℕ → TlMessageA) (st : (j : ℕ) → IsStack (fresh j)) (j : ℕ) (w : W)
      → send_round link agent (fresh j) j w ≡ ok (send_a link (word_request (fresh j) j) w)
  unfolding send_round
  sends_round fresh st j w = rw (word_line agent c acc fresh st j).1

  pub waits_round : (w : W) → link.recv w ≡ none → recv_round link agent w ≡ err blocked
  unfolding recv_round
  waits_round w e = rw (recv_d-none link w e)

  pub takes_round :
      (p : List ℕ) (w later : W)
      → IsAck p
      → link.recv w ≡ some (p, later)
      → recv_round link agent w ≡ ok later
  unfolding recv_round
  takes_round p w later (d, is, ack) e = rw (
    recv_d-encode_d link w later d (e ∙ ap (λ q. some (q, later)) is) ack.wire,
    eq→== d.opcode 0 ack.opcode_is,
    eq→== d.denied 0 ack.granted,
    (print_d-ok 2 agent d c.beat ack.wire.payload_length ack.wire.payload_bytes).1,
  )
