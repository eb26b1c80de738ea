-- ===== src/RamClient/Contract.antt =====
-- What the threads of sb_sim/tlmem/client.cc rely on at the other end of the queues: a memory that takes
-- the requests in order and acknowledges each. It is not part of the repository: the laws are those of
-- first-in first-out queues, and of the TileLink specification for writes of a beat.
use switchboard_adapter.Base.{ℕ, ◌-◌, ◌≡◌, ◌≢◌, none, some, List, [], ◌∷◌, ◌++◌, if◌then◌else◌}
use switchboard_adapter.Base.Memcpy.{in_range}
use switchboard_adapter.Wire.{TlMessageA, TlMessageD, opcode_a, put_full_data}
use switchboard_adapter.Wire.Codec.{encode_a, encode_d}
use switchboard_adapter.Agent.Put.{byte_at}
use switchboard_adapter.Client.{Link}
use switchboard_adapter.MemIfc.Memory.{IsBurst, IsWriteAck}

-- `requests` are the packets before the memory, `answers` those behind it.
pub record IsRam {W : Type 0} (link : Link W) (Serves : W → W → Type 0) (capacity : ℕ)
    : Type 0 where
  pub requests : W → List (List ℕ)
  pub answers : W → List (List ℕ)
  pub mem : W → ℕ → ℕ
  pub sent :
      (p : List ℕ) (w : W)
      → (requests (link.send p w) ≡ requests w ++ (p ∷ []))
        × (answers (link.send p w) ≡ answers w)
        × ((x : ℕ) → mem (link.send p w) x ≡ mem w x)
  pub received :
      (p : List ℕ) (w later : W)
      → link.recv w ≡ some (p, later)
      → (answers w ≡ p ∷ answers later)
        × (requests later ≡ requests w)
        × ((x : ℕ) → mem later x ≡ mem w x)
  pub no_answer : (w : W) → link.recv w ≡ none → answers w ≡ []
  -- A write of a beat of four bytes is stored and acknowledged once.
  pub served :
      (w later : W) (m : TlMessageA) (ps : List (List ℕ))
      → Serves w later
      → requests w ≡ encode_a m ∷ ps
      → IsBurst 2 capacity m
      → m.opcode ≡ opcode_a put_full_data
      → m.size ≡ 2
      → (d : TlMessageD) × IsWriteAck d
        × (requests later ≡ ps)
        × (answers later ≡ answers w ++ (encode_d d ∷ []))
        × ((x : ℕ)
            → mem later x
              ≡ (if in_range m.address 4 x then byte_at m.payload (x - m.address) else mem w x))
  -- Only where there is a request, and then it can.
  pub idle : (w later : W) → Serves w later → requests w ≢ []
  pub busy : (w : W) → requests w ≢ [] → (later : W) × Serves w later
