-- ===== src/MemIfc/Memory.antt =====
-- What the adapter relies on at the other end of the queues: a TileLink memory. It is not part of the
-- repository (a rocket-chip `TLRAM` in the examples), so its behaviour is stated as the laws below,
-- one for each message: those of the TileLink specification for bursts on the A and D channels.
use switchboard_adapter.Base.{
  ℕ, suc, ◌+◌, ◌-◌, ◌*◌, ◌%◌, ◌^◌, ◌≤◌, ◌<◌, ◌≡◌, some, ◌==◌, if◌then◌else◌,
}
use switchboard_adapter.Base.Bits.{ones}
use switchboard_adapter.Base.Memcpy.{in_range}
use switchboard_adapter.Wire.{
  TlMessageA, TlMessageD, IsWireA, IsWireD, opcode_a, opcode_d, put_full_data, get, access_ack,
  access_ack_data,
}
use switchboard_adapter.Wire.Codec.{encode_d}
use switchboard_adapter.Agent.Put.{byte_at}
use switchboard_adapter.Client.{Link, send_a}

-- What a transfer of `2 ^ lg_size` bytes at `address` waits for: the beats of a write, the beats of
-- the answer to a read (`next` is the number of the next one), or the answer to a write.
pub data Phase : Type 0 where
  idle acking : Phase
  putting : (address lg_size next : ℕ) → Phase
  reading : (address lg_size next : ℕ) → Phase

-- The number of beats, of `2 ^ lg_beat` bytes each.
abbrev pub beats : ℕ → ℕ → ℕ
beats lg_beat lg_size = 2 ^ (lg_size - lg_beat)

abbrev pub next_put : ℕ → ℕ → ℕ → Phase
next_put address lg_size i = if i == 0 then idle else putting address lg_size i

abbrev pub after_put : ℕ → ℕ → ℕ → ℕ → Phase
after_put lg_beat address lg_size i =
    if suc i == beats lg_beat lg_size then acking else putting address lg_size (suc i)

abbrev pub after_read : ℕ → ℕ → ℕ → ℕ → Phase
after_read lg_beat address lg_size i =
    if suc i == beats lg_beat lg_size then idle else reading address lg_size (suc i)

-- A request for whole beats, naturally aligned, within the `capacity` bytes of the memory.
pub record IsBurst (lg_beat capacity : ℕ) (m : TlMessageA) : Type 0 where
  pub wire : IsWireA m
  pub whole_beats : lg_beat ≤ m.size
  pub aligned : m.address % 2 ^ m.size ≡ 0
  pub inside : m.address + 2 ^ m.size ≤ capacity
  pub full_mask : m.mask ≡ ones (2 ^ lg_beat) 0
  pub clean : m.corrupt ≡ 0

-- Beat `i` of an answer with the bytes of `mem`.
pub record IsReadBeat (lg_beat address i : ℕ) (mem : ℕ → ℕ) (d : TlMessageD) : Type 0 where
  pub wire : IsWireD d
  pub opcode_is : d.opcode ≡ opcode_d access_ack_data
  pub granted : d.denied ≡ 0
  pub bytes : (j : ℕ) → j < 2 ^ lg_beat → byte_at d.payload j ≡ mem (address + i * 2 ^ lg_beat + j)

pub record IsWriteAck (d : TlMessageD) : Type 0 where
  pub wire : IsWireD d
  pub opcode_is : d.opcode ≡ opcode_d access_ack
  pub granted : d.denied ≡ 0

-- A memory of `capacity` bytes behind `link`, with beats of `2 ^ lg_beat` bytes.
pub record IsMemory {W : Type 0} (link : Link W) (lg_beat capacity : ℕ) : Type 0 where
  pub mem : W → ℕ → ℕ
  pub phase : W → Phase
  -- An idle memory takes a read, and owes its answers.
  pub takes_get :
      (w : W) (m : TlMessageA)
      → IsBurst lg_beat capacity m
      → m.opcode ≡ opcode_a get
      → phase w ≡ idle
      → (phase (send_a link m w) ≡ reading m.address m.size 0)
        × ((x : ℕ) → mem (send_a link m w) x ≡ mem w x)
  -- It answers beat by beat.
  pub answers_get :
      (w : W) (address lg_size i : ℕ)
      → phase w ≡ reading address lg_size i
      → (d : TlMessageD) × (later : W) × (link.recv w ≡ some (encode_d d, later))
        × IsReadBeat lg_beat address i (mem w) d
        × (phase later ≡ after_read lg_beat address lg_size i)
        × ((x : ℕ) → mem later x ≡ mem w x)
  -- Beat `i` of a write stores its bytes.
  pub takes_put :
      (w : W) (m : TlMessageA) (i : ℕ)
      → IsBurst lg_beat capacity m
      → m.opcode ≡ opcode_a put_full_data
      → i < beats lg_beat m.size
      → phase w ≡ next_put m.address m.size i
      → (phase (send_a link m w) ≡ after_put lg_beat m.address m.size i)
        × ((x : ℕ)
            → mem (send_a link m w) x ≡ (
                if in_range (m.address + i * 2 ^ lg_beat) (2 ^ lg_beat) x
                then byte_at m.payload (x - (m.address + i * 2 ^ lg_beat))
                else mem w x))
  -- After the last beat of a write it acknowledges once.
  pub answers_put :
      (w : W)
      → phase w ≡ acking
      → (d : TlMessageD) × (later : W) × (link.recv w ≡ some (encode_d d, later))
        × IsWriteAck d
        × (phase later ≡ idle)
        × ((x : ℕ) → mem later x ≡ mem w x)
