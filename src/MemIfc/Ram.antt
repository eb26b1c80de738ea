-- ===== src/MemIfc/Ram.antt =====
-- A memory that keeps the contract of MemIfc.Memory, to run the adapter against. It stands for no
-- code of the repository.
use native.Mathlib.Nat.{mod-lt}
use switchboard_adapter.Base.{
  ℕ, ◌+◌, ◌-◌, ◌*◌, ◌%◌, ◌^◌, ◌≤◌, ◌<◌, ◌≡◌, refl, ap, ◌∙◌, Option, none, some, List, length,
  tabulate, length-tabulate, get_or-tabulate, All-tabulate, get_or-All, All, replicate,
  length-replicate, All-replicate, Bool, true, false, eq→==, ◌==◌, if◌then◌else◌, arith,
}
use switchboard_adapter.Base.Memcpy.{in_range}
use switchboard_adapter.Wire.{
  TlMessageA, TlMessageD, IsByte, IsWireD, opcode_a, opcode_d, put_full_data, get, access_ack,
  access_ack_data,
}
use switchboard_adapter.Wire.Codec.{decode_a, encode_d}
use switchboard_adapter.Wire.RoundTrip.{decode_a-encode_a}
use switchboard_adapter.Agent.Put.{byte_at}
use switchboard_adapter.Client.{Link, send_a}
use switchboard_adapter.MemIfc.Memory.{
  Phase, idle, acking, putting, reading, next_put, after_put, after_read, IsBurst, IsReadBeat,
  IsMemory,
}

pub record Ram : Type 0 where
  pub state : Phase
  pub store : ℕ → ℕ

-- The bytes of the memory.
abbrev pub ram_mem : Ram → ℕ → ℕ
ram_mem r x = r.store x % 256

-- The beat of a write that comes next.
abbrev next_beat : Phase → ℕ
next_beat idle = 0
next_beat acking = 0
next_beat (putting address lg i) = i
next_beat (reading address lg i) = 0

next_beat-next_put : (address lg i : ℕ) → next_beat (next_put address lg i) ≡ i
next_beat-next_put address lg i = ground arith

module _ (k : ℕ) where
  unfoldable pub ram_take : TlMessageA → Ram → Ram
  ram_take m r =
      if m.opcode == opcode_a get
      then record r { state = reading m.address m.size 0 }
      else (let i = next_beat r.state in
          record {
            state = after_put k m.address m.size i;
            store = λ x.
                if in_range (m.address + i * 2 ^ k) (2 ^ k) x
                then byte_at m.payload (x - (m.address + i * 2 ^ k))
                else r.store x;
          })

  abbrev answer : ℕ → List ℕ → TlMessageD
  answer opcode payload = record {
    opcode = opcode;
    param = 0;
    size = 0;
    corrupt = 0;
    source = 0;
    sink = 0;
    denied = 0;
    payload = payload;
    reserved = replicate 7 0;
  }

  abbrev read_answer : ℕ → ℕ → Ram → TlMessageD
  read_answer address i r =
      answer (opcode_d access_ack_data) (tabulate 32 (λ j. ram_mem r (address + i * 2 ^ k + j)))

  abbrev write_answer : TlMessageD
  write_answer = answer (opcode_d access_ack) (replicate 32 0)

  abbrev ram_give : Phase → Ram → Option (List ℕ × Ram)
  ram_give idle r = none
  ram_give (putting address lg i) r = none
  ram_give acking r = some (encode_d write_answer, record r { state = idle })
  ram_give (reading address lg i) r =
      some (encode_d (read_answer address i r), record r { state = after_read k address lg i })

  unfoldable pub ram_link : Link Ram
  ram_link = record {
    send = λ packet r. ram_take (decode_a packet) r;
    recv = λ r. ram_give r.state r;
  }

  answer-IsWireD :
      (opcode : ℕ) (payload : List ℕ)
      → opcode < 2 ^ 8
      → length payload ≡ 32
      → All IsByte payload
      → IsWireD (answer opcode payload)
  answer-IsWireD opcode payload h len all = record {
    opcode_fits = h;
    param_fits = omega arith;
    size_fits = omega arith;
    corrupt_fits = omega arith;
    source_fits = omega arith;
    sink_fits = omega arith;
    denied_fits = omega arith;
    payload_length = len;
    payload_bytes = all;
    reserved_length = refl;
    reserved_bytes = (
      zero_byte,
      (zero_byte, (zero_byte, (zero_byte, (zero_byte, (zero_byte, (zero_byte, tt)))))),
    );
  }
    where
      zero_byte : IsByte 0
      zero_byte = omega arith

  read_answer-IsReadBeat :
      (address i : ℕ) (r : Ram)
      → 2 ^ k ≤ 32
      → IsReadBeat k address i (ram_mem r) (read_answer address i r)
  read_answer-IsReadBeat address i r le = record {
    wire =
        answer-IsWireD (opcode_d access_ack_data) _ (omega arith) (length-tabulate 32 bytes)
          (All-tabulate 32 bytes (λ j. mod-lt (r.store (address + i * 2 ^ k + j)) (omega arith)));
    opcode_is = refl;
    granted = refl;
    bytes = λ j h. get_or-tabulate 32 bytes j (omega (arith, h, le));
  }
    where
      bytes : ℕ → ℕ
      bytes j = ram_mem r (address + i * 2 ^ k + j)

  ram_give-reading :
      (p : Phase) (address lg i : ℕ) (r : Ram)
      → p ≡ reading address lg i
      → ram_give p r
        ≡ some (encode_d (read_answer address i r), record r { state = after_read k address lg i })
  ram_give-reading p address lg i r e = λ z. ram_give (e z) r

  ram_give-acking :
      (p : Phase) (r : Ram)
      → p ≡ acking
      → ram_give p r ≡ some (encode_d write_answer, record r { state = idle })
  ram_give-acking p r e = λ z. ram_give (e z) r

  send_a-ram :
      (capacity : ℕ) (m : TlMessageA) (r : Ram)
      → IsBurst k capacity m
      → send_a ram_link m r ≡ ram_take m r
  unfolding send_a ram_link
  send_a-ram capacity m r b = λ z. ram_take (decode_a-encode_a m b.wire z) r

  ram_take-get :
      (m : TlMessageA) (r : Ram)
      → m.opcode ≡ opcode_a get
      → ram_take m r ≡ record r { state = reading m.address m.size 0 }
  unfolding ram_take
  ram_take-get m r e = rw (eq→== _ _ e)

  ram_take-put :
      (m : TlMessageA) (r : Ram) (i : ℕ)
      → m.opcode ≡ opcode_a put_full_data
      → r.state ≡ next_put m.address m.size i
      → ram_take m r ≡ record {
        state = after_put k m.address m.size i;
        store = λ x.
            if in_range (m.address + i * 2 ^ k) (2 ^ k) x
            then byte_at m.payload (x - (m.address + i * 2 ^ k))
            else r.store x;
      }
  unfolding ram_take
  ram_take-put m r i e p = rw (e, p, next_beat-next_put m.address m.size i)

  stores_bytes :
      (m : TlMessageA) (old at x : ℕ) (hit : Bool)
      → All IsByte m.payload
      → (if hit then byte_at m.payload (x - at) else old) % 256
        ≡ (if hit then byte_at m.payload (x - at) else old % 256)
  stores_bytes m old at x true all = omega (arith, get_or-All m.payload (x - at) all)
  stores_bytes m old at x false all = refl

  pub ram-IsMemory : (capacity : ℕ) → 2 ^ k ≤ 32 → IsMemory ram_link k capacity
  unfolding ram_link
  ram-IsMemory capacity le = record {
    mem = ram_mem;
    phase = λ r. r.state;
    takes_get = λ r m b e quiet.
        let taken = send_a-ram capacity m r b ∙ ram_take-get m r e in
        (ap (λ (t : Ram). t.state) taken, λ x. ap (λ t. ram_mem t x) taken);
    answers_get = λ r address lg i e. (
      read_answer address i r,
      record r { state = after_read k address lg i },
      ram_give-reading r.state address lg i r e,
      read_answer-IsReadBeat address i r le,
      refl,
      λ x. refl,
    );
    takes_put = λ r m i b e inside p.
        let taken = send_a-ram capacity m r b ∙ ram_take-put m r i e p in
        (
          ap (λ (t : Ram). t.state) taken,
          λ x.
              ap (λ t. ram_mem t x) taken
              ∙ stores_bytes m (r.store x) (m.address + i * 2 ^ k) x _ b.wire.payload_bytes,
        );
    answers_put = λ r e. (
      write_answer,
      record r { state = idle },
      ram_give-acking r.state r e,
      record {
        wire =
            answer-IsWireD (opcode_d access_ack) (replicate 32 0) (omega arith)
              (length-replicate {A = ℕ} 32 0) (All-replicate IsByte 32 0 (omega arith));
        opcode_is = refl;
        granted = refl;
      },
      refl,
      λ x. refl,
    );
  }

pub ram-idle :
    (k capacity : ℕ) (le : 2 ^ k ≤ 32) (r : Ram)
    → r.state ≡ idle
    → (ram-IsMemory k capacity le).phase r ≡ idle
unfolding ram-IsMemory
ram-idle k capacity le r e = e
