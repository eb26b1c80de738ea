-- ===== src/MemIfc/Tests.antt =====
-- Runs of the adapter against the memory of MemIfc.Ram, with beats of 8 bytes.
use switchboard_adapter.Base.{
  ℕ, zero, suc, ◌+◌, ◌*◌, ◌%◌, ◌^◌, ◌≤◌, ◌<◌, ◌≡◌, refl, true, List, [], ◌∷◌, length, All,
  All-replicate, replicate, ltb, length, if◌then◌else◌, arith, some, ◌⊎◌,
}
use switchboard_adapter.Base.Result.{
  Result, Error, ok, err, ◌>>=◌, address_not_beat_aligned, params_not_set,
}
use switchboard_adapter.Wire.{TlMessageA, TlBundleParams, IsByte}
use switchboard_adapter.Agent.{TlAgent, set_params}
use switchboard_adapter.Agent.Put.{byte_at}
use switchboard_adapter.Client.{new_agent}
use switchboard_adapter.MemIfc.{
  ClientTlMemIfc, new_mem_ifc, chunk_align, chunk_max_size, read_chunk, write_chunk, clear_chunk,
  validate_len_addr, read, write,
}
use switchboard_adapter.MemIfc.Memory.{idle}
use switchboard_adapter.MemIfc.Chunks.{floor_pow2, shrink, for_aligned_chunks}
use switchboard_adapter.MemIfc.Tiling.{IsTiling, each, for_aligned_chunks_lem}
use switchboard_adapter.MemIfc.Ready.{IsReady}
use switchboard_adapter.MemIfc.Writes.{stored}
use switchboard_adapter.MemIfc.Reads.{loaded}
use switchboard_adapter.MemIfc.Spans.{SpanFails, span_cases}
use switchboard_adapter.MemIfc.Checks.{IsChunk, starts_inside_beat, chunk_refused}
use switchboard_adapter.MemIfc.WriteChunk.{write_chunk_lem}
use switchboard_adapter.MemIfc.ReadChunk.{read_chunk_lem}
use switchboard_adapter.MemIfc.WriteRead.{read_chunk-write_chunk}
use switchboard_adapter.MemIfc.Clear.{cleared, clear_chunk_lem}
use switchboard_adapter.MemIfc.Construct.{new_mem_ifc-IsReady}
use switchboard_adapter.MemIfc.Ram.{Ram, ram_link, ram-IsMemory, ram-idle}
use switchboard_adapter.MemIfc.TestSetup.{
  test_params, test_ifc, test_stack, test_ram, test_bytes, eight_fits, test_memory, test-capacity,
  test_params-IsBeat, test_ifc-IsReady, test_stack-IsStack, test_bytes-All,
}

-- 24 bytes at address 40: a chunk of 8 bytes and one of 16.
range-IsChunk : IsChunk 3 test_ifc 40 24
range-IsChunk = record {
  starts_at_beat = refl;
  has_a_beat = omega arith;
  within_max = omega arith;
  whole_beats = refl;
}

-- Its last 16 bytes.
part-IsChunk : IsChunk 3 test_ifc (40 + 8) 16
part-IsChunk = record {
  starts_at_beat = refl;
  has_a_beat = omega arith;
  within_max = omega arith;
  whole_beats = refl;
}

for_aligned_chunks_lem_example :
    (cs : List (ℕ × ℕ)) × IsTiling 40 24 cs
    × ((S : Type 0) (fn : ℕ → ℕ → S → Result S) (s : S)
        → for_aligned_chunks fn 40 24 s ≡ each fn cs s)
for_aligned_chunks_lem_example = for_aligned_chunks_lem 40 24 (omega arith) (omega arith)

write_chunk_lem_example :
    (later : Ram) × (write_chunk (ram_link 3) test_ifc test_stack 40 24 test_bytes test_ram
      ≡ ok later)
    × (test_memory.phase later ≡ idle)
    × ((x : ℕ) → test_memory.mem later x ≡ stored (test_memory.mem test_ram) 40 24 test_bytes 0 x)
write_chunk_lem_example =
    write_chunk_lem (ram_link 3) 3 4096 test_memory test-capacity test_ifc test_ifc-IsReady
      test_stack test_stack-IsStack test_bytes test_bytes-All 40 24 test_ram range-IsChunk
      (omega arith) (omega arith) (ram-idle 3 4096 eight_fits test_ram refl)

read_chunk_lem_example :
    (out : List ℕ) × (later : Ram) × (read_chunk
        (ram_link 3)
        test_ifc
        test_stack
        40
        24
        (replicate 30 0)
        test_ram
      ≡ ok (out, later))
    × (length out ≡ 30)
    × (test_memory.phase later ≡ idle)
    × ((x : ℕ) → test_memory.mem later x ≡ test_memory.mem test_ram x)
    × ((j : ℕ) → byte_at out j ≡ loaded (replicate 30 0) 0 24 (test_memory.mem test_ram) 40 j)
read_chunk_lem_example =
    read_chunk_lem (ram_link 3) 3 4096 test_memory test-capacity test_ifc test_ifc-IsReady
      test_stack test_stack-IsStack 40 24 (replicate 30 0) test_ram range-IsChunk (omega arith)
      (omega arith) (ram-idle 3 4096 eight_fits test_ram refl)

read_chunk-write_chunk_example :
    (mid : Ram) × (write_chunk (ram_link 3) test_ifc test_stack 40 24 test_bytes test_ram ≡ ok mid)
    × (out : List ℕ) × (later : Ram) × (read_chunk
          (ram_link 3)
          test_ifc
          test_stack
          (40 + 8)
          16
          (replicate 16 0)
          mid
        ≡ ok (out, later))
    × (length out ≡ 16)
    × ((j : ℕ)
        → byte_at out j
          ≡ (if ltb j 16 then byte_at test_bytes (8 + j) else byte_at (replicate 16 0) j))
read_chunk-write_chunk_example =
    read_chunk-write_chunk (ram_link 3) 3 4096 test_memory test-capacity test_ifc test_ifc-IsReady
      test_stack test_stack-IsStack 40 24 8 16 test_bytes (replicate 16 0) test_ram test_bytes-All
      range-IsChunk part-IsChunk (omega arith) (omega arith) (omega arith) (omega arith)
      (ram-idle 3 4096 eight_fits test_ram refl)

-- 72 bytes: two rounds of 32 and one of 8.
clear_chunk_lem_example :
    (later : Ram) × (clear_chunk (ram_link 3) test_ifc test_stack 40 72 test_ram ≡ ok later)
    × (test_memory.phase later ≡ idle)
    × ((x : ℕ) → test_memory.mem later x ≡ cleared (test_memory.mem test_ram) 40 72 x)
clear_chunk_lem_example =
    clear_chunk_lem (ram_link 3) 3 4096 test_memory test-capacity test_ifc test_ifc-IsReady
      test_stack test_stack-IsStack (omega arith) refl 40 72 test_ram (omega arith) refl refl
      (omega arith) (ram-idle 3 4096 eight_fits test_ram refl)

chunk_refused_example :
    (read_chunk (ram_link 3) test_ifc test_stack 43 24 test_bytes test_ram
      ≡ err address_not_beat_aligned)
    × (write_chunk (ram_link 3) test_ifc test_stack 43 24 test_bytes test_ram
        ≡ err address_not_beat_aligned)
chunk_refused_example =
    chunk_refused (ram_link 3) 3 test_ifc test_ifc-IsReady test_stack 43 24 test_bytes test_ram
      address_not_beat_aligned (starts_inside_beat (omega arith))

-- 24 bytes are no power of two, though they are whole beats.
span_cases_example :
    ((lg : ℕ) × (3 ≤ lg) × (24 ≡ 2 ^ lg) × (48 % 2 ^ lg ≡ 0) × (validate_len_addr 48 24 ≡ ok tt))
    ⊎ ((e : Error) × SpanFails 3 48 24 e
        × (read (ram_link 3) test_ifc test_stack 48 24 test_bytes 0 test_ram ≡ err e)
        × (write (ram_link 3) test_ifc test_stack 48 24 test_bytes 0 test_ram ≡ err e))
span_cases_example =
    span_cases (ram_link 3) 3 test_ifc test_ifc-IsReady test_stack 48 24 test_bytes 0 test_ram
      (omega arith) (omega arith)

new_mem_ifc-IsReady_example :
    (new_mem_ifc (new_agent "uri") ≡ err params_not_set)
    × (b : TlAgent) × (set_params (new_agent "uri") "test" test_params ≡ ok b)
    × (f : ClientTlMemIfc) × (new_mem_ifc b ≡ ok f)
    × IsReady 3 f
    × (chunk_align f ≡ 2 ^ 3)
    × (chunk_max_size f ≡ 32)
new_mem_ifc-IsReady_example =
    new_mem_ifc-IsReady 3 "uri" "test" test_params test_params-IsBeat (omega arith)

-- The tail of what was written is read back, with the code run.
run_write_read :
    (write_chunk (ram_link 3) test_ifc test_stack 40 24 test_bytes test_ram
      >>= (λ w. read_chunk (ram_link 3) test_ifc test_stack 56 8 (replicate 10 0) w)
      >>= λ r. ok r.0)
    ≡ ok (17 ∷ 18 ∷ 19 ∷ 20 ∷ 21 ∷ 22 ∷ 23 ∷ 24 ∷ 0 ∷ 0 ∷ [])
unfolding write_chunk read_chunk switchboard_adapter.MemIfc.check_chunk for_aligned_chunks
    floor_pow2 shrink switchboard_adapter.Base.Bits.count_leading_zeros
    switchboard_adapter.MemIfc.write_next switchboard_adapter.MemIfc.write
    switchboard_adapter.MemIfc.validate_len_addr switchboard_adapter.Base.Words.builtin_ctz
    switchboard_adapter.MemIfc.write_beats switchboard_adapter.Agent.put
    switchboard_adapter.Agent.check_transfer switchboard_adapter.Base.Bits.count_trailing_zeros
    switchboard_adapter.Agent.align_mask switchboard_adapter.Base.Words.shl32
    switchboard_adapter.Base.Words.low_mask switchboard_adapter.Base.Words.memcpy
    switchboard_adapter.Agent.align_mask_at switchboard_adapter.Agent.first_bit_set_u32
    switchboard_adapter.Agent.get switchboard_adapter.Agent.lane switchboard_adapter.Client.recv_d
    switchboard_adapter.Client.send_a switchboard_adapter.MemIfc.Chunks.chunk_loop
    switchboard_adapter.MemIfc.divisor switchboard_adapter.MemIfc.read
    switchboard_adapter.MemIfc.read_beats switchboard_adapter.MemIfc.read_next
    switchboard_adapter.Wire.Bytes.from_le switchboard_adapter.Wire.Bytes.le_bytes
    switchboard_adapter.Wire.Codec.decode_d switchboard_adapter.Wire.Codec.encode_a
    switchboard_adapter.Wire.Codec.encode_d switchboard_adapter.Wire.Codec.decode_a ram_link
    switchboard_adapter.MemIfc.Ram.ram_take
run_write_read = refl
