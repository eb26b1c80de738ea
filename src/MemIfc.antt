-- ===== src/MemIfc.antt =====
-- `ClientTLMemIfc` of sb_sim/include/memifc.hpp. A buffer that the caller passes is a list and an
-- index into it; the mutex is held by one call at a time, so the calls are modelled one by one.
pub mod Chunks
pub mod Steps
pub mod Tiling
pub mod Memory
pub mod Ready
pub mod Overlay
pub mod Writes
pub mod Reads
pub mod Checks
pub mod WriteChunk
pub mod ReadChunk
pub mod Clear
pub mod WriteRead
pub mod Session
pub mod ClearCalls
pub mod Interleave
pub mod ClearRace
pub mod Ram
pub mod Construct
pub mod Sends
pub mod Answers
pub mod Spans
pub mod TestSetup
pub mod Tests
pub mod LinkTests
pub mod SessionTests
pub mod RaceTests
use switchboard_adapter.Base.{
  ℕ, zero, suc, ◌+◌, ◌-◌, ◌*◌, ◌/◌, ◌%◌, min, bit_and, List, drop, replicate, leb, ◌==◌,
  if◌then◌else◌,
}
use switchboard_adapter.Base.Result.{
  Result, ok, err, ◌>>=◌, ◌>>◌, check, address_not_beat_aligned, below_minimum_chunk,
  exceeds_maximum_chunk, not_a_multiple_of_beat, len_not_pow2, address_not_aligned_to_len,
  len_below_beat, unexpected_opcode, denied_by_target, undefined_behaviour, out_of_fuel,
}
use switchboard_adapter.Base.Words.{u8, u64, sub64, builtin_ctz, memcpy}
use switchboard_adapter.Wire.{TlMessageA, TlBundleParams, opcode_d, access_ack, access_ack_data}
use switchboard_adapter.Agent.{TlAgent, put, get, get_params}
use switchboard_adapter.Client.{Link, send_a, recv_d}
use Chunks.{for_aligned_chunks}

pub record ClientTlMemIfc : Type 0 where
  pub tl_agent : TlAgent
  pub tl_params : TlBundleParams

unfoldable pub new_mem_ifc : TlAgent → Result ClientTlMemIfc
new_mem_ifc agent = do
  params ← get_params agent
  ok (record { tl_agent = agent; tl_params = params })

abbrev pub chunk_align : ClientTlMemIfc → ℕ
chunk_align f = f.tl_params.data_bit_width / 8

abbrev pub chunk_max_size : ClientTlMemIfc → ℕ
chunk_max_size f = f.tl_params.max_transfer_bytes

unfoldable pub validate_len_addr : ℕ → ℕ → Result (Unit {0})
validate_len_addr addr len = do
  check (bit_and len (sub64 len 1) == 0) len_not_pow2
  check (bit_and addr (sub64 len 1) == 0) address_not_aligned_to_len

-- A division by zero is undefined.
unfoldable pub divisor : ℕ → Result (Unit {0})
divisor d = if d == 0 then err undefined_behaviour else ok tt

-- A buffer, the index that the callback's pointer stands at, and the link's state.
pub record Cursor (W : Type 0) : Type 0 where
  pub buffer : List ℕ
  pub place : ℕ
  pub world : W

-- The asserts that open `read_chunk` and `write_chunk`.
unfoldable pub check_chunk : ClientTlMemIfc → ℕ → ℕ → Result (Unit {0})
unfolding divisor
check_chunk f taddr nbytes = do
  let beat = chunk_align f
  check (bit_and taddr (sub64 beat 1) == 0) address_not_beat_aligned
  check (leb beat nbytes) below_minimum_chunk
  check (leb nbytes (chunk_max_size f)) exceeds_maximum_chunk
  divisor beat
  check (nbytes % beat == 0) not_a_multiple_of_beat

-- `fresh` is what the stack holds where `read` and `write` declare their request.
module _ {W : Type 0} (link : Link W) (f : ClientTlMemIfc) (fresh : TlMessageA) where
  -- The loop of `read` at beat `i`.
  unfoldable pub read_beats : ℕ → ℕ → ℕ → List ℕ → ℕ → W → Result (List ℕ × W)
  read_beats beat_bytes zero i dst place w = ok (dst, w)
  read_beats beat_bytes (suc left) i dst place w = do
    (tl_d, later) ← recv_d link w
    check (tl_d.opcode == opcode_d access_ack_data) unexpected_opcode
    check (tl_d.denied == 0) denied_by_target
    filled ← memcpy dst (place + i * beat_bytes) tl_d.payload beat_bytes
    read_beats beat_bytes left (i + 1) filled place later

  unfoldable pub read : ℕ → ℕ → List ℕ → ℕ → W → Result (List ℕ × W)
  unfolding divisor
  read addr len dst place w = do
    validate_len_addr addr len
    let beat_bytes = chunk_align f
    check (leb beat_bytes len) len_below_beat
    divisor beat_bytes
    lg_size ← builtin_ctz 64 len
    tl_a ← get f.tl_agent fresh 0 addr (u8 lg_size)
    read_beats beat_bytes (len / beat_bytes) 0 dst place (send_a link tl_a w)

  -- The loop of `write` at beat `i`; the request is filled again for each beat.
  unfoldable pub write_beats : ℕ → ℕ → ℕ → ℕ → ℕ → TlMessageA → List ℕ → ℕ → W → Result W
  write_beats addr lg_size beat_bytes zero i tl_a src place w = ok w
  write_beats addr lg_size beat_bytes (suc left) i tl_a src place w = do
    filled ← put f.tl_agent tl_a 0 addr lg_size (drop (place + i * beat_bytes) src)
    write_beats addr lg_size beat_bytes left (i + 1) filled src place (send_a link filled w)

  unfoldable pub write : ℕ → ℕ → List ℕ → ℕ → W → Result W
  unfolding divisor
  write addr len src place w = do
    validate_len_addr addr len
    let beat_bytes = chunk_align f
    check (leb beat_bytes len) len_below_beat
    divisor beat_bytes
    lg_size ← builtin_ctz 64 len
    sent ← write_beats addr (u8 lg_size) beat_bytes (len / beat_bytes) 0 fresh src place w
    (tl_d, later) ← recv_d link sent
    check (tl_d.opcode == opcode_d access_ack) unexpected_opcode
    check (tl_d.denied == 0) denied_by_target
    ok later

  -- The callbacks of `read_chunk` and `write_chunk`.
  unfoldable pub read_next : ℕ → ℕ → Cursor W → Result (Cursor W)
  read_next addr len c = do
    (filled, later) ← read addr len c.buffer c.place c.world
    ok (record { buffer = filled; place = c.place + len; world = later })

  unfoldable pub write_next : ℕ → ℕ → Cursor W → Result (Cursor W)
  write_next addr len c = do
    later ← write addr len c.buffer c.place c.world
    ok (record c { place = c.place + len; world = later })

  unfoldable pub read_chunk : ℕ → ℕ → List ℕ → W → Result (List ℕ × W)
  read_chunk taddr nbytes dst w = do
    check_chunk f taddr nbytes
    c ← for_aligned_chunks read_next taddr nbytes (record { buffer = dst; place = 0; world = w })
    ok (c.buffer, c.world)

  unfoldable pub write_chunk : ℕ → ℕ → List ℕ → W → Result W
  write_chunk taddr nbytes src w = do
    check_chunk f taddr nbytes
    c ← for_aligned_chunks write_next taddr nbytes (record { buffer = src; place = 0; world = w })
    ok c.world

  unfoldable pub clear_loop : ℕ → List ℕ → ℕ → ℕ → W → Result W
  clear_loop zero zeros curr remaining w = err out_of_fuel
  clear_loop (suc fuel) zeros curr remaining w =
      let len = min remaining (chunk_max_size f) in
      let round = do
        later ← write_chunk curr len zeros w
        clear_loop fuel zeros (u64 (curr + len)) (sub64 remaining len) later
      in if remaining == 0 then ok w else round

  -- A round that clears no byte fails, so each takes one at least.
  unfoldable pub clear_chunk : ℕ → ℕ → W → Result W
  unfolding clear_loop
  clear_chunk taddr nbytes w =
      clear_loop (nbytes + 1) (replicate (chunk_max_size f) 0) taddr nbytes w
