-- ===== src/MemIfc/Answers.antt =====
-- The answers that `read` of sb_sim/include/memifc.hpp takes, over any link.
use native.Mathlib.Nat.{add-mul, suc-mul}
use native.Mathlib.Numerals.{add-one}
use switchboard_adapter.Base.{
  ℕ, zero, suc, ◌+◌, ◌*◌, ◌%◌, ◌^◌, ◌≤◌, ◌<◌, ◌≡◌, ◌≢◌, ap, ◌∙◌, none, List, [], ◌∷◌, length, All,
  le→leb, eq→==, ne→not-==, arith,
}
use switchboard_adapter.Base.Result.{Error, ok, err, blocked, unexpected_opcode, denied_by_target}
use switchboard_adapter.Base.Words.{u8}
use switchboard_adapter.Base.Bits.{pow-le}
use switchboard_adapter.Base.Memcpy.{splice, memcpy-splice, length-splice}
use switchboard_adapter.Wire.{
  TlMessageA, TlMessageD, opcode_a, opcode_d, get as get_op, access_ack_data,
}
use switchboard_adapter.Agent.Mask.{beat-le}
use switchboard_adapter.Client.{Link, send_a, recv_d}
use switchboard_adapter.MemIfc.{ClientTlMemIfc, chunk_max_size, read_beats, read}
use switchboard_adapter.MemIfc.Memory.{beats}
use switchboard_adapter.MemIfc.Ready.{
  IsReady, IsStack, beat_request, get_beat, beats-mul, Accepts-max, chunk_align_lem, validate_pow,
  divisor_pow, ctz_len, len_beats,
}

-- The receives that a link serves from a state, up to another one.
pub data Gives {W : Type 0} (link : Link W) : W → List TlMessageD → W → Type 0 where
  done : {w : W} → Gives link w [] w
  more :
      {w next later : W} {d : TlMessageD} {ds : List TlMessageD}
      → recv_d link w ≡ ok (d, next)
      → Gives link next ds later
      → Gives link w (d ∷ ds) later

-- An answer to a read that is not refused.
pub record IsGood (d : TlMessageD) : Type 0 where
  pub opcode_is : d.opcode ≡ opcode_d access_ack_data
  pub granted : d.denied ≡ 0
  pub payload_length : length d.payload ≡ 32

-- The next receive waits for ever, or gives an answer that a read refuses.
pub data EndsBadly {W : Type 0} (link : Link W) (w : W) : Error → Type 0 where
  no_answer : link.recv w ≡ none → EndsBadly link w blocked
  wrong_opcode :
      {next : W} {d : TlMessageD}
      → recv_d link w ≡ ok (d, next)
      → d.opcode ≢ opcode_d access_ack_data
      → EndsBadly link w unexpected_opcode
  refused :
      {next : W} {d : TlMessageD}
      → recv_d link w ≡ ok (d, next)
      → d.opcode ≡ opcode_d access_ack_data
      → d.denied ≢ 0
      → EndsBadly link w denied_by_target

recv_d-none :
    {W : Type 0} (link : Link W) (w : W) → link.recv w ≡ none → recv_d link w ≡ err blocked
unfolding recv_d
recv_d-none link w e = rw (e, recv_d)

module _ {W : Type 0} (link : Link W) (k : ℕ) (f : ClientTlMemIfc) (ready : IsReady k f)
    (fresh : TlMessageA) (lg address : ℕ) (whole : k ≤ lg) (short : 2 ^ lg ≤ chunk_max_size f)
    (place : ℕ) where
  beat_room :
      (i left n : ℕ)
      → i + suc left ≡ beats k lg
      → place + 2 ^ lg ≤ n
      → place + i * 2 ^ k + 2 ^ k ≤ n
  beat_room i left n e room = omega (
    arith,
    room,
    beats-mul k lg whole,
    ap (λ (t : ℕ). t * 2 ^ k) e,
    add-mul i (suc left) (2 ^ k),
    suc-mul left (2 ^ k),
  )

  good_step :
      (i left : ℕ) (dst : List ℕ) (w next : W) (d : TlMessageD)
      → recv_d link w ≡ ok (d, next)
      → IsGood d
      → place + i * 2 ^ k + 2 ^ k ≤ length dst
      → read_beats link f fresh (2 ^ k) (suc left) i dst place w
        ≡ read_beats link f fresh
            (2 ^ k)
            left
            (suc i)
            (splice dst (place + i * 2 ^ k) d.payload (2 ^ k))
            place
            next
  unfolding read_beats
  good_step i left dst w next d e is fit = rw (
    e,
    eq→== _ _ is.opcode_is,
    eq→== _ _ is.granted,
    memcpy-splice dst (place + i * 2 ^ k) d.payload (2 ^ k) fit
        (omega (arith, is.payload_length, beat-le k ready.configured.beat.at_most_32)),
    add-one,
  )

  bad_step :
      (i left : ℕ) (dst : List ℕ) (w : W) (e : Error)
      → EndsBadly link w e
      → read_beats link f fresh (2 ^ k) (suc left) i dst place w ≡ err e
  unfolding read_beats
  bad_step i left dst w e (no_answer n) = rw (recv_d-none link w n)
  bad_step i left dst w e (wrong_opcode r ne) = rw (r, ne→not-== _ _ ne)
  bad_step i left dst w e (refused r o ne) = rw (r, eq→== _ _ o, ne→not-== _ _ ne)

  beats_stop :
      (ds : List TlMessageD) (left i : ℕ) (dst : List ℕ) (w mid : W) (e : Error)
      → i + left ≡ beats k lg
      → place + 2 ^ lg ≤ length dst
      → Gives link w ds mid
      → All IsGood ds
      → length ds < left
      → EndsBadly link mid e
      → read_beats link f fresh (2 ^ k) left i dst place w ≡ err e
  beats_stop ds zero i dst w mid e eq room gives good lt bad = absurd (omega (arith, lt))
  beats_stop [] (suc left) i dst w mid e eq room done good lt bad = bad_step i left dst w e bad
  beats_stop (d ∷ ds) (suc left) i dst w mid e eq room (more {next = next} r gives) good lt bad =
      let fit = beat_room i left (length dst) eq room in
      let full : 2 ^ k ≤ length d.payload =
        omega (arith, good.0.payload_length, beat-le k ready.configured.beat.at_most_32) in
      let dst' : List ℕ = splice dst (place + i * 2 ^ k) d.payload (2 ^ k) in
      good_step i left dst w next d r good.0 fit
      ∙ beats_stop ds left (suc i) dst' next mid e (omega (arith, eq))
          (omega (arith, room, length-splice dst (place + i * 2 ^ k) d.payload (2 ^ k) fit full))
          gives good.1 (omega (arith, lt)) bad

  -- For a ready adapter, a chunk of `2 ^ lg` bytes, at least a beat and at most the longest transfer,
  -- aligned to its size, and a buffer with room for it: over any link, where the receives after the
  -- request give fewer good answers than the chunk has beats and then none, or one that is denied or has the
  -- wrong opcode, `read` ends by the error for that.
  pub read_stops :
      (dst : List ℕ) (w mid : W) (ds : List TlMessageD) (e : Error)
      → address % 2 ^ lg ≡ 0
      → place + 2 ^ lg ≤ length dst
      → IsStack fresh
      → Gives link
          (send_a link (beat_request k (opcode_a get_op) address lg fresh.payload) w)
          ds
          mid
      → All IsGood ds
      → length ds < beats k lg
      → EndsBadly link mid e
      → read link f fresh address (2 ^ lg) dst place w ≡ err e
  unfolding read
  read_stops dst w mid ds e aligned room st gives good few bad =
      let acc = Accepts-max k f ready lg short in
      rw
        (
          validate_pow lg address (omega (arith, acc.at_most_12)) aligned,
          chunk_align_lem k f ready,
          le→leb _ _ (pow-le k lg whole),
          divisor_pow k,
          ctz_len lg (omega (arith, acc.at_most_12)),
          u8_lg acc.at_most_12,
          get_beat k f.tl_agent ready.configured fresh st lg address acc whole,
          len_beats k lg whole,
        )
        (beats_stop ds (beats k lg) 0 dst _ mid e (omega arith) room gives good few bad)
    where
      u8_lg : lg ≤ 12 → u8 lg ≡ lg
      u8_lg h = omega arith
