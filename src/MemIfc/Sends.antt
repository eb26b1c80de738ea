-- ===== src/MemIfc/Sends.antt =====
-- The requests that `write` of sb_sim/include/memifc.hpp sends, over any link.
use native.Mathlib.Nat.{add-mul, suc-mul, sub-zero}
use native.Mathlib.Numerals.{add-one}
use switchboard_adapter.Base.{
  ℕ, zero, suc, ◌+◌, ◌*◌, ◌%◌, ◌^◌, ◌≤◌, ◌<◌, ◌≡◌, refl, ap, ◌∙◌, true, List, [], ◌∷◌, length, drop,
  All, All-drop, length-drop, get_or-drop, ◌==◌, le→leb, arith,
}
use switchboard_adapter.Base.Result.{
  Result, ok, ◌>>=◌, ◌>>◌, check, unexpected_opcode, denied_by_target,
}
use switchboard_adapter.Base.Words.{u8}
use switchboard_adapter.Base.Bits.{pow-le, ones}
use switchboard_adapter.Base.Memcpy.{splice, in_range, get_or-splice}
use switchboard_adapter.Wire.{
  TlMessageA, TlMessageD, IsByte, opcode_a, opcode_d, put_full_data, access_ack,
}
use switchboard_adapter.Agent.Put.{byte_at}
use switchboard_adapter.Agent.Mask.{beat-le}
use switchboard_adapter.Client.{Link, send_a, recv_d}
use switchboard_adapter.Client.Order.{send_each}
use switchboard_adapter.MemIfc.{ClientTlMemIfc, chunk_max_size, write_beats, write}
use switchboard_adapter.MemIfc.Memory.{beats}
use switchboard_adapter.MemIfc.Ready.{
  IsReady, IsStack, beat_request, put_beat, splice-IsStack, beats-mul, Accepts-max, chunk_align_lem,
  validate_pow, divisor_pow, ctz_len, len_beats,
}

-- Beat `i` of a write of `2 ^ lg` bytes at `address`.
pub record IsBeatOf (k address lg : ℕ) (src : List ℕ) (place i : ℕ) (m : TlMessageA) : Type 0 where
  pub opcode_is : m.opcode ≡ opcode_a put_full_data
  pub size_is : m.size ≡ lg
  pub address_is : m.address ≡ address
  pub source_is : m.source ≡ 0
  pub clean : m.corrupt ≡ 0
  pub full_mask : m.mask ≡ ones (2 ^ k) 0
  pub lanes : (j : ℕ) → j < 2 ^ k → byte_at m.payload j ≡ byte_at src (place + i * 2 ^ k + j)

-- The beats from `i` on.
abbrev pub AreBeatsOf : ℕ → ℕ → ℕ → List ℕ → ℕ → ℕ → List TlMessageA → Type 0
AreBeatsOf k address lg src place i [] = Unit
AreBeatsOf k address lg src place i (m ∷ ms) =
    IsBeatOf k address lg src place i m × AreBeatsOf k address lg src place (suc i) ms

-- What a write makes of its answer.
abbrev pub judge_write : {W : Type 0} → TlMessageD × W → Result W
judge_write (d, later) = do
  check (d.opcode == opcode_d access_ack) unexpected_opcode
  check (d.denied == 0) denied_by_target
  ok later

beat_lane :
    (payload src : List ℕ) (b q j : ℕ)
    → b ≤ length payload
    → b ≤ length (drop q src)
    → j < b
    → byte_at (splice payload 0 (drop q src) b) j ≡ byte_at src (q + j)
beat_lane payload src b q j fit full h =
    get_or-splice payload 0 (drop q src) b (omega (arith, fit)) full j
    ∙ rw (hit, sub-zero) (get_or-drop q src j 0)
  where
    hit : in_range 0 b j ≡ true
    hit = ground arith

module _ (k : ℕ) (f : ClientTlMemIfc) (ready : IsReady k f) (fresh : TlMessageA) (lg address : ℕ)
    (whole : k ≤ lg) (short : 2 ^ lg ≤ chunk_max_size f) (src : List ℕ) (place : ℕ)
    (enough : place + 2 ^ lg ≤ length src) (bytes : All IsByte src) where
  abbrev beat_message : ℕ → TlMessageA → TlMessageA
  beat_message i m =
      beat_request k (opcode_a put_full_data) address lg
        (splice m.payload 0 (drop (place + i * 2 ^ k) src) (2 ^ k))

  part_length :
      (i left : ℕ) → i + suc left ≡ beats k lg → 2 ^ k ≤ length (drop (place + i * 2 ^ k) src)
  part_length i left e = omega (
    arith,
    enough,
    beats-mul k lg whole,
    ap (λ (t : ℕ). t * 2 ^ k) e,
    add-mul i (suc left) (2 ^ k),
    suc-mul left (2 ^ k),
    length-drop (place + i * 2 ^ k) src,
  )

  beat_message-IsBeatOf :
      (i left : ℕ) (m : TlMessageA)
      → i + suc left ≡ beats k lg
      → IsStack m
      → IsBeatOf k address lg src place i (beat_message i m)
  beat_message-IsBeatOf i left m e st = record {
    opcode_is = refl;
    size_is = refl;
    address_is = refl;
    source_is = refl;
    clean = refl;
    full_mask = refl;
    lanes = λ j h.
        beat_lane m.payload src (2 ^ k) (place + i * 2 ^ k) j
          (omega (arith, st.payload_length, beat-le k ready.configured.beat.at_most_32))
          (part_length i left e) h;
  }

  beat_message-IsStack :
      (i left : ℕ) (m : TlMessageA)
      → i + suc left ≡ beats k lg
      → IsStack m
      → IsStack (beat_message i m)
  beat_message-IsStack i left m e st =
      let after =
        splice-IsStack k f.tl_agent ready.configured m st lg address
          (Accepts-max k f ready lg short) whole (drop (place + i * 2 ^ k) src)
          (part_length i left e) (All-drop IsByte (place + i * 2 ^ k) src bytes) in
      record { payload_length = after.0; payload_bytes = after.1 }

  beats_step :
      {W : Type 0} (link : Link W) (i left : ℕ) (m : TlMessageA) (w : W)
      → i + suc left ≡ beats k lg
      → IsStack m
      → write_beats link f fresh address lg (2 ^ k) (suc left) i m src place w
        ≡ write_beats link f fresh address lg
            (2 ^ k)
            left
            (suc i)
            (beat_message i m)
            src
            place
            (send_a link (beat_message i m) w)
  unfolding write_beats
  beats_step link i left m w e st = rw (
    put_beat k f.tl_agent ready.configured m st lg address (Accepts-max k f ready lg short) whole
        (drop (place + i * 2 ^ k) src) (part_length i left e),
    add-one,
  )

  beats_send :
      (left i : ℕ) (m : TlMessageA)
      → i + left ≡ beats k lg
      → IsStack m
      → (ms : List TlMessageA) × (length ms ≡ left)
        × AreBeatsOf k address lg src place i ms
        × ((W : Type 0) (link : Link W) (w : W)
            → write_beats link f fresh address lg (2 ^ k) left i m src place w
              ≡ ok (send_each (send_a link) ms w))
  unfolding send_each
  beats_send zero i m e st = ([], refl, tt, λ W link w. unfold write_beats in refl)
  beats_send (suc left) i m e st =
      let (ms, len, are, runs) =
        beats_send left (suc i) (beat_message i m) (omega (arith, e))
          (beat_message-IsStack i left m e st) in
      (
        beat_message i m ∷ ms,
        ap suc len,
        (beat_message-IsBeatOf i left m e st, are),
        λ W link w.
            beats_step link i left m w e st ∙ runs W link (send_a link (beat_message i m) w),
      )

  -- For a ready adapter, a chunk of `2 ^ lg` bytes, at least a beat and at most the longest transfer,
  -- aligned to its size, and a buffer of bytes that is long enough: over any link, `write` sends the
  -- same requests, one for each beat of the chunk, with the chunk's address and size and that beat's
  -- bytes. Then it takes one answer, and returns if that is an `AccessAck` that is not denied.
  pub write_sends :
      address % 2 ^ lg ≡ 0
      → IsStack fresh
      → (ms : List TlMessageA) × (length ms ≡ beats k lg)
        × AreBeatsOf k address lg src place 0 ms
        × ((W : Type 0) (link : Link W) (w : W)
            → write link f fresh address (2 ^ lg) src place w
              ≡ (recv_d link (send_each (send_a link) ms w) >>= judge_write))
  unfolding write
  write_sends aligned st =
      let acc = Accepts-max k f ready lg short in
      let (ms, len, are, runs) = beats_send (beats k lg) 0 fresh (omega arith) st in
      (
        ms,
        len,
        are,
        λ W link w.
            rw
              (
                validate_pow lg address (omega (arith, acc.at_most_12)) aligned,
                chunk_align_lem k f ready,
                le→leb _ _ (pow-le k lg whole),
                divisor_pow k,
                ctz_len lg (omega (arith, acc.at_most_12)),
                u8_lg acc.at_most_12,
                len_beats k lg whole,
                runs W link w,
              )
              refl,
      )
    where
      u8_lg : lg ≤ 12 → u8 lg ≡ lg
      u8_lg h = omega arith
