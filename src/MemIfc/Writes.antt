-- ===== src/MemIfc/Writes.antt =====
-- `write` of sb_sim/include/memifc.hpp over a TileLink memory.
use native.Mathlib.Nat.{sub-zero, add-mul, suc-mul}
use native.Mathlib.Numerals.{add-one}
use switchboard_adapter.Base.{
  ℕ, zero, suc, ◌+◌, ◌-◌, ◌*◌, ◌%◌, ◌^◌, ◌≤◌, ◌<◌, ◌≡◌, refl, ap, ◌∙◌, sym, true, inl, inr,
  Bool-cases, List, length, drop, All, All-drop, length-drop, get_or-drop, ◌==◌, if◌then◌else◌,
  arith, le→leb, eq→==, ne→not-==,
}
use switchboard_adapter.Base.Result.{ok}
use switchboard_adapter.Base.Words.{u8}
use switchboard_adapter.Base.Bits.{pow-pos, pow-le}
use switchboard_adapter.Base.Memcpy.{splice, in_range, get_or-splice}
use switchboard_adapter.Wire.{TlMessageA, IsByte, opcode_a, put_full_data}
use switchboard_adapter.Agent.{put}
use switchboard_adapter.Agent.Put.{byte_at}
use switchboard_adapter.Agent.Mask.{beat-le}
use switchboard_adapter.Client.Receive.{recv_d-encode_d}
use switchboard_adapter.Client.{Link, send_a}
use switchboard_adapter.MemIfc.{ClientTlMemIfc, chunk_max_size, write_beats, write}
use switchboard_adapter.MemIfc.Overlay.{overlay, overlay_none, overlay-cons}
use switchboard_adapter.MemIfc.Memory.{IsMemory, Phase, idle, acking, next_put, after_put, beats}
use switchboard_adapter.MemIfc.Ready.{
  IsReady, IsStack, beat_request, put_beat, beat_request-IsBurst, splice-IsStack, beats-mul,
  Accepts-max, chunk_align_lem, validate_pow, divisor_pow, ctz_len, len_beats,
}

-- Where a write stands before beat `i`.
abbrev put_phase : ℕ → ℕ → ℕ → ℕ → Phase
put_phase k address lg i = if i == beats k lg then acking else next_put address lg i

after_put-eq-put_phase :
    (k address lg i : ℕ) → after_put k address lg i ≡ put_phase k address lg (suc i)
after_put-eq-put_phase k address lg i = ground arith

-- The bytes `[at, at + n)` of `mem` become those of `src` from `place` on.
abbrev pub stored : (ℕ → ℕ) → ℕ → ℕ → List ℕ → ℕ → ℕ → ℕ
stored mem at n src place = overlay mem at n (byte_at src) place

-- A beat's request carries the source bytes on its lanes.
store_splice :
    (mem : ℕ → ℕ) (at b q : ℕ) (src payload : List ℕ) (x : ℕ)
    → b ≤ length payload
    → b ≤ length (drop q src)
    → (if in_range at b x then byte_at (splice payload 0 (drop q src) b) (x - at) else mem x)
      ≡ stored mem at b src q x
store_splice mem at b q src payload x fit full = elim (Bool-cases (in_range at b x)) [
  | inr other ↦ rw other
  | inl hit ↦
      rw
        (
          hit,
          get_or-splice payload 0 (drop q src) b (omega arith) full (x - at),
          lane (ground arith),
          sub-zero,
        )
        (get_or-drop q src (x - at) 0)
]
  where
    lane : (at ≤ x) × (x < at + b) → in_range 0 b (x - at) ≡ true
    lane h = ground arith

put_phase_open :
    (k address lg i left : ℕ)
    → i + suc left ≡ beats k lg
    → put_phase k address lg i ≡ next_put address lg i
put_phase_open k address lg i left e = rw (ne→not-== i (beats k lg) (omega arith))

module _ {W : Type 0} (link : Link W) (k capacity : ℕ) (memory : IsMemory link k capacity)
    (cap : capacity ≤ 2 ^ 64) (f : ClientTlMemIfc) (ready : IsReady k f) (lg address : ℕ)
    (whole : k ≤ lg) (short : 2 ^ lg ≤ chunk_max_size f) (aligned : address % 2 ^ lg ≡ 0)
    (inside : address + 2 ^ lg ≤ capacity) (src : List ℕ) (place : ℕ)
    (enough : place + 2 ^ lg ≤ length src) (bytes : All IsByte src) where
  open memory use {mem, phase}

  -- The bytes of beat `i` and of those after it lie within the source.
  beat_inside : (i left : ℕ) → i + suc left ≡ beats k lg → place + i * 2 ^ k + 2 ^ k ≤ length src
  beat_inside i left e = omega (
    arith,
    enough,
    beats-mul k lg whole,
    ap (λ (t : ℕ). t * 2 ^ k) e,
    add-mul i (suc left) (2 ^ k),
    suc-mul left (2 ^ k),
  )

  -- One beat: the request is accepted and stores its bytes.
  write_beat :
      (i left : ℕ) (m : TlMessageA) (w : W)
      → i + suc left ≡ beats k lg
      → IsStack m
      → phase w ≡ put_phase k address lg i
      → let part = drop (place + i * 2 ^ k) src in
        let out =
          beat_request k (opcode_a put_full_data) address lg (splice m.payload 0 part (2 ^ k)) in
        (put f.tl_agent m 0 address lg part ≡ ok out)
        × IsStack out
        × (phase (send_a link out w) ≡ put_phase k address lg (suc i))
        × ((x : ℕ)
            → mem (send_a link out w) x
              ≡ stored (mem w) (address + i * 2 ^ k) (2 ^ k) src (place + i * 2 ^ k) x)
  write_beat i left m w e st ph =
      let part : List ℕ = drop (place + i * 2 ^ k) src in
      let full : 2 ^ k ≤ length part =
        omega (arith, beat_inside i left e, length-drop (place + i * 2 ^ k) src) in
      let acc = Accepts-max k f ready lg short in
      let after =
        splice-IsStack k f.tl_agent ready.configured m st lg address acc whole part full
          (All-drop IsByte (place + i * 2 ^ k) src bytes) in
      let burst =
        beat_request-IsBurst k f.tl_agent ready.configured m st lg address acc whole
          (opcode_a put_full_data) capacity _ (omega arith) after.0 after.1 aligned inside cap in
      let law =
        memory.takes_put w _ i burst refl (omega arith)
          (ph ∙ put_phase_open k address lg i left e) in
      (
        put_beat k f.tl_agent ready.configured m st lg address acc whole part full,
        record { payload_length = after.0; payload_bytes = after.1 },
        law.0 ∙ after_put-eq-put_phase k address lg i,
        λ x.
            law.1 x
            ∙ store_splice (mem w) _ (2 ^ k) _ src m.payload x
                (omega (arith, st.payload_length, beat-le k ready.configured.beat.at_most_32)) full,
      )

  write_beats_step :
      (i left : ℕ) (m : TlMessageA) (w : W) (out : TlMessageA)
      → put f.tl_agent m 0 address lg (drop (place + i * 2 ^ k) src) ≡ ok out
      → write_beats link f m address lg (2 ^ k) (suc left) i m src place w
        ≡ write_beats link f out address lg (2 ^ k) left (suc i) out src place (send_a link out w)
  unfolding write_beats
  write_beats_step i left m w out e = rw (e, add-one)

  next_beat :
      (mem mem' : ℕ → ℕ) (i left x : ℕ)
      → mem' x ≡ stored mem (address + i * 2 ^ k) (2 ^ k) src (place + i * 2 ^ k) x
      → stored mem' (address + suc i * 2 ^ k) (left * 2 ^ k) src (place + suc i * 2 ^ k) x
        ≡ stored mem (address + i * 2 ^ k) (suc left * 2 ^ k) src (place + i * 2 ^ k) x
  next_beat mem mem' i left x h =
      (λ z. stored mem' (start address z) (left * 2 ^ k) src (start place z) x)
      ∙ overlay-cons mem mem' (address + i * 2 ^ k) (2 ^ k) (left * 2 ^ k) (byte_at src)
          (place + i * 2 ^ k) x h
      ∙ ap (λ n. stored mem (address + i * 2 ^ k) n src (place + i * 2 ^ k) x) size
    where
      start : (b : ℕ) → b + suc i * 2 ^ k ≡ b + i * 2 ^ k + 2 ^ k
      start b = omega (arith, suc-mul i (2 ^ k))

      size : 2 ^ k + left * 2 ^ k ≡ suc left * 2 ^ k
      size = omega (arith, suc-mul left (2 ^ k))

  -- The loop of `write` from beat `i` on, `left` beats before its end.
  write_beats_lem :
      (left i : ℕ) (m : TlMessageA) (w : W)
      → i + left ≡ beats k lg
      → IsStack m
      → phase w ≡ put_phase k address lg i
      → (later : W) × (write_beats link f m address lg (2 ^ k) left i m src place w ≡ ok later)
        × (phase later ≡ acking)
        × ((x : ℕ)
            → mem later x
              ≡ stored (mem w) (address + i * 2 ^ k) (left * 2 ^ k) src (place + i * 2 ^ k) x)
  write_beats_lem zero i m w e st ph = (
    w,
    unfold write_beats in refl,
    ph ∙ rw (eq→== i (beats k lg) (omega arith)),
    λ x. sym (overlay_none (mem w) _ (0 * 2 ^ k) (byte_at src) _ x (omega arith)),
  )
  write_beats_lem (suc left) i m w e st ph =
      let (sent, st', ph', stores) = write_beat i left m w e st ph in
      let out : TlMessageA =
        beat_request k (opcode_a put_full_data) address lg
          (splice m.payload 0 (drop (place + i * 2 ^ k) src) (2 ^ k)) in
      let (later, runs, acks, mems) =
        write_beats_lem left (suc i) out (send_a link out w) (omega arith) st' ph' in
      (
        later,
        write_beats_step i left m w out sent ∙ runs,
        acks,
        λ x. mems x ∙ next_beat (mem w) (mem (send_a link out w)) i left x (stores x),
      )

  -- `write` of a chunk stores the source bytes at its addresses and nothing else, and leaves the
  -- memory idle.
  pub write_lem :
      (fresh : TlMessageA) (w : W)
      → IsStack fresh
      → phase w ≡ idle
      → (later : W) × (write link f fresh address (2 ^ lg) src place w ≡ ok later)
        × (phase later ≡ idle)
        × ((x : ℕ) → mem later x ≡ stored (mem w) address (2 ^ lg) src place x)
  unfolding write
  write_lem fresh w st quiet =
      let acc = Accepts-max k f ready lg short in
      let (sent, runs, acks, mems) =
        write_beats_lem (beats k lg) 0 fresh w (omega arith) st (quiet ∙ start) in
      let (d, later, got, ack, rests, same) = memory.answers_put sent acks in
      (
        later,
        rw (
          validate_pow lg address (omega (arith, acc.at_most_12)) aligned,
          chunk_align_lem k f ready,
          le→leb _ _ (pow-le k lg whole),
          divisor_pow k,
          ctz_len lg (omega (arith, acc.at_most_12)),
          u8_lg acc.at_most_12,
          len_beats k lg whole,
          runs,
          recv_d-encode_d link sent later d got ack.wire,
          eq→== _ _ ack.opcode_is,
          eq→== _ _ ack.granted,
        ),
        rests,
        λ x.
            same x
            ∙ mems x
            ∙ (λ z. stored (mem w) (base address z) (beats-mul k lg whole z) src (base place z) x),
      )
    where
      start : idle ≡ put_phase k address lg 0
      start = rw (ne→not-== 0 (beats k lg) (omega (arith, pow-pos (lg - k))))

      base : (b : ℕ) → b + 0 * 2 ^ k ≡ b
      base b = omega arith

      u8_lg : lg ≤ 12 → u8 lg ≡ lg
      u8_lg h = omega arith
