-- ===== src/MemIfc/Reads.antt =====
-- `read` of sb_sim/include/memifc.hpp over a TileLink memory.
use native.Mathlib.Nat.{add-mul, suc-mul}
use native.Mathlib.Numerals.{add-one}
use switchboard_adapter.Base.{
  ℕ, zero, suc, ◌+◌, ◌-◌, ◌*◌, ◌%◌, ◌^◌, ◌≤◌, ◌<◌, ◌≡◌, refl, ap, ◌∙◌, sym, true, inl, inr,
  Bool-cases, List, length, le→leb, eq→==, ne→not-==, ◌==◌, if◌then◌else◌, arith,
}
use switchboard_adapter.Base.Result.{ok}
use switchboard_adapter.Base.Words.{u8}
use switchboard_adapter.Base.Bits.{pow-pos, pow-le}
use switchboard_adapter.Base.Memcpy.{splice, in_range, memcpy-splice, length-splice, get_or-splice}
use switchboard_adapter.Wire.{TlMessageA, TlMessageD, opcode_a, get as get_op}
use switchboard_adapter.Agent.Put.{byte_at}
use switchboard_adapter.Agent.Mask.{beat-le}
use switchboard_adapter.Client.Receive.{recv_d-encode_d}
use switchboard_adapter.Client.{Link, send_a, recv_d}
use switchboard_adapter.MemIfc.{ClientTlMemIfc, chunk_max_size, read_beats, read}
use switchboard_adapter.MemIfc.Overlay.{overlay, overlay_none, overlay-cons, overlay_ext}
use switchboard_adapter.MemIfc.Memory.{IsMemory, IsReadBeat, Phase, idle, reading, beats}
use switchboard_adapter.MemIfc.Ready.{
  IsReady, IsStack, beat_request, get_beat, beat_request-IsBurst, beats-mul, Accepts-max,
  chunk_align_lem, validate_pow, divisor_pow, ctz_len, len_beats,
}

-- Where the answer to a read stands before beat `i`.
abbrev read_phase : ℕ → ℕ → ℕ → ℕ → Phase
read_phase k address lg i = if i == beats k lg then idle else reading address lg i

read_phase_open :
    (k address lg i left : ℕ)
    → i + suc left ≡ beats k lg
    → read_phase k address lg i ≡ reading address lg i
read_phase_open k address lg i left e = rw (ne→not-== i (beats k lg) (omega (arith, e)))

-- The buffer `dst`, but in `[place, place + n)` the bytes of `mem` from `at` on.
abbrev pub loaded : List ℕ → ℕ → ℕ → (ℕ → ℕ) → ℕ → ℕ → ℕ
loaded dst place n mem at j = overlay (byte_at dst) place n mem at j

-- A beat of the answer fills its part of the buffer.
load_splice :
    (dst : List ℕ) (p b : ℕ) (mem : ℕ → ℕ) (at : ℕ) (payload : List ℕ) (j : ℕ)
    → p + b ≤ length dst
    → b ≤ length payload
    → ((l : ℕ) → l < b → byte_at payload l ≡ mem (at + l))
    → byte_at (splice dst p payload b) j ≡ loaded dst p b mem at j
load_splice dst p b mem at payload j fit full bytes =
    get_or-splice dst p payload b fit full j ∙ (elim (Bool-cases (in_range p b j)) [
      | inr other ↦ rw other
      | inl hit ↦ rw hit (bytes (j - p) (below hit))
    ])
  where
    below : in_range p b j ≡ true → j - p < b
    below h = ground arith

module _ {W : Type 0} (link : Link W) (k capacity : ℕ) (memory : IsMemory link k capacity)
    (cap : capacity ≤ 2 ^ 64) (f : ClientTlMemIfc) (ready : IsReady k f) (fresh : TlMessageA)
    (st : IsStack fresh) (lg address : ℕ) (whole : k ≤ lg) (short : 2 ^ lg ≤ chunk_max_size f)
    (aligned : address % 2 ^ lg ≡ 0) (inside : address + 2 ^ lg ≤ capacity) (place : ℕ) where
  open memory use {mem, phase}

  beat_inside :
      (i left n : ℕ)
      → i + suc left ≡ beats k lg
      → place + 2 ^ lg ≤ n
      → place + i * 2 ^ k + 2 ^ k ≤ n
  beat_inside i left n e enough = omega (
    arith,
    enough,
    beats-mul k lg whole,
    ap (λ (t : ℕ). t * 2 ^ k) e,
    add-mul i (suc left) (2 ^ k),
    suc-mul left (2 ^ k),
  )

  read_beats_step :
      (i left : ℕ) (dst : List ℕ) (w : W) (d : TlMessageD) (later : W)
      → recv_d link w ≡ ok (d, later)
      → IsReadBeat k address i (mem w) d
      → place + i * 2 ^ k + 2 ^ k ≤ length dst
      → read_beats link f fresh (2 ^ k) (suc left) i dst place w
        ≡ read_beats link f fresh
            (2 ^ k)
            left
            (suc i)
            (splice dst (place + i * 2 ^ k) d.payload (2 ^ k))
            place
            later
  unfolding read_beats
  read_beats_step i left dst w d later e is fit = rw (
    e,
    eq→== _ _ is.opcode_is,
    eq→== _ _ is.granted,
    memcpy-splice dst (place + i * 2 ^ k) d.payload (2 ^ k) fit
        (omega (arith, is.wire.payload_length, beat-le k ready.configured.beat.at_most_32)),
    add-one,
  )

  next_load :
      (dst dst' : List ℕ) (m m' : ℕ → ℕ) (i left j : ℕ)
      → byte_at dst' j ≡ loaded dst (place + i * 2 ^ k) (2 ^ k) m (address + i * 2 ^ k) j
      → ((x : ℕ) → m' x ≡ m x)
      → loaded dst' (place + suc i * 2 ^ k) (left * 2 ^ k) m' (address + suc i * 2 ^ k) j
        ≡ loaded dst (place + i * 2 ^ k) (suc left * 2 ^ k) m (address + i * 2 ^ k) j
  next_load dst dst' m m' i left j h same =
      overlay_ext (byte_at dst') (place + suc i * 2 ^ k) (left * 2 ^ k) m' m
        (address + suc i * 2 ^ k) j same
      ∙ (λ z. loaded dst' (start place z) (left * 2 ^ k) m (start address z) j)
      ∙ overlay-cons (byte_at dst) (byte_at dst') (place + i * 2 ^ k) (2 ^ k) (left * 2 ^ k) m
          (address + i * 2 ^ k) j h
      ∙ ap (λ n. loaded dst (place + i * 2 ^ k) n m (address + i * 2 ^ k) j) size
    where
      start : (b : ℕ) → b + suc i * 2 ^ k ≡ b + i * 2 ^ k + 2 ^ k
      start b = omega (arith, suc-mul i (2 ^ k))

      size : 2 ^ k + left * 2 ^ k ≡ suc left * 2 ^ k
      size = omega (arith, suc-mul left (2 ^ k))

  -- The loop of `read` from beat `i` on, `left` beats before its end.
  read_beats_lem :
      (left i : ℕ) (dst : List ℕ) (w : W)
      → i + left ≡ beats k lg
      → place + 2 ^ lg ≤ length dst
      → phase w ≡ read_phase k address lg i
      → (out : List ℕ) × (later : W) × (read_beats link f fresh (2 ^ k) left i dst place w
          ≡ ok (out, later))
        × (length out ≡ length dst)
        × (phase later ≡ idle)
        × ((x : ℕ) → mem later x ≡ mem w x)
        × ((j : ℕ)
            → byte_at out j
              ≡ loaded dst (place + i * 2 ^ k) (left * 2 ^ k) (mem w) (address + i * 2 ^ k) j)
  read_beats_lem zero i dst w e enough ph = (
    dst,
    w,
    unfold read_beats in refl,
    refl,
    ph ∙ rw (eq→== i (beats k lg) (omega (arith, e))),
    λ x. refl,
    λ j. sym (
        overlay_none (byte_at dst) (place + i * 2 ^ k) (0 * 2 ^ k) (mem w) (address + i * 2 ^ k) j
          (omega arith)),
  )
  read_beats_lem (suc left) i dst w e enough ph =
      let (d, later, got, is, ph', same) =
        memory.answers_get w address lg i (ph ∙ read_phase_open k address lg i left e) in
      let fit = beat_inside i left (length dst) e enough in
      let full : 2 ^ k ≤ length d.payload =
        omega (arith, is.wire.payload_length, beat-le k ready.configured.beat.at_most_32) in
      let dst' : List ℕ = splice dst (place + i * 2 ^ k) d.payload (2 ^ k) in
      let len : length dst' ≡ length dst =
        length-splice dst (place + i * 2 ^ k) d.payload (2 ^ k) fit full in
      let (out, final, runs, lens, rests, mems, bytes) =
        read_beats_lem left (suc i) dst' later (omega (arith, e)) (omega (arith, len, enough))
          ph' in
      (
        out,
        final,
        read_beats_step i left dst w d later (recv_d-encode_d link w later d got is.wire) is fit
            ∙ runs,
        lens ∙ len,
        rests,
        λ x. mems x ∙ same x,
        λ j.
            bytes j
            ∙ next_load dst dst' (mem w) (mem later) i left j
                (load_splice dst (place + i * 2 ^ k) (2 ^ k) (mem w) (address + i * 2 ^ k) d.payload
                  j fit full is.bytes)
                same,
      )

  -- `read` of a chunk fills its part of the buffer with the bytes of the memory, which it leaves as
  -- they were, and idle.
  pub read_lem :
      (dst : List ℕ) (w : W)
      → place + 2 ^ lg ≤ length dst
      → phase w ≡ idle
      → (out : List ℕ) × (later : W) × (read link f fresh address (2 ^ lg) dst place w
          ≡ ok (out, later))
        × (length out ≡ length dst)
        × (phase later ≡ idle)
        × ((x : ℕ) → mem later x ≡ mem w x)
        × ((j : ℕ) → byte_at out j ≡ loaded dst place (2 ^ lg) (mem w) address j)
  unfolding read
  read_lem dst w enough quiet =
      let acc = Accepts-max k f ready lg short in
      let m : TlMessageA = beat_request k (opcode_a get_op) address lg fresh.payload in
      let burst =
        beat_request-IsBurst k f.tl_agent ready.configured fresh st lg address acc whole
          (opcode_a get_op) capacity fresh.payload (omega arith) st.payload_length st.payload_bytes
          aligned inside cap in
      let (asks, kept) = memory.takes_get w m burst refl quiet in
      let (out, later, runs, lens, rests, mems, bytes) =
        read_beats_lem (beats k lg) 0 dst (send_a link m w) (omega arith) enough (asks ∙ start) in
      (
        out,
        later,
        rw
            (
              validate_pow lg address (omega (arith, acc.at_most_12)) aligned,
              chunk_align_lem k f ready,
              le→leb _ _ (pow-le k lg whole),
              divisor_pow k,
              ctz_len lg (omega (arith, acc.at_most_12)),
              u8_lg acc.at_most_12,
              get_beat k f.tl_agent ready.configured fresh st lg address acc whole,
              len_beats k lg whole,
            )
            runs,
        lens,
        rests,
        λ x. mems x ∙ kept x,
        λ j.
            bytes j
            ∙ overlay_ext (byte_at dst) (place + 0 * 2 ^ k) (beats k lg * 2 ^ k)
                (mem (send_a link m w)) (mem w) (address + 0 * 2 ^ k) j kept
            ∙ (λ z. loaded dst (base place z) (beats-mul k lg whole z) (mem w) (base address z) j),
      )
    where
      start : reading address lg 0 ≡ read_phase k address lg 0
      start = rw (ne→not-== 0 (beats k lg) (omega (arith, pow-pos (lg - k))))

      base : (b : ℕ) → b + 0 * 2 ^ k ≡ b
      base b = omega arith

      u8_lg : lg ≤ 12 → u8 lg ≡ lg
      u8_lg h = omega arith
