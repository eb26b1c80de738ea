-- ===== src/MemIfc/Ready.antt =====
-- What an adapter of sb_sim/include/memifc.hpp needs for transfers of whole beats, and the requests it then fills.
use native.Mathlib.Nat.{mod_self, ne_of_gt, mul-div_cancel}
use switchboard_adapter.Base.{
  ne→not-==, ◌%◌, ◌/◌, ℕ, ◌+◌, ◌-◌, ◌*◌, ◌/◌, ◌%◌, ◌^◌, ◌≤◌, ◌<◌, ◌≡◌, refl, ap, ◌∙◌, sym, List,
  length, All, arith, le→not-ltb,
}
use switchboard_adapter.Base.Result.{ok}
use switchboard_adapter.Base.Words.{builtin_ctz}
use switchboard_adapter.MemIfc.{validate_len_addr, divisor}
use switchboard_adapter.MemIfc.Steps.{align_test}
use switchboard_adapter.Base.Bits.{ctz-pow, ones, ones-lt, pow-pos, pow-add}
use switchboard_adapter.Base.Memcpy.{splice, length-splice, All-splice}
use switchboard_adapter.Wire.{TlMessageA, IsByte, opcode_a, put_full_data, get as get_op}
use switchboard_adapter.Agent.{TlAgent, put, get}
use switchboard_adapter.Agent.Mask.{beat_bytes, beat-le}
use switchboard_adapter.Agent.Config.{IsConfigured, Accepts}
use switchboard_adapter.Agent.Put.{put_lem, get_lem}
use switchboard_adapter.MemIfc.{ClientTlMemIfc, chunk_align, chunk_max_size}
use switchboard_adapter.MemIfc.Steps.{pow-le_inv}
use switchboard_adapter.MemIfc.Memory.{IsBurst, beats}

-- A beat has `2 ^ lg_beat` bytes, and no transfer is longer than 4096 bytes.
pub record IsReady (lg_beat : ℕ) (f : ClientTlMemIfc) : Type 0 where
  pub configured : IsConfigured lg_beat f.tl_agent
  pub cached : f.tl_params ≡ f.tl_agent.p
  pub max_le : f.tl_params.max_transfer_bytes ≤ 4096

-- What the stack may hold.
pub record IsStack (m : TlMessageA) : Type 0 where
  pub payload_length : length m.payload ≡ 32
  pub payload_bytes : All IsByte m.payload

pub beats-mul : (k lg : ℕ) → k ≤ lg → beats k lg * 2 ^ k ≡ 2 ^ lg
beats-mul k lg h = sym (pow-add (lg - k) k) ∙ ap (λ t. 2 ^ t) (omega arith)

module _ (k : ℕ) (f : ClientTlMemIfc) (ready : IsReady k f) where
  pub chunk_align_lem : chunk_align f ≡ 2 ^ k
  chunk_align_lem =
      ap (λ p. p.data_bit_width / 8) ready.cached ∙ beat_bytes k f.tl_agent.p ready.configured.beat

  pub Accepts-max : (lg : ℕ) → 2 ^ lg ≤ chunk_max_size f → Accepts f.tl_agent lg
  Accepts-max lg h = record {
    at_most_12 = pow-le_inv lg 12 (omega (arith, ready.max_le));
    within_max = omega (arith, ap (λ p. p.max_transfer_bytes) ready.cached);
  }

-- The request for a whole beat that `put` and `get` fill.
abbrev pub beat_request : ℕ → ℕ → ℕ → ℕ → List ℕ → TlMessageA
beat_request k opcode address lg payload = record {
  opcode = opcode;
  param = 0;
  size = lg;
  corrupt = 0;
  source = 0;
  address = address;
  mask = ones (2 ^ k) 0;
  payload = payload;
}

module _ (k : ℕ) (a : TlAgent) (c : IsConfigured k a) (m : TlMessageA) (st : IsStack m)
    (lg address : ℕ) (acc : Accepts a lg) (whole : k ≤ lg) where
  pub put_beat :
      (bytes : List ℕ)
      → 2 ^ k ≤ length bytes
      → put a m 0 address lg bytes
        ≡ ok (beat_request k (opcode_a put_full_data) address lg (splice m.payload 0 bytes (2 ^ k)))
  put_beat bytes enough = rw (le→not-ltb lg k whole) at (
      put_lem k a c m 0 address lg bytes acc (λ h. absurd (omega arith)) st.payload_length
        (rw (le→not-ltb lg k whole) enough))

  pub get_beat : get a m 0 address lg ≡ ok (beat_request k (opcode_a get_op) address lg m.payload)
  get_beat =
      rw (le→not-ltb lg k whole) at (get_lem k a c m 0 address lg acc (λ h. absurd (omega arith)))

  pub beat_request-IsBurst :
      (opcode capacity : ℕ) (payload : List ℕ)
      → opcode < 2 ^ 8
      → length payload ≡ 32
      → All IsByte payload
      → address % 2 ^ lg ≡ 0
      → address + 2 ^ lg ≤ capacity
      → capacity ≤ 2 ^ 64
      → IsBurst k capacity (beat_request k opcode address lg payload)
  beat_request-IsBurst opcode capacity payload ho len all al inside cap = record {
    wire = record {
      opcode_fits = ho;
      param_fits = omega arith;
      size_fits = omega (arith, acc.at_most_12);
      corrupt_fits = omega arith;
      source_fits = omega arith;
      address_fits = omega (arith, pow-pos lg);
      mask_fits = ones-lt (2 ^ k) 0 32 (omega (arith, beat-le k c.beat.at_most_32));
      payload_length = len;
      payload_bytes = all;
    };
    whole_beats = whole;
    aligned = al;
    inside = inside;
    full_mask = refl;
    clean = refl;
  }

  -- The message that `put` leaves is again a stack's.
  pub splice-IsStack :
      (bytes : List ℕ)
      → 2 ^ k ≤ length bytes
      → All IsByte bytes
      → (length (splice m.payload 0 bytes (2 ^ k)) ≡ 32)
        × All IsByte (splice m.payload 0 bytes (2 ^ k))
  splice-IsStack bytes enough all = (
    length-splice m.payload 0 bytes (2 ^ k) fit enough ∙ st.payload_length,
    All-splice m.payload 0 bytes (2 ^ k) fit enough IsByte st.payload_bytes all,
  )
    where
      fit : 0 + 2 ^ k ≤ length m.payload
      fit = omega (arith, st.payload_length, beat-le k c.beat.at_most_32)

-- The tests and sizes that open `read` and `write`, for a chunk of `2 ^ lg` bytes.
pub validate_pow :
    (lg address : ℕ) → lg < 64 → address % 2 ^ lg ≡ 0 → validate_len_addr address (2 ^ lg) ≡ ok tt
unfolding validate_len_addr
validate_pow lg address h aligned =
    rw (align_test (2 ^ lg) lg h, mod_self, align_test address lg h, aligned)

pub divisor_pow : (k : ℕ) → divisor (2 ^ k) ≡ ok tt
unfolding divisor
divisor_pow k = rw (ne→not-== (2 ^ k) 0 (ne_of_gt (pow-pos k)))

pub ctz_len : (lg : ℕ) → lg < 64 → builtin_ctz 64 (2 ^ lg) ≡ ok lg
unfolding builtin_ctz
ctz_len lg h = rw (ne→not-== (2 ^ lg) 0 (ne_of_gt (pow-pos lg)), ctz-pow 64 lg h)

pub len_beats : (k lg : ℕ) → k ≤ lg → 2 ^ lg / 2 ^ k ≡ beats k lg
len_beats k lg h =
    ap (λ t. t / 2 ^ k) (sym (beats-mul k lg h)) ∙ mul-div_cancel (beats k lg) (pow-pos k)
