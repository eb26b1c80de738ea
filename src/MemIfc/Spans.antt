-- ===== src/MemIfc/Spans.antt =====
-- The asserts that open `read` and `write` of sb_sim/include/memifc.hpp, in arithmetic.
use native.Mathlib.Nat.{mod-eq_of_lt, mod_self}
use switchboard_adapter.Base.{
  ℕ, ◌-◌, ◌%◌, ◌^◌, ◌≤◌, ◌<◌, bit_and, ◌≡◌, ◌≢◌, ap₂, ◌∙◌, ◌⊎◌, inl, inr, List, leb, ◌==◌,
  Bool-cases, ==→eq, ne→not-==, lt→not-leb, arith,
}
use switchboard_adapter.Base.Result.{
  Error, ok, err, len_not_pow2, address_not_aligned_to_len, len_below_beat,
}
use switchboard_adapter.Base.Bits.{bit_and_mask, pow-pos, pow-le, pow-lt}
use switchboard_adapter.Base.Words.{sub64}
use switchboard_adapter.Base.PowerTest.{power_of_and}
use switchboard_adapter.Client.{Link}
use switchboard_adapter.Wire.{TlMessageA}
use switchboard_adapter.MemIfc.{ClientTlMemIfc, validate_len_addr, read, write}
use switchboard_adapter.MemIfc.Steps.{align_test}
use switchboard_adapter.MemIfc.Ready.{IsReady, chunk_align_lem, validate_pow}

-- The first assert that a transfer of `len` bytes at `addr` fails. An empty one passes the test for
-- powers of two.
pub data SpanFails (lg_beat addr len : ℕ) : Error → Type 0 where
  no_power_of_two : 0 < len → ((lg : ℕ) → len ≢ 2 ^ lg) → SpanFails lg_beat addr len len_not_pow2
  misaligned :
      (lg : ℕ)
      → len ≡ 2 ^ lg
      → addr % 2 ^ lg ≢ 0
      → SpanFails lg_beat addr len address_not_aligned_to_len
  empty_elsewhere : len ≡ 0 → addr ≢ 0 → SpanFails lg_beat addr len address_not_aligned_to_len
  shorter_than_beat :
      (lg : ℕ)
      → len ≡ 2 ^ lg
      → addr % 2 ^ lg ≡ 0
      → lg < lg_beat
      → SpanFails lg_beat addr len len_below_beat
  empty_at_zero : len ≡ 0 → addr ≡ 0 → SpanFails lg_beat addr len len_below_beat

module _ {W : Type 0} (link : Link W) (k : ℕ) (f : ClientTlMemIfc) (ready : IsReady k f)
    (fresh : TlMessageA) (addr len : ℕ) (buffer : List ℕ) (place : ℕ) (w : W) where
  abbrev Refuses : Error → Type 0
  Refuses e =
      (read link f fresh addr len buffer place w ≡ err e)
      × (write link f fresh addr len buffer place w ≡ err e)

  by_validate : (e : Error) → validate_len_addr addr len ≡ err e → Refuses e
  unfolding read write
  by_validate e h = (rw h, rw h)

  by_length : validate_len_addr addr len ≡ ok tt → len < 2 ^ k → Refuses len_below_beat
  unfolding read write
  by_length h short = (
    rw (h, chunk_align_lem k f ready, lt→not-leb _ _ short),
    rw (h, chunk_align_lem k f ready, lt→not-leb _ _ short),
  )

  misaligned_validate :
      (lg : ℕ)
      → lg < 64
      → len ≡ 2 ^ lg
      → addr % 2 ^ lg ≢ 0
      → validate_len_addr addr len ≡ err address_not_aligned_to_len
  unfolding validate_len_addr
  misaligned_validate lg h power odd =
      rw (power, align_test (2 ^ lg) lg h, mod_self, align_test addr lg h, ne→not-== _ _ odd)

  odd_validate :
      0 < len
      → len < 2 ^ 64
      → bit_and len (len - 1) ≢ 0
      → validate_len_addr addr len ≡ err len_not_pow2
  unfolding validate_len_addr
  odd_validate pos small more =
      let pred : sub64 len 1 ≡ len - 1 = omega arith in rw (pred, ne→not-== _ _ more)

  -- An empty transfer has the test `addr & 0xFFFF…`.
  empty_test : addr < 2 ^ 64 → bit_and addr (sub64 0 1) ≡ addr
  empty_test small = bit_and_mask 64 addr ∙ mod-eq_of_lt small

  empty_ok : len ≡ 0 → addr ≡ 0 → validate_len_addr addr len ≡ ok tt
  unfolding validate_len_addr
  empty_ok h z = ap₂ validate_len_addr z h

  empty_err :
      len ≡ 0
      → addr < 2 ^ 64
      → addr ≢ 0
      → validate_len_addr addr len ≡ err address_not_aligned_to_len
  unfolding validate_len_addr
  empty_err h small odd = rw (h, empty_test small, ne→not-== _ _ odd)

  below_64 : (lg : ℕ) → len < 2 ^ 64 → len ≡ 2 ^ lg → lg < 64
  below_64 lg small h = elim (Bool-cases (leb 64 lg)) [
    | inl more ↦ absurd (omega (arith, pow-le 64 lg (ground arith), h))
    | inr less ↦ ground arith
  ]

  -- What `span_cases` says.
  abbrev Outcome : Type 0
  Outcome =
      ((lg : ℕ) × (k ≤ lg)
        × (len ≡ 2 ^ lg)
        × (addr % 2 ^ lg ≡ 0)
        × (validate_len_addr addr len ≡ ok tt))
      ⊎ ((e : Error) × SpanFails k addr len e
          × (read link f fresh addr len buffer place w ≡ err e)
          × (write link f fresh addr len buffer place w ≡ err e))

  fails_by : (e : Error) → SpanFails k addr len e → Refuses e → Outcome
  fails_by e fails refused = inr (e, fails, refused.0, refused.1)

  power_cases : (lg : ℕ) → lg < 64 → len ≡ 2 ^ lg → Outcome
  power_cases lg low h = elim (Bool-cases (addr % 2 ^ lg == 0)) [
    | inl even ↦
        let valid : validate_len_addr addr len ≡ ok tt =
          rw h (validate_pow lg addr low (==→eq _ _ even)) in
        elim (Bool-cases (leb k lg)) [
          | inl enough ↦ inl (lg, ground arith, h, ==→eq _ _ even, valid)
          | inr short ↦
              fails_by len_below_beat (shorter_than_beat lg h (==→eq _ _ even) (ground arith))
                (by_length valid (omega (arith, pow-lt lg k (ground arith), h)))
        ]
    | inr odd ↦
        fails_by address_not_aligned_to_len (misaligned lg h (ground arith))
          (by_validate address_not_aligned_to_len (misaligned_validate lg low h (ground arith)))
  ]

  empty_cases : len ≡ 0 → addr < 2 ^ 64 → Outcome
  empty_cases empty small = elim (Bool-cases (addr == 0)) [
    | inl here ↦
        fails_by len_below_beat (empty_at_zero empty (==→eq _ _ here))
          (by_length (empty_ok empty (==→eq _ _ here)) (omega (arith, empty, pow-pos k)))
    | inr elsewhere ↦
        fails_by address_not_aligned_to_len (empty_elsewhere empty (ground arith))
          (by_validate address_not_aligned_to_len (empty_err empty small (ground arith)))
  ]

  -- With a ready adapter, for an address and a length of 64 bits: either the length is a power of two
  -- of at least a beat to which the address is aligned, and then the asserts of `validate_len_addr`
  -- hold; or `read` and `write` are both refused with the error of the first assert that fails,
  -- whatever the buffer and the link.
  pub span_cases :
      addr < 2 ^ 64
      → len < 2 ^ 64
      → ((lg : ℕ) × (k ≤ lg)
          × (len ≡ 2 ^ lg)
          × (addr % 2 ^ lg ≡ 0)
          × (validate_len_addr addr len ≡ ok tt))
        ⊎ ((e : Error) × SpanFails k addr len e
            × (read link f fresh addr len buffer place w ≡ err e)
            × (write link f fresh addr len buffer place w ≡ err e))
  span_cases small_addr small = elim (Bool-cases (len == 0)) [
    | inl empty ↦ empty_cases (==→eq _ _ empty) small_addr
    | inr some_bytes ↦ elim (Bool-cases (bit_and len (len - 1) == 0)) [
      | inl alone ↦
          let (lg, h) = power_of_and len (ground arith) (==→eq _ _ alone) in
          power_cases lg (below_64 lg small h) h
      | inr more ↦
          fails_by len_not_pow2
            (no_power_of_two (ground arith) (λ lg h. absurd (ground (arith, pow_and lg h))))
            (by_validate len_not_pow2 (odd_validate (ground arith) small (ground arith)))
    ]
  ]
    where
      pow_and : (lg : ℕ) → len ≡ 2 ^ lg → bit_and len (len - 1) ≡ 0
      pow_and lg h = rw h (bit_and_mask lg (2 ^ lg) ∙ mod_self (2 ^ lg))
