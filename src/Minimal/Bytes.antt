-- ===== src/Minimal/Bytes.antt =====
-- The bytes that the sender of sb_sim/minimal/client.cc fills, that the design increments and that the
-- receiver checks.
use switchboard_adapter.Base.{
  ℕ, zero, suc, ◌+◌, ◌%◌, ◌≤◌, ◌<◌, ◌≡◌, refl, ap, ◌∙◌, sym, inl, inr, bit_and, List, [], ◌∷◌, map,
  length-map, ◌==◌, ==→eq, ◌-◌, true, if◌then◌else◌, length, get_or, All, arith, eq→==, lt→ltb,
  Bool-cases,
}
use switchboard_adapter.Base.Result.{ok}
use switchboard_adapter.Base.Bits.{bit_and_mask}
use switchboard_adapter.Base.Words.{u8}
use switchboard_adapter.Base.Memcpy.{
  splice, memcpy-splice, length-splice, All-splice, get_or-splice, in_range,
}
use switchboard_adapter.Wire.{IsByte}
use switchboard_adapter.Wire.Bytes.{le_bytes, length-le_bytes, le_bytes-from_le}
use switchboard_adapter.Minimal.{fill, byte_at, check_bytes, increment}

-- The bytes that `fill` leaves.
pub record IsFilled (left i : ℕ) (bytes filled : List ℕ) : Type 0 where
  pub same_length : length filled ≡ length bytes
  pub all_bytes : All IsByte filled
  pub at_index :
      (j : ℕ) → get_or filled j 0 ≡ (if in_range i left j then bit_and j 0xff else get_or bytes j 0)

pub low_byte : (i : ℕ) → bit_and i 0xff ≡ i % 256
low_byte i = bit_and_mask 8 i

store_one :
    (bytes : List ℕ) (i j : ℕ)
    → i + 1 ≤ length bytes
    → get_or (splice bytes i (bit_and i 0xff ∷ []) 1) j 0
      ≡ (if j == i then bit_and j 0xff else get_or bytes j 0)
store_one bytes i j h = elim (Bool-cases (j == i)) [
  | inl same ↦
      let here : in_range i 1 j ≡ true = ground arith in
      let first : j - i ≡ 0 = ground arith in
      rw
        (
          same,
          get_or-splice bytes i (bit_and i 0xff ∷ []) 1 (omega arith) (omega arith) j,
          here,
          first,
        )
        (ap (λ (k : ℕ). bit_and k 0xff) (sym (==→eq j i same)))
  | inr other ↦
      rw (other, get_or-splice bytes i (bit_and i 0xff ∷ []) 1 (omega arith) (omega arith) j)
        (ground arith)
]

pub fill_lem :
    (left i : ℕ) (bytes : List ℕ)
    → i + left ≤ length bytes
    → All IsByte bytes
    → (filled : List ℕ) × (fill left i bytes ≡ ok filled) × IsFilled left i bytes filled
unfolding fill
fill_lem zero i bytes h hb =
    (bytes, refl, record { same_length = refl; all_bytes = hb; at_index = λ j. ground arith })
fill_lem (suc left) i bytes h hb =
    let (filled, runs, rest) =
      fill_lem left (i + 1) (splice bytes i (bit_and i 0xff ∷ []) 1)
        (omega (arith, length-splice bytes i (bit_and i 0xff ∷ []) 1 (omega arith) (omega arith)))
        (All-splice bytes i (bit_and i 0xff ∷ []) 1 (omega arith) (omega arith) IsByte hb
          (omega (arith, low_byte i), tt)) in
    (
      filled,
      rw (memcpy-splice bytes i (bit_and i 0xff ∷ []) 1 (omega arith) (omega arith)) runs,
      record {
        same_length =
            rest.same_length
            ∙ length-splice bytes i (bit_and i 0xff ∷ []) 1 (omega arith) (omega arith);
        all_bytes = rest.all_bytes;
        at_index = λ j. rest.at_index j ∙ ground (arith, store_one bytes i j (omega arith));
      },
    )

pub check_bytes_lem :
    (left i : ℕ) (bytes : List ℕ)
    → i + left ≤ length bytes
    → ((j : ℕ) → j < i + left → get_or bytes j 0 ≡ bit_and j 0xff + 1)
    → check_bytes left i bytes ≡ ok tt
unfolding check_bytes byte_at
check_bytes_lem zero i bytes h e = refl
check_bytes_lem (suc left) i bytes h e =
    rw
      (
        lt→ltb i (length bytes) (omega arith),
        eq→== (get_or bytes i 0) (bit_and i 0xff + 1) (e i (omega arith)),
      )
      (check_bytes_lem left (i + 1) bytes (omega arith) (λ j l. e j (omega arith)))

get_or-map :
    (f : ℕ → ℕ) (xs : List ℕ) (i : ℕ) → i < length xs → get_or (map f xs) i 0 ≡ f (get_or xs i 0)
get_or-map f [] i h = absurd (omega arith)
get_or-map f (x ∷ xs) zero h = refl
get_or-map f (x ∷ xs) (suc i) h = get_or-map f xs i (omega arith)

All-map : (xs : List ℕ) → All IsByte (map (λ b. u8 (b + 1)) xs)
All-map [] = tt
All-map (x ∷ xs) = (omega arith, All-map xs)

pub increment_lem :
    (d i : ℕ)
    → i < 32
    → get_or (le_bytes 32 (increment d)) i 0 ≡ u8 (get_or (le_bytes 32 d) i 0 + 1)
unfolding increment
increment_lem d i h =
    ap (λ t. get_or t i 0)
      (le_bytes-from_le 32 (map (λ b. u8 (b + 1)) (le_bytes 32 d))
        (length-map _ (le_bytes 32 d) ∙ length-le_bytes 32 d) (All-map (le_bytes 32 d)))
    ∙ get_or-map (λ b. u8 (b + 1)) (le_bytes 32 d) i (omega (arith, length-le_bytes 32 d))
