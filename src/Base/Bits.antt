-- ===== src/Base/Bits.antt =====
-- Bits, masks and powers of two as arithmetic.
use Prim.Native.Nat.{◌∣◌, digits, bit_and-bitwise}
use native.Mathlib.Nat.{
  pow-suc, one-le-pow, mul_assoc, mod-lt, mod-eq_of_lt, mul-add-mod_self_left, div-add-mod,
  add-zero, add-suc, mul-one, one-mul, sub-zero, suc-sub-suc, mul-lt-mul_of_pos_right,
  lt-mul-div-succ, le-div_iff_mul-le, dvd-mul_right, mod-mod_of_dvd, pow-le-pow_right,
}
use switchboard_adapter.Base.{
  ℕ, zero, suc, ◌+◌, ◌-◌, ◌*◌, ◌/◌, ◌%◌, ◌^◌, ◌≤◌, ◌<◌, min, bit_and, ◌≡◌, refl, sym, ap, subst,
  ◌≢◌, ◌∙◌, Bool, true, false, ◌&&◌, inl, inr, Bool-cases, ==→eq, eq→==, ◌==◌, ltb, leb, arith,
}

-- Bit `i` of `x`.
abbrev pub test_bit : ℕ → ℕ → Bool
test_bit x zero = x % 2 == 1
test_bit x (suc i) = test_bit (x / 2) i

-- Any two amounts of steps that reach the top digit of the first number give the same result.
digits_steps :
    (steps others x y : ℕ)
    → x ≤ others
    → x ≤ steps
    → digits (λ _. zero) min steps x y ≡ digits (λ _. zero) min others x y
digits_steps (suc steps) (suc others) (suc x) y lo ls =
    omega (arith, digits_steps steps others (suc x / 2) (y / 2) (omega arith) (omega arith))
digits_steps (suc steps) (suc others) zero y lo ls = refl
digits_steps (suc steps) zero (suc x) y lo ls = absurd (omega arith)
digits_steps (suc steps) zero zero y lo ls = refl
digits_steps zero (suc others) (suc x) y lo ls = absurd (omega arith)
digits_steps zero (suc others) zero y lo ls = refl
digits_steps zero zero x y lo ls = refl

-- `&` from its lowest digit.
pub bit_and_step : (x y : ℕ) → bit_and x y ≡ bit_and (x / 2) (y / 2) * 2 + min (x % 2) (y % 2)
bit_and_step (suc x) y = omega (
  arith,
  digits_steps x (suc x / 2) (suc x / 2) (y / 2) (omega arith) (omega arith),
  bit_and-bitwise (suc x / 2) (y / 2),
  bit_and-bitwise (suc x) y,
)
bit_and_step zero y = omega (arith, bit_and-bitwise 0 (y / 2), bit_and-bitwise 0 y)

none_below : (bound x : ℕ) → x ≤ bound → bit_and x 0 ≡ 0
none_below (suc bound) (suc x) le =
    omega (arith, none_below bound (suc x / 2) (omega arith), bit_and_step (suc x) 0)
none_below zero (suc x) le = absurd (omega arith)
none_below bound zero le = refl

bit_and-zero : (x : ℕ) → bit_and x 0 ≡ 0
bit_and-zero x = none_below x x (omega arith)

pub pow-pos : (k : ℕ) → 0 < 2 ^ k
pow-pos k = one-le-pow k 2 (omega arith)

-- The remainder is determined by a quotient and its bound.
pub mod_unique : (a m q r : ℕ) → r < m → a ≡ m * q + r → a % m ≡ r
mod_unique a m q r h e = rw e (mul-add-mod_self_left m q r ∙ mod-eq_of_lt h)

mod-double : (a p : ℕ) → 0 < p → a % (p * 2) ≡ a / 2 % p * 2 + a % 2
mod-double a p h =
    mod_unique a (p * 2) (a / 2 / p) (a / 2 % p * 2 + a % 2) (omega (arith, mod-lt (a / 2) h))
      (omega (arith, div-add-mod (a / 2) p, mul_assoc p 2 (a / 2 / p)))

-- A mask of `k` low bits is the remainder by `2 ^ k`.
pub bit_and_mask : (k a : ℕ) → bit_and a (2 ^ k - 1) ≡ a % 2 ^ k
bit_and_mask zero a = omega (arith, bit_and-zero a)
bit_and_mask (suc k) a = omega (
  arith,
  ap (λ (t : ℕ). a % t) (pow-suc 2 k),
  mod-double a (2 ^ k) (pow-pos k),
  bit_and_step a (2 ^ suc k - 1),
  ap (bit_and (a / 2)) half,
  odd,
  bit_and_mask k (a / 2),
)
  where
    half : (2 ^ suc k - 1) / 2 ≡ 2 ^ k - 1
    half = omega (arith, pow-suc 2 k, pow-pos k)

    odd : (2 ^ suc k - 1) % 2 ≡ 1
    odd = omega (arith, pow-suc 2 k, pow-pos k)

pub pow-add : (a b : ℕ) → 2 ^ (a + b) ≡ 2 ^ a * 2 ^ b
pow-add a zero = rw (add-zero, mul-one)
pow-add a (suc b) = rw (add-suc, pow-suc 2 (a + b), pow-suc 2 b, pow-add a b) (mul_assoc _ _ _)

pub pow-dvd : (j k : ℕ) → j ≤ k → 2 ^ j ∣ 2 ^ k
pow-dvd j k h =
    let e : k ≡ j + (k - j) = omega arith in
    subst (λ t. 2 ^ j ∣ t) (sym (ap (λ t. 2 ^ t) e ∙ pow-add j (k - j)))
      (dvd-mul_right (2 ^ j) (2 ^ (k - j)))

pub pow-le : (j k : ℕ) → j ≤ k → 2 ^ j ≤ 2 ^ k
pow-le j k h = pow-le-pow_right (omega arith) h

pub pow-lt : (j k : ℕ) → j < k → 2 ^ j < 2 ^ k
pow-lt j k h = omega (arith, pow-suc 2 j, pow-pos j, pow-le (suc j) k h)

pub mod-pow-pow : (a j k : ℕ) → j ≤ k → a % 2 ^ k % 2 ^ j ≡ a % 2 ^ j
mod-pow-pow a j k h = mod-mod_of_dvd (2 ^ j) a (pow-dvd j k h)

pub pow-pred-odd : (k : ℕ) → 0 < k → (2 ^ k - 1) % 2 ≡ 1
pow-pred-odd zero h = absurd (omega arith)
pow-pred-odd (suc k) h = omega (arith, pow-suc 2 k, pow-pos k)

-- `size` ones from bit `offset` on: exactly the bits in that range are set.
unfoldable pub ones : ℕ → ℕ → ℕ
ones size offset = (2 ^ size - 1) * 2 ^ offset

pub ones-lt : (s o w : ℕ) → s + o ≤ w → ones s o < 2 ^ w
unfolding ones
ones-lt s o w h = omega (
  arith,
  pow-le (s + o) w h,
  pow-add s o,
  mul-lt-mul_of_pos_right {m = 2 ^ s - 1} {n = 2 ^ s} (omega (arith, pow-pos s)) (pow-pos o),
)

ones-suc_offset : (s o : ℕ) → (ones s (suc o) / 2 ≡ ones s o) × (ones s (suc o) % 2 ≡ 0)
unfolding ones
ones-suc_offset s o = omega (arith, pow-suc 2 o, ap (λ (t : ℕ). (2 ^ s - 1) * t) (pow-suc 2 o))

ones-suc_size : (s : ℕ) → (ones (suc s) 0 / 2 ≡ ones s 0) × (ones (suc s) 0 % 2 ≡ 1)
unfolding ones
ones-suc_size s = omega (arith, pow-suc 2 s, pow-pos s)

ones-zero : (o : ℕ) → ones 0 o ≡ 0
unfolding ones
ones-zero o = omega arith

test_bit-zero : (i : ℕ) → test_bit 0 i ≡ false
test_bit-zero zero = refl
test_bit-zero (suc i) = test_bit-zero i

pub test_bit-ones : (s o i : ℕ) → test_bit (ones s o) i ≡ (leb o i && ltb i (o + s))
test_bit-ones zero o i = rw (ones-zero o, test_bit-zero i) (ground arith)
test_bit-ones (suc s) zero zero = ground (arith, ones-suc_size s)
test_bit-ones (suc s) (suc o) zero = ground (arith, ones-suc_offset (suc s) o)
test_bit-ones (suc s) zero (suc i) = rw (ones-suc_size s).0 (ground (arith, test_bit-ones s zero i))
test_bit-ones (suc s) (suc o) (suc i) =
    rw (ones-suc_offset (suc s) o).0 (ground (arith, test_bit-ones (suc s) o i))

shift_half : (x o : ℕ) → x * 2 ^ suc o / 2 ≡ x * 2 ^ o
shift_half x o = omega (arith, ap (λ (t : ℕ). x * t) (pow-suc 2 o))

pub test_bit-shift : (x o i : ℕ) → test_bit (x * 2 ^ o) i ≡ (leb o i && test_bit x (i - o))
test_bit-shift x zero i = rw (mul-one, sub-zero) (ground arith)
test_bit-shift x (suc o) zero = ground (arith, pow-suc 2 o, ap (λ (t : ℕ). x * t) (pow-suc 2 o))
test_bit-shift x (suc o) (suc i) =
    rw (shift_half x o) (ground (arith, test_bit-shift x o i, suc-sub-suc i o))

-- Counting trailing zeros: `__builtin_ctz` of a number that has a set bit below `bits`.
unfoldable pub count_trailing_zeros : ℕ → ℕ → ℕ
count_trailing_zeros zero v = 0
count_trailing_zeros (suc bits) v = elim (v % 2 == 0) [
  | true ↦ suc (count_trailing_zeros bits (v / 2))
  | false ↦ 0
]

pub ctz-odd-mul : (bits k m : ℕ) → k < bits → m % 2 ≡ 1 → count_trailing_zeros bits (m * 2 ^ k) ≡ k
unfolding count_trailing_zeros
ctz-odd-mul zero k m h odd = absurd (omega arith)
ctz-odd-mul (suc bits) zero m h odd = ground arith
ctz-odd-mul (suc bits) (suc k) m h odd = ground (arith, even, ctz-odd-mul bits k m)
  where
    even : (m * 2 ^ suc k / 2 ≡ m * 2 ^ k) × (m * 2 ^ suc k % 2 ≡ 0)
    even = omega (arith, ap (λ (t : ℕ). m * t) (pow-suc 2 k))

pub ctz-pow : (bits k : ℕ) → k < bits → count_trailing_zeros bits (2 ^ k) ≡ k
ctz-pow bits k h = rw (← one-mul (2 ^ k)) (ctz-odd-mul bits k 1 h refl)

-- Counting leading zeros of a number of `bits` bits: `__builtin_clzll` for 64.
unfoldable pub count_leading_zeros : ℕ → ℕ → ℕ
count_leading_zeros zero v = 0
count_leading_zeros (suc bits) v = elim (v / 2 ^ bits == 0) [
  | true ↦ suc (count_leading_zeros bits v)
  | false ↦ 0
]

pub div-eq-zero_of_lt : (v m : ℕ) → v / m ≡ 0 → 0 < m → v < m
div-eq-zero_of_lt v m e pos = omega (arith, lt-mul-div-succ v pos, ap (λ (t : ℕ). m * (t + 1)) e)

pub le_of_div-ne-zero : (v m : ℕ) → v / m ≢ 0 → 0 < m → m ≤ v
le_of_div-ne-zero v m ne pos =
    omega (arith, (le-div_iff_mul-le {x = 1} {y = v} pos).0 (omega arith))

-- The highest set bit of `v` is bit `bits - 1 - clz`.
pub clz_bounds :
    (bits v : ℕ)
    → 0 < v
    → v < 2 ^ bits
    → let c = count_leading_zeros bits v in
      (c < bits) × (2 ^ (bits - 1 - c) ≤ v) × (v < 2 * 2 ^ (bits - 1 - c))
unfolding count_leading_zeros
clz_bounds zero v pos h = absurd (omega arith)
clz_bounds (suc bits) v pos h = elim (Bool-cases (v / 2 ^ bits == 0)) [
  | inl clear ↦
      let below : v < 2 ^ bits = div-eq-zero_of_lt v (2 ^ bits) (==→eq _ _ clear) (pow-pos bits) in
      let rest = clz_bounds bits v pos below in
      let e : suc bits - 1 - suc (count_leading_zeros bits v)
          ≡ bits - 1 - count_leading_zeros bits v =
        omega arith in
      rw (clear, count_leading_zeros, e) (omega arith, rest.1, rest.2)
  | inr set ↦
      let above : 2 ^ bits ≤ v =
        le_of_div-ne-zero v (2 ^ bits) (λ e. cc (eq→== _ _ e)) (pow-pos bits) in
      let e : suc bits - 1 - 0 ≡ bits = omega arith in
      rw (set, count_leading_zeros, e) (omega arith, above, omega (arith, pow-suc 2 bits))
]
