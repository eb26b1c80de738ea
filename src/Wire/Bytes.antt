-- ===== src/Wire/Bytes.antt =====
-- Numbers as bytes, lowest byte first: how the hosts that the library runs on store them.
use native.Mathlib.Nat.{pow-suc}
use switchboard_adapter.Base.{
  ℕ, zero, suc, ◌+◌, ◌*◌, ◌/◌, ◌%◌, ◌^◌, ◌<◌, ◌≡◌, refl, ap, ap₂, ◌∙◌, List, [], ◌∷◌, ◌++◌, length,
  All, arith,
}

unfoldable pub le_bytes : ℕ → ℕ → List ℕ
le_bytes zero v = []
le_bytes (suc n) v = (v % 256) ∷ le_bytes n (v / 256)

unfoldable pub from_le : List ℕ → ℕ
from_le [] = 0
from_le (b ∷ bs) = b + 256 * from_le bs

pub length-le_bytes : (n v : ℕ) → length (le_bytes n v) ≡ n
unfolding le_bytes
length-le_bytes zero v = refl
length-le_bytes (suc n) v = ap suc (length-le_bytes n (v / 256))

pub All-le_bytes : (n v : ℕ) → All (λ b. b < 256) (le_bytes n v)
unfolding le_bytes
All-le_bytes zero v = tt
All-le_bytes (suc n) v = (omega arith, All-le_bytes n (v / 256))

pub from_le-le_bytes : (n v : ℕ) → v < 256 ^ n → from_le (le_bytes n v) ≡ v
unfolding le_bytes from_le
from_le-le_bytes zero v h = omega arith
from_le-le_bytes (suc n) v h =
    omega (arith, from_le-le_bytes n (v / 256) (omega (arith, pow-suc 256 n)))

pub le_bytes-from_le :
    (n : ℕ) (bs : List ℕ) → length bs ≡ n → All (λ b. b < 256) bs → le_bytes n (from_le bs) ≡ bs
unfolding le_bytes from_le
le_bytes-from_le zero [] e h = refl
le_bytes-from_le zero (b ∷ bs) e h = absurd (omega arith)
le_bytes-from_le (suc n) [] e h = absurd (omega arith)
le_bytes-from_le (suc n) (b ∷ bs) e h =
    ap₂ ◌∷◌ (omega (arith, h.0))
      (ap (le_bytes n) (omega (arith, h.0)) ∙ le_bytes-from_le n bs (omega arith) h.1)

pub from_le-lt : (bs : List ℕ) → All (λ b. b < 256) bs → from_le bs < 256 ^ length bs
unfolding from_le
from_le-lt [] h = omega arith
from_le-lt (b ∷ bs) h = omega (arith, from_le-lt bs h.1, pow-suc 256 (length bs), h.0)

pub from_le-append :
    (n : ℕ) (xs ys : List ℕ)
    → length xs ≡ n
    → from_le (xs ++ ys) ≡ from_le xs + 256 ^ n * from_le ys
unfolding from_le
from_le-append zero [] ys e = omega arith
from_le-append zero (x ∷ xs) ys e = absurd (omega arith)
from_le-append (suc n) [] ys e = absurd (omega arith)
from_le-append (suc n) (x ∷ xs) ys e =
    omega
      (arith, from_le-append n xs ys (omega arith), ap (λ (t : ℕ). t * from_le ys) (pow-suc 256 n))
