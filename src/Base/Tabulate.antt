-- ===== src/Base/Tabulate.antt =====
-- Lists of the values of a function, and bytes of lists.
use Prim.Native.Nat.{ℕ, zero, suc, ◌<◌}
use mathlib.Core.Path.{◌≡◌, refl, ap, ap₂}
use mathlib.Core.List.{List, [], ◌∷◌}
use native.Mathlib.Omega.{arith}
use switchboard_adapter.Base.Lists.{length, get_or, All}

abbrev pub tabulate : ℕ → (ℕ → ℕ) → List ℕ
tabulate zero f = []
tabulate (suc n) f = f 0 ∷ tabulate n (λ i. f (suc i))

pub length-tabulate : (n : ℕ) (f : ℕ → ℕ) → length (tabulate n f) ≡ n
length-tabulate zero f = refl
length-tabulate (suc n) f = ap suc (length-tabulate n (λ i. f (suc i)))

pub get_or-tabulate : (n : ℕ) (f : ℕ → ℕ) (i : ℕ) → i < n → get_or (tabulate n f) i 0 ≡ f i
get_or-tabulate zero f i h = absurd (omega arith)
get_or-tabulate (suc n) f zero h = refl
get_or-tabulate (suc n) f (suc i) h = get_or-tabulate n (λ i. f (suc i)) i (omega arith)

pub All-tabulate : (n : ℕ) (f : ℕ → ℕ) → ((i : ℕ) → f i < 256) → All (λ b. b < 256) (tabulate n f)
All-tabulate zero f h = tt
All-tabulate (suc n) f h = (h 0, All-tabulate n (λ i. f (suc i)) (λ i. h (suc i)))

pub get_or-All : (payload : List ℕ) (i : ℕ) → All (λ b. b < 256) payload → get_or payload i 0 < 256
get_or-All [] i h = omega arith
get_or-All (b ∷ bs) zero h = h.0
get_or-All (b ∷ bs) (suc i) h = get_or-All bs i h.1

pub tabulate_ext :
    (n : ℕ) (f g : ℕ → ℕ) → ((i : ℕ) → i < n → f i ≡ g i) → tabulate n f ≡ tabulate n g
tabulate_ext zero f g same = refl
tabulate_ext (suc n) f g same =
    ap₂ ◌∷◌ (same 0 (omega arith))
      (tabulate_ext n (λ i. f (suc i)) (λ i. g (suc i)) (λ i h. same (suc i) (omega arith)))
