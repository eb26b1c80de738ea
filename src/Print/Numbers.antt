-- ===== src/Print/Numbers.antt =====
-- Numbers as texts: how long they are, and what they stand for.
use native.Mathlib.Nat.{pow-zero, pow-suc, mod-lt, div-add-mod', div-lt_iff_lt-mul}
use switchboard_adapter.Base.{
  ℕ, zero, suc, ◌+◌, ◌-◌, ◌*◌, ◌/◌, ◌%◌, ◌^◌, ◌≤◌, ◌<◌, ◌≡◌, ap, inl, inr, true, false, Bool-cases,
  List, [], ◌∷◌, ◌++◌, length, length-append, ltb, leb, ◌&&◌, Option, none, some, if◌then◌else◌,
  ◌∙◌, arith,
}
use mathlib.Core.Option.{some-injective}
use switchboard_adapter.Print.{digit_char, digits_text}

-- The value of a character as a digit of a base up to 16: 0 to 9, and a to f.
abbrev pub digit_of : ℕ → ℕ → Option ℕ
digit_of base c =
    if leb 48 c && ltb c 58 && ltb (c - 48) base
    then some (c - 48)
    else if leb 97 c && ltb c 103 && ltb (c - 87) base
    then some (c - 87)
    else none

unfoldable pub then_some : {A B : Type 0} → Option A → (A → Option B) → Option B
then_some none f = none
then_some (some a) f = f a

-- The number of a text of digits, after `acc`, and of one that has a digit at least.
abbrev pub number_after : ℕ → List ℕ → ℕ → Option ℕ
number_after base [] acc = some acc
number_after base (c ∷ cs) acc =
    then_some (digit_of base c) (λ d. number_after base cs (acc * base + d))

abbrev pub number_of : ℕ → List ℕ → Option ℕ
number_of base [] = none
number_of base (c ∷ cs) = number_after base (c ∷ cs) 0

pub digit_of-digit_char :
    (base d : ℕ) → d < base → base ≤ 16 → digit_of base (digit_char d) ≡ some d
digit_of-digit_char base d h small = elim (Bool-cases (ltb d 10)) [
  | inl digit ↦ ground arith
  | inr letter ↦ ground arith
]

then_some-map :
    {A B : Type 0} (o : Option A) (f g : A → Option B) (b c : B)
    → ((a : A) → f a ≡ some b → g a ≡ some c)
    → then_some o f ≡ some b
    → then_some o g ≡ some c
unfolding then_some
then_some-map none f g b c h e = absurd (cc e)
then_some-map (some a) f g b c h e = h a e

number_after-append :
    (base : ℕ) (xs : List ℕ) (c d acc v : ℕ)
    → digit_of base c ≡ some d
    → number_after base xs acc ≡ some v
    → number_after base (xs ++ (c ∷ [])) acc ≡ some (v * base + d)
unfolding then_some
number_after-append base [] c d acc v digit e =
    ap (λ o. then_some o (λ x. some (acc * base + x))) digit
    ∙ ap (λ (t : ℕ). some (t * base + d)) (some-injective acc v e)
number_after-append base (x ∷ xs) c d acc v digit e =
    then_some-map (digit_of base x) _ _ v (v * base + d)
      (λ a. number_after-append base xs c d (acc * base + a) v digit) e

number_of-append :
    (base : ℕ) (xs : List ℕ) (c d v : ℕ)
    → digit_of base c ≡ some d
    → number_of base xs ≡ some v
    → number_of base (xs ++ (c ∷ [])) ≡ some (v * base + d)
number_of-append base [] c d v digit e = absurd (cc e)
number_of-append base (x ∷ xs) c d v digit e = number_after-append base (x ∷ xs) c d 0 v digit e

number_of-one : (base c d : ℕ) → digit_of base c ≡ some d → number_of base (c ∷ []) ≡ some d
unfolding then_some
number_of-one base c d digit =
    ap (λ o. then_some o (λ x. some (0 * base + x))) digit ∙ ap some (omega arith)

digits_one :
    (base fuel n : ℕ) → ltb n base ≡ true → digits_text base (suc fuel) n ≡ digit_char n ∷ []
unfolding digits_text
digits_one base fuel n e = rw (e, digits_text)

digits_more :
    (base fuel n : ℕ)
    → ltb n base ≡ false
    → digits_text base (suc fuel) n
      ≡ digits_text base fuel (n / base) ++ (digit_char (n % base) ∷ [])
unfolding digits_text
digits_more base fuel n e = rw (e, digits_text)

quotient-lt : (base w n : ℕ) → 0 < base → n < base ^ suc w → n / base < base ^ w
quotient-lt base w n pos h = (div-lt_iff_lt-mul pos).1 (omega (arith, h, pow-suc base w))

exponent-pos : (base w n : ℕ) → base ≤ n → n < base ^ suc w → 0 < w
exponent-pos base zero n le h =
    absurd (omega (arith, le, h, pow-suc base 0, ap (λ (t : ℕ). t * base) (pow-zero base)))
exponent-pos base (suc w) n le h = omega arith

-- A number below `base ^ w` has `w` digits at most.
pub length-digits_text :
    (base fuel w n : ℕ) → 0 < base → n < base ^ w → 0 < w → length (digits_text base fuel n) ≤ w
length-digits_text base zero w n pos h hw = unfold digits_text in omega arith
length-digits_text base (suc fuel) zero n pos h hw = absurd (omega arith)
length-digits_text base (suc fuel) (suc w) n pos h hw = elim (Bool-cases (ltb n base)) [
  | inl one ↦ rw (digits_one base fuel n one) (omega arith)
  | inr more ↦ rw (digits_more base fuel n more) (
      omega (
        arith,
        length-append (digits_text base fuel (n / base)) (digit_char (n % base) ∷ []),
        length-digits_text base fuel w (n / base) pos (quotient-lt base w n pos h)
            (exponent-pos base w n (ground arith) h),
      ))
]

-- Read back, a number below `base ^ fuel` is itself.
pub number_of-digits_text :
    (base fuel n : ℕ)
    → 0 < base
    → base ≤ 16
    → n < base ^ fuel
    → 0 < fuel
    → number_of base (digits_text base fuel n) ≡ some n
number_of-digits_text base zero n pos small h hf = absurd (omega arith)
number_of-digits_text base (suc fuel) n pos small h hf = elim (Bool-cases (ltb n base)) [
  | inl one ↦
      rw (digits_one base fuel n one)
        (number_of-one base (digit_char n) n (digit_of-digit_char base n (ground arith) small))
  | inr more ↦ rw (digits_more base fuel n more) (
      number_of-append base (digits_text base fuel (n / base)) (digit_char (n % base)) (n % base)
        (n / base) (digit_of-digit_char base (n % base) (mod-lt n pos) small)
        (number_of-digits_text base fuel (n / base) pos small (quotient-lt base fuel n pos h)
          (exponent-pos base fuel n (ground arith) h))
      ∙ ap some (div-add-mod' n base))
]
