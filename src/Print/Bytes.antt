-- ===== src/Print/Bytes.antt =====
-- `data_to_bytes` of sb_sim/include/tilelinklib.hpp, and its output read back.
use native.Mathlib.Nat.{ne_of_gt, mod_self}
use switchboard_adapter.Base.{
  ℕ, zero, suc, ◌+◌, ◌-◌, ◌*◌, ◌/◌, ◌%◌, ◌^◌, ◌≤◌, ◌≡◌, refl, ap, sym, ◌∙◌, List, [], ◌∷◌, ◌++◌,
  length, length-append, take, All, Option, none, some, ◌==◌, ◌&&◌, if◌then◌else◌, eq→==, ne→not-==,
  arith,
}
use switchboard_adapter.Base.Result.{ok}
use switchboard_adapter.Base.Bits.{bit_and_mask, pow-pos}
use switchboard_adapter.Wire.{IsByte}
use switchboard_adapter.Print.{codes, digit_char, bytes_text, data_to_bytes}
use switchboard_adapter.Print.Numbers.{digit_of, then_some, digit_of-digit_char}

abbrev pub read_byte : ℕ → ℕ → Option ℕ
read_byte a b =
    then_some (digit_of 16 a) (λ high. then_some (digit_of 16 b) (λ low. some (16 * high + low)))

-- Bytes of two hexadecimal digits with one space between them, up to a bracket that ends the text.
abbrev pub read_rest : List ℕ → Option (List ℕ)
read_rest (a ∷ b ∷ c ∷ rest) =
    let others = read_rest rest in
    if c == 32
    then then_some (read_byte a b) (λ x. then_some others (λ xs. some (x ∷ xs)))
    else if (c == 93) && (length rest == 0)
    then then_some (read_byte a b) (λ x. some (x ∷ []))
    else none
read_rest _ = none

-- The same behind an opening bracket.
abbrev pub read_bytes : List ℕ → Option (List ℕ)
read_bytes [] = none
read_bytes (c ∷ text) = if c == 91 then read_rest text else none

read_byte-digits :
    (b : ℕ) → IsByte b → read_byte (digit_char (b / 16)) (digit_char (b % 16)) ≡ some b
unfolding then_some
read_byte-digits b h =
    ap
      (λ o.
        then_some o
          (λ high. then_some (digit_of 16 (digit_char (b % 16))) (λ low. some (16 * high + low))))
      (digit_of-digit_char 16 (b / 16) (omega (arith, h)) (omega arith))
    ∙ ap (λ o. then_some o (λ low. some (16 * (b / 16) + low)))
        (digit_of-digit_char 16 (b % 16) (omega arith) (omega arith))
    ∙ ap some (omega arith)

bytes_text_last :
    (b : ℕ) (bytes : List ℕ)
    → bytes_text 1 (b ∷ bytes) ≡ ok (digit_char (b / 16) ∷ digit_char (b % 16) ∷ [])
unfolding bytes_text
bytes_text_last b bytes = refl

bytes_text_more :
    (left b : ℕ) (bytes rest : List ℕ)
    → bytes_text (suc left) bytes ≡ ok rest
    → bytes_text (suc (suc left)) (b ∷ bytes)
      ≡ ok (digit_char (b / 16) ∷ digit_char (b % 16) ∷ 32 ∷ rest)
unfolding bytes_text
bytes_text_more left b bytes rest e = rw (e, ne→not-== (suc left) 0 (omega arith))

bytes_text_lem :
    (left : ℕ) (bytes : List ℕ)
    → suc left ≤ length bytes
    → All IsByte bytes
    → (text : List ℕ) × (bytes_text (suc left) bytes ≡ ok text)
      × (length text ≡ 3 * left + 2)
      × (read_rest (text ++ codes "]") ≡ some (take (suc left) bytes))
unfolding then_some
bytes_text_lem left [] h all = absurd (omega arith)
bytes_text_lem zero (b ∷ bytes) h all = (
  digit_char (b / 16) ∷ digit_char (b % 16) ∷ [],
  bytes_text_last b bytes,
  omega arith,
  ap (λ o. then_some o (λ x. some (x ∷ []))) (read_byte-digits b all.0),
)
bytes_text_lem (suc left) (b ∷ bytes) h all =
    let (rest, runs, len, reads) = bytes_text_lem left bytes (omega (arith, h)) all.1 in
    (
      digit_char (b / 16) ∷ digit_char (b % 16) ∷ 32 ∷ rest,
      bytes_text_more left b bytes rest runs,
      omega (arith, len),
      ap (λ o. then_some o (λ x. then_some (read_rest (rest ++ codes "]")) (λ xs. some (x ∷ xs))))
            (read_byte-digits b all.0)
          ∙ ap (λ o. then_some o (λ xs. some (b ∷ xs))) reads,
    )

-- For a width of `2 ^ k` bytes, no more than the array has, `data_to_bytes` returns a text of three
-- characters for each byte and one more, and the bytes of the beat are read back from it by `read_bytes`,
-- which takes nothing but a bracket, two hexadecimal digits (0 to 9, a to f) for each byte, one space
-- between two bytes, and a bracket.
pub data_to_bytes_lem :
    (k : ℕ) (bytes : List ℕ)
    → 2 ^ k ≤ length bytes
    → All IsByte bytes
    → (text : List ℕ) × (data_to_bytes bytes (8 * 2 ^ k) ≡ ok text)
      × (length text ≡ 3 * 2 ^ k + 1)
      × (read_bytes text ≡ some (take (2 ^ k) bytes))
unfolding data_to_bytes
data_to_bytes_lem k bytes h all =
    let (text, runs, len, reads) =
      bytes_text_lem (2 ^ k - 1) bytes (omega (arith, h, pow-pos k)) all in
    (
      codes "[" ++ (text ++ codes "]"),
      rw (
        eq→== (8 * 2 ^ k % 8) 0 (omega arith),
        beat,
        ne→not-== (2 ^ k) 0 (ne_of_gt (pow-pos k)),
        eq→== _ 0 (bit_and_mask k (2 ^ k) ∙ whole),
        ap (λ n. bytes_text n bytes) top ∙ runs,
      ),
      omega (arith, len, pow-pos k, length-append text (codes "]")),
      reads ∙ ap (λ n. some (take n bytes)) (sym top),
    )
  where
    beat : 8 * 2 ^ k / 8 ≡ 2 ^ k
    beat = omega arith

    whole : 2 ^ k % 2 ^ k ≡ 0
    whole = mod_self (2 ^ k)

    top : 2 ^ k ≡ suc (2 ^ k - 1)
    top = omega (arith, pow-pos k)
