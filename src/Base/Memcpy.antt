-- ===== src/Base/Memcpy.antt =====
-- `memcpy` within bounds, as a splice of byte lists.
use switchboard_adapter.Base.{
  ℕ, ◌+◌, ◌-◌, ◌≤◌, ◌<◌, ◌≡◌, inl, inr, Bool, ◌&&◌, List, ◌++◌, ltb, leb, if◌then◌else◌, length,
  get_or, take, drop, All, All-append, All-take, All-drop, length-append, length-take, length-drop,
  get_or-append_left, get_or-append_right, get_or-take, get_or-drop, arith, ap, ◌∙◌, Bool-cases,
  sym,
}
use switchboard_adapter.Base.Result.{ok, err, undefined_behaviour}
use switchboard_adapter.Base.Words.{memcpy}

-- `dst` with `n` bytes of `src` from index `i` on.
unfoldable pub splice : List ℕ → ℕ → List ℕ → ℕ → List ℕ
splice dst i src n = take i dst ++ (take n src ++ drop (i + n) dst)

-- Index `j` is one of the `n` from `i` on.
abbrev pub in_range : ℕ → ℕ → ℕ → Bool
in_range i n j = leb i j && ltb j (i + n)

pub memcpy-splice :
    (dst : List ℕ) (i : ℕ) (src : List ℕ) (n : ℕ)
    → i + n ≤ length dst
    → n ≤ length src
    → memcpy dst i src n ≡ ok (splice dst i src n)
unfolding memcpy splice
memcpy-splice dst i src n h hs = ground arith

pub memcpy_overrun :
    (dst : List ℕ) (i : ℕ) (src : List ℕ) (n : ℕ)
    → length dst < i + n
    → memcpy dst i src n ≡ err undefined_behaviour
unfolding memcpy
memcpy_overrun dst i src n h = ground arith

module _ (dst : List ℕ) (i : ℕ) (src : List ℕ) (n : ℕ) (fits : i + n ≤ length dst)
    (full : n ≤ length src) where
  pub length-splice : length (splice dst i src n) ≡ length dst
  unfolding splice
  length-splice = omega (
    arith,
    length-append (take i dst) (take n src ++ drop (i + n) dst),
    length-append (take n src) (drop (i + n) dst),
    length-take i dst,
    length-take n src,
    length-drop (i + n) dst,
  )

  pub All-splice : (P : ℕ → Type 0) → All P dst → All P src → All P (splice dst i src n)
  unfolding splice
  All-splice P hd hs =
      All-append P (take i dst) _ (All-take P i dst hd)
        (All-append P (take n src) _ (All-take P n src hs) (All-drop P (i + n) dst hd))

  splice_before : (j : ℕ) → j < i → get_or (splice dst i src n) j 0 ≡ get_or dst j 0
  unfolding splice
  splice_before j h =
      get_or-append_left (take i dst) _ j 0 (omega (arith, length-take i dst))
      ∙ get_or-take i dst j 0 h

  splice_inside : (j : ℕ) → j < n → get_or (splice dst i src n) (i + j) 0 ≡ get_or src j 0
  unfolding splice
  splice_inside j h =
      ap (λ t. get_or (splice dst i src n) (t + j) 0) (omega (arith, length-take i dst))
      ∙ get_or-append_right (take i dst) _ j 0
      ∙ get_or-append_left (take n src) _ j 0 (omega (arith, length-take n src))
      ∙ get_or-take n src j 0 h

  splice_after : (j : ℕ) → get_or (splice dst i src n) (i + (n + j)) 0 ≡ get_or dst (i + (n + j)) 0
  unfolding splice
  splice_after j =
      ap (λ t. get_or (splice dst i src n) (t + (n + j)) 0) (omega (arith, length-take i dst))
      ∙ get_or-append_right (take i dst) _ (n + j) 0
      ∙ ap (λ t. get_or (take n src ++ drop (i + n) dst) (t + j) 0)
          (omega (arith, length-take n src))
      ∙ get_or-append_right (take n src) _ j 0
      ∙ get_or-drop (i + n) dst j 0
      ∙ ap (λ t. get_or dst t 0) (omega arith)

  -- The bytes in range come from `src`, the others stay.
  pub get_or-splice :
      (j : ℕ)
      → get_or (splice dst i src n) j 0
        ≡ (if in_range i n j then get_or src (j - i) 0 else get_or dst j 0)
  get_or-splice j = elim (Bool-cases (leb i j)) [
    | inr early ↦ rw early (splice_before j (ground arith))
    | inl late ↦ elim (Bool-cases (ltb j (i + n))) [
      | inl inside ↦
          rw (late, inside)
            (ap (λ t. get_or (splice dst i src n) t 0) (split (ground arith))
              ∙ splice_inside (j - i) (ground arith))
      | inr beyond ↦
          rw (late, beyond)
            (ap (λ t. get_or (splice dst i src n) t 0) (rest (ground arith))
              ∙ splice_after (j - (i + n))
              ∙ ap (λ t. get_or dst t 0) (sym (rest (ground arith))))
    ]
  ]
    where
      split : i ≤ j → j ≡ i + (j - i)
      split h = omega arith

      rest : i + n ≤ j → j ≡ i + (n + (j - (i + n)))
      rest h = omega arith
