-- ===== src/MemIfc/Interleave.antt =====
-- A thread in `clear_chunk` of sb_sim/include/memifc.hpp beside another thread: the lock is free between
-- the calls of `write_chunk`, so that the calls of the other thread may come in between.
use switchboard_adapter.Base.{
  ℕ, zero, suc, ◌+◌, ◌-◌, ◌≤◌, ◌<◌, ◌≡◌, refl, ap, ap₂, ◌⊎◌, inl, inr, List, [], ◌∷◌, All,
  replicate, min, ◌++◌, drop, tabulate_ext, false, ltb, Bool-cases, ne→not-==, arith,
}
use switchboard_adapter.Base.Memcpy.{in_range}
use switchboard_adapter.MemIfc.Session.{
  Call, reads, writes, clears, array_write, array_read, array_session,
}
use switchboard_adapter.Agent.Put.{byte_at}
use switchboard_adapter.MemIfc.Clear.{byte_at-replicate}
use switchboard_adapter.MemIfc.ClearCalls.{clear_calls}

-- `merged` has the elements of both lists, in the order of each.
pub data Merge {A : Type 0} : List A → List A → List A → Type 0 where
  done : Merge [] [] []
  one : {x : A} {xs ys zs : List A} → Merge xs ys zs → Merge (x ∷ xs) ys (x ∷ zs)
  other : {y : A} {xs ys zs : List A} → Merge xs ys zs → Merge xs (y ∷ ys) (y ∷ zs)

-- The ranges have no byte in common.
abbrev pub Apart : ℕ → ℕ → ℕ → ℕ → Type 0
Apart a n b m = (a + n ≤ b) ⊎ (b + m ≤ a)

-- A read or a write outside of a range.
abbrev pub IsApart : ℕ → ℕ → Call → Type 0
IsApart taddr nbytes (reads a n dst) = Apart a n taddr nbytes
IsApart taddr nbytes (writes a n src) = Apart a n taddr nbytes
IsApart taddr nbytes (clears a n) = ⊥

-- An array that agrees with another one outside of a range, and has zeros in the range up to `curr`,
-- which the rounds of `clear_chunk` have reached.
module _ (taddr nbytes : ℕ) where
  abbrev pub Agree : (ℕ → ℕ) → (ℕ → ℕ) → Type 0
  Agree m m' = (x : ℕ) → in_range taddr nbytes x ≡ false → m x ≡ m' x

  abbrev pub ClearedUpTo : ℕ → (ℕ → ℕ) → Type 0
  ClearedUpTo curr m = (x : ℕ) → taddr ≤ x → x < curr → m x ≡ 0

  same_read :
      (m m' : ℕ → ℕ) (a n : ℕ) (dst : List ℕ)
      → Agree m m'
      → Apart a n taddr nbytes
      → array_read m a n dst ≡ array_read m' a n dst
  same_read m m' a n dst agree apart =
      ap (λ read. read ++ drop n dst)
        (tabulate_ext n (λ j. m (a + j)) (λ j. m' (a + j)) (λ j h. agree (a + j) (away j h apart)))
    where
      away : (j : ℕ) → j < n → Apart a n taddr nbytes → in_range taddr nbytes (a + j) ≡ false
      away j h (inl before) = ground arith
      away j h (inr behind) = ground arith

  same_outside :
      (m m' : ℕ → ℕ) (a n : ℕ) (new : ℕ → ℕ)
      → Agree m m'
      → Agree (array_write m a n new) (array_write m' a n new)
  same_outside m m' a n new agree x outside = elim (Bool-cases (in_range a n x)) [
    | inl inside ↦ ground arith
    | inr beyond ↦ rw beyond (agree x outside)
  ]

  write_clears :
      (m m' : ℕ → ℕ) (curr len : ℕ) (new : ℕ → ℕ)
      → taddr ≤ curr
      → curr + len ≤ taddr + nbytes
      → Agree m m'
      → Agree (array_write m curr len new) m'
  write_clears m m' curr len new le fit agree x outside = ground (arith, agree x outside)

  kept_cleared :
      (m : ℕ → ℕ) (a n curr : ℕ) (new : ℕ → ℕ)
      → curr ≤ taddr + nbytes
      → Apart a n taddr nbytes
      → ClearedUpTo curr m
      → ClearedUpTo curr (array_write m a n new)
  kept_cleared m a n curr new le (inl before) zeros x from to = ground (arith, zeros x from to)
  kept_cleared m a n curr new le (inr behind) zeros x from to = ground (arith, zeros x from to)

  more_cleared :
      (m : ℕ → ℕ) (curr len max : ℕ)
      → ClearedUpTo curr m
      → ClearedUpTo (curr + len) (array_write m curr len (byte_at (replicate max 0)))
  more_cleared m curr len max zeros x from to = elim (Bool-cases (ltb x curr)) [
    | inl before ↦ ground (arith, zeros x from)
    | inr late ↦ ground (arith, byte_at-replicate max (x - curr))
  ]

  -- Rounds of `clear_chunk` that clear the range from `curr` on.
  abbrev pub Clears : ℕ → ℕ → List Call → Type 0
  Clears max curr [] = curr ≡ taddr + nbytes
  Clears max curr (writes a len src ∷ calls) =
      (a ≡ curr)
      × (src ≡ replicate max 0)
      × (curr + len ≤ taddr + nbytes)
      × Clears max (curr + len) calls
  Clears max curr (reads a len dst ∷ calls) = ⊥
  Clears max curr (clears a len ∷ calls) = ⊥

  pub clear_calls-Clears :
      (max fuel curr n : ℕ)
      → n < fuel
      → 0 < max
      → curr + n ≡ taddr + nbytes
      → Clears max curr (clear_calls max fuel curr n)
  unfolding clear_calls
  clear_calls-Clears max zero curr n h pos fit = absurd (omega arith)
  clear_calls-Clears max (suc fuel) curr zero h pos fit = omega (arith, fit)
  clear_calls-Clears max (suc fuel) curr (suc n) h pos fit =
      rw (ne→not-== (suc n) 0 (omega arith)) (
        refl,
        refl,
        omega arith,
        clear_calls-Clears max fuel (curr + min (suc n) max) (suc n - min (suc n) max) (omega arith)
            pos (omega arith),
      )

  -- The other thread reads what it reads alone, outside of the range the array is what the other thread
  -- leaves alone, and the range is cleared.
  pub merged_array :
      (max curr : ℕ) (m m' : ℕ → ℕ) (rounds others merged : List Call)
      → Merge rounds others merged
      → Clears max curr rounds
      → All (IsApart taddr nbytes) others
      → taddr ≤ curr
      → curr ≤ taddr + nbytes
      → Agree m m'
      → ClearedUpTo curr m
      → ((array_session merged m).0 ≡ (array_session others m').0)
        × Agree (array_session merged m).1 (array_session others m').1
        × ClearedUpTo (taddr + nbytes) (array_session merged m).1
  merged_array max curr m m' rounds others merged done end apart from to agree zeros =
      (refl, agree, λ x a b. zeros x a (omega (arith, end)))
  merged_array max curr m m' rounds others merged
        (one {x = writes a len src} {xs = rs} {ys = os} {zs = ms} mg) (here, blank, fit, rest) apart
        from to agree zeros =
      merged_array max (curr + len) (array_write m a len (byte_at src)) m' rs os ms mg rest apart
        (omega (arith, from)) fit
        (write_clears m m' a len (byte_at src) (omega (arith, from, here))
          (omega (arith, fit, here)) agree)
        (rw (here, blank) (more_cleared m curr len max zeros))
  merged_array max curr m m' rounds others merged (one {x = reads a len dst} mg) never apart from to
        agree zeros =
      absurd never
  merged_array max curr m m' rounds others merged (one {x = clears a len} mg) never apart from to
        agree zeros =
      absurd never
  merged_array max curr m m' rounds others merged
        (other {y = reads a n dst} {xs = rs} {ys = os} {zs = ms} mg) cl (away, apart) from to agree
        zeros =
      let (read, agree', zeros') =
        merged_array max curr m m' rs os ms mg cl apart from to agree zeros in
      (ap₂ ◌∷◌ (same_read m m' a n dst agree away) read, agree', zeros')
  merged_array max curr m m' rounds others merged
        (other {y = writes a n src} {xs = rs} {ys = os} {zs = ms} mg) cl (away, apart) from to agree
        zeros =
      merged_array max curr (array_write m a n (byte_at src)) (array_write m' a n (byte_at src)) rs
        os ms mg cl apart from to (same_outside m m' a n (byte_at src) agree)
        (kept_cleared m a n curr (byte_at src) to away zeros)
  merged_array max curr m m' rounds others merged (other {y = clears a n} mg) cl (never, apart) from
        to agree zeros =
      absurd never
