-- ===== src/Chisel/Clock.antt =====
-- The contents of a `Queue` of the Chisel library after a clock edge.
use switchboard_adapter.Base.{
  ℕ, ◌+◌, ◌-◌, ◌≤◌, ◌≡◌, refl, sym, ap, ap₂, ◌∙◌, subst, Bool, true, false, ◌&&◌, List, [], ◌∷◌,
  ◌++◌, if◌then◌else◌, ltb, length, drop, All, All-append, All-drop, length-append, length-drop,
  arith,
}
use switchboard_adapter.Chisel.{ChiselQueue, IsChiselQueue}

length-left :
    {A : Type 0} (b : Bool) (xs : List A)
    → length (if b then drop 1 xs else xs) ≡ (if b then length xs - 1 else length xs)
length-left true xs = length-drop 1 xs
length-left false xs = refl

length-added :
    {A : Type 0} (b : Bool) (x : A) → length (if b then x ∷ [] else []) ≡ (if b then 1 else 0)
length-added true x = refl
length-added false x = refl

All-left :
    {A : Type 0} (P : A → Type 0) (b : Bool) (xs : List A)
    → All P xs
    → All P (if b then drop 1 xs else xs)
All-left P true xs h = All-drop P 1 xs h
All-left P false xs h = h

All-added :
    {A : Type 0} (P : A → Type 0) (b : Bool) (x : A)
    → (b ≡ true → P x)
    → All P (if b then x ∷ [] else [])
All-added P true x h = (h refl, tt)
All-added P false x h = tt

and_left : (a b : Bool) → (a && b) ≡ true → a ≡ true
and_left a b h = ground arith

module _ {A Q : Type 0} (queue : ChiselQueue A Q) (entries : ℕ) (fifo : IsChiselQueue entries queue)
    (enq_valid : Bool) (bits : A) (deq_ready : Bool) (q : Q) where
  open fifo use {contents}

  clocked_when :
      contents (queue.clock enq_valid bits deq_ready q)
      ≡ (if deq_ready then drop 1 (contents q) else contents q)
        ++ (if enq_valid && ltb (length (contents q)) entries then bits ∷ [] else [])
  clocked_when = rw (sym (fifo.ready q)) (fifo.clocked enq_valid bits deq_ready q)

  pub length-clock :
      length (contents (queue.clock enq_valid bits deq_ready q))
      ≡ (if deq_ready then length (contents q) - 1 else length (contents q))
        + (if enq_valid && ltb (length (contents q)) entries then 1 else 0)
  length-clock =
      ap length clocked_when
      ∙ length-append (if deq_ready then drop 1 (contents q) else contents q) _
      ∙ ap₂ ◌+◌ (length-left deq_ready (contents q))
          (length-added (enq_valid && ltb (length (contents q)) entries) bits)

  pub length-clock_le :
      length (contents q) ≤ entries
      → length (contents (queue.clock enq_valid bits deq_ready q)) ≤ entries
  length-clock_le h = ground (arith, length-clock)

  pub All-clock :
      (P : A → Type 0)
      → All P (contents q)
      → (enq_valid ≡ true → P bits)
      → All P (contents (queue.clock enq_valid bits deq_ready q))
  All-clock P before new = subst (All P) (sym clocked_when) (
      All-append P (if deq_ready then drop 1 (contents q) else contents q) _
        (All-left P deq_ready (contents q) before)
        (All-added P (enq_valid && ltb (length (contents q)) entries) bits
          (λ h. new (and_left enq_valid _ h))))
