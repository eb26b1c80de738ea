-- ===== src/Chisel/Relay.antt =====
-- A queue between two conversions loses nothing and keeps the order.
use switchboard_adapter.Base.{
  length-map, All, ap₂, ℕ, ◌≤◌, ◌≡◌, refl, sym, ap, ◌∙◌, Bool, true, false, ◌&&◌, List, [], ◌∷◌,
  ◌++◌, map, ltb, if◌then◌else◌, length, drop, arith,
}
use mathlib.Core.List.{append-nil, append_assoc, map-append}
use switchboard_adapter.Chisel.Clock.{length-clock_le}
use switchboard_adapter.Chisel.{ChiselQueue, IsChiselQueue, Edge, accepts, delivers, relay}

module _ {P A R Q : Type 0} (f : P → A) (g : A → R) (queue : ChiselQueue A Q) (entries : ℕ)
    (fifo : IsChiselQueue entries queue) where
  open fifo use {contents}

  entered : (b : Bool) (p : P) → map f (if b then p ∷ [] else []) ≡ (if b then f p ∷ [] else [])
  entered true p = refl
  entered false p = refl

  left :
      (ready : Bool) (q : Q) (xs : List A)
      → contents q ≡ xs
      → map g xs
        ≡ (if ready && queue.deq_valid q then g (queue.deq_bits q) ∷ [] else [])
          ++ map g (if ready then drop 1 xs else xs)
  left false q xs e = refl
  left true q [] e =
      let none_shown : queue.deq_valid q ≡ false = fifo.valid q ∙ ap (λ c. ltb 0 (length c)) e in
      rw none_shown
  left true q (x ∷ xs) e =
      let shown : queue.deq_valid q ≡ true = ground (arith, fifo.valid q, ap length e) in
      rw (shown, fifo.first q x xs e)

  edge_lem :
      (e : Edge P) (q : Q)
      → map g (contents q ++ map f (accepts f g queue e q))
        ≡ delivers f g queue e q
          ++ map g (contents (queue.clock e.in_valid (f e.in_bits) e.out_ready q))
  unfolding accepts delivers
  edge_lem e q =
      map-append g (contents q) (map f (accepts f g queue e q))
      ∙ ap (λ xs. xs ++ map g (map f (accepts f g queue e q)))
          (left e.out_ready q (contents q) refl)
      ∙ append_assoc (delivers f g queue e q) _ _
      ∙ ap (λ xs. delivers f g queue e q ++ xs)
          (ap (λ xs. map g (if e.out_ready then drop 1 (contents q) else contents q) ++ map g xs)
              (entered (e.in_valid && queue.enq_ready q) e.in_bits)
            ∙ sym (map-append g (if e.out_ready then drop 1 (contents q) else contents q) _)
            ∙ ap (map g) (sym (fifo.clocked e.in_valid (f e.in_bits) e.out_ready q)))

  joined :
      (e : Edge P) (q : Q) (ins : List P) (outs : List R) (end : List R)
      → map g (contents (queue.clock e.in_valid (f e.in_bits) e.out_ready q) ++ map f ins)
        ≡ outs ++ end
      → map g (contents q ++ map f (accepts f g queue e q ++ ins))
        ≡ (delivers f g queue e q ++ outs) ++ end
  joined e q ins outs end rest =
      ap (λ xs. map g (contents q ++ xs)) (map-append f (accepts f g queue e q) ins)
      ∙ ap (map g) (sym (append_assoc (contents q) (map f (accepts f g queue e q)) (map f ins)))
      ∙ map-append g (contents q ++ map f (accepts f g queue e q)) (map f ins)
      ∙ ap (λ xs. xs ++ map g (map f ins)) (edge_lem e q)
      ∙ append_assoc (delivers f g queue e q) _ _
      ∙ ap (λ xs. delivers f g queue e q ++ xs) (sym (map-append g _ (map f ins)) ∙ rest)
      ∙ sym (append_assoc (delivers f g queue e q) outs end)

  pub relay_lem :
      (es : List (Edge P)) (q : Q)
      → length (contents q) ≤ entries
      → (map g (contents q ++ map f (relay f g queue es q).0)
          ≡ (relay f g queue es q).1 ++ map g (contents (relay f g queue es q).2))
        × (length (contents (relay f g queue es q).2) ≤ entries)
  unfolding relay
  relay_lem [] q h = (ap (map g) (append-nil (contents q)), h)
  relay_lem (e ∷ es) q h =
      let later : Q = queue.clock e.in_valid (f e.in_bits) e.out_ready q in
      let (rest, small) =
        relay_lem es later
          (length-clock_le queue entries fifo e.in_valid (f e.in_bits) e.out_ready q h) in
      (joined e q _ _ _ rest, small)

-- What goes through an empty queue, seen from both ends: each element that is accepted is one that has
-- been delivered, in the same order, but for those still in the queue.
module _ {M P A R S : Type 0} (wrap : M → P) (f : P → A) (g : A → R) (view : R → S)
    (expected : M → S) (IsFit : M → Type 0)
    (through : (m : M) → IsFit m → view (g (f (wrap m))) ≡ expected m) where
  converted :
      (ms : List M) → All IsFit ms → map expected ms ≡ map view (map g (map f (map wrap ms)))
  converted [] h = refl
  converted (m ∷ ms) h = ap₂ ◌∷◌ (sym (through m h.0)) (converted ms h.1)

  pub relay_views :
      {Q : Type 0} (queue : ChiselQueue A Q) (entries : ℕ) (fifo : IsChiselQueue entries queue)
      (es : List (Edge P)) (q : Q) (ms : List M)
      → fifo.contents q ≡ []
      → All IsFit ms
      → (relay f g queue es q).0 ≡ map wrap ms
      → (pending : List R) × (map expected ms ≡ map view ((relay f g queue es q).1 ++ pending))
        × (length pending ≤ entries)
  relay_views queue entries fifo es q ms empty fit sent =
      let (flow, small) = relay_lem f g queue entries fifo es q (omega (arith, ap length empty)) in
      (
        map g (fifo.contents (relay f g queue es q).2),
        converted ms fit
            ∙ ap (λ ps. map view (map g (map f ps))) (sym sent)
            ∙ ap (λ xs. map view (map g (xs ++ map f (relay f g queue es q).0))) (sym empty)
            ∙ ap (map view) flow,
        omega (arith, small, length-map g (fifo.contents (relay f g queue es q).2)),
      )
