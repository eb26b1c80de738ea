-- ===== src/Chisel.antt =====
-- `Queue` of the Chisel library, which the designs of src/main/scala use: its wires as a parameter, and
-- what its documentation says of them.
pub mod Clock
pub mod Relay
pub mod ListQueue
use switchboard_adapter.Base.{
  ℕ, ◌≡◌, Bool, ◌&&◌, List, [], ◌∷◌, ◌++◌, map, ltb, if◌then◌else◌, length, drop,
}

-- The outputs, and the state after a clock edge with given inputs.
pub record ChiselQueue (A Q : Type 0) : Type 0 where
  pub enq_ready : Q → Bool
  pub deq_valid : Q → Bool
  pub deq_bits : Q → A
  pub clock : Bool → A → Bool → Q → Q

-- A queue with room for `entries`: an element enters when it is valid and there was room before the
-- clock edge, and the first one leaves when the consumer is ready.
pub record IsChiselQueue {A Q : Type 0} (entries : ℕ) (queue : ChiselQueue A Q) : Type 0 where
  pub contents : Q → List A
  pub ready : (q : Q) → queue.enq_ready q ≡ ltb (length (contents q)) entries
  pub valid : (q : Q) → queue.deq_valid q ≡ ltb 0 (length (contents q))
  pub first : (q : Q) (x : A) (xs : List A) → contents q ≡ x ∷ xs → queue.deq_bits q ≡ x
  pub clocked :
      (enq_valid : Bool) (bits : A) (deq_ready : Bool) (q : Q)
      → contents (queue.clock enq_valid bits deq_ready q)
        ≡ (if deq_ready then drop 1 (contents q) else contents q)
          ++ (if enq_valid && queue.enq_ready q then bits ∷ [] else [])

-- What the neighbours of a queue do at a clock edge.
pub record Edge (P : Type 0) : Type 0 where
  pub in_valid : Bool
  pub in_bits : P
  pub out_ready : Bool

-- A queue behind a conversion `f` and before a conversion `g`, over a sequence of clock edges: what it
-- accepts, what it delivers, and its state at the end.
module _ {P A R Q : Type 0} (f : P → A) (g : A → R) (queue : ChiselQueue A Q) where
  unfoldable pub accepts : Edge P → Q → List P
  accepts e q = if e.in_valid && queue.enq_ready q then e.in_bits ∷ [] else []

  unfoldable pub delivers : Edge P → Q → List R
  delivers e q = if e.out_ready && queue.deq_valid q then g (queue.deq_bits q) ∷ [] else []

  unfoldable pub relay : List (Edge P) → Q → List P × List R × Q
  relay [] q = ([], [], q)
  relay (e ∷ es) q =
      let (ins, outs, later) = relay es (queue.clock e.in_valid (f e.in_bits) e.out_ready q) in
      (accepts e q ++ ins, delivers e q ++ outs, later)
