-- ===== src/Chisel/ListQueue.antt =====
-- A list as a `Queue` of the Chisel library, to run the designs with. It stands for no code of the repository.
use switchboard_adapter.Base.{
  ℕ, refl, ap, ◌&&◌, List, [], ◌∷◌, ◌++◌, ltb, if◌then◌else◌, length, drop,
}
use switchboard_adapter.Chisel.{ChiselQueue, IsChiselQueue}

module _ {A : Type 0} (nothing : A) (entries : ℕ) where
  abbrev front : List A → A
  front [] = nothing
  front (x ∷ xs) = x

  abbrev pub list_queue : ChiselQueue A (List A)
  list_queue = record {
    enq_ready = λ q. ltb (length q) entries;
    deq_valid = λ q. ltb 0 (length q);
    deq_bits = front;
    clock = λ valid bits ready q.
        (if ready then drop 1 q else q)
        ++ (if valid && ltb (length q) entries then bits ∷ [] else []);
  }

  unfoldable pub list_queue-IsChiselQueue : IsChiselQueue entries list_queue
  list_queue-IsChiselQueue = record {
    contents = λ q. q;
    ready = λ q. refl;
    valid = λ q. refl;
    first = λ q x xs e. ap front e;
    clocked = λ valid bits ready q. refl;
  }
