-- ===== src/Client/Queue.antt =====
-- What two agents of the same name, which share their queues, rely on in these. The queues are not
-- part of the repository; a `Network` state stands for both, one for each channel.
use switchboard_adapter.Base.{ℕ, ◌≡◌, none, some, List, [], ◌∷◌, ◌++◌}
use switchboard_adapter.Client.{Link}

-- First in, first out, on each channel, and neither channel touches the other.
pub record IsNetwork {W : Type 0} (client manager : Link W) : Type 0 where
  pub a_queue : W → List (List ℕ)
  pub d_queue : W → List (List ℕ)
  pub client_sends :
      (p : List ℕ) (w : W)
      → (a_queue (client.send p w) ≡ a_queue w ++ (p ∷ []))
        × (d_queue (client.send p w) ≡ d_queue w)
  pub manager_sends :
      (p : List ℕ) (w : W)
      → (d_queue (manager.send p w) ≡ d_queue w ++ (p ∷ []))
        × (a_queue (manager.send p w) ≡ a_queue w)
  pub manager_receives :
      (p : List ℕ) (ps : List (List ℕ)) (w : W)
      → a_queue w ≡ p ∷ ps
      → (later : W) × (manager.recv w ≡ some (p, later))
        × (a_queue later ≡ ps)
        × (d_queue later ≡ d_queue w)
  pub client_receives :
      (p : List ℕ) (ps : List (List ℕ)) (w : W)
      → d_queue w ≡ p ∷ ps
      → (later : W) × (client.recv w ≡ some (p, later))
        × (d_queue later ≡ ps)
        × (a_queue later ≡ a_queue w)
  -- There is nothing to receive from an empty queue.
  pub manager_waits : (w : W) → a_queue w ≡ [] → manager.recv w ≡ none
  pub client_waits : (w : W) → d_queue w ≡ [] → client.recv w ≡ none
