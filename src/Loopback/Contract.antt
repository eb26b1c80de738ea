-- ===== src/Loopback/Contract.antt =====
-- What the threads of sb_sim/tlloopback/client.cc rely on between the queues of the client, client_0, and
-- those of the manager, manager_0: the Switchboard queues, which are not part of the repository, and the
-- ports of src/main/scala/example/TLLoopback.scala, whose nodes are joined.
use switchboard_adapter.Base.{ℕ, ◌≡◌, ◌<◌, ◌≢◌, ◌⊎◌, none, some, List, [], ◌∷◌, ◌++◌, length}
use switchboard_adapter.Wire.Codec.{encode_a, decode_a, encode_d, decode_d}
use switchboard_adapter.Client.{Link}
use switchboard_adapter.Adapter.{Widths, hold_a, hold_d}
use switchboard_adapter.Adapter.Fields.{tl_bundle_a, tl_bundle_d}
use switchboard_adapter.Adapter.Reads.{message_of_a, message_of_d}

-- What the ports of a node make of a packet: each field keeps the bits that the node has wires for.
abbrev pub through_a : Widths → List ℕ → List ℕ
through_a node p = encode_a (message_of_a (hold_a node (tl_bundle_a (decode_a p))))

abbrev pub through_d : Widths → List ℕ → List ℕ
through_d node p = encode_d (message_of_d (hold_d node (tl_bundle_d (decode_d p))))

-- `a_before` and `a_behind` are the packets of channel A on the client's side and on the manager's side,
-- `d_before` and `d_behind` those of channel D on the manager's side and on the client's side. Each has
-- room for `room` packets; what happens in a full queue is not said.
pub record IsThrough {W : Type 0} (client manager : Link W) (Carries : W → W → Type 0)
    (node : Widths) (room : ℕ) : Type 0 where
  pub a_before : W → List (List ℕ)
  pub a_behind : W → List (List ℕ)
  pub d_before : W → List (List ℕ)
  pub d_behind : W → List (List ℕ)
  pub client_sent :
      (p : List ℕ) (w : W)
      → length (a_before w) < room
      → (a_before (client.send p w) ≡ a_before w ++ (p ∷ []))
        × (a_behind (client.send p w) ≡ a_behind w)
        × (d_before (client.send p w) ≡ d_before w)
        × (d_behind (client.send p w) ≡ d_behind w)
  pub manager_sent :
      (p : List ℕ) (w : W)
      → length (d_before w) < room
      → (a_before (manager.send p w) ≡ a_before w)
        × (a_behind (manager.send p w) ≡ a_behind w)
        × (d_before (manager.send p w) ≡ d_before w ++ (p ∷ []))
        × (d_behind (manager.send p w) ≡ d_behind w)
  pub manager_received :
      (p : List ℕ) (w later : W)
      → manager.recv w ≡ some (p, later)
      → (a_before later ≡ a_before w)
        × (a_behind w ≡ p ∷ a_behind later)
        × (d_before later ≡ d_before w)
        × (d_behind later ≡ d_behind w)
  pub client_received :
      (p : List ℕ) (w later : W)
      → client.recv w ≡ some (p, later)
      → (a_before later ≡ a_before w)
        × (a_behind later ≡ a_behind w)
        × (d_before later ≡ d_before w)
        × (d_behind w ≡ p ∷ d_behind later)
  -- A receive waits only where there is nothing to receive.
  pub no_request : (w : W) → manager.recv w ≡ none → a_behind w ≡ []
  pub no_response : (w : W) → client.recv w ≡ none → d_behind w ≡ []
  -- The first packet of a channel is carried.
  pub carried :
      (w later : W)
      → Carries w later
      → ((p : List ℕ) × (a_before w ≡ p ∷ a_before later)
          × (a_behind later ≡ a_behind w ++ (through_a node p ∷ []))
          × (d_before later ≡ d_before w)
          × (d_behind later ≡ d_behind w))
        ⊎ ((p : List ℕ) × (d_before w ≡ p ∷ d_before later)
            × (d_behind later ≡ d_behind w ++ (through_d node p ∷ []))
            × (a_before later ≡ a_before w)
            × (a_behind later ≡ a_behind w))
  -- Where there is a packet, and room on the other side, one can be carried.
  pub busy_a :
      (w : W) → a_before w ≢ [] → length (a_behind w) < room → (later : W) × Carries w later
  pub busy_d :
      (w : W) → d_before w ≢ [] → length (d_behind w) < room → (later : W) × Carries w later
