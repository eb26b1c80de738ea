-- ===== src/Client/Order.antt =====
-- Several sends and receives of the agents of sb_sim/include/tilelinklib.hpp in a row.
use switchboard_adapter.Base.{
  ℕ, zero, suc, ◌≡◌, refl, ap, ◌∙◌, List, [], ◌∷◌, ◌++◌, map, length, All,
}
use switchboard_adapter.Base.Result.{Result, ok, ◌>>=◌}
use switchboard_adapter.Wire.{TlMessageA, TlMessageD, IsWireA, IsWireD}
use switchboard_adapter.Wire.Codec.{encode_a, encode_d}
use switchboard_adapter.Client.{Link, send_a, recv_a, send_d, recv_d}
use switchboard_adapter.Client.Receive.{recv_a-encode_a, recv_d-encode_d}
use switchboard_adapter.Client.Queue.{IsNetwork}

-- Calls of a send, one for each message, and `n` calls of a receive.
unfoldable pub send_each : {M W : Type 0} → (M → W → W) → List M → W → W
send_each send [] w = w
send_each send (m ∷ ms) w = send_each send ms (send m w)

unfoldable pub receive_each : {M W : Type 0} → (W → Result (M × W)) → ℕ → W → Result (List M × W)
receive_each receive zero w = ok ([], w)
receive_each receive (suc n) w = do
  (m, next) ← receive w
  (ms, later) ← receive_each receive n next
  ok (m ∷ ms, later)

append_assoc : {A : Type 0} (xs ys zs : List A) → (xs ++ ys) ++ zs ≡ xs ++ (ys ++ zs)
append_assoc [] ys zs = refl
append_assoc (x ∷ xs) ys zs = ap (◌∷◌ x) (append_assoc xs ys zs)

-- One channel: what is sent is appended to the queue, and what is received is its head.
record IsChannel {M W : Type 0} (send : M → W → W) (receive : W → Result (M × W))
    (encode : M → List ℕ) (IsGood : M → Type 0) : Type 1 where
  queue : W → List (List ℕ)
  other : W → List (List ℕ)
  sends :
      (m : M) (w : W)
      → (queue (send m w) ≡ queue w ++ (encode m ∷ [])) × (other (send m w) ≡ other w)
  receives :
      (m : M) (ps : List (List ℕ)) (w : W)
      → IsGood m
      → queue w ≡ encode m ∷ ps
      → (later : W) × (receive w ≡ ok (m, later)) × (queue later ≡ ps) × (other later ≡ other w)

module _ {M W : Type 0} (send : M → W → W) (receive : W → Result (M × W)) (encode : M → List ℕ)
    (IsGood : M → Type 0) (channel : IsChannel send receive encode IsGood) where
  open channel use {queue, other, sends, receives}

  send_each_lem :
      (ms : List M) (w : W)
      → (queue (send_each send ms w) ≡ queue w ++ map encode ms)
        × (other (send_each send ms w) ≡ other w)
  unfolding send_each
  send_each_lem [] w = (append_nil (queue w), refl)
    where
      append_nil : {A : Type 0} (xs : List A) → xs ≡ xs ++ []
      append_nil [] = refl
      append_nil (x ∷ xs) = ap (◌∷◌ x) (append_nil xs)
  send_each_lem (m ∷ ms) w =
      let (q, o) = send_each_lem ms (send m w) in
      (
        q
            ∙ ap (λ t. t ++ map encode ms) (sends m w).0
            ∙ append_assoc (queue w) (encode m ∷ []) (map encode ms),
        o ∙ (sends m w).1,
      )

  receive_each_lem :
      (ms : List M) (w : W)
      → All IsGood ms
      → queue w ≡ map encode ms
      → (later : W) × (receive_each receive (length ms) w ≡ ok (ms, later))
        × (queue later ≡ [])
        × (other later ≡ other w)
  unfolding receive_each
  receive_each_lem [] w all q = (w, refl, q, refl)
  receive_each_lem (m ∷ ms) w all q =
      let (next, got, rest, same) = receives m (map encode ms) w all.0 q in
      let (later, runs, empty, same') = receive_each_lem ms next all.1 rest in
      (later, rw (got, runs), empty, same' ∙ same)

  messages_arrive :
      (ms : List M) (w : W)
      → All IsGood ms
      → queue w ≡ []
      → (later : W) × (receive_each receive (length ms) (send_each send ms w) ≡ ok (ms, later))
        × (queue later ≡ [])
        × (other later ≡ other w)
  messages_arrive ms w all q =
      let (sent, kept) = send_each_lem ms w in
      let (later, runs, empty, same) =
        receive_each_lem ms (send_each send ms w) all (sent ∙ ap (λ t. t ++ map encode ms) q) in
      (later, runs, empty, same ∙ kept)

module _ {W : Type 0} (client manager : Link W) (network : IsNetwork client manager) where
  channel_a : IsChannel (send_a client) (recv_a manager) encode_a IsWireA
  unfolding send_a
  channel_a = record {
    queue = network.a_queue;
    other = network.d_queue;
    sends = λ m w. network.client_sends (encode_a m) w;
    receives = λ m ps w wire q.
        let (later, got, rest, same) = network.manager_receives (encode_a m) ps w q in
        (later, recv_a-encode_a manager w later m got wire, rest, same);
  }

  channel_d : IsChannel (send_d manager) (recv_d client) encode_d IsWireD
  unfolding send_d
  channel_d = record {
    queue = network.d_queue;
    other = network.a_queue;
    sends = λ m w. network.manager_sends (encode_d m) w;
    receives = λ m ps w wire q.
        let (later, got, rest, same) = network.client_receives (encode_d m) ps w q in
        (later, recv_d-encode_d client w later m got wire, rest, same);
  }

  -- Over two first-in first-out queues, the A queue empty, the requests that the client sends, all
  -- of them with fields that fit their C types, are those that the manager then receives,
  -- unchanged and in the order they were sent; the A queue is empty again, and the D queue is not
  -- touched.
  pub requests_arrive :
      (ms : List TlMessageA) (w : W)
      → All IsWireA ms
      → network.a_queue w ≡ []
      → (later : W) × (receive_each (recv_a manager) (length ms) (send_each (send_a client) ms w)
          ≡ ok (ms, later))
        × (network.a_queue later ≡ [])
        × (network.d_queue later ≡ network.d_queue w)
  unfolding channel_a
  requests_arrive = messages_arrive (send_a client) (recv_a manager) encode_a IsWireA channel_a

  -- Over two first-in first-out queues, the D queue empty, the responses that the manager sends,
  -- all of them with fields that fit their C types, are those that the client then receives,
  -- unchanged and in the order they were sent; the D queue is empty again, and the A queue is not
  -- touched.
  pub responses_arrive :
      (ms : List TlMessageD) (w : W)
      → All IsWireD ms
      → network.d_queue w ≡ []
      → (later : W) × (receive_each (recv_d client) (length ms) (send_each (send_d manager) ms w)
          ≡ ok (ms, later))
        × (network.d_queue later ≡ [])
        × (network.a_queue later ≡ network.a_queue w)
  unfolding channel_d
  responses_arrive = messages_arrive (send_d manager) (recv_d client) encode_d IsWireD channel_d
