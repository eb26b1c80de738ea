-- ===== src/Client/Network.antt =====
-- Two queues that keep the contract of Client.Queue. They stand for no code of the repository.
use switchboard_adapter.Base.{ℕ, refl, ap, Option, none, some, List, [], ◌∷◌, ◌++◌}
use switchboard_adapter.Client.{Link}
use switchboard_adapter.Client.Queue.{IsNetwork}

pub record Queues : Type 0 where
  pub requests : List (List ℕ)
  pub responses : List (List ℕ)

abbrev take_request : List (List ℕ) → Queues → Option (List ℕ × Queues)
take_request [] q = none
take_request (p ∷ ps) q = some (p, record q { requests = ps })

abbrev take_response : List (List ℕ) → Queues → Option (List ℕ × Queues)
take_response [] q = none
take_response (p ∷ ps) q = some (p, record q { responses = ps })

abbrev pub client_link : Link Queues
client_link = record {
  send = λ p q. record q { requests = q.requests ++ (p ∷ []) };
  recv = λ q. take_response q.responses q;
}

abbrev pub manager_link : Link Queues
manager_link = record {
  send = λ p q. record q { responses = q.responses ++ (p ∷ []) };
  recv = λ q. take_request q.requests q;
}

abbrev pub queues-IsNetwork : IsNetwork client_link manager_link
queues-IsNetwork = record {
  a_queue = λ q. q.requests;
  d_queue = λ q. q.responses;
  client_sends = λ p q. (refl, refl);
  manager_sends = λ p q. (refl, refl);
  manager_receives =
      λ p ps q e. (record q { requests = ps }, ap (λ t. take_request t q) e, refl, refl);
  client_receives =
      λ p ps q e. (record q { responses = ps }, ap (λ t. take_response t q) e, refl, refl);
  manager_waits = λ q e. ap (λ t. take_request t q) e;
  client_waits = λ q e. ap (λ t. take_response t q) e;
}
