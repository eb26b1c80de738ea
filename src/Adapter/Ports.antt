-- ===== src/Adapter/Ports.antt =====
-- The ports of src/main/scala/SwitchboardTLAdapter.scala over any sequence of clock edges, with the C++
-- agents at the Switchboard side.
use switchboard_adapter.Base.{
  ℕ, ◌≤◌, ◌≡◌, refl, sym, ap, ◌∙◌, List, [], ◌∷◌, ◌++◌, map, length, All,
}
use switchboard_adapter.Chisel.{ChiselQueue, IsChiselQueue, Edge}
use switchboard_adapter.Chisel.Relay.{relay_views}
use switchboard_adapter.Wire.{TlMessageA, TlMessageD, IsWireA, IsWireD}
use switchboard_adapter.Wire.Bytes.{le_bytes, from_le}
use switchboard_adapter.Wire.Codec.{encode_a, decode_a, encode_d, decode_d}
use switchboard_adapter.Wire.Rtl.{pack_a, unpack_a, pack_d, unpack_d}
use switchboard_adapter.Adapter.{
  Widths, TlBundleA, TlBundleD, hold_a, hold_d, to_tla, from_tla, to_tld, from_tld, client_a,
  client_d, manager_a, manager_d,
}
use switchboard_adapter.Adapter.Fields.{
  IsValid, FitsNodeA, FitsNodeD, tl_bundle_a, tl_bundle_d, hold_a-fits, hold_d-fits, request_fields,
  response_fields,
}
use switchboard_adapter.Adapter.Reads.{message_of_a, message_of_d, request_read, response_read}

-- The packets that the C++ code sends, as the numbers on the data wires, and back.
abbrev pub wires_a : TlMessageA → ℕ
wires_a m = from_le (encode_a m)

abbrev pub wires_d : TlMessageD → ℕ
wires_d m = from_le (encode_d m)

abbrev pub read_a : ℕ → TlMessageA
read_a n = decode_a (le_bytes 52 n)

abbrev pub read_d : ℕ → TlMessageD
read_d n = decode_d (le_bytes 52 n)

map-id : {A : Type 0} (xs : List A) → map (λ x. x) xs ≡ xs
map-id [] = refl
map-id (x ∷ xs) = ap (◌∷◌ x) (map-id xs)

-- Each channel of the ports on its own, with a queue that is empty at the start.
module _ {Q : Type 0} (fixed node : Widths) (v : IsValid fixed node) where
  pub client_requests :
      (queue : ChiselQueue TlBundleA Q) (fifo : IsChiselQueue 8 queue) (es : List (Edge ℕ)) (q : Q)
      (ms : List TlMessageA)
      → fifo.contents q ≡ []
      → All IsWireA ms
      → (client_a node fixed queue es q).0 ≡ map wires_a ms
      → (pending : List TlBundleA) × (map (λ m. hold_a node (tl_bundle_a m)) ms
          ≡ (client_a node fixed queue es q).1 ++ pending)
        × (length pending ≤ 8)
  unfolding client_a
  client_requests queue fifo es q ms empty wire sent =
      let (pending, flow, small) =
        relay_views wires_a (λ n. hold_a node (to_tla fixed (unpack_a n))) (λ x. x) (λ x. x)
          (λ m. hold_a node (tl_bundle_a m)) IsWireA (request_fields fixed node v) queue 8 fifo es q
          ms empty wire sent in
      (pending, flow ∙ map-id _, small)

  pub client_responses :
      (queue : ChiselQueue TlBundleD Q) (fifo : IsChiselQueue 8 queue) (es : List (Edge TlBundleD))
      (q : Q)
      → fifo.contents q ≡ []
      → All (FitsNodeD node) (client_d node queue es q).0
      → (pending : List ℕ) × (map message_of_d (client_d node queue es q).0
          ≡ map read_d ((client_d node queue es q).1 ++ pending))
        × (length pending ≤ 8)
  unfolding client_d
  client_responses queue fifo es q empty fit =
      relay_views (λ x. x) (hold_d node) (λ x. pack_d (from_tld x)) read_d message_of_d
        (FitsNodeD node)
        (λ x h.
          ap (λ y. read_d (pack_d (from_tld y))) (hold_d-fits node x h)
          ∙ response_read fixed node v x h)
        queue 8 fifo es q _ empty fit (sym (map-id _))

  pub manager_requests :
      (queue : ChiselQueue TlBundleA Q) (fifo : IsChiselQueue 8 queue) (es : List (Edge TlBundleA))
      (q : Q)
      → fifo.contents q ≡ []
      → All (FitsNodeA node) (manager_a node queue es q).0
      → (pending : List ℕ) × (map message_of_a (manager_a node queue es q).0
          ≡ map read_a ((manager_a node queue es q).1 ++ pending))
        × (length pending ≤ 8)
  unfolding manager_a
  manager_requests queue fifo es q empty fit =
      relay_views (λ x. x) (hold_a node) (λ x. pack_a (from_tla x)) read_a message_of_a
        (FitsNodeA node)
        (λ x h.
          ap (λ y. read_a (pack_a (from_tla y))) (hold_a-fits node x h)
          ∙ request_read fixed node v x h)
        queue 8 fifo es q _ empty fit (sym (map-id _))

  pub manager_responses :
      (queue : ChiselQueue TlBundleD Q) (fifo : IsChiselQueue 8 queue) (es : List (Edge ℕ)) (q : Q)
      (ms : List TlMessageD)
      → fifo.contents q ≡ []
      → All IsWireD ms
      → (manager_d node fixed queue es q).0 ≡ map wires_d ms
      → (pending : List TlBundleD) × (map (λ m. hold_d node (tl_bundle_d m)) ms
          ≡ (manager_d node fixed queue es q).1 ++ pending)
        × (length pending ≤ 8)
  unfolding manager_d
  manager_responses queue fifo es q ms empty wire sent =
      let (pending, flow, small) =
        relay_views wires_d (λ n. hold_d node (to_tld fixed (unpack_d n))) (λ x. x) (λ x. x)
          (λ m. hold_d node (tl_bundle_d m)) IsWireD (response_fields fixed node v) queue 8 fifo es
          q ms empty wire sent in
      (pending, flow ∙ map-id _, small)

module _ {Q R : Type 0} (fixed node : Widths) (v : IsValid fixed node) where
  -- A client port whose two queues of 8 entries are empty, over any sequences of clock edges: the node is
  -- shown the requests of the packets that the C++ client sent, in order, each field modulo the number
  -- of values of its wires; and the C++ client reads the responses of the node as they are, in order. On
  -- each channel at most 8 are still in the queue.
  pub client_port_lem :
      (requests : ChiselQueue TlBundleA Q) (fifo_a : IsChiselQueue 8 requests) (a : List (Edge ℕ))
      (q : Q) (ms : List TlMessageA) (responses : ChiselQueue TlBundleD R)
      (fifo_d : IsChiselQueue 8 responses) (d : List (Edge TlBundleD)) (r : R)
      → fifo_a.contents q ≡ []
      → fifo_d.contents r ≡ []
      → All IsWireA ms
      → All (FitsNodeD node) (client_d node responses d r).0
      → (client_a node fixed requests a q).0 ≡ map wires_a ms
      → ((pending : List TlBundleA) × (map (λ m. hold_a node (tl_bundle_a m)) ms
            ≡ (client_a node fixed requests a q).1 ++ pending)
          × (length pending ≤ 8))
        × ((pending : List ℕ) × (map message_of_d (client_d node responses d r).0
              ≡ map read_d ((client_d node responses d r).1 ++ pending))
            × (length pending ≤ 8))
  client_port_lem requests fifo_a a q ms responses fifo_d d r empty_a empty_d wire fit sent = (
    client_requests fixed node v requests fifo_a a q ms empty_a wire sent,
    client_responses fixed node v responses fifo_d d r empty_d fit,
  )

  -- A manager port whose two queues of 8 entries are empty, over any sequences of clock edges: the C++ manager reads the requests of the node as they are, and the node is shown
  -- the responses of the packets that the manager sent, whatever their reserved bytes, in order,
  -- each field modulo the number of values of its wires. On each channel at most 8 are still in the queue.
  pub manager_port_lem :
      (requests : ChiselQueue TlBundleA Q) (fifo_a : IsChiselQueue 8 requests)
      (a : List (Edge TlBundleA)) (q : Q) (responses : ChiselQueue TlBundleD R)
      (fifo_d : IsChiselQueue 8 responses) (d : List (Edge ℕ)) (r : R) (ms : List TlMessageD)
      → fifo_a.contents q ≡ []
      → fifo_d.contents r ≡ []
      → All (FitsNodeA node) (manager_a node requests a q).0
      → All IsWireD ms
      → (manager_d node fixed responses d r).0 ≡ map wires_d ms
      → ((pending : List ℕ) × (map message_of_a (manager_a node requests a q).0
            ≡ map read_a ((manager_a node requests a q).1 ++ pending))
          × (length pending ≤ 8))
        × ((pending : List TlBundleD) × (map (λ m. hold_d node (tl_bundle_d m)) ms
              ≡ (manager_d node fixed responses d r).1 ++ pending)
            × (length pending ≤ 8))
  manager_port_lem requests fifo_a a q responses fifo_d d r ms empty_a empty_d fit wire sent = (
    manager_requests fixed node v requests fifo_a a q empty_a fit,
    manager_responses fixed node v responses fifo_d d r ms empty_d wire sent,
  )
