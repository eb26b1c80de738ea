-- ===== src/Adapter/Through.antt =====
-- src/main/scala/example/TLLoopback.scala: a client port whose node is that of a manager port, so that
-- what one port shows to the node the other takes from it.
use native.Mathlib.Nat.{mod-lt}
use mathlib.Core.List.{map-append, append_assoc}
use switchboard_adapter.Base.{
  ℕ, ◌≤◌, ◌≡◌, refl, sym, ap, ◌∙◌, subst, List, [], ◌∷◌, ◌++◌, map, length, length-append,
  length-map, All, arith,
}
use switchboard_adapter.Base.Bits.{pow-pos}
use switchboard_adapter.Chisel.{ChiselQueue, IsChiselQueue, Edge}
use switchboard_adapter.Wire.{TlMessageA, TlMessageD, IsWireA, IsWireD}
use switchboard_adapter.Adapter.{
  Widths, TlBundleA, TlBundleD, hold_a, hold_d, client_a, client_d, manager_a, manager_d,
}
use switchboard_adapter.Adapter.Fields.{IsValid, FitsNodeA, FitsNodeD, tl_bundle_a, tl_bundle_d}
use switchboard_adapter.Adapter.Reads.{message_of_a, message_of_d}
use switchboard_adapter.Adapter.Ports.{
  wires_a, wires_d, read_a, read_d, client_requests, client_responses, manager_requests,
  manager_responses,
}

hold_a-FitsNodeA : (w : Widths) (x : TlBundleA) → FitsNodeA w (hold_a w x)
unfolding hold_a
hold_a-FitsNodeA w x = record {
  opcode_fits = mod-lt x.opcode (pow-pos w.opcode);
  param_fits = mod-lt x.param (pow-pos w.param_a);
  size_fits = mod-lt x.size (pow-pos w.size);
  source_fits = mod-lt x.source (pow-pos w.source);
  address_fits = mod-lt x.address (pow-pos w.address);
  mask_fits = mod-lt x.mask (pow-pos w.mask);
  payload_fits = mod-lt x.payload (pow-pos w.payload);
  corrupt_fits = mod-lt x.corrupt (pow-pos w.flag);
}

hold_d-FitsNodeD : (w : Widths) (x : TlBundleD) → FitsNodeD w (hold_d w x)
unfolding hold_d
hold_d-FitsNodeD w x = record {
  opcode_fits = mod-lt x.opcode (pow-pos w.opcode);
  param_fits = mod-lt x.param (pow-pos w.param_d);
  size_fits = mod-lt x.size (pow-pos w.size);
  source_fits = mod-lt x.source (pow-pos w.source);
  sink_fits = mod-lt x.sink (pow-pos w.sink);
  denied_fits = mod-lt x.denied (pow-pos w.flag);
  payload_fits = mod-lt x.payload (pow-pos w.payload);
  corrupt_fits = mod-lt x.corrupt (pow-pos w.flag);
}

All-map :
    {A B : Type 0} (P : B → Type 0) (f : A → B) (xs : List A)
    → ((x : A) → P (f x))
    → All P (map f xs)
All-map P f [] h = tt
All-map P f (x ∷ xs) h = (h x, All-map P f xs h)

All-left_part : {A : Type 0} (P : A → Type 0) (xs ys : List A) → All P (xs ++ ys) → All P xs
All-left_part P [] ys h = tt
All-left_part P (x ∷ xs) ys h = (h.0, All-left_part P xs ys h.1)

-- Two queues in a row, where the second one takes what the first one delivers.
module _ {M B N R : Type 0} (held : M → B) (message_of : B → N) (read : R → N) where
  in_a_row :
      (ms : List M) (middle : List B) (out : List R) (first : List B) (second : List R)
      → map held ms ≡ middle ++ first
      → length first ≤ 8
      → map message_of middle ≡ map read (out ++ second)
      → length second ≤ 8
      → (pending : List N) × (map (λ m. message_of (held m)) ms ≡ map read out ++ pending)
        × (length pending ≤ 16)
  in_a_row ms middle out first second flow few flow' few' = (
    map read second ++ map message_of first,
    map-held ms
        ∙ ap (map message_of) flow
        ∙ map-append message_of middle first
        ∙ ap (λ xs. xs ++ map message_of first) (flow' ∙ map-append read out second)
        ∙ append_assoc (map read out) (map read second) (map message_of first),
    omega (
      arith,
      length-append (map read second) (map message_of first),
      length-map read second,
      length-map message_of first,
    ),
  )
    where
      map-held : (ms : List M) → map (λ m. message_of (held m)) ms ≡ map message_of (map held ms)
      map-held [] = refl
      map-held (m ∷ ms) = ap (◌∷◌ (message_of (held m))) (map-held ms)

module _ {Q R S T : Type 0} (fixed node : Widths) (v : IsValid fixed node) where
  -- With all four queues empty at the start, over any sequences of clock edges, where each port takes
  -- what the other one shows to the node: the C++ manager reads the requests of the C++ client in order,
  -- and the C++ client the responses of the C++ manager, each field modulo the number of values of the
  -- node's wires. On each channel at most 16 are on the way.
  pub loopback_lem :
      (ca : ChiselQueue TlBundleA Q) (fifo_ca : IsChiselQueue 8 ca) (ca_edges : List (Edge ℕ))
      (q : Q) (ma : ChiselQueue TlBundleA R) (fifo_ma : IsChiselQueue 8 ma)
      (ma_edges : List (Edge TlBundleA)) (r : R) (md : ChiselQueue TlBundleD S)
      (fifo_md : IsChiselQueue 8 md) (md_edges : List (Edge ℕ)) (s : S)
      (cd : ChiselQueue TlBundleD T) (fifo_cd : IsChiselQueue 8 cd)
      (cd_edges : List (Edge TlBundleD)) (t : T) (requests : List TlMessageA)
      (responses : List TlMessageD)
      → fifo_ca.contents q ≡ []
      → fifo_ma.contents r ≡ []
      → fifo_md.contents s ≡ []
      → fifo_cd.contents t ≡ []
      → All IsWireA requests
      → All IsWireD responses
      → (client_a node fixed ca ca_edges q).0 ≡ map wires_a requests
      → (manager_d node fixed md md_edges s).0 ≡ map wires_d responses
      → (manager_a node ma ma_edges r).0 ≡ (client_a node fixed ca ca_edges q).1
      → (client_d node cd cd_edges t).0 ≡ (manager_d node fixed md md_edges s).1
      → ((pending : List TlMessageA) × (map
              (λ m. message_of_a (hold_a node (tl_bundle_a m)))
              requests
            ≡ map read_a (manager_a node ma ma_edges r).1 ++ pending)
          × (length pending ≤ 16))
        × ((pending : List TlMessageD) × (map
                (λ m. message_of_d (hold_d node (tl_bundle_d m)))
                responses
              ≡ map read_d (client_d node cd cd_edges t).1 ++ pending)
            × (length pending ≤ 16))
  loopback_lem ca fifo_ca ca_edges q ma fifo_ma ma_edges r md fifo_md md_edges s cd fifo_cd cd_edges
        t requests responses empty_ca empty_ma empty_md empty_cd wire_a wire_d sent_a sent_d
        joined_a joined_d =
      let (first_a, flow_a, few_a) =
        client_requests fixed node v ca fifo_ca ca_edges q requests empty_ca wire_a sent_a in
      let (first_d, flow_d, few_d) =
        manager_responses fixed node v md fifo_md md_edges s responses empty_md wire_d sent_d in
      let (second_a, flow_a', few_a') =
        manager_requests fixed node v ma fifo_ma ma_edges r empty_ma (
          subst (All (FitsNodeA node)) (sym joined_a) (
            All-left_part (FitsNodeA node) _ first_a (
              subst (All (FitsNodeA node)) flow_a (
                All-map (FitsNodeA node) _ requests
                  (λ m. hold_a-FitsNodeA node (tl_bundle_a m)))))) in
      let (second_d, flow_d', few_d') =
        client_responses fixed node v cd fifo_cd cd_edges t empty_cd (
          subst (All (FitsNodeD node)) (sym joined_d) (
            All-left_part (FitsNodeD node) _ first_d (
              subst (All (FitsNodeD node)) flow_d (
                All-map (FitsNodeD node) _ responses
                  (λ m. hold_d-FitsNodeD node (tl_bundle_d m)))))) in
      (
        in_a_row (λ m. hold_a node (tl_bundle_a m)) message_of_a read_a requests _ _ first_a
            second_a flow_a few_a (ap (map message_of_a) (sym joined_a) ∙ flow_a') few_a',
        in_a_row (λ m. hold_d node (tl_bundle_d m)) message_of_d read_d responses _ _ first_d
            second_d flow_d few_d (ap (map message_of_d) (sym joined_d) ∙ flow_d') few_d',
      )
