-- ===== src/Loopback/Passes.antt =====
-- Every interleaving of the threads of sb_sim/tlloopback/client.cc and the design between them.
use switchboard_adapter.Base.{
  ℕ, suc, ◌≤◌, ◌≡◌, refl, ap, ◌∙◌, sym, subst, ◌⊎◌, inl, inr, List, [], length, All, arith,
}
use switchboard_adapter.Wire.{TlMessageA, TlMessageD}
use switchboard_adapter.Agent.{TlAgent}
use switchboard_adapter.Agent.Mask.{IsBeat}
use switchboard_adapter.Client.{Link}
use switchboard_adapter.Adapter.{Widths}
use switchboard_adapter.Base.Threads.{moved-injective}
use switchboard_adapter.Loopback.{
  Place, first, second, third, finish, State, Step, client_moves, manager_moves, carries, Run,
  start, next, Fails, client_fails, manager_fails,
}
use switchboard_adapter.Loopback.Contract.{IsThrough}
use switchboard_adapter.Loopback.Moves.{IsFresh, IsGranted, IsAnswer}
use switchboard_adapter.Loopback.Flow.{calls, requests, responses, Channel, Good}
use switchboard_adapter.Loopback.Turns.{ClientCan, ManagerCan, client_can, manager_can, carry-Good}

calls_most : (p : Place) → calls p ≤ 3
calls_most first = omega arith
calls_most second = omega arith
calls_most third = omega arith
calls_most finish = omega arith

requests_most : (p : Place) → requests p ≤ 2
requests_most first = omega arith
requests_most second = omega arith
requests_most third = omega arith
requests_most finish = omega arith

responses_most : (p : Place) → responses p ≤ 1
responses_most first = omega arith
responses_most second = omega arith
responses_most third = omega arith
responses_most finish = omega arith

-- Before its third call a thread has a request left.
requests_left : (p : Place) → calls p ≤ 1 → requests p ≤ 1
requests_left first h = omega arith
requests_left second h = omega arith
requests_left third h = absurd (omega (arith, h))
requests_left finish h = absurd (omega (arith, h))

module _ {W : Type 0} (client manager : Link W) (Carries : W → W → Type 0) (node : Widths)
    (room : ℕ) (through : IsThrough client manager Carries node room) (roomy : 2 ≤ room) (k : ℕ)
    (agent : TlAgent) (beat : IsBeat k agent.p) (stack_a : TlMessageA) (stack_d : TlMessageD)
    (fresh : IsFresh stack_a stack_d) where
  abbrev IsGood : ℕ → State W → Type 0
  IsGood n s =
      Good client manager Carries node room through n s.client_at s.manager_at s.last s.world

  client_turn :
      (n : ℕ) (s : State W)
      → IsGood n s
      → ClientCan client manager Carries node room through roomy k agent beat stack_a stack_d fresh
          n s.client_at s.manager_at s.last s.world
  client_turn n s g =
      client_can client manager Carries node room through roomy k agent beat stack_a stack_d fresh n
        s.client_at s.manager_at s.last s.world g

  manager_turn :
      (n : ℕ) (s : State W)
      → IsGood n s
      → ManagerCan client manager Carries node room through roomy k agent beat stack_a stack_d fresh
          n s.client_at s.manager_at s.last s.world
  manager_turn n s g =
      manager_can client manager Carries node room through roomy k agent beat stack_a stack_d fresh
        n s.client_at s.manager_at s.last s.world g

  advance :
      (n : ℕ) (s t : State W)
      → IsGood n s
      → Step client manager Carries agent stack_a stack_d s t
      → IsGood (suc n) t
  advance n s t g (client_moves {p = p} {w = w} e) = elim (client_turn n s g) [
    | inl (p', later, does, good) ↦
        subst (λ (x : Place × W). IsGood (suc n) (record s { client_at = x.0; world = x.1 }))
          (moved-injective (p', later) (p, w) (sym does ∙ e)) good
    | inr (inl (waits, _, _)) ↦ absurd (cc (sym e ∙ waits))
    | inr (inr (over, _)) ↦ absurd (cc (sym e ∙ over))
  ]
  advance n s t g (manager_moves {p = p} {tl_a = tl_a} {w = w} e) = elim (manager_turn n s g) [
    | inl (p', tl_a', later, does, good) ↦
        subst
          (λ (x : Place × TlMessageA × W).
            IsGood (suc n) (record s { manager_at = x.0; last = x.1; world = x.2 }))
          (moved-injective (p', tl_a', later) (p, tl_a, w) (sym does ∙ e)) good
    | inr (inl (waits, _, _)) ↦ absurd (cc (sym e ∙ waits))
    | inr (inr (over, _)) ↦ absurd (cc (sym e ∙ over))
  ]
  advance n s t g (carries {w = w} e) =
      carry-Good client manager Carries node room through roomy k agent beat stack_a stack_d fresh n
        s.client_at s.manager_at s.last s.world w g e

  no_failure : (n : ℕ) (s : State W) → IsGood n s → ¬ Fails client manager agent stack_a stack_d s
  no_failure n s g (client_fails e) = elim (client_turn n s g) [
    | inl (p, later, does, good) ↦ cc (sym e ∙ does)
    | inr (inl (waits, _, _)) ↦ cc (sym e ∙ waits)
    | inr (inr (over, _)) ↦ cc (sym e ∙ over)
  ]
  no_failure n s g (manager_fails e) = elim (manager_turn n s g) [
    | inl (p, tl_a, later, does, good) ↦ cc (sym e ∙ does)
    | inr (inl (waits, _, _)) ↦ cc (sym e ∙ waits)
    | inr (inr (over, _)) ↦ cc (sym e ∙ over)
  ]

  -- Both threads have returned after 9 steps, or a step is possible.
  abbrev GoesOn : ℕ → State W → Type 0
  GoesOn n s =
      ((n ≡ 9) × (s.client_at ≡ finish) × (s.manager_at ≡ finish))
      ⊎ ((suc n ≤ 9) × (t : State W) × Step client manager Carries agent stack_a stack_d s t)

  at_most_9 : (n : ℕ) (s : State W) → IsGood n s → n ≤ 9
  at_most_9 n s g = omega (
    arith,
    g.moves,
    g.on_a.on_the_way,
    g.on_d.on_the_way,
    calls_most s.client_at,
    calls_most s.manager_at,
    requests_most s.client_at,
    responses_most s.manager_at,
  )

  steps :
      (n : ℕ) (s t : State W)
      → IsGood n s
      → Step client manager Carries agent stack_a stack_d s t
      → GoesOn n s
  steps n s t g step = inr (at_most_9 (suc n) t (advance n s t g step), t, step)

  -- Where both threads wait, a packet is on the way.
  carry_a :
      (n : ℕ) (s : State W)
      → IsGood n s
      → requests s.client_at ≡ 2
      → calls s.manager_at ≤ 1
      → through.a_behind s.world ≡ []
      → GoesOn n s
  carry_a n s g all_sent few none_left =
      let (later, carry) =
        through.busy_a s.world
          (λ e. omega (
            arith,
            g.on_a.on_the_way,
            g.on_a.arrived,
            all_sent,
            requests_left s.manager_at few,
            ap length none_left,
            ap length e,
          ))
          (omega (arith, ap length none_left)) in
      steps n s _ g (carries carry)

  carry_d :
      (n : ℕ) (s : State W)
      → IsGood n s
      → s.manager_at ≡ finish
      → s.client_at ≡ third
      → through.d_behind s.world ≡ []
      → GoesOn n s
  carry_d n s g sent waits none_left =
      let (later, carry) =
        through.busy_d s.world
          (λ e. omega (
            arith,
            g.on_d.on_the_way,
            g.on_d.arrived,
            ap responses sent,
            ap responses waits,
            ap length none_left,
            ap length e,
          ))
          (omega (arith, ap length none_left)) in
      steps n s _ g (carries carry)

  goes_on : (n : ℕ) (s : State W) → IsGood n s → GoesOn n s
  goes_on n s g = elim (client_turn n s g) [
    | inl (p, later, does, good) ↦ steps n s _ g (client_moves does)
    | inr (inl (_, at_third, no_response)) ↦ elim (manager_turn n s g) [
      | inl (p, tl_a, later, does, good) ↦ steps n s _ g (manager_moves does)
      | inr (inl (_, few, no_request)) ↦ carry_a n s g (ap requests at_third) few no_request
      | inr (inr (_, at_end)) ↦ carry_d n s g at_end at_third no_response
    ]
    | inr (inr (_, client_end)) ↦ elim (manager_turn n s g) [
      | inl (p, tl_a, later, does, good) ↦ steps n s _ g (manager_moves does)
      | inr (inl (_, few, no_request)) ↦ carry_a n s g (ap requests client_end) few no_request
      | inr (inr (_, manager_end)) ↦ inl (
        omega (
          arith,
          g.moves,
          g.on_a.on_the_way,
          g.on_a.arrived,
          g.on_d.on_the_way,
          g.on_d.arrived,
          ap calls client_end,
          ap calls manager_end,
          ap requests client_end,
          ap requests manager_end,
          ap responses client_end,
          ap responses manager_end,
        ),
        client_end,
        manager_end,
      )
    ]
  ]

  invariant :
      (s : State W) (n : ℕ) (t : State W)
      → IsGood 0 s
      → Run client manager Carries agent stack_a stack_d s n t
      → IsGood n t
  invariant s n t g start = g
  invariant s n t g (next {n = m} {t = u} run step) = advance m u t (invariant s m u g run) step

  -- With a design between the queues of the two agents that carries the packets of each channel in
  -- order, each field cut to the wires of a node of any widths, with room for two packets or more on
  -- each side of a channel and none there at the start, with the client's parameters for beats of a
  -- power of two bytes, up to 32, and whatever the stacks held: after any `n` steps of any interleaving
  -- of the two threads and the design no assert fails, and either `n` is 9 and both threads have
  -- returned, or `n` is less and a step is possible.
  pub loopback_passes :
      (last : TlMessageA) (w : W) (n : ℕ) (s : State W)
      → through.a_before w ≡ []
      → through.a_behind w ≡ []
      → through.d_before w ≡ []
      → through.d_behind w ≡ []
      → Run client manager Carries agent stack_a stack_d
          (record { client_at = first; manager_at = first; last = last; world = w })
          n
          s
      → (¬ Fails client manager agent stack_a stack_d s)
        × (((n ≡ 9) × (s.client_at ≡ finish) × (s.manager_at ≡ finish))
            ⊎ ((suc n ≤ 9) × (t : State W) × Step client manager Carries agent stack_a stack_d s t))
  loopback_passes last w n s a_before a_behind d_before d_behind run =
      let g : IsGood n s =
        invariant (record { client_at = first; manager_at = first; last = last; world = w }) n s
          (record {
            carried_a = 0;
            carried_d = 0;
            on_a = empty IsGranted _ _ a_before a_behind;
            on_d = empty IsAnswer _ _ d_before d_behind;
            knows = tt;
            moves = refl;
          })
          run in
      (no_failure n s g, goes_on n s g)
    where
      empty :
          (P : List ℕ → Type 0) (before behind : List (List ℕ))
          → before ≡ []
          → behind ≡ []
          → Channel P before behind 0 0 0
      empty P before behind e e' = record {
        on_the_way = omega (arith, ap length e);
        arrived = omega (arith, ap length e');
        all_before = subst (All P) (sym e) tt;
        all_behind = subst (All P) (sym e') tt;
      }
