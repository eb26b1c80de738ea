-- ===== src/Loopback/Turns.antt =====
-- Each step of sb_sim/tlloopback keeps the invariant of Loopback.Flow.
use switchboard_adapter.Base.{
  ℕ, suc, ◌≤◌, ◌≡◌, refl, ◌⊎◌, inl, inr, List, [], some, Option-cases, arith,
}
use switchboard_adapter.Wire.{TlMessageA, TlMessageD}
use switchboard_adapter.Wire.Codec.{encode_a, encode_d}
use switchboard_adapter.Agent.{TlAgent}
use switchboard_adapter.Agent.Mask.{IsBeat}
use switchboard_adapter.Client.{Link, send_a, send_d}
use switchboard_adapter.Base.Threads.{Move, moved, waiting, returned}
use switchboard_adapter.Adapter.{Widths}
use switchboard_adapter.Loopback.{
  request, response, Place, first, second, third, finish, client_thread, manager_thread,
}
use switchboard_adapter.Loopback.Contract.{IsThrough, through_a, through_d}
use switchboard_adapter.Loopback.Moves.{
  IsFresh, IsGranted, IsAnswer, asked-IsGranted, response-IsAnswer, through_a-IsGranted,
  through_d-IsAnswer, client_sends, client_receives, client_waits, manager_receives, manager_waits,
  manager_sends,
}
use switchboard_adapter.Loopback.Flow.{
  calls, requests, responses, Knows, Channel-send, Channel-take, Channel-carry, Channel-same, Good,
}

module _ {W : Type 0} (client manager : Link W) (Carries : W → W → Type 0) (node : Widths)
    (room : ℕ) (through : IsThrough client manager Carries node room) (roomy : 2 ≤ room) (k : ℕ)
    (agent : TlAgent) (beat : IsBeat k agent.p) (stack_a : TlMessageA) (stack_d : TlMessageD)
    (fresh : IsFresh stack_a stack_d) where
  abbrev client_does : Place → W → Move (Place × W)
  client_does = client_thread client manager agent stack_a stack_d

  abbrev manager_does : Place → TlMessageA → W → Move (Place × TlMessageA × W)
  manager_does = manager_thread client manager agent stack_a stack_d

  abbrev IsGood : ℕ → Place → Place → TlMessageA → W → Type 0
  IsGood = Good client manager Carries node room through

  -- A thread goes on to where that holds again, or waits for the other side, or has returned.
  abbrev pub ClientCan : ℕ → Place → Place → TlMessageA → W → Type 0
  ClientCan n c m last w =
      ((p : Place) × (later : W) × (client_does c w ≡ moved (p, later))
        × IsGood (suc n) p m last later)
      ⊎ (((client_does c w ≡ waiting) × (c ≡ third) × (through.d_behind w ≡ []))
          ⊎ ((client_does c w ≡ returned) × (c ≡ finish)))

  abbrev pub ManagerCan : ℕ → Place → Place → TlMessageA → W → Type 0
  ManagerCan n c m last w =
      ((p : Place) × (tl_a : TlMessageA) × (later : W) × (manager_does m last w
          ≡ moved (p, tl_a, later))
        × IsGood (suc n) c p tl_a later)
      ⊎ (((manager_does m last w ≡ waiting) × (calls m ≤ 1) × (through.a_behind w ≡ []))
          ⊎ ((manager_does m last w ≡ returned) × (m ≡ finish)))

  -- A send by the client, from a place with fewer than two behind it.
  client_goes :
      (n : ℕ) (c p m : Place) (last : TlMessageA) (w : W)
      → IsGood n c m last w
      → client_does c w ≡ moved (p, send_a client (request stack_a) w)
      → calls p ≡ suc (calls c)
      → requests p ≡ suc (requests c)
      → responses p ≡ responses c
      → requests c ≤ 1
      → ClientCan n c m last w
  unfolding send_a
  client_goes n c p m last w g does one_more one_sent none_got few =
      let asked : List ℕ = encode_a (request stack_a) in
      let (before, behind, same_d, same_d') =
        through.client_sent asked w (omega (arith, g.on_a.on_the_way)) in
      let later : W = client.send asked w in
      inl (
        p,
        later,
        does,
        record {
          carried_a = g.carried_a;
          carried_d = g.carried_d;
          on_a =
              rw (one_sent, behind)
                (Channel-send IsGranted _ _ (through.a_before later) _ _ _ asked g.on_a before
                  (asked-IsGranted client manager k agent beat stack_a stack_d fresh));
          on_d = rw none_got (Channel-same IsAnswer _ _ _ _ _ _ _ g.on_d same_d same_d');
          knows = g.knows;
          moves = omega (arith, g.moves, one_more);
        },
      )

  pub client_can :
      (n : ℕ) (c m : Place) (last : TlMessageA) (w : W)
      → IsGood n c m last w
      → ClientCan n c m last w
  unfolding client_thread
  client_can n first m last w g =
      client_goes n first second m last w g
        (client_sends client manager k agent beat stack_a stack_d fresh w).0 refl refl refl
        (omega arith)
  client_can n second m last w g =
      client_goes n second third m last w g
        (client_sends client manager k agent beat stack_a stack_d fresh w).1 refl refl refl
        (omega arith)
  client_can n third m last w g = elim (Option-cases (client.recv w)) [
    | inl empty ↦ inr (
        inl (
          client_waits client manager k agent beat stack_a stack_d fresh w empty,
          refl,
          through.no_response w empty,
        ))
    | inr ((p, later), got) ↦
        let (same_a, same_a', same_d, front) = through.client_received p w later got in
        let (rest, answer) =
          Channel-take IsAnswer _ _ (through.d_behind later) _ _ _ p g.on_d front in
        inl (
          finish,
          later,
          client_receives client manager k agent beat stack_a stack_d fresh p w later got answer,
          record {
            carried_a = g.carried_a;
            carried_d = g.carried_d;
            on_a = Channel-same IsGranted _ _ _ _ _ _ _ g.on_a same_a same_a';
            on_d = Channel-same IsAnswer _ _ _ _ _ _ _ rest same_d refl;
            knows = g.knows;
            moves = omega (arith, g.moves);
          },
        )
  ]
  client_can n finish m last w g = inr (inr (refl, refl))

  -- A receive by the manager, from a place with fewer than two behind it.
  manager_goes :
      (n : ℕ) (c m q : Place) (last tl_a : TlMessageA) (p : List ℕ) (w later : W)
      → IsGood n c m last w
      → manager.recv w ≡ some (p, later)
      → manager_does m last w ≡ moved (q, tl_a, later)
      → Knows q tl_a
      → calls q ≡ suc (calls m)
      → requests q ≡ suc (requests m)
      → responses q ≡ responses m
      → ManagerCan n c m last w
  manager_goes n c m q last tl_a p w later g got does kn one_more one_taken none_sent =
      let (same_a, front, same_d, same_d') = through.manager_received p w later got in
      let rest = (Channel-take IsGranted _ _ (through.a_behind later) _ _ _ p g.on_a front).0 in
      inl (
        q,
        tl_a,
        later,
        does,
        record {
          carried_a = g.carried_a;
          carried_d = g.carried_d;
          on_a = rw one_taken (Channel-same IsGranted _ _ _ _ _ _ _ rest same_a refl);
          on_d = rw none_sent (Channel-same IsAnswer _ _ _ _ _ _ _ g.on_d same_d same_d');
          knows = kn;
          moves = omega (arith, g.moves, one_more);
        },
      )

  pub manager_can :
      (n : ℕ) (c m : Place) (last : TlMessageA) (w : W)
      → IsGood n c m last w
      → ManagerCan n c m last w
  unfolding manager_thread send_d
  manager_can n c first last w g = elim (Option-cases (manager.recv w)) [
    | inl empty ↦ inr (
        inl (
          (manager_waits client manager k agent beat stack_a stack_d fresh last w empty).0,
          omega arith,
          through.no_request w empty,
        ))
    | inr ((p, later), got) ↦
        let front = (through.manager_received p w later got).1 in
        let granted =
          (Channel-take IsGranted _ _ (through.a_behind later) _ _ _ p g.on_a front).1 in
        let (tl_a, fits, does, _) =
          manager_receives client manager k agent beat stack_a stack_d fresh last p w later got
            granted in
        manager_goes n c first second last tl_a p w later g got does tt refl refl refl
  ]
  manager_can n c second last w g = elim (Option-cases (manager.recv w)) [
    | inl empty ↦ inr (
        inl (
          (manager_waits client manager k agent beat stack_a stack_d fresh last w empty).1,
          omega arith,
          through.no_request w empty,
        ))
    | inr ((p, later), got) ↦
        let front = (through.manager_received p w later got).1 in
        let granted =
          (Channel-take IsGranted _ _ (through.a_behind later) _ _ _ p g.on_a front).1 in
        let (tl_a, fits, _, does) =
          manager_receives client manager k agent beat stack_a stack_d fresh last p w later got
            granted in
        manager_goes n c second third last tl_a p w later g got does fits refl refl refl
  ]
  manager_can n c third last w g =
      let answer : List ℕ = encode_d (response stack_d last) in
      let (same_a, same_a', before, behind) =
        through.manager_sent answer w (omega (arith, g.on_d.on_the_way)) in
      let later : W = manager.send answer w in
      inl (
        finish,
        last,
        later,
        manager_sends client manager k agent beat stack_a stack_d fresh last w,
        record {
          carried_a = g.carried_a;
          carried_d = g.carried_d;
          on_a = Channel-same IsGranted _ _ _ _ _ _ _ g.on_a same_a same_a';
          on_d = rw behind (
              Channel-send IsAnswer _ _ (through.d_before later) _ _ _ answer g.on_d before
                (response-IsAnswer client manager k agent beat stack_a stack_d fresh last g.knows));
          knows = tt;
          moves = omega (arith, g.moves);
        },
      )
  manager_can n c finish last w g = inr (inr (refl, refl))

  -- The design carries a packet.
  pub carry-Good :
      (n : ℕ) (c m : Place) (last : TlMessageA) (w later : W)
      → IsGood n c m last w
      → Carries w later
      → IsGood (suc n) c m last later
  carry-Good n c m last w later g carry = elim (through.carried w later carry) [
    | inl (p, front, behind, same_d, same_d') ↦ record {
      carried_a = suc g.carried_a;
      carried_d = g.carried_d;
      on_a =
          Channel-carry IsGranted _ _ _ _ _ _ p g.on_a (through_a node p) _ front behind
            (through_a-IsGranted node p);
      on_d = Channel-same IsAnswer _ _ _ _ _ _ _ g.on_d same_d same_d';
      knows = g.knows;
      moves = omega (arith, g.moves);
    }
    | inr (p, front, behind, same_a, same_a') ↦ record {
      carried_a = g.carried_a;
      carried_d = suc g.carried_d;
      on_a = Channel-same IsGranted _ _ _ _ _ _ _ g.on_a same_a same_a';
      on_d =
          Channel-carry IsAnswer _ _ _ _ _ _ p g.on_d (through_d node p) _ front behind
            (through_d-IsAnswer node p);
      knows = g.knows;
      moves = omega (arith, g.moves);
    }
  ]
