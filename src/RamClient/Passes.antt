-- ===== src/RamClient/Passes.antt =====
-- Every interleaving of the threads of sb_sim/tlmem/client.cc and the memory.
use switchboard_adapter.Base.{
  ℕ, suc, ◌+◌, ◌≤◌, ◌<◌, ◌≡◌, ◌≢◌, refl, sym, ap, ◌∙◌, subst, ◌⊎◌, inl, inr, [], length, All, arith,
}
use switchboard_adapter.Base.Result.{ok}
use switchboard_adapter.Base.Threads.{moved, waiting, returned, moved-injective}
use switchboard_adapter.Wire.{TlMessageA}
use switchboard_adapter.Agent.{TlAgent}
use switchboard_adapter.Agent.Config.{IsConfigured, Accepts}
use switchboard_adapter.Agent.Setup.{ul_agent, set_ul_params_lem}
use switchboard_adapter.Client.{Link, new_agent}
use switchboard_adapter.MemIfc.Ready.{IsStack}
use switchboard_adapter.RamClient.{
  client_agent, sender, receiver, State, Step, sends, receives, serves, Run, start, next, Fails,
  sender_fails, receiver_fails,
}
use switchboard_adapter.RamClient.Contract.{IsRam}
use switchboard_adapter.RamClient.Rounds.{length-queued, IsAck}
use switchboard_adapter.RamClient.Flow.{Good, sender_can, receiver_can, serves-Good}

-- The agent that `main` makes has beats of four bytes, and transfers of a beat.
pub client_agent_lem : client_agent ≡ ok (ul_agent "client_0" 2 32 4)
unfolding client_agent
client_agent_lem =
    set_ul_params_lem (new_agent "client_0") "client_0" 2 32 4 (unfold new_agent in refl)
      (omega arith)

main_agent : (agent : TlAgent) → client_agent ≡ ok agent → IsConfigured 2 agent × Accepts agent 2
main_agent agent e =
    let same : ul_agent "client_0" 2 32 4 ≡ agent = cc (sym client_agent_lem ∙ e) in
    subst (λ a. IsConfigured 2 a × Accepts a 2) same
      (
        record { is_set = refl; beat = record { width = refl; at_most_32 = omega arith } },
        record { at_most_12 = omega arith; within_max = omega arith },
      )

module _ {W : Type 0} (link : Link W) (Serves : W → W → Type 0) (capacity : ℕ)
    (ram : IsRam link Serves capacity) (large : 128 ≤ capacity) (agent : TlAgent)
    (made : client_agent ≡ ok agent) (fresh : ℕ → TlMessageA)
    (st : (j : ℕ) → IsStack (fresh j)) where
  abbrev IsGood : (ℕ → ℕ) → ℕ → State W → Type 0
  IsGood = Good link Serves capacity ram fresh

  sending :
      (initial : ℕ → ℕ) (n : ℕ) (s : State W)
      → IsGood initial n s
      → ((later : W) × (sender link agent fresh s.sent s.world ≡ moved later)
          × IsGood initial (suc n) (record s { sent = s.sent + 1; world = later }))
        ⊎ ((sender link agent fresh s.sent s.world ≡ returned) × (s.sent ≡ 32))
  sending =
      sender_can link Serves capacity ram large agent (main_agent agent made).0
        (main_agent agent made).1 fresh st

  receiving :
      (initial : ℕ → ℕ) (n : ℕ) (s : State W)
      → IsGood initial n s
      → ((later : W) × (receiver link agent s.received s.world ≡ moved later)
          × IsGood initial (suc n) (record s { received = s.received + 1; world = later }))
        ⊎ (((receiver link agent s.received s.world ≡ waiting)
              × (ram.answers s.world ≡ [])
              × (s.received < 32))
            ⊎ ((receiver link agent s.received s.world ≡ returned) × (s.received ≡ 32)))
  receiving =
      receiver_can link Serves capacity ram large agent (main_agent agent made).0
        (main_agent agent made).1 fresh st

  serving :
      (initial : ℕ → ℕ) (n : ℕ) (s : State W) (later : W)
      → IsGood initial n s
      → Serves s.world later
      → IsGood initial (suc n) (record s { world = later })
  serving =
      serves-Good link Serves capacity ram large agent (main_agent agent made).0
        (main_agent agent made).1 fresh st

  module _ (initial : ℕ → ℕ) where
    advance :
        (n : ℕ) (s t : State W)
        → IsGood initial n s
        → Step link Serves agent fresh s t
        → IsGood initial (suc n) t
    advance n s t g (sends {w = w} e) = elim (sending initial n s g) [
      | inl (later, does, good) ↦
          subst (λ x. IsGood initial (suc n) (record s { sent = s.sent + 1; world = x }))
            (moved-injective later w (sym does ∙ e)) good
      | inr (over, _) ↦ absurd (cc (sym e ∙ over))
    ]
    advance n s t g (receives {w = w} e) = elim (receiving initial n s g) [
      | inl (later, does, good) ↦
          subst (λ x. IsGood initial (suc n) (record s { received = s.received + 1; world = x }))
            (moved-injective later w (sym does ∙ e)) good
      | inr (inl (waits, _, _)) ↦ absurd (cc (sym e ∙ waits))
      | inr (inr (over, _)) ↦ absurd (cc (sym e ∙ over))
    ]
    advance n s t g (serves {w = w} e) = serving initial n s w g e

    invariant :
        (s : State W) (n : ℕ) (t : State W)
        → IsGood initial 0 s
        → Run link Serves agent fresh s n t
        → IsGood initial n t
    invariant s n t g start = g
    invariant s n t g (next {n = m} {t = u} run step) = advance m u t (invariant s m u g run) step

    no_failure : (n : ℕ) (s : State W) → IsGood initial n s → ¬ Fails link Serves agent fresh s
    no_failure n s g (sender_fails e) = elim (sending initial n s g) [
      | inl (later, does, good) ↦ cc (sym e ∙ does)
      | inr (over, _) ↦ cc (sym e ∙ over)
    ]
    no_failure n s g (receiver_fails e) = elim (receiving initial n s g) [
      | inl (later, does, good) ↦ cc (sym e ∙ does)
      | inr (inl (waits, _, _)) ↦ cc (sym e ∙ waits)
      | inr (inr (over, _)) ↦ cc (sym e ∙ over)
    ]

    -- Both threads have returned and the memory holds the words, or a step is possible.
    abbrev pub GoesOn : ℕ → State W → Type 0
    GoesOn n s =
        ((n ≡ 96)
          × (sender link agent fresh s.sent s.world ≡ returned)
          × (receiver link agent s.received s.world ≡ returned)
          × ((x : ℕ) → x < 128 → ram.mem s.world x ≡ x)
          × ((x : ℕ) → 128 ≤ x → ram.mem s.world x ≡ initial x))
        ⊎ ((suc n ≤ 96) × (t : State W) × Step link Serves agent fresh s t)

    at_most_96 : (n : ℕ) (s : State W) → IsGood initial n s → n ≤ 96
    at_most_96 n s g = omega (arith, g.moves, g.counted, g.behind, g.at_most_32)

    steps :
        (n : ℕ) (s t : State W) → IsGood initial n s → Step link Serves agent fresh s t → GoesOn n s
    steps n s t g step = inr (at_most_96 (suc n) t (advance n s t g step), t, step)

    all_sent :
        (n : ℕ) (s : State W)
        → IsGood initial n s
        → s.received < 32
        → ram.answers s.world ≡ []
        → s.sent ≡ 32
        → ram.requests s.world ≢ []
    all_sent n s g fewer none_left is_32 = λ e. omega (
      arith,
      g.counted,
      g.behind,
      ap length none_left,
      ap length e,
      ap length g.before,
      length-queued fresh g.done g.left,
    )

    goes_on : (n : ℕ) (s : State W) → IsGood initial n s → GoesOn n s
    goes_on n s g = elim (sending initial n s g) [
      | inl (later, does, good) ↦ steps n s _ g (sends does)
      | inr (sent_all, is_32) ↦ elim (receiving initial n s g) [
        | inl (later, does, good) ↦ steps n s _ g (receives does)
        | inr (inl (waits, none_left, fewer)) ↦
            let (later, serve) = ram.busy s.world (all_sent n s g fewer none_left is_32) in
            steps n s _ g (serves serve)
        | inr (inr (received_all, also_32)) ↦ inl (
          omega (arith, g.moves, g.counted, g.behind),
          sent_all,
          received_all,
          λ x h. g.written x (omega (arith, g.counted, g.behind)),
          λ x h. g.kept x (omega (arith, g.counted, g.behind)),
        )
      ]
    ]

  -- With the agent that `main` makes, over a memory of at least 128 bytes that takes requests in order
  -- and acknowledges each, with no request or answer on the way at the start, and whatever the stack
  -- holds in each round: after any `n` steps of any interleaving of the two threads and the memory no
  -- assert fails, and either `n` is 96, both threads have returned, and byte `x` of the memory is `x`
  -- for the first 128 and what it was for the others; or `n` is less, and a step is possible.
  pub ram_passes :
      (w : W) (n : ℕ) (s : State W)
      → ram.requests w ≡ []
      → ram.answers w ≡ []
      → Run link Serves agent fresh (record { sent = 0; received = 0; world = w }) n s
      → (¬ Fails link Serves agent fresh s)
        × (((n ≡ 96)
              × (sender link agent fresh s.sent s.world ≡ returned)
              × (receiver link agent s.received s.world ≡ returned)
              × ((x : ℕ) → x < 128 → ram.mem s.world x ≡ x)
              × ((x : ℕ) → 128 ≤ x → ram.mem s.world x ≡ ram.mem w x))
            ⊎ ((suc n ≤ 96) × (t : State W) × Step link Serves agent fresh s t))
  ram_passes w n s no_request no_answer run =
      let g : IsGood (ram.mem w) n s =
        invariant (ram.mem w) _ n s
          (record {
            done = 0;
            left = 0;
            counted = refl;
            at_most_32 = omega arith;
            before = no_request;
            acks = subst (All IsAck) (sym no_answer) tt;
            behind = omega (arith, ap length no_answer);
            written = λ x h. absurd (omega arith);
            kept = λ x h. refl;
            moves = refl;
          })
          run in
      (no_failure (ram.mem w) n s g, goes_on (ram.mem w) n s g)
