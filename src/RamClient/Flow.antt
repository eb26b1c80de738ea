-- ===== src/RamClient/Flow.antt =====
-- The invariant of sb_sim/tlmem, and each step's part in keeping it.
use switchboard_adapter.Base.{
  ℕ, zero, suc, ◌+◌, ◌-◌, ◌*◌, ◌≤◌, ◌<◌, ◌≡◌, refl, sym, ap, ◌∙◌, subst, ◌⊎◌, inl, inr, [], ◌∷◌,
  ◌++◌, ltb, false, if◌then◌else◌, length, length-append, All, All-append, arith, Bool-cases,
  Option-cases,
}
use switchboard_adapter.Base.Threads.{moved, waiting, returned}
use switchboard_adapter.Base.Memcpy.{in_range}
use switchboard_adapter.Wire.{TlMessageA}
use switchboard_adapter.Wire.Codec.{encode_a, encode_d}
use switchboard_adapter.Agent.{TlAgent}
use switchboard_adapter.Agent.Config.{IsConfigured, Accepts}
use switchboard_adapter.Agent.Put.{byte_at}
use switchboard_adapter.Client.{Link, send_a}
use switchboard_adapter.MemIfc.Ready.{IsStack}
use switchboard_adapter.RamClient.{word_request, sender, receiver, State}
use switchboard_adapter.RamClient.Contract.{IsRam}
use switchboard_adapter.RamClient.Rounds.{
  get_or-word, word_request-IsBurst, queued, queued-suc, IsAck, sends_round, waits_round,
  takes_round,
}

module _ {W : Type 0} (link : Link W) (Serves : W → W → Type 0) (capacity : ℕ)
    (ram : IsRam link Serves capacity) (fresh : ℕ → TlMessageA) (initial : ℕ → ℕ) where
  -- What holds after `n` steps.
  pub record Good (n : ℕ) (s : State W) : Type 0 where
    pub done : ℕ
    pub left : ℕ
    pub counted : done + left ≡ s.sent
    pub at_most_32 : s.sent ≤ 32
    pub before : ram.requests s.world ≡ queued fresh done left
    pub acks : All IsAck (ram.answers s.world)
    pub behind : length (ram.answers s.world) + s.received ≡ done
    pub written : (x : ℕ) → x < done * 4 → ram.mem s.world x ≡ x
    pub kept : (x : ℕ) → done * 4 ≤ x → ram.mem s.world x ≡ initial x
    pub moves : n ≡ s.sent + done + s.received

module _ {W : Type 0} (link : Link W) (Serves : W → W → Type 0) (capacity : ℕ)
    (ram : IsRam link Serves capacity) (large : 128 ≤ capacity) (agent : TlAgent)
    (c : IsConfigured 2 agent) (acc : Accepts agent 2) (fresh : ℕ → TlMessageA)
    (st : (j : ℕ) → IsStack (fresh j)) (initial : ℕ → ℕ) where
  abbrev IsGood : ℕ → State W → Type 0
  IsGood = Good link Serves capacity ram fresh initial

  -- The sender goes on, or has returned.
  pub sender_can :
      (n : ℕ) (s : State W)
      → IsGood n s
      → ((later : W) × (sender link agent fresh s.sent s.world ≡ moved later)
          × IsGood (suc n) (record s { sent = s.sent + 1; world = later }))
        ⊎ ((sender link agent fresh s.sent s.world ≡ returned) × (s.sent ≡ 32))
  unfolding send_a
  sender_can n s g = elim (Bool-cases (ltb s.sent 32)) [
    | inr over ↦ inr (rw over, ground (arith, g.at_most_32))
    | inl left ↦
        let m : TlMessageA = word_request (fresh s.sent) s.sent in
        let (added, same, mem) = ram.sent (encode_a m) s.world in
        inl (
          send_a link m s.world,
          rw (left, sends_round link agent c acc fresh st s.sent s.world),
          record {
            done = g.done;
            left = suc g.left;
            counted = omega (arith, g.counted);
            at_most_32 = ground arith;
            before =
                added
                ∙ ap (λ q. q ++ (encode_a m ∷ [])) g.before
                ∙ ap
                    (λ (i : ℕ).
                      queued fresh g.done g.left ++ (encode_a (word_request (fresh i) i) ∷ []))
                    (sym g.counted)
                ∙ queued-suc fresh g.left g.done;
            acks = subst (All IsAck) (sym same) g.acks;
            behind = omega (arith, g.behind, ap length same);
            written = λ x h. mem x ∙ g.written x h;
            kept = λ x h. mem x ∙ g.kept x h;
            moves = omega (arith, g.moves);
          },
        )
  ]

  -- The receiver goes on, waits where there is no answer, or has returned.
  pub receiver_can :
      (n : ℕ) (s : State W)
      → IsGood n s
      → ((later : W) × (receiver link agent s.received s.world ≡ moved later)
          × IsGood (suc n) (record s { received = s.received + 1; world = later }))
        ⊎ (((receiver link agent s.received s.world ≡ waiting)
              × (ram.answers s.world ≡ [])
              × (s.received < 32))
            ⊎ ((receiver link agent s.received s.world ≡ returned) × (s.received ≡ 32)))
  receiver_can n s g = elim (Bool-cases (ltb s.received 32)) [
    | inr over ↦ inr (inr (rw over, ground (arith, g.at_most_32, g.counted, g.behind)))
    | inl left ↦ elim (Option-cases (link.recv s.world)) [
      | inl empty ↦ inr (
          inl (
            rw (left, waits_round link agent c acc s.world empty),
            ram.no_answer s.world empty,
            ground arith,
          ))
      | inr ((p, later), taken) ↦
          let (front, same, mem) = ram.received p s.world later taken in
          let acks : All IsAck (p ∷ ram.answers later) = subst (All IsAck) front g.acks in
          inl (
            later,
            rw (left, takes_round link agent c acc p s.world later acks.0 taken),
            record {
              done = g.done;
              left = g.left;
              counted = g.counted;
              at_most_32 = g.at_most_32;
              before = same ∙ g.before;
              acks = acks.1;
              behind = omega (arith, g.behind, ap length front);
              written = λ x h. mem x ∙ g.written x h;
              kept = λ x h. mem x ∙ g.kept x h;
              moves = omega (arith, g.moves);
            },
          )
    ]
  ]

  pub serves-Good :
      (n : ℕ) (s : State W) (later : W)
      → IsGood n s
      → Serves s.world later
      → IsGood (suc n) (record s { world = later })
  serves-Good n s later g serves = take_first g.left refl
    where
      stored :
          (x : ℕ)
          → g.done < 32
          → x < (g.done + 1) * 4
          → (if in_range (g.done * 4) 4 x
              then byte_at (word_request (fresh g.done) g.done).payload (x - g.done * 4)
              else ram.mem s.world x)
            ≡ x
      stored x early h = elim (Bool-cases (in_range (g.done * 4) 4 x)) [
        | inl inside ↦
            rw inside (get_or-word g.done (x - g.done * 4) _ early (ground arith) ∙ ground arith)
        | inr outside ↦ rw outside (g.written x (ground arith))
      ]

      untouched :
          (x : ℕ)
          → (g.done + 1) * 4 ≤ x
          → (if in_range (g.done * 4) 4 x
              then byte_at (word_request (fresh g.done) g.done).payload (x - g.done * 4)
              else ram.mem s.world x)
            ≡ initial x
      untouched x h =
          let outside : in_range (g.done * 4) 4 x ≡ false = ground arith in
          rw outside (g.kept x (omega arith))

      take_first : (left : ℕ) → g.left ≡ left → IsGood (suc n) (record s { world = later })
      take_first zero e =
          absurd (ram.idle s.world later serves (g.before ∙ ap (queued fresh g.done) e))
      take_first (suc left) e =
          let early : g.done < 32 = omega (arith, g.counted, g.at_most_32) in
          let (d, ack, rest, added, mem) =
            ram.served s.world later (word_request (fresh g.done) g.done)
              (queued fresh (g.done + 1) left) serves (g.before ∙ ap (queued fresh g.done) e)
              (word_request-IsBurst fresh st capacity g.done early large) refl refl in
          record {
            done = g.done + 1;
            left = left;
            counted = omega (arith, g.counted);
            at_most_32 = g.at_most_32;
            before = rest;
            acks = subst (All IsAck) (sym added) (
                All-append IsAck (ram.answers s.world) (encode_d d ∷ []) g.acks
                  ((d, refl, ack), tt));
            behind = omega (
              arith,
              g.behind,
              ap length added,
              length-append (ram.answers s.world) (encode_d d ∷ []),
            );
            written = λ x h. mem x ∙ stored x early h;
            kept = λ x h. mem x ∙ untouched x h;
            moves = omega (arith, g.moves);
          }
