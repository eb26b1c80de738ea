-- ===== src/Loopback/Flow.antt =====
-- The invariant of sb_sim/tlloopback, and the part of each thread and of the design in keeping it.
use switchboard_adapter.Base.{
  ℕ, suc, ◌+◌, ◌^◌, ◌<◌, ◌≡◌, sym, ap, subst, List, [], ◌∷◌, ◌++◌, length, length-append, All,
  All-append, arith,
}
use switchboard_adapter.Wire.{TlMessageA}
use switchboard_adapter.Client.{Link}
use switchboard_adapter.Adapter.{Widths}
use switchboard_adapter.Loopback.{Place, first, second, third, finish}
use switchboard_adapter.Loopback.Contract.{IsThrough}
use switchboard_adapter.Loopback.Moves.{IsGranted, IsAnswer}

-- How many calls a thread has behind it, how many of the first two, and how many of the third.
abbrev pub calls : Place → ℕ
calls first = 0
calls second = 1
calls third = 2
calls finish = 3

abbrev pub requests : Place → ℕ
requests first = 0
requests second = 1
requests third = 2
requests finish = 2

abbrev pub responses : Place → ℕ
responses first = 0
responses second = 0
responses third = 0
responses finish = 1

-- The source of the last request fits its field where it is answered.
abbrev pub Knows : Place → TlMessageA → Type 0
Knows first last = Unit
Knows second last = Unit
Knows third last = last.source < 2 ^ 32
Knows finish last = Unit

-- The packets of a channel on both sides, `carried` of which have come through.
pub record Channel (P : List ℕ → Type 0) (before behind : List (List ℕ)) (sent carried taken : ℕ)
    : Type 0 where
  pub on_the_way : length before + carried ≡ sent
  pub arrived : length behind + taken ≡ carried
  pub all_before : All P before
  pub all_behind : All P behind

module _ (P : List ℕ → Type 0) (before behind later : List (List ℕ)) (sent carried taken : ℕ)
    (p : List ℕ) (c : Channel P before behind sent carried taken) where
  pub Channel-send :
      later ≡ before ++ (p ∷ []) → P p → Channel P later behind (suc sent) carried taken
  Channel-send e good = record {
    on_the_way = omega (arith, ap length e, length-append before (p ∷ []), c.on_the_way);
    arrived = c.arrived;
    all_before = subst (All P) (sym e) (All-append P before (p ∷ []) c.all_before (good, tt));
    all_behind = c.all_behind;
  }

  pub Channel-take : behind ≡ p ∷ later → Channel P before later sent carried (suc taken) × P p
  Channel-take e =
      let all : All P (p ∷ later) = subst (All P) e c.all_behind in
      (
        record {
          on_the_way = c.on_the_way;
          arrived = omega (arith, ap length e, c.arrived);
          all_before = c.all_before;
          all_behind = all.1;
        },
        all.0,
      )

  pub Channel-carry :
      (q : List ℕ) (behind' : List (List ℕ))
      → before ≡ p ∷ later
      → behind' ≡ behind ++ (q ∷ [])
      → (P p → P q)
      → Channel P later behind' sent (suc carried) taken
  Channel-carry q behind' e e' keeps =
      let all : All P (p ∷ later) = subst (All P) e c.all_before in
      record {
        on_the_way = omega (arith, ap length e, c.on_the_way);
        arrived = omega (arith, ap length e', length-append behind (q ∷ []), c.arrived);
        all_before = all.1;
        all_behind =
            subst (All P) (sym e') (All-append P behind (q ∷ []) c.all_behind (keeps all.0, tt));
      }

-- Another spelling of the same packets.
pub Channel-same :
    (P : List ℕ → Type 0) (before before' behind behind' : List (List ℕ)) (sent carried taken : ℕ)
    → Channel P before behind sent carried taken
    → before' ≡ before
    → behind' ≡ behind
    → Channel P before' behind' sent carried taken
Channel-same P before before' behind behind' sent carried taken c e e' =
    subst (λ x. Channel P x behind' sent carried taken) (sym e)
      (subst (λ x. Channel P before x sent carried taken) (sym e') c)

module _ {W : Type 0} (client manager : Link W) (Carries : W → W → Type 0) (node : Widths)
    (room : ℕ) (through : IsThrough client manager Carries node room) where
  abbrev pub OnA : W → ℕ → ℕ → ℕ → Type 0
  OnA w = Channel IsGranted (through.a_before w) (through.a_behind w)

  abbrev pub OnD : W → ℕ → ℕ → ℕ → Type 0
  OnD w = Channel IsAnswer (through.d_before w) (through.d_behind w)

  -- What holds after `n` steps.
  pub record Good (n : ℕ) (c m : Place) (last : TlMessageA) (w : W) : Type 0 where
    pub carried_a : ℕ
    pub carried_d : ℕ
    pub on_a : OnA w (requests c) carried_a (requests m)
    pub on_d : OnD w (responses m) carried_d (responses c)
    pub knows : Knows m last
    pub moves : n ≡ calls c + calls m + (carried_a + carried_d)
