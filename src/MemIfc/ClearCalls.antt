-- ===== src/MemIfc/ClearCalls.antt =====
-- `clear_chunk` of sb_sim/include/memifc.hpp takes the lock anew for every `write_chunk`: here it is the
-- list of those calls.
use switchboard_adapter.Base.{
  ℕ, zero, suc, ◌+◌, ◌-◌, ◌^◌, ◌≤◌, ◌<◌, ◌≡◌, refl, ◌∙◌, List, [], ◌∷◌, replicate, min, ◌==◌,
  ne→not-==, arith, if◌then◌else◌,
}
use switchboard_adapter.Base.Words.{u64, sub64}
use switchboard_adapter.Base.Result.{Result, ok, err, ◌>>=◌}
use switchboard_adapter.Wire.{TlMessageA}
use switchboard_adapter.Client.{Link}
use switchboard_adapter.MemIfc.{
  ClientTlMemIfc, chunk_max_size, write_chunk, clear_loop, clear_chunk,
}
use switchboard_adapter.MemIfc.Clear.{wrap_end}
use switchboard_adapter.MemIfc.Session.{Call, writes, session}

-- The calls of the rounds from `curr` on, with blocks of up to `max` zeros.
unfoldable pub clear_calls : ℕ → ℕ → ℕ → ℕ → List Call
clear_calls max zero curr remaining = []
clear_calls max (suc fuel) curr remaining =
    let len = min remaining max in
    let rest = clear_calls max fuel (curr + len) (remaining - len) in
    if remaining == 0 then [] else writes curr len (replicate max 0) ∷ rest

-- The state that a session leaves.
abbrev pub end_state : {A B : Type 0} → Result (A × B) → Result B
end_state (ok r) = ok r.1
end_state (err e) = err e

module _ {W : Type 0} (link : Link W) (f : ClientTlMemIfc) (fresh : TlMessageA)
    (some_max : 0 < chunk_max_size f) where
  abbrev zeros : List ℕ
  zeros = replicate (chunk_max_size f) 0

  loop_calls :
      (fuel curr n i : ℕ) (w : W)
      → n < fuel
      → n < 2 ^ 64
      → curr + n ≤ 2 ^ 64
      → clear_loop link f fresh fuel zeros curr n w
        ≡ end_state (session link f (λ _. fresh) i (clear_calls (chunk_max_size f) fuel curr n) w)
  unfolding clear_loop clear_calls session
  loop_calls zero curr n i w h h64 fit = absurd (omega arith)
  loop_calls (suc fuel) curr zero i w h h64 fit = refl
  loop_calls (suc fuel) curr (suc n) i w h h64 fit =
      let len : ℕ = min (suc n) (chunk_max_size f) in
      let rest : sub64 (suc n) len ≡ suc n - len = omega arith in
      rw (ne→not-== (suc n) 0 (omega arith), rest)
        (after (write_chunk link f fresh curr len zeros w)
          (λ later. clear_loop link f fresh fuel zeros (u64 (curr + len)) (suc n - len) later)
          (λ mid.
            session link f (λ _. fresh) (i + 1)
              (clear_calls (chunk_max_size f) fuel (curr + len) (suc n - len)) mid)
          (λ mid.
            wrap_end link f fresh zeros fuel (curr + len) (suc n - len) mid (omega arith)
              (omega arith)
            ∙ loop_calls fuel (curr + len) (suc n - len) (i + 1) mid (omega arith) (omega arith)
                (omega arith)))
    where
      after :
          (r : Result W) (next : W → Result W) (calls : W → Result (List (List ℕ) × W))
          → ((mid : W) → next mid ≡ end_state (calls mid))
          → (r >>= next) ≡ end_state (r >>= calls)
      after (err e) next calls same = refl
      after (ok mid) next calls same = same mid

  -- `clear_chunk` over any link is the session of its calls.
  pub clear_chunk_calls :
      (taddr nbytes i : ℕ) (w : W)
      → nbytes < 2 ^ 64
      → taddr + nbytes ≤ 2 ^ 64
      → clear_chunk link f fresh taddr nbytes w
        ≡ end_state (
            session link f
              (λ _. fresh)
              i
              (clear_calls (chunk_max_size f) (nbytes + 1) taddr nbytes)
              w)
  unfolding clear_chunk
  clear_chunk_calls taddr nbytes i w h64 fit =
      loop_calls (nbytes + 1) taddr nbytes i w (omega arith) h64 fit
