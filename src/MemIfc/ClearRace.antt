-- ===== src/MemIfc/ClearRace.antt =====
-- `clear_chunk` of sb_sim/include/memifc.hpp over a TileLink memory, with the calls of another thread
-- between those that it makes.
use switchboard_adapter.Base.{
  ℕ, zero, suc, ◌+◌, ◌-◌, ◌%◌, ◌^◌, ◌≤◌, ◌<◌, ◌≡◌, refl, ap, ◌∙◌, inl, inr, List, All,
  All-replicate, length-replicate, min, Bool-cases, ne→not-==, arith,
}
use native.Mathlib.Nat.{mod-eq-zero_of_dvd, dvd_of_mod-eq-zero, dvd-add}
use switchboard_adapter.Base.Bits.{pow-pos}
use switchboard_adapter.Base.Memcpy.{in_range}
use switchboard_adapter.Base.Result.{ok}
use switchboard_adapter.Wire.{TlMessageA, IsByte}
use switchboard_adapter.Client.{Link}
use switchboard_adapter.MemIfc.{ClientTlMemIfc, chunk_max_size, clear_chunk}
use switchboard_adapter.MemIfc.Memory.{IsMemory, idle}
use switchboard_adapter.MemIfc.Ready.{IsReady, IsStack}
use switchboard_adapter.MemIfc.Clear.{min-IsRound}
use switchboard_adapter.MemIfc.Session.{
  Call, session, array_write, array_session, IsCall, session_lem,
}
use switchboard_adapter.MemIfc.ClearCalls.{clear_calls, end_state, clear_chunk_calls}
use switchboard_adapter.MemIfc.Interleave.{
  Merge, done, one, other, IsApart, clear_calls-Clears, merged_array,
}

Merge-All :
    {A : Type 0} (P : A → Type 0) (xs ys zs : List A)
    → Merge xs ys zs
    → All P xs
    → All P ys
    → All P zs
Merge-All P xs ys zs done hx hy = tt
Merge-All P xs ys zs (one {xs = xs'} {ys = ys'} {zs = zs'} mg) hx hy =
    (hx.0, Merge-All P xs' ys' zs' mg hx.1 hy)
Merge-All P xs ys zs (other {xs = xs'} {ys = ys'} {zs = zs'} mg) hx hy =
    (hy.0, Merge-All P xs' ys' zs' mg hx hy.1)

module _ {W : Type 0} (link : Link W) (k capacity : ℕ) (memory : IsMemory link k capacity)
    (bound : capacity ≤ 2 ^ 64) (f : ClientTlMemIfc) (ready : IsReady k f) (fresh : TlMessageA)
    (st : IsStack fresh) (beat : 2 ^ k ≤ chunk_max_size f)
    (even : chunk_max_size f % 2 ^ k ≡ 0) where
  open memory use {mem, phase}

  clear_calls-IsCall :
      (fuel curr n : ℕ)
      → curr % 2 ^ k ≡ 0
      → n % 2 ^ k ≡ 0
      → curr + n ≤ capacity
      → All (IsCall k capacity f) (clear_calls (chunk_max_size f) fuel curr n)
  unfolding clear_calls
  clear_calls-IsCall zero curr n al whole inside = tt
  clear_calls-IsCall (suc fuel) curr zero al whole inside = tt
  clear_calls-IsCall (suc fuel) curr (suc n) al whole inside =
      let max : ℕ = chunk_max_size f in
      let r = min-IsRound k (suc n) max (omega arith) whole beat even in
      rw (ne→not-== (suc n) 0 (omega arith)) (
        (
          record {
            starts_at_beat = al;
            has_a_beat = r.has_a_beat;
            within_max = r.within_max;
            whole_beats = r.whole_beats;
          },
          omega (arith, inside),
          omega (arith, r.within_max, length-replicate {A = ℕ} max 0),
          All-replicate IsByte max 0 (omega arith),
        ),
        clear_calls-IsCall fuel (curr + min (suc n) max) (suc n - min (suc n) max)
            (mod-eq-zero_of_dvd (2 ^ k) (
              dvd-add (2 ^ k) (dvd_of_mod-eq-zero (2 ^ k) al)
                (dvd_of_mod-eq-zero (2 ^ k) r.whole_beats)))
            r.rest_whole (omega (arith, inside)),
      )

  -- With a ready adapter whose longest transfer is one or more whole beats, and a range of whole beats
  -- within the memory: `clear_chunk` is the sequence of `clear_calls`, each of which takes the lock for
  -- itself; and if a second thread's reads and writes outside of the range, which the asserts accept, come
  -- in between them in any interleaving, over a memory with no transfer pending, then all calls return,
  -- the second thread reads what it reads without the first one, and the memory is as the second thread
  -- alone leaves it but for zeros in the range.
  pub clear_race :
      (taddr nbytes : ℕ) (others merged : List Call) (w : W)
      → nbytes < 2 ^ 64
      → taddr % 2 ^ k ≡ 0
      → nbytes % 2 ^ k ≡ 0
      → taddr + nbytes ≤ capacity
      → All (IsCall k capacity f) others
      → All (IsApart taddr nbytes) others
      → Merge (clear_calls (chunk_max_size f) (nbytes + 1) taddr nbytes) others merged
      → phase w ≡ idle
      → ((v : W)
          → clear_chunk link f fresh taddr nbytes v
            ≡ end_state (
                session link f
                  (λ i. fresh)
                  0
                  (clear_calls (chunk_max_size f) (nbytes + 1) taddr nbytes)
                  v))
        × (later : W) × (session link f (λ i. fresh) 0 merged w
            ≡ ok ((array_session others (mem w)).0, later))
        × (phase later ≡ idle)
        × ((x : ℕ)
            → mem later x ≡ array_write (array_session others (mem w)).1 taddr nbytes (λ j. 0) x)
  clear_race taddr nbytes others merged w h64 al whole inside calls apart mg quiet =
      let max : ℕ = chunk_max_size f in
      let some_max : 0 < max = omega (arith, beat, pow-pos k) in
      let rounds : List Call = clear_calls max (nbytes + 1) taddr nbytes in
      let (later, runs, quiet', now) =
        session_lem link k capacity memory bound f ready (λ i. fresh) (λ i. st) beat even merged 0 w
          (Merge-All (IsCall k capacity f) rounds others merged mg
            (clear_calls-IsCall (nbytes + 1) taddr nbytes al whole inside) calls)
          quiet in
      let (read, agree, zeros) =
        merged_array taddr nbytes max taddr (mem w) (mem w) rounds others merged mg
          (clear_calls-Clears taddr nbytes max (nbytes + 1) taddr nbytes (omega arith) some_max
            refl)
          apart (omega arith) (omega arith) (λ x h. refl) (λ x a b. absurd (omega arith)) in
      (
        λ v. clear_chunk_calls link f fresh some_max taddr nbytes 0 v h64 (omega arith),
        later,
        runs ∙ ap (λ out. ok (out, later)) read,
        quiet',
        λ x. ap (λ m. m x) now ∙ (elim (Bool-cases (in_range taddr nbytes x)) [
          | inl within ↦ rw within (zeros x (ground arith) (ground arith))
          | inr beyond ↦ rw beyond (agree x beyond)
        ]),
      )
