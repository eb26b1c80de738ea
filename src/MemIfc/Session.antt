-- ===== src/MemIfc/Session.antt =====
-- Sequences of calls of `ClientTLMemIfc` (sb_sim/include/memifc.hpp) beside an array of bytes.
use mathlib.Core.Path.{fun_ext}
use native.Mathlib.Nat.{sub-zero}
use switchboard_adapter.Base.{
  ℕ, suc, ◌+◌, ◌-◌, ◌%◌, ◌^◌, ◌≤◌, ◌<◌, ◌≡◌, refl, sym, ap, ap₂, ◌∙◌, List, [], ◌∷◌, ◌++◌, ltb,
  if◌then◌else◌, length, get_or, drop, All, tabulate, length-tabulate, get_or-tabulate,
  length-append, length-drop, get_or-append_left, get_or-append_right, get_or-drop, inl, inr,
  Bool-cases, arith,
}
use switchboard_adapter.Base.Result.{Result, ok, ◌>>=◌}
use switchboard_adapter.Base.Memcpy.{in_range}
use switchboard_adapter.Wire.{TlMessageA, IsByte}
use switchboard_adapter.Agent.Put.{byte_at}
use switchboard_adapter.Client.{Link}
use switchboard_adapter.MemIfc.{
  ClientTlMemIfc, chunk_max_size, read_chunk, write_chunk, clear_chunk,
}
use switchboard_adapter.MemIfc.Memory.{IsMemory, idle}
use switchboard_adapter.MemIfc.Ready.{IsReady, IsStack}
use switchboard_adapter.MemIfc.Reads.{loaded}
use switchboard_adapter.MemIfc.Overlay.{overlay}
use switchboard_adapter.MemIfc.Checks.{IsChunk}
use switchboard_adapter.MemIfc.WriteChunk.{write_chunk_lem}
use switchboard_adapter.MemIfc.ReadChunk.{read_chunk_lem}
use switchboard_adapter.MemIfc.Clear.{clear_chunk_lem}

-- A call through the interface `chunked_memif_t`: an address, a number of bytes and the caller's buffer.
pub data Call : Type 0 where
  reads : ℕ → ℕ → List ℕ → Call
  writes : ℕ → ℕ → List ℕ → Call
  clears : ℕ → ℕ → Call

-- The buffers that the reads leave, and the state behind the link. `fresh i` is what the stack holds in
-- call `i`.
module _ {W : Type 0} (link : Link W) (f : ClientTlMemIfc) (fresh : ℕ → TlMessageA) where
  unfoldable pub session : ℕ → List Call → W → Result (List (List ℕ) × W)
  session i [] w = ok ([], w)
  session i (reads taddr nbytes dst ∷ calls) w = do
    (filled, mid) ← read_chunk link f (fresh i) taddr nbytes dst w
    (others, later) ← session (i + 1) calls mid
    ok (filled ∷ others, later)
  session i (writes taddr nbytes src ∷ calls) w = do
    mid ← write_chunk link f (fresh i) taddr nbytes src w
    session (i + 1) calls mid
  session i (clears taddr nbytes ∷ calls) w = do
    mid ← clear_chunk link f (fresh i) taddr nbytes w
    session (i + 1) calls mid

-- The same calls on an array of bytes.
abbrev pub array_write : (ℕ → ℕ) → ℕ → ℕ → (ℕ → ℕ) → ℕ → ℕ
array_write m taddr nbytes new x = if in_range taddr nbytes x then new (x - taddr) else m x

abbrev pub array_read : (ℕ → ℕ) → ℕ → ℕ → List ℕ → List ℕ
array_read m taddr nbytes dst = tabulate nbytes (λ j. m (taddr + j)) ++ drop nbytes dst

abbrev pub array_session : List Call → (ℕ → ℕ) → List (List ℕ) × (ℕ → ℕ)
array_session [] m = ([], m)
array_session (reads taddr nbytes dst ∷ calls) m =
    let (others, later) = array_session calls m in (array_read m taddr nbytes dst ∷ others, later)
array_session (writes taddr nbytes src ∷ calls) m =
    array_session calls (array_write m taddr nbytes (byte_at src))
array_session (clears taddr nbytes ∷ calls) m =
    array_session calls (array_write m taddr nbytes (λ j. 0))

-- A call that the asserts accept, with a buffer that is long enough, within the memory.
abbrev pub IsCall : ℕ → ℕ → ClientTlMemIfc → Call → Type 0
IsCall k capacity f (reads taddr nbytes dst) =
    IsChunk k f taddr nbytes × (taddr + nbytes ≤ capacity) × (nbytes ≤ length dst)
IsCall k capacity f (writes taddr nbytes src) =
    IsChunk k f taddr nbytes × (taddr + nbytes ≤ capacity) × (nbytes ≤ length src) × All IsByte src
IsCall k capacity f (clears taddr nbytes) =
    (nbytes < 2 ^ 64) × (taddr % 2 ^ k ≡ 0) × (nbytes % 2 ^ k ≡ 0) × (taddr + nbytes ≤ capacity)

-- Lists of the same length with the same elements.
same_elements :
    (xs ys : List ℕ) → length xs ≡ length ys → ((j : ℕ) → get_or xs j 0 ≡ get_or ys j 0) → xs ≡ ys
same_elements [] [] h e = refl
same_elements [] (y ∷ ys) h e = absurd (omega arith)
same_elements (x ∷ xs) [] h e = absurd (omega arith)
same_elements (x ∷ xs) (y ∷ ys) h e =
    ap₂ ◌∷◌ (e 0) (same_elements xs ys (omega arith) (λ j. e (suc j)))

array_read-get :
    (m : ℕ → ℕ) (taddr nbytes : ℕ) (dst : List ℕ) (j : ℕ)
    → get_or (array_read m taddr nbytes dst) j 0
      ≡ (if ltb j nbytes then m (taddr + j) else get_or dst j 0)
array_read-get m taddr nbytes dst j = elim (Bool-cases (ltb j nbytes)) [
  | inl inside ↦ rw inside (
      get_or-append_left (tabulate nbytes read) (drop nbytes dst) j 0
        (ground (arith, length-tabulate nbytes read))
      ∙ get_or-tabulate nbytes read j (ground arith))
  | inr beyond ↦ rw beyond (
      ap (λ i. get_or (array_read m taddr nbytes dst) i 0)
        (ground (arith, length-tabulate nbytes read))
      ∙ get_or-append_right (tabulate nbytes read) (drop nbytes dst) (j - nbytes) 0
      ∙ get_or-drop nbytes dst (j - nbytes) 0
      ∙ ap (λ i. get_or dst i 0) (ground arith))
]
  where
    read : ℕ → ℕ
    read i = m (taddr + i)

-- What the model's `loaded` says of a buffer determines it.
loaded_list :
    (m : ℕ → ℕ) (taddr nbytes : ℕ) (dst out : List ℕ)
    → nbytes ≤ length dst
    → length out ≡ length dst
    → ((j : ℕ) → byte_at out j ≡ loaded dst 0 nbytes m taddr j)
    → out ≡ array_read m taddr nbytes dst
loaded_list m taddr nbytes dst out fits len e =
    same_elements out (array_read m taddr nbytes dst)
      (omega (
        arith,
        len,
        length-append (tabulate nbytes (λ j. m (taddr + j))) (drop nbytes dst),
        length-tabulate nbytes (λ j. m (taddr + j)),
        length-drop nbytes dst,
      ))
      (λ j. e j ∙ whole j ∙ sym (array_read-get m taddr nbytes dst j))
  where
    whole :
        (j : ℕ)
        → loaded dst 0 nbytes m taddr j ≡ (if ltb j nbytes then m (taddr + j) else get_or dst j 0)
    whole j = rw sub-zero (ground arith)

from_start :
    (m : ℕ → ℕ) (taddr nbytes : ℕ) (new : ℕ → ℕ) (x : ℕ)
    → overlay m taddr nbytes new 0 x ≡ array_write m taddr nbytes new x
from_start m taddr nbytes new x =
    ap (λ i. if in_range taddr nbytes x then new i else m x) (omega arith)

module _ {W : Type 0} (link : Link W) (k capacity : ℕ) (memory : IsMemory link k capacity)
    (cap : capacity ≤ 2 ^ 64) (f : ClientTlMemIfc) (ready : IsReady k f) (fresh : ℕ → TlMessageA)
    (st : (i : ℕ) → IsStack (fresh i)) (beat : 2 ^ k ≤ chunk_max_size f)
    (even : chunk_max_size f % 2 ^ k ≡ 0) where
  open memory use {mem, phase}

  -- With a ready adapter whose longest transfer is one or more whole beats, over a memory with no
  -- transfer pending, any sequence of calls that the asserts accept, with buffers that are long enough
  -- and ranges within the memory, returns; the reads leave the buffers that they leave on an array of
  -- bytes with the same calls, the memory then holds the bytes of that array, and again no transfer is
  -- pending.
  pub session_lem :
      (calls : List Call) (i : ℕ) (w : W)
      → All (IsCall k capacity f) calls
      → phase w ≡ idle
      → (later : W) × (session link f fresh i calls w ≡ ok ((array_session calls (mem w)).0, later))
        × (phase later ≡ idle)
        × (mem later ≡ (array_session calls (mem w)).1)
  unfolding session
  session_lem [] i w h quiet = (w, refl, quiet, refl)
  session_lem (reads taddr nbytes dst ∷ calls) i w ((c, inside, room), rest) quiet =
      let (out, mid, did, len, quiet', same, loads) =
        read_chunk_lem link k capacity memory cap f ready (fresh i) (st i) taddr nbytes dst w c
          inside room quiet in
      let (later, runs, quiet'', now) = session_lem calls (i + 1) mid rest quiet' in
      let kept : mem mid ≡ mem w = fun_ext same in
      (
        later,
        rw (did, runs)
            (λ z. ok (
              loaded_list (mem w) taddr nbytes dst out room len loads z
                  ∷ (array_session calls (kept z)).0,
              later,
            )),
        quiet'',
        now ∙ ap (λ m. (array_session calls m).1) kept,
      )
  session_lem (writes taddr nbytes src ∷ calls) i w ((c, inside, room, bytes), rest) quiet =
      let (mid, did, quiet', stores) =
        write_chunk_lem link k capacity memory cap f ready (fresh i) (st i) src bytes taddr nbytes w
          c inside room quiet in
      let (later, runs, quiet'', now) = session_lem calls (i + 1) mid rest quiet' in
      let changed : mem mid ≡ array_write (mem w) taddr nbytes (byte_at src) =
        fun_ext (λ x. stores x ∙ from_start (mem w) taddr nbytes (byte_at src) x) in
      (
        later,
        rw did (runs ∙ ap (λ m. ok ((array_session calls m).0, later)) changed),
        quiet'',
        now ∙ ap (λ m. (array_session calls m).1) changed,
      )
  session_lem (clears taddr nbytes ∷ calls) i w ((small, at_beat, whole, inside), rest) quiet =
      let (mid, did, quiet', stores) =
        clear_chunk_lem link k capacity memory cap f ready (fresh i) (st i) beat even taddr nbytes w
          small at_beat whole inside quiet in
      let (later, runs, quiet'', now) = session_lem calls (i + 1) mid rest quiet' in
      let changed : mem mid ≡ array_write (mem w) taddr nbytes (λ j. 0) =
        fun_ext (λ x. stores x ∙ from_start (mem w) taddr nbytes (λ j. 0) x) in
      (
        later,
        rw did (runs ∙ ap (λ m. ok ((array_session calls m).0, later)) changed),
        quiet'',
        now ∙ ap (λ m. (array_session calls m).1) changed,
      )
