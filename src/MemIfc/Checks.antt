-- ===== src/MemIfc/Checks.antt =====
-- The asserts that open `read_chunk` and `write_chunk` of sb_sim/include/memifc.hpp.
use switchboard_adapter.Base.{
  ℕ, ◌%◌, ◌^◌, ◌≤◌, ◌<◌, ◌≡◌, ◌≢◌, le→leb, lt→not-leb, eq→==, ne→not-==, List, arith,
}
use switchboard_adapter.Base.Result.{
  Error, ok, err, address_not_beat_aligned, below_minimum_chunk, exceeds_maximum_chunk,
  not_a_multiple_of_beat,
}
use switchboard_adapter.Client.{Link}
use switchboard_adapter.Wire.{TlMessageA}
use switchboard_adapter.MemIfc.{
  ClientTlMemIfc, chunk_max_size, check_chunk, read_chunk, write_chunk,
}
use switchboard_adapter.MemIfc.Steps.{align_test}
use switchboard_adapter.MemIfc.Ready.{IsReady, chunk_align_lem, divisor_pow}

-- The range is cut in whole beats, and is not longer than a transfer may be.
pub record IsChunk (lg_beat : ℕ) (f : ClientTlMemIfc) (taddr nbytes : ℕ) : Type 0 where
  pub starts_at_beat : taddr % 2 ^ lg_beat ≡ 0
  pub has_a_beat : 2 ^ lg_beat ≤ nbytes
  pub within_max : nbytes ≤ chunk_max_size f
  pub whole_beats : nbytes % 2 ^ lg_beat ≡ 0

-- The first assert that a range fails.
pub data Fails (lg_beat : ℕ) (f : ClientTlMemIfc) (taddr nbytes : ℕ) : Error → Type 0 where
  starts_inside_beat :
      taddr % 2 ^ lg_beat ≢ 0 → Fails lg_beat f taddr nbytes address_not_beat_aligned
  shorter_than_beat :
      taddr % 2 ^ lg_beat ≡ 0
      → nbytes < 2 ^ lg_beat
      → Fails lg_beat f taddr nbytes below_minimum_chunk
  longer_than_max :
      taddr % 2 ^ lg_beat ≡ 0
      → 2 ^ lg_beat ≤ nbytes
      → chunk_max_size f < nbytes
      → Fails lg_beat f taddr nbytes exceeds_maximum_chunk
  ends_inside_beat :
      taddr % 2 ^ lg_beat ≡ 0
      → 2 ^ lg_beat ≤ nbytes
      → nbytes ≤ chunk_max_size f
      → nbytes % 2 ^ lg_beat ≢ 0
      → Fails lg_beat f taddr nbytes not_a_multiple_of_beat

module _ (k : ℕ) (f : ClientTlMemIfc) (ready : IsReady k f) (taddr nbytes : ℕ) where
  k64 : k < 64
  k64 = omega (arith, ready.configured.beat.at_most_32)

  pub check_chunk_ok : IsChunk k f taddr nbytes → check_chunk f taddr nbytes ≡ ok tt
  unfolding check_chunk
  check_chunk_ok c = rw (
    chunk_align_lem k f ready,
    align_test taddr k k64,
    eq→== _ _ c.starts_at_beat,
    le→leb _ _ c.has_a_beat,
    le→leb _ _ c.within_max,
    divisor_pow k,
    eq→== _ _ c.whole_beats,
  )

  pub check_chunk_err : (e : Error) → Fails k f taddr nbytes e → check_chunk f taddr nbytes ≡ err e
  unfolding check_chunk
  check_chunk_err e (starts_inside_beat odd) =
      rw (chunk_align_lem k f ready, align_test taddr k k64, ne→not-== _ _ odd)
  check_chunk_err e (shorter_than_beat al lt) =
      rw (chunk_align_lem k f ready, align_test taddr k k64, eq→== _ _ al, lt→not-leb _ _ lt)
  check_chunk_err e (longer_than_max al le lt) = rw (
    chunk_align_lem k f ready,
    align_test taddr k k64,
    eq→== _ _ al,
    le→leb _ _ le,
    lt→not-leb _ _ lt,
  )
  check_chunk_err e (ends_inside_beat al le max odd) = rw (
    chunk_align_lem k f ready,
    align_test taddr k k64,
    eq→== _ _ al,
    le→leb _ _ le,
    le→leb _ _ max,
    divisor_pow k,
    ne→not-== _ _ odd,
  )

module _ {W : Type 0} (link : Link W) (k : ℕ) (f : ClientTlMemIfc) (ready : IsReady k f) where
  -- With a ready adapter, a range that fails an assert is refused by `read_chunk` and
  -- `write_chunk` alike, with the error of the first assert that it fails, whatever the buffer and
  -- the link.
  pub chunk_refused :
      (fresh : TlMessageA) (taddr nbytes : ℕ) (buffer : List ℕ) (w : W) (e : Error)
      → Fails k f taddr nbytes e
      → (read_chunk link f fresh taddr nbytes buffer w ≡ err e)
        × (write_chunk link f fresh taddr nbytes buffer w ≡ err e)
  unfolding read_chunk write_chunk
  chunk_refused fresh taddr nbytes buffer w e fails = (
    rw (check_chunk_err k f ready taddr nbytes e fails),
    rw (check_chunk_err k f ready taddr nbytes e fails),
  )
