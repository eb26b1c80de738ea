-- ===== src/MemIfc/Construct.antt =====
-- The constructors of `ClientTLAgent` (sb_sim/include/tilelinklib.hpp) and `ClientTLMemIfc` (sb_sim/include/memifc.hpp) together.
use Prim.Native.String.{String}
use switchboard_adapter.Base.{ℕ, ◌^◌, ◌≤◌, ◌≡◌, refl, true, le→leb, arith}
use switchboard_adapter.Base.Result.{ok, err, params_not_set}
use switchboard_adapter.Wire.{TlBundleParams}
use switchboard_adapter.Client.{new_agent}
use switchboard_adapter.Agent.{TlAgent, set_params, get_params}
use switchboard_adapter.Agent.Mask.{IsBeat, beat-le, beat_bytes}
use switchboard_adapter.MemIfc.{ClientTlMemIfc, new_mem_ifc, chunk_align, chunk_max_size}
use switchboard_adapter.MemIfc.Ready.{IsReady}

-- No adapter can be made on a new agent: its parameters must be set first. With parameters for
-- beats of `2 ^ k` bytes, up to 32, and transfers of at most 4096, setting them succeeds, and the
-- adapter that is then made is ready: its alignment is the beat, and its largest chunk the longest
-- transfer.
pub new_mem_ifc-IsReady :
    (k : ℕ) (uri name : String) (params : TlBundleParams)
    → IsBeat k params
    → params.max_transfer_bytes ≤ 4096
    → (new_mem_ifc (new_agent uri) ≡ err params_not_set)
      × (b : TlAgent) × (set_params (new_agent uri) name params ≡ ok b)
      × (f : ClientTlMemIfc) × (new_mem_ifc b ≡ ok f)
      × IsReady k f
      × (chunk_align f ≡ 2 ^ k)
      × (chunk_max_size f ≡ params.max_transfer_bytes)
unfolding new_mem_ifc new_agent set_params get_params
new_mem_ifc-IsReady k uri name params beat max = (
  refl,
  record { info = name; p = params; p_set = true },
  rw (
    le→leb params.data_bit_width 256 (omega (arith, beat.width, beat-le k beat.at_most_32)),
    le→leb _ _ max,
  ),
  record { tl_agent = record { info = name; p = params; p_set = true }; tl_params = params },
  refl,
  record { configured = record { is_set = refl; beat = beat }; cached = refl; max_le = max },
  beat_bytes k params beat,
  refl,
)
