-- ===== src/Base/Result.antt =====
-- How a call of the C++ code ends: with a value, by a failed `assert` (named after its message),
-- by undefined behaviour, or never, where a blocking receive waits for a packet that does not come.
use switchboard_adapter.Base.{Bool, true, false}

pub data Error : Type 0 where
  params_already_set data_width_exceeds_256 data_width_not_byte_aligned : Error
  max_transfer_exceeds_4096 params_not_set lg_size_exceeds_4096 lg_size_exceeds_max_transfer : Error
  size_exceeds_data_width address_not_aligned_to_size print_width_not_bytes print_width_not_pow2 :
      Error
  address_not_beat_aligned below_minimum_chunk exceeds_maximum_chunk not_a_multiple_of_beat : Error
  floor_pow2_of_zero len_not_pow2 address_not_aligned_to_len len_below_beat : Error
  unexpected_opcode denied_by_target : Error
  corrupt_request wrong_byte : Error
  undefined_behaviour blocked out_of_fuel : Error

pub data Result {ℓ} (A : Type ℓ) : Type ℓ where
  ok : A → Result A
  err : Error → Result A

infixl 5 ◌>>◌ ◌>>=◌
-- What comes after a call that may fail.
abbrev pub ◌>>=◌ {ℓ κ} : {A : Type ℓ} {B : Type κ} → Result A → (A → Result B) → Result B
err failure >>= next = err failure
ok value >>= next = next value

abbrev pub ◌>>◌ {ℓ} : {B : Type ℓ} → Result (Unit {0}) → Result B → Result B
guard >> next = guard >>= λ done. next

-- `assert(b)`.
abbrev pub check : Bool → Error → Result (Unit {0})
check false failure = err failure
check true failure = ok tt
