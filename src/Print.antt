-- ===== src/Print.antt =====
-- The texts of sb_sim/include/tilelinklib.hpp for log output: `get_opcodeA_str`, `get_opcodeD_str`,
-- `data_to_bytes`, `tlA_to_str`, `tlD_to_str`, and the `print_a` and `print_d` of the agents. A text is the list of its characters' codes.
-- `std::to_string` and the formats `%02x`, `%x` and `%lx` of `snprintf` are written out.
pub mod Numbers
pub mod Bytes
pub mod Messages
pub mod Widths
pub mod Tests
use Prim.Native.Char.{code}
use Prim.Native.String.{String}
use switchboard_adapter.Base.{
  ℕ, zero, suc, ◌+◌, ◌-◌, ◌/◌, ◌%◌, List, [], ◌∷◌, ◌++◌, take, ltb, ◌==◌, ◌&&◌, not, bit_and, true,
  false, if◌then◌else◌,
}
use switchboard_adapter.Base.Result.{
  Result, ok, err, ◌>>=◌, ◌>>◌, check, print_width_not_bytes, print_width_not_pow2,
  undefined_behaviour,
}
use switchboard_adapter.Agent.{TlAgent}
use switchboard_adapter.Wire.{TlMessageA, TlMessageD, TlBundleParams}

-- The codes of a literal.
abbrev pub codes : String → List ℕ
codes String.[] = []
codes (String.◌∷◌ c s) = code c ∷ codes s

unfoldable pub get_opcode_a_str : ℕ → List ℕ
get_opcode_a_str opcode =
    if opcode == 0
    then codes "PutFullData"
    else if opcode == 1
    then codes "PutPartialData"
    else if opcode == 2
    then codes "ArithmeticData"
    else if opcode == 3
    then codes "LogicalData"
    else if opcode == 4
    then codes "Get"
    else if opcode == 5
    then codes "Hint"
    else codes "Unknown"

unfoldable pub get_opcode_d_str : ℕ → List ℕ
get_opcode_d_str opcode =
    if opcode == 0
    then codes "AccessAck"
    else if opcode == 1
    then codes "AccessAckData"
    else if opcode == 2
    then codes "HintAck"
    else codes "Unknown"

-- A digit of a base up to 16.
abbrev pub digit_char : ℕ → ℕ
digit_char d = if ltb d 10 then 48 + d else 87 + d

-- A number without leading zeros.
unfoldable pub digits_text : ℕ → ℕ → ℕ → List ℕ
digits_text base zero n = []
digits_text base (suc fuel) n = elim (ltb n base) [
  | true ↦ digit_char n ∷ []
  | false ↦ digits_text base fuel (n / base) ++ (digit_char (n % base) ∷ [])
]

-- A number of 64 bits has 64 digits at most, in any base.
abbrev pub to_string : ℕ → List ℕ
to_string n = digits_text 10 64 n

abbrev pub to_hex : ℕ → List ℕ
to_hex n = digits_text 16 64 n

-- What `snprintf` leaves in a buffer of `size` bytes, whose last one ends the text.
abbrev pub snprintf : ℕ → List ℕ → List ℕ
snprintf size text = take (size - 1) text

-- The loop of `data_to_bytes`: `left` bytes are still to come. The array ends with the list.
unfoldable pub bytes_text : ℕ → List ℕ → Result (List ℕ)
bytes_text zero bytes = ok []
bytes_text (suc left) [] = err undefined_behaviour
bytes_text (suc left) (b ∷ bytes) = do
  rest ← bytes_text left bytes
  let byte_str = snprintf 4 (digit_char (b / 16) ∷ digit_char (b % 16) ∷ [])
  let space = if left == 0 then [] else codes " "
  ok (byte_str ++ (space ++ rest))

unfoldable pub data_to_bytes : List ℕ → ℕ → Result (List ℕ)
data_to_bytes bytes data_width = do
  let num_bytes = data_width / 8
  check (data_width % 8 == 0) print_width_not_bytes
  check (not (num_bytes == 0) && (bit_and num_bytes (num_bytes - 1) == 0)) print_width_not_pow2
  text ← bytes_text num_bytes bytes
  ok (codes "[" ++ (text ++ codes "]"))

-- What comes before the fields that are printed in hexadecimal digits.
abbrev pub head_a : TlMessageA → List ℕ
head_a msg =
    codes "TL-A[op="
    ++ (get_opcode_a_str msg.opcode
        ++ (codes ", param="
            ++ (to_string msg.param
                ++ (codes ", size="
                    ++ (to_string msg.size
                        ++ (codes ", source="
                            ++ (to_string msg.source
                                ++ (codes ", corrupt=" ++ to_string msg.corrupt))))))))

abbrev pub head_d : TlMessageD → List ℕ
head_d msg =
    codes "TL-D[op="
    ++ (get_opcode_d_str msg.opcode
        ++ (codes ", param="
            ++ (to_string msg.param
                ++ (codes ", size="
                    ++ (to_string msg.size
                        ++ (codes ", source="
                            ++ (to_string msg.source
                                ++ (codes ", sink="
                                    ++ (to_string msg.sink
                                        ++ (codes ", corrupt="
                                            ++ (to_string msg.corrupt
                                                ++ (codes ", denied="
                                                    ++ to_string msg.denied))))))))))))

unfoldable pub tl_a_to_str : TlMessageA → TlBundleParams → Result (List ℕ)
tl_a_to_str msg p = do
  let addr_buf = snprintf 32 (codes ", addr=0x" ++ to_hex msg.address)
  let mask_buf = snprintf 20 (codes ", mask=0x" ++ to_hex msg.mask)
  text ← data_to_bytes msg.payload p.data_bit_width
  ok (head_a msg ++ (addr_buf ++ (mask_buf ++ (codes ", data=" ++ (text ++ codes "]")))))

unfoldable pub tl_d_to_str : TlMessageD → TlBundleParams → Result (List ℕ)
tl_d_to_str msg p = do
  text ← data_to_bytes msg.payload p.data_bit_width
  ok (head_d msg ++ (codes ", data=" ++ (text ++ codes "]")))

-- The line that an agent writes to the output: its label, a colon and the text.
unfoldable pub print_a : TlAgent → TlMessageA → Result (List ℕ)
print_a agent msg = do text ← tl_a_to_str msg agent.p; ok (codes agent.info ++ (codes ":" ++ text))

unfoldable pub print_d : TlAgent → TlMessageD → Result (List ℕ)
print_d agent msg = do text ← tl_d_to_str msg agent.p; ok (codes agent.info ++ (codes ":" ++ text))
