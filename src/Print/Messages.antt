-- ===== src/Print/Messages.antt =====
-- `tlA_to_str` and `tlD_to_str` of sb_sim/include/tilelinklib.hpp.
use Prim.Native.String.{String}
use switchboard_adapter.Base.{
  ℕ, ◌+◌, ◌^◌, ◌≤◌, ◌<◌, ◌≡◌, ◌-◌, refl, zero, suc, List, [], ◌∷◌, ◌++◌, some, length,
  length-append, All, take, take-length, arith,
}
use switchboard_adapter.Base.Result.{ok}
use switchboard_adapter.Wire.{TlMessageA, TlMessageD, TlBundleParams, IsByte, IsWireA, IsWireD}
use switchboard_adapter.Agent.{TlAgent}
use switchboard_adapter.Agent.Mask.{IsBeat, beat-le}
use switchboard_adapter.Print.{
  codes, to_hex, to_string, get_opcode_a_str, get_opcode_d_str, snprintf, head_d, tl_a_to_str,
  tl_d_to_str, print_a, print_d,
}
use switchboard_adapter.Print.Numbers.{number_of, length-digits_text, number_of-digits_text}
use switchboard_adapter.Print.Bytes.{read_bytes, data_to_bytes_lem}

-- A label of 9 characters and a number of up to `w` digits fit a buffer of `9 + w + 1` bytes.
snprintf-fits :
    (size w n : ℕ) (label : List ℕ)
    → length label ≡ 9
    → 0 < w
    → n < 16 ^ w
    → 10 + w ≤ size
    → snprintf size (label ++ to_hex n) ≡ label ++ to_hex n
snprintf-fits size w n label nine pos h room = take-length (size - 1) (label ++ to_hex n) (
    omega (
      arith,
      length-append label (to_hex n),
      nine,
      room,
      length-digits_text 16 64 w n (omega arith) h pos,
    ))

number_of-to_hex : (n : ℕ) → n < 2 ^ 64 → number_of 16 (to_hex n) ≡ some n
number_of-to_hex n h =
    number_of-digits_text 16 64 n (omega arith) (omega arith) (omega arith) (omega arith)

number_of-to_string : (n : ℕ) → n < 2 ^ 64 → number_of 10 (to_string n) ≡ some n
number_of-to_string n h =
    number_of-digits_text 10 64 n (omega arith) (omega arith) (omega arith) (omega arith)

-- The names of the opcodes, in the order of the TileLink specification.
abbrev pub name_of : List String → ℕ → String
name_of [] n = "Unknown"
name_of (name ∷ names) zero = name
name_of (name ∷ names) (suc n) = name_of names n

abbrev pub names_a : List String
names_a = "PutFullData" ∷ "PutPartialData" ∷ "ArithmeticData" ∷ "LogicalData" ∷ "Get" ∷ "Hint" ∷ []

abbrev pub names_d : List String
names_d = "AccessAck" ∷ "AccessAckData" ∷ "HintAck" ∷ []

get_opcode_a_str_lem : (n : ℕ) → get_opcode_a_str n ≡ codes (name_of names_a n)
unfolding get_opcode_a_str
get_opcode_a_str_lem zero = refl
get_opcode_a_str_lem (suc zero) = refl
get_opcode_a_str_lem (suc (suc zero)) = refl
get_opcode_a_str_lem (suc (suc (suc zero))) = refl
get_opcode_a_str_lem (suc (suc (suc (suc zero)))) = refl
get_opcode_a_str_lem (suc (suc (suc (suc (suc zero))))) = refl
get_opcode_a_str_lem (suc (suc (suc (suc (suc (suc n)))))) = ground arith

get_opcode_d_str_lem : (n : ℕ) → get_opcode_d_str n ≡ codes (name_of names_d n)
unfolding get_opcode_d_str
get_opcode_d_str_lem zero = refl
get_opcode_d_str_lem (suc zero) = refl
get_opcode_d_str_lem (suc (suc zero)) = refl
get_opcode_d_str_lem (suc (suc (suc n))) = ground arith

-- The text of a request: the name of its opcode, its fields behind their labels, in decimal digits but
-- for the address and the mask, which are in hexadecimal digits, and the bytes of its beat.
pub record ShowsA (k : ℕ) (a : TlMessageA) (text : List ℕ) : Type 0 where
  pub param : List ℕ
  pub size : List ℕ
  pub source : List ℕ
  pub corrupt : List ℕ
  pub address : List ℕ
  pub mask : List ℕ
  pub bytes : List ℕ
  pub layout :
      text
      ≡ (codes "TL-A[op="
          ++ (codes (name_of names_a a.opcode)
              ++ (codes ", param="
                  ++ (param
                      ++ (codes ", size="
                          ++ (size
                              ++ (codes ", source="
                                  ++ (source ++ (codes ", corrupt=" ++ corrupt)))))))))
        ++ ((codes ", addr=0x" ++ address)
            ++ ((codes ", mask=0x" ++ mask) ++ (codes ", data=" ++ (bytes ++ codes "]"))))
  pub param_shown : number_of 10 param ≡ some a.param
  pub size_shown : number_of 10 size ≡ some a.size
  pub source_shown : number_of 10 source ≡ some a.source
  pub corrupt_shown : number_of 10 corrupt ≡ some a.corrupt
  pub address_shown : number_of 16 address ≡ some a.address
  pub mask_shown : number_of 16 mask ≡ some a.mask
  pub bytes_shown : read_bytes bytes ≡ some (take (2 ^ k) a.payload)

-- The text of a response, with all fields in decimal digits.
pub record ShowsD (k : ℕ) (d : TlMessageD) (text : List ℕ) : Type 0 where
  pub param : List ℕ
  pub size : List ℕ
  pub source : List ℕ
  pub sink : List ℕ
  pub corrupt : List ℕ
  pub denied : List ℕ
  pub bytes : List ℕ
  pub layout :
      text
      ≡ (codes "TL-D[op="
          ++ (codes (name_of names_d d.opcode)
              ++ (codes ", param="
                  ++ (param
                      ++ (codes ", size="
                          ++ (size
                              ++ (codes ", source="
                                  ++ (source
                                      ++ (codes ", sink="
                                          ++ (sink
                                              ++ (codes ", corrupt="
                                                  ++ (corrupt
                                                      ++ (codes ", denied=" ++ denied)))))))))))))
        ++ (codes ", data=" ++ (bytes ++ codes "]"))
  pub param_shown : number_of 10 param ≡ some d.param
  pub size_shown : number_of 10 size ≡ some d.size
  pub source_shown : number_of 10 source ≡ some d.source
  pub sink_shown : number_of 10 sink ≡ some d.sink
  pub corrupt_shown : number_of 10 corrupt ≡ some d.corrupt
  pub denied_shown : number_of 10 denied ≡ some d.denied
  pub bytes_shown : read_bytes bytes ≡ some (take (2 ^ k) d.payload)

-- The parts of a request's text that are put together.
abbrev parts_a : TlMessageA → List ℕ → List ℕ → List ℕ → List ℕ → List ℕ
parts_a a name address mask bytes =
    (codes "TL-A[op="
      ++ (name
          ++ (codes ", param="
              ++ (to_string a.param
                  ++ (codes ", size="
                      ++ (to_string a.size
                          ++ (codes ", source="
                              ++ (to_string a.source
                                  ++ (codes ", corrupt=" ++ to_string a.corrupt)))))))))
    ++ (address ++ (mask ++ (codes ", data=" ++ (bytes ++ codes "]"))))

abbrev text_a : TlMessageA → List ℕ → List ℕ
text_a a bytes =
    parts_a a (get_opcode_a_str a.opcode) (snprintf 32 (codes ", addr=0x" ++ to_hex a.address))
      (snprintf 20 (codes ", mask=0x" ++ to_hex a.mask)) bytes

abbrev text_d : TlMessageD → List ℕ → List ℕ
text_d d bytes = head_d d ++ (codes ", data=" ++ (bytes ++ codes "]"))

-- For a message whose fields fit their C types, and a link with beats of `2 ^ k` bytes, up to 32, both
-- texts are made, and no buffer is too short: a text has the name of the opcode and each field behind its
-- label as digits from which the field is read back, hexadecimal ones for address and mask of a
-- request and decimal ones for the others, and at the end the bytes of the beat.
pub messages_text_lem :
    (k : ℕ) (a : TlMessageA) (d : TlMessageD) (p : TlBundleParams)
    → IsBeat k p
    → IsWireA a
    → IsWireD d
    → ((text : List ℕ) × (tl_a_to_str a p ≡ ok text) × ShowsA k a text)
      × ((text : List ℕ) × (tl_d_to_str d p ≡ ok text) × ShowsD k d text)
unfolding tl_a_to_str tl_d_to_str
messages_text_lem k a d p beat wa wd =
    let small : 2 ^ k ≤ 32 = beat-le k beat.at_most_32 in
    let (data_a, runs_a, len_a, read_a) =
      data_to_bytes_lem k a.payload (omega (arith, wa.payload_length)) wa.payload_bytes in
    let (data_d, runs_d, len_d, read_d) =
      data_to_bytes_lem k d.payload (omega (arith, wd.payload_length)) wd.payload_bytes in
    (
      (
        text_a a data_a,
        rw (beat.width, runs_a) refl,
        record {
          param = to_string a.param;
          size = to_string a.size;
          source = to_string a.source;
          corrupt = to_string a.corrupt;
          address = to_hex a.address;
          mask = to_hex a.mask;
          bytes = data_a;
          layout = λ i.
              parts_a a (get_opcode_a_str_lem a.opcode i) (address_fits i) (mask_fits i) data_a;
          param_shown = number_of-to_string a.param (omega (arith, wa.param_fits));
          size_shown = number_of-to_string a.size (omega (arith, wa.size_fits));
          source_shown = number_of-to_string a.source (omega (arith, wa.source_fits));
          corrupt_shown = number_of-to_string a.corrupt (omega (arith, wa.corrupt_fits));
          address_shown = number_of-to_hex a.address wa.address_fits;
          mask_shown = number_of-to_hex a.mask (omega (arith, wa.mask_fits));
          bytes_shown = read_a;
        },
      ),
      (
        text_d d data_d,
        rw (beat.width, runs_d) refl,
        record {
          param = to_string d.param;
          size = to_string d.size;
          source = to_string d.source;
          sink = to_string d.sink;
          corrupt = to_string d.corrupt;
          denied = to_string d.denied;
          bytes = data_d;
          layout = rw (get_opcode_d_str_lem d.opcode);
          param_shown = number_of-to_string d.param (omega (arith, wd.param_fits));
          size_shown = number_of-to_string d.size (omega (arith, wd.size_fits));
          source_shown = number_of-to_string d.source (omega (arith, wd.source_fits));
          sink_shown = number_of-to_string d.sink (omega (arith, wd.sink_fits));
          corrupt_shown = number_of-to_string d.corrupt (omega (arith, wd.corrupt_fits));
          denied_shown = number_of-to_string d.denied (omega (arith, wd.denied_fits));
          bytes_shown = read_d;
        },
      ),
    )
  where
    address_fits :
        snprintf 32 (codes ", addr=0x" ++ to_hex a.address) ≡ codes ", addr=0x" ++ to_hex a.address
    address_fits =
        snprintf-fits 32 16 a.address (codes ", addr=0x") refl (omega arith)
          (omega (arith, wa.address_fits)) (omega arith)

    mask_fits :
        snprintf 20 (codes ", mask=0x" ++ to_hex a.mask) ≡ codes ", mask=0x" ++ to_hex a.mask
    mask_fits =
        snprintf-fits 20 8 a.mask (codes ", mask=0x") refl (omega arith)
          (omega (arith, wa.mask_fits)) (omega arith)

-- The text of a request is made, whatever its fields.
pub tl_a_to_str-ok :
    (k : ℕ) (a : TlMessageA) (p : TlBundleParams)
    → IsBeat k p
    → length a.payload ≡ 32
    → All IsByte a.payload
    → (text : List ℕ) × (tl_a_to_str a p ≡ ok text)
unfolding tl_a_to_str
tl_a_to_str-ok k a p beat len bytes =
    let small : 2 ^ k ≤ 32 = beat-le k beat.at_most_32 in
    let (beat_text, runs, _, _) = data_to_bytes_lem k a.payload (omega (arith, len)) bytes in
    (text_a a beat_text, rw (beat.width, runs) refl)

-- And that of a response.
pub tl_d_to_str-ok :
    (k : ℕ) (d : TlMessageD) (p : TlBundleParams)
    → IsBeat k p
    → length d.payload ≡ 32
    → All IsByte d.payload
    → (text : List ℕ) × (tl_d_to_str d p ≡ ok text)
unfolding tl_d_to_str
tl_d_to_str-ok k d p beat len bytes =
    let small : 2 ^ k ≤ 32 = beat-le k beat.at_most_32 in
    let (beat_text, runs, _, _) = data_to_bytes_lem k d.payload (omega (arith, len)) bytes in
    (text_d d beat_text, rw (beat.width, runs) refl)

-- And what the agents print of them.
pub print_a-ok :
    (k : ℕ) (agent : TlAgent) (a : TlMessageA)
    → IsBeat k agent.p
    → length a.payload ≡ 32
    → All IsByte a.payload
    → (line : List ℕ) × (print_a agent a ≡ ok line)
unfolding print_a
print_a-ok k agent a beat len bytes =
    let (text, runs) = tl_a_to_str-ok k a agent.p beat len bytes in
    (codes agent.info ++ (codes ":" ++ text), rw runs)

pub print_d-ok :
    (k : ℕ) (agent : TlAgent) (d : TlMessageD)
    → IsBeat k agent.p
    → length d.payload ≡ 32
    → All IsByte d.payload
    → (line : List ℕ) × (print_d agent d ≡ ok line)
unfolding print_d
print_d-ok k agent d beat len bytes =
    let (text, runs) = tl_d_to_str-ok k d agent.p beat len bytes in
    (codes agent.info ++ (codes ":" ++ text), rw runs)
