-- ===== src/RamClient/Ram.antt =====
-- A memory that keeps the contract of RamClient.Contract. It stands for no code of the repository.
use switchboard_adapter.Base.{
  ℕ, ◌-◌, ◌≡◌, ◌≢◌, refl, sym, ap, ◌∙◌, subst, Option, none, some, List, [], ◌∷◌, ◌++◌, replicate,
  All-replicate, if◌then◌else◌, arith,
}
use switchboard_adapter.Base.Memcpy.{in_range}
use switchboard_adapter.Wire.{TlMessageA, TlMessageD, IsByte, opcode_d, access_ack}
use switchboard_adapter.Wire.Codec.{decode_a, encode_d}
use switchboard_adapter.Wire.RoundTrip.{decode_a-encode_a}
use switchboard_adapter.Agent.Put.{byte_at}
use switchboard_adapter.Client.{Link}
use switchboard_adapter.MemIfc.Memory.{IsWriteAck}
use switchboard_adapter.RamClient.Contract.{IsRam}

pub record Ram : Type 0 where
  pub requests : List (List ℕ)
  pub answers : List (List ℕ)
  pub store : ℕ → ℕ

abbrev pub ack : TlMessageD
ack = record {
  opcode = opcode_d access_ack;
  param = 0;
  size = 2;
  corrupt = 0;
  source = 0;
  sink = 0;
  denied = 0;
  payload = replicate 32 0;
  reserved = replicate 7 0;
}

ack-IsWriteAck : IsWriteAck ack
ack-IsWriteAck = record {
  wire = record {
    opcode_fits = omega arith;
    param_fits = omega arith;
    size_fits = omega arith;
    corrupt_fits = omega arith;
    source_fits = omega arith;
    sink_fits = omega arith;
    denied_fits = omega arith;
    payload_length = refl;
    payload_bytes = All-replicate IsByte 32 0 (omega arith);
    reserved_length = refl;
    reserved_bytes = All-replicate IsByte 7 0 (omega arith);
  };
  opcode_is = refl;
  granted = refl;
}

abbrev stored : TlMessageA → (ℕ → ℕ) → ℕ → ℕ
stored m mem x = if in_range m.address 4 x then byte_at m.payload (x - m.address) else mem x

-- The memory serves the request that came first.
abbrev pub serve : List (List ℕ) → Ram → Ram
serve [] r = r
serve (p ∷ ps) r = record {
  requests = ps;
  answers = r.answers ++ (encode_d ack ∷ []);
  store = stored (decode_a p) r.store;
}

abbrev take_answer : List (List ℕ) → Ram → Option (List ℕ × Ram)
take_answer [] r = none
take_answer (p ∷ ps) r = some (p, record r { answers = ps })

abbrev pub ram_link : Link Ram
ram_link = record {
  send = λ p r. record r { requests = r.requests ++ (p ∷ []) };
  recv = λ r. take_answer r.answers r;
}

abbrev pub Serves : Ram → Ram → Type 0
Serves r later = (r.requests ≢ []) × (serve r.requests r ≡ later)

value : {A : Type 0} → A → Option A → A
value a none = a
value a (some b) = b

taken :
    (before ps : List (List ℕ)) (st : ℕ → ℕ) (p : List ℕ) (later : Ram)
    → take_answer before (record { requests = ps; answers = before; store = st }) ≡ some (p, later)
    → (before ≡ p ∷ later.answers) × (later.requests ≡ ps) × ((x : ℕ) → later.store x ≡ st x)
unfolding value
taken [] ps st p later e = absurd (cc e)
taken (a ∷ others) ps st p later e =
    let same : (a, record { requests = ps; answers = others; store = st }) ≡ (p, later) =
      ap (value (p, later)) e in
    (
      λ i. (same i).0 ∷ (same i).1.answers,
      sym (λ i. (same i).1.requests),
      λ x. sym (λ i. (same i).1.store x),
    )

none_left : (before : List (List ℕ)) (r : Ram) → take_answer before r ≡ none → before ≡ []
none_left [] r e = refl
none_left (a ∷ others) r e = absurd (cc e)

abbrev Served : Ram → Ram → TlMessageA → List (List ℕ) → Type 0
Served r later m ps =
    (d : TlMessageD) × IsWriteAck d
    × (later.requests ≡ ps)
    × (later.answers ≡ r.answers ++ (encode_d d ∷ []))
    × ((x : ℕ) → later.store x ≡ stored m r.store x)

unfoldable pub ram-IsRam : (capacity : ℕ) → IsRam ram_link Serves capacity
unfolding taken none_left ack-IsWriteAck
ram-IsRam capacity = record {
  requests = λ r. r.requests;
  answers = λ r. r.answers;
  mem = λ r. r.store;
  sent = λ p r. (refl, refl, λ x. refl);
  received = λ p r later e. taken r.answers r.requests r.store p later e;
  no_answer = λ r e. none_left r.answers r e;
  served = λ r later m ps serves front burst op size.
      subst (λ (x : Ram). Served r x m ps) (ap (λ q. serve q r) (sym front) ∙ serves.1)
        (
          ack,
          ack-IsWriteAck,
          refl,
          refl,
          λ x. ap (λ a. stored a r.store x) (decode_a-encode_a m burst.wire),
        );
  idle = λ r later serves. serves.0;
  busy = λ r some_left. (serve r.requests r, (some_left, refl));
}
