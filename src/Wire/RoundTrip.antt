-- ===== src/Wire/RoundTrip.antt =====
-- Packets of the messages of sb_sim/include/tilelinklib.h, decoded and encoded again.
use switchboard_adapter.Base.{
  ℕ, zero, suc, ◌+◌, ◌≤◌, ◌<◌, ◌≡◌, refl, sym, ap, ap₂, ◌∙◌, List, [], ◌∷◌, ◌++◌, length, take,
  drop, get_or, All, All-append, All-take, All-drop, length-append, length-take, length-drop,
  take-append, drop-append, take-length, take-append-drop, drop-drop, arith,
}
use switchboard_adapter.Wire.{TlMessageA, TlMessageD, IsWireA, IsWireD, IsByte}
use switchboard_adapter.Wire.Bytes.{
  le_bytes, from_le, length-le_bytes, All-le_bytes, from_le-le_bytes, le_bytes-from_le,
}
use switchboard_adapter.Wire.Codec.{encode_a, decode_a, encode_d, decode_d}

-- A Switchboard packet's data: 52 bytes.
pub record IsPacket (bytes : List ℕ) : Type 0 where
  pub length_52 : length bytes ≡ 52
  pub all_bytes : All IsByte bytes

header :
    (a b c d : ℕ) (bs : List ℕ)
    → IsByte a
    → IsByte b
    → IsByte c
    → IsByte d
    → All IsByte bs
    → All IsByte (a ∷ b ∷ c ∷ d ∷ bs)
header a b c d bs ha hb hc hd h = (ha, (hb, (hc, (hd, h))))

pub encode_a-IsPacket : (m : TlMessageA) → IsWireA m → IsPacket (encode_a m)
unfolding encode_a
encode_a-IsPacket m w = record {
  length_52 = omega (
    arith,
    length-append (le_bytes 4 m.source) (le_bytes 8 m.address ++ (le_bytes 4 m.mask ++ m.payload)),
    length-append (le_bytes 8 m.address) (le_bytes 4 m.mask ++ m.payload),
    length-append (le_bytes 4 m.mask) m.payload,
    length-le_bytes 4 m.source,
    length-le_bytes 8 m.address,
    length-le_bytes 4 m.mask,
    w.payload_length,
  );
  all_bytes =
      header m.opcode m.param m.size m.corrupt _ w.opcode_fits w.param_fits w.size_fits
        w.corrupt_fits
        (All-append IsByte _ _ (All-le_bytes 4 m.source) (
          All-append IsByte _ _ (All-le_bytes 8 m.address)
            (All-append IsByte _ _ (All-le_bytes 4 m.mask) w.payload_bytes)));
}

pub encode_d-IsPacket : (m : TlMessageD) → IsWireD m → IsPacket (encode_d m)
unfolding encode_d
encode_d-IsPacket m w = record {
  length_52 = omega (
    arith,
    length-append (le_bytes 4 m.source)
        (le_bytes 4 m.sink ++ (m.denied ∷ (m.payload ++ m.reserved))),
    length-append (le_bytes 4 m.sink) (m.denied ∷ (m.payload ++ m.reserved)),
    length-append m.payload m.reserved,
    length-le_bytes 4 m.source,
    length-le_bytes 4 m.sink,
    w.payload_length,
    w.reserved_length,
  );
  all_bytes =
      header m.opcode m.param m.size m.corrupt _ w.opcode_fits w.param_fits w.size_fits
        w.corrupt_fits
        (All-append IsByte _ _ (All-le_bytes 4 m.source) (
          All-append IsByte _ _ (All-le_bytes 4 m.sink)
            (w.denied_fits, All-append IsByte _ _ w.payload_bytes w.reserved_bytes)));
}

-- Encoding a message of the A channel whose fields fit their C types, and decoding the bytes,
-- gives the message back.
pub decode_a-encode_a : (m : TlMessageA) → IsWireA m → decode_a (encode_a m) ≡ m
unfolding encode_a decode_a le_bytes
decode_a-encode_a m w = λ i. record m {
  source = from_le-le_bytes 4 m.source w.source_fits i;
  address = from_le-le_bytes 8 m.address w.address_fits i;
  mask = from_le-le_bytes 4 m.mask w.mask_fits i;
  payload = take-length 32 m.payload (omega (arith, w.payload_length)) i;
}

-- So it is on the D channel.
pub decode_d-encode_d : (m : TlMessageD) → IsWireD m → decode_d (encode_d m) ≡ m
unfolding encode_d decode_d le_bytes
decode_d-encode_d m w = λ i. record m {
  source = from_le-le_bytes 4 m.source w.source_fits i;
  sink = from_le-le_bytes 4 m.sink w.sink_fits i;
  payload = take-append m.payload m.reserved 32 w.payload_length i;
  reserved = tail i;
}
  where
    tail : take 7 (drop 32 (m.payload ++ m.reserved)) ≡ m.reserved
    tail =
        ap (take 7) (drop-append m.payload m.reserved 32 w.payload_length)
        ∙ take-length 7 m.reserved (omega (arith, w.reserved_length))

-- The first four bytes, one by one, and the rest.
front :
    (bs : List ℕ)
    → 4 ≤ length bs
    → get_or bs 0 0 ∷ get_or bs 1 0 ∷ get_or bs 2 0 ∷ get_or bs 3 0 ∷ drop 4 bs ≡ bs
front (a ∷ b ∷ c ∷ d ∷ bs) h = refl
front _ h = absurd (omega arith)

-- A field of `n` bytes at `k`, decoded and encoded again, before what follows it.
refill :
    (n k end : ℕ) (bs rest : List ℕ)
    → All IsByte bs
    → k + n ≡ end
    → end ≤ length bs
    → rest ≡ drop end bs
    → le_bytes n (from_le (take n (drop k bs))) ++ rest ≡ drop k bs
refill n k end bs rest all e h r =
    ap₂ ◌++◌
      (le_bytes-from_le n (take n (drop k bs))
        (omega (arith, length-take n (drop k bs), length-drop k bs))
        (All-take IsByte n _ (All-drop IsByte k bs all)))
      (r ∙ ap (λ t. drop t bs) (sym e) ∙ sym (drop-drop n k bs))
    ∙ take-append-drop n (drop k bs)

drop-cons : (k : ℕ) (bs : List ℕ) → k < length bs → get_or bs k 0 ∷ drop (suc k) bs ≡ drop k bs
drop-cons k [] h = absurd (omega arith)
drop-cons zero (b ∷ bs) h = refl
drop-cons (suc k) (b ∷ bs) h = drop-cons k bs (omega arith)

tail_d :
    (bs : List ℕ)
    → length bs ≡ 52
    → get_or bs 12 0 ∷ (take 32 (drop 13 bs) ++ take 7 (drop 45 bs)) ≡ drop 12 bs
tail_d bs e =
    ap (λ t. get_or bs 12 0 ∷ (take 32 (drop 13 bs) ++ t))
      (take-length 7 (drop 45 bs) (omega (arith, e, length-drop 45 bs)) ∙ sym (drop-drop 32 13 bs))
    ∙ ap (◌∷◌ (get_or bs 12 0)) (take-append-drop 32 (drop 13 bs))
    ∙ drop-cons 12 bs (omega (arith, e))

-- Decoding 52 bytes and encoding the message again gives the bytes back, on the A channel
-- and on the D channel: no bit of a packet is lost.
pub encode-decode :
    (bs : List ℕ) → IsPacket bs → (encode_a (decode_a bs) ≡ bs) × (encode_d (decode_d bs) ≡ bs)
unfolding encode_a decode_a encode_d decode_d
encode-decode bs w = (
  ap (λ t. get_or bs 0 0 ∷ get_or bs 1 0 ∷ get_or bs 2 0 ∷ get_or bs 3 0 ∷ t)
        (refill 4 4 8 bs _ w.all_bytes refl (omega (arith, w.length_52)) (
          refill 8 8 16 bs _ w.all_bytes refl (omega (arith, w.length_52)) (
            refill 4 16 20 bs _ w.all_bytes refl (omega (arith, w.length_52))
              (take-length 32 (drop 20 bs) (omega (arith, w.length_52, length-drop 20 bs))))))
      ∙ front bs (omega (arith, w.length_52)),
  ap (λ t. get_or bs 0 0 ∷ get_or bs 1 0 ∷ get_or bs 2 0 ∷ get_or bs 3 0 ∷ t)
        (refill 4 4 8 bs _ w.all_bytes refl (omega (arith, w.length_52)) (
          refill 4 8 12 bs _ w.all_bytes refl (omega (arith, w.length_52)) (tail_d bs w.length_52)))
      ∙ front bs (omega (arith, w.length_52)),
)
