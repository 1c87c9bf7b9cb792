-- ===== src/Bond/Frame/Tests.antt =====
-- Runs of the frame codec, and its theorems at concrete frames.
use tamizdat.Bond.Frame.{
  BondFrame, encode, decode, bad_type, too_short, latency_lane, ok, err, IsFrame,
}
use tamizdat.Bond.Frame.RoundTrip.{decode-encode, encode-decode}
use tamizdat.Prelude.{◌∷◌, ◌≡◌, [], arith, refl, none, some, true}
use tamizdat.Prelude.Bytes.{Bytes}

abbrev ping : BondFrame
ping = record { typ = 5; flags = 1; seq = 258; payload = 7 ∷ 8 ∷ [] }

abbrev wire : Bytes
wire = b'T' ∷ b'Z' ∷ b'B' ∷ b'2' ∷ 2 ∷ 5 ∷ 0 ∷ 1 ∷ 0 ∷ 0 ∷ 0 ∷ 0 ∷ 0 ∷ 0 ∷ 1 ∷ 2 ∷ 7 ∷ 8 ∷ []

encode-ping : encode ping ≡ ok wire
unfolding encode
encode-ping = refl

decode-wire : decode wire ≡ ok ping
unfolding decode
decode-wire = refl

refusals :
    (decode (1 ∷ 2 ∷ []) ≡ err too_short)
    × (encode (record ping { typ = 8 }) ≡ err bad_type)
    × (latency_lane 3 ≡ none)
    × (latency_lane 1 ≡ some true)
unfolding decode encode latency_lane
refusals = (refl, refl, refl, refl)

decode-encode_example : (buf : Bytes) × (encode ping ≡ ok buf) × (decode buf ≡ ok ping)
decode-encode_example = decode-encode ping (omega arith)

encode-decode_example : (encode ping ≡ ok wire) × IsFrame ping
encode-decode_example = encode-decode wire ping (omega arith) decode-wire
