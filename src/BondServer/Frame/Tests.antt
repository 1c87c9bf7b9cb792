-- ===== src/BondServer/Frame/Tests.antt =====
-- The frames of the server, and a frame between the ends.
use tamizdat.BondServer.Frame.{
  encode_bond_frame, decode_bond_frame, is_bond_packet, bad_magic_or_length,
}
use tamizdat.BondServer.Frame.Interop.{value, ends_agree}
use tamizdat.Bond.Frame
use tamizdat.Bond.Frame.{BondFrame}
use tamizdat.Prelude.Bytes.{Bytes}
use tamizdat.Prelude.{◌∷◌, ◌≡◌, [], refl, ok, err}

abbrev ready : BondFrame
ready = record { typ = 3; flags = 1; seq = 0; payload = 7 ∷ [] }

abbrev ready_bytes : Bytes
ready_bytes = b'T' ∷ b'Z' ∷ b'B' ∷ b'2' ∷ 2 ∷ 3 ∷ 0 ∷ 1 ∷ 0 ∷ 0 ∷ 0 ∷ 0 ∷ 0 ∷ 0 ∷ 0 ∷ 0 ∷ 7 ∷ []

decode-ready : decode_bond_frame ready_bytes ≡ ok ready
unfolding decode_bond_frame is_bond_packet
decode-ready = refl

decode-foreign : decode_bond_frame (1 ∷ 2 ∷ 3 ∷ []) ≡ err bad_magic_or_length
unfolding decode_bond_frame
decode-foreign = refl

ends_agree_example :
    (value (encode_bond_frame ready) ≡ value (Frame.encode ready))
    × (value (decode_bond_frame ready_bytes) ≡ value (Frame.decode ready_bytes))
ends_agree_example = ends_agree ready ready_bytes
