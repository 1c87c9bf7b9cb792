-- ===== src/BondServer/Frame.antt =====
-- The frames on the server's side: internal/wgturn/bond.go, `isBondPacket`, `encodeBondFrame` and `decodeBondFrame`.
-- The frame itself is that of the client.
pub mod Interop
mod Tests
use tamizdat.Bond.Frame.{
  BondFrame, bond_magic, bond_version, bond_header_len, frame_bind, frame_error,
}
use tamizdat.Prelude.Text.{text_eq}
use tamizdat.Prelude.Bytes.{Bytes, be_bytes, from_be}
use tamizdat.Prelude.{
  ℕ, Bool, ◌||◌, ◌&&◌, not, List, ◌∷◌, ◌++◌, Result, ok, err, length, take, drop, get_or, ltb, ◌==◌,
  if◌then◌else◌,
}

-- The errors of `encodeBondFrame` and `decodeBondFrame`, one for each message.
pub data FrameError : Type 0 where
  bad_type too_large bad_magic_or_length bad_version : FrameError

abbrev pub limit_of : ℕ → ℕ
limit_of typ = if typ == frame_bind then 4096 else 4096

-- `isBondPacket`.
unfoldable pub is_bond_packet : Bytes → Bool
unfolding text_eq
is_bond_packet p = not (ltb (length p) 4) && text_eq (take 4 p) bond_magic

-- `encodeBondFrame`.
unfoldable pub encode_bond_frame : BondFrame → Result FrameError Bytes
encode_bond_frame f =
    if ltb f.typ frame_bind || ltb frame_error f.typ
    then err bad_type
    else if ltb (limit_of f.typ) (length f.payload)
    then err too_large
    else ok (
        bond_magic
        ++ (bond_version ∷ f.typ ∷ (be_bytes 2 f.flags ++ (be_bytes 8 f.seq ++ f.payload))))

-- `decodeBondFrame`.
unfoldable pub decode_bond_frame : Bytes → Result FrameError BondFrame
decode_bond_frame p =
    let typ = get_or p 5 0 in
    let payload = drop bond_header_len p in
    if ltb (length p) bond_header_len || not (is_bond_packet p)
    then err bad_magic_or_length
    else if not (get_or p 4 0 == bond_version)
    then err bad_version
    else if ltb typ frame_bind || ltb frame_error typ
    then err bad_type
    else if ltb (limit_of typ) (length payload)
    then err too_large
    else ok (record {
      typ = typ;
      flags = from_be (take 2 (drop 6 p));
      seq = from_be (take 8 (drop 8 p));
      payload = payload;
    })
