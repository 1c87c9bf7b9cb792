-- ===== src/BondServer/Frame/Interop.antt =====
-- What one end writes, the other reads.
use tamizdat.BondServer.Frame.{is_bond_packet, encode_bond_frame, decode_bond_frame}
use tamizdat.Bond.Frame
use tamizdat.Bond.Frame.{BondFrame, bond_magic, same_bytes, payload_limit}
use tamizdat.Prelude.Text.{text_eq}
use tamizdat.Prelude.Bytes.{Bytes}
use tamizdat.Prelude.{
  Option, some, none, Result, ok, err, arith, ◌≡◌, refl, ◌∷◌, [], ltb, length, take, Bool-cases,
  inl, inr, false, true, ◌∙◌,
}

-- What a result holds, whatever its error.
abbrev pub value : {E A : Type 0} → Result E A → Option A
value (ok a) = some a
value (err e) = none

same_bytes-eq-text_eq : (a b : Bytes) → same_bytes a b ≡ text_eq a b
unfolding same_bytes text_eq
same_bytes-eq-text_eq [] [] = refl
same_bytes-eq-text_eq [] (y ∷ ys) = refl
same_bytes-eq-text_eq (x ∷ xs) [] = refl
same_bytes-eq-text_eq (x ∷ xs) (y ∷ ys) = rw (same_bytes-eq-text_eq xs ys) refl

-- A text behind the check for its length has the magic where the client finds it.
is_bond_packet-eq :
    (p : Bytes) → ltb (length p) 16 ≡ false → is_bond_packet p ≡ same_bytes (take 4 p) bond_magic
unfolding is_bond_packet
is_bond_packet-eq p h =
    let enough : ltb (length p) 4 ≡ false = ground arith in
    rw (enough, same_bytes-eq-text_eq (take 4 p) bond_magic) refl

encode-agrees : (f : BondFrame) → value (encode_bond_frame f) ≡ value (Frame.encode f)
unfolding encode_bond_frame Frame.encode
encode-agrees f = ground arith

decode-agrees : (p : Bytes) → value (decode_bond_frame p) ≡ value (Frame.decode p)
unfolding decode_bond_frame Frame.decode
decode-agrees p = elim (Bool-cases (ltb (length p) 16)) [
  | inl short ↦ rw short refl
  | inr long ↦ elim (Bool-cases (same_bytes (take 4 p) bond_magic)) [
    | inl magic ↦
        let server : is_bond_packet p ≡ true = is_bond_packet-eq p long ∙ magic in
        rw (long, magic, server) (ground arith)
    | inr other ↦
        let server : is_bond_packet p ≡ false = is_bond_packet-eq p long ∙ other in
        rw (long, other, server) refl
  ]
]

-- The two ends of the bond write the same bytes for a frame, or both refuse it, and read the same frame in any bytes,
-- or both refuse them.
pub ends_agree :
    (f : BondFrame) (p : Bytes)
    → (value (encode_bond_frame f) ≡ value (Frame.encode f))
      × (value (decode_bond_frame p) ≡ value (Frame.decode p))
ends_agree f p = (encode-agrees f, decode-agrees p)
