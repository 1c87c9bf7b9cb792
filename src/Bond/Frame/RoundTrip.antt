-- ===== src/Bond/Frame/RoundTrip.antt =====
-- Decoding what `encode` wrote, and encoding what `decode` read.
use tamizdat.Prelude.{◌∷◌, ◌++◌, ok, ◌≡◌, arith, true, [], refl}
use tamizdat.Prelude.Bytes.{
  Bytes, be_bytes, from_be-be_bytes, AllBytes, be_bytes-from_be, from_be-lt,
}
use tamizdat.Bond.Frame.{BondFrame, IsFrame, encode, decode, bond_magic, same_bytes}

-- `decodeBondFrame` gives back every frame that the wire can carry.
pub decode-encode :
    (f : BondFrame) → IsFrame f → (buf : Bytes) × (encode f ≡ ok buf) × (decode buf ≡ ok f)
unfolding encode decode
decode-encode f v = (
  bond_magic ++ (2 ∷ f.typ ∷ (be_bytes 2 f.flags ++ (be_bytes 8 f.seq ++ f.payload))),
  ground arith,
  ground (arith, from_be-be_bytes 2 f.flags (omega arith), from_be-be_bytes 8 f.seq (omega arith)),
)

same_bytes-eq : (xs ys : Bytes) → same_bytes xs ys ≡ true → xs ≡ ys
unfolding same_bytes
same_bytes-eq [] [] h = refl
same_bytes-eq [] (y ∷ ys) h = cc
same_bytes-eq (x ∷ xs) [] h = cc
same_bytes-eq (x ∷ xs) (y ∷ ys) h = ground (arith, same_bytes-eq xs ys)

-- What a datagram that `decode` accepts looks like.
module _ (f : BondFrame) where
  abbrev Reads : Bytes → Type 0
  Reads buf =
      (buf ≡ bond_magic ++ (2 ∷ f.typ ∷ (be_bytes 2 f.flags ++ (be_bytes 8 f.seq ++ f.payload))))
      × IsFrame f
      × AllBytes f.payload

  decode-Reads : (buf : Bytes) → AllBytes buf → decode buf ≡ ok f → Reads buf
  unfolding decode
  decode-Reads (a ∷ b ∷ c ∷ d ∷ v ∷ t ∷ g ∷ h ∷ i ∷ j ∷ k ∷ l ∷ m ∷ n ∷ o ∷ p ∷ rest) hb e =
      let fl = g ∷ h ∷ [] in
      let sq = i ∷ j ∷ k ∷ l ∷ m ∷ n ∷ o ∷ p ∷ [] in
      (
        ground (
          arith,
          be_bytes-from_be fl (omega arith),
          be_bytes-from_be sq (omega arith),
          same_bytes-eq (a ∷ b ∷ c ∷ d ∷ []) bond_magic,
        ),
        ground (arith, from_be-lt fl (omega arith), from_be-lt sq (omega arith)),
        ground arith,
      )
  decode-Reads _ hb e = absurd (cc)

-- A datagram that `decodeBondFrame` accepts is what `encodeBondFrame` writes for the frame read.
pub encode-decode :
    (buf : Bytes) (f : BondFrame)
    → AllBytes buf
    → decode buf ≡ ok f
    → (encode f ≡ ok buf) × IsFrame f
unfolding encode
encode-decode buf f hb e = let (shape, v, _) = decode-Reads f buf hb e in (ground arith, v)
