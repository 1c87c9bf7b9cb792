-- ===== src/DownPath/Wire.antt =====
-- The answer to a poll, as the client decodes it.
use tamizdat.DownPath.{DownFrame, encode_down_frame}
use tamizdat.DownPath.Receiver.{DownResult, decode_down}
use tamizdat.Prelude.Bytes.{Bytes, from_be-be_bytes}
use tamizdat.Prelude.{
  ℕ, some, ◌∷◌, [], length, take, if◌then◌else◌, arith, ◌≡◌, ◌≤◌, ◌<◌, ◌^◌, Bool-cases, inl, inr,
  refl, ap,
}

-- What a frame decodes to.
unfoldable pub result_of : DownFrame → DownResult
result_of f = record { seq = f.seq; buf = if f.eof then [] else f.bytes; eof = f.eof }

take_whole : (xs : Bytes) → take (length xs) xs ≡ xs
take_whole [] = refl
take_whole (x ∷ xs) = ap (λ (t : Bytes). x ∷ t) (take_whole xs)

-- A frame with a number below 2^32 and no more bytes than a payload is decoded as it was encoded.
pub decode_down-encode_down_frame :
    (max_payload : ℕ) (f : DownFrame)
    → f.seq < 2 ^ 32
    → length f.bytes ≤ max_payload
    → max_payload ≤ 480
    → decode_down max_payload (encode_down_frame f) ≡ some (result_of f)
unfolding decode_down encode_down_frame result_of
decode_down-encode_down_frame max_payload f h l m = elim (Bool-cases f.eof) [
  | inl e ↦ rw e (ground (arith, from_be-be_bytes 4 f.seq h))
  | inr e ↦
      let n = from_be-be_bytes 2 (length f.bytes) (omega arith) in
      rw e (ground (arith, n, from_be-be_bytes 4 f.seq h, take_whole f.bytes))
]
