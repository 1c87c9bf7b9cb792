-- ===== src/Mux/RoundTrip.antt =====
-- What `Write` puts on the connection is read back as it was written.
use tamizdat.Prelude.{false, ◌==◌}
use tamizdat.Mux.{
  Frame, frame_data, default_max_frame_payload, frame_header_len, payload_len, encode_frame,
  decode_frame, read_raw_frame, max_frame_payload, write_rounds, write,
}
use tamizdat.Prelude.{
  ℕ, ◌∷◌, ◌<◌, ◌^◌, ◌++◌, length, ◌≡◌, some, arith, length-append, take-append, drop-append, take,
  ◌+◌, [], suc, ◌≤◌, ap, min, sym, length-take, refl, ◌∙◌, drop, length-drop, le→ltb,
  take-append-drop, zero,
}
use tamizdat.Prelude.Bytes.{Bytes, be_bytes, from_be, from_be-be_bytes}
use mathlib.Core.Path.{subst}

abbrev framed : ℕ → ℕ → Bytes → Bytes
framed typ sid payload = typ ∷ (be_bytes 4 sid ++ (be_bytes 2 (length payload) ++ payload))

take_all : (xs : Bytes) → take (length xs) xs ≡ xs
take_all [] = refl
take_all (x ∷ xs) = ap (λ (t : Bytes). x ∷ t) (take_all xs)

decode_framed :
    (typ sid : ℕ) (payload : Bytes)
    → sid < 2 ^ 32
    → length payload < 65536
    → decode_frame (framed typ sid payload)
      ≡ some (record { typ = typ; stream_id = sid; payload = payload })
unfolding decode_frame
decode_framed typ sid payload hs hp =
    let e : from_be (be_bytes 2 (length payload)) ≡ length payload =
      from_be-be_bytes 2 (length payload) hp in
    ground (arith, e, from_be-be_bytes 4 sid hs, take_all payload)

-- A connection that starts with a whole frame gives that frame.
read_whole :
    (buf rest : Bytes) (f : Frame)
    → length buf ≡ frame_header_len + payload_len (buf ++ rest)
    → decode_frame buf ≡ some f
    → read_raw_frame (buf ++ rest) ≡ some (f, rest)
unfolding read_raw_frame
read_whole buf rest f h d =
    let n = frame_header_len + payload_len (buf ++ rest) in
    let t : take n (buf ++ rest) ≡ buf =
      ap (λ (k : ℕ). take k (buf ++ rest)) (sym h) ∙ take-append buf rest in
    let q : drop n (buf ++ rest) ≡ rest =
      ap (λ (k : ℕ). drop k (buf ++ rest)) (sym h) ∙ drop-append buf rest in
    let whole = length-append buf rest in
    rw (
      le→ltb (length (buf ++ rest)) frame_header_len (omega (arith, h, whole)),
      le→ltb (length (buf ++ rest)) n (omega (arith, h, whole)),
      t,
      d,
      q,
      read_raw_frame,
    )

read_framed :
    (typ sid : ℕ) (payload rest : Bytes)
    → sid < 2 ^ 32
    → length payload < 65536
    → read_raw_frame (framed typ sid payload ++ rest)
      ≡ some (record { typ = typ; stream_id = sid; payload = payload }, rest)
read_framed typ sid payload rest hs hp =
    let e : from_be (be_bytes 2 (length payload)) ≡ length payload =
      from_be-be_bytes 2 (length payload) hp in
    read_whole (framed typ sid payload) rest _ (omega (arith, e))
      (decode_framed typ sid payload hs hp)

-- The bytes on a connection carry the text to a stream: they are frames of data for it, none empty and none
-- longer than the limit, whose payloads one behind the other are the text.
pub data Carries (limit sid : ℕ) : Bytes → Bytes → Type 0 where
  nothing : Carries limit sid [] []
  frame_of :
      {conn rest more : Bytes} (chunk : Bytes)
      → read_raw_frame conn
        ≡ some (record { typ = frame_data; stream_id = sid; payload = chunk }, rest)
      → 0 < length chunk
      → length chunk ≤ limit
      → Carries limit sid rest more
      → Carries limit sid conn (chunk ++ more)

write_rounds-Carries :
    (fuel limit sid : ℕ) (p : Bytes)
    → length p < fuel
    → 0 < limit
    → limit < 65536
    → sid < 2 ^ 32
    → (conn : Bytes) × (write_rounds fuel limit sid p ≡ some conn) × Carries limit sid conn p
unfolding write_rounds encode_frame
write_rounds-Carries zero limit sid p h l u hs = absurd (omega arith)
write_rounds-Carries (suc fuel) limit sid [] h l u hs = ([], refl, nothing)
write_rounds-Carries (suc fuel) limit sid (x ∷ p) h l u hs =
    let n = min (length (x ∷ p)) limit in
    let chunk = take n (x ∷ p) in
    let size : length chunk ≡ n = length-take n (x ∷ p) ∙ omega arith in
    let left = length-drop n (x ∷ p) in
    let ne : (length (x ∷ p) == 0) ≡ false = ground arith in
    let (conn, e, c) =
      write_rounds-Carries fuel limit sid (drop n (x ∷ p)) (omega (arith, left)) l u hs in
    (
      framed frame_data sid chunk ++ conn,
      rw (le→ltb 0xffff (length chunk) (omega (arith, size)), e, ne, write_rounds),
      subst (λ (t : Bytes). Carries limit sid (framed frame_data sid chunk ++ conn) t)
          (take-append-drop n (x ∷ p))
          (frame_of chunk (read_framed frame_data sid chunk conn hs (omega (arith, size)))
            (omega (arith, size)) (omega (arith, size)) c),
    )

-- The limit of a session is at least 256 and at most the default.
pub max_frame_payload_range :
    (n : ℕ) → (256 ≤ max_frame_payload n) × (max_frame_payload n ≤ default_max_frame_payload)
unfolding max_frame_payload
max_frame_payload_range n = ground arith

-- With the limit of a session and a stream's number below 2^32, `Write` ends and what it puts on the connection
-- carries the whole text: in frames of data for the stream, none empty and none longer than the limit.
pub write-Carries :
    (configured sid : ℕ) (p : Bytes)
    → sid < 2 ^ 32
    → (conn : Bytes) × (write (max_frame_payload configured) sid p ≡ some conn)
      × Carries (max_frame_payload configured) sid conn p
unfolding write
write-Carries configured sid p hs =
    let r = max_frame_payload_range configured in
    write_rounds-Carries (suc (length p)) (max_frame_payload configured) sid p (omega arith)
      (omega (arith, r)) (omega (arith, r)) hs
