-- ===== src/Mux.antt =====
-- The frames of the stream multiplexer over TURN: internal/transport/vkturn/mux.go, `encodeFrame`, `decodeFrame` and
-- the loop of `muxStream.Write`, with `readRawFrame` of server.go and `maxFramePayload` of vkturn.go.
-- A connection is the bytes that are still to be read from it; a read of too few bytes is an error, as is a
-- payload that is too large.
pub mod RoundTrip
pub mod Session
pub mod Table
pub mod Runs
pub mod Loop
pub mod Closing
pub mod Waiting
pub mod Ends
pub mod Reading
pub mod Arrival
mod Tests
use tamizdat.Prelude.{
  ℕ, Option, if◌then◌else◌, ltb, take, ◌==◌, none, suc, length, drop, ◌||◌, some, ◌+◌, ◌∷◌, get_or,
  [], min, ◌++◌, zero,
}
use tamizdat.Prelude.Bytes.{Bytes, from_be, be_bytes}

abbrev pub frame_data : ℕ
frame_data = 0x20

abbrev pub frame_header_len : ℕ
frame_header_len = 7

abbrev pub default_max_frame_payload : ℕ
default_max_frame_payload = 1150

-- `frame`.
pub record Frame : Type 0 where
  pub typ : ℕ
  pub stream_id : ℕ
  pub payload : Bytes

-- `encodeFrame`.
pub encode_frame : ℕ → ℕ → Bytes → Option Bytes
encode_frame typ sid payload =
    if ltb 0xffff (length payload)
    then none
    else some (typ ∷ (be_bytes 4 sid ++ (be_bytes 2 (length payload) ++ payload)))

-- `buf[5:7]` as a number.
abbrev pub payload_len : Bytes → ℕ
payload_len buf = from_be (take 2 (drop 5 buf))

-- `decodeFrame`.
pub decode_frame : Bytes → Option Frame
decode_frame buf =
    if ltb (length buf) frame_header_len || ltb (length buf) (frame_header_len + payload_len buf)
    then none
    else some (record {
      typ = get_or buf 0 0;
      stream_id = from_be (take 4 (drop 1 buf));
      payload = take (payload_len buf) (drop 7 buf);
    })

-- `readRawFrame`: the frame, and the bytes behind it.
pub read_raw_frame : Bytes → Option (Frame × Bytes)
unfolding decode_frame
read_raw_frame conn =
    if ltb (length conn) frame_header_len || ltb (length conn) (frame_header_len + payload_len conn)
    then none
    else elim (decode_frame (take (frame_header_len + payload_len conn) conn)) [
      | none ↦ none
      | some f ↦ some (f, drop (frame_header_len + payload_len conn) conn)
    ]

-- `maxFramePayload`, of a number that is not negative.
pub max_frame_payload : ℕ → ℕ
max_frame_payload n =
    if n == 0 || ltb default_max_frame_payload n
    then default_max_frame_payload
    else if ltb n 256
    then 256
    else n

-- The loop of `Write` on the bytes that are left: what it writes to the connection. Each round writes a
-- byte at least, so one round more than bytes is enough.
pub write_rounds : ℕ → ℕ → ℕ → Bytes → Option Bytes
unfolding encode_frame
write_rounds zero limit sid p = none
write_rounds (suc fuel) limit sid p =
    if length p == 0
    then some []
    else let n = min (length p) limit in
      elim (encode_frame frame_data sid (take n p)) [
        | none ↦ none
        | some buf ↦ elim (write_rounds fuel limit sid (drop n p)) [
          | none ↦ none
          | some more ↦ some (buf ++ more)
        ]
      ]

-- `Write` of a stream that is open and has no deadline.
pub write : ℕ → ℕ → Bytes → Option Bytes
unfolding write_rounds
write limit sid p = write_rounds (suc (length p)) limit sid p
