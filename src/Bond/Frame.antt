-- ===== src/Bond/Frame.antt =====
-- The BONDv2 wire frames: internal/wgturnclient/bondv2.go, `encodeBondFrame` to `bondLatencyLane`.
-- A byte slice is a list of numbers below 256; a frame type is its byte.
pub mod RoundTrip
mod Tests
use tamizdat.Prelude.{
  ◌-◌, ℕ, ◌+◌, ◌<◌, ◌≤◌, ◌^◌, Bool, true, false, ◌&&◌, ◌||◌, not, List, [], ◌∷◌, ◌++◌, Option, none,
  some, Result, ok, err, length, take, drop, get_or, ltb, ◌==◌, if◌then◌else◌,
}
use tamizdat.Prelude.Bytes.{Bytes, be_bytes, from_be, AllBytes}
use Prim.Native.Nat.{bit_and, bit_xor}

-- The errors of `encodeBondFrame` and `decodeBondFrame`, one for each message.
pub data FrameError : Type 0 where
  bad_type too_large too_short bad_magic bad_version : FrameError

-- `bondFrame`.
pub record BondFrame : Type 0 where
  pub typ : ℕ
  pub flags : ℕ
  pub seq : ℕ
  pub payload : Bytes

abbrev pub bond_magic : Bytes
bond_magic = b'T' ∷ b'Z' ∷ b'B' ∷ b'2' ∷ []

abbrev pub bond_version : ℕ
bond_version = 2

abbrev pub bond_header_len : ℕ
bond_header_len = 16

abbrev pub bond_max_bind_json : ℕ
bond_max_bind_json = 4096

abbrev pub bond_max_data_payload : ℕ
bond_max_data_payload = 4096

abbrev pub bond_flag_latency : ℕ
bond_flag_latency = 1

-- `bondFrameBind` to `bondFrameError`.
abbrev pub frame_bind : ℕ
frame_bind = 1

abbrev pub frame_bind_wait : ℕ
frame_bind_wait = 2

abbrev pub frame_bind_ok : ℕ
frame_bind_ok = 3

abbrev pub frame_bind_config : ℕ
frame_bind_config = 4

abbrev pub frame_data : ℕ
frame_data = 5

abbrev pub frame_keepalive : ℕ
frame_keepalive = 6

abbrev pub frame_error : ℕ
frame_error = 7

unfoldable pub payload_limit : ℕ → ℕ
payload_limit typ = if typ == frame_bind then bond_max_bind_json else bond_max_data_payload

abbrev known_type : ℕ → Bool
known_type typ = not (ltb typ frame_bind || ltb frame_error typ)

-- `encodeBondFrame`.
unfoldable pub encode : BondFrame → Result FrameError Bytes
unfolding payload_limit
encode f =
    if not (known_type f.typ)
    then err bad_type
    else if ltb (payload_limit f.typ) (length f.payload)
    then err too_large
    else ok (
        bond_magic
        ++ (bond_version ∷ f.typ ∷ (be_bytes 2 f.flags ++ (be_bytes 8 f.seq ++ f.payload))))

unfoldable pub same_bytes : Bytes → Bytes → Bool
same_bytes [] [] = true
same_bytes (x ∷ xs) (y ∷ ys) = x == y && same_bytes xs ys
same_bytes _ _ = false

-- `decodeBondFrame`. `buf[4]` and `buf[5]` are read behind the length check, so no index panics.
unfoldable pub decode : Bytes → Result FrameError BondFrame
unfolding payload_limit same_bytes
decode buf =
    let typ = get_or buf 5 0 in
    let payload = drop bond_header_len buf in
    if ltb (length buf) bond_header_len
    then err too_short
    else if not (same_bytes (take 4 buf) bond_magic)
    then err bad_magic
    else if not (get_or buf 4 0 == bond_version)
    then err bad_version
    else if not (known_type typ)
    then err bad_type
    else if ltb (payload_limit typ) (length payload)
    then err too_large
    else ok (record {
      typ = typ;
      flags = from_be (take 2 (drop 6 buf));
      seq = from_be (take 8 (drop 8 buf));
      payload = payload;
    })

-- `bondFramePayload`: the control answers travel in the latency lane.
pub frame_payload : ℕ → Bytes → Result FrameError Bytes
frame_payload typ payload = encode (record {
  typ = typ;
  flags =
      if typ == frame_bind_wait
        || typ == frame_bind_ok
        || typ == frame_bind_config
        || typ == frame_error
      then bond_flag_latency
      else 0;
  seq = 0;
  payload = payload;
})

-- `bondLatencyLane`: `flags & ^bondFlagLatency` on 16 bits. `none` is a flag word that is refused.
pub latency_lane : ℕ → Option Bool
latency_lane flags =
    if not (bit_and flags (0xffff - bond_flag_latency) == 0)
    then none
    else some (not (bit_and flags bond_flag_latency == 0))

-- What the wire can carry: 16-bit flags, a 64-bit sequence number, a byte payload in its limit.
pub record IsFrame (f : BondFrame) : Type 0 where
  pub typ_low : 1 ≤ f.typ
  pub typ_high : f.typ ≤ 7
  pub flags_fit : f.flags < 2 ^ 16
  pub seq_fits : f.seq < 2 ^ 64
  pub payload_fits : length f.payload ≤ 4096
