-- ===== src/DownPath.antt =====
-- How the bytes of a destination come down to the client of the polling transport. The server numbers the chunks,
-- keeps the last of them for retransmission and answers polls (internal/transport/fragpoc/server.go: downProducer,
-- pushReplay, findReplay, shouldRetransmit, nextDownResponse); the client decodes the answers and puts them in order
-- (fragpoc/client.go: down, Read), in the module Receiver. Each function is what runs without a wait, as one step:
-- polls that are answered at the same time are taken one after the other between their waits.
pub mod Receiver
pub mod Ring
pub mod LastFrames
pub mod Wire
pub mod Chunks
pub mod Parts
pub mod Frames
pub mod Network
pub mod Growth
pub mod Delivery
mod Tests
use tamizdat.Prelude.Bytes.{Bytes, be_bytes, from_be}
use tamizdat.Prelude.{
  ℕ, Bool, List, Option, none, some, ◌∷◌, [], ◌++◌, length, take, drop, get_or, set, ltb, leb, ◌==◌,
  if◌then◌else◌, not, ◌&&◌, ◌||◌, ◌%◌, ◌^◌, ◌+◌, ◌-◌, suc, true, false, zero,
}

-- `downFrame`.
pub record DownFrame : Type 0 where
  pub seq : ℕ
  pub bytes : Bytes
  pub eof : Bool

abbrev pub no_frame : DownFrame
no_frame = record { seq = 0; bytes = []; eof = false }

abbrev pub replay_ring_size : ℕ
replay_ring_size = 32

-- The capacity of `frameCh`.
abbrev pub frame_capacity : ℕ
frame_capacity = 16

abbrev pub retransmit_gap : ℕ
retransmit_gap = 4

abbrev pub retransmit_after : ℕ
retransmit_after = 16

-- `replayRing`, `replayHead` and `replayLen`.
pub record ReplayRing : Type 0 where
  pub slots : List DownFrame
  pub head : ℕ
  pub count : ℕ

-- The fields of `session` on this path.
pub record Session : Type 0 where
  pub ring : ReplayRing
  pub channel : List DownFrame
  pub last_ack : ℕ
  pub served : ℕ

-- `replayRing[(replayHead + i) % replayRingSize]`.
unfoldable pub slot : ℕ → ReplayRing → DownFrame
slot i r = get_or r.slots ((r.head + i) % replay_ring_size) no_frame

-- `pushReplay`.
unfoldable pub push_replay : DownFrame → ReplayRing → ReplayRing
push_replay f r =
    let is_full = r.count == replay_ring_size in
    record {
      slots = set r.slots ((r.head + r.count) % replay_ring_size) f;
      head = if is_full then (r.head + 1) % replay_ring_size else r.head;
      count = if is_full then r.count else r.count + 1;
    }

-- The two loops of `findReplay`, from `i` on with the rounds left: the first frame with the number, and the first
-- with that number or a later one.
unfoldable pub find_exact : ℕ → ℕ → ℕ → ReplayRing → Option DownFrame
unfolding slot
find_exact zero i ack r = none
find_exact (suc left) i ack r =
    let rest = find_exact left (suc i) ack r in
    if (slot i r).seq == ack then some (slot i r) else rest

unfoldable pub find_closest : ℕ → ℕ → ℕ → ReplayRing → Option DownFrame
unfolding slot
find_closest zero i ack r = none
find_closest (suc left) i ack r =
    let rest = find_closest left (suc i) ack r in
    if leb ack (slot i r).seq then some (slot i r) else rest

-- `findReplay`.
unfoldable pub find_replay : ℕ → ReplayRing → Option DownFrame
unfolding find_exact find_closest slot
find_replay ack r = if r.count == 0 then none else elim (find_exact r.count 0 ack r) [
  | some f ↦ some f
  | none ↦ elim (find_closest r.count 0 ack r) [
    | some f ↦ some f
    | none ↦ some (slot (r.count - 1) r)
  ]
]

-- `shouldRetransmit`.
unfoldable pub should_retransmit : ℕ → Session → Session × Bool
should_retransmit ack s =
    if ltb s.last_ack ack
    then (record s { last_ack = ack; served = 1 }, false)
    else if ack == s.last_ack
    then (record s { served = s.served + 1 }, ltb retransmit_after (s.served + 1))
    else (s, false)

-- `encodeDownFrame`.
unfoldable pub encode_down_frame : DownFrame → Bytes
encode_down_frame f =
    if f.eof
    then be_bytes 4 f.seq ++ be_bytes 2 0xffff
    else be_bytes 4 f.seq ++ (be_bytes 2 (length f.bytes) ++ f.bytes)

-- A frame goes back to the channel, where it has room.
unfoldable pub put_back : DownFrame → Session → Session
put_back f s =
    if ltb (length s.channel) frame_capacity then record s { channel = s.channel ++ f ∷ [] } else s

-- What `nextDownResponse` answers with once it has taken a frame from the channel.
unfoldable pub answer : Bool → ℕ → DownFrame → Session → Session × DownFrame
unfolding find_replay put_back
answer should ack f s =
    if should && leb ((ack + retransmit_gap) % 2 ^ 32) f.seq
    then elim (find_replay ack s.ring) [
      | none ↦ (s, f)
      | some g ↦ if g.seq == ack then (put_back f s, g) else (s, f)
    ]
    else (s, f)

-- `nextDownResponse` from the frames of the channel to its answer, or `none` for an empty channel.
unfoldable pub respond_with : Bool → ℕ → Session → List DownFrame → Session × Option Bytes
unfolding answer encode_down_frame
respond_with should ack s [] = (s, none)
respond_with should ack s (f ∷ more) =
    let (s', g) = answer should ack f (record s { channel = more }) in
    (s', some (encode_down_frame g))

unfoldable pub respond_from_channel : Bool → ℕ → Session → Session × Option Bytes
unfolding respond_with
respond_from_channel should ack s = respond_with should ack s s.channel

-- Its answer from the ring, where the channel gave none.
unfoldable pub or_replay : ℕ → Session × Option Bytes → Session × Option Bytes
unfolding find_replay encode_down_frame
or_replay ack (s, some b) = (s, some b)
or_replay ack (s, none) = elim (find_replay ack s.ring) [
  | some f ↦ (s, some (encode_down_frame f))
  | none ↦ (s, none)
]

-- `nextDownResponse` up to its wait: an answer, or `none` for the wait.
unfoldable pub respond : ℕ → Session → Session × Option Bytes
unfolding should_retransmit respond_from_channel or_replay
respond ack s =
    let (s1, should) = should_retransmit ack s in or_replay ack (respond_from_channel should ack s1)

-- `nextDownResponse` behind a wait that has given up: what the channel holds by then, the ring, or an empty answer.
unfoldable pub respond_late : ℕ → Session → Session × Bytes
unfolding respond_with or_replay
respond_late ack s = elim (or_replay ack (respond_with false ack s s.channel)).1 [
  | some b ↦ ((respond_with false ack s s.channel).0, b)
  | none ↦ ((respond_with false ack s s.channel).0, be_bytes 4 ack ++ be_bytes 2 0)
]

-- A frame of `downProducer`; `takes` says whether the channel takes it in time.
unfoldable pub produce : Bool → DownFrame → Session → Session
unfolding push_replay
produce takes f s =
    let s' = record s { ring = push_replay f s.ring } in
    if takes then record s' { channel = s.channel ++ f ∷ [] } else s'
