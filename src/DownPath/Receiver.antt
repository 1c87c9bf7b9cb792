-- ===== src/DownPath/Receiver.antt =====
-- The client's side of internal/transport/fragpoc/client.go: the answer to a poll as `down` decodes it, and
-- `Conn.Read`, which puts the answers in order. Deadlines, errors of polls and the end of the connection are
-- outside: of the waits of `Read`, the one for `downCh` is modelled. `recvAck` always holds what `nextSeq` holds.
use tamizdat.Prelude.Assoc.{Assoc, lookup, insert, erase}
use tamizdat.Prelude.Bytes.{Bytes, from_be}
use tamizdat.Prelude.{
  ℕ, Bool, List, Option, none, some, ◌∷◌, [], length, take, drop, ltb, ◌==◌, if◌then◌else◌, not,
  ◌&&◌, ◌||◌, ◌%◌, ◌^◌, ◌+◌, true, false,
}

abbrev pub max_pending_frames : ℕ
max_pending_frames = 16

-- `downResult`.
pub record DownResult : Type 0 where
  pub seq : ℕ
  pub buf : Bytes
  pub eof : Bool

-- `down` on the bytes of an answer that was not sealed, where the connection ends behind them.
unfoldable pub decode_down : ℕ → Bytes → Option DownResult
decode_down max_payload plain =
    let seq = from_be (take 4 plain) in
    let n = from_be (take 2 (drop 4 plain)) in
    if ltb (length plain) 6
    then none
    else if n == 0xffff
    then some (record { seq = seq; buf = []; eof = true })
    else if ltb max_payload n
    then none
    else if n == 0
    then some (record { seq = seq; buf = []; eof = false })
    else if ltb (length plain) (6 + n)
    then none
    else some (record { seq = seq; buf = take n (drop 6 plain); eof = false })

-- The fields of `Conn` that `Read` keeps the order with.
pub record Receiver : Type 0 where
  pub read_buf : Bytes
  pub pending : Assoc Bytes
  pub next_seq : ℕ
  pub eof_seq : Option ℕ

-- How a round of `Read` goes on: with bytes, with the end, or with a wait.
pub data Head : Type 0 where
  holds : Head
  at_eof : Head
  waits : Head

abbrev pub is_at : ℕ → Option ℕ → Bool
is_at n none = false
is_at n (some m) = m == n

-- The head of the loop of `Read`.
unfoldable pub look : Receiver → Receiver × Head
unfolding lookup erase
look r = if not (length r.read_buf == 0) then (r, holds) else elim (lookup r.next_seq r.pending) [
  | some buf ↦ (
    record r {
      read_buf = buf;
      pending = erase r.next_seq r.pending;
      next_seq = (r.next_seq + 1) % 2 ^ 32;
    },
    holds,
  )
  | none ↦
      if is_at r.next_seq r.eof_seq
      then (record r { next_seq = (r.next_seq + 1) % 2 ^ 32 }, at_eof)
      else (r, waits)
]

-- The case of a result: the receiver, and whether `Read` ends with io.EOF.
unfoldable pub take_result : DownResult → Receiver → Receiver × Bool
unfolding lookup insert
take_result res r =
    let is_new : Bool = elim (lookup res.seq r.pending) [ some _ ↦ false | none ↦ true ] in
    if res.eof
    then if ltb res.seq r.next_seq then (r, true) else (record r { eof_seq = some res.seq }, false)
    else if length res.buf == 0 || ltb res.seq r.next_seq
    then (r, false)
    else if res.seq == r.next_seq
    then (record r { read_buf = res.buf; next_seq = (r.next_seq + 1) % 2 ^ 32 }, false)
    else if is_new && ltb (length r.pending) max_pending_frames
    then (record r { pending = insert res.seq res.buf r.pending }, false)
    else (r, false)

-- A round of `Read` behind the head of its loop, with the result that is next, what it makes of the receiver, and
-- the further rounds.
unfoldable pub round_from :
    Head
    → Receiver
    → DownResult
    → List DownResult
    → Receiver × Bool
    → (Receiver × List DownResult) × Head
    → (Receiver × List DownResult) × Head
round_from holds r res more taken rest = ((r, res ∷ more), holds)
round_from at_eof r res more taken rest = ((r, res ∷ more), at_eof)
round_from waits r res more taken rest = if taken.1 then ((taken.0, more), at_eof) else rest

-- The loop of `Read` on the results that wait: the receiver, the results left, and how it ends.
unfoldable pub read_loop : List DownResult → Receiver → (Receiver × List DownResult) × Head
unfolding look take_result round_from
read_loop [] r = (((look r).0, []), (look r).1)
read_loop (res ∷ more) r =
    let taken = take_result res (look r).0 in
    round_from (look r).1 (look r).0 res more taken (read_loop more taken.0)

-- The end of `Read`: the receiver, the results left, how it ended, and the bytes.
unfoldable pub hand_out :
    ℕ → Head → Receiver → List DownResult → (Receiver × List DownResult) × (Head × Bytes)
hand_out n holds r left =
    ((record r { read_buf = drop n r.read_buf }, left), (holds, take n r.read_buf))
hand_out n at_eof r left = ((r, left), (at_eof, []))
hand_out n waits r left = ((r, left), (waits, []))

-- `Read` of at most `n` bytes.
unfoldable pub read : ℕ → List DownResult → Receiver → (Receiver × List DownResult) × (Head × Bytes)
unfolding read_loop hand_out
read n results r = let o = read_loop results r in hand_out n o.1 o.0.0 o.0.1
