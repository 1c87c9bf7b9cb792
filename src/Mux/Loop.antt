-- ===== src/Mux/Loop.antt =====
-- `readLoop` of internal/transport/vkturn/mux.go over the bytes that the connection will give: it ends the session
-- when no whole frame is left, and it stops where a full channel makes it wait. Each round reads the 7 bytes of a
-- header at least, so one round more than bytes is enough.
use tamizdat.Mux.{Frame, read_raw_frame, decode_frame, frame_header_len, payload_len}
use tamizdat.Mux.Session.{Session, Handled, done, blocked, handle_frame, close_with_error}
use tamizdat.Prelude.{
  ℕ, Bool, zero, suc, Option, none, some, ◌≡◌, ◌<◌, length, arith, length-drop, inl, inr,
  Bool-cases, Option-cases, ltb, ◌||◌, ◌+◌, take,
}
use tamizdat.Prelude.Bytes.{Bytes}

-- The rounds; `takes` says of each round whether the connection takes its writes.
unfoldable pub read_rounds : ℕ → (ℕ → Bool) → Bytes → Session → Option Handled
unfolding handle_frame read_raw_frame close_with_error
read_rounds zero takes conn s = none
read_rounds (suc fuel) takes conn s = elim (read_raw_frame conn) [
  | none ↦ some (done (close_with_error s))
  | some (f, rest) ↦ elim (handle_frame (takes fuel) f s) [
    | done t ↦ read_rounds fuel takes rest t
    | blocked ↦ some blocked
  ]
]

unfoldable pub read_loop : (ℕ → Bool) → Bytes → Session → Option Handled
unfolding read_rounds
read_loop takes conn s = read_rounds (suc (length conn)) takes conn s

-- A frame that is read takes its header at least.
pub length-read_raw_frame :
    (conn rest : Bytes) (f : Frame)
    → read_raw_frame conn ≡ some (f, rest)
    → length rest < length conn
unfolding read_raw_frame
length-read_raw_frame conn rest f e =
    elim (Bool-cases (
      ltb (length conn) frame_header_len
      || ltb (length conn) (frame_header_len + payload_len conn))) [
        | inl g ↦ grind (arith, e, g)
        | inr g ↦
            elim (Option-cases (decode_frame (take (frame_header_len + payload_len conn) conn))) [
              | inl d ↦ grind (arith, e, g, d)
              | inr (x, d) ↦
                  grind (arith, e, g, d, length-drop (frame_header_len + payload_len conn) conn)
            ]
      ]
