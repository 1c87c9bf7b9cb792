-- ===== src/Mux/Session.antt =====
-- The session of internal/transport/vkturn/mux.go, `muxSession`, and its streams, `muxStream`, as a store of
-- objects that the table points into: a stream that has left the table lives on with its users. Each function is
-- what runs without a wait; a wait on a full channel is `blocked`. `sent` is what was written to the connection,
-- and whether it takes a write is an argument.
use tamizdat.Mux.{Frame, frame_data, encode_frame}
use tamizdat.Prelude.{
  ℕ, Bool, if◌then◌else◌, List, [], ◌==◌, true, suc, none, Option, false, not, some, leb, ◌++◌, ◌+◌,
  length, ◌%◌, ◌∷◌, ◌^◌,
}
use tamizdat.Prelude.Assoc.{erase, insert, lookup, Assoc}
use tamizdat.Prelude.Bytes.{Bytes}

-- The other types of frames.
abbrev pub frame_open : ℕ
frame_open = 0x10

abbrev pub frame_open_ok : ℕ
frame_open_ok = 0x11

abbrev pub frame_open_err : ℕ
frame_open_err = 0x12

abbrev pub frame_close : ℕ
frame_close = 0x21

abbrev pub frame_ping : ℕ
frame_ping = 0x30

-- The capacity of `readCh`.
abbrev pub read_capacity : ℕ
read_capacity = 128

-- `muxStream`: `queue` is what `readCh` holds, `shut` is that `closeOnce` has run, and `replies` is what `openCh`
-- holds, `none` for a nil channel.
pub record Stream : Type 0 where
  pub id : ℕ
  pub queue : List Bytes
  pub left : Bytes
  pub shut : Bool
  pub replies : Option (List Bool)

-- `muxSession`: `handlers` are the streams that a handler was started for, with their destinations.
pub record Session : Type 0 where
  pub is_server : Bool
  pub streams : Assoc ℕ
  pub next_id : ℕ
  pub rr_closed : Bool
  pub objects : ℕ → Stream
  pub fresh : ℕ
  pub sent : Bytes
  pub handlers : List (ℕ × Bytes)

-- `newMuxStream`.
unfoldable pub new_stream : ℕ → Stream
new_stream id = record { id = id; queue = []; left = []; shut = false; replies = none }

unfoldable pub update : ℕ → Stream → (ℕ → Stream) → ℕ → Stream
update h st objects other = if other == h then st else objects other

unfoldable pub put : ℕ → Stream → Session → Session
unfolding update
put h st s = record s { objects = update h st s.objects }

-- `writeFrame`: whether it succeeds.
unfoldable pub write_frame : Bool → ℕ → ℕ → Bytes → Session → Session × Bool
write_frame takes typ sid payload s = elim (encode_frame typ sid payload) [
  | none ↦ (s, false)
  | some buf ↦ if takes then (record s { sent = s.sent ++ buf }, true) else (s, false)
]

-- `removeStream`.
unfoldable pub remove_stream : ℕ → Session → Session
unfolding erase
remove_stream id s = record s { streams = erase id s.streams }

-- `remoteClose`.
unfoldable pub remote_close : ℕ → Session → Session
unfolding remove_stream put
remote_close h s =
    let st = s.objects h in
    if st.shut then s else put h (record st { shut = true }) (remove_stream st.id s)

-- `muxStream.Close`.
unfoldable pub close_stream : Bool → ℕ → Session → Session
unfolding remove_stream put write_frame
close_stream takes h s =
    let st = s.objects h in
    let written = (write_frame takes frame_close st.id [] s).0 in
    if st.shut then s else put h (record st { shut = true }) (remove_stream st.id written)

-- `newClientStream`: the stream, or `none` for an error.
unfoldable pub new_client_stream : Bool → Bytes → Session → Session × Option ℕ
unfolding new_stream update write_frame remove_stream insert
new_client_stream takes destination s =
    let id = s.next_id in
    let st = record (new_stream id) { replies = some [] } in
    let opened = record s {
      next_id = (id + 2) % 2 ^ 32;
      streams = insert id s.fresh s.streams;
      objects = update s.fresh st s.objects;
      fresh = suc s.fresh;
    } in
    let written = write_frame takes frame_open id destination opened in
    if s.rr_closed
    then (s, none)
    else if written.1
    then (written.0, some s.fresh)
    else (remove_stream id written.0, none)

-- `newMuxSession`; its store holds no stream that is in use.
unfoldable pub new_session : Bool → (ℕ → Stream) → Session
new_session is_server objects = record {
  is_server = is_server;
  streams = [];
  next_id = if is_server then 2 else 1;
  rr_closed = false;
  objects = objects;
  fresh = 0;
  sent = [];
  handlers = [];
}

-- The end of a frame's handling: the session, or a wait on a full channel.
pub data Handled : Type 0 where
  done : Session → Handled
  blocked : Handled

-- The case of `frameOpen`.
unfoldable pub handle_open : Bool → Frame → Session → Session
unfolding new_stream update write_frame remote_close insert
handle_open takes f s =
    let h = s.fresh in
    let opened = record s {
      streams = insert f.stream_id h s.streams;
      objects = update h (new_stream f.stream_id) s.objects;
      fresh = suc h;
    } in
    let written = write_frame takes frame_open_ok f.stream_id [] opened in
    if not s.is_server
    then s
    else if length f.payload == 0
    then (write_frame takes frame_open_err f.stream_id [] s).0
    else if s.rr_closed
    then s
    else if written.1
    then record (written.0) { handlers = (h, f.payload) ∷ s.handlers }
    else remote_close h written.0

-- The cases of `frameOpenOK` and `frameOpenErr`: `openCh` takes one reply.
unfoldable pub handle_reply : Bool → ℕ → Session → Handled
unfolding put
handle_reply ok h s = elim (s.objects h).replies [
  | none ↦ done s
  | some rs ↦
      if leb 1 (length rs)
      then blocked
      else done (put h (record (s.objects h) { replies = some (rs ++ ok ∷ []) }) s)
]

-- `push`, where the select sees the end of a stream that is shut. A `Close` between the look at the table and the
-- push may leave it a stream that is shut; the select may then pick the closed `readCh` too, and the code panics.
unfoldable pub push : ℕ → Bytes → Session → Handled
unfolding put
push h p s =
    let st = s.objects h in
    if st.shut
    then done s
    else if leb read_capacity (length st.queue)
    then blocked
    else done (put h (record st { queue = st.queue ++ p ∷ [] }) s)

-- `handleFrame` behind `getStream`, with the stream that it gave.
unfoldable pub handle_found : Frame → ℕ → Session → Handled
unfolding handle_reply push remote_close
handle_found f h s =
    if f.typ == frame_open_ok
    then handle_reply true h s
    else if f.typ == frame_open_err
    then handle_reply false h s
    else if f.typ == frame_data
    then push h f.payload s
    else if f.typ == frame_close
    then done (remote_close h s)
    else done s

-- `handleFrame`.
unfoldable pub handle_frame : Bool → Frame → Session → Handled
unfolding handle_open handle_found lookup
handle_frame takes f s =
    if f.typ == frame_open
    then done (handle_open takes f s)
    else elim (lookup f.stream_id s.streams) [ none ↦ done s | some h ↦ handle_found f h s ]

-- The streams of the table, closed one after the other.
unfoldable pub close_all : Assoc ℕ → Session → Session
unfolding remote_close
close_all [] s = s
close_all ((id, h) ∷ more) s = close_all more (remote_close h s)

-- `closeWithError`.
unfoldable pub close_with_error : Session → Session
unfolding close_all
close_with_error s =
    if s.rr_closed then s else close_all s.streams (record s { rr_closed = true; streams = [] })
