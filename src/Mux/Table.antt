-- ===== src/Mux/Table.antt =====
-- The streams of the table are open, whatever frames and calls come.
use tamizdat.Prelude.{
  true, false, ◌%◌, ◌^◌, if◌then◌else◌, Option, [], leb, ◌==◌, ◌+◌, not, length, none, ◌∷◌, ◌++◌,
  refl,
}
use tamizdat.Mux.{Frame, frame_data, encode_frame}
use tamizdat.Mux.Session.{
  frame_open, frame_open_ok, frame_open_err, frame_close, read_capacity, Stream, Session,
  new_stream, update, put, write_frame, remove_stream, remote_close, close_stream,
  new_client_stream, Handled, done, blocked, handle_open, handle_reply, push, handle_found,
  handle_frame, close_all, close_with_error,
}
use tamizdat.Prelude.{
  ℕ, Bool, arith, ◌≡◌, Bool-cases, some, Option-cases, false, inl, ◌<◌, inr, true, suc,
}
use tamizdat.Prelude.Assoc.{
  lookup, lookup-erase, erase-Distinct, insert, Distinct, lookup-insert, insert-Distinct, Assoc,
}
use tamizdat.Prelude.Bytes.{Bytes}

-- Every entry of the table points to an open stream with that entry's number.
pub record IsLinked (s : Session) : Type 0 where
  pub linked :
      (id h : ℕ)
      → lookup id s.streams ≡ some h
      → ((s.objects h).shut ≡ false) × ((s.objects h).id ≡ id) × (h < s.fresh)
  pub keys : Distinct s.streams

write_frame-IsLinked :
    (takes : Bool) (typ sid : ℕ) (p : Bytes) (s : Session)
    → IsLinked s
    → IsLinked (write_frame takes typ sid p s).0
unfolding write_frame
write_frame-IsLinked takes typ sid p s k = elim (Option-cases (encode_frame typ sid p)) [
  | inl e ↦ rw (e, write_frame) k
  | inr (buf, e) ↦ elim (Bool-cases takes) [
    | inl t ↦ rw (e, t, write_frame) (record { linked = k.linked; keys = k.keys })
    | inr t ↦ rw (e, t, write_frame) k
  ]
]

either-IsLinked :
    (b : Bool) (s t : Session) → IsLinked s → IsLinked t → IsLinked (if b then s else t)
either-IsLinked true s t k l = k
either-IsLinked false s t k l = l

remove_stream-IsLinked : (id : ℕ) (s : Session) → IsLinked s → IsLinked (remove_stream id s)
unfolding remove_stream
remove_stream-IsLinked id s k = record {
  linked = λ j h e. k.linked j h (ground (arith, lookup-erase id j s.streams k.keys));
  keys = erase-Distinct id s.streams k.keys;
}

-- A write of a stream that leaves its number and its end.
pub put-IsLinked :
    (h : ℕ) (st : Stream) (s : Session)
    → st.shut ≡ (s.objects h).shut
    → st.id ≡ (s.objects h).id
    → IsLinked s
    → IsLinked (put h st s)
unfolding put update
put-IsLinked h st s o i k = record {
  linked = λ j g e. ground (arith, k.linked j g e);
  keys = k.keys;
}

-- A stream that is shut, when its number has left the table.
shut-IsLinked :
    (h : ℕ) (st : Stream) (s : Session)
    → IsLinked s
    → IsLinked (put h st (remove_stream (s.objects h).id s))
unfolding put update remove_stream
shut-IsLinked h st s k = record {
  linked = λ j g e. ground (arith, k.linked j g, lookup-erase (s.objects h).id j s.streams k.keys);
  keys = erase-Distinct (s.objects h).id s.streams k.keys;
}

remote_close-IsLinked : (h : ℕ) (s : Session) → IsLinked s → IsLinked (remote_close h s)
unfolding remote_close
remote_close-IsLinked h s k = elim (Bool-cases (s.objects h).shut) [
  | inl e ↦ rw e k
  | inr e ↦ rw e (shut-IsLinked h (record (s.objects h) { shut = true }) s k)
]

-- A new stream under a number, which replaces one that stood under it.
added-IsLinked :
    (id : ℕ) (st : Stream) (s : Session)
    → st.id ≡ id
    → st.shut ≡ false
    → IsLinked s
    → IsLinked (record s {
      streams = insert id s.fresh s.streams;
      objects = update s.fresh st s.objects;
      fresh = suc s.fresh;
    })
unfolding update
added-IsLinked id st s e o k = record {
  linked = λ j h f. ground (arith, k.linked j h, lookup-insert id j s.fresh s.streams);
  keys = insert-Distinct id s.fresh s.streams k.keys;
}

first_of :
    (b : Bool) (x y : Session × Option ℕ)
    → IsLinked x.0
    → IsLinked y.0
    → IsLinked (if b then x else y).0
first_of true x y k l = k
first_of false x y k l = l

shut_written :
    (takes : Bool) (h : ℕ) (s : Session)
    → IsLinked s
    → let st = s.objects h in
      IsLinked (
        put h
          (record st { shut = true })
          (remove_stream st.id (write_frame takes frame_close st.id [] s).0))
unfolding write_frame
shut_written takes h s k = elim (Option-cases (encode_frame frame_close (s.objects h).id [])) [
  | inl e ↦ rw (e, write_frame) (shut-IsLinked h (record (s.objects h) { shut = true }) s k)
  | inr (buf, e) ↦ elim (Bool-cases takes) [
    | inl t ↦
        rw (e, t, write_frame)
          (shut-IsLinked h (record (s.objects h) { shut = true })
            (record s { sent = s.sent ++ buf }) (record { linked = k.linked; keys = k.keys }))
    | inr t ↦ rw (e, t, write_frame) (shut-IsLinked h (record (s.objects h) { shut = true }) s k)
  ]
]

pub close_stream-IsLinked :
    (takes : Bool) (h : ℕ) (s : Session) → IsLinked s → IsLinked (close_stream takes h s)
unfolding close_stream
close_stream-IsLinked takes h s k = elim (Bool-cases (s.objects h).shut) [
  | inl e ↦ rw e k
  | inr e ↦ rw e (shut_written takes h s k)
]

pub new_client_stream-IsLinked :
    (takes : Bool) (to : Bytes) (s : Session)
    → IsLinked s
    → IsLinked (new_client_stream takes to s).0
unfolding new_client_stream
new_client_stream-IsLinked takes to s k =
    let id = s.next_id in
    let st : Stream = record (new_stream id) { replies = some [] } in
    let stepped : Session = record s { next_id = (id + 2) % 2 ^ 32 } in
    let opened : Session = record s {
      next_id = (id + 2) % 2 ^ 32;
      streams = insert id s.fresh s.streams;
      objects = update s.fresh st s.objects;
      fresh = suc s.fresh;
    } in
    let added : IsLinked opened =
      added-IsLinked id st stepped (unfold new_stream in refl) (unfold new_stream in refl)
        (record { linked = k.linked; keys = k.keys }) in
    let written = write_frame-IsLinked takes frame_open id to opened added in
    first_of s.rr_closed (s, none) _ k
      (first_of (write_frame takes frame_open id to opened).1 _
        (remove_stream id (write_frame takes frame_open id to opened).0, none) written
        (remove_stream-IsLinked id (write_frame takes frame_open id to opened).0 written))

handle_open-IsLinked :
    (takes : Bool) (f : Frame) (s : Session) → IsLinked s → IsLinked (handle_open takes f s)
unfolding handle_open
handle_open-IsLinked takes f s k =
    let h = s.fresh in
    let opened : Session = record s {
      streams = insert f.stream_id h s.streams;
      objects = update h (new_stream f.stream_id) s.objects;
      fresh = suc h;
    } in
    let added : IsLinked opened =
      added-IsLinked f.stream_id (new_stream f.stream_id) s (unfold new_stream in refl)
        (unfold new_stream in refl) k in
    let w = (write_frame takes frame_open_ok f.stream_id [] opened).0 in
    let written : IsLinked w =
      write_frame-IsLinked takes frame_open_ok f.stream_id [] opened added in
    either-IsLinked (not s.is_server) s _ k (
      either-IsLinked (length f.payload == 0) (write_frame takes frame_open_err f.stream_id [] s).0
        _ (write_frame-IsLinked takes frame_open_err f.stream_id [] s k)
        (either-IsLinked s.rr_closed s _ k (
          either-IsLinked (write_frame takes frame_open_ok f.stream_id [] opened).1
            (record w { handlers = (h, f.payload) ∷ s.handlers }) (remote_close h w)
            (record { linked = written.linked; keys = written.keys })
            (remote_close-IsLinked h w written))))

-- The session is linked, where the handling ends.
abbrev pub DoneLinked : Handled → Type 0
DoneLinked (done s) = IsLinked s
DoneLinked blocked = Unit {0}

either-DoneLinked :
    (b : Bool) (x y : Handled) → DoneLinked x → DoneLinked y → DoneLinked (if b then x else y)
either-DoneLinked true x y k l = k
either-DoneLinked false x y k l = l

handle_reply-IsLinked :
    (ok : Bool) (h : ℕ) (s : Session) → IsLinked s → DoneLinked (handle_reply ok h s)
unfolding handle_reply
handle_reply-IsLinked ok h s k = elim (Option-cases (s.objects h).replies) [
  | inl f ↦ rw (f, handle_reply) k
  | inr (rs, f) ↦ elim (Bool-cases (leb 1 (length rs))) [
    | inl g ↦ rw (f, g, handle_reply) tt
    | inr g ↦
        rw (f, g, handle_reply)
          (put-IsLinked h (record (s.objects h) { replies = some (rs ++ ok ∷ []) }) s refl refl k)
  ]
]

push-IsLinked : (h : ℕ) (p : Bytes) (s : Session) → IsLinked s → DoneLinked (push h p s)
unfolding push
push-IsLinked h p s k =
    let st : Stream = record (s.objects h) { queue = (s.objects h).queue ++ p ∷ [] } in
    either-DoneLinked (s.objects h).shut (done s) _ k (
      either-DoneLinked (leb read_capacity (length (s.objects h).queue)) blocked (done (put h st s))
        tt (put-IsLinked h st s refl refl k))

-- The handling of a frame with any stream, one of the table or not.
pub handle_found-IsLinked :
    (f : Frame) (h : ℕ) (s : Session) → IsLinked s → DoneLinked (handle_found f h s)
unfolding handle_found
handle_found-IsLinked f h s k =
    either-DoneLinked (f.typ == frame_open_ok) _ _ (handle_reply-IsLinked true h s k) (
      either-DoneLinked (f.typ == frame_open_err) _ _ (handle_reply-IsLinked false h s k) (
        either-DoneLinked (f.typ == frame_data) _ _ (push-IsLinked h f.payload s k) (
          either-DoneLinked (f.typ == frame_close) (done (remote_close h s)) (done s)
            (remote_close-IsLinked h s k) k)))

-- Handling a frame keeps the streams of the table open, and their entries right.
pub handle_frame-IsLinked :
    (takes : Bool) (f : Frame) (s : Session) → IsLinked s → DoneLinked (handle_frame takes f s)
unfolding handle_frame
handle_frame-IsLinked takes f s k = elim (Bool-cases (f.typ == frame_open)) [
  | inl a ↦ rw a (handle_open-IsLinked takes f s k)
  | inr a ↦ elim (Option-cases (lookup f.stream_id s.streams)) [
    | inl e ↦ rw (a, e) k
    | inr (h, e) ↦ rw (a, e) (handle_found-IsLinked f h s k)
  ]
]

close_all-IsLinked : (all : Assoc ℕ) (s : Session) → IsLinked s → IsLinked (close_all all s)
unfolding close_all
close_all-IsLinked [] s k = k
close_all-IsLinked ((id, h) ∷ more) s k =
    close_all-IsLinked more (remote_close h s) (remote_close-IsLinked h s k)

pub close_with_error-IsLinked : (s : Session) → IsLinked s → IsLinked (close_with_error s)
unfolding close_with_error
close_with_error-IsLinked s k = either-IsLinked s.rr_closed s _ k (
    close_all-IsLinked s.streams (record s { rr_closed = true; streams = [] })
      (record { linked = λ id h e. absurd (unfold lookup in ground arith); keys = tt }))
