-- ===== src/Mux/Arrival.antt =====
-- What a peer's `Write` puts on the connection, as `readLoop` brings it to the stream.
use tamizdat.Mux.{frame_data}
use tamizdat.Mux.Session.{
  Session, Stream, done, read_capacity, put, update, push, handle_frame, remote_close,
  remove_stream, close_all, close_with_error,
}
use tamizdat.Mux.Loop.{read_rounds, read_loop, length-read_raw_frame}
use tamizdat.Mux.Reading.{join, pending}
use tamizdat.Mux.RoundTrip.{Carries, nothing, frame_of}
use tamizdat.Prelude.{
  ℕ, Bool, zero, suc, some, ◌≡◌, ◌<◌, ◌≤◌, length, arith, false, true, ◌++◌, [], ◌∷◌, sym, ap, ◌∙◌,
  refl, List, append_assoc, append-nil, ◌+◌, length-append, Bool-cases, inl, inr, leb,
}
use tamizdat.Prelude.Assoc.{Assoc, lookup}
use tamizdat.Prelude.Bytes.{Bytes}

join-append : (bs : List Bytes) (b : Bytes) → join (bs ++ b ∷ []) ≡ join bs ++ b
unfolding join
join-append [] b = append-nil b
join-append (c ∷ bs) b =
    ap (λ (t : Bytes). c ++ t) (join-append bs b) ∙ sym (append_assoc c (join bs) b)

-- The end of a stream leaves what waits to be read.
remote_close-pending :
    (h g : ℕ) (s : Session) → pending ((remote_close h s).objects g) ≡ pending (s.objects g)
unfolding remote_close put update remove_stream
remote_close-pending h g s = elim (Bool-cases (s.objects h).shut) [
  | inl e ↦ rw e refl
  | inr e ↦ rw e (ground arith)
]

close_all-pending :
    (all : Assoc ℕ) (g : ℕ) (s : Session)
    → pending ((close_all all s).objects g) ≡ pending (s.objects g)
unfolding close_all
close_all-pending [] g s = refl
close_all-pending ((id, h) ∷ more) g s =
    close_all-pending more g (remote_close h s) ∙ remote_close-pending h g s

close_with_error-pending :
    (g : ℕ) (s : Session) → pending ((close_with_error s).objects g) ≡ pending (s.objects g)
unfolding close_with_error
close_with_error-pending g s = elim (Bool-cases s.rr_closed) [
  | inl e ↦ rw e refl
  | inr e ↦ rw e (close_all-pending s.streams g (record s { rr_closed = true; streams = [] }))
]

-- A frame of data goes to the queue of its stream.
handle_data :
    (takes : Bool) (sid h : ℕ) (chunk : Bytes) (s : Session)
    → lookup sid s.streams ≡ some h
    → (s.objects h).shut ≡ false
    → length (s.objects h).queue < read_capacity
    → handle_frame takes (record { typ = frame_data; stream_id = sid; payload = chunk }) s
      ≡ done (put h (record (s.objects h) { queue = (s.objects h).queue ++ chunk ∷ [] }) s)
unfolding handle_frame push
handle_data takes sid h chunk s l o r =
    let room : leb read_capacity (length (s.objects h).queue) ≡ false = ground arith in
    rw (l, handle_frame, push) rw (o, room) refl

put_here : (h : ℕ) (st : Stream) (s : Session) → (put h st s).objects h ≡ st
unfolding put update
put_here h st s = ground arith

put-streams : (h : ℕ) (st : Stream) (s : Session) → (put h st s).streams ≡ s.streams
unfolding put
put-streams h st s = refl

-- The frames that carry a text.
unfoldable pub frames : {limit sid : ℕ} {conn p : Bytes} → Carries limit sid conn p → ℕ
frames nothing = 0
frames (frame_of chunk e l u c) = suc (frames c)

-- That the bytes a stream waits with grow by a text.
Grows : ℕ → Bytes → Session → Session → Type 0
Grows h p s t = pending (t.objects h) ≡ pending (s.objects h) ++ p

grown :
    (st : Stream) (chunk more : Bytes)
    → pending (record st { queue = st.queue ++ chunk ∷ [] }) ++ more ≡ pending st ++ (chunk ++ more)
grown st chunk more =
    rw
      (
        join-append st.queue chunk,
        append_assoc st.left (join st.queue ++ chunk) more,
        append_assoc (join st.queue) chunk more,
        append_assoc st.left (join st.queue) (chunk ++ more),
      )
      refl

read_rounds-Carries :
    (fuel : ℕ) (takes : ℕ → Bool) (limit sid h : ℕ) (conn p : Bytes) (s : Session)
    (c : Carries limit sid conn p)
    → length conn < fuel
    → lookup sid s.streams ≡ some h
    → (s.objects h).shut ≡ false
    → length (s.objects h).queue + frames c ≤ read_capacity
    → (t : Session) × (read_rounds fuel takes conn s ≡ some (done t)) × Grows h p s t
unfolding read_rounds frames Grows
read_rounds-Carries zero takes limit sid h conn p s c n l o r = absurd (omega arith)
read_rounds-Carries (suc fuel) takes limit sid h _ _ s nothing n l o r = (
  close_with_error s,
  refl,
  close_with_error-pending h s ∙ sym (append-nil (pending (s.objects h))),
)
read_rounds-Carries (suc fuel) takes limit sid h conn _ s
      (frame_of {rest = rest} {more = more} chunk e lo hi c) n l o r =
    let st : Stream = record (s.objects h) { queue = (s.objects h).queue ++ chunk ∷ [] } in
    let d = handle_data (takes fuel) sid h chunk s l o (omega arith) in
    let shorter = length-read_raw_frame conn rest _ e in
    let here = put_here h st s in
    let longer = length-append (s.objects h).queue (chunk ∷ []) in
    let (t, q, g) =
      read_rounds-Carries fuel takes limit sid h rest more (put h st s) c (omega arith)
        (rw (put-streams h st s) l) (rw here o) (rw here (omega arith)) in
    (t, rw (e, d, read_rounds) q, g ∙ rw here (grown (s.objects h) chunk more))

-- When the connection carries a text to an open stream of the table, in no more frames than its channel has room
-- for, then the loop comes to the end of the connection, and the stream's readers have the whole text before them,
-- behind what waited already and with nothing else.
pub read_loop-Carries :
    (takes : ℕ → Bool) (limit sid h : ℕ) (conn p : Bytes) (s : Session)
    (c : Carries limit sid conn p)
    → lookup sid s.streams ≡ some h
    → (s.objects h).shut ≡ false
    → length (s.objects h).queue + frames c ≤ read_capacity
    → (t : Session) × (read_loop takes conn s ≡ some (done t))
      × (pending (t.objects h) ≡ pending (s.objects h) ++ p)
unfolding read_loop Grows
read_loop-Carries takes limit sid h conn p s c l o r =
    read_rounds-Carries (suc (length conn)) takes limit sid h conn p s c (omega arith) l o r
