-- ===== src/Mux/Waiting.antt =====
-- The frames at which `handleFrame` of internal/transport/vkturn/mux.go waits; all others leave an open session open.
use tamizdat.Mux.{Frame, encode_frame, frame_data}
use tamizdat.Mux.Session.{
  Session, Handled, done, blocked, handle_frame, handle_found, handle_open, handle_reply, push,
  remote_close, put, update, write_frame, frame_open, frame_open_ok, frame_open_err, frame_close,
  read_capacity, new_stream,
}
use tamizdat.Prelude.{
  ℕ, Bool, suc, some, ◌≡◌, ◌≤◌, length, arith, inl, inr, Bool-cases, Option-cases, ◌⊎◌, refl, true,
  false, List, [], ◌∷◌, ◌∙◌, ◌==◌, leb, if◌then◌else◌, not,
}
use tamizdat.Prelude.Assoc.{lookup, insert}
use tamizdat.Prelude.Bytes.{Bytes}
use tamizdat.Mux.Closing.{remote_close-rr_closed}

-- A frame must wait: it has data for an open stream of the table whose channel of data is full, or it has a reply for
-- a stream of the table whose channel of replies is full.
pub data Waits (f : Frame) (s : Session) : Type 0 where
  data_waits :
      (h : ℕ)
      → lookup f.stream_id s.streams ≡ some h
      → f.typ ≡ frame_data
      → (s.objects h).shut ≡ false
      → read_capacity ≤ length (s.objects h).queue
      → Waits f s
  reply_waits :
      (h : ℕ) (replies : List Bool)
      → lookup f.stream_id s.streams ≡ some h
      → (f.typ ≡ frame_open_ok) ⊎ (f.typ ≡ frame_open_err)
      → (s.objects h).replies ≡ some replies
      → 1 ≤ length replies
      → Waits f s

write_frame-rr_closed :
    (takes : Bool) (typ sid : ℕ) (p : Bytes) (s : Session)
    → (write_frame takes typ sid p s).0.rr_closed ≡ s.rr_closed
unfolding write_frame
write_frame-rr_closed takes typ sid p s = elim (Option-cases (encode_frame typ sid p)) [
  | inl e ↦ rw (e, write_frame) refl
  | inr (buf, e) ↦ elim (Bool-cases takes) [
    | inl t ↦ rw (e, t, write_frame) refl
    | inr t ↦ rw (e, t, write_frame) refl
  ]
]

either_open :
    (b : Bool) (s t : Session)
    → s.rr_closed ≡ false
    → t.rr_closed ≡ false
    → (if b then s else t).rr_closed ≡ false
either_open true s t k l = k
either_open false s t k l = l

handle_open-open :
    (takes : Bool) (f : Frame) (s : Session)
    → s.rr_closed ≡ false
    → (handle_open takes f s).rr_closed ≡ false
unfolding handle_open
handle_open-open takes f s o =
    let opened : Session = record s {
      streams = insert f.stream_id s.fresh s.streams;
      objects = update s.fresh (new_stream f.stream_id) s.objects;
      fresh = suc s.fresh;
    } in
    let w = (write_frame takes frame_open_ok f.stream_id [] opened).0 in
    let written : w.rr_closed ≡ false =
      write_frame-rr_closed takes frame_open_ok f.stream_id [] opened ∙ o in
    either_open (not s.is_server) s _ o (
      either_open (length f.payload == 0) (write_frame takes frame_open_err f.stream_id [] s).0 _
        (write_frame-rr_closed takes frame_open_err f.stream_id [] s ∙ o)
        (either_open s.rr_closed s _ o (
          either_open (write_frame takes frame_open_ok f.stream_id [] opened).1
            (record w { handlers = (s.fresh, f.payload) ∷ s.handlers }) (remote_close s.fresh w)
            written (remote_close-rr_closed s.fresh w ∙ written))))

-- What a frame's handling comes to in an open session: it is open still, or the frame waits.
abbrev pub Handles : Frame → Session → Handled → Type 0
Handles f s (done t) = t.rr_closed ≡ false
Handles f s blocked = Waits f s

either-Handles :
    (b : Bool) (f : Frame) (s : Session) (x y : Handled)
    → (b ≡ true → Handles f s x)
    → (b ≡ false → Handles f s y)
    → Handles f s (if b then x else y)
either-Handles true f s x y k l = k refl
either-Handles false f s x y k l = l refl

handle_reply-Handles :
    (ok : Bool) (f : Frame) (h : ℕ) (s : Session)
    → s.rr_closed ≡ false
    → lookup f.stream_id s.streams ≡ some h
    → (f.typ ≡ frame_open_ok) ⊎ (f.typ ≡ frame_open_err)
    → Handles f s (handle_reply ok h s)
unfolding handle_reply put
handle_reply-Handles ok f h s o l typ = elim (Option-cases (s.objects h).replies) [
  | inl e ↦ rw (e, handle_reply) o
  | inr (rs, e) ↦ elim (Bool-cases (leb 1 (length rs))) [
    | inl g ↦ rw (e, g, handle_reply) (reply_waits h rs l typ e (ground arith))
    | inr g ↦ rw (e, g, handle_reply) o
  ]
]

push-Handles :
    (f : Frame) (h : ℕ) (s : Session)
    → s.rr_closed ≡ false
    → lookup f.stream_id s.streams ≡ some h
    → f.typ ≡ frame_data
    → Handles f s (push h f.payload s)
unfolding push put
push-Handles f h s o l typ =
    either-Handles (s.objects h).shut f s (done s) _ (λ shut. o)
      λ open_still.
        either-Handles (leb read_capacity (length (s.objects h).queue)) f s blocked _
          (λ full. data_waits h l typ open_still (ground arith)) (λ room. o)

handle_found-Handles :
    (f : Frame) (h : ℕ) (s : Session)
    → s.rr_closed ≡ false
    → lookup f.stream_id s.streams ≡ some h
    → Handles f s (handle_found f h s)
unfolding handle_found
handle_found-Handles f h s o l =
    either-Handles (f.typ == frame_open_ok) f s _ _
      (λ e. handle_reply-Handles true f h s o l (inl (ground arith)))
      (λ e.
        either-Handles (f.typ == frame_open_err) f s _ _
          (λ e2. handle_reply-Handles false f h s o l (inr (ground arith)))
          (λ e2.
            either-Handles (f.typ == frame_data) f s _ _
              (λ e3. push-Handles f h s o l (ground arith))
              (λ e3.
                either-Handles (f.typ == frame_close) f s (done (remote_close h s)) (done s)
                  (λ e4. remote_close-rr_closed h s ∙ o) (λ e4. o))))

-- A frame's handling in an open session leaves it open, or the frame waits.
pub handle_frame-Handles :
    (takes : Bool) (f : Frame) (s : Session)
    → s.rr_closed ≡ false
    → Handles f s (handle_frame takes f s)
unfolding handle_frame
handle_frame-Handles takes f s o = elim (Bool-cases (f.typ == frame_open)) [
  | inl a ↦ rw a (handle_open-open takes f s o)
  | inr a ↦ elim (Option-cases (lookup f.stream_id s.streams)) [
    | inl e ↦ rw (a, e) o
    | inr (h, e) ↦ rw (a, e) (handle_found-Handles f h s o e)
  ]
]
