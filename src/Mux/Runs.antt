-- ===== src/Mux/Runs.antt =====
-- The sessions that come about in any order of frames, calls and reads.
use tamizdat.Mux.{Frame}
use tamizdat.Mux.Session.{
  Session, Stream, new_session, handle_frame, handle_found, done, new_client_stream, close_stream,
  close_with_error, put, Handled,
}
use tamizdat.Mux.Table.{
  IsLinked, DoneLinked, handle_frame-IsLinked, handle_found-IsLinked, put-IsLinked,
  new_client_stream-IsLinked, close_stream-IsLinked, close_with_error-IsLinked,
}
use tamizdat.Prelude.{ℕ, Bool, ◌≡◌, arith}
use tamizdat.Prelude.Assoc.{lookup}
use tamizdat.Prelude.Bytes.{Bytes}
use mathlib.Core.Path.{subst}

-- What the session's loop and its users do. The loop looks a frame's stream up and handles the frame then: other
-- steps may come between the two, so the stream that it goes on with is any, also one that has left the table. A
-- user's read leaves the number and the end of a stream.
pub data Step (s : Session) (t : Session) : Type 0 where
  handles : (takes : Bool) (f : Frame) → handle_frame takes f s ≡ done t → Step s t
  handles_late : (f : Frame) (h : ℕ) → handle_found f h s ≡ done t → Step s t
  opens : (takes : Bool) (to : Bytes) → t ≡ (new_client_stream takes to s).0 → Step s t
  closes : (takes : Bool) (h : ℕ) → t ≡ close_stream takes h s → Step s t
  ends : t ≡ close_with_error s → Step s t
  reads :
      (h : ℕ) (st : Stream)
      → st.shut ≡ (s.objects h).shut
      → st.id ≡ (s.objects h).id
      → t ≡ put h st s
      → Step s t

pub data Run (s : Session) : Session → Type 0 where
  start : Run s s
  then_step : {t u : Session} → Run s t → Step t u → Run s u

Step-IsLinked : (s t : Session) → Step s t → IsLinked s → IsLinked t
Step-IsLinked s t (handles takes f e) k =
    subst (λ (x : Handled). DoneLinked x) e (handle_frame-IsLinked takes f s k)
Step-IsLinked s t (handles_late f h e) k =
    subst (λ (x : Handled). DoneLinked x) e (handle_found-IsLinked f h s k)
Step-IsLinked s t (opens takes to e) k = rw e (new_client_stream-IsLinked takes to s k)
Step-IsLinked s t (closes takes h e) k = rw e (close_stream-IsLinked takes h s k)
Step-IsLinked s t (ends e) k = rw e (close_with_error-IsLinked s k)
Step-IsLinked s t (reads h st o i e) k = rw e (put-IsLinked h st s o i k)

Run-IsLinked : (s t : Session) → Run s t → IsLinked s → IsLinked t
Run-IsLinked s _ start k = k
Run-IsLinked s t (then_step {t = mid} r p) k = Step-IsLinked mid t p (Run-IsLinked s mid r k)

-- In every session that a new one comes to, by opens, closes, reads, its end and frames in any order, where a frame may
-- also be handled later than its stream was looked up, each entry of the table points to a stream that is not shut and
-- has the entry's number, and no number has two entries. A push that panics ends the program, and no step follows it.
pub Run-new_session-IsLinked :
    (is_server : Bool) (objects : ℕ → Stream) (t : Session)
    → Run (new_session is_server objects) t
    → IsLinked t
unfolding new_session
Run-new_session-IsLinked is_server objects t r =
    Run-IsLinked (new_session is_server objects) t r
      (record { linked = λ id h e. absurd (unfold lookup in ground arith); keys = tt })
