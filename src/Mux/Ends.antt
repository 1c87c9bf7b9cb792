-- ===== src/Mux/Ends.antt =====
-- How `readLoop` comes to an end: what it has handled by then, and what it leaves.
use tamizdat.Mux.{Frame, read_raw_frame}
use tamizdat.Mux.Session.{Session, Handled, done, blocked, handle_frame}
use tamizdat.Prelude.{Bool, Option, none, some, ◌≡◌}
use tamizdat.Prelude.Bytes.{Bytes}
use tamizdat.Mux.Closing.{IsEnded}
use tamizdat.Mux.Waiting.{Waits}

-- The loop has handled the frames of the connection one after the other, up to a rest.
pub data Fed (rest : Bytes) (r : Session) : Bytes → Session → Type 0 where
  no_more : Fed rest r rest r
  frame_fed :
      {conn more : Bytes} {s t : Session} (takes : Bool) (f : Frame)
      → read_raw_frame conn ≡ some (f, more)
      → handle_frame takes f s ≡ done t
      → Fed rest r more t
      → Fed rest r conn s

-- The loop's two ends.
pub data Ends (o : Option Handled) (conn : Bytes) (s : Session) : Type 0 where
  ended :
      {rest : Bytes} {r : Session} (t : Session)
      → o ≡ some (done t)
      → Fed rest r conn s
      → read_raw_frame rest ≡ none
      → IsEnded r t
      → Ends o conn s
  waiting :
      {rest more : Bytes} {r : Session} (f : Frame)
      → o ≡ some blocked
      → Fed rest r conn s
      → read_raw_frame rest ≡ some (f, more)
      → Waits f r
      → Ends o conn s
