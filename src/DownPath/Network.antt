-- ===== src/DownPath/Network.antt =====
-- The two ends together, with a network between them that may lose, repeat and reorder answers.
use tamizdat.DownPath.{DownFrame, Session, respond_from_channel, respond, respond_late, produce}
use tamizdat.DownPath.Receiver.{DownResult, Receiver, decode_down, read}
use tamizdat.DownPath.Ring.{new_ring}
use tamizdat.Prelude.Bytes.{Bytes}
use tamizdat.Prelude.{
  ℕ, Bool, List, Option, none, some, ◌∷◌, [], ◌++◌, length, ◌==◌, not, ◌&&◌, get_elem?, ◌^◌, suc,
  true, false, ◌≡◌, ◌≤◌, ◌<◌,
}

-- `MaxPayload`.
abbrev pub max_payload : ℕ
max_payload = 480

-- The test of `runScheduledDownPoll` for a poll that brings nothing.
unfoldable pub is_idle : DownResult → Bool
is_idle res = not res.eof && length res.buf == 0

-- The server's session, the answers on the network, the results that wait for `Read`, the client, and what its
-- reads have given so far. The chunks are what the producer has read, and it has stopped or not.
pub record System : Type 0 where
  pub chunks : List Bytes
  pub stopped : Bool
  pub session : Session
  pub sent : List Bytes
  pub results : List DownResult
  pub receiver : Receiver
  pub log : Bytes

unfoldable pub new_system : System
new_system = record {
  chunks = [];
  stopped = false;
  session = record { ring = new_ring; channel = []; last_ack = 0; served = 0 };
  sent = [];
  results = [];
  receiver = record { read_buf = []; pending = []; next_seq = 0; eof_seq = none };
  log = [];
}

-- An answer joins those on the network.
abbrev pub add_answer : Option Bytes → List Bytes → List Bytes
add_answer none sent = sent
add_answer (some b) sent = sent ++ b ∷ []

-- The frames of a chunk and of the end, as `downProducer` makes them.
abbrev pub chunk_frame : Bytes → System → DownFrame
chunk_frame c s = record { seq = length s.chunks; bytes = c; eof = false }

abbrev pub end_frame : System → DownFrame
end_frame s = record { seq = length s.chunks; bytes = []; eof = true }

-- A step: the producer reads a chunk, and stops when the channel does not take it, or it comes to the end; a poll
-- with any number is answered, at once, behind its wait for a frame, or late; an answer that was sent arrives, once
-- more or for the first time; the client reads.
pub data Step (s t : System) : Type 0 where
  produces :
      (takes : Bool) (c : Bytes)
      → s.stopped ≡ false
      → length c ≤ max_payload
      → suc (suc (length s.chunks)) < 2 ^ 32
      → t ≡ record s {
        chunks = s.chunks ++ c ∷ [];
        stopped = not takes;
        session = produce takes (chunk_frame c s) s.session;
      }
      → Step s t
  finishes :
      (takes : Bool)
      → s.stopped ≡ false
      → t ≡ record s { stopped = true; session = produce takes (end_frame s) s.session }
      → Step s t
  answers :
      (ack : ℕ)
      → t ≡ record s {
        session = (respond ack s.session).0;
        sent = add_answer (respond ack s.session).1 s.sent;
      }
      → Step s t
  wakes :
      (should : Bool) (ack : ℕ)
      → t ≡ record s {
        session = (respond_from_channel should ack s.session).0;
        sent = add_answer (respond_from_channel should ack s.session).1 s.sent;
      }
      → Step s t
  gives_up :
      (ack : ℕ)
      → t ≡ record s {
        session = (respond_late ack s.session).0;
        sent = s.sent ++ (respond_late ack s.session).1 ∷ [];
      }
      → Step s t
  arrives :
      (i : ℕ) (b : Bytes) (res : DownResult)
      → get_elem? s.sent i ≡ some b
      → decode_down max_payload b ≡ some res
      → is_idle res ≡ false
      → t ≡ record s { results = s.results ++ res ∷ [] }
      → Step s t
  reads :
      (n : ℕ)
      → t ≡ (
          let o = read n s.results s.receiver in
          record s { receiver = o.0.0; results = o.0.1; log = s.log ++ o.1.1 })
      → Step s t

pub data Run (s : System) : System → Type 0 where
  start : Run s s
  then_step : {t u : System} → Run s t → Step t u → Run s u
