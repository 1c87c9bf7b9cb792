-- ===== src/DownPath/Tests.antt =====
-- A chunk of two bytes comes down, and 33 frames go through the ring.
use tamizdat.DownPath.{DownFrame, find_replay, respond, produce, encode_down_frame}
use tamizdat.DownPath.Delivery.{Run-new_system-delivers}
use tamizdat.DownPath.LastFrames.{wanted, find_replay-push_all}
use tamizdat.DownPath.Network.{
  System, new_system, chunk_frame, add_answer, Run, start, then_step, produces, answers, arrives,
  reads, is_idle,
}
use tamizdat.DownPath.Chunks.{joined}
use tamizdat.DownPath.Receiver.{DownResult, decode_down, read, at_eof}
use tamizdat.DownPath.Ring.{push_all, new_ring, last_of}
use tamizdat.Prelude.Bytes.{Bytes}
use tamizdat.Prelude.{ℕ, List, ◌∷◌, [], ◌++◌, ◌≡◌, refl, false, true, arith, zero, suc, ◌-◌}

abbrev countdown : ℕ → List DownFrame
countdown zero = []
countdown (suc n) = record { seq = 40 - n; bytes = n ∷ []; eof = false } ∷ countdown n

abbrev chunk : Bytes
chunk = 7 ∷ 8 ∷ []

abbrev produced : System
produced = record new_system {
  chunks = new_system.chunks ++ chunk ∷ [];
  stopped = false;
  session = produce true (chunk_frame chunk new_system) new_system.session;
}

abbrev answered : System
answered = record produced {
  session = (respond 0 produced.session).0;
  sent = add_answer (respond 0 produced.session).1 produced.sent;
}

abbrev result : DownResult
result = record { seq = 0; buf = chunk; eof = false }

abbrev arrived : System
arrived = record answered { results = answered.results ++ result ∷ [] }

abbrev was_read : System
was_read =
    let o = read 5 arrived.results arrived.receiver in
    record arrived { receiver = o.0.0; results = o.0.1; log = arrived.log ++ o.1.1 }

read_chunk : was_read.log ≡ 7 ∷ 8 ∷ []
unfolding new_system respond read produce
read_chunk = refl

Run-was_read : Run new_system was_read
unfolding new_system respond produce decode_down is_idle encode_down_frame
Run-was_read =
    then_step
      (then_step
        (then_step (then_step start (produces true chunk refl (omega arith) (omega arith) refl))
          (answers 0 refl))
        (arrives 0 (0 ∷ 0 ∷ 0 ∷ 0 ∷ 0 ∷ 2 ∷ chunk) result refl refl refl refl))
      (reads 5 refl)

Run-new_system-delivers_example :
    ((rest : Bytes) × (joined was_read.chunks ≡ was_read.log ++ rest))
    × ((n : ℕ)
        → (read n was_read.results was_read.receiver).1.0 ≡ at_eof
        → (was_read.stopped ≡ true) × (was_read.log ≡ joined was_read.chunks))
Run-new_system-delivers_example = Run-new_system-delivers was_read Run-was_read

find_replay-push_all_example :
    find_replay 9 (push_all (countdown 33) new_ring) ≡ wanted 9 (last_of 32 (countdown 33))
find_replay-push_all_example = find_replay-push_all 9 (countdown 33)
