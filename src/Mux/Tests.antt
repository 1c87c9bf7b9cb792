-- ===== src/Mux/Tests.antt =====
-- A stream writes two bytes under the smallest limit, and a server that a peer has opened a stream of reads them.
use tamizdat.Mux.{read_raw_frame, decode_frame, encode_frame, max_frame_payload, write}
use tamizdat.Mux.Arrival.{frames, read_loop-Carries}
use tamizdat.Mux.Loop.{read_loop}
use tamizdat.Mux.Ends.{Ends}
use tamizdat.Mux.Reading.{pending}
use tamizdat.Mux.RoundTrip.{Carries, write-Carries, nothing, frame_of}
use tamizdat.Mux.Runs.{Run-new_session-IsLinked, then_step, start, handles, handles_late, closes}
use tamizdat.Mux.Session.{
  Session, handle_open, new_session, new_stream, done, blocked, handle_frame, handle_found,
  close_stream, read_capacity,
}
use tamizdat.Mux.Table.{IsLinked}
use tamizdat.Prelude.Assoc.{lookup}
use tamizdat.Prelude.{◌∷◌, ◌≡◌, [], refl, some, none, arith, true, false, ◌++◌, length, ◌+◌, ◌≤◌}
use tamizdat.Prelude.Bytes.{Bytes}

short_frame : encode_frame 0x20 3 (7 ∷ 8 ∷ []) ≡ some (32 ∷ 0 ∷ 0 ∷ 0 ∷ 3 ∷ 0 ∷ 2 ∷ 7 ∷ 8 ∷ [])
unfolding encode_frame
short_frame = refl

cut_frame : decode_frame (32 ∷ 0 ∷ 0 ∷ 0 ∷ 3 ∷ 0 ∷ 2 ∷ 7 ∷ []) ≡ none
unfolding decode_frame
cut_frame = refl

small_limit : max_frame_payload 100 ≡ 256
unfolding max_frame_payload
small_limit = refl

write-Carries_example :
    (conn : Bytes) × (write (max_frame_payload 256) 3 (7 ∷ 8 ∷ []) ≡ some conn)
    × Carries (max_frame_payload 256) 3 conn (7 ∷ 8 ∷ [])
write-Carries_example = write-Carries 256 3 (7 ∷ 8 ∷ []) (omega arith)

abbrev two_bytes : Bytes
two_bytes = 32 ∷ 0 ∷ 0 ∷ 0 ∷ 3 ∷ 0 ∷ 2 ∷ 7 ∷ 8 ∷ []

two_bytes-Carries : Carries 256 3 two_bytes (7 ∷ 8 ∷ [])
unfolding read_raw_frame decode_frame
two_bytes-Carries = frame_of (7 ∷ 8 ∷ []) refl (omega arith) (omega arith) nothing

abbrev opened : Session
opened =
    handle_open true (record { typ = 0x10; stream_id = 3; payload = 1 ∷ [] })
      (new_session true (λ h. new_stream h))

opened_stream : lookup 3 opened.streams ≡ some 0
unfolding handle_open new_session lookup encode_frame
opened_stream = refl

opened_open : (opened.objects 0).shut ≡ false
unfolding handle_open new_session encode_frame
opened_open = refl

opened_room : length (opened.objects 0).queue + frames two_bytes-Carries ≤ read_capacity
unfolding handle_open new_session encode_frame frames two_bytes-Carries
opened_room = omega arith

read_loop-Carries_example :
    (t : Session) × (read_loop (λ round. true) two_bytes opened ≡ some (done t))
    × (pending (t.objects 0) ≡ pending (opened.objects 0) ++ 7 ∷ 8 ∷ [])
read_loop-Carries_example =
    read_loop-Carries (λ round. true) 256 3 0 two_bytes (7 ∷ 8 ∷ []) opened two_bytes-Carries
      opened_stream opened_open opened_room

-- A client's stream whose channel of replies is full.
abbrev answered : Session
answered = record (new_session false (λ h. record (new_stream h) { replies = some (true ∷ []) })) {
  streams = (1, 0) ∷ [];
}

-- One more answer to the opening of that stream.
second_answer_waits :
    read_loop (λ round. true) (17 ∷ 0 ∷ 0 ∷ 0 ∷ 1 ∷ 0 ∷ 0 ∷ []) answered ≡ some blocked
unfolding read_loop new_session lookup
second_answer_waits = refl

handled_open :
    handle_frame true
      (record { typ = 0x10; stream_id = 3; payload = 1 ∷ [] })
      (new_session true (λ h. new_stream h))
    ≡ done opened
unfolding handle_frame
handled_open = refl

abbrev closed_stream : Session
closed_stream = close_stream true 0 opened

-- Data for the stream, looked up before it was closed and pushed afterwards.
late_data :
    handle_found (record { typ = 0x20; stream_id = 3; payload = 9 ∷ [] }) 0 closed_stream
    ≡ done closed_stream
unfolding handle_found close_stream handle_open new_session encode_frame
late_data = refl

Run-new_session-IsLinked_example : IsLinked closed_stream
Run-new_session-IsLinked_example =
    Run-new_session-IsLinked true (λ h. new_stream h) closed_stream
      (then_step (then_step (then_step start (handles true _ handled_open)) (closes true 0 refl))
        (handles_late _ 0 late_data))
