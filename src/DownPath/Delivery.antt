-- ===== src/DownPath/Delivery.antt =====
-- What the client reads is the stream, in its order and without a gap, and the end is its end.
use tamizdat.DownPath.{DownFrame, Session, produce, respond, respond_from_channel, respond_late}
use tamizdat.DownPath.Frames.{
  IsAnswer, Responds, produce-IsStocked, respond-Responds, respond_from_channel-Responds,
  respond_late-Responds,
}
use tamizdat.DownPath.Chunks.{get_elem?_last, joined}
use tamizdat.DownPath.Parts.{IsPart, read-IsReadOf}
use tamizdat.DownPath.Receiver.{read, at_eof}
use tamizdat.DownPath.Ring.{new_ring, frames_from}
use tamizdat.Prelude.Bytes.{Bytes}
use tamizdat.Prelude.{
  ℕ, Bool, List, Option, none, some, ◌∷◌, [], ◌++◌, length, ◌^◌, suc, zero, true, arith, ◌≡◌, ◌<◌,
  sym, ap, ◌∙◌, inl, inr, length-append, take, drop, not, append_assoc, All-append, refl,
  append-nil,
}
use mathlib.Core.Path.{subst}
use tamizdat.DownPath.LastFrames.{new_ring-IsRing}
use tamizdat.DownPath.Network.{
  Run, Step, System, add_answer, answers, arrives, chunk_frame, end_frame, finishes, gives_up,
  new_system, produces, reads, start, then_step, wakes,
}
use tamizdat.Prelude.Assoc.{lookup}
use tamizdat.DownPath.Growth.{IsFrame, IsSound, All-get, answer-IsPart, grown, grown-IsSound}

-- A session that answers, and its answer on the network.
answered_lem :
    (s : System) (o : Session × Option Bytes)
    → IsSound s
    → Responds (IsFrame s.chunks s.stopped) o
    → IsSound (record s { session = o.0; sent = add_answer o.1 s.sent })
answered_lem s (session, none) k (st, a) = record {
  few = k.few;
  stocked = st;
  answered = k.answered;
  parts = k.parts;
  in_order = k.in_order;
}
answered_lem s (session, some b) k (st, a) = record {
  few = k.few;
  stocked = st;
  answered = All-append (IsAnswer (IsFrame s.chunks s.stopped)) s.sent (b ∷ []) k.answered (a, tt);
  parts = k.parts;
  in_order = k.in_order;
}

produced-IsSound :
    (takes : Bool) (f : DownFrame) (s : System)
    → IsFrame s.chunks s.stopped f
    → IsSound s
    → IsSound (record s { session = produce takes f s.session })
produced-IsSound takes f s p k = record {
  few = k.few;
  stocked = produce-IsStocked (IsFrame s.chunks s.stopped) takes f s.session p k.stocked;
  answered = k.answered;
  parts = k.parts;
  in_order = k.in_order;
}

Step-IsSound : (s t : System) → Step s t → IsSound s → IsSound t
unfolding grown
Step-IsSound s t (produces takes c flowing len few e) k =
    let longer = length-append s.chunks (c ∷ []) in
    let g = grown-IsSound (c ∷ []) (not takes) s flowing (omega (arith, longer)) k in
    rw e (
      produced-IsSound takes (chunk_frame c s) (grown (c ∷ []) (not takes) s)
        (inl (refl, get_elem?_last s.chunks c), len) g)
Step-IsSound s t (finishes takes flowing e) k =
    let whole = append-nil s.chunks in
    let few : suc (length (s.chunks ++ [])) < 2 ^ 32 = rw whole k.few in
    let g = grown-IsSound [] true s flowing few k in
    let ended : IsSound (record s { stopped = true }) =
      subst (λ (cs : List Bytes). IsSound (record s { chunks = cs; stopped = true })) whole g in
    rw e (
      produced-IsSound takes (end_frame s) (record s { stopped = true })
        (inr (refl, refl, refl), omega arith) ended)
Step-IsSound s t (answers ack e) k = rw e (
    answered_lem s (respond ack s.session) k
      (respond-Responds (IsFrame s.chunks s.stopped) ack s.session k.stocked))
Step-IsSound s t (wakes should ack e) k = rw e (
    answered_lem s (respond_from_channel should ack s.session) k
      (respond_from_channel-Responds (IsFrame s.chunks s.stopped) should ack s.session k.stocked))
Step-IsSound s t (gives_up ack e) k =
    let o = respond_late ack s.session in
    rw e (
      answered_lem s (o.0, some o.1) k
        (respond_late-Responds (IsFrame s.chunks s.stopped) ack s.session k.stocked))
Step-IsSound s t (arrives i b res at d idle e) k =
    let a = All-get (IsAnswer (IsFrame s.chunks s.stopped)) s.sent i b k.answered at in
    let part = answer-IsPart s.chunks s.stopped b res k.few a d idle in
    rw e (record {
      few = k.few;
      stocked = k.stocked;
      answered = k.answered;
      parts = All-append (IsPart s.chunks s.stopped) s.results (res ∷ []) k.parts (part, tt);
      in_order = k.in_order;
    })
Step-IsSound s t (reads n e) k =
    let r =
      read-IsReadOf s.chunks s.stopped s.log n s.results s.receiver k.few k.in_order k.parts in
    rw e (record {
      few = k.few;
      stocked = k.stocked;
      answered = k.answered;
      parts = r.left_parts;
      in_order = r.after;
    })

Run-IsSound : (s t : System) → Run s t → IsSound s → IsSound t
Run-IsSound s _ start k = k
Run-IsSound s t (then_step {t = mid} r p) k = Step-IsSound mid t p (Run-IsSound s mid r k)

new_system-IsSound : IsSound new_system
unfolding new_system new_ring frames_from lookup joined
new_system-IsSound = record {
  few = omega arith;
  stocked = record { whole = unfold new_ring in new_ring-IsRing; kept = tt; waiting = tt };
  answered = tt;
  parts = tt;
  in_order = record {
    order = refl;
    stored = λ j b q. absurd (cc);
    keys = tt;
    ends = λ m q. absurd (cc);
    bound = omega arith;
    open_bound = inr (omega arith);
  };
}

joined-cut : (k : ℕ) (cs : List Bytes) → joined (take k cs) ++ joined (drop k cs) ≡ joined cs
unfolding joined
joined-cut zero cs = refl
joined-cut (suc k) [] = refl
joined-cut (suc k) (c ∷ cs) =
    append_assoc c (joined (take k cs)) (joined (drop k cs))
    ∙ ap (λ (t : Bytes). c ++ t) (joined-cut k cs)

-- In every run of the two ends, over a network that loses, repeats and reorders answers, with fewer than 2^32 - 1
-- chunks of at most 480 bytes: what the client has read is the start of what the destination has sent, in its order
-- and without a gap; and a read ends with io.EOF only once the producer has stopped and all of it has been read.
pub Run-new_system-delivers :
    (t : System)
    → Run new_system t
    → ((rest : Bytes) × (joined t.chunks ≡ t.log ++ rest))
      × ((n : ℕ)
          → (read n t.results t.receiver).1.0 ≡ at_eof
          → (t.stopped ≡ true) × (t.log ≡ joined t.chunks))
Run-new_system-delivers t r =
    let k = Run-IsSound new_system t r new_system-IsSound in
    let left = joined (drop t.receiver.next_seq t.chunks) in
    (
      (
        t.receiver.read_buf ++ left,
        sym (joined-cut t.receiver.next_seq t.chunks)
            ∙ ap (λ (x : Bytes). x ++ left) (sym k.in_order.order)
            ∙ append_assoc t.log t.receiver.read_buf left,
      ),
      λ n e.
          (read-IsReadOf t.chunks t.stopped t.log n t.results t.receiver k.few k.in_order
              k.parts).complete
            e,
    )
