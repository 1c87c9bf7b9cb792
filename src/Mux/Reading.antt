-- ===== src/Mux/Reading.antt =====
-- What `muxStream.Read` gives, without a deadline.
use tamizdat.Mux.Session.{Stream}
use tamizdat.Prelude.Bytes.{Bytes}
use tamizdat.Prelude.{
  ℕ, List, ◌<◌, ◌∷◌, ◌++◌, [], ◌≡◌, length, drop, take, true, sym, append_assoc, ◌∙◌, ap,
  take-append-drop, refl,
}

-- The result of a read: bytes, or io.EOF.
pub data ReadOut : Type 0 where
  got : Bytes → ReadOut
  eof : ReadOut

-- `Read` of at most `n` bytes, where it does not wait. On a stream that is shut, the code's select may pick either
-- ready case, the bytes of the channel or the end.
pub data Reads (n : ℕ) (st : Stream) : Stream → ReadOut → Type 0 where
  from_left :
      {t : Stream}
      → 0 < length st.left
      → t ≡ record st { left = drop n st.left }
      → Reads n st t (got (take n st.left))
  from_queue :
      {t : Stream} (b : Bytes) (more : List Bytes)
      → st.left ≡ []
      → st.queue ≡ b ∷ more
      → t ≡ record st { queue = more; left = drop n b }
      → Reads n st t (got (take n b))
  at_end : {t : Stream} → st.left ≡ [] → st.shut ≡ true → t ≡ st → Reads n st t eof

-- The bytes that wait to be read.
unfoldable pub join : List Bytes → Bytes
join [] = []
join (b ∷ bs) = b ++ join bs

abbrev pub pending : Stream → Bytes
pending st = st.left ++ join st.queue

-- Reads that give bytes, with all that they give.
pub data ReadRun (st : Stream) : Stream → Bytes → Type 0 where
  unread : ReadRun st st []
  then_read :
      {t u : Stream} {log : Bytes} (n : ℕ) (b : Bytes)
      → ReadRun st t log
      → Reads n t u (got b)
      → ReadRun st u (log ++ b)

read_pending :
    (n : ℕ) (st t : Stream) (o : ReadOut)
    → Reads n st t o
    → (b : Bytes) → o ≡ got b
    → b ++ pending t ≡ pending st
unfolding join
read_pending n st t _ (from_left h e) b q =
    let c : take n st.left ≡ b = cc in
    rw (e, sym c)
      (sym (append_assoc (take n st.left) (drop n st.left) (join st.queue))
        ∙ ap (λ (x : Bytes). x ++ join st.queue) (take-append-drop n st.left))
read_pending n st t _ (from_queue c more l m e) b q =
    let d : take n c ≡ b = cc in
    rw (e, l, m, sym d, join)
      (sym (append_assoc (take n c) (drop n c) (join more))
        ∙ ap (λ (x : Bytes). x ++ join more) (take-append-drop n c))
read_pending n st t _ (at_end l s e) b q = absurd (cc)

-- Whatever reads give, of whatever sizes: it is, one behind the other, the start of what waited, and the rest waits
-- still.
pub ReadRun-pending :
    (st t : Stream) (log : Bytes) → ReadRun st t log → log ++ pending t ≡ pending st
ReadRun-pending st _ _ unread = refl
ReadRun-pending st u _ (then_read {t = mid} {log = before} n b r h) =
    append_assoc before b (pending u)
    ∙ ap (λ (x : Bytes). before ++ x) (read_pending n mid u (got b) h b refl)
    ∙ ReadRun-pending st mid before r
