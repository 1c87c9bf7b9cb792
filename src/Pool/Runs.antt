-- ===== src/Pool/Runs.antt =====
-- Any interleaving of the pool's sections, of the dials' ends, and of what happens to a transport in use.
use tamizdat.Pool.{
  Transport, Pool, new_pool, reserve_slot, get_begin, end_dial, append_dialed, usable_count,
  top_up_begin, resize, cleanup, close,
}
use tamizdat.Pool.Limits.{
  WithinLimit, usable_one, usable_count-set, All-set, reserve_slot-granted, IsSound,
  get_begin-IsSound, append_dialed-IsSound, top_up_begin-IsSound, resize-IsSound, cleanup-IsSound,
  close-IsSound,
}
use tamizdat.Prelude.{
  ◌≡◌, ℕ, List, ◌≤◌, inr, ◌-◌, some, All, arith, Option, true, get_elem?, set, ◌∷◌, suc, [], zero,
}

-- What users do to a transport: a stream ends, the transport drains, or it is closed.
pub data Used (t : Transport) (u : Transport) : Type 0 where
  released : u ≡ record t { active_streams = t.active_streams - 1 } → Used t u
  drained : u ≡ record t { is_draining = true } → Used t u
  shut : u ≡ record t { is_closed = true } → Used t u

pub data Step (p : Pool) (q : Pool) : Type 0 where
  gets : (now : ℕ) → q ≡ (get_begin now p).0 → Step p q
  ends_dial : q ≡ end_dial p → Step p q
  takes_reserved :
      (dialed t : Transport)
      → dialed.active_streams ≡ 0
      → reserve_slot dialed ≡ some t
      → q ≡ (append_dialed t p).0
      → Step p q
  tops_up : q ≡ (top_up_begin p).0 → Step p q
  takes_fresh :
      (dialed : Transport) → dialed.active_streams ≡ 0 → q ≡ (append_dialed dialed p).0 → Step p q
  resizes : (least most : ℕ) → q ≡ (resize least most p).0 → Step p q
  cleans : (now : ℕ) → q ≡ cleanup now p → Step p q
  closes : q ≡ close p → Step p q
  uses :
      (i : ℕ) (t u : Transport)
      → get_elem? p.transports i ≡ some t
      → Used t u
      → q ≡ record p { transports = set p.transports i u }
      → Step p q

pub data Run (p : Pool) : Pool → Type 0 where
  start : Run p p
  then_step : {q r : Pool} → Run p q → Step q r → Run p r

get_elem?-All :
    (ts : List Transport) (i : ℕ) (t : Transport)
    → All WithinLimit ts
    → get_elem? ts i ≡ some t
    → WithinLimit t
get_elem?-All [] i t a h = absurd (cc)
get_elem?-All (x ∷ ts) zero t a h = ground arith
get_elem?-All (x ∷ ts) (suc i) t a h = get_elem?-All ts i t a.1 h

Used-WithinLimit :
    (t u : Transport) → Used t u → WithinLimit t → WithinLimit u × (usable_one u ≤ usable_one t)
Used-WithinLimit t u (released e) w = ground arith
Used-WithinLimit t u (drained e) w = ground arith
Used-WithinLimit t u (shut e) w = ground arith

end_dial-IsSound : (p : Pool) → IsSound p → IsSound (end_dial p)
unfolding end_dial
end_dial-IsSound p s = record { few = s.few; within = s.within }

Step-IsSound : (p q : Pool) → Step p q → IsSound p → IsSound q
Step-IsSound p q (gets now e) s = rw e (get_begin-IsSound now p s)
Step-IsSound p q (ends_dial e) s = rw e (end_dial-IsSound p s)
Step-IsSound p q (takes_reserved dialed t z h e) s =
    rw e (append_dialed-IsSound t p (reserve_slot-granted dialed t h).2 s)
Step-IsSound p q (tops_up e) s = rw e (top_up_begin-IsSound p s)
Step-IsSound p q (takes_fresh dialed z e) s =
    rw e (append_dialed-IsSound dialed p (inr (omega arith)) s)
Step-IsSound p q (resizes least most e) s = rw e (resize-IsSound least most p s)
Step-IsSound p q (cleans now e) s = rw e (cleanup-IsSound now p s)
Step-IsSound p q (closes e) s = rw e (close-IsSound p s)
Step-IsSound p q (uses i t u found used e) s =
    let w = Used-WithinLimit t u used (get_elem?-All p.transports i t s.within found) in
    rw e (record {
      few = omega (arith, usable_count-set p.transports i t u found w.1, s.few);
      within = All-set p.transports i u s.within w.0;
    })

Run-IsSound : (p q : Pool) → Run p q → IsSound p → IsSound q
Run-IsSound p _ start s = s
Run-IsSound p q (then_step {q = mid} r step) s = Step-IsSound mid q step (Run-IsSound p mid r s)

-- In every pool that a new one comes to, by its own sections in any order with the ends of dials and of streams,
-- drains and closes between them, the usable transports are at most the maximum and the overlap allowance, and no
-- transport has more streams than its limit.
pub Run-new_pool-IsSound :
    (idle least most soft_cap : ℕ) (allowance : Option ℕ) (q : Pool)
    → Run (new_pool idle least most soft_cap allowance) q
    → IsSound q
unfolding new_pool usable_count
Run-new_pool-IsSound idle least most soft_cap allowance q r =
    Run-IsSound (new_pool idle least most soft_cap allowance) q r
      (record { few = omega arith; within = tt })
