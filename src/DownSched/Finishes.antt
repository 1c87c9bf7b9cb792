-- ===== src/DownSched/Finishes.antt =====
-- What `finish` does to the number of polls that the scheduler counts for each stream.
use tamizdat.DownSched.{
  stuck_timeout, app_stuck_timeout, Conn, Sched, Outcome, poll_data, poll_idle, poll_transient,
  poll_eof, poll_fatal, poll_closed, is_active, write, drop_conn, put,
}
use tamizdat.DownSched.Poll.{
  landed, or_now, after_data, after_idle, after_transient, settle, finish,
}
use tamizdat.Prelude.{
  ℕ, Bool-cases, ◌==◌, leb, inl, ◌≡◌, inr, ◌+◌, arith, refl, some, ◌∙◌, sym, ap, true, false, ◌-◌,
}
use tamizdat.DownSched.Counts.{Keeps, Keeps-trans, Retains, put-Keeps, drop_conn-Keeps}

put_drop :
    (id : ℕ) (c : Conn) (s : Sched)
    → c.in_flight ≡ (s.store id).in_flight
    → Keeps s (drop_conn id (put id c s))
put_drop id c s h =
    Keeps-trans s (put id c s) (drop_conn id (put id c s)) (put-Keeps id c s h)
      (drop_conn-Keeps id (put id c s))

settle-Keeps :
    (now id : ℕ) (o : Outcome) (c : Conn) (s : Sched)
    → c.in_flight ≡ (s.store id).in_flight
    → Keeps s (settle now id o c s).0
unfolding settle after_data after_idle after_transient
settle-Keeps now id poll_data c s h = put-Keeps id (after_data now s.down_window c) s h
settle-Keeps now id poll_idle c s h =
    elim (Bool-cases (leb (or_now now c.last_payload + app_stuck_timeout) now)) [
      | inl e ↦ rw (e, settle) (put_drop id (after_idle now c) s h)
      | inr e ↦ rw (e, settle) (put-Keeps id (after_idle now c) s h)
    ]
settle-Keeps now id poll_transient c s h =
    elim (Bool-cases (leb (or_now now c.last_progress + stuck_timeout) now)) [
      | inl e ↦
          rw (e, settle)
            (put_drop id (record c { last_progress = some (or_now now c.last_progress) }) s h)
      | inr e ↦ rw (e, settle) (put-Keeps id (after_transient now c) s h)
    ]
settle-Keeps now id poll_eof c s h = drop_conn-Keeps id s
settle-Keeps now id poll_fatal c s h = drop_conn-Keeps id s
settle-Keeps now id poll_closed c s h = drop_conn-Keeps id s

-- The end of a poll takes one from its stream's count, and leaves those of the others.
abbrev pub Landed : ℕ → Sched → Sched → Type 0
Landed id s t =
    ((t.store id).in_flight ≡ (s.store id).in_flight - 1)
    × ((other : ℕ) → (other == id) ≡ false → (t.store other).in_flight ≡ (s.store other).in_flight)
    × (t.down_window ≡ s.down_window)
    × Retains s t

Landed-then : (id : ℕ) (s t u : Sched) → Landed id s t → Keeps t u → Landed id s u
Landed-then id s t u (down, others, bound, retains) (k0, k1, k2) = (
  k0 id ∙ down,
  λ other e. k0 other ∙ others other e,
  k1 ∙ bound,
  λ other e. k2 other (retains other e),
)

landed_one : (c : Conn) → (landed c).in_flight ≡ c.in_flight - 1
unfolding landed
landed_one c = ground arith

put-Landed : (id : ℕ) (s : Sched) → Landed id s (put id (landed (s.store id)) s)
unfolding put write
put-Landed id s =
    let here : (id == id) ≡ true = ground arith in
    (rw here (landed_one (s.store id)), λ other e. rw e refl, refl, λ other h. h)

put_here : (id : ℕ) (c : Conn) (s : Sched) → (put id c s).store id ≡ c
unfolding put write
put_here id c s = let here : (id == id) ≡ true = ground arith in rw here refl

pub finish-Landed : (now id : ℕ) (o : Outcome) (s : Sched) → Landed id s (finish now id o s).0
unfolding finish
finish-Landed now id o s =
    let c = landed (s.store id) in
    let kept = put id c s in
    let k = put-Landed id s in
    elim (Bool-cases (is_active id s.active)) [
      | inl e ↦
          rw (e, finish)
            (Landed-then id s kept (settle now id o c kept).0 k (
              settle-Keeps now id o c kept
                (sym (ap (λ (d : Conn). d.in_flight) (put_here id c s)))))
      | inr e ↦ rw (e, finish) k
    ]
