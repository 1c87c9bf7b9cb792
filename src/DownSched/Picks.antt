-- ===== src/DownSched/Picks.antt =====
-- What a pass of `pick` does to the number of polls that the scheduler counts for each stream.
use tamizdat.DownSched.{Conn, Sched, is_active, write, remove_at, put}
use tamizdat.DownSched.Poll.{Pass, picked, waits, visit, scan, earlier}
use tamizdat.Prelude.{
  ℕ, ◌≤◌, Bool-cases, ◌==◌, inl, ◌≡◌, inr, length, ◌+◌, arith, Option, refl, suc, List, ◌∷◌, ◌%◌,
  get_or, [], zero, ◌∙◌, true, false,
}
use tamizdat.DownSched.Bounds.{visit-Bounds, visit-active, visit-full, visit-later, Visit-cases}
use tamizdat.DownSched.Counts.{Keeps, Keeps-refl, Keeps-trans, Retains, put-Keeps, remove_at-Keeps}

-- A pass that picks a stream picks one of `active` and counts one poll more for it, within the bound, and none for
-- another; a pass that waits leaves the counts.
abbrev pub Polled : Sched → Pass × Sched → Type 0
Polled s (picked id, t) =
    (is_active id s.active ≡ true)
    × ((t.store id).in_flight ≡ (s.store id).in_flight + 1)
    × ((t.store id).in_flight ≤ s.down_window)
    × ((other : ℕ) → (other == id) ≡ false → (t.store other).in_flight ≡ (s.store other).in_flight)
    × (t.down_window ≡ s.down_window)
    × Retains s t
Polled s (waits earliest, t) = Keeps s t

Polled-after : (s t : Sched) (r : Pass × Sched) → Keeps s t → Polled t r → Polled s r
Polled-after s t (picked id, u) (k0, k1, k2) (active, up, low, others, bound, retains) = (
  (elim (Bool-cases (is_active id s.active)) [
    | inl e ↦ e
    | inr e ↦ let gone = k2 id e in absurd (cc)
  ]),
  omega (arith, up, k0 id),
  omega (arith, low, k1),
  λ other e. others other e ∙ k0 other,
  bound ∙ k1,
  λ other e. retains other (k2 other e),
)
Polled-after s t (waits earliest, u) k h = Keeps-trans s t u k h

put-Polled :
    (id : ℕ) (c : Conn) (s : Sched) (next : ℕ)
    → is_active id s.active ≡ true
    → c.in_flight ≡ (s.store id).in_flight + 1
    → c.in_flight ≤ s.down_window
    → Polled s (picked id, put id c (record s { next = next }))
unfolding put write
put-Polled id c s next active up low =
    let here : (id == id) ≡ true = ground arith in
    (active, rw here up, rw here low, λ other e. rw e refl, refl, λ other h. h)

scan_round :
    (now left scanned : ℕ) (earliest : Option ℕ) (s : Sched) (xs : List ℕ)
    → s.conns ≡ xs
    → ((n : ℕ) (o : Option ℕ) (t : Sched) → Polled t (scan now left n o t))
    → Polled s (scan now (suc left) scanned earliest s)
unfolding scan
scan_round now left scanned earliest s [] e next = rw (e, scan) (Keeps-refl s)
scan_round now left scanned earliest s (first ∷ more) e next =
    let idx = (s.next + scanned) % length s.conns in
    let id = get_or s.conns idx 0 in
    let v = visit now s.down_window (is_active id s.active) (s.store id) in
    elim (Visit-cases v) [
      | inl h ↦
          let t = remove_at idx s in
          rw (e, h, scan)
            (Polled-after s t (scan now left scanned earliest t) (remove_at-Keeps idx s)
              (next scanned earliest t))
      | inr (inl (c, h)) ↦
          let t = put id c s in
          rw (e, h, scan)
            (Polled-after s t (scan now left (suc scanned) earliest t)
              (put-Keeps id c s (visit-full now s.down_window _ (s.store id) c h))
              (next (suc scanned) earliest t))
      | inr (inr (inl (c, due, h))) ↦
          let t = put id c s in
          rw (e, h, scan)
            (Polled-after s t (scan now left (suc scanned) (earlier earliest due) t)
              (put-Keeps id c s (visit-later now s.down_window _ (s.store id) c due h))
              (next (suc scanned) (earlier earliest due) t))
      | inr (inr (inr (c, h))) ↦
          let b = visit-Bounds now s.down_window _ (s.store id) c h in
          rw (e, h, scan)
            (put-Polled id c s ((idx + 1) % length s.conns)
              (visit-active now s.down_window (is_active id s.active) (s.store id) c h) b.0
              (omega (arith, b)))
    ]

pub scan-Polled :
    (now left scanned : ℕ) (earliest : Option ℕ) (s : Sched)
    → Polled s (scan now left scanned earliest s)
unfolding scan
scan-Polled now zero scanned earliest s = Keeps-refl s
scan-Polled now (suc left) scanned earliest s =
    scan_round now left scanned earliest s s.conns refl λ n o t. scan-Polled now left n o t
