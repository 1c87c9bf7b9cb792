-- ===== src/DownSched/Bounds.antt =====
-- What one visit of the scan does to a stream's polls and window.
use tamizdat.DownSched.{Conn, idle_initial, idle_max, grow_delay}
use tamizdat.DownSched.Poll.{Visit, gone, full, later, ready, clamp, due_after, visit_open, visit}
use tamizdat.Prelude.{
  ℕ, ◌≤◌, Option-cases, Bool, ◌⊎◌, inl, ◌≡◌, inr, ◌+◌, arith, Option, refl, none, true, false, some,
}

-- A grown delay stays between the initial one and the maximum.
pub grow_delay_range :
    (current : ℕ)
    → (current ≡ 0) ⊎ (idle_initial ≤ current)
    → (idle_initial ≤ grow_delay current idle_max) × (grow_delay current idle_max ≤ idle_max)
unfolding grow_delay
grow_delay_range current h = ground arith

-- A stream that a visit finds ready gets one poll more, and its polls are then no more than its window, the
-- window no more than downWindow, and the polls with the results that wait no more than its channel takes.
pub visit-Bounds :
    (now down_window : ℕ) (active : Bool) (c d : Conn)
    → visit now down_window active c ≡ ready d
    → (d.in_flight ≡ c.in_flight + 1)
      × (d.in_flight ≤ d.window)
      × (d.window ≤ down_window)
      × (c.queued + d.in_flight ≤ c.capacity)
unfolding visit visit_open clamp
visit-Bounds now down_window active c d h = elim (Option-cases (due_after now c.next_poll)) [
  | inl e ↦ ground arith
  | inr (t, e) ↦ ground arith
]

-- A stream that a visit finds ready is in `active`.
pub visit-active :
    (now down_window : ℕ) (active : Bool) (c d : Conn)
    → visit now down_window active c ≡ ready d
    → active ≡ true
unfolding visit
visit-active now down_window true c d h = refl
visit-active now down_window false c d h = absurd (cc)

due_cases :
    (now : ℕ) (o : Option ℕ) → (due_after now o ≡ none) ⊎ ((t : ℕ) × (due_after now o ≡ some t))
due_cases now o = Option-cases (due_after now o)

pub visit-full :
    (now down_window : ℕ) (active : Bool) (c d : Conn)
    → visit now down_window active c ≡ full d
    → d.in_flight ≡ c.in_flight
unfolding visit visit_open clamp
visit-full now down_window active c d h = elim (due_cases now c.next_poll) [
  | inl e ↦ ground arith
  | inr (t, e) ↦ ground arith
]

pub visit-later :
    (now down_window : ℕ) (active : Bool) (c d : Conn) (at_time : ℕ)
    → visit now down_window active c ≡ later d at_time
    → d.in_flight ≡ c.in_flight
unfolding visit visit_open clamp
visit-later now down_window active c d at_time h = elim (due_cases now c.next_poll) [
  | inl e ↦ ground arith
  | inr (t, e) ↦ ground arith
]

pub Visit-cases :
    (v : Visit)
    → (v ≡ gone)
      ⊎ (((c : Conn) × (v ≡ full c))
          ⊎ (((c : Conn) × (t : ℕ) × (v ≡ later c t)) ⊎ ((c : Conn) × (v ≡ ready c))))
Visit-cases gone = inl refl
Visit-cases (full c) = inr (inl (c, refl))
Visit-cases (later c t) = inr (inr (inl (c, t, refl)))
Visit-cases (ready c) = inr (inr (inr (c, refl)))
