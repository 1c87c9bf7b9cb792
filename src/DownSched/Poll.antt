-- ===== src/DownSched/Poll.antt =====
-- `pick`, one pass of its scan, and `finish` of internal/transport/fragpoc/scheduler.go.
use tamizdat.DownSched.{
  Conn, Sched, Outcome, poll_data, poll_idle, poll_transient, poll_eof, poll_fatal, poll_closed,
  is_active, grow_delay, idle_initial, idle_max, stuck_timeout, app_stuck_timeout, remove_at,
  drop_conn, put,
}
use tamizdat.Prelude.{
  ℕ, Option, if◌then◌else◌, ◌==◌, some, leb, Bool, suc, length, ltb, none, ◌||◌, not, [], ◌-◌, ◌+◌,
  false, ◌∷◌, true, ◌%◌, get_or, zero,
}

-- What the scan finds at one stream: it is to be removed, it has as many polls as its window or its channel
-- takes, its next poll is at a later time, or it is polled now.
pub data Visit : Type 0 where
  gone : Visit
  full : Conn → Visit
  later : Conn → ℕ → Visit
  ready : Conn → Visit

-- The window, at least 1 and at most downWindow.
unfoldable pub clamp : ℕ → Conn → Conn
clamp down_window c =
    let window = if c.window == 0 then 1 else c.window in
    record c { window = if ltb down_window window then down_window else window }

-- The time of the next poll where it is after now.
unfoldable pub due_after : ℕ → Option ℕ → Option ℕ
due_after now none = none
due_after now (some t) = if ltb now t then some t else none

unfoldable pub visit_open : ℕ → Conn → Visit
unfolding due_after
visit_open now c =
    if leb c.window c.in_flight || leb c.capacity (c.queued + c.in_flight)
    then full c
    else elim (due_after now c.next_poll) [
      | some t ↦ later c t
      | none ↦ ready (record c { in_flight = c.in_flight + 1 })
    ]

unfoldable pub visit : ℕ → ℕ → Bool → Conn → Visit
unfolding clamp visit_open
visit now down_window active c =
    if not active || (c.is_closed || c.eof) then gone else visit_open now (clamp down_window c)

-- `earliest` after a stream whose next poll is at `t`.
unfoldable pub earlier : Option ℕ → ℕ → Option ℕ
earlier none t = some t
earlier (some e) t = if ltb t e then some t else some e

-- The end of a pass: the stream that `pick` returns, or the earliest time of a next poll.
pub data Pass : Type 0 where
  picked : ℕ → Pass
  waits : Option ℕ → Pass

-- The scan, where `left` is `n - scanned`.
unfoldable pub scan : ℕ → ℕ → ℕ → Option ℕ → Sched → Pass × Sched
unfolding visit earlier remove_at put is_active
scan now zero scanned earliest s = (waits earliest, s)
scan now (suc left) scanned earliest s = elim s.conns [
  | [] ↦ (waits earliest, s)
  | first ∷ more ↦
      let idx = (s.next + scanned) % length s.conns in
      let id = get_or s.conns idx 0 in
      elim (visit now s.down_window (is_active id s.active) (s.store id)) [
        | gone ↦ scan now left scanned earliest (remove_at idx s)
        | full c ↦ scan now left (suc scanned) earliest (put id c s)
        | later c t ↦ scan now left (suc scanned) (earlier earliest t) (put id c s)
        | ready c ↦ (picked id, put id c (record s { next = (idx + 1) % length s.conns }))
      ]
]

-- One pass of `pick`.
unfoldable pub pick_pass : ℕ → Sched → Pass × Sched
unfolding scan
pick_pass now s = scan now (length s.conns) 0 none s

-- The first lines of `finish`.
unfoldable pub landed : Conn → Conn
landed c = if ltb 0 c.in_flight then record c { in_flight = c.in_flight - 1 } else c

unfoldable pub after_data : ℕ → ℕ → Conn → Conn
after_data now down_window c =
    let window = if c.window == 0 then 1 else c.window in
    record c {
      window = if ltb window down_window then window + 1 else window;
      idle_delay = idle_initial;
      error_delay = idle_initial;
      next_poll = some now;
      last_progress = some now;
      last_payload = some now;
    }

unfoldable pub or_now : ℕ → Option ℕ → ℕ
or_now now none = now
or_now now (some t) = t

unfoldable pub after_idle : ℕ → Conn → Conn
unfolding grow_delay or_now
after_idle now c =
    let delay = if c.idle_delay == 0 then idle_initial else c.idle_delay in
    record c {
      window = 1;
      error_delay = idle_initial;
      next_poll = some (now + delay);
      idle_delay = grow_delay delay idle_max;
      last_progress = some now;
      last_payload = some (or_now now c.last_payload);
    }

unfoldable pub after_transient : ℕ → Conn → Conn
unfolding grow_delay or_now
after_transient now c =
    let delay = if c.error_delay == 0 then idle_initial else c.error_delay in
    record c {
      window = 1;
      idle_delay = idle_initial;
      next_poll = some (now + delay);
      error_delay = grow_delay delay idle_max;
      last_progress = some (or_now now c.last_progress);
    }

-- The `switch` of `finish`: the scheduler, and whether the stream is stuck.
unfoldable pub settle : ℕ → ℕ → Outcome → Conn → Sched → Sched × Bool
unfolding put after_data after_idle after_transient or_now drop_conn
settle now id poll_data c s = (put id (after_data now s.down_window c) s, false)
settle now id poll_idle c s =
    let kept = put id (after_idle now c) s in
    if leb (or_now now c.last_payload + app_stuck_timeout) now
    then (drop_conn id kept, true)
    else (kept, false)
settle now id poll_transient c s =
    if leb (or_now now c.last_progress + stuck_timeout) now
    then (
      drop_conn id (put id (record c { last_progress = some (or_now now c.last_progress) }) s),
      true,
    )
    else (put id (after_transient now c) s, false)
settle now id poll_eof c s = (drop_conn id s, false)
settle now id poll_fatal c s = (drop_conn id s, false)
settle now id poll_closed c s = (drop_conn id s, false)

-- `finish` up to the unlock: the scheduler, and whether the stream is then failed with errSchedulerStuck.
unfoldable pub finish : ℕ → ℕ → Outcome → Sched → Sched × Bool
unfolding landed put settle is_active
finish now id outcome s =
    let c = landed (s.store id) in
    let kept = put id c s in
    if is_active id s.active then settle now id outcome c kept else (kept, false)
