-- ===== src/DownSched.antt =====
-- The scheduler of the DOWN polls: internal/transport/fragpoc/scheduler.go, `downScheduler`.
-- A stream (`*Conn`) is a number, and the fields that the scheduler reads are in a store from these
-- numbers. Times are nanoseconds, the zero time is `none`, and the clock is an argument. One pass of the loop of
-- `pick` is a function; its waits are values.
pub mod Poll
pub mod Queue
pub mod Bounds
pub mod Counts
pub mod Picks
pub mod Finishes
pub mod Tally
pub mod Runs
mod Tests
use tamizdat.Prelude.{
  ℕ, Bool, true, Option, List, if◌then◌else◌, none, [], length, false, ◌∷◌, ◌==◌, leb, some, ◌||◌,
  ltb, suc, ◌-◌, ◌++◌, ◌+◌, ◌*◌, zero,
}

-- 100 ms, 2 s, 75 s and 120 s. The initial delay after an error is that after an idle poll, and so is the
-- maximum.
abbrev pub idle_initial : ℕ
idle_initial = 100000000

abbrev pub idle_max : ℕ
idle_max = 2000000000

abbrev pub stuck_timeout : ℕ
stuck_timeout = 75000000000

abbrev pub app_stuck_timeout : ℕ
app_stuck_timeout = 120000000000

-- The fields of `Conn` that belong to the scheduler, with its flags, and the length and capacity of its channel.
pub record Conn : Type 0 where
  pub is_closed : Bool
  pub eof : Bool
  pub idle_delay : ℕ
  pub error_delay : ℕ
  pub next_poll : Option ℕ
  pub in_flight : ℕ
  pub window : ℕ
  pub last_progress : Option ℕ
  pub last_payload : Option ℕ
  pub queued : ℕ
  pub capacity : ℕ

-- `downScheduler`, with the client's downWindow and the streams.
pub record Sched : Type 0 where
  pub closed : Bool
  pub next : ℕ
  pub conns : List ℕ
  pub active : List ℕ
  pub down_window : ℕ
  pub store : ℕ → Conn

-- `downPollOutcome`.
pub data Outcome : Type 0 where
  poll_data : Outcome
  poll_idle : Outcome
  poll_transient : Outcome
  poll_eof : Outcome
  poll_fatal : Outcome
  poll_closed : Outcome

-- A key in the map `active`.
unfoldable pub is_active : ℕ → List ℕ → Bool
is_active id [] = false
is_active id (x ∷ xs) = x == id || is_active id xs

-- delete(s.active, conn).
unfoldable pub without : ℕ → List ℕ → List ℕ
without id [] = []
without id (x ∷ xs) = if x == id then without id xs else x ∷ without id xs

unfoldable pub write : ℕ → Conn → (ℕ → Conn) → ℕ → Conn
write id c store other = if other == id then c else store other

-- `growDelay`.
unfoldable pub grow_delay : ℕ → ℕ → ℕ
grow_delay current top =
    let from = if current == 0 then idle_initial else current in
    if ltb top (from * 2) then top else from * 2

-- The cut of the slice by `removeAtLocked`.
unfoldable pub cut_at : ℕ → List ℕ → List ℕ
cut_at i [] = []
cut_at zero (x ∷ xs) = xs
cut_at (suc i) (x ∷ xs) = x ∷ cut_at i xs

-- The index that `removeAtLocked` goes on with, where `left` streams are left.
unfoldable pub next_after : ℕ → ℕ → ℕ → ℕ
next_after i next left =
    if left == 0
    then 0
    else let moved = if ltb i next then next - 1 else next in if leb left moved then 0 else moved

-- `removeAtLocked`.
unfoldable pub remove_at : ℕ → Sched → Sched
unfolding cut_at next_after
remove_at i s =
    if leb (length s.conns) i
    then s
    else record s { conns = cut_at i s.conns; next = next_after i s.next (length s.conns - 1) }

-- The index of the first entry that is the stream.
unfoldable pub index_of : ℕ → List ℕ → Option ℕ
index_of id [] = none
index_of id (x ∷ xs) =
    let later = index_of id xs in
    if x == id then some 0 else elim later [ none ↦ none | some i ↦ some (suc i) ]

-- The loop that removes the stream from the slice.
unfoldable pub unqueue : ℕ → Sched → Sched
unfolding index_of remove_at
unqueue id s = elim (index_of id s.conns) [ none ↦ s | some i ↦ remove_at i s ]

-- delete(s.active, conn) and the loop.
unfoldable pub drop_conn : ℕ → Sched → Sched
unfolding unqueue without
drop_conn id s = unqueue id (record s { active = without id s.active })

unfoldable pub put : ℕ → Conn → Sched → Sched
unfolding write
put id c s = record s { store = write id c s.store }

-- `addConn`.
unfoldable pub add_conn : ℕ → ℕ → Sched → Sched
unfolding put is_active
add_conn now id s =
    let c = s.store id in
    if s.closed || (c.is_closed || c.eof)
    then s
    else if is_active id s.active
    then s
    else put id
        (record c {
          idle_delay = idle_initial;
          error_delay = idle_initial;
          next_poll = none;
          in_flight = 0;
          window = 1;
          last_progress = some now;
          last_payload = none;
        })
        (record s { active = id ∷ s.active; conns = s.conns ++ id ∷ [] })

-- `removeConn`.
unfoldable pub remove_conn : ℕ → Sched → Sched
unfolding drop_conn is_active
remove_conn id s = if is_active id s.active then drop_conn id s else s

-- `close`.
unfoldable pub close : Sched → Sched
close s = record s { closed = true; active = []; conns = [] }

-- `stats`, over the streams of `active`.
unfoldable pub total_in_flight : (ℕ → Conn) → List ℕ → ℕ
total_in_flight store [] = 0
total_in_flight store (id ∷ ids) = (store id).in_flight + total_in_flight store ids

unfoldable pub stats : Sched → ℕ × (ℕ × ℕ)
unfolding total_in_flight
stats s = (length s.active, (length s.conns, total_in_flight s.store s.active))
