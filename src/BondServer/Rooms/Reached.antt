-- ===== src/BondServer/Rooms/Reached.antt =====
-- The rooms that joins, leaves and sends come to, and what `schedule` does there.
use tamizdat.BondServer.Rooms.{
  BondWorker, BondRoom, Rooms, schedule, start_room, try_rooms, active_of, new_rooms, add_worker,
  remove_worker,
}
use tamizdat.BondServer.Rooms.Turns.{Has-get_elem?, turn_reaches}
use tamizdat.BondServer.Rooms.Order.{ActiveOf, ActiveOf-total}
use tamizdat.BondServer.Rooms.Refresh.{worker_at}
use tamizdat.BondServer.Rooms.Workers.{
  add_worker-IsListedIn, remove_worker-IsListedIn, new_rooms-IsListedIn,
}
use tamizdat.BondServer.Rooms.Schedule.{Went, Scheduled, IsListedIn, try_rooms-Went, start_room-lt}
use tamizdat.Prelude.Assoc.{Assoc, lookup}
use tamizdat.Prelude.Bytes.{Bytes}
use tamizdat.Prelude.{
  ℕ, Bool, List, Option, none, some, ◌∷◌, [], length, get_elem?, ◌==◌, true, false, arith, ◌≡◌,
  refl, Option-cases, Bool-cases, inl, inr, ap, ◌∙◌, ◌+◌, ◌≤◌, ◌<◌,
}
use mathlib.Core.Path.{subst}

worker_at-room :
    (rooms : Assoc BondRoom) (r k : ℕ) (w : BondWorker)
    → worker_at rooms r k ≡ some w
    → (room : BondRoom) × (lookup r rooms ≡ some room) × (lookup k room.workers ≡ some w)
unfolding worker_at
worker_at-room rooms r k w h = elim (Option-cases (lookup r rooms)) [
  | inl e ↦
      let gone : ◌≡◌ {A = Option BondWorker} none (some w) = rw (e, worker_at) at h in absurd (cc)
  | inr (room, e) ↦ (room, e, rw (e, worker_at) at h)
]

busy_of_key :
    {V : Type 0} (m : Assoc V) (k : ℕ) (w : V) → lookup k m ≡ some w → (length m == 0) ≡ false
unfolding lookup
busy_of_key [] k w h = absurd (cc)
busy_of_key (x ∷ m) k w h = ground arith

Went-Scheduled :
    (frame : Bytes) (active : List ℕ) (start : ℕ) (b : Rooms) (result : Option (Rooms × Bool))
    → start < length active
    → IsListedIn b
    → ActiveOf b.rooms b.room_order active
    → Went frame active start 0 (length active) b result
    → Scheduled frame b result
Went-Scheduled frame active start b none h l a w = w
Went-Scheduled frame active start b (some (b', true)) h l a w = w
Went-Scheduled frame active start b (some (b', false)) h l a (u, listed, full) = (
  u,
  listed,
  λ r k w e.
      let (room, there, own) = worker_at-room b.rooms r k w e in
      let known = l.all.listed r (λ missing. cc) in
      let here = a.every r room known there (busy_of_key room.workers k w own) in
      let (i, lt, at) = Has-get_elem? active r here in
      let (j, near, turn) = turn_reaches (length active) start i h lt in
      full j (omega arith) (omega arith) r k w (ap (get_elem? active) turn ∙ at) e,
)

schedule_idle :
    (frame : Bytes) (payload_len : ℕ) (b : Rooms) (active : List ℕ)
    → active_of b.rooms b.room_order ≡ some active
    → (length active == 0) ≡ true
    → schedule frame payload_len b ≡ some (record b { schedule_drop = b.schedule_drop + 1 }, false)
unfolding schedule
schedule_idle frame payload_len b active e idle = rw (e, schedule) (rw idle refl)

schedule_busy :
    (frame : Bytes) (payload_len : ℕ) (b : Rooms) (active : List ℕ)
    → active_of b.rooms b.room_order ≡ some active
    → (length active == 0) ≡ false
    → schedule frame payload_len b
      ≡ try_rooms
          (length active)
          frame
          payload_len
          (length active)
          (start_room payload_len b active)
          0
          b
unfolding schedule
schedule_busy frame payload_len b active e busy = rw (e, schedule) (rw busy refl)

pub schedule-Scheduled :
    (frame : Bytes) (payload_len : ℕ) (b : Rooms)
    → IsListedIn b
    → Scheduled frame b (schedule frame payload_len b)
schedule-Scheduled frame payload_len b l =
    let (active, a) = ActiveOf-total b.rooms b.room_order l.all.there in
    elim (Bool-cases (length active == 0)) [
      | inl idle ↦ rw (schedule_idle frame payload_len b active a.known idle) (
        (λ r k. refl),
        l,
        λ r k w e.
            let (room, there, own) = worker_at-room b.rooms r k w e in
            let known = l.all.listed r (λ missing. cc) in
            let here = a.every r room known there (busy_of_key room.workers k w own) in
            let (i, lt, at) = Has-get_elem? active r here in absurd (ground arith),
      )
      | inr busy ↦
          let start = start_room payload_len b active in
          let pos : 1 ≤ length active = ground arith in
          rw (schedule_busy frame payload_len b active a.known busy) (
            Went-Scheduled frame active start b
              (try_rooms (length active) frame payload_len (length active) start 0 b)
              (start_room-lt payload_len b active pos) l a
              (try_rooms-Went frame payload_len start active (length active) 0 b l a pos))
    ]

-- The rooms that a new bond comes to.
pub data Reached : Rooms → Type 0 where
  start_with : (primary : ℕ) → Reached (new_rooms primary)
  joined : (w : BondWorker) (b : Rooms) → Reached b → Reached (add_worker w b)
  parted : (w : BondWorker) (b : Rooms) → Reached b → Reached (remove_worker w b)
  sent :
      (frame : Bytes) (payload_len : ℕ) (b b' : Rooms) (done : Bool)
      → Reached b
      → schedule frame payload_len b ≡ some (b', done)
      → Reached b'

Scheduled-IsListedIn :
    (frame : Bytes) (b b' : Rooms) (done : Bool)
    → Scheduled frame b (some (b', done))
    → IsListedIn b'
Scheduled-IsListedIn frame b b' true (d, l) = l
Scheduled-IsListedIn frame b b' false (u, l, full) = l

Reached-IsListedIn : {b : Rooms} → Reached b → IsListedIn b
Reached-IsListedIn (start_with primary) = new_rooms-IsListedIn primary
Reached-IsListedIn (joined w b r) = add_worker-IsListedIn w b (Reached-IsListedIn r)
Reached-IsListedIn (parted w b r) = remove_worker-IsListedIn w b (Reached-IsListedIn r)
Reached-IsListedIn (sent frame payload_len b b' done r e) =
    Scheduled-IsListedIn frame b b' done
      (subst (Scheduled frame b) e (schedule-Scheduled frame payload_len b (Reached-IsListedIn r)))

-- In the rooms that a new bond comes to by joins, leaves and sends in any order, `schedule` does not panic: it puts
-- the frame behind what waits for one worker that had room for it, and leaves all other workers as they are; or it
-- gives up and leaves all as they are, and then every worker of every room is full.
pub Reached-Scheduled :
    (frame : Bytes) (payload_len : ℕ) (b : Rooms)
    → Reached b
    → Scheduled frame b (schedule frame payload_len b)
Reached-Scheduled frame payload_len b r =
    schedule-Scheduled frame payload_len b (Reached-IsListedIn r)
