-- ===== src/BondServer/Rooms/Workers.antt =====
-- A worker that joins or leaves keeps the orders.
use tamizdat.BondServer.Rooms.{
  BondWorker, BondRoom, Rooms, join_room, empty_room, add_worker, arm_empty_cleanup, leave_room,
  remove_worker, new_rooms, add_to, without, insert_sorted,
}
use tamizdat.BondServer.Rooms.Listed.{Lists, insert_new-Lists, insert_old-Lists, erase-Lists}
use tamizdat.BondServer.Rooms.Order.{IsListed}
use tamizdat.BondServer.Rooms.Refresh.{refresh-IsListed}
use tamizdat.BondServer.Rooms.Schedule.{IsListedIn}
use tamizdat.Prelude.Assoc.{Assoc, lookup, erase, insert, lookup-insert}
use tamizdat.Prelude.{
  not, ◌-◌, ℕ, List, none, some, [], ◌==◌, arith, ◌≡◌, refl, Option-cases, Bool-cases, inl, inr,
  ◌∙◌, sym,
}
use mathlib.Core.Path.{subst}

empty-Lists : {V : Type 0} → Lists {V = V} [] []
unfolding lookup
empty-Lists = record { there = λ k h. absurd h; listed = λ k h. h refl; once = tt; distinct = tt }

join_room-Lists :
    (w : BondWorker) (room : BondRoom)
    → Lists room.worker_order room.workers
    → Lists (join_room w room).0.worker_order (join_room w room).0.workers
unfolding join_room
join_room-Lists w room v = elim (Option-cases (lookup w.worker room.workers)) [
  | inl e ↦ rw (e, join_room) (insert_new-Lists room.worker_order room.workers v w.worker w e)
  | inr (old, e) ↦
      rw (e, join_room)
        (insert_old-Lists room.worker_order room.workers v w.worker w (λ missing. cc))
]

-- A room that is new.
new_room-IsListed :
    (rooms : Assoc BondRoom) (order : List ℕ) (id : ℕ) (room : BondRoom)
    → lookup id rooms ≡ none
    → Lists room.worker_order room.workers
    → IsListed rooms order
    → IsListed (insert id room rooms) (insert_sorted id order)
new_room-IsListed rooms order id room e v l = record {
  all = insert_new-Lists order rooms l.all id room e;
  each = λ k r f. elim (Bool-cases (id == k)) [
    | inl same ↦
        let here : some room ≡ some r = sym (lookup-insert id k room rooms ∙ rw same refl) ∙ f in
        let own : room ≡ r = ground arith in
        subst (λ (x : BondRoom). Lists x.worker_order x.workers) own v
    | inr other ↦ l.each k r (sym (lookup-insert id k room rooms ∙ rw other refl) ∙ f)
  ];
}

empty_room-Lists : Lists empty_room.worker_order empty_room.workers
unfolding empty_room
empty_room-Lists = empty-Lists

pub add_worker-IsListedIn :
    (w : BondWorker) (b : Rooms) → IsListedIn b → IsListedIn (add_worker w b)
unfolding add_worker add_to
add_worker-IsListedIn w b l = elim (Option-cases (lookup w.room b.rooms)) [
  | inl e ↦
      rw (e, add_worker)
        (new_room-IsListed b.rooms b.room_order w.room (join_room w empty_room).0 e
          (join_room-Lists w empty_room empty_room-Lists) l)
  | inr (room, e) ↦
      rw (e, add_worker)
        (refresh-IsListed b.rooms w.room room (join_room w room).0 e b.room_order
          (join_room-Lists w room (l.each w.room room e)) l)
]

arm_empty_cleanup-IsListedIn : (b : Rooms) → IsListedIn b → IsListedIn (arm_empty_cleanup b)
unfolding arm_empty_cleanup
arm_empty_cleanup-IsListedIn b l = elim (Bool-cases (not (b.workers == 0))) [
  | inl some_left ↦ rw some_left l
  | inr empty ↦ rw empty l
]

abbrev left_room : BondWorker → BondRoom → BondRoom
left_room w room = record room {
  workers = erase w.worker room.workers;
  worker_order = without w.worker room.worker_order;
}

leave_room-IsListedIn :
    (w : BondWorker) (room : BondRoom) (b : Rooms)
    → lookup w.room b.rooms ≡ some room
    → IsListedIn b
    → IsListedIn (leave_room w room b)
unfolding leave_room
leave_room-IsListedIn w room b e l =
    arm_empty_cleanup-IsListedIn
      (record b { rooms = insert w.room (left_room w room) b.rooms; workers = b.workers - 1 })
      (refresh-IsListed b.rooms w.room room (left_room w room) e b.room_order
        (erase-Lists room.worker_order room.workers (l.each w.room room e) w.worker) l)

pub remove_worker-IsListedIn :
    (w : BondWorker) (b : Rooms) → IsListedIn b → IsListedIn (remove_worker w b)
unfolding remove_worker
remove_worker-IsListedIn w b l = elim (Option-cases (lookup w.room b.rooms)) [
  | inl e ↦ rw (e, remove_worker) l
  | inr (room, e) ↦ elim (Option-cases (lookup w.worker room.workers)) [
    | inl f ↦ rw (e, remove_worker) (rw (f, remove_worker) l)
    | inr (other, f) ↦ elim (Bool-cases (other.id == w.id)) [
      | inl own ↦
          rw (e, remove_worker)
            (rw (f, remove_worker) (rw own (leave_room-IsListedIn w room b e l)))
      | inr foreign ↦ rw (e, remove_worker) (rw (f, remove_worker) (rw foreign l))
    ]
  ]
]

pub new_rooms-IsListedIn : (primary : ℕ) → IsListedIn (new_rooms primary)
unfolding new_rooms lookup
new_rooms-IsListedIn primary = record { all = empty-Lists; each = λ k room e. absurd (cc) }
