-- ===== src/BondServer/Rooms/Tests.antt =====
-- Frames to the workers of two rooms.
use tamizdat.BondServer.Rooms.{BondWorker, Rooms, new_rooms, add_worker, remove_worker, schedule}
use tamizdat.BondServer.Rooms.Refresh.{worker_at}
use tamizdat.BondServer.Rooms.Schedule.{Scheduled}
use tamizdat.BondServer.Rooms.Reached.{Reached, start_with, joined, parted, Reached-Scheduled}
use tamizdat.Prelude.Assoc.{lookup, insert, erase}
use tamizdat.Prelude.{ℕ, Bool, Option, none, some, ◌∷◌, [], ◌≡◌, refl}

abbrev worker_of : ℕ → ℕ → ℕ → BondWorker
worker_of id room worker = record { id = id; room = room; worker = worker; send = [] }

-- The room 1 stays without workers.
abbrev two_rooms : Rooms
two_rooms = add_worker (worker_of 3 0 2) (
    remove_worker (worker_of 2 1 9)
      (add_worker (worker_of 2 1 9) (add_worker (worker_of 1 4 1) (new_rooms 2))))

two_rooms-Reached : Reached two_rooms
two_rooms-Reached =
    joined (worker_of 3 0 2)
      (remove_worker (worker_of 2 1 9)
        (add_worker (worker_of 2 1 9) (add_worker (worker_of 1 4 1) (new_rooms 2))))
      (parted (worker_of 2 1 9)
        (add_worker (worker_of 2 1 9) (add_worker (worker_of 1 4 1) (new_rooms 2)))
        (joined (worker_of 2 1 9) (add_worker (worker_of 1 4 1) (new_rooms 2))
          (joined (worker_of 1 4 1) (new_rooms 2) (start_with 2))))

abbrev gets : Option (Rooms × Bool) → ℕ → ℕ → Option BondWorker
gets none r k = none
gets (some (b, done)) r k = worker_at b.rooms r k

-- A small packet goes to the first room from the primary on that has workers.
small_packet :
    gets (schedule (7 ∷ []) 100 two_rooms) 4 1
    ≡ some (record (worker_of 1 4 1) { send = (7 ∷ []) ∷ [] })
unfolding schedule add_worker remove_worker new_rooms worker_at lookup insert erase
small_packet = refl

Reached-Scheduled_example : Scheduled (7 ∷ []) two_rooms (schedule (7 ∷ []) 100 two_rooms)
Reached-Scheduled_example = Reached-Scheduled (7 ∷ []) 100 two_rooms two_rooms-Reached
