-- ===== src/BondServer/Rooms.antt =====
-- The rooms of a bond and their workers, and the choice of a worker for a packet: internal/wgturn/bond.go, `addWorker`
-- to `removeWorker`, `schedule` and `activeRoomAt`. A channel is the frames that wait in it, a worker is told from
-- others by its id; `none` as the result of a call is a panic.
pub mod Listed
pub mod Turns
pub mod Order
pub mod Refresh
pub mod Rounds
pub mod Schedule
pub mod Workers
pub mod Reached
mod Tests
use tamizdat.Prelude.Assoc.{Assoc, lookup, insert, erase}
use tamizdat.Prelude.Bytes.{Bytes}
use tamizdat.Prelude.{
  ℕ, Bool, List, Option, none, some, ◌∷◌, [], ◌++◌, length, get_elem?, leb, ltb, ◌==◌,
  if◌then◌else◌, not, ◌%◌, ◌+◌, ◌-◌, true, false, suc, zero,
}

abbrev pub bond_small_packet_max : ℕ
bond_small_packet_max = 384

abbrev pub bond_worker_queue : ℕ
bond_worker_queue = 128

-- `bondWorker`; `send` is what waits in the channel.
pub record BondWorker : Type 0 where
  pub id : ℕ
  pub room : ℕ
  pub worker : ℕ
  pub send : List Bytes

-- `bondRoom` with its metrics of the way down.
pub record BondRoom : Type 0 where
  pub workers : Assoc BondWorker
  pub worker_order : List ℕ
  pub rr : ℕ
  pub down_packets : ℕ
  pub down_bytes : ℕ
  pub drops : ℕ

-- The part of `serverBond` for its workers; `cleanup` is the generation of the timer that is armed.
pub record Rooms : Type 0 where
  pub rooms : Assoc BondRoom
  pub room_order : List ℕ
  pub primary_room : ℕ
  pub rr_room : ℕ
  pub workers : ℕ
  pub empty_gen : ℕ
  pub cleanup : Option ℕ
  pub schedule_drop : ℕ

unfoldable pub new_rooms : ℕ → Rooms
new_rooms primary = record {
  rooms = [];
  room_order = [];
  primary_room = primary;
  rr_room = 0;
  workers = 0;
  empty_gen = 0;
  cleanup = none;
  schedule_drop = 0;
}

-- `sort.Ints(append(order, id))` on an order that is sorted.
unfoldable pub insert_sorted : ℕ → List ℕ → List ℕ
insert_sorted x [] = x ∷ []
insert_sorted x (y ∷ ys) = let rest = insert_sorted x ys in if ltb x y then x ∷ y ∷ ys else y ∷ rest

unfoldable pub empty_room : BondRoom
empty_room = record {
  workers = [];
  worker_order = [];
  rr = 0;
  down_packets = 0;
  down_bytes = 0;
  drops = 0;
}

-- The worker's entry in its room, and the worker that it takes the place of.
unfoldable pub join_room : BondWorker → BondRoom → BondRoom × Option BondWorker
unfolding insert_sorted
join_room w room = elim (lookup w.worker room.workers) [
  | some old ↦ (record room { workers = insert w.worker w room.workers }, some old)
  | none ↦ (
    record room {
      workers = insert w.worker w room.workers;
      worker_order = insert_sorted w.worker room.worker_order;
    },
    none,
  )
]

-- `addWorker` behind the look-up of the room.
unfoldable pub add_to : BondWorker → BondRoom → Rooms → Rooms
unfolding join_room
add_to w room b =
    let (room', old) = join_room w room in
    record b {
      rooms = insert w.room room' b.rooms;
      workers = elim old [ none ↦ b.workers + 1 | some other ↦ b.workers ];
      empty_gen = b.empty_gen + 1;
      cleanup = none;
    }

-- `addWorker`.
unfoldable pub add_worker : BondWorker → Rooms → Rooms
unfolding add_to empty_room insert_sorted
add_worker w b = elim (lookup w.room b.rooms) [
  | some room ↦ add_to w room b
  | none ↦ add_to w empty_room (record b { room_order = insert_sorted w.room b.room_order })
]

-- The loop of `removeWorker`: the first entry of the number goes.
unfoldable pub without : ℕ → List ℕ → List ℕ
without x [] = []
without x (y ∷ ys) = if y == x then ys else y ∷ without x ys

-- `armEmptyCleanupLocked`.
unfoldable pub arm_empty_cleanup : Rooms → Rooms
arm_empty_cleanup b =
    if not (b.workers == 0)
    then b
    else record b { empty_gen = b.empty_gen + 1; cleanup = some (b.empty_gen + 1) }

-- `removeWorker` where the worker is the one of the room.
unfoldable pub leave_room : BondWorker → BondRoom → Rooms → Rooms
unfolding without arm_empty_cleanup
leave_room w room b = arm_empty_cleanup (record b {
  rooms =
      insert w.room
        (record room {
          workers = erase w.worker room.workers;
          worker_order = without w.worker room.worker_order;
        })
        b.rooms;
  workers = b.workers - 1;
})

-- `removeWorker`.
unfoldable pub remove_worker : BondWorker → Rooms → Rooms
unfolding leave_room
remove_worker w b = elim (lookup w.room b.rooms) [
  | none ↦ b
  | some room ↦ elim (lookup w.worker room.workers) [
    | none ↦ b
    | some other ↦ if other.id == w.id then leave_room w room b else b
  ]
]

-- The answer of the timer: whether the bond is removed.
unfoldable pub cleanup_fires : ℕ → Rooms → Rooms × Bool
cleanup_fires gen b =
    if b.workers == 0
    then (if b.empty_gen == gen then (record b { cleanup = none }, true) else (b, false))
    else (b, false)

-- The rooms with workers among those of an order, as `schedule` and `activeRoomAt` count them: a room that is missing
-- panics.
unfoldable pub active_of : Assoc BondRoom → List ℕ → Option (List ℕ)
active_of rooms [] = some []
active_of rooms (id ∷ ids) =
    let rest = active_of rooms ids in
    elim (lookup id rooms) [
      | none ↦ none
      | some room ↦ elim rest [
        | none ↦ none
        | some more ↦ some (if length room.workers == 0 then more else id ∷ more)
      ]
    ]

-- The loop of `schedule` for a small packet: the place among the active rooms of the first from the primary on.
unfoldable pub primary_ordinal : ℕ → ℕ → List ℕ → ℕ
primary_ordinal primary ordinal [] = 0
primary_ordinal primary ordinal (id ∷ ids) =
    if leb primary id then ordinal else primary_ordinal primary (ordinal + 1) ids

unfoldable pub start_room : ℕ → Rooms → List ℕ → ℕ
unfolding primary_ordinal
start_room payload_len b active =
    if leb payload_len bond_small_packet_max
    then primary_ordinal b.primary_room 0 active
    else b.rr_room % length active

-- The send of `schedule` to a worker of the room.
unfoldable pub send_to : Bytes → ℕ → ℕ → ℕ → BondWorker → BondRoom → BondRoom
send_to frame payload_len index id w room = record room {
  workers = insert id (record w { send = w.send ++ frame ∷ [] }) room.workers;
  rr = index + 1;
  down_packets = room.down_packets + 1;
  down_bytes = room.down_bytes + payload_len;
}

-- The loop over the workers of a room, with the tries left: the room, and whether the frame has gone.
unfoldable pub try_workers : ℕ → Bytes → ℕ → ℕ → ℕ → BondRoom → Option (BondRoom × Bool)
unfolding send_to
try_workers zero frame payload_len start offset room = some (room, false)
try_workers (suc tries) frame payload_len start offset room =
    let index = (start + offset) % length room.worker_order in
    let rest =
      try_workers tries frame payload_len start (offset + 1)
        (record room { drops = room.drops + 1 }) in
    elim (get_elem? room.worker_order index) [
      | none ↦ none
      | some id ↦ elim (lookup id room.workers) [
        | none ↦ none
        | some w ↦
            if ltb (length w.send) bond_worker_queue
            then some (send_to frame payload_len index id w room, true)
            else rest
      ]
    ]

-- A room's turn; `%` by zero panics.
unfoldable pub try_room : Bytes → ℕ → BondRoom → Option (BondRoom × Bool)
unfolding try_workers
try_room frame payload_len room =
    if length room.worker_order == 0
    then none
    else try_workers (length room.worker_order) frame payload_len
        (room.rr % length room.worker_order) 0 room

-- A large packet moves the next start on.
unfoldable pub sent_from : ℕ → ℕ → Rooms → Rooms
sent_from payload_len index b =
    if ltb bond_small_packet_max payload_len then record b { rr_room = index + 1 } else b

-- `activeRoomAt`.
unfoldable pub active_room_at : ℕ → Rooms → Option ℕ
unfolding active_of
active_room_at want b = elim (active_of b.rooms b.room_order) [
  | none ↦ none
  | some active ↦ elim (get_elem? active want) [
    | none ↦ get_elem? b.room_order 0
    | some id ↦ some id
  ]
]

-- The loop over the active rooms, with the tries left.
unfoldable pub try_rooms : ℕ → Bytes → ℕ → ℕ → ℕ → ℕ → Rooms → Option (Rooms × Bool)
unfolding try_room sent_from active_room_at
try_rooms zero frame payload_len rooms start offset b =
    some (record b { schedule_drop = b.schedule_drop + 1 }, false)
try_rooms (suc tries) frame payload_len rooms start offset b =
    let index = (start + offset) % rooms in
    elim (active_room_at index b) [
      | none ↦ none
      | some id ↦ elim (lookup id b.rooms) [
        | none ↦ none
        | some room ↦ elim (try_room frame payload_len room) [
          | none ↦ none
          | some (room', sent) ↦
              let b' = record b { rooms = insert id room' b.rooms } in
              let rest = try_rooms tries frame payload_len rooms start (offset + 1) b' in
              if sent then some (sent_from payload_len index b', true) else rest
        ]
      ]
    ]

-- `schedule`.
unfoldable pub schedule : Bytes → ℕ → Rooms → Option (Rooms × Bool)
unfolding active_of start_room try_rooms
schedule frame payload_len b = elim (active_of b.rooms b.room_order) [
  | none ↦ none
  | some active ↦
      if length active == 0
      then some (record b { schedule_drop = b.schedule_drop + 1 }, false)
      else try_rooms (length active) frame payload_len (length active)
          (start_room payload_len b active) 0 b
]
