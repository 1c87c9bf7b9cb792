-- ===== src/BondServer/Rooms/Schedule.antt =====
-- `schedule` hands a frame to one worker, wherever it starts, unless all are full.
use tamizdat.BondServer.Rooms.{
  BondWorker, BondRoom, Rooms, try_room, try_rooms, sent_from, active_room_at, bond_worker_queue,
  start_room, primary_ordinal, active_of,
}
use tamizdat.BondServer.Rooms.Turns.{Sent, get_elem?-Has}
use tamizdat.BondServer.Rooms.Order.{Turn, try_room-Turn, IsListed, ActiveOf, order_of_workers}
use tamizdat.BondServer.Rooms.Refresh.{worker_at, refresh-ActiveOf, refresh-IsListed}
use tamizdat.BondServer.Rooms.Rounds.{
  Delivered, Unchanged, RoomFull, Sent-Lists, Unsent-Lists, Sent-Delivered, Unsent-Unchanged,
  then-Delivered,
}
use tamizdat.Prelude.Assoc.{Assoc, lookup, insert}
use native.Mathlib.Nat.{mod-lt}
use tamizdat.Prelude.Bytes.{Bytes}
use tamizdat.Prelude.{
  ℕ, Bool, List, Option, none, some, ◌∷◌, [], length, get_elem?, ltb, true, false, arith, ◌≡◌, refl,
  Bool-cases, inl, inr, ap, sym, ◌∙◌, ◌%◌, ◌+◌, ◌≤◌, ◌<◌, suc, zero,
}
use native.Mathlib.Decide.{ℕ_discrete}
use mathlib.Core.Path.{subst}

abbrev pub IsListedIn : Rooms → Type 0
IsListedIn b = IsListed b.rooms b.room_order

-- What the loop gives from an offset on.
abbrev pub Went : Bytes → List ℕ → ℕ → ℕ → ℕ → Rooms → Option (Rooms × Bool) → Type 0
Went frame active start offset tries b none = ⊥
Went frame active start offset tries b (some (b', true)) =
    Delivered frame b.rooms b'.rooms × IsListedIn b'
Went frame active start offset tries b (some (b', false)) =
    Unchanged b.rooms b'.rooms
    × IsListedIn b'
    × ((j : ℕ)
        → offset ≤ j
        → j < offset + tries
        → RoomFull active b.rooms ((start + j) % length active))

active_room_at-eq :
    (b : Rooms) (active : List ℕ) (i id : ℕ)
    → active_of b.rooms b.room_order ≡ some active
    → get_elem? active i ≡ some id
    → active_room_at i b ≡ some id
unfolding active_room_at
active_room_at-eq b active i id e f = rw (e, f, active_room_at) refl

sent_from-rooms :
    (n i : ℕ) (b : Rooms)
    → ((sent_from n i b).rooms ≡ b.rooms) × ((sent_from n i b).room_order ≡ b.room_order)
unfolding sent_from
sent_from-rooms n i b = elim (Bool-cases (ltb 384 n)) [
  | inl large ↦ (rw large refl, rw large refl)
  | inr small ↦ (rw small refl, rw small refl)
]

abbrev with_room : ℕ → BondRoom → Rooms → Rooms
with_room id room b = record b { rooms = insert id room b.rooms }

module _ (frame : Bytes) (payload_len start : ℕ) (active : List ℕ) where
  abbrev pub spot : ℕ → ℕ
  spot offset = (start + offset) % length active

  try_rooms_sent :
      (tries offset id : ℕ) (b : Rooms) (room room' : BondRoom)
      → active_room_at (spot offset) b ≡ some id
      → lookup id b.rooms ≡ some room
      → try_room frame payload_len room ≡ some (room', true)
      → try_rooms (suc tries) frame payload_len (length active) start offset b
        ≡ some (sent_from payload_len (spot offset) (with_room id room' b), true)
  unfolding try_rooms
  try_rooms_sent tries offset id b room room' e f g = rw (e, f, try_rooms) (rw (g, try_rooms) refl)

  try_rooms_unsent :
      (tries offset id : ℕ) (b : Rooms) (room room' : BondRoom)
      → active_room_at (spot offset) b ≡ some id
      → lookup id b.rooms ≡ some room
      → try_room frame payload_len room ≡ some (room', false)
      → try_rooms (suc tries) frame payload_len (length active) start offset b
        ≡ try_rooms tries frame payload_len
            (length active)
            start
            (offset + 1)
            (with_room id room' b)
  unfolding try_rooms
  try_rooms_unsent tries offset id b room room' e f g =
      rw (e, f, try_rooms) (rw (g, try_rooms) refl)

  Sent-Went :
      (tries offset index id : ℕ) (b : Rooms) (room room' : BondRoom)
      → IsListedIn b
      → lookup id b.rooms ≡ some room
      → Sent frame room room'
      → Went frame active start offset tries b
          (some (sent_from payload_len index (with_room id room' b), true))
  Sent-Went tries offset index id b room room' l e s =
      let (same, order) = sent_from-rooms payload_len index (with_room id room' b) in
      rw (same, order)
        (
          Sent-Delivered frame b.rooms id room room' e s,
          refresh-IsListed b.rooms id room room' e b.room_order
              (Sent-Lists frame room room' (l.each id room e) s) l,
        )

  -- A room whose workers are full, and the rounds behind it.
  next-Went :
      (tries offset : ℕ) (b b1 : Rooms) (result : Option (Rooms × Bool))
      → Unchanged b.rooms b1.rooms
      → RoomFull active b.rooms (spot offset)
      → Went frame active start (offset + 1) tries b1 result
      → Went frame active start offset (suc tries) b result
  next-Went tries offset b b1 none u full w = w
  next-Went tries offset b b1 (some (b', true)) u full (d, l) =
      (then-Delivered frame b.rooms b1.rooms b'.rooms u d, l)
  next-Went tries offset b b1 (some (b', false)) u full (u', l, rest) = (
    λ r k. u' r k ∙ u r k,
    l,
    λ j lo hi. elim (ℕ_discrete offset j) [
      | yes here ↦ subst (λ (i : ℕ). RoomFull active b.rooms (spot i)) here full
      | no later ↦
          λ r k w e f. rest j (omega (arith, later)) (omega (arith, later)) r k w e (u r k ∙ f)
    ],
  )

  full_room :
      (b : Rooms) (i id : ℕ) (room : BondRoom)
      → get_elem? active i ≡ some id
      → lookup id b.rooms ≡ some room
      → ((k : ℕ) (w : BondWorker)
          → lookup k room.workers ≡ some w
          → bond_worker_queue ≤ length w.send)
      → RoomFull active b.rooms i
  unfolding worker_at
  full_room b i id room e f full r k w g h =
      let same : id ≡ r = ground arith in
      let there : lookup r b.rooms ≡ some room = ap (λ (x : ℕ). lookup x b.rooms) (sym same) ∙ f in
      let found : lookup k room.workers ≡ some w = rw (there, worker_at) at h in full k w found

  abbrev pub Loop : ℕ → ℕ → Rooms → Type 0
  Loop tries offset b =
      Went frame active start offset tries b
        (try_rooms tries frame payload_len (length active) start offset b)

  -- A turn of a room, with what its loop gives behind it.
  Turn-Went :
      (tries offset id : ℕ) (b : Rooms) (room : BondRoom) (result : Option (BondRoom × Bool))
      → IsListedIn b
      → get_elem? active (spot offset) ≡ some id
      → active_room_at (spot offset) b ≡ some id
      → lookup id b.rooms ≡ some room
      → Turn frame room result
      → try_room frame payload_len room ≡ result
      → ((room' : BondRoom)
          → IsListedIn (with_room id room' b)
          → length room'.workers ≡ length room.workers
          → Loop tries (offset + 1) (with_room id room' b))
      → Loop (suc tries) offset b
  Turn-Went tries offset id b room none l at here e t f rest = absurd t
  Turn-Went tries offset id b room (some (room', true)) l at here e t f rest =
      rw (try_rooms_sent tries offset id b room room' here e f)
        (Sent-Went (suc tries) offset (spot offset) id b room room' l e t)
  Turn-Went tries offset id b room (some (room', false)) l at here e (u, full) f rest =
      let listed =
        refresh-IsListed b.rooms id room room' e b.room_order
          (Unsent-Lists room room' (l.each id room e) u) l in
      let size = ap (λ (m : Assoc BondWorker). length m) u.workers in
      rw (try_rooms_unsent tries offset id b room room' here e f) (
        next-Went tries offset b (with_room id room' b)
          (try_rooms tries frame payload_len (length active) start (offset + 1)
            (with_room id room' b))
          (Unsent-Unchanged frame b.rooms id room room' e u)
          (full_room b (spot offset) id room at e full) (rest room' listed size))

  pub try_rooms-Went :
      (tries offset : ℕ) (b : Rooms)
      → IsListedIn b
      → ActiveOf b.rooms b.room_order active
      → 1 ≤ length active
      → Loop tries offset b
  try_rooms-Went zero offset b l a pos =
      let stop : try_rooms zero frame payload_len (length active) start offset b
          ≡ some (record b { schedule_drop = b.schedule_drop + 1 }, false) =
        unfold try_rooms in refl in
      rw stop ((λ r k. refl), l, λ j lo hi. absurd (omega arith))
  try_rooms-Went (suc tries) offset b l a pos =
      let (id, at, there) = get_elem?-Has active (spot offset) (mod-lt (start + offset) pos) in
      let (room, e, busy) = a.filled id there in
      let v = l.each id room e in
      Turn-Went tries offset id b room (try_room frame payload_len room) l at
        (active_room_at-eq b active (spot offset) id a.known at) e
        (try_room-Turn frame payload_len room v (order_of_workers room v busy)) refl
        (λ room' listed size.
          try_rooms-Went tries (offset + 1) (with_room id room' b) listed
            (refresh-ActiveOf b.rooms id room room' e size b.room_order active a) pos)

primary_ordinal-lt :
    (primary ordinal : ℕ) (ids : List ℕ)
    → 1 ≤ ordinal + length ids
    → primary_ordinal primary ordinal ids < ordinal + length ids
unfolding primary_ordinal
primary_ordinal-lt primary ordinal [] h = omega arith
primary_ordinal-lt primary ordinal (id ∷ ids) h =
    ground (arith, primary_ordinal-lt primary (ordinal + 1) ids (omega arith))

pub start_room-lt :
    (payload_len : ℕ) (b : Rooms) (active : List ℕ)
    → 1 ≤ length active
    → start_room payload_len b active < length active
unfolding start_room
start_room-lt payload_len b active h =
    ground (arith, primary_ordinal-lt b.primary_room 0 active, mod-lt b.rr_room h)

-- What `schedule` gives: no panic; the frame with one worker, or all workers full.
abbrev pub Scheduled : Bytes → Rooms → Option (Rooms × Bool) → Type 0
Scheduled frame b none = ⊥
Scheduled frame b (some (b', true)) = Delivered frame b.rooms b'.rooms × IsListedIn b'
Scheduled frame b (some (b', false)) =
    Unchanged b.rooms b'.rooms
    × IsListedIn b'
    × ((r k : ℕ) (w : BondWorker)
        → worker_at b.rooms r k ≡ some w
        → bond_worker_queue ≤ length w.send)
